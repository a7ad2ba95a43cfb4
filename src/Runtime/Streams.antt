-- ===== src/Runtime/Streams.antt =====
-- `streamLoop` (one tick), `nudgeStreams`, `requestStreams`, `requestAudioOnly`, `sendGetParams` and
-- `recoverVideoForClient`.
use bk7252n_gate.Prelude.{
  ℕ, ◌*◌, ◌^◌, List, [], ◌∷◌, ◌++◌, Bool, true, false, ◌&&◌, ◌||◌, not, Option, none, some, ltb,
  leb, if◌then◌else◌, Text, text, text_eq, is_empty,
}
use bk7252n_gate.Config
use bk7252n_gate.Runtime.{
  CameraRuntime, later, Step, Command, num, since, is_zero, send_on, stream_request_window,
  video_refresh_window, video_stale_window, audio_stale_window, media_restart_window,
  media_nudge_cooldown, snapshot_window,
}
use bk7252n_gate.Runtime.Lifecycle.{restart}

-- `SendCommand(111, "stream", {key: value})`
unfoldable pub stream_command : Text → ℕ → Command
stream_command key value = record { cmd = 111; pro = text "stream"; args = (key, num value) ∷ [] }

unfoldable pub snapshot_demand : CameraRuntime → ℕ → Bool
snapshot_demand rt now = ltb (since now rt.last_snapshot_demand) snapshot_window

-- `lastRequest.IsZero() || now.Sub(lastRequest) >= window`
unfoldable pub is_due : ℕ → Option ℕ → ℕ → Bool
is_due now last window = is_zero last || leb window (since now last)

unfoldable pub stamp : Bool → ℕ → Option ℕ → Option ℕ
stamp true now last = some now
stamp false now last = last

-- `nudgeStreams`: false if it was not time yet.
unfoldable pub nudge_streams : CameraRuntime → ℕ → Step × Bool
nudge_streams rt now =
    let wants_audio = not (is_empty rt.audio_clients) in
    let refused =
      elim rt.pppp [ none ↦ true | some _ ↦ false ]
      || (is_zero rt.connected_at
          || (not (is_zero rt.last_media_nudge)
              && ltb (since now rt.last_media_nudge) media_nudge_cooldown)) in
    if refused then ((rt, []), false) else (
      (
        record rt {
          last_media_nudge = some now;
          last_video_request = some now;
          last_audio_request = stamp wants_audio now rt.last_audio_request;
          stream_mode = text "media nudge";
        },
        later 0 (stream_command (text "video") 0)
            ∷ later (180 * 10 ^ 6) (stream_command (text "video") (Config.video_mode rt.cfg))
            ∷ (if wants_audio
                then later (260 * 10 ^ 6) (stream_command (text "audio") 1) ∷ []
                else []),
      ),
      true,
    )

unfoldable pub with_mode : CameraRuntime → Bool → Text → CameraRuntime
with_mode rt true mode = record rt { stream_mode = mode }
with_mode rt false mode = rt

-- What one tick of `streamLoop` finds.
unfoldable pub has_video : CameraRuntime → ℕ → Bool
has_video rt now =
    not (is_empty rt.video_clients) || (snapshot_demand rt now || is_empty rt.latest_frame)

unfoldable pub is_dead : CameraRuntime → ℕ → Option ℕ → Bool
is_dead rt now last =
    (is_zero last && ltb media_restart_window (since now rt.connected_at))
    || (not (is_zero last) && ltb media_restart_window (since now last))

unfoldable pub is_stale : ℕ → Option ℕ → ℕ → Bool
is_stale now last window = is_zero last || ltb window (since now last)

module _ (marshal : Command → List ℕ) where
  -- A stream command, if it is to be sent; the mode is set if that had no error.
  unfoldable pub send_stream : CameraRuntime → Bool → Command → Text → Step × Bool
  send_stream rt false c mode = ((rt, []), false)
  send_stream rt true c mode =
      let r = send_on marshal rt c in ((with_mode r.0.0 r.1 mode, r.0.1), r.1)

  -- `requestStreams(forceVideo, videoOnly)`; `videoOnly` left out is false.
  unfoldable pub request_streams : CameraRuntime → ℕ → Bool → Bool → Step
  request_streams rt now force_video video_only =
      let wants_video =
        force_video
        || (not (is_empty rt.video_clients)
            || (is_empty rt.latest_frame || snapshot_demand rt now)) in
      let wants_audio = not (is_empty rt.audio_clients) in
      let send_video =
        wants_video && (force_video || is_due now rt.last_video_request stream_request_window) in
      let send_audio =
        wants_audio
        && (not video_only
            && (force_video || is_due now rt.last_audio_request stream_request_window)) in
      let stamped = record rt {
        last_video_request = stamp send_video now rt.last_video_request;
        last_audio_request = stamp send_audio now rt.last_audio_request;
      } in
      let v =
        send_stream stamped send_video (stream_command (text "video") (Config.video_mode rt.cfg))
          (text "video") in
      let a =
        send_stream v.0.0 send_audio (stream_command (text "audio") 1)
          (if v.1 || wants_video then text "audio+video" else text "audio") in
      elim rt.pppp [ none ↦ (stamped, []) | some _ ↦ (a.0.0, v.0.1 ++ a.0.1) ]

  unfoldable pub request_audio_only : CameraRuntime → ℕ → Step
  request_audio_only rt now =
      let send_audio =
        not (is_empty rt.audio_clients) && is_due now rt.last_audio_request stream_request_window in
      let stamped = record rt { last_audio_request = stamp send_audio now rt.last_audio_request } in
      let a = send_stream stamped send_audio (stream_command (text "audio") 1) (
        if text_eq rt.stream_mode (text "video") || text_eq rt.stream_mode (text "audio+video")
        then text "audio+video"
        else text "audio") in
      elim rt.pppp [ none ↦ (stamped, []) | some _ ↦ a.0 ]

  unfoldable pub send_get_params : CameraRuntime → Step × Bool
  send_get_params rt = send_on marshal rt (record { cmd = 101; pro = text "get_parms"; args = [] })

  unfoldable pub nudge_or_request : CameraRuntime → ℕ → Step
  nudge_or_request rt now =
      let nudged = nudge_streams rt now in
      if nudged.1 then nudged.0 else request_streams rt now false false

  -- One tick of `streamLoop`.
  unfoldable pub stream_round : CameraRuntime → ℕ → Step
  stream_round rt now =
      let video = has_video rt now in
      let audio = not (is_empty rt.audio_clients) in
      let stale_video = video && is_stale now rt.last_video_at video_stale_window in
      let stale_audio = audio && is_stale now rt.last_audio_at audio_stale_window in
      let refresh_video =
        video && (not stale_video && is_due now rt.last_video_request video_refresh_window) in
      let dead_video = video && is_dead rt now rt.last_video_at in
      let dead_audio = audio && (not video && is_dead rt now rt.last_audio_at) in
      elim rt.pppp [
        | none ↦ (rt, [])
        | some _ ↦
            if is_zero rt.connected_at
            then (rt, [])
            else (if dead_video
                then (restart rt now (text "video timeout")).0
                else (if dead_audio
                    then (restart rt now (text "audio timeout")).0
                    else (if stale_video
                        then nudge_or_request rt now
                        else (if refresh_video
                            then request_streams rt now false false
                            else (if stale_audio
                                then (if video
                                    then request_audio_only rt now
                                    else nudge_or_request rt now)
                                else (rt, []))))))
      ]

  -- `recoverVideoForClient`
  unfoldable pub recover_video_for_client : CameraRuntime → ℕ → Step
  recover_video_for_client rt now =
      let restarted = restart rt now (text "client requested stale video") in
      let nudged = nudge_streams rt now in
      let last = rt.last_video_at in
      if is_zero rt.connected_at
      then request_streams rt now false false
      else (if is_dead rt now last
          then (if restarted.1 then restarted.0 else request_streams restarted.0.0 now false false)
          else (if (is_zero last && ltb video_stale_window (since now rt.connected_at))
                || (not (is_zero last) && ltb video_stale_window (since now last))
              then (if nudged.1 then nudged.0 else request_streams rt now false false)
              else request_streams rt now false false))
