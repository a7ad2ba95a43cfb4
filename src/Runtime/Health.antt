-- ===== src/Runtime/Health.antt =====
-- `healthLocked`: the state and the label on the status page.
pub mod Meaning
use bk7252n_gate.Prelude.{
  ℕ, ◌*◌, Bool, true, false, ◌&&◌, ◌||◌, not, none, some, ltb, leb, ◌==◌, if◌then◌else◌, Text, text,
  is_empty,
}
use bk7252n_gate.Config
use bk7252n_gate.Runtime.{
  CameraRuntime, since, is_zero, second, online_traffic_window, stale_traffic_window,
  video_stale_window, audio_stale_window, media_restart_window,
}
use bk7252n_gate.Runtime.Streams.{snapshot_demand}

-- The first string of the result.
pub data State : Type 0 where
  disabled connecting online stale offline : State

pub record Report : Type 0 where
  pub state : State
  pub label : Text

abbrev report : State → Text → Report
report s l = record { state = s; label = l }

unfoldable pub no_session : CameraRuntime → Bool
no_session rt = elim rt.pppp [ none ↦ true | some _ ↦ is_zero rt.connected_at ]

-- Without a session.
unfoldable pub disconnected_health : CameraRuntime → ℕ → Report
disconnected_health rt now =
    if not (is_zero rt.started_at)
      && ((rt.restart_count == 0) && leb (since now rt.started_at) (20 * second))
    then report connecting (text "connecting")
    else (if not (is_zero rt.last_video_at) && leb (since now rt.last_video_at) stale_traffic_window
        then report stale (text "reconnecting")
        else report offline (text "offline"))

-- The last three tests, on the age of the traffic.
unfoldable pub traffic_health : ℕ → Report
traffic_health age =
    if leb age online_traffic_window
    then report online (text "online")
    else (if leb age stale_traffic_window
        then report stale (text "stale")
        else report offline (text "offline"))

-- The test on audio; `video_fresh` is set by the one on video.
unfoldable pub audio_health : CameraRuntime → ℕ → Bool → Report
audio_health rt now video_fresh =
    if is_empty rt.audio_clients
    then traffic_health (since now rt.last_traffic)
    else (if is_zero rt.last_audio_at
        then (if video_fresh
            then report online (text "audio stale")
            else (if leb (since now rt.connected_at) media_restart_window
                then report connecting (text "waiting for audio")
                else report stale (text "audio stale")))
        else (if ltb audio_stale_window (since now rt.last_audio_at)
            then (if video_fresh
                then report online (text "audio stale")
                else (if ltb stale_traffic_window (since now rt.last_audio_at)
                    then report offline (text "audio offline")
                    else report stale (text "audio stale")))
            else traffic_health (since now rt.last_traffic)))

unfoldable pub video_demand : CameraRuntime → ℕ → Bool
video_demand rt now = not (is_empty rt.video_clients) || snapshot_demand rt now

-- The test on video, and then the one on audio.
unfoldable pub video_health : CameraRuntime → ℕ → Report
video_health rt now =
    if not (video_demand rt now)
    then audio_health rt now false
    else (if is_zero rt.last_video_at
        then (if leb (since now rt.connected_at) media_restart_window
            then report connecting (text "waiting for video")
            else report stale (text "video stale"))
        else (if ltb video_stale_window (since now rt.last_video_at)
            then (if ltb stale_traffic_window (since now rt.last_video_at)
                then report offline (text "video offline")
                else report stale (text "video stale"))
            else audio_health rt now true))

unfoldable pub health : CameraRuntime → ℕ → Report
health rt now =
    if not (Config.enabled rt.cfg)
    then report disabled (text "disabled")
    else (if no_session rt
        then disconnected_health rt now
        else (if is_zero rt.last_traffic
            then report connecting (text "connecting")
            else (if ltb stale_traffic_window (since now rt.last_traffic)
                then report offline (text "offline")
                else video_health rt now)))
