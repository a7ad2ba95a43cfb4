-- ===== src/Runtime/Cooldown.antt =====
-- The spacing of restarts, whatever happens to a runtime.
pub mod Nudges
use bk7252n_gate.Prelude.{
  ℕ, ◌+◌, ◌-◌, ◌*◌, ◌≤◌, ◌<◌, ◌≡◌, refl, ◌∙◌, ◌⊎◌, inl, inr, List, [], ◌∷◌, Bool, true, false,
  Bool-cases, Option, some, Option-cases, ltb, Text, text, arith,
}
use bk7252n_gate.Config.{CameraConfig, Ip4}
use bk7252n_gate.Runtime.{
  CameraRuntime, Command, since, is_zero, send_on, restart_cooldown, media_nudge_cooldown,
}
use bk7252n_gate.Runtime.Lifecycle.{
  update_config, stop, restart, drop_result, send_keepalive, health_round, start,
}
use bk7252n_gate.Runtime.Streams.{
  recover_video_for_client, nudge_streams, send_stream, with_mode, request_streams,
  request_audio_only, nudge_or_request, stream_round,
}

-- A step at `now` that either leaves the restart record alone, or restarts once, with the cooldown over.
abbrev pub IsSpaced : ℕ → CameraRuntime → CameraRuntime → Type 0
IsSpaced now rt rt' =
    ((rt'.restart_count ≡ rt.restart_count) × (rt'.last_restart_at ≡ rt.last_restart_at))
    ⊎ ((rt'.restart_count ≡ rt.restart_count + 1)
        × (rt'.last_restart_at ≡ some now)
        × (restart_cooldown ≤ since now rt.last_restart_at))

restart-IsSpaced :
    (rt : CameraRuntime) (now : ℕ) (reason : Text) → IsSpaced now rt (restart rt now reason).0.0
unfolding restart stop since is_zero
restart-IsSpaced rt now reason = ground arith

health_round-IsSpaced : (rt : CameraRuntime) (now : ℕ) → IsSpaced now rt (health_round rt now).0
unfolding health_round drop_result send_keepalive
health_round-IsSpaced rt now = ground (
  arith,
  restart-IsSpaced rt now (text "connect timeout"),
  restart-IsSpaced rt now (text "traffic timeout"),
)

-- A step that leaves the restart record alone.
abbrev IsQuiet : CameraRuntime → CameraRuntime → Type 0
IsQuiet rt rt' = (rt'.restart_count ≡ rt.restart_count) × (rt'.last_restart_at ≡ rt.last_restart_at)

nudge_streams-IsQuiet : (rt : CameraRuntime) (now : ℕ) → IsQuiet rt (nudge_streams rt now).0.0
unfolding nudge_streams
nudge_streams-IsQuiet rt now = ground arith

module _ (marshal : Command → List ℕ) where
  send_on-IsQuiet : (rt : CameraRuntime) (c : Command) → IsQuiet rt (send_on marshal rt c).0.0
  unfolding send_on
  send_on-IsQuiet rt c = ground arith

  send_stream-IsQuiet :
      (rt : CameraRuntime) (b : Bool) (c : Command) (mode : Text)
      → IsQuiet rt (send_stream marshal rt b c mode).0.0
  unfolding send_stream with_mode
  send_stream-IsQuiet rt false c mode = (refl, refl)
  send_stream-IsQuiet rt true c mode = ground (arith, send_on-IsQuiet rt c)

  IsQuiet-after :
      (rt rt' : CameraRuntime) (b : Bool) (c : Command) (mode : Text)
      → IsQuiet rt rt'
      → IsQuiet rt (send_stream marshal rt' b c mode).0.0
  IsQuiet-after rt rt' b c mode h =
      let q = send_stream-IsQuiet rt' b c mode in (q.0 ∙ h.0, q.1 ∙ h.1)

  request_streams-IsQuiet :
      (rt : CameraRuntime) (now : ℕ) (f v : Bool)
      → IsQuiet rt (request_streams marshal rt now f v).0
  unfolding request_streams
  request_streams-IsQuiet rt now f v = elim (Option-cases rt.pppp) [
    | inl e ↦ rw e (refl, refl)
    | inr (pp, e) ↦ rw e (IsQuiet-after rt _ _ _ _ (IsQuiet-after rt _ _ _ _ (refl, refl)))
  ]

  request_audio_only-IsQuiet :
      (rt : CameraRuntime) (now : ℕ) → IsQuiet rt (request_audio_only marshal rt now).0
  unfolding request_audio_only
  request_audio_only-IsQuiet rt now = elim (Option-cases rt.pppp) [
    | inl e ↦ rw e (refl, refl)
    | inr (pp, e) ↦ rw e (IsQuiet-after rt _ _ _ _ (refl, refl))
  ]

  nudge_or_request-IsQuiet :
      (rt : CameraRuntime) (now : ℕ) → IsQuiet rt (nudge_or_request marshal rt now).0
  unfolding nudge_or_request
  nudge_or_request-IsQuiet rt now =
      ground (arith, nudge_streams-IsQuiet rt now, request_streams-IsQuiet rt now false false)

  stream_round-IsSpaced :
      (rt : CameraRuntime) (now : ℕ) → IsSpaced now rt (stream_round marshal rt now).0
  unfolding stream_round
  stream_round-IsSpaced rt now = ground (
    arith,
    restart-IsSpaced rt now (text "video timeout"),
    restart-IsSpaced rt now (text "audio timeout"),
    nudge_or_request-IsQuiet rt now,
    request_audio_only-IsQuiet rt now,
    request_streams-IsQuiet rt now false false,
  )

  recover_video-IsSpaced :
      (rt : CameraRuntime) (now : ℕ) → IsSpaced now rt (recover_video_for_client marshal rt now).0
  unfolding recover_video_for_client
  recover_video-IsSpaced rt now = ground (
    arith,
    restart-IsSpaced rt now (text "client requested stale video"),
    nudge_streams-IsQuiet rt now,
    request_streams-IsQuiet rt now false false,
    request_streams-IsQuiet (restart rt now (text "client requested stale video")).0.0 now false
        false,
  )

-- What can happen to a runtime, at a time: a restart that is asked for (by the HTTP interface or by
-- the end of the socket), a tick of either loop, a start, a client that asks for video, a new configuration.
pub data Happening : Type 0 where
  asked : ℕ → Text → Happening
  health_tick : ℕ → Happening
  stream_tick : ℕ → Happening
  started : ℕ → Happening
  viewed : ℕ → Happening
  reconfigured : ℕ → CameraConfig → Happening

module _ (parse_ip4 : Text → Option Ip4) (marshal : Command → List ℕ) where
  unfoldable pub happen : CameraRuntime → Happening → CameraRuntime
  happen rt (asked now reason) = (restart rt now reason).0.0
  happen rt (health_tick now) = (health_round rt now).0
  happen rt (stream_tick now) = (stream_round marshal rt now).0
  happen rt (started now) = (start parse_ip4 rt now).0
  happen rt (viewed now) = (recover_video_for_client marshal rt now).0
  happen rt (reconfigured now cfg) = (update_config parse_ip4 rt now cfg).0

  unfoldable pub happen_all : CameraRuntime → List Happening → CameraRuntime
  unfolding happen
  happen_all rt [] = rt
  happen_all rt (h ∷ hs) = happen_all (happen rt h) hs

  start-IsQuiet : (rt : CameraRuntime) (now : ℕ) → IsQuiet rt (start parse_ip4 rt now).0
  unfolding start
  start-IsQuiet rt now = ground arith

  update_config-IsQuiet :
      (rt : CameraRuntime) (now : ℕ) (cfg : CameraConfig)
      → IsQuiet rt (update_config parse_ip4 rt now cfg).0
  unfolding update_config start stop
  update_config-IsQuiet rt now cfg = ground arith

  -- `n` restarts took `rt` to `rt'`, the last one at `at`.
  pub record IsPaced (rt rt' : CameraRuntime) (from : ℕ) : Type 0 where
    pub n : ℕ
    pub at : ℕ
    pub last : rt'.last_restart_at ≡ some at
    pub counted : rt'.restart_count ≡ rt.restart_count + n
    pub spaced : from + n * restart_cooldown ≤ at

  IsPaced-step :
      (rt rt' : CameraRuntime) (now from : ℕ)
      → rt.last_restart_at ≡ some from
      → IsSpaced now rt rt'
      → IsPaced rt rt' from
  IsPaced-step rt rt' now from h (inl q) = record {
    n = 0;
    at = from;
    last = q.1 ∙ h;
    counted = omega (arith, q.0);
    spaced = omega arith;
  }
  IsPaced-step rt rt' now from h (inr r) = record {
    n = 1;
    at = now;
    last = r.1;
    counted = r.0;
    spaced = omega (arith, gap);
  }
    where
      gap : restart_cooldown ≤ now - from
      gap = unfold since in rw h at r.2

  happen-IsPaced :
      (rt : CameraRuntime) (e : Happening) (from : ℕ)
      → rt.last_restart_at ≡ some from
      → IsPaced rt (happen rt e) from
  unfolding happen
  happen-IsPaced rt (asked now reason) from h =
      IsPaced-step rt _ now from h (restart-IsSpaced rt now reason)
  happen-IsPaced rt (health_tick now) from h =
      IsPaced-step rt _ now from h (health_round-IsSpaced rt now)
  happen-IsPaced rt (stream_tick now) from h =
      IsPaced-step rt _ now from h (stream_round-IsSpaced marshal rt now)
  happen-IsPaced rt (started now) from h = IsPaced-step rt _ now from h (inl (start-IsQuiet rt now))
  happen-IsPaced rt (viewed now) from h =
      IsPaced-step rt _ now from h (recover_video-IsSpaced marshal rt now)
  happen-IsPaced rt (reconfigured now cfg) from h =
      IsPaced-step rt _ now from h (inl (update_config-IsQuiet rt now cfg))

  -- Over any sequence of requested restarts, ticks of both loops, starts, video clients and new
  -- configurations, from a runtime whose last restart was at `from`: the restart counter grows by
  -- some `n`, and the last restart stands at `from` and `n` cooldowns of five seconds, or later.
  pub happen_all-IsPaced :
      (rt : CameraRuntime) (es : List Happening) (from : ℕ)
      → rt.last_restart_at ≡ some from
      → IsPaced rt (happen_all rt es) from
  unfolding happen_all
  happen_all-IsPaced rt [] from h = record {
    n = 0;
    at = from;
    last = h;
    counted = omega arith;
    spaced = omega arith;
  }
  happen_all-IsPaced rt (e ∷ es) from h =
      let one = happen-IsPaced rt e from h in
      let more = happen_all-IsPaced (happen rt e) es one.at one.last in
      record {
        n = one.n + more.n;
        at = more.at;
        last = more.last;
        counted = omega (arith, one.counted, more.counted);
        spaced = omega (arith, one.spaced, more.spaced);
      }
