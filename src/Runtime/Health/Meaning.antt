-- ===== src/Runtime/Health/Meaning.antt =====
-- What the states on the status page mean.
use bk7252n_gate.Prelude.{ℕ, ◌≤◌, ◌≡◌, Bool, true, false, arith, ◌↔◌, ◌≢◌}
use bk7252n_gate.Config
use bk7252n_gate.Runtime.{CameraRuntime, since, stale_traffic_window, video_stale_window}
use bk7252n_gate.Runtime.Health.{
  disabled, online, no_session, disconnected_health, traffic_health, audio_health, video_demand,
  video_health, health,
}

-- What the state `online` promises.
pub record IsOnline (rt : CameraRuntime) (now : ℕ) : Type 0 where
  pub switched_on : Config.enabled rt.cfg ≡ true
  pub in_session : no_session rt ≡ false
  pub traffic : since now rt.last_traffic ≤ stale_traffic_window
  pub video : video_demand rt now ≡ true → since now rt.last_video_at ≤ video_stale_window

audio_health-ne-disabled :
    (rt : CameraRuntime) (now : ℕ) (f : Bool) → (audio_health rt now f).state ≢ disabled
unfolding audio_health traffic_health
audio_health-ne-disabled rt now f h = ground arith

video_health-online :
    (rt : CameraRuntime) (now : ℕ)
    → (video_health rt now).state ≡ online
    → video_demand rt now ≡ true
    → since now rt.last_video_at ≤ video_stale_window
unfolding video_health
video_health-online rt now h d = ground arith

-- A camera is shown as online only if it is enabled, has a connected session, was heard from in the
-- last 45 seconds, and, while somebody wants video, gave a frame in the last 8 seconds.
pub health-IsOnline :
    (rt : CameraRuntime) (now : ℕ) → (health rt now).state ≡ online → IsOnline rt now
unfolding health disconnected_health
health-IsOnline rt now h = record {
  switched_on = ground arith;
  in_session = ground arith;
  traffic = ground arith;
  video = ground (arith, video_health-online rt now);
}

-- A camera is shown as disabled exactly when it is switched off.
health-disabled_iff :
    (rt : CameraRuntime) (now : ℕ)
    → ((health rt now).state ≡ disabled) ↔ (Config.enabled rt.cfg ≡ false)
unfolding health disconnected_health video_health
health-disabled_iff rt now = (
  λ h. ground (arith, audio_health-ne-disabled rt now true, audio_health-ne-disabled rt now false),
  λ h. ground arith,
)
