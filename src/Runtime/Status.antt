-- ===== src/Runtime/Status.antt =====
-- `Status`, `calcMetric`, `ageMs`, `formatTime`, `resolutionLabel`, `emptyNil`, `emptyIntNil` of bkcam-go/main.go, and
-- `WaitForSession`. The clock does not stand before a time that it gave.
use bk7252n_gate.Prelude.{
  ℕ, ◌+◌, ◌-◌, ◌*◌, ◌/◌, ◌^◌, List, [], ◌∷◌, Bool, true, false, ◌&&◌, ◌||◌, not, Option, none, some,
  ltb, leb, ◌==◌, length, if◌then◌else◌, Text, text, is_empty,
}
use bk7252n_gate.Prelude.Int.{pos}
use bk7252n_gate.Config
use bk7252n_gate.Config.{Ip4, expected_address}
use bk7252n_gate.Input.{Value, null, bool, str, float, int, Object}
use bk7252n_gate.Pages.{sprintf, decimal}
use bk7252n_gate.Runtime.{
  CameraRuntime, second, since, is_zero, video_stale_window, audio_stale_window,
}
use bk7252n_gate.Runtime.Metrics.{Metric, trim_metric}
use bk7252n_gate.Runtime.Health.{State, disabled, connecting, online, stale, offline, health}

-- What `calcMetric` asks of a `float64`, of a number and a duration in nanoseconds: points per second to two
-- places, kilobits per second to one; and the text of a time.
pub record MeterOps (F : Type 0) : Type 0 where
  pub nothing : F
  pub per_second : ℕ → ℕ → F
  pub kbps : ℕ → ℕ → F
  pub print_time : ℕ → Text

unfoldable pub total_bytes : List Metric → ℕ
total_bytes [] = 0
total_bytes (p ∷ points) = p.bytes + total_bytes points

unfoldable pub last_at : ℕ → List Metric → ℕ
last_at at [] = at
last_at at (p ∷ points) = last_at p.at points

-- `calcMetric`: the rate and the bits
unfoldable pub calc_metric : {F : Type 0} → MeterOps F → List Metric → F × F
calc_metric mo [] = (mo.nothing, mo.nothing)
calc_metric mo (p ∷ points) =
    let duration = last_at p.at points - p.at in
    if is_empty points || (duration == 0) then (mo.nothing, mo.nothing) else (
      mo.per_second (length (p ∷ points)) duration,
      mo.kbps (total_bytes (p ∷ points) * 8) duration,
    )

unfoldable pub format_time : {F : Type 0} → MeterOps F → Option ℕ → Value F
format_time mo none = null
format_time mo (some t) = str (mo.print_time t)

unfoldable pub age_ms : {F : Type 0} → ℕ → Option ℕ → Value F
age_ms now none = null
age_ms now (some t) = int (pos ((now - t) / 10 ^ 6))

unfoldable pub empty_nil : {F : Type 0} → Text → Value F
empty_nil s = if is_empty s then null else str s

unfoldable pub empty_int_nil : {F : Type 0} → ℕ → Value F
empty_int_nil i = if i == 0 then null else int (pos i)

unfoldable pub resolution_label : ℕ → ℕ → Text
resolution_label width height =
    if (width == 0) || (height == 0)
    then text "unknown"
    else sprintf (text "%dx%d") (decimal width ∷ decimal height ∷ [])

unfoldable pub state_text : State → Text
state_text disabled = text "disabled"
state_text connecting = text "connecting"
state_text online = text "online"
state_text stale = text "stale"
state_text offline = text "offline"

abbrev is_online : State → Bool
is_online disabled = false
is_online connecting = false
is_online online = true
is_online stale = false
is_online offline = false

-- The field `urls` of a status
unfoldable pub status_urls : Text → Text → List (Text × Text)
status_urls base id =
    (text "page", sprintf (text "%s/cam/%s") (base ∷ id ∷ []))
    ∷ (text "video", sprintf (text "%s/cam/%s/video.mjpg") (base ∷ id ∷ []))
    ∷ (text "audio", sprintf (text "%s/cam/%s/audio.wav") (base ∷ id ∷ []))
    ∷ (text "audioRaw", sprintf (text "%s/cam/%s/audio.raw") (base ∷ id ∷ []))
    ∷ (text "snapshot", sprintf (text "%s/cam/%s/snapshot.jpg") (base ∷ id ∷ []))
    ∷ []

-- What `Status` does to the runtime: the metrics' windows are trimmed.
unfoldable pub trim_windows : CameraRuntime → ℕ → CameraRuntime
trim_windows rt now = record rt {
  video_metric = trim_metric rt.video_metric now;
  audio_metric = trim_metric rt.audio_metric now;
}

module _ (parse_ip4 : Text → Option Ip4) {F : Type 0} (mo : MeterOps F) where
  -- The other fields of `Status`
  unfoldable pub status_fields : CameraRuntime → ℕ → Object F
  status_fields rt now =
      let video = calc_metric mo rt.video_metric in
      let audio = calc_metric mo rt.audio_metric in
      let report = health rt now in
      (text "id", str rt.cfg.id)
      ∷ (text "name", str (Config.name rt.cfg))
      ∷ (text "enabled", bool (Config.enabled rt.cfg))
      ∷ (text "ip", str rt.cfg.ip)
      ∷ (text "discovery", str rt.cfg.discovery)
      ∷ (text "expectedAddress", str (expected_address parse_ip4 rt.cfg))
      ∷ (text "connected", bool (is_online report.state))
      ∷ (text "transportConnected", bool (not (is_zero rt.connected_at)))
      ∷ (text "healthState", str (state_text report.state))
      ∷ (text "healthLabel", str report.label)
      ∷ (text "connectedAt", format_time mo rt.connected_at)
      ∷ (text "peerAddress", empty_nil rt.peer_address)
      ∷ (text "peerPort", empty_int_nil rt.peer_port)
      ∷ (text "lastTrafficAt", format_time mo rt.last_traffic)
      ∷ (text "lastVideoAt", format_time mo rt.last_video_at)
      ∷ (text "lastAudioAt", format_time mo rt.last_audio_at)
      ∷ (text "lastTrafficAgeMs", age_ms now rt.last_traffic)
      ∷ (text "lastVideoAgeMs", age_ms now rt.last_video_at)
      ∷ (text "lastAudioAgeMs", age_ms now rt.last_audio_at)
      ∷ (text "videoFrames", int (pos rt.video_frames))
      ∷ (text "audioFrames", int (pos rt.audio_frames))
      ∷ (text "invalidVideoFrames", int (pos rt.invalid_video_frames))
      ∷ (text "lastInvalidVideoAt", format_time mo rt.last_invalid_video_at)
      ∷ (text "lastInvalidVideoAgeMs", age_ms now rt.last_invalid_video_at)
      ∷ (text "videoFps", float (video.0))
      ∷ (text "audioPacketsPerSecond", float (audio.0))
      ∷ (text "videoKbps", float (video.1))
      ∷ (text "videoMode", int (pos (Config.video_mode rt.cfg)))
      ∷ (text "frameWidth", int (pos rt.frame_width))
      ∷ (text "frameHeight", int (pos rt.frame_height))
      ∷ (text "streamResolution", str (resolution_label rt.frame_width rt.frame_height))
      ∷ (text "audioKbps", float (audio.1))
      ∷ (
        text "videoDemand",
        bool (
            not (is_empty rt.video_clients)
            || ltb (since now rt.last_snapshot_demand) (10 * second)),
      )
      ∷ (text "audioDemand", bool (not (is_empty rt.audio_clients)))
      ∷ (
        text "videoFresh",
        bool
            (not (is_zero rt.last_video_at) && leb (since now rt.last_video_at) video_stale_window),
      )
      ∷ (
        text "audioFresh",
        bool
            (not (is_zero rt.last_audio_at) && leb (since now rt.last_audio_at) audio_stale_window),
      )
      ∷ (text "lastFrameBytes", int (pos rt.last_frame_bytes))
      ∷ (text "streamMode", str rt.stream_mode)
      ∷ (text "avStream", bool (Config.av_stream rt.cfg))
      ∷ (text "videoClients", int (pos (length rt.video_clients)))
      ∷ (text "audioClients", int (pos (length rt.audio_clients)))
      ∷ (text "restartCount", int (pos rt.restart_count))
      ∷ (text "lastError", empty_nil rt.last_error)
      ∷ (text "lastCommand", empty_nil rt.last_command)
      ∷ []

  -- `Status`: the runtime with its windows trimmed, the fields and the links
  unfoldable pub status : CameraRuntime → ℕ → Text → CameraRuntime × Object F × List (Text × Text)
  status rt now base =
      let trimmed = trim_windows rt now in
      (trimmed, status_fields trimmed now, status_urls base rt.cfg.id)

-- A test in the loop of `WaitForSession`: the time at which the deadline is tested, and the runtime that is seen.
pub record Probe : Type 0 where
  pub at : ℕ
  pub seen : CameraRuntime

unfoldable pub is_connected : CameraRuntime → Bool
is_connected rt = not (is_zero rt.connected_at)

-- The loop of `WaitForSession`, and its last look at the runtime.
unfoldable pub wait_for_session : ℕ → List Probe → CameraRuntime → Bool
wait_for_session deadline [] last = is_connected last
wait_for_session deadline (p ∷ probes) last =
    let later = wait_for_session deadline probes last in
    if ltb p.at deadline then is_connected p.seen || later else is_connected last
