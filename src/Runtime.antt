-- ===== src/Runtime.antt =====
-- `CameraRuntime` of bkcam-go/main.go: the state that the goroutines of one camera share, with the
-- clock, the timers' effects and the commands. A `time.Time` is an `Option ℕ` in nanoseconds, the
-- zero time being `none`; a method that reads the clock takes `now`. Each method is one step: what
-- the mutex lets other goroutines do inside a method is not modelled.
pub mod Metrics
pub mod Clients
pub mod Lifecycle
pub mod Streams
pub mod Events
pub mod Health
pub mod Commands
pub mod Cooldown
pub mod Status
pub mod Answers
pub mod Overlay
use bk7252n_gate.Prelude.{
  ℕ, ◌+◌, ◌-◌, ◌*◌, ◌^◌, List, [], ◌∷◌, Bool, true, false, Option, none, some, ltb, leb,
  if◌then◌else◌, Text, map,
}
use bk7252n_gate.Prelude.Int.{ℤ}
use bk7252n_gate.Config.{CameraConfig}
use bk7252n_gate.Session.{Session, Effect, send_command}
use Metrics.{Metric}
use Clients.{Client}

abbrev pub second : ℕ
second = 10 ^ 9

-- The longest `time.Duration`, which `Sub` gives for a zero time.
abbrev pub max_duration : ℕ
max_duration = 2 ^ 63 - 1

-- `now.Sub(t)`. A clock that stands before `t` counts as no time: the source compares such a
-- duration with positive bounds only, where a negative one and 0 answer alike.
unfoldable pub since : ℕ → Option ℕ → ℕ
since now none = max_duration
since now (some t) = now - t

-- `t.IsZero()`
unfoldable pub is_zero : Option ℕ → Bool
is_zero none = true
is_zero (some t) = false

abbrev pub online_traffic_window : ℕ
online_traffic_window = 15 * second

abbrev pub stale_traffic_window : ℕ
stale_traffic_window = 45 * second

abbrev pub traffic_restart_window : ℕ
traffic_restart_window = 60 * second

abbrev pub stream_request_window : ℕ
stream_request_window = 2 * second

abbrev pub video_refresh_window : ℕ
video_refresh_window = 30 * second

abbrev pub video_stale_window : ℕ
video_stale_window = 8 * second

abbrev pub audio_stale_window : ℕ
audio_stale_window = 4 * second

abbrev pub media_restart_window : ℕ
media_restart_window = 16 * second

abbrev pub media_nudge_cooldown : ℕ
media_nudge_cooldown = 8 * second

abbrev pub restart_cooldown : ℕ
restart_cooldown = 5 * second

abbrev pub snapshot_window : ℕ
snapshot_window = 10 * second

-- A value in the arguments of a camera command.
pub data Arg : Type 0 where
  num : ℕ → Arg
  txt : Text → Arg

pub record Command : Type 0 where
  pub cmd : ℕ
  pub pro : Text
  pub args : List (Text × Arg)

-- What a step does beside changing the state.
pub data Act : Type 0 where
  net : Effect → Act
  launch : Act  -- `go pp.Run()` and the two loops
  later : ℕ → Command → Act  -- SendCommand after a delay
  start_later : ℕ → Act  -- time.AfterFunc(d, rt.Start)
  request_later : ℕ → Act  -- time.AfterFunc(d, requestStreams(true))
  params_later : ℕ → Act  -- time.AfterFunc(d, sendGetParams)

-- `lastCommandJSON` and the stop channel are left out.
pub record CameraRuntime : Type 0 where
  pub cfg : CameraConfig
  pub pppp : Option Session
  pub started_at : Option ℕ
  pub connected_at : Option ℕ
  pub peer_address : Text
  pub peer_port : ℕ
  pub latest_frame : List ℕ
  pub latest_output_frame : List ℕ
  pub last_video_at : Option ℕ
  pub last_audio_at : Option ℕ
  pub last_traffic : Option ℕ
  pub video_frames : ℕ  -- uint64
  pub audio_frames : ℕ  -- uint64
  pub invalid_video_frames : ℕ  -- uint64
  pub video_metric : List Metric
  pub audio_metric : List Metric
  pub last_frame_bytes : ℕ
  pub frame_width : ℕ
  pub frame_height : ℕ
  pub last_invalid_video_at : Option ℕ
  pub stream_mode : Text
  pub last_error : Text
  pub last_command : Text
  pub last_command_at : Option ℕ
  pub command_waiters : List (ℤ × List ℕ)
  pub restart_count : ℕ
  pub last_restart_at : Option ℕ
  pub last_video_request : Option ℕ
  pub last_audio_request : Option ℕ
  pub last_media_nudge : Option ℕ
  pub video_clients : List Client
  pub audio_clients : List Client
  pub video_output : List (List ℕ)  -- `videoOutputCh`, of capacity 1
  pub last_snapshot_demand : Option ℕ

abbrev pub Step : Type 0
Step = CameraRuntime × List Act

-- `SendCommand` on the session, if there is one: whether it returned no error. `marshal` is the JSON
-- text of a command with the camera's user and password.
unfoldable pub send_on : (Command → List ℕ) → CameraRuntime → Command → Step × Bool
send_on marshal rt c = elim rt.pppp [
  | none ↦ ((rt, []), false)
  | some s ↦
      let r = send_command s (marshal c) in
      ((record rt { pppp = some r.0 }, map net r.1), elim s.remote [ none ↦ false | some _ ↦ true ])
]
