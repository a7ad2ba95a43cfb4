-- ===== src/Examples/Cameras.antt =====
-- Runtimes on concrete cameras.
use bk7252n_gate.Prelude.{
  ℕ, ◌*◌, ◌≡◌, refl, List, [], ◌∷◌, none, some, true, false, arith, text, is_empty,
}
use bk7252n_gate.Prelude.Int.{pos}
use bk7252n_gate.Config
use bk7252n_gate.Config.{CameraConfig, Ip4, blank}
use bk7252n_gate.Session.{Session}
use bk7252n_gate.Runtime.{CameraRuntime, Command, second, is_zero, since, send_on}
use bk7252n_gate.Runtime.Lifecycle.{new_camera_runtime}
use bk7252n_gate.Runtime.Streams.{snapshot_demand}
use bk7252n_gate.Runtime.Events.{waiters_of}
use bk7252n_gate.Runtime.Commands.{send_and_wait, await}
use bk7252n_gate.Runtime.Commands.Waiters.{await-timeout}
use bk7252n_gate.Runtime.Clients.Latest.{send_all, send_all_latest}
use bk7252n_gate.Runtime.Metrics.{Metric}
use bk7252n_gate.Runtime.Health.{
  health, no_session, video_health, video_demand, audio_health, traffic_health,
}
use bk7252n_gate.Runtime.Health.Meaning.{IsOnline, health-IsOnline}
use bk7252n_gate.Runtime.Cooldown.{
  asked, health_tick, stream_tick, started, viewed, reconfigured, happen_all, IsPaced,
  happen_all-IsPaced,
}
use bk7252n_gate.Examples.Requests.{door, no_address}

abbrev pub link : Session
link = record {
  key = record { k0 = 1; k1 = 2; k2 = 3; k3 = 4 };
  ack_repeats = 3;
  closed = false;
  out_index = 0;
  remote = some (record { ip = text "10.0.0.9"; port = 32108 });
  expected_ip = text "10.0.0.9";
  punch_count = 0;
  is_connected = true;
  video_frame = none;
  audio = record {
    audio = record { index = pos 0; val_pred = pos 0 };
    has_last = false;
    last_index = 0;
  };
}

-- A camera that has been connected for a second and was just heard from, ten seconds after a restart.
abbrev pub live : CameraRuntime
live = record (new_camera_runtime door) {
  pppp = some link;
  started_at = some (11 * second);
  connected_at = some (19 * second);
  last_traffic = some (20 * second);
  last_restart_at = some (10 * second);
}

-- No client and fresh traffic.
health-IsOnline_example : IsOnline live (20 * second)
unfolding new_camera_runtime health Config.enabled no_session is_zero since video_health
    video_demand is_empty snapshot_demand audio_health traffic_health
health-IsOnline_example = health-IsOnline live (20 * second) refl

-- A queue of two that takes three more.
send_all_latest_example : send_all {A = ℕ} 2 (1 ∷ []) (2 ∷ 3 ∷ 4 ∷ []) ≡ 3 ∷ 4 ∷ []
unfolding send_all
send_all_latest_example = send_all_latest 2 (1 ∷ []) (2 ∷ 3 ∷ 4 ∷ []) (omega arith) (omega arith)

abbrev points : List Metric
points = record { at = 1 * second; bytes = 10 } ∷ record { at = 7 * second; bytes = 20 } ∷ []

abbrev pub no_json : Command → List ℕ
no_json c = []

-- Two requests at once, and one six seconds later.
happen_all-IsPaced_example :
    IsPaced no_address no_json live
      (happen_all no_address no_json live (
        asked (20 * second) (text "manual")
        ∷ asked (20 * second) (text "manual")
        ∷ health_tick (21 * second)
        ∷ stream_tick (22 * second)
        ∷ started (23 * second)
        ∷ viewed (24 * second)
        ∷ reconfigured (25 * second) door
        ∷ asked (26 * second) (text "manual")
        ∷ []))
      (10 * second)
unfolding new_camera_runtime
happen_all-IsPaced_example =
    happen_all-IsPaced no_address no_json live
      (asked (20 * second) (text "manual")
        ∷ asked (20 * second) (text "manual")
        ∷ health_tick (21 * second)
        ∷ stream_tick (22 * second)
        ∷ started (23 * second)
        ∷ viewed (24 * second)
        ∷ reconfigured (25 * second) door
        ∷ asked (26 * second) (text "manual")
        ∷ [])
      (10 * second) refl

abbrev pub waited : CameraRuntime
waited = record live { command_waiters = (pos 100, 1 ∷ 2 ∷ []) ∷ (pos 200, 3 ∷ []) ∷ [] }

abbrev pub get_params : Command
get_params = record { cmd = 100; pro = text "get_parms"; args = [] }

-- A fourth waiter, on channel 4, that gives up.
await-timeout_example :
    waiters_of
      (pos 100)
      (await (send_and_wait no_json waited get_params 4).0.0 get_params 4 none).0.command_waiters
    ≡ waiters_of (pos 100) waited.command_waiters
unfolding waiters_of new_camera_runtime send_and_wait is_zero send_on
await-timeout_example =
    await-timeout no_json waited get_params 4 (pos 100) refl
      (λ e. absurd (omega (arith, e)), (λ e. absurd (omega (arith, e)), tt))
