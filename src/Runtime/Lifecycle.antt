-- ===== src/Runtime/Lifecycle.antt =====
-- `NewPPPP`, `NewCameraRuntime`, `UpdateConfig`, `SetProfileSize`, `Start`, `Stop`, `restart`, one
-- round of `healthLoop`.
use bk7252n_gate.Prelude.{
  ℕ, ◌+◌, ◌*◌, ◌/◌, [], ◌∷◌, ◌++◌, Bool, true, false, ◌&&◌, not, Option, none, some, ltb,
  if◌then◌else◌, Text, text, map,
}
use bk7252n_gate.Prelude.Int.{ℤ, pos, pos_part}
use bk7252n_gate.Cipher.{key_from_psk}
use bk7252n_gate.Config
use bk7252n_gate.Config.{CameraConfig, Ip4, expected_address}
use bk7252n_gate.Session.{Session, send_alive, close}
use bk7252n_gate.Runtime.{
  CameraRuntime, net, launch, start_later, Step, second, since, is_zero, restart_cooldown,
  traffic_restart_window,
}

-- `NewCameraRuntime`
unfoldable pub new_camera_runtime : CameraConfig → CameraRuntime
new_camera_runtime cfg = record {
  cfg = cfg;
  pppp = none;
  started_at = none;
  connected_at = none;
  peer_address = [];
  peer_port = 0;
  latest_frame = [];
  latest_output_frame = [];
  last_video_at = none;
  last_audio_at = none;
  last_traffic = none;
  video_frames = 0;
  audio_frames = 0;
  invalid_video_frames = 0;
  video_metric = [];
  audio_metric = [];
  last_frame_bytes = 0;
  frame_width = 0;
  frame_height = 0;
  last_invalid_video_at = none;
  stream_mode = text "idle";
  last_error = [];
  last_command = [];
  last_command_at = none;
  command_waiters = [];
  restart_count = 0;
  last_restart_at = none;
  last_video_request = none;
  last_audio_request = none;
  last_media_nudge = none;
  video_clients = [];
  audio_clients = [];
  video_output = [];
  last_snapshot_demand = none;
}

unfoldable pub set_profile_size : CameraRuntime → ℤ → ℤ → CameraRuntime
set_profile_size rt width height = record rt {
  cfg = record (rt.cfg) { width = width; height = height };
}

-- `Stop`: the session is closed after it has been taken out.
unfoldable pub stop : CameraRuntime → Step
stop rt = (
  record rt {
    pppp = none;
    connected_at = none;
    started_at = none;
    peer_address = [];
    peer_port = 0;
  },
  elim rt.pppp [ none ↦ [] | some pp ↦ map net (close pp).1 ],
)

-- `restart`: its result says whether it was not throttled.
unfoldable pub restart : CameraRuntime → ℕ → Text → Step × Bool
restart rt now reason =
    let marked = record rt {
      last_error = reason;
      last_restart_at = some now;
      restart_count = rt.restart_count + 1;
    } in
    let stopped = stop marked in
    if not (is_zero rt.last_restart_at) && ltb (since now rt.last_restart_at) restart_cooldown
    then ((record rt { last_error = reason ++ text " (restart throttled)" }, []), false)
    else ((stopped.0, stopped.1 ++ (start_later (3 * (second / 2)) ∷ [])), true)

unfoldable pub drop_result : Step × Bool → Step
drop_result r = r.0

unfoldable pub send_keepalive : CameraRuntime → Step
send_keepalive rt = (rt, elim rt.pppp [ none ↦ [] | some pp ↦ map net (send_alive pp) ])

-- One tick of `healthLoop`.
unfoldable pub health_round : CameraRuntime → ℕ → Step
health_round rt now = elim rt.pppp [
  | none ↦ (rt, [])
  | some _ ↦
      if is_zero rt.connected_at
        && (not (is_zero rt.started_at) && ltb (20 * second) (since now rt.started_at))
      then drop_result (restart rt now (text "connect timeout"))
      else (if not (is_zero rt.connected_at)
            && (not (is_zero rt.last_traffic)
                && ltb traffic_restart_window (since now rt.last_traffic))
          then drop_result (restart rt now (text "traffic timeout"))
          else (if not (is_zero rt.connected_at) then send_keepalive rt else (rt, [])))
]

module _ (parse_ip4 : Text → Option Ip4) where
  -- `NewPPPP`
  unfoldable pub new_pppp : CameraConfig → Session
  new_pppp cfg = record {
    key = key_from_psk (Config.psk cfg);
    ack_repeats = pos_part (Config.ack_repeats cfg);
    closed = false;
    out_index = 0;
    remote = none;
    expected_ip = expected_address parse_ip4 cfg;
    punch_count = 0;
    is_connected = false;
    video_frame = none;
    audio = record {
      audio = record { index = pos 0; val_pred = pos 0 };
      has_last = false;
      last_index = 0;
    };
  }

  unfoldable pub start : CameraRuntime → ℕ → Step
  start rt now = elim rt.pppp [
    | some _ ↦ (rt, [])
    | none ↦
        if Config.enabled rt.cfg
        then (
          record rt { started_at = some now; last_error = []; pppp = some (new_pppp rt.cfg) },
          launch ∷ [],
        )
        else (rt, [])
  ]

  -- `UpdateConfig`
  unfoldable pub update_config : CameraRuntime → ℕ → CameraConfig → Step
  update_config rt now cfg =
      let stopped = stop rt in
      let rt0 = stopped.0 in
      let cleared = record rt0 {
        cfg = cfg;
        connected_at = none;
        peer_address = [];
        peer_port = 0;
        latest_frame = [];
        latest_output_frame = [];
        last_video_at = none;
        last_audio_at = none;
        last_traffic = none;
        video_metric = [];
        audio_metric = [];
        last_frame_bytes = 0;
        frame_width = 0;
        frame_height = 0;
        stream_mode = text "idle";
        last_command = [];
        last_command_at = none;
        command_waiters = [];
        last_media_nudge = none;
        video_clients = [];
        audio_clients = [];
      } in
      let started = start cleared now in
      if Config.enabled cfg then (started.0, stopped.1 ++ started.1) else (cleared, stopped.1)
