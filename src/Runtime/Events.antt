-- ===== src/Runtime/Events.antt =====
-- The callbacks that `Start` installs: `OnPacket`, `OnConnected`, `OnVideo`, `OnAudio`, `OnCommand`
-- and `OnClose`; `enqueueVideoOutput` and one round of `videoOutputLoop`.
use bk7252n_gate.Prelude.{
  ℕ, ◌+◌, ◌*◌, ◌%◌, ◌^◌, List, [], ◌∷◌, ◌||◌, not, Option, none, some, ltb, ◌==◌, if◌then◌else◌,
  Text, is_empty, length, get_or,
}
use bk7252n_gate.Prelude.Int.{ℤ, pos, eq_ℤ, ltb_ℤ}
use bk7252n_gate.Session.{Addr}
use bk7252n_gate.Runtime.{CameraRuntime, request_later, params_later, Step, since, is_zero, second}
use bk7252n_gate.Runtime.Metrics.{append_metric, trim_metric}
use bk7252n_gate.Runtime.Clients.{send_drop_old, broadcast}
use bk7252n_gate.Runtime.Streams.{snapshot_demand}
use bk7252n_gate.Runtime.Lifecycle.{restart}

unfoldable pub on_packet : CameraRuntime → ℕ → CameraRuntime
on_packet rt now = record rt { last_traffic = some now }

unfoldable pub on_connected : CameraRuntime → ℕ → Addr → Step
on_connected rt now addr = (
  record rt {
    connected_at = some now;
    last_traffic = some now;
    peer_address = addr.ip;
    peer_port = addr.port;
    last_error = [];
  },
  request_later (200 * 10 ^ 6) ∷ params_later (800 * 10 ^ 6) ∷ [],
)

unfoldable pub u64 : ℕ → ℕ
u64 n = n % 2 ^ 64

-- `validateJPEGFrame`; `decode_config` is `jpeg.DecodeConfig`, for the width and the height.
unfoldable pub validate_jpeg_frame : (List ℕ → Option (ℕ × ℕ)) → List ℕ → Option (ℕ × ℕ)
validate_jpeg_frame decode_config frame =
    if ltb (length frame) 2 || (not (get_or frame 0 0 == 0xff) || not (get_or frame 1 0 == 0xd8))
    then none
    else decode_config frame

unfoldable pub enqueue_video_output : CameraRuntime → List ℕ → CameraRuntime
enqueue_video_output rt frame = record rt { video_output = send_drop_old 1 rt.video_output frame }

unfoldable pub drop_invalid : CameraRuntime → ℕ → CameraRuntime
drop_invalid rt now = record rt {
  invalid_video_frames = u64 (rt.invalid_video_frames + 1);
  last_invalid_video_at =
      if is_zero rt.last_invalid_video_at || ltb (10 * second) (since now rt.last_invalid_video_at)
      then some now
      else rt.last_invalid_video_at;
  last_traffic = some now;
}

unfoldable pub accept_frame : CameraRuntime → ℕ → List ℕ → ℕ → ℕ → CameraRuntime
accept_frame rt now frame width height = record rt {
  video_metric = append_metric (trim_metric rt.video_metric now) now (length frame);
  latest_frame = frame;
  last_video_at = some now;
  last_traffic = some now;
  last_frame_bytes = length frame;
  frame_width = width;
  frame_height = height;
  last_error = [];
  video_frames = u64 (rt.video_frames + 1);
}

unfoldable pub on_video : (List ℕ → Option (ℕ × ℕ)) → CameraRuntime → ℕ → List ℕ → CameraRuntime
on_video decode_config rt now frame = elim (validate_jpeg_frame decode_config frame) [
  | none ↦ drop_invalid rt now
  | some (width, height) ↦
      let rt' = accept_frame rt now frame width height in
      if not (is_empty rt.video_clients) || snapshot_demand rt now
      then enqueue_video_output rt' frame
      else rt'
]

unfoldable pub on_audio : CameraRuntime → ℕ → List ℕ → CameraRuntime
on_audio rt now pcm = record rt {
  last_audio_at = some now;
  last_traffic = some now;
  last_error = [];
  audio_frames = u64 (rt.audio_frames + 1);
  audio_metric = append_metric rt.audio_metric now (length pcm);
  audio_clients = broadcast pcm rt.audio_clients;
}

-- `rt.commandWaiters[cmd]`
unfoldable pub waiters_of : ℤ → List (ℤ × List ℕ) → List ℕ
waiters_of cmd [] = []
waiters_of cmd ((k, chs) ∷ rest) = if eq_ℤ k cmd then chs else waiters_of cmd rest

-- `delete(rt.commandWaiters, cmd)`
unfoldable pub delete_waiters : ℤ → List (ℤ × List ℕ) → List (ℤ × List ℕ)
delete_waiters cmd [] = []
delete_waiters cmd ((k, chs) ∷ rest) =
    if eq_ℤ k cmd then delete_waiters cmd rest else (k, chs) ∷ delete_waiters cmd rest

-- `OnCommand` with the trimmed text `raw` and the `cmd` in it, -1 if it has none: the state, and the
-- waiters that are sent the answer.
unfoldable pub on_command : CameraRuntime → ℕ → Text → ℤ → CameraRuntime × List ℕ
on_command rt now raw cmd_id = (
  record rt {
    last_command = raw;
    last_command_at = some now;
    last_traffic = some now;
    command_waiters =
        if ltb_ℤ cmd_id (pos 0)
        then rt.command_waiters
        else delete_waiters cmd_id rt.command_waiters;
  },
  waiters_of cmd_id rt.command_waiters,
)

unfoldable pub on_close : CameraRuntime → ℕ → Text → Step
on_close rt now reason = (restart rt now reason).0

-- One round of `videoOutputLoop`; `for_output` is `frameForOutput`, which draws the overlay.
unfoldable pub output_round : (List ℕ → List ℕ) → CameraRuntime → CameraRuntime
output_round for_output rt = elim rt.video_output [
  | [] ↦ rt
  | frame ∷ rest ↦
      let out = for_output frame in
      let taken = record rt { video_output = rest } in
      if is_empty out then taken else record taken {
        latest_output_frame = out;
        video_clients = broadcast out rt.video_clients;
      }
]
