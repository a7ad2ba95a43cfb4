-- ===== src/Viewing/Joining.antt =====
-- How `ServeVideo` and `ServeAudio` of bkcam-go/main.go take a client in before their loops, and let it go after.
-- `id` is the client's address.
use bk7252n_gate.Prelude.{ℕ, List, [], ◌∷◌, ◌++◌, false, not, ◌&&◌, leb, if◌then◌else◌, is_empty}
use bk7252n_gate.Config.{Ip4}
use bk7252n_gate.Prelude.{Text, Option}
use bk7252n_gate.Runtime.{CameraRuntime, Command, Step, since, is_zero}
use bk7252n_gate.Runtime.Clients.{Client, send_drop_old, add_client, remove_client}
use bk7252n_gate.Runtime.Lifecycle.{start}
use bk7252n_gate.Runtime.Streams.{request_streams, recover_video_for_client}
use bk7252n_gate.Viewing.{video_hold_window}

-- `initialFrame`
unfoldable pub initial_frame : CameraRuntime → List ℕ
initial_frame rt =
    if is_empty rt.latest_output_frame then rt.latest_frame else rt.latest_output_frame

-- The client, with a first frame if that is not too old.
unfoldable pub video_client : CameraRuntime → ℕ → ℕ → Client
video_client rt now id =
    let frame = initial_frame rt in
    let is_recent =
      not (is_empty frame)
      && not (is_zero rt.last_video_at)
      && leb (since now rt.last_video_at) video_hold_window in
    record { id = id; capacity = 8; buffer = if is_recent then send_drop_old 8 [] frame else [] }

module _ (parse_ip4 : Text → Option Ip4) (marshal : Command → List ℕ) where
  unfoldable pub open_video : CameraRuntime → ℕ → ℕ → Step
  open_video rt now id =
      let started = start parse_ip4 rt now in
      let joined = record started.0 {
        video_clients = video_client started.0 now id ∷ started.0.video_clients;
      } in
      let recovered = recover_video_for_client marshal joined now in
      (recovered.0, started.1 ++ recovered.1)

  unfoldable pub open_audio : CameraRuntime → ℕ → ℕ → Step
  open_audio rt now id =
      let started = start parse_ip4 rt now in
      let joined = record started.0 { audio_clients = add_client id 64 started.0.audio_clients } in
      let asked = request_streams marshal joined now false false in (asked.0, started.1 ++ asked.1)

-- `defer rt.removeVideoClient(client)`
unfoldable pub close_video : CameraRuntime → ℕ → CameraRuntime
close_video rt id = record rt { video_clients = remove_client id rt.video_clients }

unfoldable pub close_audio : CameraRuntime → ℕ → CameraRuntime
close_audio rt id = record rt { audio_clients = remove_client id rt.audio_clients }
