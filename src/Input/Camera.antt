-- ===== src/Input/Camera.antt =====
-- `normalizeCamera`: a request merged into a camera's configuration, key by key as the code does it.
use bk7252n_gate.Config
use bk7252n_gate.Config.{CameraConfig, blank}
use bk7252n_gate.Input.{
  Object, FloatOps, Result, ok, ◌>>◌, require, bad_request, first_non_empty, valid_camera_id,
  input_string, input_password, input_bool, input_int,
}
use bk7252n_gate.Prelude.{
  [], ◌∷◌, ◌&&◌, not, Option, none, some, Text, text, is_empty, if◌then◌else◌,
}
use bk7252n_gate.Prelude.Int.{ℤ, pos, ltb_ℤ}

-- `if x < lo { x = lo }; if x > hi { x = hi }`
unfoldable pub clamp : ℤ → ℤ → ℤ → ℤ
clamp lo hi x = if ltb_ℤ x lo then lo else (if ltb_ℤ hi x then hi else x)

-- `cam` as `*existing`, or the zero value.
unfoldable pub base_camera : Option CameraConfig → CameraConfig
base_camera none = blank
base_camera (some cam) = cam

module _ {F : Type 0} (fl : FloatOps F) where
  -- The assignments of `normalizeCamera`, each read from the camera as the earlier ones left it.
  unfoldable pub merge_camera : Object F → CameraConfig → Text → CameraConfig
  unfolding clamp
  merge_camera input cam id =
      let ip = input_string fl input (text "ip") cam.ip in
      record {
        id = id;
        name = input_string fl input (text "name") (first_non_empty (cam.name ∷ id ∷ []));
        ip = ip;
        discovery =
            input_string fl input (text "discovery")
              (first_non_empty (cam.discovery ∷ ip ∷ text "255.255.255.255" ∷ []));
        local_address = input_string fl input (text "localAddress") cam.local_address;
        psk = input_string fl input (text "psk") (first_non_empty (cam.psk ∷ text "SHIX" ∷ []));
        username =
            input_string fl input (text "username")
              (first_non_empty (cam.username ∷ text "admin" ∷ []));
        password =
            input_password fl input (text "password")
              (first_non_empty (cam.password ∷ text "6666" ∷ []));
        width = input_int fl input (text "width") (Config.width cam);
        height = input_int fl input (text "height") (Config.height cam);
        enabled = some (input_bool fl input (text "enabled") (Config.enabled cam));
        verbose = input_bool fl input (text "verbose") cam.verbose;
        ack_repeats =
            clamp (pos 1) (pos 9) (input_int fl input (text "ackRepeats") (Config.ack_repeats cam));
        av_stream = some (input_bool fl input (text "avStream") (Config.av_stream cam));
        overlay_name = input_bool fl input (text "overlayName") cam.overlay_name;
        overlay_time = input_bool fl input (text "overlayTime") cam.overlay_time;
        overlay_diag = input_bool fl input (text "overlayDiag") cam.overlay_diag;
        overlay_size =
            clamp (pos 1) (pos 3)
              (input_int fl input (text "overlaySize") (Config.overlay_size cam));
      }

  -- The camera that comes with an error is dropped: no caller reads it.
  unfoldable pub normalize_camera : Object F → Option CameraConfig → Result CameraConfig
  normalize_camera input existing = do
    let id = input_string fl input (text "id") (base_camera existing).id
    require (not (is_empty id)) bad_request (text "camera id is required")
    require (valid_camera_id id) bad_request (text "camera id must match /^[A-Za-z0-9_-]+$/")
    let cam = merge_camera input (base_camera existing) id
    require (not (is_empty cam.ip && is_empty cam.discovery)) bad_request
        (text "camera ip or discovery address is required")
    ok cam
