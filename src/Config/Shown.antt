-- ===== src/Config/Shown.antt =====
-- What the interface shows of a camera, sent back as a change.
use bk7252n_gate.Prelude.{
  ◌≡◌, ◌≢◌, refl, [], ◌∷◌, Bool, arith, true, false, ◌&&◌, some, text, text_eq, is_empty,
}
use bk7252n_gate.Prelude.Int.{pos, ◌≤ℤ◌}
use bk7252n_gate.Config
use bk7252n_gate.Config.{CameraConfig, flag_or_true}
use bk7252n_gate.Config.Public.{public_config}
use bk7252n_gate.Input.{
  FloatOps, ok, valid_camera_id, input_string, input_password, input_bool, input_int, string_or,
  password_or, bool_or, value_int_or, find_key, as_string_value, as_bool_value, as_int_value,
  int_or, sprint, first_non_empty,
}
use bk7252n_gate.Prelude.{text_eq_ne}
use bk7252n_gate.Input.Strings.{trim_space}
use bk7252n_gate.Input.Trim.{trim_space_id}
use bk7252n_gate.Input.Normal.{valid_camera_id-filled}
use bk7252n_gate.Input.Camera.{clamp, base_camera, merge_camera, normalize_camera}

-- A configuration in which nothing is left to a default, no number is out of its range, no text begins or ends with
-- a space, and the password is not the text that stands for a missing value.
pub record IsExplicit (cam : CameraConfig) : Type 0 where
  pub valid : valid_camera_id cam.id ≡ true
  pub name : (is_empty cam.name ≡ false) × (trim_space cam.name ≡ cam.name)
  pub ip : trim_space cam.ip ≡ cam.ip
  pub discovery : trim_space cam.discovery ≡ cam.discovery
  pub reachable : (is_empty cam.ip && is_empty cam.discovery) ≡ false
  pub local_address : trim_space cam.local_address ≡ cam.local_address
  pub psk : (is_empty cam.psk ≡ false) × (trim_space cam.psk ≡ cam.psk)
  pub username : (is_empty cam.username ≡ false) × (trim_space cam.username ≡ cam.username)
  pub password : (is_empty cam.password ≡ false) × (cam.password ≢ text "<nil>")
  pub width : pos 1 ≤ℤ cam.width
  pub height : pos 1 ≤ℤ cam.height
  pub enabled : (b : Bool) × (cam.enabled ≡ some b)
  pub av_stream : (b : Bool) × (cam.av_stream ≡ some b)
  pub acks : (pos 1 ≤ℤ cam.ack_repeats) × (cam.ack_repeats ≤ℤ pos 9)
  pub overlay : (pos 1 ≤ℤ cam.overlay_size) × (cam.overlay_size ≤ℤ pos 3)

-- What is shown of each setting, and read back, is the setting.
module _ (cam : CameraConfig) (h : IsExplicit cam) where
  name_lem : trim_space (Config.name cam) ≡ cam.name
  unfolding Config.name
  name_lem = rw (h.name.0) (h.name.1)

  psk_lem : trim_space (Config.psk cam) ≡ cam.psk
  unfolding Config.psk
  psk_lem = rw (h.psk.0) (h.psk.1)

  username_lem : trim_space (Config.username cam) ≡ cam.username
  unfolding Config.username
  username_lem = rw (h.username.0) (h.username.1)

  password_lem : first_non_empty (cam.password ∷ text "6666" ∷ []) ≡ cam.password
  unfolding first_non_empty
  password_lem = rw (h.password.0, text_eq_ne cam.password (text "<nil>") h.password.1) refl

  width_lem : Config.width cam ≡ cam.width
  unfolding Config.width
  width_lem = let b = h.width in ground arith

  height_lem : Config.height cam ≡ cam.height
  unfolding Config.height
  height_lem = let b = h.height in ground arith

  enabled_lem : some (Config.enabled cam) ≡ cam.enabled
  unfolding Config.enabled flag_or_true
  enabled_lem = rw (h.enabled.1) refl

  av_stream_lem : some (Config.av_stream cam) ≡ cam.av_stream
  unfolding Config.av_stream flag_or_true
  av_stream_lem = rw (h.av_stream.1) refl

  acks_lem : clamp (pos 1) (pos 9) (Config.ack_repeats cam) ≡ cam.ack_repeats
  unfolding clamp Config.ack_repeats
  acks_lem = let (low, high) = h.acks in ground arith

  overlay_lem : clamp (pos 1) (pos 3) (Config.overlay_size cam) ≡ cam.overlay_size
  unfolding clamp Config.overlay_size
  overlay_lem = let (low, high) = h.overlay in ground arith

module _ {F : Type 0} (fl : FloatOps F) where
  -- Sending back what the interface shows of a camera changes nothing, its password included, if its id is
  -- valid, it has an address, its name, key, user and password are given, the password is not `<nil>`, no other text
  -- begins or ends with a space, its width and height are positive, both switches are set, the
  -- acknowledgements are 1 to 9 and the overlay's scale 1 to 3. The values are sent back as they are
  -- shown, not through JSON.
  pub normalize_camera-public_config :
      (cam : CameraConfig)
      → IsExplicit cam
      → normalize_camera fl (public_config cam) (some cam) ≡ ok cam
  unfolding normalize_camera merge_camera base_camera public_config input_string input_password
      input_bool input_int string_or password_or bool_or value_int_or find_key as_string_value
      as_bool_value as_int_value int_or sprint text_eq
  normalize_camera-public_config cam h =
      rw
        (
          trim_space_id cam.id h.valid,
          valid_camera_id-filled cam.id h.valid,
          h.valid,
          name_lem cam h,
          h.ip,
          h.discovery,
          h.reachable,
          h.local_address,
          psk_lem cam h,
          username_lem cam h,
          password_lem cam h,
          width_lem cam h,
          height_lem cam h,
          enabled_lem cam h,
          av_stream_lem cam h,
          acks_lem cam h,
          overlay_lem cam h,
        )
        refl
