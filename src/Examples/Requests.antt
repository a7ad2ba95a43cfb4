-- ===== src/Examples/Requests.antt =====
-- Configurations and requests on concrete cameras.
use bk7252n_gate.Prelude.{
  ℕ, ◌≡◌, ◌≢◌, ap, refl, arith, [], ◌∷◌, Option, none, true, false, Text, text, is_empty, text_eq,
}
use bk7252n_gate.Prelude.Int.{pos}
use bk7252n_gate.Prelude.{some}
use bk7252n_gate.Config.Public.{public_config}
use bk7252n_gate.Config.Shown.{IsExplicit, normalize_camera-public_config}
use bk7252n_gate.Config.{CameraConfig, Ip4, blank}
use bk7252n_gate.Input.{
  Object, FloatOps, str, ok, valid_camera_id, input_string, string_or, find_key, as_string_value,
  sprint,
}
use bk7252n_gate.Input.Strings.{trim_space}
use bk7252n_gate.Input.Camera.{base_camera, merge_camera, normalize_camera}
use bk7252n_gate.Input.Normal.{IsNormal, normalize_camera-IsNormal}
use bk7252n_gate.Runtime.Lifecycle.{new_camera_runtime}
use bk7252n_gate.App.{App, runtime_of, save_then, camera_index, create_camera, delete_camera}
use bk7252n_gate.App.Removal.{IsRemoved, delete_camera-IsRemoved}
use bk7252n_gate.App.Cameras.{status_of, create_camera_unsaved}

abbrev pub door : CameraConfig
door = record blank { id = text "door"; ip = text "10.0.0.9" }

abbrev pub no_floats : FloatOps ℕ
no_floats = record {
  round_int = λ x. pos x;
  nonzero = λ x. true;
  print = λ x. text "1";
  print_int = λ x. text "0";
}

abbrev pub request : Object ℕ
request = (text "id", str (text "door")) ∷ (text "ip", str (text "10.0.0.9")) ∷ []

abbrev pub requested : CameraConfig
requested = merge_camera no_floats request blank (text "door")

request_accepted : normalize_camera no_floats request none ≡ ok requested
unfolding normalize_camera is_empty input_string string_or find_key text_eq as_string_value
    trim_space sprint valid_camera_id merge_camera base_camera
request_accepted = refl

-- What a request with an id and an address becomes.
normalize_camera-IsNormal_example : IsNormal requested
normalize_camera-IsNormal_example =
    normalize_camera-IsNormal no_floats request none requested request_accepted

abbrev pub no_address : Text → Option Ip4
no_address t = none

abbrev pub empty_app : App
empty_app = record { cameras = []; runtimes = [] }

no_door : camera_index requested.id [] ≡ none
unfolding camera_index
no_door = refl

-- The first camera, and a disk that takes nothing.
create_camera_unsaved_example :
    let first = create_camera no_address no_floats (λ cams. false) empty_app 0 request in
    (status_of first ≡ 500)
    × (first.1 ≡ [])
    × (first.0.cameras ≡ requested ∷ [])
    × (status_of (create_camera no_address no_floats (λ cams. false) first.0 1 request) ≡ 409)
create_camera_unsaved_example =
    create_camera_unsaved no_address no_floats (λ cams. false) empty_app 0 1 request requested
      request_accepted no_door refl

abbrev pub door_app : App
door_app = record { cameras = door ∷ []; runtimes = (text "door", new_camera_runtime door) ∷ [] }

door_deleted :
    status_of (delete_camera no_address no_floats (λ cams. true) door_app (text "door")) ≡ 0
unfolding delete_camera status_of camera_index text_eq runtime_of save_then
door_deleted = refl

-- The only camera of a list.
delete_camera-IsRemoved_example :
    IsRemoved door_app
      (delete_camera no_address no_floats (λ cams. true) door_app (text "door")).0
      (text "door")
delete_camera-IsRemoved_example =
    delete_camera-IsRemoved no_address no_floats (λ cams. true) door_app (text "door") (tt, tt)
      door_deleted

abbrev shown : CameraConfig
shown = record door {
  name = text "Front door";
  discovery = text "10.0.0.9";
  psk = text "SHIX";
  username = text "admin";
  password = text "secret";
  width = pos 640;
  height = pos 480;
  enabled = some true;
  ack_repeats = pos 3;
  av_stream = some false;
  overlay_size = pos 1;
}

secret : text_eq (text "secret") (text "<nil>") ≢ text_eq (text "<nil>") (text "<nil>")
unfolding text_eq
secret e = cc

shown-IsExplicit : IsExplicit shown
unfolding trim_space valid_camera_id is_empty
shown-IsExplicit = record {
  valid = refl;
  name = (refl, refl);
  ip = refl;
  discovery = refl;
  reachable = refl;
  local_address = refl;
  psk = (refl, refl);
  username = (refl, refl);
  password = (refl, λ e. secret (ap (λ t. text_eq t (text "<nil>")) e));
  width = omega arith;
  height = omega arith;
  enabled = (true, refl);
  av_stream = (false, refl);
  acks = (omega arith, omega arith);
  overlay = (omega arith, omega arith);
}

-- A camera with a password.
normalize_camera-public_config_example :
    normalize_camera no_floats (public_config shown) (some shown) ≡ ok shown
normalize_camera-public_config_example =
    normalize_camera-public_config no_floats shown shown-IsExplicit
