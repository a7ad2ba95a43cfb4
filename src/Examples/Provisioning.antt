-- ===== src/Examples/Provisioning.antt =====
-- Requests that set up a camera's Wi-Fi.
use bk7252n_gate.Prelude.{ℕ, ◌≡◌, refl, [], ◌∷◌, Bool, true, text, text_eq, is_empty}
use bk7252n_gate.Input.{
  Object, str, err, bad_request, input_string, input_password, string_or, password_or, find_key,
  as_string_value, sprint, valid_camera_id, first_non_empty,
}
use bk7252n_gate.Input.Strings.{trim_space}
use bk7252n_gate.Input.Camera.{normalize_camera, merge_camera, base_camera}
use bk7252n_gate.Runtime.{Command}
use bk7252n_gate.Runtime.Commands.{CommandResult}
use bk7252n_gate.App.{camera_index}
use bk7252n_gate.Device.{fine}
use bk7252n_gate.Device.Requests.{set_wifi, reboot}
use bk7252n_gate.Device.Provision.{
  World, provision_camera, read_provisioning, setup_input, existing_camera, connect_camera,
  send_wifi, finish_provisioning, final_input, default_lan_discovery,
}
use bk7252n_gate.Device.Listed.{IsAllOrNothing}
use bk7252n_gate.Device.Provisioned.{provision_camera-IsAllOrNothing}
use bk7252n_gate.Examples.Requests.{no_floats, no_address, empty_app}

-- Every command is answered well.
abbrev granted : World → Command → World × CommandResult
granted w c = (w, fine)

-- The camera is connected at once.
abbrev at_once : World → World × Bool
at_once w = (w, true)

abbrev new_wifi : Object ℕ
new_wifi =
    (text "id", str (text "door"))
    ∷ (text "ssid", str (text "home"))
    ∷ (text "wifiPassword", str (text "secret"))
    ∷ []

-- The first camera of an empty list.
provision_camera-IsAllOrNothing_example :
    IsAllOrNothing (input_string no_floats new_wifi (text "id") []) [] (
      provision_camera no_address
        (λ n. [])
        (λ cams. true)
        no_floats
        granted
        at_once
        []
        empty_app
        0
        1
        new_wifi)
provision_camera-IsAllOrNothing_example =
    provision_camera-IsAllOrNothing no_address (λ n. []) (λ cams. true) (λ cams. refl) no_floats
      granted at_once [] (λ w c. refl) (λ w. refl) empty_app 0 1 new_wifi tt

abbrev nowhere : Object ℕ
nowhere = (text "finalDiscovery", str []) ∷ new_wifi

-- With a blank `finalDiscovery` the camera is told the Wi-Fi settings, and the request fails.
blank_final_discovery :
    (provision_camera no_address
      (λ n. [])
      (λ cams. true)
      no_floats
      granted
      at_once
      []
      empty_app
      0
      1
      nowhere).1
    ≡ err (record { status = bad_request; msg = text "camera ip or discovery address is required" })
unfolding provision_camera read_provisioning input_string string_or find_key text_eq as_string_value
    trim_space sprint input_password password_or is_empty valid_camera_id normalize_camera
    setup_input existing_camera camera_index connect_camera send_wifi set_wifi finish_provisioning
    final_input reboot merge_camera base_camera first_non_empty default_lan_discovery
blank_final_discovery = refl
