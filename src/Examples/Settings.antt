-- ===== src/Examples/Settings.antt =====
-- Requests for settings and rows of requests on a concrete camera.
use bk7252n_gate.Prelude.{ℕ, ◌≡◌, refl, List, [], ◌∷◌, none, some, true, false, text, text_eq, All}
use bk7252n_gate.Prelude.{is_empty, ◌==◌, if◌then◌else◌}
use bk7252n_gate.Device.Actions.{issue}
use bk7252n_gate.Device.Fields.{Args}
use bk7252n_gate.Device.{
  fine, put_args, put_if, apply_preset, apply_stream_mode, apply_audio_stream, issue_if,
  issue_filled, apply_image_preset, apply_controls, apply_alarm, apply_system, apply_streams,
  require_commands, apply_rest,
}
use bk7252n_gate.Device.Requests.{handle_device_config, keep_profile, stream_command_ok}
use bk7252n_gate.App.{
  target_stream_size, preset_mode, stream_mode_or, size_of_mode, set_camera_profile_size,
  camera_index, index_from, camera_at, resize_camera, save_then,
}
use bk7252n_gate.Runtime.{num, txt}
use bk7252n_gate.Runtime.Commands.{failed}
use bk7252n_gate.Input.{ok, optional_enum_int}
use bk7252n_gate.Examples.Requests.{door_app}
use bk7252n_gate.Prelude.Int.{pos}
use bk7252n_gate.Input.{
  Object, str, int, ApiError, err, bad_request, input_string, input_bool, string_or, bool_or,
  find_key, as_string_value, as_int_value, int_or, sprint, present, optional_int,
}
use bk7252n_gate.Input.Strings.{trim_space}
use bk7252n_gate.Runtime.{CameraRuntime, Command}
use bk7252n_gate.Runtime.Commands.{CommandResult, command_with_response}
use bk7252n_gate.Device.Fields.{control_fields, read_field, read_fields, store, put_arg}
use bk7252n_gate.Device.{stream, apply_device_config}
use bk7252n_gate.Device.Outcomes.{
  IsSafeEntry, unsent, IsStopOnly, apply_device_config-IsSafe, apply_device_config-refused,
}
use bk7252n_gate.App.Serve.{Call, create, update, remove, resize, serve_all}
use bk7252n_gate.App.Listing.{find_camera}
use bk7252n_gate.App.{runtime_of}
use bk7252n_gate.App.Directory.{Directory, promise_all}
use bk7252n_gate.App.Shows.{Shows}
use bk7252n_gate.App.Refine.{serve_all-promise_all}
use bk7252n_gate.Examples.Requests.{request, no_floats, no_address, empty_app}
use bk7252n_gate.Examples.Cameras.{live}

-- Every command is answered with result 0, on channel 0.
abbrev answering : CameraRuntime → Command → CameraRuntime × CommandResult
answering rt c =
    let r = command_with_response (λ _. []) (λ now. now) rt c 0 (some (pos 0)) in (r.0.0, r.1)

-- Stop the video, and a brightness that no camera has.
abbrev too_bright : Object ℕ
too_bright = (text "preset", str (text "stop")) ∷ (text "brightness", int (pos 9)) ∷ []

-- On a live camera.
apply_device_config-IsSafe_example :
    All IsSafeEntry
      (apply_device_config no_floats answering none too_bright (unsent live)).1.commands
apply_device_config-IsSafe_example =
    apply_device_config-IsSafe no_floats answering none too_bright live

abbrev refusal : ApiError
refusal = record { status = bad_request; msg = text "brightness must be between 0 and 0" }

stops_only : IsStopOnly no_floats answering none too_bright live
unfolding input_string input_bool string_or bool_or find_key as_string_value text_eq trim_space
    sprint
stops_only = (refl, refl, refl, refl, refl)

refuses : read_fields no_floats too_bright control_fields [] ≡ err refusal
unfolding read_fields read_field optional_int present find_key text_eq as_int_value int_or store
    put_arg
refuses = refl

-- The stream is stopped, and the answer is an error.
apply_device_config-refused_example :
    let halt = stream (text "video") 0 in
    let r = apply_device_config no_floats answering none too_bright (unsent live) in
    (r.0 ≡ err refusal)
    × (r.1.world ≡ (answering live halt).0)
    × (r.1.commands
        ≡ record {
          name = text "preset.stop.video";
          sent = some halt;
          result = (answering live halt).1;
        }
          ∷ [])
apply_device_config-refused_example =
    apply_device_config-refused no_floats answering none too_bright live refusal stops_only refuses

abbrev nothing : Directory
nothing = record { listed = λ k. none; running = λ k. false }

nothing-Shows : Shows empty_app nothing
unfolding find_camera runtime_of
nothing-Shows = record { listed = λ k. refl; running = λ k. refl; unique = tt; valid = tt }

abbrev pub row : List (ℕ × Call ℕ)
row =
    (0, create request)
    ∷ (1, create request)
    ∷ (2, resize (text "door") (pos 640) (pos 480))
    ∷ (3, update (text "door") request)
    ∷ (4, remove (text "door"))
    ∷ (5, remove (text "door"))
    ∷ []

-- A camera that is created twice, changed, and deleted twice.
serve_all-promise_all_example :
    let r = serve_all no_address no_floats (λ cams. true) empty_app row in
    let p = promise_all no_floats nothing row in Shows r.0 p.0 × (r.1 ≡ p.1)
serve_all-promise_all_example =
    serve_all-promise_all no_address no_floats (λ cams. true) (λ cams. refl) empty_app nothing row
      nothing-Shows

-- A camera that refuses the larger picture.
abbrev no_vga : Args → CommandResult
no_vga [] = fine
no_vga ((key, txt t) ∷ args) = fine
no_vga ((key, num v) ∷ args) = if v == 1 then failed (text "no") else fine

-- The preset for the small picture, and the stream mode for the large one.
abbrev both_sizes : Object ℕ
both_sizes = (text "preset", str (text "stable320")) ∷ (text "streamMode", str (text "vga")) ∷ []

-- The size that is kept is the large one, though the camera refused it.
refused_size :
    (handle_device_config no_floats
      (λ app c. (app, no_vga c.args))
      (λ cams. true)
      none
      door_app
      (text "door")
      both_sizes).1
    ≡ ok (409, some (pos 640, pos 480))
unfolding handle_device_config apply_device_config apply_streams apply_preset apply_stream_mode
    apply_audio_stream issue issue_if apply_controls apply_image_preset put_args put_if read_fields
    read_field optional_int optional_enum_int present find_key issue_filled apply_rest apply_alarm
    apply_system require_commands input_string input_bool string_or bool_or as_string_value text_eq
    trim_space sprint is_empty keep_profile target_stream_size preset_mode stream_mode_or
    size_of_mode stream_command_ok set_camera_profile_size camera_index index_from camera_at
    resize_camera save_then store
refused_size = refl
