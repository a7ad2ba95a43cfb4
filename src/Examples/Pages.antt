-- ===== src/Examples/Pages.antt =====
-- Pages and routes on concrete cameras.
use bk7252n_gate.Prelude.{
  ℕ, ◌≡◌, refl, ◌⊎◌, List, [], ◌∷◌, Bool, true, false, Option, none, some, if◌then◌else◌, Text,
  text, text_eq, is_empty, map,
}
use mathlib.Core.List.{Perm}
use bk7252n_gate.Config.{CameraConfig, blank}
use bk7252n_gate.Config.Public.{public_config}
use bk7252n_gate.Input.{Object, str, valid_camera_id}
use bk7252n_gate.Runtime.{Command}
use bk7252n_gate.Runtime.Commands.{CommandResult, failed}
use bk7252n_gate.Runtime.Lifecycle.{new_camera_runtime}
use bk7252n_gate.Runtime.Status.{MeterOps}
use bk7252n_gate.App.{App, runtime_of}
use bk7252n_gate.App.Serve.{remove, serve}
use bk7252n_gate.App.Sorted.{ids_of, sorted_runtimes}
use bk7252n_gate.App.Order.{Ascending, sorted_runtimes-IsOrdered}
use bk7252n_gate.Device.Provision.{World}
use bk7252n_gate.Pages.{path_escape, path_escape_char, is_path_char}
use bk7252n_gate.Pages.Marks.{marks}
use bk7252n_gate.Pages.Metrics.{RateOps}
use bk7252n_gate.Pages.Panel.{render_camera_panel}
use bk7252n_gate.Pages.SafePanel.{render_camera_panel-marks}
use bk7252n_gate.Pages.Overview.{page_of, page_of-marks}
use bk7252n_gate.Router.{handle_api}
use bk7252n_gate.Router.Body.{Request}
use bk7252n_gate.Router.Changes.{MayChange}
use bk7252n_gate.Router.Guarded.{IsSeen, handle_api-IsGuarded}
use bk7252n_gate.Router.Root
use bk7252n_gate.Router.Root.{Site, handle_endpoint, handle_page}
use bk7252n_gate.Router.Links.{follow, handle_page-link}
use bk7252n_gate.Router.Program.{Program, after, api_of}
use bk7252n_gate.Router.Served.{to_remove, with_answer, handle_api-serve}
use bk7252n_gate.Examples.Requests.{door, no_floats, no_address, empty_app}

abbrev no_meters : MeterOps ℕ
no_meters = record {
  nothing = 0;
  per_second = λ n d. n;
  kbps = λ n d. n;
  print_time = λ t. text "now";
}

abbrev no_rates : RateOps ℕ
no_rates = record {
  of_int = λ n. 0;
  parse = λ s. none;
  at_most_0 = λ x. true;
  at_least_1000 = λ x. false;
  print_thousandth = λ x. text "0.0";
  print_whole = λ x. text "0";
}

-- A camera whose name is meant to be markup.
abbrev hostile : CameraConfig
hostile = record door { name = text "\"><script>" }

abbrev running : CameraConfig → App
running cam = record { cameras = cam ∷ []; runtimes = (cam.id, new_camera_runtime cam) ∷ [] }

-- The overview of a plain camera and of a hostile one.
page_of-marks_example :
    marks (
      page_of no_address no_meters no_floats no_rates []
        (running door)
        0
        []
        (text "en")
        []
        []
        false)
    ≡ marks (
        page_of no_address no_meters no_floats no_rates []
          (running hostile)
          5
          (text "http://\"")
          (text "en")
          []
          []
          false)
page_of-marks_example =
    page_of-marks no_address no_meters no_floats no_rates [] (running door) (running hostile) 0 5 []
      (text "http://\"") (text "en") [] [] refl

abbrev named : Text → Object ℕ
named name = (text "id", str (text "door")) ∷ (text "name", str name) ∷ []

-- The panels of the same two.
render_camera_panel-marks_example :
    marks (
      render_camera_panel no_floats no_rates [] 0
        (named (text "Door"))
        (some (public_config door))
        (text "en")
        true)
    ≡ marks (
        render_camera_panel no_floats no_rates [] 7
          (named (text "<b>'"))
          (some (public_config hostile))
          (text "ru")
          true)
render_camera_panel-marks_example =
    render_camera_panel-marks no_floats no_rates [] [] 0 7 (named (text "Door"))
      (named (text "<b>'")) (public_config door) (public_config hostile) (text "en") (text "ru")

abbrev two_running : App
two_running = record {
  cameras = [];
  runtimes = (text "yard", new_camera_runtime blank) ∷ (text "door", new_camera_runtime door) ∷ [];
}

-- Two runtimes that stand in the wrong order.
sorted_runtimes-IsOrdered_example :
    (ids : List Text) × Perm (ids_of two_running.runtimes) ids
    × Ascending ids
    × (map (λ id. runtime_of id two_running.runtimes) ids ≡ map some (sorted_runtimes two_running))
sorted_runtimes-IsOrdered_example = sorted_runtimes-IsOrdered two_running

abbrev deletion : Request
deletion = record {
  method = text "DELETE";
  path = text "/api/cameras/door";
  host = [];
  forwarded_proto = [];
  query_lang = [];
  cookie_lang = none;
  body = none;
}

abbrev no_reading : Text → Option (Option (Object ℕ))
no_reading t = none

abbrev silent : Text → App → Command → App × CommandResult
silent id app c = (app, failed (text "no answer"))

abbrev at_once : World → World × Bool
at_once w = (w, true)

abbrev program : Program
program = record { app = running door; acts = []; reboots = [] }

abbrev saves : List CameraConfig → Bool
saves cams = true

-- The deletion of a camera over HTTP.
handle_api-serve_example :
    handle_api
      (api_of no_address (λ n. []) no_floats saves silent (λ app id. none) at_once [] 0 0)
      no_floats
      no_reading
      program
      deletion
    ≡ with_answer no_floats 0
        (remove (text "door"))
        (after program 200 (serve no_address no_floats saves program.app 0 (remove (text "door"))))
unfolding valid_camera_id path_escape is_empty path_escape_char is_path_char
handle_api-serve_example =
    handle_api-serve no_address (λ n. []) no_floats saves silent (λ app id. none) at_once [] 0 0
      no_reading program deletion (remove (text "door")) 200
      (to_remove (text "door") refl refl refl)

-- A GET with a body that is no JSON.
abbrev looking : Request
looking = record deletion { method = text "GET"; body = some (text "{") }

handle_api-IsGuarded_example :
    let api = api_of no_address (λ n. []) no_floats saves silent (λ app id. none) at_once [] 0 0 in
    let end = (handle_api api no_floats no_reading program looking).0 in
    (end ≡ program)
    ⊎ (((text_eq looking.method (text "GET") ≡ true) × IsSeen program end)
        ⊎ MayChange api no_floats no_reading program looking)
handle_api-IsGuarded_example =
    handle_api-IsGuarded no_address (λ n. []) no_floats saves silent (λ app id. none) at_once [] 0 0
      no_reading program looking

abbrev plain_site : Site App
plain_site = record {
  all_statuses = λ app. app;
  is_running = λ app id. text_eq id (text "door");
  render_page = λ app r id setup. [];
  render_frigate = λ app base. [];
  render_go2rtc = λ app base. [];
}

-- The link to the door's snapshot.
handle_page-link_example :
    handle_page plain_site empty_app
      (follow looking (text "/cam/") (text "door") (text "snapshot.jpg"))
    ≡ (if text_eq (text "door") (text "door")
        then handle_endpoint plain_site empty_app
            (follow looking (text "/cam/") (text "door") (text "snapshot.jpg"))
            (text "door")
            (text "snapshot.jpg")
        else Root.failed 404 (text "unknown camera"))
unfolding valid_camera_id is_empty
handle_page-link_example =
    handle_page-link plain_site empty_app looking (text "door") (text "snapshot.jpg") refl
