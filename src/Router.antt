-- ===== src/Router.antt =====
-- `handleRoot`, `handleAPI` and `handleCamera` of bkcam-go/main.go: which handler a request reaches, with
-- `readJSONBody`, `writeAPIError`, `urlPathUnescape`, `requestLang` and `baseURL`. `path` is `r.URL.Path`, which
-- net/http has decoded. `Api` is what the routes ask of the program.
pub mod Body
pub mod Paths
pub mod Root
pub mod Changes
pub mod Guarded
pub mod Links
pub mod Program
pub mod Served
use bk7252n_gate.Prelude.{
  ℕ, List, [], ◌∷◌, ◌++◌, Bool, true, false, ◌&&◌, ◌||◌, Option, none, some, drop, length,
  has_prefix, if◌then◌else◌, Text, text, text_eq, is_empty,
}
use bk7252n_gate.Config.{CameraConfig}
use bk7252n_gate.Input.{Object, FloatOps, ApiError, Result, ok, err, bad_request, input_string}
use bk7252n_gate.Pages.{normalize_lang}
use Body.{Request, read_json_body}
use Paths.{split_path}

-- What a request is answered with: a status, an error, or nothing as the handler panics.
pub data Reply : Type 0 where
  answered : ℕ → Reply
  refused : ApiError → Reply
  crashed : Reply

-- The camera and the runtime of an id, as `handleAPI` finds them.
pub data Found : Type 0 where
  unknown : Found
  idle : Found  -- a camera without a runtime
  camera : CameraConfig → Found

-- The handlers behind the routes, over the state of the program. `all_statuses`, `configs_with_status` and
-- `status` are what allStatuses, publicConfigsWithStatus and the Status of a camera do to it.
pub record Api (S F : Type 0) : Type 0 where
  pub find : S → Text → Found
  pub all_statuses : S → S
  pub configs_with_status : S → S
  pub status : S → Text → S
  pub provision : S → Object F → S × Reply
  pub create : S → Object F → S × Reply
  pub update : S → Text → Object F → S × Reply
  pub remove : S → Text → S × Reply
  pub restart : S → Text → S × Reply
  pub wifi : S → Text → Object F → S × Reply
  pub scan_wifi : S → Text → S × Reply
  pub params : S → Text → S × Reply
  pub device_refresh : S → Text → S × Reply
  pub device_config : S → Text → Object F → S × Reply
  pub reboot : S → Text → S × Reply

abbrev pub refuse {κ} : {S : Type κ} → S → ℕ → Text → S × Reply
refuse s status msg = (s, refused (record { status = status; msg = msg }))

-- A nil map reads like an empty one.
abbrev pub read_map : {F : Type 0} → Option (Object F) → Object F
read_map none = []
read_map (some body) = body

module _ {S F : Type 0} (api : Api S F) (fl : FloatOps F)
    (unmarshal : Text → Option (Option (Object F))) where
  -- The request's body goes to the handler.
  unfoldable pub with_body : S → Request → (Option (Object F) → S × Reply) → S × Reply
  with_body s r handler = elim (read_json_body unmarshal r.body) [
    | err e ↦ (s, refused e)
    | ok body ↦ handler body
  ]

  -- PATCH and PUT; `body["id"] = id` panics on a nil map.
  unfoldable pub handle_update : S → Text → Option (Object F) → S × Reply
  handle_update s id none = (s, crashed)
  handle_update s id (some body) =
      if text_eq (input_string fl body (text "id") id) id
      then api.update s id body
      else refuse s bad_request (text "camera id cannot be changed")

  unfoldable pub handle_action : S → Text → Text → Object F → S × Reply
  handle_action s id action body =
      if text_eq action (text "restart")
      then api.restart s id
      else if text_eq action (text "wifi")
      then api.wifi s id body
      else if text_eq action (text "scan-wifi")
      then api.scan_wifi s id
      else if text_eq action (text "params")
      then api.params s id
      else if text_eq action (text "device-refresh")
      then api.device_refresh s id
      else if text_eq action (text "device-config")
      then api.device_config s id body
      else if text_eq action (text "reboot")
      then api.reboot s id
      else refuse s 404 (text "unknown camera action")

  -- The requests for one camera, once it has been found.
  unfoldable pub handle_found : S → Request → Text → Text → S × Reply
  handle_found s r id action =
      if is_empty action && text_eq r.method (text "GET")
      then (api.status s id, answered 200)
      else if is_empty action && (text_eq r.method (text "PATCH") || text_eq r.method (text "PUT"))
      then with_body s r (handle_update s id)
      else if is_empty action && text_eq r.method (text "DELETE")
      then api.remove s id
      else if text_eq r.method (text "POST")
      then with_body s r (λ body. handle_action s id action (read_map body))
      else refuse s 405 (text "method not allowed")

  unfoldable pub handle_one : S → Request → Text → Text → Found → S × Reply
  handle_one s r id action unknown = refuse s 404 (text "unknown camera")
  handle_one s r id action idle = refuse s 409 (text "camera runtime is not available")
  handle_one s r id action (camera _) = handle_found s r id action

  -- The id and the action of the path, or none where `urlPathUnescape` fails.
  unfoldable pub handle_parts : S → Request → Option (Text × Text) → S × Reply
  handle_parts s r none = refuse s bad_request (text "bad camera id")
  handle_parts s r (some (id, action)) = handle_one s r id action (api.find s id)

  unfoldable pub handle_cameras : S → Request → S × Reply
  handle_cameras s r =
      if text_eq r.method (text "GET")
      then (api.configs_with_status s, answered 200)
      else if text_eq r.method (text "POST")
      then with_body s r (λ body. api.create s (read_map body))
      else refuse s 405 (text "method not allowed")

  -- `handleAPI`, with what `writeAPIError` answers.
  unfoldable pub handle_api : S → Request → S × Reply
  handle_api s r =
      if text_eq r.path (text "/api/status") && text_eq r.method (text "GET")
      then (api.all_statuses s, answered 200)
      else if text_eq r.path (text "/api/config") && text_eq r.method (text "GET")
      then (s, answered 200)
      else if text_eq r.path (text "/api/setup/provision") && text_eq r.method (text "POST")
      then with_body s r (λ body. api.provision s (read_map body))
      else if text_eq r.path (text "/api/cameras")
      then handle_cameras s r
      else if has_prefix r.path (text "/api/cameras/")
      then handle_parts s r (split_path (drop (length (text "/api/cameras/")) r.path))
      else refuse s 404 (text "not found")
