-- ===== src/Router/Served.antt =====
-- A request that creates, updates or deletes a camera does what the change of the list behind it does.
use bk7252n_gate.Prelude.{
  ℕ, ◌≡◌, refl, sym, ◌∙◌, inl, inr, List, [], ◌++◌, Bool, true, false, if◌then◌else◌, Option, some,
  Option-cases, Bool-cases, is_empty, Text, text, text_eq, has_prefix, arith,
}
use mathlib.Core.List.{append-nil}
use bk7252n_gate.Config.{CameraConfig, Ip4}
use bk7252n_gate.Input.{Object, FloatOps, ApiError, ok, err, valid_camera_id, input_string}
use bk7252n_gate.Runtime.{Command}
use bk7252n_gate.Runtime.Commands.{CommandResult}
use bk7252n_gate.App.{
  App, camera_index, runtime_of, create_camera, update_camera, patch_camera, delete_camera,
}
use bk7252n_gate.App.Listing.{find_camera-camera_at}
use bk7252n_gate.App.Serve.{Call, create, update, remove, resize, serve}
use bk7252n_gate.Device.{Light}
use bk7252n_gate.Device.Provision.{World}
use bk7252n_gate.Pages.{path_escape}
use bk7252n_gate.Router.{
  Reply, refused, Api, read_map, with_body, handle_update, handle_found, handle_one, handle_parts,
  handle_cameras, handle_api,
}
use bk7252n_gate.Router.Body.{Request, read_json_body}
use bk7252n_gate.Router.Links.{split_path-id}
use bk7252n_gate.Router.Program.{
  Program, reply, after, found_at, find, with_status, created_id, api_of,
}

-- The path of a camera
abbrev camera_path : Text → Text
camera_path id = text "/api/cameras/" ++ path_escape id

-- The method of a change, `PUT` or `PATCH`
abbrev pub update_method : Bool → Text
update_method put = if put then text "PUT" else text "PATCH"

-- Which request asks for which change, and the status of its success.
pub data Asks {F : Type 0} (unmarshal : Text → Option (Option (Object F))) (r : Request)
    : Call F → ℕ → Type 0 where
  to_create :
      (body : Option (Object F))
      → r.method ≡ text "POST"
      → r.path ≡ text "/api/cameras"
      → read_json_body unmarshal r.body ≡ ok body
      → Asks unmarshal r (create (read_map body)) 201
  to_update :
      (put : Bool) (id : Text) (body : Object F)
      → valid_camera_id id ≡ true
      → r.method ≡ update_method put
      → r.path ≡ camera_path id
      → read_json_body unmarshal r.body ≡ ok (some body)
      → Asks unmarshal r (update id body) 200
  to_remove :
      (id : Text)
      → valid_camera_id id ≡ true
      → r.method ≡ text "DELETE"
      → r.path ≡ camera_path id
      → Asks unmarshal r (remove id) 200

after_nothing :
    (p : Program) (status : ℕ) (e : ApiError) → after p status (p.app, [], err e) ≡ (p, refused e)
unfolding after reply
after_nothing p status e = rw (append-nil p.acts) refl

-- What is answered with the camera that was created or changed has its `Status` in it.
unfoldable pub with_answer :
    {F : Type 0} → FloatOps F → ℕ → Call F → Program × Reply → Program × Reply
with_answer fl now (create body) o = with_status now (created_id fl body) o
with_answer fl now (update id body) o = with_status now id o
with_answer fl now (remove id) o = o
with_answer fl now (resize id width height) o = o

unanswered :
    (p : Program) (now : ℕ) (id : Text) (e : ApiError)
    → with_status now id (after p 200 (p.app, [], err e)) ≡ (p, refused e)
unfolding with_status
unanswered p now id e = rw (after_nothing p 200 e) refl

module _ (parse_ip4 : Text → Option Ip4) (print : ℕ → Text) {F : Type 0} (fl : FloatOps F)
    (save : List CameraConfig → Bool) (exchange : Text → App → Command → App × CommandResult)
    (light : App → Text → Option Light) (wait_for_session : World → World × Bool)
    (public_host : Text) (now later : ℕ) (unmarshal : Text → Option (Option (Object F))) where
  abbrev api : Api Program F
  api = api_of parse_ip4 print fl save exchange light wait_for_session public_host now later

  -- The request reaches the handlers of the camera.
  reach :
      (p : Program) (r : Request) (id : Text)
      → valid_camera_id id ≡ true
      → r.path ≡ camera_path id
      → handle_api api fl unmarshal p r ≡ handle_one api fl unmarshal p r id [] (find p id)
  unfolding handle_api handle_parts text_eq has_prefix handle_one handle_found with_body
  reach p r id v path = rw (path, handle_parts, split_path-id id v) refl

  remove-after :
      (p : Program) (r : Request) (id : Text)
      → r.method ≡ text "DELETE"
      → handle_one api fl unmarshal p r id [] (find p id)
        ≡ after p 200 (delete_camera parse_ip4 fl save p.app id)
  unfolding handle_one handle_found find delete_camera camera_index text_eq found_at is_empty
  remove-after p r id method = elim (Option-cases (camera_index id p.app.cameras)) [
    | inl missing ↦ rw (missing, found_at, handle_one, delete_camera) (sym (after_nothing p 200 _))
    | inr (idx, there) ↦ elim (Option-cases (runtime_of id p.app.runtimes)) [
      | inl absent ↦
          rw (there, found_at, absent, handle_one, delete_camera) (sym (after_nothing p 200 _))
      | inr (rt, runs) ↦
          let (cam, listed, same) =
            find_camera-camera_at 0 idx id p.app.cameras there (omega arith) in
          rw (there, found_at, runs, listed, handle_one, handle_found, method) refl
    ]
  ]

  found-update :
      (p : Program) (r : Request) (put : Bool) (id : Text) (body : Object F)
      → r.method ≡ update_method put
      → read_json_body unmarshal r.body ≡ ok (some body)
      → handle_found api fl unmarshal p r id [] ≡ handle_update api fl unmarshal p id (some body)
  unfolding handle_found text_eq is_empty with_body
  found-update p r true id body method read = rw (handle_found, method, with_body, read) refl
  found-update p r false id body method read = rw (handle_found, method, with_body, read) refl

  update-after :
      (p : Program) (r : Request) (put : Bool) (id : Text) (body : Object F)
      → r.method ≡ update_method put
      → read_json_body unmarshal r.body ≡ ok (some body)
      → handle_one api fl unmarshal p r id [] (find p id)
        ≡ with_status now id (after p 200 (update_camera parse_ip4 fl save p.app now id body))
  unfolding handle_one find update_camera camera_index text_eq found_at is_empty handle_update
      patch_camera with_body
  update-after p r put id body method read = elim (Option-cases (camera_index id p.app.cameras)) [
    | inl missing ↦ rw (missing, found_at, handle_one, update_camera) (sym (unanswered p now id _))
    | inr (idx, there) ↦
        let (cam, listed, same) =
          find_camera-camera_at 0 idx id p.app.cameras there (omega arith) in
        elim (Option-cases (runtime_of id p.app.runtimes)) [
          | inl absent ↦
              rw (there, update_camera, listed, found_at, absent, handle_one)
                (sym (unanswered p now id _))
          | inr (rt, runs) ↦ elim (Bool-cases (text_eq (input_string fl body (text "id") id) id)) [
            | inl kept ↦
                rw
                  (
                    there,
                    found_at,
                    runs,
                    listed,
                    handle_one,
                    found-update p r put id body method read,
                    handle_update,
                    kept,
                    update_camera,
                    there,
                    listed,
                    runs,
                  )
                  refl
            | inr moved ↦
                rw
                  (
                    there,
                    update_camera,
                    listed,
                    found_at,
                    runs,
                    listed,
                    handle_one,
                    found-update p r put id body method read,
                    handle_update,
                    patch_camera,
                    moved,
                  )
                  (sym (unanswered p now id _))
          ]
        ]
  ]

  create-after :
      (p : Program) (r : Request) (body : Option (Object F))
      → r.method ≡ text "POST"
      → r.path ≡ text "/api/cameras"
      → read_json_body unmarshal r.body ≡ ok body
      → handle_api api fl unmarshal p r
        ≡ with_status now
            (created_id fl (read_map body))
            (after p 201 (create_camera parse_ip4 fl save p.app now (read_map body)))
  unfolding handle_api handle_cameras text_eq with_body
  create-after p r body method path read = rw (path, handle_cameras, method, with_body, read) refl

  -- A request over HTTP that creates, changes or deletes a camera leaves the list of cameras, the runtimes and
  -- the effects as the change that it asks for does, except that an answer with a camera trims this
  -- camera's metrics; and it is answered with the status of the change or its error. This is for a POST whose body
  -- was read, for a PATCH or a PUT with a valid id in the path whose body was read as an object, not as
  -- null, and for a DELETE with a valid id in the path.
  pub handle_api-serve :
      (p : Program) (r : Request) (call : Call F) (status : ℕ)
      → Asks unmarshal r call status
      → handle_api api fl unmarshal p r
        ≡ with_answer fl now call (after p status (serve parse_ip4 fl save p.app now call))
  unfolding serve with_answer
  handle_api-serve p r _ _ (to_create body method path read) =
      create-after p r body method path read
  handle_api-serve p r _ _ (to_update put id body v method path read) =
      reach p r id v path ∙ update-after p r put id body method read
  handle_api-serve p r _ _ (to_remove id v method path) =
      reach p r id v path ∙ remove-after p r id method
