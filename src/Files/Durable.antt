-- ===== src/Files/Durable.antt =====
-- A change of the list of cameras that is answered as a success is on the disk: the next start reads it.
use bk7252n_gate.Prelude.{
  ℕ, ◌≡◌, ◌⊎◌, refl, inl, inr, List, [], ◌∷◌, ◌++◌, Bool, true, ◌&&◌, Option, none, some,
  Option-cases, Bool-cases, Text, text, text_eq,
}
use bk7252n_gate.Prelude.Int.{ℤ, eq_ℤ}
use bk7252n_gate.Config.{CameraConfig, Ip4}
use bk7252n_gate.Input.{Object, FloatOps, ok, str, Result-cases, input_string}
use bk7252n_gate.Input.Camera.{normalize_camera}
use bk7252n_gate.Runtime.{Act}
use bk7252n_gate.App.{
  App, Outcome, upsert_runtime, put_at, remove_at, save_then, camera_index, camera_at, runtime_of,
  add_camera, create_camera, replace_camera, patch_camera, update_camera, delete_camera,
  resize_camera, set_camera_profile_size, remove_runtime, profile_runtime,
}
use bk7252n_gate.Files.{
  Server, Config, Disk, IsDisk, Json, fallback, load_config, save_config, last_or,
}
use bk7252n_gate.Files.Atomic.{load_config-save_config}
use bk7252n_gate.App.Cameras.{upsert_runtime-cameras}
use bk7252n_gate.App.Runtimes.{profile_runtime-cameras, remove_runtime-cameras}
use bk7252n_gate.App.Serve.{Call, create, update, remove, resize, serve}

module _ (save : List CameraConfig → Bool) where
  -- If the outcome is a success, its cameras have been saved or are those from before.
  abbrev pub IsSaved : List CameraConfig → Outcome → Type 0
  IsSaved before o = o.2 ≡ ok tt → (save o.0.cameras ≡ true) ⊎ (o.0.cameras ≡ before)

  save_then-IsSaved :
      (before : List CameraConfig) (changed : App) (next : App × List Act)
      → next.0.cameras ≡ changed.cameras
      → IsSaved before (save_then (save changed.cameras) changed next)
  unfolding save_then
  save_then-IsSaved before changed next same = elim (Bool-cases (save changed.cameras)) [
    | inl saved ↦ rw (save_then, saved) (λ h. inl (rw same saved))
    | inr failed ↦ rw (save_then, failed) (λ h. absurd (cc))
  ]

  module _ (parse_ip4 : Text → Option Ip4) {F : Type 0} (fl : FloatOps F) where
    add_camera-IsSaved :
        (app : App) (now : ℕ) (camera : CameraConfig)
        → IsSaved app.cameras (add_camera parse_ip4 fl save app now camera)
    unfolding add_camera
    add_camera-IsSaved app now camera =
        let grown = record app { cameras = app.cameras ++ (camera ∷ []) } in
        elim (Option-cases (camera_index camera.id app.cameras)) [
          | inl e ↦
              rw (e, add_camera)
                (save_then-IsSaved app.cameras grown (upsert_runtime parse_ip4 grown now camera)
                  (upsert_runtime-cameras parse_ip4 grown now camera))
          | inr (i, e) ↦ rw (e, add_camera) (λ h. inr refl)
        ]

    create_camera-IsSaved :
        (app : App) (now : ℕ) (body : Object F)
        → IsSaved app.cameras (create_camera parse_ip4 fl save app now body)
    unfolding create_camera
    create_camera-IsSaved app now body = elim (Result-cases (normalize_camera fl body none)) [
      | inl (e, refused) ↦ rw (refused, create_camera) (λ h. inr refl)
      | inr (camera, accepted) ↦ rw (accepted, create_camera) (add_camera-IsSaved app now camera)
    ]

    replace_camera-IsSaved :
        (app : App) (now idx : ℕ) (next : CameraConfig)
        → IsSaved app.cameras (replace_camera parse_ip4 fl save app now idx next)
    unfolding replace_camera
    replace_camera-IsSaved app now idx next =
        let changed = record app { cameras = put_at idx next app.cameras } in
        save_then-IsSaved app.cameras changed (upsert_runtime parse_ip4 changed now next)
          (upsert_runtime-cameras parse_ip4 changed now next)

    patch_camera-IsSaved :
        (app : App) (now : ℕ) (id : Text) (body : Object F) (idx : ℕ) (camera : CameraConfig)
        → IsSaved app.cameras (patch_camera parse_ip4 fl save app now id body idx camera)
    unfolding patch_camera
    patch_camera-IsSaved app now id body idx camera =
        elim (Bool-cases (text_eq (input_string fl body (text "id") id) id)) [
          | inl same ↦
              elim (Result-cases (normalize_camera fl ((text "id", str id) ∷ body) (some camera))) [
                | inl (e, refused) ↦ rw (same, refused, patch_camera) (λ h. inr refl)
                | inr (next, accepted) ↦
                    rw (same, accepted, patch_camera) (replace_camera-IsSaved app now idx next)
              ]
          | inr moved ↦ rw (moved, patch_camera) (λ h. inr refl)
        ]

    update_camera-IsSaved :
        (app : App) (now : ℕ) (id : Text) (body : Object F)
        → IsSaved app.cameras (update_camera parse_ip4 fl save app now id body)
    unfolding update_camera
    update_camera-IsSaved app now id body = elim (Option-cases (camera_index id app.cameras)) [
      | inl e ↦ rw (e, update_camera) (λ h. inr refl)
      | inr (idx, e) ↦ elim (Option-cases (camera_at idx app.cameras)) [
        | inl gone ↦ rw (e, gone, update_camera) (λ h. inr refl)
        | inr (camera, there) ↦ elim (Option-cases (runtime_of id app.runtimes)) [
          | inl idle ↦ rw (e, there, idle, update_camera) (λ h. inr refl)
          | inr (rt, running) ↦
              rw (e, there, running, update_camera)
                (patch_camera-IsSaved app now id body idx camera)
        ]
      ]
    ]

    delete_camera-IsSaved :
        (app : App) (id : Text) → IsSaved app.cameras (delete_camera parse_ip4 fl save app id)
    unfolding delete_camera
    delete_camera-IsSaved app id = elim (Option-cases (camera_index id app.cameras)) [
      | inl e ↦ rw (e, delete_camera) (λ h. inr refl)
      | inr (idx, e) ↦ elim (Option-cases (runtime_of id app.runtimes)) [
        | inl idle ↦ rw (e, idle, delete_camera) (λ h. inr refl)
        | inr (rt, running) ↦
            let shrunk = record app { cameras = remove_at idx app.cameras } in
            rw (e, running, delete_camera)
              (save_then-IsSaved app.cameras shrunk (remove_runtime shrunk id)
                (remove_runtime-cameras shrunk id))
      ]
    ]

    resize_camera-IsSaved :
        (app : App) (id : Text) (width height : ℤ) (idx : ℕ) (cam : CameraConfig)
        → IsSaved app.cameras (resize_camera save app id width height idx cam)
    unfolding resize_camera
    resize_camera-IsSaved app id width height idx cam =
        let resized = record app {
          cameras = put_at idx (record cam { width = width; height = height }) app.cameras;
        } in
        elim (Bool-cases (eq_ℤ cam.width width && eq_ℤ cam.height height)) [
          | inl same ↦
              rw (same, resize_camera) (λ h. inr (profile_runtime-cameras app id width height))
          | inr differs ↦
              rw (differs, resize_camera)
                (save_then-IsSaved app.cameras resized (profile_runtime resized id width height, [])
                  (profile_runtime-cameras resized id width height))
        ]

    set_camera_profile_size-IsSaved :
        (app : App) (id : Text) (width height : ℤ)
        → IsSaved app.cameras (set_camera_profile_size save app id width height)
    unfolding set_camera_profile_size
    set_camera_profile_size-IsSaved app id width height =
        elim (Option-cases (camera_index id app.cameras)) [
          | inl e ↦ rw (e, set_camera_profile_size) (λ h. inr refl)
          | inr (idx, e) ↦ elim (Option-cases (camera_at idx app.cameras)) [
            | inl gone ↦ rw (e, gone, set_camera_profile_size) (λ h. inr refl)
            | inr (cam, there) ↦
                rw (e, there, set_camera_profile_size)
                  (resize_camera-IsSaved app id width height idx cam)
          ]
        ]

    serve-IsSaved :
        (app : App) (now : ℕ) (call : Call F)
        → IsSaved app.cameras (serve parse_ip4 fl save app now call)
    unfolding serve
    serve-IsSaved app now (create body) = create_camera-IsSaved app now body
    serve-IsSaved app now (update id body) = update_camera-IsSaved app now id body
    serve-IsSaved app now (remove id) = delete_camera-IsSaved app id
    serve-IsSaved app now (resize id width height) =
        set_camera_profile_size-IsSaved app id width height

module _ {D : Type 0} (disk : Disk D) (json : Json) (server : Server)
    (parse_ip4 : Text → Option Ip4) {F : Type 0} (fl : FloatOps F) where
  abbrev pub with_cameras : List CameraConfig → Config
  with_cameras cams = record { server = server; cameras = cams }

  -- A request that saves its list of cameras on the disk `d`.
  abbrev pub serve_on : D → Text → ℕ → App → ℕ → Call F → Outcome
  serve_on d path pid app now call =
      serve parse_ip4 fl (λ cams. (save_config disk json d path pid (with_cameras cams)).1) app now
        call

  -- The configuration once the request is answered.
  abbrev pub config_after : D → Text → ℕ → App → ℕ → Call F → Config
  config_after d path pid app now call = with_cameras (serve_on d path pid app now call).0.cameras

  -- A configuration file that holds the list of cameras before a request that creates, updates, deletes or resizes
  -- a camera: if the request is answered with success, then the next start of the program reads the list as it is
  -- after the request, either from the disk that the request has saved the list to or, where nothing has
  -- changed, from the disk as it was, if encoding/json reads back what it wrote of that list.
  pub serve-load_config :
      (laws : IsDisk disk) (d : D) (path : Text) (pid : ℕ) (app : App) (now : ℕ) (call : Call F)
      → load_config disk json d path ≡ some (with_cameras app.cameras)
      → ((b : Text)
          → json.marshal_indent (config_after d path pid app now call) ≡ some b
          → json.unmarshal (b ++ (10 ∷ [])) fallback ≡ some (config_after d path pid app now call))
      → (serve_on d path pid app now call).2 ≡ ok tt
      → let after = config_after d path pid app now call in
        (load_config disk json (last_or d (save_config disk json d path pid after).0) path
          ≡ some after)
        ⊎ (load_config disk json d path ≡ some after)
  serve-load_config laws d path pid app now call held reads success =
      elim (serve-IsSaved (λ cams. (save_config disk json d path pid (with_cameras cams)).1)
        parse_ip4 fl app now call success) [
          | inl saved ↦ inl (load_config-save_config disk laws json path _ d pid reads saved)
          | inr same ↦ inr (rw same held)
        ]
