-- ===== src/App.antt =====
-- `App` of bkcam-go/main.go: the configured cameras and their runtimes, with `cameraIndexLocked`,
-- `upsertRuntimeLocked`, `removeRuntimeLocked`, `setCameraProfileSize`, `targetStreamSize` and the cases of
-- `handleAPI` that create, change and delete a camera. The lock makes each of them one step.
pub mod Cameras
pub mod Removal
pub mod Listing
pub mod Serve
pub mod Directory
pub mod Runtimes
pub mod Shows
pub mod Changes
pub mod Refine
pub mod Sorted
pub mod Order
use bk7252n_gate.Prelude.{
  ℕ, zero, suc, ◌+◌, List, [], ◌∷◌, ◌++◌, Bool, true, false, ◌&&◌, ◌||◌, not, Option, none, some,
  ◌==◌, if◌then◌else◌, Text, text, text_eq,
}
use bk7252n_gate.Prelude.Int.{ℤ, pos, eq_ℤ}
use bk7252n_gate.Config
use bk7252n_gate.Config.{CameraConfig, Ip4}
use bk7252n_gate.Input.{
  Object, FloatOps, Value, str, ApiError, Result, ok, err, bad_request, input_string,
}
use bk7252n_gate.Input.Camera.{normalize_camera}
use bk7252n_gate.Runtime.{CameraRuntime, Act}
use bk7252n_gate.Runtime.Lifecycle.{
  new_camera_runtime, start, stop, update_config, set_profile_size,
}

abbrev pub Runtimes : Type 0
Runtimes = List (Text × CameraRuntime)

pub record App : Type 0 where
  pub cameras : List CameraConfig
  pub runtimes : Runtimes

-- `cameraIndexLocked` from position `i` on; `none` is -1.
unfoldable pub index_from : ℕ → Text → List CameraConfig → Option ℕ
index_from i id [] = none
index_from i id (cam ∷ cams) =
    let rest = index_from (i + 1) id cams in if text_eq cam.id id then some i else rest

unfoldable pub camera_index : Text → List CameraConfig → Option ℕ
unfolding index_from
camera_index id cams = index_from 0 id cams

-- `cams[i] = cam`
unfoldable pub put_at : ℕ → CameraConfig → List CameraConfig → List CameraConfig
put_at i cam [] = []
put_at zero cam (c ∷ cams) = cam ∷ cams
put_at (suc i) cam (c ∷ cams) = c ∷ put_at i cam cams

-- `cams[i]`
unfoldable pub camera_at : ℕ → List CameraConfig → Option CameraConfig
camera_at i [] = none
camera_at zero (c ∷ cams) = some c
camera_at (suc i) (c ∷ cams) = camera_at i cams

-- `append(cams[:i], cams[i+1:]...)`
unfoldable pub remove_at : ℕ → List CameraConfig → List CameraConfig
remove_at i [] = []
remove_at zero (c ∷ cams) = cams
remove_at (suc i) (c ∷ cams) = c ∷ remove_at i cams

-- `a.runtimes[id]`
unfoldable pub runtime_of : Text → Runtimes → Option CameraRuntime
runtime_of id [] = none
runtime_of id ((k, rt) ∷ rest) = if text_eq k id then some rt else runtime_of id rest

unfoldable pub delete_runtime : Text → Runtimes → Runtimes
delete_runtime id [] = []
delete_runtime id ((k, rt) ∷ rest) =
    if text_eq k id then delete_runtime id rest else (k, rt) ∷ delete_runtime id rest

unfoldable pub put_runtime : Text → CameraRuntime → Runtimes → Runtimes
put_runtime id rt rts = (id, rt) ∷ delete_runtime id rts

-- `removeRuntimeLocked`
unfoldable pub remove_runtime : App → Text → App × List Act
remove_runtime app id = elim (runtime_of id app.runtimes) [
  | none ↦ (app, [])
  | some rt ↦ (record app { runtimes = delete_runtime id app.runtimes }, (stop rt).1)
]

abbrev pub fail : ℕ → Text → Result (Unit {0})
fail status msg = err (record { status = status; msg = msg })

-- What a handler leaves: the state, the effects and the response.
abbrev pub Outcome : Type 0
Outcome = App × List Act × Result (Unit {0})

-- The video mode that `targetStreamSize` reads from the preset, and then from the stream mode.
unfoldable pub preset_mode : Text → ℕ
preset_mode preset =
    if text_eq preset (text "stable320")
    then 2
    else (if text_eq preset (text "quality640") then 1 else 0)

unfoldable pub stream_mode_or : Text → ℕ → ℕ
stream_mode_or mode preset =
    if text_eq mode (text "qvga")
    then 2
    else (if text_eq mode (text "vga")
        then 1
        else (if text_eq mode (text "stop") then 0 else preset))

unfoldable pub size_of_mode : ℕ → Option (ℤ × ℤ)
size_of_mode mode =
    if mode == 1
    then some (pos 640, pos 480)
    else (if mode == 2 then some (pos 320, pos 240) else none)

-- The error of `saveConfigLocked` is no `apiError`, so it is answered with status 500.
unfoldable pub save_then : Bool → App → (App × List Act) → Outcome
save_then saved unsaved next =
    if saved then (next.0, next.1, ok tt) else (unsaved, [], fail 500 (text "config not saved"))

module _ (parse_ip4 : Text → Option Ip4) where
  -- `upsertRuntimeLocked`
  unfoldable pub upsert_runtime : App → ℕ → CameraConfig → App × List Act
  upsert_runtime app now camera = elim (runtime_of camera.id app.runtimes) [
    | some rt ↦
        let r = update_config parse_ip4 rt now camera in
        (record app { runtimes = put_runtime camera.id r.0 app.runtimes }, r.1)
    | none ↦
        let fresh = new_camera_runtime camera in
        let r = if Config.enabled camera then start parse_ip4 fresh now else (fresh, []) in
        (record app { runtimes = put_runtime camera.id r.0 app.runtimes }, r.1)
  ]

  module _ {F : Type 0} (fl : FloatOps F) (save : List CameraConfig → Bool) where
    unfoldable pub add_camera : App → ℕ → CameraConfig → Outcome
    add_camera app now camera =
        let grown = record app { cameras = app.cameras ++ (camera ∷ []) } in
        elim (camera_index camera.id app.cameras) [
          | some _ ↦ (app, [], fail 409 (text "camera already exists"))
          | none ↦ save_then (save grown.cameras) grown (upsert_runtime grown now camera)
        ]

    -- POST /api/cameras
    unfoldable pub create_camera : App → ℕ → Object F → Outcome
    create_camera app now body = elim (normalize_camera fl body none) [
      | err e ↦ (app, [], err e)
      | ok camera ↦ add_camera app now camera
    ]

    unfoldable pub replace_camera : App → ℕ → ℕ → CameraConfig → Outcome
    replace_camera app now idx next =
        let changed = record app { cameras = put_at idx next app.cameras } in
        save_then (save changed.cameras) changed (upsert_runtime changed now next)

    unfoldable pub patch_camera : App → ℕ → Text → Object F → ℕ → CameraConfig → Outcome
    patch_camera app now id body idx camera =
        if not (text_eq (input_string fl body (text "id") id) id)
        then (app, [], fail bad_request (text "camera id cannot be changed"))
        else (elim (normalize_camera fl ((text "id", str id) ∷ body) (some camera)) [
          | err e ↦ (app, [], err e)
          | ok next ↦ replace_camera app now idx next
        ])

    -- PATCH and PUT /api/cameras/<id>
    unfoldable pub update_camera : App → ℕ → Text → Object F → Outcome
    update_camera app now id body = elim (camera_index id app.cameras) [
      | none ↦ (app, [], fail 404 (text "unknown camera"))
      | some idx ↦ elim (camera_at idx app.cameras) [
        | none ↦ (app, [], fail 404 (text "unknown camera"))
        | some camera ↦ elim (runtime_of id app.runtimes) [
          | none ↦ (app, [], fail 409 (text "camera runtime is not available"))
          | some _ ↦ patch_camera app now id body idx camera
        ]
      ]
    ]

    -- DELETE /api/cameras/<id>
    unfoldable pub delete_camera : App → Text → Outcome
    delete_camera app id = elim (camera_index id app.cameras) [
      | none ↦ (app, [], fail 404 (text "unknown camera"))
      | some idx ↦ elim (runtime_of id app.runtimes) [
        | none ↦ (app, [], fail 409 (text "camera runtime is not available"))
        | some _ ↦
            let shrunk = record app { cameras = remove_at idx app.cameras } in
            save_then (save shrunk.cameras) shrunk (remove_runtime shrunk id)
      ]
    ]

module _ {F : Type 0} (fl : FloatOps F) where
  unfoldable pub target_stream_size : Object F → Option (ℤ × ℤ)
  target_stream_size input = size_of_mode (
      stream_mode_or (input_string fl input (text "streamMode") [])
        (preset_mode (input_string fl input (text "preset") [])))

-- The change of the runtime, if there is one.
unfoldable pub profile_runtime : App → Text → ℤ → ℤ → App
profile_runtime app id width height = elim (runtime_of id app.runtimes) [
  | none ↦ app
  | some rt ↦ record app {
    runtimes = put_runtime id (set_profile_size rt width height) app.runtimes;
  }
]

-- `setCameraProfileSize`: the configuration is saved only if the size is new.
unfoldable pub resize_camera :
    (List CameraConfig → Bool) → App → Text → ℤ → ℤ → ℕ → CameraConfig → Outcome
resize_camera save app id width height idx cam =
    let resized = record app {
      cameras = put_at idx (record cam { width = width; height = height }) app.cameras;
    } in
    if eq_ℤ cam.width width && eq_ℤ cam.height height
    then (profile_runtime app id width height, [], ok tt)
    else save_then (save resized.cameras) resized (profile_runtime resized id width height, [])

unfoldable pub set_camera_profile_size : (List CameraConfig → Bool) → App → Text → ℤ → ℤ → Outcome
set_camera_profile_size save app id width height = elim (camera_index id app.cameras) [
  | none ↦ (app, [], fail 404 (text "unknown camera"))
  | some idx ↦ elim (camera_at idx app.cameras) [
    | none ↦ (app, [], fail 404 (text "unknown camera"))
    | some cam ↦ resize_camera save app id width height idx cam
  ]
]
