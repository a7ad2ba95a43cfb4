-- ===== src/App/Cameras.antt =====
-- The list of cameras under the request that adds one.
use bk7252n_gate.Config.{CameraConfig, Ip4}
use bk7252n_gate.Prelude.{
  ℕ, ◌+◌, ◌≡◌, ◌≢◌, refl, sym, ap, inl, inr, List, [], ◌∷◌, ◌++◌, Bool, true, false, Bool-cases,
  Option, none, some, Option-cases, All, All-append, Text, text_eq, text_eq_refl,
}
use bk7252n_gate.Input.{Object, FloatOps, Result-cases, ok, err}
use bk7252n_gate.Input.Camera.{normalize_camera}
use bk7252n_gate.Runtime.{Act}
use bk7252n_gate.App.{
  App, index_from, camera_index, runtime_of, Outcome, save_then, upsert_runtime, add_camera,
  create_camera,
}

-- No two cameras have the same id.
abbrev pub IsUnique : List CameraConfig → Type 0
IsUnique [] = Unit
IsUnique (cam ∷ cams) = All (λ c. c.id ≢ cam.id) cams × IsUnique cams

pub text_eq-false : (s t : Text) → text_eq s t ≡ false → s ≢ t
text_eq-false s t h e = cc (rw e at h, text_eq_refl t)

pub index_from-none :
    (i : ℕ) (id : Text) (cams : List CameraConfig)
    → index_from i id cams ≡ none
    → All (λ c. c.id ≢ id) cams
unfolding index_from
index_from-none i id [] h = tt
index_from-none i id (cam ∷ cams) h = elim (Bool-cases (text_eq cam.id id)) [
  | inl same ↦ absurd (some_none (rw same at h))
  | inr other ↦ (text_eq-false cam.id id other, index_from-none (i + 1) id cams (rw other at h))
]
  where
    some_none : {n : ℕ} → some n ≡ none → ⊥
    some_none e = cc

pub IsUnique-append :
    (cams : List CameraConfig) (cam : CameraConfig)
    → All (λ c. c.id ≢ cam.id) cams
    → IsUnique cams
    → IsUnique (cams ++ (cam ∷ []))
IsUnique-append [] cam h u = (tt, tt)
IsUnique-append (c ∷ cams) cam h u = (
  All-append (λ d. d.id ≢ c.id) cams (cam ∷ []) u.0 ((λ e. h.0 (sym e)), tt),
  IsUnique-append cams cam h.1 u.1,
)

index_from-append :
    (i : ℕ) (cams : List CameraConfig) (cam : CameraConfig)
    → (j : ℕ) × (index_from i cam.id (cams ++ (cam ∷ [])) ≡ some j)
unfolding index_from
index_from-append i [] cam = (i, rw (text_eq_refl cam.id) refl)
index_from-append i (c ∷ cams) cam = elim (Bool-cases (text_eq c.id cam.id)) [
  | inl same ↦ (i, rw same refl)
  | inr other ↦ let (j, e) = index_from-append (i + 1) cams cam in (j, rw other e)
]

-- The status that an outcome is answered with, 0 standing for success.
unfoldable pub status_of : Outcome → ℕ
status_of (app, acts, err e) = e.status
status_of (app, acts, ok u) = 0

save_then-cameras :
    (P : List CameraConfig → Type 0) (saved : Bool) (unsaved : App) (next : App × List Act)
    → P unsaved.cameras
    → P next.0.cameras
    → P (save_then saved unsaved next).0.cameras
unfolding save_then
save_then-cameras P true unsaved next h k = k
save_then-cameras P false unsaved next h k = h

module _ (parse_ip4 : Text → Option Ip4) where
  pub upsert_runtime-cameras :
      (app : App) (now : ℕ) (camera : CameraConfig)
      → (upsert_runtime parse_ip4 app now camera).0.cameras ≡ app.cameras
  unfolding upsert_runtime
  upsert_runtime-cameras app now camera = elim (Option-cases (runtime_of camera.id app.runtimes)) [
    | inl e ↦ rw (e, upsert_runtime) refl
    | inr (rt, e) ↦ rw (e, upsert_runtime) refl
  ]

  module _ {F : Type 0} (fl : FloatOps F) (save : List CameraConfig → Bool) where
    add_camera-IsUnique :
        (app : App) (now : ℕ) (camera : CameraConfig)
        → IsUnique app.cameras
        → IsUnique (add_camera parse_ip4 fl save app now camera).0.cameras
    unfolding add_camera camera_index
    add_camera-IsUnique app now camera h =
        elim (Option-cases (camera_index camera.id app.cameras)) [
          | inl e ↦
              let grown = record app { cameras = app.cameras ++ (camera ∷ []) } in
              let more =
                IsUnique-append app.cameras camera (index_from-none 0 camera.id app.cameras e) h in
              rw (e, add_camera)
                (save_then-cameras IsUnique (save grown.cameras) grown
                  (upsert_runtime parse_ip4 grown now camera) more
                  (rw (upsert_runtime-cameras grown now camera) more))
          | inr (i, e) ↦ rw (e, add_camera) h
        ]

    -- From a list of cameras without two equal ids, a request to create a camera leaves such a
    -- list, whether it is refused, fails to save the configuration or succeeds.
    create_camera-IsUnique :
        (app : App) (now : ℕ) (body : Object F)
        → IsUnique app.cameras
        → IsUnique (create_camera parse_ip4 fl save app now body).0.cameras
    unfolding create_camera
    create_camera-IsUnique app now body h = elim (Result-cases (normalize_camera fl body none)) [
      | inl (e, refused) ↦ rw (refused, create_camera) h
      | inr (camera, accepted) ↦ rw (accepted, create_camera) (add_camera-IsUnique app now camera h)
    ]

    create_camera_accepted :
        (app : App) (now : ℕ) (body : Object F) (camera : CameraConfig)
        → normalize_camera fl body none ≡ ok camera
        → create_camera parse_ip4 fl save app now body ≡ add_camera parse_ip4 fl save app now camera
    unfolding create_camera
    create_camera_accepted app now body camera accepted = rw (accepted, create_camera) refl

    add_camera_unsaved :
        (app : App) (now : ℕ) (camera : CameraConfig)
        → camera_index camera.id app.cameras ≡ none
        → save (app.cameras ++ (camera ∷ [])) ≡ false
        → let r = add_camera parse_ip4 fl save app now camera in
          (r.0 ≡ record app { cameras = app.cameras ++ (camera ∷ []) })
          × (r.1 ≡ [])
          × (status_of r ≡ 500)
    unfolding add_camera status_of save_then
    add_camera_unsaved app now camera free broken =
        rw (free, add_camera) (rw (broken, save_then) (refl, refl, refl))

    add_camera_taken :
        (app : App) (now : ℕ) (camera : CameraConfig) (cams : List CameraConfig)
        → app.cameras ≡ cams ++ (camera ∷ [])
        → status_of (add_camera parse_ip4 fl save app now camera) ≡ 409
    unfolding add_camera status_of camera_index
    add_camera_taken app now camera cams e =
        let (j, there) = index_from-append 0 cams camera in rw e (rw (there, add_camera) refl)

    -- A request for a camera with a new id whose configuration cannot be saved fails with status 500 and starts
    -- nothing, but leaves the camera in the list: the same request, made again, fails with status 409.
    pub create_camera_unsaved :
        (app : App) (now later : ℕ) (body : Object F) (camera : CameraConfig)
        → normalize_camera fl body none ≡ ok camera
        → camera_index camera.id app.cameras ≡ none
        → save (app.cameras ++ (camera ∷ [])) ≡ false
        → let first = create_camera parse_ip4 fl save app now body in
          (status_of first ≡ 500)
          × (first.1 ≡ [])
          × (first.0.cameras ≡ app.cameras ++ (camera ∷ []))
          × (status_of (create_camera parse_ip4 fl save first.0 later body) ≡ 409)
    create_camera_unsaved app now later body camera accepted free broken =
        let (left, silent, failed) = add_camera_unsaved app now camera free broken in
        let first = create_camera_accepted app now body camera accepted in
        rw
          (
            first,
            create_camera_accepted (add_camera parse_ip4 fl save app now camera).0 later body camera
                accepted,
          )
          (
            failed,
            silent,
            ap (λ (a : App). a.cameras) left,
            add_camera_taken _ later camera app.cameras (ap (λ (a : App). a.cameras) left),
          )
