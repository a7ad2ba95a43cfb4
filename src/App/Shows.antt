-- ===== src/App/Shows.antt =====
-- How the program's state shows a table of ids, and that creating a camera keeps to it.
use bk7252n_gate.Prelude.{
  ℕ, ◌≡◌, refl, sym, ◌∙◌, ap, inl, inr, List, [], ◌∷◌, Bool, true, Option, none, some, Option-cases,
  if◌then◌else◌, All, All-append, Text, text_eq, arith,
}
use bk7252n_gate.Prelude.Int.{ℤ, pos, negsuc, eq_ℤ}
use bk7252n_gate.Config.{CameraConfig, Ip4}
use bk7252n_gate.Input.{Object, FloatOps, Result, Result-cases, ok, valid_camera_id}
use bk7252n_gate.Input.Camera.{normalize_camera}
use bk7252n_gate.Input.Normal.{normalize_camera-IsNormal}
use bk7252n_gate.App.{
  App, Outcome, camera_index, camera_at, save_then, upsert_runtime, add_camera, create_camera,
}
use bk7252n_gate.App.Cameras.{IsUnique, IsUnique-append, index_from-none, upsert_runtime-cameras}
use bk7252n_gate.App.Listing.{
  find_camera, find_camera-none, find_camera-camera_at, find_camera-append, find_camera-All,
}
use bk7252n_gate.App.Runtimes.{is_running, is_running-upsert}
use bk7252n_gate.App.Serve.{create}
use bk7252n_gate.App.Directory.{Directory, run_camera, promise_create, promise}

abbrev pub HasValidId : CameraConfig → Type 0
HasValidId cam = valid_camera_id cam.id ≡ true

-- What relates the program's state to a directory.
pub record Shows (app : App) (d : Directory) : Type 0 where
  pub listed : (k : Text) → find_camera k app.cameras ≡ d.listed k
  pub running : (k : Text) → is_running k app.runtimes ≡ d.running k
  pub unique : IsUnique app.cameras
  pub valid : All HasValidId app.cameras

-- An outcome that is the promised one.
abbrev pub Keeps : Outcome → Directory × Result (Unit {0}) → Type 0
Keeps o r = Shows o.0 r.0 × (o.2 ≡ r.1)

pub eq_ℤ→eq : (a b : ℤ) → eq_ℤ a b ≡ true → a ≡ b
eq_ℤ→eq (pos a) (pos b) h = ap pos (ground arith)
eq_ℤ→eq (pos a) (negsuc b) h = absurd (ground arith)
eq_ℤ→eq (negsuc a) (pos b) h = absurd (ground arith)
eq_ℤ→eq (negsuc a) (negsuc b) h = ap negsuc (ground arith)

-- What a position says of the directory.
pub found_camera :
    (app : App) (d : Directory) (id : Text) (idx : ℕ)
    → Shows app d
    → camera_index id app.cameras ≡ some idx
    → (cam : CameraConfig) × (camera_at idx app.cameras ≡ some cam)
      × (d.listed id ≡ some cam)
      × HasValidId cam
      × (cam.id ≡ id)
unfolding camera_index
found_camera app d id idx h found =
    let (cam, there, e) = find_camera-camera_at 0 idx id app.cameras found (omega arith) in
    let (v, same) = find_camera-All HasValidId id app.cameras h.valid e in
    (cam, there, sym (h.listed id) ∙ e, v, same)

pub missing_camera :
    (app : App) (d : Directory) (id : Text)
    → Shows app d
    → camera_index id app.cameras ≡ none
    → d.listed id ≡ none
unfolding camera_index
missing_camera app d id h missing = sym (h.listed id) ∙ find_camera-none 0 id app.cameras missing

module _ (parse_ip4 : Text → Option Ip4) {F : Type 0} (fl : FloatOps F)
    (save : List CameraConfig → Bool) (saves : (cams : List CameraConfig) → save cams ≡ true) where
  -- The camera is already in the list, and its runtime follows.
  pub upsert_runtime-Shows :
      (app : App) (d : Directory) (now : ℕ) (cam : CameraConfig) (cams : List CameraConfig)
      → Shows app d
      → ((k : Text)
          → find_camera k cams ≡ (if text_eq cam.id k then some cam else find_camera k app.cameras))
      → IsUnique cams
      → All HasValidId cams
      → Shows
          (upsert_runtime parse_ip4 (record app { cameras = cams }) now cam).0
          (run_camera d cam)
  upsert_runtime-Shows app d now cam cams h l u v =
      let grown = record app { cameras = cams } in
      let e = upsert_runtime-cameras parse_ip4 grown now cam in
      record {
        listed = λ k. rw e (l k ∙ rw (h.listed k) refl);
        running = λ k. is_running-upsert parse_ip4 grown now cam k ∙ rw (h.running k) refl;
        unique = rw e u;
        valid = rw e v;
      }

  add_camera-Keeps :
      (app : App) (d : Directory) (now : ℕ) (cam : CameraConfig)
      → Shows app d
      → HasValidId cam
      → Keeps (add_camera parse_ip4 fl save app now cam) (promise_create fl d (ok cam))
  unfolding add_camera camera_index promise_create save_then
  add_camera-Keeps app d now cam h v = elim (Option-cases (camera_index cam.id app.cameras)) [
    | inl e ↦
        let free : d.listed cam.id ≡ none =
          sym (h.listed cam.id) ∙ find_camera-none 0 cam.id app.cameras e in
        let away = index_from-none 0 cam.id app.cameras e in
        rw (e, add_camera)
          (rw (free, promise_create)
            (rw (saves _, save_then)
              (
                upsert_runtime-Shows app d now cam _ h
                    (λ k. find_camera-append app.cameras cam k away)
                    (IsUnique-append app.cameras cam away h.unique)
                    (All-append HasValidId app.cameras (cam ∷ []) h.valid (v, tt)),
                refl,
              )))
    | inr (i, e) ↦
        let (old, there, found) = find_camera-camera_at 0 i cam.id app.cameras e (omega arith) in
        let taken : d.listed cam.id ≡ some old = sym (h.listed cam.id) ∙ found in
        rw (e, add_camera) (rw (taken, promise_create) (h, refl))
  ]

  pub create_camera-Keeps :
      (app : App) (d : Directory) (now : ℕ) (body : Object F)
      → Shows app d
      → Keeps (create_camera parse_ip4 fl save app now body) (promise fl d (create body))
  unfolding create_camera promise promise_create
  create_camera-Keeps app d now body h = elim (Result-cases (normalize_camera fl body none)) [
    | inl (e, refused) ↦ rw (refused, create_camera, promise_create) (h, refl)
    | inr (cam, accepted) ↦
        rw (accepted, create_camera)
          (add_camera-Keeps app d now cam h
            (normalize_camera-IsNormal fl body none cam accepted).valid_id)
  ]
