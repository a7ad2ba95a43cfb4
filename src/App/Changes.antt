-- ===== src/App/Changes.antt =====
-- Updating and deleting a camera keep to the table of ids.
use bk7252n_gate.Prelude.{
  ℕ, ◌≡◌, refl, sym, ◌∙◌, ap, inl, inr, List, ◌∷◌, Bool, true, false, Bool-cases, Option, some,
  Option-cases, Text, text, text_eq, arith,
}
use bk7252n_gate.Config.{CameraConfig, Ip4}
use bk7252n_gate.Input.{
  Object, FloatOps, str, Result-cases, ok, valid_camera_id, input_string, string_or, find_key,
  as_string_value, sprint,
}
use bk7252n_gate.Input.Trim.{trim_space_id}
use bk7252n_gate.Input.Camera.{normalize_camera, merge_camera}
use bk7252n_gate.Input.Normal.{normalize_camera-ok_iff}
use bk7252n_gate.App.{
  App, camera_index, remove_at, runtime_of, save_then, replace_camera, patch_camera, update_camera,
  delete_camera,
}
use bk7252n_gate.App.Removal.{All-remove_at, IsUnique-remove_at}
use bk7252n_gate.App.Listing.{
  find_camera-put_at, find_camera-remove_at, All-put_at, IsUnique-put_at,
}
use bk7252n_gate.App.Runtimes.{is_running-remove, remove_runtime-cameras}
use bk7252n_gate.App.Serve.{update, remove}
use bk7252n_gate.App.Shows.{
  HasValidId, Shows, Keeps, found_camera, missing_camera, upsert_runtime-Shows,
}
use bk7252n_gate.App.Directory.{Directory, promise_next, promise}

module _ (parse_ip4 : Text → Option Ip4) {F : Type 0} (fl : FloatOps F)
    (save : List CameraConfig → Bool) (saves : (cams : List CameraConfig) → save cams ≡ true) where
  -- An update keeps the id of a camera that has a valid one.
  pub normalize_camera-id :
      (id : Text) (body : Object F) (old next : CameraConfig)
      → valid_camera_id id ≡ true
      → normalize_camera fl ((text "id", str id) ∷ body) (some old) ≡ ok next
      → next.id ≡ id
  unfolding merge_camera input_string string_or find_key as_string_value sprint text_eq
  normalize_camera-id id body old next v accepted =
      let (a, b, e) =
        (normalize_camera-ok_iff fl ((text "id", str id) ∷ body) (some old) next).0 accepted in
      sym (ap (λ (c : CameraConfig). c.id) e) ∙ trim_space_id id v

  replace_camera-Keeps :
      (app : App) (d : Directory) (now idx : ℕ) (old next : CameraConfig)
      → Shows app d
      → camera_index next.id app.cameras ≡ some idx
      → HasValidId next
      → Keeps (replace_camera parse_ip4 fl save app now idx next) (promise_next fl d (ok next))
  unfolding replace_camera camera_index promise_next save_then
  replace_camera-Keeps app d now idx old next h found v =
      rw (saves _, save_then)
        (
          upsert_runtime-Shows parse_ip4 fl save saves app d now next _ h
              (λ k. find_camera-put_at 0 idx next app.cameras k found (omega arith))
              (IsUnique-put_at 0 idx next app.cameras found (omega arith) h.unique)
              (All-put_at HasValidId idx next app.cameras v h.valid),
          refl,
        )

  patch_camera-Keeps :
      (app : App) (d : Directory) (now idx : ℕ) (id : Text) (body : Object F) (old : CameraConfig)
      → Shows app d
      → camera_index id app.cameras ≡ some idx
      → valid_camera_id id ≡ true
      → d.listed id ≡ some old
      → d.running id ≡ true
      → Keeps
          (patch_camera parse_ip4 fl save app now id body idx old)
          (promise fl d (update id body))
  unfolding patch_camera promise promise_next
  patch_camera-Keeps app d now idx id body old h found v listed running =
      rw (listed, promise)
        (rw running (elim (Bool-cases (text_eq (input_string fl body (text "id") id) id)) [
          | inr changed ↦ rw changed (h, refl)
          | inl same ↦
              rw same
                (elim (Result-cases (normalize_camera fl ((text "id", str id) ∷ body) (some old))) [
                  | inl (e, refused) ↦ rw (refused, promise_next) (h, refl)
                  | inr (next, accepted) ↦
                      let e = normalize_camera-id id body old next v accepted in
                      rw (accepted, promise_next)
                        (replace_camera-Keeps app d now idx old next h (rw e found) (rw e v))
                ])
        ]))

  pub update_camera-Keeps :
      (app : App) (d : Directory) (now : ℕ) (id : Text) (body : Object F)
      → Shows app d
      → Keeps (update_camera parse_ip4 fl save app now id body) (promise fl d (update id body))
  unfolding update_camera promise
  update_camera-Keeps app d now id body h = elim (Option-cases (camera_index id app.cameras)) [
    | inl e ↦ rw (e, update_camera) (rw (missing_camera app d id h e, promise) (h, refl))
    | inr (idx, e) ↦
        let (cam, there, listed, v, same) = found_camera app d id idx h e in
        elim (Option-cases (runtime_of id app.runtimes)) [
          | inl idle ↦
              let off : d.running id ≡ false = sym (h.running id) ∙ rw idle refl in
              rw (e, there, idle, update_camera) (rw (listed, promise) (rw off (h, refl)))
          | inr (rt, live) ↦
              let on : d.running id ≡ true = sym (h.running id) ∙ rw live refl in
              rw (e, there, live, update_camera)
                (patch_camera-Keeps app d now idx id body cam h e (rw same at v) listed on)
        ]
  ]

  pub delete_camera-Keeps :
      (app : App) (d : Directory) (id : Text)
      → Shows app d
      → Keeps (delete_camera parse_ip4 fl save app id) (promise fl d (remove id))
  unfolding delete_camera promise save_then camera_index
  delete_camera-Keeps app d id h = elim (Option-cases (camera_index id app.cameras)) [
    | inl e ↦ rw (e, delete_camera) (rw (missing_camera app d id h e, promise) (h, refl))
    | inr (idx, e) ↦
        let (cam, there, listed, v, same) = found_camera app d id idx h e in
        elim (Option-cases (runtime_of id app.runtimes)) [
          | inl idle ↦
              let off : d.running id ≡ false = sym (h.running id) ∙ rw idle refl in
              rw (e, idle, delete_camera) (rw (listed, promise) (rw off (h, refl)))
          | inr (rt, live) ↦
              let on : d.running id ≡ true = sym (h.running id) ∙ rw live refl in
              let shrunk = record app { cameras = remove_at idx app.cameras } in
              let kept = remove_runtime-cameras shrunk id in
              rw (e, live, delete_camera)
                (rw (listed, promise)
                  (rw (saves _, save_then, on)
                    (
                      record {
                        listed = λ k. rw kept (
                            find_camera-remove_at 0 idx id app.cameras k h.unique e (omega arith)
                            ∙ rw (h.listed k) refl);
                        running = λ k. is_running-remove shrunk id k ∙ rw (h.running k) refl;
                        unique = rw kept (IsUnique-remove_at idx app.cameras h.unique);
                        valid = rw kept (All-remove_at HasValidId idx app.cameras h.valid);
                      },
                      refl,
                    )))
        ]
  ]
