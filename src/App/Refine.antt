-- ===== src/App/Refine.antt =====
-- The requests do to the list of cameras what the table of ids promises.
use bk7252n_gate.Prelude.{
  ℕ, ◌≡◌, refl, sym, ◌∙◌, ap, ap₂, inl, inr, List, [], ◌∷◌, Bool, true, Bool-cases, ◌&&◌, Option,
  some, Option-cases, if◌then◌else◌, All, Text, text_eq, text_eq→eq, arith,
}
use bk7252n_gate.Prelude.Int.{ℤ, eq_ℤ}
use bk7252n_gate.Config.{CameraConfig, Ip4}
use bk7252n_gate.Input.{FloatOps, ok}
use bk7252n_gate.App.{
  App, camera_index, save_then, profile_runtime, resize_camera, set_camera_profile_size,
}
use bk7252n_gate.App.Cameras.{IsUnique}
use bk7252n_gate.App.Listing.{find_camera, find_camera-put_at, All-put_at, IsUnique-put_at}
use bk7252n_gate.App.Runtimes.{is_running-profile, profile_runtime-cameras}
use bk7252n_gate.App.Serve.{Call, create, update, remove, resize, serve, serve_all}
use bk7252n_gate.App.Shows.{
  HasValidId, Shows, Keeps, found_camera, missing_camera, eq_ℤ→eq, create_camera-Keeps,
}
use bk7252n_gate.App.Changes.{update_camera-Keeps, delete_camera-Keeps}
use bk7252n_gate.App.Directory.{Directory, list_camera, promise, promise_all}

module _ (parse_ip4 : Text → Option Ip4) {F : Type 0} (fl : FloatOps F)
    (save : List CameraConfig → Bool) (saves : (cams : List CameraConfig) → save cams ≡ true) where
  -- The camera of the size that a request chose.
  profile_runtime-Shows :
      (app : App) (d : Directory) (id : Text) (width height : ℤ) (cam : CameraConfig)
      (cams : List CameraConfig)
      → Shows app d
      → ((k : Text)
          → find_camera k cams ≡ (if text_eq cam.id k then some cam else find_camera k app.cameras))
      → IsUnique cams
      → All HasValidId cams
      → Shows (profile_runtime (record app { cameras = cams }) id width height) (list_camera d cam)
  profile_runtime-Shows app d id width height cam cams h l u v =
      let moved = record app { cameras = cams } in
      let e = profile_runtime-cameras moved id width height in
      record {
        listed = λ k. rw e (l k ∙ rw (h.listed k) refl);
        running = λ k. is_running-profile moved id width height k ∙ h.running k;
        unique = rw e u;
        valid = rw e v;
      }

  resize_camera-Keeps :
      (app : App) (d : Directory) (idx : ℕ) (id : Text) (width height : ℤ) (cam : CameraConfig)
      → Shows app d
      → camera_index id app.cameras ≡ some idx
      → find_camera id app.cameras ≡ some cam
      → HasValidId cam
      → cam.id ≡ id
      → Keeps
          (resize_camera save app id width height idx cam)
          (list_camera d (record cam { width = width; height = height }), ok tt)
  unfolding resize_camera camera_index save_then
  resize_camera-Keeps app d idx id width height cam h e there v same =
      elim (Bool-cases (eq_ℤ cam.width width && eq_ℤ cam.height height)) [
        | inl equal ↦
            let w : cam.width ≡ width = eq_ℤ→eq cam.width width (ground arith) in
            let t : cam.height ≡ height = eq_ℤ→eq cam.height height (ground arith) in
            let unchanged : cam ≡ sized = ap₂ (λ x y. record cam { width = x; height = y }) w t in
            rw equal (
              profile_runtime-Shows app d id width height sized app.cameras h
                  (λ k. elim (Bool-cases (text_eq cam.id k)) [
                    | inl hit ↦
                        let k_id : id ≡ k = sym same ∙ text_eq→eq cam.id k hit in
                        rw hit (rw (sym k_id) (there ∙ ap some unchanged))
                    | inr miss ↦ rw miss refl
                  ])
                  h.unique h.valid,
              refl,
            )
        | inr differs ↦ rw differs (
            rw (saves _, save_then)
              (
                profile_runtime-Shows app d id width height sized _ h
                    (λ k. find_camera-put_at 0 idx sized app.cameras k placed (omega arith))
                    (IsUnique-put_at 0 idx sized app.cameras placed (omega arith) h.unique)
                    (All-put_at HasValidId idx sized app.cameras v h.valid),
                refl,
              ))
      ]
    where
      sized : CameraConfig
      sized = record cam { width = width; height = height }

      placed : camera_index cam.id app.cameras ≡ some idx
      placed = rw same e

  set_camera_profile_size-Keeps :
      (app : App) (d : Directory) (id : Text) (width height : ℤ)
      → Shows app d
      → Keeps
          (set_camera_profile_size save app id width height)
          (promise fl d (resize id width height))
  unfolding set_camera_profile_size promise
  set_camera_profile_size-Keeps app d id width height h =
      elim (Option-cases (camera_index id app.cameras)) [
        | inl e ↦
            rw (e, set_camera_profile_size) (rw (missing_camera app d id h e, promise) (h, refl))
        | inr (idx, e) ↦
            let (cam, there, listed, v, same) = found_camera app d id idx h e in
            rw (e, there, set_camera_profile_size)
              (rw (listed, promise)
                (resize_camera-Keeps app d idx id width height cam h e (h.listed id ∙ listed) v
                  same))
      ]

  serve-Keeps :
      (app : App) (d : Directory) (now : ℕ) (call : Call F)
      → Shows app d
      → Keeps (serve parse_ip4 fl save app now call) (promise fl d call)
  unfolding serve
  serve-Keeps app d now (create body) h =
      create_camera-Keeps parse_ip4 fl save saves app d now body h
  serve-Keeps app d now (update id body) h =
      update_camera-Keeps parse_ip4 fl save saves app d now id body h
  serve-Keeps app d now (remove id) h = delete_camera-Keeps parse_ip4 fl save saves app d id h
  serve-Keeps app d now (resize id width height) h =
      set_camera_profile_size-Keeps app d id width height h

  -- As long as the configuration can be saved, any row of requests that create, update, delete and
  -- resize cameras is answered exactly as a table from ids to cameras promises, error statuses and texts
  -- included, and leaves a state that shows the table that was promised: from a state that shows
  -- a table, has no two cameras with the same id and only valid ids.
  pub serve_all-promise_all :
      (app : App) (d : Directory) (calls : List (ℕ × Call F))
      → Shows app d
      → let r = serve_all parse_ip4 fl save app calls in
        let p = promise_all fl d calls in Shows r.0 p.0 × (r.1 ≡ p.1)
  unfolding serve_all promise_all
  serve_all-promise_all app d [] h = (h, refl)
  serve_all-promise_all app d ((now, call) ∷ calls) h =
      let (kept, answer) = serve-Keeps app d now call h in
      let (shown, answers) =
        serve_all-promise_all (serve parse_ip4 fl save app now call).0 (promise fl d call).0 calls
          kept in
      (shown, ap₂ (λ a as'. a ∷ as') answer answers)
