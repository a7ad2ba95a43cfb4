-- ===== src/App/Runtimes.antt =====
-- Which ids have a runtime.
use bk7252n_gate.Prelude.{
  ℕ, ◌≡◌, refl, sym, ◌∙◌, inl, inr, Bool, true, false, ◌||◌, ◌&&◌, not, Bool-cases, Option, none,
  some, Option-cases, Text, text_eq, text_eq→eq,
}
use bk7252n_gate.Prelude.Int.{ℤ}
use bk7252n_gate.Config.{CameraConfig, Ip4}
use bk7252n_gate.Runtime.{CameraRuntime}
use bk7252n_gate.App.{
  App, Runtimes, runtime_of, delete_runtime, put_runtime, upsert_runtime, remove_runtime,
  profile_runtime,
}
use bk7252n_gate.App.Cameras.{text_eq-false}
use bk7252n_gate.App.Removal.{runtime_of-delete_same, runtime_of-delete_other}

abbrev is_some : Option CameraRuntime → Bool
is_some none = false
is_some (some rt) = true

abbrev pub is_running : Text → Runtimes → Bool
is_running id rts = is_some (runtime_of id rts)

is_running-delete :
    (id k : Text) (rts : Runtimes)
    → is_running k (delete_runtime id rts) ≡ not (text_eq id k) && is_running k rts
is_running-delete id k rts = elim (Bool-cases (text_eq id k)) [
  | inl same ↦
      let e : id ≡ k = text_eq→eq id k same in
      rw same (rw e (rw (runtime_of-delete_same k rts) refl))
  | inr other ↦
      rw other (rw (runtime_of-delete_other k id rts (λ e. text_eq-false id k other (sym e))) refl)
]

pub is_running-put :
    (id k : Text) (rt : CameraRuntime) (rts : Runtimes)
    → is_running k (put_runtime id rt rts) ≡ text_eq id k || is_running k rts
unfolding put_runtime runtime_of
is_running-put id k rt rts = elim (Bool-cases (text_eq id k)) [
  | inl same ↦ rw same refl
  | inr other ↦ rw other (is_running-delete id k rts ∙ rw other refl)
]

module _ (parse_ip4 : Text → Option Ip4) where
  pub is_running-upsert :
      (app : App) (now : ℕ) (cam : CameraConfig) (k : Text)
      → is_running k (upsert_runtime parse_ip4 app now cam).0.runtimes
        ≡ text_eq cam.id k || is_running k app.runtimes
  unfolding upsert_runtime
  is_running-upsert app now cam k = elim (Option-cases (runtime_of cam.id app.runtimes)) [
    | inl e ↦ rw (e, upsert_runtime) (is_running-put cam.id k _ app.runtimes)
    | inr (rt, e) ↦ rw (e, upsert_runtime) (is_running-put cam.id k _ app.runtimes)
  ]

pub is_running-remove :
    (app : App) (id k : Text)
    → is_running k (remove_runtime app id).0.runtimes
      ≡ not (text_eq id k) && is_running k app.runtimes
unfolding remove_runtime
is_running-remove app id k = elim (Option-cases (runtime_of id app.runtimes)) [
  | inl e ↦
      rw (e, remove_runtime)
        (elim (Bool-cases (text_eq id k)) [
          | inl same ↦ let d : id ≡ k = text_eq→eq id k same in rw same (rw (sym d) (rw e refl))
          | inr other ↦ rw other refl
        ])
  | inr (rt, e) ↦ rw (e, remove_runtime) (is_running-delete id k app.runtimes)
]

pub is_running-profile :
    (app : App) (id : Text) (width height : ℤ) (k : Text)
    → is_running k (profile_runtime app id width height).runtimes ≡ is_running k app.runtimes
unfolding profile_runtime
is_running-profile app id width height k = elim (Option-cases (runtime_of id app.runtimes)) [
  | inl e ↦ rw (e, profile_runtime) refl
  | inr (rt, e) ↦
      rw (e, profile_runtime)
        (is_running-put id k _ app.runtimes ∙ (elim (Bool-cases (text_eq id k)) [
          | inl same ↦ let d : id ≡ k = text_eq→eq id k same in rw same (rw (sym d) (rw e refl))
          | inr other ↦ rw other refl
        ]))
]

-- A change of size leaves the list of cameras to its caller.
pub profile_runtime-cameras :
    (app : App) (id : Text) (width height : ℤ)
    → (profile_runtime app id width height).cameras ≡ app.cameras
unfolding profile_runtime
profile_runtime-cameras app id width height = elim (Option-cases (runtime_of id app.runtimes)) [
  | inl e ↦ rw (e, profile_runtime) refl
  | inr (rt, e) ↦ rw (e, profile_runtime) refl
]

pub remove_runtime-cameras :
    (app : App) (id : Text) → (remove_runtime app id).0.cameras ≡ app.cameras
unfolding remove_runtime
remove_runtime-cameras app id = elim (Option-cases (runtime_of id app.runtimes)) [
  | inl e ↦ rw (e, remove_runtime) refl
  | inr (rt, e) ↦ rw (e, remove_runtime) refl
]
