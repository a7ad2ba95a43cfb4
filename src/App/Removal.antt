-- ===== src/App/Removal.antt =====
-- A request that deletes a camera.
use bk7252n_gate.Config.{CameraConfig, Ip4}
use bk7252n_gate.Input.{FloatOps}
use bk7252n_gate.Prelude.{
  ℕ, zero, suc, ◌+◌, ◌≤◌, ◌≡◌, ◌≢◌, refl, sym, ◌∙◌, inl, inr, List, [], ◌∷◌, Bool, false,
  Bool-cases, Option, none, some, Option-cases, All, Text, text_eq, text_eq→eq, text_eq_ne, arith,
}
use bk7252n_gate.App.{
  App, Runtimes, index_from, camera_index, remove_at, runtime_of, delete_runtime, save_then,
  remove_runtime, delete_camera,
}
use bk7252n_gate.App.Cameras.{IsUnique, status_of}

index_from_absent :
    (i : ℕ) (id : Text) (cams : List CameraConfig)
    → All (λ c. c.id ≢ id) cams
    → index_from i id cams ≡ none
unfolding index_from
index_from_absent i id [] h = refl
index_from_absent i id (c ∷ cams) h =
    rw (text_eq_ne c.id id h.0) (index_from_absent (i + 1) id cams h.1)

pub All-remove_at :
    (P : CameraConfig → Type 0) (k : ℕ) (cams : List CameraConfig)
    → All P cams
    → All P (remove_at k cams)
unfolding remove_at
All-remove_at P k [] h = h
All-remove_at P zero (c ∷ cams) h = h.1
All-remove_at P (suc k) (c ∷ cams) h = (h.0, All-remove_at P k cams h.1)

pub IsUnique-remove_at :
    (k : ℕ) (cams : List CameraConfig) → IsUnique cams → IsUnique (remove_at k cams)
unfolding remove_at
IsUnique-remove_at k [] h = h
IsUnique-remove_at zero (c ∷ cams) h = h.1
IsUnique-remove_at (suc k) (c ∷ cams) h =
    (All-remove_at (λ d. d.id ≢ c.id) k cams h.0, IsUnique-remove_at k cams h.1)

pub index_from-le :
    (i : ℕ) (id : Text) (cams : List CameraConfig) {k : ℕ} → index_from i id cams ≡ some k → i ≤ k
unfolding index_from
index_from-le i id [] h = cc
index_from-le i id (c ∷ cams) {k = k} h = elim (Bool-cases (text_eq c.id id)) [
  | inl same ↦ ground arith
  | inr other ↦ omega (arith, index_from-le (i + 1) id cams {k = k} (rw other at h))
]

-- Without the first camera of its id, no camera of a list of different ids has that id.
index_from-remove_at :
    (i j k : ℕ) (id : Text) (cams : List CameraConfig) {n : ℕ}
    → IsUnique cams
    → index_from i id cams ≡ some n
    → n ≡ i + k
    → index_from j id (remove_at k cams) ≡ none
unfolding index_from remove_at
index_from-remove_at i j k id [] u h e = refl
index_from-remove_at i j zero id (c ∷ cams) u h e = elim (Bool-cases (text_eq c.id id)) [
  | inl same ↦
      let e' : c.id ≡ id = text_eq→eq c.id id same in index_from_absent j id cams (rw e' at u.0)
  | inr other ↦ absurd (omega (arith, index_from-le (i + 1) id cams (rw other at h)))
]
index_from-remove_at i j (suc k) id (c ∷ cams) u h e = elim (Bool-cases (text_eq c.id id)) [
  | inl same ↦ absurd (ground arith)
  | inr other ↦
      rw other (index_from-remove_at (i + 1) (j + 1) k id cams u.1 (rw other at h) (omega arith))
]

pub runtime_of-delete_same :
    (id : Text) (rts : Runtimes) → runtime_of id (delete_runtime id rts) ≡ none
unfolding runtime_of delete_runtime
runtime_of-delete_same id [] = refl
runtime_of-delete_same id ((j, rt) ∷ rts) = elim (Bool-cases (text_eq j id)) [
  | inl same ↦ rw same (runtime_of-delete_same id rts)
  | inr other ↦ rw other (rw other (runtime_of-delete_same id rts))
]

pub runtime_of-delete_other :
    (k id : Text) (rts : Runtimes)
    → k ≢ id
    → runtime_of k (delete_runtime id rts) ≡ runtime_of k rts
unfolding runtime_of delete_runtime
runtime_of-delete_other k id [] ne = refl
runtime_of-delete_other k id ((j, rt) ∷ rts) ne = elim (Bool-cases (text_eq j id)) [
  | inl same ↦
      let e : j ≡ id = text_eq→eq j id same in
      let not_k : text_eq j k ≡ false = text_eq_ne j k (λ d. ne (sym d ∙ e)) in
      rw (same, not_k) (runtime_of-delete_other k id rts ne)
  | inr other ↦ rw other (elim (Bool-cases (text_eq j k)) [
    | inl hit ↦ rw hit refl
    | inr miss ↦ rw miss (runtime_of-delete_other k id rts ne)
  ])
]

-- What a successful deletion of `id` leaves.
pub record IsRemoved (app app' : App) (id : Text) : Type 0 where
  pub unlisted : camera_index id app'.cameras ≡ none
  pub stopped : runtime_of id app'.runtimes ≡ none
  pub others : (k : Text) → k ≢ id → runtime_of k app'.runtimes ≡ runtime_of k app.runtimes
  pub unique : IsUnique app'.cameras

removed :
    (app : App) (id : Text) (idx : ℕ)
    → IsUnique app.cameras
    → camera_index id app.cameras ≡ some idx
    → IsRemoved app (remove_runtime (record app { cameras = remove_at idx app.cameras }) id).0 id
unfolding camera_index remove_runtime
removed app id idx u found = elim (Option-cases (runtime_of id app.runtimes)) [
  | inl e ↦
      rw (e, remove_runtime)
        (record {
          unlisted = index_from-remove_at 0 0 idx id app.cameras u found (omega arith);
          stopped = e;
          others = λ k ne. refl;
          unique = IsUnique-remove_at idx app.cameras u;
        })
  | inr (rt, e) ↦
      rw (e, remove_runtime)
        (record {
          unlisted = index_from-remove_at 0 0 idx id app.cameras u found (omega arith);
          stopped = runtime_of-delete_same id app.runtimes;
          others = λ k ne. runtime_of-delete_other k id app.runtimes ne;
          unique = IsUnique-remove_at idx app.cameras u;
        })
]

module _ (parse_ip4 : Text → Option Ip4) {F : Type 0} (fl : FloatOps F)
    (save : List CameraConfig → Bool) where
  -- If no two cameras have the same id, a deletion that is answered without an error leaves no camera and no runtime
  -- with the id that it names, the runtimes of all other ids as they were, and again no two cameras with the same id.
  pub delete_camera-IsRemoved :
      (app : App) (id : Text)
      → IsUnique app.cameras
      → status_of (delete_camera parse_ip4 fl save app id) ≡ 0
      → IsRemoved app (delete_camera parse_ip4 fl save app id).0 id
  unfolding delete_camera status_of save_then
  delete_camera-IsRemoved app id u h = elim (Option-cases (camera_index id app.cameras)) [
    | inl e ↦ absurd (omega (arith, rw (e, delete_camera) at h))
    | inr (idx, found) ↦ elim (Option-cases (runtime_of id app.runtimes)) [
      | inl e ↦ absurd (omega (arith, rw (found, e, delete_camera) at h))
      | inr (rt, e) ↦ elim (Bool-cases (save (remove_at idx app.cameras))) [
        | inr broken ↦ absurd (omega (arith, rw (found, e, broken, delete_camera) at h))
        | inl saved ↦ rw (found, e, saved, delete_camera) (removed app id idx u found)
      ]
    ]
  ]
