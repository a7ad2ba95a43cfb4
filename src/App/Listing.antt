-- ===== src/App/Listing.antt =====
-- The list of cameras as a table from ids to cameras.
use bk7252n_gate.Prelude.{
  ℕ, zero, suc, ◌+◌, ◌≡◌, ◌≢◌, refl, sym, ◌∙◌, ap, inl, inr, List, [], ◌∷◌, ◌++◌, false,
  if◌then◌else◌, Bool-cases, Option, none, some, All, Text, text_eq, text_eq→eq, arith,
}
use mathlib.Core.Path.{subst}
use bk7252n_gate.Config.{CameraConfig}
use bk7252n_gate.App.{index_from, camera_at, put_at, remove_at}
use bk7252n_gate.App.Cameras.{IsUnique, text_eq-false}
use bk7252n_gate.App.Removal.{index_from-le}
use bk7252n_gate.Prelude.{text_eq_ne}

-- The first camera with an id.
unfoldable pub find_camera : Text → List CameraConfig → Option CameraConfig
find_camera id [] = none
find_camera id (cam ∷ cams) =
    let rest = find_camera id cams in if text_eq cam.id id then some cam else rest

pub find_camera-none :
    (i : ℕ) (id : Text) (cams : List CameraConfig)
    → index_from i id cams ≡ none
    → find_camera id cams ≡ none
unfolding index_from find_camera
find_camera-none i id [] h = refl
find_camera-none i id (c ∷ cams) h = elim (Bool-cases (text_eq c.id id)) [
  | inl same ↦ absurd (ground arith)
  | inr other ↦ rw other (find_camera-none (i + 1) id cams (rw other at h))
]

find_camera_absent :
    (id : Text) (cams : List CameraConfig) → All (λ c. c.id ≢ id) cams → find_camera id cams ≡ none
unfolding find_camera
find_camera_absent id [] h = refl
find_camera_absent id (c ∷ cams) h = rw (text_eq_ne c.id id h.0) (find_camera_absent id cams h.1)

-- The camera at the position that the search gives is the one that is found.
pub find_camera-camera_at :
    (i j : ℕ) (id : Text) (cams : List CameraConfig) {n : ℕ}
    → index_from i id cams ≡ some n
    → n ≡ i + j
    → (cam : CameraConfig) × (camera_at j cams ≡ some cam) × (find_camera id cams ≡ some cam)
unfolding index_from find_camera camera_at
find_camera-camera_at i j id [] h e = absurd (ground arith)
find_camera-camera_at i zero id (c ∷ cams) h e = elim (Bool-cases (text_eq c.id id)) [
  | inl same ↦ (c, refl, rw same refl)
  | inr other ↦ absurd (omega (arith, index_from-le (i + 1) id cams (rw other at h)))
]
find_camera-camera_at i (suc j) id (c ∷ cams) h e = elim (Bool-cases (text_eq c.id id)) [
  | inl same ↦ absurd (ground arith)
  | inr other ↦ rw other (find_camera-camera_at (i + 1) j id cams (rw other at h) (omega arith))
]

pub find_camera-append :
    (cams : List CameraConfig) (cam : CameraConfig) (k : Text)
    → All (λ c. c.id ≢ cam.id) cams
    → find_camera k (cams ++ (cam ∷ []))
      ≡ (if text_eq cam.id k then some cam else find_camera k cams)
unfolding find_camera
find_camera-append [] cam k h = refl
find_camera-append (c ∷ cams) cam k h = elim (Bool-cases (text_eq c.id k)) [
  | inl same ↦
      let here : text_eq cam.id k ≡ false =
        text_eq_ne cam.id k (λ e. h.0 (text_eq→eq c.id k same ∙ sym e)) in
      rw (same, here) refl
  | inr other ↦ rw other (find_camera-append cams cam k h.1)
]

-- A camera put in the place of the first one with its id.
pub find_camera-put_at :
    (i j : ℕ) (cam : CameraConfig) (cams : List CameraConfig) (k : Text) {n : ℕ}
    → index_from i cam.id cams ≡ some n
    → n ≡ i + j
    → find_camera k (put_at j cam cams)
      ≡ (if text_eq cam.id k then some cam else find_camera k cams)
unfolding index_from find_camera put_at
find_camera-put_at i j cam [] k h e = absurd (ground arith)
find_camera-put_at i zero cam (c ∷ cams) k h e = elim (Bool-cases (text_eq c.id cam.id)) [
  | inl same ↦ let e' : c.id ≡ cam.id = text_eq→eq c.id cam.id same in rw e' (ground arith)
  | inr other ↦ absurd (omega (arith, index_from-le (i + 1) cam.id cams (rw other at h)))
]
find_camera-put_at i (suc j) cam (c ∷ cams) k h e = elim (Bool-cases (text_eq c.id cam.id)) [
  | inl same ↦ absurd (ground arith)
  | inr other ↦ elim (Bool-cases (text_eq c.id k)) [
    | inl hit ↦
        let away : text_eq cam.id k ≡ false =
          text_eq_ne cam.id k
            (λ d. text_eq-false c.id cam.id other (text_eq→eq c.id k hit ∙ sym d)) in
        rw (hit, away) refl
    | inr miss ↦ rw miss (find_camera-put_at (i + 1) j cam cams k (rw other at h) (omega arith))
  ]
]

-- A camera taken out of a list without two equal ids.
pub find_camera-remove_at :
    (i j : ℕ) (id : Text) (cams : List CameraConfig) (k : Text) {n : ℕ}
    → IsUnique cams
    → index_from i id cams ≡ some n
    → n ≡ i + j
    → find_camera k (remove_at j cams) ≡ (if text_eq id k then none else find_camera k cams)
unfolding index_from find_camera remove_at
find_camera-remove_at i j id [] k u h e = absurd (ground arith)
find_camera-remove_at i zero id (c ∷ cams) k u h e = elim (Bool-cases (text_eq c.id id)) [
  | inl same ↦
      let e' : c.id ≡ id = text_eq→eq c.id id same in
      rw e' (elim (Bool-cases (text_eq id k)) [
        | inl hit ↦
            let e'' : c.id ≡ k = e' ∙ text_eq→eq id k hit in
            rw hit (find_camera_absent k cams (rw e'' at u.0))
        | inr miss ↦ rw miss refl
      ])
  | inr other ↦ absurd (omega (arith, index_from-le (i + 1) id cams (rw other at h)))
]
find_camera-remove_at i (suc j) id (c ∷ cams) k u h e = elim (Bool-cases (text_eq c.id id)) [
  | inl same ↦ absurd (ground arith)
  | inr other ↦ elim (Bool-cases (text_eq c.id k)) [
    | inl hit ↦
        let away : text_eq id k ≡ false =
          text_eq_ne id k (λ d. text_eq-false c.id id other (text_eq→eq c.id k hit ∙ sym d)) in
        rw (hit, away) refl
    | inr miss ↦
        rw miss (find_camera-remove_at (i + 1) j id cams k u.1 (rw other at h) (omega arith))
  ]
]

pub All-put_at :
    (P : CameraConfig → Type 0) (j : ℕ) (cam : CameraConfig) (cams : List CameraConfig)
    → P cam
    → All P cams
    → All P (put_at j cam cams)
unfolding put_at
All-put_at P j cam [] p h = tt
All-put_at P zero cam (c ∷ cams) p h = (p, h.1)
All-put_at P (suc j) cam (c ∷ cams) p h = (h.0, All-put_at P j cam cams p h.1)

pub IsUnique-put_at :
    (i j : ℕ) (cam : CameraConfig) (cams : List CameraConfig) {n : ℕ}
    → index_from i cam.id cams ≡ some n
    → n ≡ i + j
    → IsUnique cams
    → IsUnique (put_at j cam cams)
unfolding index_from put_at
IsUnique-put_at i j cam [] h e u = tt
IsUnique-put_at i zero cam (c ∷ cams) h e u = elim (Bool-cases (text_eq c.id cam.id)) [
  | inl same ↦ let e' : c.id ≡ cam.id = text_eq→eq c.id cam.id same in (rw e' at u.0, u.1)
  | inr other ↦ absurd (omega (arith, index_from-le (i + 1) cam.id cams (rw other at h)))
]
IsUnique-put_at i (suc j) cam (c ∷ cams) h e u = elim (Bool-cases (text_eq c.id cam.id)) [
  | inl same ↦ absurd (ground arith)
  | inr other ↦ (
    All-put_at (λ d. d.id ≢ c.id) j cam cams (λ d. text_eq-false c.id cam.id other (sym d)) u.0,
    IsUnique-put_at (i + 1) j cam cams (rw other at h) (omega arith) u.1,
  )
]

pub find_camera-All :
    (P : CameraConfig → Type 0) (id : Text) (cams : List CameraConfig) {cam : CameraConfig}
    → All P cams
    → find_camera id cams ≡ some cam
    → P cam × (cam.id ≡ id)
unfolding find_camera
find_camera-All P id [] a h = cc
find_camera-All P id (c ∷ cams) {cam = cam} a h = elim (Bool-cases (text_eq c.id id)) [
  | inl same ↦
      let e : c ≡ cam = cc (rw same at h) in
      (subst P e a.0, sym (ap (λ (x : CameraConfig). x.id) e) ∙ text_eq→eq c.id id same)
  | inr other ↦ find_camera-All P id cams a.1 (rw other at h)
]
