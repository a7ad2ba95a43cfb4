-- ===== src/Device/Analysis.antt =====
-- `analyzeLatestFrame` of bkcam-go/main.go, up to the choice of the preset: which points of a frame are measured. `luma`
-- is the brightness of a point by jpeg.Decode and RGBA, `LightOps` what the code does with a `float64`.
use bk7252n_gate.Prelude.{
  ℕ, zero, suc, ◌+◌, ◌*◌, ◌/◌, ◌≤◌, ◌≡◌, refl, List, [], ◌∷◌, ◌++◌, Bool, Option, none, some,
  length, length-append, ltb, ◌==◌, ◌||◌, if◌then◌else◌, is_empty, arith, inl, inr, Bool-cases,
}
use native.Mathlib.Nat.{suc-mul, le_trans, mul-le-mul}
use bk7252n_gate.Runtime.{CameraRuntime}
use bk7252n_gate.Device.{Light}

-- An image: its size and the brightness of its points
pub record Picture (F : Type 0) : Type 0 where
  pub width : ℕ
  pub height : ℕ
  pub luma : ℕ → ℕ → F

-- From the samples: the mean to one place, the standard deviation to one place, and the comparisons
-- of `imagePresetControls`
pub record LightOps (F : Type 0) : Type 0 where
  pub mean : List F → F
  pub std_dev : List F → F
  pub below_70 : F → Bool
  pub above_175 : F → Bool
  pub below_28 : F → Bool

unfoldable pub max_int : ℕ → ℕ → ℕ
max_int a b = if ltb b a then a else b

-- The values of a loop `for x := at; x < end; x += step`, on fuel
unfoldable pub steps : ℕ → ℕ → ℕ → ℕ → List ℕ
steps zero at end step = []
steps (suc fuel) at end step =
    let rest = steps fuel (at + step) end step in if ltb at end then at ∷ rest else []

-- The inner loop, over one row
unfoldable pub row_samples : {F : Type 0} → Picture F → ℕ → List ℕ → List F
row_samples picture y [] = []
row_samples picture y (x ∷ xs) = picture.luma x y ∷ row_samples picture y xs

unfoldable pub all_samples : {F : Type 0} → Picture F → List ℕ → List ℕ → List F
all_samples picture xs [] = []
all_samples picture xs (y ∷ ys) = row_samples picture y xs ++ all_samples picture xs ys

-- Every point that is measured; the rounds of a loop are not more than the points of a side.
unfoldable pub samples : {F : Type 0} → Picture F → List F
samples picture =
    let step_x = max_int 1 (picture.width / 160) in
    let step_y = max_int 1 (picture.height / 120) in
    all_samples picture (steps picture.width 0 picture.width step_x)
      (steps picture.height 0 picture.height step_y)

unfoldable pub light_of : {F : Type 0} → LightOps F → List F → Light
light_of ops measured = record {
  is_dim = ops.below_70 (ops.mean measured);
  is_bright = ops.above_175 (ops.mean measured);
  is_flat = ops.below_28 (ops.std_dev measured);
}

unfoldable pub analyze_picture : {F : Type 0} → LightOps F → Option (Picture F) → Option Light
analyze_picture ops none = none
analyze_picture ops (some picture) =
    if (picture.width == 0) || (picture.height == 0)
    then none
    else if is_empty (samples picture)
    then none
    else some (light_of ops (samples picture))

-- `analyzeLatestFrame`; `none` is an error.
unfoldable pub analyze_latest_frame :
    {F : Type 0} → LightOps F → (List ℕ → Option (Picture F)) → CameraRuntime → Option Light
analyze_latest_frame ops decode rt =
    if is_empty rt.latest_frame then none else analyze_picture ops (decode rt.latest_frame)

-- A loop that starts at `at` makes no more rounds than fit before its end.
length-steps :
    (fuel at end step k : ℕ) → 1 ≤ step → end ≤ at + k * step → length (steps fuel at end step) ≤ k
unfolding steps
length-steps zero at end step k p q = omega arith
length-steps (suc fuel) at end step zero p q = ground arith
length-steps (suc fuel) at end step (suc k) p q = elim (Bool-cases (ltb at end)) [
  | inl e ↦
      rw e
        (omega (arith, length-steps fuel (at + step) end step k p (omega (arith, suc-mul k step))))
  | inr e ↦ rw e (omega arith)
]

length-row :
    {F : Type 0} (picture : Picture F) (y : ℕ) (xs : List ℕ)
    → length (row_samples picture y xs) ≡ length xs
unfolding row_samples
length-row picture y [] = refl
length-row picture y (x ∷ xs) = omega (arith, length-row picture y xs)

length-all :
    {F : Type 0} (picture : Picture F) (xs ys : List ℕ)
    → length (all_samples picture xs ys) ≡ length ys * length xs
unfolding all_samples
length-all picture xs [] = omega arith
length-all picture xs (y ∷ ys) = omega (
  arith,
  length-append (row_samples picture y xs) (all_samples picture xs ys),
  length-row picture y xs,
  length-all picture xs ys,
  suc-mul (length ys) (length xs),
)

across : (width : ℕ) → width ≤ 0 + 320 * max_int 1 (width / 160)
unfolding max_int
across width = ground arith

down : (height : ℕ) → height ≤ 0 + 240 * max_int 1 (height / 120)
unfolding max_int
down height = ground arith

max_int-positive : (b : ℕ) → 1 ≤ max_int 1 b
unfolding max_int
max_int-positive b = ground arith

-- Of a frame of any size at most 320 times 240 points are measured.
pub samples-le : {F : Type 0} (picture : Picture F) → length (samples picture) ≤ 240 * 320
unfolding samples
samples-le picture =
    let xs = steps picture.width 0 picture.width (max_int 1 (picture.width / 160)) in
    let ys = steps picture.height 0 picture.height (max_int 1 (picture.height / 120)) in
    le_trans (omega (arith, length-all picture xs ys)) (
      mul-le-mul
        (length-steps picture.height 0 picture.height (max_int 1 (picture.height / 120)) 240
          (max_int-positive (picture.height / 120)) (down picture.height))
        (length-steps picture.width 0 picture.width (max_int 1 (picture.width / 160)) 320
          (max_int-positive (picture.width / 160)) (across picture.width)))
