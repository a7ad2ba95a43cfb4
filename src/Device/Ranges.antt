-- ===== src/Device/Ranges.antt =====
-- The gateway's range for each setting, and that a request's fields are within it.
use bk7252n_gate.Prelude.{
  ℕ, ◌≡◌, List, [], ◌∷◌, Bool, Bool-cases, inl, inr, true, false, ◌&&◌, Option, none, some,
  Option-cases, leb, if◌then◌else◌, Text, text, text_eq, All, arith,
}
use bk7252n_gate.Prelude.Int.{ℤ, pos, ◌≤ℤ◌}
use mathlib.Core.Path.{subst}
use bk7252n_gate.Input.{
  Object, FloatOps, Result-cases, err-ne-ok, ok, optional_int, optional_enum_int, find_key, present,
}
use bk7252n_gate.Runtime.{Arg, num, txt}
use bk7252n_gate.Device.Fields.{
  Args, put_arg, bitrate_kbps_to_rate_bit, Accepts, between, up_to, Field, control_fields,
  alarm_fields, system_fields, store, read_field, read_fields,
}

-- The lowest and the highest value that the gateway sends of each setting. A camera ignores a zero for
-- `environment`, as docs/research/a9_stock_firmware_dump.md says.
abbrev pub limits : List (Text × ℕ × ℕ)
limits =
    (text "video", 0, 2)
    ∷ (text "audio", 0, 1)
    ∷ (text "rate_bit", 1, 64)
    ∷ (text "bright", 0, 6)
    ∷ (text "contrast", 0, 6)
    ∷ (text "icut", 0, 1)
    ∷ (text "lamp", 0, 1)
    ∷ (text "anti_flicker", 0, 1)
    ∷ (text "rotmir", 0, 3)
    ∷ (text "resetrb", 1, 1)
    ∷ (text "motionDetect", 0, 1)
    ∷ (text "motionDelay", 1, 600)
    ∷ (text "audioDetect", 0, 1)
    ∷ (text "audioDelay", 1, 600)
    ∷ (text "sleep_time", 1, 86400)
    ∷ (text "offline_time", 1, 3600)
    ∷ (text "limit_push", 1, 100000)
    ∷ (text "environment", 0, 3)
    ∷ (text "isPushPic", 0, 0)
    ∷ (text "isPushVideo", 0, 0)
    ∷ []

unfoldable pub in_limits : List (Text × ℕ × ℕ) → Text → ℕ → Bool
in_limits [] name v = false
in_limits ((key, lo, hi) ∷ rest) name v =
    if text_eq key name then leb lo v && leb v hi else in_limits rest name v

abbrev pub IsAllowed : Text × Arg → Type 0
IsAllowed (name, num v) = in_limits limits name v ≡ true
IsAllowed (name, txt t) = ⊥

pub put_arg-All :
    (key : Text) (value : Arg) (args : Args)
    → IsAllowed (key, value)
    → All IsAllowed args
    → All IsAllowed (put_arg key value args)
unfolding put_arg
put_arg-All key value [] h a = (h, tt)
put_arg-All key value ((k, v) ∷ args) h a = elim (Bool-cases (text_eq k key)) [
  | inl same ↦ rw same (h, a.1)
  | inr other ↦ rw other (a.0, put_arg-All key value args h a.1)
]

abbrev pub InAccepts : Accepts → ℤ → Type 0
InAccepts (between lo hi) v = (lo ≤ℤ v) × (v ≤ℤ hi)
InAccepts (up_to n) v = (pos 0 ≤ℤ v) × (v ≤ℤ pos n)

-- Whatever a field accepts becomes an allowed setting.
abbrev IsSoundField : Field → Type 0
IsSoundField f = (v : ℤ) → InAccepts f.accepts v → IsAllowed (f.name, num (f.convert v))

module _ {F : Type 0} (fl : FloatOps F) (input : Object F) where
  read_field-InAccepts :
      (key : Text) (accepts : Accepts) (v : ℤ)
      → read_field fl input key accepts ≡ ok (some v)
      → InAccepts accepts v
  unfolding read_field optional_int optional_enum_int
  read_field-InAccepts key (between lo hi) v h =
      elim (Option-cases (present fl (find_key key input))) [
        | inl e ↦ ground arith
        | inr (x, e) ↦ ground arith
      ]
  read_field-InAccepts key (up_to n) v h = elim (Option-cases (present fl (find_key key input))) [
    | inl e ↦ ground arith
    | inr (x, e) ↦ ground arith
  ]

  store-All :
      (f : Field) (value : Option ℤ) (args : Args)
      → IsSoundField f
      → read_field fl input f.key f.accepts ≡ ok value
      → All IsAllowed args
      → All IsAllowed (store f value args)
  unfolding store
  store-All f none args s h a = a
  store-All f (some v) args s h a =
      put_arg-All f.name (num (f.convert v)) args (s v (read_field-InAccepts f.key f.accepts v h)) a

  pub read_fields-All :
      (fs : List Field) (args out : Args)
      → All IsSoundField fs
      → All IsAllowed args
      → read_fields fl input fs args ≡ ok out
      → All IsAllowed out
  unfolding read_fields
  read_fields-All [] args out s a h = let e : args ≡ out = cc in subst (All IsAllowed) e a
  read_fields-All (f ∷ fs) args out s a h =
      elim (Result-cases (read_field fl input f.key f.accepts)) [
        | inl (e, refused) ↦ absurd (err-ne-ok (rw (refused, read_fields) at h))
        | inr (value, returned) ↦
            read_fields-All fs (store f value args) out s.1 (store-All f value args s.0 returned a)
              (rw (returned, read_fields) at h)
      ]

pub control_fields-All : All IsSoundField control_fields
unfolding in_limits text_eq bitrate_kbps_to_rate_bit
control_fields-All = (
  λ v h. ground arith,
  (
    λ v h. ground arith,
    (
      λ v h. ground arith,
      (
        λ v h. ground arith,
        (
          λ v h. ground arith,
          (λ v h. ground arith, (λ v h. ground arith, (λ v h. ground arith, tt))),
        ),
      ),
    ),
  ),
)

pub alarm_fields-All : All IsSoundField alarm_fields
unfolding in_limits text_eq
alarm_fields-All =
    (λ v h. ground arith, (λ v h. ground arith, (λ v h. ground arith, (λ v h. ground arith, tt))))

pub system_fields-All : All IsSoundField system_fields
unfolding in_limits text_eq
system_fields-All =
    (λ v h. ground arith, (λ v h. ground arith, (λ v h. ground arith, (λ v h. ground arith, tt))))
