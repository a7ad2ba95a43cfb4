-- ===== src/Input.antt =====
-- Request values in bkcam-go/main.go: the `as…Value`, `input…` and `optional…` helpers, `intFromMap`,
-- `firstNonEmpty`, `validCameraID`, `apiError`. Texts are ASCII; a JSON object is an association
-- list whose first entry for a key counts.
pub mod Strings
pub mod Trim
pub mod Camera
pub mod Normal
use bk7252n_gate.Prelude.{
  ℕ, ◌≢◌, ◌≡◌, refl, ◌⊎◌, inl, inr, List, [], ◌∷◌, ◌++◌, Bool, true, false, ◌&&◌, ◌||◌, not, Option,
  none, some, ltb, leb, ◌==◌, if◌then◌else◌, Text, text, text_eq, is_empty,
}
use bk7252n_gate.Prelude.Int.{ℤ, pos, negsuc, ltb_ℤ, eq_ℤ, ◌-ℤ◌}
use Strings.{trim_space, to_lower, atoi}

-- `any`, as encoding/json and the program itself make it. `F` is `float64`; `other` is an array or
-- an object, by the text that `fmt.Sprint` gives it.
pub data Value (F : Type 0) : Type 0 where
  null : Value F
  bool : Bool → Value F
  str : Text → Value F
  float : F → Value F
  int : ℤ → Value F
  other : Text → Value F

abbrev pub Object : Type 0 → Type 0
Object F = List (Text × Value F)

-- What the program asks of a `float64`: `int(x + 0.5)`, `x != 0`, `fmt.Sprint(x)`; and the text of an int.
pub record FloatOps (F : Type 0) : Type 0 where
  pub round_int : F → ℤ
  pub nonzero : F → Bool
  pub print : F → Text
  pub print_int : ℤ → Text

-- `apiError`: the HTTP status and the message.
pub record ApiError : Type 0 where
  pub status : ℕ
  pub msg : Text

pub data Result {ℓ} (A : Type ℓ) : Type ℓ where
  ok : A → Result A
  err : ApiError → Result A

pub Result-cases {ℓ} :
    {A : Type ℓ} (r : Result A) → ((e : ApiError) × (r ≡ err e)) ⊎ ((a : A) × (r ≡ ok a))
Result-cases (err e) = inl (e, refl)
Result-cases (ok a) = inr (a, refl)

pub err-ne-ok {ℓ} : {A : Type ℓ} {e : ApiError} {a : A} → err e ≢ ok a
err-ne-ok h = cc

-- The first check that fails ends the chain.
infixl 5 ◌>>◌
abbrev pub ◌>>◌ {ℓ} : {A : Type ℓ} → Result (Unit {0}) → Result A → Result A
ok done >> next = next
err failure >> next = err failure

abbrev pub bad_request : ℕ
bad_request = 400

-- `httpErr(status, msg)` unless the test holds.
abbrev pub require : Bool → ℕ → Text → Result (Unit {0})
require true status msg = ok tt
require false status msg = err (record { status = status; msg = msg })

unfoldable pub first_non_empty : List Text → Text
first_non_empty [] = []
first_non_empty (v ∷ vs) =
    let rest = first_non_empty vs in
    if not (is_empty v) && not (text_eq v (text "<nil>")) then v else rest

unfoldable pub valid_id_char : ℕ → Bool
valid_id_char r =
    (leb b'A' r && leb r b'Z')
    || ((leb b'a' r && leb r b'z') || ((leb b'0' r && leb r b'9') || ((r == b'_') || (r == b'-'))))

unfoldable pub all_id_chars : Text → Bool
all_id_chars [] = true
all_id_chars (r ∷ rs) = valid_id_char r && all_id_chars rs

unfoldable pub valid_camera_id : Text → Bool
unfolding all_id_chars valid_id_char
valid_camera_id id = not (is_empty id) && all_id_chars id

unfoldable pub is_true_word : Text → Bool
is_true_word s =
    text_eq s (text "1")
    || (text_eq s (text "true")
        || (text_eq s (text "yes") || (text_eq s (text "on") || text_eq s (text "enabled"))))

module _ {F : Type 0} where
  unfoldable pub find_key : Text → Object F → Option (Value F)
  find_key key [] = none
  find_key key ((k, v) ∷ rest) = if text_eq k key then some v else find_key key rest

  module _ (fl : FloatOps F) where
    -- `fmt.Sprint(v)`
    unfoldable pub sprint : Value F → Text
    sprint null = text "<nil>"
    sprint (bool true) = text "true"
    sprint (bool false) = text "false"
    sprint (str s) = s
    sprint (float x) = fl.print x
    sprint (int n) = fl.print_int n
    sprint (other s) = s

    unfoldable pub as_string_value : Value F → Text → Text
    as_string_value null fallback = fallback
    as_string_value v fallback = trim_space (sprint v)

    unfoldable pub string_or : Option (Value F) → Text → Text
    string_or none fallback = fallback
    string_or (some v) fallback = as_string_value v []

    unfoldable pub input_string : Object F → Text → Text → Text
    input_string input key fallback = string_or (find_key key input) fallback

    unfoldable pub password_or : Option (Value F) → Text → Text
    password_or none fallback = fallback
    password_or (some v) fallback = if is_empty (sprint v) then fallback else sprint v

    unfoldable pub input_password : Object F → Text → Text → Text
    input_password input key fallback = password_or (find_key key input) fallback

    unfoldable pub as_bool_value : Value F → Bool → Bool
    as_bool_value null fallback = fallback
    as_bool_value (bool x) fallback = x
    as_bool_value (str x) fallback =
        let s = to_lower (trim_space x) in if is_empty s then fallback else is_true_word s
    as_bool_value (float x) fallback = fl.nonzero x
    as_bool_value (int x) fallback = not (eq_ℤ x (pos 0))
    as_bool_value (other _) fallback = fallback

    unfoldable pub bool_or : Option (Value F) → Bool → Bool
    bool_or none fallback = fallback
    bool_or (some v) fallback = as_bool_value v fallback

    unfoldable pub input_bool : Object F → Text → Bool → Bool
    input_bool input key fallback = bool_or (find_key key input) fallback

    unfoldable pub int_or : Option ℤ → ℤ → ℤ
    int_or none fallback = fallback
    int_or (some n) fallback = n

    unfoldable pub as_int_value : Value F → ℤ → ℤ
    as_int_value null fallback = fallback
    as_int_value (float x) fallback = fl.round_int x
    as_int_value (int x) fallback = x
    as_int_value (str x) fallback =
        if is_empty (trim_space x) then fallback else int_or (atoi (trim_space x)) fallback
    as_int_value (bool _) fallback = fallback
    as_int_value (other _) fallback = fallback

    unfoldable pub value_int_or : Option (Value F) → ℤ → ℤ
    value_int_or none fallback = fallback
    value_int_or (some v) fallback = as_int_value v fallback

    unfoldable pub input_int : Object F → Text → ℤ → ℤ
    input_int input key fallback = value_int_or (find_key key input) fallback

    -- `m == nil` is `none`.
    unfoldable pub int_from_map : Option (Object F) → Text → ℤ → ℤ
    int_from_map none key fallback = fallback
    int_from_map (some m) key fallback = value_int_or (find_key key m) fallback

    -- A missing key, a null and a blank text count as absent.
    unfoldable pub present : Option (Value F) → Option (Value F)
    present none = none
    present (some null) = none
    present (some (str s)) = if is_empty (trim_space s) then none else some (str s)
    present (some v) = some v

    -- `ok none` is the result `(0, false, nil)`.
    unfoldable pub optional_int : Object F → Text → ℤ → ℤ → Result (Option ℤ)
    optional_int input key min max = elim (present (find_key key input)) [
      | none ↦ ok none
      | some v ↦
          let value = as_int_value v (min -ℤ pos 1) in
          if ltb_ℤ value min || ltb_ℤ max value
          then err (record {
            status = bad_request;
            msg =
                key
                ++ (text " must be between "
                    ++ (fl.print_int min ++ (text " and " ++ fl.print_int max)));
          })
          else ok (some value)
    ]

    unfoldable pub optional_enum_int : Object F → Text → (ℤ → Bool) → Result (Option ℤ)
    optional_enum_int input key allowed = elim (present (find_key key input)) [
      | none ↦ ok none
      | some v ↦
          let value = as_int_value v (negsuc 999998) in
          if allowed value
          then ok (some value)
          else err (record {
            status = bad_request;
            msg = key ++ (text " has unsupported value " ++ fl.print_int value);
          })
    ]
