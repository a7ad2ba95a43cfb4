-- ===== src/Input/Strings.antt =====
-- What the program uses of the packages strings and strconv, on ASCII texts.
use bk7252n_gate.Prelude.{
  ℕ, ◌+◌, ◌-◌, ◌*◌, ◌^◌, [], ◌∷◌, Bool, ◌&&◌, ◌||◌, Option, none, some, ltb, leb, ◌==◌,
  if◌then◌else◌, map, Text, is_empty,
}
use mathlib.Core.List.{reverse}
use bk7252n_gate.Prelude.Int.{ℤ, pos, sub_ℕ}

-- Tab, line feed, vertical tab, form feed, carriage return and space.
unfoldable pub is_space : ℕ → Bool
is_space c = (leb 9 c && leb c 13) || (c == 32)

unfoldable pub drop_spaces : Text → Text
unfolding is_space
drop_spaces [] = []
drop_spaces (c ∷ s) = let rest = drop_spaces s in if is_space c then rest else c ∷ s

-- strings.TrimSpace
unfoldable pub trim_space : Text → Text
unfolding drop_spaces
trim_space s = reverse (drop_spaces (reverse (drop_spaces s)))

unfoldable pub lower : ℕ → ℕ
lower c = if leb b'A' c && leb c b'Z' then c + 32 else c

-- strings.ToLower
unfoldable pub to_lower : Text → Text
unfolding lower
to_lower s = map lower s

-- The value of a text of digits behind the digits with value `acc`.
unfoldable pub digits_value : Text → ℕ → Option ℕ
digits_value [] acc = some acc
digits_value (c ∷ s) acc =
    let rest = digits_value s (acc * 10 + (c - b'0')) in
    if leb b'0' c && leb c b'9' then rest else none

unfoldable pub unsigned_value : Text → Option ℕ
unfolding digits_value
unsigned_value s = if is_empty s then none else digits_value s 0

unfoldable pub positive : Option ℕ → Option ℤ
positive none = none
positive (some n) = if ltb n (2 ^ 63) then some (pos n) else none

unfoldable pub negative : Option ℕ → Option ℤ
negative none = none
negative (some n) = if leb n (2 ^ 63) then some (sub_ℕ 0 n) else none

-- strconv.Atoi, for a 64-bit int; `none` is an error.
unfoldable pub atoi : Text → Option ℤ
unfolding positive negative unsigned_value
atoi [] = none
atoi (c ∷ s) =
    if c == b'-'
    then negative (unsigned_value s)
    else (if c == b'+' then positive (unsigned_value s) else positive (unsigned_value (c ∷ s)))
