-- ===== src/Input/Trim.antt =====
-- `strings.TrimSpace` leaves a camera id as it is.
use bk7252n_gate.Prelude.{◌≡◌, refl, ◌∙◌, [], ◌∷◌, ◌++◌, true, ◌&&◌, Text, arith}
use mathlib.Core.List.{reverse, reverse-cons, reverse-reverse}
use bk7252n_gate.Input.{valid_id_char, all_id_chars, valid_camera_id}
use bk7252n_gate.Input.Strings.{is_space, drop_spaces, trim_space}

drop_spaces_id : (s : Text) → all_id_chars s ≡ true → drop_spaces s ≡ s
unfolding drop_spaces all_id_chars is_space valid_id_char
drop_spaces_id [] h = refl
drop_spaces_id (c ∷ s) h = ground arith

all_id_chars-append : (s t : Text) → all_id_chars (s ++ t) ≡ all_id_chars s && all_id_chars t
unfolding all_id_chars
all_id_chars-append [] t = refl
all_id_chars-append (c ∷ s) t = rw (all_id_chars-append s t) (ground arith)

all_id_chars-reverse : (s : Text) → all_id_chars (reverse s) ≡ all_id_chars s
unfolding all_id_chars
all_id_chars-reverse [] = refl
all_id_chars-reverse (c ∷ s) =
    rw (reverse-cons c s, all_id_chars-append (reverse s) (c ∷ []), all_id_chars-reverse s)
      (ground arith)

pub trim_space_id : (id : Text) → valid_camera_id id ≡ true → trim_space id ≡ id
unfolding trim_space valid_camera_id
trim_space_id id h =
    let chars : all_id_chars id ≡ true = ground arith in
    rw (drop_spaces_id id chars, drop_spaces_id (reverse id) (all_id_chars-reverse id ∙ chars))
      (reverse-reverse id)
