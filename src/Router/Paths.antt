-- ===== src/Router/Paths.antt =====
-- `urlPathUnescape` of bkcam-go/main.go, and the split of a path into a camera's id and an action.
use bk7252n_gate.Prelude.{
  ℕ, ◌+◌, ◌-◌, ◌*◌, [], ◌∷◌, ◌&&◌, Option, none, some, leb, ◌==◌, if◌then◌else◌, Text, text,
}
use bk7252n_gate.Pages.{contains}

-- The value of a hexadecimal digit.
unfoldable pub hex_value : ℕ → Option ℕ
hex_value c =
    if leb b'0' c && leb c b'9'
    then some (c - b'0')
    else if leb b'a' c && leb c b'f'
    then some (c - b'a' + 10)
    else if leb b'A' c && leb c b'F'
    then some (c - b'A' + 10)
    else none

unfoldable pub put_first : ℕ → Option Text → Option Text
put_first c none = none
put_first c (some s) = some (c ∷ s)

unfoldable pub put_pair : Option ℕ → Option ℕ → Option Text → Option Text
put_pair none low rest = none
put_pair (some high) none rest = none
put_pair (some high) (some low) rest = put_first (high * 16 + low) rest

-- url.PathUnescape; `none` is an error.
unfoldable pub path_unescape : Text → Option Text
path_unescape [] = some []
path_unescape (c ∷ []) = if c == b'%' then none else some (c ∷ [])
path_unescape (c ∷ d ∷ []) =
    let rest = path_unescape (d ∷ []) in if c == b'%' then none else put_first c rest
path_unescape (c ∷ d ∷ e ∷ s) =
    let coded = path_unescape s in
    let rest = path_unescape (d ∷ e ∷ s) in
    if c == b'%' then put_pair (hex_value d) (hex_value e) coded else put_first c rest

unfoldable pub url_path_unescape : Text → Option Text
url_path_unescape s = elim (path_unescape s) [
  | none ↦ none
  | some out ↦ if contains out (text "/") then none else some out
]

-- strings.SplitN(s, "/", 2), the second part being empty where there is none.
unfoldable pub split_slash : Text → Text × Text
split_slash [] = ([], [])
split_slash (c ∷ s) =
    let rest = split_slash s in if c == b'/' then ([], s) else (c ∷ rest.0, rest.1)

unfoldable pub with_id : Option Text → Text → Option (Text × Text)
with_id none action = none
with_id (some id) action = some (id, action)

unfoldable pub unescape_first : Text × Text → Option (Text × Text)
unescape_first (first, action) = with_id (url_path_unescape first) action

-- The id and the action behind `/api/cameras/` or `/cam/`.
unfoldable pub split_path : Text → Option (Text × Text)
split_path rest = unescape_first (split_slash rest)
