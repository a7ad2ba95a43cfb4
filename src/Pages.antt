-- ===== src/Pages.antt =====
-- The pages of bkcam-go/main.go: `htmlValue`, `tr`, `normalizeLang`, `mapBool`, and what the pages use of
-- fmt, html, net/url and strings. `fmt.Sprintf` fills its verbs with arguments that are texts already.
pub mod Marks
pub mod Controls
pub mod CameraForm
pub mod DeviceForm
pub mod Wizard
pub mod Metrics
pub mod Panel
pub mod Safe
pub mod SafePanel
pub mod Style
pub mod Script
pub mod Actions
pub mod Page
pub mod SafePage
pub mod Exports
pub mod Overview
use bk7252n_gate.Prelude.{
  ℕ, zero, suc, ◌+◌, ◌-◌, ◌/◌, ◌%◌, List, [], ◌∷◌, ◌++◌, Bool, true, false, ◌&&◌, ◌||◌, Option,
  none, some, leb, ltb, ◌==◌, if◌then◌else◌, Text, text, text_eq, has_prefix,
}
use Prim.Native.String.{String}
use bk7252n_gate.Input.{Value, str, null, FloatOps, Object, find_key, sprint, valid_id_char}
use bk7252n_gate.Input.Strings.{trim_space, lower, to_lower}

-- `uiText`: the texts of each language.
abbrev pub UiText : Type 0
UiText = List (Text × List (Text × Text))

unfoldable pub find_text {ℓ} : {A : Type ℓ} → Text → List (Text × A) → Option A
find_text key [] = none
find_text key ((k, v) ∷ rest) = if text_eq k key then some v else find_text key rest

-- `uiText[lang][key]`
unfoldable pub ui_text : UiText → Text → Text → Option Text
ui_text ui lang key = elim (find_text lang ui) [ none ↦ none | some texts ↦ find_text key texts ]

unfoldable pub tr : UiText → Text → Text → Text
tr ui lang key = elim (ui_text ui lang key) [
  | some value ↦ value
  | none ↦ elim (ui_text ui (text "ru") key) [ some value ↦ value | none ↦ key ]
]

unfoldable pub normalize_lang : Text → Text
normalize_lang lang =
    let word = to_lower (trim_space lang) in
    if text_eq word (text "ru")
    then text "ru"
    else if text_eq word (text "en")
    then text "en"
    else []

unfoldable pub map_bool : Bool → Text → Text → Text
map_bool ok a b = if ok then a else b

-- What html.EscapeString writes for a byte.
unfoldable pub escape_char : ℕ → Text
escape_char c =
    if c == b'&'
    then text "&amp;"
    else if c == b'\''
    then text "&#39;"
    else if c == b'<'
    then text "&lt;"
    else if c == b'>'
    then text "&gt;"
    else if c == b'"'
    then text "&#34;"
    else c ∷ []

-- html.EscapeString
unfoldable pub escape_string : Text → Text
escape_string [] = []
escape_string (c ∷ s) = escape_char c ++ escape_string s

-- `htmlValue` of a string
unfoldable pub html_text : Text → Text
html_text s = if text_eq s (text "<nil>") then [] else escape_string s

-- `htmlValue`
unfoldable pub html_value : {F : Type 0} → FloatOps F → Value F → Text
html_value fl null = []
html_value fl v = html_text (sprint fl v)

-- A hexadecimal digit in upper case.
unfoldable pub upper_hex : ℕ → ℕ
upper_hex d = if ltb d 10 then b'0' + d else b'A' + (d - 10)

-- `\x` and two hexadecimal digits in lower case.
unfoldable pub hex_escape : ℕ → Text
hex_escape c = text "\\x" ++ (lower (upper_hex (c / 16 % 16)) ∷ lower (upper_hex (c % 16)) ∷ [])

-- Whether url.PathEscape leaves a byte as it is.
unfoldable pub is_path_char : ℕ → Bool
is_path_char c =
    valid_id_char c
    || ((c == b'.')
        || ((c == b'~')
            || ((c == b'$')
                || ((c == b'&')
                    || ((c == b'+') || ((c == b':') || ((c == b'=') || (c == b'@'))))))))

unfoldable pub path_escape_char : ℕ → Text
path_escape_char c =
    if is_path_char c then c ∷ [] else b'%' ∷ upper_hex (c / 16 % 16) ∷ upper_hex (c % 16) ∷ []

-- url.PathEscape
unfoldable pub path_escape : Text → Text
path_escape [] = []
path_escape (c ∷ s) = path_escape_char c ++ path_escape s

-- fmt.Sprintf behind a `%` (true) or not; the formats have the verbs %s, %d and %v only.
unfoldable pub sprintf_from : Bool → Text → List Text → Text
sprintf_from false [] args = []
sprintf_from true [] args = text "%!(NOVERB)"
sprintf_from false (c ∷ format) args =
    let verb = sprintf_from true format args in
    let plain = sprintf_from false format args in if c == b'%' then verb else c ∷ plain
sprintf_from true (c ∷ format) [] =
    text "%!" ++ (c ∷ (text "(MISSING)" ++ sprintf_from false format []))
sprintf_from true (c ∷ format) (arg ∷ args) = arg ++ sprintf_from false format args

unfoldable pub sprintf : Text → List Text → Text
sprintf format args = sprintf_from false format args

-- `a + b + …`, and strings.Join with an empty separator
unfoldable pub concat : List Text → Text
concat [] = []
concat (s ∷ rest) = s ++ concat rest

-- strings.Join
unfoldable pub join : List Text → Text → Text
join [] sep = []
join (s ∷ []) sep = s
join (s ∷ t ∷ rest) sep = s ++ (sep ++ join (t ∷ rest) sep)

-- The lines of a literal.
unfoldable pub html : List String → Text
html [] = []
html (s ∷ []) = text s
html (s ∷ t ∷ rest) = text s ++ (10 ∷ html (t ∷ rest))

-- The decimal digits of a number, on fuel.
unfoldable pub digits_from : ℕ → ℕ → Text → Text
digits_from zero n acc = acc
digits_from (suc fuel) n acc =
    let more = digits_from fuel (n / 10) ((b'0' + n % 10) ∷ acc) in
    if ltb n 10 then (b'0' + n) ∷ acc else more

-- The text of a number that is not negative.
unfoldable pub decimal : ℕ → Text
decimal n = digits_from (suc n) n []

-- `m[key]`, nil for a key that is missing
unfoldable pub field : {F : Type 0} → Object F → Text → Value F
field m key = elim (find_key key m) [ none ↦ null | some v ↦ v ]

-- strings.Contains
unfoldable pub contains : Text → Text → Bool
contains [] part = has_prefix [] part
contains (c ∷ s) part = has_prefix (c ∷ s) part || contains s part

-- `yamlQuote`
unfoldable pub double_quotes : Text → Text
double_quotes [] = []
double_quotes (c ∷ s) =
    let rest = double_quotes s in if c == b'\'' then b'\'' ∷ b'\'' ∷ rest else c ∷ rest

unfoldable pub yaml_quote : Text → Text
yaml_quote value = b'\'' ∷ (double_quotes value ++ (b'\'' ∷ []))
