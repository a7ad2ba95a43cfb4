-- ===== src/Pages/Marks.antt =====
-- The characters of a page that HTML reads xs markup, and which of them a value can add: none.
use bk7252n_gate.Prelude.{
  ℕ, ◌≡◌, refl, ap₂, ◌∙◌, sym, inl, inr, List, [], ◌∷◌, ◌++◌, Bool, true, false, ◌||◌, ◌==◌,
  if◌then◌else◌, Text, text, text_eq, arith, Bool-cases,
}
use bk7252n_gate.Input.{Value, str, FloatOps, sprint, valid_id_char}
use bk7252n_gate.Pages.{
  escape_char, escape_string, html_text, html_value, upper_hex, is_path_char, path_escape_char,
  path_escape, sprintf_from, sprintf, concat, join,
}

-- `<`, `>` and the two quotation marks
unfoldable pub is_mark : ℕ → Bool
is_mark c = (c == b'<') || ((c == b'>') || ((c == b'"') || (c == b'\'')))

-- The markup characters of a text, in order.
unfoldable pub marks : Text → Text
marks [] = []
marks (c ∷ s) = let rest = marks s in if is_mark c then c ∷ rest else rest

pub marks-append : (s t : Text) → marks (s ++ t) ≡ marks s ++ marks t
unfolding marks is_mark
marks-append [] t = refl
marks-append (c ∷ s) t = ground (arith, marks-append s t)

-- Two lists of texts with the same markup, text by text.
pub data SameMarks : List Text → List Text → Type 0 where
  done : SameMarks [] []
  next :
      {s t : Text} {ss ts : List Text}
      → marks s ≡ marks t
      → SameMarks ss ts
      → SameMarks (s ∷ ss) (t ∷ ts)

escape_char-marks : (c : ℕ) → marks (escape_char c) ≡ []
unfolding escape_char marks is_mark
escape_char-marks c = ground arith

escape_string-marks : (s : Text) → marks (escape_string s) ≡ []
unfolding escape_string marks
escape_string-marks [] = refl
escape_string-marks (c ∷ s) =
    rw (marks-append (escape_char c) (escape_string s), escape_char-marks c) (escape_string-marks s)

pub html_text-marks : (s : Text) → marks (html_text s) ≡ []
unfolding html_text marks
html_text-marks s = elim (Bool-cases (text_eq s (text "<nil>"))) [
  | inl h ↦ rw h refl
  | inr h ↦ rw h (escape_string-marks s)
]

pub html_value-marks : {F : Type 0} (fl : FloatOps F) (v : Value F) → marks (html_value fl v) ≡ []
unfolding html_value marks
html_value-marks fl Value.null = refl
html_value-marks fl (Value.bool b) = html_text-marks (sprint fl (Value.bool b))
html_value-marks fl (str s) = html_text-marks (sprint fl (str s))
html_value-marks fl (Value.float x) = html_text-marks (sprint fl (Value.float x))
html_value-marks fl (Value.int n) = html_text-marks (sprint fl (Value.int n))
html_value-marks fl (Value.other s) = html_text-marks (sprint fl (Value.other s))

path_escape_char-marks : (c : ℕ) → marks (path_escape_char c) ≡ []
unfolding path_escape_char marks is_mark is_path_char upper_hex valid_id_char
path_escape_char-marks c = ground arith

pub path_escape-marks : (s : Text) → marks (path_escape s) ≡ []
unfolding path_escape marks
path_escape-marks [] = refl
path_escape-marks (c ∷ s) =
    rw (marks-append (path_escape_char c) (path_escape s), path_escape_char-marks c)
      (path_escape-marks s)

pub append-SameMarks :
    (s s' t t' : Text) → marks s ≡ marks s' → marks t ≡ marks t' → marks (s ++ t) ≡ marks (s' ++ t')
append-SameMarks s s' t t' p q = rw (marks-append s t, marks-append s' t') (ap₂ ◌++◌ p q)

pub cons-SameMarks : (c : ℕ) (s t : Text) → marks s ≡ marks t → marks (c ∷ s) ≡ marks (c ∷ t)
cons-SameMarks c s t p = append-SameMarks (c ∷ []) (c ∷ []) s t refl p

pub concat-SameMarks : (ss ts : List Text) → SameMarks ss ts → marks (concat ss) ≡ marks (concat ts)
unfolding concat
concat-SameMarks _ _ done = refl
concat-SameMarks _ _ (next {s} {t} {ss} {ts} p h) =
    append-SameMarks s t (concat ss) (concat ts) p (concat-SameMarks ss ts h)

sprintf_from-SameMarks :
    (verb : Bool) (format : Text) (xs ys : List Text)
    → SameMarks xs ys
    → marks (sprintf_from verb format xs) ≡ marks (sprintf_from verb format ys)
unfolding sprintf_from
sprintf_from-SameMarks false [] xs ys h = refl
sprintf_from-SameMarks true [] xs ys h = refl
sprintf_from-SameMarks false (c ∷ format) xs ys h = elim (Bool-cases (c == b'%')) [
  | inl e ↦ rw e (sprintf_from-SameMarks true format xs ys h)
  | inr e ↦ rw e (cons-SameMarks c _ _ (sprintf_from-SameMarks false format xs ys h))
]
sprintf_from-SameMarks true (c ∷ format) _ _ done = refl
sprintf_from-SameMarks true (c ∷ format) _ _ (next {s = a} {t = b} {ss = xs} {ts = ys} p h) =
    append-SameMarks a b _ _ p (sprintf_from-SameMarks false format xs ys h)

pub sprintf-SameMarks :
    (format : Text) (xs ys : List Text)
    → SameMarks xs ys
    → marks (sprintf format xs) ≡ marks (sprintf format ys)
unfolding sprintf
sprintf-SameMarks format xs ys h = sprintf_from-SameMarks false format xs ys h

pub join-SameMarks :
    (sep : Text) (ss ts : List Text) → SameMarks ss ts → marks (join ss sep) ≡ marks (join ts sep)
unfolding join
join-SameMarks sep _ _ done = refl
join-SameMarks sep _ _ (next p done) = p
join-SameMarks sep _ _ (next {s} {t} p (next {s = s'} {t = t'} {ss} {ts} q h)) =
    append-SameMarks s t _ _ p
      (append-SameMarks sep sep _ _ refl (join-SameMarks sep (s' ∷ ss) (t' ∷ ts) (next q h)))

-- Values that stand between the marks of a page.
pub html_text-same : (s t : Text) → marks (html_text s) ≡ marks (html_text t)
html_text-same s t = html_text-marks s ∙ sym (html_text-marks t)

pub html_value-same :
    {F : Type 0} (fl : FloatOps F) (v w : Value F)
    → marks (html_value fl v) ≡ marks (html_value fl w)
html_value-same fl v w = html_value-marks fl v ∙ sym (html_value-marks fl w)

pub path_escape-same : (s t : Text) → marks (path_escape s) ≡ marks (path_escape t)
path_escape-same s t = path_escape-marks s ∙ sym (path_escape-marks t)

pub ruleset page_laws =
    (done, next, concat-SameMarks, sprintf-SameMarks, html_text-same, html_value-same)
