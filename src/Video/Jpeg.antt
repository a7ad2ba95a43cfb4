-- ===== src/Video/Jpeg.antt =====
-- `trimCompleteJPEG`: the bytes from the first start marker (ff d8) to the last end marker (ff d9).
use bk7252n_gate.Prelude.{
  ℕ, zero, suc, ◌+◌, ◌-◌, ◌≡◌, refl, ap, ◌⊎◌, inl, inr, Bool-cases, Option-cases, sym, ◌∙◌,
  drop-append_self, List, [], ◌∷◌, ◌++◌, false, ◌&&◌, Option, none, some, ◌==◌, if◌then◌else◌,
  length, take, drop, arith, leb,
}
use mathlib.Core.List.{append_assoc}

-- `bytes.Index(in, {0xff, 0xd8})` from position `i` on.
unfoldable pub find_soi : ℕ → List ℕ → Option ℕ
find_soi i [] = none
find_soi i (a ∷ []) = none
find_soi i (a ∷ b ∷ bs) = if (a == 0xff) && (b == 0xd8) then some i else find_soi (i + 1) (b ∷ bs)

-- The loop for `eoi`, over the bytes from position `i` on; `none` is -1.
unfoldable pub find_eoi : ℕ → List ℕ → Option ℕ → Option ℕ
find_eoi i [] eoi = eoi
find_eoi i (a ∷ []) eoi = eoi
find_eoi i (a ∷ b ∷ bs) eoi =
    find_eoi (i + 1) (b ∷ bs) (if (a == 0xff) && (b == 0xd9) then some (i + 2) else eoi)

-- `in[soi:eoi]`, if there is an end.
unfoldable pub cut_image : List ℕ → ℕ → Option ℕ → List ℕ
cut_image bs soi none = []
cut_image bs soi (some eoi) = if leb eoi soi then [] else take (eoi - soi) (drop soi bs)

unfoldable pub trim_complete_jpeg : List ℕ → List ℕ
unfolding cut_image find_soi find_eoi
trim_complete_jpeg bs = elim (find_soi 0 bs) [
  | none ↦ []
  | some soi ↦ cut_image bs soi (find_eoi (soi + 2) (drop (soi + 2) bs) none)
]

find_soi_sound :
    (i : ℕ) (bs : List ℕ) {k : ℕ}
    → find_soi i bs ≡ some k
    → (pre rest : List ℕ) × (bs ≡ pre ++ (0xff ∷ 0xd8 ∷ rest)) × (k ≡ i + length pre)
unfolding find_soi
find_soi_sound i [] h = cc
find_soi_sound i (a ∷ []) h = cc
find_soi_sound i (a ∷ b ∷ bs) {k} h = elim (Bool-cases ((a == 0xff) && (b == 0xd8))) [
  | inl hit ↦ ([], bs, ground arith, ground arith)
  | inr miss ↦
      let (pre, rest, e, n) = find_soi_sound (i + 1) (b ∷ bs) {k = k} (rw miss at h) in
      (a ∷ pre, rest, ap (λ l. a ∷ l) e, omega arith)
]

find_eoi_sound :
    (i : ℕ) (bs : List ℕ) (eoi : Option ℕ) {k : ℕ}
    → find_eoi i bs eoi ≡ some k
    → (eoi ≡ some k)
      ⊎ ((mid post : List ℕ) × (bs ≡ mid ++ (0xff ∷ 0xd9 ∷ post)) × (k ≡ i + length mid + 2))
unfolding find_eoi
find_eoi_sound i [] eoi h = inl h
find_eoi_sound i (a ∷ []) eoi h = inl h
find_eoi_sound i (a ∷ b ∷ bs) eoi {k} h =
    elim (find_eoi_sound (i + 1) (b ∷ bs) (if (a == 0xff) && (b == 0xd9) then some (i + 2) else eoi)
      h) [
        | inr (mid, post, e, n) ↦ inr (a ∷ mid, post, ap (λ l. a ∷ l) e, omega arith)
        | inl stop ↦ elim (Bool-cases ((a == 0xff) && (b == 0xd9))) [
          | inl hit ↦ inr ([], bs, ground arith, ground arith)
          | inr miss ↦ inl (rw miss at stop)
        ]
      ]

drop_through :
    (pre rest : List ℕ) (a b n : ℕ) → n ≡ length pre + 2 → drop n (pre ++ (a ∷ b ∷ rest)) ≡ rest
drop_through [] rest a b n h = rw h refl
drop_through (x ∷ pre) rest a b zero h = absurd (omega arith)
drop_through (x ∷ pre) rest a b (suc n) h = drop_through pre rest a b n (omega arith)

take_through :
    (mid post : List ℕ) (a b n : ℕ)
    → n ≡ length mid + 2
    → take n (mid ++ (a ∷ b ∷ post)) ≡ mid ++ (a ∷ b ∷ [])
take_through [] post a b n h = rw h refl
take_through (x ∷ mid) post a b zero h = absurd (omega arith)
take_through (x ∷ mid) post a b (suc n) h =
    ap (λ l. x ∷ l) (take_through mid post a b n (omega arith))

-- `out` is a stretch of `bs` that starts with ff d8 and ends with ff d9.
pub record IsImageIn (bs out : List ℕ) : Type 0 where
  pub before : List ℕ
  pub inside : List ℕ
  pub after : List ℕ
  pub shape : out ≡ 0xff ∷ 0xd8 ∷ (inside ++ (0xff ∷ 0xd9 ∷ []))
  pub place : bs ≡ before ++ (out ++ after)

append_end : (mid post : List ℕ) (a b : ℕ) → (mid ++ (a ∷ b ∷ [])) ++ post ≡ mid ++ (a ∷ b ∷ post)
append_end mid post a b = append_assoc mid (a ∷ b ∷ []) post

cut_found :
    (bs pre rest mid post : List ℕ) (soi eoi : ℕ)
    → bs ≡ pre ++ (0xff ∷ 0xd8 ∷ rest)
    → soi ≡ length pre
    → rest ≡ mid ++ (0xff ∷ 0xd9 ∷ post)
    → eoi ≡ soi + 2 + length mid + 2
    → IsImageIn bs (cut_image bs soi (some eoi))
unfolding cut_image
cut_found bs pre rest mid post soi eoi eb es er ee = record {
  before = pre;
  inside = mid;
  after = post;
  shape = shaped;
  place =
      eb
      ∙ ap (λ l. pre ++ l)
          (ap (λ l. 0xff ∷ 0xd8 ∷ l) (er ∙ sym (append_end mid post 0xff 0xd9))
            ∙ ap (λ l. l ++ post) (sym shaped));
}
  where
    body : drop soi bs ≡ 0xff ∷ 0xd8 ∷ rest
    body = rw (es, eb) (drop-append_self pre (0xff ∷ 0xd8 ∷ rest))

    apart : leb eoi soi ≡ false
    apart = ground arith

    span : eoi - soi ≡ suc (suc (length mid + 2))
    span = omega arith

    inner : take (length mid + 2) rest ≡ mid ++ (0xff ∷ 0xd9 ∷ [])
    inner = rw er (take_through mid post 0xff 0xd9 (length mid + 2) refl)

    shaped :
        (if leb eoi soi then [] else take (eoi - soi) (drop soi bs))
        ≡ 0xff ∷ 0xd8 ∷ (mid ++ (0xff ∷ 0xd9 ∷ []))
    shaped = rw (apart, body, span) (ap (λ l. 0xff ∷ 0xd8 ∷ l) inner)

trim_found :
    (bs : List ℕ) (soi : ℕ)
    → find_soi 0 bs ≡ some soi
    → (eoi : Option ℕ) → find_eoi (soi + 2) (drop (soi + 2) bs) none ≡ eoi
    → (cut_image bs soi eoi ≡ []) ⊎ IsImageIn bs (cut_image bs soi eoi)
trim_found bs soi h none e = inl (unfold cut_image in refl)
trim_found bs soi h (some eoi) e =
    let (pre, rest, eb, es) = find_soi_sound 0 bs {k = soi} h in
    elim (find_eoi_sound (soi + 2) (drop (soi + 2) bs) none {k = eoi} e) [
      | inl bad ↦ cc
      | inr (mid, post, er, ee) ↦ inr (
          cut_found bs pre rest mid post soi eoi eb (omega arith)
            (sym (ap (drop (soi + 2)) eb ∙ drop_through pre rest 0xff 0xd8 (soi + 2) (omega arith))
              ∙ er)
            ee)
    ]

-- Trimming gives nothing, or a stretch of the input from a start marker to an end marker.
pub trim_complete_jpeg-IsImageIn :
    (bs : List ℕ) → (trim_complete_jpeg bs ≡ []) ⊎ IsImageIn bs (trim_complete_jpeg bs)
unfolding trim_complete_jpeg
trim_complete_jpeg-IsImageIn bs = elim (Option-cases (find_soi 0 bs)) [
  | inl e ↦ inl (rw (e, trim_complete_jpeg) refl)
  | inr (soi, e) ↦ rw (e, trim_complete_jpeg) (trim_found bs soi e _ refl)
]
