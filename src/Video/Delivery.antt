-- ===== src/Video/Delivery.antt =====
-- Which bytes `buildVideoFrame` delivers.
use bk7252n_gate.Prelude.{
  ℕ, zero, suc, ◌≤◌, ◌<◌, ◌≡◌, refl, sym, ◌∙◌, ap, Bool-cases, none, some, ◌+◌, ◌⊎◌, inl, inr, List,
  [], ◌∷◌, ◌++◌, Bool, true, false, Option-cases, leb, if◌then◌else◌, length, take, arith,
  length-append, is_empty,
}
use native.Mathlib.Decide.{dec_lt}
use bk7252n_gate.Video.{VideoFrame, collect, finish_frame, build_video_frame}
use bk7252n_gate.Video.Slots.{Chunks, lookup}
use mathlib.Core.List.{append-nil, append_assoc}
use bk7252n_gate.Video.Jpeg.{trim_complete_jpeg, IsImageIn, trim_complete_jpeg-IsImageIn}

-- The chunks of `n` slots in a row from slot `i` on, one after another; none of them is missing.
pub data Joined (chunks : Chunks) : ℕ → ℕ → List ℕ → Type 0 where
  done : (i : ℕ) → Joined chunks i 0 []
  next :
      (i n : ℕ) (chunk rest : List ℕ)
      → lookup i chunks ≡ some chunk
      → Joined chunks (i + 1) n rest
      → Joined chunks i (suc n) (chunk ++ rest)

-- How a frame comes out of the bytes of its first `n` slots: as its announced length of them; or, if it was cut
-- short by the next start packet and they are those of all its slots, as a stretch of them from a JPEG start
-- marker to an end marker.
abbrev pub IsCut : VideoFrame → Bool → ℕ → List ℕ → List ℕ → Type 0
IsCut vf boundary n bytes out =
    ((vf.expected_length ≤ length bytes) × (out ≡ take vf.expected_length bytes))
    ⊎ ((boundary ≡ true)
        × (length bytes < vf.expected_length)
        × (n ≡ suc vf.max_slot)
        × IsImageIn bytes out)

abbrev pub IsDelivery : VideoFrame → Bool → List ℕ → Type 0
IsDelivery vf boundary out =
    (out ≡ [])
    ⊎ ((n : ℕ) × (bytes : List ℕ) × (n ≤ suc vf.max_slot)
        × Joined vf.chunks 0 n bytes
        × IsCut vf boundary n bytes out)

pub length-IsImageIn : {bs out : List ℕ} → IsImageIn bs out → length out ≤ length bs
length-IsImageIn {bs} {out} im = omega (
  arith,
  ap length im.place,
  length-append im.before (out ++ im.after),
  length-append out im.after,
)

pub is_empty-take : (n : ℕ) (xs : List ℕ) → 0 < n → n ≤ length xs → is_empty (take n xs) ≡ false
unfolding is_empty
is_empty-take zero xs h k = absurd (omega arith)
is_empty-take (suc n) [] h k = absurd (omega arith)
is_empty-take (suc n) (x ∷ xs) h k = refl

-- With enough bytes the frame is its announced length of them.
pub finish_frame_enough :
    (expected : ℕ) (boundary : Bool) (out : List ℕ)
    → 0 < expected
    → expected ≤ length out
    → finish_frame expected boundary out ≡ take expected out
unfolding finish_frame
finish_frame_enough expected boundary out h k =
    let enough : leb expected (length out) ≡ true = ground arith in
    rw (enough, is_empty-take expected out h k) refl

pub finish_frame_short :
    (expected : ℕ) (boundary : Bool) (out : List ℕ)
    → length out < expected
    → finish_frame expected boundary out ≡ (if boundary then trim_complete_jpeg out else [])
unfolding finish_frame
finish_frame_short expected boundary out h =
    let short : leb expected (length out) ≡ false = ground arith in rw short refl

collect_missing :
    (chunks : Chunks) (expected left i : ℕ) (out : List ℕ) (total : ℕ)
    → lookup i chunks ≡ none
    → collect chunks expected (suc left) i out total ≡ none
unfolding collect
collect_missing chunks expected left i out total missing = rw (collect, missing) refl

collect_found :
    (chunks : Chunks) (expected left i : ℕ) (out chunk : List ℕ) (total : ℕ)
    → lookup i chunks ≡ some chunk
    → collect chunks expected (suc left) i out total ≡ (
        if leb expected (total + length chunk)
        then some (out ++ chunk)
        else collect chunks expected left (i + 1) (out ++ chunk) (total + length chunk))
unfolding collect
collect_found chunks expected left i out chunk total found = rw (collect, found) refl

-- What the loop collects is the chunks of the slots that it has passed, of all of them if it is too short.
collect-Joined :
    (chunks : Chunks) (expected left i : ℕ) (out : List ℕ) (total : ℕ) (res : List ℕ)
    → total ≡ length out
    → collect chunks expected left i out total ≡ some res
    → (n : ℕ) × (bytes : List ℕ) × (n ≤ left)
      × Joined chunks i n bytes
      × (res ≡ out ++ bytes)
      × (length res < expected → n ≡ left)
unfolding collect
collect-Joined chunks expected zero i out total res t h =
    let e : out ≡ res = cc in (0, [], omega arith, done i, sym e ∙ sym (append-nil out), λ _. refl)
collect-Joined chunks expected (suc left) i out total res t h =
    elim (Option-cases (lookup i chunks)) [
      | inl missing ↦
          let none_left = collect_missing chunks expected left i out total missing in absurd (cc)
      | inr (chunk, found) ↦
          let now = sym (collect_found chunks expected left i out chunk total found) ∙ h in
          let sum : total + length chunk ≡ length (out ++ chunk) =
            omega (arith, t, length-append out chunk) in
          elim (Bool-cases (leb expected (total + length chunk))) [
            | inl enough ↦
                let ends : some (out ++ chunk) ≡ some res = rw enough at now in
                let e : res ≡ out ++ chunk = cc in
                (
                  1,
                  chunk ++ [],
                  omega arith,
                  next i 0 chunk [] found (done (i + 1)),
                  e ∙ ap (λ l. out ++ l) (sym (append-nil chunk)),
                  λ short. absurd (ground (arith, sum, ap length e)),
                )
            | inr more ↦
                let (n, bytes, le, joined, e, all) =
                  collect-Joined chunks expected left (i + 1) (out ++ chunk) (total + length chunk)
                    res sum (rw more at now) in
                (
                  suc n,
                  chunk ++ bytes,
                  omega arith,
                  next i n chunk bytes found joined,
                  e ∙ append_assoc out chunk bytes,
                  λ short. ap suc (all short),
                )
          ]
    ]

trimmed-IsDelivery :
    (vf : VideoFrame) (boundary : Bool) (bytes : List ℕ)
    → Joined vf.chunks 0 (suc vf.max_slot) bytes
    → length bytes < vf.expected_length
    → IsDelivery vf boundary (if boundary then trim_complete_jpeg bytes else [])
trimmed-IsDelivery vf false bytes joined h = inl refl
trimmed-IsDelivery vf true bytes joined h = elim (trim_complete_jpeg-IsImageIn bytes) [
  | inl e ↦ inl e
  | inr im ↦ inr (suc vf.max_slot, bytes, omega arith, joined, inr (refl, h, refl, im))
]

-- What is built of a frame with a positive announced length is empty; or the announced length of what its first
-- slots hold, one after another and none of them missing; or, where a later start packet has ended the
-- frame, a stretch of what all its slots hold, none of them missing, from a JPEG start marker to an end marker.
pub build_video_frame-IsDelivery :
    (vf : VideoFrame) (boundary : Bool)
    → 0 < vf.expected_length
    → IsDelivery vf boundary (build_video_frame vf boundary)
unfolding build_video_frame
build_video_frame-IsDelivery vf boundary h =
    elim (Option-cases (collect vf.chunks vf.expected_length (suc vf.max_slot) 0 [] 0)) [
      | inl e ↦ rw (e, build_video_frame) (inl refl)
      | inr (out, e) ↦
          let (n, bytes, le, joined, same, all) =
            collect-Joined vf.chunks vf.expected_length (suc vf.max_slot) 0 [] 0 out refl e in
          rw (e, build_video_frame, same)
            (elim (dec_lt (length bytes) vf.expected_length) [
              | yes short ↦
                  let whole : n ≡ suc vf.max_slot = all (rw same short) in
                  rw (finish_frame_short vf.expected_length boundary bytes short)
                    (trimmed-IsDelivery vf boundary bytes (rw whole at joined) short)
              | no enough ↦
                  let fits : vf.expected_length ≤ length bytes = omega arith in
                  rw (finish_frame_enough vf.expected_length boundary bytes h fits)
                    (inr (n, bytes, le, joined, inl (fits, refl)))
            ])
    ]
