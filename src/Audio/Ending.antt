-- ===== src/Audio/Ending.antt =====
-- The loop of `parseAudioFrames` (bkcam-go/main.go) ends by its own tests.
use bk7252n_gate.Prelude.{
  ℕ, zero, suc, ◌+◌, ◌≤◌, ◌≡◌, refl, inl, inr, List, [], ◌∷◌, Bool-cases, true, false, leb, length,
  length-drop, arith,
}
use bk7252n_gate.Audio.{media_header_len, payload_len, has_frame, after_frame, parse_loop}

has_frame_nil : has_frame [] ≡ false
unfolding has_frame
has_frame_nil = refl

-- A frame takes at least its header.
length-after_frame :
    (b : List ℕ) (fuel : ℕ)
    → length b ≤ suc fuel
    → has_frame b ≡ true
    → length (after_frame b) ≤ fuel
unfolding after_frame has_frame
length-after_frame b fuel h f =
    let e = length-drop (media_header_len + payload_len b) b in
    let big : leb media_header_len (length b) ≡ true = ground arith in ground (arith, e)

-- Fuel for each byte is enough for the loop over any bytes to stop where it finds no frame, and more fuel finds
-- neither more frames nor another end.
pub parse_loop-stops :
    (fuel more : ℕ) (b : List ℕ)
    → length b ≤ fuel
    → length b ≤ more
    → (has_frame (parse_loop fuel b).1 ≡ false) × (parse_loop more b ≡ parse_loop fuel b)
unfolding parse_loop
parse_loop-stops zero zero [] h k = (has_frame_nil, refl)
parse_loop-stops zero (suc more) [] h k = rw has_frame_nil (refl, refl)
parse_loop-stops (suc fuel) zero [] h k = rw has_frame_nil (has_frame_nil, refl)
parse_loop-stops zero more (x ∷ b) h k = absurd (omega arith)
parse_loop-stops (suc fuel) zero (x ∷ b) h k = absurd (omega arith)
parse_loop-stops (suc fuel) (suc more) b h k = elim (Bool-cases (has_frame b)) [
  | inr none_left ↦ rw none_left (none_left, refl)
  | inl found ↦
      let (stops, same) =
        parse_loop-stops fuel more (after_frame b) (length-after_frame b fuel h found)
          (length-after_frame b more k found) in
      rw found (stops, rw same refl)
]
