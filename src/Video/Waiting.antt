-- ===== src/Video/Waiting.antt =====
-- A frame with a missing slot waits for it.
use bk7252n_gate.Prelude.{
  ℕ, zero, suc, ◌+◌, ◌≤◌, ◌<◌, ◌≡◌, refl, inl, inr, ◌⊎◌, List, [], ◌∷◌, ◌++◌, false, Option, none,
  some, Option-cases, leb, ltb, length, arith, length-append, is_empty,
}
use bk7252n_gate.Video.{
  VideoFrame, index_distance, collect, finish_frame, build_video_frame, add_packet,
}
use bk7252n_gate.Video.Slots.{Chunks, lookup}
use bk7252n_gate.Video.Assembly.{joined}
use bk7252n_gate.Video.Invariant.{stored, store_chunk_free}

-- What a slot may hold.
abbrev pub HoldsAt : (ℕ → List ℕ) → Chunks → ℕ → Type 0
HoldsAt piece cs j = (lookup j cs ≡ none) ⊎ (lookup j cs ≡ some (piece j))

-- What was collected, if anything, is too short.
abbrev IsShort : ℕ → Option (List ℕ) → Type 0
IsShort expected o = elim o [ none ↦ Unit {0} | some bytes ↦ length bytes < expected ]

collect-IsShort :
    (cs : Chunks) (piece : ℕ → List ℕ) (k expected left i d : ℕ) (out : List ℕ) (total : ℕ)
    → total ≡ length out
    → k ≡ i + d
    → ((j : ℕ) → HoldsAt piece cs j)
    → lookup k cs ≡ none
    → length out + length (joined piece i d) < expected
    → IsShort expected (collect cs expected left i out total)
unfolding collect
collect-IsShort cs piece k expected zero i d out total t e h m s = omega arith
collect-IsShort cs piece k expected (suc left) i zero out total t e h m s =
    let here : k ≡ i = omega arith in rw (rw here at m, collect) tt
collect-IsShort cs piece k expected (suc left) i (suc d) out total t e h m s = elim (h i) [
  | inl free ↦ rw (free, collect) tt
  | inr held ↦
      let l = length-append (piece i) (joined piece (i + 1) d) in
      let l' = length-append out (piece i) in
      let on : leb expected (total + length (piece i)) ≡ false = ground (arith, l, l') in
      rw (held, collect)
        (rw on (
          collect-IsShort cs piece k expected left (i + 1) d (out ++ piece i)
            (total + length (piece i)) (omega (arith, l')) (omega (arith, e)) h m
            (omega (arith, l, l'))))
]

finish_frame_short :
    (expected : ℕ) (out : List ℕ) → length out < expected → finish_frame expected false out ≡ []
unfolding finish_frame
finish_frame_short expected out h =
    let short : leb expected (length out) ≡ false = ground arith in rw short refl

pub build_video_frame_short :
    (vf : VideoFrame) (piece : ℕ → List ℕ) (d : ℕ)
    → ((j : ℕ) → HoldsAt piece vf.chunks j)
    → lookup d vf.chunks ≡ none
    → length (joined piece 0 d) < vf.expected_length
    → build_video_frame vf false ≡ []
unfolding build_video_frame
build_video_frame_short vf piece d h m s =
    let short =
      collect-IsShort vf.chunks piece d vf.expected_length (suc vf.max_slot) 0 d [] 0 refl
        (omega arith) h m (omega arith) in
    elim (Option-cases (collect vf.chunks vf.expected_length (suc vf.max_slot) 0 [] 0)) [
      | inl e ↦ rw (e, build_video_frame) refl
      | inr (out, e) ↦
          rw (e, build_video_frame) (finish_frame_short vf.expected_length out (rw e at short))
    ]

-- A packet that leaves a slot missing is stored, and nothing is delivered.
pub add_packet_waits :
    (vf : VideoFrame) (index d : ℕ) (piece : ℕ → List ℕ)
    → let slot = index_distance vf.start_index index in
      slot ≤ 128
      → lookup slot vf.chunks ≡ none
      → ((j : ℕ) → HoldsAt piece ((slot, piece slot) ∷ vf.chunks) j)
      → lookup d ((slot, piece slot) ∷ vf.chunks) ≡ none
      → length (joined piece 0 d) < vf.expected_length
      → add_packet vf index (piece slot) [] ≡ (some (stored vf slot (piece slot)), [])
unfolding add_packet is_empty stored
add_packet_waits vf index d piece near free h m s =
    let slot = index_distance vf.start_index index in
    let not_far : ltb 128 slot ≡ false = ground arith in
    let waits = build_video_frame_short (stored vf slot (piece slot)) piece d h m s in
    rw (not_far, store_chunk_free vf slot (piece slot) free) (rw waits refl)
