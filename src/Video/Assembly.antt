-- ===== src/Video/Assembly.antt =====
-- When a frame is complete, and what is then delivered.
use bk7252n_gate.Prelude.{
  ℕ, zero, suc, ◌+◌, ◌≤◌, ◌<◌, ◌≡◌, ◌≢◌, refl, sym, ap, ◌∙◌, inl, inr, List, [], ◌∷◌, ◌++◌, Bool,
  true, false, Bool-cases, Option, none, some, leb, ltb, ◌==◌, ==_iff, if◌then◌else◌, length, take,
  arith, length-append, take-append_le, is_empty,
}
use mathlib.Core.Path.{subst}
use mathlib.Core.List.{append_assoc, append-nil}
use bk7252n_gate.Video.{collect}
use bk7252n_gate.Video.{VideoFrame, index_distance, build_video_frame, add_packet}
use bk7252n_gate.Video.Slots.{Chunks, lookup}
use bk7252n_gate.Video.Delivery.{finish_frame_enough, is_empty-take}
use bk7252n_gate.Video.Invariant.{IsAssembling, stored, store_chunk_free}

-- The pieces of the slots `i`, `i + 1`, … in order, `n` of them.
abbrev pub joined : (ℕ → List ℕ) → ℕ → ℕ → List ℕ
joined piece i zero = []
joined piece i (suc n) = piece i ++ joined piece (i + 1) n

-- The slots from `i` on, `n` of them, hold their pieces.
abbrev pub HasPieces : Chunks → (ℕ → List ℕ) → ℕ → ℕ → Type 0
HasPieces chunks piece i zero = Unit
HasPieces chunks piece i (suc n) =
    (lookup i chunks ≡ some (piece i)) × HasPieces chunks piece (i + 1) n

record IsCollected (expected : ℕ) (whole : List ℕ) (result : Option (List ℕ)) : Type 0 where
  bytes : List ℕ
  returns : result ≡ some bytes
  enough : expected ≤ length bytes
  prefix : take expected bytes ≡ take expected whole

collect-IsCollected :
    (chunks : Chunks) (piece : ℕ → List ℕ) (expected left i : ℕ) (out : List ℕ) (total : ℕ)
    → total ≡ length out
    → HasPieces chunks piece i left
    → expected ≤ length (out ++ joined piece i left)
    → IsCollected expected (out ++ joined piece i left) (collect chunks expected left i out total)
unfolding collect
collect-IsCollected chunks piece expected zero i out total et has fits = record {
  bytes = out;
  returns = refl;
  enough = rw (← append-nil out) fits;
  prefix = ap (take expected) (sym (append-nil out));
}
collect-IsCollected chunks piece expected (suc left) i out total et has fits =
    rw (has.0, collect)
      (elim (Bool-cases (leb expected (total + length (piece i)))) [
        | inl stop ↦ rw stop (record {
          bytes = out ++ piece i;
          returns = refl;
          enough = full stop;
          prefix =
              sym (
                ap (take expected) regroup
                ∙ take-append_le expected (out ++ piece i) _ (full stop));
        })
        | inr on ↦ rw on (
            subst
              (λ w.
                IsCollected expected w (
                  collect chunks expected left (i + 1) (out ++ piece i) (total + length (piece i))))
              (sym regroup)
              (collect-IsCollected chunks piece expected left (i + 1) (out ++ piece i)
                (total + length (piece i)) (omega (arith, length-append out (piece i))) has.1
                (rw (← regroup) fits)))
      ])
  where
    regroup :
        out ++ (piece i ++ joined piece (i + 1) left)
        ≡ (out ++ piece i) ++ joined piece (i + 1) left
    regroup = sym (append_assoc out (piece i) (joined piece (i + 1) left))

    full : leb expected (total + length (piece i)) ≡ true → expected ≤ length (out ++ piece i)
    full stop = ground (arith, length-append out (piece i))

HasPieces-store :
    (slot : ℕ) (cs : Chunks) (piece : ℕ → List ℕ) (i n : ℕ)
    → ((j : ℕ) → i ≤ j → j < i + n → j ≢ slot → lookup j cs ≡ some (piece j))
    → HasPieces ((slot, piece slot) ∷ cs) piece i n
unfolding lookup
HasPieces-store slot cs piece i zero h = tt
HasPieces-store slot cs piece i (suc n) h = (
  elim (Bool-cases (slot == i)) [
    | inl e ↦ rw e (ap (λ j. some (piece j)) ((==_iff slot i).0 e))
    | inr ne ↦ rw ne (h i (omega arith) (omega arith) (λ e. absurd_eq ne e))
  ],
  HasPieces-store slot cs piece (i + 1) n (λ j p q. h j (omega arith) (omega arith)),
)
  where
    absurd_eq : (slot == i) ≡ false → i ≡ slot → ⊥
    absurd_eq ne e = ground arith

build_video_frame_complete :
    (vf : VideoFrame) (boundary : Bool) (piece : ℕ → List ℕ)
    → 0 < vf.expected_length
    → HasPieces vf.chunks piece 0 (suc vf.max_slot)
    → vf.expected_length ≤ length (joined piece 0 (suc vf.max_slot))
    → build_video_frame vf boundary ≡ take vf.expected_length (joined piece 0 (suc vf.max_slot))
unfolding build_video_frame
build_video_frame_complete vf boundary piece h has fits =
    let c =
      collect-IsCollected vf.chunks piece vf.expected_length (suc vf.max_slot) 0 [] 0 refl has
        fits in
    rw (c.returns, build_video_frame)
      (finish_frame_enough vf.expected_length boundary c.bytes h c.enough ∙ c.prefix)

-- The last missing packet of a sound frame, at most 128 slots from its start, in whatever order
-- the others came: if its slot is free, the other slots up to `last`, the highest of all, are
-- held, and their pieces with its own reach the announced length, then the packet delivers that
-- many bytes of the pieces in slot order, and the frame is closed.
pub add_packet_completes :
    (vf : VideoFrame) (index last : ℕ) (piece : ℕ → List ℕ)
    → let slot = index_distance vf.start_index index in
      IsAssembling vf
      → slot ≤ 128
      → lookup slot vf.chunks ≡ none
      → last ≡ (if ltb vf.max_slot slot then slot else vf.max_slot)
      → ((j : ℕ) → j ≤ last → j ≢ slot → lookup j vf.chunks ≡ some (piece j))
      → vf.expected_length ≤ length (joined piece 0 (suc last))
      → add_packet vf index (piece slot) []
        ≡ (none, take vf.expected_length (joined piece 0 (suc last)))
unfolding add_packet is_empty stored
add_packet_completes vf index last piece v near free el held fits =
    rw (not_far, store_chunk_free vf slot (piece slot) free)
      (rw (built, is_empty-take vf.expected_length (joined piece 0 (suc last)) v.wants fits) refl)
  where
    slot : ℕ
    slot = index_distance vf.start_index index

    not_far : ltb 128 slot ≡ false
    not_far = ground arith

    has : HasPieces ((slot, piece slot) ∷ vf.chunks) piece 0 (suc last)
    has = HasPieces-store slot vf.chunks piece 0 (suc last) (λ j p q ne. held j (omega arith) ne)

    built :
        build_video_frame (stored vf slot (piece slot)) false
        ≡ take vf.expected_length (joined piece 0 (suc last))
    built = rw el (
        build_video_frame_complete (stored vf slot (piece slot)) false piece v.wants (rw (← el) has)
          (rw (← el) fits))
