-- ===== src/Video/AnyOrder.antt =====
-- The packets of one frame, in any order.
use bk7252n_gate.Prelude.{
  ℕ, suc, ◌+◌, ◌%◌, ◌^◌, ◌≤◌, ◌<◌, ◌≡◌, ◌≢◌, refl, sym, ◌∙◌, inl, inr, List, [], ◌∷◌, ◌++◌, true,
  false, Bool-cases, Option, none, some, leb, ltb, ◌==◌, ==_iff, ◌&&◌, ◌||◌, not, if◌then◌else◌,
  length, take, drop, has_prefix, arith, length-append, drop-append_self,
}
use mathlib.Core.Path.{subst}
use bk7252n_gate.Packet.{Packet, msg_drw}
use bk7252n_gate.Video.{
  VideoFrame, marker, max_frame, index_distance, add_packet, announced_length, start_frame,
  flush_frame, handle_start, handle_rest, handle_video,
}
use bk7252n_gate.Video.Slots.{lookup, held}
use bk7252n_gate.Video.Invariant.{IsAssembling, stored}
use bk7252n_gate.Video.Assembly.{joined, add_packet_completes}
use bk7252n_gate.Video.Awaits.{is_among, IsOrder, Awaits, Awaits-HoldsAt, stored-Awaits, joined-le}
use bk7252n_gate.Video.Waiting.{HoldsAt, add_packet_waits}

-- The packet of a slot, in a frame that starts at the index `start`.
abbrev pub slot_packet : ℕ → (ℕ → List ℕ) → ℕ → Packet
slot_packet start piece j = record {
  type = msg_drw;
  size = length (piece j) + 4;
  channel = 1;
  index = (start + j) % 2 ^ 16;
  payload = piece j;
}

index_distance_slot :
    (start j : ℕ) → start < 2 ^ 16 → j ≤ 128 → index_distance start ((start + j) % 2 ^ 16) ≡ j
unfolding index_distance
index_distance_slot start j h k = omega arith

-- The packet that starts the frame, with the 32 bytes before the first piece.
abbrev pub start_packet : ℕ → (ℕ → List ℕ) → List ℕ → Packet
start_packet start piece head = record {
  type = msg_drw;
  size = length (head ++ piece 0) + 4;
  channel = 1;
  index = start;
  payload = head ++ piece 0;
}

-- What the packets deliver, each `[]` for nothing.
unfoldable pub handle_all : Option VideoFrame → List Packet → Option VideoFrame × List (List ℕ)
handle_all state [] = (state, [])
handle_all state (pkt ∷ pkts) =
    let r = handle_video state pkt in let rest = handle_all r.0 pkts in (rest.0, r.1 ∷ rest.1)

handle_all_cons :
    (state next end : Option VideoFrame) (pkt : Packet) (pkts : List Packet) (out : List ℕ)
    (outs : List (List ℕ))
    → handle_video state pkt ≡ (next, out)
    → handle_all next pkts ≡ (end, outs)
    → handle_all state (pkt ∷ pkts) ≡ (end, out ∷ outs)
unfolding handle_all
handle_all_cons state next end pkt pkts out outs h g = rw h (rw g refl)

-- Nothing for each of the slots, and then the frame.
abbrev pub then_frame : List ℕ → List ℕ → List (List ℕ)
then_frame [] frame = frame ∷ []
then_frame (r ∷ rs) frame = [] ∷ then_frame rs frame

abbrev pub packets : ℕ → (ℕ → List ℕ) → List ℕ → List Packet
packets start piece [] = []
packets start piece (j ∷ js) = slot_packet start piece j ∷ packets start piece js

module _ (start last expected : ℕ) (piece : ℕ → List ℕ) (begins : start < 2 ^ 16)
    (small : last ≤ 128) (unmarked : (j : ℕ) → has_prefix (piece j) marker ≡ false)
    (short : length (joined piece 0 last) < expected)
    (fits : expected ≤ length (joined piece 0 (suc last))) where
  abbrev pub frame : List ℕ
  frame = take expected (joined piece 0 (suc last))

  handle_slot :
      (vf : VideoFrame) (r : ℕ)
      → handle_video (some vf) (slot_packet start piece r)
        ≡ add_packet vf ((start + r) % 2 ^ 16) (piece r) []
  unfolding handle_video handle_rest
  handle_slot vf r = rw (unmarked r) refl

  -- A slot that is to come is free.
  is_free :
      (r : ℕ) (rs : List ℕ) (vf : VideoFrame)
      → Awaits piece (suc last) (r ∷ rs) vf
      → lookup r vf.chunks ≡ none
  is_free r rs vf a =
      let e = a.holds r in
      let here : (r == r) ≡ true = (==_iff r r).1 refl in e ∙ rw here (ground arith)

  slot_waits :
      (vf : VideoFrame) (r next : ℕ) (rs : List ℕ)
      → vf.start_index ≡ start
      → vf.expected_length ≡ expected
      → IsOrder (suc last) (r ∷ next ∷ rs)
      → Awaits piece (suc last) (r ∷ next ∷ rs) vf
      → add_packet vf ((start + r) % 2 ^ 16) (piece r) [] ≡ (some (stored vf r (piece r)), [])
  unfolding stored
  slot_waits vf r next rs es ex o a =
      let index = (start + r) % 2 ^ 16 in
      let e : index_distance vf.start_index index ≡ r =
        rw es (index_distance_slot start r begins (omega (arith, o.0))) in
      let after = stored-Awaits piece (suc last) r (next ∷ rs) vf (omega arith) o a in
      let l = joined-le piece 0 next last (omega (arith, o.2.0)) in
      let waits =
        subst
          (λ s.
            s ≤ 128
            → lookup s vf.chunks ≡ none
            → ((j : ℕ) → HoldsAt piece ((s, piece s) ∷ vf.chunks) j)
            → lookup next ((s, piece s) ∷ vf.chunks) ≡ none
            → length (joined piece 0 next) < vf.expected_length
            → add_packet vf index (piece s) [] ≡ (some (stored vf s (piece s)), []))
          e (add_packet_waits vf index next piece) in
      waits (omega (arith, o.0)) (is_free r (next ∷ rs) vf a)
        (Awaits-HoldsAt piece (suc last) (next ∷ rs) (stored vf r (piece r)) after)
        (is_free next rs (stored vf r (piece r)) after) (omega (arith, l, ex))

  slot_completes :
      (vf : VideoFrame) (r : ℕ)
      → vf.start_index ≡ start
      → vf.expected_length ≡ expected
      → IsOrder (suc last) (r ∷ [])
      → Awaits piece (suc last) (r ∷ []) vf
      → handle_video (some vf) (slot_packet start piece r) ≡ (none, frame)
  slot_completes vf r es ex o a =
      let index = (start + r) % 2 ^ 16 in
      let e : index_distance vf.start_index index ≡ r =
        rw es (index_distance_slot start r begins (omega (arith, o.0))) in
      let completes =
        subst
          (λ s.
            IsAssembling vf
            → s ≤ 128
            → lookup s vf.chunks ≡ none
            → last ≡ (if ltb vf.max_slot s then s else vf.max_slot)
            → ((j : ℕ) → j ≤ last → j ≢ s → lookup j vf.chunks ≡ some (piece j))
            → vf.expected_length ≤ length (joined piece 0 (suc last))
            → add_packet vf index (piece s) []
              ≡ (none, take vf.expected_length (joined piece 0 (suc last))))
          e (add_packet_completes vf index last piece) in
      handle_slot vf r
      ∙ (completes a.assembling (omega (arith, o.0)) (is_free r [] vf a) top held
            (omega (arith, ex))
          ∙ rw ex refl)
    where
      top : last ≡ (if ltb vf.max_slot r then r else vf.max_slot)
      top = elim (Bool-cases (r == last)) [
        | inl same ↦ elim a.top [ inl z ↦ ground (arith, a.low) | inr ne ↦ ground (arith, a.low) ]
        | inr other ↦
            let e = a.reaches last (omega arith) (rw other refl) in ground (arith, e, a.low, o.0)
      ]

      held : (j : ℕ) → j ≤ last → j ≢ r → lookup j vf.chunks ≡ some (piece j)
      held j p ne =
          let e = a.holds j in
          let away : (r == j) ≡ false = elim (Bool-cases (r == j)) [
            | inl same ↦ absurd (ne (sym ((==_iff r j).0 same)))
            | inr other ↦ other
          ] in
          let below : ltb j (suc last) ≡ true = ground arith in e ∙ rw (below, away) refl

  handle_all-slots :
      (vf : VideoFrame) (r : ℕ) (rs : List ℕ)
      → vf.start_index ≡ start
      → vf.expected_length ≡ expected
      → IsOrder (suc last) (r ∷ rs)
      → Awaits piece (suc last) (r ∷ rs) vf
      → handle_all (some vf) (packets start piece (r ∷ rs)) ≡ (none, then_frame rs frame)
  unfolding handle_all stored
  handle_all-slots vf r [] es ex o a = rw (slot_completes vf r es ex o a) refl
  handle_all-slots vf r (next ∷ rs) es ex o a =
      handle_all_cons (some vf) (some (stored vf r (piece r))) none (slot_packet start piece r)
        (packets start piece (next ∷ rs)) [] (then_frame rs frame)
        (handle_slot vf r ∙ slot_waits vf r next rs es ex o a)
        (handle_all-slots (stored vf r (piece r)) next rs es ex o.2
          (stored-Awaits piece (suc last) r (next ∷ rs) vf (omega arith) o a))

  start_frame-Awaits :
      (rest : List ℕ)
      → 0 < expected
      → expected ≤ max_frame
      → ((j : ℕ) → j ≤ last → is_among j rest ≡ false → j ≡ 0)
      → Awaits piece (suc last) (0 ∷ rest) (start_frame start expected)
  unfolding start_frame lookup held
  start_frame-Awaits rest wants bounded all = record {
    assembling = record {
      wants = wants;
      bounded = bounded;
      capped = omega arith;
      counted = refl;
      within = tt;
    };
    holds = λ j. elim (Bool-cases (ltb j (suc last) && not (is_among j (0 ∷ rest)))) [
      | inr none_held ↦ rw none_held refl
      | inl left ↦ absurd (ground (arith, all j (ground arith) (ground arith)))
    ];
    reaches = λ j p q. absurd (ground (arith, all j (omega arith) (ground arith)));
    low = omega arith;
    top = inl refl;
  }

  handle_start_packet :
      (head : List ℕ) (next : ℕ) (rest : List ℕ)
      → length head ≡ 32
      → has_prefix (head ++ piece 0) marker ≡ true
      → announced_length (head ++ piece 0) ≡ expected
      → expected ≤ max_frame
      → IsOrder (suc last) (0 ∷ next ∷ rest)
      → Awaits piece (suc last) (0 ∷ next ∷ rest) (start_frame start expected)
      → handle_video none (start_packet start piece head)
        ≡ (some (stored (start_frame start expected) 0 (piece 0)), [])
  unfolding handle_video handle_start flush_frame start_frame
  handle_start_packet head next rest l m announced bounded o a =
      let long : ltb (length (head ++ piece 0)) 32 ≡ false =
        ground (arith, length-append head (piece 0)) in
      let sized : (leb expected 0 || ltb max_frame expected) ≡ false = ground arith in
      let body : drop 32 (head ++ piece 0) ≡ piece 0 =
        rw (sym l) (drop-append_self head (piece 0)) in
      let here : (start + 0) % 2 ^ 16 ≡ start = omega arith in
      let added = slot_waits (start_frame start expected) 0 next rest refl refl o a in
      rw m (rw long (rw announced (rw sized (rw body (rw here at added)))))

  -- The packets of one frame, two or more, from a session without a frame: the packet that starts
  -- it first and the others in any order, once each. Until the last they deliver nothing, and the
  -- last delivers the announced length of the pieces in slot order, and leaves no frame. The slots
  -- go up to `last`, at most 128; the first packet has the marker and 32 bytes before its piece,
  -- no other starts with the marker; and the announced length is at most 512 KiB, reached with the
  -- last slot's piece and not without it.
  pub handle_all_delivers :
      (head : List ℕ) (next : ℕ) (rest : List ℕ)
      → length head ≡ 32
      → has_prefix (head ++ piece 0) marker ≡ true
      → announced_length (head ++ piece 0) ≡ expected
      → expected ≤ max_frame
      → IsOrder (suc last) (0 ∷ next ∷ rest)
      → ((j : ℕ) → j ≤ last → is_among j (next ∷ rest) ≡ false → j ≡ 0)
      → handle_all none (start_packet start piece head ∷ packets start piece (next ∷ rest))
        ≡ (none, [] ∷ then_frame rest frame)
  unfolding start_frame stored
  handle_all_delivers head next rest l m announced bounded o all =
      let a = start_frame-Awaits (next ∷ rest) (omega arith) bounded all in
      handle_all_cons none (some (stored (start_frame start expected) 0 (piece 0))) none
        (start_packet start piece head) (packets start piece (next ∷ rest)) []
        (then_frame rest frame) (handle_start_packet head next rest l m announced bounded o a)
        (handle_all-slots (stored (start_frame start expected) 0 (piece 0)) next rest refl refl o.2
          (stored-Awaits piece (suc last) 0 (next ∷ rest) (start_frame start expected) (omega arith)
            o a))
