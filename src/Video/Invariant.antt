-- ===== src/Video/Invariant.antt =====
-- The frame under assembly, packet by packet.
use bk7252n_gate.Prelude.{
  ℕ, ◌+◌, ◌≤◌, ◌<◌, ◌≡◌, refl, inl, inr, List, [], ◌∷◌, Bool, true, false, Bool-cases, Option-cases,
  Option, none, some, leb, ltb, if◌then◌else◌, length, length-take, drop, All, arith, is_empty, not,
  ◌||◌, has_prefix,
}
use Prim.Native.Nat.{zero-le}
use bk7252n_gate.Packet.{Packet}
use bk7252n_gate.Video.{
  VideoFrame, max_frame, marker, index_distance, build_video_frame, store_chunk, add_packet,
  flush_frame, announced_length, start_frame, handle_start, handle_rest, handle_video,
}
use bk7252n_gate.Video.Slots.{Chunks, lookup, held}
use bk7252n_gate.Video.Delivery.{length-IsImageIn, build_video_frame-IsDelivery}

pub record IsAssembling (vf : VideoFrame) : Type 0 where
  pub wants : 0 < vf.expected_length
  pub bounded : vf.expected_length ≤ max_frame
  pub capped : vf.max_slot ≤ 128
  pub counted : vf.received_length ≡ held vf.chunks
  pub within : All (λ c. c.0 ≤ vf.max_slot) vf.chunks

abbrev pub IsSound : Option VideoFrame → Type 0
IsSound none = Unit
IsSound (some vf) = IsAssembling vf

All-weaken : (m n : ℕ) (cs : Chunks) → m ≤ n → All (λ c. c.0 ≤ m) cs → All (λ c. c.0 ≤ n) cs
All-weaken m n [] h a = a
All-weaken m n (c ∷ cs) h a = (omega (arith, a.0), All-weaken m n cs h a.1)

unfoldable pub stored : VideoFrame → ℕ → List ℕ → VideoFrame
stored vf slot chunk = record vf {
  chunks = (slot, chunk) ∷ vf.chunks;
  received_length = vf.received_length + length chunk;
  max_slot = if ltb vf.max_slot slot then slot else vf.max_slot;
}

pub store_chunk_free :
    (vf : VideoFrame) (slot : ℕ) (chunk : List ℕ)
    → lookup slot vf.chunks ≡ none
    → store_chunk vf slot chunk ≡ stored vf slot chunk
unfolding store_chunk stored
store_chunk_free vf slot chunk e = ground arith

pub store_chunk_taken :
    (vf : VideoFrame) (slot : ℕ) (chunk : List ℕ) {old : List ℕ}
    → lookup slot vf.chunks ≡ some old
    → store_chunk vf slot chunk ≡ vf
unfolding store_chunk
store_chunk_taken vf slot chunk e = ground arith

pub stored-IsAssembling :
    (vf : VideoFrame) (slot : ℕ) (chunk : List ℕ)
    → slot ≤ 128
    → IsAssembling vf
    → IsAssembling (stored vf slot chunk)
unfolding stored held
stored-IsAssembling vf slot chunk h v = record {
  wants = v.wants;
  bounded = v.bounded;
  capped = ground arith;
  counted = omega (arith, v.counted);
  within = (ground arith, All-weaken vf.max_slot _ vf.chunks (ground arith) v.within);
}

store_chunk-IsAssembling :
    (vf : VideoFrame) (slot : ℕ) (chunk : List ℕ)
    → slot ≤ 128
    → IsAssembling vf
    → IsAssembling (store_chunk vf slot chunk)
store_chunk-IsAssembling vf slot chunk h v = elim (Option-cases (lookup slot vf.chunks)) [
  | inl free ↦ rw (store_chunk_free vf slot chunk free) (stored-IsAssembling vf slot chunk h v)
  | inr (_, taken) ↦ rw (store_chunk_taken vf slot chunk taken) v
]

build-le :
    (vf : VideoFrame) (boundary : Bool)
    → IsAssembling vf
    → length (build_video_frame vf boundary) ≤ max_frame
build-le vf boundary v = elim (build_video_frame-IsDelivery vf boundary v.wants) [
  | inl e ↦ rw e (omega arith)
  | inr (n, bytes, le, joined, inl (fits, e)) ↦
      rw e (omega (arith, v.bounded, length-take vf.expected_length bytes))
  | inr (n, bytes, le, joined, inr (b, l, all, im)) ↦ omega (arith, v.bounded, length-IsImageIn im)
]

-- A state that is sound, and a result that fits the largest frame.
abbrev pub IsSoundStep : Option VideoFrame × List ℕ → Type 0
IsSoundStep r = IsSound r.0 × (length r.1 ≤ max_frame)

add_packet-IsSound :
    (vf : VideoFrame) (index : ℕ) (payload previous : List ℕ)
    → IsAssembling vf
    → length previous ≤ max_frame
    → IsSoundStep (add_packet vf index payload previous)
unfolding add_packet
add_packet-IsSound vf index payload previous v h =
    let slot = index_distance vf.start_index index in
    let vf' = store_chunk vf slot payload in
    elim (Bool-cases (ltb 128 slot)) [
      | inl far ↦ rw far (tt, build-le vf true v)
      | inr near ↦
          let v' : IsAssembling vf' = store_chunk-IsAssembling vf slot payload (ground arith) v in
          rw near (elim (Bool-cases (not (is_empty previous))) [
            | inl ended ↦ rw ended (v', h)
            | inr fresh ↦ rw fresh (elim (Bool-cases (is_empty (build_video_frame vf' false))) [
              | inl waiting ↦ rw waiting (v', zero-le)
              | inr done ↦ rw done (tt, build-le vf' false v')
            ])
          ])
    ]

flush_frame-le :
    (state : Option VideoFrame) → IsSound state → length (flush_frame state) ≤ max_frame
unfolding flush_frame
flush_frame-le none h = zero-le
flush_frame-le (some vf) h = build-le vf true h

start_frame-IsAssembling :
    (index expected : ℕ)
    → 0 < expected
    → expected ≤ max_frame
    → IsAssembling (start_frame index expected)
unfolding start_frame held
start_frame-IsAssembling index expected h k = record {
  wants = h;
  bounded = k;
  capped = zero-le;
  counted = refl;
  within = tt;
}

handle_start-IsSound :
    (state : Option VideoFrame) (pkt : Packet)
    → IsSound state
    → IsSoundStep (handle_start state pkt)
unfolding handle_start
handle_start-IsSound state pkt h =
    let expected = announced_length pkt.payload in
    let before = flush_frame-le state h in
    elim (Bool-cases (ltb (length pkt.payload) 0x20)) [
      | inl short ↦ rw short (tt, before)
      | inr long ↦ rw long (elim (Bool-cases (leb expected 0 || ltb max_frame expected)) [
        | inl bad ↦ rw bad (tt, before)
        | inr good ↦ rw good (
            add_packet-IsSound (start_frame pkt.index expected) pkt.index (drop 0x20 pkt.payload)
              (flush_frame state)
              (start_frame-IsAssembling pkt.index expected (ground arith) (ground arith)) before)
      ])
    ]

handle_rest-IsSound :
    (state : Option VideoFrame) (pkt : Packet) → IsSound state → IsSoundStep (handle_rest state pkt)
unfolding handle_rest
handle_rest-IsSound none pkt h = (tt, zero-le)
handle_rest-IsSound (some vf) pkt h = add_packet-IsSound vf pkt.index pkt.payload [] h (zero-le)

-- A video packet, whatever its content, keeps a sound frame under assembly sound, or leaves none
-- (slots up to 128, byte count as held, announced length within 512 KiB), and yields at most 512
-- KiB.
pub handle_video-IsSound :
    (state : Option VideoFrame) (pkt : Packet)
    → IsSound state
    → IsSoundStep (handle_video state pkt)
unfolding handle_video
handle_video-IsSound state pkt h = elim (Bool-cases (has_prefix pkt.payload marker)) [
  | inl start ↦ rw start (handle_start-IsSound state pkt h)
  | inr rest ↦ rw rest (handle_rest-IsSound state pkt h)
]
