-- ===== src/Video.antt =====
-- Reassembly of video frames in bkcam-go/main.go: `videoFrame`, `handleVideo`, `buildVideoFrame`,
-- `trimCompleteJPEG` and `indexDistance`. The slice results `nil` and empty are both `[]`: every
-- caller tests the length only. The map `chunks` is an association list.
pub mod Jpeg
pub mod Slots
pub mod Delivery
pub mod Invariant
pub mod Assembly
pub mod Waiting
pub mod Awaits
pub mod AnyOrder
use bk7252n_gate.Prelude.{
  ℕ, zero, suc, ◌+◌, ◌-◌, ◌*◌, ◌%◌, ◌^◌, List, [], ◌∷◌, ◌++◌, Bool, true, false, ◌&&◌, ◌||◌, not,
  Option, none, some, ltb, leb, ◌==◌, if◌then◌else◌, length, take, drop, get_or, has_prefix,
  is_empty,
}
use bk7252n_gate.Packet.{Packet}
use bk7252n_gate.Packet.Wire.{le32}
use Jpeg.{trim_complete_jpeg}
use Slots.{Chunks, lookup}

pub record VideoFrame : Type 0 where
  pub start_index : ℕ  -- uint16
  pub expected_length : ℕ
  pub received_length : ℕ
  pub max_slot : ℕ
  pub chunks : Chunks

abbrev pub max_frame : ℕ
max_frame = 512 * 1024

-- `(uint32(current) - uint32(start) + 65536) % 65536`; the first difference wraps modulo 2 ^ 32.
unfoldable pub index_distance : ℕ → ℕ → ℕ
index_distance start current = ((current + 2 ^ 32 - start) % 2 ^ 32 + 65536) % 2 ^ 32 % 65536

-- The loop of `buildVideoFrame` from slot `i`, with `left` rounds left; `none` is its `return nil`.
unfoldable pub collect : Chunks → ℕ → ℕ → ℕ → List ℕ → ℕ → Option (List ℕ)
collect chunks expected zero i out total = some out
collect chunks expected (suc left) i out total = elim (lookup i chunks) [
  | none ↦ none
  | some chunk ↦
      let rest = collect chunks expected left (i + 1) (out ++ chunk) (total + length chunk) in
      if leb expected (total + length chunk) then some (out ++ chunk) else rest
]

-- What `buildVideoFrame` does after its loop.
unfoldable pub finish_frame : ℕ → Bool → List ℕ → List ℕ
finish_frame expected allow_boundary_complete out =
    let out' = if leb expected (length out) then take expected out else out in
    if leb expected (length out) && not (is_empty out')
    then out'
    else (if allow_boundary_complete then trim_complete_jpeg out' else [])

unfoldable pub build_video_frame : VideoFrame → Bool → List ℕ
build_video_frame vf allow_boundary_complete =
    elim (collect vf.chunks vf.expected_length (suc vf.max_slot) 0 [] 0) [
      | none ↦ []
      | some out ↦ finish_frame vf.expected_length allow_boundary_complete out
    ]

abbrev pub marker : List ℕ
marker = 0x55 ∷ 0xaa ∷ 0x15 ∷ 0xa8 ∷ 0x03 ∷ 0x00 ∷ []

-- `vf.chunks[slot] = data` with the two counters, unless the slot is taken.
unfoldable pub store_chunk : VideoFrame → ℕ → List ℕ → VideoFrame
store_chunk vf slot chunk = elim (lookup slot vf.chunks) [
  | some _ ↦ vf
  | none ↦ record vf {
    chunks = (slot, chunk) ∷ vf.chunks;
    received_length = vf.received_length + length chunk;
    max_slot = if ltb vf.max_slot slot then slot else vf.max_slot;
  }
]

-- `handleVideo` from the point where `p.videoFrame` is set: the new frame state and the result.
-- `previous` is the frame that a start packet has ended.
unfoldable pub add_packet : VideoFrame → ℕ → List ℕ → List ℕ → Option VideoFrame × List ℕ
add_packet vf index payload previous =
    let slot = index_distance vf.start_index index in
    let vf' = store_chunk vf slot payload in
    let out = build_video_frame vf' false in
    if ltb 128 slot
    then (none, build_video_frame vf true)
    else (if not (is_empty previous)
        then (some vf', previous)
        else (if is_empty out then (some vf', []) else (none, out)))

-- What an unfinished frame gives when a new start packet arrives.
unfoldable pub flush_frame : Option VideoFrame → List ℕ
flush_frame none = []
flush_frame (some vf) = build_video_frame vf true

-- `expected` of a start packet.
unfoldable pub announced_length : List ℕ → ℕ
announced_length b = le32 (get_or b 16 0) (get_or b 17 0) (get_or b 18 0) (get_or b 19 0)

unfoldable pub start_frame : ℕ → ℕ → VideoFrame
start_frame index expected = record {
  start_index = index;
  expected_length = expected;
  received_length = 0;
  max_slot = 0;
  chunks = [];
}

-- A start packet.
unfoldable pub handle_start : Option VideoFrame → Packet → Option VideoFrame × List ℕ
handle_start state pkt =
    let previous = flush_frame state in
    let expected = announced_length pkt.payload in
    if ltb (length pkt.payload) 0x20
    then (none, previous)
    else (if leb expected 0 || ltb max_frame expected
        then (none, previous)
        else add_packet (start_frame pkt.index expected) pkt.index (drop 0x20 pkt.payload) previous)

-- A packet that continues a frame, or belongs to none.
unfoldable pub handle_rest : Option VideoFrame → Packet → Option VideoFrame × List ℕ
handle_rest none pkt = (none, [])
handle_rest (some vf) pkt = add_packet vf pkt.index pkt.payload []

unfoldable pub handle_video : Option VideoFrame → Packet → Option VideoFrame × List ℕ
handle_video state pkt =
    if has_prefix pkt.payload marker then handle_start state pkt else handle_rest state pkt
