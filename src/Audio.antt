-- ===== src/Audio.antt =====
-- Audio in bkcam-go/main.go: `audioMediaFrame`, `parseAudioFrames`, `mediaIndexAfter`, and the audio
-- case of `handleDRW`; the decoder is in the child `Adpcm`, the WAV header in `Wav`.
pub mod Adpcm
pub mod Filter
pub mod Wav
pub mod Frames
pub mod Ending
use bk7252n_gate.Prelude.{
  ℕ, zero, suc, ◌+◌, ◌-◌, ◌%◌, ◌^◌, List, [], ◌∷◌, ◌++◌, Bool, true, false, ◌&&◌, ◌||◌, not, ltb,
  leb, ◌==◌, if◌then◌else◌, length, take, drop, get_or, has_prefix, is_empty,
}
use bk7252n_gate.Packet.Wire.{le32}
use Adpcm.{Decoder, reset, decode}

pub record MediaFrame : Type 0 where
  pub body : List ℕ  -- `data`
  pub index : ℕ  -- uint32
  pub has_index : Bool
  pub reset : Bool

abbrev pub media_header_len : ℕ
media_header_len = 32

abbrev pub media_magic : List ℕ
media_magic = 0x55 ∷ 0xaa ∷ 0x15 ∷ 0xa8 ∷ []

unfoldable pub payload_len : List ℕ → ℕ
payload_len b = le32 (get_or b 16 0) (get_or b 17 0) (get_or b 18 0) (get_or b 19 0)

-- The test that goes on with the loop of `parseAudioFrames`, over `b = raw[pos:]`.
unfoldable pub has_frame : List ℕ → Bool
unfolding payload_len
has_frame b =
    leb media_header_len (length b)
    && (has_prefix b media_magic
        && (ltb 0 (payload_len b) && leb (media_header_len + payload_len b) (length b)))

unfoldable pub first_frame : List ℕ → MediaFrame
unfolding payload_len
first_frame b = record {
  body = take (payload_len b) (drop media_header_len b);
  index = le32 (get_or b 12 0) (get_or b 13 0) (get_or b 14 0) (get_or b 15 0);
  has_index = true;
  reset = true;
}

unfoldable pub after_frame : List ℕ → List ℕ
unfolding payload_len
after_frame b = drop (media_header_len + payload_len b) b

-- The loop, on fuel: the frames and `raw[pos:]` where it stops.
unfoldable pub parse_loop : ℕ → List ℕ → List MediaFrame × List ℕ
parse_loop zero b = ([], b)
parse_loop (suc fuel) b =
    let rest = parse_loop fuel (after_frame b) in
    if has_frame b then (first_frame b ∷ rest.0, rest.1) else ([], b)

unfoldable pub parse_audio_frames : List ℕ → List MediaFrame
parse_audio_frames raw =
    let r = parse_loop (length raw) raw in
    if not (is_empty r.0) && is_empty r.1
    then r.0
    else (if has_prefix raw (0x55 ∷ 0xaa ∷ 0x15 ∷ 0xa8 ∷ 0xaa ∷ 0x01 ∷ [])
          && leb media_header_len (length raw)
        then record { body = drop media_header_len raw; index = 0; has_index = false; reset = true }
          ∷ []
        else record { body = raw; index = 0; has_index = false; reset = false } ∷ [])

unfoldable pub media_index_after : ℕ → ℕ → Bool
media_index_after index previous =
    not (index == previous) && ltb ((index + 2 ^ 32 - previous) % 2 ^ 32) (2 ^ 31)

-- `p.audio`, `p.hasAudioMediaIndex` and `p.lastAudioMediaIndex`.
pub record AudioState : Type 0 where
  pub audio : Decoder
  pub has_last : Bool
  pub last_index : ℕ  -- uint32

-- One round of the audio loop of `handleDRW`: a frame that is not after the last one is skipped.
unfoldable pub take_frame : AudioState → MediaFrame → AudioState × List ℕ
take_frame s frame =
    let start = if frame.reset then reset s.audio else s.audio in
    let r = decode start frame.body in
    if frame.has_index && (s.has_last && not (media_index_after frame.index s.last_index))
    then (s, [])
    else (if frame.has_index
        then (record { audio = r.0; has_last = true; last_index = frame.index }, r.1)
        else (record s { audio = r.0 }, r.1))

unfoldable pub take_frames : AudioState → List MediaFrame → AudioState × List ℕ
take_frames s [] = (s, [])
take_frames s (frame ∷ frames) =
    let r = take_frame s frame in let rest = take_frames r.0 frames in (rest.0, r.1 ++ rest.1)
