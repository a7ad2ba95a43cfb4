-- ===== src/Examples/Media.antt =====
-- Video and audio on concrete payloads.
use bk7252n_gate.Prelude.{
  ◌++◌, has_prefix, ℕ, zero, suc, ◌+◌, ◌*◌, ◌≤◌, ◌≡◌, refl, ◌⊎◌, List, [], ◌∷◌, none, some, true,
  false, arith, length, ◌≢◌,
}
use bk7252n_gate.Prelude.Int.{pos}
use bk7252n_gate.Packet.{Packet, msg_drw}
use bk7252n_gate.Video.{marker, VideoFrame, announced_length, build_video_frame, handle_video}
use bk7252n_gate.Video.AnyOrder.{handle_all, start_packet, packets, handle_all_delivers}
use bk7252n_gate.Video.Slots.{lookup, held}
use bk7252n_gate.Video.Jpeg.{trim_complete_jpeg, IsImageIn, trim_complete_jpeg-IsImageIn}
use bk7252n_gate.Video.Delivery.{IsDelivery, build_video_frame-IsDelivery}
use bk7252n_gate.Video.Invariant.{IsAssembling, IsSoundStep, handle_video-IsSound}
use bk7252n_gate.Audio.Ending.{parse_loop-stops}
use bk7252n_gate.Audio.{has_frame, parse_loop, parse_audio_frames}
use bk7252n_gate.Audio.Frames.{
  SentFrame, encode_frames, media_frame, parse_audio_frames-encode_frames,
}
use bk7252n_gate.Audio.Adpcm.{Decoder, decode}
use bk7252n_gate.Audio.Adpcm.Range.{IsDecoder, decode-IsDecoder}

-- A frame of six bytes whose slots 0 and 2 are held.
abbrev gap : VideoFrame
gap = record {
  start_index = 65535;
  expected_length = 6;
  received_length = 4;
  max_slot = 2;
  chunks = (2, 5 ∷ 6 ∷ []) ∷ (0, 1 ∷ 2 ∷ []) ∷ [];
}

abbrev pieces : ℕ → List ℕ
pieces i = (2 * i + 1) ∷ (2 * i + 2) ∷ []

gap-IsAssembling : IsAssembling gap
unfolding held
gap-IsAssembling = record {
  wants = omega arith;
  bounded = omega arith;
  capped = omega arith;
  counted = refl;
  within = (omega arith, (omega arith, tt));
}

gap_held : (j : ℕ) → j ≤ 2 → j ≢ 1 → lookup j gap.chunks ≡ some (pieces j)
unfolding lookup
gap_held zero p q = refl
gap_held (suc zero) p q = absurd (q refl)
gap_held (suc (suc zero)) p q = refl
gap_held (suc (suc (suc j))) p q = absurd (omega arith)

abbrev continuing : Packet
continuing = record { type = msg_drw; size = 6; channel = 1; index = 0; payload = 3 ∷ 4 ∷ [] }

-- The packet between the held slots, as it comes.
handle_video-IsSound_example : IsSoundStep (handle_video (some gap) continuing)
handle_video-IsSound_example = handle_video-IsSound (some gap) continuing gap-IsAssembling

-- The frame once its gap is filled.
abbrev no_gap : VideoFrame
no_gap = record gap { chunks = (1, 3 ∷ 4 ∷ []) ∷ gap.chunks }

build_video_frame-IsDelivery_example : IsDelivery no_gap true (build_video_frame no_gap true)
build_video_frame-IsDelivery_example = build_video_frame-IsDelivery no_gap true (omega arith)

-- A byte before the image and one behind it.
abbrev image : List ℕ
image = 7 ∷ 0xff ∷ 0xd8 ∷ 1 ∷ 0xff ∷ 0xd9 ∷ 9 ∷ []

trim_complete_jpeg-IsImageIn_example :
    (trim_complete_jpeg image ≡ []) ⊎ IsImageIn image (trim_complete_jpeg image)
trim_complete_jpeg-IsImageIn_example = trim_complete_jpeg-IsImageIn image

abbrev one : SentFrame
one = record { fill = λ i. i; index = 70000; body = 1 ∷ 2 ∷ 3 ∷ [] }

abbrev two : SentFrame
two = record { fill = λ i. 0; index = 70001; body = 4 ∷ [] }

-- Two frames in one payload.
parse_audio_frames-encode_frames_example :
    parse_audio_frames (encode_frames (one ∷ two ∷ []))
    ≡ media_frame 70000 (1 ∷ 2 ∷ 3 ∷ []) ∷ media_frame 70001 (4 ∷ []) ∷ []
parse_audio_frames-encode_frames_example =
    parse_audio_frames-encode_frames one (two ∷ [])
      ((omega arith, omega arith, omega arith), ((omega arith, omega arith, omega arith), tt))

abbrev fresh : Decoder
fresh = record { index = pos 0; val_pred = pos 0 }

fresh-IsDecoder : IsDecoder fresh
fresh-IsDecoder = record {
  index_low = omega arith;
  index_high = omega arith;
  val_low = omega arith;
  val_high = omega arith;
}

-- The loudest input from silence.
decode-IsDecoder_example : IsDecoder (decode fresh (0x77 ∷ 0x77 ∷ 0xff ∷ [])).0
decode-IsDecoder_example = decode-IsDecoder fresh (0x77 ∷ 0x77 ∷ 0xff ∷ []) fresh-IsDecoder

two_frames : length (encode_frames (one ∷ two ∷ [])) ≤ 68
two_frames = omega arith

-- Two frames, with the fuel that they need and with more.
parse_loop-stops_example :
    let b = encode_frames (one ∷ two ∷ []) in
    (has_frame (parse_loop 68 b).1 ≡ false) × (parse_loop 100 b ≡ parse_loop 68 b)
parse_loop-stops_example =
    parse_loop-stops 68 100 (encode_frames (one ∷ two ∷ [])) two_frames (omega (arith, two_frames))

-- The 32 bytes before the first piece of a frame of six bytes.
abbrev opening : List ℕ
opening =
    0x55 ∷ 0xaa ∷ 0x15 ∷ 0xa8 ∷ 3 ∷ 0 ∷ 0 ∷ 0 ∷ 0 ∷ 0 ∷ 0 ∷ 0 ∷ 0 ∷ 0 ∷ 0 ∷ 0 ∷ 6 ∷ 0 ∷ 0 ∷ 0 ∷ 0
    ∷ 0 ∷ 0 ∷ 0 ∷ 0 ∷ 0 ∷ 0 ∷ 0 ∷ 0 ∷ 0 ∷ 0 ∷ 0 ∷ []

opening_length : announced_length (opening ++ pieces 0) ≡ 6
unfolding announced_length
opening_length = refl

unmarked : (j : ℕ) → has_prefix (pieces j) marker ≡ false
unfolding has_prefix
unmarked j = ground arith

-- The last packet of a frame whose indices wrap comes before the one in the middle.
handle_all_delivers_example :
    handle_all none (start_packet 65535 pieces opening ∷ packets 65535 pieces (2 ∷ 1 ∷ []))
    ≡ (none, [] ∷ [] ∷ (1 ∷ 2 ∷ 3 ∷ 4 ∷ 5 ∷ 6 ∷ []) ∷ [])
unfolding has_prefix
handle_all_delivers_example =
    handle_all_delivers 65535 2 6 pieces (omega arith) (omega arith) unmarked (omega arith)
      (omega arith) opening 2 (1 ∷ []) refl refl opening_length (omega arith)
      (omega arith, refl, (omega arith, refl, (omega arith, refl, tt))) (λ j p q. ground arith)
