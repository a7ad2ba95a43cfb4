-- ===== src/Audio/Frames.antt =====
-- Splitting an audio payload into media frames, and the order of their indices.
use bk7252n_gate.Prelude.{
  ℕ, zero, suc, ◌+◌, ◌/◌, ◌%◌, ◌^◌, ◌≤◌, ◌<◌, ◌≡◌, refl, ap, ◌∙◌, List, [], ◌∷◌, ◌++◌, true, false,
  length, length-append, drop-append_self, drop_add, take-append_self, All, arith, has_prefix, take,
  is_empty,
}
use bk7252n_gate.Packet.Wire.{le32_digits}
use bk7252n_gate.Audio.{
  media_header_len, MediaFrame, payload_len, has_frame, first_frame, after_frame, parse_loop,
  parse_audio_frames, media_index_after,
}

-- Of two 32-bit indices, if the first comes after the second, the second does not come after the
-- first.
media_index_after_asym :
    (a b : ℕ)
    → a < 2 ^ 32
    → b < 2 ^ 32
    → media_index_after a b ≡ true
    → media_index_after b a ≡ false
unfolding media_index_after
media_index_after_asym a b ha hb h = ground arith

-- From a 32-bit index, an index 1 to 2 ^ 31 - 1 steps ahead comes after it, across the wrap of
-- the counter.
media_index_after_ahead :
    (a k : ℕ) → a < 2 ^ 32 → 0 < k → k < 2 ^ 31 → media_index_after ((a + k) % 2 ^ 32) a ≡ true
unfolding media_index_after
media_index_after_ahead a k ha h0 h = ground arith

-- A media frame on the wire; `fill` gives the bytes of the header that are not read, by position.
abbrev pub encode_frame : (ℕ → ℕ) → ℕ → List ℕ → List ℕ
encode_frame fill index body =
    0x55
    ∷ 0xaa
    ∷ 0x15
    ∷ 0xa8
    ∷ fill 4
    ∷ fill 5
    ∷ fill 6
    ∷ fill 7
    ∷ fill 8
    ∷ fill 9
    ∷ fill 10
    ∷ fill 11
    ∷ (index % 256)
    ∷ (index / 256 % 256)
    ∷ (index / 65536 % 256)
    ∷ (index / 16777216 % 256)
    ∷ (length body % 256)
    ∷ (length body / 256 % 256)
    ∷ (length body / 65536 % 256)
    ∷ (length body / 16777216 % 256)
    ∷ fill 20
    ∷ fill 21
    ∷ fill 22
    ∷ fill 23
    ∷ fill 24
    ∷ fill 25
    ∷ fill 26
    ∷ fill 27
    ∷ fill 28
    ∷ fill 29
    ∷ fill 30
    ∷ fill 31
    ∷ body

abbrev pub media_frame : ℕ → List ℕ → MediaFrame
media_frame index body = record { body = body; index = index; has_index = true; reset = true }

payload_len_frame :
    (fill : ℕ → ℕ) (index : ℕ) (body rest : List ℕ)
    → length body < 2 ^ 32
    → payload_len (encode_frame fill index body ++ rest) ≡ length body
unfolding payload_len
payload_len_frame fill index body rest h = le32_digits (length body) h

module _ (fill : ℕ → ℕ) (index : ℕ) (body rest : List ℕ) (hl : length body < 2 ^ 32) where
  has_frame_frame : 0 < length body → has_frame (encode_frame fill index body ++ rest) ≡ true
  unfolding has_frame has_prefix
  has_frame_frame h =
      ground (arith, length-append body rest, payload_len_frame fill index body rest hl)

  first_frame_frame :
      index < 2 ^ 32 → first_frame (encode_frame fill index body ++ rest) ≡ media_frame index body
  unfolding first_frame
  first_frame_frame h = λ i. record {
    body =
        (ap (λ n. take n (body ++ rest)) (payload_len_frame fill index body rest hl)
            ∙ take-append_self body rest)
          i;
    index = le32_digits index h i;
    has_index = true;
    reset = true;
  }

  after_frame_frame : after_frame (encode_frame fill index body ++ rest) ≡ rest
  unfolding after_frame
  after_frame_frame =
      drop_add 32 (length body)
        (media_header_len + payload_len (encode_frame fill index body ++ rest))
        (encode_frame fill index body ++ rest)
        (omega (arith, payload_len_frame fill index body rest hl))
      ∙ drop-append_self body rest

  parse_loop_frame :
      (fuel : ℕ)
      → index < 2 ^ 32
      → 0 < length body
      → parse_loop (suc fuel) (encode_frame fill index body ++ rest)
        ≡ (media_frame index body ∷ (parse_loop fuel rest).0, (parse_loop fuel rest).1)
  unfolding parse_loop
  parse_loop_frame fuel hi h0 =
      rw (has_frame_frame h0) (rw (first_frame_frame hi) (rw after_frame_frame refl))

-- A frame to send: the unread header bytes, the index and the body.
pub record SentFrame : Type 0 where
  pub fill : ℕ → ℕ
  pub index : ℕ
  pub body : List ℕ

abbrev pub IsSendable : SentFrame → Type 0
IsSendable f = (f.index < 2 ^ 32) × (0 < length f.body) × (length f.body < 2 ^ 32)

abbrev pub encode_frames : List SentFrame → List ℕ
encode_frames [] = []
encode_frames (f ∷ fs) = encode_frame f.fill f.index f.body ++ encode_frames fs

abbrev pub media_frames : List SentFrame → List MediaFrame
media_frames [] = []
media_frames (f ∷ fs) = media_frame f.index f.body ∷ media_frames fs

parse_loop-encode_frames :
    (fuel : ℕ) (fs : List SentFrame)
    → length fs ≤ fuel
    → All IsSendable fs
    → parse_loop fuel (encode_frames fs) ≡ (media_frames fs, [])
parse_loop-encode_frames zero [] h s = unfold parse_loop in refl
parse_loop-encode_frames zero (f ∷ fs) h s = absurd (omega arith)
parse_loop-encode_frames (suc fuel) [] h s = unfold parse_loop has_frame in refl
parse_loop-encode_frames (suc fuel) (f ∷ fs) h s =
    parse_loop_frame f.fill f.index f.body (encode_frames fs) s.0.2 fuel s.0.0 s.0.1
    ∙ ap (λ r. (media_frame f.index f.body ∷ r.0, r.1))
        (parse_loop-encode_frames fuel fs (omega arith) s.1)

length-encode_frames : (fs : List SentFrame) → length fs ≤ length (encode_frames fs)
length-encode_frames [] = omega arith
length-encode_frames (f ∷ fs) =
    omega (arith, length-append f.body (encode_frames fs), length-encode_frames fs)

-- One or more media frames on the wire, with indices of 32 bits and bodies of 1 to 2 ^ 32 - 1
-- bytes, parse to exactly those frames, whatever the unread header bytes hold.
pub parse_audio_frames-encode_frames :
    (f : SentFrame) (fs : List SentFrame)
    → All IsSendable (f ∷ fs)
    → parse_audio_frames (encode_frames (f ∷ fs)) ≡ media_frames (f ∷ fs)
unfolding parse_audio_frames
parse_audio_frames-encode_frames f fs s =
    rw (parse_loop-encode_frames _ (f ∷ fs) (length-encode_frames (f ∷ fs)) s, parse_audio_frames)
      (unfold is_empty in refl)
