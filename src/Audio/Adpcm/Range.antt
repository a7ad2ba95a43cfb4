-- ===== src/Audio/Adpcm/Range.antt =====
-- The range of the decoder, and its output by length and by parts.
use bk7252n_gate.Prelude.{
  ℕ, ◌+◌, ◌*◌, ◌<◌, ◌≡◌, refl, sym, ◌∙◌, ◌⊎◌, List, [], ◌∷◌, ◌++◌, length, length-append, arith,
  get_or,
}
use mathlib.Core.List.{append_assoc}
use bk7252n_gate.Prelude.Int.{ℤ, pos, negsuc, pos_part, neg_part, ◌≤ℤ◌, ◌+ℤ◌}
use bk7252n_gate.Packet.Wire.{put_le16}
use bk7252n_gate.Audio.Adpcm.{
  Decoder, index_table, clamp, predict, next_index, next_val, step_table, sample, decode_nibble,
  decode_byte, decode,
}

pub record IsDecoder (d : Decoder) : Type 0 where
  pub index_low : pos 0 ≤ℤ d.index
  pub index_high : d.index ≤ℤ pos 88
  pub val_low : negsuc 32767 ≤ℤ d.val_pred
  pub val_high : d.val_pred ≤ℤ pos 32767

clamp_bounds : (lo hi x : ℤ) → lo ≤ℤ hi → (lo ≤ℤ clamp lo hi x) × (clamp lo hi x ≤ℤ hi)
clamp_bounds lo hi x h = ground arith

next_index_bounds :
    (index : ℤ) (delta : ℕ) → (pos 0 ≤ℤ next_index index delta) × (next_index index delta ≤ℤ pos 88)
unfolding next_index
next_index_bounds index delta =
    clamp_bounds (pos 0) (pos 88) (index +ℤ get_or index_table delta (pos 0)) (omega arith)

next_val_bounds :
    (val : ℤ) (step nibble : ℕ)
    → (negsuc 32767 ≤ℤ next_val val step nibble) × (next_val val step nibble ≤ℤ pos 32767)
unfolding next_val
next_val_bounds val step nibble =
    clamp_bounds (negsuc 32767) (pos 32767) (predict val step nibble) (omega arith)

decode_nibble-IsDecoder : (d : Decoder) (nibble : ℕ) → IsDecoder (decode_nibble d nibble).0
unfolding decode_nibble
decode_nibble-IsDecoder d nibble =
    let i = next_index_bounds d.index nibble in
    let v =
      next_val_bounds d.val_pred (get_or step_table (pos_part (next_index d.index nibble)) 0)
        nibble in
    record { index_low = i.0; index_high = i.1; val_low = v.0; val_high = v.1 }

-- From any decoder in range, any input leaves the decoder in range: the step index within the 89
-- steps of the table and the prediction within 16 signed bits.
pub decode-IsDecoder : (d : Decoder) (input : List ℕ) → IsDecoder d → IsDecoder (decode d input).0
unfolding decode decode_byte
decode-IsDecoder d [] h = h
decode-IsDecoder d (b ∷ bs) h =
    decode-IsDecoder (decode_byte d b).0 bs (decode_nibble-IsDecoder _ _)

length-decode_byte : (d : Decoder) (b : ℕ) → length (decode_byte d b).1 ≡ 4
unfolding decode_byte decode_nibble put_le16
length-decode_byte d b = refl

-- Every input byte gives two samples of two bytes.
length-decode : (d : Decoder) (input : List ℕ) → length (decode d input).1 ≡ 4 * length input
unfolding decode
length-decode d [] = refl
length-decode d (b ∷ bs) = omega (
  arith,
  length-append (decode_byte d b).1 (decode (decode_byte d b).0 bs).1,
  length-decode_byte d b,
  length-decode (decode_byte d b).0 bs,
)

-- Decoding two stretches of input one after the other is decoding them together.
decode-append :
    (d : Decoder) (xs ys : List ℕ)
    → decode d (xs ++ ys)
      ≡ ((decode (decode d xs).0 ys).0, (decode d xs).1 ++ (decode (decode d xs).0 ys).1)
unfolding decode
decode-append d [] ys = refl
decode-append d (b ∷ bs) ys =
    let r = decode_byte d b in
    let ih = decode-append r.0 bs ys in
    (λ i. ((ih i).0, r.1 ++ (ih i).1)) ∙ λ i. (
      (decode (decode r.0 bs).0 ys).0,
      sym (append_assoc r.1 (decode r.0 bs).1 (decode (decode r.0 bs).0 ys).1) i,
    )

-- The 16-bit pattern of a value in range stands for that value.
pub sample_signed :
    (v : ℤ)
    → negsuc 32767 ≤ℤ v
    → v ≤ℤ pos 32767
    → (sample v < 65536)
      × ((sample v + neg_part v ≡ pos_part v) ⊎ (sample v + neg_part v ≡ pos_part v + 65536))
unfolding sample
sample_signed (pos n) l h = omega arith
sample_signed (negsuc n) l h = omega arith
