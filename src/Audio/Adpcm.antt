-- ===== src/Audio/Adpcm.antt =====
-- `ADPCMDecoder`: `Reset` and `Decode`. Go's `int` fields are integers: neither comes near 2 ^ 63.
pub mod Range
use bk7252n_gate.Prelude.{
  ℕ, ◌+◌, ◌-◌, ◌/◌, ◌%◌, ◌^◌, List, [], ◌∷◌, ◌++◌, bit_and, ◌==◌, if◌then◌else◌, get_or,
}
use bk7252n_gate.Prelude.Int.{ℤ, pos, negsuc, pos_part, ◌+ℤ◌, ◌-ℤ◌, ltb_ℤ}
use bk7252n_gate.Packet.Wire.{put_le16}

abbrev pub index_table : List ℤ
index_table =
    negsuc 0
    ∷ negsuc 0
    ∷ negsuc 0
    ∷ negsuc 0
    ∷ pos 2
    ∷ pos 4
    ∷ pos 6
    ∷ pos 8
    ∷ negsuc 0
    ∷ negsuc 0
    ∷ negsuc 0
    ∷ negsuc 0
    ∷ pos 2
    ∷ pos 4
    ∷ pos 6
    ∷ pos 8
    ∷ []

unfoldable pub step_table : List ℕ
step_table =
    7 ∷ 8 ∷ 9 ∷ 10 ∷ 11 ∷ 12 ∷ 13 ∷ 14 ∷ 16 ∷ 17 ∷ 19 ∷ 21 ∷ 23 ∷ 25 ∷ 28 ∷ 31 ∷ 34 ∷ 37 ∷ 41 ∷ 45
    ∷ 50 ∷ 55 ∷ 60 ∷ 66 ∷ 73 ∷ 80 ∷ 88 ∷ 97 ∷ 107 ∷ 118 ∷ 130 ∷ 143 ∷ 157 ∷ 173 ∷ 190 ∷ 209 ∷ 230
    ∷ 253 ∷ 279 ∷ 307 ∷ 337 ∷ 371 ∷ 408 ∷ 449 ∷ 494 ∷ 544 ∷ 598 ∷ 658 ∷ 724 ∷ 796 ∷ 876 ∷ 963 ∷ 1060
    ∷ 1166 ∷ 1282 ∷ 1411 ∷ 1552 ∷ 1707 ∷ 1878 ∷ 2066 ∷ 2272 ∷ 2499 ∷ 2749 ∷ 3024 ∷ 3327 ∷ 3660
    ∷ 4026 ∷ 4428 ∷ 4871 ∷ 5358 ∷ 5894 ∷ 6484 ∷ 7132 ∷ 7845 ∷ 8630 ∷ 9493 ∷ 10442 ∷ 11487 ∷ 12635
    ∷ 13899 ∷ 15289 ∷ 16818 ∷ 18500 ∷ 20350 ∷ 22385 ∷ 24623 ∷ 27086 ∷ 29794 ∷ 32767 ∷ []

pub record Decoder : Type 0 where
  pub index : ℤ
  pub val_pred : ℤ

unfoldable pub reset : Decoder → Decoder
reset d = record d { index = pos 0; val_pred = pos 0 }

-- `if x < lo { x = lo }; if x > hi { x = hi }`
abbrev pub clamp : ℤ → ℤ → ℤ → ℤ
clamp lo hi x = if ltb_ℤ x lo then lo else (if ltb_ℤ hi x then hi else x)

unfoldable pub next_index : ℤ → ℕ → ℤ
next_index index delta = clamp (pos 0) (pos 88) (index +ℤ get_or index_table delta (pos 0))

-- `vpdiff`, from the low three bits of the nibble.
unfoldable pub difference : ℕ → ℕ → ℕ
difference step delta =
    step / 2 ^ 3
    + (if bit_and delta 4 == 0 then 0 else step)
    + (if bit_and delta 2 == 0 then 0 else step / 2)
    + (if bit_and delta 1 == 0 then 0 else step / 2 ^ 2)

-- The prediction before it is clamped: bit 3 of the nibble is the sign.
unfoldable pub predict : ℤ → ℕ → ℕ → ℤ
predict val_pred step nibble =
    let vpdiff = pos (difference step (bit_and nibble 7)) in
    if bit_and nibble 8 == 0 then val_pred +ℤ vpdiff else val_pred -ℤ vpdiff

unfoldable pub next_val : ℤ → ℕ → ℕ → ℤ
next_val val_pred step nibble = clamp (negsuc 32767) (pos 32767) (predict val_pred step nibble)

-- `uint16(int16(v))`
unfoldable pub sample : ℤ → ℕ
sample (pos n) = n % 65536
sample (negsuc n) = 65535 - n % 65536

unfoldable pub decode_nibble : Decoder → ℕ → Decoder × List ℕ
unfolding put_le16
decode_nibble d nibble =
    let index' = next_index d.index nibble in
    let val' = next_val d.val_pred (get_or step_table (pos_part index') 0) nibble in
    (record { index = index'; val_pred = val' }, put_le16 (sample val'))

-- The inner loop of `Decode`: the high nibble first.
unfoldable pub decode_byte : Decoder → ℕ → Decoder × List ℕ
decode_byte d input =
    let hi = decode_nibble d (bit_and (input / 2 ^ 4) 0x0f) in
    let lo = decode_nibble hi.0 (bit_and input 0x0f) in (lo.0, hi.1 ++ lo.1)

unfoldable pub decode : Decoder → List ℕ → Decoder × List ℕ
decode d [] = (d, [])
decode d (input ∷ rest) =
    let r = decode_byte d input in let more = decode r.0 rest in (more.0, r.1 ++ more.1)
