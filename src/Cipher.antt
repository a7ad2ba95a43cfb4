-- ===== src/Cipher.antt =====
-- The packet cipher of bkcam-go/main.go: `keyTable`, `keyFromPSK`, `encrypt`, `decrypt` and
-- `decryptInto`. A byte is a number below 256, `[]byte` a list of them, `[4]byte` a record.
pub mod Table
pub mod Stream
pub mod Keys
use bk7252n_gate.Prelude.{
  ℕ, zero, suc, ◌+◌, ◌-◌, ◌/◌, ◌%◌, List, [], ◌∷◌, bit_and, bit_xor, Text, get_or,
}
use Table.{key_table}

pub record Key : Type 0 where
  pub k0 : ℕ
  pub k1 : ℕ
  pub k2 : ℕ
  pub k3 : ℕ

-- `key[i]`, read at `prev & 3` only.
unfoldable pub key_at : Key → ℕ → ℕ
key_at key zero = key.k0
key_at key (suc zero) = key.k1
key_at key (suc (suc zero)) = key.k2
key_at key (suc (suc (suc _))) = key.k3

-- The table entry that masks the byte after the cipher byte `prev`.
unfoldable pub mask : Key → ℕ → ℕ
unfolding key_at
mask key prev = get_or key_table ((key_at key (bit_and prev 3) + prev) % 256) 0

unfoldable pub encrypt_from : Key → ℕ → List ℕ → List ℕ
encrypt_from key prev [] = []
encrypt_from key prev (b ∷ bs) = let v = bit_xor b (mask key prev) in v ∷ encrypt_from key v bs

unfoldable pub encrypt : List ℕ → Key → List ℕ
unfolding encrypt_from
encrypt buf key = encrypt_from key 0 buf

-- The loop of `decryptInto`: the byte that came in, not the one that goes out, is the next `prev`.
unfoldable pub decrypt_from : Key → ℕ → List ℕ → List ℕ
decrypt_from key prev [] = []
decrypt_from key prev (b ∷ bs) = bit_xor b (mask key prev) ∷ decrypt_from key b bs

unfoldable pub decrypt : List ℕ → Key → List ℕ
unfolding decrypt_from
decrypt buf key = decrypt_from key 0 buf

-- One round of `keyFromPSK`. `(x - ch) & 0xff` on an int is the remainder by 256, which `+ 256` gives.
unfoldable pub key_round : Key → ℕ → Key
key_round key ch = record {
  k0 = (key.k0 + ch) % 256;
  k1 = (key.k1 + 256 - ch) % 256;
  k2 = (key.k2 + ch / 3) % 256;
  k3 = bit_xor key.k3 ch;
}

unfoldable pub key_from : Key → Text → Key
unfolding key_round
key_from key [] = key
key_from key (ch ∷ s) = key_from (key_round key ch) s

unfoldable pub key_from_psk : Text → Key
unfolding key_from
key_from_psk psk = key_from (record { k0 = 0; k1 = 0; k2 = 0; k3 = 0 }) psk
