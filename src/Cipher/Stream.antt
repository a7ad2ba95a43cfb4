-- ===== src/Cipher/Stream.antt =====
-- The cipher on whole texts, both ways.
use bk7252n_gate.Prelude.{ℕ, ◌<◌, ◌≡◌, refl, ap₂, List, [], ◌∷◌, ◌++◌, All, bit_xor}
use bk7252n_gate.Prelude.Bits.{bit_xor-lt, bit_xor_cancel}
use bk7252n_gate.Cipher.{Key, mask, encrypt_from, encrypt, decrypt_from, decrypt}
use bk7252n_gate.Cipher.Table.{IsByte, key_table-IsByte}

mask-IsByte : (key : Key) (prev : ℕ) → mask key prev < 256
unfolding mask
mask-IsByte key prev = key_table-IsByte _

unmask :
    (key : Key) (prev b : ℕ) → b < 256 → bit_xor (bit_xor b (mask key prev)) (mask key prev) ≡ b
unmask key prev b h = bit_xor_cancel 8 b (mask key prev) h (mask-IsByte key prev)

decrypt_from-encrypt_from :
    (key : Key) (prev : ℕ) (buf : List ℕ)
    → All IsByte buf
    → decrypt_from key prev (encrypt_from key prev buf) ≡ buf
unfolding encrypt_from decrypt_from
decrypt_from-encrypt_from key prev [] h = refl
decrypt_from-encrypt_from key prev (b ∷ bs) h =
    ap₂ ◌∷◌ (unmask key prev b h.0)
      (decrypt_from-encrypt_from key (bit_xor b (mask key prev)) bs h.1)

encrypt_from-decrypt_from :
    (key : Key) (prev : ℕ) (buf : List ℕ)
    → All IsByte buf
    → encrypt_from key prev (decrypt_from key prev buf) ≡ buf
unfolding encrypt_from decrypt_from
encrypt_from-decrypt_from key prev [] h = refl
encrypt_from-decrypt_from key prev (b ∷ bs) h =
    rw (unmask key prev b h.0) (ap₂ ◌∷◌ refl (encrypt_from-decrypt_from key b bs h.1))

-- Decryption undoes encryption of bytes under the same key, whatever the key is.
pub decrypt-encrypt :
    (key : Key) (buf : List ℕ) → All IsByte buf → decrypt (encrypt buf key) key ≡ buf
unfolding encrypt decrypt
decrypt-encrypt key buf h = decrypt_from-encrypt_from key 0 buf h

-- Encryption undoes decryption of bytes under the same key.
encrypt-decrypt : (key : Key) (buf : List ℕ) → All IsByte buf → encrypt (decrypt buf key) key ≡ buf
unfolding encrypt decrypt
encrypt-decrypt key buf h = encrypt_from-decrypt_from key 0 buf h

decrypt_from-IsByte :
    (key : Key) (prev : ℕ) (buf : List ℕ) → All IsByte buf → All IsByte (decrypt_from key prev buf)
unfolding decrypt_from
decrypt_from-IsByte key prev [] h = h
decrypt_from-IsByte key prev (b ∷ bs) h =
    (bit_xor-lt 8 b (mask key prev) h.0 (mask-IsByte key prev), decrypt_from-IsByte key b bs h.1)

pub decrypt-IsByte : (key : Key) (buf : List ℕ) → All IsByte buf → All IsByte (decrypt buf key)
unfolding decrypt
decrypt-IsByte key buf h = decrypt_from-IsByte key 0 buf h

decrypt_from-append :
    (key : Key) (prev : ℕ) (xs : List ℕ) (y : ℕ) (ys : List ℕ)
    → decrypt_from key prev (xs ++ (y ∷ ys))
      ≡ decrypt_from key prev (xs ++ (y ∷ [])) ++ decrypt_from key y ys
unfolding decrypt_from
decrypt_from-append key prev [] y ys = refl
decrypt_from-append key prev (x ∷ xs) y ys = ap₂ ◌∷◌ refl (decrypt_from-append key x xs y ys)

-- What follows a received byte `y` decrypts from `y` and itself alone, whatever came before: the
-- plain text of the datagram is that of the part up to `y`, then a text that depends on `y` and `ys`.
decrypt-append :
    (key : Key) (xs : List ℕ) (y : ℕ) (ys : List ℕ)
    → decrypt (xs ++ (y ∷ ys)) key ≡ decrypt (xs ++ (y ∷ [])) key ++ decrypt_from key y ys
unfolding decrypt
decrypt-append key xs y ys = decrypt_from-append key 0 xs y ys
