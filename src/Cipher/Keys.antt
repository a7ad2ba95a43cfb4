-- ===== src/Cipher/Keys.antt =====
-- What `keyFromPSK` keeps of the pre-shared key.
use mathlib.Core.List.{Permᴰ}
use bk7252n_gate.Prelude.{
  ℕ, ◌+◌, ◌-◌, ◌/◌, ◌%◌, ◌<◌, ◌≡◌, refl, ap, ap₂, ◌∙◌, [], ◌∷◌, All, Text, arith,
}
use bk7252n_gate.Prelude.Bits.{bit_xor-lt, bit_xor_swap}
use bk7252n_gate.Cipher.{Key, key_round, key_from, key_from_psk}
use bk7252n_gate.Cipher.Table.{IsByte}

pub record IsKey (key : Key) : Type 0 where
  pub byte0 : key.k0 < 256
  pub byte1 : key.k1 < 256
  pub byte2 : key.k2 < 256
  pub byte3 : key.k3 < 256
  pub opposite : (key.k0 + key.k1) % 256 ≡ 0

key_round-IsKey : (key : Key) (ch : ℕ) → ch < 256 → IsKey key → IsKey (key_round key ch)
unfolding key_round
key_round-IsKey key ch h k = record {
  byte0 = omega arith;
  byte1 = omega arith;
  byte2 = omega arith;
  byte3 = bit_xor-lt 8 key.k3 ch k.byte3 h;
  opposite = omega arith;
}

key_from-IsKey : (key : Key) (s : Text) → All IsByte s → IsKey key → IsKey (key_from key s)
unfolding key_from
key_from-IsKey key [] h k = k
key_from-IsKey key (ch ∷ s) h k =
    key_from-IsKey (key_round key ch) s h.1 (key_round-IsKey key ch h.0 k)

-- The key of any PSK of bytes has four bytes, and the second is the opposite of the first modulo
-- 256.
key_from_psk-IsKey : (psk : Text) → All IsByte psk → IsKey (key_from_psk psk)
unfolding key_from_psk
key_from_psk-IsKey psk h = key_from-IsKey _ psk h (omega arith)

key_round_swap :
    (key : Key) (a b : ℕ)
    → IsKey key
    → a < 256
    → b < 256
    → key_round (key_round key a) b ≡ key_round (key_round key b) a
unfolding key_round
key_round_swap key a b k p q =
    λ i. record { k0 = e0 i; k1 = e1 i; k2 = e2 i; k3 = bit_xor_swap 8 key.k3 a b k.byte3 p q i }
  where
    e0 : ((key.k0 + a) % 256 + b) % 256 ≡ ((key.k0 + b) % 256 + a) % 256
    e0 = omega arith

    e1 : ((key.k1 + 256 - a) % 256 + 256 - b) % 256 ≡ ((key.k1 + 256 - b) % 256 + 256 - a) % 256
    e1 = omega arith

    e2 : ((key.k2 + a / 3) % 256 + b / 3) % 256 ≡ ((key.k2 + b / 3) % 256 + a / 3) % 256
    e2 = omega arith

All-perm : {s t : Text} → Permᴰ s t → All IsByte s → All IsByte t
All-perm Permᴰ.nil h = h
All-perm (Permᴰ.cons e p) h = (rw (← e) h.0, All-perm p h.1)
All-perm (Permᴰ.swap e f) h = (rw (← f) h.1.0, (rw (← e) h.0, h.1.1))
All-perm (Permᴰ.trans p q) h = All-perm q (All-perm p h)

key_from-perm :
    {s t : Text}
    → Permᴰ s t
    → (key : Key) → IsKey key
    → All IsByte s
    → key_from key s ≡ key_from key t
unfolding key_from
key_from-perm Permᴰ.nil key k h = refl
key_from-perm (Permᴰ.cons {a = a} {b = b} {l₂ = t} e p) key k h =
    key_from-perm p (key_round key a) (key_round-IsKey key a h.0 k) h.1
    ∙ ap (λ c. key_from (key_round key c) t) e
key_from-perm (Permᴰ.swap {a = a} {b = b} {l = t} e f) key k h =
    ap (λ r. key_from r t) (key_round_swap key a b k h.0 h.1.0)
    ∙ ap₂ (λ x y. key_from (key_round (key_round key x) y) t) f e
key_from-perm (Permᴰ.trans p q) key k h =
    key_from-perm p key k h ∙ key_from-perm q key k (All-perm p h)

-- Two PSKs of the same bytes in another order give the same key.
pub key_from_psk-perm : {s t : Text} → Permᴰ s t → All IsByte s → key_from_psk s ≡ key_from_psk t
unfolding key_from_psk
key_from_psk-perm p h = key_from-perm p _ (omega arith) h
