-- ===== src/Packet/Wire.antt =====
-- encoding/binary: the integers of 16 and 32 bits in their two byte orders.
use bk7252n_gate.Prelude.{ℕ, ◌+◌, ◌*◌, ◌/◌, ◌%◌, ◌^◌, ◌<◌, ◌≡◌, List, [], ◌∷◌, arith}

abbrev pub be16 : ℕ → ℕ → ℕ
be16 hi lo = hi * 256 + lo

unfoldable pub put_be16 : ℕ → List ℕ
put_be16 n = (n / 256 % 256) ∷ (n % 256) ∷ []

abbrev pub le32 : ℕ → ℕ → ℕ → ℕ → ℕ
le32 a b c d = a + 256 * b + 65536 * c + 16777216 * d

unfoldable pub put_le32 : ℕ → List ℕ
put_le32 n = (n % 256) ∷ (n / 256 % 256) ∷ (n / 65536 % 256) ∷ (n / 16777216 % 256) ∷ []

unfoldable pub put_le16 : ℕ → List ℕ
put_le16 n = (n % 256) ∷ (n / 256 % 256) ∷ []

pub be16_digits : (n : ℕ) → n < 2 ^ 16 → be16 (n / 256 % 256) (n % 256) ≡ n
be16_digits n h = omega arith

pub le32_digits :
    (n : ℕ) → n < 2 ^ 32 → le32 (n % 256) (n / 256 % 256) (n / 65536 % 256) (n / 16777216 % 256) ≡ n
le32_digits n h = omega arith
