-- ===== src/Prelude/Bits.antt =====
-- Exclusive or: the law of the lowest digit, its self-inverse law and its range.
use Prim.Native.Nat.{
  ℕ, zero, suc, ◌+◌, ◌*◌, ◌/◌, ◌%◌, ◌^◌, ◌≤◌, ◌<◌, bit_xor, digits, differ, bit_xor-bitwise,
}
use mathlib.Core.Path.{◌≡◌, refl}
use native.Mathlib.Nat.{pow-suc}
use native.Mathlib.Omega.{arith}

abbrev xor_digits : ℕ → ℕ → ℕ → ℕ
xor_digits n a b = digits (λ b. b) differ n a b

xor_digits_fuel : (n m a b : ℕ) → a ≤ n → a ≤ m → xor_digits n a b ≡ xor_digits m a b
xor_digits_fuel zero zero a b p q = refl
xor_digits_fuel zero (suc m) zero b p q = refl
xor_digits_fuel zero (suc m) (suc a) b p q = absurd (omega arith)
xor_digits_fuel (suc n) zero zero b p q = refl
xor_digits_fuel (suc n) zero (suc a) b p q = absurd (omega arith)
xor_digits_fuel (suc n) (suc m) zero b p q = refl
xor_digits_fuel (suc n) (suc m) (suc a) b p q =
    omega (arith, xor_digits_fuel n m (suc a / 2) (b / 2) (omega arith) (omega arith))

bit_xor_step : (a b : ℕ) → bit_xor a b ≡ bit_xor (a / 2) (b / 2) * 2 + differ (a % 2) (b % 2)
bit_xor_step zero b = omega (arith, bit_xor-bitwise 0 b, bit_xor-bitwise 0 (b / 2))
bit_xor_step (suc a) b = omega (
  arith,
  bit_xor-bitwise (suc a) b,
  bit_xor-bitwise (suc a / 2) (b / 2),
  xor_digits_fuel a (suc a / 2) (suc a / 2) (b / 2) (omega arith) (omega arith),
)

half_lt : (k a : ℕ) → a < 2 ^ suc k → a / 2 < 2 ^ k
half_lt k a h = omega (arith, pow-suc 2 k)

differ_bits : (a b : ℕ) → a < 2 → b < 2 → (differ a b < 2) × (differ (differ a b) b ≡ a)
differ_bits zero zero p q = (omega arith, refl)
differ_bits zero (suc zero) p q = (omega arith, refl)
differ_bits (suc zero) zero p q = (omega arith, refl)
differ_bits (suc zero) (suc zero) p q = (omega arith, refl)
differ_bits zero (suc (suc b)) p q = absurd (omega arith)
differ_bits (suc zero) (suc (suc b)) p q = absurd (omega arith)
differ_bits (suc (suc a)) b p q = absurd (omega arith)

-- Numbers of k digits have an exclusive or of k digits.
pub bit_xor-lt : (k a b : ℕ) → a < 2 ^ k → b < 2 ^ k → bit_xor a b < 2 ^ k
bit_xor-lt zero zero zero p q = omega (arith, bit_xor-bitwise 0 0)
bit_xor-lt zero (suc a) b p q = absurd (omega arith)
bit_xor-lt zero zero (suc b) p q = absurd (omega arith)
bit_xor-lt (suc k) a b p q = omega (
  arith,
  pow-suc 2 k,
  bit_xor_step a b,
  differ_bits (a % 2) (b % 2) (omega arith) (omega arith),
  bit_xor-lt k (a / 2) (b / 2) (omega (arith, pow-suc 2 k)) (omega (arith, pow-suc 2 k)),
)

-- Applying the same mask twice gives the number back.
pub bit_xor_cancel : (k a b : ℕ) → a < 2 ^ k → b < 2 ^ k → bit_xor (bit_xor a b) b ≡ a
bit_xor_cancel zero zero zero p q = refl
bit_xor_cancel zero (suc a) b p q = absurd (omega arith)
bit_xor_cancel zero zero (suc b) p q = absurd (omega arith)
bit_xor_cancel (suc k) a b p q = ground (
  arith,
  pow-suc 2 k,
  bit_xor_step a b,
  bit_xor_step (bit_xor a b) b,
  differ_bits (a % 2) (b % 2),
  bit_xor_cancel k (a / 2) (b / 2),
)

differ_swap : (a b c : ℕ) → a < 2 → b < 2 → c < 2 → differ (differ a b) c ≡ differ (differ a c) b
differ_swap zero zero zero p q r = refl
differ_swap zero zero (suc c) p q r = refl
differ_swap zero (suc zero) zero p q r = refl
differ_swap zero (suc zero) (suc zero) p q r = refl
differ_swap (suc zero) zero zero p q r = refl
differ_swap (suc zero) zero (suc zero) p q r = refl
differ_swap (suc zero) (suc zero) zero p q r = refl
differ_swap (suc zero) (suc zero) (suc zero) p q r = refl
differ_swap zero (suc zero) (suc (suc c)) p q r = absurd (omega arith)
differ_swap (suc zero) zero (suc (suc c)) p q r = absurd (omega arith)
differ_swap (suc zero) (suc zero) (suc (suc c)) p q r = absurd (omega arith)
differ_swap zero (suc (suc b)) c p q r = absurd (omega arith)
differ_swap (suc zero) (suc (suc b)) c p q r = absurd (omega arith)
differ_swap (suc (suc a)) b c p q r = absurd (omega arith)

bit_xor_twice :
    (a b c : ℕ)
    → bit_xor (bit_xor a b) c
      ≡ bit_xor (bit_xor (a / 2) (b / 2)) (c / 2) * 2 + differ (differ (a % 2) (b % 2)) (c % 2)
bit_xor_twice a b c =
    ground (arith, bit_xor_step a b, bit_xor_step (bit_xor a b) c, differ_bits (a % 2) (b % 2))

-- The order in which two masks are applied does not matter.
pub bit_xor_swap :
    (k a b c : ℕ)
    → a < 2 ^ k
    → b < 2 ^ k
    → c < 2 ^ k
    → bit_xor (bit_xor a b) c ≡ bit_xor (bit_xor a c) b
bit_xor_swap zero zero zero zero p q r = refl
bit_xor_swap zero (suc a) b c p q r = absurd (omega arith)
bit_xor_swap zero zero (suc b) c p q r = absurd (omega arith)
bit_xor_swap zero zero zero (suc c) p q r = absurd (omega arith)
bit_xor_swap (suc k) a b c p q r = omega (
  arith,
  bit_xor_twice a b c,
  bit_xor_twice a c b,
  differ_swap (a % 2) (b % 2) (c % 2) (omega arith) (omega arith) (omega arith),
  bit_xor_swap k (a / 2) (b / 2) (c / 2) (half_lt k a p) (half_lt k b q) (half_lt k c r),
)
