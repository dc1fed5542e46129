-- ===== src/Base/Bits.antt =====
-- `|` of disjoint fields as a sum.
use Prim.Native.Nat.{
  ℕ, zero, suc, ◌+◌, ◌*◌, ◌/◌, ◌%◌, ◌≤◌, ◌<◌, max, bit_or, digits, bit_or-bitwise,
}
use mathlib.Core.Path.{◌≡◌, refl}
use native.Mathlib.Omega.{arith}

-- The digit recursion that `bit_or` stands for, with a count of digits to go.
abbrev or_digits : ℕ → ℕ → ℕ → ℕ
or_digits n a b = digits (λ d. d) max n a b

-- A count that covers the first number gives the same digits as any other such count.
or_digits_count : (n m a b : ℕ) → a ≤ n → a ≤ m → or_digits n a b ≡ or_digits m a b
or_digits_count zero zero a b p q = refl
or_digits_count zero (suc m) zero b p q = refl
or_digits_count zero (suc m) (suc a) b p q = absurd (omega arith)
or_digits_count (suc n) zero zero b p q = refl
or_digits_count (suc n) zero (suc a) b p q = absurd (omega arith)
or_digits_count (suc n) (suc m) zero b p q = refl
or_digits_count (suc n) (suc m) (suc a) b p q =
    omega (arith, or_digits_count n m (suc a / 2) (b / 2) (omega arith) (omega arith))

zero-bit_or : (b : ℕ) → bit_or 0 b ≡ b
zero-bit_or b = bit_or-bitwise 0 b

bit_or-digit : (a b : ℕ) → bit_or a b ≡ bit_or (a / 2) (b / 2) * 2 + max (a % 2) (b % 2)
bit_or-digit zero b = omega (arith, zero-bit_or b, zero-bit_or (b / 2))
bit_or-digit (suc a) b = omega (
  arith,
  bit_or-bitwise (suc a) b,
  bit_or-bitwise (suc a / 2) (b / 2),
  or_digits_count a (suc a / 2) (suc a / 2) (b / 2) (omega arith) (omega arith),
)

bit_or-zero_below : (n a : ℕ) → a ≤ n → bit_or a 0 ≡ a
bit_or-zero_below n zero h = refl
bit_or-zero_below zero (suc a) h = absurd (omega arith)
bit_or-zero_below (suc n) (suc a) h =
    omega (arith, bit_or-digit (suc a) 0, bit_or-zero_below n (suc a / 2) (omega arith))

abbrev pub two_to : ℕ → ℕ
two_to zero = 1
two_to (suc k) = 2 * two_to k

half_shift : (a p : ℕ) → a * (2 * p) / 2 ≡ a * p
half_shift a p = omega arith

bit_or-digit_shifted : (x p y : ℕ) → bit_or (x * (2 * p)) y ≡ bit_or (x * p) (y / 2) * 2 + y % 2
bit_or-digit_shifted x p y =
    rw (bit_or-digit (x * (2 * p)) y, half_shift x p) (omega (arith, half_shift x p))

-- A field shifted by `k` bits and one of at most `k` bits do not overlap: `|` adds them.
pub bit_or_fields : (k x y : ℕ) → y < two_to k → bit_or (x * two_to k) y ≡ x * two_to k + y
bit_or_fields zero x zero h = omega (arith, bit_or-zero_below (x * 1) (x * 1) (omega arith))
bit_or_fields zero x (suc y) h = absurd (omega arith)
bit_or_fields (suc k) x y h =
    omega (arith, bit_or-digit_shifted x (two_to k) y, bit_or_fields k x (y / 2) (omega arith))
