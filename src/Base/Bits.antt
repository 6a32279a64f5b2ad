-- ===== src/Base/Bits.antt =====
-- `|` of two bit fields that do not overlap is a sum.
use Prim.Native.Nat.{
  ℕ, zero, suc, ◌+◌, ◌*◌, ◌/◌, ◌%◌, ◌^◌, ◌≤◌, ◌<◌, max, bit_or, digits, bit_or-bitwise,
}
use mathlib.Core.Path.{◌≡◌, refl, ap}
use native.Mathlib.Nat.{pow-suc}
use native.Mathlib.Omega.{arith}

-- The digit recursion behind `|`, on a bound for the number of digits.
abbrev or_digits : ℕ → ℕ → ℕ → ℕ
or_digits n a b = digits (λ y. y) max n a b

or_digits_bound : (n m a b : ℕ) → a ≤ n → a ≤ m → or_digits n a b ≡ or_digits m a b
or_digits_bound zero zero a b p q = refl
or_digits_bound zero (suc m) zero b p q = refl
or_digits_bound zero (suc m) (suc a) b p q = absurd (omega arith)
or_digits_bound (suc n) zero zero b p q = refl
or_digits_bound (suc n) zero (suc a) b p q = absurd (omega arith)
or_digits_bound (suc n) (suc m) zero b p q = refl
or_digits_bound (suc n) (suc m) (suc a) b p q =
    omega (arith, or_digits_bound n m (suc a / 2) (b / 2) (omega arith) (omega arith))

zero-bit_or : (b : ℕ) → bit_or 0 b ≡ b
zero-bit_or b = bit_or-bitwise 0 b

-- The law of the lowest digit.
bit_or_lowest : (a b : ℕ) → bit_or a b ≡ bit_or (a / 2) (b / 2) * 2 + max (a % 2) (b % 2)
bit_or_lowest zero b = omega (arith, zero-bit_or b, zero-bit_or (b / 2))
bit_or_lowest (suc a) b = omega (
  arith,
  bit_or-bitwise (suc a) b,
  bit_or-bitwise (suc a / 2) (b / 2),
  or_digits_bound a (suc a / 2) (suc a / 2) (b / 2) (omega arith) (omega arith),
)

bit_or-zero_bound : (n a : ℕ) → a ≤ n → bit_or a 0 ≡ a
bit_or-zero_bound n zero h = refl
bit_or-zero_bound zero (suc a) h = absurd (omega arith)
bit_or-zero_bound (suc n) (suc a) h =
    omega (arith, bit_or_lowest (suc a) 0, bit_or-zero_bound n (suc a / 2) (omega arith))

-- A field above bit `k` and one below it.
pub bit_or-add : (k hi lo : ℕ) → lo < 2 ^ k → bit_or (hi * 2 ^ k) lo ≡ hi * 2 ^ k + lo
bit_or-add zero hi zero h = omega (arith, bit_or-zero_bound (hi * 1) (hi * 1) (omega arith))
bit_or-add zero hi (suc lo) h = absurd (omega arith)
bit_or-add (suc k) hi lo h =
    let double : hi * 2 ^ suc k ≡ 2 * (hi * 2 ^ k) =
      omega (arith, ap (λ (t : ℕ). hi * t) (pow-suc 2 k)) in
    let below : lo / 2 < 2 ^ k = omega (arith, pow-suc 2 k) in
    let half : hi * 2 ^ suc k / 2 ≡ hi * 2 ^ k = omega arith in
    omega (
      arith,
      bit_or_lowest (hi * 2 ^ suc k) lo,
      ap (λ (t : ℕ). bit_or t (lo / 2)) half,
      bit_or-add k hi (lo / 2) below,
    )
