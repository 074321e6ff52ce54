-- ===== src/Prelude/Words.antt =====
-- Words of the machine, bit by bit: the digits of `|` and `&`, a bit that is tested with a mask, and the
-- masks of the bits below or from a position on.
use Prim.Native.Nat.{
  ℕ, zero, suc, ◌+◌, ◌-◌, ◌*◌, ◌/◌, ◌%◌, ◌^◌, ◌≤◌, ◌<◌, min, max, digits, bit_and, bit_or,
  bit_and-bitwise, bit_or-bitwise,
}
use mathlib.Core.Path.{◌≡◌, refl, ap, ◌∙◌}
use mathlib.Core.Bool.{Bool, ◌&&◌, ◌||◌}
use native.Mathlib.Omega.{arith}
use native.Mathlib.Nat.{two-pow-succ, one-le-pow}
use rumpuser_xen.Prelude.Tests.{◌==◌, ◌/=◌, ltb, leb}

-- Bit `k` of a word.
abbrev pub bit : ℕ → ℕ → Bool
bit w zero = w % 2 == 1
bit w (suc k) = bit (w / 2) k

-- Once the first number has run out, more rounds change nothing.
digits_rounds :
    (z : ℕ → ℕ) (f : ℕ → ℕ → ℕ) (a n m b : ℕ) → a ≤ m → m ≤ n → digits z f n a b ≡ digits z f m a b
digits_rounds z f zero zero zero b p q = refl
digits_rounds z f zero (suc n) zero b p q = refl
digits_rounds z f zero zero (suc m) b p q = refl
digits_rounds z f zero (suc n) (suc m) b p q = refl
digits_rounds z f (suc a) n zero b p q = absurd (omega arith)
digits_rounds z f (suc a) zero (suc m) b p q = absurd (omega arith)
digits_rounds z f (suc a) (suc n) (suc m) b p q =
    ap (λ d. d * 2 + f (suc a % 2) (b % 2))
      (digits_rounds z f (suc a / 2) n m (b / 2) (omega arith) (omega arith))

bit_and_low : (a b : ℕ) → bit_and a b ≡ bit_and (a / 2) (b / 2) * 2 + min (a % 2) (b % 2)
bit_and_low zero b = omega (arith, bit_and-bitwise 0 b, bit_and-bitwise 0 (b / 2))
bit_and_low (suc a) b = omega (
  arith,
  bit_and-bitwise (suc a) b,
  bit_and-bitwise (suc a / 2) (b / 2),
  digits_rounds (λ y. zero) min (suc a / 2) a (suc a / 2) (b / 2) (omega arith) (omega arith),
)

bit_or_low : (a b : ℕ) → bit_or a b ≡ bit_or (a / 2) (b / 2) * 2 + max (a % 2) (b % 2)
bit_or_low zero b = omega (arith, bit_or-bitwise 0 b, bit_or-bitwise 0 (b / 2))
bit_or_low (suc a) b = omega (
  arith,
  bit_or-bitwise (suc a) b,
  bit_or-bitwise (suc a / 2) (b / 2),
  digits_rounds (λ y. y) max (suc a / 2) a (suc a / 2) (b / 2) (omega arith) (omega arith),
)

pub bit-and : (a b k : ℕ) → bit (bit_and a b) k ≡ (bit a k && bit b k)
bit-and a b zero = ground (arith, bit_and_low a b)
bit-and a b (suc k) =
    let half : bit_and a b / 2 ≡ bit_and (a / 2) (b / 2) = omega (arith, bit_and_low a b) in
    ap (λ w. bit w k) half ∙ bit-and (a / 2) (b / 2) k

pub bit-or : (a b k : ℕ) → bit (bit_or a b) k ≡ (bit a k || bit b k)
bit-or a b zero = ground (arith, bit_or_low a b)
bit-or a b (suc k) =
    let half : bit_or a b / 2 ≡ bit_or (a / 2) (b / 2) = omega (arith, bit_or_low a b) in
    ap (λ w. bit w k) half ∙ bit-or (a / 2) (b / 2) k

-- (1 << n) - 1 has the bits below n.
pub bit-low_mask : (n k : ℕ) → bit (2 ^ n - 1) k ≡ ltb k n
bit-low_mask zero zero = refl
bit-low_mask zero (suc k) = bit-low_mask zero k ∙ ground arith
bit-low_mask (suc n) zero = ground (arith, two-pow-succ n, one-le-pow n 2)
bit-low_mask (suc n) (suc k) =
    let half : (2 ^ suc n - 1) / 2 ≡ 2 ^ n - 1 = omega (arith, two-pow-succ n, one-le-pow n 2) in
    ap (λ w. bit w k) half ∙ bit-low_mask n k ∙ ground arith

-- -(1 << n) on a word of w bits has the bits from n on.
pub bit-high_mask : (w n k : ℕ) → n ≤ w → k < w → bit (2 ^ w - 2 ^ n) k ≡ leb n k
bit-high_mask w zero k l h = bit-low_mask w k ∙ ground arith
bit-high_mask zero (suc n) k l h = absurd (omega arith)
bit-high_mask (suc w) (suc n) zero l h = ground (arith, two-pow-succ n, two-pow-succ w)
bit-high_mask (suc w) (suc n) (suc k) l h =
    let half : (2 ^ suc w - 2 ^ suc n) / 2 ≡ 2 ^ w - 2 ^ n =
      omega (arith, two-pow-succ n, two-pow-succ w) in
    ap (λ x. bit x k) half ∙ bit-high_mask w n k (omega arith) (omega arith) ∙ ground arith

no_bits : (n a : ℕ) → a ≤ n → bit_and a 0 ≡ 0
no_bits zero zero l = bit_and-bitwise 0 0
no_bits zero (suc a) l = absurd (omega arith)
no_bits (suc n) zero l = bit_and-bitwise 0 0
no_bits (suc n) (suc a) l =
    omega (arith, bit_and_low (suc a) 0, no_bits n (suc a / 2) (omega arith))

-- A bit is tested by the mask 1 << k.
pub test_mask : (w k : ℕ) → (bit_and w (2 ^ k) /= 0) ≡ bit w k
test_mask w zero = ground (arith, bit_and_low w 1, no_bits (w / 2) (w / 2) (omega arith))
test_mask w (suc k) = ground (arith, bit_and_low w (2 ^ suc k), two-pow-succ k, test_mask (w / 2) k)
