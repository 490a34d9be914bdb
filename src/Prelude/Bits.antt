-- ===== src/Prelude/Bits.antt =====
-- The binary digits of native numbers, and what `&`, `|` and masks do to them.
use Prim.Native.Nat.{
  ℕ, zero, suc, ◌+◌, ◌-◌, ◌*◌, ◌/◌, ◌%◌, ◌^◌, ◌≤◌, ◌<◌, min, max, bit_and, bit_or, digits,
  bit_and-bitwise, bit_or-bitwise,
}
use mathlib.Core.Path.{◌≡◌, refl, ap, ◌∙◌}
use mathlib.Core.Bool.{Bool, true, false, not, ◌&&◌, ◌||◌}
use native.Mathlib.Nat.{pow-suc, one-le-pow}
use native.Mathlib.Omega.{arith}
use seatfirst.Prelude.Tests.{ltb, leb, leb→le, ◌==◌}

-- Digit `k` of `x`, from the lowest.
abbrev pub bit_at : ℕ → ℕ → Bool
bit_at x zero = x % 2 == 1
bit_at x (suc k) = bit_at (x / 2) k

-- The definitions recur on fuel: every bound of the first number gives the same digits.
module _ (rest : ℕ → ℕ) (op : ℕ → ℕ → ℕ) where
  digits_bounded :
      (fuel bound a b : ℕ)
      → a ≤ fuel
      → a ≤ bound
      → digits rest op fuel a b ≡ digits rest op bound a b
  digits_bounded zero zero a b p q = refl
  digits_bounded zero (suc bound) zero b p q = refl
  digits_bounded zero (suc bound) (suc a) b p q = absurd (omega arith)
  digits_bounded (suc fuel) zero zero b p q = refl
  digits_bounded (suc fuel) zero (suc a) b p q = absurd (omega arith)
  digits_bounded (suc fuel) (suc bound) zero b p q = refl
  digits_bounded (suc fuel) (suc bound) (suc a) b p q =
      omega (arith, digits_bounded fuel bound (suc a / 2) (b / 2) (omega arith) (omega arith))

  lowest_digit :
      (a b : ℕ)
      → digits rest op (suc a) (suc a) b
        ≡ digits rest op (suc a / 2) (suc a / 2) (b / 2) * 2 + op (suc a % 2) (b % 2)
  lowest_digit a b =
      omega (arith, digits_bounded a (suc a / 2) (suc a / 2) (b / 2) (omega arith) (omega arith))

bit_and_lowest : (a b : ℕ) → bit_and a b ≡ bit_and (a / 2) (b / 2) * 2 + min (a % 2) (b % 2)
bit_and_lowest zero b = simp bit_and-bitwise (omega arith)
bit_and_lowest (suc a) b = simp bit_and-bitwise (lowest_digit (λ y. 0) min a b)

bit_or_lowest : (a b : ℕ) → bit_or a b ≡ bit_or (a / 2) (b / 2) * 2 + max (a % 2) (b % 2)
bit_or_lowest zero b = simp bit_or-bitwise (omega arith)
bit_or_lowest (suc a) b = simp bit_or-bitwise (lowest_digit (λ y. y) max a b)

bit_and-half : (a b : ℕ) → bit_and a b / 2 ≡ bit_and (a / 2) (b / 2)
bit_and-half a b = omega (arith, bit_and_lowest a b)

bit_or-half : (a b : ℕ) → bit_or a b / 2 ≡ bit_or (a / 2) (b / 2)
bit_or-half a b = omega (arith, bit_or_lowest a b)

-- `&` and `|` act on each digit.
pub bit_at-bit_and : (k a b : ℕ) → bit_at (bit_and a b) k ≡ (bit_at a k && bit_at b k)
bit_at-bit_and zero a b = ground (arith, bit_and_lowest a b)
bit_at-bit_and (suc k) a b = rw bit_and-half (bit_at-bit_and k (a / 2) (b / 2))

pub bit_at-bit_or : (k a b : ℕ) → bit_at (bit_or a b) k ≡ (bit_at a k || bit_at b k)
bit_at-bit_or zero a b = ground (arith, bit_or_lowest a b)
bit_at-bit_or (suc k) a b = rw bit_or-half (bit_at-bit_or k (a / 2) (b / 2))

pub bit_at-zero : (k : ℕ) → bit_at 0 k ≡ false
bit_at-zero zero = refl
bit_at-zero (suc k) = bit_at-zero k

-- A number below `2 ^ w` stays so under `|`, and `&` makes nothing larger.
pub bit_or-lt : (w a b : ℕ) → a < 2 ^ w → b < 2 ^ w → bit_or a b < 2 ^ w
bit_or-lt zero a b p q = omega (arith, bit_or_lowest a b, bit_or_lowest 0 0, bit_or_none a b p q)
  where
    bit_or_none : (a b : ℕ) → a < 1 → b < 1 → bit_or a b ≡ 0
    bit_or_none zero zero p q = refl
    bit_or_none zero (suc b) p q = absurd (omega arith)
    bit_or_none (suc a) b p q = absurd (omega arith)
bit_or-lt (suc w) a b p q =
    let grow = pow-suc 2 w in
    omega (
      arith,
      bit_or_lowest a b,
      bit_or-lt w (a / 2) (b / 2) (omega (arith, grow)) (omega (arith, grow)),
      grow,
    )

pub bit_and-le : (a b n : ℕ) → a ≤ n → bit_and a b ≤ a
bit_and-le zero b n h = simp bit_and-bitwise (omega arith)
bit_and-le (suc a) b zero h = absurd (omega arith)
bit_and-le (suc a) b (suc n) h =
    omega (arith, bit_and_lowest (suc a) b, bit_and-le (suc a / 2) (b / 2) n (omega arith))

-- The mask of `m` ones has the digits below `m`.
pub bit_at-ones : (m k : ℕ) → bit_at (2 ^ m - 1) k ≡ ltb k m
bit_at-ones zero k = bit_at-zero k ∙ ground arith
bit_at-ones (suc m) zero = ground (arith, pow-suc 2 m, one-le-pow m 2)
bit_at-ones (suc m) (suc k) =
    let half : (2 ^ suc m - 1) / 2 ≡ 2 ^ m - 1 = omega (arith, pow-suc 2 m, one-le-pow m 2) in
    rw half (bit_at-ones m k ∙ ground arith)

-- A power of two has one digit.
pub bit_at-pow : (m k : ℕ) → bit_at (2 ^ m) k ≡ (k == m)
bit_at-pow zero zero = refl
bit_at-pow zero (suc k) = bit_at-zero k ∙ ground arith
bit_at-pow (suc m) zero = ground (arith, pow-suc 2 m)
bit_at-pow (suc m) (suc k) =
    let half : 2 ^ suc m / 2 ≡ 2 ^ m = omega (arith, pow-suc 2 m) in
    rw half (bit_at-pow m k ∙ ground arith)

-- A number with no digit set is 0, so two tests of a digit agree.
pub bit_at-none : (n x : ℕ) → x ≤ n → ((k : ℕ) → bit_at x k ≡ false) → x ≡ 0
bit_at-none zero x h none_set = omega arith
bit_at-none (suc n) zero h none_set = refl
bit_at-none (suc n) (suc x) h none_set =
    let low : suc x % 2 ≡ 0 = ground (arith, none_set 0) in
    let high : suc x / 2 ≡ 0 = bit_at-none n (suc x / 2) (omega arith) (λ k. none_set (suc k)) in
    absurd (omega arith)

bit_and-zero : (a : ℕ) → bit_and a 0 ≡ 0
bit_and-zero a =
    bit_at-none (bit_and a 0) (bit_and a 0) (omega arith)
      λ k. ground (arith, bit_at-bit_and k a 0, bit_at-zero k)

-- `(x & (1 << k)) !== 0` reads digit `k`.
pub bit_and-pow : (k x : ℕ) → not (bit_and x (2 ^ k) == 0) ≡ bit_at x k
bit_and-pow zero x = ground (arith, bit_and_lowest x 1, bit_and-zero (x / 2))
bit_and-pow (suc k) x =
    let half : 2 ^ suc k / 2 ≡ 2 ^ k = omega (arith, pow-suc 2 k) in
    let even : 2 ^ suc k % 2 ≡ 0 = omega (arith, pow-suc 2 k) in
    let high : bit_and (x / 2) (2 ^ suc k / 2) ≡ bit_and (x / 2) (2 ^ k) =
      ap (bit_and (x / 2)) half in
    ground (arith, bit_and_lowest x (2 ^ suc k), high, even, bit_and-pow k (x / 2))

-- Digits 8 and above of a byte are zero.
pub bit_at-byte : (x k : ℕ) → x < 256 → 8 ≤ k → bit_at x k ≡ false
bit_at-byte x (suc (suc (suc (suc (suc (suc (suc (suc k)))))))) h p =
    let gone : x / 2 / 2 / 2 / 2 / 2 / 2 / 2 / 2 ≡ 0 = omega arith in rw gone (bit_at-zero k)
bit_at-byte x k h p = absurd (omega arith)

unfoldable pub holds_up_to : (bound : ℕ) (test : ℕ → Bool) → Bool
holds_up_to zero test = true
holds_up_to (suc last) test = test last && holds_up_to last test

pub holds_up_to_at :
    (bound : ℕ) (test : ℕ → Bool) (at : ℕ)
    → holds_up_to bound test ≡ true
    → at < bound
    → test at ≡ true
unfolding holds_up_to
holds_up_to_at zero test at all inside = absurd (omega arith)
holds_up_to_at (suc last) test at all inside = ground (arith, holds_up_to_at last test at)

same_bit : Bool → Bool → Bool
same_bit true b = b
same_bit false b = not b

same_bit-eq : (a b : Bool) → same_bit a b ≡ true → a ≡ b
unfolding same_bit
same_bit-eq a b h = ground arith

abbrev complement_row : ℕ → Bool
complement_row x = holds_up_to 8 (λ k. same_bit (bit_at (255 - x) k) (not (bit_at x k)))

complement_table : holds_up_to 256 complement_row ≡ true
unfolding holds_up_to same_bit
complement_table = refl

-- `~x` in a byte flips every digit.
pub bit_at-complement : (x k : ℕ) → x < 256 → k < 8 → bit_at (255 - x) k ≡ not (bit_at x k)
bit_at-complement x k h p = same_bit-eq _ _ (
    holds_up_to_at 8 (λ k. same_bit (bit_at (255 - x) k) (not (bit_at x k))) k
      (holds_up_to_at 256 complement_row x complement_table h) p)

pub pow-byte : (k : ℕ) → k < 8 → 2 ^ k ≤ 128
unfolding holds_up_to
pow-byte k h = leb→le (2 ^ k) 128 (holds_up_to_at 8 (λ k. leb (2 ^ k) 128) k powers h)
  where
    powers : holds_up_to 8 (λ k. leb (2 ^ k) 128) ≡ true
    powers = refl
