-- ===== src/Base/Bits.antt =====
-- Masks and packed fields as arithmetic: the native bit operations have laws only through the
-- digit recursion that they stand for.
use Prim.Native.Nat.{ℕ, zero, suc, ◌+◌, ◌-◌, ◌*◌, ◌/◌, ◌%◌, ◌^◌, ◌≤◌, ◌<◌, min, max}
use Prim.Native.Nat.{bit_and, bit_or, digits, bitwise, bit_and-bitwise, bit_or-bitwise}
use mathlib.Core.Path.{◌≡◌, refl, sym, ap, ◌∙◌}
use native.Mathlib.Omega.{arith}
use native.Mathlib.Nat.{pow-suc, one-le-pow, le_refl, eq-or-lt_of_le}
use mathlib.Core.Logic.{inl, inr}

module _ (z : ℕ → ℕ) (f : ℕ → ℕ → ℕ) where
  -- One unit of fuel more than there is to halve makes no difference to the digits.
  one_more : (left x y : ℕ) → x ≤ left → digits z f (suc left) x y ≡ digits z f left x y
  one_more left zero y enough = none_left left
    where
      none_left : (k : ℕ) → digits z f (suc k) 0 y ≡ digits z f k 0 y
      none_left zero = refl
      none_left (suc k) = refl
  one_more zero (suc x) y enough = absurd (omega arith)
  one_more (suc left) (suc x) y enough =
      let halved = one_more left (suc x / 2) (y / 2) (omega arith) in
      ap (λ high. high * 2 + f (suc x % 2) (y % 2)) halved

  settled : (fuel x y : ℕ) → x ≤ fuel → digits z f fuel x y ≡ bitwise z f x y
  settled zero zero y enough = refl
  settled zero (suc x) y enough = absurd (omega arith)
  settled (suc fuel) x y enough = elim (eq-or-lt_of_le enough) [
    | inl exact ↦ ap (λ k. digits z f k x y) (sym exact)
    | inr spare ↦ one_more fuel x y (omega arith) ∙ settled fuel x y (omega arith)
  ]

  lowest_digit :
      (x y : ℕ)
      → bitwise z f (suc x) y ≡ bitwise z f (suc x / 2) (y / 2) * 2 + f (suc x % 2) (y % 2)
  lowest_digit x y =
      ap (λ high. high * 2 + f (suc x % 2) (y % 2)) (settled x (suc x / 2) (y / 2) (omega arith))

  -- The lowest digit, when the digits of 0 with `y` follow the same law.
  law :
      ((y : ℕ) → z y ≡ f 0 (y % 2) + 2 * z (y / 2))
      → (x y : ℕ) → bitwise z f x y ≡ f (x % 2) (y % 2) + 2 * bitwise z f (x / 2) (y / 2)
  law from_zero zero y = from_zero y
  law from_zero (suc x) y = omega (arith, lowest_digit x y)

pub bit_and_step : (x y : ℕ) → bit_and x y ≡ min (x % 2) (y % 2) + 2 * bit_and (x / 2) (y / 2)
bit_and_step x y = simp bit_and-bitwise (law (λ n. 0) min (λ n. omega arith) x y)

pub bit_or_step : (x y : ℕ) → bit_or x y ≡ max (x % 2) (y % 2) + 2 * bit_or (x / 2) (y / 2)
bit_or_step x y = simp bit_or-bitwise (law (λ n. n) max (λ n. omega arith) x y)

and_zero_below : (n a : ℕ) → a ≤ n → bit_and a 0 ≡ 0
and_zero_below n zero h = refl
and_zero_below zero (suc a) h = absurd (omega arith)
and_zero_below (suc n) (suc a) h =
    omega (arith, bit_and_step (suc a) 0, and_zero_below n (suc a / 2) (omega arith))

pub bit_and-zero : (a : ℕ) → bit_and a 0 ≡ 0
bit_and-zero a = and_zero_below a a (le_refl _)

or_zero_below : (n a : ℕ) → a ≤ n → bit_or a 0 ≡ a
or_zero_below n zero h = refl
or_zero_below zero (suc a) h = absurd (omega arith)
or_zero_below (suc n) (suc a) h =
    omega (arith, bit_or_step (suc a) 0, or_zero_below n (suc a / 2) (omega arith))

pub bit_or-zero : (a : ℕ) → bit_or a 0 ≡ a
bit_or-zero a = or_zero_below a a (le_refl _)

double_shift : (q k : ℕ) → q * 2 ^ suc k ≡ 2 * (q * 2 ^ k)
double_shift q k = omega (arith, ap (λ (t : ℕ). q * t) (pow-suc 2 k))

mask_split : (k q r : ℕ) → r < 2 ^ k → bit_and (q * 2 ^ k + r) (2 ^ k - 1) ≡ r
mask_split zero q r h = rw bit_and-zero (omega arith)
mask_split (suc k) q r h = ground (
  arith,
  bit_and_step (q * 2 ^ suc k + r) (2 ^ suc k - 1),
  double_shift q k,
  pow-suc 2 k,
  mask_split k q (r / 2) (omega (arith, pow-suc 2 k)),
)

-- `x & (2 ^ k - 1)` is the remainder by `2 ^ k`.
pub bit_and_mask : (k a : ℕ) → bit_and a (2 ^ k - 1) ≡ a % 2 ^ k
bit_and_mask k a = ground (arith, one-le-pow k 2, mask_split k (a / 2 ^ k) (a % 2 ^ k))

zero-bit_or : (b : ℕ) → bit_or 0 b ≡ b
zero-bit_or b = bit_or-bitwise 0 b

-- `lo | (hi << k)` is a sum when `lo` fits `k` bits.
pub bit_or_shifted : (k lo hi : ℕ) → lo < 2 ^ k → bit_or lo (hi * 2 ^ k) ≡ lo + hi * 2 ^ k
bit_or_shifted zero zero hi h = omega (arith, zero-bit_or (hi * 2 ^ 0))
bit_or_shifted zero (suc lo) hi h = absurd (omega arith)
bit_or_shifted (suc k) lo hi h = ground (
  arith,
  bit_or_step lo (hi * 2 ^ suc k),
  double_shift hi k,
  pow-suc 2 k,
  bit_or_shifted k (lo / 2) hi (omega (arith, pow-suc 2 k)),
)

-- `x & ~63` on a `uint32_t` clears the six low bits.
pub bit_and_align : (a : ℕ) → a < 2 ^ 32 → bit_and a 0xFFFFFFC0 ≡ a / 64 * 64
bit_and_align a h = omega (
  arith,
  bit_and_step a 0xFFFFFFC0,
  bit_and_step (a / 2) 0x7FFFFFE0,
  bit_and_step (a / 2 / 2) 0x3FFFFFF0,
  bit_and_step (a / 2 / 2 / 2) 0x1FFFFFF8,
  bit_and_step (a / 2 / 2 / 2 / 2) 0xFFFFFFC,
  bit_and_step (a / 2 / 2 / 2 / 2 / 2) 0x7FFFFFE,
  bit_and_mask 26 (a / 2 / 2 / 2 / 2 / 2 / 2),
)
