-- ===== src/Prelude/Bits.antt =====
-- `x | y` of a shifted field and a field that fits below it, and `x & mask` with a mask of low
-- ones, as sums and remainders.
use Prim.Native.Nat.{
  ℕ, zero, suc, ◌+◌, ◌-◌, ◌*◌, ◌/◌, ◌%◌, ◌^◌, ◌≤◌, ◌<◌, min, max, digits, bit_and, bit_or,
  bit_and-bitwise, bit_or-bitwise,
}
use mathlib.Core.Path.{◌≡◌, refl, sym, ap}
use native.Mathlib.Nat.{pow-suc, pow-succ', one-le-pow, div-div-eq-div-mul}
use native.Mathlib.Omega.{arith}

-- The count of digits to go does not matter once it covers the first number.
digits_count :
    (z : ℕ → ℕ) (f : ℕ → ℕ → ℕ) (c d x y : ℕ) → x ≤ c → x ≤ d → digits z f c x y ≡ digits z f d x y
digits_count z f zero zero x y p q = refl
digits_count z f zero (suc d) zero y p q = refl
digits_count z f zero (suc d) (suc x) y p q = absurd (omega arith)
digits_count z f (suc c) zero zero y p q = refl
digits_count z f (suc c) zero (suc x) y p q = absurd (omega arith)
digits_count z f (suc c) (suc d) zero y p q = refl
digits_count z f (suc c) (suc d) (suc x) y p q =
    ap (λ t. t * 2 + f (suc x % 2) (y % 2))
      (digits_count z f c d (suc x / 2) (y / 2) (omega arith) (omega arith))

or_halve : (x y : ℕ) → bit_or x y ≡ bit_or (x / 2) (y / 2) * 2 + max (x % 2) (y % 2)
or_halve zero y = omega (arith, bit_or-bitwise 0 y, bit_or-bitwise 0 (y / 2))
or_halve (suc x) y = omega (
  arith,
  bit_or-bitwise (suc x) y,
  bit_or-bitwise (suc x / 2) (y / 2),
  digits_count (λ b. b) max x (suc x / 2) (suc x / 2) (y / 2) (omega arith) (omega arith),
)

and_halve : (x y : ℕ) → bit_and x y ≡ bit_and (x / 2) (y / 2) * 2 + min (x % 2) (y % 2)
and_halve zero y = omega (arith, bit_and-bitwise 0 y, bit_and-bitwise 0 (y / 2))
and_halve (suc x) y = omega (
  arith,
  bit_and-bitwise (suc x) y,
  bit_and-bitwise (suc x / 2) (y / 2),
  digits_count (λ b. 0) min x (suc x / 2) (suc x / 2) (y / 2) (omega arith) (omega arith),
)

or-zero_upto : (n x : ℕ) → x ≤ n → bit_or x 0 ≡ x
or-zero_upto n zero h = refl
or-zero_upto zero (suc x) h = absurd (omega arith)
or-zero_upto (suc n) (suc x) h =
    omega (arith, or_halve (suc x) 0, or-zero_upto n (suc x / 2) (omega arith))

and-zero_upto : (n x : ℕ) → x ≤ n → bit_and x 0 ≡ 0
and-zero_upto n zero h = refl
and-zero_upto zero (suc x) h = absurd (omega arith)
and-zero_upto (suc n) (suc x) h =
    omega (arith, and_halve (suc x) 0, and-zero_upto n (suc x / 2) (omega arith))

scale_suc : (hi k : ℕ) → hi * 2 ^ suc k ≡ 2 * (hi * 2 ^ k)
scale_suc hi k = omega (arith, ap (λ (t : ℕ). hi * t) (pow-suc 2 k))

-- Or-ing a low field into a shifted one adds it.
pub bit_or-shifted : (k hi lo : ℕ) → lo < 2 ^ k → bit_or (hi * 2 ^ k) lo ≡ hi * 2 ^ k + lo
bit_or-shifted zero hi lo h = ground (arith, or-zero_upto hi hi)
bit_or-shifted (suc k) hi lo h = ground (
  arith,
  or_halve (hi * 2 ^ suc k) lo,
  scale_suc hi k,
  pow-suc 2 k,
  bit_or-shifted k hi (lo / 2) (omega arith),
)

bit_and-split : (k hi lo : ℕ) → lo < 2 ^ k → bit_and (hi * 2 ^ k + lo) (2 ^ k - 1) ≡ lo
bit_and-split zero hi lo h = omega (arith, and-zero_upto (hi * 1 + lo) (hi * 1 + lo) (omega arith))
bit_and-split (suc k) hi lo h = ground (
  arith,
  and_halve (hi * 2 ^ suc k + lo) (2 ^ suc k - 1),
  scale_suc hi k,
  pow-suc 2 k,
  one-le-pow k 2,
  bit_and-split k hi (lo / 2) (omega arith),
)

-- And-ing with `k` ones takes the remainder by `2 ^ k`.
pub bit_and-ones : (k x : ℕ) → bit_and x (2 ^ k - 1) ≡ x % 2 ^ k
bit_and-ones k x = ground (arith, one-le-pow k 2, bit_and-split k (x / 2 ^ k) (x % 2 ^ k))

-- And-ing with a mask whose `k` low bits are clear looks at the bits above only.
pub bit_and-high : (k x hi : ℕ) → bit_and x (hi * 2 ^ k) ≡ bit_and (x / 2 ^ k) hi * 2 ^ k
bit_and-high zero x hi = ground arith
bit_and-high (suc k) x hi =
    let e : x / 2 ^ suc k ≡ x / 2 / 2 ^ k = rw pow-succ' (sym (div-div-eq-div-mul x 2 (2 ^ k))) in
    ground (
      arith,
      and_halve x (hi * 2 ^ suc k),
      scale_suc hi k,
      scale_suc (bit_and (x / 2 / 2 ^ k) hi) k,
      e,
      bit_and-high k (x / 2) hi,
    )
