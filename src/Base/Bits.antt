-- ===== src/Base/Bits.antt =====
-- `&` and `|` at variables: the law of the lowest digit, and disjoint
-- fields. Small ranges are checked value by value.
use Prim.Native.Nat.{
  ℕ, zero, suc, ◌+◌, ◌*◌, ◌/◌, ◌%◌, ◌^◌, ◌-◌, ◌≤◌, ◌<◌, min, max, digits, bit_and, bit_or,
  bit_and-bitwise, bit_or-bitwise,
}
use mathlib.Core.Path.{◌≡◌, refl, ap}
use mathlib.Core.Bool.{Bool, true, ◌&&◌}
use native.Mathlib.Nat.{pow-suc}
use native.Mathlib.Omega.{arith}

-- Enough fuel is as good as any other: the first number loses a digit at each round.
digits_enough :
    (z : ℕ → ℕ) (f : ℕ → ℕ → ℕ) (n m a b : ℕ) → a ≤ n → a ≤ m → digits z f n a b ≡ digits z f m a b
digits_enough z f zero zero a b p q = refl
digits_enough z f zero (suc m) zero b p q = refl
digits_enough z f zero (suc m) (suc a) b p q = absurd (omega arith)
digits_enough z f (suc n) zero zero b p q = refl
digits_enough z f (suc n) zero (suc a) b p q = absurd (omega arith)
digits_enough z f (suc n) (suc m) zero b p q = refl
digits_enough z f (suc n) (suc m) (suc a) b p q =
    let rest = digits_enough z f n m (suc a / 2) (b / 2) (omega arith) (omega arith) in
    ap (λ (t : ℕ). t * 2 + f (suc a % 2) (b % 2)) rest

pub bit_or_digit : (a b : ℕ) → bit_or a b ≡ bit_or (a / 2) (b / 2) * 2 + max (a % 2) (b % 2)
bit_or_digit zero b = omega (arith, bit_or-bitwise 0 b, bit_or-bitwise 0 (b / 2))
bit_or_digit (suc a) b = omega (
  arith,
  bit_or-bitwise (suc a) b,
  bit_or-bitwise (suc a / 2) (b / 2),
  digits_enough (λ y. y) max a (suc a / 2) (suc a / 2) (b / 2) (omega arith) (omega arith),
)

pub bit_and_digit : (a b : ℕ) → bit_and a b ≡ bit_and (a / 2) (b / 2) * 2 + min (a % 2) (b % 2)
bit_and_digit zero b = omega (arith, bit_and-bitwise 0 b, bit_and-bitwise 0 (b / 2))
bit_and_digit (suc a) b = omega (
  arith,
  bit_and-bitwise (suc a) b,
  bit_and-bitwise (suc a / 2) (b / 2),
  digits_enough (λ y. 0) min a (suc a / 2) (suc a / 2) (b / 2) (omega arith) (omega arith),
)

pub zero-bit_or : (b : ℕ) → bit_or 0 b ≡ b
zero-bit_or b = bit_or-bitwise 0 b

bit_and-zero_upto : (n a : ℕ) → a ≤ n → bit_and a 0 ≡ 0
bit_and-zero_upto n zero h = refl
bit_and-zero_upto zero (suc a) h = absurd (omega arith)
bit_and-zero_upto (suc n) (suc a) h =
    omega (arith, bit_and_digit (suc a) 0, bit_and-zero_upto n (suc a / 2) (omega arith))

pub bit_and-zero : (a : ℕ) → bit_and a 0 ≡ 0
bit_and-zero a = bit_and-zero_upto a a (omega arith)

times-pow-suc : (h k : ℕ) → h * 2 ^ suc k ≡ 2 * (h * 2 ^ k)
times-pow-suc h k = omega (arith, ap (λ (t : ℕ). h * t) (pow-suc 2 k))

-- `lo | hi << k` is a sum when `lo` fits in `k` bits.
pub bit_or_fields : (k lo hi : ℕ) → lo < 2 ^ k → bit_or lo (hi * 2 ^ k) ≡ lo + hi * 2 ^ k
bit_or_fields zero lo hi h = ground (arith, zero-bit_or (hi * 1))
bit_or_fields (suc k) lo hi h = ground (
  arith,
  bit_or_digit lo (hi * 2 ^ suc k),
  times-pow-suc hi k,
  pow-suc 2 k,
  bit_or_fields k (lo / 2) hi (omega (arith, pow-suc 2 k)),
)

-- `|` above the lowest `k` bits leaves these alone.
pub bit_or_high :
    (k lo a b : ℕ) → lo < 2 ^ k → bit_or (lo + a * 2 ^ k) (b * 2 ^ k) ≡ lo + bit_or a b * 2 ^ k
bit_or_high zero lo a b h = let z : lo ≡ 0 = omega arith in rw z (ground arith)
bit_or_high (suc k) lo a b h = ground (
  arith,
  bit_or_digit (lo + a * 2 ^ suc k) (b * 2 ^ suc k),
  times-pow-suc a k,
  times-pow-suc b k,
  times-pow-suc (bit_or a b) k,
  pow-suc 2 k,
  bit_or_high k (lo / 2) a b (omega (arith, pow-suc 2 k)),
)

-- `&` works on the lowest `k` bits and on those above them apart.
pub bit_and_fields :
    (k lo mask a b : ℕ)
    → lo < 2 ^ k
    → mask < 2 ^ k
    → bit_and (lo + a * 2 ^ k) (mask + b * 2 ^ k) ≡ bit_and lo mask + bit_and a b * 2 ^ k
bit_and_fields zero lo mask a b h g =
    let z : lo ≡ 0 = omega arith in
    let y : mask ≡ 0 = omega arith in rw (z, y) (ground (arith, bit_and-zero 0))
bit_and_fields (suc k) lo mask a b h g = ground (
  arith,
  bit_and_digit (lo + a * 2 ^ suc k) (mask + b * 2 ^ suc k),
  bit_and_digit lo mask,
  times-pow-suc a k,
  times-pow-suc b k,
  times-pow-suc (bit_and a b) k,
  pow-suc 2 k,
  bit_and_fields k (lo / 2) (mask / 2) a b (omega (arith, pow-suc 2 k))
      (omega (arith, pow-suc 2 k)),
)

-- A mask of `k` ones leaves `k` bits alone.
pub bit_and-ones : (k lo : ℕ) → lo < 2 ^ k → bit_and lo (2 ^ k - 1) ≡ lo
bit_and-ones zero lo h = let z : lo ≡ 0 = omega arith in rw z (bit_and-zero 0)
bit_and-ones (suc k) lo h = ground (
  arith,
  bit_and_digit lo (2 ^ suc k - 1),
  pow-suc 2 k,
  bit_and-ones k (lo / 2) (omega (arith, pow-suc 2 k)),
)

-- Over a small range, every value is checked by evaluation.
abbrev pub all_below : ℕ → (ℕ → Bool) → Bool
all_below zero p = true
all_below (suc n) p = p n && all_below n p

pub all_below_sound : (n : ℕ) (p : ℕ → Bool) (x : ℕ) → all_below n p ≡ true → x < n → p x ≡ true
all_below_sound zero p x h lt = absurd (omega arith)
all_below_sound (suc n) p x h lt = ground (arith, all_below_sound n p x)
