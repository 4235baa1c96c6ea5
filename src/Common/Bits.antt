-- ===== src/Common/Bits.antt =====
-- `|`, `&` and `<<` of fields, as arithmetic, at every width. The native operations stand for a
-- recursion on binary digits with fuel; the fuel is dropped first.
use Prim.Native.Nat.{
  ℕ, zero, suc, ◌+◌, ◌-◌, ◌*◌, ◌/◌, ◌%◌, ◌^◌, ◌≤◌, ◌<◌, min, max, bit_and, bit_or, digits,
  bit_and-bitwise, bit_or-bitwise,
}
use mathlib.Core.Path.{◌≡◌, refl, ap}
use native.Mathlib.Nat.{pow-suc, one-le-pow}
use native.Mathlib.Omega.{arith}

module _ (z : ℕ → ℕ) (f : ℕ → ℕ → ℕ) where
  fuel_irrelevant : (a n m b : ℕ) → a ≤ n → a ≤ m → digits z f n a b ≡ digits z f m a b
  fuel_irrelevant a zero zero b p q = refl
  fuel_irrelevant zero zero (suc m) b p q = refl
  fuel_irrelevant zero (suc n) zero b p q = refl
  fuel_irrelevant zero (suc n) (suc m) b p q = refl
  fuel_irrelevant (suc a) zero (suc m) b p q = absurd (omega arith)
  fuel_irrelevant (suc a) (suc n) zero b p q = absurd (omega arith)
  fuel_irrelevant (suc a) (suc n) (suc m) b p q =
      omega (arith, fuel_irrelevant (suc a / 2) n m (b / 2) (omega arith) (omega arith))

-- The lowest digit of a disjunction.
or_digit : (a b : ℕ) → bit_or a b ≡ bit_or (a / 2) (b / 2) * 2 + max (a % 2) (b % 2)
or_digit zero b = omega (arith, bit_or-bitwise 0 b, bit_or-bitwise 0 (b / 2))
or_digit (suc a) b = omega (
  arith,
  bit_or-bitwise (suc a) b,
  bit_or-bitwise (suc a / 2) (b / 2),
  fuel_irrelevant (λ y. y) max (suc a / 2) a (suc a / 2) (b / 2) (omega arith) (omega arith),
)

-- The lowest digit of a conjunction.
and_digit : (a b : ℕ) → bit_and a b ≡ bit_and (a / 2) (b / 2) * 2 + min (a % 2) (b % 2)
and_digit zero b = omega (arith, bit_and-bitwise 0 b, bit_and-bitwise 0 (b / 2))
and_digit (suc a) b = omega (
  arith,
  bit_and-bitwise (suc a) b,
  bit_and-bitwise (suc a / 2) (b / 2),
  fuel_irrelevant (λ y. 0) min (suc a / 2) a (suc a / 2) (b / 2) (omega arith) (omega arith),
)

pub zero-bit_or : (b : ℕ) → bit_or 0 b ≡ b
zero-bit_or b = bit_or-bitwise 0 b

or_zero_below : (n a : ℕ) → a ≤ n → bit_or a 0 ≡ a
or_zero_below n zero h = zero-bit_or 0
or_zero_below zero (suc a) h = absurd (omega arith)
or_zero_below (suc n) (suc a) h =
    omega (arith, or_digit (suc a) 0, or_zero_below n (suc a / 2) (omega arith))

pub bit_or-zero : (a : ℕ) → bit_or a 0 ≡ a
bit_or-zero a = or_zero_below a a (omega arith)

and_zero_below : (n a : ℕ) → a ≤ n → bit_and a 0 ≡ 0
and_zero_below n zero h = bit_and-bitwise 0 0
and_zero_below zero (suc a) h = absurd (omega arith)
and_zero_below (suc n) (suc a) h =
    omega (arith, and_digit (suc a) 0, and_zero_below n (suc a / 2) (omega arith))

pow_step : (q k : ℕ) → q * 2 ^ suc k ≡ 2 * (q * 2 ^ k)
pow_step q k = omega (arith, ap (λ (t : ℕ). q * t) (pow-suc 2 k))

-- A field above `k` bits, joined with a value of `k` bits, is a sum.
pub bit_or_high : (k q r : ℕ) → r < 2 ^ k → bit_or (q * 2 ^ k) r ≡ q * 2 ^ k + r
bit_or_high zero q r h = ground (arith, bit_or-zero q)
bit_or_high (suc k) q r h = ground (
  arith,
  or_digit (q * 2 ^ suc k) r,
  pow_step q k,
  pow-suc 2 k,
  bit_or_high k q (r / 2) (omega (arith, pow-suc 2 k)),
)

pub bit_or_low : (k q r : ℕ) → r < 2 ^ k → bit_or r (q * 2 ^ k) ≡ q * 2 ^ k + r
bit_or_low zero q r h = ground (arith, zero-bit_or q)
bit_or_low (suc k) q r h = ground (
  arith,
  or_digit r (q * 2 ^ suc k),
  pow_step q k,
  pow-suc 2 k,
  bit_or_low k q (r / 2) (omega (arith, pow-suc 2 k)),
)

and_fields : (k q r : ℕ) → r < 2 ^ k → bit_and (q * 2 ^ k + r) (2 ^ k - 1) ≡ r
and_fields zero q r h = ground (arith, and_zero_below (q * 1 + r) (q * 1 + r))
and_fields (suc k) q r h = ground (
  arith,
  and_digit (q * 2 ^ suc k + r) (2 ^ suc k - 1),
  pow_step q k,
  pow-suc 2 k,
  one-le-pow k 2,
  and_fields k q (r / 2) (omega (arith, pow-suc 2 k)),
)

-- A mask of `k` low bits is the remainder by `2 ^ k`.
pub bit_and_mask : (k a : ℕ) → bit_and a (2 ^ k - 1) ≡ a % 2 ^ k
bit_and_mask k a = ground (arith, one-le-pow k 2, and_fields k (a / 2 ^ k) (a % 2 ^ k))

-- The same, for a number that is known to be a multiple.
pub bit_or-add : (k q x y : ℕ) → x ≡ q * 2 ^ k → y < 2 ^ k → bit_or x y ≡ x + y
bit_or-add k q x y e h = ground (arith, bit_or_high k q y h)

-- Joining sets bits and clears none.
le-or_below : (n a b : ℕ) → b ≤ n → b ≤ bit_or a b
le-or_below n a zero h = omega arith
le-or_below zero a (suc b) h = absurd (omega arith)
le-or_below (suc n) a (suc b) h =
    omega (arith, or_digit a (suc b), le-or_below n (a / 2) (suc b / 2) (omega arith))

pub le-bit_or : (a b : ℕ) → b ≤ bit_or a b
le-bit_or a b = le-or_below b a b (omega arith)

-- Two fields above `k` bits are joined as they stand there.
pub bit_or_above :
    (k q p r : ℕ) → r < 2 ^ k → bit_or (q * 2 ^ k + r) (p * 2 ^ k) ≡ bit_or q p * 2 ^ k + r
bit_or_above zero q p r h = ground arith
bit_or_above (suc k) q p r h = ground (
  arith,
  or_digit (q * 2 ^ suc k + r) (p * 2 ^ suc k),
  pow_step q k,
  pow_step p k,
  pow_step (bit_or q p) k,
  pow-suc 2 k,
  bit_or_above k q p (r / 2) (omega (arith, pow-suc 2 k)),
)

-- Joining with one makes a number odd.
pub bit_or-one : (a : ℕ) → bit_or 1 a ≡ a / 2 * 2 + 1
bit_or-one a = omega (arith, or_digit 1 a, zero-bit_or (a / 2))
