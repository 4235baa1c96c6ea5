-- ===== src/Bitmap.antt =====
-- The kernel's bitmap operations, as flatfs uses them on the words that `DECLARE_BITMAP` declares:
-- a bitmap is the list of the bits of its words, and an access beyond them is a fault.
use flatfs.Common.{
  ℕ, zero, suc, ◌≤◌, ◌<◌, ◌≡◌, refl, List, [], ◌∷◌, Bool, true, false, ℤ, pos, negsuc, ltb, ◌==◌,
  if◌then◌else◌, length, get_or, set, Run, ok, fault, out_of_bounds, ◌>>=◌, Returns, arith, lt→ltb,
}

-- The first zero bit below `size`, or `size`.
unfoldable pub find_first_zero_bit : List Bool → ℕ → Run ℕ
find_first_zero_bit bits zero = ok 0
find_first_zero_bit [] (suc size) = fault out_of_bounds
find_first_zero_bit (false ∷ bits) (suc size) = ok 0
find_first_zero_bit (true ∷ bits) (suc size) = find_first_zero_bit bits size >>= λ i. ok (suc i)

-- `bitmap_set(bits, i, 1)`, and `bitmap_clear(bits, i, 1)` for `v` false.
unfoldable pub bitmap_write : List Bool → ℕ → Bool → Run (List Bool)
bitmap_write bits i v = if ltb i (length bits) then ok (set bits i v) else fault out_of_bounds

unfoldable pub test_bit : ℤ → List Bool → Run Bool
test_bit (pos i) bits =
    if ltb i (length bits) then ok (get_or bits i false) else fault out_of_bounds
test_bit (negsuc i) bits = fault out_of_bounds

-- The number of set bits among the first `n`.
unfoldable pub used : ℕ → List Bool → ℕ
used zero bits = 0
used (suc n) [] = 0
used (suc n) (true ∷ bits) = suc (used n bits)
used (suc n) (false ∷ bits) = used n bits

pub used-le : (n : ℕ) (bits : List Bool) → used n bits ≤ n
unfolding used
used-le zero bits = omega arith
used-le (suc n) [] = omega arith
used-le (suc n) (true ∷ bits) = omega (arith, used-le n bits)
used-le (suc n) (false ∷ bits) = omega (arith, used-le n bits)

-- What the search returns: a bit that is clear, or `size` if all are set.
pub record FirstZero (bits : List Bool) (size i : ℕ) : Type 0 where
  pub bound : i ≤ size
  pub clear : i < size → get_or bits i false ≡ false
  pub room : i < size → used size bits < size
  pub full : i ≡ size → used size bits ≡ size

FirstZero-next :
    {bits : List Bool} {size i : ℕ}
    → FirstZero bits size i
    → FirstZero (true ∷ bits) (suc size) (suc i)
unfolding used
FirstZero-next h = record {
  bound = omega (arith, h.bound);
  clear = λ lt. h.clear (omega arith);
  room = λ lt. omega (arith, h.room (omega arith));
  full = λ e. omega (arith, h.full (omega arith));
}

pub find_first_zero_bit-FirstZero :
    (bits : List Bool) (size : ℕ)
    → size ≤ length bits
    → Returns (find_first_zero_bit bits size) (FirstZero bits size)
unfolding find_first_zero_bit used
find_first_zero_bit-FirstZero bits zero h = (
  0,
  refl,
  record {
    bound = omega arith;
    clear = λ lt. absurd (omega arith);
    room = λ lt. lt;
    full = λ e. refl;
  },
)
find_first_zero_bit-FirstZero [] (suc size) h = absurd (omega arith)
find_first_zero_bit-FirstZero (false ∷ bits) (suc size) h = (
  0,
  refl,
  record {
    bound = omega arith;
    clear = λ lt. refl;
    room = λ lt. omega (arith, used-le size bits);
    full = λ e. absurd (omega arith);
  },
)
find_first_zero_bit-FirstZero (true ∷ bits) (suc size) h =
    let (i, run, z) = find_first_zero_bit-FirstZero bits size (omega arith) in
    (suc i, rw run, FirstZero-next z)

pub bitmap_write-ok :
    (bits : List Bool) (i : ℕ) (v : Bool)
    → i < length bits
    → bitmap_write bits i v ≡ ok (set bits i v)
unfolding bitmap_write
bitmap_write-ok bits i v h = rw (lt→ltb i (length bits) h)

pub test_bit-ok :
    (bits : List Bool) (i : ℕ) → i < length bits → test_bit (pos i) bits ≡ ok (get_or bits i false)
unfolding test_bit
test_bit-ok bits i h = rw (lt→ltb i (length bits) h)

-- Setting a clear bit among the first `n` counts one more.
pub used-set :
    (n : ℕ) (bits : List Bool) (i : ℕ)
    → i < n
    → i < length bits
    → get_or bits i false ≡ false
    → used n (set bits i true) ≡ suc (used n bits)
unfolding used
used-set zero bits i h l e = absurd (omega arith)
used-set (suc n) [] i h l e = absurd (omega arith)
used-set (suc n) (true ∷ bits) zero h l e = cc
used-set (suc n) (false ∷ bits) zero h l e = refl
used-set (suc n) (true ∷ bits) (suc i) h l e =
    omega (arith, used-set n bits i (omega arith) (omega arith) e)
used-set (suc n) (false ∷ bits) (suc i) h l e = used-set n bits i (omega arith) (omega arith) e

-- Clearing a set bit among the first `n` counts one less.
pub used-clear :
    (n : ℕ) (bits : List Bool) (i : ℕ)
    → i < n
    → i < length bits
    → get_or bits i false ≡ true
    → suc (used n (set bits i false)) ≡ used n bits
unfolding used
used-clear zero bits i h l e = absurd (omega arith)
used-clear (suc n) [] i h l e = absurd (omega arith)
used-clear (suc n) (true ∷ bits) zero h l e = refl
used-clear (suc n) (false ∷ bits) zero h l e = cc
used-clear (suc n) (true ∷ bits) (suc i) h l e =
    omega (arith, used-clear n bits i (omega arith) (omega arith) e)
used-clear (suc n) (false ∷ bits) (suc i) h l e = used-clear n bits i (omega arith) (omega arith) e

-- A read after a write, bit by bit.
pub get_or-write :
    (bits : List Bool) (i j : ℕ) (v : Bool)
    → i < length bits
    → get_or (set bits i v) j false ≡ (if j == i then v else get_or bits j false)
get_or-write [] i j v h = absurd (omega arith)
get_or-write (b ∷ bits) zero zero v h = refl
get_or-write (b ∷ bits) zero (suc j) v h = ground arith
get_or-write (b ∷ bits) (suc i) zero v h = ground arith
get_or-write (b ∷ bits) (suc i) (suc j) v h = ground (arith, get_or-write bits i j v)
