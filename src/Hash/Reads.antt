-- ===== src/Hash/Reads.antt =====
-- Which bytes of its buffer the hash of flatfs/hash.c reads.
use flatfs.Common.{
  ℕ, zero, suc, ◌+◌, ◌-◌, ◌*◌, ◌/◌, ◌%◌, ◌≤◌, ◌<◌, ◌≡◌, refl, sym, ◌∙◌, ap, List, [], ◌∷◌, take,
  drop, leb, Bool-cases, inl, inr, length, ◌==◌, if◌then◌else◌, arith,
}
use flatfs.Name.{my_strlen, c_str}
use flatfs.Hash.{
  read_bytes, hash_read64_align, hash_read32_align, Lanes, lanes_step, lanes_loop, words_loop,
  half_word, bytes_loop, start_hash, string_key_hash_computation, hash, avalanche,
}

drop-take : (k m n : ℕ) (p : List ℕ) → k + m ≡ n → drop k (take n p) ≡ take m (drop k p)
drop-take zero m n p h = let e : m ≡ n = omega arith in rw e refl
drop-take (suc k) m zero p h = absurd (omega arith)
drop-take (suc k) zero (suc n) [] h = refl
drop-take (suc k) (suc m) (suc n) [] h = refl
drop-take (suc k) m (suc n) (b ∷ p) h = drop-take k m n p (omega arith)

read_bytes-take : (m n : ℕ) (p : List ℕ) → m ≤ n → read_bytes m (take n p) ≡ read_bytes m p
unfolding read_bytes
read_bytes-take zero n p h = refl
read_bytes-take (suc m) zero p h = absurd (omega arith)
read_bytes-take (suc m) (suc n) [] h = refl
read_bytes-take (suc m) (suc n) (b ∷ p) h =
    ap (λ x. b + 256 * x) (read_bytes-take m n p (omega arith))

-- A word of `m` bytes, `k` bytes into the buffer.
word-take :
    (m k n : ℕ) (p : List ℕ)
    → k + m ≤ n
    → read_bytes m (drop k (take n p)) ≡ read_bytes m (drop k p)
word-take m k n p h =
    rw (drop-take k (n - k) n p (omega arith)) (read_bytes-take m (n - k) (drop k p) (omega arith))

words_loop-take :
    (n m value : ℕ) (p : List ℕ) → n * 8 ≤ m → words_loop n value (take m p) ≡ words_loop n value p
unfolding words_loop hash_read64_align
words_loop-take zero m value p h = refl
words_loop-take (suc n) m value p h =
    rw (read_bytes-take 8 m p (omega arith), drop-take 8 (m - 8) m p (omega arith))
      (words_loop-take n (m - 8) _ (drop 8 p) (omega arith))

bytes_loop-take :
    (n m value : ℕ) (p : List ℕ) → n ≤ m → bytes_loop n value (take m p) ≡ bytes_loop n value p
unfolding bytes_loop
bytes_loop-take zero m value p h = refl
bytes_loop-take (suc n) zero value p h = absurd (omega arith)
bytes_loop-take (suc n) (suc m) value [] h = refl
bytes_loop-take (suc n) (suc m) value (b ∷ p) h = bytes_loop-take n m _ p (omega arith)

lanes_step-take :
    (v : Lanes) (m : ℕ) (p : List ℕ) → 32 ≤ m → lanes_step v (take m p) ≡ lanes_step v p
unfolding lanes_step hash_read64_align
lanes_step-take v m p h =
    rw
      (
        read_bytes-take 8 m p (omega arith),
        word-take 8 8 m p (omega arith),
        word-take 8 16 m p (omega arith),
        word-take 8 24 m p (omega arith),
      )
      refl

lanes_loop-take :
    (n m : ℕ) (v : Lanes) (p : List ℕ) → n * 32 ≤ m → lanes_loop n v (take m p) ≡ lanes_loop n v p
unfolding lanes_loop
lanes_loop-take zero m v p h = refl
lanes_loop-take (suc n) m v p h =
    rw (lanes_step-take v m p (omega arith), drop-take 32 (m - 32) m p (omega arith))
      (lanes_loop-take n (m - 32) _ (drop 32 p) (omega arith))

start_hash-take : (p : List ℕ) (n seed : ℕ) → start_hash (take n p) n seed ≡ start_hash p n seed
unfolding start_hash
start_hash-take p n seed = elim (Bool-cases (leb 32 n)) [
  | inl e ↦ rw (e, lanes_loop-take (n / 32) n _ p (omega arith)) refl
  | inr e ↦ rw e refl
]

half_word-take : (value m : ℕ) (p : List ℕ) → 4 ≤ m → half_word value (take m p) ≡ half_word value p
unfolding half_word hash_read32_align
half_word-take value m p h = rw (read_bytes-take 4 m p h) refl

-- The last bytes: a half word if there are four, and single bytes.
last-take :
    (value m : ℕ) (p : List ℕ)
    → m < 8
    → bytes_loop
        (m % 4)
        (if leb 4 m then half_word value (take m p) else value)
        (if leb 4 m then drop 4 (take m p) else take m p)
      ≡ bytes_loop
          (m % 4)
          (if leb 4 m then half_word value p else value)
          (if leb 4 m then drop 4 p else p)
last-take value m p h = elim (Bool-cases (leb 4 m)) [
  | inl e ↦
      let four : 4 ≤ m = ground (arith, e) in
      rw (e, half_word-take value m p four, drop-take 4 (m - 4) m p (omega arith))
        (bytes_loop-take (m % 4) (m - 4) _ (drop 4 p) (omega arith))
  | inr e ↦ rw e (bytes_loop-take (m % 4) m value p (omega arith))
]

-- The hash of a buffer is that of the first `n` of its bytes, for a length of `n`: no byte behind the length
-- that the caller gives is read.
pub hash-take : (p : List ℕ) (n seed : ℕ) → hash (take n p) n seed ≡ hash p n seed
unfolding hash string_key_hash_computation
hash-take p n seed =
    let rest = drop (n / 32 * 32) p in
    let left = n % 32 in
    rw
      (
        start_hash-take p n seed,
        drop-take (n / 32 * 32) left n p (omega arith),
        words_loop-take (left / 8) left ((start_hash p n seed + n) % 18446744073709551616) rest
            (omega arith),
        drop-take (left / 8 * 8) (left % 8) left rest (omega arith),
      )
      (ap avalanche (
        let four : left % 8 % 4 ≡ left % 4 = omega arith in
        rw (sym four) (last-take _ (left % 8) (drop (left / 8 * 8) rest) (omega arith))))

-- The bytes of a string are its first ones.
take-c_str : (s : List ℕ) → take (my_strlen s) s ≡ c_str s
unfolding c_str my_strlen
take-c_str [] = refl
take-c_str (x ∷ s) = elim (Bool-cases (x == 0)) [
  | inl e ↦ rw e refl
  | inr e ↦ rw e (ap (λ t. x ∷ t) (take-c_str s))
]

length-c_str : (s : List ℕ) → length (c_str s) ≡ my_strlen s
unfolding c_str my_strlen
length-c_str [] = refl
length-c_str (x ∷ s) = elim (Bool-cases (x == 0)) [
  | inl e ↦ rw e refl
  | inr e ↦ rw e (ap suc (length-c_str s))
]

-- Two buffers with the same string have the same hash.
pub hash-c_str :
    (a b : List ℕ) (seed : ℕ)
    → c_str a ≡ c_str b
    → hash a (my_strlen a) seed ≡ hash b (my_strlen b) seed
hash-c_str a b seed e =
    sym (hash-take a (my_strlen a) seed)
    ∙ rw (take-c_str a, sym (length-c_str a), e)
        (ap (λ n. hash (c_str b) n seed) (length-c_str b)
          ∙ rw (sym (take-c_str b)) (hash-take b (my_strlen b) seed))
