-- ===== src/Name.antt =====
-- C strings and their hash: `my_strlen` of flatfs/flatfs_d.h and `BKDRHash` of flatfs/lba.c.
-- A string that is passed to the code, as the VFS passes the name of a dentry, ends in a zero byte: it is the list of its
-- bytes, which may leave the zero byte out, so that the end of the list stands for it. An array may
-- have no zero byte: where the code measures one, Dir.antt and Cuckoo.antt make that a fault. A comparison by
-- `strcmp` with an array of 256 bytes ends within it, since a name has at most 255.
use native.Mathlib.Nat.{pow-suc, mod-add-div, add-mul-mod_self_left}
use flatfs.Common.{
  ℕ, ◌+◌, ◌-◌, ◌*◌, ◌%◌, ◌^◌, ◌<◌, ◌≡◌, sym, ◌∙◌, ◌/◌, Bool-cases, inl, inr, suc, bit_and, List, [],
  ◌∷◌, Bool, true, false, ◌&&◌, ltb, ◌==◌, if◌then◌else◌, length, arith, ap, refl, ==_self,
}
use flatfs.Common.Bits.{bit_and_mask}
use flatfs.Config.{min_file_bucket_bits, min_dir_bits}

-- The bytes before the terminating zero.
unfoldable pub c_str : List ℕ → List ℕ
c_str [] = []
c_str (c ∷ s) = if c == 0 then [] else c ∷ c_str s

unfoldable pub my_strlen : List ℕ → ℕ
my_strlen [] = 0
my_strlen (c ∷ s) = if c == 0 then 0 else suc (my_strlen s)

-- `!strcmp(a, b)`
unfoldable pub same_bytes : List ℕ → List ℕ → Bool
same_bytes [] [] = true
same_bytes [] (d ∷ t) = false
same_bytes (c ∷ s) [] = false
same_bytes (c ∷ s) (d ∷ t) = c == d && same_bytes s t

abbrev pub str_eq : List ℕ → List ℕ → Bool
str_eq a b = same_bytes (c_str a) (c_str b)

-- A `char` is signed: a byte from 128 on is negative, and wraps in unsigned arithmetic.
unfoldable pub char_value : ℕ → ℕ
char_value c = if ltb c 128 then c else c + (2 ^ 32 - 256)

-- The loop of `BKDRHash`.
unfoldable pub bkdr_loop : ℕ → List ℕ → ℕ
bkdr_loop hash [] = hash
bkdr_loop hash (c ∷ s) =
    let rest = bkdr_loop ((hash * 131 % 2 ^ 32 + char_value c) % 2 ^ 32) s in
    if c == 0 then hash else rest

unfoldable pub bkdr_hash : List ℕ → ℕ
bkdr_hash str = bit_and (bkdr_loop 0 str) (2 ^ 31 - 1)

-- The bucket of a name in the table of a directory, and in that of a big directory.
unfoldable pub bucket_of : List ℕ → ℕ
bucket_of name = bit_and (bkdr_hash name) (2 ^ min_file_bucket_bits - 1)

unfoldable pub big_bucket_of : List ℕ → ℕ
big_bucket_of name = bit_and (bkdr_hash name) (2 ^ (min_file_bucket_bits + min_dir_bits) - 1)

-- The polynomial in 131 whose coefficients are the characters.
unfoldable pub polynomial : List ℕ → ℕ
polynomial [] = 0
polynomial (c ∷ s) = char_value c * 131 ^ length s + polynomial s

mul_mod_add : (x p q : ℕ) → (x % 2 ^ 32 * p + q) % 2 ^ 32 ≡ (x * p + q) % 2 ^ 32
mul_mod_add x p q =
    rw split (sym (add-mul-mod_self_left (x % 2 ^ 32 * p + q) (2 ^ 32) (x / 2 ^ 32 * p)))
  where
    split : x * p + q ≡ x % 2 ^ 32 * p + q + 2 ^ 32 * (x / 2 ^ 32 * p)
    split = omega (arith, ap (λ (t : ℕ). t * p) (mod-add-div x (2 ^ 32)))

mod_horner :
    (h v p q : ℕ)
    → ((h * 131 % 2 ^ 32 + v) % 2 ^ 32 * p + q) % 2 ^ 32 ≡ (h * (p * 131) + (v * p + q)) % 2 ^ 32
mod_horner h v p q =
    mul_mod_add (h * 131 % 2 ^ 32 + v) p q
    ∙ ap (λ t. t % 2 ^ 32) (omega arith)
    ∙ mul_mod_add (h * 131) p (v * p + q)
    ∙ ap (λ t. t % 2 ^ 32) (omega arith)

bkdr_loop-polynomial :
    (h : ℕ) (s : List ℕ)
    → h < 2 ^ 32
    → bkdr_loop h s ≡ (h * 131 ^ length (c_str s) + polynomial (c_str s)) % 2 ^ 32
unfolding bkdr_loop c_str polynomial
bkdr_loop-polynomial h [] lt = omega arith
bkdr_loop-polynomial h (c ∷ s) lt = elim (Bool-cases (c == 0)) [
  | inl e ↦ rw e (omega arith)
  | inr e ↦ rw e (
      bkdr_loop-polynomial ((h * 131 % 2 ^ 32 + char_value c) % 2 ^ 32) s (omega arith)
      ∙ (mod_horner h (char_value c) (131 ^ length (c_str s)) (polynomial (c_str s))
          ∙ ap
              (λ t.
                (h * t + (char_value c * 131 ^ length (c_str s) + polynomial (c_str s))) % 2 ^ 32)
              (sym (pow-suc 131 (length (c_str s))))))
]

-- The hash of a string is the polynomial in 131 of its characters, modulo 2 ^ 31.
pub bkdr_hash-polynomial : (s : List ℕ) → bkdr_hash s ≡ polynomial (c_str s) % 2 ^ 31
unfolding bkdr_hash
bkdr_hash-polynomial s =
    omega (arith, bit_and_mask 31 (bkdr_loop 0 s), bkdr_loop-polynomial 0 s (omega arith))

-- Both bucket numbers are inside their table, and the bucket in the small table is the low part of
-- the bucket in the big one.
pub bucket_of-bounds :
    (s : List ℕ)
    → (bucket_of s < 2 ^ 12) × (big_bucket_of s < 2 ^ 18) × (big_bucket_of s % 2 ^ 12 ≡ bucket_of s)
unfolding bucket_of big_bucket_of
bucket_of-bounds s = omega (arith, bit_and_mask 12 (bkdr_hash s), bit_and_mask 18 (bkdr_hash s))

pub same_bytes_self : (s : List ℕ) → same_bytes s s ≡ true
unfolding same_bytes
same_bytes_self [] = refl
same_bytes_self (c ∷ s) = rw (==_self c, same_bytes_self s)
