-- ===== src/Hash.antt =====
-- The hash of flatfs/hash.c: `string_key_hash_computation` on the first `length` bytes of a buffer. Both
-- ways to read a word, for an aligned address and for another, read the same bytes, lowest first.
pub mod Reads
use flatfs.Common.{
  ℕ, zero, suc, ◌+◌, ◌-◌, ◌*◌, ◌/◌, ◌%◌, ◌^◌, bit_or, bit_xor, List, [], ◌∷◌, leb, drop,
  if◌then◌else◌,
}

abbrev pub number64_1 : ℕ
number64_1 = 11400714785074694791

abbrev pub number64_2 : ℕ
number64_2 = 14029467366897019727

abbrev pub number64_3 : ℕ
number64_3 = 1609587929392839161

abbrev pub number64_4 : ℕ
number64_4 = 9650029242287828579

abbrev pub number64_5 : ℕ
number64_5 = 2870177450012600261

abbrev pub mul64 : ℕ → ℕ → ℕ
mul64 a b = a * b % 2 ^ 64

abbrev pub add64 : ℕ → ℕ → ℕ
add64 a b = (a + b) % 2 ^ 64

-- `shifting_hash`: a rotation to the left.
unfoldable pub shifting_hash : ℕ → ℕ → ℕ
shifting_hash x r = bit_or (x * 2 ^ r % 2 ^ 64) (x / 2 ^ (64 - r))

-- The number whose bytes are the first `n` of a buffer, lowest first.
unfoldable pub read_bytes : ℕ → List ℕ → ℕ
read_bytes zero p = 0
read_bytes (suc n) [] = 0
read_bytes (suc n) (b ∷ p) = b + 256 * read_bytes n p

unfoldable pub hash_read64_align : List ℕ → ℕ
hash_read64_align p = read_bytes 8 p

unfoldable pub hash_read32_align : List ℕ → ℕ
hash_read32_align p = read_bytes 4 p

-- One word into one of the four lanes.
unfoldable pub round : ℕ → ℕ → ℕ
round v word = mul64 (shifting_hash (add64 v (mul64 word number64_2)) 31) number64_1

-- The four lanes.
pub record Lanes : Type 0 where
  pub v1 : ℕ
  pub v2 : ℕ
  pub v3 : ℕ
  pub v4 : ℕ

unfoldable pub lanes_step : Lanes → List ℕ → Lanes
lanes_step v p = record {
  v1 = round v.v1 (hash_read64_align p);
  v2 = round v.v2 (hash_read64_align (drop 8 p));
  v3 = round v.v3 (hash_read64_align (drop 16 p));
  v4 = round v.v4 (hash_read64_align (drop 24 p));
}

-- The loop over blocks of 32 bytes, of which there are `n`.
unfoldable pub lanes_loop : ℕ → Lanes → List ℕ → Lanes
lanes_loop zero v p = v
lanes_loop (suc n) v p = lanes_loop n (lanes_step v p) (drop 32 p)

-- A lane is joined into the hash.
unfoldable pub merge : ℕ → ℕ → ℕ
merge hash v =
    let w = mul64 (shifting_hash (mul64 v number64_2) 31) number64_1 in
    add64 (mul64 (bit_xor hash w) number64_1) number64_4

unfoldable pub merge_lanes : Lanes → ℕ
merge_lanes v =
    let sum =
      add64 (add64 (add64 (shifting_hash v.v1 1) (shifting_hash v.v2 7)) (shifting_hash v.v3 12))
        (shifting_hash v.v4 18) in
    merge (merge (merge (merge sum v.v1) v.v2) v.v3) v.v4

-- The loop over the words of eight bytes that are left, `n` of them.
unfoldable pub words_loop : ℕ → ℕ → List ℕ → ℕ
words_loop zero hash p = hash
words_loop (suc n) hash p =
    let k1 = mul64 (shifting_hash (mul64 (hash_read64_align p) number64_2) 31) number64_1 in
    words_loop n (add64 (mul64 (shifting_hash (bit_xor hash k1) 27) number64_1) number64_4)
      (drop 8 p)

unfoldable pub half_word : ℕ → List ℕ → ℕ
half_word hash p =
    add64
      (mul64 (shifting_hash (bit_xor hash (mul64 (hash_read32_align p) number64_1)) 23) number64_2)
      number64_3

-- The loop over the bytes that are left, `n` of them.
unfoldable pub bytes_loop : ℕ → ℕ → List ℕ → ℕ
bytes_loop zero hash p = hash
bytes_loop (suc n) hash [] = hash
bytes_loop (suc n) hash (b ∷ p) =
    bytes_loop n (mul64 (shifting_hash (bit_xor hash (mul64 b number64_5)) 11) number64_1) p

unfoldable pub avalanche : ℕ → ℕ
avalanche hash =
    let a = mul64 (bit_xor hash (hash / 2 ^ 33)) number64_2 in
    let b = mul64 (bit_xor a (a / 2 ^ 29)) number64_3 in bit_xor b (b / 2 ^ 32)

-- The start: from the blocks of 32 bytes, if there is one, or from the seed.
unfoldable pub start_hash : List ℕ → ℕ → ℕ → ℕ
start_hash p length seed =
    if leb 32 length
    then merge_lanes (
        lanes_loop (length / 32)
          (record {
            v1 = add64 (add64 seed number64_1) number64_2;
            v2 = add64 seed number64_2;
            v3 = seed;
            v4 = (seed + (2 ^ 64 - number64_1)) % 2 ^ 64;
          })
          p)
    else add64 seed number64_5

unfoldable pub string_key_hash_computation : List ℕ → ℕ → ℕ → ℕ
string_key_hash_computation p length seed =
    let rest = drop (length / 32 * 32) p in
    let left = length % 32 in
    let hash = add64 (start_hash p length seed) length in
    let words = words_loop (left / 8) hash rest in
    let behind = drop (left / 8 * 8) rest in
    let half = if leb 4 (left % 8) then half_word words behind else words in
    avalanche (bytes_loop (left % 4) half (if leb 4 (left % 8) then drop 4 behind else behind))

unfoldable pub hash : List ℕ → ℕ → ℕ → ℕ
hash p length seed = string_key_hash_computation p length seed
