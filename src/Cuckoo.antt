-- ===== src/Cuckoo.antt =====
-- The cuckoo hash of flatfs/cuckoo_hash.c: its table, the two hashes of a key, and the search that
-- `cuckoo_insert`, `cuckoo_update` and `cuckoo_query` share. The array of buckets of four slots is the
-- list of the slots: slot `i` of bucket `b` stands at 4 * b + i. The array `key` of a slot has four
-- bytes and the value follows it, so a key without a zero byte is read on as a string into what follows,
-- and past the end of the table that is a fault.
pub mod Insert
pub mod Resize
pub mod Strings
pub mod Search
pub mod Inv
pub mod Paths
pub mod Safe
pub mod Keep
pub mod Rehash
pub mod Laws
pub mod Sound
pub mod Same
pub mod Housed
pub mod Resized
pub mod Chain
pub mod Shift
pub mod Trail
pub mod Route
pub mod Evict
pub mod Searches
pub mod Put
pub mod Map
pub mod Update
use flatfs.Common.{
  ℕ, zero, suc, ◌+◌, ◌*◌, ◌/◌, ◌%◌, ◌^◌, List, [], ◌∷◌, ◌++◌, Bool, true, false, ltb, leb, ◌==◌,
  if◌then◌else◌, length, take, drop, set, replicate, Option, some, none, ◌⊎◌, inl, inr, Run, ok,
  fault, out_of_bounds, division_by_zero, check, ◌>>=◌, ◌>>◌,
}
use flatfs.Name.{my_strlen, str_eq}
use flatfs.Hash.{hash}

abbrev pub key_len : ℕ
key_len = 4

abbrev pub value_len : ℕ
value_len = 8

abbrev pub assoc_num : ℕ
assoc_num = 4

abbrev pub resize_factor : ℕ
resize_factor = 2

abbrev pub max_eviction : ℕ
max_eviction = 16

-- `INVALID`, the key of a free slot.
abbrev pub invalid : List ℕ
invalid = []

pub data Status : Type 0 where
  success : Status
  fail : Status
  -- The value -ENOSPC, which is none of the enumeration's.
  enospc : Status

pub record Entry : Type 0 where
  pub key : List ℕ
  pub value : List ℕ

pub record PathNode : Type 0 where
  pub pre_bucket : ℕ
  pub pre_slot : ℕ
  pub next_bucket : ℕ
  pub next_slot : ℕ

pub record CuckooHash : Type 0 where
  pub table : List Entry
  pub capacity : ℕ
  pub entry_num : ℕ
  pub f_seed : ℕ
  pub s_seed : ℕ
  pub evict_path1 : List PathNode
  pub evict_path2 : List PathNode
  pub evict_len : ℕ
  pub find_path : ℕ
  pub resize_write : ℕ
  pub init_write : ℕ

unfoldable pub f_hash : CuckooHash → List ℕ → ℕ
f_hash c key = hash key (my_strlen key) c.f_seed

unfoldable pub s_hash : CuckooHash → List ℕ → ℕ
s_hash c key = hash key (my_strlen key) c.s_seed

-- RESIZE_SAME_OFFSET is defined.
unfoldable pub f_idx : ℕ → ℕ → Run ℕ
f_idx hash_key capacity = if capacity == 0 then fault division_by_zero else ok (hash_key % capacity)

unfoldable pub s_idx : ℕ → ℕ → Run ℕ
s_idx hash_key capacity = if capacity == 0 then fault division_by_zero else ok (hash_key % capacity)

abbrev pub empty_slot : Entry
empty_slot = record { key = replicate 4 0; value = replicate 8 0 }

-- `kzalloc` of `capacity` buckets: the length in bytes wraps, and a slot has twelve.
unfoldable pub zero_table : ℕ → List Entry
zero_table capacity = replicate (capacity * 48 % 2 ^ 64 / 12) empty_slot

abbrev pub empty_node : PathNode
empty_node = record { pre_bucket = 0; pre_slot = 0; next_bucket = 0; next_slot = 0 }

-- One round of the loop of `generate_seeds`: the four numbers that `get_random_bytes` gives.
pub record Draw : Type 0 where
  pub seed1 : ℕ
  pub seed2 : ℕ
  pub seed3 : ℕ
  pub seed4 : ℕ

abbrev first_seed : Draw → ℕ
first_seed d = d.seed1 * 2 ^ (d.seed3 % 63) % 2 ^ 64

abbrev second_seed : Draw → ℕ
second_seed d = d.seed2 * 2 ^ (d.seed4 % 63) % 2 ^ 64

-- The loop ends at the first draw whose seeds differ; nothing, if no draw of the list is such.
unfoldable pub generate_seeds : List Draw → Option (ℕ × ℕ)
generate_seeds [] = none
generate_seeds (d ∷ draws) =
    let rest = generate_seeds draws in
    if first_seed d == second_seed d then rest else some (first_seed d, second_seed d)

-- The first argument is the memory of the two paths, as `kmalloc` gives it: its nodes hold anything. Where an
-- allocation fails, and there is none, the code returns the address -ENOSPC.
unfoldable pub cuckoo_hash_init :
    Option (List PathNode × List PathNode) → ℕ → List Draw → Option (Status ⊎ CuckooHash)
cuckoo_hash_init none capacity draws = some (inl enospc)
cuckoo_hash_init (some (path1, path2)) capacity draws = elim (generate_seeds draws) [
  | none ↦ none
  | some seeds ↦ some (
      inr (record {
        table = zero_table capacity;
        capacity = capacity;
        entry_num = 0;
        f_seed = seeds.0;
        s_seed = seeds.1;
        evict_path1 = path1;
        evict_path2 = path2;
        evict_len = 0;
        find_path = 0;
        resize_write = 0;
        init_write = capacity * assoc_num % 2 ^ 64;
      }))
]

-- The slots from a position on.
unfoldable pub slots_from : List Entry → ℕ → Run (List Entry)
slots_from table p = if ltb p (length table) then ok (drop p table) else fault out_of_bounds

-- The bytes from the key of the first slot of a list on.
unfoldable pub bytes : List Entry → List ℕ
bytes [] = []
bytes (e ∷ es) = e.key ++ (e.value ++ bytes es)

-- A string in the table without a zero byte is read past the end of the table.
unfoldable pub terminated : List ℕ → Run (List ℕ)
terminated s = if ltb (my_strlen s) (length s) then ok s else fault out_of_bounds

-- The key of a slot as a string, which `strlen` or `strcmp` reads to its end.
unfoldable pub key_at : List Entry → ℕ → Run (List ℕ)
key_at table p = slots_from table p >>= λ es. terminated (bytes es)

unfoldable pub entry_at : List Entry → ℕ → Run Entry
entry_at [] p = fault out_of_bounds
entry_at (e ∷ es) zero = ok e
entry_at (e ∷ es) (suc p) = entry_at es p

-- `strcmp(table[…].slot[…].key, key) == 0`
unfoldable pub same_key : List Entry → ℕ → List ℕ → Run Bool
same_key table p key = key_at table p >>= λ k. ok (str_eq k key)

-- The first of the `n` slots of bucket `b` from slot `i` on whose key is the string `key`.
unfoldable pub bucket_slot : List Entry → List ℕ → ℕ → ℕ → ℕ → Run (Option ℕ)
bucket_slot table key b zero i = ok none
bucket_slot table key b (suc n) i = same_key table (b * assoc_num + i) key >>= λ t. elim t [
  | true ↦ ok (some i)
  | false ↦ bucket_slot table key b n (suc i)
]

-- The search of two buckets in turn, slot by slot: the position of the first slot whose key is `key`.
unfoldable pub either_slot : List Entry → List ℕ → ℕ → ℕ → ℕ → ℕ → Run (Option ℕ)
either_slot table key f s zero i = ok none
either_slot table key f s (suc n) i = same_key table (f * assoc_num + i) key >>= λ t. elim t [
  | true ↦ ok (some (f * assoc_num + i))
  | false ↦ same_key table (s * assoc_num + i) key >>= λ u. elim u [
    | true ↦ ok (some (s * assoc_num + i))
    | false ↦ either_slot table key f s n (suc i)
  ]
]

-- `memcpy` of the value and of the key into a slot.
unfoldable pub put : List Entry → ℕ → List ℕ → List ℕ → Run (List Entry)
put table p key value =
    check (ltb p (length table)) out_of_bounds
    >> check (leb value_len (length value)) out_of_bounds
    >> check (leb key_len (length key)) out_of_bounds
    >> ok (set table p (record { key = take key_len key; value = take value_len value }))

-- The buckets of a key.
unfoldable pub buckets_of : CuckooHash → List ℕ → Run (ℕ × ℕ)
buckets_of c key =
    f_idx (f_hash c key) c.capacity >>= λ f. s_idx (s_hash c key) c.capacity >>= λ s. ok (f, s)

unfoldable pub put_value : List Entry → ℕ → List ℕ → Run (List Entry)
put_value table p value =
    check (leb value_len (length value)) out_of_bounds
    >> (entry_at table p >>= λ e.
        ok (set table p (record { key = e.key; value = take value_len value })))

unfoldable pub cuckoo_update : CuckooHash → List ℕ → List ℕ → Run (Status × CuckooHash)
cuckoo_update c key value = buckets_of c key >>= λ (f, s).
    either_slot c.table key f s assoc_num 0 >>= λ found. elim found [
      | none ↦ ok (fail, c)
      | some p ↦ put_value c.table p value >>= λ t. ok (success, record c { table = t })
    ]

-- The answer, with the value that is copied to the caller.
unfoldable pub answer : List Entry → Option ℕ → Run (Status × Option (List ℕ))
answer table none = ok (fail, none)
answer table (some p) = entry_at table p >>= λ e. ok (success, some (take value_len e.value))

unfoldable pub cuckoo_query : CuckooHash → List ℕ → Run (Status × Option (List ℕ))
cuckoo_query c key = buckets_of c key >>= λ (f, s).
    either_slot c.table key f s assoc_num 0 >>= λ found. answer c.table found
