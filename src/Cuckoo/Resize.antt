-- ===== src/Cuckoo/Resize.antt =====
-- `cuckoo_resize` of flatfs/cuckoo_hash.c, with RESIZE_SAME_OFFSET defined.
use flatfs.Common.{
  ℕ, zero, suc, ◌+◌, ◌*◌, ◌%◌, ◌^◌, List, Bool, true, false, ◌==◌, if◌then◌else◌, set, Option, some,
  none, Run, ok, ◌>>=◌,
}
use flatfs.Name.{str_eq}
use flatfs.Cuckoo.{
  Status, success, enospc, Entry, CuckooHash, f_hash, s_hash, f_idx, s_idx, key_at, entry_at,
  bucket_slot, either_slot, zero_table, assoc_num, resize_factor, invalid,
}

unfoldable pub in_bucket : ℕ → Option ℕ → Option ℕ
in_bucket b none = none
in_bucket b (some i) = some (b * assoc_num + i)

-- The position in the new table for an entry of the old bucket `cur`, from its buckets in the new table
-- and in the old one: the new bucket of the same hash as the old.
unfoldable pub new_position : List Entry → ℕ → ℕ → ℕ → ℕ → ℕ → Run (Option ℕ)
new_position table cur f s f_off s_off =
    if f_off == s_off
    then either_slot table invalid f s assoc_num 0
    else if f_off == cur
    then (bucket_slot table invalid f assoc_num 0 >>= λ free. ok (in_bucket f free))
    else if s_off == cur
    then (bucket_slot table invalid s assoc_num 0 >>= λ free. ok (in_bucket s free))
    else ok none

-- An entry of the old table is copied to the new one; nothing where the code gives up.
unfoldable pub rehash_entry : CuckooHash → ℕ → ℕ → ℕ → List Entry → Run (Option (List Entry))
rehash_entry c new_capacity cur j new_table = key_at c.table (cur * assoc_num + j) >>= λ key.
    elim (str_eq key invalid) [
      | true ↦ ok (some new_table)
      | false ↦ f_idx (f_hash c key) new_capacity >>= λ f.
          s_idx (s_hash c key) new_capacity >>= λ s. f_idx (f_hash c key) c.capacity >>= λ f_off.
          s_idx (s_hash c key) c.capacity >>= λ s_off.
          new_position new_table cur f s f_off s_off >>= λ free. elim free [
            | none ↦ ok none
            | some p ↦ entry_at c.table (cur * assoc_num + j) >>= λ e. ok (some (set new_table p e))
          ]
    ]

-- The loop over the slots of a bucket, `n` of them from slot `j` on.
unfoldable pub rehash_slots : CuckooHash → ℕ → ℕ → ℕ → ℕ → List Entry → Run (Option (List Entry))
rehash_slots c new_capacity cur zero j new_table = ok (some new_table)
rehash_slots c new_capacity cur (suc n) j new_table =
    rehash_entry c new_capacity cur j new_table >>= λ r. elim r [
      | none ↦ ok none
      | some t ↦ rehash_slots c new_capacity cur n (suc j) t
    ]

-- The loop over the old buckets, `n` of them from bucket `cur` on.
unfoldable pub rehash_buckets : CuckooHash → ℕ → ℕ → ℕ → List Entry → Run (Option (List Entry))
rehash_buckets c new_capacity zero cur new_table = ok (some new_table)
rehash_buckets c new_capacity (suc n) cur new_table =
    rehash_slots c new_capacity cur assoc_num 0 new_table >>= λ r. elim r [
      | none ↦ ok none
      | some t ↦ rehash_buckets c new_capacity n (suc cur) t
    ]

-- `memory` says whether the allocation succeeds. On an error the old table stays.
unfoldable pub cuckoo_resize : Bool → CuckooHash → Run (Status × CuckooHash)
cuckoo_resize false c = ok (enospc, c)
cuckoo_resize true c =
    let new_capacity = c.capacity * resize_factor % 2 ^ 64 in
    let written = record c { init_write = (c.init_write + new_capacity * assoc_num) % 2 ^ 64 } in
    rehash_buckets written new_capacity c.capacity 0 (zero_table new_capacity) >>= λ r. elim r [
      | none ↦ ok (enospc, written)
      | some t ↦ ok (
        success,
        record written {
          capacity = new_capacity;
          table = t;
          resize_write = (c.resize_write + c.entry_num) % 2 ^ 64;
        },
      )
    ]
