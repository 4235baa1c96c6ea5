-- ===== src/Cuckoo/Insert.antt =====
-- Insertion into the cuckoo hash: `find_path`, `execute_path` and `cuckoo_insert` of
-- flatfs/cuckoo_hash.c.
use flatfs.Common.{
  Option, ℕ, zero, suc, ◌+◌, ◌-◌, ◌*◌, ◌%◌, ◌^◌, List, [], ◌∷◌, Bool, true, false, ltb, ◌==◌,
  if◌then◌else◌, length, set, some, none, Run, ok, fault, out_of_bounds, check, ◌>>=◌, ◌>>◌,
}
use flatfs.Cuckoo.{
  Status, success, fail, Entry, PathNode, CuckooHash, f_hash, s_hash, f_idx, s_idx, key_at,
  entry_at, bucket_slot, either_slot, put, buckets_of, assoc_num, max_eviction, invalid,
}

-- -ENOSPC as an unsigned number.
abbrev pub path_error : ℕ
path_error = 2 ^ 64 - 28

-- What `find_path` has changed when it returns: the length it returns, the path and the counter.
pub record Found : Type 0 where
  pub len : ℕ
  pub paths : List PathNode
  pub count : ℕ

-- Of the two buckets of a key, the one in which the key does not stand; nothing, if it stands in neither.
unfoldable pub other_bucket : ℕ → ℕ → ℕ → Option ℕ
other_bucket cur f s = if f == cur then some s else if s == cur then some f else none

-- The loop, with `n` rounds left; `used` nodes of the path have been written.
unfoldable pub path_loop : CuckooHash → ℕ → ℕ → ℕ → ℕ → List PathNode → ℕ → Run Found
path_loop c zero used cur_bucket cur_slot paths count =
    ok (record { len = 0; paths = paths; count = count })
path_loop c (suc n) used cur_bucket cur_slot paths count =
    key_at c.table (cur_bucket * assoc_num + cur_slot) >>= λ key.
    f_idx (f_hash c key) c.capacity >>= λ f. s_idx (s_hash c key) c.capacity >>= λ s.
    elim (other_bucket cur_bucket f s) [
      | none ↦ ok (record { len = path_error; paths = paths; count = suc count % 2 ^ 64 })
      | some evict_bucket ↦ bucket_slot c.table invalid evict_bucket assoc_num 0 >>= λ free.
          elim free [
            | some i ↦ ok (record {
              len = suc used;
              paths = set paths used (record {
                pre_bucket = cur_bucket;
                pre_slot = cur_slot;
                next_bucket = evict_bucket;
                next_slot = i;
              });
              count = suc count % 2 ^ 64;
            })
            | none ↦
                path_loop c n (suc used) evict_bucket (assoc_num - 1)
                  (set paths used (record {
                    pre_bucket = cur_bucket;
                    pre_slot = cur_slot;
                    next_bucket = evict_bucket;
                    next_slot = assoc_num - 1;
                  }))
                  (suc count % 2 ^ 64)
          ]
    ]

-- `first` says that the path goes to `evict_path1`.
unfoldable pub find_path : CuckooHash → ℕ → ℕ → Bool → Run (ℕ × CuckooHash)
find_path c bucket slot true =
    path_loop c max_eviction 0 bucket slot c.evict_path1 c.find_path >>= λ r.
    ok (r.len, record c { evict_path1 = r.paths; find_path = r.count })
find_path c bucket slot false =
    path_loop c max_eviction 0 bucket slot c.evict_path2 c.find_path >>= λ r.
    ok (r.len, record c { evict_path2 = r.paths; find_path = r.count })

unfoldable pub node_at : List PathNode → ℕ → Run PathNode
node_at [] i = fault out_of_bounds
node_at (x ∷ xs) zero = ok x
node_at (x ∷ xs) (suc i) = node_at xs i

-- The loop downwards, with `n` nodes left: the slot of a node is copied to the next one.
unfoldable pub moves : List PathNode → ℕ → List Entry → Run (List Entry)
moves paths zero table = ok table
moves paths (suc n) table = node_at paths n >>= λ x.
    entry_at table (x.pre_bucket * assoc_num + x.pre_slot) >>= λ e.
    check (ltb (x.next_bucket * assoc_num + x.next_slot) (length table)) out_of_bounds
    >> moves paths n (set table (x.next_bucket * assoc_num + x.next_slot) e)

-- The index is signed: a length whose predecessor is negative gives no rounds.
unfoldable pub execute_path : List Entry → List PathNode → ℕ → Run (List Entry)
execute_path table paths path_len =
    if ltb (2 ^ 63) path_len then ok table else moves paths path_len table

-- The slot that the shorter path has freed is written.
unfoldable pub evict_into :
    CuckooHash → List ℕ → List ℕ → ℕ → ℕ → List PathNode → ℕ → Run (Status × CuckooHash)
evict_into c key value bucket slot path path_len = execute_path c.table path path_len >>= λ moved.
    put moved (bucket * assoc_num + slot) key value >>= λ t. ok (
      success,
      record c {
        table = t;
        evict_len = (c.evict_len + path_len) % 2 ^ 64;
        entry_num = suc c.entry_num % 2 ^ 64;
      },
    )

-- The loop of the evictions, with `n` slots left from slot `i` on.
unfoldable pub evict_loop : CuckooHash → List ℕ → List ℕ → ℕ → ℕ → ℕ → ℕ → Run (Status × CuckooHash)
evict_loop c key value f s zero i = ok (fail, c)
evict_loop c key value f s (suc n) i = find_path c f i true >>= λ (len1, c1).
    find_path c1 s i false >>= λ (len2, c2). elim (len1 == 0) [
      | true ↦ elim (len2 == 0) [
        | true ↦ evict_loop c2 key value f s n (suc i)
        | false ↦ evict_into c2 key value s i c2.evict_path2 len2
      ]
      | false ↦
          if len2 == 0
          then evict_into c2 key value f i c2.evict_path1 len1
          else if ltb len1 len2
          then evict_into c2 key value f i c2.evict_path1 len1
          else evict_into c2 key value s i c2.evict_path2 len2
    ]

unfoldable pub cuckoo_insert : CuckooHash → List ℕ → List ℕ → Run (Status × CuckooHash)
cuckoo_insert c key value = buckets_of c key >>= λ (f, s).
    either_slot c.table invalid f s assoc_num 0 >>= λ free. elim free [
      | some p ↦ put c.table p key value >>= λ t.
          ok (success, record c { table = t; entry_num = suc c.entry_num % 2 ^ 64 })
      | none ↦ evict_loop c key value f s assoc_num 0
    ]
