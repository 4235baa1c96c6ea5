-- ===== src/Cuckoo/Update.antt =====
-- `cuckoo_hash_init` and `cuckoo_update` of flatfs/cuckoo_hash.c as operations of a map.
use flatfs.Common.{
  ℕ, ◌*◌, ◌%◌, ◌^◌, ◌<◌, ◌≤◌, ◌≡◌, ◌≢◌, ◌⊎◌, inl, inr, refl, sym, ◌∙◌, ap, List, [], length, set,
  length-set, take, true, false, some, ok, Returns, leb, arith,
}
use flatfs.Name.{c_str, str_eq}
use flatfs.Cuckoo.{
  success, fail, Entry, PathNode, CuckooHash, Draw, f_hash, s_hash, cuckoo_query, cuckoo_update,
  cuckoo_hash_init, generate_seeds, zero_table, put_value, answer, invalid, value_len,
}
use flatfs.Cuckoo.Strings.{KeysEnd-set, key_ends, zero_table-KeysEnd, zero_table-free}
use flatfs.Cuckoo.Keep.{slot_at, Used, entry_at-ok}
use flatfs.Cuckoo.Sound.{Home, IsSound, absent, present, search, search_slots, Used-c_str}
use flatfs.Cuckoo.Same.{cuckoo_query-Finds, cuckoo_query-slot}
use flatfs.Cuckoo.Housed.{slot_at-set, written_cases, Unique-set}
use flatfs.Cuckoo.Laws.{take-take}
use flatfs.Cuckoo.Resized.{zero_table-length}
use flatfs.Cuckoo.Put.{finds, fails}

-- The slot with another value.
abbrev revalued : Entry → List ℕ → Entry
revalued e value = record { key = e.key; value = take value_len value }

put_value-ok :
    (table : List Entry) (p : ℕ) (value : List ℕ)
    → p < length table
    → 8 ≤ length value
    → put_value table p value ≡ ok (set table p (revalued (slot_at table p) value))
unfolding put_value
put_value-ok table p value l h =
    let inside : leb 8 (length value) ≡ true = ground (arith, h) in
    rw (inside, entry_at-ok table p l) refl

module _ (c : CuckooHash) (v : IsSound c) (p : ℕ) (value : List ℕ) (l : p < length c.table) where
  abbrev new_table : List Entry
  new_table = set c.table p (revalued (slot_at c.table p) value)

  update-IsSound : IsSound (record c { table = new_table })
  unfolding f_hash s_hash
  update-IsSound =
      let e = revalued (slot_at c.table p) value in
      record {
        shape = record {
          some_buckets = v.shape.some_buckets;
          size = length-set c.table p e ∙ v.shape.size;
          path1 = v.shape.path1;
          path2 = v.shape.path2;
        };
        keys = KeysEnd-set c.table p e v.keys (key_ends c.table p v.keys l);
        homed =
            written_cases (λ j x. Used x → Home c c.capacity x.key j) c.table p e l (v.homed p l)
              (λ j lj ne. v.homed j lj);
        unique =
            Unique-set c.table p e l (λ j lj ne u same. ne (v.unique j p lj l u same))
              (λ i j li lj ni nj. v.unique i j li lj);
      }

  update-other :
      (key other : List ℕ)
      → c_str (slot_at c.table p).key ≡ c_str key
      → str_eq other invalid ≡ false
      → c_str other ≢ c_str key
      → cuckoo_query (record c { table = new_table }) other ≡ cuckoo_query c other
  update-other key other same named ne =
      let e = revalued (slot_at c.table p) value in
      cuckoo_query-Finds c (record c { table = new_table }) other v update-IsSound
        (λ q lq s. elim (slot_at-set c.table p e q l) [
          | inl (k, at) ↦ absurd (ne (sym s ∙ ap (λ i. c_str (slot_at c.table i).key) k ∙ same))
          | inr (n, at) ↦ (q, rw (length-set c.table p e) lq, at)
        ])
        (written_cases
          (λ j x.
            c_str x.key ≡ c_str other → (q : ℕ) × (q < length c.table) × (slot_at c.table q ≡ x))
          c.table p e l (λ s. absurd (ne (sym s ∙ same))) (λ j lj n s. (j, lj, refl)))
        named

-- On a hash in order, cuckoo_update of a key that is not the empty string with a value of eight bytes returns
-- a hash in order: it succeeds where a look-up finds the key, and then a look-up of the key gives the new value and
-- one of any other key gives what it gave before; it fails where a look-up fails, and changes nothing.
pub cuckoo_update-cuckoo_query :
    (c : CuckooHash) (key value : List ℕ)
    → IsSound c
    → str_eq key invalid ≡ false
    → 8 ≤ length value
    → Returns (cuckoo_update c key value) (λ (status, d).
      IsSound d
      × (((status ≡ success)
            × ((old : List ℕ) × cuckoo_query c key ≡ finds old)
            × (cuckoo_query d key ≡ finds (take 8 value))
            × ((other : List ℕ)
                → str_eq other invalid ≡ false
                → c_str other ≢ c_str key
                → cuckoo_query d other ≡ cuckoo_query c other))
          ⊎ ((status ≡ fail) × (cuckoo_query c key ≡ fails) × (d ≡ c))))
unfolding cuckoo_update cuckoo_query answer
cuckoo_update-cuckoo_query c key value v named eight =
    let (f, s, buckets, result) = search_slots c key v named in
    elim result [
      | inl (none_found, missing) ↦ (
        (fail, c),
        rw (buckets, none_found) refl,
        (v, inr (refl, rw (buckets, none_found) refl, refl)),
      )
      | inr (p, hit, l, same) ↦
          let e = revalued (slot_at c.table p) value in
          let d = record c { table = set c.table p e } in
          let w = update-IsSound c v p value l in
          let at : slot_at (set c.table p e) p ≡ e = elim (slot_at-set c.table p e p l) [
            | inl (k, at) ↦ at
            | inr (ne, at) ↦ absurd (ne refl)
          ] in
          (
            (success, d),
            rw (buckets, hit, put_value-ok c.table p value l eight) refl,
            (
              w,
              inl (
                refl,
                (take 8 (slot_at c.table p).value, rw (buckets, hit, entry_at-ok c.table p l) refl),
                cuckoo_query-slot d key p e w (rw (length-set c.table p e) l) at same named
                    ∙ ap finds (take-take 8 value),
                λ other named_other ne. update-other c v p value l key other same named_other ne,
              ),
            ),
          )
    ]

-- A hash of `capacity` buckets with nothing in it.
abbrev fresh : List PathNode → List PathNode → ℕ → ℕ → ℕ → CuckooHash
fresh path1 path2 capacity f s = record {
  table = zero_table capacity;
  capacity = capacity;
  entry_num = 0;
  f_seed = f;
  s_seed = s;
  evict_path1 = path1;
  evict_path2 = path2;
  evict_len = 0;
  find_path = 0;
  resize_write = 0;
  init_write = capacity * 4 % 2 ^ 64;
}

fresh-IsSound :
    (path1 path2 : List PathNode) (capacity f s : ℕ)
    → length path1 ≡ 16
    → length path2 ≡ 16
    → 0 < capacity
    → capacity * 48 < 2 ^ 64
    → IsSound (fresh path1 path2 capacity f s)
fresh-IsSound path1 path2 capacity f s size1 size2 some_buckets room = record {
  shape = record {
    some_buckets = some_buckets;
    size = zero_table-length capacity room;
    path1 = size1;
    path2 = size2;
  };
  keys = zero_table-KeysEnd capacity;
  homed = λ p l u. absurd (zero_table-free capacity p u);
  unique = λ p q l m u e. absurd (zero_table-free capacity p u);
}

-- Where the allocations succeed, with sixteen nodes for each path, and a draw has two different seeds, cuckoo_hash_init for a capacity of one bucket
-- at least, whose table is below 2 ^ 64 bytes, gives a hash in order in which every look-up of a key but the empty
-- string fails.
pub cuckoo_hash_init-fails :
    (path1 path2 : List PathNode) (capacity : ℕ) (draws : List Draw) (f s : ℕ)
    → length path1 ≡ 16
    → length path2 ≡ 16
    → 0 < capacity
    → capacity * 48 < 2 ^ 64
    → generate_seeds draws ≡ some (f, s)
    → (c : CuckooHash) × (cuckoo_hash_init (some (path1, path2)) capacity draws ≡ some (inr c))
      × IsSound c
      × ((key : List ℕ) → str_eq key invalid ≡ false → cuckoo_query c key ≡ fails)
unfolding cuckoo_hash_init answer
cuckoo_hash_init-fails path1 path2 capacity draws f s size1 size2 some_buckets room seeds =
    let c = fresh path1 path2 capacity f s in
    let v = fresh-IsSound path1 path2 capacity f s size1 size2 some_buckets room in
    (
      c,
      rw (cuckoo_hash_init, seeds) refl,
      v,
      λ key named. elim (search c key v named) [
        | absent missing e ↦ e
        | present p l same e ↦ absurd (
            zero_table-free capacity p
              (Used-c_str (record { key = key; value = [] }) (slot_at c.table p) (sym same) named))
      ],
    )
