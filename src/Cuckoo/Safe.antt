-- ===== src/Cuckoo/Safe.antt =====
-- The outcomes of `cuckoo_insert` of flatfs/cuckoo_hash.c on a table of the right shape.
use flatfs.Common.{
  ℕ, zero, suc, ◌+◌, ◌*◌, ◌%◌, ◌^◌, ◌<◌, ◌≤◌, ◌≡◌, ◌⊎◌, refl, ◌∙◌, List, length, set, length-set,
  true, false, ok, Returns, ◌>>=◌, ◌==◌, Bool-cases, inl, inr, ltb, arith,
}
use flatfs.Cuckoo.{Status, success, fail, PathNode, CuckooHash, invalid}
use flatfs.Cuckoo.Insert.{Found, find_path, evict_into, evict_loop, cuckoo_insert}
use flatfs.Cuckoo.Inv.{IsCuckoo, buckets_of-Returns, either_slot-Returns, slot_cases}
use flatfs.Cuckoo.Paths.{PathIn, Searched, in_table, path_loop-Searched, execute_path-Returns}
use flatfs.Cuckoo.Laws.{written, put-ok}
use flatfs.Cuckoo.Strings.{KeysEnd, KeysEnd-set, c_str-take}
use flatfs.Name.{my_strlen}

-- How an insertion ends: with an entry more, or with the table as it was.
abbrev pub Outcome : CuckooHash → Status × CuckooHash → Type 0
Outcome c (status, d) =
    IsCuckoo d
    × KeysEnd d.table
    × (d.capacity ≡ c.capacity)
    × (((status ≡ success) × (d.entry_num ≡ suc c.entry_num % 2 ^ 64))
        ⊎ ((status ≡ fail) × (d.table ≡ c.table) × (d.entry_num ≡ c.entry_num)))

no_nodes : {n : ℕ} {paths : List PathNode} → length paths ≡ 16 → PathIn n 0 paths
no_nodes h = record { size = h; nodes = λ j lt. absurd (omega arith) }

-- The hash after the two searches of a round.
abbrev searched : CuckooHash → Found → Found → CuckooHash
searched c r1 r2 = record c { evict_path1 = r1.paths; evict_path2 = r2.paths; find_path = r2.count }

searched-IsCuckoo :
    (c : CuckooHash) (r1 r2 : Found)
    → IsCuckoo c
    → Searched c.capacity r1
    → Searched c.capacity r2
    → IsCuckoo (searched c r1 r2)
searched-IsCuckoo c r1 r2 v h1 h2 = record {
  some_buckets = v.some_buckets;
  size = v.size;
  path1 = h1.path.size;
  path2 = h2.path.size;
}

-- Both searches of a round.
both_paths :
    (c : CuckooHash) (f s i : ℕ)
    → IsCuckoo c
    → KeysEnd c.table
    → f < c.capacity
    → s < c.capacity
    → i < 4
    → (r1 : Found) × (r2 : Found) × (find_path c f i true
        ≡ ok (r1.len, record c { evict_path1 = r1.paths; find_path = r1.count }))
      × (find_path (record c { evict_path1 = r1.paths; find_path = r1.count }) s i false
          ≡ ok (r2.len, searched c r1 r2))
      × Searched c.capacity r1
      × Searched c.capacity r2
unfolding find_path
both_paths c f s i v keys hf hs hi =
    let (r1, run1, h1) =
      path_loop-Searched c v keys 16 0 f i c.evict_path1 c.find_path refl hf hi
        (no_nodes v.path1) in
    let v1 : IsCuckoo (record c { evict_path1 = r1.paths; find_path = r1.count }) = record {
      some_buckets = v.some_buckets;
      size = v.size;
      path1 = h1.path.size;
      path2 = v.path2;
    } in
    let (r2, run2, h2) =
      path_loop-Searched (record c { evict_path1 = r1.paths; find_path = r1.count }) v1 keys 16 0 s
        i c.evict_path2 r1.count refl hs hi (no_nodes v.path2) in
    (r1, r2, rw run1 refl, rw run2 refl, h1, h2)

module _ (key value : List ℕ) (short : my_strlen key < 4) (long : 4 ≤ length key)
    (eight : 8 ≤ length value) where
  written-ends : my_strlen (written key value).key < length (written key value).key
  written-ends = (c_str-take 4 key short long).1

  evict_into-Returns :
      (c : CuckooHash) (b i : ℕ) (r : Found)
      → IsCuckoo c
      → KeysEnd c.table
      → b < c.capacity
      → i < 4
      → Searched c.capacity r
      → Returns (evict_into c key value b i r.paths r.len) (Outcome c)
  unfolding evict_into
  evict_into-Returns c b i r v keys hb hi h =
      let (t, run, (same, ends)) = execute_path-Returns c.capacity r c.table v.size keys h in
      let inside : b * 4 + i < length t = in_table c.capacity b i hb hi (same ∙ v.size) in
      let size = length-set t (b * 4 + i) (written key value) ∙ same ∙ v.size in
      (
        (
          success,
          record c {
            table = set t (b * 4 + i) (written key value);
            evict_len = (c.evict_len + r.len) % 2 ^ 64;
            entry_num = suc c.entry_num % 2 ^ 64;
          },
        ),
        rw (run, ◌>>=◌, put-ok t (b * 4 + i) key value inside long eight) refl,
        (
          record { some_buckets = v.some_buckets; size = size; path1 = v.path1; path2 = v.path2 },
          KeysEnd-set t (b * 4 + i) (written key value) ends written-ends,
          refl,
          inl (refl, refl),
        ),
      )

  evict_loop-Returns :
      (c : CuckooHash) (f s n i : ℕ)
      → IsCuckoo c
      → KeysEnd c.table
      → f < c.capacity
      → s < c.capacity
      → i + n ≡ 4
      → Returns (evict_loop c key value f s n i) (Outcome c)
  unfolding evict_loop
  evict_loop-Returns c f s zero i v keys hf hs e =
      ((fail, c), refl, (v, keys, refl, inr (refl, refl, refl)))
  evict_loop-Returns c f s (suc n) i v keys hf hs e =
      let (r1, r2, run1, run2, h1, h2) = both_paths c f s i v keys hf hs (omega arith) in
      let d = searched c r1 r2 in
      let w = searched-IsCuckoo c r1 r2 v h1 h2 in
      let (a1, into1, o1) = evict_into-Returns d f i r1 w keys hf (omega arith) h1 in
      let (a2, into2, o2) = evict_into-Returns d s i r2 w keys hs (omega arith) h2 in
      let (a, rest, o) = evict_loop-Returns d f s n (suc i) w keys hf hs (omega arith) in
      elim (Bool-cases (r1.len == 0)) [
        | inl z1 ↦ elim (Bool-cases (r2.len == 0)) [
          | inl z2 ↦ (a, rw (run1, ◌>>=◌, run2, z1, z2) rest, o)
          | inr z2 ↦ (a2, rw (run1, ◌>>=◌, run2, z1, z2) into2, o2)
        ]
        | inr z1 ↦ elim (Bool-cases (r2.len == 0)) [
          | inl z2 ↦ (a1, rw (run1, ◌>>=◌, run2, z1, z2) into1, o1)
          | inr z2 ↦ elim (Bool-cases (ltb r1.len r2.len)) [
            | inl l ↦ (a1, rw (run1, ◌>>=◌, run2, z1, z2, l) into1, o1)
            | inr l ↦ (a2, rw (run1, ◌>>=◌, run2, z1, z2, l) into2, o2)
          ]
        ]
      ]

  -- On a table of the right shape in which every key has a zero byte among its four, cuckoo_insert of a key of at
  -- most three bytes in a buffer of four, and of a value of eight, returns: it succeeds and counts an entry
  -- more, or fails and leaves the table as it was; the shape stays, and every key still has a zero byte.
  pub cuckoo_insert-Outcome :
      (c : CuckooHash)
      → IsCuckoo c
      → KeysEnd c.table
      → Returns (cuckoo_insert c key value) (Outcome c)
  unfolding cuckoo_insert
  cuckoo_insert-Outcome c v keys =
      let ((f, s), run, (hf, hs)) = buckets_of-Returns c key v in
      elim (slot_cases (
        either_slot-Returns c.table keys invalid f s 4 0 (omega (arith, hf, v.size))
          (omega (arith, hs, v.size)))) [
            | inl full ↦
                let (a, rest, o) = evict_loop-Returns c f s 4 0 v keys hf hs refl in
                (a, rw (run, ◌>>=◌, full) rest, o)
            | inr (p, free, inside) ↦
                let size = length-set c.table p (written key value) ∙ v.size in
                (
                  (
                    success,
                    record c {
                      table = set c.table p (written key value);
                      entry_num = suc c.entry_num % 2 ^ 64;
                    },
                  ),
                  rw (run, ◌>>=◌, free, put-ok c.table p key value inside long eight) refl,
                  (
                    record {
                      some_buckets = v.some_buckets;
                      size = size;
                      path1 = v.path1;
                      path2 = v.path2;
                    },
                    KeysEnd-set c.table p (written key value) keys written-ends,
                    refl,
                    inl (refl, refl),
                  ),
                )
          ]
