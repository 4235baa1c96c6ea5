-- ===== src/Cuckoo/Resized.antt =====
-- How `cuckoo_resize` of flatfs/cuckoo_hash.c ends, and its look-ups then.
use flatfs.Common.{
  ℕ, ◌+◌, ◌*◌, ◌/◌, ◌%◌, ◌^◌, ◌<◌, ◌≡◌, ◌⊎◌, refl, ◌∙◌, List, length, length-replicate, Bool, true,
  false, Returns, inl, inr, arith,
}
use flatfs.Name.{str_eq}
use flatfs.Cuckoo.{
  Status, success, enospc, Entry, empty_slot, zero_table, CuckooHash, invalid, cuckoo_query, f_hash,
  s_hash,
}
use flatfs.Cuckoo.Resize.{cuckoo_resize}
use flatfs.Cuckoo.Rehash.{Holds, rehash-Copied}
use flatfs.Cuckoo.Inv.{IsCuckoo}
use flatfs.Cuckoo.Strings.{KeysEnd, zero_table-KeysEnd}
use flatfs.Cuckoo.Sound.{IsSound}
use flatfs.Cuckoo.Same.{Within, cuckoo_query-Finds, Within-Finds}
use flatfs.Cuckoo.Housed.{Housed, zero_table-Housed}
use flatfs.Cuckoo.Keep.{slot_at}

pub zero_table-length : (n : ℕ) → n * 48 < 2 ^ 64 → length (zero_table n) ≡ n * 4
unfolding zero_table
zero_table-length n h = length-replicate (n * 48 % 2 ^ 64 / 12) empty_slot ∙ omega arith

-- How a resize ends: with a table of twice the size that holds every entry, or with the table as it was.
abbrev pub Resized : CuckooHash → Status × CuckooHash → Type 0
Resized c (status, d) =
    ((status ≡ enospc) × (d.table ≡ c.table) × (d.capacity ≡ c.capacity))
    ⊎ ((status ≡ success)
        × (d.capacity ≡ c.capacity * 2)
        × IsCuckoo d
        × KeysEnd d.table
        × ((p : ℕ) → p < length c.table → Holds d.table (slot_at c.table p)))

-- A hash in order stays in order, with the same entries.
abbrev pub Kept : CuckooHash → Status × CuckooHash → Type 0
Kept c (status, d) = IsSound c → IsSound d × Within c.table d.table × Within d.table c.table

-- The counts of the writes are no matter of the order.
written_lem : (c : CuckooHash) (k : ℕ) → IsSound c → IsSound (record c { init_write = k })
unfolding f_hash s_hash
written_lem c k v = record {
  shape = record {
    some_buckets = v.shape.some_buckets;
    size = v.shape.size;
    path1 = v.shape.path1;
    path2 = v.shape.path2;
  };
  keys = v.keys;
  homed = v.homed;
  unique = v.unique;
}

Within-self : (t : List Entry) → Within t t
Within-self t p l u = (p, l, refl)

-- The hash with the new table.
resized_lem :
    (c : CuckooHash) (n k w i : ℕ) (t : List Entry)
    → length t ≡ n * 4
    → 0 < n
    → KeysEnd t
    → Housed (record c { init_write = i }) n k t
    → IsSound c
    → IsSound (record c { capacity = n; table = t; resize_write = w; init_write = i })
unfolding f_hash s_hash
resized_lem c n k w i t size some_new keys h v = record {
  shape = record {
    some_buckets = some_new;
    size = size;
    path1 = v.shape.path1;
    path2 = v.shape.path2;
  };
  keys = keys;
  homed = h.homed;
  unique = h.unique;
}

cuckoo_resize-Kept :
    (memory : Bool) (c : CuckooHash)
    → IsCuckoo c
    → KeysEnd c.table
    → c.capacity * 96 < 2 ^ 64
    → Returns (cuckoo_resize memory c) (λ r. Resized c r × Kept c r)
unfolding cuckoo_resize
cuckoo_resize-Kept false c v keys room = (
  (enospc, c),
  refl,
  (inl (refl, refl, refl), λ s. (s, Within-self c.table, Within-self c.table)),
)
cuckoo_resize-Kept true c v keys room =
    let m = c.capacity * 2 % 2 ^ 64 in
    let double : m ≡ c.capacity * 2 = omega arith in
    let size : length (zero_table m) ≡ m * 4 = zero_table-length m (omega arith) in
    let i = (c.init_write + m * 4) % 2 ^ 64 in
    let written : CuckooHash = record c { init_write = i } in
    let w : IsCuckoo written = record {
      some_buckets = v.some_buckets;
      size = v.size;
      path1 = v.path1;
      path2 = v.path2;
    } in
    let some_new : 0 < m = omega (arith, v.some_buckets) in
    elim (rehash-Copied written w keys m some_new (zero_table m) size (zero_table-KeysEnd m)) [
      | inl full ↦ (
        (enospc, written),
        rw full refl,
        (
          inl (refl, refl, refl),
          λ s. (written_lem c i s, Within-self c.table, Within-self c.table),
        ),
      )
      | inr (t, run, g, housed, all) ↦
          let rewritten = (c.resize_write + c.entry_num) % 2 ^ 64 in
          (
            (success, record written { capacity = m; table = t; resize_write = rewritten }),
            rw run refl,
            (
              inr (
                refl,
                double,
                record {
                  some_buckets = some_new;
                  size = g.size ∙ size;
                  path1 = v.path1;
                  path2 = v.path2;
                },
                g.keys,
                all,
              ),
              λ s.
                  let h = housed s.unique (zero_table-Housed written m m) in
                  (
                    resized_lem c m (c.capacity * 4) rewritten i t (g.size ∙ size) some_new g.keys h
                        s,
                    (λ p l u. all p l u),
                    (λ q l u. let (p, b, e) = h.sources q l u in (p, rw v.size b, e)),
                  ),
            ),
          )
    ]

-- On a table of the right shape, whose keys end within their four bytes, and whose double is below 2 ^ 64 bytes,
-- cuckoo_resize returns: it succeeds, with a table of twice the buckets in which every entry of
-- the old table stands, or it fails with -ENOSPC and leaves the table as it was.
pub cuckoo_resize-Resized :
    (memory : Bool) (c : CuckooHash)
    → IsCuckoo c
    → KeysEnd c.table
    → c.capacity * 96 < 2 ^ 64
    → Returns (cuckoo_resize memory c) (Resized c)
cuckoo_resize-Resized memory c v keys room =
    let (r, run, (done, kept)) = cuckoo_resize-Kept memory c v keys room in (r, run, done)

-- On a hash in order, where every key stands in one of its two buckets and in one slot alone, and whose double is
-- below 2 ^ 64 bytes, cuckoo_resize returns: it succeeds, with a table of twice the buckets, or it fails with -ENOSPC and
-- leaves the table as it was; either way the hash is in order, and a look-up of any key but the empty string
-- gives the status and the value that it gave before.
pub cuckoo_resize-cuckoo_query :
    (memory : Bool) (c : CuckooHash)
    → IsSound c
    → c.capacity * 96 < 2 ^ 64
    → Returns (cuckoo_resize memory c) (λ (status, d).
      Resized c (status, d)
      × IsSound d
      × ((key : List ℕ) → str_eq key invalid ≡ false → cuckoo_query d key ≡ cuckoo_query c key))
cuckoo_resize-cuckoo_query memory c v room =
    let ((status, d), run, (done, kept)) = cuckoo_resize-Kept memory c v.shape v.keys room in
    let (sound, there, back) = kept v in
    (
      (status, d),
      run,
      (
        done,
        sound,
        λ key named.
            cuckoo_query-Finds c d key v sound (Within-Finds key c.table d.table named there)
              (Within-Finds key d.table c.table named back) named,
      ),
    )
