-- ===== src/Ino/Alloc.antt =====
-- The inode number of a new file: `flatfs_file_slot_alloc_by_name` and the macros `ino_to_slot` and
-- `ino_to_bucket` of flatfs/lba.c and flatfs/flatfs_d.h.
use flatfs.Common.Bits.{bit_or_low, bit_and_mask}
use flatfs.Common.{
  ℕ, ◌<◌, ◌≡◌, ◌+◌, ◌*◌, ◌/◌, ◌^◌, refl, ◌∙◌, sym, ==_iff, Bool, false, ◌==◌, List, pos, to_u64,
  shl_int, Run, ok, ◌>>=◌, Returns, arith, u64_max, ap, update, inl, inr, Bool-cases,
}
use flatfs.Name.{bucket_of, bucket_of-bounds}
use flatfs.Lba.{dir_id_to_inode}
use flatfs.Table.{HashTable, locked}
use flatfs.Table.Buckets.{holds}
use flatfs.Table.Insert.{TableIsValid, Inserted, insert_file-Inserted, insert_file-full}
use flatfs.Ino.{ino_to_slot, ino_to_bucket, compose_ino, flatfs_file_slot_alloc_by_name}

-- Where the shifted directory fits an `int`, the parts add up.
pub compose_ino-small :
    (d seg : ℕ) → d < 2 ^ 14 → seg < 2 ^ 15 → compose_ino 15 seg (pos d) ≡ d * 2 ^ 15 + seg
unfolding compose_ino
compose_ino-small d seg hd hs = rw shifted (bit_or_low 15 d seg hs)
  where
    shifted : to_u64 (shl_int (pos d) 15) ≡ d * 2 ^ 15
    shifted = ground arith

pub compose_ino-big :
    (d seg : ℕ) → d < 2 ^ 10 → seg < 2 ^ 21 → compose_ino 21 seg (pos d) ≡ d * 2 ^ 21 + seg
unfolding compose_ino
compose_ino-big d seg hd hs = rw shifted (bit_or_low 21 d seg hs)
  where
    shifted : to_u64 (shl_int (pos d) 21) ≡ d * 2 ^ 21
    shifted = ground arith

-- An inode number with the directory, bucket and slot that it was made of.
pub record InoAt (ino d b s : ℕ) : Type 0 where
  pub value : ino ≡ (d * 2 ^ 12 + b) * 8 + s
  pub bucket : ino_to_bucket ino ≡ b
  pub slot : ino_to_slot ino ≡ s
  pub dir : ino / 2 ^ 15 ≡ d

pub ino_fields : (d b s : ℕ) → b < 2 ^ 12 → s < 8 → InoAt ((d * 2 ^ 12 + b) * 8 + s) d b s
unfolding ino_to_bucket ino_to_slot
ino_fields d b s hb hs =
    let ino : ℕ = (d * 2 ^ 12 + b) * 8 + s in
    record {
      value = refl;
      bucket = bit_and_mask 12 (ino / 8) ∙ omega arith;
      slot = bit_and_mask 3 ino ∙ omega arith;
      dir = omega arith;
    }

-- What an allocation returns in directory `d`: the insertion it made, and the inode number.
pub record Allocated (ht : HashTable) (d : ℕ) (name : List ℕ) (held : Bool) (r : HashTable × ℕ)
    : Type 0 where
  pub seg : ℕ
  pub inserted : Inserted (2 ^ 12) ht.buckets (bucket_of name) held r.0.buckets seg
  pub ino : InoAt r.1 d (bucket_of name) inserted.slot

module _ (spin_lock : Bool → Run Bool) (ht : HashTable) (d : ℕ) (name : List ℕ) {held : Bool}
    (hd : d < 2 ^ 14) (h : TableIsValid (2 ^ 12) ht.buckets)
    (lock : spin_lock (ht.buckets (bucket_of name)).bkt_lock ≡ ok held) where
  -- With the lock to be had and a slot free, the allocation in directory `d` inserts the name and
  -- returns an inode number from which the macros and a shift give back directory, bucket and slot.
  pub slot_alloc-Allocated :
      (ht.buckets (bucket_of name)).valid_slot_count < 8
      → Returns
          (flatfs_file_slot_alloc_by_name spin_lock ht (pos d) name)
          (Allocated ht d name held)
  unfolding flatfs_file_slot_alloc_by_name
  slot_alloc-Allocated room =
      let (r, run, i) = insert_file-Inserted spin_lock ht name h lock room in
      let k = bucket_of name in
      let bound = (bucket_of-bounds name).0 in
      let seg_fits : r.1 < 2 ^ 15 = omega (arith, i.seg_lem, i.slot_fits) in
      let other : (r.1 == u64_max) ≡ false = ground arith in
      let value : compose_ino 15 r.1 (pos d) ≡ (d * 2 ^ 12 + k) * 8 + i.slot =
        compose_ino-small d r.1 hd seg_fits ∙ omega (arith, i.seg_lem) in
      (
        (r.0, (d * 2 ^ 12 + k) * 8 + i.slot),
        rw (run, ◌>>=◌, other, value),
        record { seg = r.1; inserted = i; ino = ino_fields d k i.slot bound i.slot_fits },
      )

  -- With the bucket full it returns -1, and no slot of the table changes.
  pub slot_alloc-full :
      (ht.buckets (bucket_of name)).valid_slot_count ≡ 8
      → Returns
          (flatfs_file_slot_alloc_by_name spin_lock ht (pos d) name)
          λ r. (r.1 ≡ u64_max) × ((i j : ℕ) → holds (r.0.buckets i) j ≡ holds (ht.buckets i) j)
  unfolding flatfs_file_slot_alloc_by_name
  slot_alloc-full full = (
    (
      record ht {
        buckets = update ht.buckets (bucket_of name) (locked (ht.buckets (bucket_of name)) held);
      },
      u64_max,
    ),
    rw (insert_file-full spin_lock ht name h lock full),
    (
      refl,
      λ i j. elim (Bool-cases (i == bucket_of name)) [
        | inl e ↦ rw e (ap (λ k. holds (ht.buckets k) j) (sym ((==_iff i (bucket_of name)).0 e)))
        | inr e ↦ rw e
      ],
    ),
  )

-- The file in slot 1 of bucket 0 has the inode number of its directory.
pub ino_of_dir : {ino d : ℕ} → InoAt ino d 0 1 → d < 2 ^ 14 → ino ≡ dir_id_to_inode d
unfolding dir_id_to_inode
ino_of_dir h hd = omega (arith, h.value)
