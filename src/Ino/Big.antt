-- ===== src/Ino/Big.antt =====
-- The inode number of a file in the expansion area of a big directory, and what
-- `big_ino_to_bucket` reads from it: flatfs/lba.c, flatfs/flatfs_d.h.
use flatfs.Common.Bits.{bit_and_mask}
use flatfs.Common.{
  ℕ, ◌≤◌, ◌<◌, ◌≡◌, ◌+◌, ◌*◌, ◌/◌, ◌%◌, ◌^◌, refl, ◌∙◌, Bool, false, ◌==◌, List, pos, Run, ok,
  ◌>>=◌, Returns, arith, u64_max, ℤ, true, ==_self,
}
use flatfs.Name.{big_bucket_of, bucket_of-bounds}
use flatfs.Table.{BigDirHashTable, delete_big_file}
use flatfs.Table.Buckets.{holds}
use flatfs.Table.Insert.{TableIsValid, Inserted}
use flatfs.Table.Big.{insert_big_file-Inserted}
use flatfs.Ino.{big_ino_to_slot, big_ino_to_bucket, compose_ino, flatfs_big_file_slot_alloc_by_name}
use flatfs.Ino.Alloc.{compose_ino-big, InoAt}

-- An inode number of the expansion area, with what the macros read from it.
pub record BigInoAt (ino d b s : ℕ) : Type 0 where
  pub value : ino ≡ (d * 2 ^ 18 + b) * 8 + s
  pub bucket : big_ino_to_bucket ino ≡ d % 2 ^ 8 * 2 ^ 18 + b
  pub slot : big_ino_to_slot ino ≡ s

pub big_ino_fields : (d b s : ℕ) → b < 2 ^ 18 → s < 8 → BigInoAt ((d * 2 ^ 18 + b) * 8 + s) d b s
unfolding big_ino_to_bucket big_ino_to_slot
big_ino_fields d b s hb hs =
    let ino : ℕ = (d * 2 ^ 18 + b) * 8 + s in
    record {
      value = refl;
      bucket = bit_and_mask 26 (ino / 8) ∙ omega arith;
      slot = bit_and_mask 3 ino ∙ omega arith;
    }

-- What an allocation in the expansion area of directory `d` returns.
pub record BigAllocated (ht : BigDirHashTable) (d : ℕ) (name : List ℕ) (held : Bool)
    (r : BigDirHashTable × ℕ) : Type 0 where
  pub seg : ℕ
  pub inserted : Inserted (2 ^ 18) ht.buckets (big_bucket_of name) held r.0.buckets seg
  pub ino : BigInoAt r.1 d (big_bucket_of name) inserted.slot

-- With the lock to be had and a slot free, the allocation inserts the name and returns the number
-- of directory, bucket and slot; the macro reads the slot from it, and for the bucket a number that
-- has the low eight bits of the directory above the bucket.
pub big_slot_alloc-BigAllocated :
    (spin_lock : Bool → Run Bool) (ht : BigDirHashTable) (d : ℕ) (name : List ℕ) {held : Bool}
    → d < 2 ^ 10
    → TableIsValid (2 ^ 18) ht.buckets
    → spin_lock (ht.buckets (big_bucket_of name)).bkt_lock ≡ ok held
    → (ht.buckets (big_bucket_of name)).valid_slot_count < 8
    → Returns
        (flatfs_big_file_slot_alloc_by_name spin_lock ht (pos d) name)
        (BigAllocated ht d name held)
unfolding flatfs_big_file_slot_alloc_by_name
big_slot_alloc-BigAllocated spin_lock ht d name hd h lock room =
    let (r, run, i) = insert_big_file-Inserted spin_lock ht name h lock room in
    let k = big_bucket_of name in
    let bound = (bucket_of-bounds name).1 in
    let seg_fits : r.1 < 2 ^ 21 = omega (arith, i.seg_lem, i.slot_fits) in
    let other : (r.1 == u64_max) ≡ false = ground arith in
    let value : compose_ino 21 r.1 (pos d) ≡ (d * 2 ^ 18 + k) * 8 + i.slot =
      compose_ino-big d r.1 hd seg_fits ∙ omega (arith, i.seg_lem) in
    (
      (r.0, (d * 2 ^ 18 + k) * 8 + i.slot),
      rw (run, ◌>>=◌, other, value),
      record { seg = r.1; inserted = i; ino = big_ino_fields d k i.slot bound i.slot_fits },
    )

delete_big_file-beyond :
    (spin_lock : Bool → Run Bool) (ht : BigDirHashTable) (b : ℕ) (s : ℤ)
    → 2 ^ 18 < b
    → delete_big_file spin_lock ht (pos b) s ≡ ok (ht, 0)
unfolding delete_big_file
delete_big_file-beyond spin_lock ht b s beyond = ground arith

-- In the expansion area of a directory whose number is below 1024 and 2 or more modulo 256, with the lock to be had
-- and a slot of the bucket free, the file that flatfs_big_file_slot_alloc_by_name allocates is not deleted by
-- delete_big_file with the bucket and slot that the macros read from its inode number: the deletion returns 0,
-- changes nothing, and a slot that was free before the allocation stays taken.
pub delete_big_file-allocated :
    (spin_lock : Bool → Run Bool) (ht : BigDirHashTable) (name : List ℕ) (d : ℕ) {held : Bool}
    → d < 2 ^ 10
    → 2 ≤ d % 2 ^ 8
    → TableIsValid (2 ^ 18) ht.buckets
    → spin_lock (ht.buckets (big_bucket_of name)).bkt_lock ≡ ok held
    → (ht.buckets (big_bucket_of name)).valid_slot_count < 8
    → Returns
        (flatfs_big_file_slot_alloc_by_name spin_lock ht (pos d) name >>= λ (ht1, ino).
          delete_big_file spin_lock ht1 (pos (big_ino_to_bucket ino)) (pos (big_ino_to_slot ino))
          >>= λ (ht2, n). ok (ht1, ht2, n))
        (λ (ht1, ht2, n).
          (n ≡ 0)
          × (ht2 ≡ ht1)
          × ((s : ℕ) × (s < 8)
              × (holds (ht.buckets (big_bucket_of name)) s ≡ false)
              × (holds (ht2.buckets (big_bucket_of name)) s ≡ true)))
delete_big_file-allocated spin_lock ht name d bound low h lock room =
    let (r, run, a) = big_slot_alloc-BigAllocated spin_lock ht d name bound h lock room in
    let s = a.inserted.slot in
    let taken : holds (r.0.buckets (big_bucket_of name)) s ≡ true =
      a.inserted.slots (big_bucket_of name) s ∙ rw (==_self, ==_self) in
    (
      (r.0, r.0, 0),
      rw
          (
            run,
            ◌>>=◌,
            delete_big_file-beyond spin_lock r.0 (big_ino_to_bucket r.1) (pos (big_ino_to_slot r.1))
                (omega (arith, a.ino.bucket)),
          )
          refl,
      (refl, refl, (s, a.inserted.slot_fits, a.inserted.was_free, taken)),
    )

-- A file in the expansion area of directory d and a file in the table of directory
-- 64 d + b / 4096, in bucket b % 4096 and in the same slot, have the same inode number.
pub big_ino_collides :
    {ino ino' : ℕ} (d b s : ℕ)
    → BigInoAt ino d b s
    → InoAt ino' (64 * d + b / 2 ^ 12) (b % 2 ^ 12) s
    → ino ≡ ino'
big_ino_collides d b s h h' = omega (arith, h.value, h'.value)
