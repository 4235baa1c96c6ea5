-- ===== src/Table/Big.antt =====
-- `insert_big_file` of flatfs/lba.c and the initialisers of both tables.
use flatfs.Common.Bits.{bit_or_above, bit_or-one}
use flatfs.Common.{
  ℕ, ◌<◌, ◌≡◌, ◌+◌, ◌*◌, ◌/◌, ◌%◌, ◌^◌, refl, ◌∙◌, Bool, true, false, List, Run, ok, ◌>>=◌, Returns,
  arith, update, ==_self, length, bit_or, some, set,
}
use flatfs.Name.{big_bucket_of, bucket_of-bounds}
use flatfs.Bitmap.{bitmap_write-ok}
use flatfs.Table.{
  BigDirHashTable, write_slot, file_seg, insert_big_file, init_file_ht, init_big_file_ht, add_u8,
  clear_buckets,
}
use flatfs.Table.Buckets.{
  holds, write_slot-take, free_slot, no_free_slot, clear_buckets-Cleared, Cleared-BucketIsValid,
}
use flatfs.Table.Insert.{
  TableIsValid, Inserted, update-SlotWritten, update-TableIsValid, file_seg-lem,
}

-- `init_file_ht` gives a table whose buckets are valid and empty, with every lock free.
pub init_file_ht-empty : Returns (init_file_ht true) λ ht.
    TableIsValid (2 ^ 12) ht.buckets
    × ((i j : ℕ)
        → i < 2 ^ 12
        → (holds (ht.buckets i) j ≡ false) × ((ht.buckets i).bkt_lock ≡ false))
unfolding init_file_ht
init_file_ht-empty = (
  record { buckets = clear_buckets (2 ^ 12) _; pos = 0 },
  refl,
  (
    λ i h. (Cleared-BucketIsValid (clear_buckets-Cleared (2 ^ 12) _ i h)).0,
    λ i j h. (
      (Cleared-BucketIsValid (clear_buckets-Cleared (2 ^ 12) _ i h)).1 j,
      (clear_buckets-Cleared (2 ^ 12) _ i h).lock,
    ),
  ),
)

-- `init_big_file_ht` gives a table whose buckets are valid and empty; every lock is what the
-- memory of `vmalloc` held there.
pub init_big_file_ht-empty :
    (mem : BigDirHashTable)
    → Returns (init_big_file_ht (some mem)) λ ht.
      TableIsValid (2 ^ 18) ht.buckets
      × ((i j : ℕ)
          → i < 2 ^ 18
          → (holds (ht.buckets i) j ≡ false) × ((ht.buckets i).bkt_lock ≡ (mem.buckets i).bkt_lock))
unfolding init_big_file_ht
init_big_file_ht-empty mem = (
  record mem { buckets = clear_buckets (2 ^ 18) mem.buckets },
  refl,
  (
    λ i h. (Cleared-BucketIsValid (clear_buckets-Cleared (2 ^ 18) mem.buckets i h)).0,
    λ i j h. (
      (Cleared-BucketIsValid (clear_buckets-Cleared (2 ^ 18) mem.buckets i h)).1 j,
      (clear_buckets-Cleared (2 ^ 18) mem.buckets i h).lock,
    ),
  ),
)

module _ (spin_lock : Bool → Run Bool) (ht : BigDirHashTable) (name : List ℕ) {held : Bool}
    (h : TableIsValid (2 ^ 18) ht.buckets)
    (lock : spin_lock (ht.buckets (big_bucket_of name)).bkt_lock ≡ ok held) where
  -- With the lock to be had and a slot free, `insert_big_file` takes one free slot of the bucket of
  -- the name, returns bucket and slot as one number, changes no other slot of the table, and keeps
  -- the table valid.
  pub insert_big_file-Inserted :
      (ht.buckets (big_bucket_of name)).valid_slot_count < 8
      → Returns
          (insert_big_file spin_lock ht name)
          λ r. Inserted (2 ^ 18) ht.buckets (big_bucket_of name) held r.0.buckets r.1
  unfolding insert_big_file
  insert_big_file-Inserted room =
      let k = big_bucket_of name in
      let b = ht.buckets k in
      let hk = (bucket_of-bounds name).1 in
      let (i, run, (below, free)) = free_slot (h k hk) room in
      let (c, write, w) = write_slot-take b held i (h k hk) below free in
      let small : i % 2 ^ 8 ≡ i = omega arith in
      (
        (record ht { buckets = update ht.buckets k c }, file_seg k i),
        rw (lock, run, ◌>>=◌, small, write),
        record {
          slot = i;
          slot_fits = below;
          seg_lem = file_seg-lem k i hk below;
          was_free = free;
          slots = update-SlotWritten ht.buckets k i true w;
          valid = update-TableIsValid (2 ^ 18) ht.buckets k h w.valid;
          lock = rw ==_self w.lock;
        },
      )

  -- With the lock to be had and the bucket full, `insert_big_file` does not fail: it counts a ninth
  -- file, marks no slot of the eight, and returns the number of slot 0 of a bucket, of the bucket
  -- itself where its number is odd and of the next one where it is even.
  pub insert_big_file-full :
      (ht.buckets (big_bucket_of name)).valid_slot_count ≡ 8
      → Returns (insert_big_file spin_lock ht name) λ r.
        (r.1 ≡ (big_bucket_of name / 2 * 2 + 1) * 8)
        × ((r.0.buckets (big_bucket_of name)).valid_slot_count ≡ 9)
  unfolding insert_big_file write_slot file_seg
  insert_big_file-full full =
      let k = big_bucket_of name in
      let b = ht.buckets k in
      let hk = (bucket_of-bounds name).1 in
      let wide : 8 < length b.slot_bitmap = omega (arith, (h k hk).width) in
      let small : k * 2 ^ 3 % 2 ^ 64 ≡ k * 2 ^ 3 = omega arith in
      (
        (
          record ht {
            buckets = update ht.buckets k (record b {
              bkt_lock = held;
              slot_bitmap = set b.slot_bitmap 8 true;
              valid_slot_count = add_u8 b.valid_slot_count 1;
            });
          },
          bit_or 8 (k * 2 ^ 3),
        ),
        rw (
          lock,
          no_free_slot (h k hk) full,
          ◌>>=◌,
          bitmap_write-ok b.slot_bitmap 8 true wide,
          small,
        ),
        (
          bit_or_above 3 1 k 0 (omega arith) ∙ omega (arith, bit_or-one k),
          rw ==_self (omega arith),
        ),
      )
