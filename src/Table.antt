-- ===== src/Table.antt =====
-- The hash tables of flatfs/lba.c: the slots of a directory's files, in buckets of eight. A table
-- is an array of buckets with the bounds of its declaration; it holds the bitmaps only, the names
-- stand on the device.
--
-- The kernel's `spin_lock` is a parameter of what takes a lock: it maps the word of the lock, which
-- says whether it is held, to the word after it, or to a fault where the call never returns. No
-- code of flatfs gives a lock back.
pub mod Buckets
pub mod Insert
pub mod Delete
pub mod Big
pub mod Calls
pub mod Refines
use flatfs.Common.{
  ℕ, zero, suc, ◌+◌, ◌-◌, ◌%◌, ◌^◌, bit_or, List, Bool, true, false, not, ◌||◌, ℤ, pos, negsuc,
  is_minus_one, exceeds, u64_max, ltb, ◌==◌, if◌then◌else◌, update, replicate, Run, ok, fault,
  out_of_bounds, null_pointer, ◌>>=◌, Option, some, none,
}
use flatfs.Config.{
  min_file_bucket_bits, file_slot_bits, slots_per_bucket, buckets_per_dir, big_table_buckets,
}
use flatfs.Name.{bucket_of, big_bucket_of}
use flatfs.Bitmap.{find_first_zero_bit, bitmap_write, test_bit}
use flatfs.Lba.{shl}

-- `struct bucket`. The bitmap of eight slots is one `unsigned long`.
pub record Bucket : Type 0 where
  pub slot_bitmap : List Bool
  pub valid_slot_count : ℕ
  pub bkt_lock : Bool

-- `struct HashTable`
pub record HashTable : Type 0 where
  pub buckets : ℕ → Bucket
  pub pos : ℕ

-- `struct Big_Dir_HashTable`
pub record BigDirHashTable : Type 0 where
  pub buckets : ℕ → Bucket
  pub dir_id : ℤ
  pub pos : ℕ

-- The bits of the word of a slot bitmap.
abbrev pub word_bits : ℕ
word_bits = 64

-- Memory that `kzalloc` returns.
abbrev pub zero_bucket : Bucket
zero_bucket = record {
  slot_bitmap = replicate word_bits false;
  valid_slot_count = 0;
  bkt_lock = false;
}

-- The loop of both initialisers: `n` buckets are cleared, and their locks left as they are.
unfoldable pub clear_buckets : ℕ → (ℕ → Bucket) → ℕ → Bucket
clear_buckets zero mem = mem
clear_buckets (suc n) mem =
    let before = clear_buckets n mem in
    update before n
      (record (before n) { slot_bitmap = replicate word_bits false; valid_slot_count = 0 })

-- `got` says whether `kzalloc` had memory.
unfoldable pub init_file_ht : Bool → Run HashTable
init_file_ht got =
    if got
    then ok (record { buckets = clear_buckets buckets_per_dir (λ _. zero_bucket); pos = 0 })
    else fault null_pointer

-- The memory of `vmalloc`, where there is some, holds anything.
unfoldable pub init_big_file_ht : Option BigDirHashTable → Run BigDirHashTable
init_big_file_ht none = fault null_pointer
init_big_file_ht (some mem) =
    ok (record mem { buckets = clear_buckets big_table_buckets mem.buckets })

-- The slot and bucket of a file, as one number.
unfoldable pub file_seg : ℕ → ℕ → ℕ
file_seg bucket_id slt = bit_or (bit_or 0 slt) (shl bucket_id file_slot_bits)

-- `(unsigned char) (count + by)`, with `by` 255 for a decrement.
abbrev pub add_u8 : ℕ → ℕ → ℕ
add_u8 count by = (count + by) % 2 ^ 8

-- The bucket with its lock taken, and with bit `slt` written and the count changed.
abbrev pub locked : Bucket → Bool → Bucket
locked b held = record b { bkt_lock = held }

unfoldable pub write_slot : Bucket → ℕ → Bool → ℕ → Run Bucket
write_slot b slt v by = do
  bits ← bitmap_write b.slot_bitmap slt v
  ok (record b { slot_bitmap = bits; valid_slot_count = add_u8 b.valid_slot_count by })

-- The index of an array of `n` elements.
abbrev pub index_below : ℕ → ℤ → Run ℕ
index_below n (pos i) = if ltb i n then ok i else fault out_of_bounds
index_below n (negsuc i) = fault out_of_bounds

abbrev pub slot_number : ℤ → ℕ
slot_number (pos i) = i
slot_number (negsuc i) = 0

module _ (spin_lock : Bool → Run Bool) where
  unfoldable pub insert_file : HashTable → List ℕ → Run (HashTable × ℕ)
  insert_file file_ht filename = do
    let bucket_id = bucket_of filename
    let b = file_ht.buckets bucket_id
    held ← spin_lock b.bkt_lock
    found ← find_first_zero_bit b.slot_bitmap slots_per_bucket
    let slt = found % 2 ^ 8
    elim (slt == slots_per_bucket) [
      | true ↦
          ok
            (record file_ht { buckets = update file_ht.buckets bucket_id (locked b held) }, u64_max)
      | false ↦ do
        taken ← write_slot (locked b held) slt true 1
        ok (
          record file_ht { buckets = update file_ht.buckets bucket_id taken },
          file_seg bucket_id slt,
        )
    ]

  -- `slt` is an unsigned char and is never -1, so a full bucket is not noticed.
  unfoldable pub insert_big_file : BigDirHashTable → List ℕ → Run (BigDirHashTable × ℕ)
  insert_big_file file_ht filename = do
    let bucket_id = big_bucket_of filename
    let b = file_ht.buckets bucket_id
    held ← spin_lock b.bkt_lock
    found ← find_first_zero_bit b.slot_bitmap slots_per_bucket
    let slt = found % 2 ^ 8
    taken ← write_slot (locked b held) slt true 1
    ok (record file_ht { buckets = update file_ht.buckets bucket_id taken }, file_seg bucket_id slt)

  -- What both deletions do to the bucket, with the value that they return.
  unfoldable pub release_slot : Bucket → ℤ → Run (Bucket × ℕ)
  release_slot b slot_id = do
    held ← spin_lock b.bkt_lock
    bit ← test_bit slot_id b.slot_bitmap
    elim bit [
      | false ↦ ok (locked b held, 0)
      | true ↦ do freed ← write_slot (locked b held) (slot_number slot_id) false 255; ok (freed, 1)
    ]

  unfoldable pub delete_file : HashTable → ℤ → ℤ → Run (HashTable × ℕ)
  delete_file file_ht bucket_id slot_id =
      elim (is_minus_one bucket_id
        || exceeds bucket_id buckets_per_dir
        || exceeds slot_id slots_per_bucket) [
          | true ↦ ok (file_ht, 0)
          | false ↦ do
            i ← index_below buckets_per_dir bucket_id
            (b, done) ← release_slot (file_ht.buckets i) slot_id
            ok (record file_ht { buckets = update file_ht.buckets i b }, done)
        ]

  unfoldable pub delete_big_file : BigDirHashTable → ℤ → ℤ → Run (BigDirHashTable × ℕ)
  delete_big_file file_ht bucket_id slot_id =
      elim (is_minus_one bucket_id
        || exceeds bucket_id big_table_buckets
        || exceeds slot_id slots_per_bucket) [
          | true ↦ ok (file_ht, 0)
          | false ↦ do
            i ← index_below big_table_buckets bucket_id
            (b, done) ← release_slot (file_ht.buckets i) slot_id
            ok (record file_ht { buckets = update file_ht.buckets i b }, done)
        ]
