-- ===== src/Tests/Ino.antt =====
-- Inode numbers and lookups at a concrete name: "!" is in bucket 33.
use flatfs.Common.{
  ℕ, zero, suc, sym, ◌∙◌, update, ◌+◌, ◌*◌, ◌^◌, ◌≡◌, ◌≤◌, refl, arith, true, false, ==_self,
  if◌then◌else◌, ◌==◌, [], ◌∷◌, pos, ok, ◌>>=◌, ◌<◌, Returns, Option, some, replicate,
}
use flatfs.Name.{
  bkdr_loop, char_value, bkdr_hash, bucket_of, big_bucket_of, c_str, same_bytes, str_eq,
  bucket_of-bounds,
}
use flatfs.Types.{InodePage}
use flatfs.Lba.{compose_lba}
use flatfs.Bitmap.{used}
use flatfs.Table.{Bucket, HashTable, zero_bucket, delete_file, delete_big_file}
use flatfs.Table.Buckets.{get_or-replicate, holds, BucketIsValid, Wrote}
use flatfs.Table.Insert.{Inserted, update-SlotWritten, update-TableIsValid}
use flatfs.Table.Delete.{Deleted, delete_file-Deleted}
use flatfs.Ino.{
  big_ino_to_bucket, big_ino_to_slot, flatfs_file_slot_alloc_by_name,
  flatfs_big_file_slot_alloc_by_name, get_file_seg, flatfs_file_inode_by_name,
}
use flatfs.Ino.Alloc.{Allocated, slot_alloc-Allocated}
use flatfs.Ino.Big.{delete_big_file-allocated}
use flatfs.Ino.Seg.{home, Ends, get_file_seg-Ends, get_file_seg-Deleted, get_file_seg-insert_file}
use flatfs.Tests.Table.{
  bang, one_processor, several_processors, empty, empty-TableIsValid, full, full-TableIsValid,
  full-BucketIsValid, big_empty, big_empty-TableIsValid,
}
use flatfs.Tests.Lba.{file_at}

slot_alloc-Allocated_example :
    Returns
      (flatfs_file_slot_alloc_by_name several_processors empty (pos 2) bang)
      (Allocated empty 2 bang true)
slot_alloc-Allocated_example =
    slot_alloc-Allocated several_processors empty 2 bang (omega arith) empty-TableIsValid refl
      (omega arith)

delete_big_file-allocated_example :
    Returns
      (flatfs_big_file_slot_alloc_by_name one_processor big_empty (pos 2) bang >>= λ (ht1, ino).
        delete_big_file one_processor ht1 (pos (big_ino_to_bucket ino)) (pos (big_ino_to_slot ino))
        >>= λ (ht2, n). ok (ht1, ht2, n))
      (λ (ht1, ht2, n).
        (n ≡ 0)
        × (ht2 ≡ ht1)
        × ((s : ℕ) × (s < 8)
            × (holds (big_empty.buckets (big_bucket_of bang)) s ≡ false)
            × (holds (ht2.buckets (big_bucket_of bang)) s ≡ true)))
delete_big_file-allocated_example =
    delete_big_file-allocated one_processor big_empty bang 2 (omega arith) (omega arith)
      big_empty-TableIsValid refl (omega arith)

-- The page of bucket 33 holds "!" in slot 0 and nothing else.
pub near : bucket_of bang < 52
unfolding bucket_of bkdr_hash bkdr_loop char_value
near = omega arith

abbrev pub page : InodePage
page = record {
  slot_bitmap = replicate 64 false;
  valid_slot_num = pos 1;
  inode = λ s. record {
    valid = 1;
    size = 0;
    filename = record { name_len = 1; name = if s == 0 then bang else [] };
  };
}

abbrev pub device : ℕ → Option InodePage
device block = some page

pub address : compose_lba (pos 2) (pos (bucket_of bang)) (pos 0) 0 ≡ ok (2 ^ 49 + 2 ^ 35)
unfolding compose_lba bucket_of bkdr_hash bkdr_loop char_value
address = refl

get_file_seg-Ends_example :
    Ends device 2 (home full bang) bang (get_file_seg device (file_at 2 33 4) full bang)
get_file_seg-Ends_example =
    get_file_seg-Ends device (file_at 2 33 4) full bang 2 refl (omega arith) full-BucketIsValid

-- A bucket with its first slot taken, and the table after "!" has got it.
abbrev one_bucket : Bucket
one_bucket = record {
  slot_bitmap = true ∷ replicate 63 false;
  valid_slot_count = 1;
  bkt_lock = true;
}

one_upper : (i : ℕ) → 8 ≤ i → holds one_bucket i ≡ false
one_upper zero h = absurd (omega arith)
one_upper (suc i) h = get_or-replicate 63 i

one-BucketIsValid : BucketIsValid one_bucket
unfolding used
one-BucketIsValid = record { width = refl; counted = refl; upper = one_upper }

abbrev one_file : HashTable
one_file = record { buckets = update empty.buckets (bucket_of bang) one_bucket; pos = 0 }

one_holds : (j : ℕ) → holds one_bucket j ≡ (if j == 0 then true else holds zero_bucket j)
one_holds zero = refl
one_holds (suc j) = get_or-replicate 63 j ∙ sym (get_or-replicate 63 j) ∙ ground arith

one_file-Wrote : Wrote zero_bucket 0 true true one_bucket
one_file-Wrote = record { valid = one-BucketIsValid; slots = one_holds; lock = refl }

abbrev one_file-Inserted :
    Inserted (2 ^ 12) empty.buckets (bucket_of bang) true one_file.buckets (bucket_of bang * 8 + 0)
one_file-Inserted = record {
  slot = 0;
  slot_fits = omega arith;
  seg_lem = refl;
  was_free = refl;
  slots = update-SlotWritten empty.buckets (bucket_of bang) 0 true one_file-Wrote;
  valid =
      update-TableIsValid (2 ^ 12) empty.buckets (bucket_of bang) empty-TableIsValid
        one-BucketIsValid;
  lock = rw ==_self;
}

name_matches : str_eq bang (page.inode 0).filename.name ≡ true
unfolding c_str same_bytes
name_matches = refl

get_file_seg-insert_file_example :
    (get_file_seg device (file_at 2 33 0) one_file bang ≡ ok (bucket_of bang * 8 + 0))
    × (flatfs_file_inode_by_name device one_file (file_at 2 33 0) (pos 2) bang
        ≡ ok (if bucket_of bang * 8 + 0 == 0 then 0 else 2 * 2 ^ 15 + (bucket_of bang * 8 + 0)))
get_file_seg-insert_file_example =
    get_file_seg-insert_file device (file_at 2 33 0) bang empty one_file 2 one_file-Inserted refl
      (omega arith) near refl name_matches (λ j h. absurd (omega arith))

-- The full table after slot 5 of bucket 33 was freed.
abbrev freed :
    Returns
      (delete_file one_processor full (pos (bucket_of bang)) (pos 5))
      λ r. (r.1 ≡ 1) × Deleted (2 ^ 12) full.buckets (bucket_of bang) 5 true r.0.buckets
freed =
    delete_file-Deleted one_processor full (bucket_of bang) 5 (bucket_of-bounds bang).0
      (omega arith) full-TableIsValid refl refl

get_file_seg-Deleted_example :
    get_file_seg device (file_at 2 33 4) freed.0.0 bang
    ≡ get_file_seg device (file_at 2 33 4) full bang
get_file_seg-Deleted_example =
    get_file_seg-Deleted device (file_at 2 33 4) bang full freed.0.0 5 2 full-BucketIsValid
      freed.2.1 (omega arith) (omega arith) refl
