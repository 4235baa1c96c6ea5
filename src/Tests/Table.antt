-- ===== src/Tests/Table.antt =====
-- The hash tables at a concrete name: "!" hashes to 33.
use flatfs.Common.{
  ℕ, suc, ◌+◌, ◌*◌, ◌/◌, ◌%◌, ◌^◌, ◌≡◌, ◌≤◌, refl, arith, Bool, true, false, if◌then◌else◌, List,
  [], ◌∷◌, pos, ok, fault, spins, Run, ◌>>=◌, Returns, replicate, some, none,
}
use flatfs.Name.{
  bkdr_loop, char_value, c_str, polynomial, bkdr_hash, bucket_of, big_bucket_of,
  bkdr_hash-polynomial,
}
use flatfs.Bitmap.{used, find_first_zero_bit, bitmap_write}
use flatfs.Table.{
  Bucket, HashTable, BigDirHashTable, zero_bucket, write_slot, file_seg, insert_file,
  insert_big_file, delete_file,
}
use flatfs.Table.Buckets.{get_or-replicate, holds, BucketIsValid, Cleared-BucketIsValid}
use flatfs.Table.Insert.{TableIsValid, Inserted, insert_file-Inserted, insert_file-spins}
use flatfs.Table.Delete.{Deleted, delete_file-Deleted, delete_file-insert_file}
use flatfs.Table.Calls.{Files, Call, insert, delete, Steps, calls}
use flatfs.Table.Refines.{Represents, calls-Steps}
use flatfs.Table.Big.{insert_big_file-Inserted, insert_big_file-full}

abbrev pub bang : List ℕ
bang = 33 ∷ 0 ∷ []

bang_hash : bkdr_hash bang ≡ 33
unfolding bkdr_hash bkdr_loop char_value
bang_hash = refl

-- "ab" is 97 * 131 + 98.
two_letters : bkdr_hash (97 ∷ 98 ∷ 0 ∷ 99 ∷ []) ≡ 12805
unfolding bkdr_hash bkdr_loop char_value
two_letters = refl

bkdr_hash-polynomial_example : bkdr_hash bang ≡ polynomial (c_str bang) % 2 ^ 31
bkdr_hash-polynomial_example = bkdr_hash-polynomial bang

-- A kernel on one processor gives every lock, and one on several waits for a lock that is held.
abbrev pub one_processor : Bool → Run Bool
one_processor held = ok true

abbrev pub several_processors : Bool → Run Bool
several_processors held = if held then fault spins else ok true

pub zero-BucketIsValid : BucketIsValid zero_bucket
zero-BucketIsValid =
    (Cleared-BucketIsValid {mem = zero_bucket}
      (record { bitmap = refl; count = refl; lock = refl })).0

abbrev pub empty : HashTable
empty = record { buckets = λ i. zero_bucket; pos = 0 }

pub empty-TableIsValid : TableIsValid (2 ^ 12) empty.buckets
empty-TableIsValid i h = zero-BucketIsValid

-- A bucket with all of its eight slots taken.
abbrev pub full_bucket : Bucket
full_bucket = record {
  slot_bitmap = true ∷ true ∷ true ∷ true ∷ true ∷ true ∷ true ∷ true ∷ replicate 56 false;
  valid_slot_count = 8;
  bkt_lock = false;
}

full_upper : (i : ℕ) → 8 ≤ i → holds full_bucket i ≡ false
full_upper (suc (suc (suc (suc (suc (suc (suc (suc i)))))))) h = get_or-replicate 56 i
full_upper _ h = absurd (omega arith)

pub full-BucketIsValid : BucketIsValid full_bucket
unfolding used
full-BucketIsValid = record { width = refl; counted = refl; upper = full_upper }

abbrev pub full : HashTable
full = record { buckets = λ i. full_bucket; pos = 0 }

pub full-TableIsValid : TableIsValid (2 ^ 12) full.buckets
full-TableIsValid i h = full-BucketIsValid

insert_file-Inserted_example :
    Returns
      (insert_file several_processors empty bang)
      λ r. Inserted (2 ^ 12) empty.buckets (bucket_of bang) true r.0.buckets r.1
insert_file-Inserted_example =
    insert_file-Inserted several_processors empty bang empty-TableIsValid refl (omega arith)

insert_file_run : (r : HashTable) × (insert_file several_processors empty bang ≡ ok (r, 33 * 8))
unfolding insert_file bucket_of bkdr_hash bkdr_loop char_value find_first_zero_bit write_slot
    bitmap_write file_seg
insert_file_run = (_, refl)

-- The table after the insertion, with bucket and slot of the new file.
abbrev inserted :
    Returns
      (insert_file one_processor empty bang)
      λ r. Inserted (2 ^ 12) empty.buckets (bucket_of bang) true r.0.buckets r.1
inserted = insert_file-Inserted one_processor empty bang empty-TableIsValid refl (omega arith)

insert_file-spins_example :
    (insert_file several_processors empty bang >>= λ (ht', n).
    insert_file several_processors ht' bang)
    ≡ fault spins
insert_file-spins_example =
    insert_file-spins several_processors empty bang bang empty-TableIsValid refl (omega arith) refl
      refl refl

delete_file-Deleted_example :
    Returns
      (delete_file several_processors full (pos 33) (pos 5))
      λ r. (r.1 ≡ 1) × Deleted (2 ^ 12) full.buckets 33 5 true r.0.buckets
delete_file-Deleted_example =
    delete_file-Deleted several_processors full 33 5 (omega arith) (omega arith) full-TableIsValid
      refl refl

delete_file-insert_file_example :
    Returns
      (delete_file one_processor inserted.0.0 (pos (inserted.0.1 / 8)) (pos (inserted.0.1 % 8)))
      λ q. (q.1 ≡ 1) × ((i j : ℕ) → holds (q.0.buckets i) j ≡ holds (empty.buckets i) j)
delete_file-insert_file_example =
    delete_file-insert_file one_processor empty bang inserted.0 inserted.2 refl

-- Memory of `vmalloc` in which every lock looks held.
abbrev dirty : BigDirHashTable
dirty = record {
  buckets = λ i. record { slot_bitmap = []; valid_slot_count = i; bkt_lock = true };
  dir_id = pos 0;
  pos = 7;
}

abbrev pub big_empty : BigDirHashTable
big_empty = record { buckets = λ i. zero_bucket; dir_id = pos 0; pos = 0 }

pub big_empty-TableIsValid : TableIsValid (2 ^ 18) big_empty.buckets
big_empty-TableIsValid i h = zero-BucketIsValid

abbrev big_full : BigDirHashTable
big_full = record { buckets = λ i. full_bucket; dir_id = pos 0; pos = 0 }

insert_big_file-Inserted_example :
    Returns
      (insert_big_file several_processors big_empty bang)
      λ r. Inserted (2 ^ 18) big_empty.buckets (big_bucket_of bang) true r.0.buckets r.1
insert_big_file-Inserted_example =
    insert_big_file-Inserted several_processors big_empty bang big_empty-TableIsValid refl
      (omega arith)

insert_big_file-full_example : Returns (insert_big_file several_processors big_full bang) λ r.
    (r.1 ≡ (big_bucket_of bang / 2 * 2 + 1) * 8)
    × ((r.0.buckets (big_bucket_of bang)).valid_slot_count ≡ 9)
insert_big_file-full_example =
    insert_big_file-full several_processors big_full bang (λ i h. full-BucketIsValid) refl refl

-- No file, in an empty table.
abbrev no_files : Files
no_files n = none

pub empty-Represents : Represents empty.buckets no_files
empty-Represents = record {
  valid = empty-TableIsValid;
  slots = λ b s hb hs. get_or-replicate 64 s;
  bucketed = λ n name e. absurd (none_some e);
}
  where
    none_some : {x : List ℕ} → none ≡ some x → ⊥
    none_some e = cc

-- A file is made in its free bucket and removed from it.
abbrev two_calls : List Call
two_calls = insert bang ∷ delete 33 0 ∷ []

calls-Steps_example : Returns (calls one_processor empty two_calls) (λ (ht', ns).
    (files' : Files) × Steps no_files two_calls ns files' × Represents ht'.buckets files')
calls-Steps_example =
    calls-Steps one_processor (λ held. (true, refl)) two_calls empty no_files
      (tt, ((omega arith, omega arith), tt)) empty-Represents
