-- ===== src/Readdir.antt =====
-- Reading a directory: `read_dir_files` and `read_big_dir_files` of flatfs/lba.c. The two have the
-- same text but for the number of buckets, which is 2 ^ `bits` here. The answer of `dir_emit`, that
-- its buffer is full, is not read by the code: what it is called with is a list, in order.
--
-- `sb_bread` is a parameter: it maps a block number to the inodes that the block has at each of its
-- sectors of 512 bytes, or to nothing where the read fails.
pub mod Slots
pub mod Skip
pub mod Rest
pub mod Files
pub mod Dirs
pub mod Whole
pub mod Twice
use flatfs.Common.{
  ℕ, zero, suc, ◌+◌, ◌-◌, ◌%◌, ◌^◌, List, [], ◌∷◌, ◌++◌, Bool, true, false, pos, leb, ◌==◌,
  if◌then◌else◌, Option, some, none, Run, ok, fault, null_pointer, ◌>>=◌,
}
use flatfs.Config.{min_file_bucket_bits, min_dir_bits, file_slot_bits, slots_per_bucket}
use flatfs.Types.{FfsInode, InodeInfo}
use flatfs.Bitmap.{test_bit}
use flatfs.Lba.{shl, inode_to_dir_id}
use flatfs.Table.{Bucket, HashTable, BigDirHashTable}

-- The arguments of a call of `dir_emit`.
pub record DirEnt : Type 0 where
  pub name : List ℕ
  pub name_len : ℕ
  pub ino : ℕ
  pub d_type : ℕ

abbrev pub ft_unknown : ℕ
ft_unknown = 0

-- What a reading has done: the calls of `dir_emit`, and the positions of the context and of the table.
pub record Reading : Type 0 where
  pub emitted : List DirEnt
  pub ctx_pos : ℕ
  pub table_pos : ℕ

-- `slt + ((bkt + (dir_id << bits)) << FILE_SLOT_BITS)`
unfoldable pub slot_ino : ℕ → ℕ → ℕ → ℕ → ℕ
slot_ino bits dir_id bkt slt =
    (slt + shl ((bkt + shl dir_id bits) % 2 ^ 64) file_slot_bits) % 2 ^ 64

-- One call of `dir_emit`. The number goes through `le32_to_cpu`, which takes 32 bits.
unfoldable pub emit_file : (ℕ → FfsInode) → ℕ → ℕ → Reading → Reading
emit_file block ino slt r = record {
  emitted =
      r.emitted
      ++ record {
        name = (block slt).filename.name;
        name_len = (block slt).filename.name_len;
        ino = ino % 2 ^ 32;
        d_type = ft_unknown;
      }
        ∷ [];
  ctx_pos = r.ctx_pos + 1;
  table_pos = r.table_pos + 1;
}

-- The loop over the slots that are left of a bucket, `n` of them from slot `slt` on.
unfoldable pub emit_slots : ℕ → ℕ → ℕ → ℕ → ℕ → List Bool → (ℕ → FfsInode) → Reading → Run Reading
emit_slots bits dir_id bkt zero slt bitmap block r = ok r
emit_slots bits dir_id bkt (suc n) slt bitmap block r = test_bit (pos slt) bitmap >>= λ t.
    emit_slots bits dir_id bkt n (suc slt) bitmap block
      (if t then emit_file block (slot_ino bits dir_id bkt slt) slt r else r)

-- The loop that looks for the first used slot; it ends behind the last slot if there is none.
unfoldable pub first_used : ℕ → ℕ → List Bool → Run ℕ
first_used zero slt bitmap = ok slt
first_used (suc n) slt bitmap = test_bit (pos slt) bitmap >>= λ t. elim t [
  | true ↦ ok slt
  | false ↦ first_used n (suc slt) bitmap
]

-- The loop that passes the slots before the position `target`, of which `p` have been counted: the
-- slot where it stops, and the count.
unfoldable pub skip_slots : ℕ → ℕ → ℕ → ℕ → List Bool → Run (ℕ × ℕ)
skip_slots target zero slt p bitmap = ok (slt, p)
skip_slots target (suc n) slt p bitmap = elim (leb target p) [
  | true ↦ ok (slt, p)
  | false ↦ test_bit (pos slt) bitmap >>= λ t.
      skip_slots target n (suc slt) (if t then suc p else p) bitmap
]

-- The loop around it: the bucket and the slot where it stops. `slt` is what the variable holds.
unfoldable pub skip_buckets : ℕ → ℕ → ℕ → ℕ → ℕ → (ℕ → Bucket) → Run (ℕ × ℕ)
skip_buckets target zero bkt slt p buckets = ok (bkt, slt)
skip_buckets target (suc n) bkt slt p buckets = do
  (s, q) ← skip_slots target slots_per_bucket 0 p (buckets bkt).slot_bitmap
  elim (leb target q) [ true ↦ ok (bkt, s) | false ↦ skip_buckets target n (suc bkt) s q buckets ]

module _ (sb_bread : ℕ → Option (ℕ → FfsInode)) where
  -- The buffer is waited for before anything tests it.
  unfoldable pub read_block : ℕ → Run (ℕ → FfsInode)
  read_block n = elim (sb_bread n) [ none ↦ fault null_pointer | some block ↦ ok block ]

  -- The loop over the buckets that are left, `n` of them from bucket `bkt` on.
  unfoldable pub emit_buckets : ℕ → ℕ → ℕ → ℕ → (ℕ → Bucket) → Reading → Run Reading
  emit_buckets bits dir_id zero bkt buckets r = ok r
  emit_buckets bits dir_id (suc n) bkt buckets r = do
    slt ← first_used slots_per_bucket 0 (buckets bkt).slot_bitmap
    elim (slt == slots_per_bucket) [
      | true ↦ emit_buckets bits dir_id n (suc bkt) buckets r
      | false ↦ do
        block ← read_block (slot_ino bits dir_id bkt slt)
        r' ← emit_slots bits dir_id bkt slots_per_bucket 0 (buckets bkt).slot_bitmap block r
        emit_buckets bits dir_id n (suc bkt) buckets r'
    ]

  unfoldable pub read_files : ℕ → ℕ → (ℕ → Bucket) → Reading → Run Reading
  read_files bits dir_id buckets r = elim (r.table_pos == 0) [
    | true ↦ emit_buckets bits dir_id (2 ^ bits) 0 buckets r
    | false ↦ do
      (bkt, slt) ← skip_buckets r.table_pos (2 ^ bits) 0 0 0 buckets
      block ← read_block (slot_ino bits dir_id bkt 0)
      r' ← emit_slots bits dir_id bkt (slots_per_bucket - slt) slt (buckets bkt).slot_bitmap block r
      emit_buckets bits dir_id (2 ^ bits - suc bkt) (suc bkt) buckets r'
  ]

  -- The position of the table is a field of it. `ino` is the inode number of the directory.
  unfoldable pub read_dir_files : HashTable → ℕ → List DirEnt → ℕ → Run (HashTable × Reading)
  read_dir_files hashtbl ino emitted ctx_pos = do
    r ←
        read_files min_file_bucket_bits (inode_to_dir_id ino) hashtbl.buckets
          (record { emitted = emitted; ctx_pos = ctx_pos; table_pos = hashtbl.pos })
    ok (record hashtbl { pos = r.table_pos }, r)

  unfoldable pub read_big_dir_files :
      BigDirHashTable → ℕ → List DirEnt → ℕ → Run (BigDirHashTable × Reading)
  read_big_dir_files hashtbl ino emitted ctx_pos = do
    r ←
        read_files (min_file_bucket_bits + min_dir_bits) (inode_to_dir_id ino) hashtbl.buckets
          (record { emitted = emitted; ctx_pos = ctx_pos; table_pos = hashtbl.pos })
    ok (record hashtbl { pos = r.table_pos }, r)
