-- ===== src/Super.antt =====
-- The state behind a super block, `struct flatfs_sb_info` of flatfs/flatfs_d.h: the tree of
-- directories and the tables of their files, with what changes several of them at once: `resize_dir`
-- of flatfs/lba.c and `remove_dir` of flatfs/dir.c. An index outside the arrays of tables is a fault,
-- and so is a table that is not there.
pub mod Resize
use flatfs.Common.{
  ℕ, ◌+◌, ◌-◌, ◌%◌, ◌^◌, List, Bool, true, false, not, ◌&&◌, ℤ, pos, negsuc, minus_one, ltb, leb,
  ◌==◌, if◌then◌else◌, update, Option, some, none, Run, ok, fault, out_of_bounds, null_pointer,
  ◌>>=◌,
}
use flatfs.Config.{max_dir_bits, min_dir_bits}
use flatfs.Bitmap.{find_first_zero_bit, bitmap_write}
use flatfs.Lba.{inode_to_dir_id}
use flatfs.Table.{HashTable, BigDirHashTable, init_big_file_ht}
use flatfs.Dir.{DirTree, remove_from_tree}

-- `struct flatfs_sb_info`
pub record Sb : Type 0 where
  pub dtree : DirTree
  pub hashtbl : ℕ → Option HashTable
  pub big_dir_hashtbl : ℕ → Option BigDirHashTable
  pub big_dir_bitmap : List Bool
  pub big_dir_num : ℕ

-- An `int` index into an array of `n` pointers, and what the pointer leads to.
unfoldable pub index : ℕ → ℤ → Run ℕ
index n (pos i) = if ltb i n then ok i else fault out_of_bounds
index n (negsuc i) = fault out_of_bounds

unfoldable pub follow {ℓ} : {A : Type ℓ} → Option A → Run A
follow none = fault null_pointer
follow (some a) = ok a

-- `ffs_sb->hashtbl[dir_id]`, read and changed.
unfoldable pub with_table : Sb → ℤ → (HashTable → Run (HashTable × ℕ)) → Run (Sb × ℕ)
with_table sb dir_id f = do
  i ← index (2 ^ max_dir_bits) dir_id
  ht ← follow (sb.hashtbl i)
  (ht', r) ← f ht
  ok (record sb { hashtbl = update sb.hashtbl i (some ht') }, r)

-- `ffs_sb->big_dir_hashtbl[big_dir_id]`, read and changed.
unfoldable pub with_big_table :
    Sb → ℤ → (BigDirHashTable → Run (BigDirHashTable × ℕ)) → Run (Sb × ℕ)
with_big_table sb big_dir_id f = do
  i ← index (2 ^ min_dir_bits) big_dir_id
  ht ← follow (sb.big_dir_hashtbl i)
  (ht', r) ← f ht
  ok (record sb { big_dir_hashtbl = update sb.big_dir_hashtbl i (some ht') }, r)

-- `memory` is what `vmalloc` gives. The search goes over as many bits as there are directories,
-- the bitmap has as many as there are big directories.
unfoldable pub resize_dir : Sb → Option BigDirHashTable → Run (Sb × ℤ)
resize_dir sb memory = elim (ltb (2 ^ min_dir_bits) sb.big_dir_num) [
  | true ↦ ok (sb, minus_one)
  | false ↦ do
    i ← find_first_zero_bit sb.big_dir_bitmap (2 ^ max_dir_bits)
    ht ← init_big_file_ht memory
    bits ← bitmap_write sb.big_dir_bitmap i true
    ok (
      record sb {
        big_dir_hashtbl = update sb.big_dir_hashtbl i (some ht);
        big_dir_bitmap = bits;
        big_dir_num = (sb.big_dir_num + 1) % 2 ^ 8;
      },
      pos i,
    )
]

-- The end of `remove_dir`: the table of a big directory is freed, if there is one.
unfoldable pub free_big_table : Sb → ℤ → Run Sb
free_big_table sb (negsuc i) = ok sb
free_big_table sb (pos i) = do
  j ← index (2 ^ min_dir_bits) (pos i)
  elim (sb.big_dir_hashtbl j) [
    | none ↦ ok sb
    | some ht ↦ bitmap_write sb.big_dir_bitmap j false >>= λ bits. ok (record sb {
      big_dir_hashtbl = update sb.big_dir_hashtbl j none;
      big_dir_bitmap = bits;
      big_dir_num = (sb.big_dir_num + (2 ^ 8 - 1)) % 2 ^ 8;
    })
  ]

-- The id under which the file table is freed is that of the entry, which the removal does not change.
unfoldable pub remove_dir : Sb → ℕ → ℕ → ℤ → Run Sb
remove_dir sb parent_ino dir_ino big_dir_id = do
  (t, found) ← remove_from_tree sb.dtree parent_ino dir_ino
  elim found [
    | false ↦ ok (record sb { dtree = t })
    | true ↦ do
      i ← index (2 ^ max_dir_bits) (pos (t.de (inode_to_dir_id dir_ino)).dir_id)
      free_big_table (record sb { dtree = t; hashtbl = update sb.hashtbl i none }) big_dir_id
  ]
