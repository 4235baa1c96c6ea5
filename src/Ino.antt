-- ===== src/Ino.antt =====
-- Inode numbers of files: the macros of flatfs/flatfs_d.h that take them apart, and the functions
-- of flatfs/lba.c that allocate a slot by name or look a name up.
--
-- `sb_bread` is a parameter: it maps a block number to the page of inodes that the block holds, or
-- to nothing where the read fails.
pub mod Alloc
pub mod Big
pub mod Seg
use flatfs.Common.{
  ℕ, zero, suc, ◌+◌, ◌-◌, ◌*◌, ◌/◌, ◌%◌, ◌^◌, bit_and, bit_or, List, Bool, true, false, ℤ, pos,
  to_u64, shl_int, u64_max, ltb, ◌==◌, if◌then◌else◌, Option, some, none, Run, ok, fault,
  null_pointer, ◌>>=◌,
}
use flatfs.Config.{
  min_file_bucket_bits, min_dir_bits, file_slot_bits, slots_per_bucket, buckets_per_dir,
  buckets_per_big_dir,
}
use flatfs.Name.{bucket_of, big_bucket_of, str_eq}
use flatfs.Types.{InodeInfo, InodePage}
use flatfs.Bitmap.{test_bit}
use flatfs.Lba.{compose_lba, compose_big_file_lba}
use flatfs.Table.{HashTable, BigDirHashTable, Bucket, insert_file, insert_big_file, file_seg}

unfoldable pub ino_to_slot : ℕ → ℕ
ino_to_slot ino = bit_and ino (slots_per_bucket - 1)

unfoldable pub ino_to_bucket : ℕ → ℕ
ino_to_bucket ino = bit_and (ino / 2 ^ file_slot_bits) (buckets_per_dir - 1)

unfoldable pub big_ino_to_slot : ℕ → ℕ
big_ino_to_slot ino = bit_and ino (slots_per_bucket - 1)

unfoldable pub big_ino_to_bucket : ℕ → ℕ
big_ino_to_bucket ino = bit_and (ino / 2 ^ file_slot_bits) (buckets_per_big_dir - 1)

-- `file_seg | (parent_dir_id << bits)`: the shift is one of `int`.
unfoldable pub compose_ino : ℕ → ℕ → ℤ → ℕ
compose_ino bits seg parent_dir_id = bit_or seg (to_u64 (shl_int parent_dir_id bits))

abbrev pub small_ino_bits : ℕ
small_ino_bits = file_slot_bits + min_file_bucket_bits

abbrev pub big_ino_bits : ℕ
big_ino_bits = file_slot_bits + min_file_bucket_bits + min_dir_bits

module _ (spin_lock : Bool → Run Bool) where
  unfoldable pub flatfs_file_slot_alloc_by_name : HashTable → ℤ → List ℕ → Run (HashTable × ℕ)
  flatfs_file_slot_alloc_by_name hashtbl parent_dir_id name = do
    (ht, seg) ← insert_file spin_lock hashtbl name
    ok (ht, (if seg == u64_max then seg else compose_ino small_ino_bits seg parent_dir_id))

  unfoldable pub flatfs_big_file_slot_alloc_by_name :
      BigDirHashTable → ℤ → List ℕ → Run (BigDirHashTable × ℕ)
  flatfs_big_file_slot_alloc_by_name hashtbl parent_dir_id name = do
    (ht, seg) ← insert_big_file spin_lock hashtbl name
    ok (ht, (if seg == u64_max then seg else compose_ino big_ino_bits seg parent_dir_id))

-- The loop that looks for a used slot: `n` rounds from slot `slt` on.
unfoldable pub any_used : ℕ → ℕ → List Bool → Run Bool
any_used zero slt bits = ok false
any_used (suc n) slt bits =
    test_bit (pos slt) bits >>= λ t. elim t [ true ↦ ok true | false ↦ any_used n (suc slt) bits ]

-- The loop that compares the name with those of the page: `n` rounds from slot `slt` on.
unfoldable pub find_name : ℕ → ℕ → InodePage → List ℕ → ℕ
find_name zero slt page name = slt
find_name (suc n) slt page name = elim (str_eq name (page.inode slt).filename.name) [
  | true ↦ slt
  | false ↦ find_name n (suc slt) page name
]

-- What both lookups do with the page of the bucket. The buffer is waited for before it is tested.
unfoldable pub seg_in_page : Option InodePage → ℕ → List ℕ → Run ℕ
seg_in_page none bucket_id name = fault null_pointer
seg_in_page (some page) bucket_id name =
    let slt = find_name slots_per_bucket 0 page name in
    ok (if ltb slt slots_per_bucket then file_seg bucket_id slt else 0)

module _ (sb_bread : ℕ → Option InodePage) where
  unfoldable pub get_file_seg : InodeInfo → HashTable → List ℕ → Run ℕ
  get_file_seg fi file_ht filename = do
    let bucket_id = bucket_of filename
    any ← any_used slots_per_bucket 0 (file_ht.buckets bucket_id).slot_bitmap
    elim any [
      | false ↦ ok 0
      | true ↦ do
        pblk ← compose_lba fi.dir_id (pos bucket_id) (pos 0) 0
        seg_in_page (sb_bread pblk) bucket_id filename
    ]

  unfoldable pub get_big_file_seg : InodeInfo → BigDirHashTable → List ℕ → Run ℕ
  get_big_file_seg fi file_ht filename = do
    let bucket_id = big_bucket_of filename
    any ← any_used slots_per_bucket 0 (file_ht.buckets bucket_id).slot_bitmap
    elim any [
      | false ↦ ok 0
      | true ↦ do
        pblk ← compose_big_file_lba fi.dir_id (pos bucket_id) (pos 0) 0
        seg_in_page (sb_bread pblk) bucket_id filename
    ]

  unfoldable pub flatfs_file_inode_by_name : HashTable → InodeInfo → ℤ → List ℕ → Run ℕ
  flatfs_file_inode_by_name hashtbl parent parent_dir_id name = do
    seg ← get_file_seg parent hashtbl name
    ok (if seg == 0 then 0 else compose_ino small_ino_bits seg parent_dir_id)

  unfoldable pub flatfs_big_file_inode_by_name : BigDirHashTable → InodeInfo → ℤ → List ℕ → Run ℕ
  flatfs_big_file_inode_by_name hashtbl parent parent_dir_id name = do
    seg ← get_big_file_seg parent hashtbl name
    ok (if seg == 0 then 0 else compose_ino big_ino_bits seg parent_dir_id)
