-- ===== src/Writeback.antt =====
-- Writing an inode back, `ffs_dirty_inode` of flatfs/super.c, on the blocks that the device holds. The
-- inode of a directory stands at the start of its block, over the header of the page: `overlay` is a
-- parameter, the page whose first bytes are those of an inode.
pub mod Names
pub mod Create
use flatfs.Common.{
  ℕ, zero, suc, ◌+◌, ◌%◌, ◌^◌, List, Bool, true, false, ℤ, pos, negsuc, minus_one, is_minus_one,
  to_u64, take, ltb, ◌==◌, if◌then◌else◌, update, Option, some, none, Run, ok, fault, out_of_bounds,
  null_pointer, ◌>>=◌,
}
use flatfs.Config.{max_filename_len, slots_per_bucket}
use flatfs.Types.{FfsName, FfsInode, InodePage, InodeInfo}
use flatfs.Bitmap.{bitmap_write}
use flatfs.Lba.{ffs_get_lba_meta, ffs_get_big_file_lba_meta, ffs_get_lba_dir_meta}
use flatfs.Dir.{copy_name}
use flatfs.Super.{follow}

-- The block of an inode: of a file, whose bucket is not negative, or of a directory.
unfoldable pub inode_block : InodeInfo → Run ℕ
inode_block fi = elim fi.bucket_id [
  | pos b ↦ if fi.is_big_dir == 0 then ffs_get_lba_meta fi else ffs_get_big_file_lba_meta fi
  | negsuc b ↦ ok (ffs_get_lba_dir_meta (to_u64 (negsuc b)) fi.dir_id)
]

-- What is written of an inode: of the name, as many bytes as it has.
unfoldable pub write_inode : InodeInfo → FfsInode → FfsInode
write_inode fi raw = record {
  valid = fi.valid;
  size = fi.i_size;
  filename = record {
    name_len = fi.filename.name_len;
    name = copy_name (take fi.filename.name_len fi.filename.name) raw.filename.name;
  };
}

-- The inode in its slot of the page, which is marked.
unfoldable pub write_in_page : InodePage → InodeInfo → ℤ → Run InodePage
write_in_page page fi (negsuc s) = fault out_of_bounds
write_in_page page fi (pos s) = elim (ltb s slots_per_bucket) [
  | true ↦ bitmap_write page.slot_bitmap s true >>= λ bits. ok (record page {
    slot_bitmap = bits;
    inode = update page.inode s (write_inode fi (page.inode s));
  })
  | false ↦ fault out_of_bounds
]

module _ (overlay : InodePage → (FfsInode → FfsInode) → InodePage) where
  unfoldable pub write_page : InodePage → InodeInfo → Run InodePage
  write_page page fi = elim (is_minus_one fi.slot_id) [
    | true ↦ ok (overlay page (write_inode fi))
    | false ↦ write_in_page page fi fi.slot_id
  ]

  -- An inode that is not valid, or whose name is too long, is not written. The buffer is locked before it is
  -- tested.
  unfoldable pub ffs_dirty_inode : (ℕ → Option InodePage) → InodeInfo → Run (ℕ → Option InodePage)
  ffs_dirty_inode device fi = do
    pblk ← inode_block fi
    page ← follow (device pblk)
    elim (fi.valid == 0) [
      | true ↦ ok device
      | false ↦ elim (ltb max_filename_len fi.filename.name_len) [
        | true ↦ ok device
        | false ↦ write_page page fi >>= λ page'. ok (update device pblk (some page'))
      ]
    ]
