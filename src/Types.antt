-- ===== src/Types.antt =====
-- The records of flatfs/flatfs_d.h that several parts share: names and in-memory inodes.
use flatfs.Common.{ℕ, List, Bool, ℤ}

-- `struct ffs_name`: `name` has the bytes of the array.
pub record FfsName : Type 0 where
  pub name_len : ℕ
  pub name : List ℕ

-- `struct ffs_inode`, an inode on the device.
pub record FfsInode : Type 0 where
  pub valid : ℕ
  pub size : ℕ
  pub filename : FfsName

-- `struct ffs_inode_page`, with the fields of its header that the code uses: the inodes of the
-- eight slots of a bucket.
pub record InodePage : Type 0 where
  pub slot_bitmap : List Bool
  pub valid_slot_num : ℤ
  pub inode : ℕ → FfsInode

-- `struct ffs_inode_info`, with the fields of its `vfs_inode` that the code reads or writes.
pub record InodeInfo : Type 0 where
  pub dir_id : ℤ
  pub bucket_id : ℤ
  pub slot_id : ℤ
  pub valid : ℕ
  pub is_big_dir : ℕ
  pub big_dir_id : ℤ
  pub size : ℕ
  pub filename : FfsName
  pub i_ino : ℕ
  pub i_size : ℕ
  pub i_nlink : ℕ
