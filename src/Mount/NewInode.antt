-- ===== src/Mount/NewInode.antt =====
-- `flatfs_get_inode` of flatfs/super.c: a new inode, in the fields that the file system or its callers read. The inode
-- that `new_inode` of the kernel gives is an argument.
use flatfs.Common.{ℕ, ◌+◌, ◌%◌, ◌^◌, bit_and, ◌==◌, if◌then◌else◌, Option, some, none}

-- S_IFMT, S_IFREG and S_IFDIR.
abbrev pub s_ifmt : ℕ
s_ifmt = 61440

abbrev pub s_ifreg : ℕ
s_ifreg = 32768

abbrev pub s_ifdir : ℕ
s_ifdir = 16384

-- The operations that the inode gets.
pub data Operations : Type 0 where
  file_operations : Operations
  dir_operations : Operations
  special : Operations

pub record VfsInode : Type 0 where
  pub i_mode : ℕ
  pub i_size : ℕ
  pub i_nlink : ℕ
  pub operations : Operations

-- A directory has one link more.
unfoldable pub flatfs_get_inode : Option VfsInode → ℕ → Option VfsInode
flatfs_get_inode none mode = none
flatfs_get_inode (some inode) mode =
    let kind = bit_and mode s_ifmt in
    some (
      if kind == s_ifreg
      then record inode { i_mode = mode; i_size = 0; operations = file_operations }
      else if kind == s_ifdir
      then record inode {
        i_mode = mode;
        i_size = 0;
        i_nlink = (inode.i_nlink + 1) % 2 ^ 32;
        operations = dir_operations;
      }
      else record inode { i_mode = mode; i_size = 0; operations = special })
