-- ===== src/Mount.antt =====
-- Mounting: `flatfs_iget` and `flatfs_fill_super` of flatfs/super.c, in what they write of the inode of the
-- root and of the state behind the super block. The block size, the operations and the names of the super block, and
-- the times and owners of the inode, are the kernel's. Allocations succeed or not as the arguments say.
pub mod Fresh
pub mod NewInode
use flatfs.Common.{
  ℕ, ◌%◌, ◌+◌, ◌^◌, List, [], ◌∷◌, Bool, true, false, ℤ, pos, negsuc, minus_one, leb, if◌then◌else◌,
  drop, replicate, ◌++◌, update, length, Option, some, none, Run, ok, fault, out_of_bounds,
  null_pointer, check, ◌>>=◌, ◌>>◌,
}
use flatfs.Config.{root_ino, max_dir_bits}
use flatfs.Types.{FfsName, FfsInode, InodePage, InodeInfo}
use flatfs.Name.{my_strlen}
use flatfs.Lba.{dir_id_to_inode, ffs_get_lba_dir_meta}
use flatfs.Table.{init_file_ht}
use flatfs.Dir.{DirTree, copy_name, init_dir_tree, init_root_entry}
use flatfs.Super.{Sb, follow}
use flatfs.Writeback.{ffs_dirty_inode}

-- "/"
abbrev pub slash : List ℕ
slash = 47 ∷ []

-- The inode of the root, over what its memory held.
unfoldable pub root_info : InodeInfo → InodeInfo
root_info memory = record memory {
  dir_id = pos root_ino;
  bucket_id = minus_one;
  slot_id = pos 0;
  valid = 1;
  is_big_dir = 0;
  big_dir_id = minus_one;
  filename = record { name_len = my_strlen slash; name = copy_name slash memory.filename.name };
  i_ino = dir_id_to_inode root_ino;
  i_size = 0;
  i_nlink = (memory.i_nlink + 1) % 2 ^ 32;
}

-- The buffer is followed before anything tests it.
unfoldable pub flatfs_iget : (ℕ → Option InodePage) → Option InodeInfo → Run (Option InodeInfo)
flatfs_iget device none = ok none
flatfs_iget device (some memory) =
    follow (device (ffs_get_lba_dir_meta (dir_id_to_inode root_ino) (pos root_ino))) >>= λ page.
    ok (some (root_info memory))

-- `bitmap_zero` of the kernel, on whole words.
unfoldable pub bitmap_zero : List Bool → ℕ → Run (List Bool)
bitmap_zero bits n =
    if leb n (length bits) then ok (replicate n false ++ drop n bits) else fault out_of_bounds

-- The state from `kzalloc`, with the tree and the table of the root.
unfoldable pub new_sb : DirTree → Bool → InodeInfo → Run Sb
new_sb memory got root = init_file_ht got >>= λ ht. ok (record {
  dtree = init_root_entry (init_dir_tree memory) root.i_size;
  hashtbl = update (λ i. none) root_ino (some ht);
  big_dir_hashtbl = λ i. none;
  big_dir_bitmap = replicate 64 false;
  big_dir_num = 0;
})

-- -ENOMEM
abbrev pub enomem : ℤ
enomem = negsuc 11

-- What the mount leaves: the state, the inode of the root and the blocks.
pub record Mounted : Type 0 where
  pub sb : Sb
  pub root : InodeInfo
  pub device : ℕ → Option InodePage

-- The root's dentry is followed, for a message, before anything tests it.
unfoldable pub flatfs_fill_super :
    (InodePage → (FfsInode → FfsInode) → InodePage)
    → (ℕ → Option InodePage)
    → Bool
    → Option InodeInfo
    → DirTree
    → Bool
    → Bool
    → Run (ℤ × Option Mounted)
flatfs_fill_super overlay device zeroed inode memory got dentry =
    check zeroed null_pointer >> flatfs_iget device inode >>= λ found. elim found [
      | none ↦ ok (enomem, none)
      | some root ↦ new_sb memory got root >>= λ sb.
          bitmap_zero sb.big_dir_bitmap (2 ^ max_dir_bits) >>= λ bits. elim dentry [
            | false ↦ fault null_pointer
            | true ↦ ffs_dirty_inode overlay device root >>= λ written. ok (
              pos 0,
              some (record {
                sb = record sb { big_dir_bitmap = bits };
                root = root;
                device = written;
              }),
            )
          ]
    ]
