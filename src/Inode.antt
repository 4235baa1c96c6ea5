-- ===== src/Inode.antt =====
-- The operations on inodes of flatfs/inode.c: creating files and directories, and looking names
-- up. What the VFS does with an inode is left out; the inode in memory is a record.
-- `spin_lock` and `sb_bread` are parameters.
pub mod Mkdir
pub mod Blocks
pub mod Lookup
pub mod Create
use flatfs.Common.{
  take, ℕ, zero, suc, ◌+◌, ◌-◌, ◌/◌, ◌%◌, ◌^◌, List, [], ◌∷◌, Bool, true, false, not, ◌&&◌, ℤ, pos,
  negsuc, minus_one, is_minus_one, to_u64, to_int, u64_max, ltb, ◌==◌, if◌then◌else◌, update,
  Option, some, none, Run, ok, fault, out_of_bounds, null_pointer, ◌>>=◌,
}
use flatfs.Config.{
  max_filename_len, max_dir_bits, min_file_bucket_bits, file_slot_bits, min_dir_bits,
}
use flatfs.Types.{FfsName, InodePage, InodeInfo}
use flatfs.Name.{my_strlen, c_str}
use flatfs.Bitmap.{bitmap_write}
use flatfs.Lba.{inode_to_dir_id, dir_id_to_inode, compose_lba, compose_big_file_lba}
use flatfs.Table.{HashTable, BigDirHashTable, init_file_ht, delete_file, delete_big_file}
use flatfs.Ino.{
  ino_to_bucket, ino_to_slot, big_ino_to_bucket, big_ino_to_slot, flatfs_file_slot_alloc_by_name,
  flatfs_big_file_slot_alloc_by_name, flatfs_file_inode_by_name, flatfs_big_file_inode_by_name,
}
use flatfs.Dir.{copy_name, fill_one_dir_entry, insert_dir, flatfs_dir_inode_by_name, zero_name}
use flatfs.Super.{Sb, index, follow, with_table, with_big_table, resize_dir, remove_dir}

-- The name that a new inode gets. Its length is kept in eight bits, and as many bytes are copied.
unfoldable pub named : InodeInfo → List ℕ → FfsName
named fi name =
    let len = my_strlen name % 2 ^ 8 in
    record { name_len = len; name = copy_name (take len (c_str name)) fi.filename.name }

abbrev is_zero : ℤ → Bool
is_zero (pos n) = n == 0
is_zero (negsuc n) = false

-- What a call of `ffs_mknod` leaves: the super block, the inode of the parent, the new inode, and
-- what it returns.
pub record Made : Type 0 where
  pub sb : Sb
  pub dfi : InodeInfo
  pub fi : InodeInfo
  pub ret : ℤ

-- What `ffs_mknod` writes to the inode of a new directory.
unfoldable pub new_dir : InodeInfo → List ℕ → ℕ → InodeInfo
new_dir fi name dir_id = record fi {
  dir_id = to_int dir_id;
  bucket_id = minus_one;
  slot_id = minus_one;
  valid = 1;
  is_big_dir = 0;
  big_dir_id = minus_one;
  filename = named fi name;
  i_ino = dir_id_to_inode dir_id;
}

-- The branch of `ffs_mknod` for directories. `dle` is the address of the new list entry, if there is memory; `got` says
-- whether there is memory for the table. An id of 0, which says that none is left, is used as any.
unfoldable pub mknod_dir : Bool → Option ℕ → Sb → InodeInfo → InodeInfo → List ℕ → Run Made
mknod_dir got dle sb dfi fi name = do
  (t, dir_id) ← fill_one_dir_entry sb.dtree name
  parent_id ← index (2 ^ max_dir_bits) dfi.dir_id
  t' ← insert_dir t parent_id dir_id dle
  ht ← init_file_ht got
  ok (record {
    sb = record sb { dtree = t'; hashtbl = update sb.hashtbl dir_id (some ht) };
    dfi = dfi;
    fi = new_dir fi name dir_id;
    ret = pos 0;
  })

-- What `ffs_mknod` writes to the inode of a new file.
unfoldable pub new_file : InodeInfo → InodeInfo → List ℕ → ℕ → ℕ → ℤ → ℕ → ℕ → InodeInfo
new_file dfi fi name is_big_dir ino big_dir_id bucket slot = record fi {
  dir_id = dfi.dir_id;
  bucket_id = pos bucket;
  slot_id = pos slot;
  valid = 1;
  is_big_dir = is_big_dir;
  big_dir_id = big_dir_id;
  size = 0;
  filename = named fi name;
  i_ino = ino;
}

module _ (spin_lock : Bool → Run Bool) where
  -- The branch for files of big directories: the expansion area.
  unfoldable pub mknod_big_file : Sb → InodeInfo → InodeInfo → List ℕ → Run Made
  mknod_big_file sb dfi fi name = do
    (sb', ino) ←
        with_big_table sb dfi.big_dir_id
          (λ ht. flatfs_big_file_slot_alloc_by_name spin_lock ht dfi.dir_id name)
    elim (ino == u64_max) [
      | true ↦ ok (record { sb = sb'; dfi = dfi; fi = fi; ret = minus_one })
      | false ↦ ok (record {
        sb = sb';
        dfi = dfi;
        fi =
            new_file dfi fi name 1 ino dfi.big_dir_id (big_ino_to_bucket ino) (big_ino_to_slot ino);
        ret = pos 0;
      })
    ]

  -- The branch for files of other directories: where the bucket is full, the directory becomes a
  -- big one and the code starts again. `memory` is what `vmalloc` gives.
  unfoldable pub mknod_file :
      Option BigDirHashTable → Sb → InodeInfo → InodeInfo → List ℕ → Run Made
  mknod_file memory sb dfi fi name = do
    (sb', ino) ←
        with_table sb dfi.dir_id (λ ht. flatfs_file_slot_alloc_by_name spin_lock ht dfi.dir_id name)
    elim (ino == u64_max) [
      | true ↦ do
        (grown, big_dir_id) ← resize_dir sb' memory
        if is_minus_one big_dir_id
            then ok (record { sb = grown; dfi = dfi; fi = fi; ret = minus_one })
            else mknod_big_file grown (record dfi { is_big_dir = 1; big_dir_id = big_dir_id }) fi
                name
      | false ↦ ok (record {
        sb = sb';
        dfi = dfi;
        fi = new_file dfi fi name 0 ino minus_one (ino_to_bucket ino) (ino_to_slot ino);
        ret = pos 0;
      })
    ]

  unfoldable pub ffs_mknod :
      Bool
      → Option BigDirHashTable
      → Option ℕ
      → Sb
      → InodeInfo
      → InodeInfo
      → List ℕ
      → Bool
      → Run Made
  ffs_mknod got memory dle sb dfi fi name mknod_is_dir =
      if mknod_is_dir
      then mknod_dir got dle sb dfi fi name
      else if dfi.is_big_dir == 0
      then mknod_file memory sb dfi fi name
      else mknod_big_file sb dfi fi name

  -- A directory has one link more for each subdirectory.
  unfoldable pub ffs_mkdir :
      Bool → Option BigDirHashTable → Option ℕ → Sb → InodeInfo → InodeInfo → List ℕ → Run Made
  ffs_mkdir got memory dle sb dfi fi name = do
    m ← ffs_mknod got memory dle sb dfi fi name true
    ok (
        if is_zero m.ret
        then record m { dfi = record m.dfi { i_nlink = (m.dfi.i_nlink + 1) % 2 ^ 32 } }
        else m)

  unfoldable pub ffs_create :
      Bool → Option BigDirHashTable → Option ℕ → Sb → InodeInfo → InodeInfo → List ℕ → Run Made
  ffs_create got memory dle sb dfi fi name = ffs_mknod got memory dle sb dfi fi name false

-- The number that `ffs_lookup` asks for, from the name and its length `len`; 0 says that the name is
-- in neither place. The directory id that it passes on is taken from the answer of the tree, which
-- is 0 where the tables are asked: the difference wraps, and the `int` is -1.
unfoldable pub lookup_dir_id : ℕ → ℤ
lookup_dir_id ino =
    to_int ((ino + 2 ^ 64 - 1) % 2 ^ 64 / 2 ^ (min_file_bucket_bits + file_slot_bits))

module _ (sb_bread : ℕ → Option InodePage) where
  -- The tables are asked: first that of every directory, then that of a big one.
  unfoldable pub lookup_file : Sb → InodeInfo → ℤ → List ℕ → Run ℕ
  lookup_file sb dfi dir_id name = do
    i ← index (2 ^ max_dir_bits) (pos (inode_to_dir_id dfi.i_ino))
    ht ← follow (sb.hashtbl i)
    file ← flatfs_file_inode_by_name sb_bread ht dfi dir_id name
    elim (file == 0 && not (dfi.is_big_dir == 0)) [
      | false ↦ ok file
      | true ↦ do
        j ← index (2 ^ min_dir_bits) dfi.big_dir_id
        big ← follow (sb.big_dir_hashtbl j)
        flatfs_big_file_inode_by_name sb_bread big dfi dir_id name
    ]

  unfoldable pub ffs_lookup : Sb → InodeInfo → List ℕ → Run ℕ
  ffs_lookup sb dfi name = elim (ltb max_filename_len (my_strlen name)) [
    | true ↦ ok 0
    | false ↦ do
      ino ← flatfs_dir_inode_by_name sb.dtree dfi.i_ino name
      elim (ino == 0) [ true ↦ lookup_file sb dfi (lookup_dir_id ino) name | false ↦ ok ino ]
  ]
