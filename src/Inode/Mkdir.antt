-- ===== src/Inode/Mkdir.antt =====
-- `ffs_mkdir` of flatfs/inode.c, and `ffs_lookup` after it.
use flatfs.Common.{
  ℕ, ◌%◌, ◌+◌, ◌^◌, ◌<◌, ◌≤◌, ◌≡◌, refl, List, ◌∷◌, [], ◌++◌, Bool, true, false, pos, ltb, ◌==◌,
  Option, some, none, Run, ok, ◌>>=◌, Returns, length, arith, lt→ltb, update,
}
use flatfs.Config.{max_filename_len, max_dir_bits}
use flatfs.Types.{InodePage, InodeInfo}
use flatfs.Name.{my_strlen}
use flatfs.Bitmap.{used}
use flatfs.Lba.{inode_to_dir_id, dir_id_to_inode}
use flatfs.Table.{HashTable, BigDirHashTable, init_file_ht}
use flatfs.Dir.{flatfs_dir_inode_by_name}
use flatfs.Dir.Find.{first_named}
use flatfs.Dir.Make.{IsDir, make_dir-Makes}
use flatfs.Super.{Sb, index}
use flatfs.Inode.{Made, new_dir, mknod_dir, ffs_mknod, ffs_mkdir, ffs_lookup}

-- The inode number of a directory is not 0.
dir_id_to_inode-positive : (id : ℕ) → id < 2 ^ max_dir_bits → (dir_id_to_inode id == 0) ≡ false
unfolding dir_id_to_inode
dir_id_to_inode-positive id h = ground (arith, h)

init_file_ht-returns : (ht : HashTable) × init_file_ht true ≡ ok ht
unfolding init_file_ht
init_file_ht-returns = (_, refl)

-- A name that the tree answers.
ffs_lookup-dir :
    (sb_bread : ℕ → Option InodePage) (sb : Sb) (dfi : InodeInfo) (name : List ℕ) (ino : ℕ)
    → my_strlen name ≤ max_filename_len
    → flatfs_dir_inode_by_name sb.dtree dfi.i_ino name ≡ ok ino
    → (ino == 0) ≡ false
    → ffs_lookup sb_bread sb dfi name ≡ ok ino
unfolding ffs_lookup
ffs_lookup-dir sb_bread sb dfi name ino short run nz =
    let fits : ltb max_filename_len (my_strlen name) ≡ false = ground (arith, short) in
    rw (fits, ffs_lookup, run, ◌>>=◌, nz)

-- What `ffs_mkdir` leaves: success, one link more for the parent, and a tree in which the new
-- directory, the last of its parent, is found under its name.
pub record MadeDir (sb_bread : ℕ → Option InodePage) (sb : Sb) (dfi : InodeInfo) (name : List ℕ)
    (dle : ℕ) (xs : List (ℕ × ℕ)) (m : Made) : Type 0 where
  pub ret : m.ret ≡ pos 0
  pub links : m.dfi.i_nlink ≡ (dfi.i_nlink + 1) % 2 ^ 32
  pub new_id : ℕ
  pub is_dir : IsDir m.sb.dtree (inode_to_dir_id dfi.i_ino) (xs ++ (dle, new_id) ∷ [])
  pub i_ino : m.fi.i_ino ≡ dir_id_to_inode new_id
  pub found : ffs_lookup sb_bread m.sb dfi name ≡ ok m.fi.i_ino

module _ (spin_lock : Bool → Run Bool) (sb_bread : ℕ → Option InodePage) where
  -- With memory and an id to be had, a name that is not too long and that no subdirectory has, and a
  -- new address, ffs_mkdir succeeds: the new directory is the last of its parent, and ffs_lookup of
  -- the name returns its inode number.
  pub ffs_mkdir-MadeDir :
      (memory : Option BigDirHashTable) (dle : ℕ) (sb : Sb) (dfi fi : InodeInfo) (name : List ℕ)
      (xs : List (ℕ × ℕ))
      → IsDir sb.dtree (inode_to_dir_id dfi.i_ino) xs
      → dfi.dir_id ≡ pos (inode_to_dir_id dfi.i_ino)
      → inode_to_dir_id dfi.i_ino < 2 ^ max_dir_bits
      → my_strlen name ≤ max_filename_len
      → used (2 ^ max_dir_bits) sb.dtree.dir_id_bitmap < 2 ^ max_dir_bits
      → first_named sb.dtree xs name ≡ none
      → sb.dtree.heap dle ≡ none
      → length xs + 1 < 2 ^ 64
      → Returns
          (ffs_mkdir spin_lock true memory (some dle) sb dfi fi name)
          (MadeDir sb_bread sb dfi name dle xs)
  unfolding ffs_mkdir ffs_mknod mknod_dir index new_dir
  ffs_mkdir-MadeDir memory dle sb dfi fi name xs d same bound short free absent new few =
      let k = make_dir-Makes sb.dtree dfi.i_ino dle name xs d bound free absent new few in
      let in_range = lt→ltb (inode_to_dir_id dfi.i_ino) (2 ^ max_dir_bits) bound in
      let (ht, init) = init_file_ht-returns in
      (
        record {
          sb = record sb { dtree = k.t'; hashtbl = update sb.hashtbl k.id (some ht) };
          dfi = record dfi { i_nlink = (dfi.i_nlink + 1) % 2 ^ 32 };
          fi = new_dir fi name k.id;
          ret = pos 0;
        },
        rw (k.fills, ◌>>=◌, same, in_range, k.inserts, init),
        record {
          ret = refl;
          links = refl;
          new_id = k.id;
          is_dir = k.made.is_dir;
          i_ino = refl;
          found =
              ffs_lookup-dir sb_bread
                (record sb { dtree = k.t'; hashtbl = update sb.hashtbl k.id (some ht) }) dfi name
                (dir_id_to_inode k.id) short k.made.found (dir_id_to_inode-positive k.id k.bound);
        },
      )
