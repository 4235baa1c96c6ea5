-- ===== src/Inode/Lookup.antt =====
-- `ffs_lookup` of flatfs/inode.c where the tree has no answer: the name of a file.
use flatfs.Common.{
  ℕ, ◌+◌, ◌-◌, ◌^◌, ◌<◌, ◌≤◌, ◌≡◌, ◌≢◌, ◌∙◌, ap, List, false, ltb, ◌==◌, Option, some, ok, ◌>>=◌,
  arith, lt→ltb,
}
use flatfs.Common.Bits.{bit_or_low}
use flatfs.Config.{max_filename_len, max_dir_bits}
use flatfs.Types.{InodePage, InodeInfo}
use flatfs.Name.{my_strlen}
use flatfs.Lba.{inode_to_dir_id}
use flatfs.Table.{HashTable}
use flatfs.Ino.{get_file_seg, flatfs_file_inode_by_name, compose_ino, small_ino_bits}
use flatfs.Dir.{flatfs_dir_inode_by_name}
use flatfs.Super.{Sb, index, follow}
use flatfs.Inode.{ffs_lookup, lookup_file, lookup_dir_id}

compose_ino-minus_one :
    (seg : ℕ)
    → seg < 2 ^ 15
    → compose_ino small_ino_bits seg (lookup_dir_id 0) ≡ seg + (2 ^ 64 - 2 ^ 15)
unfolding compose_ino lookup_dir_id
compose_ino-minus_one seg h = bit_or_low 15 (2 ^ 49 - 1) seg h ∙ omega arith

file_inode-minus_one :
    (sb_bread : ℕ → Option InodePage) (ht : HashTable) (dfi : InodeInfo) (name : List ℕ) (seg : ℕ)
    → get_file_seg sb_bread dfi ht name ≡ ok seg
    → (seg == 0) ≡ false
    → seg < 2 ^ 15
    → flatfs_file_inode_by_name sb_bread ht dfi (lookup_dir_id 0) name
      ≡ ok (seg + (2 ^ 64 - 2 ^ 15))
unfolding flatfs_file_inode_by_name
file_inode-minus_one sb_bread ht dfi name seg run nz h =
    rw (run, ◌>>=◌, nz) (ap ok (compose_ino-minus_one seg h))

lookup_file-minus_one :
    (sb_bread : ℕ → Option InodePage) (sb : Sb) (ht : HashTable) (dfi : InodeInfo) (name : List ℕ)
    (seg : ℕ)
    → inode_to_dir_id dfi.i_ino < 2 ^ max_dir_bits
    → sb.hashtbl (inode_to_dir_id dfi.i_ino) ≡ some ht
    → get_file_seg sb_bread dfi ht name ≡ ok seg
    → (seg == 0) ≡ false
    → seg < 2 ^ 15
    → lookup_file sb_bread sb dfi (lookup_dir_id 0) name ≡ ok (seg + (2 ^ 64 - 2 ^ 15))
unfolding lookup_file index follow
lookup_file-minus_one sb_bread sb ht dfi name seg bound there run nz h =
    let some_file : (seg + (2 ^ 64 - 2 ^ 15) == 0) ≡ false = ground arith in
    rw (
      lt→ltb (inode_to_dir_id dfi.i_ino) (2 ^ max_dir_bits) bound,
      ◌>>=◌,
      there,
      file_inode-minus_one sb_bread ht dfi name seg run nz h,
      some_file,
    )

-- A file that is found in the table of its directory, at bucket and slot `seg`, is looked up as inode
-- number 2 ^ 64 - 2 ^ 15 + seg, whatever the directory: its id is lost.
pub ffs_lookup-file :
    (sb_bread : ℕ → Option InodePage) (sb : Sb) (ht : HashTable) (dfi : InodeInfo) (name : List ℕ)
    (seg : ℕ)
    → my_strlen name ≤ max_filename_len
    → flatfs_dir_inode_by_name sb.dtree dfi.i_ino name ≡ ok 0
    → inode_to_dir_id dfi.i_ino < 2 ^ max_dir_bits
    → sb.hashtbl (inode_to_dir_id dfi.i_ino) ≡ some ht
    → get_file_seg sb_bread dfi ht name ≡ ok seg
    → seg ≢ 0
    → seg < 2 ^ 15
    → ffs_lookup sb_bread sb dfi name ≡ ok (seg + (2 ^ 64 - 2 ^ 15))
unfolding ffs_lookup
ffs_lookup-file sb_bread sb ht dfi name seg short tree bound there run ne h =
    let fits : ltb max_filename_len (my_strlen name) ≡ false = ground (arith, short) in
    let nz : (seg == 0) ≡ false = ground (arith, ne) in
    rw (fits, ffs_lookup, tree, ◌>>=◌)
      (lookup_file-minus_one sb_bread sb ht dfi name seg bound there run nz h)
