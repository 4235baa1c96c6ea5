-- ===== src/Tests/Readdir.antt =====
-- Reading a directory: directory 1 with the subdirectories "x" and "y" and a table in which every slot is taken.
use flatfs.Common.{ℕ, ◌≡◌, ◌++◌, refl, arith, [], some, Option, ◌>>=◌, Returns}
use flatfs.Types.{FfsInode}
use flatfs.Lba.{inode_to_dir_id}
use flatfs.Super.{Sb}
use flatfs.Readdir.Slots.{inos}
use flatfs.Readdir.Files.{Readable}
use flatfs.Readdir.Dirs.{ffs_readdir}
use flatfs.Readdir.Whole.{dir_inos, HaveLengths}
use flatfs.Readdir.Twice.{Browsable, file_inos, ffs_readdir-twice}
use flatfs.Tests.Table.{full, full-TableIsValid}
use flatfs.Tests.Ino.{page}
use flatfs.Tests.Dir.{nodes, tree, parent, sb, tree-Subdirs}

abbrev blocks : ℕ → Option (ℕ → FfsInode)
blocks n = some page.inode

blocks-Readable : Readable blocks
blocks-Readable n = (page.inode, refl)

abbrev with_files : Sb
with_files = record sb { hashtbl = λ i. some full }

nodes-HaveLengths : HaveLengths tree nodes
unfolding HaveLengths
nodes-HaveLengths = (refl, (refl, tt))

parent-Browsable : Browsable with_files parent 1 nodes full
unfolding inode_to_dir_id
parent-Browsable = record {
  id = refl;
  bound = omega arith;
  small = refl;
  subdirs = tree-Subdirs;
  lengths = nodes-HaveLengths;
  table = refl;
  valid = full-TableIsValid;
}

ffs_readdir-twice_example :
    Returns
      (ffs_readdir blocks with_files parent [] 0 >>= λ (sb', r).
        ffs_readdir blocks sb' parent r.emitted r.ctx_pos)
      (λ (sb'', r). inos r.emitted ≡ [] ++ (dir_inos tree nodes ++ file_inos 1 full))
ffs_readdir-twice_example =
    ffs_readdir-twice blocks with_files parent 1 nodes full [] blocks-Readable parent-Browsable
