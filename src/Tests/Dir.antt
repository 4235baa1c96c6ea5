-- ===== src/Tests/Dir.antt =====
-- The tree of directories: directory 1 with two subdirectories, "x" and "y".
use flatfs.Common.{
  length, ℕ, ◌+◌, ◌-◌, ◌%◌, ◌^◌, ◌<◌, ◌≡◌, ◌≢◌, refl, sym, ap, arith, List, [], ◌∷◌, true, false,
  if◌then◌else◌, ◌==◌, pos, some, none, ok, fault, dangling, Returns, replicate, set, get_or,
}
use flatfs.Config.{max_dir_bits}
use flatfs.Types.{InodeInfo}
use flatfs.Name.{c_str, my_strlen, same_bytes}
use flatfs.Bitmap.{used, used-set, used-le}
use flatfs.Lba.{inode_to_dir_id}
use flatfs.Dir.{
  DirTree, init_dir_id_bitmap, get_unused_dir_id, insert_dir, remove_from_tree,
  flatfs_dir_inode_by_name, has_name,
}
use flatfs.Dir.Ids.{NewId, get_unused_dir_id-NewId, init_dir_id_bitmap-IsIds}
use flatfs.Dir.Links.{Links, Avoids, IsNode}
use flatfs.Dir.Insert.{Subdirs, Appended, insert_dir-Appended}
use flatfs.Dir.Find.{first_named, NotItself, ino_or_0, dir_inode_by_name-first_named}
use flatfs.Dir.Middle.{remove_from_tree-Unlinked}
use flatfs.Dir.Remove.{NotAmong, remove_dir-dangling}
use flatfs.Dir.Make.{IsDir, AllTaken}
use flatfs.Super.{Sb}
use flatfs.Inode.{ffs_mkdir}
use flatfs.Inode.Mkdir.{MadeDir, ffs_mkdir-MadeDir}
use flatfs.Tests.Table.{several_processors}
use flatfs.Tests.Lba.{file_at}

get_unused_dir_id-NewId_example :
    Returns (get_unused_dir_id init_dir_id_bitmap) (NewId init_dir_id_bitmap)
get_unused_dir_id-NewId_example =
    get_unused_dir_id-NewId init_dir_id_bitmap init_dir_id_bitmap-IsIds

-- The nodes of "x", with id 0, and of "y", with id 2, at addresses 10 and 11.
abbrev pub nodes : List (ℕ × ℕ)
nodes = (10, 0) ∷ (11, 2) ∷ []

abbrev pub tree : DirTree
tree = record {
  de = λ i. record {
    dir_id = i;
    dir_name = (if i == 0 then 120 ∷ 0 ∷ [] else 121 ∷ 0 ∷ []);
    namelen = 1;
    rec_len = 12;
    head = (if i == 1 then some 10 else none);
    tail = (if i == 1 then some 11 else none);
    dir_size = (if i == 1 then 2 else 0);
    pos = 0;
  };
  dir_entry_num = 3;
  dir_id_bitmap = init_dir_id_bitmap;
  heap = λ a.
      if a == 10
      then some (record { de = 0; last = none; next = some 11 })
      else if a == 11
      then some (record { de = 2; last = some 10; next = none })
      else none;
}

-- The inode of directory 1.
abbrev pub parent : InodeInfo
parent = record (file_at 1 0 0) { i_ino = 2 ^ 15 + 1 }

pub parent_id : inode_to_dir_id parent.i_ino ≡ 1
unfolding inode_to_dir_id
parent_id = refl

pub tree-Subdirs : Subdirs tree (inode_to_dir_id parent.i_ino) nodes
unfolding inode_to_dir_id Links Avoids IsNode
tree-Subdirs = record {
  links = (refl, (omega arith, tt), some 11, refl, (refl, tt, none, refl, (refl, refl)));
  size = refl;
}

insert_dir-Appended_example :
    Returns
      (insert_dir tree (inode_to_dir_id parent.i_ino) 3 (some 12))
      (Appended tree (inode_to_dir_id parent.i_ino) 3 12 nodes)
insert_dir-Appended_example =
    insert_dir-Appended tree (inode_to_dir_id parent.i_ino) 3 12 nodes tree-Subdirs refl
      (omega arith)

tree-NotItself : NotItself tree (inode_to_dir_id parent.i_ino) nodes
unfolding NotItself inode_to_dir_id
tree-NotItself = (omega arith, (omega arith, tt))

dir_inode_by_name-first_named_example :
    flatfs_dir_inode_by_name tree parent.i_ino (121 ∷ [])
    ≡ ok (ino_or_0 (first_named tree nodes (121 ∷ [])))
dir_inode_by_name-first_named_example =
    dir_inode_by_name-first_named tree parent.i_ino (121 ∷ []) nodes tree-Subdirs tree-NotItself
      (omega (arith, parent_id))

y-NotAmong : NotAmong tree (inode_to_dir_id (2 ^ 16 + 1)) ((10, 0) ∷ [])
unfolding NotAmong inode_to_dir_id
y-NotAmong = (refl, tt)

y_id : inode_to_dir_id (2 ^ 16 + 1) ≡ 2
unfolding inode_to_dir_id
y_id = refl

y_empty : (tree.de (inode_to_dir_id (2 ^ 16 + 1))).dir_size ≡ 0
unfolding inode_to_dir_id
y_empty = refl

y_ends :
    my_strlen (tree.de (inode_to_dir_id (2 ^ 16 + 1))).dir_name
    < length (tree.de (inode_to_dir_id (2 ^ 16 + 1))).dir_name
unfolding inode_to_dir_id my_strlen
y_ends = omega arith

-- "y" is removed, the last of the directory.
remove_dir-dangling_example :
    Returns (remove_from_tree tree parent.i_ino (2 ^ 16 + 1)) (λ (t', found).
      (found ≡ true)
      × ((new dle : ℕ)
          → dle ≢ 11
          → insert_dir t' (inode_to_dir_id parent.i_ino) new (some dle) ≡ fault dangling))
remove_dir-dangling_example =
    remove_dir-dangling tree parent.i_ino (2 ^ 16 + 1) 2 10 0 11 [] tree-Subdirs y-NotAmong y_id
      y_empty (omega arith) (λ s. absurd (omega (arith, s, y_id, parent_id)))
      (omega (arith, y_id, init_dir_id_bitmap-IsIds.size)) (omega (arith, parent_id))
      (omega (arith, y_id)) y_ends

x_id : inode_to_dir_id 1 ≡ 0
unfolding inode_to_dir_id
x_id = refl

x_NotAmong : NotAmong tree (inode_to_dir_id 1) []
unfolding NotAmong
x_NotAmong = tt

x_empty : (tree.de (inode_to_dir_id 1)).dir_size ≡ 0
x_empty = rw x_id refl

x_ends :
    my_strlen (tree.de (inode_to_dir_id 1)).dir_name < length (tree.de (inode_to_dir_id 1)).dir_name
unfolding inode_to_dir_id my_strlen
x_ends = omega arith

-- "x" is removed, the first of the directory.
remove_from_tree-Unlinked_example : Returns (remove_from_tree tree parent.i_ino 1) (λ (t', found).
    (found ≡ true)
    × Subdirs t' (inode_to_dir_id parent.i_ino) ((11, 2) ∷ [])
    × (t'.dir_id_bitmap ≡ set tree.dir_id_bitmap (tree.de (inode_to_dir_id 1)).dir_id false)
    × (t'.dir_entry_num ≡ (tree.dir_entry_num + (2 ^ 64 - 1)) % 2 ^ 64)
    × ((j : ℕ) → j ≢ inode_to_dir_id parent.i_ino → j ≢ inode_to_dir_id 1 → t'.de j ≡ tree.de j))
remove_from_tree-Unlinked_example =
    remove_from_tree-Unlinked tree parent.i_ino 1 0 10 11 2 [] [] tree-Subdirs x_NotAmong x_id
      x_empty (omega arith) (λ s. absurd (omega (arith, s, x_id, parent_id)))
      (omega (arith, x_id, init_dir_id_bitmap-IsIds.size)) (omega (arith, parent_id))
      (omega (arith, x_id)) x_ends

tree-IsDir : IsDir tree (inode_to_dir_id parent.i_ino) nodes
unfolding AllTaken init_dir_id_bitmap inode_to_dir_id
tree-IsDir = record {
  subdirs = tree-Subdirs;
  ids = init_dir_id_bitmap-IsIds;
  numbered = λ i. refl;
  all_taken = (refl, (refl, tt));
  apart = tree-NotItself;
  own_taken = refl;
}

abbrev pub sb : Sb
sb = record {
  dtree = tree;
  hashtbl = λ i. none;
  big_dir_hashtbl = λ i. none;
  big_dir_bitmap = replicate 64 false;
  big_dir_num = 0;
}

third_free : get_or init_dir_id_bitmap 3 false ≡ false
unfolding init_dir_id_bitmap
third_free = refl

ids_free : used (2 ^ max_dir_bits) init_dir_id_bitmap < 2 ^ max_dir_bits
ids_free =
    let one_more =
      used-set (2 ^ max_dir_bits) init_dir_id_bitmap 3 (omega arith)
        (omega (arith, init_dir_id_bitmap-IsIds.size)) third_free in
    omega (arith, one_more, used-le (2 ^ max_dir_bits) (set init_dir_id_bitmap 3 true))

z_absent : first_named tree nodes (122 ∷ []) ≡ none
unfolding first_named has_name c_str my_strlen same_bytes
z_absent = refl

z_short : my_strlen (122 ∷ []) ≡ 1
unfolding my_strlen
z_short = refl

-- "z" is made in the directory.
ffs_mkdir-MadeDir_example :
    Returns
      (ffs_mkdir several_processors true none (some 12) sb parent (file_at 0 0 0) (122 ∷ []))
      (MadeDir (λ b. none) sb parent (122 ∷ []) 12 nodes)
ffs_mkdir-MadeDir_example =
    ffs_mkdir-MadeDir several_processors (λ b. none) none 12 sb parent (file_at 0 0 0) (122 ∷ [])
      nodes tree-IsDir (ap pos (sym parent_id)) (omega (arith, parent_id)) (omega (arith, z_short))
      ids_free z_absent refl (omega arith)
