-- ===== src/Mount/Fresh.antt =====
-- The state that a mount makes: its root is an empty directory, into which a directory can be made.
use flatfs.Common.{
  ℕ, ◌^◌, ◌<◌, ◌≤◌, ◌≡◌, ◌≢◌, refl, sym, ◌∙◌, ap, List, [], Bool, true, false, pos, get_or, set,
  update, ◌==◌, ==_iff, Bool-cases, inl, inr, replicate, Option, some, none, Run, ok, fault,
  out_of_bounds, Returns, ◌>>=◌, arith,
}
use flatfs.Config.{root_ino, max_dir_bits, max_filename_len}
use flatfs.Types.{FfsInode, InodePage, InodeInfo}
use flatfs.Name.{my_strlen}
use flatfs.Bitmap.{used, used-set, used-le}
use flatfs.Lba.{inode_to_dir_id, dir_id_to_inode, ffs_get_lba_dir_meta}
use flatfs.Lba.Meta.{dir_id_roundtrip}
use flatfs.Table.{BigDirHashTable}
use flatfs.Table.Big.{init_file_ht-empty}
use flatfs.Dir.{DirEntry, DirTree, init_dir_tree, init_root_entry, init_dir_id_bitmap}
use flatfs.Dir.Ids.{init_dir_id_bitmap-IsIds}
use flatfs.Dir.Links.{Links, update_self, update_ne}
use flatfs.Dir.Find.{NotItself, first_named}
use flatfs.Dir.Make.{IsDir, AllTaken}
use flatfs.Super.{Sb, follow}
use flatfs.Inode.{ffs_mkdir, ffs_lookup}
use flatfs.Inode.Mkdir.{ffs_mkdir-MadeDir}
use flatfs.Mount.{root_info, flatfs_iget, bitmap_zero, new_sb, flatfs_fill_super}

numbered-update :
    (f : ℕ → DirEntry) (k : ℕ) (v : DirEntry)
    → ((i : ℕ) → (f i).dir_id ≡ i)
    → v.dir_id ≡ k
    → (i : ℕ) → (update f k v i).dir_id ≡ i
numbered-update f k v h e i = elim (Bool-cases (i == k)) [
  | inl t ↦
      let same : i ≡ k = (==_iff i k).0 t in
      rw same (ap (λ (x : DirEntry). x.dir_id) (update_self f k v) ∙ e)
  | inr t ↦
      let other : i ≢ k = ground (arith, t) in
      ap (λ (x : DirEntry). x.dir_id) (update_ne f k i v other) ∙ h i
]

fresh_number :
    (memory : DirTree) (i : ℕ) → ((init_root_entry (init_dir_tree memory) 0).de i).dir_id ≡ i
unfolding init_root_entry init_dir_tree
fresh_number memory i = numbered-update (init_dir_tree memory).de root_ino _ (λ j. refl) refl i

one_taken : get_or init_dir_id_bitmap root_ino false ≡ true
unfolding init_dir_id_bitmap
one_taken = refl

three_free : get_or init_dir_id_bitmap 3 false ≡ false
unfolding init_dir_id_bitmap
three_free = refl

ids_left : used (2 ^ max_dir_bits) init_dir_id_bitmap < 2 ^ max_dir_bits
ids_left =
    let one_more =
      used-set (2 ^ max_dir_bits) init_dir_id_bitmap 3 (omega arith)
        (omega (arith, init_dir_id_bitmap-IsIds.size)) three_free in
    omega (arith, one_more, used-le (2 ^ max_dir_bits) (set init_dir_id_bitmap 3 true))

-- The root of the new tree is an empty directory.
pub init_root_entry-IsDir :
    (memory : DirTree) → IsDir (init_root_entry (init_dir_tree memory) 0) root_ino []
unfolding init_root_entry init_dir_tree AllTaken NotItself Links
init_root_entry-IsDir memory = record {
  subdirs = record { links = (refl, refl); size = refl };
  ids = init_dir_id_bitmap-IsIds;
  numbered = fresh_number memory;
  all_taken = tt;
  apart = tt;
  own_taken = one_taken;
}

module _ (spin_lock : Bool → Run Bool) (device : ℕ → Option InodePage) where
  -- In the state that a mount makes up to its last bitmap, with memory, a name that is not too long and a new
  -- address, ffs_mkdir in the root succeeds, and ffs_lookup of the name returns the new inode number.
  pub ffs_mkdir-new_sb :
      (memory : DirTree) (big : Option BigDirHashTable) (dle : ℕ) (inode fi : InodeInfo)
      (name : List ℕ)
      → my_strlen name ≤ max_filename_len
      → memory.heap dle ≡ none
      → Returns
          (new_sb memory true (root_info inode) >>= λ sb.
            ffs_mkdir spin_lock true big (some dle) sb (root_info inode) fi name)
          (λ m. (m.ret ≡ pos 0) × (ffs_lookup device m.sb (root_info inode) name ≡ ok m.fi.i_ino))
  unfolding new_sb init_root_entry init_dir_tree root_info first_named
  ffs_mkdir-new_sb memory big dle inode fi name short new =
      let (ht, init, valid) = init_file_ht-empty in
      let own : inode_to_dir_id (dir_id_to_inode root_ino) ≡ root_ino =
        (dir_id_roundtrip root_ino (pos 0) (omega arith)).0 in
      let sb : Sb = record {
        dtree = init_root_entry (init_dir_tree memory) 0;
        hashtbl = update (λ i. none) root_ino (some ht);
        big_dir_hashtbl = λ i. none;
        big_dir_bitmap = replicate 64 false;
        big_dir_num = 0;
      } in
      let (m, run, made) =
        ffs_mkdir-MadeDir spin_lock device big dle sb (root_info inode) fi name []
          (rw own (init_root_entry-IsDir memory)) (ap pos (sym own)) (omega (arith, own)) short
          ids_left refl new (omega arith) in
      (m, rw (init, ◌>>=◌) run, (made.ret, made.found))

-- With all its memory to be had, flatfs_fill_super does not return: it clears 2 ^ 14 bits of a bitmap of 64.
pub flatfs_fill_super-outside :
    (overlay : InodePage → (FfsInode → FfsInode) → InodePage) (device : ℕ → Option InodePage)
    (inode : InodeInfo) (memory : DirTree) (dentry : Bool) (page : InodePage)
    → device (ffs_get_lba_dir_meta (dir_id_to_inode root_ino) (pos root_ino)) ≡ some page
    → flatfs_fill_super overlay device true (some inode) memory true dentry ≡ fault out_of_bounds
unfolding flatfs_fill_super flatfs_iget new_sb bitmap_zero follow
flatfs_fill_super-outside overlay device inode memory dentry page read =
    let (ht, init, valid) = init_file_ht-empty in rw (read, ◌>>=◌, init) refl
