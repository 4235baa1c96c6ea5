-- ===== src/Dir/Middle.antt =====
-- `remove_dir` of flatfs/dir.c on a directory that is not the last of its parent.
use flatfs.Common.{
  ℕ, suc, ◌+◌, ◌-◌, ◌%◌, ◌^◌, ◌<◌, ◌≡◌, ◌≢◌, refl, sym, ◌∙◌, ap, List, [], ◌∷◌, ◌++◌, some, none,
  ◌>>=◌, true, false, ◌==◌, ==_iff, Returns, length, length-append, set, update, if◌then◌else◌,
  arith,
}
use flatfs.Name.{my_strlen}
use flatfs.Bitmap.{bitmap_write-ok}
use flatfs.Lba.{inode_to_dir_id}
use flatfs.Dir.{DirTree, DirEntry, zero_name, remove_from_tree, remove_loop, unlink_entry}
use flatfs.Config.{max_dir_bits}
use flatfs.Dir.Links.{entry_of-ok, array_strlen-ok, update_self, update_ne}
use flatfs.Dir.Insert.{Subdirs}
use flatfs.Dir.Remove.{NotAmong, remove_loop-skip, remove_loop-hit}
use flatfs.Dir.Cut.{IsCut, Links-IsCut}

-- What is left of the parent and of the other entries.
pub record Unlinked (t : DirTree) (p : ℕ) (xs : List (ℕ × ℕ)) (t' : DirTree) : Type 0 where
  pub subdirs : Subdirs t' p xs
  pub others : (j : ℕ) → j ≢ p → t'.de j ≡ t.de j
  pub bitmap : t'.dir_id_bitmap ≡ t.dir_id_bitmap
  pub count : t'.dir_entry_num ≡ t.dir_entry_num

length-cut : (xs ys : List (ℕ × ℕ)) (x : ℕ × ℕ) → length (xs ++ x ∷ ys) ≡ suc (length (xs ++ ys))
length-cut [] ys x = refl
length-cut (w ∷ xs) ys x = ap suc (length-cut xs ys x)

unlink_entry-Unlinked :
    (t : DirTree) (p d id z y iy : ℕ) (xs ys : List (ℕ × ℕ))
    → (c : IsCut t.heap (t.de p).head xs z id y iy ys (t.de p).tail)
    → (t.de p).dir_size ≡ suc (length (xs ++ (y, iy) ∷ ys))
    → suc (length (xs ++ (y, iy) ∷ ys)) < 2 ^ 64
    → (t.de d).dir_size ≡ 0
    → Returns
        (unlink_entry t p d (length xs) z (record { de = id; last = c.before; next = some y }))
        (Unlinked t p (xs ++ (y, iy) ∷ ys))
unfolding unlink_entry
unlink_entry-Unlinked t p d id z y iy xs ys c size room leaf =
    let front = length-append xs ((y, iy) ∷ ys) in
    let inner : (length xs == ((t.de d).dir_size + (2 ^ 64 - 1)) % 2 ^ 64) ≡ false =
      ground (arith, leaf, front, room) in
    let dir : DirEntry = record (t.de p) {
      head = if length xs == 0 then some y else (t.de p).head;
      dir_size = ((t.de p).dir_size + (2 ^ 64 - 1)) % 2 ^ 64;
    } in
    let at_p = update_self t.de p dir in
    (
      record t { heap = update c.heap2 z none; de = update t.de p dir },
      rw (inner, c.run1, ◌>>=◌, c.run2) refl,
      record {
        subdirs = record { links = rw at_p c.links; size = rw (at_p, size) (omega (arith, room)) };
        others = λ j ne. update_ne t.de p j dir ne;
        bitmap = refl;
        count = refl;
      },
    )

-- The walk finds the node and takes it out.
remove_loop-Unlinked :
    (t : DirTree) (p d id z y iy : ℕ) (xs ys : List (ℕ × ℕ))
    → Subdirs t p (xs ++ (z, id) ∷ (y, iy) ∷ ys)
    → NotAmong t d xs
    → (t.de d).dir_id ≡ (t.de id).dir_id
    → (t.de d).dir_size ≡ 0
    → suc (length (xs ++ (y, iy) ∷ ys)) < 2 ^ 64
    → Returns
        (remove_loop (t.de p).dir_size t p d 0 (t.de p).head)
        (λ (t', found). (found ≡ true) × Unlinked t p (xs ++ (y, iy) ∷ ys) t')
remove_loop-Unlinked t p d id z y iy xs ys h other same leaf room =
    let c = Links-IsCut t.heap (t.de p).head xs z id y iy ys (t.de p).tail h.links in
    let size = h.size ∙ length-cut xs ((y, iy) ∷ ys) (z, id) in
    let (t', run, left) = unlink_entry-Unlinked t p d id z y iy xs ys c size room leaf in
    let n = suc (length ys) in
    let count = length-append xs ((y, iy) ∷ ys) in
    let rounds : (t.de p).dir_size ≡ length xs + suc n = omega (arith, size, count) in
    let start : 0 + length xs ≡ length xs = omega arith in
    (
      (t', true),
      rw rounds (
          remove_loop-skip t p d 0 (suc n) xs none (t.de p).head c.before (some z) other c.front
          ∙ ap (λ k. remove_loop (suc n) t p d k (some z)) start
          ∙ remove_loop-hit t t' p d (length xs) z n
              (record { de = id; last = c.before; next = some y }) c.node
              ((==_iff (t.de d).dir_id (t.de id).dir_id).1 same) run),
      (refl, left),
    )

-- A directory without subdirectories is removed that is not the last of its parent, both of ids below 2 ^ 14,
-- and whose name has a zero byte within its array: the removal succeeds, the list of
-- the parent loses the node of the directory and is well linked, the id of the directory is free again,
-- one directory less is counted, and the entries of the other directories stay.
pub remove_from_tree-Unlinked :
    (t : DirTree) (parent_ino dir_ino id z y iy : ℕ) (xs ys : List (ℕ × ℕ))
    → Subdirs t (inode_to_dir_id parent_ino) (xs ++ (z, id) ∷ (y, iy) ∷ ys)
    → NotAmong t (inode_to_dir_id dir_ino) xs
    → (t.de (inode_to_dir_id dir_ino)).dir_id ≡ (t.de id).dir_id
    → (t.de (inode_to_dir_id dir_ino)).dir_size ≡ 0
    → suc (length (xs ++ (y, iy) ∷ ys)) < 2 ^ 64
    → inode_to_dir_id dir_ino ≢ inode_to_dir_id parent_ino
    → (t.de (inode_to_dir_id dir_ino)).dir_id < length t.dir_id_bitmap
    → inode_to_dir_id parent_ino < 2 ^ max_dir_bits
    → inode_to_dir_id dir_ino < 2 ^ max_dir_bits
    → my_strlen (t.de (inode_to_dir_id dir_ino)).dir_name
      < length (t.de (inode_to_dir_id dir_ino)).dir_name
    → Returns (remove_from_tree t parent_ino dir_ino) (λ (t', found).
      (found ≡ true)
      × Subdirs t' (inode_to_dir_id parent_ino) (xs ++ (y, iy) ∷ ys)
      × (t'.dir_id_bitmap ≡ set t.dir_id_bitmap (t.de (inode_to_dir_id dir_ino)).dir_id false)
      × (t'.dir_entry_num ≡ (t.dir_entry_num + (2 ^ 64 - 1)) % 2 ^ 64)
      × ((j : ℕ) → j ≢ inode_to_dir_id parent_ino → j ≢ inode_to_dir_id dir_ino → t'.de j ≡ t.de j))
unfolding remove_from_tree
remove_from_tree-Unlinked t parent_ino dir_ino id z y iy xs ys h other same leaf room apart bound
      p_fits d_fits ends =
    let p = inode_to_dir_id parent_ino in
    let d = inode_to_dir_id dir_ino in
    let ((u, found), run, (e, left)) =
      remove_loop-Unlinked t p d id z y iy xs ys h other same leaf room in
    let at_d = left.others d apart in
    let entry : DirEntry = record (u.de d) {
      dir_name = zero_name (my_strlen (t.de d).dir_name) (u.de d).dir_name;
      namelen = 0;
      head = none;
      tail = none;
    } in
    let at_p = update_ne u.de d p entry (λ s. apart (sym s)) in
    let own : (u.de d).dir_id ≡ (t.de d).dir_id = ap (λ (x : DirEntry). x.dir_id) at_d in
    let done : DirTree = record u {
      de = update u.de d entry;
      dir_entry_num = (u.dir_entry_num + (2 ^ 64 - 1)) % 2 ^ 64;
      dir_id_bitmap = set u.dir_id_bitmap (u.de d).dir_id false;
    } in
    (
      (done, true),
      rw
          (
            entry_of-ok t p p_fits,
            ◌>>=◌,
            entry_of-ok t d d_fits,
            array_strlen-ok (t.de d).dir_name ends,
            run,
            e,
            bitmap_write-ok u.dir_id_bitmap (u.de d).dir_id false (rw (at_d, left.bitmap) bound),
          )
          refl,
      (
        refl,
        record { links = rw at_p left.subdirs.links; size = rw at_p left.subdirs.size },
        ap (λ k. set u.dir_id_bitmap k false) own
            ∙ ap (λ b. set b (t.de d).dir_id false) left.bitmap,
        ap (λ k. (k + (2 ^ 64 - 1)) % 2 ^ 64) left.count,
        λ j np nd. update_ne u.de d j entry nd ∙ left.others j np,
      ),
    )
