-- ===== src/Dir/Remove.antt =====
-- `remove_dir` of flatfs/dir.c, as far as it changes the tree: the walk to the node, and what is
-- left of the list.
use flatfs.Common.{
  ℕ, suc, ◌+◌, ◌-◌, ◌%◌, ◌^◌, ◌<◌, ◌≡◌, ◌≢◌, refl, sym, ◌∙◌, ap, List, [], ◌∷◌, ◌++◌, Option, some,
  none, ok, fault, dangling, ◌>>=◌, true, false, ◌==◌, Returns, length, set, update, arith, ==_iff,
}
use flatfs.Name.{my_strlen}
use flatfs.Bitmap.{bitmap_write-ok}
use flatfs.Lba.{inode_to_dir_id}
use flatfs.Dir.{
  zero_name, remove_from_tree, DirTree, DirEntry, DirListEntry, insert_dir, load, store_next,
  remove_loop, unlink_entry, try_store_next, try_store_last,
}
use flatfs.Config.{max_dir_bits}
use flatfs.Dir.Links.{
  entry_of-ok, array_strlen-ok, Links, IsNode, Links-Ended, Links-end, Links-split, load-ok,
  store_next-ok, update_self, update_ne,
}
use flatfs.Dir.Insert.{Subdirs, length-snoc}

-- None of the nodes is that of the directory.
unfoldable pub NotAmong : DirTree → ℕ → List (ℕ × ℕ) → Type 0
NotAmong t dir_id [] = Unit {0}
NotAmong t dir_id ((a, i) ∷ xs) =
    ((t.de dir_id).dir_id == (t.de i).dir_id) ≡ false × NotAmong t dir_id xs

-- The walk passes the nodes of other directories.
pub remove_loop-skip :
    (t : DirTree) (p d start n : ℕ) (xs : List (ℕ × ℕ)) (last q m s : Option ℕ)
    → NotAmong t d xs
    → Links t.heap last q xs m s
    → remove_loop (length xs + n) t p d start q ≡ remove_loop n t p d (start + length xs) s
unfolding NotAmong Links IsNode remove_loop
remove_loop-skip t p d start n [] last q m s other (e, l) =
    let rounds : 0 + n ≡ n = omega arith in
    let same : start ≡ start + 0 = omega arith in
    rw (e, rounds) (ap (λ k. remove_loop n t p d k s) same)
remove_loop-skip t p d start n ((a, i) ∷ xs) last q m s (ne, other) (e, fresh, next, node, rest) =
    let rounds : suc (length xs) + n ≡ suc (length xs + n) = omega arith in
    let same : suc start + length xs ≡ start + suc (length xs) = omega arith in
    ap (λ k. remove_loop k t p d start q) rounds
    ∙ rw (e, load-ok t.heap a (record { de = i; last = last; next = next }) node, ◌>>=◌, ne)
        (remove_loop-skip t p d (suc start) n xs (some a) next m s other rest
          ∙ ap (λ k. remove_loop n t p d k s) same)

-- The walk ends at the node of the directory.
pub remove_loop-hit :
    (t t' : DirTree) (p d start z n : ℕ) (node : DirListEntry)
    → t.heap z ≡ some node
    → ((t.de d).dir_id == (t.de node.de).dir_id) ≡ true
    → unlink_entry t p d start z node ≡ ok t'
    → remove_loop (suc n) t p d start (some z) ≡ ok (t', true)
unfolding remove_loop
remove_loop-hit t t' p d start z n node there same run =
    rw (load-ok t.heap z node there, ◌>>=◌, same, run)

-- The walk to the last of the nodes.
remove_loop-last :
    (t t' : DirTree) (p d : ℕ) (xs : List (ℕ × ℕ)) (z : ℕ) (m : Option ℕ) (node : DirListEntry)
    → (t.de p).dir_size ≡ suc (length xs)
    → NotAmong t d xs
    → Links t.heap none (t.de p).head xs m (some z)
    → t.heap z ≡ some node
    → ((t.de d).dir_id == (t.de node.de).dir_id) ≡ true
    → unlink_entry t p d (length xs) z node ≡ ok t'
    → remove_loop (t.de p).dir_size t p d 0 (t.de p).head ≡ ok (t', true)
remove_loop-last t t' p d xs z m node size other front there same run =
    let rounds : (t.de p).dir_size ≡ length xs + suc 0 = size ∙ omega arith in
    let start : 0 + length xs ≡ length xs = omega arith in
    rw rounds (
      remove_loop-skip t p d 0 (suc 0) xs none (t.de p).head m (some z) other front
      ∙ ap (λ k. remove_loop (suc 0) t p d k (some z)) start
      ∙ remove_loop-hit t t' p d (length xs) z 0 node there same run)

-- What is left of the parent: its tail points to the node, which is freed, and it is not empty.
pub record Dangles (t : DirTree) (p z : ℕ) (t' : DirTree) : Type 0 where
  pub tail : (t'.de p).tail ≡ some z
  pub freed : t'.heap z ≡ none
  pub size : 0 < (t'.de p).dir_size
  pub others : (j : ℕ) → j ≢ p → t'.de j ≡ t.de j
  pub bitmap : t'.dir_id_bitmap ≡ t.dir_id_bitmap

-- The last node, behind a node at `y`, of a directory that has no subdirectories itself.
unlink_last :
    (t : DirTree) (p d z y len : ℕ) (id : ℕ) (node_y : DirListEntry)
    → (t.de d).dir_size ≡ 0
    → (t.de p).dir_size ≡ suc (suc len)
    → suc (suc len) < 2 ^ 64
    → (t.de p).tail ≡ some z
    → t.heap y ≡ some node_y
    → Returns
        (unlink_entry t p d (suc len) z (record { de = id; last = some y; next = none }))
        (Dangles t p z)
unfolding unlink_entry try_store_next try_store_last
unlink_last t p d z y len id node_y empty size room tail there =
    let inner : ((suc len) == ((t.de d).dir_size + (2 ^ 64 - 1)) % 2 ^ 64) ≡ false =
      ground (arith, empty) in
    let nz : (suc len == 0) ≡ false = ground arith in
    let dir : DirEntry = record (t.de p) {
      dir_size = ((t.de p).dir_size + (2 ^ 64 - 1)) % 2 ^ 64;
    } in
    let heap1 = update t.heap y (some (record node_y { next = none })) in
    (
      record t { heap = update heap1 z none; de = update t.de p dir },
      rw (inner, nz, store_next-ok t.heap y node_y none there),
      record {
        tail = rw (update_self t.de p dir) tail;
        freed = update_self heap1 z none;
        size = rw (update_self t.de p dir, size) (ground arith);
        others = λ j ne. update_ne t.de p j dir ne;
        bitmap = refl;
      },
    )

-- A directory without subdirectories is removed that is the last of two or more in its parent, both of ids below
-- 2 ^ 14, and whose name has a zero byte within its array: the
-- walk finds it, and leaves the parent with a tail that points to the freed node.
pub remove_loop-Dangles :
    (t : DirTree) (p d id a i z : ℕ) (xs : List (ℕ × ℕ))
    → Subdirs t p (((a, i) ∷ xs) ++ (z, id) ∷ [])
    → NotAmong t d ((a, i) ∷ xs)
    → (t.de d).dir_id ≡ (t.de id).dir_id
    → (t.de d).dir_size ≡ 0
    → suc (suc (length xs)) < 2 ^ 64
    → Returns
        (remove_loop (t.de p).dir_size t p d 0 (t.de p).head)
        (λ (t', found). (found ≡ true) × Dangles t p z t')
unfolding remove_loop Links IsNode
remove_loop-Dangles t p d id a i z xs h other same empty room =
    let (m, s, front, (es, fresh, next, node, (end, tail))) =
      Links-split t.heap none (t.de p).head ((a, i) ∷ xs) ((z, id) ∷ []) (t.de p).tail none
        h.links in
    let (y, ey) = Links-end t.heap none (t.de p).head a i xs m s front in
    let ended = Links-Ended t.heap none (t.de p).head a i xs y s none (rw (sym ey) front) in
    let size : (t.de p).dir_size ≡ suc (suc (length xs)) =
      h.size ∙ length-snoc ((a, i) ∷ xs) (z, id) in
    let (t', run, left) =
      unlink_last t p d z y (length xs) id ended.node empty size room (sym tail) ended.there in
    let there : t.heap z ≡ some (record { de = id; last = some y; next = none }) =
      node
      ∙ ap (λ l. some (record { de = id; last = l; next = next })) ey
      ∙ ap (λ q. some (record { de = id; last = some y; next = q })) end in
    (
      (t', true),
      remove_loop-last t t' p d ((a, i) ∷ xs) z m (record { de = id; last = some y; next = none })
          size other (rw (sym es) front) there ((==_iff (t.de d).dir_id (t.de id).dir_id).1 same)
          run,
      (refl, left),
    )

-- An insertion stores through the tail.
insert_dir-dangling :
    (t : DirTree) (p id dle z : ℕ)
    → 0 < (t.de p).dir_size
    → (t.de p).tail ≡ some z
    → t.heap z ≡ none
    → dle ≢ z
    → insert_dir t p id (some dle) ≡ fault dangling
unfolding insert_dir store_next load
insert_dir-dangling t p id dle z size tail freed ne =
    let filled : ((t.de p).dir_size == 0) ≡ false = ground (arith, size) in
    rw (
      filled,
      insert_dir,
      tail,
      store_next,
      load,
      update_ne t.heap dle z (some (record { de = id; last = none; next = none }))
          (λ s. ne (sym s)),
      freed,
      ◌>>=◌,
    )

-- A directory without subdirectories is removed that is the last of two or more in its parent, both of ids below
-- 2 ^ 14, and whose name has a zero byte within its array: the
-- removal succeeds, and the next insertion into the parent, of whatever directory, stores through a
-- pointer to the freed node, unless the allocator gives that very address again.
pub remove_dir-dangling :
    (t : DirTree) (parent_ino dir_ino id a i z : ℕ) (xs : List (ℕ × ℕ))
    → Subdirs t (inode_to_dir_id parent_ino) (((a, i) ∷ xs) ++ (z, id) ∷ [])
    → NotAmong t (inode_to_dir_id dir_ino) ((a, i) ∷ xs)
    → (t.de (inode_to_dir_id dir_ino)).dir_id ≡ (t.de id).dir_id
    → (t.de (inode_to_dir_id dir_ino)).dir_size ≡ 0
    → suc (suc (length xs)) < 2 ^ 64
    → inode_to_dir_id dir_ino ≢ inode_to_dir_id parent_ino
    → (t.de (inode_to_dir_id dir_ino)).dir_id < length t.dir_id_bitmap
    → inode_to_dir_id parent_ino < 2 ^ max_dir_bits
    → inode_to_dir_id dir_ino < 2 ^ max_dir_bits
    → my_strlen (t.de (inode_to_dir_id dir_ino)).dir_name
      < length (t.de (inode_to_dir_id dir_ino)).dir_name
    → Returns (remove_from_tree t parent_ino dir_ino) (λ (t', found).
      (found ≡ true)
      × ((new dle : ℕ)
          → dle ≢ z
          → insert_dir t' (inode_to_dir_id parent_ino) new (some dle) ≡ fault dangling))
unfolding remove_from_tree
remove_dir-dangling t parent_ino dir_ino id a i z xs h other same empty room apart bound p_fits
      d_fits ends =
    let p = inode_to_dir_id parent_ino in
    let d = inode_to_dir_id dir_ino in
    let ((u, found), run, (e, left)) =
      remove_loop-Dangles t p d id a i z xs h other same empty room in
    let at_d = left.others d apart in
    let entry : DirEntry = record (u.de d) {
      dir_name = zero_name (my_strlen (t.de d).dir_name) (u.de d).dir_name;
      namelen = 0;
      head = none;
      tail = none;
    } in
    let at_p = update_ne u.de d p entry (λ s. apart (sym s)) in
    let done : DirTree = record u {
      de = update u.de d entry;
      dir_entry_num = (u.dir_entry_num + (2 ^ 64 - 1)) % 2 ^ 64;
      dir_id_bitmap = set u.dir_id_bitmap (u.de d).dir_id false;
    } in
    (
      (done, true),
      rw (
        entry_of-ok t p p_fits,
        ◌>>=◌,
        entry_of-ok t d d_fits,
        array_strlen-ok (t.de d).dir_name ends,
        run,
        e,
        bitmap_write-ok u.dir_id_bitmap (u.de d).dir_id false (rw (at_d, left.bitmap) bound),
      ),
      (
        refl,
        λ new dle ne.
            insert_dir-dangling done p new dle z (rw at_p left.size) (rw at_p left.tail) left.freed
              ne,
      ),
    )
