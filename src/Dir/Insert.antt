-- ===== src/Dir/Insert.antt =====
-- `insert_dir` of flatfs/dir.c and the list of subdirectories.
use flatfs.Common.{
  ℕ, suc, ◌+◌, ◌%◌, ◌^◌, ◌<◌, ◌≡◌, ◌≢◌, ◌⊎◌, inl, inr, refl, sym, ◌∙◌, ap, List, [], ◌∷◌, ◌++◌,
  Option, some, none, ok, ◌>>=◌, false, ◌==◌, Returns, length, update, arith,
}
use native.Mathlib.Nat.{mod-eq_of_lt}
use flatfs.Dir.{DirTree, DirEntry, DirListEntry, insert_dir, store_next, store_last}
use flatfs.Dir.Links.{
  Heap, Links, Avoids, IsNode, Links-Ended, Links-snoc, Links-end, store_next-ok, store_last-ok,
  Links-frame, update_self, update_ne,
}

-- The list of subdirectories of a directory: the addresses and the ids of its nodes.
pub record Subdirs (t : DirTree) (dir_id : ℕ) (xs : List (ℕ × ℕ)) : Type 0 where
  pub links : Links t.heap none (t.de dir_id).head xs (t.de dir_id).tail none
  pub size : (t.de dir_id).dir_size ≡ length xs

-- No address is in both lists.
abbrev pub Disjoint : List (ℕ × ℕ) → List (ℕ × ℕ) → Type 0
Disjoint xs ys = (a : ℕ) → Avoids a xs ⊎ Avoids a ys

-- An address that is not in use is in no list.
pub Links-free :
    (heap : Heap) (a : ℕ) (last p : Option ℕ) (xs : List (ℕ × ℕ)) (end q : Option ℕ)
    → heap a ≡ none
    → Links heap last p xs end q
    → Avoids a xs
unfolding Avoids Links IsNode
Links-free heap a last p [] end q free h = tt
Links-free heap a last p ((b, id) ∷ xs) end q free (e, fresh, next, node, rest) =
    (λ s. absurd (cc), Links-free heap a (some b) next xs end q free rest)

-- What an insertion into a directory with the list `xs` makes: the list with the new node after
-- it, and every list that shares no node with it as it was.
pub record Appended (t : DirTree) (p id dle : ℕ) (xs : List (ℕ × ℕ)) (t' : DirTree) : Type 0 where
  pub subdirs : Subdirs t' p (xs ++ (dle, id) ∷ [])
  pub others :
      (j : ℕ) (ys : List (ℕ × ℕ)) → j ≢ p → Disjoint xs ys → Subdirs t j ys → Subdirs t' j ys
  pub bitmap : t'.dir_id_bitmap ≡ t.dir_id_bitmap
  pub entries : (j : ℕ) → j ≢ p → t'.de j ≡ t.de j
  pub same_id : (t'.de p).dir_id ≡ (t.de p).dir_id

-- The stores of the branch for a directory that has subdirectories.
record Relinked (heap : Heap) (p : Option ℕ) (xs : List (ℕ × ℕ)) (z id dle : ℕ) : Type 0 where
  heap1 : Heap
  heap2 : Heap
  run1 :
      store_next
        (update heap dle (some (record { de = id; last = none; next = none })))
        (some z)
        (some dle)
      ≡ ok heap1
  run2 : store_last heap1 (some dle) (some z) ≡ ok heap2
  links : Links heap2 none p (xs ++ (dle, id) ∷ []) (some dle) none
  frame :
      (last q : Option ℕ) (ys : List (ℕ × ℕ)) (end r : Option ℕ)
      → Disjoint xs ys
      → Links heap last q ys end r
      → Links heap2 last q ys end r

relinked :
    (heap : Heap) (p : Option ℕ) (a i : ℕ) (xs : List (ℕ × ℕ)) (z id dle : ℕ)
    → heap dle ≡ none
    → Links heap none p ((a, i) ∷ xs) (some z) none
    → Relinked heap p ((a, i) ∷ xs) z id dle
unfolding IsNode
relinked heap p a i xs z id dle free h =
    let fresh : DirListEntry = record { de = id; last = none; next = none } in
    let heap0 = update heap dle (some fresh) in
    let av = Links-free heap dle none p ((a, i) ∷ xs) (some z) none free h in
    let e =
      Links-Ended heap0 none p a i xs z none (some dle)
        (Links-frame heap dle (some fresh) none p ((a, i) ∷ xs) (some z) none av h) in
    let ne = e.inside dle av in
    let heap1 = update heap0 z (some (record e.node { next = some dle })) in
    let heap2 = update heap1 dle (some (record fresh { last = some z })) in
    record {
      heap1 = heap1;
      heap2 = heap2;
      run1 = store_next-ok heap0 z e.node (some dle) e.there;
      run2 = store_last-ok heap1 dle fresh (some z) (
          update_ne heap0 z dle (some (record e.node { next = some dle })) ne
          ∙ update_self heap dle (some fresh));
      links =
          Links-snoc heap2 none p ((a, i) ∷ xs) (some z) dle id none av
            (update_self heap1 dle (some (record fresh { last = some z })))
            (Links-frame heap1 dle (some (record fresh { last = some z })) none p ((a, i) ∷ xs)
              (some z) (some dle) av e.links);
      frame = λ last q ys end r dis l.
          let av' = Links-free heap dle last q ys end r free l in
          let avz : Avoids z ys = elim (dis z) [ inl n ↦ absurd (e.inside z n refl) | inr n ↦ n ] in
          Links-frame heap1 dle (some (record fresh { last = some z })) last q ys end r av' (
            Links-frame heap0 z (some (record e.node { next = some dle })) last q ys end r avz
              (Links-frame heap dle (some fresh) last q ys end r av' l));
    }

-- A directory whose entry is not written.
elsewhere :
    (t : DirTree) (p : ℕ) (dir : DirEntry) (heap : Heap) (j : ℕ) (ys : List (ℕ × ℕ))
    → j ≢ p
    → Subdirs t j ys
    → Links heap none (t.de j).head ys (t.de j).tail none
    → Subdirs (record t { heap = heap; de = update t.de p dir }) j ys
elsewhere t p dir heap j ys ne h l =
    let e = update_ne t.de p j dir ne in record { links = rw e l; size = rw e h.size }

pub length-snoc {ℓ} : {A : Type ℓ} (xs : List A) (x : A) → length (xs ++ x ∷ []) ≡ suc (length xs)
length-snoc [] x = refl
length-snoc (y ∷ xs) x = ap suc (length-snoc xs x)

-- The branch for a directory that has subdirectories.
insert_dir-linked :
    (t : DirTree) (p id dle : ℕ) (a i : ℕ) (xs : List (ℕ × ℕ)) (z : ℕ)
    → (t.de p).dir_size ≡ suc (length xs)
    → suc (length xs) + 1 < 2 ^ 64
    → (t.de p).tail ≡ some z
    → Relinked t.heap (t.de p).head ((a, i) ∷ xs) z id dle
    → Returns (insert_dir t p id (some dle)) (Appended t p id dle ((a, i) ∷ xs))
unfolding insert_dir
insert_dir-linked t p id dle a i xs z size room end r =
    let dir : DirEntry = record (t.de p) {
      tail = some dle;
      dir_size = ((t.de p).dir_size + 1) % 2 ^ 64;
    } in
    let t' : DirTree = record t { heap = r.heap2; de = update t.de p dir } in
    let filled : ((t.de p).dir_size == 0) ≡ false = ground (arith, size) in
    let at_p = update_self t.de p dir in
    (
      t',
      rw (filled, insert_dir, end, r.run1, ◌>>=◌, r.run2, size),
      record {
        subdirs = record {
          links = rw at_p r.links;
          size =
              rw (at_p, size, length-snoc ((a, i) ∷ xs) (dle, id))
                (mod-eq_of_lt room ∙ omega arith);
        };
        others = λ j ys ne dis l.
            elsewhere t p dir r.heap2 j ys ne l
              (r.frame none (t.de j).head ys (t.de j).tail none dis l.links);
        bitmap = refl;
        entries = λ j ne. update_ne t.de p j dir ne;
        same_id = rw at_p;
      },
    )

-- On an address that is not in use, insert_dir returns: the list of the directory gets the new node
-- at its end, and the list of every other directory that shares no node with it stays as it was.
pub insert_dir-Appended :
    (t : DirTree) (p id dle : ℕ) (xs : List (ℕ × ℕ))
    → Subdirs t p xs
    → t.heap dle ≡ none
    → length xs + 1 < 2 ^ 64
    → Returns (insert_dir t p id (some dle)) (Appended t p id dle xs)
unfolding insert_dir Links IsNode Avoids
insert_dir-Appended t p id dle [] h free room =
    let fresh : DirListEntry = record { de = id; last = none; next = none } in
    let dir : DirEntry = record (t.de p) {
      head = some dle;
      tail = some dle;
      dir_size = ((t.de p).dir_size + 1) % 2 ^ 64;
    } in
    let t' : DirTree = record t { heap = update t.heap dle (some fresh); de = update t.de p dir } in
    let at_p = update_self t.de p dir in
    (
      t',
      rw (h.size, insert_dir, h.size),
      record {
        subdirs = record {
          links = rw at_p (refl, tt, none, update_self t.heap dle (some fresh), (refl, refl));
          size = rw (at_p, h.size);
        };
        others = λ j ys ne dis l. elsewhere t p dir (update t.heap dle (some fresh)) j ys ne l (
            Links-frame t.heap dle (some fresh) none (t.de j).head ys (t.de j).tail none
              (Links-free t.heap dle none (t.de j).head ys (t.de j).tail none free l.links)
              l.links);
        bitmap = refl;
        entries = λ j ne. update_ne t.de p j dir ne;
        same_id = rw at_p;
      },
    )
insert_dir-Appended t p id dle ((a, i) ∷ xs) h free room =
    let (z, end) = Links-end t.heap none (t.de p).head a i xs (t.de p).tail none h.links in
    insert_dir-linked t p id dle a i xs z h.size room end
      (relinked t.heap (t.de p).head a i xs z id dle free (rw (sym end) h.links))
