-- ===== src/Dir/Make.antt =====
-- Making a directory in the tree: `fill_one_dir_entry` and `insert_dir` of flatfs/dir.c, as
-- `ffs_mknod` of flatfs/inode.c calls them, and `flatfs_dir_inode_by_name` after them.
use flatfs.Common.{
  ℕ, ◌+◌, ◌^◌, ◌<◌, ◌≡◌, ◌≢◌, inl, inr, sym, ◌∙◌, ap, List, [], ◌∷◌, ◌++◌, some, none, ok, Bool,
  true, false, ◌==◌, length, get_or, arith, Bool-cases, ==_iff,
}
use flatfs.Config.{max_dir_bits}
use flatfs.Bitmap.{used}
use flatfs.Lba.{inode_to_dir_id, dir_id_to_inode}
use flatfs.Dir.{DirTree, has_name, fill_one_dir_entry, insert_dir, flatfs_dir_inode_by_name}
use flatfs.Dir.Fill.{Filled, fill_one_dir_entry-Filled}
use flatfs.Dir.Ids.{IsIds, Taken}
use flatfs.Dir.Insert.{Subdirs, Appended, insert_dir-Appended}
use flatfs.Dir.Find.{
  first_named, first_named-hit, first_named-miss, NotItself, dir_inode_by_name-first_named,
}

-- Every id of the list is taken.
unfoldable pub AllTaken : List Bool → List (ℕ × ℕ) → Type 0
AllTaken bits [] = Unit {0}
AllTaken bits ((a, i) ∷ xs) = (get_or bits i false ≡ true) × AllTaken bits xs

-- A directory with the subdirectories `xs` in a tree: the ids are those of the entries, and they are
-- taken.
pub record IsDir (t : DirTree) (p : ℕ) (xs : List (ℕ × ℕ)) : Type 0 where
  pub subdirs : Subdirs t p xs
  pub ids : IsIds t.dir_id_bitmap
  pub numbered : (i : ℕ) → (t.de i).dir_id ≡ i
  pub all_taken : AllTaken t.dir_id_bitmap xs
  pub apart : NotItself t p xs
  pub own_taken : get_or t.dir_id_bitmap p false ≡ true

-- The entries that neither the new directory nor the parent has are as they were, so the search
-- goes as before, and on to the new one.
first_named-snoc :
    (t t' : DirTree) (p id a : ℕ) (name : List ℕ) (xs : List (ℕ × ℕ))
    → ((j : ℕ) → j ≢ id → j ≢ p → t'.de j ≡ t.de j)
    → ((i : ℕ) → (t.de i).dir_id ≡ i)
    → AllTaken t.dir_id_bitmap xs
    → NotItself t p xs
    → get_or t.dir_id_bitmap id false ≡ false
    → has_name (t'.de id) name ≡ true
    → first_named t xs name ≡ none
    → first_named t' (xs ++ (a, id) ∷ []) name ≡ some (t'.de id).dir_id
unfolding AllTaken NotItself
first_named-snoc t t' p id a name [] keep num tk apart free new absent =
    first_named-hit t' a id [] name new
first_named-snoc t t' p id a name ((b, i) ∷ xs) keep num (ti, tk) (ne, apart) free new absent =
    let same : t'.de i ≡ t.de i =
      keep i (λ s. absurd (ground (arith, s, ti, free))) (λ s. ne (num i ∙ s)) in
    elim (Bool-cases (has_name (t.de i) name)) [
      | inl m ↦ let hit = first_named-hit t b i xs name m in absurd (cc)
      | inr m ↦
          first_named-miss t' b i (xs ++ (a, id) ∷ []) name (rw same m)
          ∙ first_named-snoc t t' p id a name xs keep num tk apart free new
              (sym (first_named-miss t b i xs name m) ∙ absent)
    ]

NotItself-snoc :
    (t t' : DirTree) (p id a : ℕ) (xs : List (ℕ × ℕ))
    → ((i : ℕ) → (t'.de i).dir_id ≡ (t.de i).dir_id)
    → NotItself t p xs
    → (t'.de id).dir_id ≢ p
    → NotItself t' p (xs ++ (a, id) ∷ [])
unfolding NotItself
NotItself-snoc t t' p id a [] same apart ne = (ne, tt)
NotItself-snoc t t' p id a ((b, i) ∷ xs) same (n, apart) ne =
    (λ s. n (sym (same i) ∙ s), NotItself-snoc t t' p id a xs same apart ne)

AllTaken-snoc :
    (bits bits' : List Bool) (id a : ℕ) (xs : List (ℕ × ℕ))
    → ((j : ℕ) → get_or bits j false ≡ true → get_or bits' j false ≡ true)
    → get_or bits' id false ≡ true
    → AllTaken bits xs
    → AllTaken bits' (xs ++ (a, id) ∷ [])
unfolding AllTaken
AllTaken-snoc bits bits' id a [] keep new tk = (new, tt)
AllTaken-snoc bits bits' id a ((b, i) ∷ xs) keep new (ti, tk) =
    (keep i ti, AllTaken-snoc bits bits' id a xs keep new tk)

-- A bit that is set stays set when another is taken.
Taken-keeps :
    {bits bits' : List Bool} {id : ℕ}
    → Taken bits bits' id
    → (j : ℕ) → get_or bits j false ≡ true
    → get_or bits' j false ≡ true
Taken-keeps {bits} {bits'} {id} h j e = elim (Bool-cases (j == id)) [
  | inl s ↦ ap (λ k. get_or bits' k false) ((==_iff j id).0 s) ∙ h.is_taken
  | inr s ↦ h.others j (λ q. absurd (ground (arith, q, s))) ∙ e
]

-- What making a directory in the tree leaves: the new directory comes last in its parent, the
-- tree is well formed, and the lookup of the name gives the new directory's inode number.
pub record MadeIn (t : DirTree) (parent_ino dle : ℕ) (name : List ℕ) (xs : List (ℕ × ℕ)) (id : ℕ)
    (t' : DirTree) : Type 0 where
  pub is_dir : IsDir t' (inode_to_dir_id parent_ino) (xs ++ (dle, id) ∷ [])
  pub was_free : get_or t.dir_id_bitmap id false ≡ false
  pub found : flatfs_dir_inode_by_name t' parent_ino name ≡ ok (dir_id_to_inode id)

same_ids :
    (t u t' : DirTree) (name : List ℕ) (id p dle : ℕ) (xs : List (ℕ × ℕ))
    → Filled t name u id
    → Appended u p id dle xs t'
    → (i : ℕ) → (t'.de i).dir_id ≡ (t.de i).dir_id
same_ids t u t' name id p dle xs f g i =
    let filled : (u.de i).dir_id ≡ (t.de i).dir_id = elim (Bool-cases (i == id)) [
      | inl s ↦ rw ((==_iff i id).0 s) f.same_id
      | inr s ↦ ap (λ e. e.dir_id) (f.others i (λ q. absurd (ground (arith, q, s))))
    ] in
    elim (Bool-cases (i == p)) [
      | inl s ↦ rw ((==_iff i p).0 s) g.same_id ∙ filled
      | inr s ↦ ap (λ e. e.dir_id) (g.entries i (λ q. absurd (ground (arith, q, s)))) ∙ filled
    ]

Appended-MadeIn :
    (t u t' : DirTree) (parent_ino dle id : ℕ) (name : List ℕ) (xs : List (ℕ × ℕ))
    → IsDir t (inode_to_dir_id parent_ino) xs
    → first_named t xs name ≡ none
    → inode_to_dir_id parent_ino ≢ id
    → inode_to_dir_id parent_ino < 2 ^ max_dir_bits
    → Filled t name u id
    → Appended u (inode_to_dir_id parent_ino) id dle xs t'
    → MadeIn t parent_ino dle name xs id t'
Appended-MadeIn t u t' parent_ino dle id name xs d absent ne bound f g =
    let p = inode_to_dir_id parent_ino in
    let ids = same_ids t u t' name id p dle xs f g in
    let own : (t'.de id).dir_id ≡ id = ids id ∙ d.numbered id in
    let at_id = g.entries id (λ s. ne (sym s)) in
    let apart = NotItself-snoc t t' p id dle xs ids d.apart (λ s. ne (sym s ∙ own)) in
    let named =
      first_named-snoc t t' p id dle name xs (λ j n m. g.entries j m ∙ f.others j n) d.numbered
        d.all_taken d.apart f.taken.was_free (rw at_id f.entry) absent in
    record {
      is_dir = record {
        subdirs = g.subdirs;
        ids = rw g.bitmap f.ids;
        numbered = λ i. ids i ∙ d.numbered i;
        all_taken = rw g.bitmap (
            AllTaken-snoc t.dir_id_bitmap u.dir_id_bitmap id dle xs (Taken-keeps f.taken)
              f.taken.is_taken d.all_taken);
        apart = apart;
        own_taken = rw g.bitmap (Taken-keeps f.taken p d.own_taken);
      };
      was_free = f.taken.was_free;
      found =
          dir_inode_by_name-first_named t' parent_ino name (xs ++ (dle, id) ∷ []) g.subdirs apart
            bound
          ∙ rw (named, own);
    }

-- Both calls return.
pub record Makes (t : DirTree) (parent_ino dle : ℕ) (name : List ℕ) (xs : List (ℕ × ℕ))
    : Type 0 where
  pub u : DirTree
  pub id : ℕ
  pub t' : DirTree
  pub fills : fill_one_dir_entry t name ≡ ok (u, id)
  pub inserts : insert_dir u (inode_to_dir_id parent_ino) id (some dle) ≡ ok t'
  pub bound : id < 2 ^ max_dir_bits
  pub made : MadeIn t parent_ino dle name xs id t'

pub make_dir-Makes :
    (t : DirTree) (parent_ino dle : ℕ) (name : List ℕ) (xs : List (ℕ × ℕ))
    → IsDir t (inode_to_dir_id parent_ino) xs
    → inode_to_dir_id parent_ino < 2 ^ max_dir_bits
    → used (2 ^ max_dir_bits) t.dir_id_bitmap < 2 ^ max_dir_bits
    → first_named t xs name ≡ none
    → t.heap dle ≡ none
    → length xs + 1 < 2 ^ 64
    → Makes t parent_ino dle name xs
make_dir-Makes t parent_ino dle name xs d bound free absent new few =
    let p = inode_to_dir_id parent_ino in
    let ((u, id), run, f) = fill_one_dir_entry-Filled t name d.ids free in
    let apart : p ≢ id = λ s. absurd (ground (arith, s, f.taken.was_free, d.own_taken)) in
    let at_p = f.others p apart in
    let h : Subdirs u p xs = record {
      links = rw (f.heap, at_p) d.subdirs.links;
      size = rw at_p d.subdirs.size;
    } in
    let (t', run', g) = insert_dir-Appended u p id dle xs h (rw f.heap new) few in
    record {
      u = u;
      id = id;
      t' = t';
      fills = run;
      inserts = run';
      bound = f.taken.bound;
      made = Appended-MadeIn t u t' parent_ino dle id name xs d absent apart bound f g;
    }
