-- ===== src/Dir/Find.antt =====
-- `flatfs_dir_inode_by_name` of flatfs/dir.c, the walk along the nodes of subdirectories.
use flatfs.Common.{
  ◌<◌, ◌^◌, ℕ, ◌≡◌, ◌≢◌, inl, inr, refl, sym, ◌∙◌, ap, List, [], ◌∷◌, Option, some, none, ok, ◌>>=◌,
  true, false, ◌==◌, if◌then◌else◌, length, arith, Bool-cases, ==_self,
}
use flatfs.Lba.{inode_to_dir_id, dir_id_to_inode}
use flatfs.Dir.{DirTree, has_name, find_sub, flatfs_dir_inode_by_name}
use flatfs.Config.{max_dir_bits}
use flatfs.Dir.Links.{entry_of-ok, Links, IsNode, load-ok, some-inj}
use flatfs.Dir.Insert.{Subdirs}

-- The id of the first subdirectory with the name.
unfoldable pub first_named : DirTree → List (ℕ × ℕ) → List ℕ → Option ℕ
first_named t [] name = none
first_named t ((a, i) ∷ xs) name = elim (has_name (t.de i) name) [
  | true ↦ some (t.de i).dir_id
  | false ↦ first_named t xs name
]

pub first_named-hit :
    (t : DirTree) (a i : ℕ) (xs : List (ℕ × ℕ)) (name : List ℕ)
    → has_name (t.de i) name ≡ true
    → first_named t ((a, i) ∷ xs) name ≡ some (t.de i).dir_id
unfolding first_named
first_named-hit t a i xs name m = rw (m, first_named)

pub first_named-miss :
    (t : DirTree) (a i : ℕ) (xs : List (ℕ × ℕ)) (name : List ℕ)
    → has_name (t.de i) name ≡ false
    → first_named t ((a, i) ∷ xs) name ≡ first_named t xs name
unfolding first_named
first_named-miss t a i xs name m = rw (m, first_named)

abbrev id_or : Option ℕ → ℕ → ℕ
id_or none own = own
id_or (some i) own = i

find_sub-first_named :
    (t : DirTree) (xs : List (ℕ × ℕ)) (name : List ℕ) (own : ℕ) (last p end q : Option ℕ)
    → Links t.heap last p xs end q
    → find_sub (length xs) t p name own ≡ ok (id_or (first_named t xs name) own)
unfolding find_sub first_named Links IsNode
find_sub-first_named t [] name own last p end q h = refl
find_sub-first_named t ((a, i) ∷ xs) name own last p end q (e, fresh, next, node, rest) =
    let run = load-ok t.heap a (record { de = i; last = last; next = next }) node in
    elim (Bool-cases (has_name (t.de i) name)) [
      | inl m ↦ rw (e, run, ◌>>=◌, m, first_named-hit t a i xs name m)
      | inr m ↦
          rw (e, run, ◌>>=◌, m, first_named-miss t a i xs name m)
            (find_sub-first_named t xs name own (some a) next end q rest)
    ]

abbrev pub ino_or_0 : Option ℕ → ℕ
ino_or_0 none = 0
ino_or_0 (some i) = dir_id_to_inode i

-- None of the subdirectories is the directory itself.
unfoldable pub NotItself : DirTree → ℕ → List (ℕ × ℕ) → Type 0
NotItself t d [] = Unit {0}
NotItself t d ((a, i) ∷ xs) = ((t.de i).dir_id ≢ d) × NotItself t d xs

first_named-apart :
    (t : DirTree) (d : ℕ) (xs : List (ℕ × ℕ)) (name : List ℕ) (i : ℕ)
    → NotItself t d xs
    → first_named t xs name ≡ some i
    → i ≢ d
unfolding first_named NotItself
first_named-apart t d [] name i apart e = absurd (cc)
first_named-apart t d ((a, j) ∷ xs) name i (ne, apart) e =
    elim (Bool-cases (has_name (t.de j) name)) [
      | inl m ↦ λ s. ne (some-inj (sym (first_named-hit t a j xs name m) ∙ e) ∙ s)
      | inr m ↦ first_named-apart t d xs name i apart (sym (first_named-miss t a j xs name m) ∙ e)
    ]

-- An id or the directory's own, as the end of the lookup reads it.
answer :
    (o : Option ℕ) (d : ℕ)
    → ((i : ℕ) → o ≡ some i → i ≢ d)
    → (if id_or o d == d then 0 else dir_id_to_inode (id_or o d)) ≡ ino_or_0 o
answer none d h = rw (==_self d)
answer (some i) d h = let ne : (i == d) ≡ false = ground (arith, h i refl) in rw ne

-- In a directory of an id below 2 ^ 14 with the list `xs`, the lookup returns the inode number of the first subdirectory
-- that has the name, or 0 if none has it.
pub dir_inode_by_name-first_named :
    (t : DirTree) (parent_ino : ℕ) (name : List ℕ) (xs : List (ℕ × ℕ))
    → Subdirs t (inode_to_dir_id parent_ino) xs
    → NotItself t (inode_to_dir_id parent_ino) xs
    → inode_to_dir_id parent_ino < 2 ^ max_dir_bits
    → flatfs_dir_inode_by_name t parent_ino name ≡ ok (ino_or_0 (first_named t xs name))
unfolding flatfs_dir_inode_by_name
dir_inode_by_name-first_named t parent_ino name xs h apart bound =
    let d = inode_to_dir_id parent_ino in
    let run = find_sub-first_named t xs name d none (t.de d).head (t.de d).tail none h.links in
    rw (entry_of-ok t d bound, ◌>>=◌, h.size, run)
      (ap ok (answer (first_named t xs name) d (λ i. first_named-apart t d xs name i apart)))
