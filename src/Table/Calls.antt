-- ===== src/Table/Calls.antt =====
-- What the hash table of a directory promises, apart from its bits: the files by their numbers, and the
-- answers that `insert_file` and `delete_file` of flatfs/lba.c may give.
use flatfs.Common.{
  ℕ, ◌+◌, ◌*◌, ◌/◌, ◌^◌, ◌<◌, ◌≡◌, ◌≢◌, List, [], ◌∷◌, Option, some, none, pos, update, u64_max,
  Bool, Run, ok, ◌>>=◌,
}
use flatfs.Name.{bucket_of}
use flatfs.Table.{HashTable, insert_file, delete_file}

-- The files of a directory: the number of a file leads to the name that it was made with.
abbrev pub Files : Type 0
Files = ℕ → Option (List ℕ)

-- A call of one of the two operations.
pub data Call : Type 0 where
  insert : List ℕ → Call
  delete : ℕ → ℕ → Call

-- A deletion names a bucket and a slot of the table.
abbrev pub InTable : Call → Type 0
InTable (insert name) = Unit {0}
InTable (delete b s) = (b < 2 ^ 12) × (s < 8)

-- An insertion takes a number of the bucket of the name that no file has, if there is one; a deletion frees
-- the number of a file. Which free number it is the promise leaves open.
pub data Step (files : Files) : Call → ℕ → Files → Type 0 where
  inserted :
      {name : List ℕ} {n : ℕ}
      → n / 8 ≡ bucket_of name
      → files n ≡ none
      → Step files (insert name) n (update files n (some name))
  full :
      {name : List ℕ}
      → ((s : ℕ) → s < 8 → files (bucket_of name * 8 + s) ≢ none)
      → Step files (insert name) u64_max files
  deleted :
      {b s : ℕ} {name : List ℕ}
      → files (b * 8 + s) ≡ some name
      → Step files (delete b s) 1 (update files (b * 8 + s) none)
  missing : {b s : ℕ} → files (b * 8 + s) ≡ none → Step files (delete b s) 0 files

-- A sequence of calls with its answers.
pub data Steps : Files → List Call → List ℕ → Files → Type 0 where
  done : {files : Files} → Steps files [] [] files
  step :
      {files : Files} {c : Call} {cs : List Call} {n : ℕ} {ns : List ℕ} {mid last : Files}
      → Step files c n mid
      → Steps mid cs ns last
      → Steps files (c ∷ cs) (n ∷ ns) last

-- The code, call after call.
module _ (spin_lock : Bool → Run Bool) where
  unfoldable pub call : HashTable → Call → Run (HashTable × ℕ)
  call ht (insert name) = insert_file spin_lock ht name
  call ht (delete b s) = delete_file spin_lock ht (pos b) (pos s)

  unfoldable pub calls : HashTable → List Call → Run (HashTable × List ℕ)
  calls ht [] = ok (ht, [])
  calls ht (c ∷ cs) = call ht c >>= λ (ht', n). calls ht' cs >>= λ (ht'', ns). ok (ht'', n ∷ ns)

-- Every call of a list is in the table.
abbrev pub AllInTable : List Call → Type 0
AllInTable [] = Unit {0}
AllInTable (c ∷ cs) = InTable c × AllInTable cs
