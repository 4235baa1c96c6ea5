-- ===== src/Ino/Seg.antt =====
-- Looking a name up in a table: `get_file_seg` of flatfs/lba.c, on every branch.
mod Search
use flatfs.Common.{
  ℕ, ◌≤◌, ◌<◌, ◌≡◌, ◌≢◌, suc, zero, ◌+◌, ◌-◌, ◌*◌, ◌/◌, ◌%◌, ◌^◌, refl, ◌∙◌, sym, Bool, true, false,
  ◌==◌, ◌&&◌, if◌then◌else◌, List, ℤ, pos, length, Run, ok, fault, null_pointer, bad_shift, ◌>>=◌,
  Returns, arith, ap, Option, some, none, ◌⊎◌, inl, inr, Bool-cases, ltb, ltb→lt, lt→ltb, ==_iff,
  ==_self,
}
use flatfs.Name.{bucket_of, bucket_of-bounds, str_eq}
use flatfs.Types.{InodeInfo, InodePage}
use flatfs.Lba.{compose_lba}
use flatfs.Lba.Meta.{compose_lba-bad_shift, compose_lba-inodes, inode_block_of}
use flatfs.Table.{HashTable, Bucket}
use flatfs.Table.Buckets.{holds, BucketIsValid}
use flatfs.Table.Insert.{Inserted, file_seg-lem, SlotWritten}
use flatfs.Table.Delete.{Deleted}
use flatfs.Ino.{any_used, find_name, seg_in_page, get_file_seg, flatfs_file_inode_by_name}
use flatfs.Ino.Alloc.{compose_ino-small}
use Search.{any_used-true, any_used-false, FirstMatch, find_name-FirstMatch}

-- The bucket of the name in the table.
abbrev pub home : HashTable → List ℕ → Bucket
home ht name = ht.buckets (bucket_of name)

pub inodes_at :
    (fi : InodeInfo) (d : ℕ) (name : List ℕ)
    → fi.dir_id ≡ pos d
    → d < 2 ^ 14
    → bucket_of name < 52
    → compose_lba fi.dir_id (pos (bucket_of name)) (pos 0) 0
      ≡ ok (inode_block_of d (bucket_of name))
inodes_at fi d name dir bound below =
    ap (λ x. compose_lba x (pos (bucket_of name)) (pos 0) 0) dir
    ∙ compose_lba-inodes d (bucket_of name) bound below

-- What a lookup in a page returns: the first slot that has the name, with its bucket, or 0.
pub data Looked (page : InodePage) (name : List ℕ) (seg : ℕ) : Type 0 where
  found :
      (s : ℕ)
      → s < 8
      → str_eq name (page.inode s).filename.name ≡ true
      → ((j : ℕ) → j < s → str_eq name (page.inode j).filename.name ≡ false)
      → seg ≡ bucket_of name * 8 + s
      → Looked page name seg
  missing :
      ((j : ℕ) → j < 8 → str_eq name (page.inode j).filename.name ≡ false)
      → seg ≡ 0
      → Looked page name seg

seg_in_page-Looked :
    (page : InodePage) (name : List ℕ)
    → Returns (seg_in_page (some page) (bucket_of name) name) (Looked page name)
unfolding seg_in_page
seg_in_page-Looked page name =
    let r : ℕ = find_name 8 0 page name in
    let m = find_name-FirstMatch 8 0 page name in
    elim (Bool-cases (ltb r 8)) [
      | inl e ↦
          let lt = ltb→lt r 8 e in
          (
            bucket_of name * 8 + r,
            rw (e, file_seg-lem (bucket_of name) r (omega (arith, bucket_of-bounds name)) lt),
            found r lt (m.matches lt) (λ j h. m.before j (omega arith) h) refl,
          )
      | inr e ↦
          let last : 8 ≤ r = ground arith in
          (0, rw e, missing (λ j h. m.before j (omega arith) (omega arith)) refl)
    ]

-- The first slot that has a name is one.
pub Looked-unique :
    {page : InodePage} {name : List ℕ} {seg : ℕ} (s : ℕ)
    → Looked page name seg
    → s < 8
    → str_eq name (page.inode s).filename.name ≡ true
    → ((j : ℕ) → j < s → str_eq name (page.inode j).filename.name ≡ false)
    → seg ≡ bucket_of name * 8 + s
Looked-unique {page} {name} s (found t ht match before e) hs m b = elim (Bool-cases (ltb s t)) [
  | inl lt ↦ cc (m, before s (ltb→lt s t lt))
  | inr ge ↦ elim (Bool-cases (ltb t s)) [
    | inl lt ↦ cc (match, b t (ltb→lt t s lt))
    | inr le ↦ ground arith
  ]
]
Looked-unique {page} {name} s (missing nowhere e) hs m b = cc (m, nowhere s hs)

module _ (sb_bread : ℕ → Option InodePage) (fi : InodeInfo) (ht : HashTable) (name : List ℕ) where
  -- A bucket without a file answers 0 without reading the device.
  pub get_file_seg-empty :
      BucketIsValid (home ht name)
      → ((j : ℕ) → j < 8 → holds (home ht name) j ≡ false)
      → get_file_seg sb_bread fi ht name ≡ ok 0
  unfolding get_file_seg
  get_file_seg-empty h clear =
      rw (any_used-false 8 0 _ (omega (arith, h.width)) (λ j lo hi. clear j (omega arith)))

  module _ (h : BucketIsValid (home ht name)) (j : ℕ) (hj : j < 8)
      (taken : holds (home ht name) j ≡ true) where
    any : any_used 8 0 (home ht name).slot_bitmap ≡ ok true
    any = any_used-true 8 0 _ j (omega arith) (omega arith) (omega (arith, h.width)) taken

    get_file_seg-page :
        {pblk : ℕ} {page : InodePage}
        → compose_lba fi.dir_id (pos (bucket_of name)) (pos 0) 0 ≡ ok pblk
        → sb_bread pblk ≡ some page
        → Returns (get_file_seg sb_bread fi ht name) (Looked page name)
    unfolding get_file_seg
    get_file_seg-page {pblk} {page} addr read =
        let (seg, run, l) = seg_in_page-Looked page name in
        (seg, rw (any, addr, ◌>>=◌, read, run), l)

    -- Where the read fails, the missing buffer is followed before it is tested.
    get_file_seg-unread :
        {pblk : ℕ}
        → compose_lba fi.dir_id (pos (bucket_of name)) (pos 0) 0 ≡ ok pblk
        → sb_bread pblk ≡ none
        → get_file_seg sb_bread fi ht name ≡ fault null_pointer
    unfolding get_file_seg seg_in_page
    get_file_seg-unread addr read = rw (any, addr, ◌>>=◌, read)

    -- From bucket 52 on the address of the page is undefined.
    get_file_seg-bad_shift :
        (d : ℕ)
        → fi.dir_id ≡ pos d
        → 52 ≤ bucket_of name
        → get_file_seg sb_bread fi ht name ≡ fault bad_shift
    unfolding get_file_seg
    get_file_seg-bad_shift d dir hb =
        rw (any, dir, compose_lba-bad_shift d (bucket_of name) (pos 0) hb (bucket_of-bounds name).0)

    -- Which slots are marked makes no difference once one is: any other table with a file in the
    -- bucket gives the same answer.
    pub get_file_seg-stale :
        (other : HashTable) (i : ℕ)
        → BucketIsValid (home other name)
        → i < 8
        → holds (home other name) i ≡ true
        → get_file_seg sb_bread fi other name ≡ get_file_seg sb_bread fi ht name
    unfolding get_file_seg
    get_file_seg-stale other i h' hi taken' =
        let any' : any_used 8 0 (home other name).slot_bitmap ≡ ok true =
          any_used-true 8 0 _ i (omega arith) (omega arith) (omega (arith, h'.width)) taken' in
        rw (any', any)

-- Some slot of the first `n` is taken, or all are free.
some_taken :
    (n : ℕ) (b : Bucket)
    → ((j : ℕ) × (j < n) × (holds b j ≡ true)) ⊎ ((j : ℕ) → j < n → holds b j ≡ false)
some_taken zero b = inr (λ j l. absurd (omega arith))
some_taken (suc n) b = elim (some_taken n b) [
  | inl (j, l, t) ↦ inl (j, omega arith, t)
  | inr clear ↦ elim (Bool-cases (holds b n)) [
    | inl t ↦ inl (n, omega arith, t)
    | inr f ↦ inr (λ j l. elim (Bool-cases (j == n)) [
      | inl e ↦ ap (holds b) ((==_iff j n).0 e) ∙ f
      | inr e ↦ clear j (ground (arith, e, l))
    ])
  ]
]

pub read_cases :
    (sb_bread : ℕ → Option InodePage) (block : ℕ)
    → (sb_bread block ≡ none) ⊎ ((page : InodePage) × (sb_bread block ≡ some page))
read_cases sb_bread block = option_cases (sb_bread block)
  where
    option_cases : (x : Option InodePage) → (x ≡ none) ⊎ ((page : InodePage) × (x ≡ some page))
    option_cases none = inl refl
    option_cases (some page) = inr (page, refl)

-- How the search for a name in the table of directory `d` ends.
pub data Ends (sb_bread : ℕ → Option InodePage) (d : ℕ) (b : Bucket) (name : List ℕ) (x : Run ℕ)
    : Type 0 where
  no_file : ((j : ℕ) → j < 8 → holds b j ≡ false) → x ≡ ok 0 → Ends sb_bread d b name x
  shifted :
      (j : ℕ)
      → j < 8
      → holds b j ≡ true
      → 52 ≤ bucket_of name
      → x ≡ fault bad_shift
      → Ends sb_bread d b name x
  unread :
      (j : ℕ)
      → j < 8
      → holds b j ≡ true
      → bucket_of name < 52
      → sb_bread (inode_block_of d (bucket_of name)) ≡ none
      → x ≡ fault null_pointer
      → Ends sb_bread d b name x
  searched :
      (j : ℕ)
      → j < 8
      → holds b j ≡ true
      → bucket_of name < 52
      → (page : InodePage) → sb_bread (inode_block_of d (bucket_of name)) ≡ some page
      → Returns x (Looked page name)
      → Ends sb_bread d b name x

-- For a directory of an id below 2 ^ 14 and a valid bucket of the name, get_file_seg ends in one of four ways: it
-- answers 0 where the bucket has no file; where it has one, it faults by a shift from bucket 52 on, and below bucket
-- 52 by a null pointer where the block of the inodes of the bucket cannot be read; else it answers by
-- the names in that page alone, with the number of the bucket and the first slot that has the name, or with 0 if none has.
pub get_file_seg-Ends :
    (sb_bread : ℕ → Option InodePage) (fi : InodeInfo) (ht : HashTable) (name : List ℕ) (d : ℕ)
    → fi.dir_id ≡ pos d
    → d < 2 ^ 14
    → BucketIsValid (home ht name)
    → Ends sb_bread d (home ht name) name (get_file_seg sb_bread fi ht name)
get_file_seg-Ends sb_bread fi ht name d dir bound h = elim (some_taken 8 (home ht name)) [
  | inr clear ↦ no_file clear (get_file_seg-empty sb_bread fi ht name h clear)
  | inl (j, l, t) ↦ elim (Bool-cases (ltb (bucket_of name) 52)) [
    | inr far ↦
        let beyond : 52 ≤ bucket_of name = ground (arith, far) in
        shifted j l t beyond (get_file_seg-bad_shift sb_bread fi ht name h j l t d dir beyond)
    | inl near ↦
        let below = ltb→lt (bucket_of name) 52 near in
        let addr = inodes_at fi d name dir bound below in
        elim (read_cases sb_bread (inode_block_of d (bucket_of name))) [
          | inl e ↦ unread j l t below e (get_file_seg-unread sb_bread fi ht name h j l t addr e)
          | inr (page, e) ↦
              searched j l t below page e (get_file_seg-page sb_bread fi ht name h j l t addr e)
        ]
  ]
]

-- A name whose file was deleted is still found while another file of its bucket remains: the lookup
-- answers as it did before the deletion.
pub get_file_seg-Deleted :
    (sb_bread : ℕ → Option InodePage) (fi : InodeInfo) (name : List ℕ) (ht ht' : HashTable)
    (s j : ℕ) {held : Bool}
    → BucketIsValid (home ht name)
    → Deleted (2 ^ 12) ht.buckets (bucket_of name) s held ht'.buckets
    → j < 8
    → j ≢ s
    → holds (home ht name) j ≡ true
    → get_file_seg sb_bread fi ht' name ≡ get_file_seg sb_bread fi ht name
get_file_seg-Deleted sb_bread fi name ht ht' s j h d hj ne taken =
    get_file_seg-stale sb_bread fi ht name h j hj taken ht' j
      (d.valid (bucket_of name) (bucket_of-bounds name).0) hj
      (d.slots (bucket_of name) j ∙ ground (arith, taken))

-- In a directory of an id below 2 ^ 14, for a name of a bucket below 52 that insert_file has placed and whose page, at the
-- block of the inodes of the bucket, has the name in its slot and in no slot before: get_file_seg answers the number
-- that insert_file returned, and flatfs_file_inode_by_name gives the inode number of directory,
-- bucket and slot where that number is not 0; in bucket 0, slot 0 it is 0, and the file counts as not found.
pub get_file_seg-insert_file :
    (sb_bread : ℕ → Option InodePage) (fi : InodeInfo) (name : List ℕ) (ht ht' : HashTable) (d : ℕ)
    {held : Bool} {seg : ℕ} {page : InodePage}
    (i : Inserted (2 ^ 12) ht.buckets (bucket_of name) held ht'.buckets seg)
    → fi.dir_id ≡ pos d
    → d < 2 ^ 14
    → bucket_of name < 52
    → sb_bread (inode_block_of d (bucket_of name)) ≡ some page
    → str_eq name (page.inode i.slot).filename.name ≡ true
    → ((j : ℕ) → j < i.slot → str_eq name (page.inode j).filename.name ≡ false)
    → (get_file_seg sb_bread fi ht' name ≡ ok seg)
      × (flatfs_file_inode_by_name sb_bread ht' fi (pos d) name
          ≡ ok (if seg == 0 then 0 else d * 2 ^ 15 + seg))
unfolding flatfs_file_inode_by_name
get_file_seg-insert_file sb_bread fi name ht ht' d {seg = seg} i dir bound below read match before =
    let taken : holds (home ht' name) i.slot ≡ true =
      i.slots (bucket_of name) i.slot ∙ rw (==_self, ==_self) in
    let (found_seg, run, l) =
      get_file_seg-page sb_bread fi ht' name (i.valid (bucket_of name) (bucket_of-bounds name).0)
        i.slot i.slot_fits taken (inodes_at fi d name dir bound below) read in
    let answer : get_file_seg sb_bread fi ht' name ≡ ok seg =
      run ∙ ap ok (Looked-unique i.slot l i.slot_fits match before ∙ sym i.seg_lem) in
    let number = compose_ino-small d seg bound (omega (arith, i.seg_lem, i.slot_fits, below)) in
    (answer, rw (answer, ◌>>=◌, number) refl)
