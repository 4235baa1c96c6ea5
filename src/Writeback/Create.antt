-- ===== src/Writeback/Create.antt =====
-- A file is created, its inode written back, and its name looked up: `ffs_create`, `ffs_dirty_inode` and
-- `get_file_seg` one after the other.
use flatfs.Common.{
  ℕ, ◌/◌, ◌%◌, ◌^◌, ◌<◌, ◌≡◌, ap, ◌∙◌, List, Bool, true, false, pos, is_minus_one, ltb, lt→ltb,
  ◌==◌, Option, some, update, set, get_or, length, Run, ok, ◌>>=◌, Returns, arith, if◌then◌else◌,
  ◌+◌, ◌*◌, refl, sym,
}
use flatfs.Config.{max_dir_bits, max_filename_len}
use flatfs.Types.{FfsInode, InodePage, InodeInfo}
use flatfs.Name.{my_strlen, bucket_of, str_eq}
use flatfs.Bitmap.{bitmap_write-ok}
use flatfs.Lba.{compose_lba, ffs_get_lba_meta}
use flatfs.Table.{Bucket, HashTable, BigDirHashTable}
use flatfs.Table.Buckets.{holds}
use flatfs.Table.Insert.{TableIsValid}
use flatfs.Ino.{get_file_seg, flatfs_file_inode_by_name}
use flatfs.Lba.Meta.{inode_block_of}
use flatfs.Ino.Seg.{inodes_at, get_file_seg-insert_file}
use flatfs.Dir.Links.{update_self, update_ne}
use flatfs.Super.{Sb, follow}
use flatfs.Inode.{Made, named, ffs_create}
use flatfs.Inode.Create.{Created, ffs_create-Created}
use flatfs.Writeback.{inode_block, write_inode, write_in_page, write_page, ffs_dirty_inode}
use flatfs.Writeback.Names.{write_inode-matches}

-- The page after an inode was written to slot `s`.
abbrev pub with_inode : InodePage → InodeInfo → ℕ → InodePage
with_inode page fi s = record page {
  slot_bitmap = set page.slot_bitmap s true;
  inode = update page.inode s (write_inode fi (page.inode s));
}

-- The page of a bucket, of which nothing in its free slots is longer than the name, and that does not
-- have the name.
pub record RoomFor (b : Bucket) (page : InodePage) (name : List ℕ) : Type 0 where
  pub width : length page.slot_bitmap ≡ 64
  pub room :
      (s : ℕ)
      → s < 8
      → holds b s ≡ false
      → get_or (page.inode s).filename.name (my_strlen name) 0 ≡ 0
  pub absent : (s : ℕ) → s < 8 → str_eq name (page.inode s).filename.name ≡ false

inode_block-file :
    (fi : InodeInfo) (b pblk : ℕ)
    → fi.bucket_id ≡ pos b
    → (fi.is_big_dir == 0) ≡ true
    → compose_lba fi.dir_id (pos b) (pos 0) 0 ≡ ok pblk
    → inode_block fi ≡ ok pblk
unfolding inode_block ffs_get_lba_meta
inode_block-file fi b pblk bucket small addr =
    let same = ap (λ k. compose_lba fi.dir_id k (pos 0) 0) bucket in
    rw (bucket, inode_block, small) (same ∙ addr)

write_page-file :
    (overlay : InodePage → (FfsInode → FfsInode) → InodePage) (page : InodePage) (fi : InodeInfo)
    (s : ℕ)
    → fi.slot_id ≡ pos s
    → s < 8
    → length page.slot_bitmap ≡ 64
    → write_page overlay page fi ≡ ok (with_inode page fi s)
unfolding write_page write_in_page
write_page-file overlay page fi s slot bound width =
    rw (ap is_minus_one slot, write_page)
      (ap (write_in_page page fi) slot
        ∙ rw (
          lt→ltb s 8 bound,
          write_in_page,
          bitmap_write-ok page.slot_bitmap s true (omega (arith, width)),
          ◌>>=◌,
        ))

module _ (overlay : InodePage → (FfsInode → FfsInode) → InodePage)
    (device : ℕ → Option InodePage) where
  -- The inode of a file is written to its slot of the page of its bucket.
  pub ffs_dirty_inode-file :
      (fi : InodeInfo) (b s pblk : ℕ) (page : InodePage)
      → fi.bucket_id ≡ pos b
      → fi.slot_id ≡ pos s
      → s < 8
      → (fi.is_big_dir == 0) ≡ true
      → (fi.valid == 0) ≡ false
      → fi.filename.name_len < 2 ^ 8
      → compose_lba fi.dir_id (pos b) (pos 0) 0 ≡ ok pblk
      → device pblk ≡ some page
      → length page.slot_bitmap ≡ 64
      → ffs_dirty_inode overlay device fi ≡ ok (update device pblk (some (with_inode page fi s)))
  unfolding ffs_dirty_inode follow
  ffs_dirty_inode-file fi b s pblk page bucket slot bound small valid short addr read width =
      let fits : ltb max_filename_len fi.filename.name_len ≡ false = ground (arith, short) in
      rw (
        inode_block-file fi b pblk bucket small addr,
        ◌>>=◌,
        read,
        valid,
        fits,
        write_page-file overlay page fi s slot bound width,
      )

  -- The steps after the creation, and what the lookup answers.
  record LookedUp (dfi : InodeInfo) (d : ℕ) (name : List ℕ) (m : Made) : Type 0 where
    device' : ℕ → Option InodePage
    ht' : HashTable
    seg : ℕ
    writes : ffs_dirty_inode overlay device m.fi ≡ ok device'
    table : m.sb.hashtbl d ≡ some ht'
    finds : get_file_seg device' dfi ht' name ≡ ok seg
    bucket : m.fi.bucket_id ≡ pos (seg / 8)
    slot : m.fi.slot_id ≡ pos (seg % 8)
    number :
        flatfs_file_inode_by_name device' ht' dfi dfi.dir_id name
        ≡ ok (if seg == 0 then 0 else m.fi.i_ino)

  Created-LookedUp :
      (sb : Sb) (dfi fi : InodeInfo) (name : List ℕ) (d : ℕ) (ht : HashTable) (held : Bool)
      (page : InodePage) (m : Made)
      → dfi.dir_id ≡ pos d
      → d < 2 ^ max_dir_bits
      → RoomFor (ht.buckets (bucket_of name)) page name
      → my_strlen name < 2 ^ 8
      → bucket_of name < 52
      → device (inode_block_of d (bucket_of name)) ≡ some page
      → Created sb fi d ht name held m
      → LookedUp dfi d name m
  unfolding named
  Created-LookedUp sb dfi fi name d ht held page m dir bound room short below read c =
      let i = c.inserted in
      let pblk = inode_block_of d (bucket_of name) in
      let s = i.slot in
      let k = bucket_of name in
      let page' = with_inode page m.fi s in
      let at_s : page'.inode s ≡ write_inode m.fi (page.inode s) =
        update_self page.inode s (write_inode m.fi (page.inode s)) in
      let matches : str_eq name (page'.inode s).filename.name ≡ true = rw at_s (
        write_inode-matches m.fi fi (page.inode s) name c.filename short
          (room.room s i.slot_fits i.was_free)) in
      let before : (j : ℕ) → j < s → str_eq name (page'.inode j).filename.name ≡ false = λ j lt.
        rw
          (update_ne page.inode s j (write_inode m.fi (page.inode s))
            (λ e. absurd (omega (arith, e, lt))))
          (room.absent j (omega (arith, i.slot_fits))) in
      let len : m.fi.filename.name_len < 2 ^ 8 = rw c.filename (omega arith) in
      let looked =
        get_file_seg-insert_file (update device pblk (some page')) dfi name ht c.ht' d i dir bound
          below (update_self device pblk (some page')) matches before in
      let ino : m.fi.i_ino ≡ d * 2 ^ 15 + c.seg = omega (arith, c.ino.value, i.seg_lem) in
      record {
        device' = update device pblk (some page');
        ht' = c.ht';
        seg = c.seg;
        writes =
            ffs_dirty_inode-file m.fi k s pblk page c.bucket c.slot i.slot_fits (rw c.small)
              (rw c.valid) len (inodes_at m.fi d name c.dir bound below) read room.width;
        table = c.table;
        finds = looked.0;
        bucket = c.bucket ∙ ap pos (omega (arith, i.seg_lem, i.slot_fits));
        slot = c.slot ∙ ap pos (omega (arith, i.seg_lem, i.slot_fits));
        number =
            ap (λ x. flatfs_file_inode_by_name (update device pblk (some page')) c.ht' dfi x name)
              dir
            ∙ looked.1
            ∙ ap (λ x. ok (if c.seg == 0 then 0 else x)) (sym ino);
      }

  module _ (spin_lock : Bool → Run Bool) where
    -- A file is created in a directory of an id below 2 ^ 14 without an expansion area, its inode written back, and the
    -- name looked up in the table and the blocks that this leaves: with the lock to be had and a slot of the
    -- bucket free, a name of at most 255 bytes whose bucket is below 52, and a page of the bucket that can
    -- be read, has room for the name in its free slots and has not got it yet, every step returns;
    -- get_file_seg answers the number of the bucket and the slot of the new inode; and flatfs_file_inode_by_name gives the
    -- inode number of the new inode where that number is not 0, and 0, which means no file, in bucket 0, slot 0.
    pub ffs_create-found :
        (got : Bool) (memory : Option BigDirHashTable) (dle : Option ℕ) (sb : Sb)
        (dfi fi : InodeInfo) (name : List ℕ) (d : ℕ) (ht : HashTable) (page : InodePage)
        {held : Bool}
        → dfi.dir_id ≡ pos d
        → d < 2 ^ max_dir_bits
        → (dfi.is_big_dir == 0) ≡ true
        → sb.hashtbl d ≡ some ht
        → TableIsValid (2 ^ 12) ht.buckets
        → spin_lock (ht.buckets (bucket_of name)).bkt_lock ≡ ok held
        → (ht.buckets (bucket_of name)).valid_slot_count < 8
        → RoomFor (ht.buckets (bucket_of name)) page name
        → my_strlen name < 2 ^ 8
        → bucket_of name < 52
        → device (inode_block_of d (bucket_of name)) ≡ some page
        → Returns
            (ffs_create spin_lock got memory dle sb dfi fi name >>= λ m.
              ffs_dirty_inode overlay device m.fi >>= λ device'. follow (m.sb.hashtbl d) >>= λ ht'.
              get_file_seg device' dfi ht' name >>= λ seg.
              flatfs_file_inode_by_name device' ht' dfi dfi.dir_id name >>= λ ino. ok (m, seg, ino))
            (λ (m, seg, ino).
              (m.fi.bucket_id ≡ pos (seg / 8))
              × (m.fi.slot_id ≡ pos (seg % 8))
              × (ino ≡ (if seg == 0 then 0 else m.fi.i_ino)))
    unfolding follow
    ffs_create-found got memory dle sb dfi fi name d ht page {held} dir bound small there v lock
          space room short below read =
        let (m, run, c) =
          ffs_create-Created spin_lock got memory dle sb dfi fi name d ht dir bound small there v
            lock space in
        let l =
          Created-LookedUp sb dfi fi name d ht held page m dir bound room short below read c in
        (
          (m, l.seg, if l.seg == 0 then 0 else m.fi.i_ino),
          rw (run, ◌>>=◌, l.writes, l.table, l.finds, l.number),
          (l.bucket, l.slot, refl),
        )
