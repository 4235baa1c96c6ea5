-- ===== src/Unlink/Fails.antt =====
-- A file of flatfs/inode.c that is created and deleted: `ffs_create` and `ffs_unlink`.
use flatfs.Common.{
  ℕ, ◌^◌, ◌<◌, ◌≤◌, ◌≡◌, inl, inr, refl, ap, ◌∙◌, List, length, Bool, true, false, pos, ◌==◌,
  Option, some, none, Run, ok, fault, null_pointer, bad_shift, ◌>>=◌, arith, ltb, ltb→lt,
  if◌then◌else◌, Bool-cases,
}
use flatfs.Config.{max_dir_bits}
use flatfs.Types.{InodePage, InodeInfo}
use flatfs.Name.{bucket_of, bucket_of-bounds}
use flatfs.Bitmap.{bitmap_write-ok}
use flatfs.Lba.{compose_lba}
use flatfs.Lba.Meta.{compose_lba-bad_shift, inode_block_of}
use flatfs.Table.{HashTable, BigDirHashTable}
use flatfs.Table.Insert.{TableIsValid}
use flatfs.Ino.Seg.{inodes_at, read_cases}
use flatfs.Super.{Sb, follow}
use flatfs.Inode.{ffs_create}
use flatfs.Inode.Create.{ffs_create-Created}
use flatfs.Unlink.{compose_pblk_for_discard, clear_in_page, ffs_unlink}

-- The bitmaps of the pages have the slots of a bucket.
abbrev pub PagesFit : (ℕ → Option InodePage) → Type 0
PagesFit device =
    (block : ℕ) (page : InodePage) → device block ≡ some page → 8 ≤ length page.slot_bitmap

module _ (device : ℕ → Option InodePage) (fi : InodeInfo) (d s : ℕ) (name : List ℕ)
    (small : fi.is_big_dir ≡ 0) (slot : fi.slot_id ≡ pos s) (slot_fits : s < 8)
    (dir : fi.dir_id ≡ pos d) (bucket : fi.bucket_id ≡ pos (bucket_of name)) where
  block_of :
      compose_lba fi.dir_id fi.bucket_id (pos 0) 0
      ≡ compose_lba fi.dir_id (pos (bucket_of name)) (pos 0) 0
  block_of = ap (λ x. compose_lba fi.dir_id x (pos 0) 0) bucket

  unlink-shifted : 52 ≤ bucket_of name → ffs_unlink device none fi ≡ fault bad_shift
  unfolding ffs_unlink compose_pblk_for_discard
  unlink-shifted far =
      let addr : compose_lba fi.dir_id fi.bucket_id (pos 0) 0 ≡ fault bad_shift =
        block_of
        ∙ ap (λ x. compose_lba x (pos (bucket_of name)) (pos 0) 0) dir
        ∙ compose_lba-bad_shift d (bucket_of name) (pos 0) far (bucket_of-bounds name).0 in
      rw (slot, small, addr) refl

  unlink-null :
      d < 2 ^ max_dir_bits
      → bucket_of name < 52
      → PagesFit device
      → ffs_unlink device none fi ≡ fault null_pointer
  unfolding ffs_unlink follow clear_in_page compose_pblk_for_discard
  unlink-null bound near fit =
      let block = inode_block_of d (bucket_of name) in
      let addr : compose_lba fi.dir_id fi.bucket_id (pos 0) 0 ≡ ok block =
        block_of ∙ inodes_at fi d name dir bound near in
      elim (read_cases device block) [
        | inl e ↦ rw (slot, small, addr, ◌>>=◌, e) refl
        | inr (page, e) ↦
            rw
              (
                slot,
                small,
                addr,
                ◌>>=◌,
                e,
                bitmap_write-ok page.slot_bitmap s false
                    (omega (arith, slot_fits, fit block page e)),
              )
              refl
      ]

module _ (spin_lock : Bool → Run Bool) where
  -- With the lock to be had and a slot of the bucket free, on a device whose pages have a bit for each slot, a file that
  -- ffs_create makes in a directory of an id below 2 ^ 14 without an expansion area is never deleted where the
  -- buffer of its page has NULL as private memory, as the kernel makes it: whatever the blocks hold, ffs_unlink of the new
  -- inode faults, by a shift from bucket 52 on and by a null pointer below.
  pub create_unlink-faults :
      (got : Bool) (memory : Option BigDirHashTable) (dle : Option ℕ) (sb : Sb) (dfi fi : InodeInfo)
      (device : ℕ → Option InodePage) (name : List ℕ) (d : ℕ) (ht : HashTable) {held : Bool}
      → dfi.dir_id ≡ pos d
      → d < 2 ^ max_dir_bits
      → (dfi.is_big_dir == 0) ≡ true
      → sb.hashtbl d ≡ some ht
      → TableIsValid (2 ^ 12) ht.buckets
      → spin_lock (ht.buckets (bucket_of name)).bkt_lock ≡ ok held
      → (ht.buckets (bucket_of name)).valid_slot_count < 8
      → PagesFit device
      → (ffs_create spin_lock got memory dle sb dfi fi name >>= λ m. ffs_unlink device none m.fi)
        ≡ fault (if ltb (bucket_of name) 52 then null_pointer else bad_shift)
  create_unlink-faults got memory dle sb dfi fi device name d ht dir bound small there v lock room
        fit =
      let (m, run, c) =
        ffs_create-Created spin_lock got memory dle sb dfi fi name d ht dir bound small there v lock
          room in
      let i = c.inserted in
      elim (Bool-cases (ltb (bucket_of name) 52)) [
        | inl near ↦
            rw (run, ◌>>=◌, near)
              (unlink-null device m.fi d i.slot name c.small c.slot i.slot_fits c.dir c.bucket bound
                (ltb→lt (bucket_of name) 52 near) fit)
        | inr far ↦
            rw (run, ◌>>=◌, far)
              (unlink-shifted device m.fi d i.slot name c.small c.slot i.slot_fits c.dir c.bucket
                (ground (arith, far)))
      ]
