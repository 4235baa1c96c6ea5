-- ===== src/Inode/Create.antt =====
-- `ffs_create` of flatfs/inode.c in a directory without an expansion area.
use flatfs.Common.{
  ℕ, ◌^◌, ◌<◌, ◌≡◌, ◌≢◌, refl, ap, ◌∙◌, List, Bool, true, false, ℤ, pos, negsuc, lt→ltb, ◌==◌,
  Option, some, update, Run, ok, ◌>>=◌, Returns, arith, u64_max,
}
use flatfs.Config.{max_dir_bits}
use flatfs.Types.{InodeInfo}
use flatfs.Name.{bucket_of, bucket_of-bounds}
use flatfs.Table.{HashTable, BigDirHashTable}
use flatfs.Table.Insert.{TableIsValid, Inserted}
use flatfs.Ino.{flatfs_file_slot_alloc_by_name, ino_to_bucket, ino_to_slot}
use flatfs.Ino.Alloc.{Allocated, InoAt, slot_alloc-Allocated}
use flatfs.Dir.Links.{update_self, update_ne}
use flatfs.Super.{Sb, index, follow, with_table}
use flatfs.Inode.{Made, named, new_file, mknod_file, ffs_mknod, ffs_create}

-- What a creation leaves: a file in a free slot of the bucket of its name, and its inode, which has the
-- directory, the bucket, the slot and the name; the tree and the other tables are as they were.
pub record Created (sb : Sb) (fi : InodeInfo) (d : ℕ) (ht : HashTable) (name : List ℕ) (held : Bool)
    (m : Made) : Type 0 where
  pub ret : m.ret ≡ pos 0
  pub ht' : HashTable
  pub seg : ℕ
  pub inserted : Inserted (2 ^ 12) ht.buckets (bucket_of name) held ht'.buckets seg
  pub table : m.sb.hashtbl d ≡ some ht'
  pub others : (j : ℕ) → j ≢ d → m.sb.hashtbl j ≡ sb.hashtbl j
  pub tree : m.sb.dtree ≡ sb.dtree
  pub dir : m.fi.dir_id ≡ pos d
  pub bucket : m.fi.bucket_id ≡ pos (bucket_of name)
  pub slot : m.fi.slot_id ≡ pos inserted.slot
  pub valid : m.fi.valid ≡ 1
  pub small : m.fi.is_big_dir ≡ 0
  pub area : m.fi.big_dir_id ≡ negsuc 0
  pub filename : m.fi.filename ≡ named fi name
  pub ino : InoAt m.fi.i_ino d (bucket_of name) inserted.slot

allocated :
    (sb : Sb) (dfi fi : InodeInfo) (d : ℕ) (ht : HashTable) (name : List ℕ) (held : Bool)
    (ht' : HashTable) (ino : ℕ)
    → dfi.dir_id ≡ pos d
    → Allocated ht d name held (ht', ino)
    → Created sb fi d ht name held (record {
      sb = record sb { hashtbl = update sb.hashtbl d (some ht') };
      dfi = dfi;
      fi = new_file dfi fi name 0 ino (negsuc 0) (ino_to_bucket ino) (ino_to_slot ino);
      ret = pos 0;
    })
unfolding new_file
allocated sb dfi fi d ht name held ht' ino dir a = record {
  ret = refl;
  ht' = ht';
  seg = a.seg;
  inserted = a.inserted;
  table = update_self sb.hashtbl d (some ht');
  others = λ j ne. update_ne sb.hashtbl d j (some ht') ne;
  tree = refl;
  dir = dir;
  bucket = ap pos a.ino.bucket;
  slot = ap pos a.ino.slot;
  valid = refl;
  small = refl;
  area = refl;
  filename = refl;
  ino = a.ino;
}

-- The table of the directory, read and changed.
pub with_table-ok :
    (sb : Sb) (id : ℤ) (d : ℕ) (ht ht' : HashTable) (r : ℕ) (f : HashTable → Run (HashTable × ℕ))
    → id ≡ pos d
    → d < 2 ^ max_dir_bits
    → sb.hashtbl d ≡ some ht
    → f ht ≡ ok (ht', r)
    → with_table sb id f ≡ ok (record sb { hashtbl = update sb.hashtbl d (some ht') }, r)
unfolding with_table index follow
with_table-ok sb id d ht ht' r f e bound there run =
    rw (e, lt→ltb d (2 ^ max_dir_bits) bound, ◌>>=◌, there, run)

module _ (spin_lock : Bool → Run Bool) where
  -- With the lock to be had and a slot of the bucket free, ffs_create succeeds in a directory without an
  -- expansion area: the name takes a free slot of its bucket, and the new inode has the directory, the
  -- bucket, the slot and the name; the tree and the other tables stay.
  pub ffs_create-Created :
      (got : Bool) (memory : Option BigDirHashTable) (dle : Option ℕ) (sb : Sb) (dfi fi : InodeInfo)
      (name : List ℕ) (d : ℕ) (ht : HashTable) {held : Bool}
      → dfi.dir_id ≡ pos d
      → d < 2 ^ max_dir_bits
      → (dfi.is_big_dir == 0) ≡ true
      → sb.hashtbl d ≡ some ht
      → TableIsValid (2 ^ 12) ht.buckets
      → spin_lock (ht.buckets (bucket_of name)).bkt_lock ≡ ok held
      → (ht.buckets (bucket_of name)).valid_slot_count < 8
      → Returns (ffs_create spin_lock got memory dle sb dfi fi name) (Created sb fi d ht name held)
  unfolding ffs_create ffs_mknod mknod_file
  ffs_create-Created got memory dle sb dfi fi name d ht {held} dir bound small there v lock room =
      let ((ht', ino), run, a) = slot_alloc-Allocated spin_lock ht d name bound v lock room in
      let alloc : flatfs_file_slot_alloc_by_name spin_lock ht dfi.dir_id name ≡ ok (ht', ino) =
        ap (λ i. flatfs_file_slot_alloc_by_name spin_lock ht i name) dir ∙ run in
      let table =
        with_table-ok sb dfi.dir_id d ht ht' ino
          (λ t. flatfs_file_slot_alloc_by_name spin_lock t dfi.dir_id name) dir bound there alloc in
      let own : (ino == u64_max) ≡ false =
        ground (arith, a.ino.value, bucket_of-bounds name, a.inserted.slot_fits) in
      (_, rw (small, table, ◌>>=◌, own), allocated sb dfi fi d ht name held ht' ino dir a)
