-- ===== src/Table/Delete.antt =====
-- `delete_file` of flatfs/lba.c: the slot of a file is given back.
use flatfs.Common.{
  ℕ, ◌≤◌, ◌<◌, ◌≡◌, suc, ◌+◌, ◌/◌, ◌%◌, ◌^◌, refl, ◌∙◌, Bool, true, false, ◌==◌, ◌&&◌, ◌||◌, List,
  pos, Run, ok, fault, out_of_bounds, ◌>>=◌, Returns, arith, Bool-cases, inl, inr, update, ==_self,
  ltb, lt→ltb, ap,
}
use flatfs.Bitmap.{test_bit-ok}
use flatfs.Name.{bucket_of, bucket_of-bounds}
use flatfs.Table.{Bucket, HashTable, locked, release_slot, delete_file}
use flatfs.Table.Buckets.{holds, BucketIsValid, Wrote, write_slot-free}
use flatfs.Table.Insert.{
  TableIsValid, SlotWritten, Inserted, update-SlotWritten, update-TableIsValid,
}

-- What a deletion of slot `s` of bucket `k` did.
pub record Deleted (n : ℕ) (old : ℕ → Bucket) (k s : ℕ) (held : Bool) (new : ℕ → Bucket)
    : Type 0 where
  pub slots : SlotWritten old new k s false
  pub valid : TableIsValid n new
  pub lock : (new k).bkt_lock ≡ held

module _ (spin_lock : Bool → Run Bool) where
  -- A taken slot of a valid bucket is freed, and 1 is returned.
  pub release_slot-taken :
      (b : Bucket) (s : ℕ) {held : Bool}
      → BucketIsValid b
      → s < 8
      → spin_lock b.bkt_lock ≡ ok held
      → holds b s ≡ true
      → Returns (release_slot spin_lock b (pos s)) λ r. (r.1 ≡ 1) × Wrote b s false held r.0
  unfolding release_slot
  release_slot-taken b s {held} h hs lock taken =
      let (c, write, w) = write_slot-free b held s h hs taken in
      (
        (c, 1),
        rw (lock, test_bit-ok b.slot_bitmap s (omega (arith, h.width)), ◌>>=◌, taken, write),
        (refl, w),
      )

  -- Inside the table the guards pass.
  delete_file-inside :
      (ht : HashTable) (b s : ℕ)
      → b < 2 ^ 12
      → s < 8
      → delete_file spin_lock ht (pos b) (pos s) ≡ (
          release_slot spin_lock (ht.buckets b) (pos s) >>= λ r.
          ok (record ht { buckets = update ht.buckets b r.0 }, r.1))
  unfolding delete_file
  delete_file-inside ht b s hb hs = rw (outside, delete_file, lt→ltb b (2 ^ 12) hb)
    where
      outside : (ltb (2 ^ 12) b || ltb 8 s) ≡ false
      outside = ground arith

  module _ (ht : HashTable) (b s : ℕ) (hb : b < 2 ^ 12) (hs : s < 8) where
    -- With the lock to be had, a taken slot of a valid table is freed: `delete_file` returns 1,
    -- changes no other slot and keeps the table valid.
    pub delete_file-Deleted :
        {held : Bool}
        → TableIsValid (2 ^ 12) ht.buckets
        → spin_lock (ht.buckets b).bkt_lock ≡ ok held
        → holds (ht.buckets b) s ≡ true
        → Returns
            (delete_file spin_lock ht (pos b) (pos s))
            λ r. (r.1 ≡ 1) × Deleted (2 ^ 12) ht.buckets b s held r.0.buckets
    delete_file-Deleted {held} h lock taken =
        let ((c, done), run, (one, w)) =
          release_slot-taken (ht.buckets b) s (h b hb) hs lock taken in
        (
          (record ht { buckets = update ht.buckets b c }, done),
          delete_file-inside ht b s hb hs ∙ rw run,
          (
            one,
            record {
              slots = update-SlotWritten ht.buckets b s false w;
              valid = update-TableIsValid (2 ^ 12) ht.buckets b h w.valid;
              lock = rw ==_self w.lock;
            },
          ),
        )

    -- A free slot is left as it is: `delete_file` returns 0 and changes the lock alone.
    pub delete_file-free :
        {held : Bool}
        → TableIsValid (2 ^ 12) ht.buckets
        → spin_lock (ht.buckets b).bkt_lock ≡ ok held
        → holds (ht.buckets b) s ≡ false
        → delete_file spin_lock ht (pos b) (pos s)
          ≡ ok (record ht { buckets = update ht.buckets b (locked (ht.buckets b) held) }, 0)
    unfolding release_slot
    delete_file-free {held} h lock free =
        delete_file-inside ht b s hb hs
        ∙ rw (
          lock,
          test_bit-ok (ht.buckets b).slot_bitmap s (omega (arith, (h b hb).width)),
          ◌>>=◌,
          free,
        )

  undone :
      {n : ℕ} {old new final : ℕ → Bucket} {k seg : ℕ} {held held' : Bool}
      (h : Inserted n old k held new seg)
      → Deleted n new k h.slot held' final
      → (i j : ℕ) → holds (final i) j ≡ holds (old i) j
  undone {old = old} {k = k} h d i j = elim (Bool-cases (i == k && j == h.slot)) [
    | inl e ↦ d.slots i j ∙ rw e (ground (arith, h.was_free))
    | inr e ↦ d.slots i j ∙ rw e (h.slots i j ∙ rw e)
  ]

  -- The guard of `delete_file` lets bucket 4096 pass, one beyond the table, and stops the buckets
  -- after it.
  pub delete_file_guard_off_by_one :
      (ht : HashTable) (b s : ℕ)
      → s ≤ 8
      → (delete_file spin_lock ht (pos (2 ^ 12)) (pos s) ≡ fault out_of_bounds)
        × (delete_file spin_lock ht (pos (2 ^ 12 + suc b)) (pos s) ≡ ok (ht, 0))
  unfolding delete_file
  delete_file_guard_off_by_one ht b s h = (ground arith, ground arith)

  -- On a kernel that gives the lock again, deleting the file that `insert_file` has just placed
  -- returns 1 and leaves every slot of the table as it was before the insertion.
  pub delete_file-insert_file :
      (ht : HashTable) (name : List ℕ) (r : HashTable × ℕ) {held held' : Bool}
      → Inserted (2 ^ 12) ht.buckets (bucket_of name) held r.0.buckets r.1
      → spin_lock held ≡ ok held'
      → Returns
          (delete_file spin_lock r.0 (pos (r.1 / 8)) (pos (r.1 % 8)))
          λ q. (q.1 ≡ 1) × ((i j : ℕ) → holds (q.0.buckets i) j ≡ holds (ht.buckets i) j)
  delete_file-insert_file ht name r {held} {held'} h lock =
      let k = bucket_of name in
      let bound = (bucket_of-bounds name).0 in
      let bucket : r.1 / 8 ≡ k = omega (arith, h.seg_lem, h.slot_fits) in
      let slot : r.1 % 8 ≡ h.slot = omega (arith, h.seg_lem, h.slot_fits) in
      let taken : holds (r.0.buckets k) h.slot ≡ true = h.slots k h.slot ∙ rw (==_self, ==_self) in
      let (q, run, (one, d)) =
        delete_file-Deleted r.0 k h.slot bound h.slot_fits h.valid (ap spin_lock h.lock ∙ lock)
          taken in
      (q, rw (bucket, slot) run, (one, undone h d))
