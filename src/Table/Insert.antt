-- ===== src/Table/Insert.antt =====
-- `insert_file` of flatfs/lba.c: the slot that a new file gets.
use flatfs.Common.Bits.{zero-bit_or, bit_or_low}
use flatfs.Common.{
  ℕ, ◌<◌, ◌≡◌, ◌+◌, ◌*◌, ◌%◌, ◌^◌, ◌∙◌, sym, ==_iff, ==_self, Bool, true, false, ◌==◌, ◌&&◌,
  if◌then◌else◌, List, Run, ok, fault, spins, ◌>>=◌, Returns, arith, Bool-cases, inl, inr, update,
  u64_max, ap,
}
use flatfs.Name.{bucket_of, bucket_of-bounds}
use flatfs.Table.{Bucket, HashTable, locked, file_seg, insert_file}
use flatfs.Table.Buckets.{holds, BucketIsValid, Wrote, write_slot-take, free_slot, no_free_slot}

-- Every bucket of the first `n` is valid.
abbrev pub TableIsValid : ℕ → (ℕ → Bucket) → Type 0
TableIsValid n buckets = (i : ℕ) → i < n → BucketIsValid (buckets i)

-- The slots that the tables `old` and `new` hold differ at most in slot `s` of bucket `b`, where
-- `new` holds `v`.
abbrev pub SlotWritten : (ℕ → Bucket) → (ℕ → Bucket) → ℕ → ℕ → Bool → Type 0
SlotWritten old new b s v =
    (i j : ℕ) → holds (new i) j ≡ (if i == b && j == s then v else holds (old i) j)

pub file_seg-lem : (b s : ℕ) → b < 2 ^ 18 → s < 8 → file_seg b s ≡ b * 8 + s
unfolding file_seg
file_seg-lem b s hb hs = rw (zero-bit_or, small) (bit_or_low 3 b s hs)
  where
    small : b * 2 ^ 3 % 2 ^ 64 ≡ b * 2 ^ 3
    small = omega arith

pub update-SlotWritten :
    (old : ℕ → Bucket) (b s : ℕ) (v : Bool) {held : Bool} {c : Bucket}
    → Wrote (old b) s v held c
    → SlotWritten old (update old b c) b s v
update-SlotWritten old b s v w i j = elim (Bool-cases (i == b)) [
  | inl e ↦
      rw e (w.slots j ∙ ap (λ k. if j == s then v else holds (old k) j) (sym ((==_iff i b).0 e)))
  | inr e ↦ rw e
]

pub update-TableIsValid :
    (n : ℕ) (old : ℕ → Bucket) (b : ℕ) {c : Bucket}
    → TableIsValid n old
    → BucketIsValid c
    → TableIsValid n (update old b c)
update-TableIsValid n old b h hc i hi = elim (Bool-cases (i == b)) [
  | inl e ↦ rw e hc
  | inr e ↦ rw e (h i hi)
]

-- What an insertion into bucket `k` of a table of `n` buckets did: the tables before and after, the
-- word of the lock, and the number that was returned.
pub record Inserted (n : ℕ) (old : ℕ → Bucket) (k : ℕ) (held : Bool) (new : ℕ → Bucket) (seg : ℕ)
    : Type 0 where
  pub slot : ℕ
  pub slot_fits : slot < 8
  pub seg_lem : seg ≡ k * 8 + slot
  pub was_free : holds (old k) slot ≡ false
  pub slots : SlotWritten old new k slot true
  pub valid : TableIsValid n new
  pub lock : (new k).bkt_lock ≡ held

module _ (spin_lock : Bool → Run Bool) (ht : HashTable) (name : List ℕ) where
  -- With the lock to be had and a slot free, `insert_file` returns: it takes one free slot of the
  -- bucket of the name, returns bucket and slot as one number, changes no other slot of the table,
  -- leaves the lock as `spin_lock` left it, and keeps the table valid.
  pub insert_file-Inserted :
      {held : Bool}
      → TableIsValid (2 ^ 12) ht.buckets
      → spin_lock (ht.buckets (bucket_of name)).bkt_lock ≡ ok held
      → (ht.buckets (bucket_of name)).valid_slot_count < 8
      → Returns
          (insert_file spin_lock ht name)
          λ r. Inserted (2 ^ 12) ht.buckets (bucket_of name) held r.0.buckets r.1
  unfolding insert_file
  insert_file-Inserted {held} h lock room =
      let k = bucket_of name in
      let b = ht.buckets k in
      let hb = h k (bucket_of-bounds name).0 in
      let (i, run, (below, free)) = free_slot hb room in
      let (c, write, w) = write_slot-take b held i hb below free in
      let small : i % 2 ^ 8 ≡ i = omega arith in
      let other : (i == 8) ≡ false = ground arith in
      (
        (record ht { buckets = update ht.buckets k c }, file_seg k i),
        rw (lock, run, ◌>>=◌, small, other, small, write),
        record {
          slot = i;
          slot_fits = below;
          seg_lem = file_seg-lem k i (omega (arith, bucket_of-bounds name)) below;
          was_free = free;
          slots = update-SlotWritten ht.buckets k i true w;
          valid = update-TableIsValid (2 ^ 12) ht.buckets k h w.valid;
          lock = rw ==_self w.lock;
        },
      )

  -- With the lock to be had and the bucket full, it returns -1 and changes the lock alone.
  pub insert_file-full :
      {held : Bool}
      → TableIsValid (2 ^ 12) ht.buckets
      → spin_lock (ht.buckets (bucket_of name)).bkt_lock ≡ ok held
      → (ht.buckets (bucket_of name)).valid_slot_count ≡ 8
      → insert_file spin_lock ht name
        ≡ ok (
          record ht {
            buckets =
                update ht.buckets (bucket_of name) (locked (ht.buckets (bucket_of name)) held);
          },
          u64_max,
        )
  unfolding insert_file
  insert_file-full h lock full =
      rw (lock, no_free_slot (h (bucket_of name) (bucket_of-bounds name).0) full)

  insert_file-held :
      (ht' : HashTable) (next : List ℕ)
      → spin_lock (ht'.buckets (bucket_of next)).bkt_lock ≡ fault spins
      → insert_file spin_lock ht' next ≡ fault spins
  unfolding insert_file
  insert_file-held ht' next waits = rw waits

  -- On a kernel whose spin_lock takes a free lock and waits for a held one, an insertion into a bucket of a
  -- valid table whose lock is free and which has a free slot is followed by none: the next insertion
  -- into that bucket never returns.
  pub insert_file-spins :
      (next : List ℕ)
      → TableIsValid (2 ^ 12) ht.buckets
      → (ht.buckets (bucket_of name)).bkt_lock ≡ false
      → (ht.buckets (bucket_of name)).valid_slot_count < 8
      → bucket_of next ≡ bucket_of name
      → spin_lock false ≡ ok true
      → spin_lock true ≡ fault spins
      → (insert_file spin_lock ht name >>= λ (ht', n). insert_file spin_lock ht' next) ≡ fault spins
  insert_file-spins next h free room same takes waits =
      let (r, run, i) = insert_file-Inserted {held = true} h (rw free takes) room in
      rw (run, ◌>>=◌) (insert_file-held r.0 next (rw (same, i.lock) waits))
