-- ===== src/Readdir/Files.antt =====
-- What `read_dir_files` and `read_big_dir_files` of flatfs/lba.c emit of a table: its files by their slots,
-- from the position on that the table has.
use flatfs.Common.{
  ℕ, zero, suc, ◌+◌, ◌-◌, ◌^◌, ◌≤◌, ◌<◌, ◌≡◌, ◌⊎◌, refl, sym, ◌∙◌, ap, List, ◌++◌, false, drop,
  Option, some, ◌>>=◌, Returns, arith, Bool-cases, inl, inr, ltb, ltb→lt, ◌==◌, ==_iff,
}
use flatfs.Config.{slots_per_bucket}
use flatfs.Types.{FfsInode}
use flatfs.Lba.{inode_to_dir_id}
use flatfs.Table.{Bucket, HashTable, BigDirHashTable}
use flatfs.Table.Buckets.{BucketIsValid}
use flatfs.Table.Insert.{TableIsValid}
use flatfs.Readdir.{
  DirEnt, Reading, slot_ino, emit_slots, read_block, emit_buckets, read_files, read_dir_files,
  read_big_dir_files,
}
use native.Mathlib.Nat.{one-le-pow}
use flatfs.Readdir.Slots.{
  slots, Advanced, Advanced-none, Advanced-append, emit_slots-Advanced, first_used-FirstUsed,
}
use flatfs.Readdir.Rest.{bucket_inos, table_inos, skip_buckets-Rest}

-- Every block can be read.
abbrev pub Readable : (ℕ → Option (ℕ → FfsInode)) → Type 0
Readable sb_bread = (n : ℕ) → (block : ℕ → FfsInode) × sb_bread n ≡ some block

module _ (sb_bread : ℕ → Option (ℕ → FfsInode)) (bits dir_id : ℕ) (buckets : ℕ → Bucket) where
  read_block-ok : Readable sb_bread → (n : ℕ) → Returns (read_block sb_bread n) (λ block. Unit {0})
  unfolding read_block
  read_block-ok h n = let (block, e) = h n in (block, rw (e, read_block), tt)

  pub emit_buckets-Advanced :
      (n bkt : ℕ) (r : Reading)
      → Readable sb_bread
      → ((i : ℕ) → bkt ≤ i → i < bkt + n → BucketIsValid (buckets i))
      → Returns
          (emit_buckets sb_bread bits dir_id n bkt buckets r)
          (λ r'. Advanced r r' (table_inos bits dir_id buckets n bkt))
  unfolding emit_buckets table_inos
  emit_buckets-Advanced zero bkt r readable v = (r, refl, Advanced-none r)
  emit_buckets-Advanced (suc n) bkt r readable v =
      let bitmap = (buckets bkt).slot_bitmap in
      let width = (v bkt (omega arith) (omega arith)).width in
      let later : (i : ℕ) → suc bkt ≤ i → i < suc bkt + n → BucketIsValid (buckets i) =
        λ i lo hi. v i (omega arith) (omega arith) in
      let (s, run, used) = first_used-FirstUsed 8 0 bitmap (omega (arith, width)) in
      elim (Bool-cases (s == 8)) [
        | inl e ↦
            let (r', run', a) = emit_buckets-Advanced n (suc bkt) r readable later in
            (r', rw (run, ◌>>=◌, e, emit_buckets) run', rw (used.1 ((==_iff s 8).0 e)) a)
        | inr e ↦
            let (block, got, u) = read_block-ok readable (slot_ino bits dir_id bkt s) in
            let (r1, run1, a1) =
              emit_slots-Advanced bits dir_id bkt 8 0 bitmap block r (omega (arith, width)) in
            let (r', run', a) = emit_buckets-Advanced n (suc bkt) r1 readable later in
            (
              r',
              rw (run, ◌>>=◌, e, emit_buckets, got, run1) run',
              Advanced-append (bucket_inos bits dir_id buckets bkt 8 0)
                  (table_inos bits dir_id buckets n (suc bkt)) a1 a,
            )
      ]

  -- The rest of the bucket at which the reading goes on, if there is such a bucket.
  emit_rest :
      (bkt slt : ℕ) (block : ℕ → FfsInode) (r : Reading)
      → slt ≤ 8
      → (BucketIsValid (buckets bkt) ⊎ (slt ≡ 8))
      → Returns
          (emit_slots bits dir_id bkt
            (slots_per_bucket - slt)
            slt
            (buckets bkt).slot_bitmap
            block
            r)
          (λ r'. Advanced r r' (bucket_inos bits dir_id buckets bkt (8 - slt) slt))
  unfolding emit_slots slots
  emit_rest bkt slt block r bound (inl v) =
      emit_slots-Advanced bits dir_id bkt (8 - slt) slt (buckets bkt).slot_bitmap block r
        (omega (arith, v.width))
  emit_rest bkt slt block r bound (inr e) =
      let none_left : 8 - slt ≡ 0 = omega arith in (r, rw none_left, rw none_left (Advanced-none r))

  Advanced-at : {r r' : Reading} {xs ys : List ℕ} → xs ≡ ys → Advanced r r' xs → Advanced r r' ys
  Advanced-at e h = rw (sym e) h

  resumed :
      (r : Reading)
      → Readable sb_bread
      → TableIsValid (2 ^ bits) buckets
      → (r.table_pos == 0) ≡ false
      → Returns
          (read_files sb_bread bits dir_id buckets r)
          (λ r'. Advanced r r' (drop r.table_pos (table_inos bits dir_id buckets (2 ^ bits) 0)))
  unfolding read_files
  resumed r readable v e =
      let first : 2 ^ bits ≡ 0 → ◌≡◌ {A = ℕ} 0 8 =
        λ z. absurd (omega (arith, z, one-le-pow bits 2)) in
      let ((b, s), skip, h) =
        skip_buckets-Rest bits dir_id buckets r.table_pos (2 ^ bits) 0 0 0 r.table_pos (omega arith)
          (λ i lt. v i (omega arith)) first in
      let (block, got, u) = read_block-ok readable (slot_ino bits dir_id b 0) in
      let here : BucketIsValid (buckets b) ⊎ (s ≡ 8) = elim (Bool-cases (ltb b (2 ^ bits))) [
        | inl lt ↦ inl (v b (ltb→lt b (2 ^ bits) lt))
        | inr ge ↦ inr (h.inside (ground (arith, ge, h.bkt_bound)))
      ] in
      let (r1, run1, a1) = emit_rest b s block r h.slt_bound here in
      let (r2, run2, a2) =
        emit_buckets-Advanced (2 ^ bits - suc b) (suc b) r1 readable
          (λ i lo hi. v i (omega (arith, h.bkt_bound))) in
      let rounds : 0 + 2 ^ bits - suc b ≡ 2 ^ bits - suc b = omega arith in
      (
        r2,
        rw (e, read_files, skip, ◌>>=◌, got, run1) run2,
        Advanced-at
            (sym (
              h.rest
              ∙ ap
                  (λ n.
                    bucket_inos bits dir_id buckets b (8 - s) s
                    ++ table_inos bits dir_id buckets n (suc b))
                  rounds))
            (Advanced-append (bucket_inos bits dir_id buckets b (8 - s) s)
              (table_inos bits dir_id buckets (2 ^ bits - suc b) (suc b)) a1 a2),
      )

  pub read_files-Advanced :
      (r : Reading)
      → Readable sb_bread
      → TableIsValid (2 ^ bits) buckets
      → Returns
          (read_files sb_bread bits dir_id buckets r)
          (λ r'. Advanced r r' (drop r.table_pos (table_inos bits dir_id buckets (2 ^ bits) 0)))
  unfolding read_files
  read_files-Advanced r readable v = elim (Bool-cases (r.table_pos == 0)) [
    | inl e ↦
        let start : r.table_pos ≡ 0 = (==_iff r.table_pos 0).0 e in
        let (r', run, a) =
          emit_buckets-Advanced (2 ^ bits) 0 r readable (λ i lo hi. v i (omega arith)) in
        (
          r',
          rw (e, read_files) run,
          Advanced-at (sym (ap (λ k. drop k (table_inos bits dir_id buckets (2 ^ bits) 0)) start))
              a,
        )
    | inr e ↦ resumed r readable v e
  ]

-- A table is read from its position on: with its buckets valid and every block to be read,
-- read_dir_files returns, has emitted the inode numbers of the used slots behind the first `pos` of
-- them, in the order of bucket and slot, and moves both positions by as many; the slots stay.
pub read_dir_files-Advanced :
    (sb_bread : ℕ → Option (ℕ → FfsInode)) (ht : HashTable) (ino : ℕ) (before : List DirEnt)
    (ctx_pos : ℕ)
    → Readable sb_bread
    → TableIsValid (2 ^ 12) ht.buckets
    → Returns (read_dir_files sb_bread ht ino before ctx_pos) (λ (ht', r).
      Advanced
        (record { emitted = before; ctx_pos = ctx_pos; table_pos = ht.pos })
        r
        (drop ht.pos (table_inos 12 (inode_to_dir_id ino) ht.buckets (2 ^ 12) 0))
      × (ht'.pos ≡ r.table_pos)
      × (ht'.buckets ≡ ht.buckets))
unfolding read_dir_files
read_dir_files-Advanced sb_bread ht ino before ctx_pos readable v =
    let (r, run, a) =
      read_files-Advanced sb_bread 12 (inode_to_dir_id ino) ht.buckets
        (record { emitted = before; ctx_pos = ctx_pos; table_pos = ht.pos }) readable v in
    ((record ht { pos = r.table_pos }, r), rw (run, ◌>>=◌), (a, refl, refl))

-- The same for the table of an expansion area.
pub read_big_dir_files-Advanced :
    (sb_bread : ℕ → Option (ℕ → FfsInode)) (ht : BigDirHashTable) (ino : ℕ) (before : List DirEnt)
    (ctx_pos : ℕ)
    → Readable sb_bread
    → TableIsValid (2 ^ 18) ht.buckets
    → Returns (read_big_dir_files sb_bread ht ino before ctx_pos) (λ (ht', r).
      Advanced
        (record { emitted = before; ctx_pos = ctx_pos; table_pos = ht.pos })
        r
        (drop ht.pos (table_inos 18 (inode_to_dir_id ino) ht.buckets (2 ^ 18) 0))
      × (ht'.pos ≡ r.table_pos)
      × (ht'.buckets ≡ ht.buckets))
unfolding read_big_dir_files
read_big_dir_files-Advanced sb_bread ht ino before ctx_pos readable v =
    let (r, run, a) =
      read_files-Advanced sb_bread 18 (inode_to_dir_id ino) ht.buckets
        (record { emitted = before; ctx_pos = ctx_pos; table_pos = ht.pos }) readable v in
    ((record ht { pos = r.table_pos }, r), rw (run, ◌>>=◌), (a, refl, refl))
