-- ===== src/Readdir/Rest.antt =====
-- What is left of a table behind the files that `read_dir_files` has passed: the loop `skip_buckets`
-- stops at its first bucket and slot.
use flatfs.Common.{
  ℕ, zero, suc, ◌+◌, ◌-◌, ◌%◌, ◌^◌, ◌≤◌, ◌≡◌, refl, sym, ◌∙◌, List, [], ◌++◌, map, true, false,
  length, drop, drop-nil, drop-append, drop-append_past, drop-map, length-map, ◌>>=◌, Returns,
  arith, leb,
}
use flatfs.Table.{Bucket}
use flatfs.Table.Insert.{TableIsValid}
use flatfs.Readdir.{slot_ino, skip_buckets}
use flatfs.Readdir.Slots.{slots}
use flatfs.Readdir.Skip.{Stopped, skip_slots-Stopped}

module _ (bits dir_id : ℕ) (buckets : ℕ → Bucket) where
  -- The numbers of the used slots of a bucket, from a slot on, and of `n` buckets from a bucket on.
  abbrev pub bucket_inos : ℕ → ℕ → ℕ → List ℕ
  bucket_inos bkt n slt =
      map (λ s. slot_ino bits dir_id bkt s % 2 ^ 32) (slots n slt (buckets bkt).slot_bitmap)

  unfoldable pub table_inos : ℕ → ℕ → List ℕ
  table_inos zero bkt = []
  table_inos (suc n) bkt = bucket_inos bkt 8 0 ++ table_inos n (suc bkt)

  -- What is left of `n` buckets from a bucket on, behind `k` files, is the rest of the bucket at which the
  -- loop stops, and the buckets after it.
  pub record Rest (n bkt k bkt' slt' : ℕ) : Type 0 where
    pub slt_bound : slt' ≤ 8
    pub bkt_bound : bkt' ≤ bkt + n
    pub inside : bkt' ≡ bkt + n → slt' ≡ 8
    pub rest :
        drop k (table_inos n bkt)
        ≡ bucket_inos bkt' (8 - slt') slt' ++ table_inos (bkt + n - suc bkt') (suc bkt')

  Rest-at : {n bkt j k b s : ℕ} → j ≡ k → Rest n bkt j b s → Rest n bkt k b s
  Rest-at e h = rw (sym e) h

  abbrev ino_at : ℕ → ℕ → ℕ
  ino_at bkt s = slot_ino bits dir_id bkt s % 2 ^ 32

  stop_inside :
      (n bkt k m s : ℕ)
      → s + m ≡ 8
      → k ≤ length (slots 8 0 (buckets bkt).slot_bitmap)
      → drop k (slots 8 0 (buckets bkt).slot_bitmap) ≡ slots m s (buckets bkt).slot_bitmap
      → Rest (suc n) bkt k bkt s
  unfolding table_inos
  stop_inside n bkt k m s e bound d =
      let f = ino_at bkt in
      let used = slots 8 0 (buckets bkt).slot_bitmap in
      let rounds : 8 - s ≡ m = omega arith in
      let more : bkt + suc n - suc bkt ≡ n = omega arith in
      record {
        slt_bound = omega arith;
        bkt_bound = omega arith;
        inside = λ q. absurd (omega arith);
        rest =
            drop-append k (map f used) (table_inos n (suc bkt)) (rw (length-map f used) bound)
            ∙ rw (drop-map f k used, d, rounds, more);
      }

  stop_past :
      (n bkt k bkt' slt' : ℕ)
      → Rest n (suc bkt) k bkt' slt'
      → Rest (suc n) bkt (length (slots 8 0 (buckets bkt).slot_bitmap) + k) bkt' slt'
  unfolding table_inos
  stop_past n bkt k bkt' slt' h =
      let f = ino_at bkt in
      let used = slots 8 0 (buckets bkt).slot_bitmap in
      let last : bkt + suc n ≡ suc bkt + n = omega arith in
      record {
        slt_bound = h.slt_bound;
        bkt_bound = omega (arith, h.bkt_bound);
        inside = λ q. h.inside (omega arith);
        rest =
            rw (last, sym (length-map f used))
              (drop-append_past k (map f used) (table_inos n (suc bkt)) ∙ h.rest);
      }

  pub skip_buckets-Rest :
      (target n bkt slt p k : ℕ)
      → p + k ≡ target
      → TableIsValid (bkt + n) buckets
      → (n ≡ 0 → slt ≡ 8)
      → Returns (skip_buckets target n bkt slt p buckets) (λ (b, s). Rest n bkt k b s)
  unfolding skip_buckets table_inos slots
  skip_buckets-Rest target zero bkt slt p k e v last =
      let eight = last refl in
      let none_left : bkt + 0 - suc bkt ≡ 0 = omega arith in
      (
        (bkt, slt),
        refl,
        record {
          slt_bound = omega arith;
          bkt_bound = omega arith;
          inside = λ q. eight;
          rest = rw (drop-nil k, eight, none_left);
        },
      )
  skip_buckets-Rest target (suc n) bkt slt p k e v last =
      let bitmap = (buckets bkt).slot_bitmap in
      let ((s, q), run, st) =
        skip_slots-Stopped target 8 0 p bitmap (omega arith)
          (omega (arith, (v bkt (omega arith)).width)) in
      elim st [
        | Stopped.inside j m at_target a b c d ↦
            let same : j ≡ k = omega arith in
            let done : leb target q ≡ true = ground (arith, at_target) in
            (
              (bkt, s),
              rw (run, ◌>>=◌, done, skip_buckets),
              Rest-at same (stop_inside n bkt j m s b c d),
            )
        | Stopped.past a b c ↦
            let more : leb target q ≡ false = ground (arith, c) in
            let left = target - q in
            let (r, run', h) =
              skip_buckets-Rest target n (suc bkt) s q left (omega (arith, c))
                (λ i lt. v i (omega arith)) (λ z. omega arith) in
            let same : length (slots 8 0 bitmap) + left ≡ k = omega (arith, b, c) in
            (
              r,
              rw (run, ◌>>=◌, more, skip_buckets) run',
              Rest-at same (stop_past n bkt left r.0 r.1 h),
            )
      ]
