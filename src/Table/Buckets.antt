-- ===== src/Table/Buckets.antt =====
-- One bucket of flatfs/lba.c: the invariant that ties its count to its bitmap, and what taking and
-- freeing a slot does to the set of its slots.
use flatfs.Common.{
  ℕ, ◌≤◌, ◌<◌, ◌≡◌, suc, refl, ◌∙◌, sym, Bool, true, false, ◌==◌, if◌then◌else◌, length, length-set,
  get_or, set, ok, Returns, arith, Bool-cases, inl, inr, replicate, zero, ap, ==_iff,
}
use flatfs.Bitmap.{
  find_first_zero_bit, find_first_zero_bit-FirstZero, bitmap_write-ok, used, used-le, used-set,
  used-clear, get_or-write,
}
use flatfs.Table.{Bucket, write_slot, locked, word_bits, clear_buckets, add_u8}

-- The slot is taken.
abbrev pub holds : Bucket → ℕ → Bool
holds b i = get_or b.slot_bitmap i false

pub record BucketIsValid (b : Bucket) : Type 0 where
  pub width : length b.slot_bitmap ≡ 64
  pub counted : b.valid_slot_count ≡ used 8 b.slot_bitmap
  pub upper : (i : ℕ) → 8 ≤ i → holds b i ≡ false

-- The bucket after a write at one slot: the slots that it holds, and its lock.
pub record Wrote (b : Bucket) (s : ℕ) (v held : Bool) (c : Bucket) : Type 0 where
  pub valid : BucketIsValid c
  pub slots : (j : ℕ) → holds c j ≡ (if j == s then v else holds b j)
  pub lock : c.bkt_lock ≡ held

upper_kept :
    (b : Bucket) (s j : ℕ) (v : Bool)
    → BucketIsValid b
    → s < 8
    → 8 ≤ j
    → (if j == s then v else holds b j) ≡ false
upper_kept b s j v h hs hj = ground (arith, h.upper j hj)

pub write_slot-take :
    (b : Bucket) (held : Bool) (s : ℕ)
    → BucketIsValid b
    → s < 8
    → holds b s ≡ false
    → Returns (write_slot (locked b held) s true 1) (Wrote b s true held)
unfolding write_slot
write_slot-take b held s h hs free =
    let inside : s < length b.slot_bitmap = omega (arith, h.width) in
    (
      record b {
        bkt_lock = held;
        slot_bitmap = set b.slot_bitmap s true;
        valid_slot_count = add_u8 b.valid_slot_count 1;
      },
      rw (bitmap_write-ok b.slot_bitmap s true inside),
      record {
        valid = record {
          width = length-set b.slot_bitmap s true ∙ h.width;
          counted = omega (
            arith,
            h.counted,
            used-set 8 b.slot_bitmap s hs inside free,
            used-le 8 (set b.slot_bitmap s true),
          );
          upper =
              λ j hj. get_or-write b.slot_bitmap s j true inside ∙ upper_kept b s j true h hs hj;
        };
        slots = λ j. get_or-write b.slot_bitmap s j true inside;
        lock = refl;
      },
    )

pub write_slot-free :
    (b : Bucket) (held : Bool) (s : ℕ)
    → BucketIsValid b
    → s < 8
    → holds b s ≡ true
    → Returns (write_slot (locked b held) s false 255) (Wrote b s false held)
unfolding write_slot
write_slot-free b held s h hs taken =
    let inside : s < length b.slot_bitmap = omega (arith, h.width) in
    (
      record b {
        bkt_lock = held;
        slot_bitmap = set b.slot_bitmap s false;
        valid_slot_count = add_u8 b.valid_slot_count 255;
      },
      rw (bitmap_write-ok b.slot_bitmap s false inside),
      record {
        valid = record {
          width = length-set b.slot_bitmap s false ∙ h.width;
          counted = omega (
            arith,
            h.counted,
            used-clear 8 b.slot_bitmap s hs inside taken,
            used-le 8 b.slot_bitmap,
          );
          upper =
              λ j hj. get_or-write b.slot_bitmap s j false inside ∙ upper_kept b s j false h hs hj;
        };
        slots = λ j. get_or-write b.slot_bitmap s j false inside;
        lock = refl;
      },
    )

-- A bucket keeps its invariant when its lock is taken.
pub locked-BucketIsValid :
    (b : Bucket) (held : Bool) → BucketIsValid b → BucketIsValid (locked b held)
locked-BucketIsValid b held h = record { width = h.width; counted = h.counted; upper = h.upper }

pub get_or-replicate : (n i : ℕ) → get_or (replicate n false) i false ≡ false
get_or-replicate zero i = refl
get_or-replicate (suc n) zero = refl
get_or-replicate (suc n) (suc i) = get_or-replicate n i

-- In a valid bucket that is not full the search finds a free slot, and in a full one none.
pub free_slot :
    {b : Bucket}
    → BucketIsValid b
    → b.valid_slot_count < 8
    → Returns (find_first_zero_bit b.slot_bitmap 8) (λ i. (i < 8) × (holds b i ≡ false))
free_slot {b} h room =
    let (i, run, z) = find_first_zero_bit-FirstZero b.slot_bitmap 8 (omega (arith, h.width)) in
    let below : i < 8 = elim (Bool-cases (i == 8)) [
      | inl e ↦ absurd (omega (arith, h.counted, z.full ((==_iff i 8).0 e)))
      | inr e ↦ ground (arith, z.bound)
    ] in
    (i, run, (below, z.clear below))

pub no_free_slot :
    {b : Bucket}
    → BucketIsValid b
    → b.valid_slot_count ≡ 8
    → find_first_zero_bit b.slot_bitmap 8 ≡ ok 8
no_free_slot {b} h full =
    let (i, run, z) = find_first_zero_bit-FirstZero b.slot_bitmap 8 (omega (arith, h.width)) in
    let last : i ≡ 8 = elim (Bool-cases (i == 8)) [
      | inl e ↦ (==_iff i 8).0 e
      | inr e ↦ absurd (omega (arith, h.counted, z.room (ground (arith, z.bound))))
    ] in
    run ∙ ap ok last

-- A bucket that the initialisers have cleared; its lock is as the allocator gave it.
pub record Cleared (mem b : Bucket) : Type 0 where
  pub bitmap : b.slot_bitmap ≡ replicate word_bits false
  pub count : b.valid_slot_count ≡ 0
  pub lock : b.bkt_lock ≡ mem.bkt_lock

clear_buckets-lock :
    (n : ℕ) (mem : ℕ → Bucket) (i : ℕ) → (clear_buckets n mem i).bkt_lock ≡ (mem i).bkt_lock
unfolding clear_buckets
clear_buckets-lock zero mem i = refl
clear_buckets-lock (suc n) mem i =
    ground (arith, clear_buckets-lock n mem i, clear_buckets-lock n mem n)

pub clear_buckets-Cleared :
    (n : ℕ) (mem : ℕ → Bucket) (i : ℕ) → i < n → Cleared (mem i) (clear_buckets n mem i)
unfolding clear_buckets
clear_buckets-Cleared zero mem i h = absurd (omega arith)
clear_buckets-Cleared (suc n) mem i h = elim (Bool-cases (i == n)) [
  | inl e ↦ rw e (record {
    bitmap = refl;
    count = refl;
    lock = clear_buckets-lock n mem n ∙ ap (λ k. (mem k).bkt_lock) (sym ((==_iff i n).0 e));
  })
  | inr e ↦ rw e (clear_buckets-Cleared n mem i (ground arith))
]

pub Cleared-BucketIsValid :
    {mem b : Bucket} → Cleared mem b → BucketIsValid b × ((j : ℕ) → holds b j ≡ false)
unfolding used
Cleared-BucketIsValid h = (
  record {
    width = rw h.bitmap;
    counted = rw (h.bitmap, h.count);
    upper = λ j hj. rw h.bitmap (get_or-replicate 64 j);
  },
  λ j. rw h.bitmap (get_or-replicate 64 j),
)
