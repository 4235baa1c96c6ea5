-- ===== src/Table/Refines.antt =====
-- The hash table of flatfs/lba.c and the promise of Table/Calls.
use flatfs.Common.{
  ℕ, zero, suc, ◌+◌, ◌*◌, ◌/◌, ◌^◌, ◌<◌, ◌≡◌, ◌≢◌, ◌⊎◌, inl, inr, refl, sym, ◌∙◌, ap, List, [], ◌∷◌,
  Option, some, none, pos, update, u64_max, Bool, true, false, ◌&&◌, Bool-cases, ◌==◌, ==_iff, Run,
  ok, ◌>>=◌, Returns, arith, get_or,
}
use flatfs.Name.{bucket_of, bucket_of-bounds}
use flatfs.Bitmap.{used, used-le}
use flatfs.Table.{Bucket, HashTable, insert_file, delete_file, locked}
use flatfs.Table.Buckets.{holds, locked-BucketIsValid}
use flatfs.Table.Insert.{
  TableIsValid, SlotWritten, insert_file-Inserted, insert_file-full, update-TableIsValid,
}
use flatfs.Table.Delete.{delete_file-Deleted, delete_file-free}
use flatfs.Table.Calls.{
  Files, Call, insert, delete, InTable, AllInTable, Step, inserted, full, deleted, missing, Steps,
  done, step, call, calls,
}

-- A slot is taken where a file has its number, and a file stands in the bucket of its name.
abbrev is_some : Option (List ℕ) → Bool
is_some none = false
is_some (some name) = true

pub record Represents (buckets : ℕ → Bucket) (files : Files) : Type 0 where
  pub valid : TableIsValid (2 ^ 12) buckets
  pub slots : (b s : ℕ) → b < 2 ^ 12 → s < 8 → holds (buckets b) s ≡ is_some (files (b * 8 + s))
  pub bucketed : (n : ℕ) (name : List ℕ) → files n ≡ some name → n / 8 ≡ bucket_of name

-- The number of a slot leads to its bucket and slot.
number_lem : (b s c t : ℕ) → s < 8 → t < 8 → (b * 8 + s == c * 8 + t) ≡ (b == c && s == t)
number_lem b s c t hs ht = ground arith

-- A write of one slot, by the table and by its files.
slots_written :
    (old new : ℕ → Bucket) (files : Files) (b s : ℕ) (v : Bool) (file : Option (List ℕ))
    → is_some file ≡ v
    → s < 8
    → SlotWritten old new b s v
    → ((i j : ℕ) → i < 2 ^ 12 → j < 8 → holds (old i) j ≡ is_some (files (i * 8 + j)))
    → (i j : ℕ) → i < 2 ^ 12
    → j < 8
    → holds (new i) j ≡ is_some (update files (b * 8 + s) file (i * 8 + j))
slots_written old new files b s v file e hs w h i j hi hj = elim (Bool-cases (i == b && j == s)) [
  | inl t ↦ w i j ∙ rw (t, number_lem i j b s hj hs, t) (sym e)
  | inr t ↦ w i j ∙ rw (t, number_lem i j b s hj hs, t) (h i j hi hj)
]

named_written :
    {files : Files} (k : ℕ) (file : Option (List ℕ))
    → ((name : List ℕ) → file ≡ some name → k / 8 ≡ bucket_of name)
    → ((n : ℕ) (name : List ℕ) → files n ≡ some name → n / 8 ≡ bucket_of name)
    → (n : ℕ) (name : List ℕ) → update files k file n ≡ some name
    → n / 8 ≡ bucket_of name
named_written {files} k file new h n name e = elim (Bool-cases (n == k)) [
  | inl t ↦ let same : n ≡ k = (==_iff n k).0 t in ap (λ m. m / 8) same ∙ new name (rw t at e)
  | inr t ↦ h n name (rw t at e)
]

written :
    (old new : ℕ → Bucket) (files : Files) (b s : ℕ) (v : Bool) (file : Option (List ℕ))
    → is_some file ≡ v
    → s < 8
    → SlotWritten old new b s v
    → TableIsValid (2 ^ 12) new
    → ((name : List ℕ) → file ≡ some name → (b * 8 + s) / 8 ≡ bucket_of name)
    → Represents old files
    → Represents new (update files (b * 8 + s) file)
written old new files b s v file e hs w valid name r = record {
  valid = valid;
  slots = slots_written old new files b s v file e hs w r.slots;
  bucketed = named_written (b * 8 + s) file name r.bucketed;
}

some_inj : {x y : List ℕ} → some x ≡ some y → x ≡ y
some_inj e = cc

none-some : {x : List ℕ} → none ≢ some x
none-some e = cc

-- A lock that is taken changes no slot.
locked-Represents :
    {buckets : ℕ → Bucket} {files : Files} (k : ℕ) (held : Bool)
    → k < 2 ^ 12
    → Represents buckets files
    → Represents (update buckets k (locked (buckets k) held)) files
locked-Represents {buckets} {files} k held hk r = record {
  valid =
      update-TableIsValid (2 ^ 12) buckets k r.valid
        (locked-BucketIsValid (buckets k) held (r.valid k hk));
  slots = λ i j hi hj. elim (Bool-cases (i == k)) [
    | inl e ↦ rw e (ap (λ x. holds (buckets x) j) (sym ((==_iff i k).0 e)) ∙ r.slots i j hi hj)
    | inr e ↦ rw e (r.slots i j hi hj)
  ];
  bucketed = r.bucketed;
}

used_full :
    (n : ℕ) (bits : List Bool) → used n bits ≡ n → (i : ℕ) → i < n → get_or bits i false ≡ true
unfolding used
used_full zero bits h i lt = absurd (omega arith)
used_full (suc n) [] h i lt = absurd (omega arith)
used_full (suc n) (true ∷ bits) h zero lt = refl
used_full (suc n) (true ∷ bits) h (suc i) lt = used_full n bits (omega arith) i (omega arith)
used_full (suc n) (false ∷ bits) h i lt = absurd (omega (arith, h, used-le n bits))

is_some-none : (file : Option (List ℕ)) → is_some file ≡ true → file ≢ none
is_some-none none h e = cc
is_some-none (some name) h e = cc

file_cases : (file : Option (List ℕ)) → (file ≡ none) ⊎ ((name : List ℕ) × file ≡ some name)
file_cases none = inl refl
file_cases (some name) = inr (name, refl)

is_some-false : (file : Option (List ℕ)) → false ≡ is_some file → file ≡ none
is_some-false none h = refl
is_some-false (some name) h = absurd cc

-- A kernel on which every lock is had: nothing else holds it, as on one processor.
module _ (spin_lock : Bool → Run Bool)
    (had : (held : Bool) → (held' : Bool) × (spin_lock held ≡ ok held')) where
  insert-Step :
      (ht : HashTable) (files : Files) (name : List ℕ)
      → Represents ht.buckets files
      → Returns (insert_file spin_lock ht name) (λ (ht', n).
        (files' : Files) × Step files (insert name) n files' × Represents ht'.buckets files')
  insert-Step ht files name r =
      let k = bucket_of name in
      let bound = (bucket_of-bounds name).0 in
      let v = r.valid k bound in
      let (held, lock) = had (ht.buckets k).bkt_lock in
      elim (Bool-cases ((ht.buckets k).valid_slot_count == 8)) [
        | inl e ↦
            let eight : (ht.buckets k).valid_slot_count ≡ 8 = (==_iff _ 8).0 e in
            (
              (record ht { buckets = update ht.buckets k (locked (ht.buckets k) held) }, u64_max),
              insert_file-full spin_lock ht name r.valid lock eight,
              (
                files,
                full (λ s hs. is_some-none (files (k * 8 + s)) (
                    sym (r.slots k s bound hs)
                    ∙ used_full 8 (ht.buckets k).slot_bitmap (sym v.counted ∙ eight) s hs)),
                locked-Represents k held bound r,
              ),
            )
        | inr e ↦
            let few = used-le 8 (ht.buckets k).slot_bitmap in
            let room : (ht.buckets k).valid_slot_count < 8 = ground (arith, e, few, v.counted) in
            let ((ht', n), run, i) = insert_file-Inserted spin_lock ht name r.valid lock room in
            let free : files n ≡ none =
              ap files i.seg_lem
              ∙ is_some-false (files (k * 8 + i.slot))
                  (sym i.was_free ∙ r.slots k i.slot bound i.slot_fits) in
            let bucket : n / 8 ≡ k = omega (arith, i.seg_lem, i.slot_fits) in
            (
              (ht', n),
              run,
              (
                update files n (some name),
                inserted bucket free,
                rw i.seg_lem (
                    written ht.buckets ht'.buckets files k i.slot true (some name) refl i.slot_fits
                      i.slots i.valid
                      (λ m e. omega (arith, i.slot_fits) ∙ ap bucket_of (some_inj e)) r),
              ),
            )
      ]

  delete-Step :
      (ht : HashTable) (files : Files) (b s : ℕ)
      → b < 2 ^ 12
      → s < 8
      → Represents ht.buckets files
      → Returns (delete_file spin_lock ht (pos b) (pos s)) (λ (ht', n).
        (files' : Files) × Step files (delete b s) n files' × Represents ht'.buckets files')
  delete-Step ht files b s hb hs r =
      let (held, lock) = had (ht.buckets b).bkt_lock in
      elim (file_cases (files (b * 8 + s))) [
        | inl e ↦
            let free : holds (ht.buckets b) s ≡ false = r.slots b s hb hs ∙ ap is_some e in
            (
              (record ht { buckets = update ht.buckets b (locked (ht.buckets b) held) }, 0),
              delete_file-free spin_lock ht b s hb hs r.valid lock free,
              (files, missing e, locked-Represents b held hb r),
            )
        | inr (name, e) ↦
            let taken : holds (ht.buckets b) s ≡ true = r.slots b s hb hs ∙ ap is_some e in
            let ((ht', n), run, (one, d)) =
              delete_file-Deleted spin_lock ht b s hb hs r.valid lock taken in
            (
              (ht', n),
              run,
              (
                update files (b * 8 + s) none,
                rw one (deleted e),
                written ht.buckets ht'.buckets files b s false none refl hs d.slots d.valid
                    (λ m q. absurd (none-some q)) r,
              ),
            )
      ]

  call-Step :
      (ht : HashTable) (files : Files) (c : Call)
      → InTable c
      → Represents ht.buckets files
      → Returns
          (call spin_lock ht c)
          (λ (ht', n). (files' : Files) × Step files c n files' × Represents ht'.buckets files')
  unfolding call
  call-Step ht files (insert name) h r = insert-Step ht files name r
  call-Step ht files (delete b s) (hb, hs) r = delete-Step ht files b s hb hs r

  -- From a table that represents some files, any sequence of insertions and of deletions inside the table returns
  -- on a kernel that gives every lock: the answers are those of a sequence of steps of the promise, which ends
  -- in the files that the last table represents.
  pub calls-Steps :
      (cs : List Call) (ht : HashTable) (files : Files)
      → AllInTable cs
      → Represents ht.buckets files
      → Returns
          (calls spin_lock ht cs)
          (λ (ht', ns). (files' : Files) × Steps files cs ns files' × Represents ht'.buckets files')
  unfolding calls
  calls-Steps [] ht files h r = ((ht, []), refl, (files, done, r))
  calls-Steps (c ∷ cs) ht files (hc, h) r =
      let ((ht1, n), run1, (mid, st, r1)) = call-Step ht files c hc r in
      let ((ht2, ns), run2, (last, sts, r2)) = calls-Steps cs ht1 mid h r1 in
      ((ht2, n ∷ ns), rw (run1, ◌>>=◌, run2) refl, (last, step st sts, r2))
