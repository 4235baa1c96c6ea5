-- ===== src/Cuckoo/Rehash.antt =====
-- The loops of `cuckoo_resize` over the old table.
use flatfs.Common.{
  ℕ, zero, suc, ◌+◌, ◌*◌, ◌/◌, ◌%◌, ◌<◌, ◌≤◌, ◌≡◌, ◌⊎◌, refl, sym, ◌∙◌, List, length, set,
  length-set, get_or-set_self, Bool, true, false, Option, some, none, Run, ok, ◌>>=◌, ◌==◌,
  Bool-cases, inl, inr, arith,
}
use flatfs.Name.{str_eq, c_str, same_bytes, same_bytes_self}
use flatfs.Cuckoo.{Entry, empty_slot, CuckooHash, invalid, f_hash, s_hash, key_at, same_key}
use flatfs.Cuckoo.Resize.{rehash_entry, rehash_slots, rehash_buckets}
use flatfs.Cuckoo.Inv.{IsCuckoo, idx-Returns, key_at-Returns}
use flatfs.Cuckoo.Paths.{in_table}
use flatfs.Cuckoo.Search.{same_key-inside}
use flatfs.Cuckoo.Strings.{KeysEnd, key_ends, same_key-ok}
use flatfs.Cuckoo.Sound.{Unique, home_lem, bytes_equal}
use flatfs.Cuckoo.Housed.{Housed, Housed-later, Housed-set}
use flatfs.Cuckoo.Keep.{
  slot_at, entry_at-ok, Used, Used-same, Grows, Grows-self, Grows-trans, Grows-set,
  new_position-free,
}

-- An entry that is not free stands somewhere in the table.
abbrev pub Holds : List Entry → Entry → Type 0
Holds t e = Used e → (q : ℕ) × (q < length t) × (slot_at t q ≡ e)

Holds-Grows : {t t' : List Entry} {e : Entry} → Grows t t' → Holds t e → Holds t' e
Holds-Grows {t} g h u =
    let (q, l, same) = h u in (q, rw g.size l, g.stays q l (Used-same same u) ∙ same)

-- The key that is read at a position is free where the slot is.
key_lem :
    (table : List Entry) (p : ℕ) (key : List ℕ)
    → KeysEnd table
    → p < length table
    → key_at table p ≡ ok key
    → str_eq key invalid ≡ str_eq (slot_at table p).key invalid
unfolding same_key
key_lem table p key v h run =
    let e : ok (str_eq key invalid) ≡ ok (str_eq (slot_at table p).key invalid) =
      rw run at (same_key-ok table p invalid v h) in
    cc

pub string_lem :
    (table : List Entry) (p : ℕ) (key : List ℕ)
    → KeysEnd table
    → p < length table
    → key_at table p ≡ ok key
    → c_str key ≡ c_str (slot_at table p).key
unfolding same_key
string_lem table p key v h run =
    let self : same_bytes (c_str key) (c_str key) ≡ true = same_bytes_self (c_str key) in
    let e : ok (same_bytes (c_str key) (c_str key)) ≡ ok (str_eq (slot_at table p).key key) =
      rw run at (same_key-ok table p key v h) in
    sym (bytes_equal (c_str (slot_at table p).key) (c_str key) cc)

-- What the copy of the old slots from `k` to `m` leaves: nothing, or a table that has grown by them, in
-- order where the old table is.
abbrev pub Copied :
    CuckooHash → ℕ → ℕ → ℕ → List Entry → (List Entry → Type 0) → Run (Option (List Entry)) → Type 0
Copied c n k m t has run =
    (run ≡ ok none)
    ⊎ ((t' : List Entry) × (run ≡ ok (some t'))
        × Grows t t'
        × (Unique c.table → Housed c n k t → Housed c n m t')
        × has t')

module _ (c : CuckooHash) (v : IsCuckoo c) (keys : KeysEnd c.table) (n : ℕ) (some_new : 0 < n) where
  rehash_entry-Copied :
      (cur j : ℕ) (t : List Entry)
      → cur < c.capacity
      → j < 4
      → length t ≡ n * 4
      → KeysEnd t
      → Copied c n
          (cur * 4 + j)
          (cur * 4 + suc j)
          t
          (λ t'. Holds t' (slot_at c.table (cur * 4 + j)))
          (rehash_entry c n cur j t)
  unfolding rehash_entry
  rehash_entry-Copied cur j t hc hj size ends =
      let p = cur * 4 + j in
      let inside : p < length c.table = in_table c.capacity cur j hc hj v.size in
      let (key, read, u) = key_at-Returns c.table keys p inside in
      let same = key_lem c.table p key keys inside read in
      let string : c_str key ≡ c_str (slot_at c.table p).key =
        string_lem c.table p key keys inside read in
      let (f, f2, fb) = idx-Returns (f_hash c key) n some_new in
      let (s1, s, sb) = idx-Returns (s_hash c key) n some_new in
      let (fo, fo2, fob) = idx-Returns (f_hash c key) c.capacity v.some_buckets in
      let (so1, so, sob) = idx-Returns (s_hash c key) c.capacity v.some_buckets in
      let e = slot_at c.table p in
      elim (Bool-cases (str_eq key invalid)) [
        | inl free ↦ inr (
          t,
          rw (read, ◌>>=◌, free) refl,
          Grows-self t ends,
          λ old. Housed-later c n p (cur * 4 + suc j) t (omega arith),
          λ used. absurd (clash (sym same ∙ free) used),
        )
        | inr used ↦
            elim (new_position-free t n cur (f_hash c key % n) (s_hash c key % n)
              (f_hash c key % c.capacity) (s_hash c key % c.capacity) size ends fb sb) [
                | inl full ↦ inl (rw (read, ◌>>=◌, used, f, s, fo, so, full) refl)
                | inr (q, found, free, home) ↦
                    let l = same_key-inside t q invalid true free in
                    let g = Grows-set t q e ends free (key_ends c.table p keys inside) in
                    inr (
                      set t q e,
                      rw (read, ◌>>=◌, used, f, s, fo, so, found, entry_at-ok c.table p inside)
                          refl,
                      g,
                      λ old h.
                          let next : cur * 4 + suc j ≡ suc p = omega arith in
                          rw next (
                            Housed-set c n p t q h old inside l
                              (λ u. home_lem c n key e.key q string home)),
                      λ w. (q, rw length-set l, get_or-set_self t q e empty_slot l),
                    )
              ]
      ]
    where
      clash : {b : Bool} → b ≡ true → b ≡ false → ⊥
      clash a b = cc

  rehash_slots-Copied :
      (cur m j : ℕ) (t : List Entry)
      → cur < c.capacity
      → j + m ≡ 4
      → length t ≡ n * 4
      → KeysEnd t
      → Copied c n
          (cur * 4 + j)
          (cur * 4 + 4)
          t
          (λ t'. (i : ℕ) → j ≤ i → i < 4 → Holds t' (slot_at c.table (cur * 4 + i)))
          (rehash_slots c n cur m j t)
  unfolding rehash_slots
  rehash_slots-Copied cur zero j t hc e size ends = inr (
    t,
    refl,
    Grows-self t ends,
    λ old h. Housed-later c n _ _ t (omega arith) h,
    λ i lo hi. absurd (omega arith),
  )
  rehash_slots-Copied cur (suc m) j t hc e size ends =
      elim (rehash_entry-Copied cur j t hc (omega arith) size ends) [
        | inl full ↦ inl (rw full refl)
        | inr (t1, run1, g1, k1, here) ↦
            elim (rehash_slots-Copied cur m (suc j) t1 hc (omega arith) (g1.size ∙ size) g1.keys) [
              | inl full ↦ inl (rw (run1, ◌>>=◌) full)
              | inr (t2, run2, g2, k2, rest) ↦ inr (
                t2,
                rw (run1, ◌>>=◌) run2,
                Grows-trans g1 g2,
                λ old h. k2 old (k1 old h),
                λ i lo hi. elim (Bool-cases (i == j)) [
                  | inl same ↦ let k : i ≡ j = ground (arith, same) in rw k (Holds-Grows g2 here)
                  | inr other ↦ rest i (ground (arith, other, lo)) hi
                ],
              )
            ]
      ]

  rehash_buckets-Copied :
      (m cur : ℕ) (t : List Entry)
      → cur + m ≡ c.capacity
      → length t ≡ n * 4
      → KeysEnd t
      → Copied c n
          (cur * 4)
          (c.capacity * 4)
          t
          (λ t'.
            (b i : ℕ) → cur ≤ b → b < c.capacity → i < 4 → Holds t' (slot_at c.table (b * 4 + i)))
          (rehash_buckets c n m cur t)
  unfolding rehash_buckets
  rehash_buckets-Copied zero cur t e size ends = inr (
    t,
    refl,
    Grows-self t ends,
    λ old h. Housed-later c n _ _ t (omega arith) h,
    λ b i lo hi l. absurd (omega arith),
  )
  rehash_buckets-Copied (suc m) cur t e size ends =
      elim (rehash_slots-Copied cur 4 0 t (omega arith) refl size ends) [
        | inl full ↦ inl (rw full refl)
        | inr (t1, run1, g1, k1, here) ↦
            elim (rehash_buckets-Copied m (suc cur) t1 (omega arith) (g1.size ∙ size) g1.keys) [
              | inl full ↦ inl (rw (run1, ◌>>=◌) full)
              | inr (t2, run2, g2, k2, rest) ↦ inr (
                t2,
                rw (run1, ◌>>=◌) run2,
                Grows-trans g1 g2,
                λ old h.
                    let first : cur * 4 + 0 ≡ cur * 4 = omega arith in
                    let last : cur * 4 + 4 ≡ suc cur * 4 = omega arith in
                    k2 old (rw (sym last) (k1 old (rw first h))),
                λ b i lo hi l. elim (Bool-cases (b == cur)) [
                  | inl same ↦
                      let k : b ≡ cur = ground (arith, same) in
                      rw k (Holds-Grows g2 (here i (omega arith) l))
                  | inr other ↦ rest b i (ground (arith, other, lo)) hi l
                ],
              )
            ]
      ]

  -- The whole table: every position is a slot of a bucket.
  pub rehash-Copied :
      (t : List Entry)
      → length t ≡ n * 4
      → KeysEnd t
      → Copied c n 0
          (c.capacity * 4)
          t
          (λ t'. (p : ℕ) → p < length c.table → Holds t' (slot_at c.table p))
          (rehash_buckets c n c.capacity 0 t)
  rehash-Copied t size ends = elim (rehash_buckets-Copied c.capacity 0 t (omega arith) size ends) [
    | inl full ↦ inl full
    | inr (t', run, g, kept, all) ↦ inr (
      t',
      run,
      g,
      kept,
      λ p l.
          let split : p / 4 * 4 + p % 4 ≡ p = omega arith in
          rw (sym split) (all (p / 4) (p % 4) (omega arith) (omega (arith, v.size)) (omega arith)),
    )
  ]
