-- ===== src/Cuckoo/Search.antt =====
-- The search of two buckets: what it has seen where it finds nothing, and what it finds where one slot
-- has been written.
use flatfs.Common.{
  ℕ, zero, suc, ◌+◌, ◌*◌, ◌/◌, ◌≤◌, ◌<◌, ◌≡◌, ◌≢◌, refl, sym, ◌∙◌, ap, List, length, Bool, true,
  false, Option, some, none, ◌⊎◌, inl, inr, Run, ok, fault, out_of_bounds, ltb, ltb→lt, ◌>>=◌, ◌==◌,
  Bool-cases, arith,
}
use flatfs.Cuckoo.{
  Entry, key_at, slots_from, same_key, either_slot, bucket_slot, assoc_num, invalid,
}

-- A test of a search that finds nothing has failed.
pub missed :
    {rest : Run (Option ℕ)} (r : Run Bool) (p : ℕ)
    → (r >>= λ t. elim t [ true ↦ ok (some p) | false ↦ rest ]) ≡ ok none
    → (r ≡ ok false) × (rest ≡ ok none)
missed (fault e) p h = absurd cc
missed (ok true) p h = absurd cc
missed (ok false) p h = (refl, h)

-- A search that finds a slot finds it at its first test or behind it.
pub found :
    {rest : Run (Option ℕ)} (r : Run Bool) (p q : ℕ)
    → (r >>= λ t. elim t [ true ↦ ok (some p) | false ↦ rest ]) ≡ ok (some q)
    → ((p ≡ q) × (r ≡ ok true)) ⊎ (rest ≡ ok (some q))
found (fault e) p q h = absurd cc
found (ok true) p q h = inl (cc, refl)
found (ok false) p q h = inr h

behind :
    {rest : Run (Option ℕ)} (r : Run Bool) {p q : ℕ}
    → p ≢ q
    → (r >>= λ t. elim t [ true ↦ ok (some p) | false ↦ rest ]) ≡ ok (some q)
    → rest ≡ ok (some q)
behind {rest} r {p} {q} ne h = elim (found r p q h) [ inl e ↦ absurd (ne e.0) | inr e ↦ e ]

-- A test that holds at `q` and fails elsewhere ends the search at `q`.
tested :
    {rest : Run (Option ℕ)} (r : Run Bool) (p q : ℕ)
    → (p ≡ q → r ≡ ok true)
    → (p ≢ q → r ≡ ok false)
    → (p ≢ q → rest ≡ ok (some q))
    → (r >>= λ t. elim t [ true ↦ ok (some p) | false ↦ rest ]) ≡ ok (some q)
tested r p q hit miss rest = elim (Bool-cases (p == q)) [
  | inl e ↦ let e1 : p ≡ q = ground (arith, e) in rw (hit e1, e1)
  | inr e ↦ let ne : p ≢ q = ground (arith, e) in rw (miss ne, rest ne)
]

module _ (table new : List Entry) (key : List ℕ) (p : ℕ) (hit : same_key new p key ≡ ok true)
    (same : (q : ℕ) → q ≢ p → same_key new q key ≡ same_key table q key) where
  -- A key that the search did not find is found in the free slot that it is put into.
  pub either_slot-put :
      (f s n i : ℕ)
      → either_slot table key f s n i ≡ ok none
      → either_slot table invalid f s n i ≡ ok (some p)
      → either_slot new key f s n i ≡ ok (some p)
  unfolding either_slot
  either_slot-put f s zero i h free = absurd cc
  either_slot-put f s (suc n) i h free =
      let (first, h1) = missed (same_key table (f * assoc_num + i) key) (f * assoc_num + i) h in
      let (second, h2) = missed (same_key table (s * assoc_num + i) key) (s * assoc_num + i) h1 in
      tested (same_key new (f * assoc_num + i) key) (f * assoc_num + i) p
        (λ e. ap (λ x. same_key new x key) e ∙ hit) (λ ne. same (f * assoc_num + i) ne ∙ first)
        (λ ne1.
          tested (same_key new (s * assoc_num + i) key) (s * assoc_num + i) p
            (λ e. ap (λ x. same_key new x key) e ∙ hit) (λ ne. same (s * assoc_num + i) ne ∙ second)
            (λ ne2. either_slot-put f s n (suc i) h2 (
              behind (same_key table (s * assoc_num + i) invalid) ne2
                (behind (same_key table (f * assoc_num + i) invalid) ne1 free))))

-- A slot that the search finds is inside the table.
pub same_key-inside :
    (table : List Entry) (p : ℕ) (key : List ℕ) (b : Bool)
    → same_key table p key ≡ ok b
    → p < length table
unfolding same_key key_at slots_from
same_key-inside table p key b h = elim (Bool-cases (ltb p (length table))) [
  | inl e ↦ ltb→lt p (length table) e
  | inr e ↦ absurd (out (rw e at h))
]
  where
    out : (fault out_of_bounds) ≡ ok b → ⊥
    out e = cc

pub either_slot-hit :
    (table : List Entry) (key : List ℕ) (f s n i p : ℕ)
    → either_slot table key f s n i ≡ ok (some p)
    → same_key table p key ≡ ok true
unfolding either_slot
either_slot-hit table key f s zero i p h = absurd cc
either_slot-hit table key f s (suc n) i p h =
    elim (found (same_key table (f * assoc_num + i) key) (f * assoc_num + i) p h) [
      | inl (e, t) ↦ rw (sym e) t
      | inr h1 ↦ elim (found (same_key table (s * assoc_num + i) key) (s * assoc_num + i) p h1) [
        | inl (e, t) ↦ rw (sym e) t
        | inr h2 ↦ either_slot-hit table key f s n (suc i) p h2
      ]
    ]

pub either_slot-inside :
    (table : List Entry) (key : List ℕ) (f s n i p : ℕ)
    → either_slot table key f s n i ≡ ok (some p)
    → p < length table
either_slot-inside table key f s n i p h =
    same_key-inside table p key true (either_slot-hit table key f s n i p h)

pub bucket_slot-hit :
    (table : List Entry) (key : List ℕ) (b n i j : ℕ)
    → bucket_slot table key b n i ≡ ok (some j)
    → same_key table (b * 4 + j) key ≡ ok true
unfolding bucket_slot
bucket_slot-hit table key b zero i j h = absurd cc
bucket_slot-hit table key b (suc n) i j h =
    elim (found (same_key table (b * assoc_num + i) key) i j h) [
      | inl (e, t) ↦ rw (sym e) t
      | inr h1 ↦ bucket_slot-hit table key b n (suc i) j h1
    ]

-- The position that the search finds is in one of the two buckets.
pub either_slot-home :
    (table : List Entry) (key : List ℕ) (f s n i p : ℕ)
    → i + n ≤ 4
    → either_slot table key f s n i ≡ ok (some p)
    → (p / 4 ≡ f) ⊎ (p / 4 ≡ s)
unfolding either_slot
either_slot-home table key f s zero i p l h = absurd cc
either_slot-home table key f s (suc n) i p l h =
    elim (found (same_key table (f * assoc_num + i) key) (f * assoc_num + i) p h) [
      | inl (e, t) ↦ inl (omega arith)
      | inr h1 ↦ elim (found (same_key table (s * assoc_num + i) key) (s * assoc_num + i) p h1) [
        | inl (e, t) ↦ inr (omega arith)
        | inr h2 ↦ either_slot-home table key f s n (suc i) p (omega arith) h2
      ]
    ]
