-- ===== src/Cuckoo/Housed.antt =====
-- The new table of `cuckoo_resize` of flatfs/cuckoo_hash.c while the first `k` slots of the old one are copied.
use flatfs.Common.{
  ℕ, suc, ◌<◌, ◌≤◌, ◌≡◌, ◌≢◌, ◌⊎◌, inl, inr, refl, sym, ◌∙◌, ap, List, length, set, length-set,
  get_or-set_self, get_or-set_ne, Bool-cases, ◌==◌, ==_iff, arith,
}
use flatfs.Name.{c_str}
use flatfs.Cuckoo.{Entry, empty_slot, CuckooHash, zero_table}
use flatfs.Cuckoo.Strings.{zero_table-free}
use flatfs.Cuckoo.Keep.{slot_at, Used}
use flatfs.Cuckoo.Sound.{Home, Homed, Unique, Used-c_str}

pub record Housed (c : CuckooHash) (n k : ℕ) (t : List Entry) : Type 0 where
  pub homed : Homed c n t
  pub sources :
      (q : ℕ)
      → q < length t
      → Used (slot_at t q)
      → (p : ℕ) × (p < k) × (slot_at c.table p ≡ slot_at t q)
  pub unique : Unique t

pub Housed-later :
    (c : CuckooHash) (n k m : ℕ) (t : List Entry) → k ≤ m → Housed c n k t → Housed c n m t
Housed-later c n k m t l h = record {
  homed = h.homed;
  sources = λ q i u. let (p, b, e) = h.sources q i u in (p, omega arith, e);
  unique = h.unique;
}

pub zero_table-Housed : (c : CuckooHash) (n m : ℕ) → Housed c n 0 (zero_table m)
zero_table-Housed c n m = record {
  homed = λ q l u. absurd (free q u);
  sources = λ q l u. absurd (free q u);
  unique = λ p q lp lq u e. absurd (free p u);
}
  where
    free : (q : ℕ) → Used (slot_at (zero_table m) q) → ⊥
    free q u = zero_table-free m q u

-- A slot of a table that was written is the one that was written or it is as before.
pub slot_at-set :
    (t : List Entry) (q : ℕ) (e : Entry) (j : ℕ)
    → q < length t
    → ((j ≡ q) × (slot_at (set t q e) j ≡ e)) ⊎ ((j ≢ q) × (slot_at (set t q e) j ≡ slot_at t j))
slot_at-set t q e j l = elim (Bool-cases (j == q)) [
  | inl b ↦
      let k : j ≡ q = (==_iff j q).0 b in
      inl (k, ap (slot_at (set t q e)) k ∙ get_or-set_self t q e empty_slot l)
  | inr b ↦
      let ne : j ≢ q = ground (arith, b) in
      inr (ne, get_or-set_ne t q j e empty_slot (λ s. ne (sym s)))
]

-- Where each slot of a written table is either the new one or an old one, a property of slots holds
-- of all if it holds of both.
pub written_cases {ℓ} :
    (P : ℕ → Entry → Type ℓ) (t : List Entry) (q : ℕ) (e : Entry)
    → q < length t
    → P q e
    → ((j : ℕ) → j < length t → j ≢ q → P j (slot_at t j))
    → (j : ℕ) → j < length (set t q e)
    → P j (slot_at (set t q e) j)
written_cases P t q e l new old j lj = elim (slot_at-set t q e j l) [
  | inl (k, same) ↦ rw (same, k) new
  | inr (ne, same) ↦ rw same (old j (rw (sym (length-set t q e)) lj) ne)
]

-- Keys stay unique where a key is written that no other slot has.
pub Unique-set :
    (t : List Entry) (q : ℕ) (e : Entry)
    → q < length t
    → ((j : ℕ) → j < length t → j ≢ q → Used (slot_at t j) → c_str (slot_at t j).key ≢ c_str e.key)
    → ((i j : ℕ)
        → i < length t
        → j < length t
        → i ≢ q
        → j ≢ q
        → Used (slot_at t i)
        → c_str (slot_at t i).key ≡ c_str (slot_at t j).key
        → i ≡ j)
    → Unique (set t q e)
Unique-set t q e l other old i j li lj =
    written_cases (λ i x. Used x → c_str x.key ≡ c_str (slot_at (set t q e) j).key → i ≡ j) t q e l
      (written_cases (λ j y. Used e → c_str e.key ≡ c_str y.key → q ≡ j) t q e l (λ u s. refl)
        (λ j' lj' ne u s. absurd (other j' lj' ne (Used-c_str e (slot_at t j') s u) (sym s))) j lj)
      (λ i' li' ne.
        written_cases (λ j y. Used (slot_at t i') → c_str (slot_at t i').key ≡ c_str y.key → i' ≡ j)
          t q e l (λ u s. absurd (other i' li' ne u s))
          (λ j' lj' ne' u s. old i' j' li' lj' ne ne' u s) j lj)
      i li

-- The entry of the next slot is written to one of its buckets.
module _ (c : CuckooHash) (n k : ℕ) (t : List Entry) (q : ℕ) (h : Housed c n k t)
    (old : Unique c.table) (inside : k < length c.table) (l : q < length t) where
  -- A slot of the table so far has another key.
  other_key :
      (j : ℕ)
      → j < length t
      → Used (slot_at t j)
      → c_str (slot_at t j).key ≢ c_str (slot_at c.table k).key
  other_key j lj u e =
      let (p, b, same) = h.sources j lj u in
      let string : c_str (slot_at c.table p).key ≡ c_str (slot_at t j).key =
        ap (λ (x : Entry). c_str x.key) same in
      let one : p ≡ k =
        old p k (omega arith) inside (Used-c_str (slot_at t j) (slot_at c.table p) (sym string) u)
          (string ∙ e) in
      omega arith

  pub Housed-set :
      (Used (slot_at c.table k) → Home c n (slot_at c.table k).key q)
      → Housed c n (suc k) (set t q (slot_at c.table k))
  Housed-set home =
      let e = slot_at c.table k in
      record {
        homed =
            written_cases (λ j x. Used x → Home c n x.key j) t q e l home (λ j lj ne. h.homed j lj);
        sources =
            written_cases (λ j x. Used x → (p : ℕ) × (p < suc k) × (slot_at c.table p ≡ x)) t q e l
              (λ u. (k, omega arith, refl))
              (λ j lj ne u. let (p, b, same) = h.sources j lj u in (p, omega arith, same));
        unique =
            Unique-set t q e l (λ j lj ne u. other_key j lj u)
              (λ i j li lj ni nj. h.unique i j li lj);
      }
