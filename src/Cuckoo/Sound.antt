-- ===== src/Cuckoo/Sound.antt =====
-- The order that a cuckoo hash is kept in: every key stands in one of its two buckets, and in one slot
-- alone; and what a look-up finds then.
use flatfs.Common.{
  ℕ, zero, suc, ◌+◌, ◌*◌, ◌/◌, ◌%◌, ◌<◌, ◌≤◌, ◌≡◌, ◌≢◌, ◌⊎◌, inl, inr, refl, sym, ◌∙◌, List, [],
  ◌∷◌, length, true, false, Bool-cases, ◌==◌, ==_iff, some, none, ok, arith,
}
use flatfs.Name.{c_str, same_bytes, same_bytes_self, str_eq}
use flatfs.Hash.Reads.{hash-c_str}
use flatfs.Cuckoo.{
  Entry, CuckooHash, f_hash, s_hash, same_key, either_slot, buckets_of, cuckoo_query, answer,
  invalid, assoc_num,
}
use flatfs.Cuckoo.Inv.{IsCuckoo, idx-Returns, either_slot-Returns, slot_cases}
use flatfs.Cuckoo.Search.{either_slot-hit, missed}
use flatfs.Cuckoo.Strings.{KeysEnd, same_key-ok}
use flatfs.Cuckoo.Keep.{slot_at, Used}

-- A position is in one of the two buckets of a key, for a capacity.
abbrev pub Home : CuckooHash → ℕ → List ℕ → ℕ → Type 0
Home c n key p = (p / 4 ≡ f_hash c key % n) ⊎ (p / 4 ≡ s_hash c key % n)

abbrev pub Homed : CuckooHash → ℕ → List Entry → Type 0
Homed c n t = (p : ℕ) → p < length t → Used (slot_at t p) → Home c n (slot_at t p).key p

abbrev pub Unique : List Entry → Type 0
Unique t =
    (p q : ℕ)
    → p < length t
    → q < length t
    → Used (slot_at t p)
    → c_str (slot_at t p).key ≡ c_str (slot_at t q).key
    → p ≡ q

pub record IsSound (c : CuckooHash) : Type 0 where
  pub shape : IsCuckoo c
  pub keys : KeysEnd c.table
  pub homed : Homed c c.capacity c.table
  pub unique : Unique c.table

pub bytes_equal : (a b : List ℕ) → same_bytes a b ≡ true → a ≡ b
unfolding same_bytes
bytes_equal [] [] h = refl
bytes_equal [] (d ∷ t) h = absurd cc
bytes_equal (x ∷ s) [] h = absurd cc
bytes_equal (x ∷ s) (d ∷ t) h = elim (Bool-cases (x == d)) [
  | inl e ↦ let k : x ≡ d = (==_iff x d).0 e in rw (k, bytes_equal s t (rw e at h)) refl
  | inr e ↦ absurd (clash (rw e at h))
]
  where
    clash : false ≡ true → ⊥
    clash e = cc

-- A key is free by its string.
pub Used-c_str : (a b : Entry) → c_str a.key ≡ c_str b.key → Used a → Used b
Used-c_str a b e u = rw (sym e) u

-- What a search that finds nothing has missed.
pub either_slot-missed :
    (table : List Entry) (key : List ℕ) (f s n i : ℕ)
    → either_slot table key f s n i ≡ ok none
    → (j : ℕ) → i ≤ j
    → j < i + n
    → (same_key table (f * 4 + j) key ≡ ok false) × (same_key table (s * 4 + j) key ≡ ok false)
unfolding either_slot
either_slot-missed table key f s zero i h j lo hi = absurd (omega arith)
either_slot-missed table key f s (suc n) i h j lo hi =
    let (first, h1) = missed (same_key table (f * assoc_num + i) key) (f * assoc_num + i) h in
    let (second, h2) = missed (same_key table (s * assoc_num + i) key) (s * assoc_num + i) h1 in
    elim (Bool-cases (j == i)) [
      | inl e ↦ let k : j ≡ i = ground (arith, e) in rw k (first, second)
      | inr e ↦
          either_slot-missed table key f s n (suc i) h2 j (ground (arith, e, lo)) (omega arith)
    ]

-- The slot that a search finds has the key.
hit_lem :
    (t : List Entry) (key : List ℕ) (p : ℕ)
    → KeysEnd t
    → p < length t
    → same_key t p key ≡ ok true
    → c_str (slot_at t p).key ≡ c_str key
hit_lem t key p ends l h =
    let e : ok (str_eq (slot_at t p).key key) ≡ ok true = sym (same_key-ok t p key ends l) ∙ h in
    bytes_equal (c_str (slot_at t p).key) (c_str key) cc

-- A slot that a search has missed has another key.
miss_lem :
    (t : List Entry) (key : List ℕ) (p : ℕ)
    → KeysEnd t
    → p < length t
    → same_key t p key ≡ ok false
    → c_str (slot_at t p).key ≢ c_str key
miss_lem t key p ends l h same =
    let e : ok (str_eq (slot_at t p).key key) ≡ ok false = sym (same_key-ok t p key ends l) ∙ h in
    let e2 : str_eq (slot_at t p).key key ≡ true = rw same (same_bytes_self (c_str key)) in cc

-- What a search of the buckets of a key gives in a hash that is sound.
pub data Search (c : CuckooHash) (key : List ℕ) : Type 0 where
  absent :
      ((p : ℕ) → p < length c.table → c_str (slot_at c.table p).key ≢ c_str key)
      → cuckoo_query c key ≡ answer c.table none
      → Search c key
  present :
      (p : ℕ)
      → p < length c.table
      → c_str (slot_at c.table p).key ≡ c_str key
      → cuckoo_query c key ≡ answer c.table (some p)
      → Search c key

-- The entry of a string is in one of the buckets of the string.
pub home_lem :
    (c : CuckooHash) (n : ℕ) (a b : List ℕ) (p : ℕ)
    → c_str a ≡ c_str b
    → Home c n a p
    → Home c n b p
unfolding f_hash s_hash
home_lem c n a b p e h = rw (sym (hash-c_str a b c.f_seed e), sym (hash-c_str a b c.s_seed e)) h

-- A position in one of two buckets that were searched was missed.
searched_lem :
    (t : List Entry) (key : List ℕ) (f s p : ℕ)
    → either_slot t key f s 4 0 ≡ ok none
    → (p / 4 ≡ f) ⊎ (p / 4 ≡ s)
    → same_key t p key ≡ ok false
searched_lem t key f s p h home =
    let (first, second) = either_slot-missed t key f s 4 0 h (p % 4) (omega arith) (omega arith) in
    elim home [
      | inl e ↦ let k : f * 4 + p % 4 ≡ p = omega arith in rw (sym k) first
      | inr e ↦ let k : s * 4 + p % 4 ≡ p = omega arith in rw (sym k) second
    ]

-- The search of the two buckets of a key finds its slot, if any slot has it.
pub search_slots :
    (c : CuckooHash) (key : List ℕ)
    → IsSound c
    → str_eq key invalid ≡ false
    → (f : ℕ) × (s : ℕ) × (buckets_of c key ≡ ok (f, s))
      × (((either_slot c.table key f s 4 0 ≡ ok none)
            × ((p : ℕ) → p < length c.table → c_str (slot_at c.table p).key ≢ c_str key))
          ⊎ ((p : ℕ) × (either_slot c.table key f s 4 0 ≡ ok (some p))
              × (p < length c.table)
              × (c_str (slot_at c.table p).key ≡ c_str key)))
unfolding buckets_of
search_slots c key v named =
    let f = f_hash c key % c.capacity in
    let s = s_hash c key % c.capacity in
    let (run_f, f2, fb) = idx-Returns (f_hash c key) c.capacity v.shape.some_buckets in
    let (s1, run_s, sb) = idx-Returns (s_hash c key) c.capacity v.shape.some_buckets in
    let size = v.shape.size in
    (
      f,
      s,
      rw (run_f, run_s) refl,
      elim (slot_cases (
          either_slot-Returns c.table v.keys key f s 4 0 (omega (arith, fb, size))
            (omega (arith, sb, size)))) [
              | inl none_found ↦ inl (
                none_found,
                λ p l e.
                    miss_lem c.table key p v.keys l
                      (searched_lem c.table key f s p none_found (
                        home_lem c c.capacity (slot_at c.table p).key key p e (
                          v.homed p l (
                            Used-c_str (record { key = key; value = [] }) (slot_at c.table p)
                              (sym e) named))))
                      e,
              )
              | inr (p, hit, l) ↦ inr (
                p,
                hit,
                l,
                hit_lem c.table key p v.keys l (either_slot-hit c.table key f s 4 0 p hit),
              )
            ],
    )

pub search : (c : CuckooHash) (key : List ℕ) → IsSound c → str_eq key invalid ≡ false → Search c key
unfolding cuckoo_query
search c key v named =
    let (f, s, buckets, result) = search_slots c key v named in
    elim result [
      | inl (none_found, missing) ↦ absent missing (rw (buckets, none_found) refl)
      | inr (p, hit, l, same) ↦ present p l same (rw (buckets, hit) refl)
    ]
