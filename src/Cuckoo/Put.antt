-- ===== src/Cuckoo/Put.antt =====
-- A key that is put into a hash in order: into a free slot, or into the slot that the moves of a path have freed.
use flatfs.Common.{
  ℕ, ◌<◌, ◌≤◌, ◌≡◌, ◌≢◌, ◌⊎◌, inl, inr, refl, sym, ◌∙◌, ap, List, length, set, length-set, take,
  false, Option, some, none, Run, ok,
}
use flatfs.Name.{my_strlen, c_str, str_eq}
use flatfs.Cuckoo.{
  Status, success, fail, Entry, CuckooHash, f_hash, s_hash, cuckoo_query, answer, invalid,
}
use flatfs.Cuckoo.Laws.{written, take-take}
use flatfs.Cuckoo.Strings.{KeysEnd-set, c_str-take}
use flatfs.Cuckoo.Keep.{slot_at, Used, entry_at-ok}
use flatfs.Cuckoo.Sound.{Home, IsSound, absent, present, search, Used-c_str, home_lem}
use flatfs.Cuckoo.Same.{cuckoo_query-Finds, cuckoo_query-slot}
use flatfs.Cuckoo.Housed.{slot_at-set, written_cases, Unique-set}
use flatfs.Cuckoo.Shift.{Shifted}

-- No slot has the string of the key.
abbrev pub Absent : CuckooHash → List ℕ → Type 0
Absent c key = (p : ℕ) → p < length c.table → c_str (slot_at c.table p).key ≢ c_str key

-- The answers of a look-up.
abbrev pub fails : Run (Status × Option (List ℕ))
fails = ok (fail, none)

abbrev pub finds : List ℕ → Run (Status × Option (List ℕ))
finds value = ok (success, some value)

pub query-Absent :
    (c : CuckooHash) (key : List ℕ)
    → IsSound c
    → str_eq key invalid ≡ false
    → cuckoo_query c key ≡ fails
    → Absent c key
unfolding answer
query-Absent c key v named h = elim (search c key v named) [
  | absent missing e ↦ missing
  | present p l same e ↦ absurd (found (rw (e, entry_at-ok c.table p l) at h))
]
  where
    found : {x : List ℕ} → finds x ≡ fails → ⊥
    found e = cc

-- What an insertion leaves of the hash but its table and its order.
abbrev pub changed : CuckooHash → List Entry → ℕ → ℕ → CuckooHash
changed c t count evicted = record c { table = t; entry_num = count; evict_len = evicted }

-- How an insertion ends: with the key and its value and all else as it was, or with all as it was.
abbrev pub Mapped : List ℕ → List ℕ → CuckooHash → Status × CuckooHash → Type 0
Mapped key value c (status, d) =
    IsSound d
    × (((status ≡ success)
          × (cuckoo_query d key ≡ finds (take 8 value))
          × ((other : List ℕ)
              → str_eq other invalid ≡ false
              → c_str other ≢ c_str key
              → cuckoo_query d other ≡ cuckoo_query c other))
        ⊎ ((status ≡ fail) × ((other : List ℕ) → cuckoo_query d other ≡ cuckoo_query c other)))

-- The key is a string of at most three bytes and not the empty one, in a buffer of four; the value has eight.
module _ (key value : List ℕ) (named : str_eq key invalid ≡ false) (short : my_strlen key < 4)
    (long : 4 ≤ length key) (eight : 8 ≤ length value) where
  string : c_str (written key value).key ≡ c_str key
  string = (c_str-take 4 key short long).0

  new-Used : Used (written key value)
  new-Used = Used-c_str (record { key = key; value = value }) (written key value) (sym string) named

  -- No slot of the moved entries has the key.
  old_key :
      (c : CuckooHash) (m : ℕ) (t : List Entry) (p : ℕ)
      → Absent c key
      → Shifted c m t p
      → (j : ℕ) → j < length t
      → Used (slot_at t j)
      → c_str (slot_at t j).key ≢ c_str key
  old_key c m t p none_has h j lj u s =
      let (q, lq, same) = h.sources j lj u in
      none_has q lq (ap (λ (x : Entry). c_str x.key) same ∙ s)

  -- The key is put into the hole of a table that is in order but for it.
  put-IsSound :
      (c : CuckooHash) (m : ℕ) (t : List Entry) (p count evicted : ℕ)
      → IsSound c
      → Absent c key
      → Shifted c m t p
      → p < length t
      → Home c c.capacity key p
      → IsSound (changed c (set t p (written key value)) count evicted)
  unfolding f_hash s_hash
  put-IsSound c m t p count evicted v none_has h l home =
      let e = written key value in
      record {
        shape = record {
          some_buckets = v.shape.some_buckets;
          size = length-set t p e ∙ h.size ∙ v.shape.size;
          path1 = v.shape.path1;
          path2 = v.shape.path2;
        };
        keys = KeysEnd-set t p e h.keys (c_str-take 4 key short long).1;
        homed =
            written_cases (λ j x. Used x → Home c c.capacity x.key j) t p e l
              (λ u. home_lem c c.capacity key e.key p (sym string) home) (λ j lj ne. h.homed j lj);
        unique =
            Unique-set t p e l (λ j lj ne u same. old_key c m t p none_has h j lj u (same ∙ string))
              (λ i j li lj ni nj. h.unique i j li lj ni nj);
      }

  -- A look-up of another key finds the same.
  put-other :
      (c : CuckooHash) (m : ℕ) (t : List Entry) (p count evicted : ℕ) (other : List ℕ)
      → IsSound c
      → Absent c key
      → Shifted c m t p
      → p < length t
      → Home c c.capacity key p
      → str_eq other invalid ≡ false
      → c_str other ≢ c_str key
      → cuckoo_query (changed c (set t p (written key value)) count evicted) other
        ≡ cuckoo_query c other
  put-other c m t p count evicted other v none_has h l home named_other ne =
      let e = written key value in
      let d = changed c (set t p e) count evicted in
      let is_used = (λ (x : Entry) (s : c_str x.key ≡ c_str other).
        Used-c_str (record { key = other; value = value }) x (sym s) named_other) in
      cuckoo_query-Finds c d other v (put-IsSound c m t p count evicted v none_has h l home)
        (λ q lq s.
          let (j, lj, nj, same) = h.kept q lq (is_used (slot_at c.table q) s) in
          elim (slot_at-set t p e j l) [
            | inl (k, at) ↦ absurd (nj k)
            | inr (n, at) ↦ (j, rw (length-set t p e) lj, at ∙ same)
          ])
        (written_cases
          (λ j x.
            c_str x.key ≡ c_str other → (q : ℕ) × (q < length c.table) × (slot_at c.table q ≡ x))
          t p e l (λ s. absurd (ne (sym s ∙ string)))
          (λ j lj n s. h.sources j lj (is_used (slot_at t j) s)))
        named_other

  -- The key is found then.
  put-found :
      (c : CuckooHash) (m : ℕ) (t : List Entry) (p count evicted : ℕ)
      → IsSound c
      → Absent c key
      → Shifted c m t p
      → p < length t
      → Home c c.capacity key p
      → cuckoo_query (changed c (set t p (written key value)) count evicted) key
        ≡ finds (take 8 value)
  put-found c m t p count evicted v none_has h l home =
      let e = written key value in
      let at : slot_at (set t p e) p ≡ e = elim (slot_at-set t p e p l) [
        | inl (k, same) ↦ same
        | inr (ne, same) ↦ absurd (ne refl)
      ] in
      cuckoo_query-slot (changed c (set t p e) count evicted) key p e
        (put-IsSound c m t p count evicted v none_has h l home) (rw (length-set t p e) l) at string
        named
      ∙ ap finds (take-take 8 value)

  pub put-Mapped :
      (c : CuckooHash) (m : ℕ) (t : List Entry) (p count evicted : ℕ)
      → IsSound c
      → Absent c key
      → Shifted c m t p
      → p < length t
      → Home c c.capacity key p
      → Mapped key value c (success, changed c (set t p (written key value)) count evicted)
  put-Mapped c m t p count evicted v none_has h l home = (
    put-IsSound c m t p count evicted v none_has h l home,
    inl (
      refl,
      put-found c m t p count evicted v none_has h l home,
      λ other named_other ne.
          put-other c m t p count evicted other v none_has h l home named_other ne,
    ),
  )
