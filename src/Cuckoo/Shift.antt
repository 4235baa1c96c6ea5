-- ===== src/Cuckoo/Shift.antt =====
-- The moves of a path of flatfs/cuckoo_hash.c: each copies an entry to the next slot of the path, from the
-- free slot at its end back to the first, so that one slot after another is the hole.
use flatfs.Common.{
  ℕ, suc, ◌<◌, ◌≡◌, ◌≢◌, ◌⊎◌, inl, inr, refl, sym, ◌∙◌, ap, List, length, set, length-set, Bool,
  true, false, Bool-cases, ◌==◌, ==_iff, arith,
}
use flatfs.Name.{c_str, str_eq}
use flatfs.Cuckoo.{Entry, CuckooHash, invalid}
use flatfs.Cuckoo.Strings.{KeysEnd, KeysEnd-set, key_ends}
use flatfs.Cuckoo.Keep.{slot_at, Used}
use flatfs.Cuckoo.Sound.{Home, Homed, IsSound}
use flatfs.Cuckoo.Housed.{slot_at-set, written_cases}
use flatfs.Cuckoo.Chain.{Chain, Chain-unique}

abbrev pub Free : Entry → Type 0
Free e = str_eq e.key invalid ≡ true

-- A slot from which a path of `m` moves leads to a free slot; with no move, the free slot.
abbrev pub Hole : CuckooHash → ℕ → ℕ → Type 0
Hole c m q = ((m ≡ 0) × Free (slot_at c.table q)) ⊎ Chain c m q

-- The table after the moves behind slot `hole`.
pub record Shifted (c : CuckooHash) (m : ℕ) (t : List Entry) (hole : ℕ) : Type 0 where
  pub size : length t ≡ length c.table
  pub keys : KeysEnd t
  pub homed : Homed c c.capacity t
  pub sources :
      (q : ℕ)
      → q < length t
      → Used (slot_at t q)
      → (p : ℕ) × (p < length c.table) × (slot_at c.table p ≡ slot_at t q)
  pub kept :
      (p : ℕ)
      → p < length c.table
      → Used (slot_at c.table p)
      → (q : ℕ) × (q < length t) × (q ≢ hole) × (slot_at t q ≡ slot_at c.table p)
  pub unique :
      (p q : ℕ)
      → p < length t
      → q < length t
      → p ≢ hole
      → q ≢ hole
      → Used (slot_at t p)
      → c_str (slot_at t p).key ≡ c_str (slot_at t q).key
      → p ≡ q
  pub same :
      (j : ℕ)
      → (slot_at t j ≡ slot_at c.table j)
        ⊎ Free (slot_at c.table j)
        ⊎ ((k : ℕ) × (k < m) × Chain c k j)

pub used_free : {b : Bool} → b ≡ false → b ≡ true → ⊥
used_free u f = cc

-- Before the moves the hole is the free slot.
pub Shifted-start :
    (c : CuckooHash) (q : ℕ) → IsSound c → Free (slot_at c.table q) → Shifted c 0 c.table q
Shifted-start c q v free = record {
  size = refl;
  keys = v.keys;
  homed = v.homed;
  sources = λ j l u. (j, l, refl);
  kept = λ p l u.
      (p, l, (λ e. used_free u (ap (λ k. str_eq (slot_at c.table k).key invalid) e ∙ free)), refl);
  unique = λ i j li lj hi hj u e. v.unique i j li lj u e;
  same = λ j. inl refl;
}

module _ (c : CuckooHash) (m : ℕ) (t : List Entry) (p q : ℕ) (h : Shifted c m t q)
    (hole : Hole c m q) (path : Chain c (suc m) p) (used : Used (slot_at c.table p))
    (lp : p < length t) (lq : q < length t) where
  apart : p ≢ q
  apart e = elim hole [
    | inl (z, free) ↦ used_free used (ap (λ k. str_eq (slot_at c.table k).key invalid) e ∙ free)
    | inr chain ↦
        let k : suc m ≡ m = Chain-unique (suc m) m q (rw (sym e) path) chain in omega arith
  ]

  -- The moves so far have not written the slot.
  pub still : slot_at t p ≡ slot_at c.table p
  still = elim (h.same p) [
    | inl e ↦ e
    | inr (inl free) ↦ absurd (used_free used free)
    | inr (inr (k, l, chain)) ↦
        let e : suc m ≡ k = Chain-unique (suc m) k p path chain in absurd (omega arith)
  ]

  still-Used : Used (slot_at t p)
  still-Used = rw still used

  other_key :
      (j : ℕ) → j < length t → j ≢ q → j ≢ p → c_str (slot_at t p).key ≢ c_str (slot_at t j).key
  other_key j lj nq np e = np (sym (h.unique p j lp lj apart nq still-Used e))

  -- One move more: the slot is copied into the hole, and is the hole then.
  pub Shifted-move :
      Home c c.capacity (slot_at c.table p).key q → Shifted c (suc m) (set t q (slot_at t p)) p
  Shifted-move home =
      let e = slot_at t p in
      let at_q = slot_at-set t q e in
      record {
        size = length-set t q e ∙ h.size;
        keys = KeysEnd-set t q e h.keys (key_ends t p h.keys lp);
        homed =
            written_cases (λ j x. Used x → Home c c.capacity x.key j) t q e lq (λ u. rw still home)
              (λ j lj ne. h.homed j lj);
        sources =
            written_cases (λ j x. Used x → (i : ℕ) × (i < length c.table) × (slot_at c.table i ≡ x))
              t q e lq (h.sources p lp) (λ j lj ne. h.sources j lj);
        kept = λ i li u.
            let (j, lj, nq, s) = h.kept i li u in
            elim (Bool-cases (j == p)) [
              | inl b ↦
                  let k : j ≡ p = (==_iff j p).0 b in
                  (
                    q,
                    rw (length-set t q e) lq,
                    (λ z. apart (sym z)),
                    new q refl ∙ ap (slot_at t) (sym k) ∙ s,
                  )
              | inr b ↦
                  let ne : j ≢ p = ground (arith, b) in
                  (j, rw (length-set t q e) lj, ne, old j nq ∙ s)
            ];
        unique = λ i j li lj.
            written_cases
              (λ i x.
                i ≢ p → j ≢ p → Used x → c_str x.key ≡ c_str (slot_at (set t q e) j).key → i ≡ j)
              t q e lq
              (written_cases (λ j y. q ≢ p → j ≢ p → Used e → c_str e.key ≡ c_str y.key → q ≡ j) t q
                e lq (λ ni nj u s. refl) (λ j' lj' nq ni nj u s. absurd (other_key j' lj' nq nj s))
                j lj)
              (λ i' li' nq'.
                written_cases
                  (λ j y.
                    i' ≢ p
                    → j ≢ p
                    → Used (slot_at t i')
                    → c_str (slot_at t i').key ≡ c_str y.key
                    → i' ≡ j)
                  t q e lq (λ ni nj u s. absurd (other_key i' li' nq' ni (sym s)))
                  (λ j' lj' nq ni nj u s. h.unique i' j' li' lj' nq' nq u s) j lj)
              i li;
        same = λ j. elim (at_q j lq) [
          | inl (k, s) ↦ elim hole [
            | inl (z, free) ↦ inr (inl (rw k free))
            | inr chain ↦ inr (inr (m, omega arith, rw k chain))
          ]
          | inr (ne, s) ↦ elim (h.same j) [
            | inl u ↦ inl (s ∙ u)
            | inr (inl free) ↦ inr (inl free)
            | inr (inr (k, l, chain)) ↦ inr (inr (k, omega arith, chain))
          ]
        ];
      }
    where
      new : (j : ℕ) → j ≡ q → slot_at (set t q (slot_at t p)) j ≡ slot_at t p
      new j k = elim (slot_at-set t q (slot_at t p) j lq) [
        | inl (a, s) ↦ s
        | inr (ne, s) ↦ absurd (ne k)
      ]

      old : (j : ℕ) → j ≢ q → slot_at (set t q (slot_at t p)) j ≡ slot_at t j
      old j ne = elim (slot_at-set t q (slot_at t p) j lq) [
        | inl (a, s) ↦ absurd (ne a)
        | inr (n, s) ↦ s
      ]
