-- ===== src/Cuckoo/Trail.antt =====
-- The paths of evictions of flatfs/cuckoo_hash.c by the slots that they pass.
use flatfs.Common.{
  ℕ, zero, suc, ◌+◌, ◌*◌, ◌<◌, ◌≤◌, ◌≡◌, ◌≢◌, ◌⊎◌, inl, inr, refl, sym, ◌∙◌, ap, List, length, set,
  length-set, get_or, get_or-set_self, get_or-set_ne, update, true, false, Bool-cases, ◌==◌, ==_iff,
  some, none, ok, arith,
}
use flatfs.Name.{str_eq}
use flatfs.Dir.Links.{update_self, update_ne}
use flatfs.Cuckoo.{
  Entry, PathNode, empty_node, CuckooHash, same_key, bucket_slot, invalid, assoc_num,
}
use flatfs.Cuckoo.Insert.{Found, other_bucket}
use flatfs.Cuckoo.Search.{missed}
use flatfs.Cuckoo.Strings.{KeysEnd, same_key-ok}
use flatfs.Cuckoo.Keep.{slot_at, Used}
use flatfs.Cuckoo.Chain.{Goes, Chain, last, more}

abbrev pub pre_position : PathNode → ℕ
pre_position x = x.pre_bucket * 4 + x.pre_slot

abbrev pub next_position : PathNode → ℕ
next_position x = x.next_bucket * 4 + x.next_slot

-- The first `used` nodes of a path, by the slots that it passes.
pub record Trail (c : CuckooHash) (paths : List PathNode) (used : ℕ) (stops : ℕ → ℕ) : Type 0 where
  pub size : length paths ≡ 16
  pub pre : (j : ℕ) → j < used → pre_position (get_or paths j empty_node) ≡ stops j
  pub next : (j : ℕ) → j < used → next_position (get_or paths j empty_node) ≡ stops (suc j)
  pub inside : (j : ℕ) → j ≤ used → stops j < length c.table

-- A path of `n` moves from a slot to a free one.
pub record Route (c : CuckooHash) (paths : List PathNode) (n first : ℕ) : Type 0 where
  pub stops : ℕ → ℕ
  pub start : stops 0 ≡ first
  pub trail : Trail c paths n stops
  pub goes : (j : ℕ) → suc j < n → Goes c (stops j) false (stops (suc j))
  pub stop : (j : ℕ) → suc j ≡ n → Goes c (stops j) true (stops n)

pub Route-Chain :
    {c : CuckooHash} {paths : List PathNode} {n first : ℕ} (r : Route c paths n first) (m j : ℕ)
    → j + suc m ≡ n
    → Chain c (suc m) (r.stops j)
Route-Chain {n = n} r zero j e = last (r.stop j (omega arith))
Route-Chain r (suc m) j e = more (r.goes j (omega arith)) (Route-Chain r m (suc j) (omega arith))

-- A bucket whose search finds nothing has no free slot.
pub bucket_slot-missed :
    (table : List Entry) (key : List ℕ) (b n i : ℕ)
    → bucket_slot table key b n i ≡ ok none
    → (j : ℕ) → i ≤ j
    → j < i + n
    → same_key table (b * 4 + j) key ≡ ok false
unfolding bucket_slot
bucket_slot-missed table key b zero i h j lo hi = absurd (omega arith)
bucket_slot-missed table key b (suc n) i h j lo hi =
    let (first, h1) = missed (same_key table (b * assoc_num + i) key) i h in
    elim (Bool-cases (j == i)) [
      | inl e ↦ let k : j ≡ i = ground (arith, e) in rw k first
      | inr e ↦ bucket_slot-missed table key b n (suc i) h1 j (ground (arith, e, lo)) (omega arith)
    ]

pub used_lem :
    (t : List Entry) (p : ℕ)
    → KeysEnd t
    → p < length t
    → same_key t p invalid ≡ ok false
    → Used (slot_at t p)
used_lem t p keys l h =
    let e : ok (str_eq (slot_at t p).key invalid) ≡ ok false =
      sym (same_key-ok t p invalid keys l) ∙ h in
    cc

-- The other bucket of an entry is one of its buckets.
pub other_bucket-home :
    (cur f s : ℕ)
    → (cur ≡ f) ⊎ (cur ≡ s)
    → (b : ℕ) × (other_bucket cur f s ≡ some b) × ((b ≡ f) ⊎ (b ≡ s))
unfolding other_bucket
other_bucket-home cur f s h = elim (Bool-cases (f == cur)) [
  | inl e ↦ (s, rw e refl, inr refl)
  | inr e ↦ elim h [
    | inl k ↦ absurd (ground (arith, e, k))
    | inr k ↦ let g : (s == cur) ≡ true = (==_iff s cur).1 (sym k) in (f, rw (e, g) refl, inl refl)
  ]
]

-- A node is written behind those of a path.
node_set :
    (paths : List PathNode) (used j : ℕ) (x : PathNode)
    → used < length paths
    → j < suc used
    → ((j ≡ used) × (get_or (set paths used x) j empty_node ≡ x))
      ⊎ ((j < used) × (get_or (set paths used x) j empty_node ≡ get_or paths j empty_node))
node_set paths used j x l lj = elim (Bool-cases (j == used)) [
  | inl b ↦
      let k : j ≡ used = (==_iff j used).0 b in
      inl (
        k,
        ap (λ i. get_or (set paths used x) i empty_node) k
            ∙ get_or-set_self paths used x empty_node l,
      )
  | inr b ↦
      let ne : j ≢ used = ground (arith, b) in
      inr (ground (arith, b, lj), get_or-set_ne paths used j x empty_node (λ e. ne (sym e)))
]

pub before_lem : (stops : ℕ → ℕ) (used q j : ℕ) → j ≤ used → update stops (suc used) q j ≡ stops j
before_lem stops used q j l = update_ne stops (suc used) j q (λ e. absurd (omega (arith, e, l)))

pub Trail-set :
    {c : CuckooHash} {paths : List PathNode} {used : ℕ} {stops : ℕ → ℕ} (x : PathNode) (q : ℕ)
    → used < 16
    → Trail c paths used stops
    → pre_position x ≡ stops used
    → next_position x ≡ q
    → q < length c.table
    → Trail c (set paths used x) (suc used) (update stops (suc used) q)
Trail-set {c} {paths} {used} {stops} x q few t pre next inside =
    let room : used < length paths = omega (arith, few, t.size) in
    record {
      size = length-set paths used x ∙ t.size;
      pre = λ j l. elim (node_set paths used j x room l) [
        | inl (k, e) ↦
            ap pre_position e
            ∙ pre
            ∙ ap stops (sym k)
            ∙ sym (before_lem stops used q j (omega arith))
        | inr (lj, e) ↦
            ap pre_position e ∙ t.pre j lj ∙ sym (before_lem stops used q j (omega arith))
      ];
      next = λ j l. elim (node_set paths used j x room l) [
        | inl (k, e) ↦
            ap next_position e
            ∙ next
            ∙ sym (update_self stops (suc used) q)
            ∙ ap (λ i. update stops (suc used) q (suc i)) (sym k)
        | inr (lj, e) ↦
            ap next_position e ∙ t.next j lj ∙ sym (before_lem stops used q (suc j) (omega arith))
      ];
      inside = λ j l. elim (Bool-cases (j == suc used)) [
        | inl b ↦
            let k : j ≡ suc used = (==_iff j (suc used)).0 b in
            rw (k, update_self stops (suc used) q) inside
        | inr b ↦
            let lj : j ≤ used = ground (arith, b, l) in
            rw (before_lem stops used q j lj) (t.inside j lj)
      ];
    }

-- What the search gives for a hash in order: no path, or one that starts at the slot.
abbrev pub Routed : CuckooHash → ℕ → Found → Type 0
Routed c first r = (r.len ≡ 0) ⊎ ((0 < r.len) × (r.len ≤ 16) × Route c r.paths r.len first)
