-- ===== src/Cuckoo/Evict.antt =====
-- The moves of a path of flatfs/cuckoo_hash.c that was found, from its end back to its first slot.
use flatfs.Common.{
  ℕ, zero, suc, ◌+◌, ◌-◌, ◌*◌, ◌/◌, ◌%◌, ◌^◌, ◌<◌, ◌≤◌, ◌≡◌, ◌⊎◌, inl, inr, refl, sym, List, length,
  set, get_or, true, false, Bool, Bool-cases, ◌==◌, ==_iff, some, none, Returns, ◌>>=◌, ltb, lt→ltb,
  arith,
}
use flatfs.Cuckoo.{Entry, PathNode, empty_node, CuckooHash, f_hash, s_hash, invalid}
use flatfs.Cuckoo.Insert.{other_bucket, moves, execute_path}
use flatfs.Cuckoo.Paths.{node_at-ok}
use flatfs.Cuckoo.Search.{bucket_slot-hit}
use flatfs.Cuckoo.Strings.{KeysEnd}
use flatfs.Cuckoo.Keep.{slot_at, Used, free_lem, entry_at-ok}
use flatfs.Cuckoo.Sound.{Home, IsSound}
use flatfs.Cuckoo.Chain.{Leads, Goes, ends, goes_on}
use flatfs.Cuckoo.Shift.{Free, Hole, Shifted, Shifted-start, Shifted-move}
use flatfs.Cuckoo.Trail.{Route, Route-Chain, pre_position, next_position}

other_bucket-some : (cur f s b : ℕ) → other_bucket cur f s ≡ some b → (b ≡ f) ⊎ (b ≡ s)
unfolding other_bucket
other_bucket-some cur f s b h = elim (Bool-cases (f == cur)) [
  | inl e ↦ inr (same (rw e at h))
  | inr e ↦ elim (Bool-cases (s == cur)) [
    | inl g ↦ inl (same (rw (e, g) at h))
    | inr g ↦ absurd (nothing (rw (e, g) at h))
  ]
]
  where
    same : {x y : ℕ} → some x ≡ some y → y ≡ x
    same e = cc

    nothing : {x : ℕ} → none ≡ some x → ⊥
    nothing e = cc

-- The next slot is in a bucket of the entry.
Leads-Home :
    {c : CuckooHash} {p b : ℕ} (j : ℕ)
    → Leads c p b
    → j < 4
    → Home c c.capacity (slot_at c.table p).key (b * 4 + j)
Leads-Home {c} {p} {b} j x l =
    let bucket : (b * 4 + j) / 4 ≡ b = omega (arith, l) in
    rw bucket (
      other_bucket-some (p / 4) (f_hash c (slot_at c.table p).key % c.capacity)
        (s_hash c (slot_at c.table p).key % c.capacity) b x.other)

Goes-Home :
    {c : CuckooHash} {p q : ℕ} {free : Bool}
    → Goes c p free q
    → Home c c.capacity (slot_at c.table p).key q
Goes-Home (ends b i x e l) = Leads-Home i x l
Goes-Home (goes_on b x e) = Leads-Home 3 x (omega arith)

Goes-taken : {c : CuckooHash} {p q : ℕ} {free : Bool} → Goes c p free q → Used (slot_at c.table p)
Goes-taken (ends b i x e l) = x.taken
Goes-taken (goes_on b x e) = x.taken

Goes-Free :
    {c : CuckooHash} {p q : ℕ} → KeysEnd c.table → Goes c p true q → Free (slot_at c.table q)
Goes-Free {c} keys (ends b i x e l) =
    free_lem c.table (b * 4 + i) keys (bucket_slot-hit c.table invalid b 4 0 i e)

module _ (c : CuckooHash) (v : IsSound c) (paths : List PathNode) (n first : ℕ)
    (r : Route c paths n first) (short : n ≤ 16) where
  -- Each move goes from a slot that is used to a slot of one of the buckets of its entry.
  move_lem :
      (j : ℕ)
      → j < n
      → Used (slot_at c.table (r.stops j))
        × Home c c.capacity (slot_at c.table (r.stops j)).key (r.stops (suc j))
  move_lem j l = elim (Bool-cases (suc j == n)) [
    | inl b ↦
        let k : suc j ≡ n = (==_iff (suc j) n).0 b in
        let g = r.stop j k in (Goes-taken g, rw k (Goes-Home g))
    | inr b ↦ let g = r.goes j (ground (arith, b, l)) in (Goes-taken g, Goes-Home g)
  ]

  -- The moves from node `k` down, where the slots behind it are done.
  moves-Shifted :
      (k m : ℕ) (t : List Entry)
      → k + m ≡ n
      → Shifted c m t (r.stops k)
      → Hole c m (r.stops k)
      → Returns (moves paths k t) (λ t'. Shifted c n t' first)
  unfolding moves
  moves-Shifted zero m t e h hole =
      let k : m ≡ n = omega arith in (t, refl, rw (sym k, sym r.start) h)
  moves-Shifted (suc k) m t e h hole =
      let x = get_or paths k empty_node in
      let tr = r.trail in
      let in_list : k < length paths = omega (arith, tr.size, short, e) in
      let p = r.stops k in
      let q = r.stops (suc k) in
      let lp : p < length t = rw h.size (tr.inside k (omega arith)) in
      let lq : q < length t = rw h.size (tr.inside (suc k) (omega arith)) in
      let from : pre_position x ≡ p = tr.pre k (omega arith) in
      let to : next_position x ≡ q = tr.next k (omega arith) in
      let (used, home) = move_lem k (omega arith) in
      let chain = Route-Chain r m k (omega arith) in
      let (t', run, post) =
        moves-Shifted k (suc m) (set t q (slot_at t p)) (omega arith)
          (Shifted-move c m t p q h hole chain used lp lq home) (inr chain) in
      (
        t',
        rw (node_at-ok paths k in_list, ◌>>=◌, from, entry_at-ok t p lp, to, lt→ltb q (length t) lq)
            run,
        post,
      )

  -- All of the moves of a path, from the table in order.
  pub execute_path-Shifted :
      0 < n → Returns (execute_path c.table paths n) (λ t. Shifted c n t first)
  unfolding execute_path
  execute_path-Shifted some_move =
      let few : ltb (2 ^ 63) n ≡ false = ground (arith, short) in
      let free : Free (slot_at c.table (r.stops n)) =
        Goes-Free v.keys (r.stop (n - 1) (omega (arith, some_move))) in
      rw few (
        moves-Shifted n 0 c.table (omega arith) (Shifted-start c (r.stops n) v free)
          (inl (refl, free)))
