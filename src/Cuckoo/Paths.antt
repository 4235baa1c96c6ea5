-- ===== src/Cuckoo/Paths.antt =====
-- The paths of evictions that `find_path` of flatfs/cuckoo_hash.c writes.
use flatfs.Common.{
  ℕ, zero, suc, ◌+◌, ◌*◌, ◌%◌, ◌^◌, ◌<◌, ◌≤◌, ◌≡◌, ◌≢◌, ◌⊎◌, refl, sym, ◌∙◌, ap, List, [], ◌∷◌,
  length, set, length-set, get_or, get_or-set_self, get_or-set_ne, true, false, some, none, ok,
  Returns, ◌>>=◌, ◌==◌, Bool-cases, inl, inr, ltb, lt→ltb, arith,
}
use flatfs.Cuckoo.{Entry, PathNode, empty_node, invalid, CuckooHash, f_hash, s_hash}
use flatfs.Cuckoo.Insert.{Found, path_error, other_bucket, path_loop, node_at, moves, execute_path}
use flatfs.Cuckoo.Inv.{IsCuckoo, idx-Returns, key_at-Returns, bucket_slot-Returns, slot_cases}
use flatfs.Cuckoo.Strings.{KeysEnd, KeysEnd-set, key_ends}
use flatfs.Cuckoo.Keep.{slot_at, entry_at-ok}

-- A node whose two slots are in a table of `n` buckets.
pub record NodeIn (n : ℕ) (x : PathNode) : Type 0 where
  pub pre_bucket : x.pre_bucket < n
  pub pre_slot : x.pre_slot < 4
  pub next_bucket : x.next_bucket < n
  pub next_slot : x.next_slot < 4

-- The first `used` nodes of a path of sixteen.
pub record PathIn (n used : ℕ) (paths : List PathNode) : Type 0 where
  pub size : length paths ≡ 16
  pub nodes : (j : ℕ) → j < used → NodeIn n (get_or paths j empty_node)

PathIn-set :
    (n used : ℕ) (paths : List PathNode) (x : PathNode)
    → used < 16
    → PathIn n used paths
    → NodeIn n x
    → PathIn n (suc used) (set paths used x)
PathIn-set n used paths x h v w = record {
  size = length-set paths used x ∙ v.size;
  nodes = λ j lt. elim (Bool-cases (j == used)) [
    | inl e ↦
        let same : j ≡ used = ground (arith, e) in
        let inside : used < length paths = omega (arith, v.size) in
        at
          (sym (
            ap (λ k. get_or (set paths used x) k empty_node) same
            ∙ get_or-set_self paths used x empty_node inside))
          w
    | inr e ↦
        let other : used ≢ j = ground (arith, e) in
        at (sym (get_or-set_ne paths used j x empty_node other)) (v.nodes j (ground (arith, e, lt)))
  ];
}
  where
    at : {a b : PathNode} → a ≡ b → NodeIn n a → NodeIn n b
    at e h = rw (sym e) h

-- What find_path returns: the length of a path that is in the table, 0, or the error.
pub record Searched (n : ℕ) (r : Found) : Type 0 where
  pub path : PathIn n 0 r.paths
  pub len : (PathIn n r.len r.paths × (r.len ≤ 16)) ⊎ (r.len ≡ path_error)

other_bucket-cases :
    (cur f s n : ℕ)
    → f < n
    → s < n
    → (other_bucket cur f s ≡ none) ⊎ ((b : ℕ) × (other_bucket cur f s ≡ some b) × (b < n))
unfolding other_bucket
other_bucket-cases cur f s n hf hs = elim (Bool-cases (f == cur)) [
  | inl e ↦ inr (s, rw e refl, hs)
  | inr e ↦ elim (Bool-cases (s == cur)) [
    | inl g ↦ inr (f, rw (e, g) refl, hf)
    | inr g ↦ inl (rw (e, g) refl)
  ]
]

pub in_table : {m : ℕ} (n b i : ℕ) → b < n → i < 4 → m ≡ n * 4 → b * 4 + i < m
in_table n b i hb hi e = omega arith

PathIn-none : {n used : ℕ} {paths : List PathNode} → PathIn n used paths → PathIn n 0 paths
PathIn-none p = record { size = p.size; nodes = λ j lt. absurd (omega arith) }

module _ (c : CuckooHash) (v : IsCuckoo c) (keys : KeysEnd c.table) where
  pub path_loop-Searched :
      (n used cur_bucket cur_slot : ℕ) (paths : List PathNode) (count : ℕ)
      → used + n ≡ 16
      → cur_bucket < c.capacity
      → cur_slot < 4
      → PathIn c.capacity used paths
      → Returns (path_loop c n used cur_bucket cur_slot paths count) (Searched c.capacity)
  unfolding path_loop
  path_loop-Searched zero used cur_bucket cur_slot paths count e hb hs p = (
    record { len = 0; paths = paths; count = count },
    refl,
    record { path = PathIn-none p; len = inl (PathIn-none p, omega arith) },
  )
  path_loop-Searched (suc n) used cur_bucket cur_slot paths count e hb hs p =
      let (key, run, u) =
        key_at-Returns c.table keys (cur_bucket * 4 + cur_slot)
          (in_table c.capacity cur_bucket cur_slot hb hs v.size) in
      let (f, f2, fb) = idx-Returns (f_hash c key) c.capacity v.some_buckets in
      let (s1, s, sb) = idx-Returns (s_hash c key) c.capacity v.some_buckets in
      elim (other_bucket-cases cur_bucket (f_hash c key % c.capacity) (s_hash c key % c.capacity)
        c.capacity fb sb) [
          | inl stuck ↦ (
            record { len = path_error; paths = paths; count = suc count % 2 ^ 64 },
            rw (run, ◌>>=◌, f, s, stuck) refl,
            record { path = PathIn-none p; len = inr refl },
          )
          | inr (b, goes, bb) ↦
              elim (slot_cases (
                bucket_slot-Returns c.table keys invalid b 4 0 4
                  (omega (arith, in_table c.capacity b 3 bb (omega arith) v.size)) (omega arith))) [
                    | inl full ↦
                        let x : PathNode = record {
                          pre_bucket = cur_bucket;
                          pre_slot = cur_slot;
                          next_bucket = b;
                          next_slot = 3;
                        } in
                        let q = PathIn-set c.capacity used paths x (omega arith) p (record {
                          pre_bucket = hb;
                          pre_slot = hs;
                          next_bucket = bb;
                          next_slot = omega arith;
                        }) in
                        let (r, run', h) =
                          path_loop-Searched n (suc used) b 3 (set paths used x)
                            (suc count % 2 ^ 64) (omega arith) bb (omega arith) q in
                        (r, rw (run, ◌>>=◌, f, s, goes, full) run', h)
                    | inr (i, free, ib) ↦
                        let x : PathNode = record {
                          pre_bucket = cur_bucket;
                          pre_slot = cur_slot;
                          next_bucket = b;
                          next_slot = i;
                        } in
                        let q = PathIn-set c.capacity used paths x (omega arith) p (record {
                          pre_bucket = hb;
                          pre_slot = hs;
                          next_bucket = bb;
                          next_slot = ib;
                        }) in
                        (
                          record {
                            len = suc used;
                            paths = set paths used x;
                            count = suc count % 2 ^ 64;
                          },
                          rw (run, ◌>>=◌, f, s, goes, free) refl,
                          record { path = PathIn-none q; len = inl (q, omega arith) },
                        )
                  ]
        ]

pub node_at-ok :
    (paths : List PathNode) (i : ℕ)
    → i < length paths
    → node_at paths i ≡ ok (get_or paths i empty_node)
unfolding node_at
node_at-ok [] i h = absurd (omega arith)
node_at-ok (x ∷ paths) zero h = refl
node_at-ok (x ∷ paths) (suc i) h = node_at-ok paths i (omega arith)

moves-Returns :
    (n : ℕ) (paths : List PathNode) (k : ℕ) (table : List Entry)
    → length table ≡ n * 4
    → KeysEnd table
    → PathIn n k paths
    → k ≤ 16
    → Returns (moves paths k table) (λ t. (length t ≡ length table) × KeysEnd t)
unfolding moves
moves-Returns n paths zero table size keys p h = (table, refl, (refl, keys))
moves-Returns n paths (suc k) table size keys p h =
    let x = get_or paths k empty_node in
    let w = p.nodes k (omega arith) in
    let at_k = node_at-ok paths k (omega (arith, p.size)) in
    let from = x.pre_bucket * 4 + x.pre_slot in
    let there = in_table n x.pre_bucket x.pre_slot w.pre_bucket w.pre_slot size in
    let e = slot_at table from in
    let read = entry_at-ok table from there in
    let to = x.next_bucket * 4 + x.next_slot in
    let inside =
      lt→ltb to (length table)
        (in_table n x.next_bucket x.next_slot w.next_bucket w.next_slot size) in
    let same = length-set table to e in
    let (t, run, (l, ends)) =
      moves-Returns n paths k (set table to e) (same ∙ size)
        (KeysEnd-set table to e keys (key_ends table from keys there))
        (record { size = p.size; nodes = λ j lt. p.nodes j (omega arith) }) (omega arith) in
    (t, rw (at_k, ◌>>=◌, read, inside) run, (l ∙ same, ends))

pub execute_path-Returns :
    (n : ℕ) (r : Found) (table : List Entry)
    → length table ≡ n * 4
    → KeysEnd table
    → Searched n r
    → Returns (execute_path table r.paths r.len) (λ t. (length t ≡ length table) × KeysEnd t)
unfolding execute_path
execute_path-Returns n r table size keys h = elim h.len [
  | inl (p, short) ↦
      let few : ltb (2 ^ 63) r.len ≡ false = ground (arith, short) in
      let (t, run, l) = moves-Returns n r.paths r.len table size keys p short in (t, rw few run, l)
  | inr e ↦
      let many : ltb (2 ^ 63) r.len ≡ true = ground (arith, e) in
      (table, rw many refl, (refl, keys))
]
