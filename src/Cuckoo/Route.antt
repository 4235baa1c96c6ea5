-- ===== src/Cuckoo/Route.antt =====
-- The path that `find_path` of flatfs/cuckoo_hash.c gives for a hash in order.
use flatfs.Common.{
  ℕ, zero, suc, ◌+◌, ◌*◌, ◌/◌, ◌%◌, ◌^◌, ◌<◌, ◌≡◌, ◌⊎◌, inl, inr, refl, sym, ◌∙◌, ap, List, length,
  set, length-set, update, Bool, true, false, Bool-cases, ◌==◌, ==_iff, Option, some, none, Run, ok,
  Returns, ◌>>=◌, arith,
}
use flatfs.Name.{c_str}
use flatfs.Hash.Reads.{hash-c_str}
use flatfs.Dir.Links.{update_self}
use flatfs.Cuckoo.{PathNode, CuckooHash, f_hash, s_hash, bucket_slot, invalid}
use flatfs.Cuckoo.Insert.{Found, other_bucket, path_loop}
use flatfs.Cuckoo.Inv.{idx-Returns, key_at-Returns, bucket_slot-Returns, slot_cases}
use flatfs.Cuckoo.Paths.{in_table}
use flatfs.Cuckoo.Keep.{slot_at, Used}
use flatfs.Cuckoo.Sound.{IsSound}
use flatfs.Cuckoo.Rehash.{string_lem}
use flatfs.Cuckoo.Chain.{Leads, Goes, ends, goes_on}
use flatfs.Cuckoo.Trail.{
  Trail, Routed, Trail-set, before_lem, bucket_slot-missed, used_lem, other_bucket-home,
}

-- The moves of a path with a stop more.
Goes-before :
    (c : CuckooHash) (stops : ℕ → ℕ) (used q j : ℕ)
    → ((j : ℕ) → j < used → Goes c (stops j) false (stops (suc j)))
    → j < used
    → Goes c (update stops (suc used) q j) false (update stops (suc used) q (suc j))
Goes-before c stops used q j goes l =
    rw (before_lem stops used q j (omega arith), before_lem stops used q (suc j) (omega arith))
      (goes j l)

Goes-last :
    (c : CuckooHash) (stops : ℕ → ℕ) (used q : ℕ) (free : Bool) (j : ℕ)
    → j ≡ used
    → Goes c (stops used) free q
    → Goes c (update stops (suc used) q j) free (update stops (suc used) q (suc used))
Goes-last c stops used q free j k g =
    rw (k, before_lem stops used q used (omega arith), update_self stops (suc used) q) g

Goes-further :
    (c : CuckooHash) (stops : ℕ → ℕ) (used q j : ℕ)
    → ((j : ℕ) → j < used → Goes c (stops j) false (stops (suc j)))
    → Goes c (stops used) false q
    → j < suc used
    → Goes c (update stops (suc used) q j) false (update stops (suc used) q (suc j))
Goes-further c stops used q j goes g l = elim (Bool-cases (j == used)) [
  | inl b ↦
      let k : j ≡ used = (==_iff j used).0 b in
      rw (ap (λ i. update stops (suc used) q (suc i)) k) (Goes-last c stops used q false j k g)
  | inr b ↦ Goes-before c stops used q j goes (ground (arith, b, l))
]

hashes_lem :
    (c : CuckooHash) (a b : List ℕ)
    → c_str a ≡ c_str b
    → (f_hash c a ≡ f_hash c b) × (s_hash c a ≡ s_hash c b)
unfolding f_hash s_hash
hashes_lem c a b e = (hash-c_str a b c.f_seed e, hash-c_str a b c.s_seed e)

-- What the search does with the bucket that it goes to.
node_of : ℕ → ℕ → ℕ → ℕ → PathNode
node_of b i e j = record { pre_bucket = b; pre_slot = i; next_bucket = e; next_slot = j }

abbrev search_bucket : CuckooHash → ℕ → ℕ → ℕ → ℕ → List PathNode → ℕ → ℕ → Option ℕ → Run Found
search_bucket c n used b i paths count e none =
    path_loop c n (suc used) e 3 (set paths used (node_of b i e 3)) (suc count % 2 ^ 64)
search_bucket c n used b i paths count e (some j) = ok (record {
  len = suc used;
  paths = set paths used (node_of b i e j);
  count = suc count % 2 ^ 64;
})

module _ (c : CuckooHash) (v : IsSound c) where
  -- A round of the search goes to the other bucket of the entry.
  round_lem :
      (n used b i : ℕ) (paths : List PathNode) (count : ℕ)
      → b < c.capacity
      → i < 4
      → Used (slot_at c.table (b * 4 + i))
      → (e : ℕ) × Leads c (b * 4 + i) e
        × (e < c.capacity)
        × (path_loop c (suc n) used b i paths count
            ≡ (bucket_slot c.table invalid e 4 0 >>= search_bucket c n used b i paths count e))
  unfolding path_loop node_of
  round_lem n used b i paths count hb hi u =
      let p = b * 4 + i in
      let inside = in_table c.capacity b i hb hi v.shape.size in
      let bucket : p / 4 ≡ b = omega (arith, hi) in
      let own = (slot_at c.table p).key in
      let (key, run, un) = key_at-Returns c.table v.keys p inside in
      let string = string_lem c.table p key v.keys inside run in
      let (f, f2, fb) = idx-Returns (f_hash c own) c.capacity v.shape.some_buckets in
      let (s1, s, sb) = idx-Returns (s_hash c own) c.capacity v.shape.some_buckets in
      let (e, other, eb) =
        other_bucket-home (p / 4) (f_hash c own % c.capacity) (s_hash c own % c.capacity)
          (v.homed p inside u) in
      let leads : other_bucket b (f_hash c own % c.capacity) (s_hash c own % c.capacity) ≡ some e =
        ap (λ x. other_bucket x (f_hash c own % c.capacity) (s_hash c own % c.capacity))
          (sym bucket)
        ∙ other in
      let (same_f, same_s) = hashes_lem c key own string in
      (
        e,
        record { other = other; taken = u },
        bound e _ _ c.capacity fb sb eb,
        rw (run, ◌>>=◌, same_f, same_s, f, s, leads) refl,
      )
    where
      bound : (e f s n : ℕ) → f < n → s < n → (e ≡ f) ⊎ (e ≡ s) → e < n
      bound e f s n hf hs (inl k) = rw k hf
      bound e f s n hf hs (inr k) = rw k hs

  pub path_loop-Routed :
      (n used b i first : ℕ) (paths : List PathNode) (count : ℕ) (stops : ℕ → ℕ)
      → used + n ≡ 16
      → b < c.capacity
      → i < 4
      → Trail c paths used stops
      → ((j : ℕ) → j < used → Goes c (stops j) false (stops (suc j)))
      → stops 0 ≡ first
      → b * 4 + i ≡ stops used
      → Used (slot_at c.table (b * 4 + i))
      → Returns (path_loop c n used b i paths count) (λ r. (length r.paths ≡ 16) × Routed c first r)
  unfolding path_loop node_of
  path_loop-Routed zero used b i first paths count stops e hb hi t goes start here u =
      (record { len = 0; paths = paths; count = count }, refl, (t.size, inl refl))
  path_loop-Routed (suc n) used b i first paths count stops e hb hi t goes start here u =
      let (to, leads, lb, run) = round_lem n used b i paths count hb hi u in
      let from : Leads c (stops used) to = rw (sym here) leads in
      let few : used < 16 = omega arith in
      let begins = (λ (q : ℕ). before_lem stops used q 0 (omega arith) ∙ start) in
      elim (slot_cases (
        bucket_slot-Returns c.table v.keys invalid to 4 0 4
          (omega (arith, in_table c.capacity to 3 lb (omega arith) v.shape.size)) refl)) [
            | inl full ↦
                let q = to * 4 + 3 in
                let inside = in_table c.capacity to 3 lb (omega arith) v.shape.size in
                let (r, rest, post) =
                  path_loop-Routed n (suc used) to 3 first (set paths used (node_of b i to 3))
                    (suc count % 2 ^ 64) (update stops (suc used) q) (omega arith) lb (omega arith)
                    (Trail-set (node_of b i to 3) q few t here refl inside)
                    (λ j l. Goes-further c stops used q j goes (goes_on to from full) l) (begins q)
                    (sym (update_self stops (suc used) q))
                    (used_lem c.table q v.keys inside (
                      bucket_slot-missed c.table invalid to 4 0 full 3 (omega arith)
                        (omega arith))) in
                (r, rw (run, full) rest, post)
            | inr (j', free, lj) ↦
                let q = to * 4 + j' in
                let inside = in_table c.capacity to j' lb lj v.shape.size in
                let x = node_of b i to j' in
                (
                  record { len = suc used; paths = set paths used x; count = suc count % 2 ^ 64 },
                  rw (run, free) refl,
                  (
                    length-set paths used x ∙ t.size,
                    inr (
                      omega arith,
                      omega arith,
                      record {
                        stops = update stops (suc used) q;
                        start = begins q;
                        trail = Trail-set x q few t here refl inside;
                        goes = λ j l. Goes-before c stops used q j goes (omega arith);
                        stop = λ j l.
                            Goes-last c stops used q true j (omega arith) (ends to j' from free lj);
                      },
                    ),
                  ),
                )
          ]
