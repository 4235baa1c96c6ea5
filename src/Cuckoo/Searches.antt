-- ===== src/Cuckoo/Searches.antt =====
-- The two searches of a round of `cuckoo_insert` of flatfs/cuckoo_hash.c: each writes its path and counts its
-- steps.
use flatfs.Common.{
  ℕ, ◌+◌, ◌*◌, ◌<◌, ◌≡◌, inl, inr, refl, List, length, true, false, Bool, ok, arith,
}
use flatfs.Cuckoo.{PathNode, CuckooHash, f_hash, s_hash, cuckoo_query, buckets_of}
use flatfs.Cuckoo.Insert.{Found, find_path}
use flatfs.Cuckoo.Paths.{in_table}
use flatfs.Cuckoo.Keep.{slot_at, Used}
use flatfs.Cuckoo.Sound.{IsSound}
use flatfs.Cuckoo.Chain.{Leads, Goes, ends, goes_on}
use flatfs.Cuckoo.Route.{path_loop-Routed}
use flatfs.Cuckoo.Trail.{Trail, Route, Routed}

abbrev pub repathed : CuckooHash → List PathNode → List PathNode → ℕ → CuckooHash
repathed c path1 path2 count = record c {
  evict_path1 = path1;
  evict_path2 = path2;
  find_path = count;
}

module _ (c : CuckooHash) (path1 path2 : List PathNode) (count : ℕ) where
  pub repathed-IsSound :
      IsSound c → length path1 ≡ 16 → length path2 ≡ 16 → IsSound (repathed c path1 path2 count)
  unfolding f_hash s_hash
  repathed-IsSound v size1 size2 = record {
    shape = record {
      some_buckets = v.shape.some_buckets;
      size = v.shape.size;
      path1 = size1;
      path2 = size2;
    };
    keys = v.keys;
    homed = v.homed;
    unique = v.unique;
  }

  repathed-Leads : {p b : ℕ} → Leads c p b → Leads (repathed c path1 path2 count) p b
  unfolding f_hash s_hash
  repathed-Leads x = record { other = x.other; taken = x.taken }

  repathed-Goes :
      {p q : ℕ} {free : Bool} → Goes c p free q → Goes (repathed c path1 path2 count) p free q
  repathed-Goes (ends b i x e l) = ends b i (repathed-Leads x) e l
  repathed-Goes (goes_on b x e) = goes_on b (repathed-Leads x) e

  pub repathed-Route :
      {paths : List PathNode} {n first : ℕ}
      → Route c paths n first
      → Route (repathed c path1 path2 count) paths n first
  repathed-Route r = record {
    stops = r.stops;
    start = r.start;
    trail = record {
      size = r.trail.size;
      pre = r.trail.pre;
      next = r.trail.next;
      inside = r.trail.inside;
    };
    goes = λ j l. repathed-Goes (r.goes j l);
    stop = λ j e. repathed-Goes (r.stop j e);
  }

  pub repathed-Routed :
      (first : ℕ) (r : Found) → Routed c first r → Routed (repathed c path1 path2 count) first r
  repathed-Routed first r (inl e) = inl e
  repathed-Routed first r (inr (some_move, few, route)) = inr (some_move, few, repathed-Route route)

  pub repathed-cuckoo_query :
      (key : List ℕ) → cuckoo_query (repathed c path1 path2 count) key ≡ cuckoo_query c key
  unfolding cuckoo_query buckets_of f_hash s_hash
  repathed-cuckoo_query key = refl

no-Trail :
    (c : CuckooHash) (paths : List PathNode) (p : ℕ)
    → length paths ≡ 16
    → p < length c.table
    → Trail c paths 0 (λ j. p)
no-Trail c paths p size l = record {
  size = size;
  pre = λ j lj. absurd (omega (arith, lj));
  next = λ j lj. absurd (omega (arith, lj));
  inside = λ j lj. l;
}

-- Both searches of a round, of the slots that stand in place `i` of the two buckets.
pub both_routes :
    (c : CuckooHash) (f s i : ℕ)
    → IsSound c
    → f < c.capacity
    → s < c.capacity
    → i < 4
    → Used (slot_at c.table (f * 4 + i))
    → Used (slot_at c.table (s * 4 + i))
    → (r1 : Found) × (r2 : Found) × (find_path c f i true
        ≡ ok (r1.len, record c { evict_path1 = r1.paths; find_path = r1.count }))
      × (find_path (record c { evict_path1 = r1.paths; find_path = r1.count }) s i false
          ≡ ok (r2.len, repathed c r1.paths r2.paths r2.count))
      × IsSound (repathed c r1.paths r2.paths r2.count)
      × Routed (repathed c r1.paths r2.paths r2.count) (f * 4 + i) r1
      × Routed (repathed c r1.paths r2.paths r2.count) (s * 4 + i) r2
unfolding find_path
both_routes c f s i v hf hs hi used_f used_s =
    let (r1, run1, (size1, route1)) =
      path_loop-Routed c v 16 0 f i (f * 4 + i) c.evict_path1 c.find_path (λ j. f * 4 + i) refl hf
        hi
        (no-Trail c c.evict_path1 (f * 4 + i) v.shape.path1
          (in_table c.capacity f i hf hi v.shape.size))
        (λ j lj. absurd (omega (arith, lj))) refl refl used_f in
    let c1 = repathed c r1.paths c.evict_path2 r1.count in
    let v1 = repathed-IsSound c r1.paths c.evict_path2 r1.count v size1 v.shape.path2 in
    let (r2, run2, (size2, route2)) =
      path_loop-Routed c1 v1 16 0 s i (s * 4 + i) c.evict_path2 r1.count (λ j. s * 4 + i) refl hs hi
        (no-Trail c1 c.evict_path2 (s * 4 + i) v.shape.path2
          (in_table c.capacity s i hs hi v.shape.size))
        (λ j lj. absurd (omega (arith, lj))) refl refl used_s in
    (
      r1,
      r2,
      rw run1 refl,
      rw run2 refl,
      repathed-IsSound c r1.paths r2.paths r2.count v size1 size2,
      repathed-Routed c r1.paths r2.paths r2.count (f * 4 + i) r1 route1,
      repathed-Routed c1 r1.paths r2.paths r2.count (s * 4 + i) r2 route2,
    )
