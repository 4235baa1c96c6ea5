-- ===== src/Cuckoo/Map.antt =====
-- `cuckoo_insert` of flatfs/cuckoo_hash.c as an insertion into a map, for a hash in order.
use flatfs.Common.{
  ℕ, zero, suc, ◌+◌, ◌*◌, ◌/◌, ◌%◌, ◌^◌, ◌<◌, ◌≤◌, ◌≡◌, inl, inr, refl, ◌∙◌, List, length, set,
  false, Bool-cases, ◌==◌, Returns, ◌>>=◌, ltb, arith,
}
use flatfs.Name.{my_strlen, str_eq}
use flatfs.Cuckoo.{
  Status, success, fail, PathNode, CuckooHash, f_hash, s_hash, buckets_of, cuckoo_query, invalid,
}
use flatfs.Cuckoo.Insert.{Found, evict_into, evict_loop, cuckoo_insert}
use flatfs.Cuckoo.Inv.{idx-Returns, either_slot-Returns, slot_cases}
use flatfs.Cuckoo.Paths.{in_table}
use flatfs.Cuckoo.Searches.{repathed, repathed-cuckoo_query, both_routes}
use flatfs.Cuckoo.Laws.{written, put-ok}
use flatfs.Cuckoo.Search.{either_slot-hit, either_slot-home}
use flatfs.Cuckoo.Keep.{slot_at, Used, free_lem}
use flatfs.Cuckoo.Sound.{Home, IsSound, either_slot-missed}
use flatfs.Cuckoo.Shift.{Shifted-start}
use flatfs.Cuckoo.Trail.{Route, Routed, used_lem}
use flatfs.Cuckoo.Evict.{execute_path-Shifted}
use flatfs.Cuckoo.Put.{Absent, fails, query-Absent, changed, Mapped, put-Mapped}

-- The key is a string of at most three bytes and not the empty one, in a buffer of four; the value has eight.
module _ (key value : List ℕ) (named : str_eq key invalid ≡ false) (short : my_strlen key < 4)
    (long : 4 ≤ length key) (eight : 8 ≤ length value) where
  -- The evictions of a round, by the path of one of the two buckets.
  evict_into-Mapped :
      (c : CuckooHash) (b i : ℕ) (r : Found)
      → IsSound c
      → Absent c key
      → b < c.capacity
      → i < 4
      → Home c c.capacity key (b * 4 + i)
      → 0 < r.len
      → r.len ≤ 16
      → Route c r.paths r.len (b * 4 + i)
      → Returns (evict_into c key value b i r.paths r.len) (Mapped key value c)
  unfolding evict_into
  evict_into-Mapped c b i r v none_has hb hi home some_move few route =
      let (t, run, h) = execute_path-Shifted c v r.paths r.len (b * 4 + i) route few some_move in
      let inside : b * 4 + i < length t = in_table c.capacity b i hb hi (h.size ∙ v.shape.size) in
      (
        (
          success,
          changed c (set t (b * 4 + i) (written key value)) (suc c.entry_num % 2 ^ 64)
              ((c.evict_len + r.len) % 2 ^ 64),
        ),
        rw (run, ◌>>=◌, put-ok t (b * 4 + i) key value inside long eight) refl,
        put-Mapped key value named short long eight c r.len t (b * 4 + i) (suc c.entry_num % 2 ^ 64)
            ((c.evict_len + r.len) % 2 ^ 64) v none_has h inside home,
      )

  -- What holds for the hash after the searches of a round holds for the hash before them.
  Mapped-repathed :
      (c : CuckooHash) (path1 path2 : List PathNode) (k : ℕ) (r : Status × CuckooHash)
      → Mapped key value (repathed c path1 path2 k) r
      → Mapped key value c r
  Mapped-repathed c path1 path2 k (status, d) (v, inl (e, new, old)) =
      (v, inl (e, new, λ other n ne. old other n ne ∙ repathed-cuckoo_query c path1 path2 k other))
  Mapped-repathed c path1 path2 k (status, d) (v, inr (e, old)) =
      (v, inr (e, λ other. old other ∙ repathed-cuckoo_query c path1 path2 k other))

  -- A search that gives no path gives the length 0.
  Routed-zero :
      (c : CuckooHash) (first : ℕ) (r : Found)
      → (r.len == 0) ≡ false
      → Routed c first r
      → (0 < r.len) × (r.len ≤ 16) × Route c r.paths r.len first
  Routed-zero c first r e (inl z) = absurd (ground (arith, e, z))
  Routed-zero c first r e (inr route) = route

  evict_loop-Mapped :
      (c : CuckooHash) (f s n i : ℕ)
      → IsSound c
      → Absent c key
      → f < c.capacity
      → s < c.capacity
      → f ≡ f_hash c key % c.capacity
      → s ≡ s_hash c key % c.capacity
      → ((j : ℕ) → j < 4 → Used (slot_at c.table (f * 4 + j)) × Used (slot_at c.table (s * 4 + j)))
      → i + n ≡ 4
      → Returns (evict_loop c key value f s n i) (Mapped key value c)
  unfolding evict_loop f_hash s_hash
  evict_loop-Mapped c f s zero i v none_has hf hs ef es taken e =
      ((fail, c), refl, (v, inr (refl, λ other. refl)))
  evict_loop-Mapped c f s (suc n) i v none_has hf hs ef es taken e =
      let hi : i < 4 = omega arith in
      let (taken_f, taken_s) = taken i hi in
      let (r1, r2, run1, run2, w, route1, route2) =
        both_routes c f s i v hf hs hi taken_f taken_s in
      let d = repathed c r1.paths r2.paths r2.count in
      let home_f : Home d d.capacity key (f * 4 + i) = inl (bucket_lem f i hi ∙ ef) in
      let home_s : Home d d.capacity key (s * 4 + i) = inr (bucket_lem s i hi ∙ es) in
      let first = (λ (z : (r1.len == 0) ≡ false).
        let (some_move, few, route) = Routed-zero d (f * 4 + i) r1 z route1 in
        evict_into-Mapped d f i r1 w none_has hf hi home_f some_move few route) in
      let second = (λ (z : (r2.len == 0) ≡ false).
        let (some_move, few, route) = Routed-zero d (s * 4 + i) r2 z route2 in
        evict_into-Mapped d s i r2 w none_has hs hi home_s some_move few route) in
      let back = Mapped-repathed c r1.paths r2.paths r2.count in
      elim (Bool-cases (r1.len == 0)) [
        | inl z1 ↦ elim (Bool-cases (r2.len == 0)) [
          | inl z2 ↦
              let (a, rest, o) =
                evict_loop-Mapped d f s n (suc i) w none_has hf hs ef es taken (omega arith) in
              (a, rw (run1, ◌>>=◌, run2, z1, z2) rest, back a o)
          | inr z2 ↦
              let (a, into, o) = second z2 in (a, rw (run1, ◌>>=◌, run2, z1, z2) into, back a o)
        ]
        | inr z1 ↦ elim (Bool-cases (r2.len == 0)) [
          | inl z2 ↦
              let (a, into, o) = first z1 in (a, rw (run1, ◌>>=◌, run2, z1, z2) into, back a o)
          | inr z2 ↦ elim (Bool-cases (ltb r1.len r2.len)) [
            | inl l ↦
                let (a, into, o) = first z1 in (a, rw (run1, ◌>>=◌, run2, z1, z2, l) into, back a o)
            | inr l ↦
                let (a, into, o) = second z2 in
                (a, rw (run1, ◌>>=◌, run2, z1, z2, l) into, back a o)
          ]
        ]
      ]
    where
      bucket_lem : (b j : ℕ) → j < 4 → (b * 4 + j) / 4 ≡ b
      bucket_lem b j l = omega arith

  -- On a hash in order in which a look-up does not find the key, a string of one to three bytes, cuckoo_insert of
  -- the key and a value of eight bytes returns a hash in order: it succeeds, and then a look-up of the key gives the
  -- value and one of any other key but the empty string gives what it gave before, whichever entries
  -- were moved; or it fails, and every look-up gives what it gave before.
  pub cuckoo_insert-Mapped :
      (c : CuckooHash)
      → IsSound c
      → cuckoo_query c key ≡ fails
      → Returns (cuckoo_insert c key value) (Mapped key value c)
  unfolding cuckoo_insert buckets_of
  cuckoo_insert-Mapped c v missing =
      let none_has = query-Absent c key v named missing in
      let f = f_hash c key % c.capacity in
      let s = s_hash c key % c.capacity in
      let (run_f, f2, hf) = idx-Returns (f_hash c key) c.capacity v.shape.some_buckets in
      let (s1, run_s, hs) = idx-Returns (s_hash c key) c.capacity v.shape.some_buckets in
      elim (slot_cases (
        either_slot-Returns c.table v.keys invalid f s 4 0 (omega (arith, hf, v.shape.size))
          (omega (arith, hs, v.shape.size)))) [
            | inl full ↦
                let taken : (j : ℕ)
                    → j < 4
                    → Used (slot_at c.table (f * 4 + j)) × Used (slot_at c.table (s * 4 + j)) =
                  (λ j l.
                    let (miss_f, miss_s) =
                      either_slot-missed c.table invalid f s 4 0 full j (omega arith) l in
                    (
                      used_lem c.table (f * 4 + j) v.keys
                          (in_table c.capacity f j hf l v.shape.size) miss_f,
                      used_lem c.table (s * 4 + j) v.keys
                          (in_table c.capacity s j hs l v.shape.size) miss_s,
                    )) in
                let (a, rest, o) =
                  evict_loop-Mapped c f s 4 0 v none_has hf hs refl refl taken refl in
                (a, rw (run_f, ◌>>=◌, run_s, full) rest, o)
            | inr (p, free, inside) ↦ (
              (
                success,
                changed c (set c.table p (written key value)) (suc c.entry_num % 2 ^ 64)
                    c.evict_len,
              ),
              rw (run_f, ◌>>=◌, run_s, free, put-ok c.table p key value inside long eight) refl,
              put-Mapped key value named short long eight c 0 c.table p (suc c.entry_num % 2 ^ 64)
                  c.evict_len v none_has
                  (Shifted-start c p v
                    (free_lem c.table p v.keys (either_slot-hit c.table invalid f s 4 0 p free)))
                  inside (either_slot-home c.table invalid f s 4 0 p (omega arith) free),
            )
          ]
