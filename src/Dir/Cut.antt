-- ===== src/Dir/Cut.antt =====
-- A node taken out of the middle of a doubly linked list of flatfs/dir.c.
use flatfs.Common.{
  ℕ, ◌≡◌, ◌≢◌, refl, sym, ◌∙◌, ap, List, [], ◌∷◌, ◌++◌, Option, some, none, ok, update, ◌==◌, false,
  if◌then◌else◌, suc, length, arith,
}
use flatfs.Dir.{DirListEntry, try_store_next, try_store_last}
use flatfs.Dir.Links.{
  Heap, Avoids, IsNode, Links, Links-frame, Links-Ended, Links-split, Links-end, store_next-ok,
  store_last-ok, update_self, update_ne, some-inj,
}

-- The nodes of the first list differ from one another and from those of the second.
unfoldable Distinct : List (ℕ × ℕ) → List (ℕ × ℕ) → Type 0
Distinct [] ws = Unit {0}
Distinct ((a, i) ∷ xs) ws = Avoids a (xs ++ ws) × Distinct xs ws

Links-Distinct :
    (heap : Heap) (last p : Option ℕ) (xs ws : List (ℕ × ℕ)) (end q : Option ℕ)
    → Links heap last p (xs ++ ws) end q
    → Distinct xs ws
unfolding Links Distinct
Links-Distinct heap last p [] ws end q h = tt
Links-Distinct heap last p ((a, i) ∷ xs) ws end q (e, fresh, next, node, rest) =
    (fresh, Links-Distinct heap (some a) next xs ws end q rest)

Avoids-out :
    (a z id : ℕ) (xs ws : List (ℕ × ℕ))
    → Avoids a (xs ++ (z, id) ∷ ws)
    → (a ≢ z) × Avoids a (xs ++ ws)
unfolding Avoids
Avoids-out a z id [] ws h = h
Avoids-out a z id ((b, i) ∷ xs) ws (ne, h) =
    let (nz, rest) = Avoids-out a z id xs ws h in (nz, (ne, rest))

Distinct-out :
    (z id : ℕ) (xs ws : List (ℕ × ℕ)) → Distinct xs ((z, id) ∷ ws) → Avoids z xs × Distinct xs ws
unfolding Distinct Avoids
Distinct-out z id [] ws h = (tt, tt)
Distinct-out z id ((a, i) ∷ xs) ws (fresh, h) =
    let (ne, av) = Avoids-out a z id xs ws fresh in
    let (front, rest) = Distinct-out z id xs ws h in (((λ e. ne (sym e)), front), (av, rest))

Links-append :
    (heap : Heap) (last p : Option ℕ) (xs ws : List (ℕ × ℕ)) (m s end q : Option ℕ)
    → Distinct xs ws
    → Links heap last p xs m s
    → Links heap m s ws end q
    → Links heap last p (xs ++ ws) end q
unfolding Links Distinct
Links-append heap last p [] ws m s end q d (e, l) h = rw (e, l) h
Links-append heap last p ((a, i) ∷ xs) ws m s end q (fresh, d) (e, av, next, node, rest) h =
    (e, fresh, next, node, Links-append heap (some a) next xs ws m s end q d rest h)

-- The last node of the first list is not in the second.
end-Avoids :
    (heap : Heap) (last p : Option ℕ) (a i : ℕ) (xs ws : List (ℕ × ℕ)) (m : ℕ) (s : Option ℕ)
    → Distinct ((a, i) ∷ xs) ws
    → Links heap last p ((a, i) ∷ xs) (some m) s
    → Avoids m ws
unfolding Links Distinct
end-Avoids heap last p a i [] ws m s (fresh, d) (e, av, next, node, (eq, l)) =
    let k : a ≡ m = some-inj l in rw (sym k) fresh
end-Avoids heap last p a i ((b, j) ∷ xs) ws m s (fresh, d) (e, av, next, node, rest) =
    end-Avoids heap (some a) next b j xs ws m s d rest

-- The first node is taken out of a list of two at least: the second points back to what the first pointed back to.
Links-tail :
    (heap : Heap) (last : Option ℕ) (z id y iy : ℕ) (ys : List (ℕ × ℕ)) (s end q : Option ℕ)
    → Links heap last s ((z, id) ∷ (y, iy) ∷ ys) end q
    → (node : DirListEntry) × (heap z ≡ some (record { de = id; last = last; next = some y }))
      × (heap y ≡ some node)
      × Links
          (update (update heap y (some (record node { last = last }))) z none)
          last
          (some y)
          ((y, iy) ∷ ys)
          end
          q
unfolding Links Avoids IsNode
Links-tail heap last z id y iy ys s end q
      (e, (ne, fresh_z), next, node, (ey, fresh, next2, node_y, rest)) =
    let written : DirListEntry = record { de = iy; last = last; next = next2 } in
    let heap1 = update heap y (some written) in
    (
      record { de = iy; last = some z; next = next2 },
      node ∙ ap (λ k. some (record { de = id; last = last; next = k })) ey,
      node_y,
      (
        refl,
        fresh,
        next2,
        update_ne heap1 z y none (λ k. ne (sym k)) ∙ update_self heap y (some written),
        Links-frame heap1 z none (some y) next2 ys end q fresh_z
            (Links-frame heap y (some written) (some y) next2 ys end q fresh rest),
      ),
    )

start_lem :
    (heap : Heap) (last s : Option ℕ) (z id : ℕ) (ws : List (ℕ × ℕ)) (end q : Option ℕ)
    → Links heap last s ((z, id) ∷ ws) end q
    → s ≡ some z
unfolding Links
start_lem heap last s z id ws end q h = h.0

-- What the stores of `remove_dir` make of a list with the node at `z`, behind `xs` and before the node at `y`.
pub record IsCut (heap : Heap) (p : Option ℕ) (xs : List (ℕ × ℕ)) (z id y iy : ℕ)
    (ys : List (ℕ × ℕ)) (end : Option ℕ) : Type 0 where
  pub before : Option ℕ
  pub node : heap z ≡ some (record { de = id; last = before; next = some y })
  pub front : Links heap none p xs before (some z)
  pub heap1 : Heap
  pub heap2 : Heap
  pub run1 : (if length xs == 0 then ok heap else try_store_next heap before (some y)) ≡ ok heap1
  pub run2 : try_store_last heap1 (some y) before ≡ ok heap2
  pub links :
      Links
        (update heap2 z none)
        none
        (if length xs == 0 then some y else p)
        (xs ++ (y, iy) ∷ ys)
        end
        none

pub Links-IsCut :
    (heap : Heap) (p : Option ℕ) (xs : List (ℕ × ℕ)) (z id y iy : ℕ) (ys : List (ℕ × ℕ))
    (end : Option ℕ)
    → Links heap none p (xs ++ (z, id) ∷ (y, iy) ∷ ys) end none
    → IsCut heap p xs z id y iy ys end
unfolding try_store_next try_store_last Links
Links-IsCut heap p [] z id y iy ys end h =
    let (node, at_z, at_y, links) = Links-tail heap none z id y iy ys p end none h in
    record {
      before = none;
      node = at_z;
      front = (h.0, refl);
      heap1 = heap;
      heap2 = update heap y (some (record node { last = none }));
      run1 = refl;
      run2 = store_last-ok heap y node none at_y;
      links = links;
    }
Links-IsCut heap p ((a, i) ∷ xs) z id y iy ys end h =
    let ws = (z, id) ∷ (y, iy) ∷ ys in
    let (m0, s, front, back) = Links-split heap none p ((a, i) ∷ xs) ws end none h in
    let (m, em) = Links-end heap none p a i xs m0 s front in
    let front_m : Links heap none p ((a, i) ∷ xs) (some m) s = rw (sym em) front in
    let back_m : Links heap (some m) s ws end none = rw (sym em) back in
    let d = Links-Distinct heap none p ((a, i) ∷ xs) ws end none h in
    let (avoids_z, d_y) = Distinct-out z id ((a, i) ∷ xs) ((y, iy) ∷ ys) d in
    let (avoids_y, d_ys) = Distinct-out y iy ((a, i) ∷ xs) ys d_y in
    let e = Links-Ended heap none p a i xs m s (some y) front_m in
    let pointed : DirListEntry = record e.node { next = some y } in
    let heap1 = update heap m (some pointed) in
    let (node0, at_z, at_y0, links0) = Links-tail heap (some m) z id y iy ys s end none back_m in
    let (node, at_z1, at_y, links) = Links-tail heap1 (some m) z id y iy ys s end none (
      Links-frame heap m (some pointed) (some m) s ws end none
        (end-Avoids heap none p a i xs ws m s d front_m) back_m) in
    let heap2 = update heap1 y (some (record node { last = some m })) in
    let nz : (suc (length xs) == 0) ≡ false = ground arith in
    let to_z : s ≡ some z = start_lem heap (some m) s z id ((y, iy) ∷ ys) end none back_m in
    record {
      before = some m;
      node = at_z;
      front = rw (sym to_z) front_m;
      heap1 = heap1;
      heap2 = heap2;
      run1 = rw nz (store_next-ok heap m e.node (some y) e.there);
      run2 = store_last-ok heap1 y node (some m) at_y;
      links = rw nz (
          Links-append (update heap2 z none) none p ((a, i) ∷ xs) ((y, iy) ∷ ys) (some m) (some y)
            end none d_y
            (Links-frame heap2 z none none p ((a, i) ∷ xs) (some m) (some y) avoids_z (
              Links-frame heap1 y (some (record node { last = some m })) none p ((a, i) ∷ xs)
                (some m) (some y) avoids_y e.links))
            links);
    }
