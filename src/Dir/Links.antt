-- ===== src/Dir/Links.antt =====
-- Doubly linked lists on the heap of flatfs/dir.c: what it is for a list of subdirectories to be
-- well linked, and what the stores do to it.
use flatfs.Common.{
  length, ◌<◌, ◌^◌, lt→ltb, ℕ, ◌≡◌, ◌≢◌, refl, sym, ◌∙◌, List, [], ◌∷◌, ◌++◌, Option, some, ok,
  update, arith, ap,
}
use flatfs.Config.{max_dir_bits}
use flatfs.Name.{my_strlen}
use flatfs.Dir.{array_strlen, DirTree, entry_of, DirListEntry, load, store_next, store_last}

abbrev pub Heap : Type 0
Heap = ℕ → Option DirListEntry

-- No node of the list has the address.
unfoldable pub Avoids : ℕ → List (ℕ × ℕ) → Type 0
Avoids a [] = Unit {0}
Avoids a ((b, id) ∷ xs) = (a ≢ b) × Avoids a xs

-- The node at an address, with its links.
unfoldable pub IsNode : Heap → ℕ → ℕ → Option ℕ → Option ℕ → Type 0
IsNode heap a id last next = heap a ≡ some (record { de = id; last = last; next = next })

-- From `p`, whose node points back to `last`, the nodes `xs` (address and id of each) follow one
-- another up to the node `end`, which points on to `q`.
unfoldable pub Links : Heap → Option ℕ → Option ℕ → List (ℕ × ℕ) → Option ℕ → Option ℕ → Type 0
Links heap last p [] end q = (p ≡ q) × (last ≡ end)
Links heap last p ((a, id) ∷ xs) end q =
    (p ≡ some a)
    × Avoids a xs
    × (next : Option ℕ) × IsNode heap a id last next
    × Links heap (some a) next xs end q

pub update_self {ℓ} : {A : Type ℓ} (f : ℕ → A) (k : ℕ) (v : A) → update f k v k ≡ v
update_self f k v = ground arith

pub update_ne {ℓ} : {A : Type ℓ} (f : ℕ → A) (k j : ℕ) (v : A) → j ≢ k → update f k v j ≡ f j
update_ne f k j v ne = ground (arith, ne)

-- A write at an address that the list avoids.
pub Links-frame :
    (heap : Heap) (a : ℕ) (v : Option DirListEntry) (last p : Option ℕ) (xs : List (ℕ × ℕ))
    (end q : Option ℕ)
    → Avoids a xs
    → Links heap last p xs end q
    → Links (update heap a v) last p xs end q
unfolding Avoids Links IsNode
Links-frame heap a v last p [] end q av h = h
Links-frame heap a v last p ((b, id) ∷ xs) end q (ne, av) (e, fresh, next, node, rest) = (
  e,
  fresh,
  next,
  update_ne heap a b v (λ s. ne (sym s)) ∙ node,
  Links-frame heap a v (some b) next xs end q av rest,
)

pub Avoids-snoc :
    (a b id : ℕ) (xs : List (ℕ × ℕ)) → Avoids a xs → a ≢ b → Avoids a (xs ++ (b, id) ∷ [])
unfolding Avoids
Avoids-snoc a b id [] av ne = (ne, tt)
Avoids-snoc a b id ((c, i) ∷ xs) (nc, av) ne = (nc, Avoids-snoc a b id xs av ne)

pub some-inj : {a b : ℕ} → some a ≡ some b → a ≡ b
some-inj e = cc

-- The list after its last node, at `z`, has been made to point on to `q`.
pub record Ended (heap : Heap) (last p : Option ℕ) (xs : List (ℕ × ℕ)) (z : ℕ) (q : Option ℕ)
    : Type 0 where
  pub node : DirListEntry
  pub there : heap z ≡ some node
  pub inside : (c : ℕ) → Avoids c xs → c ≢ z
  pub links : Links (update heap z (some (record node { next = q }))) last p xs (some z) q

pub Links-Ended :
    (heap : Heap) (last p : Option ℕ) (a id : ℕ) (xs : List (ℕ × ℕ)) (z : ℕ) (q q' : Option ℕ)
    → Links heap last p ((a, id) ∷ xs) (some z) q
    → Ended heap last p ((a, id) ∷ xs) z q'
unfolding Avoids Links IsNode
Links-Ended heap last p a id [] z q q' (e, fresh, next, node, (eq, az)) =
    let same = some-inj az in
    record {
      node = record { de = id; last = last; next = next };
      there = ap heap (sym same) ∙ node;
      inside = λ c (ne, av) s. ne (s ∙ sym same);
      links = (
        e,
        tt,
        q',
        ap (λ k. update heap k (some (record { de = id; last = last; next = q' })) a) (sym same)
            ∙ update_self heap a (some (record { de = id; last = last; next = q' })),
        (refl, az),
      );
    }
Links-Ended heap last p a id ((b, i) ∷ xs) z q q' (e, fresh, next, node, rest) =
    let h = Links-Ended heap (some a) next b i xs z q q' rest in
    record {
      node = h.node;
      there = h.there;
      inside = λ c (ne, av). h.inside c av;
      links = (
        e,
        fresh,
        next,
        update_ne heap z a (some (record h.node { next = q' })) (h.inside a fresh) ∙ node,
        h.links,
      );
    }

-- One more node after the last.
pub Links-snoc :
    (heap : Heap) (last p : Option ℕ) (xs : List (ℕ × ℕ)) (end : Option ℕ) (b id : ℕ) (q : Option ℕ)
    → Avoids b xs
    → IsNode heap b id end q
    → Links heap last p xs end (some b)
    → Links heap last p (xs ++ (b, id) ∷ []) (some b) q
unfolding Avoids Links IsNode
Links-snoc heap last p [] end b id q av node (e, l) =
    (e, tt, q, node ∙ ap (λ k. some (record { de = id; last = k; next = q })) (sym l), (refl, refl))
Links-snoc heap last p ((a, i) ∷ xs) end b id q (ne, av) node (e, fresh, next, n, rest) = (
  e,
  Avoids-snoc a b id xs fresh (λ s. ne (sym s)),
  next,
  n,
  Links-snoc heap (some a) next xs end b id q av node rest,
)

pub load-ok : (heap : Heap) (a : ℕ) (n : DirListEntry) → heap a ≡ some n → load heap a ≡ ok n
unfolding load
load-ok heap a n e = rw (e, load)

pub store_next-ok :
    (heap : Heap) (a : ℕ) (n : DirListEntry) (q : Option ℕ)
    → heap a ≡ some n
    → store_next heap (some a) q ≡ ok (update heap a (some (record n { next = q })))
unfolding store_next
store_next-ok heap a n q e = rw (load-ok heap a n e)

pub store_last-ok :
    (heap : Heap) (a : ℕ) (n : DirListEntry) (q : Option ℕ)
    → heap a ≡ some n
    → store_last heap (some a) q ≡ ok (update heap a (some (record n { last = q })))
unfolding store_last
store_last-ok heap a n q e = rw (load-ok heap a n e)

Avoids-front : (a : ℕ) (xs ys : List (ℕ × ℕ)) → Avoids a (xs ++ ys) → Avoids a xs
unfolding Avoids
Avoids-front a [] ys av = tt
Avoids-front a ((b, i) ∷ xs) ys (ne, av) = (ne, Avoids-front a xs ys av)

-- A list in two parts, and the nodes between which it is cut.
pub Links-split :
    (heap : Heap) (last p : Option ℕ) (xs ys : List (ℕ × ℕ)) (end q : Option ℕ)
    → Links heap last p (xs ++ ys) end q
    → (m : Option ℕ) × (s : Option ℕ) × Links heap last p xs m s × Links heap m s ys end q
unfolding Links Avoids
Links-split heap last p [] ys end q h = (last, p, (refl, refl), h)
Links-split heap last p ((a, id) ∷ xs) ys end q (e, fresh, next, node, rest) =
    let (m, s, l, r) = Links-split heap (some a) next xs ys end q rest in
    (m, s, (e, Avoids-front a xs ys fresh, next, node, l), r)

-- The address of the last node.
pub Links-end :
    (heap : Heap) (last p : Option ℕ) (a id : ℕ) (xs : List (ℕ × ℕ)) (end q : Option ℕ)
    → Links heap last p ((a, id) ∷ xs) end q
    → (z : ℕ) × end ≡ some z
unfolding Links
Links-end heap last p a id [] end q (e, fresh, next, node, (eq, l)) = (a, sym l)
Links-end heap last p a id ((b, i) ∷ xs) end q (e, fresh, next, node, rest) =
    Links-end heap (some a) next b i xs end q rest

-- An index that is inside the array.
pub entry_of-ok : (t : DirTree) (id : ℕ) → id < 2 ^ max_dir_bits → entry_of t id ≡ ok (t.de id)
unfolding entry_of
entry_of-ok t id h = rw (lt→ltb id (2 ^ max_dir_bits) h) refl

-- An array with a zero byte.
pub array_strlen-ok :
    (name : List ℕ) → my_strlen name < length name → array_strlen name ≡ ok (my_strlen name)
unfolding array_strlen
array_strlen-ok name h = rw (lt→ltb (my_strlen name) (length name) h) refl
