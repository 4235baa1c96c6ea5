-- ===== src/Cuckoo/Keep.antt =====
-- The entries of a table under `cuckoo_resize` of flatfs/cuckoo_hash.c.
use flatfs.Common.{
  ℕ, ◌+◌, zero, suc, [], ◌∷◌, ◌*◌, ◌/◌, ◌<◌, ◌≡◌, ◌⊎◌, refl, sym, ◌∙◌, ap, List, length, set,
  length-set, get_or, get_or-set_ne, Bool, true, false, some, none, ok, ◌==◌, Bool-cases, inl, inr,
  arith,
}
use flatfs.Name.{str_eq, my_strlen}
use flatfs.Cuckoo.{Entry, empty_slot, invalid, same_key, entry_at}
use flatfs.Cuckoo.Resize.{in_bucket, new_position}
use flatfs.Cuckoo.Inv.{either_slot-Returns, bucket_slot-Returns, slot_cases}
use flatfs.Cuckoo.Search.{either_slot-hit, either_slot-home, bucket_slot-hit, same_key-inside}
use flatfs.Cuckoo.Strings.{KeysEnd, KeysEnd-set, same_key-ok}

-- The slot at a position, and that it is not free.
abbrev pub slot_at : List Entry → ℕ → Entry
slot_at table p = get_or table p empty_slot

abbrev pub Used : Entry → Type 0
Used e = str_eq e.key invalid ≡ false

pub entry_at-ok :
    (table : List Entry) (p : ℕ) → p < length table → entry_at table p ≡ ok (slot_at table p)
unfolding entry_at
entry_at-ok [] p h = absurd (omega arith)
entry_at-ok (e ∷ table) zero h = refl
entry_at-ok (e ∷ table) (suc p) h = entry_at-ok table p (omega arith)

-- A table of the same size whose keys end, in which every used slot is as it was.
pub record Grows (t t' : List Entry) : Type 0 where
  pub size : length t' ≡ length t
  pub keys : KeysEnd t'
  pub stays : (q : ℕ) → q < length t → Used (slot_at t q) → slot_at t' q ≡ slot_at t q

pub Grows-self : (t : List Entry) → KeysEnd t → Grows t t
Grows-self t h = record { size = refl; keys = h; stays = λ q l u. refl }

pub Used-same : {a b : Entry} → a ≡ b → Used b → Used a
Used-same e u = rw e u

pub Grows-trans : {a b c : List Entry} → Grows a b → Grows b c → Grows a c
Grows-trans g h = record {
  size = h.size ∙ g.size;
  keys = h.keys;
  stays = λ q l u. h.stays q (rw g.size l) (Used-same (g.stays q l u) u) ∙ g.stays q l u;
}

-- A slot where the search for the empty key succeeds is free.
pub free_lem :
    (t : List Entry) (p : ℕ)
    → KeysEnd t
    → same_key t p invalid ≡ ok true
    → str_eq (slot_at t p).key invalid ≡ true
free_lem t p v h =
    let e : ok (str_eq (slot_at t p).key invalid) ≡ ok true =
      sym (same_key-ok t p invalid v (same_key-inside t p invalid true h)) ∙ h in
    cc

pub Grows-set :
    (t : List Entry) (p : ℕ) (e : Entry)
    → KeysEnd t
    → same_key t p invalid ≡ ok true
    → my_strlen e.key < length e.key
    → Grows t (set t p e)
Grows-set t p e v free ends = record {
  size = length-set t p e;
  keys = KeysEnd-set t p e v ends;
  stays = λ q l u. get_or-set_ne t p q e empty_slot (λ s.
      absurd (clash (ap (λ k. str_eq (slot_at t k).key invalid) (sym s) ∙ free_lem t p v free) u));
}
  where
    clash : {b : Bool} → b ≡ true → b ≡ false → ⊥
    clash a b = cc

-- The position that the code chooses is a free slot of one of the two buckets, or there is none.
pub new_position-free :
    (t : List Entry) (n cur f s f_off s_off : ℕ)
    → length t ≡ n * 4
    → KeysEnd t
    → f < n
    → s < n
    → (new_position t cur f s f_off s_off ≡ ok none)
      ⊎ ((p : ℕ) × (new_position t cur f s f_off s_off ≡ ok (some p))
          × (same_key t p invalid ≡ ok true)
          × ((p / 4 ≡ f) ⊎ (p / 4 ≡ s)))
unfolding new_position in_bucket
new_position-free t n cur f s f_off s_off size keys hf hs = elim (Bool-cases (f_off == s_off)) [
  | inl e ↦
      elim (slot_cases (
        either_slot-Returns t keys invalid f s 4 0 (omega (arith, hf, size))
          (omega (arith, hs, size)))) [
            | inl full ↦ inl (rw e full)
            | inr (p, found, l) ↦ inr (
              p,
              rw e found,
              either_slot-hit t invalid f s 4 0 p found,
              either_slot-home t invalid f s 4 0 p (omega arith) found,
            )
          ]
  | inr e ↦ elim (Bool-cases (f_off == cur)) [
    | inl g ↦
        elim (slot_cases
          (bucket_slot-Returns t keys invalid f 4 0 4 (omega (arith, hf, size)) refl)) [
            | inl full ↦ inl (rw (e, g, full) refl)
            | inr (i, found, l) ↦ inr (
              f * 4 + i,
              rw (e, g, found) refl,
              bucket_slot-hit t invalid f 4 0 i found,
              inl (omega (arith, l)),
            )
          ]
    | inr g ↦ elim (Bool-cases (s_off == cur)) [
      | inl k ↦
          elim (slot_cases
            (bucket_slot-Returns t keys invalid s 4 0 4 (omega (arith, hs, size)) refl)) [
              | inl full ↦ inl (rw (e, g, k, full) refl)
              | inr (i, found, l) ↦ inr (
                s * 4 + i,
                rw (e, g, k, found) refl,
                bucket_slot-hit t invalid s 4 0 i found,
                inr (omega (arith, l)),
              )
            ]
      | inr k ↦ inl (rw (e, g, k) refl)
    ]
  ]
]
