-- ===== src/Cuckoo/Same.antt =====
-- Look-ups in two cuckoo hashes of flatfs/cuckoo_hash.c with the same entries.
use flatfs.Common.{ℕ, ◌<◌, ◌≡◌, refl, sym, ◌∙◌, ap, List, [], length, false, some, take, ok}
use flatfs.Name.{c_str, str_eq}
use flatfs.Cuckoo.{Entry, CuckooHash, cuckoo_query, answer, invalid, value_len, success}
use flatfs.Cuckoo.Keep.{slot_at, Used, entry_at-ok}
use flatfs.Cuckoo.Sound.{IsSound, Used-c_str, absent, present, search}

answer_lem :
    (t u : List Entry) (p q : ℕ)
    → p < length t
    → q < length u
    → slot_at t p ≡ slot_at u q
    → answer t (some p) ≡ answer u (some q)
unfolding answer
answer_lem t u p q hp hq e = rw (entry_at-ok t p hp, entry_at-ok u q hq, e) refl

-- The slots of the first table with the string of a key are slots of the second.
abbrev pub Finds : List ℕ → List Entry → List Entry → Type 0
Finds key t u =
    (p : ℕ)
    → p < length t
    → c_str (slot_at t p).key ≡ c_str key
    → (q : ℕ) × (q < length u) × (slot_at u q ≡ slot_at t p)

-- Two sound hashes, in whichever capacity, with the same entries for a key that is not the empty string give the same
-- answer for it.
pub cuckoo_query-Finds :
    (c d : CuckooHash) (key : List ℕ)
    → IsSound c
    → IsSound d
    → Finds key c.table d.table
    → Finds key d.table c.table
    → str_eq key invalid ≡ false
    → cuckoo_query d key ≡ cuckoo_query c key
unfolding answer
cuckoo_query-Finds c d key v w there back named = elim (search c key v named) [
  | absent no_c at_c ↦ elim (search d key w named) [
    | absent no_d at_d ↦ at_d ∙ sym at_c
    | present q l same at_d ↦
        let (p, m, e) = back q l same in
        absurd (no_c p m (ap (λ (x : Entry). c_str x.key) e ∙ same))
  ]
  | present p l same at_c ↦ elim (search d key w named) [
    | absent no_d at_d ↦
        let (q, m, e) = there p l same in
        absurd (no_d q m (ap (λ (x : Entry). c_str x.key) e ∙ same))
    | present q m same_d at_d ↦
        let given : Entry = record { key = key; value = [] } in
        let (r, k, e) = back q m same_d in
        let string : c_str key ≡ c_str (slot_at c.table r).key =
          sym same_d ∙ ap (λ (x : Entry). c_str x.key) (sym e) in
        let one : r ≡ p =
          v.unique r p k l (Used-c_str given (slot_at c.table r) string named)
            (sym string ∙ sym same) in
        at_d ∙ answer_lem d.table c.table q p m l (sym e ∙ ap (slot_at c.table) one) ∙ sym at_c
  ]
]

-- Every used slot of the first table is a slot of the second.
abbrev pub Within : List Entry → List Entry → Type 0
Within t u =
    (p : ℕ)
    → p < length t
    → Used (slot_at t p)
    → (q : ℕ) × (q < length u) × (slot_at u q ≡ slot_at t p)

pub Within-Finds :
    (key : List ℕ) (t u : List Entry) → str_eq key invalid ≡ false → Within t u → Finds key t u
Within-Finds key t u named h p l same =
    h p l (Used-c_str (record { key = key; value = [] }) (slot_at t p) (sym same) named)

-- A look-up of the string of an entry gives its value.
pub cuckoo_query-slot :
    (d : CuckooHash) (key : List ℕ) (p : ℕ) (e : Entry)
    → IsSound d
    → p < length d.table
    → slot_at d.table p ≡ e
    → c_str e.key ≡ c_str key
    → str_eq key invalid ≡ false
    → cuckoo_query d key ≡ ok (success, some (take value_len e.value))
unfolding answer
cuckoo_query-slot d key p e w l at string named =
    let here : c_str (slot_at d.table p).key ≡ c_str key =
      ap (λ (x : Entry). c_str x.key) at ∙ string in
    elim (search d key w named) [
      | absent missing at_d ↦ absurd (missing p l here)
      | present q m same at_d ↦
          let given : Entry = record { key = key; value = [] } in
          let one : p ≡ q =
            w.unique p q l m (Used-c_str given (slot_at d.table p) (sym here) named)
              (here ∙ sym same) in
          at_d ∙ rw (sym one, entry_at-ok d.table p l, at) refl
    ]
