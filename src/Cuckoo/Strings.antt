-- ===== src/Cuckoo/Strings.antt =====
-- The keys of a cuckoo hash as strings: a key whose zero byte is among its four bytes is read as itself.
use flatfs.Common.{
  replicate, ◌*◌, ◌/◌, ◌%◌, ◌^◌, ℕ, zero, suc, ◌<◌, ◌≤◌, ◌≡◌, ◌≢◌, refl, sym, ◌∙◌, ap, List, [],
  ◌∷◌, ◌++◌, length, take, drop, set, get_or, get_or-set_ne, get_or-set_self, length-set, false,
  true, inl, inr, ok, fault, out_of_bounds, ltb, ltb→lt, lt→ltb, ◌==◌, Bool-cases, arith, ◌>>=◌,
}
use flatfs.Name.{my_strlen, c_str, str_eq, same_bytes}
use flatfs.Cuckoo.{zero_table, Entry, empty_slot, key_at, slots_from, bytes, terminated, same_key}

-- A string with its terminator is not read on into what follows.
pub c_str-append : (k r : List ℕ) → my_strlen k < length k → c_str (k ++ r) ≡ c_str k
unfolding c_str my_strlen
c_str-append [] r h = absurd (omega arith)
c_str-append (x ∷ k) r h = elim (Bool-cases (x == 0)) [
  | inl e ↦ rw e
  | inr e ↦ rw e (ap (λ t. x ∷ t) (c_str-append k r (shorter (rw e at h))))
]
  where
    shorter : suc (my_strlen k) < suc (length k) → my_strlen k < length k
    shorter l = omega arith

-- The bytes that are copied hold the string, if it ends within them.
pub c_str-take :
    (n : ℕ) (k : List ℕ)
    → my_strlen k < n
    → n ≤ length k
    → (c_str (take n k) ≡ c_str k) × (my_strlen (take n k) < length (take n k))
unfolding c_str my_strlen
c_str-take zero k h l = absurd (omega arith)
c_str-take (suc n) [] h l = absurd (omega arith)
c_str-take (suc n) (x ∷ k) h l = elim (Bool-cases (x == 0)) [
  | inl e ↦ rw e (refl, omega arith)
  | inr e ↦
      let (a, b) = c_str-take n k (shorter (rw e at h)) (omega arith) in
      rw e (ap (λ t. x ∷ t) a, omega arith)
]
  where
    shorter : suc (my_strlen k) < suc n → my_strlen k < n
    shorter g = omega arith

-- Every key of the table ends within its array.
unfoldable pub KeysEnd : List Entry → Type 0
KeysEnd table =
    (q : ℕ)
    → q < length table
    → my_strlen (get_or table q empty_slot).key < length (get_or table q empty_slot).key

c_str-bytes :
    (table : List Entry) (q : ℕ)
    → q < length table
    → my_strlen (get_or table q empty_slot).key < length (get_or table q empty_slot).key
    → c_str (bytes (drop q table)) ≡ c_str (get_or table q empty_slot).key
unfolding bytes
c_str-bytes [] q h l = absurd (omega arith)
c_str-bytes (e ∷ es) zero h l = c_str-append e.key (e.value ++ bytes es) l
c_str-bytes (e ∷ es) (suc q) h l = c_str-bytes es q (omega arith) l

strlen-append : (k r : List ℕ) → my_strlen k < length k → my_strlen (k ++ r) < length (k ++ r)
unfolding my_strlen
strlen-append [] r h = absurd (omega arith)
strlen-append (x ∷ k) r h = elim (Bool-cases (x == 0)) [
  | inl e ↦ rw e (omega arith)
  | inr e ↦ rw e (longer (strlen-append k r (shorter (rw e at h))))
]
  where
    shorter : suc (my_strlen k) < suc (length k) → my_strlen k < length k
    shorter l = omega arith

    longer : {m n : ℕ} → m < n → suc m < suc n
    longer l = omega arith

bytes-ends :
    (table : List Entry) (q : ℕ)
    → q < length table
    → my_strlen (get_or table q empty_slot).key < length (get_or table q empty_slot).key
    → my_strlen (bytes (drop q table)) < length (bytes (drop q table))
unfolding bytes
bytes-ends [] q h l = absurd (omega arith)
bytes-ends (e ∷ es) zero h l = strlen-append e.key (e.value ++ bytes es) l
bytes-ends (e ∷ es) (suc q) h l = bytes-ends es q (omega arith) l

pub key_at-ok :
    (table : List Entry) (q : ℕ)
    → KeysEnd table
    → q < length table
    → key_at table q ≡ ok (bytes (drop q table))
unfolding KeysEnd key_at slots_from terminated
key_at-ok table q v h =
    let ends = lt→ltb _ _ (bytes-ends table q h (v q h)) in
    rw (lt→ltb q (length table) h, ◌>>=◌, ends) refl

pub same_key-ok :
    (table : List Entry) (q : ℕ) (key : List ℕ)
    → KeysEnd table
    → q < length table
    → same_key table q key ≡ ok (str_eq (get_or table q empty_slot).key key)
unfolding KeysEnd same_key
same_key-ok table q key v h = rw (key_at-ok table q v h, ◌>>=◌, c_str-bytes table q h (v q h)) refl

pub same_key-past :
    (table : List Entry) (q : ℕ) (key : List ℕ)
    → ltb q (length table) ≡ false
    → same_key table q key ≡ fault out_of_bounds
unfolding same_key key_at slots_from
same_key-past table q key h = rw h refl

pub KeysEnd-set :
    (table : List Entry) (p : ℕ) (e : Entry)
    → KeysEnd table
    → my_strlen e.key < length e.key
    → KeysEnd (set table p e)
unfolding KeysEnd
KeysEnd-set table p e v h q l = elim (Bool-cases (p == q)) [
  | inl t ↦
      let same : p ≡ q = ground (arith, t) in
      let inside : p < length table = omega (arith, old, same) in
      ends
        (sym (
          ap (λ j. get_or (set table p e) j empty_slot) (sym same)
          ∙ get_or-set_self table p e empty_slot inside))
        h
  | inr t ↦
      let ne : p ≢ q = ground (arith, t) in
      ends (sym (get_or-set_ne table p q e empty_slot ne)) (v q old)
]
  where
    ends : {a b : Entry} → a ≡ b → my_strlen a.key < length a.key → my_strlen b.key < length b.key
    ends t g = rw (sym t) g

    old : q < length table
    old = rw (sym (length-set table p e)) l

-- A slot that is not written is read as before.
pub same_key-set :
    (table : List Entry) (p q : ℕ) (e : Entry) (key : List ℕ)
    → KeysEnd table
    → my_strlen e.key < length e.key
    → q ≢ p
    → same_key (set table p e) q key ≡ same_key table q key
same_key-set table p q e key v h ne = elim (Bool-cases (ltb q (length table))) [
  | inl t ↦
      let l : q < length (set table p e) = rw length-set (ltb→lt q (length table) t) in
      same_key-ok (set table p e) q key (KeysEnd-set table p e v h) l
      ∙ ap (λ (x : Entry). ok (str_eq x.key key))
          (get_or-set_ne table p q e empty_slot (λ d. ne (sym d)))
      ∙ sym (same_key-ok table q key v (ltb→lt q (length table) t))
  | inr t ↦
      same_key-past (set table p e) q key (rw length-set t) ∙ sym (same_key-past table q key t)
]

pub key_ends :
    (table : List Entry) (q : ℕ)
    → KeysEnd table
    → q < length table
    → my_strlen (get_or table q empty_slot).key < length (get_or table q empty_slot).key
unfolding KeysEnd
key_ends table q v h = v q h

get_or-replicate_any : (n q : ℕ) (e : Entry) → get_or (replicate n e) q e ≡ e
get_or-replicate_any zero q e = refl
get_or-replicate_any (suc n) zero e = refl
get_or-replicate_any (suc n) (suc q) e = get_or-replicate_any n q e

-- A new table has no key.
pub zero_table-KeysEnd : (capacity : ℕ) → KeysEnd (zero_table capacity)
unfolding KeysEnd zero_table my_strlen
zero_table-KeysEnd capacity q h =
    rw (get_or-replicate_any (capacity * 48 % 2 ^ 64 / 12) q empty_slot) (omega arith)

-- And no slot of it is used.
pub zero_table-free :
    (capacity q : ℕ) → str_eq (get_or (zero_table capacity) q empty_slot).key [] ≢ false
unfolding zero_table c_str same_bytes
zero_table-free capacity q h =
    absurd (clash (rw (get_or-replicate_any (capacity * 48 % 2 ^ 64 / 12) q empty_slot) at h))
  where
    clash : true ≡ false → ⊥
    clash e = cc
