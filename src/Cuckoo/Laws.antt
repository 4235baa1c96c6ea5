-- ===== src/Cuckoo/Laws.antt =====
-- What a look-up in the cuckoo hash finds after an update or an insertion.
use flatfs.Common.{
  ℕ, zero, suc, ◌<◌, ◌≤◌, ◌≡◌, ◌≢◌, refl, ◌∙◌, ap, List, [], ◌∷◌, length, take, set,
  get_or-set_self, length-set, leb, true, Option, some, none, Run, ok, fault, Returns, ◌%◌, ◌^◌,
  lt→ltb, ◌>>=◌, arith,
}
use flatfs.Name.{my_strlen, c_str, same_bytes, same_bytes_self, str_eq}
use flatfs.Cuckoo.Search.{either_slot-put, either_slot-inside}
use flatfs.Cuckoo.Insert.{cuckoo_insert}
use flatfs.Cuckoo.Strings.{KeysEnd, KeysEnd-set, c_str-take, same_key-ok, same_key-set}
use flatfs.Cuckoo.{
  Entry, empty_slot, entry_at, put, CuckooHash, cuckoo_query, answer, buckets_of, Status, success,
  fail, key_len, value_len, f_hash, s_hash, same_key, either_slot, invalid,
}

entry_at-set :
    (table : List Entry) (p : ℕ) (e : Entry) → p < length table → entry_at (set table p e) p ≡ ok e
unfolding entry_at
entry_at-set [] p e h = absurd (omega arith)
entry_at-set (x ∷ table) zero e h = refl
entry_at-set (x ∷ table) (suc p) e h = entry_at-set table p e (omega arith)

pub take-take : (n : ℕ) (xs : List ℕ) → take n (take n xs) ≡ take n xs
take-take zero xs = refl
take-take (suc n) [] = refl
take-take (suc n) (x ∷ xs) = ap (λ ys. x ∷ ys) (take-take n xs)

-- The slot that a key and a value are written to.
abbrev pub written : List ℕ → List ℕ → Entry
written key value = record { key = take key_len key; value = take value_len value }

-- The key is a string of at most three bytes in a buffer of four at least, the value has eight, and the
-- search finds a free slot.
unfoldable pub HasRoom : CuckooHash → List ℕ → List ℕ → Type 0
HasRoom c key value =
    (f : ℕ) × (s : ℕ) × (p : ℕ) × (buckets_of c key ≡ ok (f, s))
    × (either_slot c.table invalid f s 4 0 ≡ ok (some p))
    × (my_strlen key < 4)
    × (4 ≤ length key)
    × (8 ≤ length value)

query_none :
    (table : List Entry) (r : Run (Option ℕ))
    → (r >>= λ found. answer table found) ≡ ok (fail, none)
    → r ≡ ok none
unfolding answer
query_none table (fault x) h = absurd cc
query_none table (ok none) h = refl
query_none table (ok (some p)) h = absurd (no_entry (entry_at table p) h)
  where
    Answer : Type 0
    Answer = Status × Option (List ℕ)

    no_entry :
        (e : Run Entry)
        → (◌>>=◌ {W = Answer} e (λ x. ok (success, some (take value_len x.value))))
          ≢ ok (fail, none)
    no_entry (fault x) t = cc
    no_entry (ok x) t = cc

pub put-ok :
    (table : List Entry) (p : ℕ) (key value : List ℕ)
    → p < length table
    → 4 ≤ length key
    → 8 ≤ length value
    → put table p key value ≡ ok (set table p (written key value))
unfolding put
put-ok table p key value h k v =
    let key_inside : leb 4 (length key) ≡ true = ground (arith, k) in
    let value_inside : leb 8 (length value) ≡ true = ground (arith, v) in
    rw (lt→ltb p (length table) h, value_inside, key_inside) refl

cuckoo_query-ok :
    (d : CuckooHash) (key : List ℕ) (f s p : ℕ) (e : Entry)
    → buckets_of d key ≡ ok (f, s)
    → either_slot d.table key f s 4 0 ≡ ok (some p)
    → entry_at d.table p ≡ ok e
    → cuckoo_query d key ≡ ok (success, some (take 8 e.value))
unfolding cuckoo_query answer
cuckoo_query-ok d key f s p e buckets slot entry = rw (buckets, slot, entry) refl

same_key-written :
    (table : List Entry) (p : ℕ) (key value : List ℕ)
    → KeysEnd table
    → my_strlen key < 4
    → 4 ≤ length key
    → p < length table
    → same_key (set table p (written key value)) p key ≡ ok true
same_key-written table p key value v short long inside =
    let (string, ends) = c_str-take 4 key short long in
    same_key-ok (set table p (written key value)) p key
      (KeysEnd-set table p (written key value) v ends) (rw length-set inside)
    ∙ ap (λ (x : Entry). ok (str_eq x.key key))
        (get_or-set_self table p (written key value) empty_slot inside)
    ∙ ap (λ x. ok (same_bytes x (c_str key))) string
    ∙ ap (λ t. ok t) (same_bytes_self (c_str key))

-- The buckets of a key depend on the seeds and on the capacity alone.
same_buckets :
    (c : CuckooHash) (table : List Entry) (count : ℕ) (key : List ℕ)
    → buckets_of (record c { table = table; entry_num = count }) key ≡ buckets_of c key
unfolding buckets_of f_hash s_hash
same_buckets c table count key = refl

-- On a table whose keys end within their four bytes, where a look-up does not find the key, a string of
-- at most three bytes, and one of its buckets has a free slot, cuckoo_insert succeeds and counts the
-- entry, and a look-up then gives the value's eight bytes.
pub cuckoo_insert-cuckoo_query :
    (c : CuckooHash) (key value : List ℕ)
    → KeysEnd c.table
    → HasRoom c key value
    → cuckoo_query c key ≡ ok (fail, none)
    → Returns (cuckoo_insert c key value) (λ (status, d).
      (status ≡ success)
      × (d.entry_num ≡ suc c.entry_num % 2 ^ 64)
      × KeysEnd d.table
      × (cuckoo_query d key ≡ ok (success, some (take 8 value))))
unfolding HasRoom cuckoo_insert cuckoo_query
cuckoo_insert-cuckoo_query c key value v (f, s, p, buckets, free, short, long, eight) absent =
    let inside = either_slot-inside c.table invalid f s 4 0 p free in
    let (string, ends) = c_str-take 4 key short long in
    let none_found = query_none c.table (either_slot c.table key f s 4 0) (rw buckets at absent) in
    let new = set c.table p (written key value) in
    (
      (success, record c { table = new; entry_num = suc c.entry_num % 2 ^ 64 }),
      rw (buckets, free, put-ok c.table p key value inside long eight) refl,
      (
        refl,
        refl,
        KeysEnd-set c.table p (written key value) v ends,
        let slot =
              either_slot-put c.table new key p
                (same_key-written c.table p key value v short long inside)
                (λ q ne. same_key-set c.table p q (written key value) key v ends ne) f s 4 0
                none_found free in
            cuckoo_query-ok (record c { table = new; entry_num = suc c.entry_num % 2 ^ 64 }) key f s
              p (written key value) (same_buckets c new (suc c.entry_num % 2 ^ 64) key ∙ buckets)
              slot (entry_at-set c.table p (written key value) inside)
            ∙ ap (λ x. ok (success, some x)) (take-take 8 value),
      ),
    )
