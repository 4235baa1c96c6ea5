-- ===== src/Cuckoo/Inv.antt =====
-- The shape of a cuckoo hash of flatfs/cuckoo_hash.c, and the slots that its searches read.
use native.Mathlib.Nat.{mod-lt}
use flatfs.Common.{
  ℕ, zero, suc, ◌+◌, ◌*◌, ◌%◌, ◌<◌, ◌≤◌, ◌≡◌, ◌⊎◌, refl, List, [], ◌∷◌, length, drop, false, Option,
  some, none, Run, ok, Returns, ◌>>=◌, ◌==◌, Bool-cases, inl, inr, arith,
}
use flatfs.Name.{str_eq}
use flatfs.Cuckoo.{
  Entry, CuckooHash, f_idx, s_idx, f_hash, s_hash, buckets_of, bytes, key_at, entry_at, same_key,
  bucket_slot, either_slot,
}
use flatfs.Cuckoo.Strings.{KeysEnd, key_at-ok}

-- A table of four slots for each bucket of the capacity, and two paths of sixteen nodes.
pub record IsCuckoo (c : CuckooHash) : Type 0 where
  pub some_buckets : 0 < c.capacity
  pub size : length c.table ≡ c.capacity * 4
  pub path1 : length c.evict_path1 ≡ 16
  pub path2 : length c.evict_path2 ≡ 16

pub idx-Returns :
    (h n : ℕ) → 0 < n → (f_idx h n ≡ ok (h % n)) × (s_idx h n ≡ ok (h % n)) × (h % n < n)
unfolding f_idx s_idx
idx-Returns h n pos =
    let nz : (n == 0) ≡ false = ground (arith, pos) in (rw nz refl, rw nz refl, mod-lt h pos)

pub buckets_of-Returns :
    (c : CuckooHash) (key : List ℕ)
    → IsCuckoo c
    → Returns (buckets_of c key) (λ (f, s). (f < c.capacity) × (s < c.capacity))
unfolding buckets_of
buckets_of-Returns c key v =
    let (f, f2, fb) = idx-Returns (f_hash c key) c.capacity v.some_buckets in
    let (s1, s, sb) = idx-Returns (s_hash c key) c.capacity v.some_buckets in
    ((f_hash c key % c.capacity, s_hash c key % c.capacity), rw (f, s) refl, (fb, sb))

pub key_at-Returns :
    (table : List Entry)
    → KeysEnd table
    → (p : ℕ) → p < length table
    → Returns (key_at table p) (λ key. Unit {0})
key_at-Returns table keys p h = (bytes (drop p table), key_at-ok table p keys h, tt)

pub same_key-Returns :
    (table : List Entry)
    → KeysEnd table
    → (p : ℕ) (key : List ℕ) → p < length table
    → Returns (same_key table p key) (λ t. Unit {0})
unfolding same_key
same_key-Returns table keys p key h =
    let (k, run, u) = key_at-Returns table keys p h in (str_eq k key, rw run refl, tt)

pub entry_at-Returns :
    (table : List Entry) (p : ℕ) → p < length table → Returns (entry_at table p) (λ e. Unit {0})
unfolding entry_at
entry_at-Returns [] p h = absurd (omega arith)
entry_at-Returns (e ∷ table) zero h = (e, refl, tt)
entry_at-Returns (e ∷ table) (suc p) h = entry_at-Returns table p (omega arith)

-- A slot of a bucket, as the search gives it.
pub SlotBelow : ℕ → Option ℕ → Type 0
SlotBelow n none = Unit {0}
SlotBelow n (some i) = i < n

pub bucket_slot-Returns :
    (table : List Entry)
    → KeysEnd table
    → (key : List ℕ) (b n i m : ℕ) → b * 4 + m ≤ length table
    → i + n ≡ m
    → Returns (bucket_slot table key b n i) (SlotBelow m)
unfolding bucket_slot SlotBelow
bucket_slot-Returns table keys key b zero i m h e = (none, refl, tt)
bucket_slot-Returns table keys key b (suc n) i m h e =
    let (t, run, u) = same_key-Returns table keys (b * 4 + i) key (omega arith) in
    let (r, run', v) = bucket_slot-Returns table keys key b n (suc i) m h (omega arith) in
    elim (Bool-cases t) [
      | inl hit ↦ (some i, rw (run, hit) refl, omega arith)
      | inr miss ↦ (r, rw (run, miss) run', v)
    ]

pub either_slot-Returns :
    (table : List Entry)
    → KeysEnd table
    → (key : List ℕ) (f s n i : ℕ) → f * 4 + (i + n) ≤ length table
    → s * 4 + (i + n) ≤ length table
    → Returns (either_slot table key f s n i) (SlotBelow (length table))
unfolding either_slot SlotBelow
either_slot-Returns table keys key f s zero i hf hs = (none, refl, tt)
either_slot-Returns table keys key f s (suc n) i hf hs =
    let (t, run_f, t1) = same_key-Returns table keys (f * 4 + i) key (omega arith) in
    let (u, run_s, u1) = same_key-Returns table keys (s * 4 + i) key (omega arith) in
    let (r, run, v) =
      either_slot-Returns table keys key f s n (suc i) (omega arith) (omega arith) in
    elim (Bool-cases t) [
      | inl et ↦ (some (f * 4 + i), rw (run_f, et) refl, omega arith)
      | inr et ↦ elim (Bool-cases u) [
        | inl eu ↦ (some (s * 4 + i), rw (run_f, et, ◌>>=◌, run_s, eu) refl, omega arith)
        | inr eu ↦ (r, rw (run_f, et, ◌>>=◌, run_s, eu) run, v)
      ]
    ]

pub slot_cases :
    {m : ℕ} {x : Run (Option ℕ)}
    → Returns x (SlotBelow m)
    → (x ≡ ok none) ⊎ ((i : ℕ) × (x ≡ ok (some i)) × (i < m))
unfolding SlotBelow
slot_cases (none, run, h) = inl run
slot_cases (some i, run, h) = inr (i, run, h)
