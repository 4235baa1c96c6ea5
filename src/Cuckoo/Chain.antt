-- ===== src/Cuckoo/Chain.antt =====
-- Where the search for a path of flatfs/cuckoo_hash.c goes from a slot, and the paths that reach a free slot.
use flatfs.Common.{
  ℕ, suc, ◌+◌, ◌*◌, ◌/◌, ◌%◌, ◌<◌, ◌≡◌, refl, sym, ◌∙◌, ap, Bool, true, false, Option, some, none,
  Run, ok,
}
use flatfs.Cuckoo.{CuckooHash, f_hash, s_hash, bucket_slot, invalid}
use flatfs.Cuckoo.Insert.{other_bucket}
use flatfs.Cuckoo.Keep.{slot_at, Used}

-- The bucket that the search leaves bucket `p / 4` for.
pub record Leads (c : CuckooHash) (p b : ℕ) : Type 0 where
  pub other :
      other_bucket
        (p / 4)
        (f_hash c (slot_at c.table p).key % c.capacity)
        (s_hash c (slot_at c.table p).key % c.capacity)
      ≡ some b
  pub taken : Used (slot_at c.table p)

-- It ends in a free slot of the bucket, or goes on at its last slot, for the bucket is full.
pub data Goes (c : CuckooHash) (p : ℕ) : Bool → ℕ → Type 0 where
  ends :
      (b i : ℕ)
      → Leads c p b
      → bucket_slot c.table invalid b 4 0 ≡ ok (some i)
      → i < 4
      → Goes c p true (b * 4 + i)
  goes_on :
      (b : ℕ)
      → Leads c p b
      → bucket_slot c.table invalid b 4 0 ≡ ok none
      → Goes c p false (b * 4 + 3)

-- A path of `n` moves from a slot to a free one.
pub data Chain (c : CuckooHash) : ℕ → ℕ → Type 0 where
  last : {p q : ℕ} → Goes c p true q → Chain c 1 p
  more : {n p q : ℕ} → Goes c p false q → Chain c (suc n) q → Chain c (suc (suc n)) p

same_bucket : {c : CuckooHash} {p a b : ℕ} → Leads c p a → Leads c p b → a ≡ b
same_bucket x y = let e : some _ ≡ some _ = sym x.other ∙ y.other in cc

-- A bucket is full or it is not.
full_free : {r : Run (Option ℕ)} {i : ℕ} → r ≡ ok none → r ≡ ok (some i) → ⊥
full_free e h = cc

Goes-once : {c : CuckooHash} {p q r : ℕ} → Goes c p true q → Goes c p false r → ⊥
Goes-once {c} (ends b i x free l) (goes_on b' y full) =
    full_free (ap (λ k. bucket_slot c.table invalid k 4 0) (same_bucket x y) ∙ full) free

Goes-same : {c : CuckooHash} {p q r : ℕ} → Goes c p false q → Goes c p false r → q ≡ r
Goes-same (goes_on b x full) (goes_on b' y full') = ap (λ k. k * 4 + 3) (same_bucket x y)

-- Paths from the same slot are as long.
pub Chain-unique : {c : CuckooHash} (n m p : ℕ) → Chain c n p → Chain c m p → n ≡ m
Chain-unique _ _ p (last g) (last h) = refl
Chain-unique _ _ p (last g) (more h r) = absurd (Goes-once g h)
Chain-unique _ _ p (more g r) (last h) = absurd (Goes-once h g)
Chain-unique {c} (suc (suc n)) (suc (suc m)) p (more {q = q} g r) (more {q = q'} h s) =
    ap suc (Chain-unique (suc n) (suc m) q r (rw (Goes-same g h) s))
