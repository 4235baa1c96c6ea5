-- ===== src/Readdir/Skip.antt =====
-- The loops of `read_dir_files` that go on from a position: they stop where the first `target` files
-- have been passed.
use flatfs.Common.{
  ℕ, zero, suc, ◌+◌, ◌≤◌, ◌<◌, ◌≡◌, refl, List, Bool, true, false, length, drop, get_or, ◌>>=◌,
  Returns, arith, Bool-cases, inl, inr, leb,
}
use flatfs.Bitmap.{test_bit-ok}
use flatfs.Readdir.{skip_slots}
use flatfs.Readdir.Slots.{slots}

-- Where the loop over the slots stops: at slot `s`, with `left` files still to be passed before and `q` counted:
-- either it has passed the files, and the used slots from `s` on are what is left; or it has passed
-- all the slots, and they were fewer.
pub data Stopped (target n slt p : ℕ) (bitmap : List Bool) : ℕ → ℕ → Type 0 where
  inside :
      {s q : ℕ} (k m : ℕ)
      → q ≡ target
      → p + k ≡ target
      → s + m ≡ slt + n
      → k ≤ length (slots n slt bitmap)
      → drop k (slots n slt bitmap) ≡ slots m s bitmap
      → Stopped target n slt p bitmap s q
  past :
      {s q : ℕ}
      → s ≡ slt + n
      → q ≡ p + length (slots n slt bitmap)
      → q < target
      → Stopped target n slt p bitmap s q

-- The first step of the loop, over a slot that is used or free.
Stopped-used :
    {target n slt p : ℕ} {bitmap : List Bool} {s q : ℕ}
    → get_or bitmap slt false ≡ true
    → Stopped target n (suc slt) (suc p) bitmap s q
    → Stopped target (suc n) slt p bitmap s q
unfolding slots
Stopped-used e (Stopped.inside k m t a b c d) =
    Stopped.inside (suc k) m t (omega arith) (omega arith) (rw e (omega arith)) (rw e d)
Stopped-used e (Stopped.past a b c) = Stopped.past (omega arith) (rw e (omega arith)) c

Stopped-free :
    {target n slt p : ℕ} {bitmap : List Bool} {s q : ℕ}
    → get_or bitmap slt false ≡ false
    → Stopped target n (suc slt) p bitmap s q
    → Stopped target (suc n) slt p bitmap s q
unfolding slots
Stopped-free e (Stopped.inside k m t a b c d) =
    Stopped.inside k m t a (omega arith) (rw e c) (rw e d)
Stopped-free e (Stopped.past a b c) = Stopped.past (omega arith) (rw e b) c

pub skip_slots-Stopped :
    (target n slt p : ℕ) (bitmap : List Bool)
    → p ≤ target
    → slt + n ≤ length bitmap
    → Returns (skip_slots target n slt p bitmap) (λ (s, q). Stopped target n slt p bitmap s q)
unfolding skip_slots slots
skip_slots-Stopped target zero slt p bitmap h w = elim (Bool-cases (leb target p)) [
  | inl e ↦ (
    (slt, p),
    refl,
    Stopped.inside 0 0 (ground (arith, e)) (ground (arith, e)) refl (omega arith) refl,
  )
  | inr e ↦ ((slt, p), refl, Stopped.past (omega arith) none_used (ground arith))
]
  where
    none_used : p ≡ p + length (slots 0 slt bitmap)
    none_used = omega arith
skip_slots-Stopped target (suc n) slt p bitmap h w =
    let read = test_bit-ok bitmap slt (omega arith) in
    elim (Bool-cases (leb target p)) [
      | inl e ↦ (
        (slt, p),
        rw (e, skip_slots),
        Stopped.inside 0 (suc n) (ground (arith, e)) (ground (arith, e)) refl (omega arith) refl,
      )
      | inr more ↦
          let below : suc p ≤ target = ground arith in
          elim (Bool-cases (get_or bitmap slt false)) [
            | inl e ↦
                let (r, run, st) =
                  skip_slots-Stopped target n (suc slt) (suc p) bitmap below (omega arith) in
                (r, rw (more, skip_slots, read, ◌>>=◌, e) run, Stopped-used e st)
            | inr e ↦
                let (r, run, st) = skip_slots-Stopped target n (suc slt) p bitmap h (omega arith) in
                (r, rw (more, skip_slots, read, ◌>>=◌, e) run, Stopped-free e st)
          ]
    ]
