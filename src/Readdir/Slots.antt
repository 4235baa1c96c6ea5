-- ===== src/Readdir/Slots.antt =====
-- What the loops of flatfs/lba.c over slots do: the numbers that they emit, in order.
use flatfs.Common.{
  ℕ, zero, suc, ◌+◌, ◌%◌, ◌^◌, ◌≤◌, ◌≡◌, refl, sym, ◌∙◌, ap, List, [], ◌∷◌, ◌++◌, map, Bool, false,
  length, length-append, get_or, if◌then◌else◌, ◌>>=◌, Returns, arith, Bool-cases, inl, inr,
}
use mathlib.Core.List.{append_assoc, append-nil, map-append}
use flatfs.Types.{FfsInode}
use flatfs.Bitmap.{test_bit-ok}
use flatfs.Readdir.{DirEnt, Reading, emit_file, emit_slots, first_used, slot_ino}

-- The used slots among the `n` from slot `slt` on.
unfoldable pub slots : ℕ → ℕ → List Bool → List ℕ
slots zero slt bitmap = []
slots (suc n) slt bitmap =
    if get_or bitmap slt false then slt ∷ slots n (suc slt) bitmap else slots n (suc slt) bitmap

abbrev pub inos : List DirEnt → List ℕ
inos = map (λ e. e.ino)

-- The numbers `is` have been emitted, and both positions have gone on by as many.
pub record Advanced (r r' : Reading) (is : List ℕ) : Type 0 where
  pub numbers : inos r'.emitted ≡ inos r.emitted ++ is
  pub ctx : r'.ctx_pos ≡ r.ctx_pos + length is
  pub table : r'.table_pos ≡ r.table_pos + length is

pub Advanced-none : (r : Reading) → Advanced r r []
Advanced-none r = record {
  numbers = sym (append-nil (inos r.emitted));
  ctx = omega arith;
  table = omega arith;
}

pub Advanced-append :
    {r s t : Reading} (xs ys : List ℕ) → Advanced r s xs → Advanced s t ys → Advanced r t (xs ++ ys)
Advanced-append {r} xs ys f g = record {
  numbers = g.numbers ∙ ap (λ l. l ++ ys) f.numbers ∙ append_assoc (inos r.emitted) xs ys;
  ctx = omega (arith, f.ctx, g.ctx, length-append xs ys);
  table = omega (arith, f.table, g.table, length-append xs ys);
}

Advanced-emit_file :
    (block : ℕ → FfsInode) (ino slt : ℕ) (r : Reading)
    → Advanced r (emit_file block ino slt r) (ino % 2 ^ 32 ∷ [])
unfolding emit_file
Advanced-emit_file block ino slt r = record {
  numbers = map-append (λ e. e.ino) r.emitted _;
  ctx = refl;
  table = refl;
}

-- The loop emits the used slots.
pub emit_slots-Advanced :
    (bits dir_id bkt n slt : ℕ) (bitmap : List Bool) (block : ℕ → FfsInode) (r : Reading)
    → slt + n ≤ length bitmap
    → Returns
        (emit_slots bits dir_id bkt n slt bitmap block r)
        (λ r'. Advanced r r' (map (λ s. slot_ino bits dir_id bkt s % 2 ^ 32) (slots n slt bitmap)))
unfolding emit_slots slots
emit_slots-Advanced bits dir_id bkt zero slt bitmap block r h = (r, refl, Advanced-none r)
emit_slots-Advanced bits dir_id bkt (suc n) slt bitmap block r h =
    let read = test_bit-ok bitmap slt (omega arith) in
    elim (Bool-cases (get_or bitmap slt false)) [
      | inl e ↦
          let (r', run, a) =
            emit_slots-Advanced bits dir_id bkt n (suc slt) bitmap block
              (emit_file block (slot_ino bits dir_id bkt slt) slt r) (omega arith) in
          (
            r',
            rw (read, ◌>>=◌, e) run,
            rw e (
                Advanced-append (slot_ino bits dir_id bkt slt % 2 ^ 32 ∷ [])
                  (map (λ s. slot_ino bits dir_id bkt s % 2 ^ 32) (slots n (suc slt) bitmap))
                  (Advanced-emit_file block (slot_ino bits dir_id bkt slt) slt r) a),
          )
      | inr e ↦
          let (r', run, a) =
            emit_slots-Advanced bits dir_id bkt n (suc slt) bitmap block r (omega arith) in
          (r', rw (read, ◌>>=◌, e) run, rw e a)
    ]

-- What the search for a used slot finds: one, or the end if no slot is used.
abbrev pub FirstUsed : ℕ → ℕ → List Bool → ℕ → Type 0
FirstUsed n slt bitmap s = (s ≤ slt + n) × (s ≡ slt + n → slots n slt bitmap ≡ [])

pub first_used-FirstUsed :
    (n slt : ℕ) (bitmap : List Bool)
    → slt + n ≤ length bitmap
    → Returns (first_used n slt bitmap) (FirstUsed n slt bitmap)
unfolding first_used slots
first_used-FirstUsed zero slt bitmap h = (slt, refl, (omega arith, λ e. refl))
first_used-FirstUsed (suc n) slt bitmap h =
    let read = test_bit-ok bitmap slt (omega arith) in
    elim (Bool-cases (get_or bitmap slt false)) [
      | inl e ↦ (slt, rw (read, ◌>>=◌, e), (omega arith, λ q. absurd (omega arith)))
      | inr e ↦
          let (s, run, (bound, none_used)) =
            first_used-FirstUsed n (suc slt) bitmap (omega arith) in
          (s, rw (read, ◌>>=◌, e) run, (omega (arith, bound), λ q. rw e (none_used (omega arith))))
    ]
