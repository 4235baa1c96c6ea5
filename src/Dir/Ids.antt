-- ===== src/Dir/Ids.antt =====
-- Directory ids: `get_unused_dir_id` and `init_dir_id_bitmap` of flatfs/flatfs_d.h.
use flatfs.Common.{
  ℕ, ◌-◌, ◌^◌, ◌<◌, ◌≡◌, ◌≢◌, ◌⊎◌, inl, inr, refl, List, Bool, true, false, ◌==◌, length, set,
  get_or, ◌>>=◌, Returns, arith, Bool-cases, ==_iff, get_or-set_self, get_or-set_ne,
  length-replicate, length-set, ◌∙◌, sym,
}
use flatfs.Config.{max_dir_bits}
use flatfs.Bitmap.{find_first_zero_bit-FirstZero, bitmap_write-ok, used}
use flatfs.Dir.{get_unused_dir_id, init_dir_id_bitmap}

-- A bitmap of directory ids: it has a bit for each id, and that of 0 is set.
pub record IsIds (bits : List Bool) : Type 0 where
  pub size : length bits ≡ 2 ^ max_dir_bits
  pub no_zero : get_or bits 0 false ≡ true

-- `dir_id` was free and is taken, and no other id is changed.
pub record Taken (bits bits' : List Bool) (dir_id : ℕ) : Type 0 where
  pub positive : 0 < dir_id
  pub bound : dir_id < 2 ^ max_dir_bits
  pub was_free : get_or bits dir_id false ≡ false
  pub is_taken : get_or bits' dir_id false ≡ true
  pub others : (j : ℕ) → j ≢ dir_id → get_or bits' j false ≡ get_or bits j false

-- The answer: an id that was free, or 0 if there is none.
unfoldable pub NewId : List Bool → List Bool × ℕ → Type 0
NewId bits (bits', dir_id) =
    IsIds bits'
    × (Taken bits bits' dir_id
        ⊎ ((dir_id ≡ 0) × (bits' ≡ bits) × (used (2 ^ max_dir_bits) bits ≡ 2 ^ max_dir_bits)))

-- get_unused_dir_id returns: it takes an id above 0 that was free and changes no other, or no id
-- is free, and it returns 0 and changes nothing.
pub get_unused_dir_id-NewId :
    (bits : List Bool) → IsIds bits → Returns (get_unused_dir_id bits) (NewId bits)
unfolding get_unused_dir_id NewId
get_unused_dir_id-NewId bits v =
    let (i, run, z) =
      find_first_zero_bit-FirstZero bits (2 ^ max_dir_bits) (omega (arith, v.size)) in
    elim (Bool-cases (i == 2 ^ max_dir_bits)) [
      | inl e ↦ (
        (bits, 0),
        rw (run, ◌>>=◌, e),
        (v, inr (refl, refl, z.full ((==_iff i (2 ^ max_dir_bits)).0 e))),
      )
      | inr e ↦
          let lt : i < 2 ^ max_dir_bits = ground (arith, z.bound, e) in
          let clear = z.clear lt in
          let nz : 0 < i = ground (arith, clear, v.no_zero) in
          (
            (set bits i true, i),
            rw (run, ◌>>=◌, e, bitmap_write-ok bits i true (omega (arith, v.size))),
            (
              record {
                size = length-set bits i true ∙ v.size;
                no_zero =
                    get_or-set_ne bits i 0 true false (λ s. absurd (omega (arith, nz))) ∙ v.no_zero;
              },
              inl record {
                positive = nz;
                bound = lt;
                was_free = clear;
                is_taken = get_or-set_self bits i true false (omega (arith, v.size));
                others = λ j ne. get_or-set_ne bits i j true false (λ s. ne (sym s));
              },
            ),
          )
    ]

pub init_dir_id_bitmap-IsIds : IsIds init_dir_id_bitmap
unfolding init_dir_id_bitmap
init_dir_id_bitmap-IsIds = record {
  size = omega (arith, length-replicate (2 ^ max_dir_bits - 3) false);
  no_zero = refl;
}
