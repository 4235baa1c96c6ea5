-- ===== src/PathHash.antt =====
-- The hash of a path, of flatfs/flatfs_d.c, which nothing calls: a byte of the inode number for each level of
-- directories. An `int` has 32 bits, so a shift of one by 32 bits or more, or by a negative number, is a fault.
use flatfs.Common.{
  ℕ, zero, suc, ◌+◌, ◌-◌, ◌*◌, ◌≡◌, refl, bit_and, bit_xor, List, [], ◌∷◌, ltb, leb, ◌==◌, ◌&&◌,
  if◌then◌else◌, ℤ, pos, negsuc, to_u64, shl_int, Run, ok, fault, bad_shift, ◌>>=◌, Bool-cases, inl,
  inr,
}

-- `TOTAL_DEPTH`
abbrev pub total_depth : ℕ
total_depth = 8

-- The loop of `calculate_filename`, up to the end of the name or to its first dot. `s` is what the variable
-- of the code holds, which does not set it before the loop.
unfoldable pub calculate_filename : ℕ → List ℕ → ℕ
calculate_filename s [] = s
calculate_filename s (c ∷ name) =
    let rest = calculate_filename (bit_xor s c) name in
    if c == 0 then s else if c == 46 then s else rest

-- A byte as a `char`, which is signed.
unfoldable pub char_int : ℕ → ℤ
char_int c = if ltb c 128 then pos c else negsuc (255 - c)

-- The shift of an `int` by what is left below level `depth`.
unfoldable pub shift_to : ℤ → ℕ → Run ℕ
shift_to i depth =
    if leb (depth * 8) (total_depth * 8) && ltb (total_depth * 8 - depth * 8) 32
    then ok (to_u64 (shl_int i (total_depth * 8 - depth * 8)))
    else fault bad_shift

unfoldable pub calculate_part_lba : ℕ → ℕ → Run ℕ
calculate_part_lba s depth = shift_to (char_int s) depth

-- The loop of `parse_depth`, with `n` levels left; below the last one the shift is negative.
unfoldable pub parse_loop : ℕ → ℕ → ℕ → Run ℕ
parse_loop zero ino depth = fault bad_shift
parse_loop (suc n) ino depth = shift_to (pos 255) depth >>= λ mask.
    let rest = parse_loop n ino (suc depth) in if bit_and ino mask == 0 then ok depth else rest

unfoldable pub parse_depth : ℕ → Run ℕ
parse_depth ino = let found = parse_loop total_depth ino 1 in if ino == 0 then ok 0 else found

unfoldable pub calculate_slba : ℕ → ℕ → List ℕ → Run ℕ
calculate_slba s ino name = do
  depth ← parse_depth ino
  plba ← calculate_part_lba (calculate_filename s name) (depth + 1)
  ok (bit_and ino plba)

-- Whatever the directory, the name and the memory of the variable are, calculate_slba shifts an int by 56 bits,
-- which C leaves undefined: in the test of the first level or, in the root, in the place of the name.
pub calculate_slba-bad_shift :
    (s ino : ℕ) (name : List ℕ) → calculate_slba s ino name ≡ fault bad_shift
unfolding calculate_slba parse_depth parse_loop calculate_part_lba shift_to
calculate_slba-bad_shift s ino name = elim (Bool-cases (ino == 0)) [
  | inl e ↦ rw e refl
  | inr e ↦ rw e refl
]
