-- ===== src/Lba/Meta.antt =====
-- The addresses of inodes: directories have a block each, and files a block for each bucket, by
-- `compose_lba` and `ffs_get_lba_dir_meta` of flatfs/lba.c.
use native.Mathlib.Nat.{pow-suc}
use flatfs.Common.Bits.{zero-bit_or, bit_or-zero}
use flatfs.Common.{
  ◌∙◌, ℕ, suc, ◌+◌, ◌*◌, ◌%◌, ◌^◌, ◌≤◌, ◌<◌, ◌≡◌, leb, ℤ, pos, arith, ap, ok, fault, bad_shift,
  u64_max, lt→ltb, refl,
}
use flatfs.Types.{InodeInfo}
use flatfs.Lba.{
  shl_by, compose_lba, ffs_get_lba_meta, ffs_get_lba_dir_meta, inode_to_dir_id, dir_id_to_inode,
  ffs_get_block_prep,
}
use flatfs.Lba.Data.{At, block_prep-At}

-- The directory id comes back from its inode number, and the inode number of a directory leads to
-- the same block as the directory itself.
pub dir_id_roundtrip :
    (d : ℕ) (id : ℤ)
    → d < 2 ^ 14
    → (inode_to_dir_id (dir_id_to_inode d) ≡ d)
      × (ffs_get_lba_dir_meta (dir_id_to_inode d) id ≡ d)
      × (ffs_get_lba_dir_meta u64_max (pos d) ≡ d)
unfolding inode_to_dir_id dir_id_to_inode ffs_get_lba_dir_meta
dir_id_roundtrip d id h = ground arith

-- From bucket 52 on `compose_lba` shifts the directory by 64 bits or more to find the block of the
-- bucket's inodes, which C leaves undefined.
pub compose_lba-bad_shift :
    (d b : ℕ) (slot : ℤ)
    → 52 ≤ b
    → b < 2 ^ 12
    → compose_lba (pos d) (pos b) slot 0 ≡ fault bad_shift
unfolding compose_lba
compose_lba-bad_shift d b slot lo hi = ground arith

-- One more place of shift is a directory of twice the number.
shl_by-suc :
    (d k : ℕ) → d < 2 ^ 63 → suc k < 64 → shl_by (d % 2 ^ 64) (suc k) ≡ shl_by (2 * d % 2 ^ 64) k
shl_by-suc d k hd hk =
    rw (lt→ltb (suc k) 64 hk, lt→ltb k 64 (omega arith), small, twice)
      (ap (λ t. ok (t % 2 ^ 64)) doubled)
  where
    small : d % 2 ^ 64 ≡ d
    small = omega arith

    twice : 2 * d % 2 ^ 64 ≡ 2 * d
    twice = omega arith

    doubled : d * 2 ^ suc k ≡ 2 * d * 2 ^ k
    doubled = omega (arith, ap (λ (t : ℕ). d * t) (pow-suc 2 k))

-- Below that, bucket b + 1 of a directory and bucket b of the directory with twice its id have the
-- same block of inodes.
compose_lba-collides :
    (d b : ℕ) (slot : ℤ)
    → d < 2 ^ 13
    → b < 51
    → compose_lba (pos d) (pos (b + 1)) slot 0 ≡ compose_lba (pos (2 * d)) (pos b) slot 0
unfolding compose_lba
compose_lba-collides d b slot hd hb =
    rw (shift, shl_by-suc d (12 + b) (omega arith) (omega arith), base)
  where
    shift : (12 + (b + 1) % 2 ^ 64) % 2 ^ 64 ≡ suc (12 + b)
    shift = omega arith

    base : (12 + b % 2 ^ 64) % 2 ^ 64 ≡ 12 + b
    base = omega arith

-- The block of the inodes of bucket `b` of directory `d`.
abbrev pub inode_block_of : ℕ → ℕ → ℕ
inode_block_of d b = (d * 2 ^ (12 + b) % 2 ^ 64 * 2 ^ 3 % 2 ^ 64 + 2 ^ 35) % 2 ^ 64

-- Below bucket 52 the address is defined.
pub compose_lba-inodes :
    (d b : ℕ)
    → d < 2 ^ 14
    → b < 52
    → compose_lba (pos d) (pos b) (pos 0) 0 ≡ ok (inode_block_of d b)
unfolding compose_lba
compose_lba-inodes d b hd hb =
    rw (base, lt→ltb (12 + b) 64 (omega arith), small, zero-bit_or, bit_or-zero) refl
  where
    base : (12 + b % 2 ^ 64) % 2 ^ 64 ≡ 12 + b
    base = omega arith

    small : d % 2 ^ 64 ≡ d
    small = omega arith

-- For a directory of an id d below 2 ^ 13 and a bucket b below 51, compose_lba gives one and the same block for the inodes of
-- bucket b + 1 of directory d and for those of bucket b of directory 2 d.
pub compose_lba-shared :
    (d b : ℕ)
    → d < 2 ^ 13
    → b < 51
    → (p : ℕ) × (compose_lba (pos d) (pos (b + 1)) (pos 0) 0 ≡ ok p)
      × (compose_lba (pos (2 * d)) (pos b) (pos 0) 0 ≡ ok p)
compose_lba-shared d b hd hb =
    let other = compose_lba-inodes (2 * d) b (omega (arith, hd)) (omega (arith, hb)) in
    (inode_block_of (2 * d) b, compose_lba-collides d b (pos 0) hd hb ∙ other, other)

inodes_of_20 : (d : ℕ) → d < 2 ^ 14 → compose_lba (pos d) (pos 20) (pos 0) 0 ≡ ok ((d + 1) * 2 ^ 35)
unfolding compose_lba
inodes_of_20 d h = rw (zero-bit_or, bit_or-zero) (ap ok (omega arith))

-- Bucket 20 of a directory keeps its inodes in block 0 of the first file of the next directory:
-- of the file in bucket 0, slot 0.
pub meta_in_data :
    {f g : InodeInfo} {d s : ℕ}
    → At f d 20 s
    → At g (d + 1) 0 0
    → (p : ℕ) × (ffs_get_lba_meta f ≡ ok p) × (ffs_get_block_prep g 0 ≡ ok (p, leb g.size 0))
unfolding ffs_get_lba_meta
meta_in_data {f} {g} {d} {s} hf hg = (
  (d + 1) * 2 ^ 35,
  ground (arith, inodes_of_20 d hf.fits.dir_fits),
  ground (arith, block_prep-At 0 hg),
)
