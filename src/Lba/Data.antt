-- ===== src/Lba/Data.antt =====
-- The addresses of file data: what `compose_lba`, `compose_big_file_lba` and `ffs_get_block_prep`
-- of flatfs/lba.c and flatfs/file.c compute, and which files can share a block.
use native.Mathlib.Nat.{mod-eq_of_lt}
use flatfs.Common.Bits.{zero-bit_or, bit_or_high, bit_or-add, bit_or_low, bit_or_above}
use flatfs.Common.{
  ℕ, ◌+◌, ◌*◌, ◌/◌, ◌%◌, ◌^◌, ◌<◌, ◌≡◌, bit_or, leb, Bool, pos, arith, refl, ◌∙◌, ap, sym, ok,
}
use flatfs.Types.{InodeInfo}
use flatfs.Lba.{
  shl, data_address, compose_lba, compose_big_file_lba, compose_to_lba, ffs_get_lba_data,
  ffs_get_block_prep,
}

-- The coordinates that the layout has room for.
pub record InLayout (d b s : ℕ) : Type 0 where
  pub dir_fits : d < 2 ^ 14
  pub bucket_fits : b < 2 ^ 12
  pub slot_fits : s < 8

-- Three disjoint fields, joined as the code joins them, add up.
three_fields :
    (k q q' x b s : ℕ)
    → x ≡ q * 2 ^ k
    → x ≡ q' * 2 ^ 35
    → b * 2 ^ 35 < 2 ^ k
    → s < 8
    → bit_or (bit_or (bit_or 0 x) (b * 2 ^ 35)) (s * 2 ^ 32) ≡ x + b * 2 ^ 35 + s * 2 ^ 32
three_fields k q q' x b s e e' hb hs =
    rw (zero-bit_or, bit_or-add k q x (b * 2 ^ 35) e hb)
      (bit_or-add 35 (q' + b) (x + b * 2 ^ 35) (s * 2 ^ 32) (omega arith) (omega arith))

shl_fits : (x k : ℕ) → x < 2 ^ 64 → x * 2 ^ k < 2 ^ 64 → shl (x % 2 ^ 64) k ≡ x * 2 ^ k
shl_fits x k hx h = rw (mod-eq_of_lt hx) (mod-eq_of_lt h)

data_address-small :
    (d b s : ℕ)
    → InLayout d b s
    → data_address 12 (pos d) (pos b) (pos s) ≡ ((d * 2 ^ 12 + b) * 8 + s) * 2 ^ 32
data_address-small d b s h =
    rw
      (
        shl_fits d 47 (omega arith) (omega arith),
        shl_fits b 35 (omega arith) (omega arith),
        shl_fits s 32 (omega arith) (omega arith),
      )
      (three_fields 47 d (d * 2 ^ 12) (d * 2 ^ 47) b s refl (omega arith) (omega arith)
          (omega arith)
        ∙ omega arith)

-- For a directory, bucket and slot that the layout has room for, `compose_lba` with the data flag
-- returns the address that the macro `compose_to_lba` gives to block 0.
pub compose_lba-compose_to_lba :
    (d b s : ℕ)
    → InLayout d b s
    → compose_lba (pos d) (pos b) (pos s) 1 ≡ ok (compose_to_lba d b s 0)
unfolding compose_lba compose_to_lba
compose_lba-compose_to_lba d b s h = ap ok (data_address-small d b s h ∙ omega arith)

data_address-big :
    (d b s : ℕ)
    → d < 2 ^ 7
    → b < 2 ^ 18
    → s < 8
    → data_address 20 (pos d) (pos b) (pos s) ≡ ((d * 2 ^ 20 + b) * 8 + s) * 2 ^ 32
data_address-big d b s hd hb hs =
    rw
      (
        shl_fits d 55 (omega arith) (omega arith),
        shl_fits b 35 (omega arith) (omega arith),
        shl_fits s 32 (omega arith) (omega arith),
      )
      (three_fields 55 d (d * 2 ^ 20) (d * 2 ^ 55) b s refl (omega arith) (omega arith) hs
        ∙ omega arith)

-- In the expansion area a directory below 64 has an address of its own, above bit 61, and the
-- directory 64 further on has the same one.
pub compose_big_file_lba-alias :
    (d b s : ℕ)
    → d < 64
    → b < 2 ^ 18
    → s < 8
    → (compose_big_file_lba (pos d) (pos b) (pos s) 1
        ≡ ok (2 ^ 61 + ((d * 2 ^ 20 + b) * 8 + s) * 2 ^ 32))
      × (compose_big_file_lba (pos (d + 64)) (pos b) (pos s) 1
          ≡ compose_big_file_lba (pos d) (pos b) (pos s) 1)
unfolding compose_big_file_lba
compose_big_file_lba-alias d b s hd hb hs = (
  rw (data_address-big d b s (omega arith) hb hs) (ap ok (low ∙ omega arith)),
  rw
      (
        data_address-big d b s (omega arith) hb hs,
        data_address-big (d + 64) b s (omega arith) hb hs,
        far,
      )
      (ap ok (high ∙ sym low)),
)
  where
    x : ℕ
    x = ((d * 2 ^ 20 + b) * 8 + s) * 2 ^ 32

    far : ((d + 64) * 2 ^ 20 + b) * 8 + s ≡ 2 ^ 29 + ((d * 2 ^ 20 + b) * 8 + s)
    far = omega arith

    low : bit_or x (2 ^ 61) ≡ 1 * 2 ^ 61 + x
    low = bit_or_low 61 1 x (omega arith)

    high : bit_or ((2 ^ 29 + ((d * 2 ^ 20 + b) * 8 + s)) * 2 ^ 32) (2 ^ 61) ≡ 1 * 2 ^ 61 + x
    high = rw (← reorder) (bit_or_above 61 1 1 x (omega arith))
      where
        reorder : 1 * 2 ^ 61 + x ≡ (2 ^ 29 + ((d * 2 ^ 20 + b) * 8 + s)) * 2 ^ 32
        reorder = omega arith

-- A file that `ffs_mknod` placed in the hash table of its directory.
pub record At (fi : InodeInfo) (d b s : ℕ) : Type 0 where
  pub dir : fi.dir_id ≡ pos d
  pub bucket : fi.bucket_id ≡ pos b
  pub slot : fi.slot_id ≡ pos s
  pub small : fi.is_big_dir ≡ 0
  pub fits : InLayout d b s

lba_data-At :
    {fi : InodeInfo} {d b s : ℕ} (i : ℕ)
    → At fi d b s
    → ffs_get_lba_data fi i ≡ ok (bit_or (((d * 2 ^ 12 + b) * 8 + s) * 2 ^ 32) (shl i 12))
unfolding ffs_get_lba_data compose_lba
lba_data-At {fi} {d} {b} {s} i h = rw (h.dir, h.bucket, h.slot, data_address-small d b s h.fits)

-- A number of blocks below 4 GiB is joined to an address without a carry.
block_below : (n i : ℕ) → i < 2 ^ 20 → bit_or (n * 2 ^ 32) (shl i 12) / 2 ^ 12 ≡ n * 2 ^ 20 + i
block_below n i h =
    rw (mod-eq_of_lt small, bit_or_high 32 n (i * 2 ^ 12) (omega arith)) (omega arith)
  where
    small : i * 2 ^ 12 < 2 ^ 64
    small = omega arith

-- Below 4 GiB, block `i` of a file in the hash table is mapped to the block that its directory,
-- bucket, slot and `i` spell out, and is new from the file's size on.
pub block_prep-At :
    {fi : InodeInfo} {d b s : ℕ} (i : ℕ)
    → At fi d b s
    → i < 2 ^ 20
    → ffs_get_block_prep fi i ≡ ok (((d * 2 ^ 12 + b) * 8 + s) * 2 ^ 20 + i, leb fi.size i)
unfolding ffs_get_block_prep
block_prep-At {fi} {d} {b} {s} i h hi =
    ground (arith, lba_data-At i h, block_below ((d * 2 ^ 12 + b) * 8 + s) i hi)

digits_unique :
    (d b s i d' b' s' i' : ℕ)
    → InLayout d b s
    → InLayout d' b' s'
    → i < 2 ^ 20
    → i' < 2 ^ 20
    → ((d * 2 ^ 12 + b) * 8 + s) * 2 ^ 20 + i ≡ ((d' * 2 ^ 12 + b') * 8 + s') * 2 ^ 20 + i'
    → (d ≡ d') × (b ≡ b') × (s ≡ s') × (i ≡ i')
digits_unique d b s i d' b' s' i' h h' hi hi' e = omega arith

-- Two blocks below 4 GiB, of files in the hash tables, are mapped to one block of the device only
-- if they are the same block of the file in the same slot.
pub no_shared_block :
    {f g : InodeInfo} {d b s d' b' s' : ℕ} (i j : ℕ) {p : ℕ} {new new' : Bool}
    → At f d b s
    → At g d' b' s'
    → i < 2 ^ 20
    → j < 2 ^ 20
    → ffs_get_block_prep f i ≡ ok (p, new)
    → ffs_get_block_prep g j ≡ ok (p, new')
    → (d ≡ d') × (b ≡ b') × (s ≡ s') × (i ≡ j)
no_shared_block {f} {g} {d} {b} {s} {d'} {b'} {s'} i j hf hg hi hj e e' =
    digits_unique d b s i d' b' s' j hf.fits hg.fits hi hj
      (ground (arith, block_prep-At i hf hi, block_prep-At j hg hj))

-- A file in an even slot that grows past 4 GiB goes on in the blocks of the slot after it: block
-- 2 ^ 20 + i of the one and block i of the other are mapped to the same block.
pub shared_block_past_4g :
    {f g : InodeInfo} {d b : ℕ} (t i : ℕ)
    → At f d b (2 * t)
    → At g d b (2 * t + 1)
    → i < 2 ^ 20
    → (p : ℕ) × (ffs_get_block_prep f (2 ^ 20 + i) ≡ ok (p, leb f.size (2 ^ 20 + i)))
      × (ffs_get_block_prep g i ≡ ok (p, leb g.size i))
unfolding ffs_get_block_prep
shared_block_past_4g {f} {g} {d} {b} t i hf hg hi = (
  ((d * 2 ^ 12 + b) * 8 + (2 * t + 1)) * 2 ^ 20 + i,
  ground (arith, lba_data-At (2 ^ 20 + i) hf, past),
  block_prep-At i hg hi,
)
  where
    small : (2 ^ 20 + i) * 2 ^ 12 < 2 ^ 64
    small = omega arith

    even : ((d * 2 ^ 12 + b) * 8 + 2 * t) * 2 ^ 32 ≡ ((d * 2 ^ 12 + b) * 4 + t) * 2 ^ 33
    even = omega arith

    past :
        bit_or (((d * 2 ^ 12 + b) * 8 + 2 * t) * 2 ^ 32) (shl (2 ^ 20 + i) 12) / 2 ^ 12
        ≡ ((d * 2 ^ 12 + b) * 8 + (2 * t + 1)) * 2 ^ 20 + i
    past =
        rw
          (
            mod-eq_of_lt small,
            bit_or-add 33 ((d * 2 ^ 12 + b) * 4 + t) _ ((2 ^ 20 + i) * 2 ^ 12) even (omega arith),
          )
          (omega arith)
