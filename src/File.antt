-- ===== src/File.antt =====
-- The size of a file: `ffs_write_begin` of flatfs/file.c, and what `ffs_get_block_prep` makes of it. The
-- result of `block_write_begin` is a parameter: the code returns it, and sets the size whatever it is.
use flatfs.Common.{
  ℕ, ◌+◌, ◌*◌, ◌^◌, ◌<◌, ◌≤◌, ◌≡◌, ◌∙◌, ap, ℤ, leb, if◌then◌else◌, arith, ok, true, false,
}
use flatfs.Types.{InodeInfo}
use flatfs.Lba.{ffs_get_block_prep}
use flatfs.Lba.Data.{At, block_prep-At}

-- `at` is the position and `len` the number of bytes; their sum is below 2 ^ 63, which the kernel sees to.
unfoldable pub ffs_write_begin : ℤ → InodeInfo → ℕ → ℕ → ℤ × InodeInfo
ffs_write_begin ret fi at len =
    (ret, if leb fi.size (at + len) then record fi { size = at + len } else fi)

-- A block below 4 GiB that lies behind the end of the file, of a file that a write makes larger, is not
-- taken for a new one as long as its number is below the number of bytes: the code compares blocks with bytes.
pub ffs_write_begin-past_end :
    {fi : InodeInfo} {d b s : ℕ} (ret : ℤ) (at len i : ℕ)
    → At fi d b s
    → fi.size ≤ at + len
    → at + len ≤ i * 2 ^ 12
    → i < at + len
    → i < 2 ^ 20
    → ffs_get_block_prep (ffs_write_begin ret fi at len).1 i
      ≡ ok (((d * 2 ^ 12 + b) * 8 + s) * 2 ^ 20 + i, false)
unfolding ffs_write_begin
ffs_write_begin-past_end {fi} {d} {b} {s} ret at len i h grows behind below small =
    let larger : leb fi.size (at + len) ≡ true = ground (arith, grows) in
    let counted : leb (at + len) i ≡ false = ground (arith, below) in
    let resized : InodeInfo = record fi { size = at + len } in
    let at_slot : At resized d b s = record {
      dir = h.dir;
      bucket = h.bucket;
      slot = h.slot;
      small = h.small;
      fits = h.fits;
    } in
    rw larger (
      block_prep-At i at_slot small
      ∙ ap (λ x. ok (((d * 2 ^ 12 + b) * 8 + s) * 2 ^ 20 + i, x)) counted)
