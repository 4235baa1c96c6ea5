-- ===== src/Lba.antt =====
-- Block addresses: `compose_lba` and the `ffs_get_lba_*` functions of flatfs/lba.c, the
-- translation between directory ids and inode numbers of flatfs/lba.h, and `ffs_get_block_prep`
-- of flatfs/file.c. An `lba_t` is a number below 2 ^ 64. A shift by 64 or more is a fault.
pub mod Data
pub mod Meta
use flatfs.Common.{
  ℕ, List, ◌+◌, ◌-◌, ◌*◌, ◌/◌, ◌%◌, ◌^◌, bit_or, ltb, leb, ◌==◌, if◌then◌else◌, Bool, ℤ, pos,
  minus_one, is_minus_one, to_u64, to_int, u64_max, Run, ok, fault, bad_shift, ◌>>=◌,
}
use flatfs.Config.{
  block_shift, max_file_bucket_bits, min_file_bucket_bits, file_slot_bits, default_file_block_bits,
  file_meta_lba_base, big_tag_base,
}
use flatfs.Name.{bucket_of}
use flatfs.Types.{InodeInfo}

-- `x << k` on 64 bits by a constant below 64.
abbrev pub shl : ℕ → ℕ → ℕ
shl x k = x * 2 ^ k % 2 ^ 64

-- `x << k` on 64 bits by a computed amount.
abbrev pub shl_by : ℕ → ℕ → Run ℕ
shl_by x k = if ltb k 64 then ok (shl x k) else fault bad_shift

-- The branch of an inode's address, with `bits` bits for the bucket. `+` binds tighter than `<<`,
-- so the directory is shifted by the sum of the bucket and the constant.
abbrev pub meta_address : ℕ → ℤ → ℤ → ℤ → Run ℕ
meta_address bits dir_id bucket_id slot_id = do
  dir ← shl_by (to_u64 dir_id) ((bits + to_u64 bucket_id) % 2 ^ 64)
  let lba = bit_or 0 (shl dir file_slot_bits)
  let slotted = (bit_or lba (to_u64 slot_id) + file_meta_lba_base) % 2 ^ 64
  ok (if is_minus_one slot_id then lba else slotted)

-- The branch of the address of a file's data.
abbrev pub data_address : ℕ → ℤ → ℤ → ℤ → ℕ
data_address bits dir_id bucket_id slot_id =
    let dir = bit_or 0 (shl (to_u64 dir_id) (bits + file_slot_bits + default_file_block_bits)) in
    let bucket = bit_or dir (shl (to_u64 bucket_id) (file_slot_bits + default_file_block_bits)) in
    bit_or bucket (shl (to_u64 slot_id) default_file_block_bits)

-- `flag` is 0 for the inode and 1 for the data.
unfoldable pub compose_lba : ℤ → ℤ → ℤ → ℕ → Run ℕ
compose_lba dir_id bucket_id slot_id flag =
    if flag == 0
    then meta_address min_file_bucket_bits dir_id bucket_id slot_id
    else ok (data_address min_file_bucket_bits dir_id bucket_id slot_id)

unfoldable pub compose_big_file_lba : ℤ → ℤ → ℤ → ℕ → Run ℕ
compose_big_file_lba dir_id bucket_id slot_id flag = do
  lba ←
      if flag == 0
      then meta_address max_file_bucket_bits dir_id bucket_id slot_id
      else ok (data_address max_file_bucket_bits dir_id bucket_id slot_id)
  ok (bit_or lba big_tag_base)

unfoldable pub ffs_get_lba_data : InodeInfo → ℕ → Run ℕ
ffs_get_lba_data fi iblock = do
  base ← compose_lba fi.dir_id fi.bucket_id fi.slot_id 1
  ok (bit_or base (shl iblock block_shift))

unfoldable pub ffs_get_big_file_lba_data : InodeInfo → ℕ → Run ℕ
ffs_get_big_file_lba_data fi iblock = do
  base ← compose_big_file_lba fi.dir_id fi.bucket_id fi.slot_id 1
  ok (bit_or base (shl iblock block_shift))

-- The first block of the bucket of a name.
unfoldable pub ffs_get_lba_file_bucket : List ℕ → ℤ → Run ℕ
ffs_get_lba_file_bucket name dir_id = compose_lba dir_id (pos (bucket_of name)) minus_one 0

unfoldable pub ffs_get_lba_meta : InodeInfo → Run ℕ
ffs_get_lba_meta fi = compose_lba fi.dir_id fi.bucket_id (pos 0) 0

unfoldable pub ffs_get_big_file_lba_meta : InodeInfo → Run ℕ
ffs_get_big_file_lba_meta fi = compose_big_file_lba fi.dir_id fi.bucket_id (pos 0) 0

-- The block of a directory's inode; `ino` is -1 where the caller gives the directory itself.
unfoldable pub ffs_get_lba_dir_meta : ℕ → ℤ → ℕ
ffs_get_lba_dir_meta ino dir_id = to_u64 (
    if ino == u64_max
    then dir_id
    else to_int ((ino + 2 ^ 64 - 1) % 2 ^ 64 / 2 ^ (min_file_bucket_bits + file_slot_bits)))

unfoldable pub inode_to_dir_id : ℕ → ℕ
inode_to_dir_id inode = (inode + 2 ^ 64 - 1) % 2 ^ 64 / 2 ^ (min_file_bucket_bits + file_slot_bits)

unfoldable pub dir_id_to_inode : ℕ → ℕ
dir_id_to_inode dir_id = (shl dir_id (min_file_bucket_bits + file_slot_bits) + 1) % 2 ^ 64

-- The macro `compose_to_lba` of the header, on numbers that it does not overflow.
unfoldable pub compose_to_lba : ℕ → ℕ → ℕ → ℕ → ℕ
compose_to_lba dir bucket slot block =
    block
    + (slot + (bucket + dir * 2 ^ min_file_bucket_bits) * 2 ^ file_slot_bits)
      * 2 ^ default_file_block_bits

-- The block that `ffs_get_block_prep` maps block `iblock` of a file to, and whether it is new.
unfoldable pub ffs_get_block_prep : InodeInfo → ℕ → Run (ℕ × Bool)
ffs_get_block_prep fi iblock = do
  pblk ←
      if fi.is_big_dir == 0 then ffs_get_lba_data fi iblock else ffs_get_big_file_lba_data fi iblock
  ok (pblk / 2 ^ block_shift, leb fi.size iblock)
