-- ===== src/Unlink.antt =====
-- Deleting, of flatfs/inode.c: `ffs_unlink` with the request that it sends and the callback that
-- completes it, and `ffs_rmdir`. `spin_lock` is a parameter, and what the blocks hold is a state.
pub mod Request
pub mod Fails
use flatfs.Common.{
  ℕ, zero, suc, ◌+◌, ◌-◌, ◌%◌, ◌^◌, Bool, true, false, ℤ, pos, negsuc, minus_one, is_minus_one,
  ◌==◌, if◌then◌else◌, update, Option, some, none, Run, ok, fault, out_of_bounds, ◌>>=◌,
}
use flatfs.Types.{InodePage, InodeInfo}
use flatfs.Bitmap.{bitmap_write}
use flatfs.Lba.{compose_lba, compose_big_file_lba}
use flatfs.Table.{delete_file, delete_big_file}
use flatfs.Dir.{zero_name}
use flatfs.Super.{Sb, follow, with_table, with_big_table, remove_dir}

-- `ffs_io_end_t`, what the completion of a request is told.
pub record IoEnd : Type 0 where
  pub dir_id : ℤ
  pub bucket_id : ℤ
  pub slot_id : ℤ
  pub is_big_dir : ℕ
  pub big_dir_id : ℤ

-- The field `is_big_dir` keeps what the memory held.
unfoldable pub init_handler_for_discard : IoEnd → InodeInfo → IoEnd
init_handler_for_discard io fi = record io {
  dir_id = fi.dir_id;
  bucket_id = fi.bucket_id;
  slot_id = fi.slot_id;
  big_dir_id = fi.big_dir_id;
}

unfoldable pub compose_pblk_for_discard : InodeInfo → Run ℕ
compose_pblk_for_discard fi =
    if fi.is_big_dir == 0
    then compose_lba fi.dir_id fi.bucket_id (pos 0) 0
    else compose_big_file_lba fi.dir_id fi.bucket_id (pos 0) 0

-- `x - 1`
abbrev pub pred_int : ℤ → ℤ
pred_int (pos zero) = minus_one
pred_int (pos (suc n)) = pos n
pred_int (negsuc n) = negsuc (suc n)

-- The request completes: the slot is given back.
module _ (spin_lock : Bool → Run Bool) where
  unfoldable pub callback_for_discard : Sb → IoEnd → Run (Sb × ℕ)
  callback_for_discard sb io =
      if io.is_big_dir == 0
      then with_table sb io.dir_id (λ ht. delete_file spin_lock ht io.bucket_id io.slot_id)
      else with_big_table sb io.big_dir_id
          (λ ht. delete_big_file spin_lock ht io.bucket_id io.slot_id)

-- What `ffs_unlink` does to the page of the file. The index of the bitmap is an `int`.
unfoldable pub clear_in_page : InodePage → ℤ → Run InodePage
clear_in_page page (negsuc i) = fault out_of_bounds
clear_in_page page (pos i) = bitmap_write page.slot_bitmap i false >>= λ bits.
    ok (record page { slot_bitmap = bits; valid_slot_num = pred_int page.valid_slot_num })

-- The kernel's count of links is an `unsigned int`.
abbrev pub drop_nlink : ℕ → ℕ
drop_nlink n = (n + (2 ^ 32 - 1)) % 2 ^ 32

-- The inode of a deleted name: invalid, without a name and with one link less.
unfoldable pub dropped : InodeInfo → InodeInfo
dropped fi = record fi {
  valid = 0;
  filename = record { name_len = 0; name = zero_name fi.filename.name_len fi.filename.name };
  i_nlink = drop_nlink fi.i_nlink;
}

-- `device` is what the blocks hold. What `b_private` of the buffer points to is an argument: the kernel has NULL in
-- it when it makes a buffer, and no code of flatfs sets it. The result
-- has the request to be completed, if there is one.
unfoldable pub ffs_unlink :
    (ℕ → Option InodePage)
    → Option IoEnd
    → InodeInfo
    → Run ((ℕ → Option InodePage) × InodeInfo × Option IoEnd)
ffs_unlink device b_private fi = elim (is_minus_one fi.slot_id) [
  | true ↦ ok (device, dropped fi, none)
  | false ↦ do
    pblk ← compose_pblk_for_discard fi
    page ← follow (device pblk)
    page' ← clear_in_page page fi.slot_id
    io ← follow b_private
    ok (update device pblk (some page'), dropped fi, some (init_handler_for_discard io fi))
]

-- What a call of `ffs_rmdir` leaves: the super block, the blocks, the inodes of the parent and of the
-- directory, the request of `ffs_unlink`, and what it returns.
pub record Removed : Type 0 where
  pub sb : Sb
  pub device : ℕ → Option InodePage
  pub dfi : InodeInfo
  pub fi : InodeInfo
  pub request : Option IoEnd
  pub ret : ℤ

-- The number of the error ENOTEMPTY is 39, so that it is returned as `negsuc 38`.
unfoldable pub ffs_rmdir :
    (ℕ → Option InodePage) → Option IoEnd → Sb → InodeInfo → InodeInfo → Run Removed
ffs_rmdir device b_private sb dfi fi = elim (fi.i_size == 0) [
  | true ↦ do
    (device', fi', io) ← ffs_unlink device b_private fi
    sb' ← remove_dir sb dfi.i_ino fi'.i_ino fi'.big_dir_id
    ok (record {
      sb = sb';
      device = device';
      dfi = record dfi { i_nlink = drop_nlink dfi.i_nlink };
      fi = record fi' { i_size = 0; i_nlink = drop_nlink fi'.i_nlink };
      request = io;
      ret = pos 0;
    })
  | false ↦
      ok (record { sb = sb; device = device; dfi = dfi; fi = fi; request = none; ret = negsuc 38 })
]
