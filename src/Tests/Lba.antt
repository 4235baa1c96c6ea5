-- ===== src/Tests/Lba.antt =====
-- Block addresses at concrete files.
use flatfs.Common.{ℕ, ◌+◌, ◌*◌, ◌^◌, ◌≡◌, refl, arith, pos, negsuc, ok, [], true}
use flatfs.Types.{InodeInfo}
use flatfs.Lba.{compose_lba, ffs_get_lba_meta, ffs_get_block_prep}
use flatfs.Lba.Data.{InLayout, At, block_prep-At, no_shared_block, shared_block_past_4g}
use flatfs.Lba.Meta.{compose_lba-shared, meta_in_data}

-- The file in slot `s` of bucket `b` of directory `d`.
abbrev pub file_at : ℕ → ℕ → ℕ → InodeInfo
file_at d b s = record {
  dir_id = pos d;
  bucket_id = pos b;
  slot_id = pos s;
  valid = 1;
  is_big_dir = 0;
  big_dir_id = negsuc 0;
  size = 0;
  filename = record { name_len = 0; name = [] };
  i_ino = 0;
  i_size = 0;
  i_nlink = 1;
}

abbrev in_layout : InLayout 2 33 4
in_layout = record { dir_fits = omega arith; bucket_fits = omega arith; slot_fits = omega arith }

pub file_at-At : At (file_at 2 33 4) 2 33 4
file_at-At = record { dir = refl; bucket = refl; slot = refl; small = refl; fits = in_layout }

block_prep-At_example :
    ffs_get_block_prep (file_at 2 33 4) 7 ≡ ok (((2 * 2 ^ 12 + 33) * 8 + 4) * 2 ^ 20 + 7, true)
block_prep-At_example = block_prep-At 7 file_at-At (omega arith)

no_shared_block_example :
    (◌≡◌ {A = ℕ} 2 2) × (◌≡◌ {A = ℕ} 33 33) × (◌≡◌ {A = ℕ} 4 4) × (◌≡◌ {A = ℕ} 7 7)
no_shared_block_example =
    no_shared_block 7 7 file_at-At file_at-At (omega arith) (omega arith) block_prep-At_example
      block_prep-At_example

even_file : At (file_at 2 33 (2 * 2)) 2 33 (2 * 2)
even_file = file_at-At

odd_file : At (file_at 2 33 5) 2 33 (2 * 2 + 1)
odd_file = record {
  dir = refl;
  bucket = refl;
  slot = refl;
  small = refl;
  fits = record { dir_fits = omega arith; bucket_fits = omega arith; slot_fits = omega arith };
}

shared_block_past_4g_example :
    (p : ℕ) × (ffs_get_block_prep (file_at 2 33 4) (2 ^ 20 + 9) ≡ ok (p, true))
    × (ffs_get_block_prep (file_at 2 33 5) 9 ≡ ok (p, true))
shared_block_past_4g_example = shared_block_past_4g 2 9 even_file odd_file (omega arith)

bucket_20 : At (file_at 2 20 4) 2 20 4
bucket_20 = record {
  dir = refl;
  bucket = refl;
  slot = refl;
  small = refl;
  fits = record { dir_fits = omega arith; bucket_fits = omega arith; slot_fits = omega arith };
}

next_dir : At (file_at (2 + 1) 0 0) (2 + 1) 0 0
next_dir = record {
  dir = refl;
  bucket = refl;
  slot = refl;
  small = refl;
  fits = record { dir_fits = omega arith; bucket_fits = omega arith; slot_fits = omega arith };
}

meta_in_data_example :
    (p : ℕ) × (ffs_get_lba_meta (file_at 2 20 4) ≡ ok p)
    × (ffs_get_block_prep (file_at 3 0 0) 0 ≡ ok (p, true))
meta_in_data_example = meta_in_data bucket_20 next_dir

compose_lba-shared_example :
    (p : ℕ) × (compose_lba (pos 2) (pos (33 + 1)) (pos 0) 0 ≡ ok p)
    × (compose_lba (pos (2 * 2)) (pos 33) (pos 0) 0 ≡ ok p)
compose_lba-shared_example = compose_lba-shared 2 33 (omega arith) (omega arith)
