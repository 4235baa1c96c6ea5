-- ===== src/Config.antt =====
-- The constants of flatfs/flatfs_d.h that lay out directories, buckets, slots and block addresses.
use flatfs.Common.{ℕ, ◌+◌, ◌^◌}

abbrev pub root_ino : ℕ
root_ino = 2

abbrev pub block_shift : ℕ
block_shift = 12

abbrev pub max_filename_len : ℕ
max_filename_len = 480

abbrev pub max_dir_bits : ℕ
max_dir_bits = 14

abbrev pub min_dir_bits : ℕ
min_dir_bits = 6

abbrev pub max_file_bucket_bits : ℕ
max_file_bucket_bits = 20

abbrev pub min_file_bucket_bits : ℕ
min_file_bucket_bits = 12

abbrev pub file_slot_bits : ℕ
file_slot_bits = 3

abbrev pub default_file_block_bits : ℕ
default_file_block_bits = 32

-- `BUCKETS_PER_DIR`
abbrev pub buckets_per_dir : ℕ
buckets_per_dir = 2 ^ min_file_bucket_bits

-- `BUCKETS_PER_BIG_DIR`
abbrev pub buckets_per_big_dir : ℕ
buckets_per_big_dir = 2 ^ (max_file_bucket_bits + min_dir_bits)

-- `SLOTS_PER_BUCKET`
abbrev pub slots_per_bucket : ℕ
slots_per_bucket = 2 ^ file_slot_bits

-- `FILE_META_LBA_BASE`
abbrev pub file_meta_lba_base : ℕ
file_meta_lba_base = 2 ^ (file_slot_bits + default_file_block_bits)

-- `BIG_TAG_BASE`
abbrev pub big_tag_base : ℕ
big_tag_base = 2 ^ (min_dir_bits + max_file_bucket_bits + file_slot_bits + default_file_block_bits)

-- The buckets that `struct Big_Dir_HashTable` declares.
abbrev pub big_table_buckets : ℕ
big_table_buckets = 2 ^ (min_file_bucket_bits + min_dir_bits)
