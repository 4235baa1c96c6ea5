-- ===== src/Tests/File.antt =====
-- A file of 5000 bytes, of two blocks: its block 2 is behind the end.
use flatfs.Common.{◌+◌, ◌*◌, ◌^◌, ◌≡◌, arith, pos, ok, false}
use flatfs.Lba.{ffs_get_block_prep}
use flatfs.File.{ffs_write_begin, ffs_write_begin-past_end}
use flatfs.Tests.Lba.{file_at, file_at-At}

ffs_write_begin-past_end_example :
    ffs_get_block_prep (ffs_write_begin (pos 0) (file_at 2 33 4) 0 5000).1 2
    ≡ ok (((2 * 2 ^ 12 + 33) * 8 + 4) * 2 ^ 20 + 2, false)
ffs_write_begin-past_end_example =
    ffs_write_begin-past_end (pos 0) 0 5000 2 file_at-At (omega arith) (omega arith) (omega arith)
      (omega arith)
