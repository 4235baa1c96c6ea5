-- ===== src/Lib.antt =====
-- flatfs is a Linux file system that computes the address of a block from the directory, the
-- bucket and the slot of its file. A directory has an id; its files stand in a hash table of
-- buckets of eight slots, the bucket given by a hash of the name, and a directory that overflows
-- gets an expansion area with a larger table. The tree of directories and the tables live in
-- memory; inodes lie on the device, a page for each bucket.
--
-- The files follow the program:
--
-- - Common: Boolean tests, lists with native indices, C integers, runs that end in a value or a
--   fault, bit fields.
-- - Config, Types: the constants and the shared records of flatfs/flatfs_d.h.
-- - Lba: compose_lba and the addresses of flatfs/lba.c, flatfs/lba.h and ffs_get_block_prep of
--   flatfs/file.c.
-- - Name: my_strlen and BKDRHash. Bitmap: the bitmap operations of the kernel that the code uses.
-- - Table: the hash tables of flatfs/lba.c, with insertion and deletion; Table/Calls has what
--   they promise, as steps on the files of a directory. Ino: inode numbers, allocation by name
--   and the lookup of a name in the page of a bucket.
-- - Dir: the tree of directories of flatfs/dir.c, its lists as nodes on a heap; Dir/Exit is its
--   release.
-- - Super: struct flatfs_sb_info, resize_dir of flatfs/lba.c and remove_dir of flatfs/dir.c.
-- - Inode: ffs_mknod, ffs_mkdir, ffs_create and ffs_lookup of flatfs/inode.c, and the look-up in
--   blocks of single inodes that has no caller. Unlink: ffs_unlink, ffs_rmdir, the discard
--   request and its callback. PathHash: the hash of flatfs/flatfs_d.c.
-- - Readdir: read_dir_files and read_big_dir_files of flatfs/lba.c, read_dir_dirs of flatfs/dir.c
--   and ffs_readdir of flatfs/file.c. Writeback: ffs_dirty_inode of flatfs/super.c. File:
--   ffs_write_begin of flatfs/file.c. Mount: flatfs_iget, flatfs_fill_super and flatfs_get_inode
--   of flatfs/super.c.
-- - Hash, Cuckoo: the hash of flatfs/hash.c and the cuckoo hash of flatfs/cuckoo_hash.c, with
--   insertion, eviction and resize. Cuckoo/Sound says when a hash is in order: every key in one
--   of its two buckets, and in one slot alone.
-- - Tests: the theorems at concrete inputs.
--
-- State is passed from call to call. What C leaves undefined, and a spin lock that is waited for
-- without end, is a fault of the type Run; a theorem that the code returns says that there is no
-- fault. An unsigned integer is a native number with its wrap written out, an int is of type ℤ
-- and its shifts drop the bits that leave, as gcc computes them. A string that is passed to the
-- code ends in a zero byte, which its list may leave out; an array of the program's own that is
-- measured without one, a name of the tree or a key of the cuckoo hash, is a fault. The bitmaps
-- follow the documented behaviour of the kernel's functions, on the words that are declared.
--
-- The kernel is a parameter: spin_lock maps the state of a lock to that after the call, or to a
-- fault; sb_bread, or a state of blocks, gives the page of a block; the addresses and the
-- contents of new memory are arguments. Loops over lists run for the number of rounds that the
-- code counts, the size of the directory, so they need no further fuel; the loops of the cuckoo
-- hash run for the four slots of a bucket, for the buckets of the table and for the sixteen nodes
-- of a path. The recursion of clear_dir_entry has its depth as fuel, and what is stated of it
-- holds for every depth. The draws of random numbers are a list, which the loop that makes the
-- seeds reads until two seeds differ.
--
-- Not modelled: the registration with the kernel, the release of the tables' memory, and the
-- copies of kernel sources under extra. The inode cache, the dentries and the block layer belong
-- to the kernel.
pub mod Common
pub mod Config
pub mod Types
pub mod Lba
pub mod Name
pub mod Bitmap
pub mod Table
pub mod Ino
pub mod Dir
pub mod Super
pub mod Inode
pub mod Unlink
pub mod PathHash
pub mod Readdir
pub mod Writeback
pub mod File
pub mod Mount
pub mod Hash
pub mod Cuckoo
pub mod Tests
