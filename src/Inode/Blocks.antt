-- ===== src/Inode/Blocks.antt =====
-- Inodes read from blocks of their own, one for each slot, of flatfs/inode.c: `ffs_find_get_inode_file` and
-- `ffs_get_inode_dir`, which nothing calls. `sb_bread` and `lock_buffer` are parameters; a block that cannot be read has
-- no buffer, and the loop follows its address all the same.
use flatfs.Common.{
  ℕ, zero, suc, ◌+◌, ◌/◌, ◌^◌, List, Bool, true, false, ◌==◌, ◌&&◌, Option, some, none, Run, ok,
  ◌>>=◌,
}
use flatfs.Config.{block_shift}
use flatfs.Name.{my_strlen, str_eq}
use flatfs.Types.{FfsInode}
use flatfs.Super.{follow}

-- What the search leaves: the slot, the inode that is found, and the number of the block whose buffer is kept.
pub record FoundInode : Type 0 where
  pub slot_id : ℕ
  pub inode : Option FfsInode
  pub block : Option ℕ

-- The number of the first free slot is set once.
unfoldable pub first_free : Option ℕ → ℕ → Option ℕ
first_free none i = some i
first_free (some j) i = some j

-- `memory` is what the variable for the free slot holds.
unfoldable pub slot_or : Option ℕ → ℕ → ℕ
slot_or none memory = memory
slot_or (some i) memory = i

-- The test of the names.
unfoldable pub inode_has_name : FfsInode → List ℕ → Bool
inode_has_name temp name =
    (temp.filename.name_len == my_strlen name) && str_eq temp.filename.name name

module _ (sb_bread : ℕ → Option FfsInode) (lock_buffer : Bool → Run Bool) (locked : ℕ → Bool)
    (memory : ℕ) where
  -- The loop over the slots, `n` of them from slot `i` on. The buffer of the inode that is found is locked twice.
  unfoldable pub find_loop : ℕ → ℕ → ℕ → List ℕ → Option ℕ → Run FoundInode
  find_loop block zero i name free =
      ok (record { slot_id = slot_or free memory; inode = none; block = none })
  find_loop block (suc n) i name free = follow (sb_bread (block + i)) >>= λ temp.
      elim (temp.valid == 0) [
        | true ↦ find_loop block n (suc i) name (first_free free i)
        | false ↦ elim (inode_has_name temp name) [
          | false ↦ find_loop block n (suc i) name free
          | true ↦ do
            once ← lock_buffer (locked (block + i))
            twice ← lock_buffer once
            ok (record { slot_id = i; inode = some temp; block = some (block + i) })
        ]
      ]

  unfoldable pub ffs_find_get_inode_file : ℕ → List ℕ → Run FoundInode
  ffs_find_get_inode_file slba name = find_loop (slba / 2 ^ block_shift) 8 0 name none

-- The inode and the block of a directory.
unfoldable pub ffs_get_inode_dir : (ℕ → Option FfsInode) → ℕ → Option (FfsInode × ℕ)
ffs_get_inode_dir sb_bread slba = elim (sb_bread (slba / 2 ^ block_shift)) [
  | none ↦ none
  | some inode ↦ some (inode, slba / 2 ^ block_shift)
]
