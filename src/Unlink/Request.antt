-- ===== src/Unlink/Request.antt =====
-- The request that `ffs_unlink` of flatfs/inode.c sends, `submit_bio_for_discard`, and its completion,
-- `define_callback_for_discard`. The kernel's end of a write, `end_buffer_write_sync`, is a parameter.
use flatfs.Common.{
  ℕ, suc, List, [], ◌∷◌, Bool, true, false, ◌&&◌, ◌==◌, if◌then◌else◌, Option, Run, ok, ◌>>=◌,
}
use flatfs.Super.{Sb, follow}
use flatfs.Unlink.{IoEnd, callback_for_discard}

-- What the code uses of `struct buffer_head`. The references are counted; `discards` says that the
-- function of the end of the request is that of the discards.
pub record Buffer : Type 0 where
  pub locked : Bool
  pub dirty : Bool
  pub discards : Bool
  pub b_count : ℕ
  pub b_private : Option IoEnd

-- One buffer of the loop, and whether it is handed to the block layer: a buffer whose lock is held is passed over,
-- and one that is not to be written is unlocked again.
unfoldable pub submit_buffer : ℕ → Buffer → Buffer × Bool
submit_buffer op bh =
    if bh.locked
    then (bh, false)
    else if op == 1 && bh.dirty
    then (
      record bh { locked = true; dirty = false; discards = true; b_count = suc bh.b_count },
      true,
    )
    else (bh, false)

-- The loop over the buffers.
unfoldable pub submit_bio_for_discard : ℕ → List Buffer → List (Buffer × Bool)
submit_bio_for_discard op [] = []
submit_bio_for_discard op (bh ∷ bhs) = submit_buffer op bh ∷ submit_bio_for_discard op bhs

module _ (spin_lock : Bool → Run Bool) (end_buffer_write_sync : Buffer → Bool → Buffer) where
  unfoldable pub define_callback_for_discard : Sb → Buffer → Bool → Run (Sb × Buffer)
  define_callback_for_discard sb bh uptodate = do
    io ← follow bh.b_private
    (sb', err) ← callback_for_discard spin_lock sb io
    ok (sb', end_buffer_write_sync bh uptodate)
