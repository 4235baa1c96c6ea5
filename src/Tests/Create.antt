-- ===== src/Tests/Create.antt =====
-- The file "!" is created in directory 2, and written back to a page without names.
use flatfs.Common.{
  ℕ, ◌/◌, ◌%◌, ◌≡◌, ◌≢◌, refl, arith, [], ◌∷◌, true, false, pos, some, none, Option, ok, ◌>>=◌,
  Returns, replicate, get_or, if◌then◌else◌, ◌==◌,
}
use flatfs.Types.{FfsInode, InodePage, InodeInfo}
use flatfs.Name.{my_strlen, c_str, same_bytes, str_eq, bucket_of}
use flatfs.Ino.{get_file_seg, flatfs_file_inode_by_name}
use flatfs.Super.{Sb, follow}
use flatfs.Inode.{named, ffs_create}
use flatfs.Writeback.{write_inode, ffs_dirty_inode}
use flatfs.Writeback.Names.{write_inode-longer}
use flatfs.Writeback.Create.{RoomFor, ffs_create-found}
use flatfs.Tests.Table.{bang, several_processors, empty, empty-TableIsValid}
use flatfs.Tests.Lba.{file_at}
use flatfs.Tests.Ino.{near}
use flatfs.Tests.Dir.{sb}

abbrev pub no_files : Sb
no_files = record sb { hashtbl = λ i. some empty }

abbrev pub blank : InodePage
blank = record {
  slot_bitmap = replicate 64 false;
  valid_slot_num = pos 0;
  inode = λ s. record { valid = 0; size = 0; filename = record { name_len = 0; name = [] } };
}

abbrev pub blanks : ℕ → Option InodePage
blanks block = some blank

bang_short : my_strlen bang ≡ 1
unfolding my_strlen
bang_short = refl

bang_differs : str_eq bang [] ≡ false
unfolding c_str same_bytes
bang_differs = refl

blank-RoomFor : RoomFor (empty.buckets (bucket_of bang)) blank bang
blank-RoomFor = record {
  width = refl;
  room = λ s bound free. refl;
  absent = λ s bound. bang_differs;
}

abbrev overlay : InodePage → (FfsInode → FfsInode) → InodePage
overlay page write = page

ffs_create-found_example :
    Returns
      (ffs_create several_processors true none
          (some 12)
          no_files
          (file_at 2 0 0)
          (file_at 0 0 0)
          bang
        >>= λ m. ffs_dirty_inode overlay blanks m.fi >>= λ device'.
            follow (m.sb.hashtbl 2) >>= λ ht'.
            get_file_seg device' (file_at 2 0 0) ht' bang >>= λ seg.
            flatfs_file_inode_by_name device' ht' (file_at 2 0 0) (pos 2) bang >>= λ ino.
            ok (m, seg, ino))
      (λ (m, seg, ino).
        (m.fi.bucket_id ≡ pos (seg / 8))
        × (m.fi.slot_id ≡ pos (seg % 8))
        × (ino ≡ (if seg == 0 then 0 else m.fi.i_ino)))
ffs_create-found_example =
    ffs_create-found overlay blanks several_processors true none (some 12) no_files (file_at 2 0 0)
      (file_at 0 0 0) bang 2 empty blank refl (omega arith) refl refl empty-TableIsValid refl
      (omega arith) blank-RoomFor (omega (arith, bang_short)) near refl

-- A slot that holds "ab".
abbrev old_inode : FfsInode
old_inode = record {
  valid = 1;
  size = 0;
  filename = record { name_len = 2; name = 97 ∷ 98 ∷ 0 ∷ [] };
}

abbrev bang_file : InodeInfo
bang_file = record (file_at 2 33 0) { filename = named (file_at 0 0 0) bang }

b_stays : get_or old_inode.filename.name (my_strlen bang) 0 ≢ 0
b_stays = rw bang_short (λ e. absurd (omega (arith, e)))

write_inode-longer_example : str_eq bang (write_inode bang_file old_inode).filename.name ≡ false
write_inode-longer_example =
    write_inode-longer bang_file (file_at 0 0 0) old_inode bang refl (omega (arith, bang_short))
      b_stays
