-- ===== src/Tests/Unlink.antt =====
-- The file "!" is created in directory 2 and deleted again.
use flatfs.Common.{
  ◌≡◌, ◌>>=◌, refl, sym, some, arith, true, none, fault, null_pointer, bad_shift, ltb,
  if◌then◌else◌,
}
use flatfs.Name.{bucket_of}
use flatfs.Types.{InodePage}
use flatfs.Inode.{ffs_create}
use flatfs.Unlink.{ffs_unlink}
use flatfs.Unlink.Fails.{PagesFit, create_unlink-faults}
use flatfs.Tests.Table.{bang, one_processor, empty, empty-TableIsValid}
use flatfs.Tests.Lba.{file_at}
use flatfs.Tests.Ino.{device}
use flatfs.Tests.Create.{no_files}

device-PagesFit : PagesFit device
device-PagesFit block p e = rw (sym (some_page e)) (omega arith)
  where
    some_page : {x y : InodePage} → some x ≡ some y → x ≡ y
    some_page e = cc

create_unlink-faults_example :
    (ffs_create one_processor true none (some 12) no_files (file_at 2 0 0) (file_at 0 0 0) bang
      >>= λ m. ffs_unlink device none m.fi)
    ≡ fault (if ltb (bucket_of bang) 52 then null_pointer else bad_shift)
create_unlink-faults_example =
    create_unlink-faults one_processor true none (some 12) no_files (file_at 2 0 0) (file_at 0 0 0)
      device bang 2 empty refl (omega arith) refl refl empty-TableIsValid refl (omega arith)
      device-PagesFit
