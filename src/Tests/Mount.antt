-- ===== src/Tests/Mount.antt =====
-- Mounting with memory that holds the tree and the inodes of the other tests.
use flatfs.Common.{
  ◌≡◌, refl, arith, true, none, some, pos, ok, fault, out_of_bounds, ◌>>=◌, Returns,
}
use flatfs.Name.{my_strlen}
use flatfs.Inode.{ffs_mkdir, ffs_lookup}
use flatfs.Mount.{new_sb, root_info, flatfs_fill_super}
use flatfs.Mount.Fresh.{ffs_mkdir-new_sb, flatfs_fill_super-outside}
use flatfs.Tests.Table.{several_processors, bang}
use flatfs.Tests.Lba.{file_at}
use flatfs.Tests.Ino.{device, page}
use flatfs.Tests.Dir.{tree}

bang_short : my_strlen bang ≡ 1
unfolding my_strlen
bang_short = refl

ffs_mkdir-new_sb_example :
    Returns
      (new_sb tree true (root_info (file_at 0 0 0)) >>= λ sb.
        ffs_mkdir several_processors true none
          (some 12)
          sb
          (root_info (file_at 0 0 0))
          (file_at 0 0 0)
          bang)
      (λ m.
        (m.ret ≡ pos 0) × (ffs_lookup device m.sb (root_info (file_at 0 0 0)) bang ≡ ok m.fi.i_ino))
ffs_mkdir-new_sb_example =
    ffs_mkdir-new_sb several_processors device tree none 12 (file_at 0 0 0) (file_at 0 0 0) bang
      (omega (arith, bang_short)) refl

flatfs_fill_super-outside_example :
    flatfs_fill_super (λ p write. p) device true (some (file_at 0 0 0)) tree true true
    ≡ fault out_of_bounds
flatfs_fill_super-outside_example =
    flatfs_fill_super-outside (λ p write. p) device (file_at 0 0 0) tree true page refl
