-- ===== src/Tests/Super.antt =====
-- Expansion areas, and the lookup of a file, at concrete inputs.
use flatfs.Common.{
  ℕ, ◌^◌, ◌≡◌, refl, arith, [], true, false, pos, some, none, ok, fault, out_of_bounds, Returns,
  replicate, ◌+◌, ◌-◌,
}
use flatfs.Bitmap.{used}
use flatfs.Table.Big.{init_big_file_ht-empty}
use flatfs.Super.{Sb, resize_dir}
use flatfs.Super.Resize.{IsBigDirs, Grown, resize_dir-Grown, resize_dir-outside}
use flatfs.Types.{InodeInfo}
use flatfs.Name.{c_str, same_bytes, my_strlen, bkdr_loop, bkdr_hash, bucket_of, char_value}
use flatfs.Bitmap.{test_bit}
use flatfs.Lba.{compose_lba, inode_to_dir_id}
use flatfs.Table.{file_seg}
use flatfs.Ino.{any_used, find_name, seg_in_page, get_file_seg}
use flatfs.Dir.{entry_of, find_sub, flatfs_dir_inode_by_name}
use flatfs.Inode.{ffs_lookup}
use flatfs.Inode.Lookup.{ffs_lookup-file}
use flatfs.Tests.Table.{big_empty, bang, full}
use flatfs.Tests.Ino.{device}
use flatfs.Tests.Lba.{file_at}

-- No directory has an expansion area, or 64 have one.
abbrev none_big : Sb
none_big = record {
  dtree = record {
    de = λ i. record {
      dir_id = i;
      dir_name = [];
      namelen = 0;
      rec_len = 0;
      head = none;
      tail = none;
      dir_size = 0;
      pos = 0;
    };
    dir_entry_num = 1;
    dir_id_bitmap = [];
    heap = λ a. none;
  };
  hashtbl = λ i. none;
  big_dir_hashtbl = λ i. none;
  big_dir_bitmap = replicate 64 false;
  big_dir_num = 0;
}

abbrev all_big : Sb
all_big = record none_big { big_dir_bitmap = replicate 64 true; big_dir_num = 64 }

none_big-IsBigDirs : IsBigDirs none_big
unfolding used
none_big-IsBigDirs = record { size = refl; count = refl }

resize_dir-Grown_example : Returns (resize_dir none_big (some big_empty)) (λ (sb', answer).
    (i : ℕ) × (answer ≡ pos i) × Grown none_big sb' i (init_big_file_ht-empty big_empty).0)
resize_dir-Grown_example =
    resize_dir-Grown none_big big_empty (init_big_file_ht-empty big_empty).0 none_big-IsBigDirs
      (omega arith) (init_big_file_ht-empty big_empty).1

resize_dir-outside_example : resize_dir all_big (some big_empty) ≡ fault out_of_bounds
resize_dir-outside_example = resize_dir-outside all_big (some big_empty) refl refl

-- Directory 2 with "!" in the first slot of bucket 33.
abbrev with_bang : Sb
with_bang = record none_big { hashtbl = λ i. some full }

abbrev dir_2 : InodeInfo
dir_2 = record (file_at 2 33 0) { i_ino = 2 ^ 16 + 1 }

bang_seg : get_file_seg device dir_2 full bang ≡ ok 264
unfolding get_file_seg any_used test_bit compose_lba bucket_of bkdr_hash bkdr_loop char_value
    seg_in_page find_name file_seg c_str same_bytes
bang_seg = refl

bang_short : my_strlen bang ≡ 1
unfolding my_strlen
bang_short = refl

no_dir : flatfs_dir_inode_by_name with_bang.dtree dir_2.i_ino bang ≡ ok 0
unfolding flatfs_dir_inode_by_name inode_to_dir_id find_sub entry_of
no_dir = refl

dir_2_id : inode_to_dir_id dir_2.i_ino ≡ 2
unfolding inode_to_dir_id
dir_2_id = refl

ffs_lookup-file_example : ffs_lookup device with_bang dir_2 bang ≡ ok (264 + (2 ^ 64 - 2 ^ 15))
ffs_lookup-file_example =
    ffs_lookup-file device with_bang full dir_2 bang 264 (omega (arith, bang_short)) no_dir
      (omega (arith, dir_2_id)) refl bang_seg (omega arith) (omega arith)
