-- ===== src/Super/Resize.antt =====
-- `resize_dir` of flatfs/lba.c and the 64 expansion areas.
use flatfs.Common.{
  ℕ, zero, suc, ◌+◌, ◌%◌, ◌^◌, ◌<◌, ◌≡◌, ◌≢◌, refl, sym, ◌∙◌, List, ◌∷◌, [], Bool, true, false, pos,
  ltb, Option, some, ok, fault, out_of_bounds, ◌>>=◌, Returns, arith, length, set, get_or,
  replicate, update, get_or-set_self, get_or-set_ne, length-set,
}
use flatfs.Config.{max_dir_bits, min_dir_bits}
use flatfs.Bitmap.{
  find_first_zero_bit, find_first_zero_bit-FirstZero, bitmap_write-ok, used, used-set,
}
use flatfs.Table.{BigDirHashTable, init_big_file_ht}
use flatfs.Dir.Links.{update_self, update_ne}
use flatfs.Super.{Sb, resize_dir}

-- A search that finds a bit finds it under a larger bound.
find_first_zero_bit-more :
    (bits : List Bool) (more : ℕ)
    → used (length bits) bits < length bits
    → find_first_zero_bit bits (length bits + more) ≡ find_first_zero_bit bits (length bits)
unfolding find_first_zero_bit used
find_first_zero_bit-more [] more lt = absurd (omega arith)
find_first_zero_bit-more (false ∷ bits) more lt =
    let s : suc (length bits) + more ≡ suc (length bits + more) = omega arith in rw s
find_first_zero_bit-more (true ∷ bits) more lt =
    let s : suc (length bits) + more ≡ suc (length bits + more) = omega arith in
    rw (s, find_first_zero_bit-more bits more (omega arith))

-- A search for more bits than the bitmap has, when all of them are set.
find_first_zero_bit-outside :
    (n more : ℕ) → find_first_zero_bit (replicate n true) (n + suc more) ≡ fault out_of_bounds
unfolding find_first_zero_bit
find_first_zero_bit-outside zero more = let s : 0 + suc more ≡ suc more = omega arith in rw s
find_first_zero_bit-outside (suc n) more =
    let s : suc n + suc more ≡ suc (n + suc more) = omega arith in
    rw (s, find_first_zero_bit-outside n more, ◌>>=◌)

-- With all 64 expansion areas in use, resize_dir does not return -1: its guard compares by >, and
-- the search for a free area runs out of the bitmap.
pub resize_dir-outside :
    (sb : Sb) (memory : Option BigDirHashTable)
    → sb.big_dir_num ≡ 2 ^ min_dir_bits
    → sb.big_dir_bitmap ≡ replicate (2 ^ min_dir_bits) true
    → resize_dir sb memory ≡ fault out_of_bounds
unfolding resize_dir
resize_dir-outside sb memory num bits =
    rw (num, resize_dir, bits, find_first_zero_bit-outside (2 ^ min_dir_bits) 16319, ◌>>=◌)

-- The expansion areas: the bitmap has 64 bits and counts right.
pub record IsBigDirs (sb : Sb) : Type 0 where
  pub size : length sb.big_dir_bitmap ≡ 2 ^ min_dir_bits
  pub count : used (2 ^ min_dir_bits) sb.big_dir_bitmap ≡ sb.big_dir_num

-- An expansion area that was free is given to a directory, with a new table.
pub record Grown (sb : Sb) (sb' : Sb) (i : ℕ) (ht : BigDirHashTable) : Type 0 where
  pub bound : i < 2 ^ min_dir_bits
  pub was_free : get_or sb.big_dir_bitmap i false ≡ false
  pub is_taken : get_or sb'.big_dir_bitmap i false ≡ true
  pub others :
      (j : ℕ) → j ≢ i → get_or sb'.big_dir_bitmap j false ≡ get_or sb.big_dir_bitmap j false
  pub table : sb'.big_dir_hashtbl i ≡ some ht
  pub other_tables : (j : ℕ) → j ≢ i → sb'.big_dir_hashtbl j ≡ sb.big_dir_hashtbl j
  pub count : sb'.big_dir_num ≡ sb.big_dir_num + 1
  pub valid : IsBigDirs sb'

search :
    (n more : ℕ) (bits : List Bool)
    → length bits ≡ n
    → used n bits < n
    → find_first_zero_bit bits (n + more) ≡ find_first_zero_bit bits n
search n more bits e h = rw (sym e) (find_first_zero_bit-more bits more (rw e h))

resize_dir-runs :
    (sb : Sb) (memory ht : BigDirHashTable) (i : ℕ)
    → sb.big_dir_num < 2 ^ min_dir_bits
    → init_big_file_ht (some memory) ≡ ok ht
    → find_first_zero_bit sb.big_dir_bitmap (2 ^ max_dir_bits) ≡ ok i
    → i < length sb.big_dir_bitmap
    → resize_dir sb (some memory)
      ≡ ok (
        record sb {
          big_dir_hashtbl = update sb.big_dir_hashtbl i (some ht);
          big_dir_bitmap = set sb.big_dir_bitmap i true;
          big_dir_num = (sb.big_dir_num + 1) % 2 ^ 8;
        },
        pos i,
      )
unfolding resize_dir
resize_dir-runs sb memory ht i room init run inside =
    let few : ltb (2 ^ min_dir_bits) sb.big_dir_num ≡ false = ground (arith, room) in
    rw (few, resize_dir, run, ◌>>=◌, init, bitmap_write-ok sb.big_dir_bitmap i true inside)

-- With an expansion area free and memory for its table, resize_dir takes a free area, gives it the
-- table that init_big_file_ht makes, changes no other area, and keeps the count right.
pub resize_dir-Grown :
    (sb : Sb) (memory ht : BigDirHashTable)
    → IsBigDirs sb
    → sb.big_dir_num < 2 ^ min_dir_bits
    → init_big_file_ht (some memory) ≡ ok ht
    → Returns
        (resize_dir sb (some memory))
        (λ (sb', answer). (i : ℕ) × (answer ≡ pos i) × Grown sb sb' i ht)
resize_dir-Grown sb memory ht v room init =
    let (i, run, z) =
      find_first_zero_bit-FirstZero sb.big_dir_bitmap (2 ^ min_dir_bits) (omega (arith, v.size)) in
    let free : used (2 ^ min_dir_bits) sb.big_dir_bitmap < 2 ^ min_dir_bits =
      omega (arith, v.count) in
    let lt : i < 2 ^ min_dir_bits = ground (arith, z.bound, z.full) in
    let inside : i < length sb.big_dir_bitmap = omega (arith, v.size) in
    let run' : find_first_zero_bit sb.big_dir_bitmap (2 ^ max_dir_bits) ≡ ok i =
      search (2 ^ min_dir_bits) 16320 sb.big_dir_bitmap v.size free ∙ run in
    let bits = set sb.big_dir_bitmap i true in
    let next : (sb.big_dir_num + 1) % 2 ^ 8 ≡ sb.big_dir_num + 1 = ground arith in
    (
      (
        record sb {
          big_dir_hashtbl = update sb.big_dir_hashtbl i (some ht);
          big_dir_bitmap = bits;
          big_dir_num = (sb.big_dir_num + 1) % 2 ^ 8;
        },
        pos i,
      ),
      resize_dir-runs sb memory ht i room init run' inside,
      (
        i,
        refl,
        record {
          bound = lt;
          was_free = z.clear lt;
          is_taken = get_or-set_self sb.big_dir_bitmap i true false inside;
          others = λ j ne. get_or-set_ne sb.big_dir_bitmap i j true false (λ s. ne (sym s));
          table = update_self sb.big_dir_hashtbl i (some ht);
          other_tables = λ j ne. update_ne sb.big_dir_hashtbl i j (some ht) ne;
          count = next;
          valid = record {
            size = length-set sb.big_dir_bitmap i true ∙ v.size;
            count =
                used-set (2 ^ min_dir_bits) sb.big_dir_bitmap i lt inside (z.clear lt)
                ∙ omega (arith, v.count, next);
          };
        },
      ),
    )
