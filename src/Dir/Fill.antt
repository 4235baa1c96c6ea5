-- ===== src/Dir/Fill.antt =====
-- `fill_one_dir_entry` of flatfs/dir.c: the entry of a new directory, and the name that is copied into it.
use flatfs.Common.{
  ℕ, ◌+◌, ◌%◌, ◌^◌, ◌<◌, ◌≡◌, ◌≢◌, inl, inr, refl, ap, List, [], ◌∷◌, ◌>>=◌, true, false, ◌==◌,
  Returns, take, update, arith, Bool-cases, ==_self,
}
use flatfs.Config.{max_dir_bits}
use flatfs.Name.{c_str, my_strlen, same_bytes_self}
use flatfs.Bitmap.{used}
use flatfs.Dir.{DirTree, DirEntry, copy_name, has_name, ffs_dir_rec_len, fill_one_dir_entry}
use flatfs.Dir.Ids.{IsIds, Taken, NewId, get_unused_dir_id-NewId}
use flatfs.Dir.Links.{update_self, update_ne}

pub take-copy_name : (s old : List ℕ) → take (my_strlen s) (copy_name (c_str s) old) ≡ c_str s
unfolding c_str my_strlen copy_name
take-copy_name [] old = refl
take-copy_name (c ∷ s) [] = elim (Bool-cases (c == 0)) [
  | inl e ↦ rw e
  | inr e ↦ rw e (ap (λ r. c ∷ r) (take-copy_name s []))
]
take-copy_name (c ∷ s) (d ∷ old) = elim (Bool-cases (c == 0)) [
  | inl e ↦ rw e
  | inr e ↦ rw e (ap (λ r. c ∷ r) (take-copy_name s old))
]

-- What `fill_one_dir_entry` does when an id is free.
pub record Filled (t : DirTree) (name : List ℕ) (t' : DirTree) (id : ℕ) : Type 0 where
  pub taken : Taken t.dir_id_bitmap t'.dir_id_bitmap id
  pub ids : IsIds t'.dir_id_bitmap
  pub entry : has_name (t'.de id) name ≡ true
  pub same_id : (t'.de id).dir_id ≡ (t.de id).dir_id
  pub others : (j : ℕ) → j ≢ id → t'.de j ≡ t.de j
  pub heap : t'.heap ≡ t.heap

pub fill_one_dir_entry-Filled :
    (t : DirTree) (name : List ℕ)
    → IsIds t.dir_id_bitmap
    → used (2 ^ max_dir_bits) t.dir_id_bitmap < 2 ^ max_dir_bits
    → Returns (fill_one_dir_entry t name) (λ (t', id). Filled t name t' id)
unfolding fill_one_dir_entry NewId has_name
fill_one_dir_entry-Filled t name ids free =
    let ((bits, id), run, (ids', r)) = get_unused_dir_id-NewId t.dir_id_bitmap ids in
    elim r [
      | inr (none_left, same, full) ↦ absurd (omega (arith, free, full))
      | inl taken ↦
          let nz : (id == 0) ≡ false = ground (arith, taken.positive) in
          let entry : DirEntry = record (t.de id) {
            dir_size = 0;
            namelen = my_strlen name;
            rec_len = ffs_dir_rec_len (my_strlen name);
            dir_name = copy_name (c_str name) (t.de id).dir_name;
          } in
          let at_id = update_self t.de id entry in
          let named : has_name entry name ≡ true =
            rw (==_self (my_strlen name), take-copy_name name (t.de id).dir_name)
              (same_bytes_self (c_str name)) in
          (
            (
              record t {
                de = update t.de id entry;
                dir_id_bitmap = bits;
                dir_entry_num = (t.dir_entry_num + 1) % 2 ^ 64;
              },
              id,
            ),
            rw (run, ◌>>=◌, nz),
            record {
              taken = taken;
              ids = ids';
              entry = rw at_id named;
              same_id = rw at_id;
              others = λ j ne. update_ne t.de id j entry ne;
              heap = refl;
            },
          )
    ]
