-- ===== src/Writeback/Names.antt =====
-- Names in arrays: a name is copied without a terminator, over what the array held.
use flatfs.Common.{
  ℕ, ◌%◌, ◌^◌, ◌<◌, ◌≡◌, ◌≢◌, refl, sym, ◌∙◌, ap, List, [], ◌∷◌, true, false, inl, inr, Bool-cases,
  get_or, take, ◌==◌, ==_self, arith,
}
use native.Mathlib.Nat.{mod-eq_of_lt}
use flatfs.Name.{c_str, my_strlen, same_bytes, same_bytes_self, str_eq}
use flatfs.Types.{FfsInode, InodeInfo}
use flatfs.Dir.{copy_name}
use flatfs.Dir.Fill.{take-copy_name}
use flatfs.Inode.{named}
use flatfs.Writeback.{write_inode}

-- Over an array that has a zero behind the name, or ends there, the name is read back.
c_str-copy_name :
    (s old : List ℕ) → get_or old (my_strlen s) 0 ≡ 0 → c_str (copy_name (c_str s) old) ≡ c_str s
unfolding c_str my_strlen copy_name
c_str-copy_name [] [] h = refl
c_str-copy_name [] (d ∷ old) h = rw h
c_str-copy_name (c ∷ s) [] h = elim (Bool-cases (c == 0)) [
  | inl e ↦ rw e
  | inr e ↦ rw e (rw e (ap (λ r. c ∷ r) (c_str-copy_name s [] refl)))
]
c_str-copy_name (c ∷ s) (d ∷ old) h = elim (Bool-cases (c == 0)) [
  | inl e ↦ let hd : d ≡ 0 = rw e at h in rw (e, hd)
  | inr e ↦
      let hs : get_or old (my_strlen s) 0 ≡ 0 = rw e at h in
      rw e (rw e (ap (λ r. c ∷ r) (c_str-copy_name s old hs)))
]

copy_name-nil : (s : List ℕ) → copy_name s [] ≡ s
unfolding copy_name
copy_name-nil [] = refl
copy_name-nil (c ∷ s) = ap (λ r. c ∷ r) (copy_name-nil s)

take-c_str : (s : List ℕ) → take (my_strlen s) (c_str s) ≡ c_str s
take-c_str s = ap (take (my_strlen s)) (sym (copy_name-nil (c_str s))) ∙ take-copy_name s []

-- A name of a new inode, as it is written over the name of a slot.
written_name :
    (fi fresh : InodeInfo) (raw : FfsInode) (name : List ℕ)
    → fi.filename ≡ named fresh name
    → my_strlen name < 2 ^ 8
    → (write_inode fi raw).filename.name ≡ copy_name (c_str name) raw.filename.name
unfolding write_inode named
written_name fi fresh raw name e short =
    let small : my_strlen name % 2 ^ 8 ≡ my_strlen name = mod-eq_of_lt short in
    rw (e, small, take-c_str name, take-copy_name name fresh.filename.name)

-- Written over a name that has a zero or its end where the new one ends, a name of at most 255 bytes is
-- read back.
pub write_inode-matches :
    (fi fresh : InodeInfo) (raw : FfsInode) (name : List ℕ)
    → fi.filename ≡ named fresh name
    → my_strlen name < 2 ^ 8
    → get_or raw.filename.name (my_strlen name) 0 ≡ 0
    → str_eq name (write_inode fi raw).filename.name ≡ true
write_inode-matches fi fresh raw name e short room =
    rw (written_name fi fresh raw name e short, c_str-copy_name name raw.filename.name room)
      (same_bytes_self (c_str name))

same_bytes-longer :
    (s old : List ℕ)
    → get_or old (my_strlen s) 0 ≢ 0
    → same_bytes (c_str s) (c_str (copy_name (c_str s) old)) ≡ false
unfolding c_str my_strlen copy_name same_bytes
same_bytes-longer [] [] h = absurd (h refl)
same_bytes-longer [] (d ∷ old) h = let ne : (d == 0) ≡ false = ground (arith, h) in rw ne
same_bytes-longer (c ∷ s) [] h = absurd (h refl)
same_bytes-longer (c ∷ s) (d ∷ old) h = elim (Bool-cases (c == 0)) [
  | inl e ↦
      let hd : d ≢ 0 = rw e at h in let ne : (d == 0) ≡ false = ground (arith, hd) in rw (e, ne)
  | inr e ↦
      let hs : get_or old (my_strlen s) 0 ≢ 0 = rw e at h in
      rw e (rw e (rw (==_self c) (same_bytes-longer s old hs)))
]

-- Written over a longer name, a name of at most 255 bytes gets no terminator: a comparison with what stands in the
-- slot then fails.
pub write_inode-longer :
    (fi fresh : InodeInfo) (raw : FfsInode) (name : List ℕ)
    → fi.filename ≡ named fresh name
    → my_strlen name < 2 ^ 8
    → get_or raw.filename.name (my_strlen name) 0 ≢ 0
    → str_eq name (write_inode fi raw).filename.name ≡ false
write_inode-longer fi fresh raw name e short longer =
    rw (written_name fi fresh raw name e short) (same_bytes-longer name raw.filename.name longer)
