-- ===== src/Ino/Seg/Search.antt =====
-- The two loops of `get_file_seg` of flatfs/lba.c: the one over the bitmap and the one over the
-- names of the page.
use flatfs.Common.{
  ℕ, ◌≤◌, ◌<◌, ◌≡◌, suc, zero, ◌+◌, refl, ◌∙◌, Bool, true, false, ◌==◌, List, ok, ◌>>=◌, arith, ap,
  length, get_or, inl, inr, Bool-cases, ==_iff,
}
use flatfs.Name.{str_eq}
use flatfs.Types.{InodePage}
use flatfs.Bitmap.{test_bit-ok}
use flatfs.Ino.{any_used, find_name}

pub any_used-true :
    (n slt : ℕ) (bits : List Bool) (j : ℕ)
    → slt ≤ j
    → j < slt + n
    → slt + n ≤ length bits
    → get_or bits j false ≡ true
    → any_used n slt bits ≡ ok true
unfolding any_used
any_used-true zero slt bits j lo hi w t = absurd (omega arith)
any_used-true (suc n) slt bits j lo hi w t = elim (Bool-cases (get_or bits slt false)) [
  | inl e ↦ rw (test_bit-ok bits slt (omega arith), ◌>>=◌, e)
  | inr e ↦
      rw (test_bit-ok bits slt (omega arith), ◌>>=◌, e)
        (any_used-true n (suc slt) bits j (ground (arith, e, t)) (omega arith) (omega arith) t)
]

pub any_used-false :
    (n slt : ℕ) (bits : List Bool)
    → slt + n ≤ length bits
    → ((j : ℕ) → slt ≤ j → j < slt + n → get_or bits j false ≡ false)
    → any_used n slt bits ≡ ok false
unfolding any_used
any_used-false zero slt bits w c = refl
any_used-false (suc n) slt bits w c =
    rw (test_bit-ok bits slt (omega arith), ◌>>=◌, c slt (omega arith) (omega arith))
      (any_used-false n (suc slt) bits (omega arith) (λ j lo hi. c j (omega arith) (omega arith)))

-- The slot at which the search for a name stops, from slot `slt` on for `n` rounds.
pub record FirstMatch (page : InodePage) (name : List ℕ) (n slt r : ℕ) : Type 0 where
  pub above : slt ≤ r
  pub bound : r ≤ slt + n
  pub matches : r < slt + n → str_eq name (page.inode r).filename.name ≡ true
  pub before : (j : ℕ) → slt ≤ j → j < r → str_eq name (page.inode j).filename.name ≡ false

pub find_name-FirstMatch :
    (n slt : ℕ) (page : InodePage) (name : List ℕ)
    → FirstMatch page name n slt (find_name n slt page name)
unfolding find_name
find_name-FirstMatch zero slt page name = record {
  above = omega arith;
  bound = omega arith;
  matches = λ lt. absurd (omega arith);
  before = λ j lo hi. absurd (omega arith);
}
find_name-FirstMatch (suc n) slt page name =
    elim (Bool-cases (str_eq name (page.inode slt).filename.name)) [
      | inl e ↦
          rw (e, find_name)
            (record {
              above = omega arith;
              bound = omega arith;
              matches = λ lt. e;
              before = λ j lo hi. absurd (omega arith);
            })
      | inr e ↦
          let h = find_name-FirstMatch n (suc slt) page name in
          rw (e, find_name)
            (record {
              above = omega (arith, h.above);
              bound = omega (arith, h.bound);
              matches = λ lt. h.matches (omega arith);
              before = λ j lo hi. elim (Bool-cases (j == slt)) [
                | inl s ↦
                    ap (λ k. str_eq name (page.inode k).filename.name) ((==_iff j slt).0 s) ∙ e
                | inr s ↦ h.before j (ground arith) hi
              ];
            })
    ]
