-- ===== src/Tests/Cuckoo.antt =====
-- A cuckoo hash of one bucket: the key is the number 7, in four bytes.
use flatfs.Common.{
  inl, inr, ◌⊎◌, ◌≢◌, ◌<◌, take, true, false, replicate, ℕ, zero, suc, ◌%◌, ◌≡◌, refl, arith, List,
  [], ◌∷◌, some, ok, Returns,
}
use flatfs.Name.{my_strlen, c_str, same_bytes, str_eq}
use flatfs.Cuckoo.{
  terminated, PathNode, CuckooHash, success, fail, f_idx, s_idx, f_hash, s_hash, buckets_of,
  slots_from, key_at, same_key, bytes, either_slot, zero_table, empty_node, empty_slot,
  cuckoo_query, answer, cuckoo_update, Draw, generate_seeds, cuckoo_hash_init,
}
use flatfs.Cuckoo.Insert.{cuckoo_insert}
use flatfs.Cuckoo.Inv.{IsCuckoo}
use flatfs.Cuckoo.Safe.{Outcome, cuckoo_insert-Outcome}
use flatfs.Cuckoo.Resize.{cuckoo_resize}
use flatfs.Cuckoo.Strings.{KeysEnd}
use flatfs.Cuckoo.Sound.{IsSound, Unique}
use flatfs.Cuckoo.Resized.{Resized, cuckoo_resize-cuckoo_query}
use flatfs.Cuckoo.Map.{cuckoo_insert-Mapped}
use flatfs.Cuckoo.Put.{Mapped, finds, fails}
use flatfs.Cuckoo.Update.{cuckoo_update-cuckoo_query, cuckoo_hash_init-fails}
use flatfs.Hash.{hash}
use flatfs.Hash.Reads.{hash-take}

abbrev seven : List ℕ
seven = 7 ∷ 0 ∷ 0 ∷ 0 ∷ []

abbrev size : List ℕ
size = 0 ∷ 16 ∷ 0 ∷ 0 ∷ 0 ∷ 0 ∷ 0 ∷ 0 ∷ []

abbrev fresh : CuckooHash
fresh = record {
  table = zero_table 1;
  capacity = 1;
  entry_num = 0;
  f_seed = 5;
  s_seed = 6;
  evict_path1 = replicate 16 empty_node;
  evict_path2 = replicate 16 empty_node;
  evict_len = 0;
  find_path = 0;
  resize_write = 0;
  init_write = 4;
}

fresh-KeysEnd : KeysEnd fresh.table
unfolding KeysEnd zero_table my_strlen
fresh-KeysEnd zero h = omega arith
fresh-KeysEnd (suc zero) h = omega arith
fresh-KeysEnd (suc (suc zero)) h = omega arith
fresh-KeysEnd (suc (suc (suc zero))) h = omega arith
fresh-KeysEnd (suc (suc (suc (suc q)))) h = absurd (omega arith)

one_bucket : (h : ℕ) → h % 1 ≡ 0
one_bucket h = omega arith

fresh-buckets : (key : List ℕ) → buckets_of fresh key ≡ ok (0, 0)
unfolding buckets_of f_idx s_idx
fresh-buckets key = rw (one_bucket (f_hash fresh key), one_bucket (s_hash fresh key)) refl

fresh-IsCuckoo : IsCuckoo fresh
unfolding zero_table
fresh-IsCuckoo = record { some_buckets = omega arith; size = refl; path1 = refl; path2 = refl }

seven_short : my_strlen seven < 4
unfolding my_strlen
seven_short = omega arith

cuckoo_insert-Outcome_example : Returns (cuckoo_insert fresh seven size) (Outcome fresh)
cuckoo_insert-Outcome_example =
    cuckoo_insert-Outcome seven size seven_short (omega arith) (omega arith) fresh fresh-IsCuckoo
      fresh-KeysEnd

-- The same hash with the entry in its first slot.
abbrev with_seven : CuckooHash
with_seven = record fresh {
  table = record { key = seven; value = size } ∷ empty_slot ∷ empty_slot ∷ empty_slot ∷ [];
  entry_num = 1;
}

with_seven-KeysEnd : KeysEnd with_seven.table
unfolding KeysEnd my_strlen
with_seven-KeysEnd zero h = omega arith
with_seven-KeysEnd (suc zero) h = omega arith
with_seven-KeysEnd (suc (suc zero)) h = omega arith
with_seven-KeysEnd (suc (suc (suc zero))) h = omega arith
with_seven-KeysEnd (suc (suc (suc (suc q)))) h = absurd (omega arith)

with_seven-IsCuckoo : IsCuckoo with_seven
with_seven-IsCuckoo = record { some_buckets = omega arith; size = refl; path1 = refl; path2 = refl }

-- The key is in the only bucket, and the other slots are free.
with_seven-IsSound : IsSound with_seven
unfolding c_str same_bytes
with_seven-IsSound = record {
  shape = with_seven-IsCuckoo;
  keys = with_seven-KeysEnd;
  homed = λ p l u. inl (omega (arith, l));
  unique = only;
}
  where
    only : Unique with_seven.table
    only zero zero lp lq u e = refl
    only zero (suc zero) lp lq u e = absurd cc
    only zero (suc (suc zero)) lp lq u e = absurd cc
    only zero (suc (suc (suc zero))) lp lq u e = absurd cc
    only zero (suc (suc (suc (suc q)))) lp lq u e = absurd (omega arith)
    only (suc zero) q lp lq u e = absurd cc
    only (suc (suc zero)) q lp lq u e = absurd cc
    only (suc (suc (suc zero))) q lp lq u e = absurd cc
    only (suc (suc (suc (suc p)))) q lp lq u e = absurd (omega arith)

abbrev eight : List ℕ
eight = 8 ∷ 0 ∷ 0 ∷ 0 ∷ []

with_seven-buckets : (key : List ℕ) → buckets_of with_seven key ≡ ok (0, 0)
unfolding buckets_of f_idx s_idx
with_seven-buckets key =
    rw (one_bucket (f_hash with_seven key), one_bucket (s_hash with_seven key)) refl

eight_absent : cuckoo_query with_seven eight ≡ fails
unfolding cuckoo_query answer either_slot same_key key_at slots_from bytes c_str same_bytes
    terminated my_strlen
eight_absent = rw (with_seven-buckets eight) refl

eight_named : str_eq eight [] ≡ false
unfolding c_str same_bytes
eight_named = refl

seven_named : str_eq seven [] ≡ false
unfolding c_str same_bytes
seven_named = refl

eight_short : my_strlen eight < 4
unfolding my_strlen
eight_short = omega arith

cuckoo_insert-Mapped_example :
    Returns (cuckoo_insert with_seven eight size) (Mapped eight size with_seven)
cuckoo_insert-Mapped_example =
    cuckoo_insert-Mapped eight size eight_named eight_short (omega arith) (omega arith) with_seven
      with_seven-IsSound eight_absent

cuckoo_resize-cuckoo_query_example : Returns (cuckoo_resize true with_seven) (λ (status, d).
    Resized with_seven (status, d)
    × IsSound d
    × ((key : List ℕ) → str_eq key [] ≡ false → cuckoo_query d key ≡ cuckoo_query with_seven key))
cuckoo_resize-cuckoo_query_example =
    cuckoo_resize-cuckoo_query true with_seven with_seven-IsSound (omega arith)

cuckoo_update-cuckoo_query_example : Returns (cuckoo_update with_seven seven size) (λ (status, d).
    IsSound d
    × (((status ≡ success)
          × ((old : List ℕ) × cuckoo_query with_seven seven ≡ finds old)
          × (cuckoo_query d seven ≡ finds (take 8 size))
          × ((other : List ℕ)
              → str_eq other [] ≡ false
              → c_str other ≢ c_str seven
              → cuckoo_query d other ≡ cuckoo_query with_seven other))
        ⊎ ((status ≡ fail) × (cuckoo_query with_seven seven ≡ fails) × (d ≡ with_seven))))
cuckoo_update-cuckoo_query_example =
    cuckoo_update-cuckoo_query with_seven seven size with_seven-IsSound seven_named (omega arith)

-- One draw with the seeds 5 and 6.
abbrev draws : List Draw
draws = record { seed1 = 5; seed2 = 6; seed3 = 0; seed4 = 0 } ∷ []

draws_seeds : generate_seeds draws ≡ some (5, 6)
unfolding generate_seeds
draws_seeds = refl

-- Memory for a path.
abbrev sixteen : List PathNode
sixteen = replicate 16 (record { pre_bucket = 9; pre_slot = 9; next_bucket = 9; next_slot = 9 })

cuckoo_hash_init-fails_example :
    (c : CuckooHash) × (cuckoo_hash_init (some (sixteen, sixteen)) 1 draws ≡ some (inr c))
    × IsSound c
    × ((key : List ℕ) → str_eq key [] ≡ false → cuckoo_query c key ≡ fails)
cuckoo_hash_init-fails_example =
    cuckoo_hash_init-fails sixteen sixteen 1 draws 5 6 refl refl (omega arith) (omega arith)
      draws_seeds

hash-take_example : hash (take 1 seven) 1 5 ≡ hash seven 1 5
hash-take_example = hash-take seven 1 5
