-- ===== src/Readdir/Whole.antt =====
-- What a whole reading emits: `read_dir_dirs` of flatfs/dir.c and `ffs_readdir` of flatfs/file.c.
use flatfs.Common.{
  ℕ, zero, suc, ◌%◌, ◌^◌, ◌≡◌, ◌≢◌, refl, List, [], ◌∷◌, map, false, length, drop, drop-nil, Option,
  some, none, update, ◌>>=◌, Returns, arith, Bool-cases, inl, inr, ◌==◌, ==_iff, if◌then◌else◌,
}
use flatfs.Lba.{inode_to_dir_id, dir_id_to_inode}
use flatfs.Dir.{DirTree, DirEntry}
use flatfs.Dir.Links.{Links, IsNode, load-ok, update_self, update_ne}
use flatfs.Dir.Insert.{Subdirs}
use flatfs.Readdir.{DirEnt, Reading}
use flatfs.Readdir.Slots.{Advanced, Advanced-none, Advanced-append}
use flatfs.Readdir.Dirs.{skip_nodes, emit_dir, emit_nodes, read_dir_dirs}
use mathlib.Core.List.{map-append}

-- The inode numbers of subdirectories, as they are emitted.
abbrev pub dir_inos : DirTree → List (ℕ × ℕ) → List ℕ
dir_inos t = map (λ (a, i). dir_id_to_inode (t.de i).dir_id % 2 ^ 32)

-- Every subdirectory has a record length.
unfoldable pub HaveLengths : DirTree → List (ℕ × ℕ) → Type 0
HaveLengths t [] = Unit {0}
HaveLengths t ((a, i) ∷ xs) = ((t.de i).rec_len == 0) ≡ false × HaveLengths t xs

HaveLengths-drop :
    (t : DirTree) (k : ℕ) (xs : List (ℕ × ℕ)) → HaveLengths t xs → HaveLengths t (drop k xs)
unfolding HaveLengths
HaveLengths-drop t zero xs h = h
HaveLengths-drop t (suc k) [] h = h
HaveLengths-drop t (suc k) (x ∷ xs) (n, h) = HaveLengths-drop t k xs h

-- The node behind the first `k`, with the list from it on.
record Skipped (t : DirTree) (k : ℕ) (xs : List (ℕ × ℕ)) (r : ℕ × Option ℕ) : Type 0 where
  left : r.0 ≡ length (drop k xs)
  last : Option ℕ
  end : Option ℕ
  links : Links t.heap last r.1 (drop k xs) end none

skip_nodes-Skipped :
    (t : DirTree) (k : ℕ) (xs : List (ℕ × ℕ)) (last p end : Option ℕ)
    → Links t.heap last p xs end none
    → Returns (skip_nodes k (length xs) t p) (Skipped t k xs)
unfolding skip_nodes Links IsNode
skip_nodes-Skipped t k [] last p end h = (
  (0, p),
  refl,
  record { left = rw (drop-nil k); last = last; end = end; links = rw (drop-nil k) h },
)
skip_nodes-Skipped t zero ((a, i) ∷ xs) last p end h =
    ((suc (length xs), p), refl, record { left = refl; last = last; end = end; links = h })
skip_nodes-Skipped t (suc k) ((a, i) ∷ xs) last p end (e, fresh, next, node, rest) =
    let (r, run, s) = skip_nodes-Skipped t k xs (some a) next end rest in
    (
      r,
      rw (e, load-ok t.heap a (record { de = i; last = last; next = next }) node, ◌>>=◌) run,
      record { left = s.left; last = s.last; end = s.end; links = s.links },
    )

emit_dir-Advanced :
    (de : DirEntry) (r : Reading)
    → Advanced r (emit_dir de r) (dir_id_to_inode de.dir_id % 2 ^ 32 ∷ [])
unfolding emit_dir
emit_dir-Advanced de r = record {
  numbers = map-append (λ e. e.ino) r.emitted _;
  ctx = refl;
  table = refl;
}

emit_nodes-Advanced :
    (t : DirTree) (xs : List (ℕ × ℕ)) (last p end : Option ℕ) (r : Reading)
    → HaveLengths t xs
    → Links t.heap last p xs end none
    → Returns (emit_nodes (length xs) t p r) (λ r'. Advanced r r' (dir_inos t xs))
unfolding emit_nodes Links IsNode HaveLengths
emit_nodes-Advanced t [] last p end r l h = (r, refl, Advanced-none r)
emit_nodes-Advanced t ((a, i) ∷ xs) last p end r (nz, l) (e, fresh, next, node, rest) =
    let (r', run, adv) = emit_nodes-Advanced t xs (some a) next end (emit_dir (t.de i) r) l rest in
    (
      r',
      rw (e, load-ok t.heap a (record { de = i; last = last; next = next }) node, ◌>>=◌, nz) run,
      Advanced-append (dir_id_to_inode (t.de i).dir_id % 2 ^ 32 ∷ []) (dir_inos t xs)
          (emit_dir-Advanced (t.de i) r) adv,
    )

-- Where the reading of the subdirectories starts.
abbrev pub start_at : ℕ → ℕ → ℕ
start_at ctx_pos at = if ctx_pos == 0 then 0 else at

-- What the reading of the subdirectories `xs` leaves: the position in the entry alone is written.
pub record DirsRead (t : DirTree) (d : ℕ) (before : List DirEnt) (ctx_pos : ℕ) (xs : List (ℕ × ℕ))
    (t' : DirTree) (r : Reading) : Type 0 where
  pub advanced :
      Advanced
        (record { emitted = before; ctx_pos = ctx_pos; table_pos = start_at ctx_pos (t.de d).pos })
        r
        (dir_inos t (drop (start_at ctx_pos (t.de d).pos) xs))
  pub position : (t'.de d).pos ≡ r.table_pos
  pub subdirs : Subdirs t' d xs
  pub others : (j : ℕ) → j ≢ d → t'.de j ≡ t.de j
  pub same : (j : ℕ) → ((t'.de j).dir_id ≡ (t.de j).dir_id) × ((t'.de j).rec_len ≡ (t.de j).rec_len)

pub read_dir_dirs-DirsRead :
    (t : DirTree) (ino : ℕ) (before : List DirEnt) (ctx_pos : ℕ) (xs : List (ℕ × ℕ))
    → Subdirs t (inode_to_dir_id ino) xs
    → HaveLengths t xs
    → Returns
        (read_dir_dirs t ino before ctx_pos)
        (λ (t', r). DirsRead t (inode_to_dir_id ino) before ctx_pos xs t' r)
unfolding read_dir_dirs
read_dir_dirs-DirsRead t ino before ctx_pos xs h lengths =
    let d = inode_to_dir_id ino in
    let at = start_at ctx_pos (t.de d).pos in
    let ((n, p), run, s) = skip_nodes-Skipped t at xs none (t.de d).head (t.de d).tail h.links in
    let (r, run', adv) =
      emit_nodes-Advanced t (drop at xs) s.last p s.end
        (record { emitted = before; ctx_pos = ctx_pos; table_pos = at })
        (HaveLengths-drop t at xs lengths) s.links in
    let dir : DirEntry = record (t.de d) { pos = r.table_pos } in
    let at_d = update_self t.de d dir in
    (
      (record t { de = update t.de d dir }, r),
      rw (h.size, run, ◌>>=◌, s.left, run'),
      record {
        advanced = adv;
        position = rw at_d;
        subdirs = record { links = rw at_d h.links; size = rw at_d h.size };
        others = λ j ne. update_ne t.de d j dir ne;
        same = λ j. elim (Bool-cases (j == d)) [
          | inl e ↦ rw ((==_iff j d).0 e, at_d) (refl, refl)
          | inr e ↦
              let k = update_ne t.de d j dir (λ q. absurd (ground (arith, q, e))) in
              rw k (refl, refl)
        ];
      },
    )
