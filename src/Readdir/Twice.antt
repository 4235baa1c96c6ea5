-- ===== src/Readdir/Twice.antt =====
-- `ffs_readdir` of flatfs/file.c on a directory without an expansion area, once and again.
use flatfs.Common.{
  ℕ, ◌+◌, ◌%◌, ◌^◌, ◌<◌, ◌≡◌, refl, sym, ◌∙◌, ap, List, [], ◌∷◌, ◌++◌, true, pos, length,
  length-map, drop, drop_all, Option, some, update, ◌>>=◌, Returns, arith, Bool-cases, inl, inr,
  lt→ltb, ◌==◌,
}
use mathlib.Core.List.{append-nil, append_assoc}
use flatfs.Config.{max_dir_bits}
use flatfs.Types.{FfsInode, InodeInfo}
use flatfs.Lba.{inode_to_dir_id, dir_id_to_inode}
use flatfs.Lba.Meta.{dir_id_roundtrip}
use flatfs.Table.{Bucket, HashTable}
use flatfs.Table.Insert.{TableIsValid}
use flatfs.Dir.{DirTree}
use flatfs.Dir.Links.{update_self}
use flatfs.Dir.Insert.{Subdirs}
use flatfs.Super.{Sb, index, follow}
use flatfs.Readdir.{DirEnt, Reading, read_dir_files}
use flatfs.Readdir.Slots.{inos, Advanced}
use flatfs.Readdir.Rest.{table_inos}
use flatfs.Readdir.Files.{Readable, read_dir_files-Advanced}
use flatfs.Readdir.Dirs.{read_dir_dirs, rewind, ffs_readdir}
use flatfs.Readdir.Whole.{dir_inos, HaveLengths, start_at, DirsRead, read_dir_dirs-DirsRead}

-- A directory `d` without an expansion area, with the subdirectories `xs` and the table `ht`.
pub record Browsable (sb : Sb) (dfi : InodeInfo) (d : ℕ) (xs : List (ℕ × ℕ)) (ht : HashTable)
    : Type 0 where
  pub id : dfi.dir_id ≡ pos d
  pub bound : d < 2 ^ max_dir_bits
  pub small : (dfi.is_big_dir == 0) ≡ true
  pub subdirs : Subdirs sb.dtree d xs
  pub lengths : HaveLengths sb.dtree xs
  pub table : sb.hashtbl d ≡ some ht
  pub valid : TableIsValid (2 ^ 12) ht.buckets

-- The inode numbers of a directory's files.
abbrev pub file_inos : ℕ → HashTable → List ℕ
file_inos d ht = table_inos 12 d ht.buckets (2 ^ 12) 0

-- What a reading leaves: it has emitted the subdirectories and then the files that are behind the
-- positions, and the positions are behind them.
pub record Listed (sb : Sb) (dfi : InodeInfo) (d : ℕ) (xs : List (ℕ × ℕ)) (ht : HashTable)
    (before : List DirEnt) (ctx_pos : ℕ) (sb' : Sb) (r : Reading) : Type 0 where
  pub numbers :
      inos r.emitted
      ≡ inos before
        ++ (dir_inos sb.dtree (drop (start_at ctx_pos (sb.dtree.de d).pos) xs)
            ++ drop (start_at ctx_pos ht.pos) (file_inos d ht))
  pub ctx :
      r.ctx_pos
      ≡ ctx_pos
        + length (drop (start_at ctx_pos (sb.dtree.de d).pos) xs)
        + length (drop (start_at ctx_pos ht.pos) (file_inos d ht))
  pub dir_position :
      (sb'.dtree.de d).pos
      ≡ start_at ctx_pos (sb.dtree.de d).pos
        + length (drop (start_at ctx_pos (sb.dtree.de d).pos) xs)
  pub ht' : HashTable
  pub buckets : ht'.buckets ≡ ht.buckets
  pub table_position :
      ht'.pos ≡ start_at ctx_pos ht.pos + length (drop (start_at ctx_pos ht.pos) (file_inos d ht))
  pub again : Browsable sb' dfi d xs ht'

rewind_lem :
    (c : ℕ) (ht : HashTable)
    → ((rewind c ht).pos ≡ start_at c ht.pos) × ((rewind c ht).buckets ≡ ht.buckets)
unfolding rewind
rewind_lem c ht = elim (Bool-cases (c == 0)) [
  | inl e ↦ rw e (refl, refl)
  | inr e ↦ rw e (refl, refl)
]

HaveLengths-same :
    (t t' : DirTree) (xs : List (ℕ × ℕ))
    → ((j : ℕ) → (t'.de j).rec_len ≡ (t.de j).rec_len)
    → HaveLengths t xs
    → HaveLengths t' xs
unfolding HaveLengths
HaveLengths-same t t' [] same h = tt
HaveLengths-same t t' ((a, i) ∷ xs) same (n, h) = (rw (same i) n, HaveLengths-same t t' xs same h)

dirs_part :
    (sb : Sb) (dfi : InodeInfo) (d ino : ℕ) (xs : List (ℕ × ℕ)) (ht : HashTable)
    (before : List DirEnt) (c : ℕ)
    → inode_to_dir_id ino ≡ d
    → Browsable sb dfi d xs ht
    → Returns (read_dir_dirs sb.dtree ino before c) (λ (t, r). DirsRead sb.dtree d before c xs t r)
dirs_part sb dfi d ino xs ht before c e b =
    rw (sym e) (read_dir_dirs-DirsRead sb.dtree ino before c xs (rw e b.subdirs) b.lengths)

-- What the reading of the files leaves.
record FilesRead (d : ℕ) (ht : HashTable) (before : List DirEnt) (c ctx_pos : ℕ) (ht' : HashTable)
    (r : Reading) : Type 0 where
  advanced :
      Advanced
        (record { emitted = before; ctx_pos = ctx_pos; table_pos = start_at c ht.pos })
        r
        (drop (start_at c ht.pos) (file_inos d ht))
  position : ht'.pos ≡ r.table_pos
  buckets : ht'.buckets ≡ ht.buckets

Advanced-at :
    (d : ℕ) (ht : HashTable) (before : List DirEnt) (c ctx_pos : ℕ) (r : Reading) (k id : ℕ)
    (buckets : ℕ → Bucket)
    → k ≡ start_at c ht.pos
    → id ≡ d
    → buckets ≡ ht.buckets
    → Advanced
        (record { emitted = before; ctx_pos = ctx_pos; table_pos = k })
        r
        (drop k (table_inos 12 id buckets (2 ^ 12) 0))
    → Advanced
        (record { emitted = before; ctx_pos = ctx_pos; table_pos = start_at c ht.pos })
        r
        (drop (start_at c ht.pos) (file_inos d ht))
Advanced-at d ht before c ctx_pos r k id buckets ek ed eb a = rw (sym ek, sym ed, sym eb) a

module _ (sb_bread : ℕ → Option (ℕ → FfsInode)) where
  files_part :
      (d ino : ℕ) (ht : HashTable) (before : List DirEnt) (c ctx_pos : ℕ)
      → inode_to_dir_id ino ≡ d
      → Readable sb_bread
      → TableIsValid (2 ^ 12) ht.buckets
      → Returns
          (read_dir_files sb_bread (rewind c ht) ino before ctx_pos)
          (λ (ht', r). FilesRead d ht before c ctx_pos ht' r)
  files_part d ino ht before c ctx_pos e readable v =
      let (at, same) = rewind_lem c ht in
      let ((ht', r), run, (adv, p, q)) =
        read_dir_files-Advanced sb_bread (rewind c ht) ino before ctx_pos readable (rw same v) in
      (
        (ht', r),
        run,
        record {
          advanced =
              Advanced-at d ht before c ctx_pos r (rewind c ht).pos (inode_to_dir_id ino)
                (rewind c ht).buckets at e same adv;
          position = p;
          buckets = q ∙ same;
        },
      )

-- The two parts, one after the other.
listed :
    (sb : Sb) (dfi : InodeInfo) (d : ℕ) (xs : List (ℕ × ℕ)) (ht : HashTable) (before : List DirEnt)
    (c : ℕ) (t : DirTree) (r1 : Reading) (ht' : HashTable) (r : Reading)
    → Browsable sb dfi d xs ht
    → DirsRead sb.dtree d before c xs t r1
    → FilesRead d ht r1.emitted c r1.ctx_pos ht' r
    → Listed sb dfi d xs ht before c
        (record sb { dtree = t; hashtbl = update sb.hashtbl d (some ht') })
        r
listed sb dfi d xs ht before c t r1 ht' r b f g =
    let dirs = drop (start_at c (sb.dtree.de d).pos) xs in
    let files = drop (start_at c ht.pos) (file_inos d ht) in
    let count =
      length-map (λ (x : ℕ × ℕ). dir_id_to_inode (sb.dtree.de x.1).dir_id % 2 ^ 32) dirs in
    record {
      numbers =
          g.advanced.numbers
          ∙ ap (λ l. l ++ files) f.advanced.numbers
          ∙ append_assoc (inos before) (dir_inos sb.dtree dirs) files;
      ctx = omega (arith, g.advanced.ctx, f.advanced.ctx, count);
      dir_position = omega (arith, f.position, f.advanced.table, count);
      ht' = ht';
      buckets = g.buckets;
      table_position = g.position ∙ g.advanced.table;
      again = record {
        id = b.id;
        bound = b.bound;
        small = b.small;
        subdirs = f.subdirs;
        lengths = HaveLengths-same sb.dtree t xs (λ j. (f.same j).1) b.lengths;
        table = update_self sb.hashtbl d (some ht');
        valid = rw g.buckets b.valid;
      };
    }

module _ (sb_bread : ℕ → Option (ℕ → FfsInode)) where
  pub ffs_readdir-Listed :
      (sb : Sb) (dfi : InodeInfo) (d : ℕ) (xs : List (ℕ × ℕ)) (ht : HashTable)
      (before : List DirEnt) (ctx_pos : ℕ)
      → Readable sb_bread
      → Browsable sb dfi d xs ht
      → Returns
          (ffs_readdir sb_bread sb dfi before ctx_pos)
          (λ (sb', r). Listed sb dfi d xs ht before ctx_pos sb' r)
  unfolding ffs_readdir index follow
  ffs_readdir-Listed sb dfi d xs ht before ctx_pos readable b =
      let own : inode_to_dir_id (dir_id_to_inode d) ≡ d = (dir_id_roundtrip d (pos 0) b.bound).0 in
      let ((t, r1), run1, f) = dirs_part sb dfi d (dir_id_to_inode d) xs ht before ctx_pos own b in
      let ((ht', r), run, g) =
        files_part sb_bread d (dir_id_to_inode d) ht r1.emitted ctx_pos r1.ctx_pos own readable
          b.valid in
      (
        (record sb { dtree = t; hashtbl = update sb.hashtbl d (some ht') }, r),
        rw (b.id, lt→ltb d (2 ^ max_dir_bits) b.bound, ◌>>=◌, b.table, run1, run, b.small),
        listed sb dfi d xs ht before ctx_pos t r1 ht' r b f g,
      )

  -- A directory without an expansion area, whose table is valid and whose subdirectories have a length,
  -- is read from the start of the context, and once more from where the first reading stopped: with every
  -- block to be read, ffs_readdir returns both times, and what has been emitted are the inode numbers of the
  -- subdirectories in the order of the list and those of the files in the order of the slots, each once.
  pub ffs_readdir-twice :
      (sb : Sb) (dfi : InodeInfo) (d : ℕ) (xs : List (ℕ × ℕ)) (ht : HashTable)
      (before : List DirEnt)
      → Readable sb_bread
      → Browsable sb dfi d xs ht
      → Returns
          (ffs_readdir sb_bread sb dfi before 0 >>= λ (sb', r).
            ffs_readdir sb_bread sb' dfi r.emitted r.ctx_pos)
          (λ (sb'', r). inos r.emitted ≡ inos before ++ (dir_inos sb.dtree xs ++ file_inos d ht))
  ffs_readdir-twice sb dfi d xs ht before readable b =
      let ((sb', r), run, l) = ffs_readdir-Listed sb dfi d xs ht before 0 readable b in
      let ((sb'', r'), run', l') =
        ffs_readdir-Listed sb' dfi d xs l.ht' r.emitted r.ctx_pos readable l.again in
      let same : file_inos d l.ht' ≡ file_inos d ht =
        ap (λ k. table_inos 12 d k (2 ^ 12) 0) l.buckets in
      let no_dirs : drop (start_at r.ctx_pos (sb'.dtree.de d).pos) xs ≡ [] =
        drop_all (start_at r.ctx_pos (sb'.dtree.de d).pos) xs
          (ground (arith, l.dir_position, l.ctx)) in
      let no_files : drop (start_at r.ctx_pos l.ht'.pos) (file_inos d l.ht') ≡ [] =
        drop_all (start_at r.ctx_pos l.ht'.pos) (file_inos d l.ht')
          (rw same (ground (arith, l.table_position, l.ctx))) in
      (
        (sb'', r'),
        rw (run, ◌>>=◌) run',
        l'.numbers ∙ rw (no_dirs, no_files) (append-nil (inos r.emitted) ∙ l.numbers),
      )
