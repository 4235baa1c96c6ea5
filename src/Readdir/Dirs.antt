-- ===== src/Readdir/Dirs.antt =====
-- The subdirectories of a directory, `read_dir_dirs` of flatfs/dir.c, and the whole of `ffs_readdir` of
-- flatfs/file.c.
use flatfs.Common.{
  ℕ, zero, suc, ◌+◌, ◌%◌, ◌^◌, List, [], ◌∷◌, ◌++◌, true, false, ◌==◌, if◌then◌else◌, update,
  Option, some, none, Run, ok, ◌>>=◌,
}
use flatfs.Config.{max_dir_bits, min_dir_bits}
use flatfs.Types.{FfsInode, InodeInfo}
use flatfs.Lba.{inode_to_dir_id, dir_id_to_inode}
use flatfs.Table.{HashTable, BigDirHashTable}
use flatfs.Dir.{DirTree, DirEntry, load}
use flatfs.Super.{Sb, index, follow}
use flatfs.Readdir.{DirEnt, Reading, read_dir_files, read_big_dir_files}

abbrev pub dt_dir : ℕ
dt_dir = 4

-- The loop up to the position `target` of the entry: `n` nodes at most, the first at `p`. What is
-- left of the count, and the node.
unfoldable pub skip_nodes : ℕ → ℕ → DirTree → Option ℕ → Run (ℕ × Option ℕ)
skip_nodes target zero t p = ok (zero, p)
skip_nodes zero (suc n) t p = ok (suc n, p)
skip_nodes (suc target) (suc n) t none = ok (suc n, none)
skip_nodes (suc target) (suc n) t (some a) =
    load t.heap a >>= λ node. skip_nodes target n t node.next

-- One call of `dir_emit`; the position here is that of the entry of the directory.
unfoldable pub emit_dir : DirEntry → Reading → Reading
emit_dir de r = record {
  emitted =
      r.emitted
      ++ record {
        name = de.dir_name;
        name_len = de.namelen;
        ino = dir_id_to_inode de.dir_id % 2 ^ 32;
        d_type = dt_dir;
      }
        ∷ [];
  ctx_pos = r.ctx_pos + 1;
  table_pos = r.table_pos + 1;
}

-- The loop that emits; an entry without a length ends it.
unfoldable pub emit_nodes : ℕ → DirTree → Option ℕ → Reading → Run Reading
emit_nodes zero t p r = ok r
emit_nodes (suc n) t none r = ok r
emit_nodes (suc n) t (some a) r = load t.heap a >>= λ node. elim ((t.de node.de).rec_len == 0) [
  | true ↦ ok r
  | false ↦ emit_nodes n t node.next (emit_dir (t.de node.de) r)
]

-- The number that it returns is not read.
unfoldable pub read_dir_dirs : DirTree → ℕ → List DirEnt → ℕ → Run (DirTree × Reading)
read_dir_dirs t ino emitted ctx_pos = do
  let d = inode_to_dir_id ino
  let dir = t.de d
  let at = if ctx_pos == 0 then 0 else dir.pos
  (n, p) ← skip_nodes at dir.dir_size t dir.head
  r ← emit_nodes n t p (record { emitted = emitted; ctx_pos = ctx_pos; table_pos = at })
  ok (record t { de = update t.de d (record dir { pos = r.table_pos }) }, r)

-- Where the context is at its start, the positions of the tables are set back.
unfoldable pub rewind : ℕ → HashTable → HashTable
rewind ctx_pos ht = if ctx_pos == 0 then record ht { pos = 0 } else ht

unfoldable pub rewind_big : ℕ → BigDirHashTable → BigDirHashTable
rewind_big ctx_pos ht = if ctx_pos == 0 then record ht { pos = 0 } else ht

module _ (sb_bread : ℕ → Option (ℕ → FfsInode)) where
  -- The last part: the expansion area of a big directory.
  unfoldable pub read_expansion : Sb → InodeInfo → ℕ → ℕ → Reading → Run (Sb × Reading)
  read_expansion sb dfi dir_ino start r = do
    j ← index (2 ^ min_dir_bits) dfi.big_dir_id
    big ← follow (sb.big_dir_hashtbl j)
    (big', r') ← read_big_dir_files sb_bread (rewind_big start big) dir_ino r.emitted r.ctx_pos
    ok (record sb { big_dir_hashtbl = update sb.big_dir_hashtbl j (some big') }, r')

  unfoldable pub ffs_readdir : Sb → InodeInfo → List DirEnt → ℕ → Run (Sb × Reading)
  ffs_readdir sb dfi emitted ctx_pos = do
    i ← index (2 ^ max_dir_bits) dfi.dir_id
    ht ← follow (sb.hashtbl i)
    (t, r) ← read_dir_dirs sb.dtree (dir_id_to_inode i) emitted ctx_pos
    (ht', r') ← read_dir_files sb_bread (rewind ctx_pos ht) (dir_id_to_inode i) r.emitted r.ctx_pos
    let sb' = record sb { dtree = t; hashtbl = update sb.hashtbl i (some ht') }
    elim (dfi.is_big_dir == 0) [
      | true ↦ ok (sb', r')
      | false ↦ read_expansion sb' dfi (dir_id_to_inode i) ctx_pos r'
    ]
