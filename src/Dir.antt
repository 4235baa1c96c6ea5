-- ===== src/Dir.antt =====
-- The tree of directories that flatfs/dir.c keeps in memory, with the bitmap of directory ids of
-- flatfs/flatfs_d.h. The entries stand in an array by id. The subdirectories of an entry are a
-- doubly linked list on a heap: an address that is not in use holds nothing, and to follow a
-- pointer to it is a fault. The address that `kzalloc` gives is an argument.
pub mod Ids
pub mod Links
pub mod Insert
pub mod Remove
pub mod Find
pub mod Fill
pub mod Make
pub mod Exit
pub mod Cut
pub mod Middle
use flatfs.Common.{
  ℕ, zero, suc, ◌+◌, ◌-◌, ◌*◌, ◌/◌, ◌%◌, ◌^◌, List, [], ◌∷◌, Bool, true, false, ltb, ◌==◌, ◌&&◌,
  if◌then◌else◌, update, replicate, set, take, length, Option, some, none, Run, ok, fault,
  null_pointer, dangling, out_of_bounds, ◌>>=◌,
}
use flatfs.Config.{root_ino, max_dir_bits}
use flatfs.Name.{my_strlen, c_str, same_bytes}
use flatfs.Bitmap.{find_first_zero_bit, bitmap_write}
use flatfs.Lba.{inode_to_dir_id, dir_id_to_inode}

-- `struct dir_entry`, with the list that its `subdirs` points to.
pub record DirEntry : Type 0 where
  pub dir_id : ℕ
  pub dir_name : List ℕ
  pub namelen : ℕ
  pub rec_len : ℕ
  pub head : Option ℕ
  pub tail : Option ℕ
  pub dir_size : ℕ
  pub pos : ℕ

-- `struct dir_list_entry`; `de` is the id of the entry that it points to.
pub record DirListEntry : Type 0 where
  pub de : ℕ
  pub last : Option ℕ
  pub next : Option ℕ

-- `struct dir_tree`, and the heap of the list entries.
pub record DirTree : Type 0 where
  pub de : ℕ → DirEntry
  pub dir_entry_num : ℕ
  pub dir_id_bitmap : List Bool
  pub heap : ℕ → Option DirListEntry

unfoldable pub init_dir_id_bitmap : List Bool
init_dir_id_bitmap = true ∷ true ∷ true ∷ replicate (2 ^ max_dir_bits - 3) false

-- 0 means that no id is left.
unfoldable pub get_unused_dir_id : List Bool → Run (List Bool × ℕ)
get_unused_dir_id bitmap = do
  dir_id ← find_first_zero_bit bitmap (2 ^ max_dir_bits)
  elim (dir_id == 2 ^ max_dir_bits) [
    | true ↦ ok (bitmap, 0)
    | false ↦ bitmap_write bitmap dir_id true >>= λ taken. ok (taken, dir_id)
  ]

-- `FFS_DIR_REC_LEN`: the length of a record, rounded up to a multiple of four.
unfoldable pub ffs_dir_rec_len : ℕ → ℕ
ffs_dir_rec_len name_len = (name_len + 8 + 3) / 4 * 4

-- `memcpy` of the name over the start of the array.
unfoldable pub copy_name : List ℕ → List ℕ → List ℕ
copy_name [] old = old
copy_name (c ∷ s) [] = c ∷ copy_name s []
copy_name (c ∷ s) (d ∷ old) = c ∷ copy_name s old

-- `memory` is what `kmalloc` gives: the names beyond their first byte, `pos` and the entries' other
-- memory keep what it held.
unfoldable pub init_dir_tree : DirTree → DirTree
init_dir_tree memory = record {
  de = λ dir_id. record (memory.de dir_id) {
    dir_id = dir_id;
    dir_name = set (memory.de dir_id).dir_name 0 0;
    namelen = 0;
    rec_len = 0;
    head = none;
    tail = none;
    dir_size = 0;
  };
  dir_entry_num = 1;
  dir_id_bitmap = init_dir_id_bitmap;
  heap = memory.heap;
}

-- `size` is the size of the root's inode.
unfoldable pub init_root_entry : DirTree → ℕ → DirTree
init_root_entry dtree size = record dtree {
  de = update dtree.de root_ino (record (dtree.de root_ino) {
    dir_id = root_ino;
    dir_name = copy_name (b'/' ∷ []) (dtree.de root_ino).dir_name;
    namelen = 1;
    rec_len = ffs_dir_rec_len 1;
    head = none;
    tail = none;
    dir_size = size;
  });
}

-- The entry at an address.
unfoldable pub load : (ℕ → Option DirListEntry) → ℕ → Run DirListEntry
load heap a = elim (heap a) [ none ↦ fault dangling | some n ↦ ok n ]

-- `p->next = q` and `p->last = q`.
unfoldable pub store_next :
    (ℕ → Option DirListEntry) → Option ℕ → Option ℕ → Run (ℕ → Option DirListEntry)
store_next heap none q = fault null_pointer
store_next heap (some a) q = load heap a >>= λ n. ok (update heap a (some (record n { next = q })))

unfoldable pub store_last :
    (ℕ → Option DirListEntry) → Option ℕ → Option ℕ → Run (ℕ → Option DirListEntry)
store_last heap none q = fault null_pointer
store_last heap (some a) q = load heap a >>= λ n. ok (update heap a (some (record n { last = q })))

-- The last argument is the address of the new list entry, which `kzalloc` gives. Where it gives none, NULL is
-- followed. The parent's id is an index of the array: `mknod_dir` of Inode.antt checks it.
unfoldable pub insert_dir : DirTree → ℕ → ℕ → Option ℕ → Run DirTree
insert_dir t parent_dir_id insert_dir_id none = fault null_pointer
insert_dir t parent_dir_id insert_dir_id (some dle) =
    let dir = t.de parent_dir_id in
    let fresh : DirListEntry = record { de = insert_dir_id; last = none; next = none } in
    let size = (dir.dir_size + 1) % 2 ^ 64 in
    elim (dir.dir_size == 0) [
      | true ↦ ok (record t {
        heap = update t.heap dle (some fresh);
        de =
            update t.de parent_dir_id
              (record dir { head = some dle; tail = some dle; dir_size = size });
      })
      | false ↦ do
        linked ← store_next (update t.heap dle (some fresh)) dir.tail (some dle)
        heap' ← store_last linked (some dle) dir.tail
        ok (record t {
          heap = heap';
          de = update t.de parent_dir_id (record dir { tail = some dle; dir_size = size });
        })
    ]

-- The name is copied without its terminator, over what the array held.
unfoldable pub fill_one_dir_entry : DirTree → List ℕ → Run (DirTree × ℕ)
fill_one_dir_entry t dir_name = do
  (bitmap, dir_id) ← get_unused_dir_id t.dir_id_bitmap
  elim (dir_id == 0) [
    | true ↦ ok (t, dir_id)
    | false ↦
        let namelen = my_strlen dir_name in
        let entry = record (t.de dir_id) {
          dir_size = 0;
          namelen = namelen;
          rec_len = ffs_dir_rec_len namelen;
          dir_name = copy_name (c_str dir_name) (t.de dir_id).dir_name;
        } in
        ok (
          record t {
            de = update t.de dir_id entry;
            dir_id_bitmap = bitmap;
            dir_entry_num = (t.dir_entry_num + 1) % 2 ^ 64;
          },
          dir_id,
        )
  ]

-- The test of the lookup: the lengths and the bytes are those of the name.
unfoldable pub has_name : DirEntry → List ℕ → Bool
has_name e name =
    (my_strlen name == e.namelen) && same_bytes (c_str name) (take e.namelen e.dir_name)

-- The walk along a list of subdirectories for at most `n` rounds, to the first that has the name;
-- `own` is the id that the loop's variable holds before.
unfoldable pub find_sub : ℕ → DirTree → Option ℕ → List ℕ → ℕ → Run ℕ
find_sub zero t p name own = ok own
find_sub (suc n) t none name own = ok own
find_sub (suc n) t (some a) name own = load t.heap a >>= λ node.
    elim (has_name (t.de node.de) name) [
      | true ↦ ok (t.de node.de).dir_id
      | false ↦ find_sub n t node.next name own
    ]

-- `my_strlen` of an array: without a zero byte it reads on past its end.
unfoldable pub array_strlen : List ℕ → Run ℕ
array_strlen name =
    if ltb (my_strlen name) (length name) then ok (my_strlen name) else fault out_of_bounds

-- The entry at an index of the array.
unfoldable pub entry_of : DirTree → ℕ → Run DirEntry
entry_of t id = if ltb id (2 ^ max_dir_bits) then ok (t.de id) else fault out_of_bounds

-- 0 means that no subdirectory has the name.
unfoldable pub flatfs_dir_inode_by_name : DirTree → ℕ → List ℕ → Run ℕ
flatfs_dir_inode_by_name t parent_ino name = do
  let parent_dir_id = inode_to_dir_id parent_ino
  dir ← entry_of t parent_dir_id
  ino ← find_sub dir.dir_size t dir.head name parent_dir_id
  ok (if ino == parent_dir_id then 0 else dir_id_to_inode ino)

-- `if (p != NULL) p->next = q`, and the same for `last`.
unfoldable pub try_store_next :
    (ℕ → Option DirListEntry) → Option ℕ → Option ℕ → Run (ℕ → Option DirListEntry)
try_store_next heap none q = ok heap
try_store_next heap (some a) q = store_next heap (some a) q

unfoldable pub try_store_last :
    (ℕ → Option DirListEntry) → Option ℕ → Option ℕ → Run (ℕ → Option DirListEntry)
try_store_last heap none q = ok heap
try_store_last heap (some a) q = store_last heap (some a) q

-- What `remove_dir` does with the node that it finds, at address `a` and `start` nodes from the
-- head. The stores to the node itself are lost with it.
unfoldable pub unlink_entry : DirTree → ℕ → ℕ → ℕ → ℕ → DirListEntry → Run DirTree
unlink_entry t parent_id dir_id start a node = do
  let parent = t.de parent_id
  let at_end = start == ((t.de dir_id).dir_size + (2 ^ 64 - 1)) % 2 ^ 64
  h ← (if start == 0 then ok t.heap else try_store_next t.heap node.last node.next)
  h' ← (if at_end then ok h else try_store_last h node.next node.last)
  ok (record t {
    heap = update h' a none;
    de = update t.de parent_id (record parent {
      head = if start == 0 then node.next else parent.head;
      tail = if at_end then node.last else parent.tail;
      dir_size = (parent.dir_size + (2 ^ 64 - 1)) % 2 ^ 64;
    });
  })

-- The loop of `remove_dir`, for at most `n` rounds: whether it found the directory.
unfoldable pub remove_loop : ℕ → DirTree → ℕ → ℕ → ℕ → Option ℕ → Run (DirTree × Bool)
remove_loop zero t parent_id dir_id start dle = ok (t, false)
remove_loop (suc n) t parent_id dir_id start none = ok (t, false)
remove_loop (suc n) t parent_id dir_id start (some a) = load t.heap a >>= λ node.
    elim ((t.de dir_id).dir_id == (t.de node.de).dir_id) [
      | true ↦ unlink_entry t parent_id dir_id start a node >>= λ t'. ok (t', true)
      | false ↦ remove_loop n t parent_id dir_id (suc start) node.next
    ]

-- The loop over the entry's own name.
unfoldable pub zero_name : ℕ → List ℕ → List ℕ
zero_name zero s = s
zero_name (suc n) [] = []
zero_name (suc n) (c ∷ s) = 0 ∷ zero_name n s

-- What `remove_dir` does to the tree. The id that is set free is the one in the entry, read after
-- the loop; the tables that it frees belong to the super block.
unfoldable pub remove_from_tree : DirTree → ℕ → ℕ → Run (DirTree × Bool)
remove_from_tree t parent_ino dir_ino = do
  let parent_id = inode_to_dir_id parent_ino
  let id = inode_to_dir_id dir_ino
  parent ← entry_of t parent_id
  dir ← entry_of t id
  name_len ← array_strlen dir.dir_name
  (u, found) ← remove_loop parent.dir_size t parent_id id 0 parent.head
  elim found [
    | false ↦ ok (u, false)
    | true ↦
        let entry = u.de id in
        bitmap_write u.dir_id_bitmap entry.dir_id false >>= λ bitmap. ok (
          record u {
            de = update u.de id (record entry {
              dir_name = zero_name name_len entry.dir_name;
              namelen = 0;
              head = none;
              tail = none;
            });
            dir_entry_num = (u.dir_entry_num + (2 ^ 64 - 1)) % 2 ^ 64;
            dir_id_bitmap = bitmap;
          },
          true,
        )
  ]
