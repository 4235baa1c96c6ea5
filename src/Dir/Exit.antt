-- ===== src/Dir/Exit.antt =====
-- The release of the tree of directories, of flatfs/dir.c: `clear_dir_entry`, `delete_dir` and `dir_exit`, none of
-- which the file system calls. The memory that `subdirs` of an entry points to is freed with the entry.
use flatfs.Common.{
  ◌<◌, ◌^◌, ℕ, zero, suc, ◌≡◌, ◌≢◌, refl, sym, ◌∙◌, ap, List, Bool, true, false, ◌==◌,
  if◌then◌else◌, Option, some, none, update, Run, ok, fault, spins, dangling, ◌>>=◌, Returns,
  ==_self, Bool-cases, inl, inr,
}
use flatfs.Config.{root_ino, max_dir_bits}
use flatfs.Lba.{inode_to_dir_id}
use flatfs.Dir.{DirTree, DirEntry, DirListEntry, load, store_next, store_last, has_name, entry_of}
use flatfs.Dir.Links.{entry_of-ok, load-ok, update_self, update_ne}

-- The tree, and the entries whose `subdirs` has been freed.
pub record Forest : Type 0 where
  pub tree : DirTree
  pub freed : ℕ → Bool

-- `kfree` of a list entry.
unfoldable pub free_node : Forest → ℕ → Forest
free_node f a = record f { tree = record f.tree { heap = update f.tree.heap a none } }

-- The loop of `clear_dir_entry` for at most `n` rounds. Its step reads the entry that the round has freed.
unfoldable pub clear_nodes : (ℕ → Forest → Run Forest) → ℕ → Forest → Option ℕ → Run Forest
clear_nodes clear zero f dle = ok f
clear_nodes clear (suc n) f none = ok f
clear_nodes clear (suc n) f (some a) = do
  node ← load f.tree.heap a
  g ← clear node.de f
  let h = free_node g a
  step ← load h.tree.heap a
  clear_nodes clear n h step.next

-- `depth` is the number of calls inside one another; a recursion that goes deeper does not end.
unfoldable pub clear_dir_entry : ℕ → ℕ → Forest → Run Forest
clear_dir_entry zero id f = fault spins
clear_dir_entry (suc depth) id f =
    let dir = f.tree.de id in
    elim (f.freed id) [
      | true ↦ fault dangling
      | false ↦ clear_nodes (clear_dir_entry depth) dir.dir_size f dir.head >>= λ g. ok (record g {
        tree = record g.tree {
          de = update g.tree.de id (record (g.tree.de id) { namelen = 0; dir_size = 0 });
        };
        freed = update g.freed id true;
      })
    ]

-- `sb_i->root` is the entry of the root.
unfoldable pub dir_exit : ℕ → Forest → Run Forest
dir_exit depth f = clear_dir_entry depth root_ino f

unfoldable pub points_to : Option ℕ → ℕ → Bool
points_to none a = false
points_to (some b) a = b == a

-- What `delete_dir` does with a node: it leaves the list of its parent and is cleared.
unfoldable pub delete_node : ℕ → Forest → ℕ → ℕ → DirListEntry → Run Forest
delete_node depth f id a node = do
  let dir = f.tree.de id
  h ← (if points_to dir.head a then ok f.tree.heap else store_next f.tree.heap node.last node.next)
  h' ← (if points_to dir.tail a then ok h else store_last h node.next node.last)
  let left = record dir {
    head = if points_to dir.head a then node.next else dir.head;
    tail = if points_to dir.tail a then node.last else dir.tail;
  }
  g ←
      clear_dir_entry depth node.de
        (record f { tree = record f.tree { heap = h'; de = update f.tree.de id left } })
  ok (free_node g a)

-- The loop of `delete_dir`: it goes on where the name is that of the child, and deletes where it is not.
unfoldable pub delete_loop : ℕ → ℕ → Forest → ℕ → List ℕ → Option ℕ → Run Forest
delete_loop depth zero f id name dle = ok f
delete_loop depth (suc n) f id name none = ok f
delete_loop depth (suc n) f id name (some a) = load f.tree.heap a >>= λ node.
    elim (has_name (f.tree.de node.de) name) [
      | true ↦ delete_loop depth n f id name node.next
      | false ↦ delete_node depth f id a node
    ]

unfoldable pub delete_dir : ℕ → Forest → ℕ → List ℕ → Run Forest
delete_dir depth f ino name =
    let id = inode_to_dir_id ino in
    entry_of f.tree id >>= λ dir. delete_loop depth dir.dir_size f id name dir.head

freed_lem : (f : Forest) (a : ℕ) → load (free_node f a).tree.heap a ≡ fault dangling
unfolding load free_node
freed_lem f a = rw (load, update_self f.tree.heap a none) refl

-- What ends well at no value of its first part does not end well.
bind_never :
    {V : Type 0} {W : Type 0} (m : Run V) (rest : V → Run W) (w : W)
    → ((v : V) → rest v ≢ ok w)
    → (m >>= rest) ≢ ok w
bind_never (fault e) rest w h = λ q. cc
bind_never (ok v) rest w h = h v

-- The loop does not end well where there is a subdirectory.
clear_nodes-dangling :
    (clear : ℕ → Forest → Run Forest) (n : ℕ) (f g : Forest) (a : ℕ)
    → clear_nodes clear (suc n) f (some a) ≢ ok g
unfolding clear_nodes
clear_nodes-dangling clear n f g a =
    bind_never (load f.tree.heap a) _ g
      (λ node. bind_never (clear node.de f) _ g (λ h q. faults (rw (freed_lem h a) at q)))
  where
    faults : fault dangling ≡ ok g → ⊥
    faults e = cc

nodes_never :
    (clear : ℕ → Forest → Run Forest) (n : ℕ) (f g : Forest) (dle : Option ℕ) (a : ℕ)
    → dle ≡ some a
    → n ≢ 0
    → clear_nodes clear n f dle ≢ ok g
nodes_never clear zero f g dle a e size = absurd (size refl)
nodes_never clear (suc n) f g dle a e size = rw e (clear_nodes-dangling clear n f g a)

part_never :
    {V : Type 0} {W : Type 0} (m : Run V) (rest : V → Run W) (w : W)
    → ((v : V) → m ≢ ok v)
    → (m >>= rest) ≢ ok w
part_never (fault e) rest w h = λ q. cc
part_never (ok v) rest w h = λ q. h v refl

-- However deep the recursion may go, dir_exit does not return on a tree whose root has a subdirectory: the loop of
-- clear_dir_entry reads the next node from the one that it has just freed.
pub dir_exit-dangling :
    (depth : ℕ) (f g : Forest) (a : ℕ)
    → (f.tree.de root_ino).head ≡ some a
    → (f.tree.de root_ino).dir_size ≢ 0
    → dir_exit depth f ≢ ok g
unfolding dir_exit clear_dir_entry
dir_exit-dangling zero f g a head size q = absurd cc
dir_exit-dangling (suc depth) f g a head size q = elim (Bool-cases (f.freed root_ino)) [
  | inl e ↦ faults (rw (clear_dir_entry, e) at q)
  | inr e ↦
      part_never
        (clear_nodes (clear_dir_entry depth) (f.tree.de root_ino).dir_size f
          (f.tree.de root_ino).head)
        _ g
        (λ h.
          nodes_never (clear_dir_entry depth) (f.tree.de root_ino).dir_size f h
            (f.tree.de root_ino).head a head size)
        (rw (clear_dir_entry, e) at q)
]
  where
    faults : fault dangling ≡ ok g → ⊥
    faults e = cc

-- A directory without subdirectories is cleared.
clear_leaf :
    (depth id : ℕ) (f : Forest)
    → f.freed id ≡ false
    → (f.tree.de id).dir_size ≡ 0
    → Returns
        (clear_dir_entry (suc depth) id f)
        (λ g. (g.tree.heap ≡ f.tree.heap) × ((j : ℕ) → j ≢ id → g.tree.de j ≡ f.tree.de j))
unfolding clear_dir_entry clear_nodes
clear_leaf depth id f live size =
    let dir : DirEntry = record (f.tree.de id) { namelen = 0; dir_size = 0 } in
    (
      record f {
        tree = record f.tree { de = update f.tree.de id dir };
        freed = update f.freed id true;
      },
      rw (clear_dir_entry, live, size) refl,
      (refl, λ j ne. update_ne f.tree.de id j dir ne),
    )

loop_once :
    (depth : ℕ) (f : Forest) (id : ℕ) (name : List ℕ) (a : ℕ) (node : DirListEntry) (n : ℕ)
    (dle : Option ℕ)
    → n ≡ 1
    → dle ≡ some a
    → load f.tree.heap a ≡ ok node
    → has_name (f.tree.de node.de) name ≡ false
    → delete_loop depth n f id name dle ≡ delete_node depth f id a node
unfolding delete_loop
loop_once depth f id name a node n dle one head there other =
    rw (one, head, there, ◌>>=◌, other) refl

-- A directory of an id below 2 ^ 14 has one subdirectory, which has none itself: delete_dir of the name of the subdirectory does nothing,
-- and delete_dir of any other name removes the subdirectory from the list and frees it.
pub delete_dir-inverted :
    (depth : ℕ) (f : Forest) (ino a child : ℕ) (name : List ℕ)
    → f.tree.heap a ≡ some (record { de = child; last = none; next = none })
    → (f.tree.de (inode_to_dir_id ino)).head ≡ some a
    → (f.tree.de (inode_to_dir_id ino)).tail ≡ some a
    → (f.tree.de (inode_to_dir_id ino)).dir_size ≡ 1
    → (f.tree.de child).dir_size ≡ 0
    → f.freed child ≡ false
    → child ≢ inode_to_dir_id ino
    → inode_to_dir_id ino < 2 ^ max_dir_bits
    → (has_name (f.tree.de child) name ≡ true → delete_dir (suc depth) f ino name ≡ ok f)
      × (has_name (f.tree.de child) name ≡ false
          → Returns
              (delete_dir (suc depth) f ino name)
              (λ g. ((g.tree.de (inode_to_dir_id ino)).head ≡ none) × (g.tree.heap a ≡ none)))
unfolding delete_dir delete_loop delete_node points_to free_node
delete_dir-inverted depth f ino a child name node head tail one leaf live apart bound =
    let there = load-ok f.tree.heap a (record { de = child; last = none; next = none }) node in
    let id = inode_to_dir_id ino in
    (
      λ same. rw (entry_of-ok f.tree id bound, ◌>>=◌, one, head, there, same) refl,
      λ other.
          let left : DirEntry = record (f.tree.de id) { head = none; tail = none } in
          let cut : Forest = record f { tree = record f.tree { de = update f.tree.de id left } } in
          let at = update_ne f.tree.de id child left apart in
          let (g, run, (heap, rest)) = clear_leaf depth child cut live (rw at leaf) in
          (
            free_node g a,
            rw (entry_of-ok f.tree id bound, ◌>>=◌)
                (loop_once (suc depth) f id name a _ (f.tree.de id).dir_size (f.tree.de id).head one
                    head there other
                  ∙ rw (head, tail, ==_self a, ◌>>=◌, run) refl),
            (
              ap (λ (e : DirEntry). e.head)
                  (rest id (λ e. apart (sym e)) ∙ update_self f.tree.de id left),
              update_self g.tree.heap a none,
            ),
          ),
    )
