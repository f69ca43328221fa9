-- ===== src/Pseudo.antt =====
-- src/api/pseudo_fs.rs: the tree of directories over which file systems are mounted.
-- An `Arc<PseudoInode>` is shared by the table of inodes and by its parent's list of children.
-- Its number, parent and name never change, so a list of children holds these, and the list of
-- children itself is read and written through the table.
pub mod Path
pub mod Invariant
pub mod New
pub mod Create
pub mod Steps
pub mod Walk
pub mod Mount
pub mod Evict
pub mod Serve
pub mod Listing
mod Tests
use fuse_backend_rs.Prelude.{
  ℕ, ◌+◌, ◌-◌, ◌%◌, ◌<◌, ◌^◌, ◌≡◌, Bool, true, false, Option, none, some, List, [], ◌∷◌, ◌++◌, ◌==◌,
  if◌then◌else◌, bytes_eq, drop, length, leb,
}
use fuse_backend_rs.Prelude.Map.{Map, get, insert, remove}
use fuse_backend_rs.Prelude.Outcome.{Outcome, ok, err, panic, ◌>>=◌}
use fuse_backend_rs.Fs.{
  Errno, enoent, einval, Result, Name, root_id, u64_mod, Stat, Entry, DirEntry,
}
use Path.{
  Component, prefix, root_dir, cur_dir, parent_dir, normal, has_root, components, dot, dot_dot,
}

abbrev pub pseudofs_next_inode : ℕ
pseudofs_next_inode = 2

abbrev pub pseudofs_default_timeout : ℕ
pseudofs_default_timeout = 2 ^ 32

pub record Child : Type 0 where
  pub ino : ℕ
  pub name : Name

pub record PseudoInode : Type 0 where
  pub ino : ℕ
  pub parent : ℕ
  pub children : List Child
  pub name : Name

abbrev pub new_node : ℕ → ℕ → Name → PseudoInode
new_node ino parent name = record { ino = ino; parent = parent; children = []; name = name }

pub record PseudoFs : Type 0 where
  pub next_inode : ℕ
  pub inodes : Map PseudoInode

-- `for child in children { if child.name == name`: the number of the first one.
unfoldable pub find_child : Name → List Child → Option ℕ
find_child name [] = none
find_child name (c ∷ cs) = if bytes_eq c.name name then some c.ino else find_child name cs

unfoldable pub insert_child : PseudoInode → Child → PseudoInode
insert_child node child = record node { children = node.children ++ child ∷ [] }

-- `position(..).map(|pos| children.remove(pos))`
unfoldable pub drop_child : Name → List Child → Option (List Child)
drop_child name [] = none
drop_child name (c ∷ cs) =
    let rest = drop_child name cs in
    if bytes_eq c.name name then some cs else elim rest [ none ↦ none | some r ↦ some (c ∷ r) ]

-- Panics where the child is not there.
unfoldable pub remove_child : PseudoInode → Name → Result PseudoInode
unfolding drop_child
remove_child node name = elim (drop_child name node.children) [
  | none ↦ panic
  | some rest ↦ ok (record node { children = rest })
]

unfoldable pub insert_inode : PseudoFs → PseudoInode → PseudoFs
insert_inode fs node = record fs { inodes = insert node.ino node fs.inodes }

unfoldable pub remove_inode : PseudoFs → ℕ → PseudoFs
remove_inode fs ino = record fs { inodes = remove ino fs.inodes }

-- The write of a list of children through its shared node.
unfoldable pub store_node : PseudoFs → PseudoInode → PseudoFs
store_node fs node = record fs { inodes = insert node.ino node fs.inodes }

unfoldable pub new : PseudoFs
unfolding insert_inode
new =
    insert_inode (record { next_inode = pseudofs_next_inode; inodes = [] })
      (new_node root_id root_id (b'/' ∷ []))

-- `fetch_add` wraps.
unfoldable pub new_inode : PseudoFs → ℕ → Name → PseudoFs × PseudoInode
new_inode fs parent name =
    (record fs { next_inode = (fs.next_inode + 1) % u64_mod }, new_node fs.next_inode parent name)

unfoldable pub create_inode : PseudoFs → Name → PseudoInode → PseudoFs × PseudoInode
unfolding new_inode insert_inode insert_child store_node
create_inode fs name parent =
    let (fs₁, node) = new_inode fs parent.ino name in
    let fs₂ = insert_inode fs₁ node in
    (store_node fs₂ (insert_child parent (record { ino = node.ino; name = name })), node)

abbrev pub unwrap {ℓ} : {A : Type ℓ} → Option A → Result A
unwrap none = panic
unwrap (some a) = ok a

-- The loop of `mount`, from the inode reached so far. What was created stays when it fails.
unfoldable pub mount_from : PseudoFs → PseudoInode → List Component → PseudoFs × Result ℕ
unfolding find_child create_inode
mount_from fs inode [] = (fs, ok inode.ino)
mount_from fs inode (prefix ∷ cs) = (fs, err einval)
mount_from fs inode (root_dir ∷ cs) = mount_from fs inode cs
mount_from fs inode (cur_dir ∷ cs) = mount_from fs inode cs
mount_from fs inode (parent_dir ∷ cs) = elim (get inode.parent fs.inodes) [
  | none ↦ (fs, panic)
  | some up ↦ mount_from fs up cs
]
mount_from fs inode (normal name ∷ cs) = elim (find_child name inode.children) [
  | some c ↦ elim (get c fs.inodes) [ none ↦ (fs, panic) | some down ↦ mount_from fs down cs ]
  | none ↦
      let made = create_inode fs name inode in
      elim (get made.1.ino made.0.inodes) [
        | none ↦ (made.0, panic)
        | some down ↦ mount_from made.0 down cs
      ]
]

-- `root_inode` is the node under `root_id`, which is never evicted.
unfoldable pub mount : PseudoFs → List ℕ → PseudoFs × Result ℕ
unfolding mount_from has_root components
mount fs mountpoint =
    if has_root mountpoint
    then elim (get root_id fs.inodes) [
      | none ↦ (fs, panic)
      | some root ↦ mount_from fs root (components mountpoint)
    ]
    else (fs, err einval)

-- The loop of `path_walk`.
unfoldable pub walk_from : PseudoFs → PseudoInode → List Component → Result (Option ℕ)
unfolding find_child
walk_from fs inode [] = ok (some inode.ino)
walk_from fs inode (prefix ∷ cs) = err einval
walk_from fs inode (root_dir ∷ cs) = walk_from fs inode cs
walk_from fs inode (cur_dir ∷ cs) = walk_from fs inode cs
walk_from fs inode (parent_dir ∷ cs) = elim (get inode.parent fs.inodes) [
  | none ↦ panic
  | some up ↦ walk_from fs up cs
]
walk_from fs inode (normal name ∷ cs) = elim (find_child name inode.children) [
  | some c ↦ elim (get c fs.inodes) [ none ↦ panic | some down ↦ walk_from fs down cs ]
  | none ↦ ok none
]

unfoldable pub path_walk : PseudoFs → List ℕ → Result (Option ℕ)
unfolding walk_from has_root components
path_walk fs mountpoint =
    if has_root mountpoint
    then elim (get root_id fs.inodes) [
      | none ↦ panic
      | some root ↦ walk_from fs root (components mountpoint)
    ]
    else err einval

unfoldable pub get_parent_inode : PseudoFs → ℕ → Option ℕ
get_parent_inode fs ino = elim (get ino fs.inodes) [ none ↦ none | some n ↦ some n.parent ]

unfoldable pub evict_inode : PseudoFs → ℕ → Result PseudoFs
unfolding remove_child store_node remove_inode
evict_inode fs ino = do
  inode ← unwrap (get ino fs.inodes)
  if ino == inode.parent then ok fs else do
    parent ← unwrap (get inode.parent fs.inodes)
    parent' ← remove_child parent inode.name
    ok (remove_inode (store_node fs parent') ino)
