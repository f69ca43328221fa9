-- ===== src/Overlay.antt =====
-- src/overlayfs/inode_store.rs: the store of the overlay file system's inodes, with the numbers
-- that are kept for paths and the inodes that were removed but not forgotten.
mod PathMap
mod NameMap
pub mod Layers
pub mod Merge
mod Union
mod Answered
mod Listed
mod Trimmed
mod Joined
mod Gathered
mod Merged
mod Fresh
mod Remove
mod Reuse
mod Tests
use fuse_backend_rs.Prelude.{
  ℕ, zero, suc, ◌+◌, Bool, true, false, Option, none, some, List, [], ◌∷◌, ◌==◌, ltb, ◌||◌,
  if◌then◌else◌, bytes_eq,
}
use fuse_backend_rs.Prelude.Map.{Map, get, insert, remove}
use fuse_backend_rs.Prelude.Outcome.{ok, err, panic}
use fuse_backend_rs.Fs.{Result, other}
use fuse_backend_rs.Vfs.Inode.{vfs_max_ino}
use fuse_backend_rs.Overlay.PathMap

-- The fields of OverlayInode that the store reads.
pub record OverlayInode : Type 0 where
  pub path : List ℕ
  pub lookups : ℕ

pub record InodeStore : Type 0 where
  pub inodes : Map OverlayInode
  pub deleted : Map OverlayInode
  pub path_mapping : List (List ℕ × ℕ)
  pub next_inode : ℕ

unfoldable pub new_store : InodeStore
new_store = record { inodes = []; deleted = []; path_mapping = []; next_inode = 1 }

abbrev pub contains_key : ℕ → Map OverlayInode → Bool
contains_key ino m = elim (get ino m) [ none ↦ false | some v ↦ true ]

unfoldable pub in_use : InodeStore → ℕ → Bool
in_use s ino = contains_key ino s.inodes || contains_key ino s.deleted

-- `if ino > VFS_MAX_INO { ino = 1; }`
abbrev pub wrap_ino : ℕ → ℕ
wrap_ino ino = if ltb vfs_max_ino ino then 1 else ino

-- The loop, with the rounds that are left. What is in use is given as a test, since the loop does
-- not change it.
unfoldable pub search_ino : (ℕ → Bool) → ℕ → ℕ → Option ℕ
search_ino used zero ino = none
search_ino used (suc rounds) ino = elim (used (wrap_ino ino)) [
  | false ↦ some (wrap_ino ino)
  | true ↦ search_ino used rounds (wrap_ino ino + 1)
]

unfoldable pub alloc_unique_inode : InodeStore → InodeStore × Result ℕ
unfolding search_ino in_use
alloc_unique_inode s = elim (search_ino (in_use s) vfs_max_ino s.next_inode) [
  | some ino ↦ (record s { next_inode = ino + 1 }, ok ino)
  | none ↦ (s, err other)
]

unfoldable pub alloc_inode : InodeStore → List ℕ → InodeStore × Result ℕ
unfolding alloc_unique_inode PathMap.find
alloc_inode s path = elim (PathMap.find path s.path_mapping) [
  | some v ↦ (s, ok v)
  | none ↦ alloc_unique_inode s
]

unfoldable pub insert_inode : InodeStore → ℕ → OverlayInode → InodeStore
unfolding PathMap.store
insert_inode s inode node = record s {
  path_mapping = PathMap.store node.path inode s.path_mapping;
  inodes = insert inode node s.inodes;
}

abbrev pub get_inode : InodeStore → ℕ → Option OverlayInode
get_inode s inode = get inode s.inodes

abbrev pub get_deleted_inode : InodeStore → ℕ → Option OverlayInode
get_deleted_inode s inode = get inode s.deleted

-- `get_all_inode` of src/overlayfs/mod.rs
unfoldable pub get_all_inode : InodeStore → ℕ → Option OverlayInode
get_all_inode s inode = elim (get_inode s inode) [
  | some n ↦ some n
  | none ↦ get_deleted_inode s inode
]

-- `if let Some(path) = path_removed { .. }`
unfoldable pub drop_path : Option (List ℕ) → InodeStore → InodeStore
drop_path none s = s
drop_path (some path) s = record s { path_mapping = PathMap.without path s.path_mapping }

-- The inode is returned only once it is gone for good. An inode that is still looked up is moved
-- to the deleted ones, and then its path is kept.
unfoldable pub remove_inode : InodeStore → ℕ → Option (List ℕ) → InodeStore × Option OverlayInode
unfolding drop_path
remove_inode s inode path_removed = elim (get inode s.inodes) [
  | some v ↦
      let s' = record s { inodes = remove inode s.inodes } in
      if ltb 0 v.lookups
      then (record s' { deleted = insert inode v s.deleted }, none)
      else (drop_path path_removed s', some v)
  | none ↦ elim (get inode s.deleted) [
    | none ↦ (drop_path path_removed s, none)
    | some v ↦
        if v.lookups == 0
        then (drop_path path_removed (record s { deleted = remove inode s.deleted }), some v)
        else (drop_path path_removed s, none)
  ]
]
