-- ===== src/Overlay/Tests.antt =====
-- The store at concrete inodes.
mod Layered
use fuse_backend_rs.Prelude.{ℕ, ◌+◌, ◌<◌, ◌≤◌, ◌≡◌, refl, none, some, List, arith, bytes_eq}
use fuse_backend_rs.Prelude.Map.{get, insert, remove}
use fuse_backend_rs.Prelude.Outcome.{ok}
use fuse_backend_rs.Prelude.Text.{codes}
use fuse_backend_rs.Vfs.Inode.{vfs_max_ino}
use fuse_backend_rs.Overlay.PathMap.{find, without, store}
use fuse_backend_rs.Overlay.{
  OverlayInode, InodeStore, new_store, insert_inode, alloc_unique_inode, alloc_inode, remove_inode,
  get_deleted_inode,
}
use fuse_backend_rs.Overlay.Fresh.{Fresh, alloc_unique_inode-Fresh}
use fuse_backend_rs.Overlay.Remove.{Removal, remove_inode-Removal}
use fuse_backend_rs.Overlay.Reuse.{alloc_inode-remove_inode}

program : Unit {0}
unfolding bytes_eq get insert remove find without store new_store insert_inode alloc_inode
    remove_inode
program = tt

abbrev path_a : List ℕ
path_a = codes "/a"

abbrev node_a : OverlayInode
node_a = record { path = path_a; lookups = 1 }

abbrev node_b : OverlayInode
node_b = record { path = codes "/b"; lookups = 0 }

abbrev two : InodeStore
two = insert_inode (insert_inode new_store 1 node_a) 2 node_b

runs :
    ((alloc_unique_inode two).1 ≡ ok 3)
    × ((alloc_inode two (codes "/b")).1 ≡ ok 2)
    × ((remove_inode two 2 none).1 ≡ some node_b)
    × ((remove_inode two 1 none).1 ≡ none)
unfolding program
runs = (refl, refl, refl, refl)

positive : 0 < two.next_inode
unfolding program
positive = omega arith

small : two.next_inode ≤ vfs_max_ino + 1
unfolding program
small = omega arith

alloc_unique_inode-Fresh_example : Fresh two (alloc_unique_inode two)
alloc_unique_inode-Fresh_example = alloc_unique_inode-Fresh two positive small

active_a : get 1 two.inodes ≡ some node_a
unfolding program
active_a = refl

clean_a : get 1 two.deleted ≡ none
unfolding program
clean_a = refl

remove_inode-Removal_example :
    Removal two 1 node_a (some path_a) active_a (remove_inode two 1 (some path_a)).0
remove_inode-Removal_example = remove_inode-Removal two 1 node_a (some path_a) active_a clean_a

mapped_a : find path_a two.path_mapping ≡ some 1
unfolding program
mapped_a = refl

alloc_inode-remove_inode_example :
    (s' : InodeStore) × (remove_inode two 1 (some path_a) ≡ (s', none))
    × (get_deleted_inode s' 1 ≡ some node_a)
    × (alloc_inode s' path_a ≡ (s', ok 1))
alloc_inode-remove_inode_example =
    alloc_inode-remove_inode two 1 node_a active_a mapped_a (omega arith)
