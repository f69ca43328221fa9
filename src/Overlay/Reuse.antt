-- ===== src/Overlay/Reuse.antt =====
-- src/overlayfs/inode_store.rs: the number of an inode that was removed while it was looked up.
use fuse_backend_rs.Prelude.{ℕ, ◌<◌, ◌≡◌, some, none, arith}
use fuse_backend_rs.Prelude.Map.{get, insert, remove, get-insert}
use fuse_backend_rs.Prelude.Outcome.{ok}
use fuse_backend_rs.Overlay.PathMap.{find, find-store_self}
use fuse_backend_rs.Overlay.{
  InodeStore, OverlayInode, remove_inode, get_deleted_inode, insert_inode, alloc_inode,
}
use fuse_backend_rs.Overlay.Remove.{remove_kept}

-- A number is kept for the path of an inserted inode: an allocation for that path gives it again
-- and changes nothing.
pub alloc_inode-insert_inode :
    (s : InodeStore) (i : ℕ) (v : OverlayInode)
    → alloc_inode (insert_inode s i v) v.path ≡ (insert_inode s i v, ok i)
unfolding alloc_inode insert_inode
alloc_inode-insert_inode s i v = rw (find-store_self v.path i s.path_mapping, alloc_inode)

-- An inode that is removed with its path while it is looked up stays among the deleted ones, and
-- the next allocation for the same path gives its number out again.
pub alloc_inode-remove_inode :
    (s : InodeStore) (i : ℕ) (v : OverlayInode)
    → get i s.inodes ≡ some v
    → find v.path s.path_mapping ≡ some i
    → 0 < v.lookups
    → (s' : InodeStore) × (remove_inode s i (some v.path) ≡ (s', none))
      × (get_deleted_inode s' i ≡ some v)
      × (alloc_inode s' v.path ≡ (s', ok i))
unfolding alloc_inode
alloc_inode-remove_inode s i v active mapped h = (
  record s { inodes = remove i s.inodes; deleted = insert i v s.deleted },
  remove_kept s i v (some v.path) active h,
  ground (arith, get-insert i i v s.deleted),
  rw (mapped, alloc_inode),
)
