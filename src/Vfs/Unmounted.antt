-- ===== src/Vfs/Unmounted.antt =====
-- src/api/vfs/mod.rs, `umount` and `get_real_rootfs`: where the numbers lead that were given out
-- before a file system was unmounted.
use fuse_backend_rs.Prelude.{ℕ, ◌≡◌, ◌==◌, if◌then◌else◌}
use fuse_backend_rs.Prelude.Outcome.{err}
use fuse_backend_rs.Fs.{enoent}
use fuse_backend_rs.Pseudo
use fuse_backend_rs.Vfs.Inode.{fs_idx}
use fuse_backend_rs.Vfs.State.{Vfs}
use fuse_backend_rs.Vfs.Dispatch.{get_real_rootfs}
use fuse_backend_rs.Vfs.Routing.{RoutesTo}

module _ {B : Type 0} where
  -- Where the number `x` of the inode `n` of `fs` leads once the super block `idx` is emptied.
  abbrev pub After : Vfs B → ℕ → ℕ → B → ℕ → Type 0
  After v' idx x fs n =
      if fs_idx x == idx then get_real_rootfs v' x ≡ err enoent else RoutesTo v' x fs n
