-- ===== src/Vfs/Attributes.antt =====
-- src/api/vfs/sync_io.rs: the requests on extended attributes and open directories.
use fuse_backend_rs.Prelude.{ℕ, Bool, Option, none, List, if◌then◌else◌}
use fuse_backend_rs.Prelude.Outcome.{ok, err, ◌>>◌}
use fuse_backend_rs.Fs.{enosys, Result, Name}
use fuse_backend_rs.Vfs.Inode.{ino}
use fuse_backend_rs.Vfs.State.{Vfs}
use fuse_backend_rs.Vfs.Dispatch.{validate_path_component}
use fuse_backend_rs.Vfs.Ops.{FileOps}
use fuse_backend_rs.Vfs.Requests.{forward}

module _ {B X : Type 0} (ops : FileOps B X) where
  unfoldable pub setxattr : Vfs B → ℕ → Name → List ℕ → ℕ → Result (Unit {0})
  unfolding forward
  setxattr vfs inode name value flags = do
    validate_path_component name
    forward vfs inode (err enosys) (λ fs idata. ops.setxattr fs (ino idata) name value flags)

  unfoldable pub getxattr : Vfs B → ℕ → Name → ℕ → Result X
  unfolding forward
  getxattr vfs inode name size = do
    validate_path_component name
    forward vfs inode (err enosys) (λ fs idata. ops.getxattr fs (ino idata) name size)

  unfoldable pub listxattr : Vfs B → ℕ → ℕ → Result X
  unfolding forward
  listxattr vfs inode size =
      forward vfs inode (err enosys) (λ fs idata. ops.listxattr fs (ino idata) size)

  unfoldable pub removexattr : Vfs B → ℕ → Name → Result (Unit {0})
  unfolding forward
  removexattr vfs inode name = do
    validate_path_component name
    forward vfs inode (err enosys) (λ fs idata. ops.removexattr fs (ino idata) name)

  -- The default method grants an open without a handle.
  unfoldable pub opendir : Vfs B → ℕ → ℕ → Result (Option ℕ × ℕ)
  unfolding forward
  opendir vfs inode flags =
      if vfs.opts.no_opendir
      then err enosys
      else forward vfs inode (ok (none, 0)) (λ fs idata. ops.opendir fs (ino idata) flags)

  unfoldable pub fsyncdir : Vfs B → ℕ → Bool → ℕ → Result (Unit {0})
  unfolding forward
  fsyncdir vfs inode datasync handle =
      forward vfs inode (err enosys) (λ fs idata. ops.fsyncdir fs (ino idata) datasync handle)

  unfoldable pub releasedir : Vfs B → ℕ → ℕ → ℕ → Result (Unit {0})
  unfolding forward
  releasedir vfs inode flags handle =
      forward vfs inode (err enosys) (λ fs idata. ops.releasedir fs (ino idata) flags handle)

  -- The pseudo file system lets everybody in.
  unfoldable pub access : Vfs B → ℕ → ℕ → Result (Unit {0})
  unfolding forward
  access vfs inode mask = forward vfs inode (ok tt) (λ fs idata. ops.access fs (ino idata) mask)
