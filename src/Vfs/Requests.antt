-- ===== src/Vfs/Requests.antt =====
-- src/api/vfs/sync_io.rs: the requests on files, directories and extended attributes that the
-- pseudo file system leaves to the default methods or a backend answers.
use fuse_backend_rs.Prelude.{ℕ, Bool, Option, none, some, if◌then◌else◌}
use fuse_backend_rs.Prelude.Outcome.{ok, err, panic, ◌>>=◌, ◌>>◌}
use fuse_backend_rs.Fs.{enosys, Result, Name, Entry}
use fuse_backend_rs.Vfs.Inode.{fs_idx, ino}
use fuse_backend_rs.Vfs.Ids.{convert_entry, shift_id}
use fuse_backend_rs.Vfs.State.{Vfs, forgets, after_call}
use fuse_backend_rs.Vfs.Dispatch.{left, right, get_real_rootfs, validate_path_component}
use fuse_backend_rs.Vfs.Ops.{FileOps}

-- `struct Context`
pub record Context : Type 0 where
  pub uid : ℕ
  pub gid : ℕ
  pub pid : ℕ

module _ {B : Type 0} where
  -- A request on `inode`: the pseudo file system answers `pseudo`, and a backend is given the
  -- number that the inode resolves to.
  unfoldable pub forward : {A : Type 0} → Vfs B → ℕ → Result A → (B → ℕ → Result A) → Result A
  forward vfs inode pseudo backend = do
    (root, idata) ← get_real_rootfs vfs inode
    elim root [ left ↦ pseudo | right fs ↦ backend fs idata ]

  -- `map(|mut e| self.convert_entry(idata.fs_idx(), e.inode, &mut e))?`
  unfoldable pub outward_entry : Vfs B → ℕ → Entry → Result Entry
  outward_entry vfs idata e = convert_entry vfs.id_mapping (fs_idx idata) e.inode e

  -- A request that the backend's inode was forgotten is passed on, and an unknown inode ignored.
  unfoldable pub forget : Vfs B → ℕ → ℕ → Result (Vfs B)
  forget vfs inode count = elim (get_real_rootfs vfs inode) [
    | err e ↦ ok vfs
    | panic ↦ panic
    | ok (root, idata) ↦ elim root [
      | left ↦ ok vfs
      | right fs ↦ ok (after_call vfs (forgets fs (ino idata) count))
    ]
  ]

  unfoldable pub id_remap : Vfs B → Context → Context
  id_remap vfs ctx = elim vfs.id_mapping [
    | none ↦ ctx
    | some m ↦ record ctx {
      uid = shift_id m.external_id m.internal_id m.range ctx.uid;
      gid = shift_id m.external_id m.internal_id m.range ctx.gid;
    }
  ]

  module _ {X : Type 0} (ops : FileOps B X) where
    unfoldable pub readlink : Vfs B → ℕ → Result Name
    unfolding forward
    readlink vfs inode = forward vfs inode (err enosys) (λ fs idata. ops.readlink fs (ino idata))

    unfoldable pub symlink : Vfs B → Name → ℕ → Name → Result Entry
    unfolding forward
    symlink vfs linkname parent name = do
      validate_path_component name
      forward vfs parent (err enosys)
          (λ fs idata. ops.symlink fs linkname (ino idata) name >>= outward_entry vfs idata)

    unfoldable pub mknod : Vfs B → ℕ → Name → ℕ → ℕ → ℕ → Result Entry
    unfolding forward
    mknod vfs inode name mode rdev umask = do
      validate_path_component name
      forward vfs inode (err enosys)
          (λ fs idata. ops.mknod fs (ino idata) name mode rdev umask >>= outward_entry vfs idata)

    unfoldable pub rmdir : Vfs B → ℕ → Name → Result (Unit {0})
    unfolding forward
    rmdir vfs parent name = do
      validate_path_component name
      forward vfs parent (err enosys) (λ fs idata. ops.rmdir fs (ino idata) name)

    -- The default method grants an open without a handle.
    unfoldable pub open_file : Vfs B → ℕ → ℕ → ℕ → Result (Option ℕ × (ℕ × Option ℕ))
    unfolding forward
    open_file vfs inode flags fuse_flags =
        if vfs.opts.no_open
        then err enosys
        else forward vfs inode (ok (none, (0, none)))
            (λ fs idata. ops.open_file fs (ino idata) flags fuse_flags)

    unfoldable pub create : Vfs B → ℕ → Name → X → Result (Entry × (Option ℕ × (ℕ × Option ℕ)))
    unfolding forward
    create vfs parent name args = do
      validate_path_component name
      forward vfs parent (err enosys) (λ fs idata. do
        (a, rest) ← ops.create fs (ino idata) name args
        a' ← outward_entry vfs idata a
        ok (a', rest))

    unfoldable pub read : Vfs B → ℕ → ℕ → X → ℕ → ℕ → Option ℕ → ℕ → Result ℕ
    unfolding forward
    read vfs inode handle w size offset lock_owner flags =
        forward vfs inode (err enosys)
          (λ fs idata. ops.read fs (ino idata) handle w size offset lock_owner flags)

    unfoldable pub write : Vfs B → ℕ → ℕ → X → ℕ → ℕ → Option ℕ → Bool → ℕ → ℕ → Result ℕ
    unfolding forward
    write vfs inode handle r size offset lock_owner delayed_write flags fuse_flags =
        forward vfs inode (err enosys) (λ fs idata.
          ops.write fs (ino idata) handle r size offset lock_owner delayed_write flags fuse_flags)

    unfoldable pub flush : Vfs B → ℕ → ℕ → ℕ → Result (Unit {0})
    unfolding forward
    flush vfs inode handle lock_owner =
        forward vfs inode (err enosys) (λ fs idata. ops.flush fs (ino idata) handle lock_owner)

    unfoldable pub fsync : Vfs B → ℕ → Bool → ℕ → Result (Unit {0})
    unfolding forward
    fsync vfs inode datasync handle =
        forward vfs inode (err enosys) (λ fs idata. ops.fsync fs (ino idata) datasync handle)

    unfoldable pub fallocate : Vfs B → ℕ → ℕ → ℕ → ℕ → ℕ → Result (Unit {0})
    unfolding forward
    fallocate vfs inode handle mode offset length =
        forward vfs inode (err enosys)
          (λ fs idata. ops.fallocate fs (ino idata) handle mode offset length)

    unfoldable pub release : Vfs B → ℕ → ℕ → ℕ → Bool → Bool → Option ℕ → Result (Unit {0})
    unfolding forward
    release vfs inode flags handle flush flock_release lock_owner =
        forward vfs inode (err enosys)
          (λ fs idata. ops.release fs (ino idata) flags handle flush flock_release lock_owner)

    -- The default method's statistics are `pseudo`.
    unfoldable pub statfs : X → Vfs B → ℕ → Result X
    unfolding forward
    statfs pseudo vfs inode = forward vfs inode (ok pseudo) (λ fs idata. ops.statfs fs (ino idata))
