-- ===== src/Vfs/Ops.antt =====
-- src/api/vfs/sync_io.rs: what the backends answer to the requests that are passed on to them. The
-- handles, flags, statistics and replies that the file system does not look at are of types `X`,
-- and requests carry them as they came.
use fuse_backend_rs.Prelude.{ℕ, Bool, Option, List}
use fuse_backend_rs.Fs.{Result, Name, Entry, DirEntry}

pub record FileOps (B X : Type 0) : Type 0 where
  pub readlink : B → ℕ → Result Name
  pub symlink : B → Name → ℕ → Name → Result Entry
  pub mknod : B → ℕ → Name → ℕ → ℕ → ℕ → Result Entry
  pub rmdir : B → ℕ → Name → Result (Unit {0})
  pub open_file : B → ℕ → ℕ → ℕ → Result (Option ℕ × (ℕ × Option ℕ))
  pub create : B → ℕ → Name → X → Result (Entry × (Option ℕ × (ℕ × Option ℕ)))
  pub read : B → ℕ → ℕ → X → ℕ → ℕ → Option ℕ → ℕ → Result ℕ
  pub write : B → ℕ → ℕ → X → ℕ → ℕ → Option ℕ → Bool → ℕ → ℕ → Result ℕ
  pub flush : B → ℕ → ℕ → ℕ → Result (Unit {0})
  pub fsync : B → ℕ → Bool → ℕ → Result (Unit {0})
  pub fallocate : B → ℕ → ℕ → ℕ → ℕ → ℕ → Result (Unit {0})
  pub release : B → ℕ → ℕ → ℕ → Bool → Bool → Option ℕ → Result (Unit {0})
  pub statfs : B → ℕ → Result X
  pub setxattr : B → ℕ → Name → List ℕ → ℕ → Result (Unit {0})
  pub getxattr : B → ℕ → Name → ℕ → Result X
  pub listxattr : B → ℕ → ℕ → Result X
  pub removexattr : B → ℕ → Name → Result (Unit {0})
  pub opendir : B → ℕ → ℕ → Result (Option ℕ × ℕ)
  pub fsyncdir : B → ℕ → Bool → ℕ → Result (Unit {0})
  pub releasedir : B → ℕ → ℕ → ℕ → Result (Unit {0})
  pub access : B → ℕ → ℕ → Result (Unit {0})

-- The directory reads of the backends, with what their callbacks keep in `S`. The arguments are
-- the inode, the handle, the size and the offset.
pub record DirOps (B S : Type 0) : Type 0 where
  pub readdir : B → ℕ → ℕ → ℕ → ℕ → (S → DirEntry → S × Result ℕ) → S → S × Result (Unit {0})
  pub readdirplus :
      B → ℕ → ℕ → ℕ → ℕ → (S → DirEntry → Entry → S × Result ℕ) → S → S × Result (Unit {0})
