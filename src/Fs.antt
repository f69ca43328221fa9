-- ===== src/Fs.antt =====
-- The types that file systems share: errno values, `Entry` and `DirEntry` of
-- src/api/filesystem/mod.rs, and the fields of libc's stat64 that src/abi/fuse_abi_linux.rs sets.
use fuse_backend_rs.Prelude.{ℕ, List, ◌^◌}
use fuse_backend_rs.Prelude.Outcome.{Outcome}

pub data Errno : Type 0 where
  enoent enosys einval eio ebadf enomem eperm eacces erofs eexist enotempty enotdir enodata
        enametoolong :
      Errno
  other : Errno

abbrev pub Result {ℓ} : Type ℓ → Type ℓ
Result A = Outcome Errno A

-- The bytes of a file name.
abbrev pub Name : Type 0
Name = List ℕ

abbrev pub root_id : ℕ
root_id = 1

abbrev pub u64_mod : ℕ
u64_mod = 2 ^ 64

pub record Stat : Type 0 where
  pub st_ino : ℕ
  pub st_size : ℕ
  pub st_blocks : ℕ
  pub st_atime : ℕ
  pub st_mtime : ℕ
  pub st_ctime : ℕ
  pub st_mode : ℕ
  pub st_nlink : ℕ
  pub st_uid : ℕ
  pub st_gid : ℕ
  pub st_rdev : ℕ
  pub st_blksize : ℕ

-- `struct Entry`; the timeouts are whole seconds here.
pub record Entry : Type 0 where
  pub inode : ℕ
  pub generation : ℕ
  pub attr : Stat
  pub attr_flags : ℕ
  pub attr_timeout : ℕ
  pub entry_timeout : ℕ

pub record DirEntry : Type 0 where
  pub ino : ℕ
  pub offset : ℕ
  pub type_ : ℕ
  pub name : Name
