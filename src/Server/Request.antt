-- ===== src/Server/Request.antt =====
-- The calls that the server makes of a FileSystem (src/api/filesystem/sync_io.rs), one constructor
-- for each method, with the structures of src/abi/fuse_abi_linux.rs that they take and answer with.
use fuse_backend_rs.Prelude.{ℕ, Bool, List, Option, ◌⊎◌}
use fuse_backend_rs.Prelude.Outcome.{Outcome}
use fuse_backend_rs.Fusedev.{IoError}
use fuse_backend_rs.Server.ReadDir.{Driver, ReadIn}
use fuse_backend_rs.Server.Wire.{Entry, Stat64, Duration}

-- `Context`: whom a call is made for.
pub record Context : Type 0 where
  pub uid : ℕ
  pub gid : ℕ
  pub pid : ℕ

pub record CreateIn : Type 0 where
  pub flags : ℕ
  pub mode : ℕ
  pub umask : ℕ
  pub fuse_flags : ℕ

pub record FileLock : Type 0 where
  pub start : ℕ
  pub end : ℕ
  pub type_ : ℕ
  pub pid : ℕ

-- The fields of a stat64 that `setattr` sets; the others are zero.
pub record SetattrStat : Type 0 where
  pub mode : ℕ
  pub uid : ℕ
  pub gid : ℕ
  pub size : ℕ
  pub atime : ℕ
  pub mtime : ℕ
  pub ctime : ℕ
  pub atime_nsec : ℕ
  pub mtime_nsec : ℕ
  pub ctime_nsec : ℕ

-- The fields of statvfs64 that are passed on.
pub record Statvfs64 : Type 0 where
  pub blocks : ℕ
  pub bfree : ℕ
  pub bavail : ℕ
  pub files : ℕ
  pub ffree : ℕ
  pub bsize : ℕ
  pub namemax : ℕ
  pub frsize : ℕ

-- What a file system puts into the writer of a read, and the count that it returns; it goes on from
-- the answer to each write (an error or the number of bytes written).
pub data Filler : Type 0 where
  ends : IoError ⊎ ℕ → Filler
  puts : List ℕ → (IoError ⊎ ℕ → Filler) → Filler

-- `GetxattrReply` and `ListxattrReply`
pub data XattrReply : Type 0 where
  value : List ℕ → XattrReply
  count : ℕ → XattrReply

pub record Opened : Type 0 where
  pub handle : Option ℕ
  pub opts : ℕ
  pub passthrough : Option ℕ

pub record IoctlReply : Type 0 where
  pub result : ℕ
  pub content : Option (List ℕ)

pub data Request : Type 0 where
  lookup : (parent : ℕ) (name : List ℕ) → Request
  forget : (inode nlookup : ℕ) → Request
  batch_forget : (requests : List (ℕ × ℕ)) → Request
  getattr : (inode : ℕ) (handle : Option ℕ) → Request
  setattr : (inode : ℕ) (attr : SetattrStat) (handle : Option ℕ) (valid : ℕ) → Request
  readlink : (inode : ℕ) → Request
  symlink : (linkname : List ℕ) (parent : ℕ) (name : List ℕ) → Request
  mknod : (parent : ℕ) (name : List ℕ) (mode rdev umask : ℕ) → Request
  mkdir : (parent : ℕ) (name : List ℕ) (mode umask : ℕ) → Request
  unlink rmdir : (parent : ℕ) (name : List ℕ) → Request
  rename : (olddir : ℕ) (oldname : List ℕ) (newdir : ℕ) (newname : List ℕ) (flags : ℕ) → Request
  link : (inode newparent : ℕ) (newname : List ℕ) → Request
  open_file : (inode flags fuse_flags : ℕ) → Request
  create : (parent : ℕ) (name : List ℕ) (args : CreateIn) → Request
  read : (inode handle size offset : ℕ) (lock_owner : Option ℕ) (flags : ℕ) → Request
  -- `payload` is what the reader that is handed over still holds.
  write :
      (inode handle : ℕ) (payload : List ℕ) (size offset : ℕ) (lock_owner : Option ℕ)
      (delayed_write : Bool) (flags fuse_flags : ℕ)
      → Request
  flush : (inode handle lock_owner : ℕ) → Request
  fsync fsyncdir : (inode : ℕ) (datasync : Bool) (handle : ℕ) → Request
  fallocate : (inode handle mode offset length : ℕ) → Request
  release : (inode flags handle : ℕ) (flush flock_release : Bool) (lock_owner : Option ℕ) → Request
  statfs : (inode : ℕ) → Request
  setxattr : (inode : ℕ) (name value : List ℕ) (flags : ℕ) → Request
  getxattr : (inode : ℕ) (name : List ℕ) (size : ℕ) → Request
  listxattr : (inode size : ℕ) → Request
  removexattr : (inode : ℕ) (name : List ℕ) → Request
  opendir : (inode flags : ℕ) → Request
  readdir : (inode : ℕ) (plus : Bool) (request : ReadIn) → Request
  releasedir : (inode flags handle : ℕ) → Request
  getlk setlk : (inode handle owner : ℕ) (lock : FileLock) (flags : ℕ) → Request
  access : (inode mask : ℕ) → Request
  bmap : (inode block blocksize : ℕ) → Request
  poll : (inode handle khandle flags events : ℕ) → Request
  ioctl : (inode handle flags cmd : ℕ) (content : Option (List ℕ)) (out_size : ℕ) → Request
  lseek : (inode handle offset whence : ℕ) → Request
  notify_reply destroy : Request

-- What the methods answer where they do not fail. A listing and a read answer with what they do to
-- the server's writer.
abbrev pub Answer : Request → Type 0
Answer (lookup _ _) = Entry
Answer (getattr _ _) = Stat64 × Duration
Answer (setattr _ _ _ _) = Stat64 × Duration
Answer (readlink _) = List ℕ
Answer (symlink _ _ _) = Entry
Answer (mknod _ _ _ _ _) = Entry
Answer (mkdir _ _ _ _) = Entry
Answer (link _ _ _) = Entry
Answer (open_file _ _ _) = Opened
Answer (create _ _ _) = Entry × Opened
Answer (read _ _ _ _ _ _) = Filler
Answer (write _ _ _ _ _ _ _ _ _) = ℕ
Answer (statfs _) = Statvfs64
Answer (getxattr _ _ _) = XattrReply
Answer (listxattr _ _) = XattrReply
Answer (opendir _ _) = Option ℕ × ℕ
Answer (readdir _ _ _) = Driver
Answer (getlk _ _ _ _ _) = FileLock
Answer (bmap _ _ _) = ℕ
Answer (poll _ _ _ _ _) = ℕ
Answer (ioctl _ _ _ _ _ _) = IoctlReply
Answer (lseek _ _ _ _) = ℕ
Answer _ = Unit {0}

-- A file system that defines the methods of the trait: its state, what its methods answer and do to
-- the state, its `init`, and its `id_remap`. The default methods are not modelled. A method does not
-- panic but for `init` and the listing of a directory, which is a Driver.
pub record FileSystem : Type 1 where
  pub State : Type 0
  pub serve : Context → (q : Request) → State → State × (IoError ⊎ Answer q)
  pub init : ℕ → State → State × Outcome IoError ℕ
  pub id_remap : State → Context → IoError ⊎ Context
