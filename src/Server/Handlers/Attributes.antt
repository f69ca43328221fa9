-- ===== src/Server/Handlers/Attributes.antt =====
-- The requests of src/api/server/sync_io.rs on attributes and extended attributes of an inode.
use fuse_backend_rs.Prelude.{
  ℕ, ◌^◌, ◌%◌, Option, none, some, List, [], ◌∷◌, ◌++◌, ◌==◌, length, if◌then◌else◌, bit_and,
}
use fuse_backend_rs.Prelude.Outcome.{err}
use fuse_backend_rs.Prelude.Run.{result, ◌>>=◌}
use fuse_backend_rs.Prelude.Words.{field}
use fuse_backend_rs.Server.{missing_parameter, invalid_xattr_size, at_zero}
use fuse_backend_rs.Server.Handlers.Files.{any_of, when}
use fuse_backend_rs.Server.Outputs.{kstatfs, word_out}
use fuse_backend_rs.Server.Request.{
  SetattrStat, Statvfs64, XattrReply, value, count, getattr, setattr, readlink, statfs, setxattr,
  getxattr, listxattr, removexattr, access,
}
use fuse_backend_rs.Server.Session.{
  Env, Handler, read_struct, message_body, c_string, reply, reply_nothing, reply_attr, ask,
}

-- The bits that SetattrValid names.
abbrev pub setattr_valid : ℕ
setattr_valid = 0xdbf

-- `stat64::from(setattr_in)`
abbrev pub setattr_stat : List ℕ → SetattrStat
setattr_stat b = record {
  mode = field 68 4 b;
  uid = field 76 4 b;
  gid = field 80 4 b;
  size = field 16 8 b;
  atime = field 32 8 b;
  mtime = field 40 8 b;
  ctime = field 48 8 b;
  atime_nsec = field 56 4 b;
  mtime_nsec = field 60 4 b;
  ctime_nsec = field 64 4 b;
}

module _ (env : Env) where
  unfoldable pub getattr_handler : Handler env ℕ
  getattr_handler = do
    getattr_in ← read_struct env 16
    let handle = when (any_of (field 0 4 getattr_in) 1) (field 8 8 getattr_in)
    ask env (getattr env.header.nodeid handle) (reply_attr env)

  unfoldable pub setattr_handler : Handler env ℕ
  setattr_handler = do
    setattr_in ← read_struct env 88
    let handle = when (any_of (field 0 4 setattr_in) 0x40) (field 8 8 setattr_in)
    let valid = bit_and (field 0 4 setattr_in) setattr_valid
    ask env (setattr env.header.nodeid (setattr_stat setattr_in) handle valid) (reply_attr env)

  unfoldable pub reply_bytes : List ℕ → Handler env ℕ
  reply_bytes bytes = reply env [] bytes

  unfoldable pub readlink_handler : Handler env ℕ
  readlink_handler = ask env (readlink env.header.nodeid) (reply_bytes)

  unfoldable pub reply_statfs : Statvfs64 → Handler env ℕ
  reply_statfs st = reply env (kstatfs st) []

  unfoldable pub statfs_handler : Handler env ℕ
  statfs_handler = ask env (statfs env.header.nodeid) (reply_statfs)

  -- The name with its closing zero, and the value behind it.
  abbrev pub set_value : ℕ → ℕ → Option (List ℕ × List ℕ) → Handler env ℕ
  set_value size flags none = result (err missing_parameter)
  set_value size flags (some (before, behind)) =
      if size == length behind % 2 ^ 32
      then (do
        name ← c_string env (before ++ 0 ∷ [])
        ask env (setxattr env.header.nodeid name behind flags) (reply_nothing env))
      else result (err (invalid_xattr_size size (length behind)))

  unfoldable pub setxattr_handler : Handler env ℕ
  setxattr_handler = do
    setxattr_in ← read_struct env 8
    buf ← message_body env 8
    set_value (field 0 4 setxattr_in) (field 4 4 setxattr_in) (at_zero buf)

  unfoldable pub reply_xattr : XattrReply → Handler env ℕ
  reply_xattr (value val) = reply env [] val
  reply_xattr (count n) = reply env (word_out n) []

  unfoldable pub getxattr_handler : Handler env ℕ
  getxattr_handler = do
    getxattr_in ← read_struct env 8
    buf ← message_body env 8
    name ← c_string env buf
    ask env (getxattr env.header.nodeid name (field 0 4 getxattr_in)) (reply_xattr)

  unfoldable pub listxattr_handler : Handler env ℕ
  listxattr_handler = do
    getxattr_in ← read_struct env 8
    ask env (listxattr env.header.nodeid (field 0 4 getxattr_in)) (reply_xattr)

  unfoldable pub removexattr_handler : Handler env ℕ
  removexattr_handler = do
    buf ← message_body env 0
    name ← c_string env buf
    ask env (removexattr env.header.nodeid name) (reply_nothing env)

  unfoldable pub access_handler : Handler env ℕ
  access_handler = do
    access_in ← read_struct env 8
    ask env (access env.header.nodeid (field 0 4 access_in)) (reply_nothing env)
