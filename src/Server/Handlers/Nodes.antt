-- ===== src/Server/Handlers/Nodes.antt =====
-- The requests of src/api/server/sync_io.rs that look up, make, move and remove names.
use fuse_backend_rs.Prelude.{ℕ, ◌&&◌, List, [], ◌==◌, ltb, if◌then◌else◌, bit_and}
use fuse_backend_rs.Prelude.Run.{result, ◌>>=◌}
use fuse_backend_rs.Prelude.Words.{field}
use fuse_backend_rs.Fusedev.{raw_os_error}
use fuse_backend_rs.Server.{extract_two_cstrs}
use fuse_backend_rs.Server.Outputs.{created_out, open_out}
use fuse_backend_rs.Server.Request.{
  CreateIn, Opened, lookup, symlink, mknod, mkdir, unlink, rmdir, rename, link, create,
}
use fuse_backend_rs.Server.Session.{
  Env, Handler, read_struct, message_body, c_string, reply, reply_error, reply_nothing, ask,
}
use fuse_backend_rs.Server.Wire.{Entry, entry_out}

abbrev pub enoent : ℕ
enoent = 2

-- `KERNEL_MINOR_VERSION_LOOKUP_NEGATIVE_ENTRY_ZERO`
abbrev pub negative_entry_zero : ℕ
negative_entry_zero = 4

-- `RENAME_EXCHANGE | RENAME_NOREPLACE | RENAME_WHITEOUT`
abbrev pub rename_flags : ℕ
rename_flags = 7

module _ (env : Env) where
  -- A reply with an entry.
  unfoldable pub reply_entry : Entry → Handler env ℕ
  reply_entry entry = reply env (entry_out entry) []

  -- Before version 7.4 of the protocol there is no entry with inode 0.
  unfoldable pub reply_lookup : Entry → Handler env ℕ
  reply_lookup entry s =
      if ltb s.vers.minor negative_entry_zero && (entry.inode == 0)
      then reply_error env (raw_os_error enoent) s
      else reply env (entry_out entry) [] s

  unfoldable pub lookup_handler : Handler env ℕ
  lookup_handler = do
    buf ← message_body env 0
    name ← c_string env buf
    ask env (lookup env.header.nodeid name) (reply_lookup)

  unfoldable pub symlink_handler : Handler env ℕ
  symlink_handler = do
    buf ← message_body env 0
    (name, linkname) ← result (extract_two_cstrs buf)
    ask env (symlink linkname env.header.nodeid name) (reply_entry)

  unfoldable pub mknod_handler : Handler env ℕ
  mknod_handler = do
    mknod_in ← read_struct env 16
    buf ← message_body env 16
    name ← c_string env buf
    ask env
        (mknod env.header.nodeid name (field 0 4 mknod_in) (field 4 4 mknod_in)
          (field 8 4 mknod_in))
        (reply_entry)

  unfoldable pub mkdir_handler : Handler env ℕ
  mkdir_handler = do
    mkdir_in ← read_struct env 8
    buf ← message_body env 8
    name ← c_string env buf
    ask env (mkdir env.header.nodeid name (field 0 4 mkdir_in) (field 4 4 mkdir_in)) (reply_entry)

  unfoldable pub unlink_handler : Handler env ℕ
  unlink_handler = do
    buf ← message_body env 0
    name ← c_string env buf
    ask env (unlink env.header.nodeid name) (reply_nothing env)

  unfoldable pub rmdir_handler : Handler env ℕ
  rmdir_handler = do
    buf ← message_body env 0
    name ← c_string env buf
    ask env (rmdir env.header.nodeid name) (reply_nothing env)

  unfoldable pub do_rename : ℕ → ℕ → ℕ → Handler env ℕ
  do_rename msg_size newdir flags = do
    buf ← message_body env msg_size
    (oldname, newname) ← result (extract_two_cstrs buf)
    ask env (rename env.header.nodeid oldname newdir newname flags) (reply_nothing env)

  unfoldable pub rename_handler : Handler env ℕ
  rename_handler = do rename_in ← read_struct env 8; do_rename 8 (field 0 8 rename_in) 0

  unfoldable pub rename2_handler : Handler env ℕ
  rename2_handler = do
    rename_in ← read_struct env 16
    do_rename 16 (field 0 8 rename_in) (bit_and (field 8 4 rename_in) rename_flags)

  unfoldable pub link_handler : Handler env ℕ
  link_handler = do
    link_in ← read_struct env 8
    buf ← message_body env 8
    name ← c_string env buf
    ask env (link (field 0 8 link_in) env.header.nodeid name) (reply_entry)

  -- The entry, and behind it what belongs to the open file.
  unfoldable pub reply_created : Entry × Opened → Handler env ℕ
  reply_created (entry, opened) = reply env (created_out entry) (open_out opened)

  abbrev pub create_in_from : List ℕ → CreateIn
  create_in_from b = record {
    flags = field 0 4 b;
    mode = field 4 4 b;
    umask = field 8 4 b;
    fuse_flags = field 12 4 b;
  }

  unfoldable pub create_handler : Handler env ℕ
  create_handler = do
    args ← read_struct env 16
    buf ← message_body env 16
    name ← c_string env buf
    ask env (create env.header.nodeid name (create_in_from args)) (reply_created)
