-- ===== src/Server/Handlers/Files.antt =====
-- The requests of src/api/server/sync_io.rs on open files and directories, but for the data.
use fuse_backend_rs.Prelude.{
  ℕ, ◌||◌, not, Bool, Option, none, some, List, [], ◌∷◌, ◌==◌, ltb, if◌then◌else◌, bit_and,
}
use fuse_backend_rs.Prelude.Outcome.{Outcome, ok, err, panic}
use fuse_backend_rs.Prelude.Run.{◌>>=◌}
use fuse_backend_rs.Prelude.Words.{field}
use fuse_backend_rs.Fusedev.{raw_os_error}
use fuse_backend_rs.Server.{Error, decode_message}
use fuse_backend_rs.Server.Outputs.{open_out, lk_out, long_out, word_out, ioctl_out}
use fuse_backend_rs.Server.Request.{
  FileLock, Opened, IoctlReply, open_file, opendir, flush, fsync, fsyncdir, fallocate, release,
  releasedir, getlk, setlk, bmap, poll, ioctl, lseek,
}
use fuse_backend_rs.Server.Session.{
  Env, Session, Handler, read_struct, reply, reply_error, reply_nothing, ask,
}
use fuse_backend_rs.Transport.{TransportError, IoBuffers, available_bytes}
use fuse_backend_rs.Transport
use mathlib.Core.Logic.{inl}

abbrev pub enotty : ℕ
enotty = 25

-- `flags & mask != 0`
abbrev pub any_of : ℕ → ℕ → Bool
any_of flags mask = not (bit_and flags mask == 0)

abbrev pub when : Bool → ℕ → Option ℕ
when test value = if test then some value else none

module _ (env : Env) where
  unfoldable pub reply_opened : Opened → Handler env ℕ
  reply_opened opened = reply env (open_out opened) []

  unfoldable pub open_handler : Handler env ℕ
  open_handler = do
    open_in ← read_struct env 8
    ask env (open_file env.header.nodeid (field 0 4 open_in) (field 4 4 open_in)) (reply_opened)

  unfoldable pub reply_opendir : Option ℕ × ℕ → Handler env ℕ
  reply_opendir (handle, opts) =
      reply_opened (record { handle = handle; opts = opts; passthrough = none })

  unfoldable pub opendir_handler : Handler env ℕ
  opendir_handler = do
    open_in ← read_struct env 8
    ask env (opendir env.header.nodeid (field 0 4 open_in)) (reply_opendir)

  unfoldable pub flush_handler : Handler env ℕ
  flush_handler = do
    flush_in ← read_struct env 24
    ask env (flush env.header.nodeid (field 0 8 flush_in) (field 16 8 flush_in)) (reply_nothing env)

  unfoldable pub fsync_handler : Handler env ℕ
  fsync_handler = do
    fsync_in ← read_struct env 16
    ask env (fsync env.header.nodeid (any_of (field 8 4 fsync_in) 1) (field 0 8 fsync_in))
        (reply_nothing env)

  unfoldable pub fsyncdir_handler : Handler env ℕ
  fsyncdir_handler = do
    fsync_in ← read_struct env 16
    ask env (fsyncdir env.header.nodeid (any_of (field 8 4 fsync_in) 1) (field 0 8 fsync_in))
        (reply_nothing env)

  unfoldable pub fallocate_handler : Handler env ℕ
  fallocate_handler = do
    fallocate_in ← read_struct env 32
    ask env
        (fallocate env.header.nodeid (field 0 8 fallocate_in) (field 24 4 fallocate_in)
          (field 8 8 fallocate_in) (field 16 8 fallocate_in))
        (reply_nothing env)

  -- The lock's owner counts where there is something to flush or to unlock.
  unfoldable pub release_handler : Handler env ℕ
  release_handler = do
    release_in ← read_struct env 24
    let flushed = any_of (field 12 4 release_in) 1
    let flock_release = any_of (field 12 4 release_in) 2
    ask env
        (release env.header.nodeid (field 8 4 release_in) (field 0 8 release_in) flushed
          flock_release (when (flushed || flock_release) (field 16 8 release_in)))
        (reply_nothing env)

  unfoldable pub releasedir_handler : Handler env ℕ
  releasedir_handler = do
    release_in ← read_struct env 24
    ask env (releasedir env.header.nodeid (field 8 4 release_in) (field 0 8 release_in))
        (reply_nothing env)

  abbrev pub lock_from : List ℕ → FileLock
  lock_from b = record {
    start = field 16 8 b;
    end = field 24 8 b;
    type_ = field 32 4 b;
    pid = field 36 4 b;
  }

  unfoldable pub reply_lock : FileLock → Handler env ℕ
  reply_lock l = reply env (lk_out l) []

  unfoldable pub getlk_handler : Handler env ℕ
  getlk_handler = do
    lk_in ← read_struct env 48
    ask env
        (getlk env.header.nodeid (field 0 8 lk_in) (field 8 8 lk_in) (lock_from lk_in)
          (field 40 4 lk_in))
        (reply_lock)

  unfoldable pub setlk_handler : Handler env ℕ
  setlk_handler = do
    lk_in ← read_struct env 48
    ask env
        (setlk env.header.nodeid (field 0 8 lk_in) (field 8 8 lk_in) (lock_from lk_in)
          (field 40 4 lk_in))
        (reply_nothing env)

  -- It calls `setlk`, too.
  unfoldable pub setlkw_handler : Handler env ℕ
  setlkw_handler = do
    lk_in ← read_struct env 48
    ask env
        (setlk env.header.nodeid (field 0 8 lk_in) (field 8 8 lk_in) (lock_from lk_in)
          (field 40 4 lk_in))
        (reply_nothing env)

  unfoldable pub reply_long : ℕ → Handler env ℕ
  reply_long n = reply env (long_out n) []

  unfoldable pub bmap_handler : Handler env ℕ
  bmap_handler = do
    bmap_in ← read_struct env 16
    ask env (bmap env.header.nodeid (field 0 8 bmap_in) (field 8 4 bmap_in)) (reply_long)

  unfoldable pub lseek_handler : Handler env ℕ
  lseek_handler = do
    lseek_in ← read_struct env 24
    ask env
        (lseek env.header.nodeid (field 0 8 lseek_in) (field 8 8 lseek_in) (field 16 4 lseek_in))
        (reply_long)

  unfoldable pub reply_polled : ℕ → Handler env ℕ
  reply_polled revents = reply env (word_out revents) []

  unfoldable pub poll_handler : Handler env ℕ
  poll_handler = do
    poll_in ← read_struct env 24
    ask env
        (poll env.header.nodeid (field 0 8 poll_in) (field 8 8 poll_in) (field 16 4 poll_in)
          (field 20 4 poll_in))
        (reply_polled)

  abbrev pub bytes_of : Option (List ℕ) → List ℕ
  bytes_of none = []
  bytes_of (some bytes) = bytes

  unfoldable pub reply_ioctl : IoctlReply → Handler env ℕ
  reply_ioctl res = reply env (ioctl_out res.result) (bytes_of res.content)

  -- `None` if there is nothing.
  abbrev pub some_bytes : List ℕ → Option (List ℕ)
  some_bytes [] = none
  some_bytes (b ∷ bytes) = some (b ∷ bytes)

  -- `ctx.r.read(&mut data).map_err(Error::DecodeMessage)?`
  abbrev pub received_some :
      Session env
      → Outcome TransportError (IoBuffers env.slices × (ℕ × List ℕ))
      → Session env × Outcome Error (Option (List ℕ))
  received_some s panic = (s, panic)
  received_some s (err e) = (s, err (decode_message (inl e)))
  received_some s (ok (r, (n, bytes))) = (record s { reader = r }, ok (some_bytes bytes))

  unfoldable pub read_some : ℕ → Handler env (Option (List ℕ))
  read_some in_size s =
      if ltb 0 in_size
      then received_some s (Transport.read env.slices s.reader in_size)
      else (s, ok none)

  abbrev pub do_ioctl : List ℕ → Handler env ℕ
  do_ioctl ioctl_in = do
    content ← read_some (field 24 4 ioctl_in)
    ask env
        (ioctl env.header.nodeid (field 0 8 ioctl_in) (field 8 4 ioctl_in) (field 12 4 ioctl_in)
          content (field 28 4 ioctl_in))
        (reply_ioctl)

  abbrev pub with_input : List ℕ → Handler env ℕ
  with_input ioctl_in s =
      if ltb (available_bytes env.slices s.reader) (field 24 4 ioctl_in)
      then reply_error env (raw_os_error enotty) s
      else do_ioctl ioctl_in s

  unfoldable pub ioctl_handler : Handler env ℕ
  ioctl_handler = do ioctl_in ← read_struct env 32; with_input ioctl_in
