-- ===== src/Server/Handled/Files.antt =====
-- The handlers on open files: at most one call and one reply.
use fuse_backend_rs.Prelude.{ℕ, false, Bool-cases, inl, inr, List, [], ltb, Option, refl}
use fuse_backend_rs.Prelude.Outcome.{Outcome, ok, err, panic}
use fuse_backend_rs.Prelude.Run.{goes_on, ◌>>=◌}
use fuse_backend_rs.Prelude.Words.{field}
use fuse_backend_rs.Fusedev.{raw_os_error}
use fuse_backend_rs.Server.{decode_message}
use fuse_backend_rs.Server.Handlers.Files.{
  enotty, reply_opened, open_handler, reply_opendir, opendir_handler, flush_handler, fsync_handler,
  fsyncdir_handler, fallocate_handler, release_handler, releasedir_handler, reply_lock,
  getlk_handler, setlk_handler, setlkw_handler, reply_long, bmap_handler, lseek_handler,
  reply_polled, poll_handler, bytes_of, reply_ioctl, received_some, read_some, do_ioctl, with_input,
  ioctl_handler,
}
use fuse_backend_rs.Server.Init.{ServerVersion}
use fuse_backend_rs.Server.Once.{
  Ready, Replies, Serves, Once, begun, Serves-read_struct, Serves-ask, Replies-reply,
  Replies-reply_error, Replies-reply_nothing,
}
use fuse_backend_rs.Server.Outputs.{open_out, lk_out, long_out, word_out, ioctl_out}
use fuse_backend_rs.Server.Request.{FileLock, Opened, IoctlReply}
use fuse_backend_rs.Server.Session.{Env, Handler}
use fuse_backend_rs.Transport.{TransportError, IoBuffers, available_bytes}
use fuse_backend_rs.Transport

module _ (env : Env) (sent : List (List ℕ)) (memory : List ℕ) (ready : Ready env sent memory) where
  pub reply_opened-Replies :
      (opened : Opened) → Replies env sent memory false (reply_opened env opened)
  unfolding reply_opened
  reply_opened-Replies opened = Replies-reply env sent memory ready (open_out opened) []

  pub reply_opendir-Replies :
      (answer : Option ℕ × ℕ) → Replies env sent memory false (reply_opendir env answer)
  unfolding reply_opendir
  reply_opendir-Replies (handle, opts) = reply_opened-Replies _

  reply_lock-Replies : (l : FileLock) → Replies env sent memory false (reply_lock env l)
  unfolding reply_lock
  reply_lock-Replies l = Replies-reply env sent memory ready (lk_out l) []

  pub reply_long-Replies : (n : ℕ) → Replies env sent memory false (reply_long env n)
  unfolding reply_long
  reply_long-Replies n = Replies-reply env sent memory ready (long_out n) []

  reply_polled-Replies : (n : ℕ) → Replies env sent memory false (reply_polled env n)
  unfolding reply_polled
  reply_polled-Replies n = Replies-reply env sent memory ready (word_out n) []

  reply_ioctl-Replies : (res : IoctlReply) → Replies env sent memory false (reply_ioctl env res)
  unfolding reply_ioctl
  reply_ioctl-Replies res =
      Replies-reply env sent memory ready (ioctl_out res.result) (bytes_of env res.content)

  pub open-Serves : Serves env sent memory false (open_handler env)
  unfolding open_handler
  open-Serves =
      Serves-read_struct env sent memory 8 _
        λ open_in. Serves-ask env sent memory ready _ _ reply_opened-Replies

  pub opendir-Serves : Serves env sent memory false (opendir_handler env)
  unfolding opendir_handler
  opendir-Serves =
      Serves-read_struct env sent memory 8 _
        λ open_in. Serves-ask env sent memory ready _ _ reply_opendir-Replies

  pub flush-Serves : Serves env sent memory false (flush_handler env)
  unfolding flush_handler
  flush-Serves =
      Serves-read_struct env sent memory 24 _ λ flush_in.
        Serves-ask env sent memory ready _ _ (Replies-reply_nothing env sent memory ready)

  pub fsync-Serves : Serves env sent memory false (fsync_handler env)
  unfolding fsync_handler
  fsync-Serves =
      Serves-read_struct env sent memory 16 _ λ fsync_in.
        Serves-ask env sent memory ready _ _ (Replies-reply_nothing env sent memory ready)

  pub fsyncdir-Serves : Serves env sent memory false (fsyncdir_handler env)
  unfolding fsyncdir_handler
  fsyncdir-Serves =
      Serves-read_struct env sent memory 16 _ λ fsync_in.
        Serves-ask env sent memory ready _ _ (Replies-reply_nothing env sent memory ready)

  pub fallocate-Serves : Serves env sent memory false (fallocate_handler env)
  unfolding fallocate_handler
  fallocate-Serves = Serves-read_struct env sent memory 32 _ λ fallocate_in.
      Serves-ask env sent memory ready _ _ (Replies-reply_nothing env sent memory ready)

  pub release-Serves : Serves env sent memory false (release_handler env)
  unfolding release_handler
  release-Serves = Serves-read_struct env sent memory 24 _ λ release_in.
      Serves-ask env sent memory ready _ _ (Replies-reply_nothing env sent memory ready)

  pub releasedir-Serves : Serves env sent memory false (releasedir_handler env)
  unfolding releasedir_handler
  releasedir-Serves = Serves-read_struct env sent memory 24 _ λ release_in.
      Serves-ask env sent memory ready _ _ (Replies-reply_nothing env sent memory ready)

  pub getlk-Serves : Serves env sent memory false (getlk_handler env)
  unfolding getlk_handler
  getlk-Serves =
      Serves-read_struct env sent memory 48 _
        λ lk_in. Serves-ask env sent memory ready _ _ reply_lock-Replies

  pub setlk-Serves : Serves env sent memory false (setlk_handler env)
  unfolding setlk_handler
  setlk-Serves =
      Serves-read_struct env sent memory 48 _
        λ lk_in. Serves-ask env sent memory ready _ _ (Replies-reply_nothing env sent memory ready)

  pub setlkw-Serves : Serves env sent memory false (setlkw_handler env)
  unfolding setlkw_handler
  setlkw-Serves =
      Serves-read_struct env sent memory 48 _
        λ lk_in. Serves-ask env sent memory ready _ _ (Replies-reply_nothing env sent memory ready)

  pub bmap-Serves : Serves env sent memory false (bmap_handler env)
  unfolding bmap_handler
  bmap-Serves =
      Serves-read_struct env sent memory 16 _
        λ bmap_in. Serves-ask env sent memory ready _ _ reply_long-Replies

  pub lseek-Serves : Serves env sent memory false (lseek_handler env)
  unfolding lseek_handler
  lseek-Serves =
      Serves-read_struct env sent memory 24 _
        λ lseek_in. Serves-ask env sent memory ready _ _ reply_long-Replies

  pub poll-Serves : Serves env sent memory false (poll_handler env)
  unfolding poll_handler
  poll-Serves =
      Serves-read_struct env sent memory 24 _
        λ poll_in. Serves-ask env sent memory ready _ _ reply_polled-Replies

  received_some-Once :
      (k : Option (List ℕ) → Handler env ℕ) (vers : ServerVersion) (r : IoBuffers env.slices)
      (fs : env.system.State) (got : Outcome TransportError (IoBuffers env.slices × (ℕ × List ℕ)))
      → ((content : Option (List ℕ)) → Serves env sent memory false (k content))
      → Once env sent memory false fs
          (goes_on (received_some env (begun env sent memory vers r fs) got) k)
  received_some-Once k vers r fs panic rest = inl (refl, inl (refl, inr (inl refl)))
  received_some-Once k vers r fs (err e) rest =
      inl (refl, inl (refl, inl (decode_message (inl e), refl)))
  received_some-Once k vers r fs (ok (r', (n, bytes))) rest = (rest _).at vers r' fs

  Serves-read_some :
      (in_size : ℕ) (k : Option (List ℕ) → Handler env ℕ)
      → ((content : Option (List ℕ)) → Serves env sent memory false (k content))
      → Serves env sent memory false (read_some env in_size >>= k)
  unfolding read_some
  Serves-read_some in_size k rest = record {
    at = λ vers r fs. elim (Bool-cases (ltb 0 in_size)) [
      | inl t ↦ rw t (received_some-Once k vers r fs (Transport.read env.slices r in_size) rest)
      | inr f ↦ rw f ((rest _).at vers r fs)
    ];
  }

  do_ioctl-Serves : (ioctl_in : List ℕ) → Serves env sent memory false (do_ioctl env ioctl_in)
  do_ioctl-Serves ioctl_in =
      Serves-read_some (field 24 4 ioctl_in) _
        λ content. Serves-ask env sent memory ready _ _ reply_ioctl-Replies

  with_input-Serves : (ioctl_in : List ℕ) → Serves env sent memory false (with_input env ioctl_in)
  with_input-Serves ioctl_in = record {
    at = λ vers r fs. elim (Bool-cases (ltb (available_bytes env.slices r) (field 24 4 ioctl_in))) [
      | inl t ↦
          rw t
            (inl ((Replies-reply_error env sent memory ready (raw_os_error enotty)).at vers r fs))
      | inr f ↦ rw f ((do_ioctl-Serves ioctl_in).at vers r fs)
    ];
  }

  pub ioctl-Serves : Serves env sent memory false (ioctl_handler env)
  unfolding ioctl_handler
  ioctl-Serves = Serves-read_struct env sent memory 32 _ λ ioctl_in. with_input-Serves ioctl_in
