-- ===== src/Server/Dispatch.antt =====
-- `handle_message` of src/api/server/sync_io.rs, on Linux with the FUSE device.
use fuse_backend_rs.Prelude.{
  ℕ, ◌+◌, ◌||◌, Bool, true, false, Option, none, some, List, [], ◌∷◌, ◌==◌, ltb, if◌then◌else◌, ◌⊎◌,
  inl, inr,
}
use fuse_backend_rs.Prelude.Outcome.{Outcome, ok, err, panic}
use fuse_backend_rs.Fusedev.{Dev, IoError, raw_os_error}
use fuse_backend_rs.Server.{Error, decode_message, invalid_message, failed_to_remap_id}
use fuse_backend_rs.Server.Handlers.Attributes.{
  getattr_handler, setattr_handler, readlink_handler, statfs_handler, setxattr_handler,
  getxattr_handler, listxattr_handler, removexattr_handler, access_handler,
}
use fuse_backend_rs.Server.Handlers.Files.{
  open_handler, opendir_handler, flush_handler, fsync_handler, fsyncdir_handler, fallocate_handler,
  release_handler, releasedir_handler, getlk_handler, setlk_handler, setlkw_handler, bmap_handler,
  lseek_handler, poll_handler, ioctl_handler,
}
use fuse_backend_rs.Server.Handlers.Forgets.{
  forget_handler, batch_forget_handler, notify_reply_handler, destroy_handler, interrupt_handler,
  init_handler, max_buffer_size, buffer_header_size,
}
use fuse_backend_rs.Server.Handlers.Nodes.{
  lookup_handler, symlink_handler, mknod_handler, mkdir_handler, unlink_handler, rmdir_handler,
  rename_handler, rename2_handler, link_handler, create_handler,
}
use fuse_backend_rs.Server.Handlers.Transfer.{read_handler, write_handler, readdir_handler}
use fuse_backend_rs.Server.Init.{ServerVersion}
use fuse_backend_rs.Server.ReadDir.{eoverflow, enomem}
use fuse_backend_rs.Server.Request.{Context, FileSystem}
use fuse_backend_rs.Server.Session.{
  InHeader, in_header_from, context_from, Env, Session, Handler, reply_error,
}
use fuse_backend_rs.Transport.{TransportError, IoBuffers, read_obj}
use fuse_backend_rs.Transport.Volatile.{VolatileSlices}

abbrev pub enosys : ℕ
enosys = 38

module _ (fs_options page : ℕ) (env : Env) where
  -- The arms of the match, by the numbers of `Opcode`.
  abbrev pub arms : List (ℕ × Handler env ℕ)
  arms =
      (1, lookup_handler env)
      ∷ (2, forget_handler env)
      ∷ (3, getattr_handler env)
      ∷ (4, setattr_handler env)
      ∷ (5, readlink_handler env)
      ∷ (6, symlink_handler env)
      ∷ (8, mknod_handler env)
      ∷ (9, mkdir_handler env)
      ∷ (10, unlink_handler env)
      ∷ (11, rmdir_handler env)
      ∷ (12, rename_handler env)
      ∷ (13, link_handler env)
      ∷ (14, open_handler env)
      ∷ (15, read_handler env)
      ∷ (16, write_handler env)
      ∷ (17, statfs_handler env)
      ∷ (18, release_handler env)
      ∷ (20, fsync_handler env)
      ∷ (21, setxattr_handler env)
      ∷ (22, getxattr_handler env)
      ∷ (23, listxattr_handler env)
      ∷ (24, removexattr_handler env)
      ∷ (25, flush_handler env)
      ∷ (26, init_handler env fs_options page)
      ∷ (27, opendir_handler env)
      ∷ (28, readdir_handler env false)
      ∷ (29, releasedir_handler env)
      ∷ (30, fsyncdir_handler env)
      ∷ (31, getlk_handler env)
      ∷ (32, setlk_handler env)
      ∷ (33, setlkw_handler env)
      ∷ (34, access_handler env)
      ∷ (35, create_handler env)
      ∷ (37, bmap_handler env)
      ∷ (39, ioctl_handler env)
      ∷ (40, poll_handler env)
      ∷ (41, notify_reply_handler env)
      ∷ (42, batch_forget_handler env)
      ∷ (43, fallocate_handler env)
      ∷ (44, readdir_handler env true)
      ∷ (45, rename2_handler env)
      ∷ (46, lseek_handler env)
      ∷ (36, interrupt_handler env)
      ∷ (38, destroy_handler env)
      ∷ []

  -- The first arm whose number it is.
  unfoldable pub arm_for : ℕ → List (ℕ × Handler env ℕ) → Option (Handler env ℕ)
  arm_for opcode [] = none
  arm_for opcode ((code, handler) ∷ rest) =
      if opcode == code then some handler else arm_for opcode rest

  abbrev pub run_arm : Option (Handler env ℕ) → Handler env ℕ
  run_arm none s = reply_error env (raw_os_error enosys) s
  run_arm (some handler) s = handler s

  unfoldable pub serve_opcode : Handler env ℕ
  serve_opcode = run_arm (arm_for env.header.opcode arms)

  abbrev pub is_forget : ℕ → Bool
  is_forget opcode = (opcode == 2) || (opcode == 42)

  -- What is too large is not looked at; forgets are not replied to.
  unfoldable pub handle_request : Handler env ℕ
  handle_request s =
      if ltb (max_buffer_size + buffer_header_size) env.header.len
      then (if is_forget env.header.opcode
          then (s, err (invalid_message (raw_os_error eoverflow)))
          else reply_error env (raw_os_error enomem) s)
      else serve_opcode s

-- What outlasts a request: the version that the server keeps, the device, and the file system.
pub record Served (system : FileSystem) : Type 0 where
  pub vers : ServerVersion
  pub dev : Dev
  pub fs : system.State

module _ (fs_options page : ℕ) (slices : VolatileSlices) (system : FileSystem)
    (device : List (List ℕ) → List ℕ → ℕ ⊎ ℕ) where
  abbrev pub env_of : InHeader → Context → Env
  env_of header context = record {
    slices = slices;
    system = system;
    device = device;
    header = header;
    context = context;
  }

  abbrev pub served_by :
      (header : InHeader) (context : Context)
      → Session (env_of header context) × Outcome Error ℕ
      → Served system × Outcome Error ℕ
  served_by header context (s, o) = (record { vers = s.vers; dev = s.dev; fs = s.fs }, o)

  abbrev pub remapped :
      Served system
      → IoBuffers slices
      → InHeader
      → IoError ⊎ Context
      → Served system × Outcome Error ℕ
  remapped s r header (inl e) = (s, err (failed_to_remap_id header.uid header.gid))
  remapped s r header (inr context) = served_by header context (
      handle_request fs_options page (env_of header context)
        (record { vers = s.vers; reader = r; dev = s.dev; fs = s.fs }))

  abbrev pub with_header :
      Served system
      → Option (Outcome TransportError (IoBuffers slices × List ℕ))
      → Served system × Outcome Error ℕ
  with_header s none = (s, panic)
  with_header s (some panic) = (s, panic)
  with_header s (some (err e)) = (s, err (decode_message (inl e)))
  with_header s (some (ok (r, bytes))) =
      remapped s r (in_header_from bytes)
        (system.id_remap s.fs (context_from (in_header_from bytes)))

  -- The metrics hook only looks on.
  unfoldable pub handle_message : Served system → IoBuffers slices → Served system × Outcome Error ℕ
  handle_message s r = with_header s (read_obj slices r 40)
