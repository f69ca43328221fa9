-- ===== src/Server/Handlers/Forgets.antt =====
-- The requests of src/api/server/sync_io.rs that are mostly not replied to, and `init`.
use fuse_backend_rs.Prelude.{
  ℕ, zero, suc, ◌-◌, ◌*◌, ◌+◌, Option, none, some, List, [], ◌∷◌, ltb, if◌then◌else◌,
}
use fuse_backend_rs.Prelude.Outcome.{Outcome, ok, err, panic}
use fuse_backend_rs.Prelude.Run.{result, ◌>>=◌, ◌>>◌}
use fuse_backend_rs.Prelude.Words.{field}
use fuse_backend_rs.Fusedev.{Dev, raw_os_error}
use fuse_backend_rs.Server.{Error, invalid_message}
use fuse_backend_rs.Server.Init.{ServerVersion}
use fuse_backend_rs.Server.Init
use fuse_backend_rs.Server.ReadDir.{eoverflow}
use fuse_backend_rs.Server.Request.{forget, batch_forget, notify_reply, destroy}
use fuse_backend_rs.Server.Session.{Env, Session, Handler, read_struct, reply_nothing, ask, tell}

-- `MAX_BUFFER_SIZE` on Linux and `BUFFER_HEADER_SIZE`
abbrev pub max_buffer_size : ℕ
max_buffer_size = 0x10_0000

abbrev pub buffer_header_size : ℕ
buffer_header_size = 0x1000

module _ (env : Env) where
  unfoldable pub forget_handler : Handler env ℕ
  forget_handler = do
    forget_in ← read_struct env 8
    tell env (forget env.header.nodeid (field 0 8 forget_in))

  -- `count` structures, each with an inode and how often it is forgotten.
  unfoldable pub read_forgets : ℕ → Handler env (List (ℕ × ℕ))
  read_forgets zero = result (ok [])
  read_forgets (suc count) = do
    one ← read_struct env 16
    requests ← read_forgets count
    result (ok ((field 0 8 one, field 8 8 one) ∷ requests))

  -- The size cannot overflow a usize.
  unfoldable pub forget_batch : ℕ → Handler env ℕ
  forget_batch count =
      if ltb (max_buffer_size + buffer_header_size - 8 - 40) (count * 16)
      then result (err (invalid_message (raw_os_error eoverflow)))
      else (do requests ← read_forgets count; tell env (batch_forget requests))

  unfoldable pub batch_forget_handler : Handler env ℕ
  batch_forget_handler = do
    batch_forget_in ← read_struct env 8
    forget_batch (field 0 4 batch_forget_in)

  unfoldable pub no_answer : Unit {0} → Handler env ℕ
  no_answer done = result (ok 0)

  unfoldable pub notify_reply_handler : Handler env ℕ
  notify_reply_handler = ask env notify_reply (no_answer)

  -- What the arm of the dispatch gives after `destroy`, which only logs that its reply failed.
  abbrev pub destroyed : Session env × Outcome Error ℕ → Session env × Outcome Error ℕ
  destroyed (s, ok n) = (s, ok 0)
  destroyed (s, err e) = (s, ok 0)
  destroyed (s, panic) = (s, panic)

  unfoldable pub destroy_handler : Handler env ℕ
  destroy_handler s = destroyed ((tell env destroy >> reply_nothing env tt) s)

  unfoldable pub interrupt_handler : Handler env ℕ
  interrupt_handler = result (ok 0)

  abbrev pub initiated :
      Session env
      → Option (ServerVersion × env.system.State × (Dev × Outcome Error ℕ))
      → Session env × Outcome Error ℕ
  initiated s none = (s, panic)
  initiated s (some (vers, fs, (d, o))) = (record s { vers = vers; fs = fs; dev = d }, o)

  unfoldable pub init_handler : ℕ → ℕ → Handler env ℕ
  init_handler fs_options page s = initiated s (
      Init.init fs_options page env.system.init env.device env.header.unique env.slices s.vers
        s.reader s.fs s.dev)
