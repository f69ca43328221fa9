-- ===== src/Server/Session.antt =====
-- `SrvContext` of src/api/server/mod.rs: a request under way, and the steps that its handlers share.
use fuse_backend_rs.Prelude.{ℕ, Option, none, some, List, [], ◌⊎◌, inl, inr}
use fuse_backend_rs.Prelude.Outcome.{Outcome, ok, err, panic}
use fuse_backend_rs.Prelude.Run.{Run}
use fuse_backend_rs.Prelude.Words.{field}
use fuse_backend_rs.Fusedev.{Dev, IoError, raw_os_error}
use fuse_backend_rs.Server.{Error, decode_message, einval, bytes_to_cstr, get_message_body}
use fuse_backend_rs.Server.Init.{ServerVersion}
use fuse_backend_rs.Server.Outputs.{attr_out}
use fuse_backend_rs.Server.Reply.{reply_ok, do_reply_error}
use fuse_backend_rs.Server.Request.{Context, Request, Answer, FileSystem}
use fuse_backend_rs.Server.Wire.{Stat64, Duration}
use fuse_backend_rs.Transport.{IoBuffers, TransportError, read_obj}
use fuse_backend_rs.Transport.Volatile.{VolatileSlices}

pub record InHeader : Type 0 where
  pub len : ℕ
  pub opcode : ℕ
  pub unique : ℕ
  pub nodeid : ℕ
  pub uid : ℕ
  pub gid : ℕ
  pub pid : ℕ

unfoldable pub in_header_from : List ℕ → InHeader
in_header_from b = record {
  len = field 0 4 b;
  opcode = field 4 4 b;
  unique = field 8 8 b;
  nodeid = field 16 8 b;
  uid = field 24 4 b;
  gid = field 28 4 b;
  pid = field 32 4 b;
}

-- `Context::from(&in_header)`
abbrev pub context_from : InHeader → Context
context_from h = record { uid = h.uid; gid = h.gid; pid = h.pid }

-- What the handlers of one request stand on: the slices of the reader's memory, the file system, the
-- device (what it answers to a message after those that it was given), the request's header and
-- whom it is served for.
pub record Env : Type 1 where
  pub slices : VolatileSlices
  pub system : FileSystem
  pub device : List (List ℕ) → List ℕ → ℕ ⊎ ℕ
  pub header : InHeader
  pub context : Context

module _ (env : Env) where
  -- The reader and the writer of the request, the version that the server keeps, and the file
  -- system's state.
  pub record Session : Type 0 where
    pub vers : ServerVersion
    pub reader : IoBuffers env.slices
    pub dev : Dev
    pub fs : env.system.State

  abbrev pub Handler : Type 0 → Type 0
  Handler A = Run Session Error A

  -- The answer of the reader, which is left where it was after an error; `none` is for fuel that ran
  -- out.
  abbrev pub received :
      Session
      → Option (Outcome Error (IoBuffers env.slices × List ℕ))
      → Session × Outcome Error (List ℕ)
  received s none = (s, panic)
  received s (some panic) = (s, panic)
  received s (some (err e)) = (s, err e)
  received s (some (ok (r, bytes))) = (record s { reader = r }, ok bytes)

  abbrev pub decode_error :
      Option (Outcome TransportError (IoBuffers env.slices × List ℕ))
      → Option (Outcome Error (IoBuffers env.slices × List ℕ))
  decode_error none = none
  decode_error (some panic) = some panic
  decode_error (some (err e)) = some (err (decode_message (inl e)))
  decode_error (some (ok got)) = some (ok got)

  -- `ctx.r.read_obj().map_err(Error::DecodeMessage)?` of a structure of `size` bytes.
  unfoldable pub read_struct : ℕ → Handler (List ℕ)
  read_struct size s = received s (decode_error (read_obj env.slices s.reader size))

  unfoldable pub message_body : ℕ → Handler (List ℕ)
  message_body sub_hdr_sz s =
      received s (get_message_body env.slices s.reader env.header.len sub_hdr_sz)

  -- What is done to the writer.
  abbrev pub on_device : {A : Type 0} → Session → Dev × Outcome Error A → Session × Outcome Error A
  on_device s (d, o) = (record s { dev = d }, o)

  unfoldable pub reply : List ℕ → List ℕ → Handler ℕ
  reply out more s = on_device s (reply_ok env.device env.header.unique out more s.dev)

  unfoldable pub reply_error : IoError → Handler ℕ
  reply_error e s = on_device s (do_reply_error env.device env.header.unique e s.dev)

  -- A name that is no CStr is answered with EINVAL, whatever becomes of that reply, and ends the
  -- request.
  abbrev pub refused : {A : Type 0} → Error → Session × Outcome Error ℕ → Session × Outcome Error A
  refused e (s, ok n) = (s, err e)
  refused e (s, err e') = (s, err e)
  refused e (s, panic) = (s, panic)

  abbrev pub named : Outcome Error (List ℕ) → Handler (List ℕ)
  named (ok name) s = (s, ok name)
  named (err e) s = refused e (reply_error (raw_os_error einval) s)
  named panic s = (s, panic)

  unfoldable pub c_string : List ℕ → Handler (List ℕ)
  c_string buf = named (bytes_to_cstr buf)

  -- `match self.fs.f(..) { Ok(answer) => then_reply, Err(e) => ctx.reply_error(e) }`
  abbrev pub answered :
      {A : Type 0}
      → Session
      → (A → Handler ℕ)
      → env.system.State × (IoError ⊎ A)
      → Session × Outcome Error ℕ
  answered s then_reply (fs, inl e) = reply_error e (record s { fs = fs })
  answered s then_reply (fs, inr a) = then_reply a (record s { fs = fs })

  unfoldable pub ask : (q : Request) → (Answer q → Handler ℕ) → Handler ℕ
  ask q then_reply s = answered s then_reply (env.system.serve env.context q s.fs)

  -- The reply to a method that answers nothing.
  unfoldable pub reply_nothing : Unit {0} → Handler ℕ
  reply_nothing done = reply [] []

  -- `handle_attr_result`, where there are attributes.
  unfoldable pub reply_attr : Stat64 × Duration → Handler ℕ
  reply_attr (st, timeout) = reply (attr_out st timeout) []

  -- Methods whose answer is not replied to.
  abbrev pub no_reply :
      {A : Type 0} → Session → env.system.State × (IoError ⊎ A) → Session × Outcome Error ℕ
  no_reply s (fs, answer) = (record s { fs = fs }, ok 0)

  unfoldable pub tell : Request → Handler ℕ
  tell q s = no_reply s (env.system.serve env.context q s.fs)
