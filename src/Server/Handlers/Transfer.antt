-- ===== src/Server/Handlers/Transfer.antt =====
-- `read`, `write` and the listings of src/api/server/sync_io.rs, where the file system works on the
-- server's writer or reader.
use fuse_backend_rs.Prelude.{
  ℕ, ◌+◌, ◌^◌, ◌%◌, Bool, some, List, [], ltb, if◌then◌else◌, ◌⊎◌, inl, inr,
}
use fuse_backend_rs.Prelude.Outcome.{Outcome, ok, err, panic}
use fuse_backend_rs.Prelude.Run.{Run, result, map_err, ◌>>=◌, ◌>>◌}
use fuse_backend_rs.Prelude.Words.{field}
use fuse_backend_rs.Fusedev.{
  Dev, FuseDevWriter, IoError, raw_os_error, writer_available, split_writer, write_all, commit,
}
use fuse_backend_rs.Fusedev
use fuse_backend_rs.Server.{Error, encode_message, invalid_header_length}
use fuse_backend_rs.Server.Handlers.Files.{any_of, when}
use fuse_backend_rs.Server.Outputs.{word_out}
use fuse_backend_rs.Server.ReadDir.{ReadIn, Driver, finish, enomem, drive, finish_listing}
use fuse_backend_rs.Server.Reply.{do_reply_error}
use fuse_backend_rs.Server.Request.{Filler, ends, puts, read, write, readdir}
use fuse_backend_rs.Server.Session.{
  Env, Session, Handler, read_struct, on_device, reply, reply_error, ask,
}
use fuse_backend_rs.Server.Wire.{out_header, out_header_size}
use fuse_backend_rs.Transport.{TransportError}
use fuse_backend_rs.Transport.Stream.{content}

module _ (device : List (List ℕ) → List ℕ → ℕ ⊎ ℕ) where
  -- What the file system does after the answer to a write into the split writer.
  abbrev pub put_answer :
      (IoError ⊎ ℕ → Run Dev IoError ℕ) → Dev × Outcome IoError ℕ → Dev × Outcome IoError ℕ
  put_answer next (d, ok n) = next (inr n) d
  put_answer next (d, err e) = next (inl e) d
  put_answer next (d, panic) = (d, panic)

  unfoldable pub fill : Filler → Run Dev IoError ℕ
  fill (ends (inl e)) d = (d, err e)
  fill (ends (inr n)) d = (d, ok n)
  fill (puts bytes next) d =
      put_answer (λ answer. fill (next answer)) (Fusedev.write device bytes d)

  -- The reply to a read, with the header's writer and that of the bytes; the length is the file
  -- system's count.
  abbrev pub finish_reading : ℕ → FuseDevWriter → Dev × Outcome IoError ℕ → Dev × Outcome Error ℕ
  finish_reading unique w (d, panic) = (d, panic)
  finish_reading unique w (d, err e) = do_reply_error device unique e (record d { writer = w })
  finish_reading unique w (d, ok n) =
      (do
        let len = (out_header_size + n) % 2 ^ 32
        map_err encode_message
            (write_all device (out_header (record { len = len; error = 0; unique = unique })))
        map_err encode_message (commit device (some d.writer))
        result (ok len))
        (record d { writer = w })

module _ (env : Env) where
  abbrev pub with_writer : Session env → FuseDevWriter → Dev
  with_writer s w = record { sent = s.dev.sent; writer = w }

  abbrev pub filler_of : IoError ⊎ Filler → Filler
  filler_of (inl e) = ends (inl e)
  filler_of (inr filler) = filler

  -- The file system's call on the second writer, and the reply.
  abbrev pub read_into :
      Session env
      → FuseDevWriter
      → FuseDevWriter
      → env.system.State × (IoError ⊎ Filler)
      → Session env × Outcome Error ℕ
  read_into s w data_writer (fs, answer) =
      on_device env (record s { fs = fs })
        (finish_reading env.device env.header.unique w
          (fill env.device (filler_of answer) (with_writer s data_writer)))

  abbrev pub split_reading :
      List ℕ
      → Session env
      → Outcome TransportError (FuseDevWriter × FuseDevWriter)
      → Session env × Outcome Error ℕ
  split_reading read_in s panic = (s, panic)
  split_reading read_in s (err e) = (s, err invalid_header_length)
  split_reading read_in s (ok (w, data_writer)) = read_into s w data_writer (
      env.system.serve env.context
        (read env.header.nodeid (field 0 8 read_in) (field 16 4 read_in) (field 8 8 read_in)
          (when (any_of (field 20 4 read_in) 2) (field 24 8 read_in)) (field 32 4 read_in))
        s.fs)

  unfoldable pub reading : List ℕ → Handler env ℕ
  reading read_in s = split_reading read_in s (split_writer s.dev.writer out_header_size)

  unfoldable pub read_handler : Handler env ℕ
  read_handler = do read_in ← read_struct env 40; reading read_in

  -- `WriteOut`
  unfoldable pub reply_written : ℕ → Handler env ℕ
  reply_written n = reply env (word_out (n % 2 ^ 32)) []

  -- `take_reader` leaves an empty one behind.
  unfoldable pub take_payload : Handler env (List ℕ)
  take_payload s = (
    record s { reader = record { buffers = []; bytes_consumed = 0; dirty = [] } },
    ok (content env.slices s.reader.buffers),
  )

  unfoldable pub write_handler : Handler env ℕ
  write_handler = do
    write_in ← read_struct env 40
    payload ← take_payload
    ask env
        (write env.header.nodeid (field 0 8 write_in) payload (field 16 4 write_in)
          (field 8 8 write_in) (when (any_of (field 20 4 write_in) 2) (field 24 8 write_in))
          (any_of (field 20 4 write_in) 1) (field 32 4 write_in) (field 20 4 write_in))
        (reply_written)

  abbrev pub driver_of : IoError ⊎ Driver → Driver
  driver_of (inl e) = finish (err e)
  driver_of (inr driver) = driver

  abbrev pub list_into :
      Session env
      → ℕ
      → FuseDevWriter
      → FuseDevWriter
      → env.system.State × (IoError ⊎ Driver)
      → Session env × Outcome Error ℕ
  list_into s size w cursor (fs, answer) =
      on_device env (record s { fs = fs })
        (finish_listing env.device env.header.unique w
          (drive env.device size (driver_of answer) (with_writer s cursor)))

  abbrev pub split_listing :
      Bool
      → ReadIn
      → Session env
      → Outcome TransportError (FuseDevWriter × FuseDevWriter)
      → Session env × Outcome Error ℕ
  split_listing plus request s panic = (s, panic)
  split_listing plus request s (err e) = (s, err invalid_header_length)
  split_listing plus request s (ok (w, cursor)) =
      list_into s request.size w cursor
        (env.system.serve env.context (readdir env.header.nodeid plus request) s.fs)

  unfoldable pub listing : Bool → ReadIn → Handler env ℕ
  listing plus request s =
      if ltb (writer_available s.dev.writer) request.size
      then reply_error env (raw_os_error enomem) s
      else split_listing plus request s (split_writer s.dev.writer out_header_size)

  unfoldable pub readdir_handler : Bool → Handler env ℕ
  readdir_handler plus = do
    read_in ← read_struct env 40
    listing plus
        (record { fh = field 0 8 read_in; offset = field 8 8 read_in; size = field 16 4 read_in })
