-- ===== src/Server/Handled/Transfer.antt =====
-- The handlers of data and listings: at most one call and one reply.
use fuse_backend_rs.Prelude.{
  ℕ, ◌+◌, ◌-◌, ◌^◌, ◌%◌, ◌<◌, ◌≡◌, refl, ◌⊎◌, inl, inr, Bool, false, Bool-cases, some, List, [],
  ◌++◌, length, take, drop, ltb, arith,
}
use fuse_backend_rs.Prelude.Outcome.{Outcome, ok, err, panic}
use fuse_backend_rs.Prelude.Parts.{length-take_le}
use fuse_backend_rs.Prelude.Run.{result, map_err, ◌>>=◌, ◌>>◌}
use fuse_backend_rs.Prelude.Words.{to_bytes, from_bytes, field, from_bytes-to_bytes_8}
use fuse_backend_rs.Fusedev.{Dev, FuseDevWriter, IoError, raw_os_error, write_all, commit}
use fuse_backend_rs.Fusedev.Messages.{kept, Holds, write_all-Holds}
use fuse_backend_rs.Server.{Error, encode_message}
use fuse_backend_rs.Server.Handlers.Files.{any_of, when}
use fuse_backend_rs.Server.Handlers.Transfer.{
  fill, finish_reading, filler_of, read_into, reading, read_handler, reply_written, take_payload,
  write_handler, driver_of, list_into, listing, readdir_handler,
}
use fuse_backend_rs.Server.Init.{ServerVersion}
use fuse_backend_rs.Server.Kept.{Stays, drive-Keeps, fill-Keeps}
use fuse_backend_rs.Server.Once.{
  Ready, Replies, Serves, AtMostOne, Ends, begun, Serves-read_struct, Serves-ask, Replies-reply,
  Replies-reply_error,
}
use fuse_backend_rs.Server.Outputs.{word_out}
use fuse_backend_rs.Server.ReadDir.{ReadIn, Driver, enomem, drive, finish_listing}
use fuse_backend_rs.Server.Reply.{do_reply_error, error_code}
use fuse_backend_rs.Server.Request.{Filler, read, readdir}
use fuse_backend_rs.Server.Sending.{
  commit-Holds, do_reply_error-Holds, split_writer-fresh, length-out_header,
}
use fuse_backend_rs.Server.Session.{Env, Session}
use fuse_backend_rs.Server.Wire.{OutHeader, out_header, negative}
use fuse_backend_rs.Transport.{IoBuffers}

unique_at :
    (h : OutHeader) (rest : List ℕ)
    → h.unique < 2 ^ 64
    → field 8 8 (out_header h ++ rest) ≡ h.unique
unfolding to_bytes from_bytes
unique_at h rest small = from_bytes-to_bytes_8 h.unique small

module _ (env : Env) (sent : List (List ℕ)) (memory : List ℕ) (ready : Ready env sent memory) where
  open ready use {takes, room, small, unique}

  -- The half of the writer that the header goes to.
  abbrev front : Dev
  front = record { sent = sent; writer = kept (take 16 memory) 0 }

  front-Holds : Holds (kept (take 16 memory) 0) [] 16
  front-Holds = record {
    memory = take 16 memory;
    is = refl;
    shows = refl;
    has_room = length-take_le 16 memory room;
  }

  error-front :
      (e : IoError)
      → AtMostOne sent env.header.unique false (do_reply_error env.device env.header.unique e front)
  unfolding to_bytes
  error-front e =
      let (w, at) =
        do_reply_error-Holds env.device takes front env.header.unique e 16 front-Holds
          (omega arith) in
      let h : OutHeader = record {
        len = 16;
        error = negative (error_code e);
        unique = env.header.unique;
      } in
      rw at (inr (out_header h, refl, unique_at h [] unique))

  -- The header of a given length, and behind it what the other writer holds.
  headed-front :
      (len : ℕ) (other : FuseDevWriter)
      → AtMostOne sent env.header.unique false (
          (do
            map_err encode_message (
                write_all env.device
                  (out_header (record { len = len; error = 0; unique = env.header.unique })))
            map_err encode_message (commit env.device (some other))
            result (ok len))
            front)
  headed-front len other =
      let h : OutHeader = record { len = len; error = 0; unique = env.header.unique } in
      let (w, at, holds) =
        write_all-Holds env.device front [] (out_header h) 16 front-Holds
          (omega (arith, length-out_header h)) in
      rw
        (
          at,
          commit-Holds env.device takes (record { sent = sent; writer = w }) (some other)
              (out_header h) 16 holds (omega (arith, length-out_header h)),
        )
        (inr (out_header h ++ _, refl, unique_at h _ unique))

  finish_reading-AtMostOne :
      (x : Dev × Outcome IoError ℕ)
      → Stays sent x.0
      → AtMostOne sent env.header.unique false
          (finish_reading env.device env.header.unique (kept (take 16 memory) 0) x)
  finish_reading-AtMostOne (d, ok n) (m, len, e) =
      rw e (headed-front ((16 + n) % 2 ^ 32) (kept m len))
  finish_reading-AtMostOne (d, err e') (m, len, e) = rw e (error-front e')
  finish_reading-AtMostOne (d, panic) (m, len, e) = rw e (inl (refl, inr (inl refl)))

  finish_listing-AtMostOne :
      (x : Dev × Outcome IoError (Unit {0}))
      → Stays sent x.0
      → AtMostOne sent env.header.unique false
          (finish_listing env.device env.header.unique (kept (take 16 memory) 0) x)
  finish_listing-AtMostOne (d, ok done) (m, len, e) =
      rw e (headed-front ((16 + len) % 2 ^ 32) (kept m len))
  finish_listing-AtMostOne (d, err e') (m, len, e) = rw e (error-front e')
  finish_listing-AtMostOne (d, panic) (m, len, e) = rw e (inl (refl, inr (inl refl)))

  back : FuseDevWriter
  back = kept (drop 16 memory) 0

  read_into-Ends :
      (vers : ServerVersion) (r : IoBuffers env.slices) (fs : env.system.State)
      (got : env.system.State × (IoError ⊎ Filler))
      → Ends env sent memory false got.0
          (read_into env (begun env sent memory vers r fs) (kept (take 16 memory) 0) back got)
  unfolding back
  read_into-Ends vers r fs (fs', answer) = (
    refl,
    finish_reading-AtMostOne
        (fill env.device (filler_of env answer) (record { sent = sent; writer = back }))
        ((fill-Keeps env.device (filler_of env answer)).at (drop 16 memory) 0),
  )

  reading-Serves : (read_in : List ℕ) → Serves env sent memory false (reading env read_in)
  unfolding reading back
  reading-Serves read_in =
      let asked =
        read env.header.nodeid (field 0 8 read_in) (field 16 4 read_in) (field 8 8 read_in)
          (when (any_of (field 20 4 read_in) 2) (field 24 8 read_in)) (field 32 4 read_in) in
      record {
        at = λ vers r fs.
            rw (split_writer-fresh env.device takes false memory room)
              (inr (inl (asked, read_into-Ends vers r fs (env.system.serve env.context asked fs))));
      }

  pub read-Serves : Serves env sent memory false (read_handler env)
  unfolding read_handler
  read-Serves = Serves-read_struct env sent memory 40 _ reading-Serves

  list_into-Ends :
      (vers : ServerVersion) (r : IoBuffers env.slices) (fs : env.system.State) (size : ℕ)
      (got : env.system.State × (IoError ⊎ Driver))
      → Ends env sent memory false got.0
          (list_into env (begun env sent memory vers r fs) size (kept (take 16 memory) 0) back got)
  unfolding back
  list_into-Ends vers r fs size (fs', answer) = (
    refl,
    finish_listing-AtMostOne
        (drive env.device size (driver_of env answer) (record { sent = sent; writer = back }))
        ((drive-Keeps env.device size (driver_of env answer)).at (drop 16 memory) 0),
  )

  listing-Serves :
      (plus : Bool) (request : ReadIn) → Serves env sent memory false (listing env plus request)
  unfolding listing back
  listing-Serves plus request =
      let asked = readdir env.header.nodeid plus request in
      record {
        at = λ vers r fs. elim (Bool-cases (ltb (length memory - 0) request.size)) [
          | inl t ↦
              rw t (
                inl
                  ((Replies-reply_error env sent memory ready (raw_os_error enomem)).at vers r fs))
          | inr f ↦
              rw (f, split_writer-fresh env.device takes false memory room)
                (inr (
                  inl (
                    asked,
                    list_into-Ends vers r fs request.size (env.system.serve env.context asked fs),
                  )))
        ];
      }

  pub readdir-Serves : (plus : Bool) → Serves env sent memory false (readdir_handler env plus)
  unfolding readdir_handler
  readdir-Serves plus = Serves-read_struct env sent memory 40 _ λ read_in. listing-Serves plus _

  reply_written-Replies : (n : ℕ) → Replies env sent memory false (reply_written env n)
  unfolding reply_written
  reply_written-Replies n = Replies-reply env sent memory ready (word_out (n % 2 ^ 32)) []

  Serves-take_payload :
      (k : List ℕ → Session env → Session env × Outcome Error ℕ)
      → ((payload : List ℕ) → Serves env sent memory false (k payload))
      → Serves env sent memory false (take_payload env >>= k)
  unfolding take_payload
  Serves-take_payload k rest = record { at = λ vers r fs. (rest _).at vers _ fs }

  pub write-Serves : Serves env sent memory false (write_handler env)
  unfolding write_handler
  write-Serves = Serves-read_struct env sent memory 40 _ λ write_in.
      Serves-take_payload _ λ payload. Serves-ask env sent memory ready _ _ reply_written-Replies
