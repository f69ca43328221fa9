-- ===== src/Server/Replies.antt =====
-- The replies of src/api/server/sync_io.rs on a writer into which nothing was written yet.
use fuse_backend_rs.Prelude.{
  ℕ, suc, ◌+◌, ◌-◌, ◌^◌, ◌%◌, ◌≤◌, ◌<◌, ◌≡◌, refl, Bool, sym, ap, ◌∙◌, true, false, List, [], ◌∷◌,
  ◌++◌, length, drop, ◌⊎◌, inr, arith, length-append, append-nil,
}
use native.Mathlib.Nat.{zero-add}
use fuse_backend_rs.Prelude.Outcome.{Outcome, ok}
use fuse_backend_rs.Prelude.Parts.{take_all, drop_all}
use fuse_backend_rs.Prelude.Words.{
  to_bytes, from_bytes, field, from_bytes-to_bytes_4, from_bytes-to_bytes_8,
}
use fuse_backend_rs.Fusedev.{
  Dev, IoError, write, write_vectored, write_all, write_all_loop, write_rest, commit,
  check_available_space, joined, total_of,
}
use fuse_backend_rs.Fusedev.Messages.{not_beyond}
use fuse_backend_rs.Server.{Error}
use fuse_backend_rs.Server.Reply.{reply_ok, do_reply_error, error_code, write_parts}
use fuse_backend_rs.Server.Sending.{do_reply_error-Holds, fresh, length-out_header}
use fuse_backend_rs.Server.Wire.{OutHeader, out_header, negative}

length-joined : (bufs : List (List ℕ)) → length (joined bufs) ≡ total_of bufs
length-joined [] = refl
length-joined (b ∷ bufs) = omega (arith, length-append b (joined bufs), length-joined bufs)

-- A reply of the FUSE protocol: its header's length is that of the message, and its error, its
-- number and what follows the header are the given ones.
pub record IsReply (msg : List ℕ) (error unique : ℕ) (body : List ℕ) : Type 0 where
  pub says_len : field 0 4 msg ≡ length msg
  pub says_error : field 4 4 msg ≡ error
  pub says_unique : field 8 8 msg ≡ unique
  pub carries : drop 16 msg ≡ body

-- The answer of a call that gave one more message, such a reply, to the device.
abbrev pub Sends : List (List ℕ) → ℕ → ℕ → List ℕ → Dev × Outcome Error ℕ → Type 0
Sends sent error unique body (d, result) =
    (msg : List ℕ) × (d.sent ≡ sent ++ msg ∷ [])
    × (result ≡ ok (length msg))
    × IsReply msg error unique body

pub out_header-IsReply :
    (len error unique : ℕ) (body : List ℕ)
    → len ≡ 16 + length body
    → len < 2 ^ 32
    → error < 2 ^ 32
    → unique < 2 ^ 64
    → IsReply
        (out_header (record { len = len; error = error; unique = unique }) ++ body)
        error
        unique
        body
unfolding to_bytes from_bytes
out_header-IsReply len error unique body e hl he hu = record {
  says_len = from_bytes-to_bytes_4 len hl ∙ e ∙ (omega arith);
  says_error = from_bytes-to_bytes_4 error he;
  says_unique = from_bytes-to_bytes_8 unique hu;
  carries = refl;
}

module _ (device : List (List ℕ) → List ℕ → ℕ ⊎ ℕ)
    (takes : (sent : List (List ℕ)) (bytes : List ℕ) → device sent bytes ≡ inr (length bytes)) where
  -- A message went to the device.
  abbrev gone : {E : Type 0} → List (List ℕ) → List ℕ → List ℕ → Dev × Outcome E ℕ
  gone sent memory msg = (
    record {
      sent = sent ++ msg ∷ [];
      writer = record { buffered = false; memory = memory; len = length msg };
    },
    ok (length msg),
  )

  write-fresh :
      (sent : List (List ℕ)) (memory msg : List ℕ)
      → length msg ≤ length memory
      → write device msg (record { sent = sent; writer = fresh false memory })
        ≡ gone sent memory msg
  unfolding write check_available_space
  write-fresh sent memory msg fits =
      rw
        (
          not_beyond (length memory - 0) (length msg) (omega arith),
          takes sent msg,
          take_all (length msg) msg (omega arith),
          zero-add (length msg),
        )
        refl

  write_vectored-fresh :
      (sent : List (List ℕ)) (memory b : List ℕ) (more : List (List ℕ))
      → length (joined (b ∷ more)) ≤ length memory
      → write_vectored device (b ∷ more) (record { sent = sent; writer = fresh false memory })
        ≡ gone sent memory (joined (b ∷ more))
  unfolding write_vectored check_available_space
  write_vectored-fresh sent memory b more fits =
      let msg = joined (b ∷ more) in
      rw
        (
          not_beyond (length memory - 0) (total_of (b ∷ more))
              (omega (arith, length-joined (b ∷ more))),
          takes sent msg,
          take_all (length msg) msg (omega arith),
          zero-add (length msg),
        )
        refl

  -- Slices whose bytes are the message.
  pieces-fresh :
      (sent : List (List ℕ)) (memory b : List ℕ) (more : List (List ℕ)) (msg : List ℕ)
      → joined (b ∷ more) ≡ msg
      → length msg ≤ length memory
      → write_vectored device (b ∷ more) (record { sent = sent; writer = fresh false memory })
        ≡ gone sent memory msg
  pieces-fresh sent memory b more msg e fits =
      write_vectored-fresh sent memory b more (omega (arith, ap length e)) ∙ ap (gone sent memory) e

  write_parts-fresh :
      (sent : List (List ℕ)) (memory : List ℕ) (unique : ℕ) (header out data3 : List ℕ)
      → length (header ++ (out ++ data3)) ≤ length memory
      → write_parts device unique header out data3
          (record { sent = sent; writer = fresh false memory })
        ≡ gone sent memory (header ++ (out ++ data3))
  write_parts-fresh sent memory unique header [] [] fits =
      write-fresh sent memory header (omega (arith, length-append header []))
      ∙ ap (gone sent memory) (sym (append-nil header))
  write_parts-fresh sent memory unique header [] (c ∷ data3) fits =
      pieces-fresh sent memory header ((c ∷ data3) ∷ []) (header ++ (c ∷ data3))
        (ap (λ l. header ++ l) (append-nil (c ∷ data3))) fits
  write_parts-fresh sent memory unique header (b ∷ out) [] fits =
      pieces-fresh sent memory header ((b ∷ out) ∷ []) (header ++ ((b ∷ out) ++ [])) refl fits
  write_parts-fresh sent memory unique header (b ∷ out) (c ∷ data3) fits =
      pieces-fresh sent memory header ((b ∷ out) ∷ (c ∷ data3) ∷ [])
        (header ++ ((b ∷ out) ++ (c ∷ data3)))
        (ap (λ l. header ++ ((b ∷ out) ++ l)) (append-nil (c ∷ data3))) fits

  write_all-fresh :
      (sent : List (List ℕ)) (memory msg : List ℕ)
      → 0 < length msg
      → length msg ≤ length memory
      → write_all device msg (record { sent = sent; writer = fresh false memory }) ≡ (
        record {
          sent = sent ++ msg ∷ [];
          writer = record { buffered = false; memory = memory; len = length msg };
        },
        ok tt,
      )
  unfolding write_all write_all_loop
  write_all-fresh sent memory [] some_bytes fits = absurd (omega arith)
  write_all-fresh sent memory (b ∷ msg) some_bytes fits =
      ap (write_rest device (λ rest. write_all_loop device (suc (length msg)) rest) (b ∷ msg))
        (write-fresh sent memory (b ∷ msg) fits)
      ∙ ap
          (λ rest. write_all_loop device (suc (length msg)) rest (record {
            sent = sent ++ (b ∷ msg) ∷ [];
            writer = record { buffered = false; memory = memory; len = suc (length msg) };
          }))
          (drop_all (length msg) msg (omega arith))

  -- A reply on a writer that is not buffered and into which nothing was written yet, where it has
  -- room for the reply and the device takes messages whole, is one message: a header with no error,
  -- the request's number and the message's own length, then the structure and the data.
  pub reply_ok-Sends :
      (sent : List (List ℕ)) (memory : List ℕ) (unique : ℕ) (out data3 : List ℕ)
      → 16 + length out + length data3 ≤ length memory
      → length memory < 2 ^ 32
      → unique < 2 ^ 64
      → Sends sent 0 unique
          (out ++ data3)
          (reply_ok device unique out data3 (record { sent = sent; writer = fresh false memory }))
  unfolding reply_ok
  reply_ok-Sends sent memory unique out data3 fits small hu =
      let len = (16 + length out + length data3) % 2 ^ 32 in
      let header = out_header (record { len = len; error = 0; unique = unique }) in
      let sized = length-out_header (record { len = len; error = 0; unique = unique }) in
      let parts =
        write_parts-fresh sent memory unique header out data3
          (omega (arith, sized, length-append header (out ++ data3), length-append out data3)) in
      rw parts (
        header ++ (out ++ data3),
        refl,
        refl,
        out_header-IsReply len 0 unique (out ++ data3) (omega (arith, length-append out data3))
            (omega arith) (omega arith) hu,
      )

  -- An error on a writer that is not buffered: the header is the message.
  do_reply_error-fresh :
      (sent : List (List ℕ)) (memory : List ℕ) (unique : ℕ) (e : IoError)
      → 16 ≤ length memory
      → do_reply_error device unique e (record { sent = sent; writer = fresh false memory })
        ≡ gone sent memory
            (out_header (record { len = 16; error = negative (error_code e); unique = unique }))
  unfolding do_reply_error commit
  do_reply_error-fresh sent memory unique e fits =
      let h : OutHeader = record { len = 16; error = negative (error_code e); unique = unique } in
      rw
        (write_all-fresh sent memory (out_header h) (omega (arith, length-out_header h))
          (omega (arith, length-out_header h)))
        refl

  do_reply_error_sent :
      (sent : List (List ℕ)) (buffered : Bool) (memory : List ℕ) (unique : ℕ) (e : IoError)
      → 16 ≤ length memory
      → let answer =
          do_reply_error device unique e (record { sent = sent; writer = fresh buffered memory }) in
        ((answer.0).sent
          ≡ sent
            ++ out_header (record { len = 16; error = negative (error_code e); unique = unique })
              ∷ [])
        × (answer.1 ≡ ok 16)
  do_reply_error_sent sent false memory unique e fits =
      rw (do_reply_error-fresh sent memory unique e fits) (
        refl,
        ap ok (
            length-out_header
              (record { len = 16; error = negative (error_code e); unique = unique })),
      )
  do_reply_error_sent sent true memory unique e fits =
      let (w, at) =
        do_reply_error-Holds device takes (record { sent = sent; writer = fresh true memory })
          unique e (length memory)
          (record { memory = memory; is = refl; shows = refl; has_room = refl }) fits in
      rw at (refl, refl)

  -- An error on a writer, buffered or not, with room for a header and with nothing in it yet, where
  -- the device takes messages whole, is one message: a header with the negative of the error's
  -- number, the request's number and the message's own length, and nothing behind it.
  pub do_reply_error-Sends :
      (sent : List (List ℕ)) (buffered : Bool) (memory : List ℕ) (unique : ℕ) (e : IoError)
      → 16 ≤ length memory
      → unique < 2 ^ 64
      → Sends sent
          (negative (error_code e))
          unique
          []
          (do_reply_error device unique e (record { sent = sent; writer = fresh buffered memory }))
  do_reply_error-Sends sent buffered memory unique e fits hu =
      let h : OutHeader = record { len = 16; error = negative (error_code e); unique = unique } in
      let (gone_out, answers) = do_reply_error_sent sent buffered memory unique e fits in
      (
        out_header h,
        gone_out,
        answers ∙ ap ok (sym (length-out_header h)),
        rw (sym (append-nil (out_header h))) (
            out_header-IsReply 16 (negative (error_code e)) unique [] refl (omega arith)
              (omega arith) hu),
      )
