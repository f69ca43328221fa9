-- ===== src/Server/Notices.antt =====
-- The messages of the notices in src/api/server/sync_io.rs.
use fuse_backend_rs.Prelude.{
  ℕ, ◌+◌, ◌-◌, ◌^◌, ◌%◌, ◌≤◌, ◌<◌, ◌≡◌, refl, ap, ◌∙◌, List, [], ◌∷◌, ◌++◌, none, length, Bool, ◌⊎◌,
  inr, arith, length-append, append_assoc, append-nil,
}
use fuse_backend_rs.Prelude.Outcome.{Outcome, ok}
use fuse_backend_rs.Prelude.Words.{to_bytes, field, from_bytes}
use fuse_backend_rs.Fusedev.{Dev, split_writer}
use fuse_backend_rs.Fusedev.Messages.{write-Holds, kept, not_beyond, write_all-Holds}
use fuse_backend_rs.Server.{Error}
use fuse_backend_rs.Server.Notify.{
  NotifyInvalEntryOut, notify_inval_entry_out, notify_inval_entry, notify_resend, inval_entry,
  resend,
}
use fuse_backend_rs.Server.Replies.{Sends, out_header-IsReply}
use fuse_backend_rs.Server.Sending.{fresh, length-out_header, commit-Holds}
use fuse_backend_rs.Server.Wire.{OutHeader, out_header}

-- The answer of a call that gave a header without a length to the device.
abbrev pub SaysNoLength : List (List ℕ) → Dev × Outcome Error (Unit {0}) → Type 0
SaysNoLength sent (d, result) =
    (msg : List ℕ) × (d.sent ≡ sent ++ msg ∷ [])
    × (result ≡ ok tt)
    × (length msg ≡ 16)
    × (field 0 4 msg ≡ 0)

split_writer_zero :
    (buffered : Bool) (memory : List ℕ)
    → split_writer (fresh buffered memory) 0 ≡ ok (kept [] 0, kept memory 0)
unfolding split_writer
split_writer_zero buffered memory = rw (not_beyond (length memory) 0 (omega arith)) refl

module _ (device : List (List ℕ) → List ℕ → ℕ ⊎ ℕ)
    (takes : (sent : List (List ℕ)) (bytes : List ℕ) → device sent bytes ≡ inr (length bytes)) where
  -- The notice to send requests again, on a writer with room for a header and with nothing in it
  -- yet, where the device takes messages whole, is one message of 16 bytes whose header says that
  -- its length is 0.
  pub notify_resend-SaysNoLength :
      (sent : List (List ℕ)) (buffered : Bool) (memory : List ℕ)
      → 16 ≤ length memory
      → SaysNoLength sent
          (notify_resend device (record { sent = sent; writer = fresh buffered memory }))
  unfolding notify_resend to_bytes from_bytes
  notify_resend-SaysNoLength sent buffered memory fits =
      let header = out_header (record { len = 0; error = resend; unique = 0 }) in
      let (w, at, holds) =
        write_all-Holds device (record { sent = sent; writer = kept memory 0 }) [] header
          (length memory) (record { memory = memory; is = refl; shows = refl; has_room = refl })
          fits in
      (
        header,
        rw
            (
              split_writer_zero buffered memory,
              at,
              commit-Holds device takes (record { sent = sent; writer = w }) none header
                  (length memory) holds (omega arith),
            )
            (ap (λ l. sent ++ l ∷ []) (append-nil header)),
        rw
            (
              split_writer_zero buffered memory,
              at,
              commit-Holds device takes (record { sent = sent; writer = w }) none header
                  (length memory) holds (omega arith),
            )
            refl,
        refl,
        refl,
      )

  length-notify_inval_entry_out : (e : NotifyInvalEntryOut) → length (notify_inval_entry_out e) ≡ 16
  unfolding to_bytes
  length-notify_inval_entry_out e = refl

  -- The notice that a directory entry is no longer valid, on a writer with room for it and with
  -- nothing in it yet, where the device takes messages whole, is one message: a header with the
  -- notice's code and the message's own length, then the parent, the name's length and the name
  -- with its closing zero.
  pub notify_inval_entry-Sends :
      (sent : List (List ℕ)) (buffered : Bool) (memory : List ℕ) (parent : ℕ) (name : List ℕ)
      → 33 + length name ≤ length memory
      → length memory < 2 ^ 32
      → Sends sent inval_entry 0
          (notify_inval_entry_out (record { parent = parent; namelen = length name })
            ++ (name ++ 0 ∷ []))
          (notify_inval_entry device parent name
            (record { sent = sent; writer = fresh buffered memory }))
  unfolding notify_inval_entry
  notify_inval_entry-Sends sent buffered memory parent name fits small =
      let text = name ++ 0 ∷ [] in
      let long = length-append name (0 ∷ []) in
      let h : OutHeader = record { len = 33 + length name; error = inval_entry; unique = 0 } in
      let e : NotifyInvalEntryOut = record { parent = parent; namelen = length name } in
      let body = notify_inval_entry_out e in
      let room = length memory in
      let (w1, at1, h1) =
        write_all-Holds device (record { sent = sent; writer = kept memory 0 }) [] (out_header h)
          room (record { memory = memory; is = refl; shows = refl; has_room = refl })
          (omega (arith, length-out_header h)) in
      let (w2, at2, h2) =
        write_all-Holds device (record { sent = sent; writer = w1 }) (out_header h) body room h1
          (omega (arith, length-out_header h, length-notify_inval_entry_out e)) in
      let (w3, at3, h3) =
        write-Holds device (record { sent = sent; writer = w2 }) (out_header h ++ body) text room h2
          (omega (
            arith,
            long,
            length-append (out_header h) body,
            length-out_header h,
            length-notify_inval_entry_out e,
          )) in
      let sends =
        commit-Holds device takes (record { sent = sent; writer = w3 }) none
          ((out_header h ++ body) ++ text) room h3
          (omega (
            arith,
            length-append (out_header h ++ body) text,
            length-append (out_header h) body,
            length-append body text,
            length-out_header h,
            length-notify_inval_entry_out e,
            long,
          )) in
      let len : (32 + length text) % 2 ^ 32 ≡ 33 + length name = omega (arith, long) in
      let namelen : (length text - 1) % 2 ^ 32 ≡ length name = omega (arith, long) in
      let whole : ((out_header h ++ body) ++ text) ++ [] ≡ out_header h ++ (body ++ text) =
        append-nil ((out_header h ++ body) ++ text) ∙ append_assoc (out_header h) body text in
      let answers : notify_inval_entry device parent name
            (record { sent = sent; writer = fresh buffered memory })
          ≡ (
            record { sent = sent ++ (out_header h ++ (body ++ text)) ∷ []; writer = w3 },
            ok (length (out_header h ++ (body ++ text))),
          ) =
        rw (split_writer_zero buffered memory, len, namelen, at1, at2, at3, sends)
          (ap (λ l. (record { sent = sent ++ l ∷ []; writer = w3 }, ok (length l))) whole) in
      (
        out_header h ++ (body ++ text),
        ap (λ o. (o.0).sent) answers,
        ap (λ o. o.1) answers,
        out_header-IsReply (33 + length name) inval_entry 0 (body ++ text)
            (omega (
              arith,
              length-append (out_header h ++ body) text,
              length-append (out_header h) body,
              length-append body text,
              length-out_header h,
              length-notify_inval_entry_out e,
              long,
            ))
            (omega arith) (omega arith) (omega arith),
      )
