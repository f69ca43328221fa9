-- ===== src/Server/Sending.antt =====
-- The messages that the replies of src/api/server/sync_io.rs give to the device.
use fuse_backend_rs.Prelude.{
  ℕ, suc, ◌+◌, ◌-◌, ◌^◌, ◌%◌, ◌≤◌, ◌<◌, ◌≡◌, refl, Bool, sym, ap, ap₂, ◌∙◌, List, [], ◌∷◌, ◌++◌,
  Option, none, some, length, take, drop, ◌⊎◌, inr, arith, append-nil,
}
use fuse_backend_rs.Prelude.Outcome.{Outcome, ok, err, panic}
use fuse_backend_rs.Prelude.Run.{map_err}
use fuse_backend_rs.Prelude.Parts.{take_all, length-drop, length-take_le}
use fuse_backend_rs.Prelude.Words.{to_bytes}
use fuse_backend_rs.Fusedev.{
  Dev, FuseDevWriter, IoError, raw_os_error, as_slice, split_writer, commit, slice_of, issue,
  os_write,
}
use fuse_backend_rs.Fusedev.Messages.{kept, not_beyond, Holds, write_all-Holds}
use fuse_backend_rs.Server.{Error}
use fuse_backend_rs.Server.Packing.{packed, drive-packed}
use fuse_backend_rs.Server.ReadDir.{Driver, ReadIn, do_readdir, finish_listing}
use fuse_backend_rs.Server.Reply.{do_reply_error, error_code}
use fuse_backend_rs.Server.Wire.{OutHeader, out_header, negative}

pub length-out_header : (h : OutHeader) → length (out_header h) ≡ 16
unfolding to_bytes
length-out_header h = refl

-- A writer into which nothing was written yet.
abbrev pub fresh : Bool → List ℕ → FuseDevWriter
fresh buffered memory = record { buffered = buffered; memory = memory; len = 0 }

-- The reply to a listing: the messages, and the result.
abbrev pub listing_reply : ℕ → List ℕ × Outcome IoError (Unit {0}) → List (List ℕ) × Outcome Error ℕ
listing_reply unique (payload, ok done) = (
  (out_header (record { len = 16 + length payload; error = 0; unique = unique }) ++ payload) ∷ [],
  ok (16 + length payload),
)
listing_reply unique (payload, err e) =
    (out_header (record { len = 16; error = negative (error_code e); unique = unique }) ∷ [], ok 16)
listing_reply unique (payload, panic) = ([], panic)

-- The answer of a call that gave these messages to the device.
abbrev pub Gives : List (List ℕ) → List (List ℕ) × Outcome Error ℕ → Dev × Outcome Error ℕ → Type 0
Gives sent (messages, expected) (d, result) = (d.sent ≡ sent ++ messages) × (result ≡ expected)

module _ (device : List (List ℕ) → List ℕ → ℕ ⊎ ℕ)
    -- The device takes every message whole.
    (takes : (sent : List (List ℕ)) (bytes : List ℕ) → device sent bytes ≡ inr (length bytes)) where
  os_write-takes :
      (d : Dev) (bytes : List ℕ)
      → os_write device bytes d ≡ (record d { sent = d.sent ++ bytes ∷ [] }, ok (length bytes))
  os_write-takes d bytes = rw (takes d.sent bytes, take_all (length bytes) bytes (omega arith)) refl

  -- The writer's bytes and those of another one, as one message.
  commit-kept :
      (sent : List (List ℕ)) (memory : List ℕ) (x : ℕ) (xs : List ℕ) (other : Option FuseDevWriter)
      → take (suc (length xs)) memory ≡ x ∷ xs
      → commit device other (record { sent = sent; writer = kept memory (suc (length xs)) }) ≡ (
        record {
          sent = sent ++ ((x ∷ xs) ++ slice_of device other) ∷ [];
          writer = kept memory (suc (length xs));
        },
        ok (length ((x ∷ xs) ++ slice_of device other)),
      )
  unfolding commit
  commit-kept sent memory x xs other shows =
      let d : Dev = record { sent = sent; writer = kept memory (suc (length xs)) } in
      let issued : issue device (as_slice d.writer) (slice_of device other) d ≡ (
        record d { sent = sent ++ ((x ∷ xs) ++ slice_of device other) ∷ [] },
        ok (length ((x ∷ xs) ++ slice_of device other)),
      ) =
        ap (λ l. issue device l (slice_of device other) d) shows
        ∙ os_write-takes d ((x ∷ xs) ++ slice_of device other) in
      ap (λ o. map_err raw_os_error (λ s. o) d) issued

  pub commit-Holds :
      (d : Dev) (other : Option FuseDevWriter) (payload : List ℕ) (room : ℕ)
      → Holds d.writer payload room
      → 0 < length payload
      → commit device other d ≡ (
        record d { sent = d.sent ++ (payload ++ slice_of device other) ∷ [] },
        ok (length (payload ++ slice_of device other)),
      )
  commit-Holds d other [] room h some_bytes = absurd (omega arith)
  commit-Holds d other (x ∷ xs) room h some_bytes =
      ap (λ w. commit device other (record d { writer = w })) h.is
      ∙ commit-kept d.sent h.memory x xs other h.shows
      ∙ ap
          (λ w. (
            record { sent = d.sent ++ ((x ∷ xs) ++ slice_of device other) ∷ []; writer = w },
            ok (length ((x ∷ xs) ++ slice_of device other)),
          ))
          (sym h.is)

  -- An error on a buffered writer of the header's room.
  pub do_reply_error-Holds :
      (d : Dev) (unique : ℕ) (e : IoError) (room : ℕ)
      → Holds d.writer [] room
      → 16 ≤ room
      → (w : FuseDevWriter) × (do_reply_error device unique e d ≡ (
        record {
          sent =
              d.sent
              ++ out_header (record { len = 16; error = negative (error_code e); unique = unique })
                ∷ [];
          writer = w;
        },
        ok 16,
      ))
  unfolding do_reply_error
  do_reply_error-Holds d unique e room h fits =
      let header =
        out_header (record { len = 16; error = negative (error_code e); unique = unique }) in
      let (w, at, holds) = write_all-Holds device d [] header room h (
        omega (
          arith,
          length-out_header (record { len = 16; error = negative (error_code e); unique = unique }),
        )) in
      (
        w,
        rw
            (
              at,
              commit-Holds (record d { writer = w }) none header room holds
                  (omega (
                    arith,
                    length-out_header
                        (record { len = 16; error = negative (error_code e); unique = unique }),
                  )),
            )
            (ap₂ (λ m n. (record { sent = d.sent ++ m ∷ []; writer = w }, ok n)) (append-nil header)
              (ap (λ u. u.len) holds.is
                ∙ length-out_header
                    (record { len = 16; error = negative (error_code e); unique = unique }))),
      )

  pub split_writer-fresh :
      (buffered : Bool) (memory : List ℕ)
      → 16 ≤ length memory
      → split_writer (fresh buffered memory) 16
        ≡ ok (kept (take 16 memory) 0, kept (drop 16 memory) 0)
  unfolding split_writer
  split_writer-fresh buffered memory fits = rw (not_beyond (length memory) 16 fits) refl

  -- The end of a listing, from what the file system gave.
  finish_listing-Sends :
      (sent : List (List ℕ)) (unique : ℕ) (front back : FuseDevWriter) (payload : List ℕ) (room : ℕ)
      (o : Outcome IoError (Unit {0}))
      → Holds front [] 16
      → Holds back payload room
      → 16 + length payload < 2 ^ 32
      → let answer =
          finish_listing device unique front (record { sent = sent; writer = back }, o) in
        ((answer.0).sent ≡ sent ++ (listing_reply unique (payload, o)).0)
        × (answer.1 ≡ (listing_reply unique (payload, o)).1)
  finish_listing-Sends sent unique front back payload room panic hf hb small =
      (sym (append-nil sent), refl)
  finish_listing-Sends sent unique front back payload room (err e) hf hb small =
      let (w, at) =
        do_reply_error-Holds (record { sent = sent; writer = front }) unique e 16 hf
          (omega arith) in
      rw at (refl, refl)
  finish_listing-Sends sent unique front back payload room (ok done) hf hb small =
      let total : (16 + back.len) % 2 ^ 32 ≡ 16 + length payload =
        omega (arith, ap (λ w. w.len) hb.is) in
      let shown : slice_of device (some back) ≡ payload = ap as_slice hb.is ∙ hb.shows in
      let header = out_header (record { len = 16 + length payload; error = 0; unique = unique }) in
      let sized =
        length-out_header (record { len = 16 + length payload; error = 0; unique = unique }) in
      let (w, at, holds) =
        write_all-Holds device (record { sent = sent; writer = front }) [] header 16 hf
          (omega (arith, sized)) in
      rw
        (
          total,
          at,
          commit-Holds (record { sent = sent; writer = w }) (some back) header 16 holds
              (omega (arith, sized)),
        )
        (ap (λ l. sent ++ (header ++ l) ∷ []) shown, refl)

  -- A listing on a writer with nothing in it yet, buffered or not, that has room for the header and
  -- for all that the request asks for, where the device takes messages whole, is the one message of
  -- the specification: the entries that the file system offered and that fit, behind a header with
  -- the message's length, or the error of the file system. A panic of the file system sends nothing.
  pub do_readdir-Gives :
      (sent : List (List ℕ)) (buffered : Bool) (memory : List ℕ) (unique : ℕ) (fs : ReadIn → Driver)
      (request : ReadIn)
      → 16 + request.size ≤ length memory
      → length memory < 2 ^ 32
      → Gives sent (listing_reply unique (packed request.size (fs request) [])) (
          do_readdir device unique fs request
            (record { sent = sent; writer = fresh buffered memory }))
  unfolding do_readdir
  do_readdir-Gives sent buffered memory unique fs request fits small =
      let (w, at, holds, bound) =
        drive-packed device request.size (fs request)
          (record { sent = sent; writer = kept (drop 16 memory) 0 }) [] (length memory - 16)
          (record {
            memory = drop 16 memory;
            is = refl;
            shows = refl;
            has_room = length-drop 16 memory;
          })
          (omega arith) (omega arith) in
      rw
        (
          not_beyond (length memory - 0) request.size (omega arith),
          split_writer-fresh buffered memory (omega arith),
          at,
        )
        (finish_listing-Sends sent unique (kept (take 16 memory) 0) w
          (packed request.size (fs request) []).0 (length memory - 16)
          (packed request.size (fs request) []).1
          (record {
            memory = take 16 memory;
            is = refl;
            shows = refl;
            has_room = length-take_le 16 memory (omega arith);
          })
          holds (omega arith))
