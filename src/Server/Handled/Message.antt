-- ===== src/Server/Handled/Message.antt =====
-- `handle_message` of src/api/server/sync_io.rs, from the bytes of a message on.
use fuse_backend_rs.Prelude.{
  ℕ, zero, suc, ◌^◌, ◌≤◌, ◌<◌, ◌≡◌, refl, sym, ◌⊎◌, inl, inr, List, [], ◌∷◌, length, take, drop,
  arith,
}
use fuse_backend_rs.Prelude.{false}
use native.Mathlib.Decide.{dec_lt}
use native.Mathlib.Nat.{pow-suc, one-le-pow}
use fuse_backend_rs.Prelude.Outcome.{Outcome, err}
use fuse_backend_rs.Prelude.Words.{from_bytes}
use fuse_backend_rs.Fusedev.{IoError}
use fuse_backend_rs.Server.{Error, decode_message}
use fuse_backend_rs.Server.Dispatch.{
  Served, env_of, handle_request, served_by, remapped, handle_message,
}
use fuse_backend_rs.Server.Handled.Arms.{is_quiet, handle_request-Serves}
use fuse_backend_rs.Server.Init.{ServerVersion}
use fuse_backend_rs.Server.Once.{AtMostOne, Once, begun}
use fuse_backend_rs.Server.Request.{Context, Request, FileSystem}
use fuse_backend_rs.Server.Sending.{fresh}
use fuse_backend_rs.Server.Session.{InHeader, in_header_from, context_from, Session}
use fuse_backend_rs.Transport.{IoBuffers, unexpected_eof}
use fuse_backend_rs.Transport.Consume.{left_in, used, Fits}
use fuse_backend_rs.Transport.Exact.{read_obj-take, read_obj-eof}
use fuse_backend_rs.Transport.Volatile.{VolatileSlices}

abbrev pub AllBytes : List ℕ → Type 0
AllBytes [] = Unit {0}
AllBytes (b ∷ bs) = (b < 256) × AllBytes bs

AllBytes-take : (n : ℕ) (bs : List ℕ) → AllBytes bs → AllBytes (take n bs)
AllBytes-take zero bs h = tt
AllBytes-take (suc n) [] h = tt
AllBytes-take (suc n) (b ∷ bs) (lt, h) = (lt, AllBytes-take n bs h)

AllBytes-drop : (n : ℕ) (bs : List ℕ) → AllBytes bs → AllBytes (drop n bs)
AllBytes-drop zero bs h = h
AllBytes-drop (suc n) [] h = tt
AllBytes-drop (suc n) (b ∷ bs) (lt, h) = AllBytes-drop n bs h

from_bytes-take_lt : (k : ℕ) (bs : List ℕ) → AllBytes bs → from_bytes (take k bs) < 256 ^ k
unfolding from_bytes
from_bytes-take_lt zero bs h = omega arith
from_bytes-take_lt (suc k) [] h = omega (arith, pow-suc 256 k, one-le-pow k 256)
from_bytes-take_lt (suc k) (b ∷ bs) (lt, h) =
    omega (arith, pow-suc 256 k, from_bytes-take_lt k bs h)

-- What the file system was asked for: nothing, one call for a context, or its `init`.
abbrev pub Asked : (system : FileSystem) → Context → system.State → system.State → Type 0
Asked system context fs fs' =
    (fs' ≡ fs)
    ⊎ (((q : Request) × (fs' ≡ (system.serve context q fs).0))
        ⊎ ((opts : ℕ) × (fs' ≡ (system.init opts fs).0)))

-- A message that is cut off or whose context is refused is not served: nothing is called and
-- nothing sent. Any other is served for the context that its header is mapped to.
abbrev pub ServedOnce :
    (system : FileSystem)
    → List (List ℕ)
    → system.State
    → InHeader
    → Served system × Outcome Error ℕ
    → Type 0
ServedOnce system sent fs header (s, o) =
    ((s.fs ≡ fs) × (s.dev.sent ≡ sent) × ((e : Error) × (o ≡ err e)))
    ⊎ ((context : Context) × (system.id_remap fs (context_from header) ≡ inr context)
        × Asked system context fs s.fs
        × AtMostOne sent header.unique (is_quiet header.opcode) (s.dev, o))

module _ (fs_options page : ℕ) (slices : VolatileSlices) (system : FileSystem)
    (device : List (List ℕ) → List ℕ → ℕ ⊎ ℕ)
    (takes : (before : List (List ℕ)) (bytes : List ℕ)
      → device before bytes ≡ inr (length bytes)) where
  served-Once :
      (sent : List (List ℕ)) (memory : List ℕ) (fs : system.State) (header : InHeader)
      (context : Context)
      (x : Session (env_of fs_options page slices system device header context) × Outcome Error ℕ)
      → system.id_remap fs (context_from header) ≡ inr context
      → Once
          (env_of fs_options page slices system device header context)
          sent
          memory
          (is_quiet header.opcode)
          fs
          x
      → ServedOnce system sent fs header
          (served_by fs_options page slices system device header context x)
  served-Once sent memory fs header context (s, o) e (inl (same, one)) =
      inr (context, e, inl same, one)
  served-Once sent memory fs header context (s, o) e (inr (inl (q, (same, one)))) =
      inr (context, e, inr (inl (q, same)), one)
  served-Once sent memory fs header context (s, o) e (inr (inr (opts, (same, one)))) =
      inr (context, e, inr (inr (opts, same)), one)

  module _ (vers : ServerVersion) (sent : List (List ℕ)) (memory : List ℕ) (fs : system.State)
      (room : 16 ≤ length memory) (small : length memory < 2 ^ 32) where
    abbrev start : Served system
    start = record {
      vers = vers;
      dev = record { sent = sent; writer = fresh false memory };
      fs = fs;
    }

    remapped-Once :
        (r : IoBuffers slices) (header : InHeader) (got : IoError ⊎ Context)
        → header.unique < 2 ^ 64
        → got ≡ system.id_remap fs (context_from header)
        → ServedOnce system sent fs header
            (remapped fs_options page slices system device start r header got)
    remapped-Once r header (inl e) unique at = inl (refl, refl, (_, refl))
    remapped-Once r header (inr context) unique at =
        let env = env_of fs_options page slices system device header context in
        served-Once sent memory fs header context
          (handle_request fs_options page env (begun env sent memory vers r fs)) (sym at)
          ((handle_request-Serves env sent memory
              (record { takes = takes; room = room; small = small; unique = unique }) fs_options
              page).at
            vers r fs)

    -- On a writer into which nothing was written yet, with room for a header, and a device that
    -- takes messages whole: whatever bytes come as a message, the file system is called at most
    -- once, for the context that the header is mapped to, and at most one message is sent, which
    -- has the number of the request. Where nothing is sent, the request has failed, or it is one
    -- of forget, batch_forget, interrupt, notify_reply and destroy.
    pub handle_message-ServedOnce :
        (r : IoBuffers slices)
        → Fits slices r
        → AllBytes (left_in slices r)
        → ServedOnce system sent fs
            (in_header_from (take 40 (left_in slices r)))
            (handle_message fs_options page slices system device start r)
    unfolding handle_message in_header_from
    handle_message-ServedOnce r fits bytes = elim (dec_lt (length (left_in slices r)) 40) [
      | yes short ↦
          rw (read_obj-eof slices r 40 fits short)
            (inl (refl, refl, (decode_message (inl unexpected_eof), refl)))
      | no enough ↦
          let (rest, at, leaves) = read_obj-take slices r 40 fits (omega arith) in
          rw at (
            remapped-Once (used slices r rest 40) (in_header_from (take 40 (left_in slices r))) _
              (from_bytes-take_lt 8 (drop 8 (take 40 (left_in slices r))) (
                AllBytes-drop 8 (take 40 (left_in slices r))
                  (AllBytes-take 40 (left_in slices r) bytes)))
              refl)
    ]
