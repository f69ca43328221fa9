-- ===== src/Server/Decoded/Message.antt =====
-- `handle_message` of src/api/server/sync_io.rs on a whole message that a client writes.
use fuse_backend_rs.Prelude.{
  ℕ, ◌+◌, ◌^◌, ◌≤◌, ◌<◌, ◌≡◌, refl, sym, ap, ◌∙◌, ◌⊎◌, inr, false, List, [], ◌∷◌, ◌++◌, length,
  take, drop, arith, length-append,
}
use fuse_backend_rs.Prelude.Outcome.{Outcome}
use fuse_backend_rs.Prelude.Words.{
  to_bytes, from_bytes, from_bytes-to_bytes_4, from_bytes-to_bytes_8,
}
use fuse_backend_rs.Fusedev.Messages.{not_beyond}
use fuse_backend_rs.Server.{Error}
use fuse_backend_rs.Server.Decoded.{Calls, take_head, drop_head}
use fuse_backend_rs.Server.Decoded.Requests.{
  mknod_in, mkdir_in, create_in, lseek_in, fallocate_in, lookup-Calls, forget-Calls, mknod-Calls,
  mkdir-Calls, unlink-Calls, rmdir-Calls, link-Calls, create-Calls, open-Calls, lseek-Calls,
  fallocate-Calls,
}
use fuse_backend_rs.Server.Dispatch.{
  Served, env_of, served_by, handle_request, serve_opcode, arm_for, arms, run_arm, handle_message,
}
use fuse_backend_rs.Server.Handled.Arms.{is_quiet}
use fuse_backend_rs.Server.Handlers.Forgets.{max_buffer_size, buffer_header_size}
use fuse_backend_rs.Server.Init.{ServerVersion}
use fuse_backend_rs.Server.Names.{NoZero}
use fuse_backend_rs.Server.Once.{AtMostOne, Ready, Ends, begun}
use fuse_backend_rs.Server.Request.{
  Context, CreateIn, FileSystem, Request, lookup, forget, mknod, mkdir, unlink, rmdir, link, create,
  open_file, lseek, fallocate,
}
use fuse_backend_rs.Server.Sending.{fresh}
use fuse_backend_rs.Server.Session.{Env, InHeader, Session, Handler, in_header_from, context_from}
use fuse_backend_rs.Transport.{IoBuffers}
use fuse_backend_rs.Transport.Consume.{left_in, used, Fits}
use fuse_backend_rs.Transport.Exact.{read_obj-take}
use fuse_backend_rs.Transport.Volatile.{VolatileSlices}

abbrev pub header_bytes : InHeader → List ℕ
header_bytes h =
    to_bytes 4 h.len
    ++ (to_bytes 4 h.opcode
        ++ (to_bytes 8 h.unique
            ++ (to_bytes 8 h.nodeid
                ++ (to_bytes 4 h.uid ++ (to_bytes 4 h.gid ++ (to_bytes 4 h.pid ++ to_bytes 4 0))))))

pub record InRange (h : InHeader) : Type 0 where
  pub len : h.len < 2 ^ 32
  pub opcode : h.opcode < 2 ^ 32
  pub unique : h.unique < 2 ^ 64
  pub nodeid : h.nodeid < 2 ^ 64
  pub uid : h.uid < 2 ^ 32
  pub gid : h.gid < 2 ^ 32
  pub pid : h.pid < 2 ^ 32

in_header_from-header_bytes : (h : InHeader) → InRange h → in_header_from (header_bytes h) ≡ h
unfolding in_header_from to_bytes from_bytes
in_header_from-header_bytes h range = λ i. record {
  len = from_bytes-to_bytes_4 h.len range.len i;
  opcode = from_bytes-to_bytes_4 h.opcode range.opcode i;
  unique = from_bytes-to_bytes_8 h.unique range.unique i;
  nodeid = from_bytes-to_bytes_8 h.nodeid range.nodeid i;
  uid = from_bytes-to_bytes_4 h.uid range.uid i;
  gid = from_bytes-to_bytes_4 h.gid range.gid i;
  pid = from_bytes-to_bytes_4 h.pid range.pid i;
}

length-header_bytes : (h : InHeader) → length (header_bytes h) ≡ 40
unfolding to_bytes
length-header_bytes h = refl

-- A request of the protocol: the number of its opcode, and the bytes behind the header.
pub data Encodes (nodeid : ℕ) : Request → ℕ → List ℕ → Type 0 where
  lookup_of : (name : List ℕ) → NoZero name → Encodes nodeid (lookup nodeid name) 1 (name ++ 0 ∷ [])
  forget_of :
      (nlookup : ℕ)
      → nlookup < 2 ^ 64
      → Encodes nodeid (forget nodeid nlookup) 2 (to_bytes 8 nlookup)
  mknod_of :
      (name : List ℕ) (mode rdev umask : ℕ)
      → NoZero name
      → mode < 2 ^ 32
      → rdev < 2 ^ 32
      → umask < 2 ^ 32
      → Encodes nodeid
          (mknod nodeid name mode rdev umask)
          8
          (mknod_in mode rdev umask ++ (name ++ 0 ∷ []))
  mkdir_of :
      (name : List ℕ) (mode umask : ℕ)
      → NoZero name
      → mode < 2 ^ 32
      → umask < 2 ^ 32
      → Encodes nodeid (mkdir nodeid name mode umask) 9 (mkdir_in mode umask ++ (name ++ 0 ∷ []))
  unlink_of :
      (name : List ℕ) → NoZero name → Encodes nodeid (unlink nodeid name) 10 (name ++ 0 ∷ [])
  rmdir_of : (name : List ℕ) → NoZero name → Encodes nodeid (rmdir nodeid name) 11 (name ++ 0 ∷ [])
  link_of :
      (name : List ℕ) (oldnodeid : ℕ)
      → NoZero name
      → oldnodeid < 2 ^ 64
      → Encodes nodeid (link oldnodeid nodeid name) 13 (to_bytes 8 oldnodeid ++ (name ++ 0 ∷ []))
  open_of :
      (flags fuse_flags : ℕ)
      → flags < 2 ^ 32
      → fuse_flags < 2 ^ 32
      → Encodes nodeid (open_file nodeid flags fuse_flags) 14 (mkdir_in flags fuse_flags)
  create_of :
      (name : List ℕ) (args : CreateIn)
      → NoZero name
      → args.flags < 2 ^ 32
      → args.mode < 2 ^ 32
      → args.umask < 2 ^ 32
      → args.fuse_flags < 2 ^ 32
      → Encodes nodeid (create nodeid name args) 35 (create_in args ++ (name ++ 0 ∷ []))
  fallocate_of :
      (fh offset len mode : ℕ)
      → fh < 2 ^ 64
      → offset < 2 ^ 64
      → len < 2 ^ 64
      → mode < 2 ^ 32
      → Encodes nodeid (fallocate nodeid fh mode offset len) 43 (fallocate_in fh offset len mode)
  lseek_of :
      (fh offset whence : ℕ)
      → fh < 2 ^ 64
      → offset < 2 ^ 64
      → whence < 2 ^ 32
      → Encodes nodeid (lseek nodeid fh offset whence) 46 (lseek_in fh offset whence)

module _ (env : Env) (sent : List (List ℕ)) (memory : List ℕ) (ready : Ready env sent memory)
    (fs_options page : ℕ) where
  abbrev arm : ℕ → Handler env ℕ
  arm opcode =
      run_arm fs_options page env (arm_for fs_options page env opcode (arms fs_options page env))

  encoded-Calls :
      {q : Request} {opcode : ℕ} {body : List ℕ}
      → Encodes env.header.nodeid q opcode body
      → env.header.len ≡ 40 + length body
      → Calls env sent memory (is_quiet opcode) q body (arm opcode)
  unfolding arm_for to_bytes
  encoded-Calls (lookup_of name h) len =
      lookup-Calls env sent memory ready name (omega (arith, len)) h
  encoded-Calls (forget_of nlookup hn) len = forget-Calls env sent memory ready nlookup hn
  encoded-Calls (mknod_of name mode rdev umask h hm hr hu) len =
      mknod-Calls env sent memory ready name mode rdev umask (omega (arith, len)) h hm hr hu
  encoded-Calls (mkdir_of name mode umask h hm hu) len =
      mkdir-Calls env sent memory ready name mode umask (omega (arith, len)) h hm hu
  encoded-Calls (unlink_of name h) len =
      unlink-Calls env sent memory ready name (omega (arith, len)) h
  encoded-Calls (rmdir_of name h) len =
      rmdir-Calls env sent memory ready name (omega (arith, len)) h
  encoded-Calls (link_of name oldnodeid h ho) len =
      link-Calls env sent memory ready name oldnodeid (omega (arith, len)) h ho
  encoded-Calls (open_of flags fuse_flags hf hu) len =
      open-Calls env sent memory ready flags fuse_flags hf hu
  encoded-Calls (create_of name args h hf hm hu hff) len =
      create-Calls env sent memory ready name args.flags args.mode args.umask args.fuse_flags
        (omega (arith, len)) h hf hm hu hff
  encoded-Calls (fallocate_of fh offset len' mode hf ho hl hm) len =
      fallocate-Calls env sent memory ready fh offset len' mode hf ho hl hm
  encoded-Calls (lseek_of fh offset whence hf ho hw) len =
      lseek-Calls env sent memory ready fh offset whence hf ho hw

  -- Past the test of the size.
  request-Calls :
      {q : Request} {body : List ℕ}
      → Encodes env.header.nodeid q env.header.opcode body
      → env.header.len ≡ 40 + length body
      → env.header.len ≤ max_buffer_size + buffer_header_size
      → Calls env sent memory
          (is_quiet env.header.opcode)
          q
          body
          (handle_request fs_options page env)
  unfolding handle_request serve_opcode
  request-Calls e len small = record {
    at = λ vers r fs fits is.
        rw (not_beyond (max_buffer_size + buffer_header_size) env.header.len small)
          ((encoded-Calls e len).at vers r fs fits is);
  }

-- What is left after a message for which the file system was called as told.
abbrev pub CallMade :
    (system : FileSystem)
    → List (List ℕ)
    → InHeader
    → system.State
    → Served system × Outcome Error ℕ
    → Type 0
CallMade system sent header fs (s, o) =
    (s.fs ≡ fs) × AtMostOne sent header.unique (is_quiet header.opcode) (s.dev, o)

module _ (fs_options page : ℕ) (slices : VolatileSlices) (system : FileSystem)
    (device : List (List ℕ) → List ℕ → ℕ ⊎ ℕ)
    (takes : (before : List (List ℕ)) (bytes : List ℕ)
      → device before bytes ≡ inr (length bytes)) where
  served-CallMade :
      (sent : List (List ℕ)) (memory : List ℕ) (fs : system.State) (header : InHeader)
      (context : Context)
      (x : Session (env_of fs_options page slices system device header context) × Outcome Error ℕ)
      → Ends
          (env_of fs_options page slices system device header context)
          sent
          memory
          (is_quiet header.opcode)
          fs
          x
      → CallMade system sent header fs
          (served_by fs_options page slices system device header context x)
  served-CallMade sent memory fs header context (s, o) ends = ends

  -- A request of the protocol, one of lookup, forget, mknod, mkdir, unlink, rmdir, link, open,
  -- create, fallocate and lseek with numbers of the widths of their fields, written behind its
  -- header and held by the reader in whatever buffers, is served by exactly this call of the file
  -- system, for the context that the header is mapped to, and at most one message with the request's
  -- number is sent; it is where the length in the header is that of the message and not above the
  -- server's limit, the writer has nothing in it yet and room for a header, and the device takes
  -- messages whole.
  pub handle_message-CallMade :
      (vers : ServerVersion) (sent : List (List ℕ)) (memory : List ℕ) (fs : system.State)
      (r : IoBuffers slices) (header : InHeader) (context : Context) (q : Request) (body : List ℕ)
      → 16 ≤ length memory
      → length memory < 2 ^ 32
      → InRange header
      → Encodes header.nodeid q header.opcode body
      → header.len ≡ 40 + length body
      → header.len ≤ 0x10_1000
      → system.id_remap fs (context_from header) ≡ inr context
      → Fits slices r
      → left_in slices r ≡ header_bytes header ++ body
      → CallMade system sent header (system.serve context q fs).0 (
          handle_message fs_options page slices system device
            (record {
              vers = vers;
              dev = record { sent = sent; writer = fresh false memory };
              fs = fs;
            })
            r)
  unfolding handle_message
  handle_message-CallMade vers sent memory fs r header context q body room small range e len limit
        mapped fits is =
      let sized = length-header_bytes header in
      let (behind, at, leaves) =
        read_obj-take slices r 40 fits
          (omega (arith, ap length is, length-append (header_bytes header) body, sized)) in
      let shown : in_header_from (take 40 (left_in slices r)) ≡ header =
        ap (λ l. in_header_from (take 40 l)) is
        ∙ ap (λ n. in_header_from (take n (header_bytes header ++ body))) (sym sized)
        ∙ ap in_header_from (take_head (header_bytes header) body)
        ∙ in_header_from-header_bytes header range in
      let left : left_in slices (used slices r behind 40) ≡ body =
        leaves
        ∙ ap (drop 40) is
        ∙ ap (λ n. drop n (header_bytes header ++ body)) (sym sized)
        ∙ drop_head (header_bytes header) body in
      let env = env_of fs_options page slices system device header context in
      rw (at, shown, mapped)
        (served-CallMade sent memory (system.serve context q fs).0 header context
          (handle_request fs_options page env
            (begun env sent memory vers (used slices r behind 40) fs))
          ((request-Calls env sent memory
              (record { takes = takes; room = room; small = small; unique = range.unique })
              fs_options page e len limit).at
            vers (used slices r behind 40) fs
            (omega (
              arith,
              ap length left,
              ap length is,
              length-append (header_bytes header) body,
              sized,
            ))
            left))
