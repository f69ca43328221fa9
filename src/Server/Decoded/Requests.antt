-- ===== src/Server/Decoded/Requests.antt =====
-- The handlers of src/api/server/sync_io.rs on bodies that hold a request.
use fuse_backend_rs.Prelude.{
  ℕ, ◌+◌, ◌^◌, ◌<◌, ◌≡◌, refl, ap, true, false, List, [], ◌∷◌, ◌++◌, length,
}
use fuse_backend_rs.Prelude.Words.{
  to_bytes, from_bytes, from_bytes-to_bytes_4, from_bytes-to_bytes_8,
}
use fuse_backend_rs.Server.Decoded.{Calls, Calls-read_struct, Calls-named, Calls-tell, Calls-ask}
use fuse_backend_rs.Server.Handled.Files.{reply_opened-Replies, reply_long-Replies}
use fuse_backend_rs.Server.Handled.Nodes.{
  reply_entry-Replies, reply_lookup-Replies, reply_created-Replies,
}
use fuse_backend_rs.Server.Handlers.Files.{open_handler, lseek_handler, fallocate_handler}
use fuse_backend_rs.Server.Handlers.Forgets.{forget_handler}
use fuse_backend_rs.Server.Handlers.Nodes.{
  lookup_handler, mknod_handler, mkdir_handler, unlink_handler, rmdir_handler, link_handler,
  create_handler, create_in_from,
}
use fuse_backend_rs.Server.Names.{NoZero}
use fuse_backend_rs.Server.Once.{Ready, Replies-reply_nothing}
use fuse_backend_rs.Server.Request.{
  CreateIn, lookup, forget, mknod, mkdir, unlink, rmdir, link, create, open_file, lseek, fallocate,
}
use fuse_backend_rs.Server.Session.{Env}

-- Structures of src/abi/fuse_abi_linux.rs as a client writes them.
abbrev pub mknod_in : ℕ → ℕ → ℕ → List ℕ
mknod_in mode rdev umask =
    to_bytes 4 mode ++ (to_bytes 4 rdev ++ (to_bytes 4 umask ++ to_bytes 4 0))

-- `MkdirIn`, and `OpenIn`, which has two fields of that size as well.
abbrev pub mkdir_in : ℕ → ℕ → List ℕ
mkdir_in mode umask = to_bytes 4 mode ++ to_bytes 4 umask

abbrev pub create_in : CreateIn → List ℕ
create_in c =
    to_bytes 4 c.flags ++ (to_bytes 4 c.mode ++ (to_bytes 4 c.umask ++ to_bytes 4 c.fuse_flags))

abbrev pub lseek_in : ℕ → ℕ → ℕ → List ℕ
lseek_in fh offset whence =
    to_bytes 8 fh ++ (to_bytes 8 offset ++ (to_bytes 4 whence ++ to_bytes 4 0))

abbrev pub fallocate_in : ℕ → ℕ → ℕ → ℕ → List ℕ
fallocate_in fh offset len mode =
    to_bytes 8 fh ++ (to_bytes 8 offset ++ (to_bytes 8 len ++ (to_bytes 4 mode ++ to_bytes 4 0)))

module _ (env : Env) (sent : List (List ℕ)) (memory : List ℕ) (ready : Ready env sent memory) where
  abbrev named : List ℕ → List ℕ
  named name = name ++ 0 ∷ []

  pub lookup-Calls :
      (name : List ℕ)
      → env.header.len ≡ 40 + 0 + length (named name)
      → NoZero name
      → Calls env sent memory false
          (lookup env.header.nodeid name)
          (named name)
          (lookup_handler env)
  unfolding lookup_handler
  lookup-Calls name len h =
      Calls-named env sent memory 0 name _ len h
        (Calls-ask env sent memory ready _ _ [] _ refl (reply_lookup-Replies env sent memory ready))

  pub mknod-Calls :
      (name : List ℕ) (mode rdev umask : ℕ)
      → env.header.len ≡ 40 + 16 + length (named name)
      → NoZero name
      → mode < 2 ^ 32
      → rdev < 2 ^ 32
      → umask < 2 ^ 32
      → Calls env sent memory false
          (mknod env.header.nodeid name mode rdev umask)
          (mknod_in mode rdev umask ++ named name)
          (mknod_handler env)
  unfolding mknod_handler to_bytes from_bytes
  mknod-Calls name mode rdev umask len h hm hr hu =
      Calls-read_struct env sent memory (mknod_in mode rdev umask) (named name) _ (
        Calls-named env sent memory 16 name _ len h (
          Calls-ask env sent memory ready _ _ [] _
            (cc (
              from_bytes-to_bytes_4 mode hm,
              from_bytes-to_bytes_4 rdev hr,
              from_bytes-to_bytes_4 umask hu,
            ))
            (reply_entry-Replies env sent memory ready)))

  pub forget-Calls :
      (nlookup : ℕ)
      → nlookup < 2 ^ 64
      → Calls env sent memory true
          (forget env.header.nodeid nlookup)
          (to_bytes 8 nlookup)
          (forget_handler env)
  unfolding forget_handler to_bytes from_bytes
  forget-Calls nlookup h = Calls-read_struct env sent memory (to_bytes 8 nlookup) [] _ (
      Calls-tell env sent memory _ _ []
        (ap (forget env.header.nodeid) (from_bytes-to_bytes_8 nlookup h)))

  pub mkdir-Calls :
      (name : List ℕ) (mode umask : ℕ)
      → env.header.len ≡ 40 + 8 + length (named name)
      → NoZero name
      → mode < 2 ^ 32
      → umask < 2 ^ 32
      → Calls env sent memory false
          (mkdir env.header.nodeid name mode umask)
          (mkdir_in mode umask ++ named name)
          (mkdir_handler env)
  unfolding mkdir_handler to_bytes from_bytes
  mkdir-Calls name mode umask len h h0 h1 =
      Calls-read_struct env sent memory (mkdir_in mode umask) (named name) _ (
        Calls-named env sent memory 8 name _ len h (
          Calls-ask env sent memory ready _ _ [] _
            (cc (from_bytes-to_bytes_4 mode h0, from_bytes-to_bytes_4 umask h1))
            (reply_entry-Replies env sent memory ready)))

  pub unlink-Calls :
      (name : List ℕ)
      → env.header.len ≡ 40 + 0 + length (named name)
      → NoZero name
      → Calls env sent memory false
          (unlink env.header.nodeid name)
          (named name)
          (unlink_handler env)
  unfolding unlink_handler
  unlink-Calls name len h =
      Calls-named env sent memory 0 name _ len h (
        Calls-ask env sent memory ready _ _ [] _ refl (Replies-reply_nothing env sent memory ready))

  pub rmdir-Calls :
      (name : List ℕ)
      → env.header.len ≡ 40 + 0 + length (named name)
      → NoZero name
      → Calls env sent memory false (rmdir env.header.nodeid name) (named name) (rmdir_handler env)
  unfolding rmdir_handler
  rmdir-Calls name len h =
      Calls-named env sent memory 0 name _ len h (
        Calls-ask env sent memory ready _ _ [] _ refl (Replies-reply_nothing env sent memory ready))

  pub link-Calls :
      (name : List ℕ) (oldnodeid : ℕ)
      → env.header.len ≡ 40 + 8 + length (named name)
      → NoZero name
      → oldnodeid < 2 ^ 64
      → Calls env sent memory false
          (link oldnodeid env.header.nodeid name)
          (to_bytes 8 oldnodeid ++ named name)
          (link_handler env)
  unfolding link_handler to_bytes from_bytes
  link-Calls name oldnodeid len h h0 =
      Calls-read_struct env sent memory (to_bytes 8 oldnodeid) (named name) _ (
        Calls-named env sent memory 8 name _ len h (
          Calls-ask env sent memory ready _ _ [] _ (cc (from_bytes-to_bytes_8 oldnodeid h0))
            (reply_entry-Replies env sent memory ready)))

  pub create-Calls :
      (name : List ℕ) (flags mode umask fuse_flags : ℕ)
      → env.header.len ≡ 40 + 16 + length (named name)
      → NoZero name
      → flags < 2 ^ 32
      → mode < 2 ^ 32
      → umask < 2 ^ 32
      → fuse_flags < 2 ^ 32
      → let args : CreateIn = record {
        flags = flags;
        mode = mode;
        umask = umask;
        fuse_flags = fuse_flags;
      } in
        Calls env sent memory false
          (create env.header.nodeid name args)
          (create_in args ++ named name)
          (create_handler env)
  unfolding create_handler to_bytes from_bytes
  create-Calls name flags mode umask fuse_flags len h hf hm hu hff =
      let args : CreateIn = record {
        flags = flags;
        mode = mode;
        umask = umask;
        fuse_flags = fuse_flags;
      } in
      let same : create_in_from env (create_in args) ≡ args = λ i. record {
        flags = from_bytes-to_bytes_4 flags hf i;
        mode = from_bytes-to_bytes_4 mode hm i;
        umask = from_bytes-to_bytes_4 umask hu i;
        fuse_flags = from_bytes-to_bytes_4 fuse_flags hff i;
      } in
      Calls-read_struct env sent memory (create_in args) (named name) _ (
        Calls-named env sent memory 16 name _ len h (
          Calls-ask env sent memory ready _ _ [] _ (ap (create env.header.nodeid name) same)
            (reply_created-Replies env sent memory ready)))

  pub open-Calls :
      (flags fuse_flags : ℕ)
      → flags < 2 ^ 32
      → fuse_flags < 2 ^ 32
      → Calls env sent memory false
          (open_file env.header.nodeid flags fuse_flags)
          (mkdir_in flags fuse_flags)
          (open_handler env)
  unfolding open_handler to_bytes from_bytes
  open-Calls flags fuse_flags h0 h1 =
      Calls-read_struct env sent memory (mkdir_in flags fuse_flags) [] _ (
        Calls-ask env sent memory ready _ _ [] _
          (cc (from_bytes-to_bytes_4 flags h0, from_bytes-to_bytes_4 fuse_flags h1))
          (reply_opened-Replies env sent memory ready))

  pub lseek-Calls :
      (fh offset whence : ℕ)
      → fh < 2 ^ 64
      → offset < 2 ^ 64
      → whence < 2 ^ 32
      → Calls env sent memory false
          (lseek env.header.nodeid fh offset whence)
          (lseek_in fh offset whence)
          (lseek_handler env)
  unfolding lseek_handler to_bytes from_bytes
  lseek-Calls fh offset whence h0 h1 h2 =
      Calls-read_struct env sent memory (lseek_in fh offset whence) [] _ (
        Calls-ask env sent memory ready _ _ [] _
          (cc (
            from_bytes-to_bytes_8 fh h0,
            from_bytes-to_bytes_8 offset h1,
            from_bytes-to_bytes_4 whence h2,
          ))
          (reply_long-Replies env sent memory ready))

  pub fallocate-Calls :
      (fh offset len mode : ℕ)
      → fh < 2 ^ 64
      → offset < 2 ^ 64
      → len < 2 ^ 64
      → mode < 2 ^ 32
      → Calls env sent memory false
          (fallocate env.header.nodeid fh mode offset len)
          (fallocate_in fh offset len mode)
          (fallocate_handler env)
  unfolding fallocate_handler to_bytes from_bytes
  fallocate-Calls fh offset len mode h0 h1 h2 h3 =
      Calls-read_struct env sent memory (fallocate_in fh offset len mode) [] _ (
        Calls-ask env sent memory ready _ _ [] _
          (cc (
            from_bytes-to_bytes_8 fh h0,
            from_bytes-to_bytes_8 offset h1,
            from_bytes-to_bytes_8 len h2,
            from_bytes-to_bytes_4 mode h3,
          ))
          (Replies-reply_nothing env sent memory ready))
