-- ===== src/Server/Handled/Attributes.antt =====
-- The handlers on attributes: at most one call and one reply.
use fuse_backend_rs.Prelude.{
  ℕ, ◌^◌, ◌%◌, false, Bool-cases, inl, inr, List, [], ◌==◌, length, Option, none, some,
}
use fuse_backend_rs.Server.{missing_parameter, at_zero}
use fuse_backend_rs.Server.Handlers.Attributes.{
  getattr_handler, setattr_handler, reply_bytes, readlink_handler, reply_statfs, statfs_handler,
  set_value, setxattr_handler, reply_xattr, getxattr_handler, listxattr_handler,
  removexattr_handler, access_handler,
}
use fuse_backend_rs.Server.Once.{
  Ready, Replies, Serves, Serves-read_struct, Serves-message_body, Serves-c_string, Serves-named,
  Serves-err, Serves-ask, Replies-reply, Replies-reply_nothing,
}
use fuse_backend_rs.Server.Outputs.{attr_out, kstatfs, word_out}
use fuse_backend_rs.Server.Request.{Statvfs64, XattrReply, value, count}
use fuse_backend_rs.Server.Session.{Env, reply_attr}
use fuse_backend_rs.Server.Wire.{Stat64, Duration}

module _ (env : Env) (sent : List (List ℕ)) (memory : List ℕ) (ready : Ready env sent memory) where
  reply_bytes-Replies : (bytes : List ℕ) → Replies env sent memory false (reply_bytes env bytes)
  unfolding reply_bytes
  reply_bytes-Replies bytes = Replies-reply env sent memory ready [] bytes

  reply_statfs-Replies : (st : Statvfs64) → Replies env sent memory false (reply_statfs env st)
  unfolding reply_statfs
  reply_statfs-Replies st = Replies-reply env sent memory ready (kstatfs st) []

  pub reply_attr-Replies :
      (answer : Stat64 × Duration) → Replies env sent memory false (reply_attr env answer)
  unfolding reply_attr
  reply_attr-Replies (st, timeout) = Replies-reply env sent memory ready (attr_out st timeout) []

  pub reply_xattr-Replies :
      (answer : XattrReply) → Replies env sent memory false (reply_xattr env answer)
  unfolding reply_xattr
  reply_xattr-Replies (value val) = Replies-reply env sent memory ready [] val
  reply_xattr-Replies (count n) = Replies-reply env sent memory ready (word_out n) []

  set_value-Serves :
      (size flags : ℕ) (parts : Option (List ℕ × List ℕ))
      → Serves env sent memory false (set_value env size flags parts)
  set_value-Serves size flags none = Serves-err env sent memory missing_parameter
  set_value-Serves size flags (some (before, behind)) =
      elim (Bool-cases (size == length behind % 2 ^ 32)) [
        | inl t ↦ rw t (
            Serves-c_string env sent memory ready _ _ λ name.
              Serves-ask env sent memory ready _ _ (Replies-reply_nothing env sent memory ready))
        | inr f ↦ rw f (Serves-err env sent memory _)
      ]

  pub getattr-Serves : Serves env sent memory false (getattr_handler env)
  unfolding getattr_handler
  getattr-Serves =
      Serves-read_struct env sent memory 16 _
        λ getattr_in. Serves-ask env sent memory ready _ _ reply_attr-Replies

  pub setattr-Serves : Serves env sent memory false (setattr_handler env)
  unfolding setattr_handler
  setattr-Serves =
      Serves-read_struct env sent memory 88 _
        λ setattr_in. Serves-ask env sent memory ready _ _ reply_attr-Replies

  pub readlink-Serves : Serves env sent memory false (readlink_handler env)
  unfolding readlink_handler
  readlink-Serves = Serves-ask env sent memory ready _ _ reply_bytes-Replies

  pub statfs-Serves : Serves env sent memory false (statfs_handler env)
  unfolding statfs_handler
  statfs-Serves = Serves-ask env sent memory ready _ _ reply_statfs-Replies

  pub setxattr-Serves : Serves env sent memory false (setxattr_handler env)
  unfolding setxattr_handler
  setxattr-Serves = Serves-read_struct env sent memory 8 _ λ setxattr_in.
      Serves-message_body env sent memory 8 _ λ buf. set_value-Serves _ _ (at_zero buf)

  pub getxattr-Serves : Serves env sent memory false (getxattr_handler env)
  unfolding getxattr_handler
  getxattr-Serves = Serves-read_struct env sent memory 8 _ λ getxattr_in.
      Serves-named env sent memory ready 8 _
        λ name. Serves-ask env sent memory ready _ _ reply_xattr-Replies

  pub listxattr-Serves : Serves env sent memory false (listxattr_handler env)
  unfolding listxattr_handler
  listxattr-Serves =
      Serves-read_struct env sent memory 8 _
        λ getxattr_in. Serves-ask env sent memory ready _ _ reply_xattr-Replies

  pub removexattr-Serves : Serves env sent memory false (removexattr_handler env)
  unfolding removexattr_handler
  removexattr-Serves =
      Serves-named env sent memory ready 0 _
        λ name. Serves-ask env sent memory ready _ _ (Replies-reply_nothing env sent memory ready)

  pub access-Serves : Serves env sent memory false (access_handler env)
  unfolding access_handler
  access-Serves = Serves-read_struct env sent memory 8 _ λ access_in.
      Serves-ask env sent memory ready _ _ (Replies-reply_nothing env sent memory ready)
