-- ===== src/Server/Handled/Nodes.antt =====
-- The handlers on names: at most one call and one reply.
use fuse_backend_rs.Prelude.{ℕ, ◌&&◌, false, Bool-cases, inl, inr, List, [], ◌==◌, ltb}
use fuse_backend_rs.Fusedev.{raw_os_error}
use fuse_backend_rs.Server.{extract_two_cstrs}
use fuse_backend_rs.Server.Handlers.Nodes.{
  enoent, negative_entry_zero, reply_entry, reply_lookup, lookup_handler, symlink_handler,
  mknod_handler, mkdir_handler, unlink_handler, rmdir_handler, do_rename, rename_handler,
  rename2_handler, link_handler, reply_created, create_handler,
}
use fuse_backend_rs.Server.Once.{
  Ready, Replies, Serves, Serves-read_struct, Serves-message_body, Serves-named, Serves-outcome,
  Serves-ask, Replies-reply, Replies-reply_error, Replies-reply_nothing,
}
use fuse_backend_rs.Server.Outputs.{created_out, open_out}
use fuse_backend_rs.Server.Request.{Opened}
use fuse_backend_rs.Server.Session.{Env}
use fuse_backend_rs.Server.Wire.{Entry, entry_out}

module _ (env : Env) (sent : List (List ℕ)) (memory : List ℕ) (ready : Ready env sent memory) where
  pub reply_entry-Replies : (entry : Entry) → Replies env sent memory false (reply_entry env entry)
  unfolding reply_entry
  reply_entry-Replies entry = Replies-reply env sent memory ready (entry_out entry) []

  pub reply_lookup-Replies :
      (entry : Entry) → Replies env sent memory false (reply_lookup env entry)
  unfolding reply_lookup
  reply_lookup-Replies entry = record {
    at = λ vers r fs. elim (Bool-cases (ltb vers.minor negative_entry_zero && (entry.inode == 0))) [
      | inl t ↦
          rw t ((Replies-reply_error env sent memory ready (raw_os_error enoent)).at vers r fs)
      | inr f ↦ rw f ((Replies-reply env sent memory ready (entry_out entry) []).at vers r fs)
    ];
  }

  pub reply_created-Replies :
      (created : Entry × Opened) → Replies env sent memory false (reply_created env created)
  unfolding reply_created
  reply_created-Replies (entry, opened) =
      Replies-reply env sent memory ready (created_out entry) (open_out opened)

  pub lookup-Serves : Serves env sent memory false (lookup_handler env)
  unfolding lookup_handler
  lookup-Serves =
      Serves-named env sent memory ready 0 _
        λ name. Serves-ask env sent memory ready _ _ reply_lookup-Replies

  pub symlink-Serves : Serves env sent memory false (symlink_handler env)
  unfolding symlink_handler
  symlink-Serves = Serves-message_body env sent memory 0 _ λ buf.
      Serves-outcome env sent memory (extract_two_cstrs buf) _
        λ (name, linkname). Serves-ask env sent memory ready _ _ reply_entry-Replies

  pub mknod-Serves : Serves env sent memory false (mknod_handler env)
  unfolding mknod_handler
  mknod-Serves = Serves-read_struct env sent memory 16 _ λ mknod_in.
      Serves-named env sent memory ready 16 _
        λ name. Serves-ask env sent memory ready _ _ reply_entry-Replies

  pub mkdir-Serves : Serves env sent memory false (mkdir_handler env)
  unfolding mkdir_handler
  mkdir-Serves = Serves-read_struct env sent memory 8 _ λ mkdir_in.
      Serves-named env sent memory ready 8 _
        λ name. Serves-ask env sent memory ready _ _ reply_entry-Replies

  pub unlink-Serves : Serves env sent memory false (unlink_handler env)
  unfolding unlink_handler
  unlink-Serves =
      Serves-named env sent memory ready 0 _
        λ name. Serves-ask env sent memory ready _ _ (Replies-reply_nothing env sent memory ready)

  pub rmdir-Serves : Serves env sent memory false (rmdir_handler env)
  unfolding rmdir_handler
  rmdir-Serves =
      Serves-named env sent memory ready 0 _
        λ name. Serves-ask env sent memory ready _ _ (Replies-reply_nothing env sent memory ready)

  do_rename-Serves :
      (msg_size newdir flags : ℕ)
      → Serves env sent memory false (do_rename env msg_size newdir flags)
  unfolding do_rename
  do_rename-Serves msg_size newdir flags = Serves-message_body env sent memory msg_size _ λ buf.
      Serves-outcome env sent memory (extract_two_cstrs buf) _ λ (oldname, newname).
        Serves-ask env sent memory ready _ _ (Replies-reply_nothing env sent memory ready)

  pub rename-Serves : Serves env sent memory false (rename_handler env)
  unfolding rename_handler
  rename-Serves = Serves-read_struct env sent memory 8 _ λ rename_in. do_rename-Serves 8 _ 0

  pub rename2-Serves : Serves env sent memory false (rename2_handler env)
  unfolding rename2_handler
  rename2-Serves = Serves-read_struct env sent memory 16 _ λ rename_in. do_rename-Serves 16 _ _

  pub link-Serves : Serves env sent memory false (link_handler env)
  unfolding link_handler
  link-Serves = Serves-read_struct env sent memory 8 _ λ link_in.
      Serves-named env sent memory ready 8 _
        λ name. Serves-ask env sent memory ready _ _ reply_entry-Replies

  pub create-Serves : Serves env sent memory false (create_handler env)
  unfolding create_handler
  create-Serves = Serves-read_struct env sent memory 16 _ λ args.
      Serves-named env sent memory ready 16 _
        λ name. Serves-ask env sent memory ready _ _ reply_created-Replies
