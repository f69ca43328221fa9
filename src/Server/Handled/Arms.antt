-- ===== src/Server/Handled/Arms.antt =====
-- `handle_message` of src/api/server/sync_io.rs: at most one call of the file system, at most one
-- reply, whatever the message.
use fuse_backend_rs.Prelude.{
  ℕ, ◌+◌, refl, inl, inr, Bool, true, false, Bool-cases, ◌||◌, List, [], ◌∷◌, ◌==◌, ltb, ==_iff,
}
use fuse_backend_rs.Fusedev.{raw_os_error}
use fuse_backend_rs.Server.{invalid_message}
use fuse_backend_rs.Server.Dispatch.{
  enosys, arms, arm_for, run_arm, serve_opcode, is_forget, handle_request,
}
use fuse_backend_rs.Server.Handled.Attributes.{
  getattr-Serves, setattr-Serves, readlink-Serves, statfs-Serves, setxattr-Serves, getxattr-Serves,
  listxattr-Serves, removexattr-Serves, access-Serves,
}
use fuse_backend_rs.Server.Handled.Files.{
  open-Serves, opendir-Serves, flush-Serves, fsync-Serves, fsyncdir-Serves, fallocate-Serves,
  release-Serves, releasedir-Serves, getlk-Serves, setlk-Serves, setlkw-Serves, bmap-Serves,
  lseek-Serves, poll-Serves, ioctl-Serves,
}
use fuse_backend_rs.Server.Handled.Forgets.{
  forget-Serves, batch_forget-Serves, interrupt-Serves, notify_reply-Serves, destroy-Serves,
  init-Serves,
}
use fuse_backend_rs.Server.Handled.Nodes.{
  lookup-Serves, symlink-Serves, mknod-Serves, mkdir-Serves, unlink-Serves, rmdir-Serves,
  rename-Serves, rename2-Serves, link-Serves, create-Serves,
}
use fuse_backend_rs.Server.Handled.Transfer.{read-Serves, write-Serves, readdir-Serves}
use fuse_backend_rs.Server.Handlers.Forgets.{max_buffer_size, buffer_header_size}
use fuse_backend_rs.Server.Once.{Ready, Serves, Replies-reply_error}
use fuse_backend_rs.Server.ReadDir.{eoverflow, enomem}
use fuse_backend_rs.Server.Session.{Env, Handler}

-- The requests that may be done without a reply: forget, interrupt, destroy, notify_reply and
-- batch_forget.
abbrev pub is_quiet : ℕ → Bool
is_quiet opcode =
    (opcode == 2) || ((opcode == 36) || ((opcode == 38) || ((opcode == 41) || (opcode == 42))))

module _ (env : Env) (sent : List (List ℕ)) (memory : List ℕ) where
  -- Every arm serves requests of its number.
  abbrev AllServe : List (ℕ × Handler env ℕ) → Type 0
  AllServe [] = Unit {0}
  AllServe ((code, handler) ∷ rest) = Serves env sent memory (is_quiet code) handler × AllServe rest

  module _ (ready : Ready env sent memory) where
    arm_for-Serves :
        (fs_options page opcode : ℕ) (list : List (ℕ × Handler env ℕ))
        → AllServe list
        → Serves env sent memory
            (is_quiet opcode)
            (run_arm fs_options page env (arm_for fs_options page env opcode list))
    unfolding arm_for
    arm_for-Serves fs_options page opcode [] h = record {
      at = λ vers r fs.
          inl ((Replies-reply_error env sent memory ready (raw_os_error enosys)).at vers r fs);
    }
    arm_for-Serves fs_options page opcode ((code, handler) ∷ rest) (serves, others) =
        elim (Bool-cases (opcode == code)) [
          | inl t ↦ rw (t, (==_iff opcode code).0 t) serves
          | inr f ↦ rw f (arm_for-Serves fs_options page opcode rest others)
        ]

    arms-AllServe : (fs_options page : ℕ) → AllServe (arms fs_options page env)
    arms-AllServe fs_options page = (
      lookup-Serves env sent memory ready,
      (
        forget-Serves env sent memory,
        (
          getattr-Serves env sent memory ready,
          (
            setattr-Serves env sent memory ready,
            (
              readlink-Serves env sent memory ready,
              (
                symlink-Serves env sent memory ready,
                (
                  mknod-Serves env sent memory ready,
                  (
                    mkdir-Serves env sent memory ready,
                    (
                      unlink-Serves env sent memory ready,
                      (
                        rmdir-Serves env sent memory ready,
                        (
                          rename-Serves env sent memory ready,
                          (
                            link-Serves env sent memory ready,
                            (
                              open-Serves env sent memory ready,
                              (
                                read-Serves env sent memory ready,
                                (
                                  write-Serves env sent memory ready,
                                  (
                                    statfs-Serves env sent memory ready,
                                    (
                                      release-Serves env sent memory ready,
                                      (
                                        fsync-Serves env sent memory ready,
                                        (
                                          setxattr-Serves env sent memory ready,
                                          (
                                            getxattr-Serves env sent memory ready,
                                            (
                                              listxattr-Serves env sent memory ready,
                                              (
                                                removexattr-Serves env sent memory ready,
                                                (
                                                  flush-Serves env sent memory ready,
                                                  (
                                                    init-Serves env sent memory ready fs_options
                                                        page,
                                                    (
                                                      opendir-Serves env sent memory ready,
                                                      (
                                                        readdir-Serves env sent memory ready false,
                                                        (
                                                          releasedir-Serves env sent memory ready,
                                                          (
                                                            fsyncdir-Serves env sent memory ready,
                                                            (
                                                            getlk-Serves env sent memory ready,
                                                            (
                                                            setlk-Serves env sent memory ready,
                                                            (
                                                            setlkw-Serves env sent memory ready,
                                                            (
                                                            access-Serves env sent memory ready,
                                                            (
                                                            create-Serves env sent memory ready,
                                                            (
                                                            bmap-Serves env sent memory ready,
                                                            (
                                                            ioctl-Serves env sent memory ready,
                                                            (
                                                            poll-Serves env sent memory ready,
                                                            (
                                                            notify_reply-Serves env sent memory
                                                            ready,
                                                            (
                                                            batch_forget-Serves env sent memory,
                                                            (
                                                            fallocate-Serves env sent memory ready,
                                                            (
                                                            readdir-Serves env sent memory ready
                                                            true,
                                                            (
                                                            rename2-Serves env sent memory ready,
                                                            (
                                                            lseek-Serves env sent memory ready,
                                                            (
                                                            interrupt-Serves env sent memory,
                                                            (
                                                            destroy-Serves env sent memory ready,
                                                            tt,
                                                            ),
                                                            ),
                                                            ),
                                                            ),
                                                            ),
                                                            ),
                                                            ),
                                                            ),
                                                            ),
                                                            ),
                                                            ),
                                                            ),
                                                            ),
                                                            ),
                                                            ),
                                                            ),
                                                          ),
                                                        ),
                                                      ),
                                                    ),
                                                  ),
                                                ),
                                              ),
                                            ),
                                          ),
                                        ),
                                      ),
                                    ),
                                  ),
                                ),
                              ),
                            ),
                          ),
                        ),
                      ),
                    ),
                  ),
                ),
              ),
            ),
          ),
        ),
      ),
    )

    serve_opcode-Serves :
        (fs_options page : ℕ)
        → Serves env sent memory (is_quiet env.header.opcode) (serve_opcode fs_options page env)
    unfolding serve_opcode
    serve_opcode-Serves fs_options page =
        arm_for-Serves fs_options page env.header.opcode (arms fs_options page env)
          (arms-AllServe fs_options page)

    -- What is too large is not looked at; forgets are not replied to.
    pub handle_request-Serves :
        (fs_options page : ℕ)
        → Serves env sent memory (is_quiet env.header.opcode) (handle_request fs_options page env)
    unfolding handle_request
    handle_request-Serves fs_options page = record {
      at = λ vers r fs.
          elim (Bool-cases (ltb (max_buffer_size + buffer_header_size) env.header.len)) [
            | inl t ↦ elim (Bool-cases (is_forget fs_options page env env.header.opcode)) [
              | inl t' ↦
                  rw (t, t')
                    (inl (refl, inl (refl, inl (invalid_message (raw_os_error eoverflow), refl))))
              | inr f' ↦
                  rw (t, f')
                    (inl (
                      (Replies-reply_error env sent memory ready (raw_os_error enomem)).at vers r
                        fs))
            ]
            | inr f ↦ rw f ((serve_opcode-Serves fs_options page).at vers r fs)
          ];
    }
