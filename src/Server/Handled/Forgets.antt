-- ===== src/Server/Handled/Forgets.antt =====
-- The handlers that mostly do not reply, and `init`: at most one call and one reply.
use fuse_backend_rs.Prelude.{
  ℕ, zero, suc, ◌+◌, ◌-◌, ◌*◌, ◌≡◌, refl, ap, ◌⊎◌, inl, inr, true, false, Bool-cases, Option, none,
  some, List, [], ltb, ◌==◌, bit_and,
}
use fuse_backend_rs.Prelude.Outcome.{Outcome, ok, err, panic}
use fuse_backend_rs.Prelude.Run.{result, ◌>>=◌, >>=_assoc}
use fuse_backend_rs.Prelude.Words.{field}
use fuse_backend_rs.Fusedev.{Dev, IoError, raw_os_error}
use fuse_backend_rs.Server.{Error, decode_message}
use fuse_backend_rs.Server.Handlers.Forgets.{
  forget_handler, read_forgets, forget_batch, batch_forget_handler, no_answer, notify_reply_handler,
  destroyed, destroy_handler, interrupt_handler, initiated, init_handler, max_buffer_size,
  buffer_header_size,
}
use fuse_backend_rs.Server.Init.{
  ServerVersion, started, with_flags, extended, same_major, negotiated, init_out, version_only,
  known_part, enabled_out, eproto, kernel_version, init_ext,
}
use fuse_backend_rs.Server.Init
use fuse_backend_rs.Server.Once.{
  Ready, Replies, Serves, Once, Ends, begun, Serves-read_struct, Serves-ask, Serves-err,
  Replies-reply_nothing, reply-AtMostOne, error-AtMostOne,
}
use fuse_backend_rs.Server.Request.{Request, destroy}
use fuse_backend_rs.Server.Sending.{fresh}
use fuse_backend_rs.Server.Session.{Env, Session, Handler, read_struct, tell, reply_nothing}
use fuse_backend_rs.Transport.{IoBuffers, TransportError, read_obj}

module _ (env : Env) (sent : List (List ℕ)) (memory : List ℕ) where
  Serves-tell : (q : Request) → Serves env sent memory true (tell env q)
  unfolding tell
  Serves-tell q = record {
    at = λ vers r fs. inr (inl (q, (refl, inl (refl, inr (inr (refl, refl))))));
  }

  Serves-done : Serves env sent memory true (result (ok 0))
  Serves-done = record { at = λ vers r fs. inl (refl, inl (refl, inr (inr (refl, refl)))) }

  pub forget-Serves : Serves env sent memory true (forget_handler env)
  unfolding forget_handler
  forget-Serves = Serves-read_struct env sent memory 8 _ λ forget_in. Serves-tell _

  -- Whatever follows the structures.
  Serves-read_forgets :
      (count : ℕ) (k : List (ℕ × ℕ) → Handler env ℕ)
      → ((requests : List (ℕ × ℕ)) → Serves env sent memory true (k requests))
      → Serves env sent memory true (read_forgets env count >>= k)
  unfolding read_forgets
  Serves-read_forgets zero k rest = rest []
  Serves-read_forgets (suc count) k rest = rw (>>=_assoc (read_struct env 16) _ k) (
      Serves-read_struct env sent memory 16 _ λ one.
        rw (>>=_assoc (read_forgets env count) _ k)
          (Serves-read_forgets count _ λ requests. rest _))

  forget_batch-Serves : (count : ℕ) → Serves env sent memory true (forget_batch env count)
  unfolding forget_batch
  forget_batch-Serves count =
      elim (Bool-cases (ltb (max_buffer_size + buffer_header_size - 8 - 40) (count * 16))) [
        | inl t ↦ rw t (Serves-err env sent memory _)
        | inr f ↦ rw f (Serves-read_forgets count _ λ requests. Serves-tell _)
      ]

  pub batch_forget-Serves : Serves env sent memory true (batch_forget_handler env)
  unfolding batch_forget_handler
  batch_forget-Serves = Serves-read_struct env sent memory 8 _ λ one. forget_batch-Serves _

  pub interrupt-Serves : Serves env sent memory true (interrupt_handler env)
  unfolding interrupt_handler
  interrupt-Serves = Serves-done

  no_answer-Replies : (done : Unit {0}) → Replies env sent memory true (no_answer env done)
  unfolding no_answer
  no_answer-Replies done = record { at = λ vers r fs. (refl, inl (refl, inr (inr (refl, refl)))) }

module _ (env : Env) (sent : List (List ℕ)) (memory : List ℕ) (ready : Ready env sent memory) where
  pub notify_reply-Serves : Serves env sent memory true (notify_reply_handler env)
  unfolding notify_reply_handler
  notify_reply-Serves = Serves-ask env sent memory ready _ _ (no_answer-Replies env sent memory)

  destroyed-Ends :
      (fs : env.system.State) (x : Session env × Outcome Error ℕ)
      → Ends env sent memory true fs x
      → Ends env sent memory true fs (destroyed env x)
  destroyed-Ends fs (s, ok n) (same, inl (silent, why)) =
      (same, inl (silent, inr (inr (refl, refl))))
  destroyed-Ends fs (s, ok n) (same, inr one) = (same, inr one)
  destroyed-Ends fs (s, err e) (same, inl (silent, why)) =
      (same, inl (silent, inr (inr (refl, refl))))
  destroyed-Ends fs (s, err e) (same, inr one) = (same, inr one)
  destroyed-Ends fs (s, panic) ends = ends

  pub destroy-Serves : Serves env sent memory true (destroy_handler env)
  unfolding destroy_handler tell
  destroy-Serves = record {
    at = λ vers r fs. inr (
        inl (
          destroy,
          destroyed-Ends (env.system.serve env.context destroy fs).0
              (reply_nothing env tt
                (begun env sent memory vers r (env.system.serve env.context destroy fs).0))
              ((Replies-reply_nothing env sent memory ready tt).at vers r
                (env.system.serve env.context destroy fs).0),
        ));
  }

  module _ (fs_options page : ℕ) (vers : ServerVersion) (r : IoBuffers env.slices)
      (fs : env.system.State) where
    abbrev device : List (List ℕ) → List ℕ → ℕ ⊎ ℕ
    device = env.device

    abbrev start : Dev
    start = record { sent = sent; writer = fresh false memory }

    -- What is shown of each part of `init`.
    abbrev Initiates : Option (ServerVersion × env.system.State × (Dev × Outcome Error ℕ)) → Type 0
    Initiates x = Once env sent memory false fs (initiated env (begun env sent memory vers r fs) x)

    started-Once :
        (minor max_readahead capable opts : ℕ) (x : env.system.State × Outcome IoError ℕ)
        → x ≡ env.system.init opts fs
        → Initiates (
            some (
              started fs_options page env.system.init device env.header.unique vers minor
                max_readahead capable x start))
    started-Once minor max_readahead capable opts (fs', ok want) e =
        inr (inr (opts, (ap (λ y. y.0) e, reply-AtMostOne env sent memory ready _ [])))
    started-Once minor max_readahead capable opts (fs', err e') e =
        inr (inr (opts, (ap (λ y. y.0) e, error-AtMostOne env sent memory ready e')))
    started-Once minor max_readahead capable opts (fs', panic) e =
        inr (inr (opts, (ap (λ y. y.0) e, inl (refl, inr (inl refl)))))

    extended-Once :
        (minor max_readahead flags : ℕ)
        (x : Option (Outcome TransportError (IoBuffers env.slices × List ℕ)))
        → Initiates (
            extended fs_options page env.system.init device env.header.unique env.slices vers minor
              max_readahead flags fs start x)
    extended-Once minor max_readahead flags none = inl (refl, inl (refl, inr (inl refl)))
    extended-Once minor max_readahead flags (some panic) = inl (refl, inl (refl, inr (inl refl)))
    extended-Once minor max_readahead flags (some (err e)) =
        inl (refl, inl (refl, inl (decode_message (inl e), refl)))
    extended-Once minor max_readahead flags (some (ok (r', init_in2))) =
        started-Once minor max_readahead _ _ _ refl

    same_major-Once :
        (minor max_readahead flags : ℕ) (r' : IoBuffers env.slices)
        → Initiates (
            same_major fs_options page env.system.init device env.header.unique env.slices vers
              minor max_readahead flags r' fs start)
    same_major-Once minor max_readahead flags r' = elim (Bool-cases (bit_and flags init_ext == 0)) [
      | inl t ↦ rw t (started-Once minor max_readahead _ _ _ refl)
      | inr f ↦ rw f (extended-Once minor max_readahead flags _)
    ]

    negotiated-Once :
        (x : Option (Outcome TransportError (IoBuffers env.slices × List ℕ)))
        → Initiates (
            negotiated fs_options page env.system.init device env.header.unique env.slices vers fs
              start x)
    negotiated-Once none = inl (refl, inl (refl, inr (inl refl)))
    negotiated-Once (some panic) = inl (refl, inl (refl, inr (inl refl)))
    negotiated-Once (some (err e)) = inl (refl, inl (refl, inl (decode_message (inl e), refl)))
    negotiated-Once (some (ok (r', b))) = elim (Bool-cases (ltb (field 0 4 b) kernel_version)) [
      | inl t ↦ rw t (inl (refl, error-AtMostOne env sent memory ready (raw_os_error eproto)))
      | inr f ↦ elim (Bool-cases (ltb kernel_version (field 0 4 b))) [
        | inl t ↦ rw (f, t) (inl (refl, reply-AtMostOne env sent memory ready _ []))
        | inr f' ↦ rw (f, f') (same_major-Once (field 4 4 b) (field 8 4 b) (field 12 4 b) r')
      ]
    ]

  pub init-Serves :
      (fs_options page : ℕ) → Serves env sent memory false (init_handler env fs_options page)
  unfolding init_handler Init.init
  init-Serves fs_options page = record {
    at = λ vers r fs. negotiated-Once fs_options page vers r fs (read_obj env.slices r 16);
  }
