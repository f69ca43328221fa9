-- ===== src/Server/Once.antt =====
-- One request of src/api/server/sync_io.rs: at most one call of the file system, at most one reply.
use fuse_backend_rs.Prelude.{
  ℕ, ◌+◌, ◌^◌, ◌≤◌, ◌<◌, ◌≡◌, refl, ◌⊎◌, inl, inr, Bool, true, false, Option, none, some, List, [],
  ◌∷◌, ◌++◌, length, arith,
}
use fuse_backend_rs.Prelude.Outcome.{Outcome, ok, err, panic}
use fuse_backend_rs.Prelude.Run.{result, goes_on, ◌>>=◌}
use fuse_backend_rs.Prelude.Words.{field}
use native.Mathlib.Decide.{dec_le}
use fuse_backend_rs.Fusedev.{Dev, IoError, raw_os_error, of_kind, invalid_data}
use fuse_backend_rs.Server.{Error, einval, encode_message, bytes_to_cstr, get_message_body}
use fuse_backend_rs.Server.Init.{ServerVersion}
use fuse_backend_rs.Server.Replies.{Sends, reply_ok-Sends, do_reply_error-Sends}
use fuse_backend_rs.Server.NoRoom.{reply_ok-full}
use fuse_backend_rs.Server.Reply.{reply_ok, do_reply_error, error_code}
use fuse_backend_rs.Server.Request.{Request, Answer}
use fuse_backend_rs.Server.Sending.{fresh}
use fuse_backend_rs.Server.Session.{
  Env, Session, Handler, read_struct, message_body, c_string, reply, reply_error, reply_nothing,
  ask, received, decode_error, refused, named, answered,
}
use fuse_backend_rs.Server.Wire.{negative}
use fuse_backend_rs.Transport.{IoBuffers, read_obj}

-- Nothing more was sent, or one message with this number.
abbrev pub AtMostOne : List (List ℕ) → ℕ → Bool → Dev × Outcome Error ℕ → Type 0
AtMostOne sent unique quiet (d, o) =
    ((d.sent ≡ sent)
      × (((e : Error) × (o ≡ err e)) ⊎ ((o ≡ panic) ⊎ ((quiet ≡ true) × (o ≡ ok 0)))))
    ⊎ ((msg : List ℕ) × (d.sent ≡ sent ++ msg ∷ []) × (field 8 8 msg ≡ unique))

Sends-AtMostOne :
    (sent : List (List ℕ)) (error unique : ℕ) (quiet : Bool) (body : List ℕ)
    (answer : Dev × Outcome Error ℕ)
    → Sends sent error unique body answer
    → AtMostOne sent unique quiet answer
Sends-AtMostOne sent error unique quiet body (d, o) (msg, at, says, is) =
    inr (msg, at, is.says_unique)

module _ (env : Env) (sent : List (List ℕ)) (memory : List ℕ) where
  -- A request that was not replied to yet.
  abbrev pub begun : ServerVersion → IoBuffers env.slices → env.system.State → Session env
  begun vers r fs = record {
    vers = vers;
    reader = r;
    dev = record { sent = sent; writer = fresh false memory };
    fs = fs;
  }

  -- The file system is in this state, and at most one reply was sent.
  abbrev pub Ends : Bool → env.system.State → Session env × Outcome Error ℕ → Type 0
  Ends quiet fs (s, o) = (s.fs ≡ fs) × AtMostOne sent env.header.unique quiet (s.dev, o)

  pub record Replies (quiet : Bool) (m : Handler env ℕ) : Type 0 where
    pub at :
        (vers : ServerVersion) (r : IoBuffers env.slices) (fs : env.system.State)
        → Ends quiet fs (m (begun vers r fs))

  -- The state of the file system before it was called, or after one call, or after its `init`.
  abbrev pub Once : Bool → env.system.State → Session env × Outcome Error ℕ → Type 0
  Once quiet fs answer =
      Ends quiet fs answer
      ⊎ (((q : Request) × Ends quiet (env.system.serve env.context q fs).0 answer)
          ⊎ ((opts : ℕ) × Ends quiet (env.system.init opts fs).0 answer))

  pub record Serves (quiet : Bool) (m : Handler env ℕ) : Type 0 where
    pub at :
        (vers : ServerVersion) (r : IoBuffers env.slices) (fs : env.system.State)
        → Once quiet fs (m (begun vers r fs))

  module _ {quiet : Bool} where
    received-Once :
        (k : List ℕ → Handler env ℕ) (vers : ServerVersion) (r : IoBuffers env.slices)
        (fs : env.system.State) (got : Option (Outcome Error (IoBuffers env.slices × List ℕ)))
        → ((b : List ℕ) → Serves quiet (k b))
        → Once quiet fs (goes_on (received env (begun vers r fs) got) k)
    received-Once k vers r fs none rest = inl (refl, inl (refl, inr (inl refl)))
    received-Once k vers r fs (some panic) rest = inl (refl, inl (refl, inr (inl refl)))
    received-Once k vers r fs (some (err e)) rest = inl (refl, inl (refl, inl (e, refl)))
    received-Once k vers r fs (some (ok (r', b))) rest = (rest b).at vers r' fs

    pub Serves-read_struct :
        (size : ℕ) (k : List ℕ → Handler env ℕ)
        → ((b : List ℕ) → Serves quiet (k b))
        → Serves quiet (read_struct env size >>= k)
    unfolding read_struct
    Serves-read_struct size k rest = record {
      at = λ vers r fs.
          received-Once k vers r fs (decode_error env (read_obj env.slices r size)) rest;
    }

    pub Serves-message_body :
        (size : ℕ) (k : List ℕ → Handler env ℕ)
        → ((b : List ℕ) → Serves quiet (k b))
        → Serves quiet (message_body env size >>= k)
    unfolding message_body
    Serves-message_body size k rest = record {
      at = λ vers r fs.
          received-Once k vers r fs (get_message_body env.slices r env.header.len size) rest;
    }

    outcome-Once :
        {A : Type 0} (o : Outcome Error A) (k : A → Handler env ℕ) (vers : ServerVersion)
        (r : IoBuffers env.slices) (fs : env.system.State)
        → ((a : A) → Serves quiet (k a))
        → Once quiet fs ((result o >>= k) (begun vers r fs))
    outcome-Once (ok a) k vers r fs rest = (rest a).at vers r fs
    outcome-Once (err e) k vers r fs rest = inl (refl, inl (refl, inl (e, refl)))
    outcome-Once panic k vers r fs rest = inl (refl, inl (refl, inr (inl refl)))

    pub Serves-outcome :
        {A : Type 0} (o : Outcome Error A) (k : A → Handler env ℕ)
        → ((a : A) → Serves quiet (k a))
        → Serves quiet (result o >>= k)
    Serves-outcome o k rest = record { at = λ vers r fs. outcome-Once o k vers r fs rest }

    pub Serves-err : (e : Error) → Serves quiet (result (err e))
    Serves-err e = record { at = λ vers r fs. inl (refl, inl (refl, inl (e, refl))) }

    pub Serves-Replies : (m : Handler env ℕ) → Replies quiet m → Serves quiet m
    Serves-Replies m h = record { at = λ vers r fs. inl (h.at vers r fs) }

    pub Serves-if :
        (test : Bool) (m n : Handler env ℕ)
        → Serves quiet m
        → Serves quiet n
        → Serves quiet (λ s. elim test [ true ↦ m s | false ↦ n s ])
    Serves-if true m n hm hn = hm
    Serves-if false m n hm hn = hn

    pub answered-Once :
        (q : Request) (f : Answer q → Handler env ℕ) (vers : ServerVersion)
        (r : IoBuffers env.slices) (fs : env.system.State)
        (got : env.system.State × (IoError ⊎ Answer q))
        → ((e : IoError) → Replies quiet (reply_error env e))
        → ((a : Answer q) → Replies quiet (f a))
        → Ends quiet got.0 (answered env (begun vers r fs) f got)
    answered-Once q f vers r fs (fs', inl e) he hf = (he e).at vers r fs'
    answered-Once q f vers r fs (fs', inr a) he hf = (hf a).at vers r fs'

    -- A name that is refused is not handed on.
    refused-Ends :
        {A : Type 0} (e : Error) (k : A → Handler env ℕ) (fs : env.system.State)
        (x : Session env × Outcome Error ℕ)
        → Ends quiet fs x
        → Ends quiet fs (goes_on (refused env e x) k)
    refused-Ends e k fs (s, ok n) (same, inl (silent, why)) = (same, inl (silent, inl (e, refl)))
    refused-Ends e k fs (s, ok n) (same, inr one) = (same, inr one)
    refused-Ends e k fs (s, err e') (same, inl (silent, why)) = (same, inl (silent, inl (e, refl)))
    refused-Ends e k fs (s, err e') (same, inr one) = (same, inr one)
    refused-Ends e k fs (s, panic) ends = ends

  -- The device takes messages whole, the reply's buffer has room for a header, and the lengths and
  -- the number are in range.
  pub record Ready : Type 0 where
    pub takes :
        (before : List (List ℕ)) (bytes : List ℕ) → env.device before bytes ≡ inr (length bytes)
    pub room : 16 ≤ length memory
    pub small : length memory < 2 ^ 32
    pub unique : env.header.unique < 2 ^ 64

  module _ (ready : Ready) {quiet : Bool} where
    open ready use {takes, room, small, unique}

    pub error-AtMostOne :
        (e : IoError)
        → AtMostOne sent env.header.unique quiet (
            do_reply_error env.device env.header.unique e
              (record { sent = sent; writer = fresh false memory }))
    error-AtMostOne e =
        Sends-AtMostOne sent (negative (error_code e)) env.header.unique quiet []
          (do_reply_error env.device env.header.unique e
            (record { sent = sent; writer = fresh false memory }))
          (do_reply_error-Sends env.device takes sent false memory env.header.unique e room unique)

    pub Replies-reply_error : (e : IoError) → Replies quiet (reply_error env e)
    unfolding reply_error
    Replies-reply_error e = record { at = λ vers r fs. (refl, error-AtMostOne e) }

    pub reply-AtMostOne :
        (out more : List ℕ)
        → AtMostOne sent env.header.unique quiet (
            reply_ok env.device env.header.unique out more
              (record { sent = sent; writer = fresh false memory }))
    reply-AtMostOne out more = elim (dec_le (16 + length out + length more) (length memory)) [
      | yes fits ↦
          Sends-AtMostOne sent 0 env.header.unique quiet (out ++ more)
            (reply_ok env.device env.header.unique out more
              (record { sent = sent; writer = fresh false memory }))
            (reply_ok-Sends env.device takes sent memory env.header.unique out more fits small
              unique)
      | no not_fits ↦
          rw
            (reply_ok-full env.device sent memory env.header.unique out more
              (omega (arith, not_fits)))
            (inl (refl, inl (encode_message (of_kind invalid_data), refl)))
    ]

    pub Replies-reply : (out more : List ℕ) → Replies quiet (reply env out more)
    unfolding reply
    Replies-reply out more = record { at = λ vers r fs. (refl, reply-AtMostOne out more) }

    pub Serves-c_string :
        (buf : List ℕ) (k : List ℕ → Handler env ℕ)
        → ((b : List ℕ) → Serves quiet (k b))
        → Serves quiet (c_string env buf >>= k)
    unfolding c_string
    Serves-c_string buf k rest = record {
      at = λ vers r fs. named-Once (bytes_to_cstr buf) k vers r fs rest;
    }
      where
        named-Once :
            (o : Outcome Error (List ℕ)) (k : List ℕ → Handler env ℕ) (vers : ServerVersion)
            (r : IoBuffers env.slices) (fs : env.system.State)
            → ((b : List ℕ) → Serves quiet (k b))
            → Once quiet fs (goes_on (named env o (begun vers r fs)) k)
        named-Once (ok name) k vers r fs rest = (rest name).at vers r fs
        named-Once (err e) k vers r fs rest = inl (
            refused-Ends e k fs (reply_error env (raw_os_error einval) (begun vers r fs))
              ((Replies-reply_error (raw_os_error einval)).at vers r fs))
        named-Once panic k vers r fs rest = inl (refl, inl (refl, inr (inl refl)))

    -- A body that is a name.
    pub Serves-named :
        (size : ℕ) (k : List ℕ → Handler env ℕ)
        → ((name : List ℕ) → Serves quiet (k name))
        → Serves quiet (message_body env size >>= (λ buf. c_string env buf >>= k))
    Serves-named size k rest =
        Serves-message_body size (λ buf. c_string env buf >>= k) (λ buf. Serves-c_string buf k rest)

    pub Serves-ask :
        (q : Request) (f : Answer q → Handler env ℕ)
        → ((a : Answer q) → Replies quiet (f a))
        → Serves quiet (ask env q f)
    unfolding ask
    Serves-ask q f hf = record {
      at = λ vers r fs. inr (
          inl (
            q,
            answered-Once q f vers r fs (env.system.serve env.context q fs) Replies-reply_error hf,
          ));
    }

    pub Replies-reply_nothing : (done : Unit {0}) → Replies quiet (reply_nothing env done)
    unfolding reply_nothing
    Replies-reply_nothing done = Replies-reply [] []
