-- ===== src/Server/Decoded.antt =====
-- Requests of src/api/server/sync_io.rs as a client writes them, and the call that each becomes.
pub mod Requests
pub mod Message
use fuse_backend_rs.Prelude.{
  ℕ, zero, suc, ◌+◌, ◌-◌, ◌≡◌, refl, sym, ap, ◌∙◌, ◌⊎◌, inl, inr, Bool, true, false, Option, some,
  List, [], ◌∷◌, ◌++◌, length, take, drop, arith, length-append, append-nil, append_assoc, ==_ne,
  ltb,
}
use fuse_backend_rs.Prelude.Outcome.{Outcome, ok}
use fuse_backend_rs.Prelude.Parts.{take-append, take_all, drop-append, drop_all}
use fuse_backend_rs.Prelude.Run.{result, ◌>>=◌}
use fuse_backend_rs.Fusedev.Messages.{not_beyond}
use fuse_backend_rs.Server.{at_zero, bytes_to_cstr, extract_two_cstrs, get_message_body}
use fuse_backend_rs.Server.Bodies.{get_message_body-Body}
use fuse_backend_rs.Server.Init.{ServerVersion}
use fuse_backend_rs.Server.Names.{NoZero}
use fuse_backend_rs.Server.Once.{Ready, Ends, Replies, begun, answered-Once, Replies-reply_error}
use fuse_backend_rs.Server.Request.{Request, Answer}
use fuse_backend_rs.Server.Session.{Env, Handler, read_struct, message_body, c_string, ask, tell}
use fuse_backend_rs.Transport.{IoBuffers, read_obj}
use fuse_backend_rs.Transport.Consume.{left_in, used, Fits}
use fuse_backend_rs.Transport.Exact.{read_obj-take, Fits-used}

pub take_head : (xs ys : List ℕ) → take (length xs) (xs ++ ys) ≡ xs
take_head [] ys = refl
take_head (x ∷ xs) ys = ap (λ l. x ∷ l) (take_head xs ys)

pub drop_head : (xs ys : List ℕ) → drop (length xs) (xs ++ ys) ≡ ys
drop_head [] ys = refl
drop_head (x ∷ xs) ys = drop_head xs ys

pub at_zero-name :
    (name rest : List ℕ) → NoZero name → at_zero (name ++ 0 ∷ rest) ≡ some (name, rest)
unfolding at_zero
at_zero-name [] rest h = refl
at_zero-name (zero ∷ name) rest (ne, h) = absurd (ne refl)
at_zero-name (suc b ∷ name) rest (ne, h) =
    rw (==_ne (suc b) 0 (omega arith), at_zero-name name rest h) refl

bytes_to_cstr-name : (name : List ℕ) → NoZero name → bytes_to_cstr (name ++ 0 ∷ []) ≡ ok name
unfolding bytes_to_cstr
bytes_to_cstr-name name h = rw (bytes_to_cstr, at_zero-name name [] h) refl

two_names : List ℕ → List ℕ → List ℕ
two_names a b = a ++ 0 ∷ (b ++ 0 ∷ [])

module _ (env : Env) (sent : List (List ℕ)) (memory : List ℕ) where
  -- With these bytes left to read, the handler makes this call, and replies at most once.
  pub record Calls (quiet : Bool) (q : Request) (body : List ℕ) (m : Handler env ℕ) : Type 0 where
    pub at :
        (vers : ServerVersion) (r : IoBuffers env.slices) (fs : env.system.State)
        → Fits env.slices r
        → left_in env.slices r ≡ body
        → Ends env sent memory quiet
            (env.system.serve env.context q fs).0
            (m (begun env sent memory vers r fs))

  module _ {quiet : Bool} {q : Request} where
    pub Calls-read_struct :
        (head tail : List ℕ) (k : List ℕ → Handler env ℕ)
        → Calls quiet q tail (k head)
        → Calls quiet q (head ++ tail) (read_struct env (length head) >>= k)
    unfolding read_struct
    Calls-read_struct head tail k rest = record {
      at = λ vers r fs fits is.
          let (behind, at, leaves) =
            read_obj-take env.slices r (length head) fits
              (omega (arith, ap length is, length-append head tail)) in
          let left : left_in env.slices (used env.slices r behind (length head)) ≡ tail =
            leaves ∙ ap (drop (length head)) is ∙ drop_head head tail in
          let shown : take (length head) (left_in env.slices r) ≡ head =
            ap (take (length head)) is ∙ take_head head tail in
          rw (at, shown)
            (rest.at vers (used env.slices r behind (length head)) fs
              (omega (arith, ap length left, ap length is, length-append head tail)) left);
    }

    pub Calls-message_body :
        (sub : ℕ) (body : List ℕ) (k : List ℕ → Handler env ℕ)
        → env.header.len ≡ 40 + sub + length body
        → Calls quiet q [] (k body)
        → Calls quiet q body (message_body env sub >>= k)
    unfolding message_body
    Calls-message_body sub body k len rest = record {
      at = λ vers r fs fits is.
          let n = env.header.len - 40 - sub in
          elim (get_message_body-Body env.slices r env.header.len sub fits) [
            | inl (short, e) ↦ absurd (omega arith)
            | inr (inl (short, e)) ↦ absurd (omega (arith, ap length is))
            | inr (inr (behind, at, leaves)) ↦
                let left : left_in env.slices (used env.slices r behind n) ≡ [] =
                  leaves ∙ drop_all n (left_in env.slices r) (omega (arith, ap length is)) in
                let shown : take n (left_in env.slices r) ≡ body =
                  take_all n (left_in env.slices r) (omega (arith, ap length is)) ∙ is in
                rw (at, shown)
                  (rest.at vers (used env.slices r behind n) fs
                    (omega (arith, ap length left, ap length is)) left)
          ];
    }

    pub Calls-c_string :
        (name : List ℕ) (k : List ℕ → Handler env ℕ)
        → NoZero name
        → Calls quiet q [] (k name)
        → Calls quiet q [] (c_string env (name ++ 0 ∷ []) >>= k)
    unfolding c_string
    Calls-c_string name k h rest = rw (bytes_to_cstr-name name h) (record { at = rest.at })

    pub Calls-named :
        (sub : ℕ) (name : List ℕ) (k : List ℕ → Handler env ℕ)
        → env.header.len ≡ 40 + sub + length (name ++ 0 ∷ [])
        → NoZero name
        → Calls quiet q [] (k name)
        → Calls quiet q (name ++ 0 ∷ []) (message_body env sub >>= (λ buf. c_string env buf >>= k))
    Calls-named sub name k len h rest =
        Calls-message_body sub (name ++ 0 ∷ []) _ len (Calls-c_string name k h rest)

  pub Calls-tell :
      (asked q : Request) (body : List ℕ) → asked ≡ q → Calls true q body (tell env asked)
  unfolding tell
  Calls-tell asked q body e = record {
    at = λ vers r fs fits is. rw (← e) (refl, inl (refl, inr (inr (refl, refl))));
  }

  pub Calls-ask :
      (ready : Ready env sent memory) (asked q : Request) (body : List ℕ)
      (f : Answer asked → Handler env ℕ)
      → asked ≡ q
      → ((a : Answer asked) → Replies env sent memory false (f a))
      → Calls false q body (ask env asked f)
  unfolding ask
  Calls-ask ready asked q body f e hf = record {
    at = λ vers r fs fits is. rw (← e) (
        answered-Once env sent memory asked f vers r fs (env.system.serve env.context asked fs)
          (Replies-reply_error env sent memory ready) hf);
  }
