-- ===== src/Channel/Drained.antt =====
-- The channel of src/common/mpmc.rs gives its messages in order and loses none.
use mathlib.Core.Path.{subst}
use mathlib.Core.List.{Perm}
use mathlib.Core.List.Perm
use fuse_backend_rs.Prelude.{
  ℕ, zero, suc, ◌≡◌, refl, sym, ap, ◌∙◌, Bool, true, false, Bool-cases, Option, none, some, List,
  [], ◌∷◌, ◌++◌, append-nil, append_assoc, length, inl, inr, if◌then◌else◌,
}
use fuse_backend_rs.Channel.{
  close, may_send, push_back, pop_front, try_recv, after_empty, Empty, broken_pipe, waits,
}
use fuse_backend_rs.Channel.Calls.{
  Step, check_it, push_it, try_it, look, close_it, flush, Run, new_run, pick, pushed, tried, looked,
  step, run_steps, tries, flushes,
}

module _ {ℓ} {A : Type ℓ} where
  -- What was received, and what is still to be received, is what was accepted.
  abbrev Orders : Run A → Type ℓ
  Orders r = r.received ++ r.channel.requests ≡ r.accepted

  sent_on-Orders : (r : Run A) (msg : A) → Orders r → Orders (step r (check_it msg))
  unfolding step may_send
  sent_on-Orders r msg orders = elim (Bool-cases r.channel.closed) [
    | inl t ↦ rw t orders
    | inr f ↦ rw f orders
  ]

  pushed-Orders : (r : Run A) (o : Option (A × List A)) → Orders r → Orders (pushed r o)
  unfolding push_back
  pushed-Orders r none orders = orders
  pushed-Orders r (some (msg, others)) orders =
      sym (append_assoc r.received r.channel.requests (msg ∷ [])) ∙ ap (λ xs. xs ++ msg ∷ []) orders

  tried-Orders :
      (r : Run A) (requests : List A) (closed : Bool)
      → r.received ++ requests ≡ r.accepted
      → Orders (tried r (pop_front requests closed))
  tried-Orders r [] closed orders = orders
  tried-Orders r (msg ∷ rest) closed orders = append_assoc r.received (msg ∷ []) rest ∙ orders

  looked-Orders : (r : Run A) (n : ℕ) (e : Empty) → Orders r → Orders (looked r n e)
  looked-Orders r zero e orders = orders
  looked-Orders r (suc n) broken_pipe orders = orders
  looked-Orders r (suc n) waits orders = orders

  run_steps-Orders :
      (steps : List (Step A)) (r : Run A)
      → flushes steps ≡ false
      → Orders r
      → Orders (run_steps r steps)
  unfolding run_steps flushes step try_recv
  run_steps-Orders [] r none_ orders = orders
  run_steps-Orders (check_it msg ∷ rest) r none_ orders =
      run_steps-Orders rest (step r (check_it msg)) none_ (sent_on-Orders r msg orders)
  run_steps-Orders (push_it i ∷ rest) r none_ orders =
      run_steps-Orders rest (step r (push_it i)) none_ (pushed-Orders r (pick i r.sending) orders)
  run_steps-Orders (try_it ∷ rest) r none_ orders =
      run_steps-Orders rest (step r try_it) none_
        (tried-Orders r r.channel.requests r.channel.closed orders)
  run_steps-Orders (look ∷ rest) r none_ orders =
      run_steps-Orders rest (step r look) none_
        (looked-Orders r r.looking (after_empty r.channel) orders)
  run_steps-Orders (close_it ∷ rest) r none_ orders =
      run_steps-Orders rest (record r { channel = close r.channel }) none_ orders
  run_steps-Orders (flush f ∷ rest) r none_ orders = absurd (cc none_)

  abbrev Picked : Option (A × List A) → List A → Type ℓ
  Picked none xs = Unit
  Picked (some (m, others)) xs = Perm (m ∷ others) xs

  later-Picked :
      (x : A) (xs : List A) (o : Option (A × List A))
      → Picked o xs
      → Picked (elim o [ none ↦ none | some (m, others) ↦ some (m, x ∷ others) ]) (x ∷ xs)
  later-Picked x xs none h = tt
  later-Picked x xs (some (m, others)) h = Perm.trans (Perm.swap x m others) (Perm.cons x h)

  pick-Picked : (i : ℕ) (xs : List A) → Picked (pick i xs) xs
  unfolding pick
  pick-Picked i [] = tt
  pick-Picked zero (x ∷ xs) = Perm.refl (x ∷ xs)
  pick-Picked (suc i) (x ∷ xs) = later-Picked x xs (pick i xs) (pick-Picked i xs)

  -- From the run `r` of a closed channel to the run `s`: the messages accepted in between and those
  -- still on their way are the messages that were on their way.
  pub record Late (r s : Run A) : Type ℓ where
    pub closed : s.channel.closed ≡ true
    pub late : List A
    pub accepted : s.accepted ≡ r.accepted ++ late
    pub from_senders : Perm (late ++ s.sending) r.sending

  pushed-Late :
      (r t : Run A) (o : Option (A × List A)) → Picked o r.sending → Late (pushed r o) t → Late r t
  pushed-Late r t none h l = l
  pushed-Late r t (some (m, others)) h l = record {
    closed = l.closed;
    late = m ∷ l.late;
    accepted = l.accepted ∙ append_assoc r.accepted (m ∷ []) l.late;
    from_senders = Perm.trans (Perm.cons m l.from_senders) h;
  }

  -- A step that neither accepts a message nor lets another sender on its way.
  same-Late :
      (r r' t : Run A) → r'.accepted ≡ r.accepted → r'.sending ≡ r.sending → Late r' t → Late r t
  same-Late r r' t e e' l = record {
    closed = l.closed;
    late = l.late;
    accepted = l.accepted ∙ ap (λ xs. xs ++ l.late) e;
    from_senders = subst (Perm (l.late ++ t.sending)) e' l.from_senders;
  }

  -- What a step leaves as it was.
  abbrev Keeps : Run A → Run A → Type ℓ
  Keeps r r' = (r'.channel.closed ≡ true) × (r'.accepted ≡ r.accepted) × (r'.sending ≡ r.sending)

  returned-Keeps : (r : Run A) (msg : A) → r.channel.closed ≡ true → Keeps r (step r (check_it msg))
  unfolding step may_send
  returned-Keeps r msg shut = rw shut (refl, refl, refl)

  tried-Keeps : (r : Run A) (requests : List A) → Keeps r (tried r (pop_front requests true))
  tried-Keeps r [] = (refl, refl, refl)
  tried-Keeps r (msg ∷ rest) = (refl, refl, refl)

  looked-Keeps : (r : Run A) (n : ℕ) (e : Empty) → r.channel.closed ≡ true → Keeps r (looked r n e)
  looked-Keeps r zero e shut = (shut, refl, refl)
  looked-Keeps r (suc n) broken_pipe shut = (shut, refl, refl)
  looked-Keeps r (suc n) waits shut = (shut, refl, refl)

  pushed-closed :
      (r : Run A) (o : Option (A × List A))
      → r.channel.closed ≡ true
      → (pushed r o).channel.closed ≡ true
  unfolding push_back
  pushed-closed r none shut = shut
  pushed-closed r (some (m, others)) shut = shut

  run_steps-Late :
      (more : List (Step A)) (r : Run A) → r.channel.closed ≡ true → Late r (run_steps r more)
  unfolding run_steps step try_recv
  run_steps-Late [] r shut = record {
    closed = shut;
    late = [];
    accepted = sym (append-nil r.accepted);
    from_senders = Perm.refl r.sending;
  }
  run_steps-Late (check_it msg ∷ rest) r shut =
      let r' = step r (check_it msg) in
      let (s, a, n) = returned-Keeps r msg shut in
      same-Late r r' (run_steps r' rest) a n (run_steps-Late rest r' s)
  run_steps-Late (push_it i ∷ rest) r shut =
      let r' = step r (push_it i) in
      pushed-Late r (run_steps r' rest) (pick i r.sending) (pick-Picked i r.sending)
        (run_steps-Late rest r' (pushed-closed r (pick i r.sending) shut))
  run_steps-Late (try_it ∷ rest) r shut =
      let r' = step r try_it in
      let (s, a, n) =
        subst (λ b. Keeps r (tried r (pop_front r.channel.requests b))) (sym shut)
          (tried-Keeps r r.channel.requests) in
      same-Late r r' (run_steps r' rest) a n (run_steps-Late rest r' s)
  run_steps-Late (look ∷ rest) r shut =
      let r' = step r look in
      let (s, a, n) = looked-Keeps r r.looking (after_empty r.channel) shut in
      same-Late r r' (run_steps r' rest) a n (run_steps-Late rest r' s)
  run_steps-Late (close_it ∷ rest) r shut =
      let r' = step r close_it in
      same-Late r r' (run_steps r' rest) refl refl (run_steps-Late rest r' refl)
  run_steps-Late (flush f ∷ rest) r shut =
      let r' = step r (flush f) in
      same-Late r r' (run_steps r' rest) refl refl (run_steps-Late rest r' shut)

  abbrev left : Run A → List A → Run A
  left r requests = record r { channel = record r.channel { requests = requests } }

  -- As many receivers try the queue as there are messages.
  abbrev pub drained : Run A → Run A
  drained r = tries (length r.channel.requests) r

  tries-all :
      (requests : List A) (r : Run A)
      → tries (length requests) (left r requests)
        ≡ left (record r { received = r.received ++ requests }) []
  unfolding tries step try_recv
  tries-all [] r = ap (λ xs. left (record r { received = xs }) []) (sym (append-nil r.received))
  tries-all (msg ∷ rest) r =
      tries-all rest (record r { received = r.received ++ msg ∷ [] })
      ∙ ap (λ xs. left (record r { received = xs }) []) (append_assoc r.received (msg ∷ []) rest)

  -- What becomes of a channel that was closed when the run was `r`, and is at `s` now.
  pub record Drained (r s : Run A) : Type ℓ where
    pub goes_on : Late r s
    pub all : (drained s).received ≡ s.accepted
    pub empty : try_recv (drained s).channel ≡ (record { closed = true; requests = [] }, none)
    pub tells : after_empty (drained s).channel ≡ broken_pipe
    pub refuses : (msg : A) → may_send (drained s).channel msg ≡ inl msg

  -- However the steps of senders and receivers and the calls of close follow one another on a new
  -- channel, and once the channel is closed: the messages that are still accepted are of senders
  -- that had looked before, each once at most; as many tries as there are messages left get the rest
  -- of them, so that the messages received are those accepted, in their order, and none is lost; the
  -- next try gets nothing, its receiver is told that the channel is closed, and each sender that
  -- looks from then on gets its message back.
  pub run_steps-Drained :
      (steps more : List (Step A))
      → flushes steps ≡ false
      → flushes more ≡ false
      → (run_steps new_run steps).channel.closed ≡ true
      → Drained (run_steps new_run steps) (run_steps (run_steps new_run steps) more)
  unfolding try_recv after_empty may_send
  run_steps-Drained steps more f f' shut =
      let r = run_steps new_run steps in
      let s = run_steps r more in
      let l = run_steps-Late more r shut in
      let all = tries-all s.channel.requests s in
      record {
        goes_on = l;
        all =
            ap (λ t. t.received) all
            ∙ run_steps-Orders more r f' (run_steps-Orders steps new_run f refl);
        empty =
            ap (λ t. try_recv t.channel) all
            ∙ ap (λ b. (record { closed = b; requests = [] }, none)) l.closed;
        tells =
            ap (λ t. after_empty t.channel) all
            ∙ ap (λ b. if b then broken_pipe else waits) l.closed;
        refuses = λ msg.
            ap (λ t. may_send t.channel msg) all ∙ ap (λ b. if b then inl msg else inr tt) l.closed;
      }
