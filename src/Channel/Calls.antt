-- ===== src/Channel/Calls.antt =====
-- The steps that senders and receivers of the channel of src/common/mpmc.rs take, in any order.
use fuse_backend_rs.Prelude.{
  ℕ, zero, suc, Bool, true, false, Option, none, some, List, [], ◌∷◌, ◌++◌, ◌⊎◌, inl, inr,
}
use fuse_backend_rs.Channel.{
  Channel, new_channel, close, may_send, push_back, Empty, broken_pipe, waits, try_recv,
  after_empty, flush_pending_prefetch_requests,
}

-- A sender looks at the flag with its message, or pushes it; `push_it i` is for the sender that
-- stands at the place `i` among those that have looked and not pushed yet. A receiver tries the
-- queue, or looks at the flag after it found the queue empty.
pub data Step {ℓ} (A : Type ℓ) : Type ℓ where
  check_it : A → Step A
  push_it : ℕ → Step A
  try_it : Step A
  look : Step A
  close_it : Step A
  flush : (A → Bool) → Step A

-- The channel, the messages of senders between their two steps, the number of receivers between
-- theirs, the messages that were accepted and those received, in order, those that came back, and
-- the number of receivers that were told that the channel is closed.
pub record Run {ℓ} (A : Type ℓ) : Type ℓ where
  pub channel : Channel A
  pub sending : List A
  pub looking : ℕ
  pub accepted : List A
  pub received : List A
  pub returned : List A
  pub told : ℕ

module _ {ℓ} {A : Type ℓ} where
  abbrev pub new_run : Run A
  new_run = record {
    channel = new_channel;
    sending = [];
    looking = 0;
    accepted = [];
    received = [];
    returned = [];
    told = 0;
  }

  abbrev pub sent_on : Run A → A → A ⊎ Unit {0} → Run A
  sent_on r msg (inl back) = record r { returned = r.returned ++ back ∷ [] }
  sent_on r msg (inr open_) = record r { sending = r.sending ++ msg ∷ [] }

  -- The message at a place, and the others.
  unfoldable pub pick : ℕ → List A → Option (A × List A)
  pick i [] = none
  pick zero (msg ∷ rest) = some (msg, rest)
  pick (suc i) (msg ∷ rest) = elim (pick i rest) [
    | none ↦ none
    | some (m, others) ↦ some (m, msg ∷ others)
  ]

  abbrev pub pushed : Run A → Option (A × List A) → Run A
  pushed r none = r
  pushed r (some (msg, others)) = record r {
    channel = push_back r.channel msg;
    sending = others;
    accepted = r.accepted ++ msg ∷ [];
  }

  abbrev pub tried : Run A → Channel A × Option A → Run A
  tried r (c, some msg) = record r { channel = c; received = r.received ++ msg ∷ [] }
  tried r (c, none) = record r { channel = c; looking = suc r.looking }

  abbrev pub looked : Run A → ℕ → Empty → Run A
  looked r zero e = r
  looked r (suc others) broken_pipe = record r { looking = others; told = suc r.told }
  looked r (suc others) waits = record r { looking = others }

  unfoldable pub step : Run A → Step A → Run A
  step r (check_it msg) = sent_on r msg (may_send r.channel msg)
  step r (push_it i) = pushed r (pick i r.sending)
  step r try_it = tried r (try_recv r.channel)
  step r look = looked r r.looking (after_empty r.channel)
  step r close_it = record r { channel = close r.channel }
  step r (flush f) = record r { channel = flush_pending_prefetch_requests r.channel f }

  unfoldable pub run_steps : Run A → List (Step A) → Run A
  run_steps r [] = r
  run_steps r (s ∷ rest) = run_steps (step r s) rest

  -- So many receivers try the queue.
  unfoldable pub tries : ℕ → Run A → Run A
  tries zero r = r
  tries (suc n) r = tries n (step r try_it)

  unfoldable pub flushes : List (Step A) → Bool
  flushes [] = false
  flushes (flush f ∷ rest) = true
  flushes (check_it msg ∷ rest) = flushes rest
  flushes (push_it i ∷ rest) = flushes rest
  flushes (try_it ∷ rest) = flushes rest
  flushes (look ∷ rest) = flushes rest
  flushes (close_it ∷ rest) = flushes rest
