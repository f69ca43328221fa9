-- ===== src/Channel.antt =====
-- src/common/mpmc.rs: the channel of messages. The flag `closed` and the queue are read and written
-- one at a time, and only the queue has a lock, so a send and a receive are two steps each, between
-- which other calls can come: `may_send` and `push_back` of `send`, `try_recv` and `after_empty` of
-- `recv`. A receiver that has to wait is woken by another call and tries again; a round of its loop
-- is what the model has of it.
use fuse_backend_rs.Prelude.{
  Bool, true, false, Option, none, some, List, [], ◌∷◌, ◌++◌, ◌⊎◌, inl, inr, if◌then◌else◌,
}
pub mod Calls
mod Drained
mod Tests

pub record Channel {ℓ} (A : Type ℓ) : Type ℓ where
  pub closed : Bool
  pub requests : List A

-- What a receiver does that found the queue empty.
pub data Empty : Type 0 where
  broken_pipe : Empty
  waits : Empty

module _ {ℓ} {A : Type ℓ} where
  abbrev pub new_channel : Channel A
  new_channel = record { closed = false; requests = [] }

  abbrev pub close : Channel A → Channel A
  close c = record c { closed = true }

  -- The first step of `send`: the message comes back where the channel is closed.
  unfoldable pub may_send : Channel A → A → A ⊎ Unit {0}
  may_send c msg = if c.closed then inl msg else inr tt

  -- The second step of `send`.
  unfoldable pub push_back : Channel A → A → Channel A
  push_back c msg = record c { requests = c.requests ++ msg ∷ [] }

  abbrev pub pop_front : List A → Bool → Channel A × Option A
  pop_front [] closed = (record { closed = closed; requests = [] }, none)
  pop_front (msg ∷ rest) closed = (record { closed = closed; requests = rest }, some msg)

  -- The first step of a round of `recv`.
  unfoldable pub try_recv : Channel A → Channel A × Option A
  try_recv c = pop_front c.requests c.closed

  -- The second step, where the first one got nothing.
  unfoldable pub after_empty : Channel A → Empty
  after_empty c = if c.closed then broken_pipe else waits

  -- `retain(|t| !f(t))`
  unfoldable pub retain_not : (A → Bool) → List A → List A
  retain_not f [] = []
  retain_not f (msg ∷ rest) = let kept = retain_not f rest in if f msg then kept else msg ∷ kept

  abbrev pub flush_pending_prefetch_requests : Channel A → (A → Bool) → Channel A
  flush_pending_prefetch_requests c f = record c { requests = retain_not f c.requests }
