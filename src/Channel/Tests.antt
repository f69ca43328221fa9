-- ===== src/Channel/Tests.antt =====
-- A channel on which three messages are sent; it is closed while the second send is on its way.
use fuse_backend_rs.Prelude.{ℕ, ◌≡◌, refl, true, false, List, [], ◌∷◌}
use fuse_backend_rs.Channel.{may_send, push_back, try_recv, after_empty}
use fuse_backend_rs.Channel.Calls.{
  Step, check_it, push_it, try_it, look, close_it, Run, new_run, step, run_steps, pick, flushes,
}
use fuse_backend_rs.Channel.Drained.{Drained, run_steps-Drained}

abbrev some_steps : List (Step ℕ)
some_steps = check_it 1 ∷ push_it 0 ∷ check_it 2 ∷ close_it ∷ check_it 3 ∷ []

abbrev late_steps : List (Step ℕ)
late_steps = try_it ∷ try_it ∷ look ∷ push_it 0 ∷ []

abbrev at_close : Run ℕ
at_close = run_steps new_run some_steps

abbrev at_end : Run ℕ
at_end = run_steps at_close late_steps

refused_three : at_close.returned ≡ 3 ∷ []
unfolding run_steps step may_send push_back pick
refused_three = refl

-- A message is accepted after a receiver was told that the channel is closed.
told_before : at_end.told ≡ 1
unfolding run_steps step may_send push_back pick try_recv after_empty
told_before = refl

accepted_two : at_end.accepted ≡ 1 ∷ 2 ∷ []
unfolding run_steps step may_send push_back pick try_recv after_empty
accepted_two = refl

received_one : at_end.received ≡ 1 ∷ []
unfolding run_steps step may_send push_back pick try_recv after_empty
received_one = refl

no_flush : flushes some_steps ≡ false
unfolding flushes
no_flush = refl

no_late_flush : flushes late_steps ≡ false
unfolding flushes
no_late_flush = refl

closed_by_then : at_close.channel.closed ≡ true
unfolding run_steps step may_send push_back pick
closed_by_then = refl

run_steps-Drained_example : Drained at_close at_end
run_steps-Drained_example =
    run_steps-Drained some_steps late_steps no_flush no_late_flush closed_by_then
