-- ===== src/Passthrough/Ledger.antt =====
-- The store of inodes of src/passthrough against the ledger of its client, over any sequence of
-- lookups and forgets.
use mathlib.Core.Path.{subst}
use fuse_backend_rs.Prelude.{
  ℕ, ◌+◌, ◌-◌, ◌^◌, ◌≤◌, ◌<◌, ◌≡◌, refl, sym, ap, ◌∙◌, ◌⊎◌, inl, inr, false, Option-cases, none,
  some, List, [], ◌∷◌, length, ◌==◌, if◌then◌else◌, arith,
}
use fuse_backend_rs.Prelude.Outcome.{ok, err, panic}
use fuse_backend_rs.Prelude.Map.{get}
use fuse_backend_rs.Fs.{Result, root_id}
use fuse_backend_rs.Passthrough.Calls.{
  forget_all, Call, look_up, forget, Event, gave, took, answered, call_one, logged, call_all,
  then_all, after_forgets, after_event, ledger,
}
use fuse_backend_rs.Passthrough.Counts.{IsSound, lookups, lookups-none, lookups-some}
use fuse_backend_rs.Passthrough.Forget.{forget_one-Forgot}
use fuse_backend_rs.Passthrough.Inodes.{Inodes, forget_one}
use fuse_backend_rs.Passthrough.Lookup.{LookedUp, lookup_inode-LookedUp}
use fuse_backend_rs.Passthrough.Store.{InodeData, get_data}
use fuse_backend_rs.Passthrough.Unique.{InodeIds}

-- An inode is in the store, with that count, if and only if the count is not 0.
abbrev pub Holds : Inodes → ℕ → ℕ → Type 0
Holds s j n =
    ((get_data s.store j ≡ none) × (n ≡ 0))
    ⊎ ((d : InodeData) × (get_data s.store j ≡ some d) × (d.refcount ≡ n) × (0 < n))

lookups-Holds : (s : Inodes) (j : ℕ) → IsSound s → Holds s j (lookups s j)
lookups-Holds s j sound = elim (Option-cases (get j s.store.data_)) [
  | inl e ↦ inl (e, lookups-none s j e)
  | inr (d, e) ↦
      let count = lookups-some s j d e in
      inr (d, e, sym count, omega (arith, count, sound.counted j d e))
]

-- What a step does to the state.
abbrev Stepped : Inodes → Inodes → Event → Type 0
Stepped s t e =
    IsSound t
    × (t.next_inode ≤ s.next_inode + 1)
    × ((j : ℕ) → lookups t j ≡ after_event j (lookups s j) e)

forget_all-Stepped :
    (ids : InodeIds) (s : Inodes) (requests : List (ℕ × ℕ))
    → IsSound s
    → IsSound (forget_all ids s requests)
      × ((forget_all ids s requests).next_inode ≤ s.next_inode)
      × ((j : ℕ) → lookups (forget_all ids s requests) j ≡ after_forgets j (lookups s j) requests)
unfolding forget_all after_forgets
forget_all-Stepped ids s [] sound = (sound, omega arith, λ j. refl)
forget_all-Stepped ids s ((inode, count) ∷ rest) sound =
    let (sound', below, counts) = forget_one-Forgot ids s inode count sound in
    let t = forget_one false ids s inode count in
    let (sound'', below', counts') = forget_all-Stepped ids t rest sound' in
    (sound'', omega arith, λ j. counts' j ∙ ap (λ n. after_forgets j n rest) (counts j))

LookedUp-Stepped : (s t : Inodes) (o : Result ℕ) → LookedUp s t o → Stepped s t (gave o)
LookedUp-Stepped s t o (sound, below, inl (k, given, counts)) =
    (sound, below, λ j. counts j ∙ ap (λ x. after_event j (lookups s j) (gave x)) (sym given))
LookedUp-Stepped s t o (sound, below, inr (e, failed, counts)) =
    (sound, below, λ j. counts j ∙ ap (λ x. after_event j (lookups s j) (gave x)) (sym failed))

call_one-Stepped :
    (ids : InodeIds) (s : Inodes) (call : Call)
    → IsSound s
    → s.next_inode + 1 < 2 ^ 64
    → ((k : ℕ) → lookups s k < 2 ^ 64 - 1)
    → (t : Inodes) × (e : Event) × (call_one ids s call ≡ some (t, e)) × Stepped s t e
call_one-Stepped ids s (look_up to_openable id handle_opt path_fd mode) sound room small =
    let (t, o, at, looked) =
      lookup_inode-LookedUp ids to_openable s id handle_opt path_fd mode sound room small in
    (t, gave o, ap answered at, LookedUp-Stepped s t o looked)
call_one-Stepped ids s (forget requests) sound room small =
    let (sound', below, counts) = forget_all-Stepped ids s requests sound in
    (forget_all ids s requests, took requests, refl, (sound', omega arith, counts))

after_forgets_most : (j n : ℕ) (requests : List (ℕ × ℕ)) → after_forgets j n requests ≤ n
unfolding after_forgets
after_forgets_most j n [] = omega arith
after_forgets_most j n ((inode, count) ∷ rest) =
    let n' = if inode == root_id then n else (if inode == j then n - count else n) in
    let below : n' ≤ n = ground arith in omega (arith, below, after_forgets_most j n' rest)

after_event_most : (j n : ℕ) (e : Event) → after_event j n e ≤ n + 1
after_event_most j n (gave (ok k)) = ground arith
after_event_most j n (gave (err e)) = omega arith
after_event_most j n (gave panic) = omega arith
after_event_most j n (took requests) = omega (arith, after_forgets_most j n requests)

call_all-Stepped :
    (ids : InodeIds) (s : Inodes) (calls : List Call)
    → IsSound s
    → s.next_inode + length calls < 2 ^ 64
    → ((k : ℕ) → lookups s k + length calls < 2 ^ 64 - 1)
    → (t : Inodes) × (events : List Event) × (call_all ids s calls ≡ some (t, events))
      × IsSound t
      × ((j : ℕ) → lookups t j ≡ ledger j (lookups s j) events)
unfolding call_all ledger
call_all-Stepped ids s [] sound room small = (s, [], refl, sound, λ j. refl)
call_all-Stepped ids s (call ∷ rest) sound room small =
    let (s', e, at, (sound', below, counts)) =
      call_one-Stepped ids s call sound (omega arith) (λ k. omega (arith, small k)) in
    let (t, events, at', sound'', counts') =
      call_all-Stepped ids s' rest sound' (omega arith)
        (λ k. omega (arith, small k, counts k, after_event_most k (lookups s k) e)) in
    (
      t,
      e ∷ events,
      ap (then_all (λ x. call_all ids x rest)) at ∙ ap (logged e) at',
      sound'',
      λ j. counts' j ∙ ap (λ n. ledger j n events) (counts j),
    )

-- Lookups and forgets in any sequence, without host numbers, from a sound store with numbers left
-- for the calls and no count that they could bring to the top of its range: all of them end, and
-- afterwards an inode is in the store, with the count of the client's ledger, if and only if that
-- count is not 0. The ledger adds one for each lookup that gave the inode, and takes off what each
-- forget says, down to 0 at most and from the root nothing.
pub call_all-Holds :
    (ids : InodeIds) (s : Inodes) (calls : List Call)
    → IsSound s
    → s.next_inode + length calls < 2 ^ 64
    → ((k : ℕ) → lookups s k + length calls < 2 ^ 64 - 1)
    → (t : Inodes) × (events : List Event) × (call_all ids s calls ≡ some (t, events))
      × IsSound t
      × ((j : ℕ) → Holds t j (ledger j (lookups s j) events))
call_all-Holds ids s calls sound room small =
    let (t, events, at, sound', counts) = call_all-Stepped ids s calls sound room small in
    (t, events, at, sound', λ j. subst (Holds t j) (counts j) (lookups-Holds t j sound'))
