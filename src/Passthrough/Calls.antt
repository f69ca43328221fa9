-- ===== src/Passthrough/Calls.antt =====
-- Lookups and forgets of src/passthrough/sync_io.rs one after the other, and the ledger of lookups
-- that a client of theirs keeps.
use fuse_backend_rs.Prelude.{
  ℕ, ◌+◌, ◌-◌, Option, none, some, List, [], ◌∷◌, ◌⊎◌, ◌==◌, if◌then◌else◌, false,
}
use fuse_backend_rs.Prelude.Outcome.{ok, err, panic}
use fuse_backend_rs.Fs.{Errno, Result, root_id}
use fuse_backend_rs.Passthrough.Inodes.{Inodes, lookup_inode, forget_one}
use fuse_backend_rs.Passthrough.Unique.{InodeIds}

-- `batch_forget`
unfoldable pub forget_all : InodeIds → Inodes → List (ℕ × ℕ) → Inodes
forget_all ids s [] = s
forget_all ids s ((inode, count) ∷ rest) = forget_all ids (forget_one false ids s inode count) rest

pub data Call : Type 0 where
  look_up : (ℕ → Errno ⊎ Unit {0}) → ℕ → Option ℕ → ℕ → ℕ → Call
  forget : List (ℕ × ℕ) → Call

-- What the client sees of a call.
pub data Event : Type 0 where
  gave : Result ℕ → Event
  took : List (ℕ × ℕ) → Event

abbrev pub answered : Option (Inodes × Result ℕ) → Option (Inodes × Event)
answered none = none
answered (some (t, o)) = some (t, gave o)

-- Without host numbers.
abbrev pub call_one : InodeIds → Inodes → Call → Option (Inodes × Event)
call_one ids s (look_up to_openable id handle_opt path_fd mode) =
    answered (lookup_inode false ids to_openable s id handle_opt path_fd mode)
call_one ids s (forget requests) = some (forget_all ids s requests, took requests)

abbrev pub logged : Event → Option (Inodes × List Event) → Option (Inodes × List Event)
logged e none = none
logged e (some (t, events)) = some (t, e ∷ events)

abbrev pub then_all :
    (Inodes → Option (Inodes × List Event)) → Option (Inodes × Event) → Option (Inodes × List Event)
then_all rest none = none
then_all rest (some (t, e)) = logged e (rest t)

unfoldable pub call_all : InodeIds → Inodes → List Call → Option (Inodes × List Event)
call_all ids s [] = some (s, [])
call_all ids s (call ∷ rest) = then_all (λ t. call_all ids t rest) (call_one ids s call)

-- The client's ledger for the inode `j`, which starts at `n`: one more for each lookup that gave
-- it, and what the forgets take off.
unfoldable pub after_forgets : ℕ → ℕ → List (ℕ × ℕ) → ℕ
after_forgets j n [] = n
after_forgets j n ((inode, count) ∷ rest) =
    after_forgets j (if inode == root_id then n else (if inode == j then n - count else n)) rest

abbrev pub after_event : ℕ → ℕ → Event → ℕ
after_event j n (gave (ok k)) = if k == j then n + 1 else n
after_event j n (gave (err e)) = n
after_event j n (gave panic) = n
after_event j n (took requests) = after_forgets j n requests

unfoldable pub ledger : ℕ → ℕ → List Event → ℕ
ledger j n [] = n
ledger j n (e ∷ rest) = ledger j (after_event j n e) rest
