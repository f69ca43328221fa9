-- ===== src/Passthrough/Tests.antt =====
-- The passthrough file system's inodes at a concrete root, a file that is looked up twice and
-- forgotten, and two files of the host that share an inode number.
use fuse_backend_rs.Prelude.{
  ℕ, ◌+◌, ◌-◌, ◌^◌, ◌<◌, ◌≡◌, refl, ◌⊎◌, inr, true, Option, none, some, List, [], ◌∷◌, length,
  arith,
}
use fuse_backend_rs.Fs.{Errno, other}
use fuse_backend_rs.Passthrough.Calls.{
  Call, Event, look_up, forget, call_all, forget_all, after_forgets, ledger,
}
use fuse_backend_rs.Passthrough.Counts.{IsSound, lookups}
use fuse_backend_rs.Passthrough.Imported.{import-IsSound}
use fuse_backend_rs.Passthrough.Inodes.{
  Inodes, new_inodes, import, lookup_inode, forget_one, get_alt_locked, allocate_inode,
}
use fuse_backend_rs.Passthrough.Store.{inode_by_id, inode_by_handle, insert_data, remove_data}
use fuse_backend_rs.Prelude.Map.{get, insert, remove}
use fuse_backend_rs.Passthrough.Ledger.{Holds, call_all-Holds}
use fuse_backend_rs.Passthrough.Replaced.{Replaced, lookup_inode-Replaced}
use fuse_backend_rs.Prelude.Outcome.{ok, err}
use fuse_backend_rs.Passthrough.Distinct.{Gives, new_generator-IsDistinct, get_unique_inode-Gives}
use fuse_backend_rs.Passthrough.Unique.{
  UniqueInodeGenerator, get_unique_inode, InodeIds, new_generator, id_of,
}

abbrev ids : InodeIds
ids = record { ino = λ id. id; dev = λ id. 8; mnt = λ id. 1 }

abbrev opens : ℕ → Errno ⊎ Unit {0}
opens h = inr tt

abbrev rooted : Inodes
rooted = (import-IsSound opens 40 3 0o40755).0

rooted-IsSound : IsSound rooted
rooted-IsSound = (import-IsSound opens 40 3 0o40755).2

abbrev some_calls : List Call
some_calls =
    look_up opens 41 none 4 0o100644
    ∷ look_up opens 41 none 5 0o100644
    ∷ look_up opens 42 (some 9) 6 0o100600
    ∷ forget ((2, 1) ∷ (3, 1) ∷ (1, 5) ∷ [])
    ∷ []

room : rooted.next_inode + length some_calls < 2 ^ 64
room = omega (arith, (import-IsSound opens 40 3 0o40755).3)

small : (k : ℕ) → lookups rooted k + length some_calls < 2 ^ 64 - 1
small k = ground (arith, (import-IsSound opens 40 3 0o40755).4 k)

call_all-Holds_example :
    (t : Inodes) × (events : List Event) × (call_all ids rooted some_calls ≡ some (t, events))
    × IsSound t
    × ((j : ℕ) → Holds t j (ledger j (lookups rooted j) events))
call_all-Holds_example = call_all-Holds ids rooted some_calls rooted-IsSound room small

-- Two files of the host with one number, one after the other.
abbrev paired_already : Inodes
paired_already = record new_inodes {
  ino_allocator = record new_generator { dev_mntid_map = ((8, 1), 1) ∷ []; next_unique_id = 2 };
}

unknown_id : inode_by_id paired_already.store 41 ≡ none
unfolding get
unknown_id = refl

unknown_handle : (h : ℕ) → inode_by_handle paired_already.store h ≡ none
unfolding get
unknown_handle h = refl

known_pair : id_of 8 1 paired_already.ino_allocator.dev_mntid_map ≡ some 1
unfolding id_of
known_pair = refl

lookup_inode-Replaced_example :
    (t₁ : Inodes) × (t₂ : Inodes) × (number : ℕ) × (lookup_inode true ids opens paired_already 41
        (some 7)
        3
        0o100644
      ≡ some (t₁, ok number))
    × (lookup_inode true ids opens t₁ 41 (some 9) 3 0o100644 ≡ some (t₂, ok number))
    × Replaced t₁ t₂ number 41 7 9 0o100644
lookup_inode-Replaced_example =
    lookup_inode-Replaced ids opens paired_already 41 1 7 9 3 0o100644 refl refl (omega arith)
      unknown_id (unknown_handle 7) (unknown_handle 9) known_pair (omega arith) (omega arith)

get_unique_inode-Gives_example :
    ((g : UniqueInodeGenerator) × (number : ℕ) × (get_unique_inode ids new_generator 41
        ≡ (g, ok number))
      × Gives ids new_generator g 41 number)
    ⊎ (get_unique_inode ids new_generator 41 ≡ (new_generator, err other))
get_unique_inode-Gives_example =
    get_unique_inode-Gives ids new_generator 41 new_generator-IsDistinct (omega arith)

-- The file has lost one of its two lookups, and the root none.
abbrev events_of : Option (Inodes × List Event) → List Event
events_of none = []
events_of (some (t, events)) = events

file_count :
    ledger 2 0 (events_of (call_all ids (import opens new_inodes 40 none 3 0o40755).0 some_calls))
    ≡ 1
unfolding ledger after_forgets call_all forget_all lookup_inode forget_one get_alt_locked get insert
    remove allocate_inode insert_data remove_data import
file_count = refl
