-- ===== src/Overlay/Fresh.antt =====
-- src/overlayfs/inode_store.rs, `alloc_unique_inode`: the search for a free inode number.
use fuse_backend_rs.Prelude.{
  ℕ, zero, suc, ◌+◌, ◌-◌, ◌%◌, ◌<◌, ◌≤◌, ◌≡◌, refl, Bool, true, false, Option, none, some, arith,
  ◌==◌, Bool-cases, Option-cases, ◌≢◌, inl, inr,
}
use fuse_backend_rs.Prelude.Outcome.{ok, err}
use fuse_backend_rs.Fs.{Result, other}
use fuse_backend_rs.Vfs.Inode.{vfs_max_ino}
use fuse_backend_rs.Prelude.Map.{get}
use fuse_backend_rs.Overlay.{
  get_inode, get_deleted_inode, get_all_inode, InodeStore, in_use, wrap_ino, search_ino,
  alloc_unique_inode,
}

-- The number looked at in the round `k` of a search from `start`.
abbrev candidate : ℕ → ℕ → ℕ
candidate start k = (start - 1 + k) % vfs_max_ino + 1

module _ (used : ℕ → Bool) where
  -- The outcomes of a search: a number in range that is not in use, or none in range is free.
  pub data Found (o : Option ℕ) : Type 0 where
    found : (i : ℕ) → o ≡ some i → 0 < i → i ≤ vfs_max_ino → used i ≡ false → Found o
    none_free : o ≡ none → ((i : ℕ) → 0 < i → i ≤ vfs_max_ino → used i ≡ true) → Found o

  module _ (start : ℕ) (pos : 0 < start) (le : start ≤ vfs_max_ino + 1) where
    abbrev Passed : ℕ → Type 0
    Passed k = (j : ℕ) → j < k → used (candidate start j) ≡ true

    Passed-suc : (k : ℕ) → Passed k → used (candidate start k) ≡ true → Passed (k + 1)
    Passed-suc k p here j lt = elim (Bool-cases (j == k)) [
      | inl e ↦ let same : k ≡ j = ground arith in rw same at here
      | inr e ↦ p j (ground arith)
    ]

    all-Passed : Passed vfs_max_ino → (i : ℕ) → 0 < i → i ≤ vfs_max_ino → used i ≡ true
    all-Passed p i ipos ile =
        let j : ℕ = (i + vfs_max_ino + vfs_max_ino - start) % vfs_max_ino in
        let e : candidate start j ≡ i = omega arith in rw e at (p j (omega arith))

    -- The counter before round `k`.
    abbrev Counter : ℕ → ℕ → Type 0
    Counter k ino = wrap_ino ino ≡ candidate start k

    Counter-suc : (k ino : ℕ) → Counter k ino → Counter (k + 1) (wrap_ino ino + 1)
    Counter-suc k ino c = ground arith

    search_ino-Found :
        (rest k ino : ℕ)
        → k + rest ≡ vfs_max_ino
        → Counter k ino
        → Passed k
        → Found (search_ino used rest ino)
    unfolding search_ino
    search_ino-Found zero k ino e c p =
        let all : k ≡ vfs_max_ino = omega arith in none_free refl (all-Passed (rw all at p))
    search_ino-Found (suc rest) k ino e c p = elim (Bool-cases (used (wrap_ino ino))) [
      | inl t ↦
          rw (t, search_ino)
            (search_ino-Found rest (k + 1) (wrap_ino ino + 1) (omega arith) (Counter-suc k ino c)
              (Passed-suc k p (rw c at t)))
      | inr f ↦ rw (f, search_ino) (found (wrap_ino ino) refl (omega arith) (omega arith) f)
    ]

-- The outcomes of an allocation in the store `s`.
pub data Fresh (s : InodeStore) (r : InodeStore × Result ℕ) : Type 0 where
  gives :
      (i : ℕ)
      → r ≡ (record s { next_inode = i + 1 }, ok i)
      → 0 < i
      → i ≤ vfs_max_ino
      → get_inode s i ≡ none
      → get_deleted_inode s i ≡ none
      → Fresh s r
  full :
      r ≡ (s, err other)
      → ((i : ℕ) → 0 < i → i ≤ vfs_max_ino → get_all_inode s i ≢ none)
      → Fresh s r

free_lem :
    (s : InodeStore) (i : ℕ)
    → in_use s i ≡ false
    → (get_inode s i ≡ none) × (get_deleted_inode s i ≡ none)
unfolding in_use
free_lem s i h = elim (Option-cases (get i s.inodes)) [
  | inr (v, e) ↦ absurd (ground (arith, e))
  | inl e ↦ elim (Option-cases (get i s.deleted)) [
    | inr (v, e') ↦ absurd (ground (arith, e, e'))
    | inl e' ↦ (e, e')
  ]
]

taken_lem : (s : InodeStore) (i : ℕ) → in_use s i ≡ true → get_all_inode s i ≢ none
unfolding in_use get_all_inode
taken_lem s i h = ground arith

from_search :
    (s : InodeStore)
    → Found (in_use s) (search_ino (in_use s) vfs_max_ino s.next_inode)
    → Fresh s (alloc_unique_inode s)
unfolding alloc_unique_inode
from_search s (found i e pos le free) =
    let (a, b) = free_lem s i free in gives i (rw (e, alloc_unique_inode)) pos le a b
from_search s (none_free e all) =
    full (rw (e, alloc_unique_inode)) (λ i pos le. taken_lem s i (all i pos le))

-- While the counter is in range, an allocation ends within its rounds. It gives a number from 1 to
-- the largest one that neither an active nor a deleted inode has, and leaves the counter behind it,
-- unless all are in use, and then it reports that and changes nothing.
pub alloc_unique_inode-Fresh :
    (s : InodeStore)
    → 0 < s.next_inode
    → s.next_inode ≤ vfs_max_ino + 1
    → Fresh s (alloc_unique_inode s)
alloc_unique_inode-Fresh s pos le = from_search s (
    search_ino-Found (in_use s) s.next_inode pos le vfs_max_ino 0 s.next_inode (omega arith)
      (ground arith) (λ j lt. absurd (omega arith)))
