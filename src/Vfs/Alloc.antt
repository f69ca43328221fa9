-- ===== src/Vfs/Alloc.antt =====
-- src/api/vfs/mod.rs, `allocate_fs_idx`: the search for a free index among 256, of which 0 is
-- taken.
use fuse_backend_rs.Prelude.{
  ℕ, zero, suc, ◌+◌, ◌-◌, ◌%◌, ◌<◌, ◌≡◌, Bool, true, false, ◌&&◌, ◌||◌, Option, none, some, List,
  arith, ◌==◌, if◌then◌else◌, get_elem?, Bool-cases, ◌⊎◌, inl, inr,
}
use fuse_backend_rs.Prelude.Outcome.{ok, err, panic}
use fuse_backend_rs.Fs.{other, Result}
use fuse_backend_rs.Vfs.Inode.{vfs_pseudo_fs_idx}

-- `(index as usize) < superblocks.len() && superblocks[index as usize].is_some()`
unfoldable pub is_taken {ℓ} : {B : Type ℓ} → List (Option B) → ℕ → Bool
is_taken superblocks index = elim (get_elem? superblocks index) [
  | none ↦ false
  | some slot ↦ elim slot [ none ↦ false | some fs ↦ true ]
]

-- The loop, with the counter `next_super`, an AtomicU8, that it moves on. The fuel bounds the
-- rounds; where it ran out the result would be `panic`.
unfoldable pub alloc_loop {ℓ} : {B : Type ℓ} → ℕ → List (Option B) → ℕ → Bool → ℕ → ℕ × Result ℕ
unfolding is_taken
alloc_loop zero superblocks start found next = (next, panic)
alloc_loop (suc fuel) superblocks start found next =
    let index = next in
    let next' = (next + 1) % 256 in
    let more = alloc_loop fuel superblocks start (found || index == start) next' in
    if (index == start) && found
    then (next', err other)
    else if index == vfs_pseudo_fs_idx
    then more
    else if is_taken superblocks index
    then more
    else (next', ok index)

-- At most all 256 indices are looked at, and the first one once more.
abbrev pub alloc_rounds : ℕ
alloc_rounds = 257

unfoldable pub allocate_fs_idx {ℓ} : {B : Type ℓ} → List (Option B) → ℕ → ℕ × Result ℕ
unfolding alloc_loop
allocate_fs_idx superblocks next_super =
    alloc_loop alloc_rounds superblocks next_super false next_super

module _ {ℓ} {B : Type ℓ} (superblocks : List (Option B)) where
  -- The outcomes of the search: a free index other than 0, or the discovery that all are taken.
  pub data Search (r : ℕ × Result ℕ) : Type 0 where
    gives :
        (i : ℕ)
        → r ≡ ((i + 1) % 256, ok i)
        → 0 < i
        → i < 256
        → is_taken superblocks i ≡ false
        → Search r
    full :
        (n : ℕ)
        → r ≡ (n, err other)
        → n < 256
        → ((i : ℕ) → 0 < i → i < 256 → is_taken superblocks i ≡ true)
        → Search r

  module _ (start : ℕ) (small : start < 256) where
    -- The first `k` indices from `start` on cannot be given out.
    abbrev Passed : ℕ → Type 0
    Passed k =
        (j : ℕ) → j < k → 0 < (start + j) % 256 → is_taken superblocks ((start + j) % 256) ≡ true

    all-Passed : Passed 256 → (i : ℕ) → 0 < i → i < 256 → is_taken superblocks i ≡ true
    all-Passed p i pos lt =
        let e : (start + (i + 256 - start) % 256) % 256 ≡ i = omega arith in
        rw e at (p ((i + 256 - start) % 256) (omega arith) (omega arith))

    Passed-suc :
        (k : ℕ)
        → Passed k
        → (0 < (start + k) % 256 → is_taken superblocks ((start + k) % 256) ≡ true)
        → Passed (k + 1)
    Passed-suc k p here j lt pos = elim (Bool-cases (j == k)) [
      | inl e ↦
          let same : k ≡ j = ground arith in
          let there : 0 < (start + k) % 256 = rw same pos in rw same at (here there)
      | inr e ↦ p j (ground arith) pos
    ]

    skip :
        (fuel k : ℕ) (found : Bool)
        → (((start + k) % 256 == start) && found) ≡ false
        → ((start + k) % 256 ≡ 0) ⊎ (is_taken superblocks ((start + k) % 256) ≡ true)
        → alloc_loop (suc fuel) superblocks start found ((start + k) % 256)
          ≡ alloc_loop fuel superblocks start
              (found || (start + k) % 256 == start)
              ((start + (k + 1)) % 256)
    unfolding alloc_loop
    skip fuel k found fresh bad =
        let e : ((start + k) % 256 + 1) % 256 ≡ (start + (k + 1)) % 256 = omega arith in
        rw (← e) (ground arith)

    give :
        (fuel k : ℕ) (found : Bool)
        → (((start + k) % 256 == start) && found) ≡ false
        → 0 < (start + k) % 256
        → is_taken superblocks ((start + k) % 256) ≡ false
        → Search (alloc_loop (suc fuel) superblocks start found ((start + k) % 256))
    unfolding alloc_loop
    give fuel k found fresh pos free =
        gives ((start + k) % 256) (ground arith) pos (omega arith) free

    -- Whether the `k`-th index can be given out.
    abbrev Verdict : ℕ → Type 0
    Verdict k =
        ((0 < (start + k) % 256) × (is_taken superblocks ((start + k) % 256) ≡ false))
        ⊎ (((start + k) % 256 ≡ 0) ⊎ (is_taken superblocks ((start + k) % 256) ≡ true))

    verdict : (k : ℕ) → Verdict k
    verdict k = elim (Bool-cases (is_taken superblocks ((start + k) % 256))) [
      | inl t ↦ inr (inr t)
      | inr f ↦ elim (Bool-cases ((start + k) % 256 == 0)) [
        | inl z ↦ inr (inl (ground arith))
        | inr z ↦ inl (ground arith, f)
      ]
    ]

    bad_taken :
        (k : ℕ)
        → ((start + k) % 256 ≡ 0) ⊎ (is_taken superblocks ((start + k) % 256) ≡ true)
        → 0 < (start + k) % 256
        → is_taken superblocks ((start + k) % 256) ≡ true
    bad_taken k (inl z) pos = absurd (omega arith)
    bad_taken k (inr t) pos = t

    -- Round `k` of the loop, once the first index has been seen.
    alloc_loop-Search :
        (rest k : ℕ)
        → 0 < k
        → k + rest ≡ 256
        → Passed k
        → Search (alloc_loop (suc rest) superblocks start true ((start + k) % 256))
    unfolding alloc_loop
    alloc_loop-Search zero k pos e p =
        let all : k ≡ 256 = omega arith in
        full ((start + 1) % 256) (ground arith) (omega arith) (all-Passed (rw all at p))
    alloc_loop-Search (suc rest) k pos e p = elim (verdict k) [
      | inl (nz, free) ↦ give (suc rest) k true (ground arith) nz free
      | inr bad ↦ rw (skip (suc rest) k true (ground arith) bad) (
          alloc_loop-Search rest (k + 1) (omega arith) (omega arith)
            (Passed-suc k p (bad_taken k bad)))
    ]

    first_round : Search (alloc_loop alloc_rounds superblocks start false ((start + 0) % 256))
    first_round = elim (verdict 0) [
      | inl (nz, free) ↦ give 256 0 false (ground arith) nz free
      | inr bad ↦
          let e : (false || (start + 0) % 256 == start) ≡ true = ground arith in
          rw (skip 256 0 false (ground arith) bad, e)
            (alloc_loop-Search 255 1 (omega arith) (omega arith)
              (Passed-suc 0 (λ j lt. absurd (omega arith)) (bad_taken 0 bad)))
    ]

  -- From any 8-bit counter, the search for an index ends within its rounds. It gives a free index
  -- other than 0, and leaves the counter behind it, unless all indices from 1 to 255 are taken, and
  -- then it reports that.
  pub allocate_fs_idx-Search :
      (next_super : ℕ) → next_super < 256 → Search (allocate_fs_idx superblocks next_super)
  unfolding allocate_fs_idx
  allocate_fs_idx-Search start small =
      let e : (start + 0) % 256 ≡ start = omega arith in rw e at (first_round start small)
