-- ===== src/Passthrough/Forget.antt =====
-- `forget_one` of src/passthrough/mod.rs, by what it does to the counts of lookups.
use fuse_backend_rs.Prelude.{
  ℕ, ◌-◌, ◌≤◌, ◌<◌, ◌≡◌, refl, sym, ap, ◌∙◌, inl, inr, Bool, true, false, Bool-cases, Option-cases,
  some, ◌==◌, ==_iff, if◌then◌else◌, arith,
}
use fuse_backend_rs.Prelude.Map.{get, get-remove, get-remove-some}
use fuse_backend_rs.Fs.{root_id}
use fuse_backend_rs.Passthrough.Counts.{
  IsSound, if_agree, lookups, lookups-none, lookups-some, with_refcount-lookups,
  with_refcount-IsSound,
}
use fuse_backend_rs.Passthrough.Inodes.{Inodes, forgotten, forget_one}
use fuse_backend_rs.Passthrough.Store.{InodeData, remove_data}
use fuse_backend_rs.Passthrough.Unique.{InodeIds}

-- Without the data of an inode.
abbrev without_data : Inodes → ℕ → Inodes
without_data s inode = record s { store = (remove_data s.store inode true).0 }

without_data-IsSound : (s : Inodes) (inode : ℕ) → IsSound s → IsSound (without_data s inode)
unfolding remove_data
without_data-IsSound s inode sound = record {
  own = λ k d at. sound.own k d (get-remove-some inode k d s.store.data_ at);
  counted = λ k d at. sound.counted k d (get-remove-some inode k d s.store.data_ at);
  given = λ k d at. sound.given k d (get-remove-some inode k d s.store.data_ at);
  given_id = sound.given_id;
  given_handle = sound.given_handle;
}

without_data-lookups :
    (s : Inodes) (inode j : ℕ)
    → lookups (without_data s inode) j ≡ (if inode == j then 0 else lookups s j)
unfolding lookups remove_data
without_data-lookups s inode j = ground (arith, get-remove inode j s.store.data_)

-- The counts after a forget: the root is never forgotten, and no count goes below 0.
abbrev pub Forgot : Inodes → Inodes → ℕ → ℕ → Type 0
Forgot s t inode count =
    IsSound t
    × (t.next_inode ≤ s.next_inode)
    × ((j : ℕ)
        → lookups t j ≡ (
            if inode == root_id
            then lookups s j
            else (if inode == j then lookups s j - count else lookups s j)))

module _ (ids : InodeIds) where
  forgotten-lookups :
      (s : Inodes) (inode count : ℕ) (d : InodeData)
      → IsSound s
      → get inode s.store.data_ ≡ some d
      → IsSound (forgotten false ids s inode count (some d))
        × ((forgotten false ids s inode count (some d)).next_inode ≤ s.next_inode)
        × ((j : ℕ)
            → lookups (forgotten false ids s inode count (some d)) j
              ≡ (if inode == j then lookups s j - count else lookups s j))
  forgotten-lookups s inode count d sound at =
      let same : (j : ℕ) → inode == j ≡ true → lookups s j ≡ d.refcount =
        λ j e. ap (lookups s) (sym ((==_iff inode j).0 e)) ∙ lookups-some s inode d at in
      let own = sound.own inode d at in
      elim (Bool-cases (d.refcount - count == 0)) [
        | inl t ↦
            let zero = (==_iff (d.refcount - count) 0).0 t in
            rw t (
              without_data-IsSound s inode sound,
              omega arith,
              λ j.
                  without_data-lookups s inode j
                  ∙ if_agree (inode == j) 0 (lookups s j - count) (lookups s j)
                      (λ e. omega (arith, zero, same j e)),
            )
        | inr f ↦ rw f (
          with_refcount-IsSound s d (d.refcount - count) sound (not_zero (d.refcount - count) f)
              (omega (arith, own, sound.given inode d at)),
          omega arith,
          λ j.
              with_refcount-lookups s d (d.refcount - count) j
              ∙ ap (λ k. if k == j then d.refcount - count else lookups s j) own
              ∙ if_agree (inode == j) (d.refcount - count) (lookups s j - count) (lookups s j)
                  (λ e. omega (arith, same j e)),
        )
      ]
    where
      not_zero : (n : ℕ) → n == 0 ≡ false → 0 < n
      not_zero n f = ground (arith, f)

  -- A forget without host numbers, on a sound store, takes the given count off the count of that
  -- inode, down to 0 at most, and leaves every other one; of the root it takes nothing. The store
  -- is sound after it.
  pub forget_one-Forgot :
      (s : Inodes) (inode count : ℕ)
      → IsSound s
      → Forgot s (forget_one false ids s inode count) inode count
  unfolding forget_one
  forget_one-Forgot s inode count sound = elim (Bool-cases (inode == root_id)) [
    | inl t ↦ rw t (sound, omega arith, λ j. refl)
    | inr f ↦ elim (Option-cases (get inode s.store.data_)) [
      | inl e ↦
          rw (f, e)
            (
              sound,
              omega arith,
              λ j. sym (
                  if_agree (inode == j) (lookups s j - count) (lookups s j) (lookups s j) (λ t.
                    omega
                      (arith, ap (lookups s) (sym ((==_iff inode j).0 t)), lookups-none s inode e))
                  ∙ if_same (inode == j) (lookups s j)),
            )
      | inr (d, e) ↦ rw (f, e) (forgotten-lookups s inode count d sound e)
    ]
  ]
    where
      if_same : (b : Bool) (x : ℕ) → (if b then x else x) ≡ x
      if_same true x = refl
      if_same false x = refl
