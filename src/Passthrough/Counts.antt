-- ===== src/Passthrough/Counts.antt =====
-- How often each inode of src/passthrough is looked up, as the store of inodes keeps it.
use fuse_backend_rs.Prelude.{
  Bool, true, false, ℕ, ◌+◌, ◌^◌, ◌%◌, ◌≤◌, ◌<◌, ◌≡◌, refl, sym, ap, ◌∙◌, ◌⊎◌, inl, inr, false,
  Option, Option-cases, none, some, ◌==◌, if◌then◌else◌, arith,
}
use fuse_backend_rs.Prelude.Outcome.{ok}
use fuse_backend_rs.Prelude.Map.{Map, get, get-insert, insert_cases}
use fuse_backend_rs.Fs.{u64_mod}
use fuse_backend_rs.Passthrough.Inodes.{
  Inodes, get_inode_locked, without_handle, or_else, get_alt_locked, with_refcount, allocate_inode,
  own_number,
}
use fuse_backend_rs.Passthrough.Store.{InodeData, InodeStore, get_by_id, get_by_handle}
use fuse_backend_rs.Passthrough.Unique.{InodeIds}

-- The lookups of an inode that were not forgotten.
abbrev pub count_of : Option InodeData → ℕ
count_of none = 0
count_of (some d) = d.refcount

unfoldable pub lookups : Inodes → ℕ → ℕ
lookups s inode = count_of (get inode s.store.data_)

-- Every inode lies under its own number and is looked up, and numbers that are in use or kept for a
-- file were given out.
pub record IsSound (s : Inodes) : Type 0 where
  pub own : (k : ℕ) (d : InodeData) → get k s.store.data_ ≡ some d → d.inode ≡ k
  pub counted : (k : ℕ) (d : InodeData) → get k s.store.data_ ≡ some d → 0 < d.refcount
  pub given : (k : ℕ) (d : InodeData) → get k s.store.data_ ≡ some d → k < s.next_inode
  pub given_id : (id k : ℕ) → get id s.store.by_id ≡ some k → k < s.next_inode
  pub given_handle : (h k : ℕ) → get h s.store.by_handle ≡ some k → k < s.next_inode

-- What the store finds lies in it.
found :
    (m : Map InodeData) (k : Option ℕ) (d : InodeData)
    → elim k [ none ↦ none | some inode ↦ get inode m ] ≡ some d
    → (inode : ℕ) × (get inode m ≡ some d)
found m none d e = absurd (cc e)
found m (some inode) d e = (inode, e)

without_handle-some :
    (handle_opt : Option ℕ) (o : Option InodeData) (d : InodeData)
    → without_handle handle_opt o ≡ some d
    → o ≡ some d
without_handle-some handle_opt none d e = e
without_handle-some none (some d') d e = e
without_handle-some (some h) (some d') d e = ground (arith, e)

or_else-some :
    (a b : Option InodeData) (d : InodeData) → or_else a b ≡ some d → (a ≡ some d) ⊎ (b ≡ some d)
or_else-some none b d e = inr e
or_else-some (some d') b d e = inl e

pub get_alt_locked-found :
    (s : InodeStore) (id : ℕ) (handle_opt : Option ℕ) (d : InodeData)
    → get_alt_locked s id handle_opt ≡ some d
    → (inode : ℕ) × (get inode s.data_ ≡ some d)
unfolding get_alt_locked
get_alt_locked-found s id none d e =
    found s.data_ (get id s.by_id) d (without_handle-some none (get_by_id s id) d e)
get_alt_locked-found s id (some h) d e =
    elim (or_else-some (get_by_handle s h) (without_handle (some h) (get_by_id s id)) d e) [
      | inl a ↦ found s.data_ (get h s.by_handle) d a
      | inr b ↦ found s.data_ (get id s.by_id) d (without_handle-some (some h) (get_by_id s id) d b)
    ]

without_handle-none : (o : Option InodeData) → without_handle none o ≡ none → o ≡ none
without_handle-none none e = refl
without_handle-none (some d) e = e

or_else-none : (a b : Option InodeData) → or_else a b ≡ none → a ≡ none
or_else-none none b e = refl
or_else-none (some d) b e = e

-- Where nothing is found, the number that is kept for the file has no inode.
get_inode_locked-free :
    (s : InodeStore) (id : ℕ) (handle_opt : Option ℕ) (k : ℕ)
    → get_alt_locked s id handle_opt ≡ none
    → get_inode_locked s id handle_opt ≡ some k
    → get k s.data_ ≡ none
unfolding get_alt_locked
get_inode_locked-free s id none k e kept =
    let shown : get_by_id s id ≡ get k s.data_ = rw (get_by_id, kept) refl in
    sym shown ∙ without_handle-none (get_by_id s id) e
get_inode_locked-free s id (some h) k e kept =
    let shown : get_by_handle s h ≡ get k s.data_ = rw (get_by_handle, kept) refl in
    sym shown ∙ or_else-none (get_by_handle s h) _ e

pub lookups-none : (s : Inodes) (k : ℕ) → get k s.store.data_ ≡ none → lookups s k ≡ 0
unfolding lookups
lookups-none s k e = ap count_of e

pub lookups-some :
    (s : Inodes) (k : ℕ) (d : InodeData) → get k s.store.data_ ≡ some d → lookups s k ≡ d.refcount
unfolding lookups
lookups-some s k d e = ap count_of e

pub if_agree :
    (b : Bool) (x y z : ℕ) → (b ≡ true → x ≡ y) → (if b then x else z) ≡ (if b then y else z)
if_agree true x y z h = h refl
if_agree false x y z h = refl

-- A store in which the inode `d` has another count.
pub with_refcount-lookups :
    (s : Inodes) (d : InodeData) (n j : ℕ)
    → lookups (with_refcount s d n) j ≡ (if d.inode == j then n else lookups s j)
unfolding lookups
with_refcount-lookups s d n j =
    ground (arith, get-insert d.inode j (record d { refcount = n }) s.store.data_)

pub with_refcount-IsSound :
    (s : Inodes) (d : InodeData) (n : ℕ)
    → IsSound s
    → 0 < n
    → d.inode < s.next_inode
    → IsSound (with_refcount s d n)
with_refcount-IsSound s d n sound pos below = record {
  own = λ k e at. elim (insert_cases d.inode k (record d { refcount = n }) e s.store.data_ at) [
    | inl (here, same) ↦ ap (λ x. x.inode) (sym same) ∙ here
    | inr old ↦ sound.own k e old
  ];
  counted = λ k e at. elim (insert_cases d.inode k (record d { refcount = n }) e s.store.data_ at) [
    | inl (here, same) ↦ omega (arith, ap (λ x. x.refcount) same)
    | inr old ↦ sound.counted k e old
  ];
  given = λ k e at. elim (insert_cases d.inode k (record d { refcount = n }) e s.store.data_ at) [
    | inl (here, same) ↦ omega arith
    | inr old ↦ sound.given k e old
  ];
  given_id = sound.given_id;
  given_handle = sound.given_handle;
}

-- A number that was given out, and the state after, which has the same store.
pub record IsFree (s : Inodes) (s' : Inodes) (k : ℕ) : Type 0 where
  pub same : s'.store ≡ s.store
  pub free : get k s.store.data_ ≡ none
  pub below : k < s'.next_inode
  pub grows : s.next_inode ≤ s'.next_inode
  pub most : s'.next_inode ≤ s.next_inode + 1

module _ (ids : InodeIds) where
  pub allocate_inode-IsFree :
      (s : Inodes) (id : ℕ) (handle_opt : Option ℕ)
      → IsSound s
      → s.next_inode + 1 < 2 ^ 64
      → get_alt_locked s.store id handle_opt ≡ none
      → (s' : Inodes) × (k : ℕ) × (allocate_inode false ids s id handle_opt ≡ (s', ok k))
        × IsFree s s' k
  unfolding allocate_inode
  allocate_inode-IsFree s id handle_opt sound room none_found =
      elim (Option-cases (get_inode_locked s.store id handle_opt)) [
        | inl fresh ↦ (
          record s { next_inode = (s.next_inode + 1) % u64_mod },
          s.next_inode,
          ap (own_number false ids s) fresh,
          record {
            same = refl;
            free = unused s sound;
            below = omega arith;
            grows = omega arith;
            most = omega arith;
          },
        )
        | inr (k, kept) ↦ (
          s,
          k,
          ap (own_number false ids s) kept,
          record {
            same = refl;
            free = get_inode_locked-free s.store id handle_opt k none_found kept;
            below = kept_below s id handle_opt k sound kept;
            grows = omega arith;
            most = omega arith;
          },
        )
      ]
    where
      unused : (s : Inodes) → IsSound s → get s.next_inode s.store.data_ ≡ none
      unused s sound = elim (Option-cases (get s.next_inode s.store.data_)) [
        | inl e ↦ e
        | inr (d, e) ↦ absurd (omega (arith, sound.given s.next_inode d e))
      ]

      kept_below :
          (s : Inodes) (id : ℕ) (handle_opt : Option ℕ) (k : ℕ)
          → IsSound s
          → get_inode_locked s.store id handle_opt ≡ some k
          → k < s.next_inode
      kept_below s id none k sound kept = sound.given_id id k kept
      kept_below s id (some h) k sound kept = sound.given_handle h k kept
