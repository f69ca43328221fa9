-- ===== src/Passthrough/Lookup.antt =====
-- `do_lookup` and `forget_one` of src/passthrough/mod.rs, by what they do to the counts of lookups.
use fuse_backend_rs.Prelude.{
  ℕ, ◌+◌, ◌-◌, ◌^◌, ◌≤◌, ◌<◌, ◌≡◌, refl, sym, ap, ◌∙◌, ◌⊎◌, inl, inr, false, Bool-cases, Option,
  Option-cases, none, some, ◌==◌, ==_iff, ==_ne, ltb, leb_fits, if◌then◌else◌, arith,
}
use fuse_backend_rs.Prelude.Outcome.{ok, err}
use fuse_backend_rs.Prelude.Map.{Map, get, get-insert, insert_cases}
use fuse_backend_rs.Fs.{Errno, Result, other}
use fuse_backend_rs.Passthrough.Counts.{
  IsSound, IsFree, if_agree, lookups, lookups-none, lookups-some, count_of, get_alt_locked-found,
  with_refcount-lookups, with_refcount-IsSound, allocate_inode-IsFree,
}
use fuse_backend_rs.Passthrough.Inodes.{
  Inodes, get_alt_locked, with_refcount, saturating_add_1, vfs_max_ino, inserted, add_locked,
  opened_handle, new_handle, add_new, search_or_add, lookup_inode,
}
use fuse_backend_rs.Passthrough.Store.{
  InodeHandle, file, handle, InodeData, insert_handle, insert_data,
}
use fuse_backend_rs.Passthrough.Unique.{InodeIds}

-- A new inode in a store that had none of that number.
abbrev pub with_inode : Inodes → InodeData → Inodes
with_inode s d = record s { store = insert_data s.store d }

IsSound-moved :
    (s s' : Inodes) → IsSound s → s'.store ≡ s.store → s.next_inode ≤ s'.next_inode → IsSound s'
IsSound-moved s s' sound same grows = record {
  own = λ k d at. sound.own k d (ap (λ t. get k t.data_) (sym same) ∙ at);
  counted = λ k d at. sound.counted k d (ap (λ t. get k t.data_) (sym same) ∙ at);
  given = λ k d at. omega (arith, sound.given k d (ap (λ t. get k t.data_) (sym same) ∙ at));
  given_id = λ i k at. omega (arith, sound.given_id i k (ap (λ t. get i t.by_id) (sym same) ∙ at));
  given_handle =
      λ h k at. omega (arith, sound.given_handle h k (ap (λ t. get h t.by_handle) (sym same) ∙ at));
}

insert_handle-given :
    (h : InodeHandle) (inode next : ℕ) (m : Map ℕ)
    → inode < next
    → ((x k : ℕ) → get x m ≡ some k → k < next)
    → (x k : ℕ) → get x (insert_handle h inode m) ≡ some k
    → k < next
insert_handle-given (file fd) inode next m lt given x k at = given x k at
insert_handle-given (handle h) inode next m lt given x k at = elim (insert_cases h x inode k m at) [
  | inl (here, same) ↦ omega arith
  | inr old ↦ given x k old
]

pub with_inode-IsSound :
    (s : Inodes) (d : InodeData)
    → IsSound s
    → d.inode < s.next_inode
    → 0 < d.refcount
    → IsSound (with_inode s d)
unfolding insert_data
with_inode-IsSound s d sound below pos = record {
  own = λ k e at. elim (insert_cases d.inode k d e s.store.data_ at) [
    | inl (here, same) ↦ ap (λ x. x.inode) (sym same) ∙ here
    | inr old ↦ sound.own k e old
  ];
  counted = λ k e at. elim (insert_cases d.inode k d e s.store.data_ at) [
    | inl (here, same) ↦ omega (arith, ap (λ x. x.refcount) same)
    | inr old ↦ sound.counted k e old
  ];
  given = λ k e at. elim (insert_cases d.inode k d e s.store.data_ at) [
    | inl (here, same) ↦ omega arith
    | inr old ↦ sound.given k e old
  ];
  given_id = λ i k at. elim (insert_cases d.id i d.inode k s.store.by_id at) [
    | inl (here, same) ↦ omega arith
    | inr old ↦ sound.given_id i k old
  ];
  given_handle =
      insert_handle-given d.handle d.inode s.next_inode s.store.by_handle below sound.given_handle;
}

pub with_inode-lookups :
    (s : Inodes) (d : InodeData) (j : ℕ)
    → lookups (with_inode s d) j ≡ (if d.inode == j then d.refcount else lookups s j)
unfolding lookups insert_data
with_inode-lookups s d j = ground (arith, get-insert d.inode j d s.store.data_)

lookups-moved : (s s' : Inodes) (j : ℕ) → s'.store ≡ s.store → lookups s' j ≡ lookups s j
unfolding lookups
lookups-moved s s' j same = ap (λ t. count_of (get j t.data_)) same

-- One inode is looked up once more, or the lookup fails and none is.
abbrev pub LookedUp : Inodes → Inodes → Result ℕ → Type 0
LookedUp s s' o =
    IsSound s'
    × (s'.next_inode ≤ s.next_inode + 1)
    × (((k : ℕ) × (o ≡ ok k)
          × ((j : ℕ) → lookups s' j ≡ (if k == j then lookups s j + 1 else lookups s j)))
        ⊎ ((e : Errno) × (o ≡ err e) × ((j : ℕ) → lookups s' j ≡ lookups s j)))

pub new_handle-cases :
    (path_fd : ℕ) (handle_opt : Option ℕ) (to_openable : ℕ → Errno ⊎ Unit {0})
    → ((h : InodeHandle) × (new_handle path_fd handle_opt to_openable ≡ ok h))
      ⊎ ((e : Errno) × (new_handle path_fd handle_opt to_openable ≡ err e))
new_handle-cases path_fd none to_openable = inl (file path_fd, refl)
new_handle-cases path_fd (some h) to_openable = opened_cases (to_openable h)
  where
    opened_cases :
        (o : Errno ⊎ Unit {0})
        → ((h' : InodeHandle) × (opened_handle h o ≡ ok h'))
          ⊎ ((e : Errno) × (opened_handle h o ≡ err e))
    opened_cases (inl e) = inr (e, refl)
    opened_cases (inr done) = inl (handle h, refl)

module _ (ids : InodeIds) where
  inserted-LookedUp :
      (s s' : Inodes) (id mode k : ℕ) (h : InodeHandle)
      → IsSound s
      → IsFree s s' k
      → (t : Inodes) × (o : Result ℕ) × (inserted false ids id h mode (s', ok k) ≡ (t, o))
        × LookedUp s t o
  inserted-LookedUp s s' id mode k h sound is =
      let moved = IsSound-moved s s' sound is.same is.grows in
      let d : InodeData = record { inode = k; handle = h; id = id; refcount = 1; mode = mode } in
      elim (Bool-cases (ltb vfs_max_ino k)) [
        | inl t ↦ (
          s',
          err other,
          rw t refl,
          (moved, is.most, inr (other, refl, λ j. lookups-moved s s' j is.same)),
        )
        | inr f ↦ (
          with_inode s' d,
          ok k,
          rw f refl,
          (
            with_inode-IsSound s' d moved is.below (omega arith),
            is.most,
            inl (
              k,
              refl,
              λ j. ground (
                arith,
                with_inode-lookups s' d j,
                lookups-moved s s' j is.same,
                lookups-none s k is.free,
              ),
            ),
          ),
        )
      ]

  found-LookedUp :
      (s : Inodes) (d : InodeData) (k : ℕ)
      → IsSound s
      → get k s.store.data_ ≡ some d
      → lookups s k < 2 ^ 64 - 1
      → LookedUp s (with_refcount s d (saturating_add_1 d.refcount)) (ok d.inode)
  found-LookedUp s d k sound at small =
      let own = sound.own k d at in
      let count = lookups-some s k d at in
      let next : saturating_add_1 d.refcount ≡ d.refcount + 1 =
        rw (leb_fits (2 ^ 64 - 1) d.refcount (omega arith)) refl in
      (
        with_refcount-IsSound s d (saturating_add_1 d.refcount) sound (omega arith)
            (omega (arith, sound.given k d at)),
        omega arith,
        inl (
          d.inode,
          refl,
          λ j.
              with_refcount-lookups s d (saturating_add_1 d.refcount) j
              ∙ if_agree (d.inode == j) (saturating_add_1 d.refcount) (lookups s j + 1)
                  (lookups s j)
                  (λ t.
                    next
                    ∙ ap (λ n. n + 1)
                        (sym count ∙ ap (lookups s) (sym own ∙ (==_iff d.inode j).0 t))),
        ),
      )

  add_new-LookedUp :
      (s : Inodes) (id mode : ℕ) (handle_opt : Option ℕ) (h : InodeHandle)
      → IsSound s
      → s.next_inode + 1 < 2 ^ 64
      → get_alt_locked s.store id handle_opt ≡ none
      → (t : Inodes) × (o : Result ℕ) × (add_new false ids s id handle_opt mode (ok h) ≡ (t, o))
        × LookedUp s t o
  add_new-LookedUp s id mode handle_opt h sound room e =
      let (s', k, at, is) = allocate_inode-IsFree ids s id handle_opt sound room e in
      let (t, o, at', looked) = inserted-LookedUp s s' id mode k h sound is in
      (
        t,
        o,
        ap (add_locked false ids s id handle_opt h mode) e
            ∙ ap (inserted false ids id h mode) at
            ∙ at',
        looked,
      )

  -- A lookup without host numbers, on a sound store with numbers left, in which no count is at the
  -- top of its range, ends: the inode that it gives is looked up once more than before, every other
  -- one as often as before; if it fails, all of them. The store is sound after it.
  pub lookup_inode-LookedUp :
      (to_openable : ℕ → Errno ⊎ Unit {0}) (s : Inodes) (id : ℕ) (handle_opt : Option ℕ)
      (path_fd mode : ℕ)
      → IsSound s
      → s.next_inode + 1 < 2 ^ 64
      → ((k : ℕ) → lookups s k < 2 ^ 64 - 1)
      → (t : Inodes) × (o : Result ℕ) × (lookup_inode false ids to_openable s id handle_opt path_fd
            mode
          ≡ some (t, o))
        × LookedUp s t o
  unfolding lookup_inode
  lookup_inode-LookedUp to_openable s id handle_opt path_fd mode sound room small =
      let h = new_handle path_fd handle_opt to_openable in
      elim (Option-cases (get_alt_locked s.store id handle_opt)) [
        | inr (d, e) ↦
            let (k, at) = get_alt_locked-found s.store id handle_opt d e in
            (
              with_refcount s d (saturating_add_1 d.refcount),
              ok d.inode,
              ap (search_or_add false ids s id handle_opt mode h) e
                  ∙ rw (==_ne d.refcount 0 (λ z. absurd (omega (arith, z, sound.counted k d at))))
                      refl,
              found-LookedUp s d k sound at (small k),
            )
        | inl e ↦ elim (new_handle-cases path_fd handle_opt to_openable) [
          | inl (h', opened) ↦
              let (t, o, at, looked) = add_new-LookedUp s id mode handle_opt h' sound room e in
              (
                t,
                o,
                ap (search_or_add false ids s id handle_opt mode h) e
                    ∙ ap (λ x. some (add_new false ids s id handle_opt mode x)) opened
                    ∙ ap some at,
                looked,
              )
          | inr (failure, opened) ↦ (
            s,
            err failure,
            ap (search_or_add false ids s id handle_opt mode h) e
                ∙ ap (λ x. some (add_new false ids s id handle_opt mode x)) opened,
            (sound, omega arith, inr (failure, refl, λ j. refl)),
          )
        ]
      ]
