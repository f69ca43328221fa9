-- ===== src/Vfs/Mount.antt =====
-- src/api/vfs/mod.rs, `mount`: what it establishes, and what stays when it fails.
use fuse_backend_rs.Prelude.{
  ℕ, ◌+◌, ◌%◌, ◌<◌, ◌≤◌, ◌≡◌, refl, Bool, true, false, Option, none, List, [], ◌∷◌, ◌++◌, arith,
  ltb, if◌then◌else◌, Bool-cases, ◌⊎◌, inl, inr,
}
use fuse_backend_rs.Prelude.Outcome.{Outcome, ok, err, panic}
use fuse_backend_rs.Fs.{Result, Entry, other}
use fuse_backend_rs.Pseudo.Path.{has_root}
use fuse_backend_rs.Vfs.Inode.{max_vfs_index, vfs_max_ino}
use fuse_backend_rs.Vfs.Alloc.{is_taken, allocate_fs_idx, allocate_fs_idx-Search, gives, full}
use fuse_backend_rs.Vfs.State.{
  Backends, VfsError, Vfs, Call, init, destroy, fs_index_error, slot, insert_mount_locked,
  mount_locked, finish_mount, mount_after_init, mount_answered, mount, after_call,
}
use fuse_backend_rs.Vfs.Consistent.{slot_of_free, IsConsistent, IsConsistent-around}
use fuse_backend_rs.Vfs.Insert.{
  Placed, convertible, HasRoom, insert_mount_locked-Placed, insert_mount_locked-IsConsistent,
}

-- What a call of `mount` needs to succeed: an answer of the backend with numbers in range, options
-- that it accepts if the file system is already in use, an absolute path and a free index.
pub record Ready {B : Type 0} (backends : Backends B) (v : Vfs B) (fs : B) (entry : Entry)
    (path : List ℕ) : Type 0 where
  pub max_ino : ℕ
  pub answers : backends.mount fs ≡ ok (entry, max_ino)
  pub in_range : max_ino ≤ vfs_max_ino
  pub root_in_range : entry.inode ≤ vfs_max_ino
  pub accepts :
      (v.initialized ≡ false) ⊎ ((opts : ℕ) × (backends.init fs v.opts.out_opts ≡ ok opts))
  pub rooted : has_root path ≡ true
  pub free : ℕ
  pub free_positive : 0 < free
  pub free_small : free < max_vfs_index
  pub free_slot : is_taken v.superblocks free ≡ false

module _ {B : Type 0} (fs : B) (entry : Entry) (path : List ℕ) where
  -- What a successful mount returns and establishes.
  pub record Mounted (superblocks : List (Option B)) (r : Vfs B × Outcome VfsError ℕ) : Type 0 where
    pub after : Vfs B
    pub idx : ℕ
    pub returns : r ≡ (after, ok idx)
    pub positive : 0 < idx
    pub small : idx < max_vfs_index
    pub was_free : slot superblocks idx ≡ none
    pub placed : Placed fs entry idx path after

  abbrev counted : Vfs B → ℕ → Vfs B
  counted v next = record v { next_super = next }

  module _ (v : Vfs B) where
    finish_state : (i : ℕ) (r : Vfs B × Result (Unit {0})) → (finish_mount i r).0 ≡ r.0
    unfolding finish_mount
    finish_state i (w, ok done) = refl
    finish_state i (w, err e) = refl
    finish_state i (w, panic) = refl

    locked_gives :
        (next i : ℕ) (v' : Vfs B)
        → allocate_fs_idx v.superblocks v.next_super ≡ (next, ok i)
        → insert_mount_locked (counted v next) fs entry i path ≡ (v', ok tt)
        → mount_locked v fs entry path ≡ (v', ok i)
    unfolding mount_locked
    locked_gives next i v' e done = rw (e, mount_locked, done)

    locked_state :
        (next i : ℕ)
        → allocate_fs_idx v.superblocks v.next_super ≡ (next, ok i)
        → (mount_locked v fs entry path).0
          ≡ (insert_mount_locked (counted v next) fs entry i path).0
    unfolding mount_locked
    locked_state next i e =
        rw (e, mount_locked) (finish_state i (insert_mount_locked (counted v next) fs entry i path))

    locked_full :
        (next : ℕ)
        → allocate_fs_idx v.superblocks v.next_super ≡ (next, err other)
        → mount_locked v fs entry path ≡ (counted v next, err (fs_index_error other))
    unfolding mount_locked
    locked_full next e = rw (e, mount_locked)

  module _ (v : Vfs B) (c : IsConsistent v) (room : HasRoom v path) where
    recounted : (next : ℕ) → next < max_vfs_index → IsConsistent (counted v next)
    recounted next small = IsConsistent-around v v.root next v.calls c c.root_wf small

    mount_locked-Mounted :
        (free : ℕ)
        → 0 < free
        → free < max_vfs_index
        → is_taken v.superblocks free ≡ false
        → has_root path ≡ true
        → entry.inode ≤ vfs_max_ino
        → Mounted v.superblocks (mount_locked v fs entry path)
    mount_locked-Mounted free fp fsm ff rooted le =
        elim (allocate_fs_idx-Search v.superblocks v.next_super c.counter) [
          | full n e sm all ↦ absurd (ground (arith, all free fp fsm))
          | gives i e pos lt nt ↦
              let next : ℕ = (i + 1) % 256 in
              let (x, conv) = convertible i entry.inode lt le in
              let (v', done, placed) =
                insert_mount_locked-Placed (counted v next) (recounted next (omega arith)) fs entry
                  i path pos lt (slot_of_free v.superblocks i nt) room x rooted conv in
              record {
                after = v';
                idx = i;
                returns = locked_gives v next i v' e done;
                positive = pos;
                small = lt;
                was_free = slot_of_free v.superblocks i nt;
                placed = placed;
              }
        ]

    mount_locked-IsConsistent : IsConsistent (mount_locked v fs entry path).0
    mount_locked-IsConsistent = elim (allocate_fs_idx-Search v.superblocks v.next_super c.counter) [
      | full n e sm all ↦ rw (locked_full v n e) (recounted n sm)
      | gives i e pos lt nt ↦
          let next : ℕ = (i + 1) % 256 in
          rw (locked_state v next i e) (
            insert_mount_locked-IsConsistent (counted v next) (recounted next (omega arith)) fs
              entry i path pos lt (slot_of_free v.superblocks i nt) room)
    ]

module _ {B : Type 0} (backends : Backends B) (v : Vfs B) (c : IsConsistent v) (fs : B)
    (path : List ℕ) (room : HasRoom v path) where
  direct :
      (entry : Entry) (n : ℕ)
      → backends.mount fs ≡ ok (entry, n)
      → ltb vfs_max_ino n ≡ false
      → v.initialized ≡ false
      → mount backends v fs path ≡ mount_locked v fs entry path
  unfolding mount
  direct entry n h t u = ground (arith, h)

  initial :
      (entry : Entry) (n : ℕ) (r : Result ℕ)
      → backends.mount fs ≡ ok (entry, n)
      → ltb vfs_max_ino n ≡ false
      → v.initialized ≡ true
      → backends.init fs v.opts.out_opts ≡ r
      → mount backends v fs path
        ≡ mount_after_init backends (after_call v (init fs)) fs entry path r
  unfolding mount
  initial entry n r h t u i = ground (arith, h, i)

  called-IsConsistent : (k : Call B) → IsConsistent (after_call v k)
  called-IsConsistent k =
      IsConsistent-around v v.root v.next_super (v.calls ++ k ∷ []) c c.root_wf c.counter

  -- On consistent tables and while inode numbers last, a mount that is ready succeeds: it takes a
  -- free index from 1 to 255, and then the path leads to a mount point of that index, whose super
  -- block holds the backend and whose root is the backend's root; all tables are consistent.
  pub mount-Mounted :
      (entry : Entry)
      → Ready backends v fs entry path
      → Mounted fs entry path v.superblocks (mount backends v fs path)
  unfolding mount
  mount-Mounted entry r = elim r.accepts [
    | inl fresh ↦ rw (direct entry r.max_ino r.answers (ground arith) fresh) (
        mount_locked-Mounted fs entry path v c room r.free r.free_positive r.free_small r.free_slot
          r.rooted r.root_in_range)
    | inr (opts, ac) ↦ elim (Bool-cases v.initialized) [
      | inr fresh ↦ rw (direct entry r.max_ino r.answers (ground arith) fresh) (
          mount_locked-Mounted fs entry path v c room r.free r.free_positive r.free_small
            r.free_slot r.rooted r.root_in_range)
      | inl used ↦ rw (initial entry r.max_ino (ok opts) r.answers (ground arith) used ac) (
          mount_locked-Mounted fs entry path (after_call v (init fs))
            (called-IsConsistent (init fs)) room r.free r.free_positive r.free_small r.free_slot
            r.rooted r.root_in_range)
    ]
  ]

  either :
      (b : Bool) (x y : Vfs B × Outcome VfsError ℕ)
      → IsConsistent x.0
      → IsConsistent y.0
      → IsConsistent (if b then x else y).0
  either true x y p q = p
  either false x y p q = q

  by_init :
      (entry : Entry) (r : Result ℕ)
      → IsConsistent (mount_after_init backends (after_call v (init fs)) fs entry path r).0
  unfolding mount_after_init
  by_init entry (err e) = called-IsConsistent (init fs)
  by_init entry panic = called-IsConsistent (init fs)
  by_init entry (ok opts) =
      mount_locked-IsConsistent fs entry path (after_call v (init fs))
        (called-IsConsistent (init fs)) room

  by_answer : (r : Result (Entry × ℕ)) → IsConsistent (mount_answered backends v fs path r).0
  unfolding mount_answered
  by_answer (err e) = c
  by_answer panic = c
  by_answer (ok (entry, n)) = elim (Bool-cases (ltb vfs_max_ino n)) [
    | inl t ↦ rw t (called-IsConsistent (destroy fs))
    | inr t ↦ rw t (
        either v.initialized
          (mount_after_init backends (after_call v (init fs)) fs entry path
            (backends.init fs v.opts.out_opts))
          (mount_locked v fs entry path) (by_init entry (backends.init fs v.opts.out_opts))
          (mount_locked-IsConsistent fs entry path v c room))
  ]

  -- `mount` keeps the tables consistent, whatever the backend answers and the path is.
  pub mount-IsConsistent : IsConsistent (mount backends v fs path).0
  unfolding mount
  mount-IsConsistent = by_answer (backends.mount fs)
