-- ===== src/Vfs/State.antt =====
-- src/api/vfs/mod.rs: the table of backends and mount points, and the calls that change it. The
-- mutexes serialise these calls, so each is one step here. A backend is an element of `B`, and
-- what it answers comes from the interface `Backends`; the calls that change a backend (`init`,
-- `destroy` and `forget`) are recorded in the order in which they are made.
use fuse_backend_rs.Prelude.{
  ℕ, ◌+◌, Bool, true, false, Option, none, some, List, [], ◌∷◌, ◌++◌, ltb, ◌==◌, if◌then◌else◌,
  get_elem?, set, replicate,
}
use fuse_backend_rs.Prelude.Map.{Map, get, insert, remove}
use fuse_backend_rs.Prelude.Outcome.{Outcome, ok, err, panic, ◌>>=◌}
use fuse_backend_rs.Fs.{Errno, Result, Entry}
use fuse_backend_rs.Pseudo
use fuse_backend_rs.Pseudo.{PseudoFs}
use fuse_backend_rs.Vfs.Inode.{vfs_max_ino, max_vfs_index, vfs_pseudo_fs_idx}
use fuse_backend_rs.Vfs.Ids.{IdMapping, convert_entry}
use fuse_backend_rs.Vfs.Alloc.{allocate_fs_idx}

-- `mount` answers with the root's entry and the largest inode number, and `init` with the options
-- that the backend accepts. Options are sets of bits.
pub record Backends (B : Type 0) : Type 0 where
  pub mount : B → Result (Entry × ℕ)
  pub init : B → ℕ → Result ℕ

pub data Call (B : Type 0) : Type 0 where
  init destroy : B → Call B
  forgets : B → ℕ → ℕ → Call B

pub data VfsError : Type 0 where
  mount_error path_walk_error fs_index_error initialize_error : Errno → VfsError
  inode_index not_found : VfsError

pub record MountPointData : Type 0 where
  pub fs_idx : ℕ
  pub ino : ℕ
  pub root_entry : Entry
  pub path : List ℕ

-- `in_opts` and `out_opts` are FsOptions, sets of bits.
pub record VfsOptions : Type 0 where
  pub no_readdir : Bool
  pub seal_size : Bool
  pub in_opts : ℕ
  pub out_opts : ℕ
  pub id_mapping : IdMapping
  pub no_open : Bool
  pub no_opendir : Bool
  pub no_writeback : Bool
  pub killpriv_v2 : Bool

pub record Vfs (B : Type 0) : Type 0 where
  pub next_super : ℕ
  pub root : PseudoFs
  pub mountpoints : Map MountPointData
  pub superblocks : List (Option B)
  pub opts : VfsOptions
  pub initialized : Bool
  pub remove_pseudo_root : Bool
  pub id_mapping : Option IdMapping
  pub calls : List (Call B)

-- `map_err`
abbrev pub map_err {ℓ κ μ} :
    {E : Type ℓ} {F : Type κ} {A : Type μ} → (E → F) → Outcome E A → Outcome F A
map_err f (ok a) = ok a
map_err f (err e) = err (f e)
map_err f panic = panic

-- An `expect` on a table that a u8 indexes.
abbrev pub slot {ℓ} : {B : Type ℓ} → List (Option B) → ℕ → Option B
slot superblocks idx = elim (get_elem? superblocks idx) [ none ↦ none | some s ↦ s ]

module _ {B : Type 0} where
  unfoldable pub new_vfs : VfsOptions → Vfs B
  unfolding Pseudo.new
  new_vfs opts = record {
    next_super = vfs_pseudo_fs_idx + 1;
    root = Pseudo.new;
    mountpoints = [];
    superblocks = replicate max_vfs_index none;
    opts = opts;
    initialized = false;
    remove_pseudo_root = false;
    id_mapping = if opts.id_mapping.range == 0 then none else some opts.id_mapping;
    calls = [];
  }

  abbrev pub set_remove_pseudo_root : Vfs B → Vfs B
  set_remove_pseudo_root vfs = record vfs { remove_pseudo_root = true }

  -- The slot of a backend that the new mount hides is emptied.
  unfoldable pub clear_over_mount : Option MountPointData → List (Option B) → List (Option B)
  clear_over_mount none superblocks = superblocks
  clear_over_mount (some mnt) superblocks = set superblocks mnt.fs_idx none

  -- What `insert_mount_locked` stores once the path and the root entry are ready.
  unfoldable pub commit_mount : Vfs B → B → Entry → ℕ → ℕ → List ℕ → ℕ → Vfs B
  unfolding clear_over_mount
  commit_mount vfs fs entry real_root_ino fs_idx path inode = record vfs {
    superblocks =
        set (clear_over_mount (get inode vfs.mountpoints) vfs.superblocks) fs_idx (some fs);
    mountpoints =
        insert inode
          (record { fs_idx = fs_idx; ino = real_root_ino; root_entry = entry; path = path })
          vfs.mountpoints;
  }

  unfoldable pub insert_mount_locked : Vfs B → B → Entry → ℕ → List ℕ → Vfs B × Result (Unit {0})
  unfolding Pseudo.mount commit_mount convert_entry
  insert_mount_locked vfs fs entry fs_idx path =
      let (root', r) = Pseudo.mount vfs.root path in
      let vfs' = record vfs { root = root' } in
      elim r [
        | err e ↦ (vfs', err e)
        | panic ↦ (vfs', panic)
        | ok inode ↦ elim (convert_entry vfs.id_mapping fs_idx entry.inode entry) [
          | err e ↦ (vfs', err e)
          | panic ↦ (vfs', panic)
          | ok entry' ↦ (commit_mount vfs' fs entry' entry.inode fs_idx path inode, ok tt)
        ]
      ]

  -- `map_err(VfsError::Mount)?; Ok(index)`
  unfoldable pub finish_mount : ℕ → Vfs B × Result (Unit {0}) → Vfs B × Outcome VfsError ℕ
  finish_mount index (vfs, ok done) = (vfs, ok index)
  finish_mount index (vfs, err e) = (vfs, err (mount_error e))
  finish_mount index (vfs, panic) = (vfs, panic)

  -- The end of `mount`, with what `allocate_fs_idx` returned: the counter and an index.
  unfoldable pub mount_at : Vfs B → B → Entry → List ℕ → ℕ × Result ℕ → Vfs B × Outcome VfsError ℕ
  unfolding insert_mount_locked finish_mount
  mount_at vfs fs entry path (next', ok index) =
      finish_mount index
        (insert_mount_locked (record vfs { next_super = next' }) fs entry index path)
  mount_at vfs fs entry path (next', err e) =
      (record vfs { next_super = next' }, err (fs_index_error e))
  mount_at vfs fs entry path (next', panic) = (record vfs { next_super = next' }, panic)

  -- The end of `mount`, after `init`.
  unfoldable pub mount_locked : Vfs B → B → Entry → List ℕ → Vfs B × Outcome VfsError ℕ
  unfolding mount_at allocate_fs_idx
  mount_locked vfs fs entry path =
      mount_at vfs fs entry path (allocate_fs_idx vfs.superblocks vfs.next_super)

  abbrev pub after_call : Vfs B → Call B → Vfs B
  after_call vfs call = record vfs { calls = vfs.calls ++ call ∷ [] }

  module _ (backends : Backends B) where
    -- The answer of `init`.
    unfoldable pub mount_after_init :
        Vfs B → B → Entry → List ℕ → Result ℕ → Vfs B × Outcome VfsError ℕ
    unfolding mount_locked
    mount_after_init vfs fs entry path (ok opts) = mount_locked vfs fs entry path
    mount_after_init vfs fs entry path (err e) = (vfs, err (initialize_error e))
    mount_after_init vfs fs entry path panic = (vfs, panic)

    -- The answer of the backend's `mount`.
    unfoldable pub mount_answered :
        Vfs B → B → List ℕ → Result (Entry × ℕ) → Vfs B × Outcome VfsError ℕ
    unfolding mount_after_init
    mount_answered vfs fs path (ok (entry, ino)) =
        if ltb vfs_max_ino ino
        then (after_call vfs (destroy fs), err inode_index)
        else if vfs.initialized
        then mount_after_init (after_call vfs (init fs)) fs entry path
            (backends.init fs vfs.opts.out_opts)
        else mount_locked vfs fs entry path
    mount_answered vfs fs path (err e) = (vfs, err (mount_error e))
    mount_answered vfs fs path panic = (vfs, panic)

    unfoldable pub mount : Vfs B → B → List ℕ → Vfs B × Outcome VfsError ℕ
    unfolding mount_answered
    mount vfs fs path = mount_answered vfs fs path (backends.mount fs)

  -- `destroy` of what the slot holds, which is then empty.
  unfoldable pub drop_superblock : Vfs B → ℕ → Vfs B
  drop_superblock vfs fs_idx = elim (slot vfs.superblocks fs_idx) [
    | none ↦ record vfs { superblocks = set vfs.superblocks fs_idx none }
    | some fs ↦ record vfs {
      superblocks = set vfs.superblocks fs_idx none;
      calls = vfs.calls ++ destroy fs ∷ [];
    }
  ]

  -- The part of `umount` that runs on a mount point: the pseudo inode is evicted if so configured.
  unfoldable pub unmount_point : Vfs B → ℕ → MountPointData → Result (Vfs B)
  unfolding drop_superblock Pseudo.evict_inode
  unmount_point vfs inode mnt = do
    root' ← (if vfs.remove_pseudo_root then Pseudo.evict_inode vfs.root inode else ok vfs.root)
    let vfs' = record vfs { root = root'; mountpoints = remove inode vfs.mountpoints }
    ok (drop_superblock vfs' mnt.fs_idx)

  unfoldable pub umount : Vfs B → List ℕ → Vfs B × Outcome VfsError (ℕ × ℕ)
  unfolding unmount_point Pseudo.path_walk Pseudo.get_parent_inode
  umount vfs path = elim (Pseudo.path_walk vfs.root path) [
    | err e ↦ (vfs, err (path_walk_error e))
    | panic ↦ (vfs, panic)
    | ok walked ↦ elim walked [
      | none ↦ (vfs, err not_found)
      | some inode ↦ elim (Pseudo.get_parent_inode vfs.root inode) [
        | none ↦ (vfs, err not_found)
        | some parent ↦ elim (get inode vfs.mountpoints) [
          | none ↦ (vfs, err not_found)
          | some mnt ↦ elim (unmount_point vfs inode mnt) [
            | err e ↦ (vfs, panic)
            | panic ↦ (vfs, panic)
            | ok vfs' ↦ (vfs', ok (inode, parent))
          ]
        ]
      ]
    ]
  ]
