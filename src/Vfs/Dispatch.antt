-- ===== src/Vfs/Dispatch.antt =====
-- src/api/vfs/mod.rs and src/api/vfs/sync_io.rs: the routing of requests to the pseudo file system
-- or to a backend. `BackendOps` is what the backends answer; the context of a request, which is
-- passed on unchanged, is left out.
use fuse_backend_rs.Prelude.{
  ℕ, Bool, true, false, not, ◌||◌, Option, none, some, List, [], ◌∷◌, ◌==◌, if◌then◌else◌, bytes_eq,
}
use fuse_backend_rs.Prelude.Map.{get}
use fuse_backend_rs.Prelude.Outcome.{Outcome, ok, err, panic, ◌>>=◌, ◌>>◌}
use fuse_backend_rs.Fs.{enoent, enosys, einval, Result, Name, root_id, Stat, Entry}
use fuse_backend_rs.Pseudo
use fuse_backend_rs.Pseudo.Serve
use fuse_backend_rs.Pseudo.Path.{dot, dot_dot}
use fuse_backend_rs.Vfs.Inode.{new, fs_idx, ino, is_pseudo_fs}
use fuse_backend_rs.Vfs.Ids.{convert_entry, remap_attr_id}
use fuse_backend_rs.Vfs.State.{Vfs, VfsError, not_found, path_walk_error, slot}

pub record BackendOps (B : Type 0) : Type 0 where
  pub lookup : B → ℕ → Name → Result Entry
  pub getattr : B → ℕ → Option ℕ → Result (Stat × ℕ)
  pub setattr : B → ℕ → Stat → Option ℕ → ℕ → Result (Stat × ℕ)
  pub mkdir : B → ℕ → Name → ℕ → ℕ → Result Entry
  pub unlink : B → ℕ → Name → Result (Unit {0})
  pub rename : B → ℕ → Name → ℕ → Name → ℕ → Result (Unit {0})
  pub link : B → ℕ → ℕ → Name → Result Entry

-- `Left` is the pseudo file system.
pub data EitherFs (B : Type 0) : Type 0 where
  left : EitherFs B
  right : B → EitherFs B

abbrev pub slash_ascii : ℕ
slash_ascii = 47

unfoldable pub contains_slash : Name → Bool
contains_slash [] = false
contains_slash (c ∷ cs) = c == slash_ascii || contains_slash cs

-- The names are C strings, so the terminating zero of the constants makes these equalities.
unfoldable pub is_dot_or_dotdot : Name → Bool
unfolding bytes_eq
is_dot_or_dotdot name = bytes_eq name dot || bytes_eq name dot_dot

unfoldable pub is_safe_path_component : Name → Bool
unfolding contains_slash is_dot_or_dotdot
is_safe_path_component name = if contains_slash name then false else not (is_dot_or_dotdot name)

unfoldable pub validate_path_component : Name → Result (Unit {0})
validate_path_component name = if is_safe_path_component name then ok tt else err einval

module _ {B : Type 0} where
  unfoldable pub get_fs_by_idx : Vfs B → ℕ → Result B
  get_fs_by_idx vfs idx = elim (slot vfs.superblocks idx) [ none ↦ err enoent | some fs ↦ ok fs ]

  unfoldable pub get_rootfs : Vfs B → List ℕ → Outcome VfsError (Option B)
  unfolding get_fs_by_idx Pseudo.path_walk
  get_rootfs vfs path = elim (Pseudo.path_walk vfs.root path) [
    | err e ↦ err (path_walk_error e)
    | panic ↦ panic
    | ok walked ↦ elim walked [
      | none ↦ ok none
      | some inode ↦ elim (get inode vfs.mountpoints) [
        | none ↦ ok none
        | some mnt ↦ elim (get_fs_by_idx vfs mnt.fs_idx) [
          | ok fs ↦ ok (some fs)
          | err e ↦ err not_found
          | panic ↦ panic
        ]
      ]
    ]
  ]

  -- The root of the whole file system may be a mount point itself.
  unfoldable pub get_real_rootfs : Vfs B → ℕ → Result (EitherFs B × ℕ)
  get_real_rootfs vfs inode =
      if is_pseudo_fs inode
      then (if ino inode == root_id
          then elim (get (ino inode) vfs.mountpoints) [
            | none ↦ ok (left, inode)
            | some mnt ↦ do
              fs ← get_fs_by_idx vfs mnt.fs_idx
              real ← new mnt.fs_idx mnt.ino
              ok (right fs, real)
          ]
          else ok (left, inode))
      else do fs ← get_fs_by_idx vfs (fs_idx inode); ok (right fs, inode)

  -- A child that is a mount point is answered by the root entry of what is mounted there.
  unfoldable pub cross_mount : Vfs B → ℕ → Entry → Result Entry
  cross_mount vfs idata entry = elim (get entry.inode vfs.mountpoints) [
    | some mnt ↦ convert_entry vfs.id_mapping mnt.fs_idx mnt.ino mnt.root_entry
    | none ↦ convert_entry vfs.id_mapping (fs_idx idata) entry.inode entry
  ]

  module _ (utf8 : Name → Bool) (ops : BackendOps B) where
    unfoldable pub lookup_pseudo : Vfs B → ℕ → ℕ → Name → Result Entry
    lookup_pseudo vfs now idata name = do
      entry ← Serve.lookup utf8 vfs.root now (ino idata) name
      cross_mount vfs idata entry

    unfoldable pub lookup : Vfs B → ℕ → ℕ → Name → Result Entry
    lookup vfs now parent name = if contains_slash name then err einval else do
      (root, idata) ← get_real_rootfs vfs parent
      elim root [
        | left ↦ lookup_pseudo vfs now idata name
        | right fs ↦ do
          entry ← ops.lookup fs (ino idata) name
          convert_entry vfs.id_mapping (fs_idx idata) entry.inode entry
      ]

  -- The attributes of a backend, as they are reported.
  unfoldable pub outward : Vfs B → ℕ → Stat × ℕ → Stat × ℕ
  outward vfs idata (attr, duration) =
      (remap_attr_id vfs.id_mapping true (record attr { st_ino = idata }), duration)

  module _ (ops : BackendOps B) where
    unfoldable pub getattr : Vfs B → ℕ → ℕ → Option ℕ → Result (Stat × ℕ)
    getattr vfs now inode handle = do
      (root, idata) ← get_real_rootfs vfs inode
      elim root [
        | left ↦ Serve.getattr vfs.root now (ino idata)
        | right fs ↦ do r ← ops.getattr fs (ino idata) handle; ok (outward vfs idata r)
      ]

    -- The methods that the pseudo file system does not implement answer ENOSYS.
    unfoldable pub setattr : Vfs B → ℕ → Stat → Option ℕ → ℕ → Result (Stat × ℕ)
    setattr vfs inode attr handle valid = do
      (root, idata) ← get_real_rootfs vfs inode
      elim root [
        | left ↦ err enosys
        | right fs ↦ do
          r ← ops.setattr fs (ino idata) (remap_attr_id vfs.id_mapping false attr) handle valid
          ok (outward vfs idata r)
      ]

    unfoldable pub mkdir : Vfs B → ℕ → Name → ℕ → ℕ → Result Entry
    mkdir vfs parent name mode umask = do
      validate_path_component name
      (root, idata) ← get_real_rootfs vfs parent
      elim root [
        | left ↦ err enosys
        | right fs ↦ do
          e ← ops.mkdir fs (ino idata) name mode umask
          convert_entry vfs.id_mapping (fs_idx idata) e.inode e
      ]

    unfoldable pub unlink : Vfs B → ℕ → Name → Result (Unit {0})
    unlink vfs parent name = do
      validate_path_component name
      (root, idata) ← get_real_rootfs vfs parent
      elim root [ left ↦ err enosys | right fs ↦ ops.unlink fs (ino idata) name ]

    unfoldable pub rename : Vfs B → ℕ → Name → ℕ → Name → ℕ → Result (Unit {0})
    rename vfs olddir oldname newdir newname flags = do
      validate_path_component oldname
      validate_path_component newname
      (root, idata_old) ← get_real_rootfs vfs olddir
      (_, idata_new) ← get_real_rootfs vfs newdir
      if fs_idx idata_old == fs_idx idata_new
          then elim root [
            | left ↦ err enosys
            | right fs ↦ ops.rename fs (ino idata_old) oldname (ino idata_new) newname flags
          ]
          else err einval

    unfoldable pub link : Vfs B → ℕ → ℕ → Name → Result Entry
    link vfs inode newparent newname = do
      validate_path_component newname
      (root, idata_old) ← get_real_rootfs vfs inode
      (_, idata_new) ← get_real_rootfs vfs newparent
      if fs_idx idata_old == fs_idx idata_new
          then elim root [
            | left ↦ err enosys
            | right fs ↦ do
              e ← ops.link fs (ino idata_old) (ino idata_new) newname
              convert_entry vfs.id_mapping (fs_idx idata_new) e.inode e
          ]
          else err einval
