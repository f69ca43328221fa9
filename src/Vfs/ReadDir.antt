-- ===== src/Vfs/ReadDir.antt =====
-- src/api/vfs/sync_io.rs, `readdir` and `readdirplus`: the entries of the pseudo file system and
-- of the backends, with the inode numbers that the file system gives out.
use fuse_backend_rs.Prelude.{ℕ, none, some, true}
use fuse_backend_rs.Prelude.Map.{get}
use fuse_backend_rs.Prelude.Outcome.{ok, err, panic, ◌>>=◌}
use fuse_backend_rs.Fs.{Result, Entry, DirEntry}
use fuse_backend_rs.Pseudo.Serve.{AddEntry, do_readdir, do_readdirplus}
use fuse_backend_rs.Vfs.Inode.{fs_idx, ino, convert_inode}
use fuse_backend_rs.Vfs.Ids.{remap_attr_id}
use fuse_backend_rs.Vfs.State.{Vfs}
use fuse_backend_rs.Vfs.Dispatch.{left, right, get_real_rootfs}
use fuse_backend_rs.Vfs.Ops.{DirOps}

-- The callback of the file system: it converts what it is given and passes it on, unless the
-- conversion fails.
abbrev pub adapt : {S D : Type 0} → (S → D → S × Result ℕ) → S → Result D → S × Result ℕ
adapt add_entry s (ok d) = add_entry s d
adapt add_entry s (err e) = (s, err e)
adapt add_entry s panic = (s, panic)

-- The callback of `readdirplus`.
abbrev pub AddPlus : Type 0 → Type 0
AddPlus S = S → DirEntry × Entry → S × Result ℕ

abbrev pub numbered : DirEntry → ℕ → DirEntry
numbered d x = record d { ino = x }

abbrev pub with_st_ino : Entry → Entry
with_st_ino e = record e { attr = record e.attr { st_ino = e.inode } }

unfoldable pub outward_dir_entry : ℕ → DirEntry → Result DirEntry
outward_dir_entry idata d = do ino ← convert_inode (fs_idx idata) d.ino; ok (numbered d ino)

module _ {B : Type 0} where
  -- An entry of the pseudo file system; a mount point is shown as the root mounted there.
  unfoldable pub cross_dir_entry : Vfs B → ℕ → DirEntry → Result DirEntry
  cross_dir_entry vfs idata d = elim (get d.ino vfs.mountpoints) [
    | some mnt ↦ do ino ← convert_inode mnt.fs_idx mnt.ino; ok (numbered d ino)
    | none ↦ do ino ← convert_inode (fs_idx idata) d.ino; ok (numbered d ino)
  ]

  unfoldable pub cross_plus : Vfs B → ℕ → DirEntry × Entry → Result (DirEntry × Entry)
  cross_plus vfs idata (d, entry) = elim (get d.ino vfs.mountpoints) [
    | some mnt ↦ do
      ino ← convert_inode mnt.fs_idx mnt.ino
      ok (numbered d ino, with_st_ino mnt.root_entry)
    | none ↦ do
      ino ← convert_inode (fs_idx idata) d.ino
      ok (numbered d ino, with_st_ino (record entry { inode = ino }))
  ]

  unfoldable pub outward_plus : Vfs B → ℕ → DirEntry × Entry → Result (DirEntry × Entry)
  outward_plus vfs idata (d, entry) = do
    ino ← convert_inode (fs_idx idata) entry.inode
    let e = with_st_ino (record entry { inode = ino })
    ok (numbered d ino, record e { attr = remap_attr_id vfs.id_mapping true e.attr })

  module _ {S : Type 0} (ops : DirOps B S) where
    unfoldable pub readdir : Vfs B → ℕ → ℕ → ℕ → ℕ → AddEntry S → S → S × Result (Unit {0})
    readdir vfs inode handle size offset add_entry s = elim (get_real_rootfs vfs inode) [
      | err e ↦ (s, err e)
      | panic ↦ (s, panic)
      | ok (root, idata) ↦ elim root [
        | left ↦
            do_readdir (λ t d. adapt add_entry t (cross_dir_entry vfs idata d)) vfs.root (ino idata)
              size offset s
        | right fs ↦
            ops.readdir fs (ino idata) handle size offset
              (λ t d. adapt add_entry t (outward_dir_entry idata d)) s
      ]
    ]

    unfoldable pub readdirplus : Vfs B → ℕ → ℕ → ℕ → ℕ → ℕ → AddPlus S → S → S × Result (Unit {0})
    readdirplus vfs now inode handle size offset add_entry s = elim (get_real_rootfs vfs inode) [
      | err e ↦ (s, err e)
      | panic ↦ (s, panic)
      | ok (root, idata) ↦ elim root [
        | left ↦
            do_readdirplus (λ t d e. adapt add_entry t (cross_plus vfs idata (d, e))) vfs.root now
              (ino idata) size offset s
        | right fs ↦
            ops.readdirplus fs (ino idata) handle size offset
              (λ t d e. adapt add_entry t (outward_plus vfs idata (d, e))) s
      ]
    ]
