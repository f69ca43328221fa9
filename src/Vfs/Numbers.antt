-- ===== src/Vfs/Numbers.antt =====
-- src/api/vfs/sync_io.rs: `lookup`, `readdir` and `readdirplus` show an inode under one number.
use fuse_backend_rs.Prelude.{ℕ, ◌≡◌, Bool, Option, none, some}
use fuse_backend_rs.Prelude.Outcome.{ok}
use fuse_backend_rs.Fs.{Name, Result, Entry, DirEntry}
use fuse_backend_rs.Pseudo.Serve
use fuse_backend_rs.Vfs.Inode.{ino}
use fuse_backend_rs.Vfs.State.{Vfs}
use fuse_backend_rs.Vfs.Ops.{DirOps}
use fuse_backend_rs.Vfs.Dispatch.{BackendOps, cross_mount, lookup}
use fuse_backend_rs.Vfs.ReadDir.{cross_dir_entry, cross_plus, readdir, readdirplus}

-- A callback that takes the first entry that it is given, and no more.
abbrev pub take_one : {T : Type 0} → Option T → T → Option T × Result ℕ
take_one s d = (some d, ok 0)

module _ {B : Type 0} (v : Vfs B) where
  -- What is made of one child of a directory of the pseudo file system.
  record Converts (idata : ℕ) (d : DirEntry) (e : Entry) : Type 0 where
    pub number : ℕ
    pub dir : DirEntry
    pub plus : DirEntry × Entry
    pub found : Entry
    pub reads : cross_dir_entry v idata d ≡ ok dir
    pub reads_plus : cross_plus v idata (d, e) ≡ ok plus
    pub looks_up : cross_mount v idata e ≡ ok found
    pub dir_number : dir.ino ≡ number
    pub plus_dir_number : plus.0.ino ≡ number
    pub plus_number : plus.1.inode ≡ number
    pub plus_attr : plus.1.attr.st_ino ≡ number
    pub dir_name : dir.name ≡ d.name
    pub plus_name : plus.0.name ≡ d.name
    pub found_number : found.inode ≡ number
    pub found_attr : found.attr.st_ino ≡ number

-- What the three requests answer of a child of the directory `x`, which stands at the place `o`
-- there: `readdir` and `readdirplus` from the offset `o`, with a callback that takes one entry, and
-- `lookup` of the child's name.
pub record Agrees {B : Type 0} (utf8 : Name → Bool) (ops : BackendOps B)
    (dirs : DirOps B (Option DirEntry)) (plus_dirs : DirOps B (Option (DirEntry × Entry)))
    (v : Vfs B) (now x handle size o : ℕ) (name : Name) : Type 0 where
  pub number : ℕ
  pub dir : DirEntry
  pub plus : DirEntry × Entry
  pub found : Entry
  pub reads : readdir dirs v x handle size o take_one none ≡ (some dir, ok tt)
  pub reads_plus : readdirplus plus_dirs v now x handle size o take_one none ≡ (some plus, ok tt)
  pub looks_up : lookup utf8 ops v now x name ≡ ok found
  pub dir_name : dir.name ≡ name
  pub plus_name : plus.0.name ≡ name
  pub dir_number : dir.ino ≡ number
  pub plus_dir_number : plus.0.ino ≡ number
  pub plus_number : plus.1.inode ≡ number
  pub plus_attr : plus.1.attr.st_ino ≡ number
  pub found_number : found.inode ≡ number
  pub found_attr : found.attr.st_ino ≡ number
