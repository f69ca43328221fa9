-- ===== src/Vfs/Insert.antt =====
-- src/api/vfs/mod.rs, `insert_mount_locked`: the mount point and super block that it stores.
use fuse_backend_rs.Prelude.{
  ℕ, ◌+◌, ◌<◌, ◌≤◌, ◌≡◌, refl, true, false, Option, none, some, List, arith, ==_refl, length,
  Bool-cases, ◌⊎◌, inl, inr,
}
use fuse_backend_rs.Prelude.Map.{get}
use fuse_backend_rs.Prelude.Outcome.{ok, err, panic}
use fuse_backend_rs.Fs.{Result, Entry, u64_mod}
use fuse_backend_rs.Pseudo
use fuse_backend_rs.Pseudo.{PseudoFs}
use fuse_backend_rs.Pseudo.Path.{has_root, components}
use fuse_backend_rs.Pseudo.Mount.{path_walk-mount, mount-IsWellFormed, mount_relative}
use fuse_backend_rs.Vfs.Inode.{convert_inode, convert_inode_lem, max_vfs_index, vfs_max_ino}
use fuse_backend_rs.Vfs.Ids.{IdMapping, convert_entry, remap_attr_id, convert_entry-remap_attr_id}
use fuse_backend_rs.Vfs.State.{MountPointData, Vfs, slot, commit_mount, insert_mount_locked}
use fuse_backend_rs.Vfs.Consistent.{IsConsistent, IsConsistent-around}
use fuse_backend_rs.Vfs.Commit.{commit_mount-IsConsistent, slot-done, get-done}

-- What a mount of `fs` at `path` under the index `idx` establishes in `v'`.
pub record Placed {B : Type 0} (fs : B) (entry : Entry) (idx : ℕ) (path : List ℕ) (v' : Vfs B)
    : Type 0 where
  pub consistent : IsConsistent v'
  pub inode : ℕ
  pub walks : Pseudo.path_walk v'.root path ≡ ok (some inode)
  pub point : MountPointData
  pub here : get inode v'.mountpoints ≡ some point
  pub index : point.fs_idx ≡ idx
  pub root_ino : point.ino ≡ entry.inode
  pub holds : slot v'.superblocks idx ≡ some fs

pub convertible :
    (idx n : ℕ) → idx < max_vfs_index → n ≤ vfs_max_ino → (x : ℕ) × (convert_inode idx n ≡ ok x)
convertible idx n h le = ground (arith, convert_inode_lem idx n h)

-- The root's entry as `convert_entry` makes it.
abbrev converted : Option IdMapping → Entry → ℕ → Entry
converted im entry x = record entry {
  inode = x;
  attr = remap_attr_id im true (record entry.attr { st_ino = x });
}

module _ {B : Type 0} where
  root-commit_mount :
      (v : Vfs B) (fs : B) (e : Entry) (n idx : ℕ) (path : List ℕ) (inode : ℕ)
      → (commit_mount v fs e n idx path inode).root ≡ v.root
  unfolding commit_mount
  root-commit_mount v fs e n idx path inode = refl

  -- While inode numbers last for the components of a path.
  abbrev pub HasRoom : Vfs B → List ℕ → Type 0
  HasRoom v path = v.root.next_inode + length (components path) < u64_mod

  module _ (v : Vfs B) (c : IsConsistent v) (fs : B) (entry : Entry) (idx : ℕ) (path : List ℕ)
      (pos : 0 < idx) (small : idx < max_vfs_index) (free : slot v.superblocks idx ≡ none)
      (room : HasRoom v path) where
    abbrev walked : Vfs B
    walked = record v { root = (Pseudo.mount v.root path).0 }

    walked-IsConsistent : IsConsistent walked
    walked-IsConsistent =
        IsConsistent-around v (Pseudo.mount v.root path).0 v.next_super v.calls c
          (mount-IsWellFormed v.root path c.root_wf room) c.counter

    commit-Placed :
        (e : Entry) (inode : ℕ)
        → convert_inode idx entry.inode ≡ ok e.inode
        → Pseudo.path_walk walked.root path ≡ ok (some inode)
        → Placed fs entry idx path (commit_mount walked fs e entry.inode idx path inode)
    commit-Placed e inode conv walks =
        let w = walked-IsConsistent in
        let held = slot-done walked w fs e entry.inode idx path inode pos small free conv idx in
        let stored = get-done walked w fs e entry.inode idx path inode pos small free conv inode in
        record {
          consistent =
              commit_mount-IsConsistent walked w fs e entry.inode idx path inode pos small free
                conv;
          inode = inode;
          walks = rw root-commit_mount walks;
          point = record { fs_idx = idx; ino = entry.inode; root_entry = e; path = path };
          here = rw (stored, ==_refl inode);
          index = refl;
          root_ino = refl;
          holds = rw (held, ==_refl idx);
        }

    pub insert_mount_locked-Placed :
        (x : ℕ)
        → has_root path ≡ true
        → convert_inode idx entry.inode ≡ ok x
        → (v' : Vfs B) × (insert_mount_locked v fs entry idx path ≡ (v', ok tt))
          × Placed fs entry idx path v'
    unfolding insert_mount_locked
    insert_mount_locked-Placed x rooted conv =
        let (inode, mounted, walks) = path_walk-mount v.root c.root_wf path rooted room in
        let e = converted v.id_mapping entry x in
        let conv' = convert_entry-remap_attr_id v.id_mapping idx entry.inode x entry conv in
        (
          commit_mount walked fs e entry.inode idx path inode,
          ground (arith, mounted, conv'),
          commit-Placed e inode conv walks,
        )

    -- Where the entry's inode has no number, only the directories of the path were made.
    insert_unconverted :
        (i : ℕ) (r : Result ℕ)
        → (Pseudo.mount v.root path).1 ≡ ok i
        → convert_inode idx entry.inode ≡ r
        → (insert_mount_locked v fs entry idx path).0 ≡ walked ⊎ ((x : ℕ) × (r ≡ ok x))
    unfolding insert_mount_locked convert_entry
    insert_unconverted i (ok x) m h = inr (x, refl)
    insert_unconverted i (err e) m h = inl (ground (arith, m, h))
    insert_unconverted i panic m h = inl (ground (arith, m, h))

    insert_relative : has_root path ≡ false → (insert_mount_locked v fs entry idx path).0 ≡ walked
    unfolding insert_mount_locked
    insert_relative r = ground (arith, mount_relative v.root path r)

    -- Whatever the outcome, the tables are consistent.
    pub insert_mount_locked-IsConsistent : IsConsistent (insert_mount_locked v fs entry idx path).0
    insert_mount_locked-IsConsistent = elim (Bool-cases (has_root path)) [
      | inr r ↦ rw (insert_relative r) walked-IsConsistent
      | inl r ↦
          let (i, mounted, walks) = path_walk-mount v.root c.root_wf path r room in
          elim (insert_unconverted i (convert_inode idx entry.inode) mounted refl) [
            | inl e ↦ rw e walked-IsConsistent
            | inr (x, conv) ↦
                let (v', e, placed) = insert_mount_locked-Placed x r conv in rw e placed.consistent
          ]
    ]
