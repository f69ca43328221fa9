-- ===== src/Vfs/Routing.antt =====
-- src/api/vfs/mod.rs, `get_real_rootfs` and `lookup`: numbers that were given out lead back to the
-- backend and the inode that they were given out for.
use fuse_backend_rs.Prelude.{
  ℕ, ◌+◌, ◌*◌, ◌^◌, ◌<◌, ◌≤◌, ◌≡◌, ◌≢◌, Bool, true, false, some, arith, Bool-cases, Option-cases,
  inl, inr,
}
use fuse_backend_rs.Prelude.Map.{get}
use fuse_backend_rs.Prelude.Outcome.{ok, err}
use fuse_backend_rs.Fs.{einval, Name, Entry}
use fuse_backend_rs.Vfs.Inode.{
  new, fs_idx, ino, is_pseudo_fs, convert_inode, convert_inode_lem, fs_idx-eq, ino-eq, new-eq,
  vfs_max_ino, max_vfs_index,
}
use fuse_backend_rs.Vfs.Ids.{remap_attr_id, convert_entry-remap_attr_id}
use fuse_backend_rs.Vfs.State.{MountPointData, Vfs, slot}
use fuse_backend_rs.Vfs.Consistent.{IsConsistent}
use fuse_backend_rs.Vfs.Insert.{convertible}
use fuse_backend_rs.Vfs.Dispatch.{
  BackendOps, EitherFs, right, get_fs_by_idx, get_real_rootfs, cross_mount, contains_slash, lookup,
  validate_path_component, rename,
}

-- What a converted number is made of.
record Converted (idx n x : ℕ) : Type 0 where
  sum : x ≡ idx * 2 ^ 56 + n
  le : n ≤ vfs_max_ino

converted : (idx n x : ℕ) → idx < 256 → 0 < n → convert_inode idx n ≡ ok x → Converted idx n x
converted idx n x h pos e = ground (arith, convert_inode_lem idx n h)

converted_le : (idx n x : ℕ) → idx < max_vfs_index → convert_inode idx n ≡ ok x → n ≤ vfs_max_ino
converted_le idx n x h e = ground (arith, convert_inode_lem idx n h)

module _ {B : Type 0} (v : Vfs B) where
  -- Where a request on the number `x` goes: to the backend `fs`, as its inode `n`.
  pub record RoutesTo (x : ℕ) (fs : B) (n : ℕ) : Type 0 where
    pub resolves : get_real_rootfs v x ≡ ok (right fs, x)
    pub inode : ino x ≡ n

  pub resolves_backend :
      (idx x : ℕ) (fs : B)
      → fs_idx x ≡ idx
      → 0 < idx
      → slot v.superblocks idx ≡ some fs
      → get_real_rootfs v x ≡ ok (right fs, x)
  unfolding get_real_rootfs is_pseudo_fs fs_idx get_fs_by_idx
  resolves_backend idx x fs e pos here = ground (arith, e, here)

  -- A number that was given out for the inode `n` of the backend under the index `idx` leads back
  -- to that backend and that inode, whatever else is mounted.
  pub convert_inode-RoutesTo :
      (idx n x : ℕ) (fs : B)
      → 0 < idx
      → idx < max_vfs_index
      → 0 < n
      → convert_inode idx n ≡ ok x
      → slot v.superblocks idx ≡ some fs
      → RoutesTo x fs n
  convert_inode-RoutesTo idx n x fs pos small npos conv here =
      let k = converted idx n x small npos conv in
      let e : fs_idx x ≡ idx = rw k.sum (fs_idx-eq idx n small k.le) in
      record {
        resolves = resolves_backend idx x fs e pos here;
        inode = rw k.sum (ino-eq idx n k.le);
      }

  module _ (c : IsConsistent v) where
    -- On consistent tables, a lookup that ends at a mount point whose root inode is not 0 answers
    -- with an inode number that leads to the backend mounted there, and there to the root inode
    -- that it mounted with.
    pub cross_mount-RoutesTo :
        (idata : ℕ) (entry : Entry) (m : MountPointData)
        → get entry.inode v.mountpoints ≡ some m
        → 0 < m.ino
        → (e : Entry) × (fs : B) × (cross_mount v idata entry ≡ ok e)
          × (slot v.superblocks m.fs_idx ≡ some fs)
          × RoutesTo e.inode fs m.ino
    unfolding cross_mount
    cross_mount-RoutesTo idata entry m h pos =
        let k = c.mounted entry.inode m h in
        let x = m.root_entry.inode in
        let conv = convert_entry-remap_attr_id v.id_mapping m.fs_idx m.ino x m.root_entry k.entry in
        let e : Entry = record m.root_entry {
          inode = x;
          attr = remap_attr_id v.id_mapping true (record m.root_entry.attr { st_ino = x });
        } in
        (
          e,
          k.holds.backend,
          rw (h, cross_mount) conv,
          k.holds.here,
          convert_inode-RoutesTo m.fs_idx m.ino x k.holds.backend k.positive k.small pos k.entry
              k.holds.here,
        )

    -- What a resolved number says of the tables.
    outside_pseudo :
        (x : ℕ) (fs : B)
        → is_pseudo_fs x ≡ false
        → slot v.superblocks (fs_idx x) ≡ some fs
        → (0 < fs_idx x) × (fs_idx x < 256) × (slot v.superblocks (fs_idx x) ≡ some fs)
    unfolding is_pseudo_fs fs_idx
    outside_pseudo x fs b here = (ground arith, omega arith, here)

    pub resolved :
        (x idata : ℕ) (fs : B)
        → get_real_rootfs v x ≡ ok (right fs, idata)
        → (0 < fs_idx idata) × (fs_idx idata < 256) × (slot v.superblocks (fs_idx idata) ≡ some fs)
    unfolding get_real_rootfs get_fs_by_idx
    resolved x idata fs h = elim (Bool-cases (is_pseudo_fs x)) [
      | inr b ↦
          let t : (x ≡ idata) × (slot v.superblocks (fs_idx x) ≡ some fs) = ground arith in
          rw (← t.0) (outside_pseudo x fs b t.1)
      | inl b ↦ elim (Option-cases (get (ino x) v.mountpoints)) [
        | inl e ↦ absurd (ground arith)
        | inr (m, e) ↦
            let k = c.mounted (ino x) m e in
            let t : (slot v.superblocks m.fs_idx ≡ some fs) × (new m.fs_idx m.ino ≡ ok idata) =
              ground arith in
            let le = converted_le m.fs_idx m.ino m.root_entry.inode k.small k.entry in
            let q : m.fs_idx * 2 ^ 56 + m.ino ≡ idata =
              ground (arith, new-eq m.fs_idx m.ino k.small le) in
            let i : fs_idx idata ≡ m.fs_idx = rw (← q) (fs_idx-eq m.fs_idx m.ino k.small le) in
            (rw i k.positive, rw i k.small, rw i t.0)
      ]
    ]

    -- On consistent tables, a lookup of a name without a slash, in a directory that leads to a
    -- backend which answers with a supported inode other than 0, gives a number that leads back to
    -- that backend and to the inode that it answered with.
    pub lookup-RoutesTo :
        (utf8 : Name → Bool) (ops : BackendOps B) (now parent idata : ℕ) (name : Name) (fs : B)
        (e₀ : Entry)
        → contains_slash name ≡ false
        → get_real_rootfs v parent ≡ ok (right fs, idata)
        → ops.lookup fs (ino idata) name ≡ ok e₀
        → 0 < e₀.inode
        → e₀.inode ≤ vfs_max_ino
        → (e : Entry) × (lookup utf8 ops v now parent name ≡ ok e) × RoutesTo e.inode fs e₀.inode
    unfolding lookup
    lookup-RoutesTo utf8 ops now parent idata name fs e₀ ns h answer pos le =
        let (ipos, small, here) = resolved parent idata fs h in
        let (x, conv) = convertible (fs_idx idata) e₀.inode small le in
        let e : Entry = record e₀ {
          inode = x;
          attr = remap_attr_id v.id_mapping true (record e₀.attr { st_ino = x });
        } in
        (
          e,
          ground (
            arith,
            ns,
            h,
            answer,
            convert_entry-remap_attr_id v.id_mapping (fs_idx idata) e₀.inode x e₀ conv,
          ),
          convert_inode-RoutesTo (fs_idx idata) e₀.inode x fs ipos small pos conv here,
        )

  -- A rename between directories that lead to different file systems fails with EINVAL, whatever
  -- the backends answer.
  rename-other_fs :
      (ops : BackendOps B) (olddir newdir old_idata new_idata flags : ℕ) (oldname newname : Name)
      (root root' : EitherFs B)
      → get_real_rootfs v olddir ≡ ok (root, old_idata)
      → get_real_rootfs v newdir ≡ ok (root', new_idata)
      → fs_idx old_idata ≢ fs_idx new_idata
      → rename ops v olddir oldname newdir newname flags ≡ err einval
  unfolding rename validate_path_component
  rename-other_fs ops olddir newdir old_idata new_idata flags oldname newname root root' h h' ne =
      ground (arith, h, h')
