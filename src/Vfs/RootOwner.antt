-- ===== src/Vfs/RootOwner.antt =====
-- src/api/vfs/mod.rs: the owner of a mounted root. `insert_mount_locked` stores the root entry
-- with the owner mapped already, and `lookup_pseudo` maps it once more.
use fuse_backend_rs.Prelude.{ℕ, ◌+◌, ◌-◌, ◌≡◌, ◌≢◌, ap, ◌∙◌, true, some, arith}
use fuse_backend_rs.Prelude.Map.{get}
use fuse_backend_rs.Prelude.Outcome.{ok}
use fuse_backend_rs.Fs.{Entry, Stat}
use fuse_backend_rs.Vfs.Inode.{convert_inode}
use fuse_backend_rs.Vfs.Ids.{
  IdMapping, IsProper, InInternal, convert_entry, remap_attr_id, convert_entry-remap_attr_id,
  shift_id-inside, shift_id,
}
use fuse_backend_rs.Vfs.State.{MountPointData, Vfs}
use fuse_backend_rs.Vfs.Dispatch.{cross_mount, outward}

module _ {B : Type 0} (v : Vfs B) (im : IdMapping) (mapped : v.id_mapping ≡ some im)
    (proper : IsProper im) where
  twice :
      (uid : ℕ)
      → InInternal im uid
      → InInternal im (uid - im.internal_id + im.external_id)
      → im.internal_id ≢ im.external_id
      → shift_id im.internal_id im.external_id im.range
          (shift_id im.internal_id im.external_id im.range uid)
        ≢ shift_id im.internal_id im.external_id im.range uid
  twice uid h h' ne =
      rw
        (
          shift_id-inside im proper uid h,
          shift_id-inside im proper (uid - im.internal_id + im.external_id) h',
        )
        (omega arith)

  mapped_uid :
      (a : Stat)
      → (remap_attr_id v.id_mapping true a).st_uid
        ≡ shift_id im.internal_id im.external_id im.range a.st_uid
  unfolding remap_attr_id
  mapped_uid a = rw (mapped, remap_attr_id)

  stored_uid :
      (e₀ : Entry) (m : MountPointData)
      → convert_inode m.fs_idx m.ino ≡ ok m.root_entry.inode
      → convert_entry v.id_mapping m.fs_idx m.ino e₀ ≡ ok m.root_entry
      → m.root_entry.attr.st_uid ≡ shift_id im.internal_id im.external_id im.range e₀.attr.st_uid
  stored_uid e₀ m conv stored =
      let x = m.root_entry.inode in
      let made = convert_entry-remap_attr_id v.id_mapping m.fs_idx m.ino x e₀ conv in
      let a : Stat = record e₀.attr { st_ino = x } in
      let e : Entry = record e₀ { inode = x; attr = remap_attr_id v.id_mapping true a } in
      let same : m.root_entry ≡ e = cc (stored, made) in
      ap (λ (y : Entry). y.attr.st_uid) same ∙ mapped_uid a

  -- Where the mapped owner of a mounted root lies in the internal range again, and the mapping
  -- moves numbers at all, a lookup that crosses into the mount reports another owner than `getattr`
  -- of the same inode does for the same attributes of the backend.
  pub cross_mount-owner_differs :
      (idata : ℕ) (entry e₀ : Entry) (m : MountPointData) (duration : ℕ)
      → get entry.inode v.mountpoints ≡ some m
      → convert_inode m.fs_idx m.ino ≡ ok m.root_entry.inode
      → convert_entry v.id_mapping m.fs_idx m.ino e₀ ≡ ok m.root_entry
      → InInternal im e₀.attr.st_uid
      → InInternal im (e₀.attr.st_uid - im.internal_id + im.external_id)
      → im.internal_id ≢ im.external_id
      → (e : Entry) × (cross_mount v idata entry ≡ ok e)
        × (e.attr.st_uid ≢ (outward v e.inode (e₀.attr, duration)).0.st_uid)
  unfolding cross_mount outward
  cross_mount-owner_differs idata entry e₀ m duration h conv stored u u' ne =
      let x = m.root_entry.inode in
      let again = convert_entry-remap_attr_id v.id_mapping m.fs_idx m.ino x m.root_entry conv in
      let e : Entry = record m.root_entry {
        inode = x;
        attr = remap_attr_id v.id_mapping true (record m.root_entry.attr { st_ino = x });
      } in
      (
        e,
        rw (h, cross_mount) again,
        λ q. twice e₀.attr.st_uid u u' ne cc (
          q,
          mapped_uid (record m.root_entry.attr { st_ino = x }),
          mapped_uid (record e₀.attr { st_ino = x }),
          stored_uid e₀ m conv stored,
        ),
      )
