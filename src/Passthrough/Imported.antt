-- ===== src/Passthrough/Imported.antt =====
-- `import` of src/passthrough/mod.rs, by what it does to the counts of lookups.
use fuse_backend_rs.Prelude.{ℕ, ◌≡◌, refl, ap, ◌∙◌, ◌⊎◌, none, ◌==◌, if◌then◌else◌, arith}
use fuse_backend_rs.Prelude.Outcome.{ok}
use fuse_backend_rs.Prelude.Map.{get}
use fuse_backend_rs.Fs.{Errno, root_id}
use fuse_backend_rs.Passthrough.Counts.{IsSound, lookups, lookups-none}
use fuse_backend_rs.Passthrough.Inodes.{Inodes, new_inodes, import}
use fuse_backend_rs.Passthrough.Lookup.{with_inode, with_inode-IsSound, with_inode-lookups}
use fuse_backend_rs.Passthrough.Store.{InodeHandle, file, InodeData}

new_inodes-IsSound : IsSound new_inodes
unfolding get
new_inodes-IsSound = record {
  own = λ k d at. absurd (cc at);
  counted = λ k d at. absurd (cc at);
  given = λ k d at. absurd (cc at);
  given_id = λ id k at. absurd (cc at);
  given_handle = λ h k at. absurd (cc at);
}

abbrev root_data : ℕ → ℕ → InodeHandle → InodeData
root_data id mode h = record { inode = root_id; handle = h; id = id; refcount = 2; mode = mode }

-- Where the import of the root without a file handle makes a sound store, the root has two lookups,
-- and no other inode has any.
pub import-IsSound :
    (to_openable : ℕ → Errno ⊎ Unit {0}) (id path_fd mode : ℕ)
    → (t : Inodes) × (import to_openable new_inodes id none path_fd mode ≡ (t, ok tt))
      × IsSound t
      × (t.next_inode ≡ 2)
      × ((j : ℕ) → lookups t j ≡ (if root_id == j then 2 else 0))
unfolding import get
import-IsSound to_openable id path_fd mode =
    let d = root_data id mode (file path_fd) in
    (
      with_inode new_inodes d,
      refl,
      with_inode-IsSound new_inodes d new_inodes-IsSound (omega arith) (omega arith),
      refl,
      λ j.
          with_inode-lookups new_inodes d j
          ∙ ap (λ n. if root_id == j then 2 else n) (lookups-none new_inodes j refl),
    )
