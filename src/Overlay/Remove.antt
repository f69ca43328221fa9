-- ===== src/Overlay/Remove.antt =====
-- src/overlayfs/inode_store.rs, `remove_inode`: what a removal leaves.
use fuse_backend_rs.Prelude.{
  ℕ, ◌<◌, ◌≡◌, ◌≢◌, Option, none, some, List, arith, ◌==◌, if◌then◌else◌, Bool-cases, inl, inr,
}
use fuse_backend_rs.Prelude.Map.{get, insert, remove, get-remove, get-insert}
use fuse_backend_rs.Overlay.{
  InodeStore, OverlayInode, drop_path, remove_inode, get_inode, get_all_inode,
}

module _ (s : InodeStore) (i : ℕ) (v : OverlayInode) (p : Option (List ℕ))
    (active : get i s.inodes ≡ some v) where
  abbrev taken : InodeStore
  taken = record s { inodes = remove i s.inodes }

  pub remove_kept :
      0 < v.lookups → remove_inode s i p ≡ (record taken { deleted = insert i v s.deleted }, none)
  unfolding remove_inode
  remove_kept h = ground (arith, active)

  remove_gone : v.lookups ≡ 0 → remove_inode s i p ≡ (drop_path p taken, some v)
  unfolding remove_inode
  remove_gone h = ground (arith, active)

  -- What the removal leaves of the inode and of the others.
  pub record Removal (s' : InodeStore) : Type 0 where
    pub inactive : get_inode s' i ≡ none
    pub at : get_all_inode s' i ≡ (if v.lookups == 0 then none else some v)
    pub others : (j : ℕ) → j ≢ i → get_all_inode s' j ≡ get_all_inode s j

  kept-Removal : 0 < v.lookups → Removal (record taken { deleted = insert i v s.deleted })
  unfolding get_all_inode
  kept-Removal h = record {
    inactive = ground (arith, get-remove i i s.inodes);
    at = ground (arith, get-remove i i s.inodes, get-insert i i v s.deleted);
    others = λ j ne. ground (arith, get-remove i j s.inodes, get-insert i j v s.deleted);
  }

  taken-Removal : v.lookups ≡ 0 → get i s.deleted ≡ none → Removal taken
  unfolding get_all_inode
  taken-Removal h clean = record {
    inactive = ground (arith, get-remove i i s.inodes);
    at = ground (arith, get-remove i i s.inodes);
    others = λ j ne. ground (arith, get-remove i j s.inodes);
  }

  gone-Removal :
      (q : Option (List ℕ)) → v.lookups ≡ 0 → get i s.deleted ≡ none → Removal (drop_path q taken)
  unfolding drop_path get_all_inode
  gone-Removal none h clean = taken-Removal h clean
  gone-Removal (some path) h clean =
      let r = taken-Removal h clean in
      record { inactive = r.inactive; at = r.at; others = r.others }

  -- A removal of an active inode that is not also a deleted one makes it inactive and leaves all
  -- others as they were; it is still found if and only if it is looked up.
  pub remove_inode-Removal : get i s.deleted ≡ none → Removal (remove_inode s i p).0
  remove_inode-Removal clean = elim (Bool-cases (v.lookups == 0)) [
    | inl z ↦ rw (remove_gone (ground arith)) (gone-Removal p (ground arith) clean)
    | inr nz ↦ rw (remove_kept (ground arith)) (kept-Removal (ground arith))
  ]
