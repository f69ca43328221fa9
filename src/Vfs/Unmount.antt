-- ===== src/Vfs/Unmount.antt =====
-- src/api/vfs/mod.rs, `umount`: what it leaves behind.
use fuse_backend_rs.Prelude.{
  ℕ, ◌≡◌, ◌≢◌, ◌∙◌, true, false, none, some, List, [], ◌∷◌, ◌++◌, arith, ◌==◌, if◌then◌else◌, set,
  length-set, Bool-cases, Option-cases, inl, inr,
}
use fuse_backend_rs.Prelude.Map.{get, remove, map_laws}
use fuse_backend_rs.Prelude.Outcome.{ok, err}
use fuse_backend_rs.Fs.{einval}
use fuse_backend_rs.Pseudo
use fuse_backend_rs.Pseudo.{PseudoFs}
use fuse_backend_rs.Pseudo.Invariant.{IsWellFormed, Anchored}
use fuse_backend_rs.Pseudo.Evict.{evict_inode_total}
use fuse_backend_rs.Pseudo.Walk.{path_walk-Arrives, path_walk-Walks}
use fuse_backend_rs.Pseudo.Path.{has_root}
use fuse_backend_rs.Vfs.State.{
  MountPointData, Vfs, destroy, slot, drop_superblock, unmount_point, umount, not_found,
  path_walk_error,
}
use fuse_backend_rs.Vfs.Consistent.{slot-set, IsMounted, Owner, IsConsistent}

module _ {B : Type 0} (v : Vfs B) (c : IsConsistent v) where
  module _ (inode : ℕ) (mnt : MountPointData) (here : get inode v.mountpoints ≡ some mnt)
      (root' : PseudoFs) (wf : IsWellFormed root') where
    abbrev left : Vfs B
    left =
        drop_superblock (record v { root = root'; mountpoints = remove inode v.mountpoints })
          mnt.fs_idx

    gone_point : IsMounted v.superblocks mnt
    gone_point = c.mounted inode mnt here

    -- The super block of the mount point is emptied, and its backend is destroyed.
    left-eq : left ≡ record v {
      root = root';
      mountpoints = remove inode v.mountpoints;
      superblocks = set v.superblocks mnt.fs_idx none;
      calls = v.calls ++ destroy gone_point.holds.backend ∷ [];
    }
    unfolding drop_superblock
    left-eq = rw (gone_point.holds.here, drop_superblock)

    slot-left :
        (x : ℕ) → slot left.superblocks x ≡ (if mnt.fs_idx == x then none else slot v.superblocks x)
    slot-left x =
        rw left-eq
          (slot-set v.superblocks mnt.fs_idx x none (omega (arith, c.slots, gone_point.small)))

    get-left : (i : ℕ) → get i left.mountpoints ≡ (if inode == i then none else get i v.mountpoints)
    get-left i = rw left-eq (simp map_laws)

    old_point :
        (i : ℕ) (m : MountPointData)
        → get i left.mountpoints ≡ some m
        → (i ≢ inode) × (get i v.mountpoints ≡ some m)
    old_point i m h = ground (arith, get-left i)

    mounted-left :
        (i : ℕ) (m : MountPointData)
        → get i left.mountpoints ≡ some m
        → IsMounted left.superblocks m
    mounted-left i m h =
        let (ne, old) = old_point i m h in
        let k = c.mounted i m old in
        record {
          positive = k.positive;
          small = k.small;
          holds = record {
            backend = k.holds.backend;
            here =
                ground
                  (arith, slot-left m.fs_idx, k.holds.here, ne, c.apart i inode m mnt old here);
          };
          entry = k.entry;
        }

    owned-left : (x : ℕ) (b : B) → slot left.superblocks x ≡ some b → Owner left.mountpoints x
    owned-left x b h =
        let (other, old) = kept x b h in
        let w = c.owned x b old in
        record {
          inode = w.inode;
          point = w.point;
          here = ground (arith, get-left w.inode, w.here, w.is, other, here);
          is = w.is;
        }
      where
        kept :
            (x : ℕ) (b : B)
            → slot left.superblocks x ≡ some b
            → (mnt.fs_idx ≢ x) × (slot v.superblocks x ≡ some b)
        kept x b h = ground (arith, slot-left x)

    left-IsConsistent : IsConsistent left
    left-IsConsistent = record {
      root_wf = rw left-eq wf;
      counter = rw left-eq c.counter;
      slots = rw left-eq (length-set v.superblocks mnt.fs_idx none ∙ c.slots);
      mounted = mounted-left;
      apart = λ i j m k h h' q. c.apart i j m k (old_point i m h).1 (old_point j k h').1 q;
      owned = owned-left;
    }

  -- What the removal of the mount point `mnt` at `inode` leaves.
  pub record Unmounts (inode : ℕ) (mnt : MountPointData) (v' : Vfs B) : Type 0 where
    pub consistent : IsConsistent v'
    pub point_gone : get inode v'.mountpoints ≡ none
    pub others : (i : ℕ) → i ≢ inode → get i v'.mountpoints ≡ get i v.mountpoints
    pub slot_empty : slot v'.superblocks mnt.fs_idx ≡ none
    pub slots_kept : (x : ℕ) → x ≢ mnt.fs_idx → slot v'.superblocks x ≡ slot v.superblocks x
    pub backend : B
    pub was : slot v.superblocks mnt.fs_idx ≡ some backend
    pub destroyed : v'.calls ≡ v.calls ++ destroy backend ∷ []

  left-Unmounts :
      (inode : ℕ) (mnt : MountPointData) (here : get inode v.mountpoints ≡ some mnt)
      (root' : PseudoFs) (wf : IsWellFormed root')
      → Unmounts inode mnt (left inode mnt here root' wf)
  left-Unmounts inode mnt here root' wf =
      let k = gone_point inode mnt here root' wf in
      record {
        consistent = left-IsConsistent inode mnt here root' wf;
        point_gone = ground (arith, get-left inode mnt here root' wf inode);
        others = λ i ne. ground (arith, get-left inode mnt here root' wf i);
        slot_empty = ground (arith, slot-left inode mnt here root' wf mnt.fs_idx);
        slots_kept = λ x ne. ground (arith, slot-left inode mnt here root' wf x);
        backend = k.holds.backend;
        was = k.holds.here;
        destroyed = rw (left-eq inode mnt here root' wf);
      }

  evicted :
      (inode : ℕ)
      → Anchored v.root inode
      → (root' : PseudoFs) × ((if v.remove_pseudo_root
            then Pseudo.evict_inode v.root inode
            else ok v.root)
          ≡ ok root')
        × IsWellFormed root'
  evicted inode a = elim (Bool-cases v.remove_pseudo_root) [
    | inl e ↦ let (r, done, wf) = evict_inode_total v.root c.root_wf inode a in (r, rw e done, wf)
    | inr e ↦ (v.root, rw e, c.root_wf)
  ]

  unmount_point-Unmounts :
      (inode : ℕ) (mnt : MountPointData)
      → get inode v.mountpoints ≡ some mnt
      → Anchored v.root inode
      → (v' : Vfs B) × (unmount_point v inode mnt ≡ ok v') × Unmounts inode mnt v'
  unfolding unmount_point
  unmount_point-Unmounts inode mnt here a =
      let (r, done, wf) = evicted inode a in
      (left inode mnt here r wf, rw (done, unmount_point), left-Unmounts inode mnt here r wf)

  -- On consistent tables, `umount` of a path that leads to a mount point takes that mount point and
  -- no other away, empties its super block and no other, destroys its backend once, and keeps the
  -- tables consistent.
  pub umount-Unmounts :
      (path : List ℕ) (inode : ℕ) (mnt : MountPointData)
      → Pseudo.path_walk v.root path ≡ ok (some inode)
      → get inode v.mountpoints ≡ some mnt
      → (v' : Vfs B) × (parent : ℕ) × (umount v path ≡ (v', ok (inode, parent)))
        × Unmounts inode mnt v'
  unfolding umount Pseudo.get_parent_inode
  umount-Unmounts path inode mnt walk here =
      let a = path_walk-Arrives v.root c.root_wf path inode walk in
      let (v', done, left) = unmount_point-Unmounts inode mnt here a.anchored in
      (v', a.node.parent, ground (arith, walk, a.here, here, done), left)

  -- On consistent tables, `umount` of a rooted path that leads to no mount point reports that it is
  -- not found, and changes nothing.
  pub umount-not_found :
      (path : List ℕ)
      → has_root path ≡ true
      → ((inode : ℕ)
          → Pseudo.path_walk v.root path ≡ ok (some inode)
          → get inode v.mountpoints ≡ none)
      → umount v path ≡ (v, err not_found)
  unfolding umount Pseudo.get_parent_inode
  umount-not_found path rooted none_there =
      let w = path_walk-Walks v.root c.root_wf path rooted in
      elim (Option-cases w.out) [
        | inl e ↦ ground (arith, w.ends)
        | inr (i, e) ↦
            let a = w.found i e in
            ground (arith, w.ends, a.here, none_there i (ground (arith, w.ends)))
      ]

  umount_relative :
      (path : List ℕ) → has_root path ≡ false → umount v path ≡ (v, err (path_walk_error einval))
  unfolding umount Pseudo.path_walk
  umount_relative path e = ground arith

  -- Where a path leads: to a mount point, or not.
  data Target (path : List ℕ) : Type 0 where
    at :
        (inode : ℕ) (mnt : MountPointData)
        → Pseudo.path_walk v.root path ≡ ok (some inode)
        → get inode v.mountpoints ≡ some mnt
        → Target path
    nowhere :
        ((inode : ℕ)
          → Pseudo.path_walk v.root path ≡ ok (some inode)
          → get inode v.mountpoints ≡ none)
        → Target path

  target : (path : List ℕ) → has_root path ≡ true → Target path
  target path rooted =
      let w = path_walk-Walks v.root c.root_wf path rooted in
      elim (Option-cases w.out) [
        | inl e ↦ nowhere (λ i h. ground (arith, w.ends))
        | inr (i, e) ↦ elim (Option-cases (get i v.mountpoints)) [
          | inl q ↦ nowhere (λ j h. ground (arith, w.ends))
          | inr (mnt, q) ↦ at i mnt (ground (arith, w.ends)) q
        ]
      ]

  -- `umount` keeps the tables consistent, whatever the path and the outcome.
  pub umount-IsConsistent : (path : List ℕ) → IsConsistent (umount v path).0
  umount-IsConsistent path = elim (Bool-cases (has_root path)) [
    | inr e ↦ rw (umount_relative path e) c
    | inl rooted ↦ elim (target path rooted) [
      | nowhere h ↦ rw (umount-not_found path rooted h) c
      | at inode mnt walk here ↦
          let (v', parent, done, left) = umount-Unmounts path inode mnt walk here in
          rw done left.consistent
    ]
  ]
