-- ===== src/Vfs/Commit.antt =====
-- src/api/vfs/mod.rs: a mount that is committed, and a super block that is dropped, keep the tables
-- consistent.
use fuse_backend_rs.Prelude.{
  ℕ, ◌<◌, ◌≡◌, ◌≢◌, refl, sym, ap, ◌∙◌, Bool, true, false, Option, none, some, List, arith, ◌==◌,
  if◌then◌else◌, length, length-set, Bool-cases, Option-cases, ◌⊎◌, inl, inr,
}
use fuse_backend_rs.Prelude.Map.{get, map_laws}
use fuse_backend_rs.Prelude.Outcome.{ok}
use fuse_backend_rs.Fs.{Entry}
use fuse_backend_rs.Vfs.Inode.{convert_inode, max_vfs_index}
use fuse_backend_rs.Vfs.State.{MountPointData, Vfs, slot, clear_over_mount, commit_mount}
use fuse_backend_rs.Vfs.Consistent.{slot-set, IsMounted, Owner, IsConsistent}

module _ {B : Type 0} (v : Vfs B) (c : IsConsistent v) where
  module _ (fs : B) (e : Entry) (n idx : ℕ) (path : List ℕ) (inode : ℕ) (pos : 0 < idx)
      (small : idx < max_vfs_index) (free : slot v.superblocks idx ≡ none)
      (conv : convert_inode idx n ≡ ok e.inode) where
    abbrev done : Vfs B
    done = commit_mount v fs e n idx path inode

    abbrev point : MountPointData
    point = record { fs_idx = idx; ino = n; root_entry = e; path = path }

    length-cleared :
        (o : Option MountPointData) → length (clear_over_mount o v.superblocks) ≡ max_vfs_index
    unfolding clear_over_mount
    length-cleared none = c.slots
    length-cleared (some m) = length-set v.superblocks m.fs_idx none ∙ c.slots

    -- Whether the super block `x` is the one that the mount hides.
    abbrev hides : Option MountPointData → ℕ → Bool
    hides none x = false
    hides (some m) x = m.fs_idx == x

    slot-cleared :
        (o : Option MountPointData) (x : ℕ)
        → o ≡ get inode v.mountpoints
        → slot (clear_over_mount o v.superblocks) x
          ≡ (if hides o x then none else slot v.superblocks x)
    unfolding clear_over_mount
    slot-cleared none x h = refl
    slot-cleared (some m) x h =
        let k = c.mounted inode m (sym h) in
        slot-set v.superblocks m.fs_idx x none (omega (arith, c.slots, k.small))

    pub slot-done :
        (x : ℕ)
        → slot done.superblocks x ≡ (
            if idx == x
            then some fs
            else if hides (get inode v.mountpoints) x
            then none
            else slot v.superblocks x)
    unfolding commit_mount
    slot-done x =
        let o = get inode v.mountpoints in
        slot-set (clear_over_mount o v.superblocks) idx x (some fs)
          (omega (arith, length-cleared o))
        ∙ ap (λ (r : Option B). if idx == x then some fs else r) (slot-cleared o x refl)

    pub get-done :
        (i : ℕ) → get i done.mountpoints ≡ (if inode == i then some point else get i v.mountpoints)
    unfolding commit_mount
    get-done i = simp map_laws

    slots-done : length done.superblocks ≡ max_vfs_index
    unfolding commit_mount
    slots-done =
        length-set (clear_over_mount (get inode v.mountpoints) v.superblocks) idx (some fs)
        ∙ length-cleared (get inode v.mountpoints)

    -- A mount point of the new table is the new one, or an old one elsewhere.
    abbrev Points : ℕ → MountPointData → Type 0
    Points i m = ((i ≡ inode) × (m ≡ point)) ⊎ ((i ≢ inode) × (get i v.mountpoints ≡ some m))

    points : (i : ℕ) (m : MountPointData) → get i done.mountpoints ≡ some m → Points i m
    points i m h = ground (arith, get-done i)

    not_idx : (i : ℕ) (m : MountPointData) → get i v.mountpoints ≡ some m → m.fs_idx ≢ idx
    not_idx i m h = λ q. let k = c.mounted i m h in ground (arith, k.holds.here)

    not_hidden :
        (i : ℕ) (m : MountPointData)
        → i ≢ inode
        → get i v.mountpoints ≡ some m
        → hides (get inode v.mountpoints) m.fs_idx ≡ false
    not_hidden i m ne h = elim (Option-cases (get inode v.mountpoints)) [
      | inl q ↦ rw q
      | inr (o, q) ↦ rw q (ground (arith, c.apart i inode m o h q))
    ]

    mounted-done : (i : ℕ) (m : MountPointData) → Points i m → IsMounted done.superblocks m
    mounted-done i m (inl (ei, em)) = record {
      positive = ground arith;
      small = ground arith;
      holds = record { backend = fs; here = ground (arith, slot-done m.fs_idx) };
      entry = cc (conv, em);
    }
    mounted-done i m (inr (ne, h)) =
        let k = c.mounted i m h in
        record {
          positive = k.positive;
          small = k.small;
          holds = record {
            backend = k.holds.backend;
            here =
                ground
                  (arith, slot-done m.fs_idx, not_idx i m h, not_hidden i m ne h, k.holds.here);
          };
          entry = k.entry;
        }

    apart-done :
        (i j : ℕ) (m n : MountPointData) → Points i m → Points j n → m.fs_idx ≡ n.fs_idx → i ≡ j
    apart-done i j m n (inl (ei, em)) (inl (ej, en)) q = cc
    apart-done i j m n (inl (ei, em)) (inr (ne, h)) q = absurd (ground (arith, not_idx j n h))
    apart-done i j m n (inr (ne, h)) (inl (ej, en)) q = absurd (ground (arith, not_idx i m h))
    apart-done i j m n (inr (ne, h)) (inr (ne', h')) q = c.apart i j m n h h' q

    kept_slot :
        (x : ℕ) (b : B)
        → (idx == x) ≡ false
        → slot done.superblocks x ≡ some b
        → (hides (get inode v.mountpoints) x ≡ false) × (slot v.superblocks x ≡ some b)
    kept_slot x b q h = ground (arith, slot-done x)

    hides-some :
        (x : ℕ) (m : MountPointData)
        → m.fs_idx ≡ x
        → get inode v.mountpoints ≡ some m
        → hides (get inode v.mountpoints) x ≡ true
    hides-some x m q h = rw h (ground arith)

    owned-done : (x : ℕ) (b : B) → slot done.superblocks x ≡ some b → Owner done.mountpoints x
    owned-done x b h = elim (Bool-cases (idx == x)) [
      | inl q ↦ record {
        inode = inode;
        point = point;
        here = ground (arith, get-done inode);
        is = ground arith;
      }
      | inr q ↦
          let (seen, old) = kept_slot x b q h in
          let w = c.owned x b old in
          record {
            inode = w.inode;
            point = w.point;
            here = ground (arith, get-done w.inode, w.here, w.is, seen, hides-some x w.point);
            is = w.is;
          }
    ]

    pub commit_mount-IsConsistent : IsConsistent done
    unfolding commit_mount
    commit_mount-IsConsistent = record {
      root_wf = c.root_wf;
      counter = c.counter;
      slots = slots-done;
      mounted = λ i m h. mounted-done i m (points i m h);
      apart = λ i j m k h h'. apart-done i j m k (points i m h) (points j k h');
      owned = owned-done;
    }
