-- ===== src/Vfs/Consistent.antt =====
-- src/api/vfs/mod.rs: what holds of mount points and super blocks between calls.
use fuse_backend_rs.Prelude.{
  ℕ, ◌<◌, ◌≡◌, false, Option, none, some, List, arith, ◌==◌, if◌then◌else◌, length, set,
  get_elem?-set_self, get_elem?-set_ne,
}
use fuse_backend_rs.Prelude.Map.{Map, get}
use fuse_backend_rs.Prelude.Outcome.{ok}
use fuse_backend_rs.Pseudo.{PseudoFs}
use fuse_backend_rs.Pseudo.Invariant.{IsWellFormed}
use fuse_backend_rs.Vfs.Inode.{convert_inode, max_vfs_index}
use fuse_backend_rs.Vfs.Alloc.{is_taken}
use fuse_backend_rs.Vfs.State.{MountPointData, Vfs, Call, slot}

-- The mount point that a super block belongs to.
pub record Owner (points : Map MountPointData) (x : ℕ) : Type 0 where
  pub inode : ℕ
  pub point : MountPointData
  pub here : get inode points ≡ some point
  pub is : point.fs_idx ≡ x

module _ {B : Type 0} where
  pub slot-set :
      (sb : List (Option B)) (i j : ℕ) (v : Option B)
      → i < length sb
      → slot (set sb i v) j ≡ (if i == j then v else slot sb j)
  slot-set sb i j v h = ground (arith, get_elem?-set_self sb i v h, get_elem?-set_ne sb i j v)

  pub slot_of_free : (sb : List (Option B)) (i : ℕ) → is_taken sb i ≡ false → slot sb i ≡ none
  unfolding is_taken
  slot_of_free sb i h = ground arith

  -- A super block that holds a backend.
  pub record Holds (sb : List (Option B)) (i : ℕ) : Type 0 where
    pub backend : B
    pub here : slot sb i ≡ some backend

  pub record IsMounted (sb : List (Option B)) (m : MountPointData) : Type 0 where
    pub positive : 0 < m.fs_idx
    pub small : m.fs_idx < max_vfs_index
    pub holds : Holds sb m.fs_idx
    pub entry : convert_inode m.fs_idx m.ino ≡ ok m.root_entry.inode

  pub record IsConsistent (v : Vfs B) : Type 0 where
    pub root_wf : IsWellFormed v.root
    pub counter : v.next_super < max_vfs_index
    pub slots : length v.superblocks ≡ max_vfs_index
    pub mounted :
        (i : ℕ) (m : MountPointData) → get i v.mountpoints ≡ some m → IsMounted v.superblocks m
    pub apart :
        (i j : ℕ) (m n : MountPointData)
        → get i v.mountpoints ≡ some m
        → get j v.mountpoints ≡ some n
        → m.fs_idx ≡ n.fs_idx
        → i ≡ j
    pub owned : (x : ℕ) (b : B) → slot v.superblocks x ≡ some b → Owner v.mountpoints x

  -- The root's table, the counter and the record of calls may change on their own.
  pub IsConsistent-around :
      (v : Vfs B) (root' : PseudoFs) (next' : ℕ) (calls' : List (Call B))
      → IsConsistent v
      → IsWellFormed root'
      → next' < max_vfs_index
      → IsConsistent (record v { root = root'; next_super = next'; calls = calls' })
  IsConsistent-around v root' next' calls' c wf small = record {
    root_wf = wf;
    counter = small;
    slots = c.slots;
    mounted = c.mounted;
    apart = c.apart;
    owned = c.owned;
  }
