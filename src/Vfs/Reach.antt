-- ===== src/Vfs/Reach.antt =====
-- src/api/vfs/mod.rs: the tables of a file system stay consistent through all mounts and umounts.
use fuse_backend_rs.Prelude.{
  ℕ, zero, suc, ◌≡◌, refl, Option, none, List, arith, replicate, length-replicate,
}
use fuse_backend_rs.Prelude.Map.{get}
use fuse_backend_rs.Pseudo.New.{new-IsWellFormed}
use fuse_backend_rs.Vfs.State.{
  Backends, Vfs, VfsOptions, new_vfs, set_remove_pseudo_root, slot, mount, umount,
}
use fuse_backend_rs.Vfs.Consistent.{IsConsistent}
use fuse_backend_rs.Vfs.Insert.{HasRoom}
use fuse_backend_rs.Vfs.Mount.{mount-IsConsistent}
use fuse_backend_rs.Vfs.Negotiate.{init_vfs, destroy_vfs}
use fuse_backend_rs.Vfs.Started.{init_vfs-IsConsistent, destroy_vfs-IsConsistent}
use fuse_backend_rs.Vfs.Unmount.{umount-IsConsistent}

module _ {B : Type 0} where
  slot-replicate : (n x : ℕ) → slot (replicate {A = Option B} n none) x ≡ none
  slot-replicate zero x = refl
  slot-replicate (suc n) zero = refl
  slot-replicate (suc n) (suc x) = slot-replicate n x

  pub new_vfs-IsConsistent : (opts : VfsOptions) → IsConsistent (new_vfs {B = B} opts)
  unfolding new_vfs get
  new_vfs-IsConsistent opts = record {
    root_wf = new-IsWellFormed;
    counter = omega arith;
    slots = length-replicate {A = Option B} 256 none;
    mounted = λ i m h. absurd (ground arith);
    apart = λ i j m n h h' q. absurd (ground arith);
    owned = λ x b h. absurd (cc (slot-replicate 256 x, h));
  }

  -- One call on the file system.
  pub data Step (backends : Backends B) : Vfs B → Vfs B → Type 0 where
    mounts :
        (v : Vfs B) (fs : B) (path : List ℕ)
        → HasRoom v path
        → Step backends v (mount backends v fs path).0
    umounts : (v : Vfs B) (path : List ℕ) → Step backends v (umount v path).0
    inits : (v : Vfs B) (opts : ℕ) → Step backends v (init_vfs backends v opts).0
    destroys : (v : Vfs B) → Step backends v (destroy_vfs v)
    marks : (v : Vfs B) → Step backends v (set_remove_pseudo_root v)

  pub data Reach (backends : Backends B) (v : Vfs B) : Vfs B → Type 0 where
    here : Reach backends v v
    next : {u w : Vfs B} → Reach backends v u → Step backends u w → Reach backends v w

  Step-IsConsistent :
      (backends : Backends B) {v w : Vfs B} → Step backends v w → IsConsistent v → IsConsistent w
  Step-IsConsistent backends (mounts v fs path room) c =
      mount-IsConsistent backends v c fs path room
  Step-IsConsistent backends (umounts v path) c = umount-IsConsistent v c path
  Step-IsConsistent backends (inits v opts) c = init_vfs-IsConsistent backends v opts c
  Step-IsConsistent backends (destroys v) c = destroy_vfs-IsConsistent v c
  Step-IsConsistent backends (marks v) c = record {
    root_wf = c.root_wf;
    counter = c.counter;
    slots = c.slots;
    mounted = c.mounted;
    apart = c.apart;
    owned = c.owned;
  }

  -- From a new file system, whatever calls of `mount`, `umount`, `init`, `destroy` and
  -- `set_remove_pseudo_root` follow, in whatever order and with whatever outcome, the tables are
  -- consistent, as long as inode numbers last for each mount.
  pub Reach-IsConsistent :
      (backends : Backends B) (opts : VfsOptions) {w : Vfs B}
      → Reach backends (new_vfs opts) w
      → IsConsistent w
  Reach-IsConsistent backends opts here = new_vfs-IsConsistent opts
  Reach-IsConsistent backends opts (next r s) =
      Step-IsConsistent backends s (Reach-IsConsistent backends opts r)
