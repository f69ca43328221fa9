-- ===== src/Vfs/Tests/Served.antt =====
-- Requests at concrete backends.
use fuse_backend_rs.Prelude.{ℕ, ◌+◌, ◌^◌, ◌≡◌, refl, true, false, none, [], ◌∷◌, ◌++◌}
use mathlib.Core.List.{map}
use fuse_backend_rs.Prelude.Outcome.{ok}
use fuse_backend_rs.Prelude.Text.{codes}
use fuse_backend_rs.Pseudo.{Child, PseudoInode}
use fuse_backend_rs.Vfs.Inode.{fs_idx, ino, convert_inode}
use fuse_backend_rs.Vfs.State.{Vfs, init, destroy}
use fuse_backend_rs.Vfs.Negotiate.{init_vfs, destroy_vfs}
use fuse_backend_rs.Vfs.Started.{agreed, mounted_backends, init_vfs-destroy_vfs}
use fuse_backend_rs.Vfs.Ops.{FileOps, DirOps}
use fuse_backend_rs.Vfs.Requests.{create}
use fuse_backend_rs.Vfs.Tests.{program, backends, entry_of, v2}

abbrev files : FileOps ℕ ℕ
files = record {
  readlink = λ b i. ok (b ∷ i ∷ []);
  symlink = λ b l i name. ok (entry_of 11 0);
  mknod = λ b i name mode rdev umask. ok (entry_of 12 0);
  rmdir = λ b i name. ok tt;
  open_file = λ b i flags fuse_flags. ok (none, (0, none));
  create = λ b i name args. ok (entry_of 13 0, (none, (0, none)));
  read = λ b i handle w size offset lock flags. ok size;
  write = λ b i handle r size offset lock delayed flags fuse_flags. ok size;
  flush = λ b i handle lock. ok tt;
  fsync = λ b i datasync handle. ok tt;
  fallocate = λ b i handle mode offset length. ok tt;
  release = λ b i flags handle flush unlocks lock. ok tt;
  statfs = λ b i. ok b;
  setxattr = λ b i name value flags. ok tt;
  getxattr = λ b i name size. ok size;
  listxattr = λ b i size. ok size;
  removexattr = λ b i name. ok tt;
  opendir = λ b i flags. ok (none, 0);
  fsyncdir = λ b i datasync handle. ok tt;
  releasedir = λ b i flags handle. ok tt;
  access = λ b i mask. ok tt;
}

idle : v2.initialized ≡ false
unfolding program
idle = refl

init_vfs-destroy_vfs_example :
    (v' : Vfs ℕ) × (init_vfs backends v2 0x1_0008 ≡ (v', ok (agreed backends v2 0x1_0008).out_opts))
    × (v'.initialized ≡ true)
    × (v'.calls ≡ v2.calls ++ map init (mounted_backends v2.superblocks))
    × ((destroy_vfs v').calls ≡ v'.calls ++ map destroy (mounted_backends v2.superblocks))
init_vfs-destroy_vfs_example =
    init_vfs-destroy_vfs backends v2 0x1_0008 idle
      (λ b. ((agreed backends v2 0x1_0008).out_opts, refl))

abbrev mnt_child : Child
mnt_child = record { ino = 2; name = codes "mnt" }

abbrev root_node : PseudoInode
root_node = record { ino = 1; parent = 1; children = mnt_child ∷ []; name = codes "/" }

abbrev dirs : {S : Type 0} → DirOps ℕ S
dirs = record {
  readdir = λ b i handle size offset add s. (s, ok tt);
  readdirplus = λ b i handle size offset add s. (s, ok tt);
}

-- The number is one of the backend that was mounted there.
index_of_five : fs_idx (2 ^ 56 + 5) ≡ 1
unfolding fs_idx
index_of_five = refl
