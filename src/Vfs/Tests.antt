-- ===== src/Vfs/Tests.antt =====
-- Mounts and lookups at concrete backends and paths.
mod Served
use fuse_backend_rs.Prelude.{
  ℕ, ◌+◌, ◌-◌, ◌*◌, ◌^◌, ◌<◌, ◌≡◌, ◌↔◌, ◌≢◌, refl, true, false, none, some, List, arith, inl,
}
use fuse_backend_rs.Prelude.Map.{get, insert}
use fuse_backend_rs.Prelude.Outcome.{ok}
use fuse_backend_rs.Prelude.Text.{codes}
use fuse_backend_rs.Fs.{Stat, Entry, Name}
use fuse_backend_rs.Pseudo
use fuse_backend_rs.Pseudo.Path.{has_root, components}
use fuse_backend_rs.Vfs.Inode.{fs_idx, ino, is_pseudo_fs, convert_inode}
use fuse_backend_rs.Vfs.Ids.{
  IdMapping, IsProper, convert_entry, remap_attr_id, remap_attr_id-remap_attr_id,
}
use fuse_backend_rs.Vfs.Alloc.{is_taken, Search, allocate_fs_idx, allocate_fs_idx-Search}
use fuse_backend_rs.Vfs.State.{Backends, Vfs, MountPointData, new_vfs, slot, mount, umount}
use fuse_backend_rs.Vfs.Consistent.{IsConsistent}
use fuse_backend_rs.Vfs.Insert.{HasRoom}
use fuse_backend_rs.Vfs.Mount.{Ready, Mounted, mount-Mounted}
use fuse_backend_rs.Vfs.Negotiate.{default_options}
use fuse_backend_rs.Vfs.Unmount.{Unmounts, umount-Unmounts}
use fuse_backend_rs.Vfs.Dispatch.{
  BackendOps, contains_slash, get_fs_by_idx, right, get_real_rootfs, cross_mount, lookup, rename,
  outward,
}
use fuse_backend_rs.Vfs.Routing.{RoutesTo, cross_mount-RoutesTo, lookup-RoutesTo}
use fuse_backend_rs.Vfs.RootOwner.{cross_mount-owner_differs}
use fuse_backend_rs.Vfs.Reach.{Reach, here, next, mounts, Reach-IsConsistent}

program : Unit {0}
unfolding mount umount new_vfs get insert convert_inode Pseudo.path_walk get_real_rootfs
    convert_entry cross_mount lookup rename
program = tt

abbrev attr_of : ℕ → ℕ → Stat
attr_of i owner = record {
  st_ino = i;
  st_size = 0;
  st_blocks = 0;
  st_atime = 0;
  st_mtime = 0;
  st_ctime = 0;
  st_mode = 0o40755;
  st_nlink = 2;
  st_uid = owner;
  st_gid = owner;
  st_rdev = 0;
  st_blksize = 4096;
}

abbrev pub entry_of : ℕ → ℕ → Entry
entry_of i owner = record {
  inode = i;
  generation = 0;
  attr = attr_of i owner;
  attr_flags = 0;
  attr_timeout = 1;
  entry_timeout = 1;
}

-- Backends are numbers. Each has inode 1 for its root and inode 9 for any name.
abbrev pub backends : Backends ℕ
backends = record { mount = λ b. ok (entry_of 1 0, 100); init = λ b opts. ok opts }

abbrev pub ops : BackendOps ℕ
ops = record {
  lookup = λ b i name. ok (entry_of 9 0);
  getattr = λ b i handle. ok (attr_of i 0, 1);
  setattr = λ b i a handle valid. ok (a, 1);
  mkdir = λ b i name mode umask. ok (entry_of 10 0);
  unlink = λ b i name. ok tt;
  rename = λ b i name j name' flags. ok tt;
  link = λ b i j name. ok (entry_of 9 0);
}

abbrev pub path_mnt : List ℕ
path_mnt = codes "/mnt"

abbrev path_data : List ℕ
path_data = codes "/mnt/data"

abbrev pub v0 : Vfs ℕ
v0 = new_vfs default_options

abbrev pub v1 : Vfs ℕ
v1 = (mount backends v0 7 path_mnt).0

abbrev pub v2 : Vfs ℕ
v2 = (mount backends v1 8 path_data).0

runs :
    ((mount backends v0 7 path_mnt).1 ≡ ok 1)
    × ((mount backends v1 8 path_data).1 ≡ ok 2)
    × ((umount v2 path_mnt).1 ≡ ok (2, 1))
    × ((mount backends v2 9 path_mnt).1 ≡ ok 3)
    × (slot (mount backends v2 9 path_mnt).0.superblocks 1 ≡ none)
unfolding program
runs = (refl, refl, refl, refl, refl)

room0 : HasRoom v0 path_mnt
unfolding program components
room0 = omega arith

room1 : HasRoom v1 path_data
unfolding program components
room1 = omega arith

reach2 : Reach backends v0 v2
reach2 = next (next here (mounts v0 7 path_mnt room0)) (mounts v1 8 path_data room1)

Reach-IsConsistent_example : IsConsistent v2
Reach-IsConsistent_example = Reach-IsConsistent backends default_options reach2

pub consistent1 : IsConsistent v1
consistent1 = Reach-IsConsistent backends default_options (next here (mounts v0 7 path_mnt room0))

ready1 : Ready backends v1 8 (entry_of 1 0) path_data
unfolding program has_root is_taken
ready1 = record {
  max_ino = 100;
  answers = refl;
  in_range = omega arith;
  root_in_range = omega arith;
  accepts = inl refl;
  rooted = refl;
  free = 2;
  free_positive = omega arith;
  free_small = omega arith;
  free_slot = refl;
}

mount-Mounted_example :
    Mounted 8 (entry_of 1 0) path_data v1.superblocks (mount backends v1 8 path_data)
mount-Mounted_example =
    mount-Mounted backends v1 consistent1 8 path_data room1 (entry_of 1 0) ready1

abbrev pub point1 : MountPointData
point1 = record { fs_idx = 1; ino = 1; root_entry = entry_of (2 ^ 56 + 1) 0; path = path_mnt }

pub point1_here : get 2 v1.mountpoints ≡ some point1
unfolding program
point1_here = refl

pub walk1 : Pseudo.path_walk v1.root path_mnt ≡ ok (some 2)
unfolding program
walk1 = refl

umount-Unmounts_example :
    (v' : Vfs ℕ) × (parent : ℕ) × (umount v1 path_mnt ≡ (v', ok (2, parent)))
    × Unmounts v1 consistent1 2 point1 v'
umount-Unmounts_example = umount-Unmounts v1 consistent1 path_mnt 2 point1 walk1 point1_here

nothing_there : Pseudo.path_walk v1.root path_data ≡ ok none
unfolding program
nothing_there = refl

rooted_data : has_root path_data ≡ true
unfolding has_root
rooted_data = refl

no_point : (i : ℕ) → Pseudo.path_walk v1.root path_data ≡ ok (some i) → get i v1.mountpoints ≡ none
no_point i h = absurd (ground (arith, nothing_there))

abbrev pub name_x : Name
name_x = codes "x"

pub inside1 : get_real_rootfs v1 (2 ^ 56 + 5) ≡ ok (right 7, 2 ^ 56 + 5)
unfolding program is_pseudo_fs fs_idx get_fs_by_idx
inside1 = refl

no_slash : contains_slash name_x ≡ false
unfolding contains_slash
no_slash = refl

lookup-RoutesTo_example :
    (e : Entry) × (lookup (λ n. true) ops v1 0 (2 ^ 56 + 5) name_x ≡ ok e) × RoutesTo v1 e.inode 7 9
lookup-RoutesTo_example =
    lookup-RoutesTo v1 consistent1 (λ n. true) ops 0 (2 ^ 56 + 5) (2 ^ 56 + 5) name_x 7
      (entry_of 9 0) no_slash inside1 refl (omega arith) (omega arith)

cross_mount-RoutesTo_example :
    (e : Entry) × (fs : ℕ) × (cross_mount v1 1 (entry_of 2 0) ≡ ok e)
    × (slot v1.superblocks 1 ≡ some fs)
    × RoutesTo v1 e.inode fs 1
cross_mount-RoutesTo_example =
    cross_mount-RoutesTo v1 consistent1 1 (entry_of 2 0) point1 point1_here (omega arith)

allocate_fs_idx-Search_example : Search v1.superblocks (allocate_fs_idx v1.superblocks 255)
allocate_fs_idx-Search_example = allocate_fs_idx-Search v1.superblocks 255 (omega arith)

five : convert_inode 3 5 ≡ ok (3 * 2 ^ 56 + 5)
unfolding convert_inode
five = refl

abbrev mapping : IdMapping
mapping = record { internal_id = 0; external_id = 1000; range = 5000 }

mapping-IsProper : IsProper mapping
mapping-IsProper = record { internal_fits = omega arith; external_fits = omega arith }

remap_attr_id-remap_attr_id_example :
    (remap_attr_id (some mapping) false (remap_attr_id (some mapping) true (attr_of 1 7))
      ≡ attr_of 1 7)
    × ((remap_attr_id (some mapping) true (attr_of 1 7)).st_uid ≡ 7 - 0 + 1000)
    × ((remap_attr_id (some mapping) true (attr_of 1 7)).st_gid ≡ 7 - 0 + 1000)
remap_attr_id-remap_attr_id_example =
    remap_attr_id-remap_attr_id mapping mapping-IsProper (attr_of 1 7) (omega arith, omega arith)
      (omega arith, omega arith)

inside2 : get_real_rootfs v2 (2 * 2 ^ 56 + 5) ≡ ok (right 8, 2 * 2 ^ 56 + 5)
unfolding program is_pseudo_fs fs_idx get_fs_by_idx
inside2 = refl

inside1_too : get_real_rootfs v2 (2 ^ 56 + 5) ≡ ok (right 7, 2 ^ 56 + 5)
unfolding program is_pseudo_fs fs_idx get_fs_by_idx
inside1_too = refl

differ : fs_idx (2 ^ 56 + 5) ≢ fs_idx (2 * 2 ^ 56 + 5)
unfolding fs_idx
differ = omega arith

abbrev v0_mapped : Vfs ℕ
v0_mapped = new_vfs (record default_options { id_mapping = mapping })

abbrev v1_mapped : Vfs ℕ
v1_mapped = (mount backends v0_mapped 7 path_mnt).0

abbrev point1_mapped : MountPointData
point1_mapped = record point1 { root_entry = entry_of (2 ^ 56 + 1) 1000 }

point1_mapped_here : get 2 v1_mapped.mountpoints ≡ some point1_mapped
unfolding program
point1_mapped_here = refl

mapped1 : v1_mapped.id_mapping ≡ some mapping
unfolding program
mapped1 = refl

one : convert_inode 1 1 ≡ ok (2 ^ 56 + 1)
unfolding convert_inode
one = refl

stored1 : convert_entry v1_mapped.id_mapping 1 1 (entry_of 1 0) ≡ ok point1_mapped.root_entry
unfolding program
stored1 = refl

cross_mount-owner_differs_example :
    (e : Entry) × (cross_mount v1_mapped 1 (entry_of 2 0) ≡ ok e)
    × (e.attr.st_uid ≢ (outward v1_mapped e.inode (attr_of 1 0, 1)).0.st_uid)
cross_mount-owner_differs_example =
    cross_mount-owner_differs v1_mapped mapping mapped1 mapping-IsProper 1 (entry_of 2 0)
      (entry_of 1 0) point1_mapped 1 point1_mapped_here one stored1 (omega arith, omega arith)
      (omega arith, omega arith) (omega arith)
