-- ===== src/Pseudo/Tests.antt =====
-- The pseudo file system at concrete paths.
use fuse_backend_rs.Prelude.{
  ℕ, ◌<◌, ◌≡◌, ◌≢◌, refl, true, some, none, List, [], ◌∷◌, arith, length, take, drop, ◌+◌,
}
use fuse_backend_rs.Prelude.Map.{get, insert}
use fuse_backend_rs.Prelude.Outcome.{ok, err}
use fuse_backend_rs.Prelude.Text.{codes}
use fuse_backend_rs.Fs.{Name, root_id, einval, u64_mod}
use fuse_backend_rs.Pseudo.{PseudoInode, PseudoFs, new, mount, path_walk, evict_inode}
use fuse_backend_rs.Pseudo.Path.{has_root, components}
use fuse_backend_rs.Pseudo.New.{new-IsWellFormed}
use fuse_backend_rs.Pseudo.Invariant.{IsWellFormed, Anchored, root-Stands}
use fuse_backend_rs.Pseudo.Walk.{path_walk-Arrives}
use fuse_backend_rs.Pseudo.Mount.{path_walk-mount, mount-IsWellFormed, path_walk-mount_mono}
use fuse_backend_rs.Pseudo.Evict.{evict_inode-unreachable}
use fuse_backend_rs.Pseudo.Serve.{lookup, do_readdir}
use fuse_backend_rs.Pseudo.Listing.{
  lookup-walk_from, do_readdir-listing, as_entry, step_of, Appends, fill, buffer, listing,
}
use fuse_backend_rs.Pseudo.{walk_from}

program : Unit {0}
unfolding new mount path_walk evict_inode get insert
program = tt

abbrev path_a : List ℕ
path_a = codes "/a"

abbrev path_ab : List ℕ
path_ab = codes "/a/./b//"

abbrev path_back : List ℕ
path_back = codes "/a/b/../.."

abbrev with_a : PseudoFs
with_a = (mount new path_a).0

mounted_twice :
    ((mount new path_a).1 ≡ ok 2)
    × ((mount (mount new path_ab).0 path_ab).1 ≡ ok 3)
    × (path_walk (mount new path_ab).0 path_back ≡ ok (some root_id))
    × (path_walk new path_ab ≡ ok none)
    × (path_walk new (codes "a") ≡ err einval)
unfolding program
mounted_twice = (refl, refl, refl, refl, refl)

room : new.next_inode + length (components path_a) < u64_mod
unfolding new components
room = omega arith

with_a-IsWellFormed : IsWellFormed with_a
with_a-IsWellFormed = mount-IsWellFormed new path_a new-IsWellFormed room

walk_a : path_walk with_a path_a ≡ ok (some 2)
unfolding program
walk_a = refl

next_a : with_a.next_inode + length (components path_ab) < u64_mod
unfolding program components
next_a = omega arith

rooted_a : has_root path_a ≡ true
unfolding has_root
rooted_a = refl

rooted_ab : has_root path_ab ≡ true
unfolding has_root
rooted_ab = refl

two_ne_one : ◌≢◌ {A = ℕ} 2 root_id
two_ne_one = omega arith

path_walk-mount_example :
    (i : ℕ) × ((mount with_a path_ab).1 ≡ ok i)
    × (path_walk (mount with_a path_ab).0 path_ab ≡ ok (some i))
path_walk-mount_example = path_walk-mount with_a with_a-IsWellFormed path_ab rooted_ab next_a

path_walk-mount_mono_example : path_walk (mount with_a path_ab).0 path_a ≡ ok (some 2)
path_walk-mount_mono_example =
    path_walk-mount_mono with_a with_a-IsWellFormed path_ab rooted_ab next_a path_a 2 walk_a

mount-IsWellFormed_example : IsWellFormed (mount with_a path_ab).0
mount-IsWellFormed_example = mount-IsWellFormed with_a path_ab with_a-IsWellFormed next_a

Anchored-a : Anchored with_a 2
Anchored-a = (path_walk-Arrives with_a with_a-IsWellFormed path_a 2 walk_a).anchored

evict_inode-unreachable_example :
    (fs' : PseudoFs) × (evict_inode with_a 2 ≡ ok fs')
    × ((q : List ℕ) → path_walk fs' q ≢ ok (some 2))
evict_inode-unreachable_example =
    evict_inode-unreachable with_a with_a-IsWellFormed 2 Anchored-a two_ne_one

abbrev name_a : Name
name_a = codes "a"

lookup-walk_from_example :
    lookup (λ n. true) with_a 5 with_a-IsWellFormed.root.ino name_a
    ≡ as_entry 5 (walk_from with_a with_a-IsWellFormed.root (step_of name_a ∷ []))
lookup-walk_from_example =
    lookup-walk_from with_a with_a-IsWellFormed with_a-IsWellFormed.root
      (root-Stands with_a with_a-IsWellFormed) name_a (λ n. true) 5 refl

abbrev root_a : PseudoInode
root_a = record {
  ino = 1;
  parent = 1;
  children = record { ino = 2; name = name_a } ∷ [];
  name = codes "/";
}

root_a_here : get root_a.ino with_a.inodes ≡ some root_a
unfolding program
root_a_here = refl

do_readdir-listing_example :
    Appends
      (do_readdir fill with_a 1 100 0 (buffer [] 4))
      []
      (take 4 (drop 0 (listing 1 root_a.children)))
do_readdir-listing_example =
    do_readdir-listing with_a root_a 100 0 4 root_a_here (omega arith) (omega arith)
