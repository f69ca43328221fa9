-- ===== src/Pseudo/Steps.antt =====
-- src/api/pseudo_fs.rs: one step of the loops of `mount` and `path_walk`.
use fuse_backend_rs.Prelude.{ℕ, ◌≡◌, Option, none, some, List, ◌∷◌, arith}
use fuse_backend_rs.Prelude.Map.{get}
use fuse_backend_rs.Prelude.Outcome.{ok}
use fuse_backend_rs.Fs.{Name}
use fuse_backend_rs.Pseudo.Path.{Component, parent_dir, normal}
use fuse_backend_rs.Pseudo.{PseudoInode, PseudoFs, find_child, create_inode, mount_from, walk_from}

module _ (fs : PseudoFs) (n : PseudoInode) (cs : List Component) where
  pub walk_up :
      (up : PseudoInode)
      → get n.parent fs.inodes ≡ some up
      → walk_from fs n (parent_dir ∷ cs) ≡ walk_from fs up cs
  unfolding walk_from
  walk_up up e = ground arith

  pub walk_down :
      (name : Name) (c : ℕ) (down : PseudoInode)
      → find_child name n.children ≡ some c
      → get c fs.inodes ≡ some down
      → walk_from fs n (normal name ∷ cs) ≡ walk_from fs down cs
  unfolding walk_from
  walk_down name c down f e = ground arith

  pub mount_up :
      (up : PseudoInode)
      → get n.parent fs.inodes ≡ some up
      → mount_from fs n (parent_dir ∷ cs) ≡ mount_from fs up cs
  unfolding mount_from
  mount_up up e = ground arith

  pub mount_down :
      (name : Name) (c : ℕ) (down : PseudoInode)
      → find_child name n.children ≡ some c
      → get c fs.inodes ≡ some down
      → mount_from fs n (normal name ∷ cs) ≡ mount_from fs down cs
  unfolding mount_from
  mount_down name c down f e = ground arith

  pub mount_new :
      (name : Name) (down : PseudoInode)
      → find_child name n.children ≡ none
      → get fs.next_inode (create_inode fs name n).0.inodes ≡ some down
      → mount_from fs n (normal name ∷ cs) ≡ mount_from (create_inode fs name n).0 down cs
  unfolding mount_from
  mount_new name down f e = rw (f, mount_from, e)

  pub walked_up :
      (r : Option ℕ)
      → walk_from fs n (parent_dir ∷ cs) ≡ ok r
      → (up : PseudoInode) × (get n.parent fs.inodes ≡ some up) × (walk_from fs up cs ≡ ok r)
  unfolding walk_from
  walked_up r w = ground arith

  pub walked_down :
      (name : Name) (j : ℕ)
      → walk_from fs n (normal name ∷ cs) ≡ ok (some j)
      → (c : ℕ) × (down : PseudoInode) × (find_child name n.children ≡ some c)
        × (get c fs.inodes ≡ some down)
        × (walk_from fs down cs ≡ ok (some j))
  unfolding walk_from
  walked_down name j w = ground arith
