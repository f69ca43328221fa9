-- ===== src/Pseudo/Invariant.antt =====
-- src/api/pseudo_fs.rs: what holds of the table of inodes between calls.
use mathlib.Core.Path.{subst}
use fuse_backend_rs.Prelude.{ℕ, ◌<◌, ◌≡◌, sym, none, some, List, [], ◌∷◌}
use fuse_backend_rs.Prelude.Map.{get}
use fuse_backend_rs.Fs.{Name, root_id}
use fuse_backend_rs.Pseudo.{Child, PseudoInode, PseudoFs, find_child}

-- No two children of one directory have the same name.
abbrev pub Distinct : List Child → Type 0
Distinct [] = Unit
Distinct (c ∷ cs) = (find_child c.name cs ≡ none) × Distinct cs

-- `c` is the number of a child `name` of the node numbered `i`, and is that child's node.
pub record IsChild (fs : PseudoFs) (i : ℕ) (name : Name) (c : ℕ) : Type 0 where
  pub node : PseudoInode
  pub here : get c fs.inodes ≡ some node
  pub parent : node.parent ≡ i
  pub name_eq : node.name ≡ name

pub record IsWellFormed (fs : PseudoFs) : Type 0 where
  pub root : PseudoInode
  pub root_here : get root_id fs.inodes ≡ some root
  pub root_parent : root.parent ≡ root_id
  pub nonzero : get 0 fs.inodes ≡ none
  pub own_ino : (i : ℕ) (n : PseudoInode) → get i fs.inodes ≡ some n → n.ino ≡ i
  pub below_next : (i : ℕ) (n : PseudoInode) → get i fs.inodes ≡ some n → i < fs.next_inode
  pub child_here :
      (i : ℕ) (n : PseudoInode) (name : Name) (c : ℕ)
      → get i fs.inodes ≡ some n
      → find_child name n.children ≡ some c
      → IsChild fs i name c
  pub distinct : (i : ℕ) (n : PseudoInode) → get i fs.inodes ≡ some n → Distinct n.children

-- The inodes that a walk from the root can reach.
pub data Anchored (fs : PseudoFs) : ℕ → Type 0 where
  top : Anchored fs root_id
  under :
      (i : ℕ) (n : PseudoInode) (name : Name) (c : ℕ)
      → Anchored fs i
      → get i fs.inodes ≡ some n
      → find_child name n.children ≡ some c
      → Anchored fs c

-- Where a step of a walk arrives.
pub record Arrives (fs : PseudoFs) (i : ℕ) : Type 0 where
  pub node : PseudoInode
  pub here : get i fs.inodes ≡ some node
  pub anchored : Anchored fs i

module _ (fs : PseudoFs) (wf : IsWellFormed fs) where
  pub Anchored-here : (i : ℕ) → Anchored fs i → (n : PseudoInode) × (get i fs.inodes ≡ some n)
  Anchored-here i top = (wf.root, wf.root_here)
  Anchored-here i (under j n name c a h f) =
      let k = wf.child_here j n name c h f in (k.node, k.here)

  -- ".." never leaves the reachable part of the table.
  pub up_Arrives :
      (i : ℕ) (n : PseudoInode) → Anchored fs i → get i fs.inodes ≡ some n → Arrives fs n.parent
  up_Arrives i n top h =
      let e : n.parent ≡ root_id = cc (wf.root_parent, wf.root_here) in
      rw e (record { node = wf.root; here = wf.root_here; anchored = top })
  up_Arrives i n (under j p name c a g f) h =
      let k = wf.child_here j p name c g f in
      let e : n.parent ≡ j = cc (k.here, k.parent) in
      rw e (record { node = p; here = g; anchored = a })

  pub down_Arrives :
      (i : ℕ) (n : PseudoInode) (name : Name) (c : ℕ)
      → Anchored fs i
      → get i fs.inodes ≡ some n
      → find_child name n.children ≡ some c
      → Arrives fs c
  down_Arrives i n name c a h f =
      let k = wf.child_here i n name c h f in
      record { node = k.node; here = k.here; anchored = under i n name c a h f }

-- A node that a walk can stand at.
pub record Stands (fs : PseudoFs) (n : PseudoInode) : Type 0 where
  pub here : get n.ino fs.inodes ≡ some n
  pub anchored : Anchored fs n.ino

pub Arrives-Stands :
    (fs : PseudoFs) → IsWellFormed fs → (i : ℕ) (a : Arrives fs i) → Stands fs a.node
Arrives-Stands fs wf i a =
    let e : a.node.ino ≡ i = wf.own_ino i a.node a.here in
    record { here = cc (e, a.here); anchored = subst (λ x. Anchored fs x) (sym e) a.anchored }

pub root-Stands : (fs : PseudoFs) (wf : IsWellFormed fs) → Stands fs wf.root
root-Stands fs wf =
    Arrives-Stands fs wf root_id (record { node = wf.root; here = wf.root_here; anchored = top })
