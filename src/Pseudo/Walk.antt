-- ===== src/Pseudo/Walk.antt =====
-- src/api/pseudo_fs.rs, `path_walk`: a walk is total on a well-formed table, and `mount` follows
-- it.
use fuse_backend_rs.Prelude.{
  ℕ, ◌≡◌, refl, ◌∙◌, true, Option, none, some, List, [], ◌∷◌, arith, Option-cases, Bool-cases, inl,
  inr,
}
use fuse_backend_rs.Prelude.Map.{get}
use fuse_backend_rs.Prelude.Outcome.{ok}
use fuse_backend_rs.Fs.{root_id, Result}
use fuse_backend_rs.Pseudo.Path.{
  Component, prefix, root_dir, cur_dir, parent_dir, normal, has_root, components, IsUnix,
  components-IsUnix,
}
use fuse_backend_rs.Pseudo.{
  PseudoInode, PseudoFs, find_child, mount_from, mount, walk_from, path_walk,
}
use fuse_backend_rs.Pseudo.Invariant.{
  IsWellFormed, Arrives, up_Arrives, down_Arrives, Stands, Arrives-Stands, root-Stands,
}
use fuse_backend_rs.Pseudo.Create.{Grows, Extends}
use fuse_backend_rs.Pseudo.Steps.{walk_up, walk_down, mount_up, mount_down, walked_up, walked_down}

-- A walk that found something finds it in every later table.
pub walk_from-Extends :
    (fs fs' : PseudoFs)
    → Extends fs fs'
    → (cs : List Component) (m n : PseudoInode) (j : ℕ) → Grows m n
    → walk_from fs m cs ≡ ok (some j)
    → walk_from fs' n cs ≡ ok (some j)
unfolding walk_from
walk_from-Extends fs fs' ext [] m n j g w = ground arith
walk_from-Extends fs fs' ext (prefix ∷ cs) m n j g w = cc
walk_from-Extends fs fs' ext (root_dir ∷ cs) m n j g w = walk_from-Extends fs fs' ext cs m n j g w
walk_from-Extends fs fs' ext (cur_dir ∷ cs) m n j g w = walk_from-Extends fs fs' ext cs m n j g w
walk_from-Extends fs fs' ext (parent_dir ∷ cs) m n j g w =
    let (up, e, w') = walked_up fs m cs (some j) w in
    let l = ext m.parent up e in
    walk_up fs' n cs l.node (cc (g.parent, l.here))
    ∙ walk_from-Extends fs fs' ext cs up l.node j l.grows w'
walk_from-Extends fs fs' ext (normal name ∷ cs) m n j g w =
    let (c, down, f, e, w') = walked_down fs m cs name j w in
    let l = ext c down e in
    walk_down fs' n cs name c l.node (g.keeps name c f) l.here
    ∙ walk_from-Extends fs fs' ext cs down l.node j l.grows w'

-- A mount of what is there already changes nothing.
pub mount_from-walk_from :
    (fs : PseudoFs) (cs : List Component) (n : PseudoInode) (j : ℕ)
    → walk_from fs n cs ≡ ok (some j)
    → mount_from fs n cs ≡ (fs, ok j)
unfolding walk_from mount_from
mount_from-walk_from fs [] n j w = ground arith
mount_from-walk_from fs (prefix ∷ cs) n j w = cc
mount_from-walk_from fs (root_dir ∷ cs) n j w = mount_from-walk_from fs cs n j w
mount_from-walk_from fs (cur_dir ∷ cs) n j w = mount_from-walk_from fs cs n j w
mount_from-walk_from fs (parent_dir ∷ cs) n j w =
    let (up, e, w') = walked_up fs n cs (some j) w in
    mount_up fs n cs up e ∙ mount_from-walk_from fs cs up j w'
mount_from-walk_from fs (normal name ∷ cs) n j w =
    let (c, down, f, e, w') = walked_down fs n cs name j w in
    mount_down fs n cs name c down f e ∙ mount_from-walk_from fs cs down j w'

-- A walk stays in the table: it ends at a reachable inode, or at a missing name.
pub record Walks (fs : PseudoFs) (r : Result (Option ℕ)) : Type 0 where
  pub out : Option ℕ
  pub ends : r ≡ ok out
  pub found : (j : ℕ) → out ≡ some j → Arrives fs j

Walks-eq : (fs : PseudoFs) (r s : Result (Option ℕ)) → r ≡ s → Walks fs s → Walks fs r
Walks-eq fs r s e w = record { out = w.out; ends = e ∙ w.ends; found = w.found }

module _ (fs : PseudoFs) (wf : IsWellFormed fs) where
  pub walk_from-Walks :
      (cs : List Component)
      → IsUnix cs
      → (n : PseudoInode) → Stands fs n
      → Walks fs (walk_from fs n cs)
  unfolding walk_from
  walk_from-Walks [] u n s = record {
    out = some n.ino;
    ends = refl;
    found = λ j e.
        let e' : n.ino ≡ j = cc in
        rw (← e') (record { node = n; here = s.here; anchored = s.anchored });
  }
  walk_from-Walks (prefix ∷ cs) u n s = absurd u
  walk_from-Walks (root_dir ∷ cs) u n s = walk_from-Walks cs u n s
  walk_from-Walks (cur_dir ∷ cs) u n s = walk_from-Walks cs u n s
  walk_from-Walks (parent_dir ∷ cs) u n s =
      let a = up_Arrives fs wf n.ino n s.anchored s.here in
      Walks-eq fs _ _ (walk_up fs n cs a.node a.here)
        (walk_from-Walks cs u a.node (Arrives-Stands fs wf n.parent a))
  walk_from-Walks (normal name ∷ cs) u n s = elim (Option-cases (find_child name n.children)) [
    | inl miss ↦ record { out = none; ends = rw (miss, walk_from); found = λ j e. cc }
    | inr (c, f) ↦
        let a = down_Arrives fs wf n.ino n name c s.anchored s.here f in
        Walks-eq fs _ _ (walk_down fs n cs name c a.node f a.here)
          (walk_from-Walks cs u a.node (Arrives-Stands fs wf c a))
  ]

-- In a well-formed table and on a rooted path, `path_walk` neither fails nor panics: it finds an
-- inode that is in the table and hangs from the root, or reports that there is none.
pub path_walk-Walks :
    (fs : PseudoFs) → IsWellFormed fs → (p : List ℕ) → has_root p ≡ true → Walks fs (path_walk fs p)
unfolding path_walk
path_walk-Walks fs wf p r =
    rw (r, path_walk, wf.root_here)
      (walk_from-Walks fs wf (components p) (components-IsUnix p) wf.root (root-Stands fs wf))

pub path_walk-Arrives :
    (fs : PseudoFs)
    → IsWellFormed fs
    → (p : List ℕ) (i : ℕ) → path_walk fs p ≡ ok (some i)
    → Arrives fs i
unfolding path_walk
path_walk-Arrives fs wf p i h = elim (Bool-cases (has_root p)) [
  | inl r ↦ let w = path_walk-Walks fs wf p r in w.found i (ground (arith, w.ends))
  | inr r ↦ absurd (ground arith)
]

-- `path_walk` finds in every later table what it found before.
pub path_walk-Extends :
    (fs fs' : PseudoFs)
    → IsWellFormed fs
    → Extends fs fs'
    → (q : List ℕ) (j : ℕ) → path_walk fs q ≡ ok (some j)
    → path_walk fs' q ≡ ok (some j)
unfolding path_walk
path_walk-Extends fs fs' wf ext q j w = elim (Bool-cases (has_root q)) [
  | inl r ↦
      let l = ext root_id wf.root wf.root_here in
      rw (r, path_walk, l.here)
        (walk_from-Extends fs fs' ext (components q) wf.root l.node j l.grows
          (rw (r, path_walk, wf.root_here) at w))
  | inr r ↦ absurd (ground arith)
]

-- What `path_walk` finds, `mount` of the same path returns, and changes nothing.
mount-path_walk :
    (fs : PseudoFs) (p : List ℕ) (j : ℕ) → path_walk fs p ≡ ok (some j) → mount fs p ≡ (fs, ok j)
unfolding mount path_walk
mount-path_walk fs p j w = elim (Bool-cases (has_root p)) [
  | inl r ↦ elim (Option-cases (get root_id fs.inodes)) [
    | inl e ↦ absurd (ground arith)
    | inr (root, e) ↦ rw (r, e) (mount_from-walk_from fs (components p) root j (rw (r, e) at w))
  ]
  | inr r ↦ absurd (ground arith)
]
