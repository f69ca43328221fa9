-- ===== src/Pseudo/Mount.antt =====
-- src/api/pseudo_fs.rs, `mount`: it makes what a walk misses, and disturbs no other path.
use fuse_backend_rs.Prelude.{
  ℕ, ◌+◌, ◌<◌, ◌≡◌, refl, ◌∙◌, ap, true, false, none, some, List, [], ◌∷◌, arith, Option-cases,
  Bool-cases, inl, inr, length,
}
use fuse_backend_rs.Prelude.Map.{get}
use fuse_backend_rs.Prelude.Outcome.{ok, err}
use fuse_backend_rs.Fs.{Name, root_id, u64_mod, Result, einval}
use fuse_backend_rs.Pseudo.Path.{
  Component, prefix, root_dir, cur_dir, parent_dir, normal, has_root, components, IsUnix,
  components-IsUnix,
}
use fuse_backend_rs.Pseudo.{
  PseudoInode, PseudoFs, find_child, mount_from, mount, walk_from, path_walk,
}
use fuse_backend_rs.Pseudo.Invariant.{
  IsWellFormed, Anchored, top, under, up_Arrives, down_Arrives, Stands, Arrives-Stands, root-Stands,
}
use fuse_backend_rs.Pseudo.Create.{
  Extends, Extends-refl, Extends-trans, create_inode-Extends, create_inode-IsWellFormed, made,
  fresh, grown, get-made_fresh, get-made_parent, find_child-made, next-made,
}
use fuse_backend_rs.Pseudo.Steps.{walk_up, walk_down, mount_up, mount_down, mount_new}
use fuse_backend_rs.Pseudo.Walk.{path_walk-Extends}

Anchored-Extends : (fs fs' : PseudoFs) → Extends fs fs' → (i : ℕ) → Anchored fs i → Anchored fs' i
Anchored-Extends fs fs' ext i top = top
Anchored-Extends fs fs' ext i (under j n name c a h f) =
    let l = ext j n h in
    under j l.node name c (Anchored-Extends fs fs' ext j a) l.here (l.grows.keeps name c f)

-- What a mount from the node `n` achieves.
pub record Mounts (fs : PseudoFs) (n : PseudoInode) (cs : List Component) (r : PseudoFs × Result ℕ)
    : Type 0 where
  pub out : ℕ
  pub ends : r.1 ≡ ok out
  pub wf : IsWellFormed r.0
  pub ext : Extends fs r.0
  pub walks : (m : PseudoInode) → get n.ino r.0.inodes ≡ some m → walk_from r.0 m cs ≡ ok (some out)

module _ (fs : PseudoFs) (n : PseudoInode) (name : Name) (cs : List Component) where
  -- One step down, to a child that is there.
  Mounts-down :
      (c : ℕ) (down : PseudoInode)
      → find_child name n.children ≡ some c
      → get n.ino fs.inodes ≡ some n
      → get c fs.inodes ≡ some down
      → down.ino ≡ c
      → Mounts fs down cs (mount_from fs down cs)
      → Mounts fs n (normal name ∷ cs) (mount_from fs down cs)
  Mounts-down c down f h g own w = record {
    out = w.out;
    ends = w.ends;
    wf = w.wf;
    ext = w.ext;
    walks = λ m e.
        let l = w.ext n.ino n h in
        let k = w.ext c down g in
        let f' : find_child name m.children ≡ some c = cc (l.grows.keeps name c f, l.here) in
        let fs' = (mount_from fs down cs).0 in
        walk_down fs' m cs name c k.node f' k.here ∙ w.walks k.node (cc (own, k.here));
  }

  -- One step down, to a child that is made for it.
  Mounts-new :
      IsWellFormed fs
      → find_child name n.children ≡ none
      → get n.ino fs.inodes ≡ some n
      → Mounts
          (made fs name n)
          (fresh fs name n)
          cs
          (mount_from (made fs name n) (fresh fs name n) cs)
      → Mounts fs n (normal name ∷ cs) (mount_from (made fs name n) (fresh fs name n) cs)
  Mounts-new wf miss h w = record {
    out = w.out;
    ends = w.ends;
    wf = w.wf;
    ext =
        Extends-trans fs (made fs name n) (mount_from (made fs name n) (fresh fs name n) cs).0
          (create_inode-Extends fs name n wf h miss) w.ext;
    walks = λ m e.
        let l = w.ext n.ino (grown fs name n) (get-made_parent fs name n wf h miss) in
        let k = w.ext fs.next_inode (fresh fs name n) (get-made_fresh fs name n wf h miss) in
        let kept = l.grows.keeps name fs.next_inode (find_child-made fs name n wf h miss) in
        let f : find_child name m.children ≡ some fs.next_inode = cc (kept, l.here) in
        walk_down (mount_from (made fs name n) (fresh fs name n) cs).0 m cs name fs.next_inode
          k.node f k.here
        ∙ w.walks k.node k.here;
  }

  fresh-Stands :
      IsWellFormed fs
      → find_child name n.children ≡ none
      → Stands fs n
      → Stands (made fs name n) (fresh fs name n)
  fresh-Stands wf miss s = record {
    here = get-made_fresh fs name n wf s.here miss;
    anchored =
        under n.ino (grown fs name n) name fs.next_inode
          (Anchored-Extends fs (made fs name n) (create_inode-Extends fs name n wf s.here miss)
            n.ino s.anchored)
          (get-made_parent fs name n wf s.here miss) (find_child-made fs name n wf s.here miss);
  }

-- The first component of a path is passed in the same way by `mount` and by its reader.
Mounts-up :
    (fs : PseudoFs) (n up : PseudoInode) (cs : List Component)
    → get n.ino fs.inodes ≡ some n
    → get n.parent fs.inodes ≡ some up
    → up.ino ≡ n.parent
    → Mounts fs up cs (mount_from fs up cs)
    → Mounts fs n (parent_dir ∷ cs) (mount_from fs up cs)
Mounts-up fs n up cs h g own w = record {
  out = w.out;
  ends = w.ends;
  wf = w.wf;
  ext = w.ext;
  walks = λ m e.
      let l = w.ext n.ino n h in
      let k = w.ext n.parent up g in
      let f : get m.parent (mount_from fs up cs).0.inodes ≡ some k.node =
        cc (l.grows.parent, l.here, k.here) in
      walk_up (mount_from fs up cs).0 m cs k.node f ∙ w.walks k.node (cc (own, k.here));
}

Mounts-nil :
    (fs : PseudoFs) (n : PseudoInode)
    → IsWellFormed fs
    → get n.ino fs.inodes ≡ some n
    → Mounts fs n [] (mount_from fs n [])
unfolding mount_from walk_from
Mounts-nil fs n wf h = record {
  out = n.ino;
  ends = refl;
  wf = wf;
  ext = Extends-refl fs;
  walks = λ m e. let same : m ≡ n = cc in ap (λ (x : PseudoInode). ok (some x.ino)) same;
}

module _ (fs : PseudoFs) (n : PseudoInode) (cs : List Component) where
  Mounts-root_dir :
      Mounts fs n cs (mount_from fs n cs)
      → Mounts fs n (root_dir ∷ cs) (mount_from fs n (root_dir ∷ cs))
  unfolding mount_from walk_from
  Mounts-root_dir w = record { out = w.out; ends = w.ends; wf = w.wf; ext = w.ext; walks = w.walks }

  Mounts-cur_dir :
      Mounts fs n cs (mount_from fs n cs)
      → Mounts fs n (cur_dir ∷ cs) (mount_from fs n (cur_dir ∷ cs))
  unfolding mount_from walk_from
  Mounts-cur_dir w = record { out = w.out; ends = w.ends; wf = w.wf; ext = w.ext; walks = w.walks }

pub mount_from-Mounts :
    (cs : List Component) (fs : PseudoFs)
    → IsWellFormed fs
    → IsUnix cs
    → fs.next_inode + length cs < u64_mod
    → (n : PseudoInode) → Stands fs n
    → Mounts fs n cs (mount_from fs n cs)
mount_from-Mounts [] fs wf u room n s = Mounts-nil fs n wf s.here
mount_from-Mounts (prefix ∷ cs) fs wf u room n s = absurd u
mount_from-Mounts (root_dir ∷ cs) fs wf u room n s =
    Mounts-root_dir fs n cs (mount_from-Mounts cs fs wf u (omega arith) n s)
mount_from-Mounts (cur_dir ∷ cs) fs wf u room n s =
    Mounts-cur_dir fs n cs (mount_from-Mounts cs fs wf u (omega arith) n s)
mount_from-Mounts (parent_dir ∷ cs) fs wf u room n s =
    let a = up_Arrives fs wf n.ino n s.anchored s.here in
    rw (mount_up fs n cs a.node a.here) (
      Mounts-up fs n a.node cs s.here a.here (wf.own_ino n.parent a.node a.here)
        (mount_from-Mounts cs fs wf u (omega arith) a.node (Arrives-Stands fs wf n.parent a)))
mount_from-Mounts (normal name ∷ cs) fs wf u room n s =
    elim (Option-cases (find_child name n.children)) [
      | inl miss ↦
          rw
            (mount_new fs n cs name (fresh fs name n) miss
              (get-made_fresh fs name n wf s.here miss))
            (Mounts-new fs n name cs wf miss s.here (
              mount_from-Mounts cs (made fs name n)
                (create_inode-IsWellFormed fs name n wf s.here miss (omega arith)) u
                (omega (arith, next-made fs name n wf s.here miss (omega arith))) (fresh fs name n)
                (fresh-Stands fs n name cs wf miss s)))
      | inr (c, f) ↦
          let a = down_Arrives fs wf n.ino n name c s.anchored s.here f in
          rw (mount_down fs n cs name c a.node f a.here) (
            Mounts-down fs n name cs c a.node f s.here a.here (wf.own_ino c a.node a.here)
              (mount_from-Mounts cs fs wf u (omega arith) a.node (Arrives-Stands fs wf c a)))
    ]

module _ (fs : PseudoFs) (wf : IsWellFormed fs) (p : List ℕ) (rooted : has_root p ≡ true)
    (room : fs.next_inode + length (components p) < u64_mod) where
  mount_rooted : mount fs p ≡ mount_from fs wf.root (components p)
  unfolding mount
  mount_rooted = rw (rooted, mount, wf.root_here)

  mounted : Mounts fs wf.root (components p) (mount fs p)
  mounted = rw mount_rooted (
      mount_from-Mounts (components p) fs wf (components-IsUnix p) room wf.root (root-Stands fs wf))

  -- In a well-formed table, on a rooted path and while inode numbers last, `mount` neither fails nor
  -- panics, and the inode that it returns is the one that `path_walk` then finds at the path.
  pub path_walk-mount :
      (i : ℕ) × ((mount fs p).1 ≡ ok i) × (path_walk (mount fs p).0 p ≡ ok (some i))
  unfolding path_walk
  path_walk-mount =
      let r = mounted.wf in
      (
        mounted.out,
        mounted.ends,
        rw (rooted, path_walk, r.root_here)
            (mounted.walks r.root (cc (wf.own_ino root_id wf.root wf.root_here, r.root_here))),
      )

  -- In a well-formed table and while inode numbers last, a path that led to an inode before the
  -- `mount` of a rooted path still leads to that inode.
  pub path_walk-mount_mono :
      (q : List ℕ) (j : ℕ) → path_walk fs q ≡ ok (some j) → path_walk (mount fs p).0 q ≡ ok (some j)
  path_walk-mount_mono q j w = path_walk-Extends fs (mount fs p).0 wf mounted.ext q j w

-- `mount` keeps a well-formed table well formed, whether it succeeds or not, while inode numbers
-- last.
pub mount-IsWellFormed :
    (fs : PseudoFs) (p : List ℕ)
    → IsWellFormed fs
    → fs.next_inode + length (components p) < u64_mod
    → IsWellFormed (mount fs p).0
unfolding mount
mount-IsWellFormed fs p wf room = elim (Bool-cases (has_root p)) [
  | inl r ↦ (mounted fs wf p r room).wf
  | inr r ↦ rw (r, mount) wf
]

pub mount_relative :
    (fs : PseudoFs) (p : List ℕ) → has_root p ≡ false → mount fs p ≡ (fs, err einval)
unfolding mount
mount_relative fs p r = rw (r, mount)
