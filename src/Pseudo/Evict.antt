-- ===== src/Pseudo/Evict.antt =====
-- src/api/pseudo_fs.rs, `evict_inode`: the directory goes, and the table stays well formed.
use fuse_backend_rs.Prelude.{
  ℕ, ◌≡◌, ◌≢◌, refl, sym, ◌∙◌, ap, true, false, none, some, List, [], ◌∷◌, arith, ◌==◌,
  if◌then◌else◌, bytes_eq, bytes_eq_iff, Bool-cases, ◌⊎◌, inl, inr,
}
use fuse_backend_rs.Prelude.Map.{get, map_laws}
use fuse_backend_rs.Prelude.Outcome.{ok}
use fuse_backend_rs.Fs.{Name, root_id}
use fuse_backend_rs.Pseudo.{
  Child, PseudoInode, PseudoFs, find_child, drop_child, store_node, remove_inode, evict_inode,
  path_walk,
}
use fuse_backend_rs.Pseudo.Path.{has_root}
use fuse_backend_rs.Pseudo.Invariant.{Distinct, IsChild, IsWellFormed, Anchored, top, under}
use fuse_backend_rs.Pseudo.Walk.{path_walk-Walks}

-- The first child of a name is dropped, and with distinct names it was the only one.
record Drops (name : Name) (cs : List Child) : Type 0 where
  rest : List Child
  drops : drop_child name cs ≡ some rest
  finds : (nm : Name) → find_child nm rest ≡ (if bytes_eq name nm then none else find_child nm cs)
  distinct : Distinct rest

drop_child-Drops :
    (name : Name) (cs : List Child) (i : ℕ)
    → Distinct cs
    → find_child name cs ≡ some i
    → Drops name cs
unfolding find_child drop_child
drop_child-Drops name [] i d f = absurd (ground arith)
drop_child-Drops name (c ∷ cs) i d f = elim (Bool-cases (bytes_eq c.name name)) [
  | inl same ↦
      let e : c.name ≡ name = (bytes_eq_iff c.name name).0 same in
      record {
        rest = cs;
        drops = ground arith;
        finds = λ nm. ground (arith, bytes_eq_iff name nm, bytes_eq_iff c.name nm, d.0);
        distinct = d.1;
      }
  | inr other ↦
      let r = drop_child-Drops name cs i d.1 (ground arith) in
      record {
        rest = c ∷ r.rest;
        drops = ground (arith, r.drops);
        finds = λ nm. ground (
          arith,
          r.finds nm,
          bytes_eq_iff name nm,
          bytes_eq_iff c.name nm,
          bytes_eq_iff c.name name,
        );
        distinct = (ground (arith, r.finds c.name, d.0), r.distinct);
      }
]

module _ (fs : PseudoFs) (wf : IsWellFormed fs) where
  -- Only the root is its own parent, among the inodes that hang from it.
  own_parent-root :
      (i : ℕ) (n : PseudoInode)
      → Anchored fs i
      → get i fs.inodes ≡ some n
      → n.parent ≡ i
      → i ≡ root_id
  own_parent-root i n top h e = refl
  own_parent-root i n (under j p name c a g f) h e =
      let k = wf.child_here j p name c g f in
      let same : j ≡ i = cc (k.here, k.parent) in
      sym same ∙ own_parent-root j n a (rw same h) (e ∙ sym same)

  module _ (i : ℕ) (n : PseudoInode) (p : PseudoInode) (d : Drops n.name p.children)
      (ne : i ≢ n.parent) (h : get i fs.inodes ≡ some n) (g : get n.parent fs.inodes ≡ some p)
      (f : find_child n.name p.children ≡ some i) where
    abbrev thinned : PseudoInode
    thinned = record p { children = d.rest }

    abbrev left : PseudoFs
    left = remove_inode (store_node fs thinned) i

    evict_inode-left : evict_inode fs i ≡ ok left
    unfolding evict_inode
    evict_inode-left = ground (arith, d.drops)

    get-left :
        (x : ℕ)
        → get x left.inodes
          ≡ (if i == x then none else if n.parent == x then some thinned else get x fs.inodes)
    unfolding remove_inode store_node
    get-left x = simp map_laws (ground (arith, wf.own_ino n.parent p g))

    still : (x : ℕ) (nm : Name) (c : ℕ) → c ≢ i → IsChild fs x nm c → IsChild left x nm c
    still x nm c other k = elim (Bool-cases (n.parent == c)) [
      | inl e ↦
          let same : k.node ≡ p = ground (arith, k.here) in
          record {
            node = thinned;
            here = ground (arith, get-left c);
            parent = cc (same, k.parent);
            name_eq = cc (same, k.name_eq);
          }
      | inr e ↦ record {
        node = k.node;
        here = ground (arith, get-left c, k.here);
        parent = k.parent;
        name_eq = k.name_eq;
      }
    ]

    abbrev LeftCases : ℕ → PseudoInode → Type 0
    LeftCases x m = ((x ≡ n.parent) × (m ≡ thinned)) ⊎ ((x ≢ n.parent) × (get x fs.inodes ≡ some m))

    left_cases : (x : ℕ) (m : PseudoInode) → get x left.inodes ≡ some m → LeftCases x m
    left_cases x m e = ground (arith, get-left x)

    left-IsChild :
        (x : ℕ) (m : PseudoInode) (nm : Name) (c : ℕ)
        → LeftCases x m
        → find_child nm m.children ≡ some c
        → IsChild left x nm c
    left-IsChild x m nm c (inl (e, same)) e' =
        let old : find_child nm p.children ≡ some c = ground (arith, d.finds nm) in
        let k = wf.child_here n.parent p nm c g old in
        rw e (
          still n.parent nm c
            (λ (q : c ≡ i). ground (arith, d.finds nm, bytes_eq_iff n.name nm, k.here, k.name_eq))
            k)
    left-IsChild x m nm c (inr (ne', old)) e' =
        let k = wf.child_here x m nm c old e' in
        still x nm c (λ (q : c ≡ i). ground (arith, k.here, k.parent)) k

    left-Distinct : (x : ℕ) (m : PseudoInode) → LeftCases x m → Distinct m.children
    left-Distinct x m (inl (e, same)) = rw same d.distinct
    left-Distinct x m (inr (ne', old)) = wf.distinct x m old

    abbrev LeftRoot : Type 0
    LeftRoot = (r : PseudoInode) × (get root_id left.inodes ≡ some r) × (r.parent ≡ root_id)

    left_root : i ≢ root_id → LeftRoot
    left_root ne' = elim (Bool-cases (n.parent == root_id)) [
      | inl e ↦
          let same : p ≡ wf.root = ground (arith, wf.root_here) in
          (
            thinned,
            ground (arith, get-left root_id),
            ap (λ (r : PseudoInode). r.parent) same ∙ wf.root_parent,
          )
      | inr e ↦ (wf.root, ground (arith, get-left root_id, wf.root_here), wf.root_parent)
    ]

    next-left : left.next_inode ≡ fs.next_inode
    unfolding remove_inode store_node
    next-left = refl

    left-IsWellFormed : i ≢ root_id → IsWellFormed left
    left-IsWellFormed ne' =
        let (r, here, up) = left_root ne' in
        record {
          root = r;
          root_here = here;
          root_parent = up;
          nonzero = ground (arith, get-left 0, wf.nonzero, g);
          own_ino =
              λ x m e. ground (arith, left_cases x m e, wf.own_ino x m, wf.own_ino n.parent p g);
          below_next = λ x m e.
              ground
                (arith, left_cases x m e, wf.below_next x m, wf.below_next n.parent p g, next-left);
          child_here = λ x m nm c e. left-IsChild x m nm c (left_cases x m e);
          distinct = λ x m e. left-Distinct x m (left_cases x m e);
        }

-- What an eviction achieves: the inode is gone, and the table is well formed.
pub record Evicts (fs : PseudoFs) (i : ℕ) : Type 0 where
  pub out : PseudoFs
  pub ends : evict_inode fs i ≡ ok out
  pub wf : IsWellFormed out
  pub gone : get i out.inodes ≡ none

-- An inode other than the root that a walk can reach is evicted without a panic.
pub evict_inode-Evicts :
    (fs : PseudoFs) → IsWellFormed fs → (i : ℕ) → Anchored fs i → i ≢ root_id → Evicts fs i
evict_inode-Evicts fs wf i top ne = absurd (ne refl)
evict_inode-Evicts fs wf i (under j p name c a g f) ne =
    let k = wf.child_here j p name c g f in
    let n = k.node in
    let h : get i fs.inodes ≡ some n = k.here in
    let up : get n.parent fs.inodes ≡ some p = cc (k.parent, g) in
    let f' : find_child n.name p.children ≡ some i = cc (k.name_eq, f) in
    let other : i ≢ n.parent =
      λ (e : i ≡ n.parent). ne (own_parent-root fs wf i n (under j p name c a g f) h (sym e)) in
    let d = drop_child-Drops n.name p.children i (wf.distinct j p g) f' in
    record {
      out = left fs wf i n p d other h up f';
      ends = evict_inode-left fs wf i n p d other h up f';
      wf = left-IsWellFormed fs wf i n p d other h up f' ne;
      gone = ground (arith, get-left fs wf i n p d other h up f' i);
    }

-- In a well-formed table, the eviction of an inode that hangs from the root and is not the root
-- succeeds, and then no path leads to the inode.
pub evict_inode-unreachable :
    (fs : PseudoFs)
    → IsWellFormed fs
    → (i : ℕ) → Anchored fs i
    → i ≢ root_id
    → (fs' : PseudoFs) × (evict_inode fs i ≡ ok fs')
      × ((q : List ℕ) → path_walk fs' q ≢ ok (some i))
unfolding path_walk
evict_inode-unreachable fs wf i a ne =
    let v = evict_inode-Evicts fs wf i a ne in
    (v.out, v.ends, λ q w. misses v q w (Bool-cases (has_root q)))
  where
    misses :
        (v : Evicts fs i) (q : List ℕ)
        → path_walk v.out q ≡ ok (some i)
        → (has_root q ≡ true) ⊎ (has_root q ≡ false)
        → ⊥
    misses v q w (inl r) =
        let t = path_walk-Walks v.out v.wf q r in
        let b = t.found i (ground (arith, t.ends)) in cc (b.here, v.gone)
    misses v q w (inr r) = ground arith

-- Eviction of an inode that a walk can reach never panics. The root stays.
pub evict_inode_total :
    (fs : PseudoFs)
    → IsWellFormed fs
    → (i : ℕ) → Anchored fs i
    → (fs' : PseudoFs) × (evict_inode fs i ≡ ok fs') × IsWellFormed fs'
unfolding evict_inode
evict_inode_total fs wf i a = elim (Bool-cases (i == root_id)) [
  | inl e ↦
      let same : i ≡ root_id = ground arith in
      (fs, ground (arith, wf.root_here, wf.root_parent), wf)
  | inr e ↦ let v = evict_inode-Evicts fs wf i a (λ q. ground arith) in (v.out, v.ends, v.wf)
]
