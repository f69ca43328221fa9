-- ===== src/Pseudo/Create.antt =====
-- src/api/pseudo_fs.rs, `create_inode`: what the table holds afterwards.
use fuse_backend_rs.Prelude.{
  ℕ, ◌+◌, ◌<◌, ◌≡◌, refl, ◌∙◌, none, some, List, [], ◌∷◌, ◌++◌, arith, ◌==◌, if◌then◌else◌,
  bytes_eq, bytes_eq_iff, bytes_eq_refl, ◌⊎◌, inl, inr,
}
use fuse_backend_rs.Prelude.Map.{get, map_laws}
use fuse_backend_rs.Fs.{Name, root_id, u64_mod}
use fuse_backend_rs.Pseudo.{Child, PseudoInode, PseudoFs, new_node, find_child, create_inode}
use fuse_backend_rs.Pseudo.Invariant.{Distinct, IsChild, IsWellFormed}

pub find_child-append :
    (name : Name) (cs : List Child) (c : Child)
    → find_child name (cs ++ c ∷ []) ≡ elim (find_child name cs) [
      | some i ↦ some i
      | none ↦ if bytes_eq c.name name then some c.ino else none
    ]
unfolding find_child
find_child-append name [] c = refl
find_child-append name (d ∷ cs) c = ground (arith, find_child-append name cs c)

pub Distinct-append :
    (cs : List Child) (c : Child)
    → Distinct cs
    → find_child c.name cs ≡ none
    → Distinct (cs ++ c ∷ [])
unfolding find_child
Distinct-append [] c d h = (refl, tt)
Distinct-append (x ∷ cs) c d h = (
  ground (
    arith,
    find_child-append x.name cs c,
    bytes_eq_iff x.name c.name,
    bytes_eq_iff c.name x.name,
  ),
  Distinct-append cs c d.1 (ground arith),
)

-- One node after another state: the same directory, with at least the same children.
pub record Grows (m n : PseudoInode) : Type 0 where
  pub ino : n.ino ≡ m.ino
  pub parent : n.parent ≡ m.parent
  pub name : n.name ≡ m.name
  pub keeps :
      (name : Name) (c : ℕ)
      → find_child name m.children ≡ some c
      → find_child name n.children ≡ some c

pub record Later (fs : PseudoFs) (i : ℕ) (m : PseudoInode) : Type 0 where
  pub node : PseudoInode
  pub here : get i fs.inodes ≡ some node
  pub grows : Grows m node

-- Every node of the first state is still in the second.
abbrev pub Extends : PseudoFs → PseudoFs → Type 0
Extends fs fs' = (i : ℕ) (m : PseudoInode) → get i fs.inodes ≡ some m → Later fs' i m

Grows-refl : (m : PseudoInode) → Grows m m
Grows-refl m = record { ino = refl; parent = refl; name = refl; keeps = λ name c f. f }

pub Extends-refl : (fs : PseudoFs) → Extends fs fs
Extends-refl fs i m h = record { node = m; here = h; grows = Grows-refl m }

pub Extends-trans : (a b c : PseudoFs) → Extends a b → Extends b c → Extends a c
Extends-trans a b c p q i m h =
    let x = p i m h in
    let y = q i x.node x.here in
    record {
      node = y.node;
      here = y.here;
      grows = record {
        ino = y.grows.ino ∙ x.grows.ino;
        parent = y.grows.parent ∙ x.grows.parent;
        name = y.grows.name ∙ x.grows.name;
        keeps = λ name d f. y.grows.keeps name d (x.grows.keeps name d f);
      };
    }

module _ (fs : PseudoFs) (name : Name) (p : PseudoInode) where
  abbrev pub made : PseudoFs
  made = (create_inode fs name p).0

  abbrev pub fresh : PseudoInode
  fresh = new_node fs.next_inode p.ino name

  abbrev pub grown : PseudoInode
  grown = record p { children = p.children ++ (record { ino = fs.next_inode; name = name }) ∷ [] }

  pub get-create_inode :
      (j : ℕ)
      → get j (create_inode fs name p).0.inodes ≡ (
          if p.ino == j
          then some grown
          else if fs.next_inode == j
          then some fresh
          else get j fs.inodes)
  unfolding create_inode
  get-create_inode j = simp map_laws

  module _ (wf : IsWellFormed fs) (here : get p.ino fs.inodes ≡ some p)
      (new : find_child name p.children ≡ none) where
    keeps_child :
        (nm : Name) (c : ℕ)
        → find_child nm p.children ≡ some c
        → find_child nm grown.children ≡ some c
    keeps_child nm c f =
        ground
          (arith, find_child-append nm p.children (record { ino = fs.next_inode; name = name }))

    get-made_old :
        (i : ℕ) (m : PseudoInode)
        → get i fs.inodes ≡ some m
        → (p.ino ≡ i) ⊎ (get i made.inodes ≡ some m)
    get-made_old i m h = ground (arith, get-create_inode i, wf.below_next i m h)

    pub create_inode-Extends : Extends fs made
    create_inode-Extends i m h = elim (get-made_old i m h) [
      | inr old ↦ record { node = m; here = old; grows = Grows-refl m }
      | inl e ↦
          let same : m ≡ p = ground (arith, h, here) in
          record {
            node = grown;
            here = ground (arith, get-create_inode i);
            grows = record {
              ino = ground arith;
              parent = ground arith;
              name = ground arith;
              keeps = λ nm c f. keeps_child nm c (rw same at f);
            };
          }
    ]

    pub next-made : fs.next_inode + 1 < u64_mod → made.next_inode ≡ fs.next_inode + 1
    unfolding create_inode
    next-made room = omega arith

    -- What a node of the new table is.
    abbrev Cases : ℕ → PseudoInode → Type 0
    Cases i m =
        ((i ≡ p.ino) × (m ≡ grown))
        ⊎ ((i ≡ fs.next_inode) × (m ≡ fresh))
        ⊎ (get i fs.inodes ≡ some m)

    made-Cases : (i : ℕ) (m : PseudoInode) → get i made.inodes ≡ some m → Cases i m
    made-Cases i m h = ground (arith, get-create_inode i)

    old-IsChild : (i : ℕ) (nm : Name) (c : ℕ) → IsChild fs i nm c → IsChild made i nm c
    old-IsChild i nm c k =
        let l = create_inode-Extends c k.node k.here in
        record {
          node = l.node;
          here = l.here;
          parent = l.grows.parent ∙ k.parent;
          name_eq = l.grows.name ∙ k.name_eq;
        }

    pub get-made_fresh : get fs.next_inode made.inodes ≡ some fresh
    get-made_fresh = ground (arith, get-create_inode fs.next_inode, wf.below_next p.ino p here)

    pub find_child-made : find_child name grown.children ≡ some fs.next_inode
    find_child-made = ground (
      arith,
      find_child-append name p.children (record { ino = fs.next_inode; name = name }),
      bytes_eq_refl name,
    )

    pub get-made_parent : get p.ino made.inodes ≡ some grown
    get-made_parent = ground (arith, get-create_inode p.ino)

    grown-IsChild :
        (nm : Name) (c : ℕ) → find_child nm grown.children ≡ some c → IsChild made p.ino nm c
    grown-IsChild nm c f = elim (grown_cases nm c f) [
      | inl old ↦ old-IsChild p.ino nm c (wf.child_here p.ino p nm c here old)
      | inr (e, same) ↦ record {
        node = fresh;
        here = rw e get-made_fresh;
        parent = refl;
        name_eq = same;
      }
    ]
      where
        grown_cases :
            (nm : Name) (c : ℕ)
            → find_child nm grown.children ≡ some c
            → (find_child nm p.children ≡ some c) ⊎ ((c ≡ fs.next_inode) × (name ≡ nm))
        grown_cases nm c f = ground (
          arith,
          find_child-append nm p.children (record { ino = fs.next_inode; name = name }),
          bytes_eq_iff name nm,
        )

    IsChild-by-Cases :
        (i : ℕ) (m : PseudoInode) (nm : Name) (c : ℕ)
        → Cases i m
        → find_child nm m.children ≡ some c
        → IsChild made i nm c
    unfolding find_child
    IsChild-by-Cases i m nm c (inl (e, same)) f = rw e (grown-IsChild nm c (rw same at f))
    IsChild-by-Cases i m nm c (inr (inl (e, same))) f = absurd (ground arith)
    IsChild-by-Cases i m nm c (inr (inr old)) f = old-IsChild i nm c (wf.child_here i m nm c old f)

    Distinct-by-Cases : (i : ℕ) (m : PseudoInode) → Cases i m → Distinct m.children
    Distinct-by-Cases i m (inl (e, same)) = rw same (
        Distinct-append p.children (record { ino = fs.next_inode; name = name })
          (wf.distinct p.ino p here) new)
    Distinct-by-Cases i m (inr (inl (e, same))) = rw same tt
    Distinct-by-Cases i m (inr (inr old)) = wf.distinct i m old

    -- A new directory leaves the table well formed, while numbers last.
    pub create_inode-IsWellFormed : fs.next_inode + 1 < u64_mod → IsWellFormed made
    create_inode-IsWellFormed room = record {
      root = (create_inode-Extends root_id wf.root wf.root_here).node;
      root_here = (create_inode-Extends root_id wf.root wf.root_here).here;
      root_parent =
          (create_inode-Extends root_id wf.root wf.root_here).grows.parent ∙ wf.root_parent;
      nonzero =
          ground (
            arith,
            get-create_inode 0,
            wf.nonzero,
            wf.below_next root_id wf.root wf.root_here,
            here,
          );
      own_ino = λ i m h. ground (arith, made-Cases i m h, wf.own_ino i m);
      below_next = λ i m h.
          ground (
            arith,
            made-Cases i m h,
            wf.below_next i m,
            wf.below_next p.ino p here,
            next-made room,
          );
      child_here = λ i m nm c h f. IsChild-by-Cases i m nm c (made-Cases i m h) f;
      distinct = λ i m h. Distinct-by-Cases i m (made-Cases i m h);
    }
