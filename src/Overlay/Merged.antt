-- ===== src/Overlay/Merged.antt =====
-- `scan_childrens` of src/overlayfs/mod.rs gives the files of the overlay of the directory's layers.
use mathlib.Core.Path.{subst}
use fuse_backend_rs.Prelude.{
  ℕ, ◌≡◌, ◌≢◌, refl, sym, ap, ◌∙◌, true, not, Bool-cases, inl, inr, Option, none, some, List, [],
  ◌∷◌, ◌++◌, ==_ne, if◌then◌else◌, bytes_eq, bytes_eq_iff,
}
use fuse_backend_rs.Prelude.Outcome.{ok, err, ◌>>=◌}
use fuse_backend_rs.Prelude.Text.{codes}
use fuse_backend_rs.Fs.{Name, Stat, enoent, enotdir}
use fuse_backend_rs.Overlay.NameMap.{find, appended}
use fuse_backend_rs.Overlay.Layers.{
  LayerOps, RealInode, is_dir, stat64, stat64_ignore_enoent, ignoring_numbers,
}
use fuse_backend_rs.Overlay.Merge.{
  Node, new_from_real_inodes, node_stat, scan_layers, make_children, scan_childrens,
}
use fuse_backend_rs.Overlay.Joined.{Ready}
use fuse_backend_rs.Overlay.Gathered.{Scanned, scan_layers-Scanned}
use fuse_backend_rs.Overlay.Trimmed.{Made, new_from_real_inodes-Made}
use fuse_backend_rs.Overlay.Union.{Tree, absent, onto, merged, child, Stack}

-- The child of that name.
unfoldable pub child_named : Name → List Node → Option Node
child_named n [] = none
child_named n (c ∷ children) = if bytes_eq c.name n then some c else child_named n children

module _ (ops : LayerOps) where
  -- A child stands for what is gathered for its name.
  abbrev Stands : Option (List RealInode) → Option Node → Name → Type 0
  Stands none none n = Unit
  Stands none (some c) n = ⊥
  Stands (some rs) none n = ⊥
  Stands (some rs) (some c) n = (path : List ℕ) × (new_from_real_inodes ops n 0 path rs ≡ ok c)

  make_children-Stands :
      (path : List ℕ) (all : List (Name × List RealInode))
      → Ready ops all
      → (children : List Node) × (make_children ops path all ≡ ok children)
        × ((n : Name) → Stands (find n all) (child_named n children) n)
  unfolding make_children find child_named
  make_children-Stands path [] ready = ([], refl, λ n. tt)
  make_children-Stands path ((m, []) ∷ all) (fit, ready) = absurd fit
  make_children-Stands path ((m, r ∷ rs) ∷ all) ((ts, stack), ready) =
      let own = path ++ codes "/" ++ m in
      let (new, at, made) = new_from_real_inodes-Made ops m 0 own ts r rs stack in
      let (children, at', stands) = make_children-Stands path all ready in
      (
        new ∷ children,
        ap (λ x. do c ← x; rest ← make_children ops path all; ok (c ∷ rest)) at
            ∙ ap (λ x. do rest ← x; ok (new ∷ rest)) at',
        λ n. elim (Bool-cases (bytes_eq m n)) [
          | inl t ↦
              let same = (bytes_eq_iff m n).0 t in
              let named = ap (λ x. bytes_eq x n) made.named ∙ t in
              rw (t, named)
                (own, ap (λ x. new_from_real_inodes ops x 0 own (r ∷ rs)) (sym same) ∙ at)
          | inr f ↦ let named = ap (λ x. bytes_eq x n) made.named ∙ f in rw (f, named) (stands n)
        ],
      )

  -- A child that is that tree, or none where there is no file.
  abbrev pub IsChild : Option Node → Name → Tree → Type 0
  IsChild none n t = t ≡ absent
  IsChild (some c) n t = Made ops c n t

  Stands-IsChild :
      (o : Option (List RealInode)) (c : Option Node) (n : Name) (us : List Tree)
      (rs : List RealInode) (t : Tree)
      → o ≡ appended none rs
      → Stack ops us rs
      → merged us ≡ t
      → Stands o c n
      → IsChild c n t
  unfolding onto
  Stands-IsChild none none n [] [] t e stack shows stands = sym shows
  Stands-IsChild none none n (u ∷ us) [] t e stack shows stands = absurd stack
  Stands-IsChild none none n us (r ∷ rs) t e stack shows stands = absurd (cc e)
  Stands-IsChild none (some c) n us rs t e stack shows stands = absurd stands
  Stands-IsChild (some rs') none n us rs t e stack shows stands = absurd stands
  Stands-IsChild (some rs') (some c) n us [] t e stack shows stands = absurd (cc e)
  Stands-IsChild (some rs') (some c) n us (r ∷ rs) t e stack shows (path, at) =
      let (new, at', made) = new_from_real_inodes-Made ops n 0 path us r rs stack in
      let same : rs' ≡ r ∷ rs = cc e in
      let both : ok new ≡ ok c = sym at' ∙ ap (new_from_real_inodes ops n 0 path) (sym same) ∙ at in
      subst (λ x. Made ops x n t) (cc both) (subst (Made ops new n) shows made)

  node_stat-first :
      (r : RealInode) (rest : List RealInode) (st : Stat)
      → r.inode ≢ 0
      → ops.getattr r.layer r.inode ≡ ok st
      → node_stat ops (r ∷ rest) ≡ ok st
  unfolding node_stat stat64_ignore_enoent stat64
  node_stat-first r rest st there at =
      ap
        (λ b.
          ignoring_numbers (if b then err enoent else ops.getattr r.layer r.inode)
          >>= (λ found. elim found [ some st ↦ ok st | none ↦ node_stat ops rest ]))
        (==_ne r.inode 0 there)
      ∙ ap
          (λ o.
            ignoring_numbers o
            >>= (λ found. elim found [ some st ↦ ok st | none ↦ node_stat ops rest ]))
          at

  -- Where the real inodes of a directory, from the upper layer down, show trees, and the first
  -- of them has attributes and is a directory, the scan of its children succeeds, and for each
  -- name it gives the file that the overlay of the trees has there, and none where it has none:
  -- its real inodes show it, and it is marked as a whiteout where an upper layer hides it.
  pub scan_childrens-Merges :
      (node : Node) (r : RealInode) (rest : List RealInode) (ts : List Tree) (st : Stat)
      → node.real_inodes ≡ r ∷ rest
      → Stack ops ts (r ∷ rest)
      → r.inode ≢ 0
      → ops.getattr r.layer r.inode ≡ ok st
      → is_dir st ≡ true
      → (children : List Node) × (scan_childrens ops node ≡ ok children)
        × ((n : Name) → IsChild (child_named n children) n (child (merged ts) n))
  unfolding scan_childrens Scanned find
  scan_childrens-Merges node r rest ts st reals stack there at directory =
      let (all, scanned_at, ready, scanned) = scan_layers-Scanned ops ts (r ∷ rest) [] stack tt in
      let (children, made_at, stands) = make_children-Stands node.path all ready in
      (
        children,
        ap
              (λ rs. do
                st ← node_stat ops rs
                if not (is_dir st)
                    then err enotdir
                    else (do all ← scan_layers ops rs []; make_children ops node.path all))
              reals
            ∙ ap
                (λ o. do
                  st ← o
                  if not (is_dir st) then err enotdir else (do
                    all ← scan_layers ops (r ∷ rest) []
                    make_children ops node.path all))
                (node_stat-first r rest st there at)
            ∙ ap
                (λ b.
                  if not b
                  then err enotdir
                  else (do all ← scan_layers ops (r ∷ rest) []; make_children ops node.path all))
                directory
            ∙ ap (λ o. o >>= make_children ops node.path) scanned_at
            ∙ made_at,
        λ n.
            let (us, rs, shown, found, shows) = scanned n in
            Stands-IsChild (find n all) (child_named n children) n us rs (child (merged ts) n) found
              shown shows (stands n),
      )
