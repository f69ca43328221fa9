-- ===== src/Overlay/Gathered.antt =====
-- `scan_childrens` of src/overlayfs/mod.rs gathers, for each name, the real inodes of its file from
-- the layers that show it.
use mathlib.Core.Path.{subst}
use fuse_backend_rs.Prelude.{
  ◌≡◌, refl, sym, ap, ◌∙◌, Bool, true, false, not, inl, inr, Option-cases, some, List, [], ◌∷◌,
  if◌then◌else◌,
}
use fuse_backend_rs.Prelude.Outcome.{ok, ◌>>=◌}
use fuse_backend_rs.Fs.{Result, Name, Stat}
use fuse_backend_rs.Overlay.NameMap.{find, appended, one, appended-nil, appended-append, Unique}
use fuse_backend_rs.Overlay.Layers.{LayerOps, RealInode, is_dir, stat_or, stat_of, readdir}
use fuse_backend_rs.Overlay.Joined.{Ready, find-merge_entries, Unique-Shown, merge_entries-Ready}
use fuse_backend_rs.Overlay.Listed.{Found, readdir-Found}
use fuse_backend_rs.Overlay.Merge.{merge_entries, scan_layers}
use fuse_backend_rs.Overlay.Union.{
  Tree, absent, hidden, leaf, dir, over, onto, merged, child, child-over, over-absent, Represents,
  Stack,
}

module _ (ops : LayerOps) where
  -- What a name has after the scan: the real inodes of a stack of trees, behind those it had.
  unfoldable pub Scanned :
      List (Name × List RealInode) → List (Name × List RealInode) → Tree → Name → Type 0
  Scanned all all' t n =
      (us : List Tree) × (rs : List RealInode) × Stack ops us rs
      × (find n all' ≡ appended (find n all) rs)
      × (merged us ≡ t)

  nothing : (all : List (Name × List RealInode)) (n : Name) → Scanned all all absent n
  unfolding Scanned onto
  nothing all n = ([], [], tt, sym (appended-nil (find n all)), refl)

  abbrev joined :
      RealInode
      → List RealInode
      → List (Name × List RealInode)
      → List (Name × RealInode)
      → Result (List (Name × List RealInode))
  joined ri rest all entries =
      if ri.opaque
      then ok (merge_entries entries all)
      else scan_layers ops rest (merge_entries entries all)

  -- A round on a real inode that is no whiteout.
  scan_shown :
      (ri : RealInode) (rest : List RealInode) (all : List (Name × List RealInode)) (st : Stat)
      (d : Bool)
      → ri.whiteout ≡ false
      → ri.stat ≡ some st
      → is_dir st ≡ d
      → scan_layers ops (ri ∷ rest) all
        ≡ (if not d then ok all else (readdir ops ri >>= joined ri rest all))
  unfolding scan_layers stat_of
  scan_shown ri rest all st d shown stat directory =
      ap
        (λ b. if b then ok all else (do
          st ← stat_of ops ri
          if not (is_dir st) then ok all else (readdir ops ri >>= joined ri rest all)))
        shown
      ∙ ap
          (λ o. do
            st ← stat_or ops ri o
            if not (is_dir st) then ok all else (readdir ops ri >>= joined ri rest all))
          stat
      ∙ ap (λ b. if not b then ok all else (readdir ops ri >>= joined ri rest all)) directory

  scan_nil : (all : List (Name × List RealInode)) → scan_layers ops [] all ≡ ok all
  unfolding scan_layers
  scan_nil all = refl

  found_entry :
      (c : Name → Tree) (entries : List (Name × RealInode))
      → ((n : Name) → Found ops (find n entries) (c n))
      → (n : Name) (r : RealInode) → find n entries ≡ some r
      → Represents ops (c n) r
  found_entry c entries found n r e = subst (λ o. Found ops o (c n)) e (found n)

  scan_hidden :
      (ri : RealInode) (rest : List RealInode) (all : List (Name × List RealInode))
      → ri.whiteout ≡ true
      → scan_layers ops (ri ∷ rest) all ≡ ok all
  unfolding scan_layers
  scan_hidden ri rest all w = rw w refl

  -- One layer's part of a name, and what the layers below make of it.
  layer_first :
      (all all' : List (Name × List RealInode)) (entries : List (Name × RealInode)) (n : Name)
      (t lower : Tree)
      → Unique entries
      → Found ops (find n entries) t
      → Scanned (merge_entries entries all) all' lower n
      → Scanned all all' (over t lower) n
  unfolding Scanned onto over
  layer_first all all' entries n t lower unique found (us, rs, stack, at, shows) =
      let merge = find-merge_entries n entries all unique in
      elim (Option-cases (find n entries)) [
        | inl e ↦
            let gone : t ≡ absent = subst (λ o. Found ops o t) e found in
            (
              us,
              rs,
              stack,
              at
                  ∙ ap (λ o. appended o rs)
                      (merge
                        ∙ ap (λ o. appended (find n all) (one o)) e
                        ∙ appended-nil (find n all)),
              shows ∙ ap (λ x. over x lower) (sym gone),
            )
        | inr (r, e) ↦ (
          t ∷ us,
          r ∷ rs,
          (subst (λ o. Found ops o t) e found, stack),
          at
              ∙ ap (λ o. appended o rs) (merge ∙ ap (λ o. appended (find n all) (one o)) e)
              ∙ appended-append (find n all) (r ∷ []) rs,
          ap (over t) shows,
        )
      ]

  pub scan_layers-Scanned :
      (ts : List Tree) (reals : List RealInode) (all : List (Name × List RealInode))
      → Stack ops ts reals
      → Ready ops all
      → (all' : List (Name × List RealInode)) × (scan_layers ops reals all ≡ ok all')
        × Ready ops all'
        × ((n : Name) → Scanned all all' (child (merged ts) n) n)
  unfolding Represents onto over
  scan_layers-Scanned [] [] all stack ready = (all, scan_nil all, ready, λ n. nothing all n)
  scan_layers-Scanned [] (r ∷ reals) all stack ready = absurd stack
  scan_layers-Scanned (t ∷ ts) [] all stack ready = absurd stack
  scan_layers-Scanned (absent ∷ ts) (r ∷ reals) all (is, stack) ready = absurd is
  scan_layers-Scanned (hidden ∷ ts) (r ∷ reals) all (is, stack) ready =
      (all, scan_hidden r reals all is.0, ready, λ n. nothing all n)
  scan_layers-Scanned (leaf layer inode ∷ ts) (r ∷ reals) all (is, stack) ready =
      let (w, l, i, (st, stat, d)) = is in
      (all, scan_shown r reals all st false w stat d, ready, λ n. nothing all n)
  scan_layers-Scanned (dir true c ∷ ts) (r ∷ reals) all (is, stack) ready =
      let (w, o, (st, stat, d), shown) = is in
      let (entries, at, unique, found) = readdir-Found ops r c true is in
      (
        merge_entries entries all,
        scan_shown r reals all st true w stat d
            ∙ ap (λ m. m >>= joined r reals all) at
            ∙ ap
                (λ b.
                  if b
                  then ok (merge_entries entries all)
                  else scan_layers ops reals (merge_entries entries all))
                o,
        merge_entries-Ready ops c entries all
            (Unique-Shown ops c entries unique (found_entry c entries found)) ready,
        λ n.
            subst (λ t. Scanned all (merge_entries entries all) t n) (over-absent (c n))
              (layer_first all (merge_entries entries all) entries n (c n) absent unique (found n)
                (nothing (merge_entries entries all) n)),
      )
  scan_layers-Scanned (dir false c ∷ ts) (r ∷ reals) all (is, stack) ready =
      let (w, o, (st, stat, d), shown) = is in
      let (entries, at, unique, found) = readdir-Found ops r c false is in
      let (all', at', ready', scanned) =
        scan_layers-Scanned ts reals (merge_entries entries all) stack (
          merge_entries-Ready ops c entries all
            (Unique-Shown ops c entries unique (found_entry c entries found)) ready) in
      (
        all',
        scan_shown r reals all st true w stat d
            ∙ ap (λ m. m >>= joined r reals all) at
            ∙ ap
                (λ b.
                  if b
                  then ok (merge_entries entries all)
                  else scan_layers ops reals (merge_entries entries all))
                o
            ∙ at',
        ready',
        λ n.
            subst (λ t. Scanned all all' t n) (sym (child-over c (merged ts) n))
              (layer_first all all' entries n (c n) (child (merged ts) n) unique (found n)
                (scanned n)),
      )
