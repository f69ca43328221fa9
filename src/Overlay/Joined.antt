-- ===== src/Overlay/Joined.antt =====
-- How `scan_childrens` of src/overlayfs/mod.rs joins the entries of one layer to those above it.
use fuse_backend_rs.Prelude.{
  ◌≡◌, refl, sym, ap, ◌∙◌, Bool-cases, inl, inr, none, some, List, [], ◌∷◌, ◌++◌, if◌then◌else◌,
  bytes_eq, bytes_eq_iff, bytes_eq_refl,
}
use fuse_backend_rs.Fs.{Name}
use fuse_backend_rs.Overlay.NameMap.{find, push, appended, one, appended-nil, find-push, Unique}
use fuse_backend_rs.Overlay.Layers.{LayerOps, RealInode}
use fuse_backend_rs.Overlay.Merge.{merge_entries}
use fuse_backend_rs.Overlay.Union.{Tree, Represents, Stack, Stack-append}

-- After a merge, each name has what it had, with the layer's own behind it.
pub find-merge_entries :
    (n : Name) (entries : List (Name × RealInode)) (all : List (Name × List RealInode))
    → Unique entries
    → find n (merge_entries entries all) ≡ appended (find n all) (one (find n entries))
unfolding merge_entries find
find-merge_entries n [] all unique = sym (appended-nil (find n all))
find-merge_entries n ((m, r) ∷ entries) all (fresh, unique) =
    let rest = find-merge_entries n entries (push m r all) unique in
    elim (Bool-cases (bytes_eq m n)) [
      | inl t ↦
          let gone : find n entries ≡ none =
            ap (λ x. find x entries) (sym ((bytes_eq_iff m n).0 t)) ∙ fresh in
          let at : find n (push m r all) ≡ appended (find n all) (r ∷ []) =
            find-push m n r all ∙ rw t refl in
          rest
          ∙ (λ i. appended (at i) (one (gone i)))
          ∙ appended-nil (appended (find n all) (r ∷ []))
          ∙ rw t refl
      | inr f ↦
          let at : find n (push m r all) ≡ find n all = find-push m n r all ∙ rw f refl in
          rest ∙ ap (λ o. appended o (one (find n entries))) at ∙ rw f refl
    ]

module _ (ops : LayerOps) where
  -- Real inodes of one file, one at least.
  abbrev pub Fit : List RealInode → Type 0
  Fit [] = ⊥
  Fit (r ∷ rs) = (ts : List Tree) × Stack ops ts (r ∷ rs)

  abbrev pub Ready : List (Name × List RealInode) → Type 0
  Ready [] = Unit
  Ready ((n, rs) ∷ all) = Fit rs × Ready all

  Fit-append :
      (rs : List RealInode) (r : RealInode) (t : Tree)
      → Fit rs
      → Represents ops t r
      → Fit (rs ++ r ∷ [])
  Fit-append [] r t fit is = absurd fit
  Fit-append (r' ∷ rs) r t (ts, stack) is =
      (ts ++ t ∷ [], Stack-append ops ts (r' ∷ rs) t r stack is)

  push-Ready :
      (n : Name) (r : RealInode) (t : Tree) (all : List (Name × List RealInode))
      → Ready all
      → Represents ops t r
      → Ready (push n r all)
  unfolding push
  push-Ready n r t [] ready is = ((t ∷ [], (is, tt)), tt)
  push-Ready n r t ((m, rs) ∷ all) (fit, ready) is = elim (Bool-cases (bytes_eq m n)) [
    | inl e ↦ rw e (Fit-append rs r t fit is, ready)
    | inr f ↦ rw f (fit, push-Ready n r t all ready is)
  ]

  abbrev pub Shown : (Name → Tree) → List (Name × RealInode) → Type 0
  Shown c [] = Unit
  Shown c ((n, r) ∷ entries) = Represents ops (c n) r × Shown c entries

  -- Each entry is found, where no name has two.
  pub Unique-Shown :
      (c : Name → Tree) (entries : List (Name × RealInode))
      → Unique entries
      → ((n : Name) (r : RealInode) → find n entries ≡ some r → Represents ops (c n) r)
      → Shown c entries
  unfolding find
  Unique-Shown c [] unique covers = tt
  Unique-Shown c ((n, r) ∷ entries) (fresh, unique) covers = (
    covers n r (rw (bytes_eq_refl n) refl),
    Unique-Shown c entries unique (λ m r' at. elim (Bool-cases (bytes_eq n m)) [
      | inl t ↦
          let clash : none ≡ some r' =
            sym fresh ∙ ap (λ x. find x entries) ((bytes_eq_iff n m).0 t) ∙ at in
          absurd (cc clash)
      | inr f ↦ covers m r' (ap (λ b. if b then some r else find m entries) f ∙ at)
    ]),
  )

  pub merge_entries-Ready :
      (c : Name → Tree) (entries : List (Name × RealInode)) (all : List (Name × List RealInode))
      → Shown c entries
      → Ready all
      → Ready (merge_entries entries all)
  unfolding merge_entries
  merge_entries-Ready c [] all shown ready = ready
  merge_entries-Ready c ((n, r) ∷ entries) all (is, shown) ready =
      merge_entries-Ready c entries (push n r all) shown (push-Ready n r (c n) all ready is)
