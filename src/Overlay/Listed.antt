-- ===== src/Overlay/Listed.antt =====
-- `readdir` of a RealInode of src/overlayfs/mod.rs gives the files that its directory shows.
use mathlib.Core.Path.{subst}
use fuse_backend_rs.Prelude.{
  ◌≡◌, refl, sym, ap, ◌∙◌, Bool, true, false, not, ◌||◌, Bool-cases, ◌⊎◌, inl, inr, Option, none,
  some, ◌≢◌, List, [], ◌∷◌, if◌then◌else◌, bytes_eq, bytes_eq_iff,
}
use fuse_backend_rs.Prelude.Outcome.{ok, err, ◌>>=◌}
use fuse_backend_rs.Fs.{Result, Name, Stat, Entry, enoent, enotdir}
use fuse_backend_rs.Overlay.NameMap.{find, put, find-put, Unique, put-Unique, listed}
use fuse_backend_rs.Overlay.Answered.{list_names-Lists, looked-Missing, looked-found}
use fuse_backend_rs.Overlay.Layers.{
  LayerOps, RealInode, has_zero, kind_of, real_child, page_names, is_dir, stat_or, stat_of,
  list_names, lookup_child, put_child, look_up_all, readdir,
}
use fuse_backend_rs.Overlay.Union.{Tree, absent, dir, Represents, Missing}

abbrev pub Found : LayerOps → Option RealInode → Tree → Type 0
Found ops none t = t ≡ absent
Found ops (some r) t = Represents ops t r

abbrev listing : LayerOps → RealInode → Result (List (Name × RealInode))
listing ops ri = list_names ops ri >>= (λ names. look_up_all ops ri names [])

readdir-listing :
    (ops : LayerOps) (ri : RealInode) (st : Stat)
    → ri.whiteout ≡ false
    → ri.stat ≡ some st
    → is_dir st ≡ true
    → readdir ops ri ≡ listing ops ri
unfolding readdir stat_of
readdir-listing ops ri st shown stat directory =
    ap
      (λ b. if b then err enoent else (do
        found ← stat_of ops ri
        if not (is_dir found) then err enotdir else listing ops ri))
      shown
    ∙ ap
        (λ o. do
          found ← stat_or ops ri o
          if not (is_dir found) then err enotdir else listing ops ri)
        stat
    ∙ ap (λ b. if not b then err enotdir else listing ops ri) directory

module _ (ops : LayerOps) (ri : RealInode) (c : Name → Tree) where
  abbrev Looked : Name → Type 0
  Looked n =
      ((lookup_child ops ri n ≡ ok none) × (c n ≡ absent))
      ⊎ ((r : RealInode) × (lookup_child ops ri n ≡ ok (some r)) × Represents ops (c n) r)

  -- The same, as the layer answers.
  abbrev pub Answers : Name → Type 0
  Answers n =
      (has_zero n ≡ false)
      × ((Missing (ops.lookup ri.layer ri.inode n) × (c n ≡ absent))
          ⊎ ((v : Entry) × (kind : Bool × Bool) × (ops.lookup ri.layer ri.inode n ≡ ok v)
              × (v.inode ≢ 0)
              × (kind_of ops ri.layer v ≡ ok kind)
              × Represents ops (c n) (real_child ri v kind)))

  -- What is known of a name while names are left to be looked up.
  abbrev Known : List (Name × RealInode) → List Name → Name → Type 0
  Known entries names n =
      Found ops (find n entries) (c n) ⊎ ((find n entries ≡ none) × (listed n names ≡ true))

  Known-absent :
      (entries : List (Name × RealInode)) (names : List Name) (name n : Name)
      → c name ≡ absent
      → Known entries (name ∷ names) n
      → Known entries names n
  Known-absent entries names name n e (inl found) = inl found
  Known-absent entries names name n e (inr (new, at)) = elim (Bool-cases (bytes_eq name n)) [
    | inl t ↦
        let same = (bytes_eq_iff name n).0 t in
        inl (subst (λ o. Found ops o (c n)) (sym new) (ap c (sym same) ∙ e))
    | inr f ↦ inr (new, sym (ap (λ b. b || listed n names) f) ∙ at)
  ]

  Known-other :
      (entries : List (Name × RealInode)) (names : List Name) (name n : Name)
      → bytes_eq name n ≡ false
      → Known entries (name ∷ names) n
      → Known entries names n
  Known-other entries names name n f (inl found) = inl found
  Known-other entries names name n f (inr (new, at)) =
      inr (new, sym (ap (λ b. b || listed n names) f) ∙ at)

  Known-found :
      (entries : List (Name × RealInode)) (names : List Name) (name n : Name) (r : RealInode)
      → Represents ops (c name) r
      → Known entries (name ∷ names) n
      → Known (put name r entries) names n
  Known-found entries names name n r is known = elim (Bool-cases (bytes_eq name n)) [
    | inl t ↦
        let at : find n (put name r entries) ≡ some r = find-put name n r entries ∙ rw t refl in
        inl (
          subst (λ o. Found ops o (c n)) (sym at)
            (subst (λ x. Represents ops (c x) r) ((bytes_eq_iff name n).0 t) is))
    | inr f ↦
        let at : find n (put name r entries) ≡ find n entries =
          find-put name n r entries ∙ rw f refl in
        subst (λ o. Found ops o (c n) ⊎ ((o ≡ none) × (listed n names ≡ true))) (sym at)
          (Known-other entries names name n f known)
  ]

  look_up_all-Known :
      (names : List Name) (entries : List (Name × RealInode))
      → Unique entries
      → ((n : Name) → listed n names ≡ true → Looked n)
      → ((n : Name) → Known entries names n)
      → (all : List (Name × RealInode)) × (look_up_all ops ri names entries ≡ ok all)
        × Unique all
        × ((n : Name) → Found ops (find n all) (c n))
  unfolding look_up_all
  look_up_all-Known [] entries unique answers known =
      (entries, refl, unique, λ n. settled n (known n))
    where
      settled : (n : Name) → Known entries [] n → Found ops (find n entries) (c n)
      settled n (inl found) = found
      settled n (inr (new, at)) = absurd (cc at)
  look_up_all-Known (name ∷ names) entries unique answers known =
      let own : listed name (name ∷ names) ≡ true =
        ap (λ b. b || listed name names) ((bytes_eq_iff name name).1 refl) in
      let later : (n : Name) → listed n names ≡ true → Looked n =
        λ n at. answers n (or_true (bytes_eq name n) (listed n names) at) in
      elim (answers name own) [
        | inl (e, gone) ↦
            let (all, at, rest, found) =
              look_up_all-Known names entries unique later
                (λ n. Known-absent entries names name n gone (known n)) in
            (
              all,
              ap (λ m. m >>= (λ child. look_up_all ops ri names (put_child name child entries))) e
                  ∙ at,
              rest,
              found,
            )
        | inr (r, e, is) ↦
            let (all, at, rest, found) =
              look_up_all-Known names (put name r entries) (put-Unique name r entries unique) later
                (λ n. Known-found entries names name n r is (known n)) in
            (
              all,
              ap (λ m. m >>= (λ child. look_up_all ops ri names (put_child name child entries))) e
                  ∙ at,
              rest,
              found,
            )
      ]
    where
      or_true : (a b : Bool) → b ≡ true → (a || b) ≡ true
      or_true true b e = refl
      or_true false b e = e

  answered : (n : Name) → ri.whiteout ≡ false → Answers n → Looked n
  answered n shown (clean, inl (missing, gone)) =
      inl (looked-Missing ops ri n shown clean missing, gone)
  answered n shown (clean, inr (v, kind, at, there, is, below)) =
      inr (real_child ri v kind, looked-found ops ri n v kind shown clean at there is, below)

  -- The listing of a directory without a whiteout.
  pub readdir-Found :
      (opaque : Bool)
      → Represents ops (dir opaque c) ri
      → (all : List (Name × RealInode)) × (readdir ops ri ≡ ok all)
        × Unique all
        × ((n : Name) → Found ops (find n all) (c n))
  unfolding Represents find
  readdir-Found opaque (shown, opaque_too, (st, stat, directory), (ds, lists, unlisted, answers)) =
      let names = page_names ops ds in
      let (all, at, rest, found) =
        look_up_all-Known names [] tt (λ n t. answered n shown (answers n t))
          (λ n. elim (Bool-cases (listed n names)) [
            | inl t ↦ inr (refl, t)
            | inr f ↦ inl (unlisted n f)
          ]) in
      (
        all,
        readdir-listing ops ri st shown stat directory
            ∙ ap (λ m. m >>= (λ names. look_up_all ops ri names []))
                (list_names-Lists ops ri ds lists)
            ∙ at,
        rest,
        found,
      )
