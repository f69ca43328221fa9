-- ===== src/Overlay/Answered.antt =====
-- What a layer answers to lookups and listings, through `lookup_child` and `readdir` of a RealInode
-- of src/overlayfs/mod.rs.
use fuse_backend_rs.Prelude.{
  ℕ, ◌≡◌, refl, sym, ap, ◌∙◌, Bool, true, false, Bool-cases, ◌⊎◌, inl, inr, Option-cases, none,
  some, ltb, ==_iff, ==_ne, ◌≢◌, ◌++◌, List, [], ◌∷◌, if◌then◌else◌,
}
use fuse_backend_rs.Prelude.Outcome.{ok, err, ◌>>=◌, ◌>>◌}
use fuse_backend_rs.Fs.{Result, Name, Entry, DirEntry, enoent, enametoolong, enosys, other}
use fuse_backend_rs.Overlay.Layers.{
  LayerOps, RealInode, Pages, failed, finished, page, has_zero, to_cstring, kind_of, real_child,
  child_of, page_names, is_dot_name, read_names, dir_handle, released, ignoring_missing,
  lookup_child_ignore_enoent, list_names, lookup_child,
}
use fuse_backend_rs.Overlay.Union.{behind, entries_of, OpensDir, Lists, Missing}

page_names-append :
    (ops : LayerOps) (ds es : List DirEntry)
    → page_names ops (ds ++ es) ≡ page_names ops ds ++ page_names ops es
unfolding page_names
page_names-append ops [] es = refl
page_names-append ops (d ∷ ds) es = elim (Bool-cases (is_dot_name (ops.lossy d.name))) [
  | inl t ↦ rw t (page_names-append ops ds es)
  | inr f ↦ rw f (ap (λ names. ops.lossy d.name ∷ names) (page_names-append ops ds es))
]

read_names-entries_of :
    (ops : LayerOps) (p : Pages) (ds : List DirEntry)
    → entries_of p ≡ some ds
    → read_names ops p ≡ ok (page_names ops ds)
unfolding read_names entries_of page_names
read_names-entries_of ops (failed e) ds at = absurd (cc at)
read_names-entries_of ops finished ds at =
    let same : [] ≡ ds = cc at in ap (λ es. ok (page_names ops es)) same
read_names-entries_of ops (page es last next) ds at =
    elim (Option-cases (entries_of (next last.offset))) [
      | inl e ↦
          let clash : none ≡ some ds = sym (ap (behind (es ++ last ∷ [])) e) ∙ at in
          absurd (cc clash)
      | inr (rest, e) ↦
          let same : some ((es ++ last ∷ []) ++ rest) ≡ some ds =
            sym (ap (behind (es ++ last ∷ [])) e) ∙ at in
          let whole : (es ++ last ∷ []) ++ rest ≡ ds = cc same in
          ap (λ m. m >>= (λ names. ok (page_names ops (es ++ last ∷ []) ++ names)))
            (read_names-entries_of ops (next last.offset) rest e)
          ∙ ap ok (sym (page_names-append ops (es ++ last ∷ []) rest) ∙ ap (page_names ops) whole)
    ]

-- The listing of a directory of a layer, through `list_names`.
pub list_names-Lists :
    (ops : LayerOps) (ri : RealInode) (ds : List DirEntry)
    → Lists ops ri ds
    → list_names ops ri ≡ ok (page_names ops ds)
unfolding list_names
list_names-Lists ops ri ds l =
    let opened : dir_handle (ops.opendir ri.layer ri.inode) ≡ ok l.handle =
      opened_at l.handle l.opened in
    let read = read_names-entries_of ops (ops.readdir ri.layer ri.inode l.handle 0) ds l.entries in
    ap
      (λ o. do
        handle ← o
        names ← read_names ops (ops.readdir ri.layer ri.inode handle 0)
        if ltb 0 handle then released (ops.releasedir ri.layer ri.inode handle) else ok tt
        ok names)
      opened
    ∙ ap
        (λ o. do
          names ← o
          if ltb 0 l.handle then released (ops.releasedir ri.layer ri.inode l.handle) else ok tt
          ok names)
        read
    ∙ ap (λ o. do o; ok (page_names ops ds)) (closed_at l.handle l.closed (ltb 0 l.handle))
  where
    closed_at :
        (handle : ℕ)
        → (ops.releasedir ri.layer ri.inode handle ≡ ok tt)
          ⊎ (ops.releasedir ri.layer ri.inode handle ≡ err enosys)
        → (b : Bool)
        → (if b then released (ops.releasedir ri.layer ri.inode handle) else ok tt) ≡ ok tt
    closed_at handle (inl e) true = ap released e
    closed_at handle (inr e) true = ap released e
    closed_at handle closed false = refl

    opened_at :
        (handle : ℕ)
        → OpensDir (ops.opendir ri.layer ri.inode) handle
        → dir_handle (ops.opendir ri.layer ri.inode) ≡ ok handle
    opened_at handle (inl e) = ap dir_handle e
    opened_at handle (inr (inl e, zero)) = ap dir_handle e ∙ ap ok (sym zero)
    opened_at handle (inr (inr e, zero)) = ap dir_handle e ∙ ap ok (sym zero)

-- What a layer answers to a lookup, through `lookup_child`.
looked :
    (ops : LayerOps) (ri : RealInode) (n : Name) (o : Result Entry)
    → ri.whiteout ≡ false
    → has_zero n ≡ false
    → ops.lookup ri.layer ri.inode n ≡ o
    → lookup_child ops ri n ≡ (ignoring_missing o >>= child_of ops ri)
unfolding lookup_child lookup_child_ignore_enoent to_cstring
looked ops ri n o shown clean at =
    ap (λ b. if b then ok none else (lookup_child_ignore_enoent ops ri n >>= child_of ops ri)) shown
    ∙ ap
        (λ b.
          ((if b then err other else ok n)
            >>= (λ cname. ignoring_missing (ops.lookup ri.layer ri.inode cname)))
          >>= child_of ops ri)
        clean
    ∙ ap (λ x. ignoring_missing x >>= child_of ops ri) at

pub looked-Missing :
    (ops : LayerOps) (ri : RealInode) (n : Name)
    → ri.whiteout ≡ false
    → has_zero n ≡ false
    → Missing (ops.lookup ri.layer ri.inode n)
    → lookup_child ops ri n ≡ ok none
looked-Missing ops ri n shown clean (inl e) = looked ops ri n (err enoent) shown clean e
looked-Missing ops ri n shown clean (inr (inl e)) = looked ops ri n (err enametoolong) shown clean e
looked-Missing ops ri n shown clean (inr (inr (v, e, zero))) =
    looked ops ri n (ok v) shown clean e
    ∙ ap (λ b. child_of ops ri (if b then none else some v)) ((==_iff v.inode 0).1 zero)

pub looked-found :
    (ops : LayerOps) (ri : RealInode) (n : Name) (v : Entry) (kind : Bool × Bool)
    → ri.whiteout ≡ false
    → has_zero n ≡ false
    → ops.lookup ri.layer ri.inode n ≡ ok v
    → v.inode ≢ 0
    → kind_of ops ri.layer v ≡ ok kind
    → lookup_child ops ri n ≡ ok (some (real_child ri v kind))
looked-found ops ri n v kind shown clean at there is =
    looked ops ri n (ok v) shown clean at
    ∙ ap (λ b. child_of ops ri (if b then none else some v)) (==_ne v.inode 0 there)
    ∙ ap (λ k. k >>= (λ kind. ok (some (real_child ri v kind)))) is
