-- ===== src/Overlay/Union.antt =====
-- What an overlay of file trees is, and when a layer of src/overlayfs/mod.rs shows a tree.
use fuse_backend_rs.Prelude.{
  ℕ, ◌≡◌, ◌≢◌, refl, sym, ap, Bool, true, false, Option, none, some, List, [], ◌∷◌, ◌++◌, ◌⊎◌,
}
use fuse_backend_rs.Prelude.Outcome.{ok, err}
use fuse_backend_rs.Fs.{Result, Name, Stat, Entry, DirEntry, enoent, enametoolong, enosys}
use fuse_backend_rs.Overlay.NameMap.{listed}
use fuse_backend_rs.Overlay.Layers.{
  LayerOps, RealInode, Pages, failed, finished, page, is_dir, has_zero, kind_of, real_child,
  page_names,
}

-- A file or directory of one layer, or of an overlay: a whiteout is `hidden`, a leaf is given by
-- its layer and its inode, and a directory says whether it is opaque.
pub data Tree : Type 0 where
  absent : Tree
  hidden : Tree
  leaf : ℕ → ℕ → Tree
  dir : Bool → (Name → Tree) → Tree

-- The upper tree over the lower one. Directories are joined name by name, unless the upper one is
-- opaque; all else hides what is below it.
unfoldable pub over : Tree → Tree → Tree
over absent lower = lower
over hidden lower = hidden
over (leaf layer inode) lower = leaf layer inode
over (dir true c) lower = dir true c
over (dir false c) absent = dir false c
over (dir false c) hidden = dir false c
over (dir false c) (leaf layer inode) = dir false c
over (dir false c) (dir opaque d) = dir opaque (λ n. over (c n) (d n))

-- Trees over one more, from the upper one down.
unfoldable pub onto : List Tree → Tree → Tree
onto [] lower = lower
onto (t ∷ ts) lower = over t (onto ts lower)

abbrev pub merged : List Tree → Tree
merged ts = onto ts absent

abbrev pub child : Tree → Name → Tree
child absent n = absent
child hidden n = absent
child (leaf layer inode) n = absent
child (dir opaque c) n = c n

pub over-absent : (t : Tree) → over t absent ≡ t
unfolding over
over-absent absent = refl
over-absent hidden = refl
over-absent (leaf layer inode) = refl
over-absent (dir true c) = refl
over-absent (dir false c) = refl

pub child-over :
    (c : Name → Tree) (lower : Tree) (n : Name)
    → child (over (dir false c) lower) n ≡ over (c n) (child lower n)
unfolding over
child-over c absent n = sym (over-absent (c n))
child-over c hidden n = sym (over-absent (c n))
child-over c (leaf layer inode) n = sym (over-absent (c n))
child-over c (dir opaque d) n = refl

pub onto-append :
    (ts us : List Tree) (lower : Tree) → onto (ts ++ us) lower ≡ onto ts (onto us lower)
unfolding onto
onto-append [] us lower = refl
onto-append (t ∷ ts) us lower = ap (over t) (onto-append ts us lower)

abbrev pub is_hidden : Tree → Bool
is_hidden absent = false
is_hidden hidden = true
is_hidden (leaf layer inode) = false
is_hidden (dir opaque c) = false

pub dir-not_hidden : (c : Name → Tree) (lower : Tree) → is_hidden (over (dir false c) lower) ≡ false
unfolding over
dir-not_hidden c absent = refl
dir-not_hidden c hidden = refl
dir-not_hidden c (leaf layer inode) = refl
dir-not_hidden c (dir opaque d) = refl

abbrev pub HasStat : RealInode → Bool → Type 0
HasStat ri directory = (st : Stat) × (ri.stat ≡ some st) × (is_dir st ≡ directory)

abbrev pub behind : List DirEntry → Option (List DirEntry) → Option (List DirEntry)
behind ds none = none
behind ds (some rest) = some (ds ++ rest)

-- All entries that the calls of readdir add, unless one of them fails.
unfoldable pub entries_of : Pages → Option (List DirEntry)
entries_of (failed e) = none
entries_of finished = some []
entries_of (page ds last next) = behind (ds ++ last ∷ []) (entries_of (next last.offset))

-- `opendir` gives the handle, or is missing, and then it is 0.
abbrev pub OpensDir : Result (Option ℕ) → ℕ → Type 0
OpensDir o handle = (o ≡ ok (some handle)) ⊎ (((o ≡ ok none) ⊎ (o ≡ err enosys)) × (handle ≡ 0))

-- The layer can open the directory, list those entries and release it.
pub record Lists (ops : LayerOps) (ri : RealInode) (ds : List DirEntry) : Type 0 where
  pub handle : ℕ
  pub opened : OpensDir (ops.opendir ri.layer ri.inode) handle
  pub entries : entries_of (ops.readdir ri.layer ri.inode handle 0) ≡ some ds
  pub closed :
      (ops.releasedir ri.layer ri.inode handle ≡ ok tt)
      ⊎ (ops.releasedir ri.layer ri.inode handle ≡ err enosys)

-- The answer to a lookup that finds no file.
abbrev pub Missing : Result Entry → Type 0
Missing o = (o ≡ err enoent) ⊎ ((o ≡ err enametoolong) ⊎ ((v : Entry) × (o ≡ ok v) × (v.inode ≡ 0)))

-- The real inode is that file or directory of its layer: everything below a directory is listed,
-- and a name that is listed is missing, or is found with its attributes and is a file in turn.
unfoldable pub Represents : LayerOps → Tree → RealInode → Type 0
Represents ops absent ri = ⊥
Represents ops hidden ri = (ri.whiteout ≡ true) × HasStat ri false
Represents ops (leaf layer inode) ri =
    (ri.whiteout ≡ false) × (ri.layer ≡ layer) × (ri.inode ≡ inode) × HasStat ri false
Represents ops (dir opaque c) ri =
    (ri.whiteout ≡ false)
    × (ri.opaque ≡ opaque)
    × HasStat ri true
    × ((ds : List DirEntry) × Lists ops ri ds
        × ((n : Name) → listed n (page_names ops ds) ≡ false → c n ≡ absent)
        × ((n : Name)
            → listed n (page_names ops ds) ≡ true
            → (has_zero n ≡ false)
              × ((Missing (ops.lookup ri.layer ri.inode n) × (c n ≡ absent))
                  ⊎ ((v : Entry) × (kind : Bool × Bool) × (ops.lookup ri.layer ri.inode n ≡ ok v)
                      × (v.inode ≢ 0)
                      × (kind_of ops ri.layer v ≡ ok kind)
                      × Represents ops (c n) (real_child ri v kind)))))

-- The real inodes of an inode of the overlay, from the upper layer down, are those trees.
abbrev pub Stack : LayerOps → List Tree → List RealInode → Type 0
Stack ops [] [] = Unit
Stack ops [] (ri ∷ rest) = ⊥
Stack ops (t ∷ ts) [] = ⊥
Stack ops (t ∷ ts) (ri ∷ rest) = Represents ops t ri × Stack ops ts rest

pub Stack-append :
    (ops : LayerOps) (ts : List Tree) (rs : List RealInode) (t : Tree) (r : RealInode)
    → Stack ops ts rs
    → Represents ops t r
    → Stack ops (ts ++ t ∷ []) (rs ++ r ∷ [])
Stack-append ops [] [] t r stack is = (is, tt)
Stack-append ops [] (r' ∷ rs) t r stack is = absurd stack
Stack-append ops (t' ∷ ts) [] t r stack is = absurd stack
Stack-append ops (t' ∷ ts) (r' ∷ rs) t r (is', stack) is =
    (is', Stack-append ops ts rs t r stack is)
