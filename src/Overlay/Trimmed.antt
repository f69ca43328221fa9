-- ===== src/Overlay/Trimmed.antt =====
-- `new_from_real_inodes` of src/overlayfs/mod.rs keeps the real inodes that show in the overlay.
use fuse_backend_rs.Prelude.{
  ℕ, ◌≡◌, refl, sym, ap, ◌∙◌, Bool, true, false, not, ◌||◌, some, List, [], ◌∷◌, ◌++◌,
  if◌then◌else◌,
}
use fuse_backend_rs.Prelude.Outcome.{ok, ◌>>=◌}
use fuse_backend_rs.Fs.{Result, Name, Stat}
use fuse_backend_rs.Overlay.Layers.{LayerOps, RealInode, is_dir, stat_or, stat_of}
use fuse_backend_rs.Overlay.Merge.{
  Node, new_from_real_inode, pushed, add_lowers, new_from_real_inodes,
}
use fuse_backend_rs.Overlay.Union.{
  Tree, absent, hidden, leaf, dir, over, onto, merged, onto-append, Represents, Stack, Stack-append,
  is_hidden, dir-not_hidden,
}

-- What the loop comes to in a round, with what is found of the real inode.
abbrev round : Bool → Bool → Bool → Node → Node → Result Node → Result Node
round whiteout directory opaque new more further =
    if whiteout || not directory then ok new else (if opaque then ok more else further)

abbrev first_round : Bool → Bool → Bool → Node → Result Node → Result Node
first_round whiteout directory opaque new further =
    if whiteout || (not directory || opaque) then ok new else further

-- The trees are of directories that are not opaque, or of none that hide what is below.
record Opens (us : List Tree) : Type 0 where
  below_hidden : onto us hidden ≡ onto us absent
  below_leaf : (layer inode : ℕ) → onto us (leaf layer inode) ≡ onto us absent

Opens-append : (us : List Tree) (c : Name → Tree) → Opens (us ++ dir false c ∷ [])
unfolding onto over
Opens-append us c = record {
  below_hidden =
      onto-append us (dir false c ∷ []) hidden ∙ sym (onto-append us (dir false c ∷ []) absent);
  below_leaf = λ layer inode.
      onto-append us (dir false c ∷ []) (leaf layer inode)
      ∙ sym (onto-append us (dir false c ∷ []) absent);
}

-- A node that keeps the name and the whiteout of another, with real inodes that are those trees.
pub record Keeps (ops : LayerOps) (old new : Node) (t : Tree) : Type 0 where
  pub name : new.name ≡ old.name
  pub whiteout : new.whiteout ≡ old.whiteout
  pub trees : List Tree
  pub stack : Stack ops trees new.real_inodes
  pub shows : merged trees ≡ t

module _ (ops : LayerOps) where
  add_lowers-round :
      (ri : RealInode) (rest : List RealInode) (new : Node) (st : Stat) (w d o : Bool)
      → ri.stat ≡ some st
      → ri.whiteout ≡ w
      → is_dir st ≡ d
      → ri.opaque ≡ o
      → add_lowers ops (ri ∷ rest) new
        ≡ round w d o new (pushed new ri) (add_lowers ops rest (pushed new ri))
  unfolding add_lowers stat_of
  add_lowers-round ri rest new st w d o stat whiteout directory opaque =
      let further = add_lowers ops rest (pushed new ri) in
      ap
        (λ s.
          stat_or ops ri s
          >>= (λ st. round ri.whiteout (is_dir st) ri.opaque new (pushed new ri) further))
        stat
      ∙ (λ i. round (whiteout i) (directory i) (opaque i) new (pushed new ri) further)

  add_lowers-Keeps :
      (ts us : List Tree) (rs : List RealInode) (new : Node)
      → Stack ops us new.real_inodes
      → Opens us
      → Stack ops ts rs
      → (new' : Node) × (add_lowers ops rs new ≡ ok new') × Keeps ops new new' (onto us (merged ts))
  unfolding Represents add_lowers onto over
  add_lowers-Keeps [] us [] new kept opens stack =
      (new, refl, record { name = refl; whiteout = refl; trees = us; stack = kept; shows = refl })
  add_lowers-Keeps [] us (r ∷ rs) new kept opens stack = absurd stack
  add_lowers-Keeps (t ∷ ts) us [] new kept opens stack = absurd stack
  add_lowers-Keeps (absent ∷ ts) us (r ∷ rs) new kept opens (is, stack) = absurd is
  add_lowers-Keeps (hidden ∷ ts) us (r ∷ rs) new kept opens ((w, (st, stat, d)), stack) = (
    new,
    add_lowers-round r rs new st true false r.opaque stat w d refl,
    record {
      name = refl;
      whiteout = refl;
      trees = us;
      stack = kept;
      shows = sym opens.below_hidden;
    },
  )
  add_lowers-Keeps (leaf layer inode ∷ ts) us (r ∷ rs) new kept opens
        ((w, l, n, (st, stat, d)), stack) =
      (
        new,
        add_lowers-round r rs new st false false r.opaque stat w d refl,
        record {
          name = refl;
          whiteout = refl;
          trees = us;
          stack = kept;
          shows = sym (opens.below_leaf layer inode);
        },
      )
  add_lowers-Keeps (dir true c ∷ ts) us (r ∷ rs) new kept opens (is, stack) =
      let (w, o, (st, stat, d), shown) = is in
      (
        pushed new r,
        add_lowers-round r rs new st false true true stat w d o,
        record {
          name = refl;
          whiteout = refl;
          trees = us ++ dir true c ∷ [];
          stack = Stack-append ops us new.real_inodes (dir true c) r kept is;
          shows = onto-append us (dir true c ∷ []) absent;
        },
      )
  add_lowers-Keeps (dir false c ∷ ts) us (r ∷ rs) new kept opens (is, stack) =
      let (w, o, (st, stat, d), shown) = is in
      let (new', at, k) =
        add_lowers-Keeps ts (us ++ dir false c ∷ []) rs (pushed new r)
          (Stack-append ops us new.real_inodes (dir false c) r kept is) (Opens-append us c) stack in
      (
        new',
        add_lowers-round r rs new st false true false stat w d o ∙ at,
        record {
          name = k.name;
          whiteout = k.whiteout;
          trees = k.trees;
          stack = k.stack;
          shows = k.shows ∙ onto-append us (dir false c ∷ []) (merged ts);
        },
      )

  new_from_real_inodes-round :
      (name : Name) (ino : ℕ) (path : List ℕ) (ri : RealInode) (rest : List RealInode) (st : Stat)
      (w d o : Bool)
      → ri.stat ≡ some st
      → ri.whiteout ≡ w
      → is_dir st ≡ d
      → ri.opaque ≡ o
      → new_from_real_inodes ops name ino path (ri ∷ rest)
        ≡ first_round w d o
            (new_from_real_inode name ino path ri)
            (add_lowers ops rest (new_from_real_inode name ino path ri))
  unfolding new_from_real_inodes stat_of
  new_from_real_inodes-round name ino path ri rest st w d o stat whiteout directory opaque =
      let new = new_from_real_inode name ino path ri in
      let further = add_lowers ops rest new in
      ap
        (λ s.
          stat_or ops ri s >>= (λ st. first_round ri.whiteout (is_dir st) ri.opaque new further))
        stat
      ∙ (λ i. first_round (whiteout i) (directory i) (opaque i) new further)

  -- A node of the name that shows the tree, and is marked as a whiteout where it is hidden.
  pub record Made (new : Node) (name : Name) (t : Tree) : Type 0 where
    pub named : new.name ≡ name
    pub flag : new.whiteout ≡ is_hidden t
    pub trees : List Tree
    pub stack : Stack ops trees new.real_inodes
    pub shows : merged trees ≡ t

  pub new_from_real_inodes-Made :
      (name : Name) (ino : ℕ) (path : List ℕ) (ts : List Tree) (ri : RealInode)
      (rest : List RealInode)
      → Stack ops ts (ri ∷ rest)
      → (new : Node) × (new_from_real_inodes ops name ino path (ri ∷ rest) ≡ ok new)
        × Made new name (merged ts)
  unfolding Represents onto over
  new_from_real_inodes-Made name ino path [] ri rest stack = absurd stack
  new_from_real_inodes-Made name ino path (absent ∷ ts) ri rest (is, stack) = absurd is
  new_from_real_inodes-Made name ino path (hidden ∷ ts) ri rest (is, stack) =
      let (w, (st, stat, d)) = is in
      (
        new_from_real_inode name ino path ri,
        new_from_real_inodes-round name ino path ri rest st true false ri.opaque stat w d refl,
        record { named = refl; flag = w; trees = hidden ∷ []; stack = (is, tt); shows = refl },
      )
  new_from_real_inodes-Made name ino path (leaf layer inode ∷ ts) ri rest (is, stack) =
      let (w, l, n, (st, stat, d)) = is in
      (
        new_from_real_inode name ino path ri,
        new_from_real_inodes-round name ino path ri rest st false false ri.opaque stat w d refl,
        record {
          named = refl;
          flag = w;
          trees = leaf layer inode ∷ [];
          stack = (is, tt);
          shows = refl;
        },
      )
  new_from_real_inodes-Made name ino path (dir true c ∷ ts) ri rest (is, stack) =
      let (w, o, (st, stat, d), shown) = is in
      (
        new_from_real_inode name ino path ri,
        new_from_real_inodes-round name ino path ri rest st false true true stat w d o,
        record { named = refl; flag = w; trees = dir true c ∷ []; stack = (is, tt); shows = refl },
      )
  new_from_real_inodes-Made name ino path (dir false c ∷ ts) ri rest (is, stack) =
      let (w, o, (st, stat, d), shown) = is in
      let first = new_from_real_inode name ino path ri in
      let (new, at, k) =
        add_lowers-Keeps ts (dir false c ∷ []) rest first (is, tt) (Opens-append [] c) stack in
      (
        new,
        new_from_real_inodes-round name ino path ri rest st false true false stat w d o ∙ at,
        record {
          named = k.name;
          flag = k.whiteout ∙ w ∙ sym (dir-not_hidden c (merged ts));
          trees = k.trees;
          stack = k.stack;
          shows = k.shows;
        },
      )
