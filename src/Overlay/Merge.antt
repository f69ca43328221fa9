-- ===== src/Overlay/Merge.antt =====
-- How the overlay file system puts the layers of a directory together: `new_from_real_inodes` and
-- `scan_childrens` of src/overlayfs/mod.rs.
use fuse_backend_rs.Prelude.{ℕ, Bool, not, ◌||◌, none, some, List, [], ◌∷◌, ◌++◌, if◌then◌else◌}
use fuse_backend_rs.Prelude.Outcome.{ok, err, ◌>>=◌}
use fuse_backend_rs.Prelude.Text.{codes}
use fuse_backend_rs.Fs.{Result, Name, Stat, einval, enoent, enotdir}
use fuse_backend_rs.Overlay.Layers.{
  LayerOps, RealInode, is_dir, stat_of, stat64_ignore_enoent, readdir,
}
use fuse_backend_rs.Overlay.NameMap.{push}

-- An OverlayInode as it is made: its children are not loaded, and it has no number.
pub record Node : Type 0 where
  pub real_inodes : List RealInode
  pub inode : ℕ
  pub path : List ℕ
  pub name : Name
  pub lookups : ℕ
  pub whiteout : Bool

abbrev pub new_from_real_inode : Name → ℕ → List ℕ → RealInode → Node
new_from_real_inode name ino path ri = record {
  real_inodes = ri ∷ [];
  inode = ino;
  path = path;
  name = name;
  lookups = 1;
  whiteout = ri.whiteout;
}

abbrev pub pushed : Node → RealInode → Node
pushed n ri = record n { real_inodes = n.real_inodes ++ ri ∷ [] }

-- One layer's entries, behind those of the layers above it.
unfoldable pub merge_entries :
    List (Name × RealInode) → List (Name × List RealInode) → List (Name × List RealInode)
merge_entries [] all = all
merge_entries ((name, ri) ∷ entries) all = merge_entries entries (push name ri all)

module _ (ops : LayerOps) where
  -- The rounds of the loop after the first one.
  unfoldable pub add_lowers : List RealInode → Node → Result Node
  add_lowers [] new = ok new
  add_lowers (ri ∷ rest) new = do
    st ← stat_of ops ri
    let further = add_lowers rest (pushed new ri)
    if ri.whiteout || not (is_dir st)
        then ok new
        else (if ri.opaque then ok (pushed new ri) else further)

  unfoldable pub new_from_real_inodes : Name → ℕ → List ℕ → List RealInode → Result Node
  new_from_real_inodes name ino path [] = err einval
  new_from_real_inodes name ino path (ri ∷ rest) = do
    st ← stat_of ops ri
    if ri.whiteout || (not (is_dir st) || ri.opaque)
        then ok (new_from_real_inode name ino path ri)
        else add_lowers rest (new_from_real_inode name ino path ri)

  -- `stat64` of an OverlayInode: that of the first layer that has it.
  unfoldable pub node_stat : List RealInode → Result Stat
  node_stat [] = err enoent
  node_stat (ri ∷ rest) = do
    found ← stat64_ignore_enoent ops ri
    elim found [ some st ↦ ok st | none ↦ node_stat rest ]

  unfoldable pub scan_layers :
      List RealInode → List (Name × List RealInode) → Result (List (Name × List RealInode))
  scan_layers [] all = ok all
  scan_layers (ri ∷ rest) all = if ri.whiteout then ok all else (do
    st ← stat_of ops ri
    if not (is_dir st) then ok all else (do
      entries ← readdir ops ri
      let further = scan_layers rest (merge_entries entries all)
      if ri.opaque then ok (merge_entries entries all) else further))

  unfoldable pub make_children : List ℕ → List (Name × List RealInode) → Result (List Node)
  make_children path [] = ok []
  make_children path ((name, reals) ∷ all) = do
    new ← new_from_real_inodes name 0 (path ++ codes "/" ++ name) reals
    rest ← make_children path all
    ok (new ∷ rest)

  unfoldable pub scan_childrens : Node → Result (List Node)
  scan_childrens n = do
    st ← node_stat n.real_inodes
    if not (is_dir st)
        then err enotdir
        else (do all ← scan_layers n.real_inodes []; make_children n.path all)
