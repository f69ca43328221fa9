-- ===== src/Overlay/Tests/Layered.antt =====
-- A directory of two layers: the upper one hides the file `a` of the lower one, which has `b` too.
use mathlib.Core.Path.{subst}
use fuse_backend_rs.Prelude.{
  ℕ, ◌≡◌, refl, sym, ap, ◌∙◌, true, false, Bool-cases, inl, inr, some, List, [], ◌∷◌, ◌==◌,
  if◌then◌else◌, bytes_eq, bytes_eq_iff, arith, ◌||◌, ◌/◌, ◌%◌,
}
use fuse_backend_rs.Prelude.Outcome.{ok, err}
use fuse_backend_rs.Prelude.Text.{codes}
use fuse_backend_rs.Fs.{Name, Stat, Entry, DirEntry, enoent, enosys, enodata}
use fuse_backend_rs.Overlay.NameMap.{listed}
use fuse_backend_rs.Overlay.Layers.{
  LayerOps, RealInode, finished, page, is_dir, is_chardev, has_zero, kind_of, is_whiteout,
  stat_is_whiteout, page_names,
}
use fuse_backend_rs.Overlay.Listed.{Answers}
use fuse_backend_rs.Overlay.Merge.{Node, scan_childrens}
use fuse_backend_rs.Overlay.Merged.{child_named, IsChild, scan_childrens-Merges}
use fuse_backend_rs.Overlay.Union.{
  Tree, absent, hidden, leaf, dir, merged, child, Represents, entries_of,
}

abbrev with_mode : ℕ → Stat
with_mode mode = record {
  st_ino = 0;
  st_size = 0;
  st_blocks = 0;
  st_atime = 0;
  st_mtime = 0;
  st_ctime = 0;
  st_mode = mode;
  st_nlink = 1;
  st_uid = 0;
  st_gid = 0;
  st_rdev = 0;
  st_blksize = 512;
}

-- Inode 1 is the directory; 2 is a whiteout in layer 0, and a file in layer 1.
abbrev stat_at : ℕ → ℕ → Stat
stat_at layer inode =
    with_mode (if inode == 1 then 0o40755 else (if layer == 0 then 0o20777 else 0o100644))

abbrev entry_at : ℕ → ℕ → Entry
entry_at layer inode = record {
  inode = inode;
  generation = 0;
  attr = stat_at layer inode;
  attr_flags = 0;
  attr_timeout = 1;
  entry_timeout = 1;
}

abbrev dir_entry : ℕ → Name → DirEntry
dir_entry offset name = record { ino = 0; offset = offset; type_ = 0; name = name }

abbrev name_a : Name
name_a = codes "a"

abbrev name_b : Name
name_b = codes "b"

abbrev two_layers : LayerOps
two_layers = record {
  lookup = λ layer inode n.
      if bytes_eq name_a n
      then ok (entry_at layer 2)
      else (if bytes_eq name_b n then ok (entry_at layer 3) else err enoent);
  getattr = λ layer inode. ok (stat_at layer inode);
  getxattr = λ layer inode name len. err enodata;
  opendir = λ layer inode. err enosys;
  readdir = λ layer inode handle offset.
      if layer == 0
      then page [] (dir_entry 1 name_a) (λ o. finished)
      else page (dir_entry 1 name_a ∷ []) (dir_entry 2 name_b) (λ o. finished);
  releasedir = λ layer inode handle. ok tt;
  major = λ dev. dev / 256;
  minor = λ dev. dev % 256;
  lossy = λ n. n;
}

abbrev upper_child : Name → Tree
upper_child n = if bytes_eq name_a n then hidden else absent

abbrev lower_child : Name → Tree
lower_child n =
    if bytes_eq name_a n then leaf 1 2 else (if bytes_eq name_b n then leaf 1 3 else absent)

abbrev root_of : ℕ → RealInode
root_of layer = record {
  layer = layer;
  in_upper_layer = layer == 0;
  inode = 1;
  whiteout = false;
  opaque = false;
  stat = some (stat_at layer 1);
}

-- An answer for one name is one for every name that is equal to it.
same_answer :
    (ri : RealInode) (c : Name → Tree) (m n : Name)
    → bytes_eq m n ≡ true
    → Answers two_layers ri c m
    → Answers two_layers ri c n
same_answer ri c m n t answers = subst (Answers two_layers ri c) ((bytes_eq_iff m n).0 t) answers

upper_a : Answers two_layers (root_of 0) upper_child name_a
unfolding bytes_eq has_zero kind_of is_whiteout stat_is_whiteout is_dir is_chardev Represents
upper_a = (
  refl,
  inr (entry_at 0 2, (true, false), refl, omega arith, refl, (refl, (stat_at 0 2, refl, refl))),
)

lower_a : Answers two_layers (root_of 1) lower_child name_a
unfolding bytes_eq has_zero kind_of is_whiteout stat_is_whiteout is_dir is_chardev Represents
lower_a = (
  refl,
  inr (
    entry_at 1 2,
    (false, false),
    refl,
    omega arith,
    refl,
    (refl, refl, refl, (stat_at 1 2, refl, refl)),
  ),
)

lower_b : Answers two_layers (root_of 1) lower_child name_b
unfolding bytes_eq has_zero kind_of is_whiteout stat_is_whiteout is_dir is_chardev Represents
lower_b = (
  refl,
  inr (
    entry_at 1 3,
    (false, false),
    refl,
    omega arith,
    refl,
    (refl, refl, refl, (stat_at 1 3, refl, refl)),
  ),
)

upper_none : (n : Name) → listed n (name_a ∷ []) ≡ false → upper_child n ≡ absent
upper_none n e = elim (Bool-cases (bytes_eq name_a n)) [
  | inl t ↦ let clash : true ≡ false = sym (ap (λ x. x || false) t) ∙ e in absurd (cc clash)
  | inr f ↦ ap (λ x. if x then hidden else absent) f
]

upper_some :
    (n : Name) → listed n (name_a ∷ []) ≡ true → Answers two_layers (root_of 0) upper_child n
upper_some n e = elim (Bool-cases (bytes_eq name_a n)) [
  | inl t ↦ same_answer (root_of 0) upper_child name_a n t upper_a
  | inr f ↦ let clash : false ≡ true = sym (ap (λ x. x || false) f) ∙ e in absurd (cc clash)
]

lower_none : (n : Name) → listed n (name_a ∷ name_b ∷ []) ≡ false → lower_child n ≡ absent
lower_none n e = elim (Bool-cases (bytes_eq name_a n)) [
  | inl t ↦
      let clash : true ≡ false = sym (ap (λ x. x || listed n (name_b ∷ [])) t) ∙ e in
      absurd (cc clash)
  | inr f ↦ elim (Bool-cases (bytes_eq name_b n)) [
    | inl t ↦ let clash : true ≡ false = sym (λ i. f i || (t i || false)) ∙ e in absurd (cc clash)
    | inr g ↦ λ i. if f i then leaf 1 2 else (if g i then leaf 1 3 else absent)
  ]
]

lower_some :
    (n : Name)
    → listed n (name_a ∷ name_b ∷ []) ≡ true
    → Answers two_layers (root_of 1) lower_child n
lower_some n e = elim (Bool-cases (bytes_eq name_a n)) [
  | inl t ↦ same_answer (root_of 1) lower_child name_a n t lower_a
  | inr f ↦ elim (Bool-cases (bytes_eq name_b n)) [
    | inl t ↦ same_answer (root_of 1) lower_child name_b n t lower_b
    | inr g ↦ let clash : false ≡ true = sym (λ i. f i || (g i || false)) ∙ e in absurd (cc clash)
  ]
]

upper_Represents : Represents two_layers (dir false upper_child) (root_of 0)
unfolding Represents is_dir entries_of page_names bytes_eq
upper_Represents = (
  refl,
  refl,
  (stat_at 0 1, refl, refl),
  (
    dir_entry 1 name_a ∷ [],
    record { handle = 0; opened = inr (inr refl, refl); entries = refl; closed = inl refl },
    upper_none,
    upper_some,
  ),
)

lower_Represents : Represents two_layers (dir false lower_child) (root_of 1)
unfolding Represents is_dir entries_of page_names bytes_eq
lower_Represents = (
  refl,
  refl,
  (stat_at 1 1, refl, refl),
  (
    dir_entry 1 name_a ∷ dir_entry 2 name_b ∷ [],
    record { handle = 0; opened = inr (inr refl, refl); entries = refl; closed = inl refl },
    lower_none,
    lower_some,
  ),
)

abbrev root_node : Node
root_node = record {
  real_inodes = root_of 0 ∷ root_of 1 ∷ [];
  inode = 1;
  path = [];
  name = [];
  lookups = 2;
  whiteout = false;
}

root_is_dir : is_dir (stat_at 0 1) ≡ true
unfolding is_dir
root_is_dir = refl

scan_childrens-Merges_example :
    (children : List Node) × (scan_childrens two_layers root_node ≡ ok children)
    × ((n : Name)
        → IsChild two_layers
            (child_named n children)
            n
            (child (merged (dir false upper_child ∷ dir false lower_child ∷ [])) n))
scan_childrens-Merges_example =
    scan_childrens-Merges two_layers root_node (root_of 0) (root_of 1 ∷ [])
      (dir false upper_child ∷ dir false lower_child ∷ []) (stat_at 0 1) refl
      (upper_Represents, (lower_Represents, tt)) (omega arith) refl root_is_dir
