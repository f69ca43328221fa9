-- ===== src/Overlay/Layers.antt =====
-- The layers of the overlay file system: `Layer` of src/api/filesystem/overlay.rs and `RealInode` of
-- src/overlayfs/mod.rs. What a layer answers is a parameter, and does not change while it is asked;
-- the counts of lookups in it, which are taken back when a RealInode is dropped, are not kept.
use fuse_backend_rs.Prelude.{
  ℕ, Bool, true, false, not, ◌&&◌, ◌||◌, Option, none, some, List, [], ◌∷◌, ◌++◌, ◌==◌, ltb,
  if◌then◌else◌, bytes_eq, bit_and,
}
use fuse_backend_rs.Prelude.Outcome.{ok, err, panic, ◌>>=◌, ◌>>◌}
use fuse_backend_rs.Prelude.Text.{codes}
use fuse_backend_rs.Fs.{
  Errno, Result, Name, Stat, Entry, DirEntry, enoent, enametoolong, enosys, enotdir, enodata, other,
}
use fuse_backend_rs.Overlay.NameMap.{put}

-- What the calls of readdir on one open directory add, up to the call that adds nothing: a call
-- adds the entries of a list and one more, and the next call is made with the offset of the last.
pub data Pages : Type 0 where
  failed : Errno → Pages
  finished : Pages
  page : List DirEntry → DirEntry → (ℕ → Pages) → Pages

-- A value of an attribute, or its size.
pub data Xattr : Type 0 where
  value : List ℕ → Xattr
  size : ℕ → Xattr

-- The calls of a layer, which is named by its number: the inode comes next. `major` and `minor`
-- are libc's, and `lossy` is the library's reading of bytes as text.
pub record LayerOps : Type 0 where
  pub lookup : ℕ → ℕ → Name → Result Entry
  pub getattr : ℕ → ℕ → Result Stat
  pub getxattr : ℕ → ℕ → Name → ℕ → Result Xattr
  pub opendir : ℕ → ℕ → Result (Option ℕ)
  pub readdir : ℕ → ℕ → ℕ → ℕ → Pages
  pub releasedir : ℕ → ℕ → ℕ → Result (Unit {0})
  pub major : ℕ → ℕ
  pub minor : ℕ → ℕ
  pub lossy : Name → Name

pub record RealInode : Type 0 where
  pub layer : ℕ
  pub in_upper_layer : Bool
  pub inode : ℕ
  pub whiteout : Bool
  pub opaque : Bool
  pub stat : Option Stat

abbrev pub s_ifmt : ℕ
s_ifmt = 0o170000

unfoldable pub is_dir : Stat → Bool
is_dir st = bit_and st.st_mode s_ifmt == 0o40000

unfoldable pub is_chardev : Stat → Bool
is_chardev st = bit_and st.st_mode s_ifmt == 0o20000

-- `CString::new`
unfoldable pub has_zero : Name → Bool
has_zero [] = false
has_zero (c ∷ name) = c == 0 || has_zero name

unfoldable pub to_cstring : Name → Result Name
to_cstring name = if has_zero name then err other else ok name

abbrev pub opaque_xattr : Name
opaque_xattr = codes "user.fuseoverlayfs.opaque"

abbrev pub unprivileged_opaque_xattr : Name
unprivileged_opaque_xattr = codes "user.overlay.opaque"

abbrev pub privileged_opaque_xattr : Name
privileged_opaque_xattr = codes "trusted.overlay.opaque"

-- `buf.len() == 1 && buf[0].to_ascii_lowercase() == b'y'`
abbrev pub says_yes : Xattr → Bool
says_yes (value (c ∷ [])) = c == b'y' || c == b'Y'
says_yes (value []) = false
says_yes (value (c ∷ d ∷ rest)) = false
says_yes (size n) = false

abbrev pub attr_checked : Result Xattr → Result Bool
attr_checked (ok v) = ok (says_yes v)
attr_checked (err enodata) = ok false
attr_checked (err e) = err e
attr_checked panic = panic

-- Every error that has a number counts as a missing file.
abbrev pub ignoring_numbers : Result Stat → Result (Option Stat)
ignoring_numbers (ok st) = ok (some st)
ignoring_numbers (err other) = err other
ignoring_numbers (err e) = ok none
ignoring_numbers panic = panic

abbrev pub ignoring_missing : Result Entry → Result (Option Entry)
ignoring_missing (ok v) = ok (if v.inode == 0 then none else some v)
ignoring_missing (err enoent) = ok none
ignoring_missing (err enametoolong) = ok none
ignoring_missing (err e) = err e
ignoring_missing panic = panic

abbrev pub real_child : RealInode → Entry → Bool × Bool → RealInode
real_child ri v (whiteout, opaque) = record {
  layer = ri.layer;
  in_upper_layer = ri.in_upper_layer;
  inode = v.inode;
  whiteout = whiteout;
  opaque = opaque;
  stat = some v.attr;
}

-- `opendir` may be missing.
abbrev pub dir_handle : Result (Option ℕ) → Result ℕ
dir_handle (ok (some h)) = ok h
dir_handle (ok none) = ok 0
dir_handle (err enosys) = ok 0
dir_handle (err e) = err e
dir_handle panic = panic

abbrev pub released : Result (Unit {0}) → Result (Unit {0})
released (ok done) = ok tt
released (err enosys) = ok tt
released (err e) = err e
released panic = panic

abbrev pub is_dot_name : Name → Bool
is_dot_name n = bytes_eq n (codes ".") || bytes_eq n (codes "..")

abbrev pub put_child : Name → Option RealInode → List (Name × RealInode) → List (Name × RealInode)
put_child name none children = children
put_child name (some child) children = put name child children

module _ (ops : LayerOps) where
  unfoldable pub stat_is_whiteout : Stat → Bool
  stat_is_whiteout st = is_chardev st && ops.major st.st_rdev == 0 && ops.minor st.st_rdev == 0

  -- `is_whiteout` and `is_opaque` of the trait, as a layer has them that does not change them.
  unfoldable pub is_whiteout : ℕ → ℕ → Result Bool
  is_whiteout layer inode = do st ← ops.getattr layer inode; ok (stat_is_whiteout st)

  unfoldable pub is_opaque : ℕ → ℕ → Result Bool
  is_opaque layer inode = do
    st ← ops.getattr layer inode
    if not (is_dir st) then err enotdir else (do
      own ← attr_checked (ops.getxattr layer inode opaque_xattr 16)
      if own then ok true else (do
        privileged ← attr_checked (ops.getxattr layer inode privileged_opaque_xattr 16)
        if privileged
            then ok true
            else attr_checked (ops.getxattr layer inode unprivileged_opaque_xattr 16)))

  unfoldable pub stat64 : RealInode → Result Stat
  stat64 ri = if ri.inode == 0 then err enoent else ops.getattr ri.layer ri.inode

  unfoldable pub stat64_ignore_enoent : RealInode → Result (Option Stat)
  stat64_ignore_enoent ri = ignoring_numbers (stat64 ri)

  -- `match ri.stat { Some(v) => v, None => ri.stat64(ctx)? }`
  abbrev pub stat_or : RealInode → Option Stat → Result Stat
  stat_or ri (some st) = ok st
  stat_or ri none = stat64 ri

  unfoldable pub stat_of : RealInode → Result Stat
  stat_of ri = stat_or ri ri.stat

  unfoldable pub lookup_child_ignore_enoent : RealInode → Name → Result (Option Entry)
  lookup_child_ignore_enoent ri name = do
    cname ← to_cstring name
    ignoring_missing (ops.lookup ri.layer ri.inode cname)

  -- Whether an entry is a whiteout, and whether it is an opaque directory.
  unfoldable pub kind_of : ℕ → Entry → Result (Bool × Bool)
  kind_of layer v =
      if is_dir v.attr
      then (do opaque ← is_opaque layer v.inode; ok (false, opaque))
      else (do whiteout ← is_whiteout layer v.inode; ok (whiteout, false))

  abbrev pub child_of : RealInode → Option Entry → Result (Option RealInode)
  child_of ri none = ok none
  child_of ri (some v) = do kind ← kind_of ri.layer v; ok (some (real_child ri v kind))

  unfoldable pub lookup_child : RealInode → Name → Result (Option RealInode)
  lookup_child ri name =
      if ri.whiteout
      then ok none
      else (do found ← lookup_child_ignore_enoent ri name; child_of ri found)

  unfoldable pub page_names : List DirEntry → List Name
  page_names [] = []
  page_names (d ∷ ds) =
      let names = page_names ds in
      if is_dot_name (ops.lossy d.name) then names else ops.lossy d.name ∷ names

  -- The loop of `readdir`.
  unfoldable pub read_names : Pages → Result (List Name)
  read_names (failed e) = err e
  read_names finished = ok []
  read_names (page ds last next) = do
    names ← read_names (next last.offset)
    ok (page_names (ds ++ last ∷ []) ++ names)

  unfoldable pub look_up_all :
      RealInode → List Name → List (Name × RealInode) → Result (List (Name × RealInode))
  look_up_all ri [] children = ok children
  look_up_all ri (name ∷ names) children = do
    child ← lookup_child ri name
    look_up_all ri names (put_child name child children)

  -- The names that `readdir` reads from the open directory, which it then releases.
  unfoldable pub list_names : RealInode → Result (List Name)
  list_names ri = do
    handle ← dir_handle (ops.opendir ri.layer ri.inode)
    names ← read_names (ops.readdir ri.layer ri.inode handle 0)
    if ltb 0 handle then released (ops.releasedir ri.layer ri.inode handle) else ok tt
    ok names

  unfoldable pub readdir : RealInode → Result (List (Name × RealInode))
  readdir ri = if ri.whiteout then err enoent else (do
    st ← stat_of ri
    if not (is_dir st) then err enotdir else (do names ← list_names ri; look_up_all ri names []))
