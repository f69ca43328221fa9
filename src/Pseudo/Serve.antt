-- ===== src/Pseudo/Serve.antt =====
-- src/api/pseudo_fs.rs, the FileSystem methods: lookup, getattr and the reading of directories.
use fuse_backend_rs.Prelude.{
  ℕ, ◌+◌, ◌%◌, Bool, Option, none, some, List, [], ◌∷◌, ◌==◌, leb, if◌then◌else◌, bytes_eq, drop,
  length,
}
use fuse_backend_rs.Prelude.Map.{get}
use fuse_backend_rs.Prelude.Outcome.{ok, err, panic, ◌>>=◌}
use fuse_backend_rs.Fs.{Errno, enoent, einval, Result, Name, Stat, Entry, DirEntry, u64_mod}
use fuse_backend_rs.Pseudo.{Child, PseudoInode, PseudoFs, find_child, pseudofs_default_timeout}
use fuse_backend_rs.Pseudo.Path.{dot, dot_dot}

-- S_IFDIR | S_IRWXU | S_IRWXG | S_IRWXO
abbrev pub dir_mode : ℕ
dir_mode = 0o40777

-- `now` is the clock's reading in whole seconds.
unfoldable pub get_entry : ℕ → ℕ → Entry
get_entry now ino = record {
  inode = ino;
  generation = 0;
  attr = record {
    st_ino = ino;
    st_size = 0;
    st_blocks = 0;
    st_atime = now;
    st_mtime = now;
    st_ctime = now;
    st_mode = dir_mode;
    st_nlink = 0;
    st_uid = 0;
    st_gid = 0;
    st_rdev = 0;
    st_blksize = 4096;
  };
  attr_flags = 0;
  attr_timeout = pseudofs_default_timeout;
  entry_timeout = pseudofs_default_timeout;
}

abbrev pub ok_or {ℓ} : {A : Type ℓ} → Errno → Option A → Result A
ok_or e none = err e
ok_or e (some a) = ok a

-- 0 stands for a name that is not found.
unfoldable pub lookup_ino : PseudoInode → Name → ℕ
unfolding find_child bytes_eq
lookup_ino pinode name =
    if bytes_eq name dot
    then pinode.ino
    else if bytes_eq name dot_dot
    then pinode.parent
    else elim (find_child name pinode.children) [ none ↦ 0 | some ino ↦ ino ]

-- `utf8` says whether the bytes of a name are valid UTF-8, as `CStr::to_str` finds.
module _ (utf8 : Name → Bool) where
  unfoldable pub lookup : PseudoFs → ℕ → ℕ → Name → Result Entry
  unfolding lookup_ino get_entry
  lookup fs now parent name = do
    pinode ← ok_or enoent (get parent fs.inodes)
    if utf8 name
        then (let ino = lookup_ino pinode name in
            if ino == 0 then err enoent else ok (get_entry now ino))
        else err einval

unfoldable pub getattr : PseudoFs → ℕ → ℕ → Result (Stat × ℕ)
unfolding get_entry
getattr fs now inode = do
  node ← ok_or enoent (get inode fs.inodes)
  ok ((get_entry now node.ino).attr, (get_entry now node.ino).attr_timeout)

-- The callback of a directory read adds an entry to what it has, and returns the bytes that the
-- entry took: 0 when it had no room.
abbrev pub AddEntry : Type 0 → Type 0
AddEntry S = S → DirEntry → S × Result ℕ

module _ {S : Type 0} (add_entry : AddEntry S) where
  unfoldable pub add_children : S → ℕ → List Child → S × Result (Unit {0})
  add_children s next [] = (s, ok tt)
  add_children s next (c ∷ cs) =
      let (s', r) = add_entry s (record { ino = c.ino; offset = next; type_ = 0; name = c.name }) in
      let rest = add_children s' ((next + 1) % u64_mod) cs in
      elim r [
        | ok n ↦ if n == 0 then (s', ok tt) else rest
        | err e ↦ (s', err e)
        | panic ↦ (s', panic)
      ]

  -- The sum `offset + 1` is used below the number of children only, and does not overflow there.
  unfoldable pub do_readdir : PseudoFs → ℕ → ℕ → ℕ → S → S × Result (Unit {0})
  unfolding add_children
  do_readdir fs parent size offset s =
      if size == 0 then (s, ok tt) else elim (get parent fs.inodes) [
        | none ↦ (s, err enoent)
        | some inode ↦
            if leb (length inode.children) offset
            then (s, ok tt)
            else add_children s (offset + 1) (drop offset inode.children)
      ]

-- The callback of `readdirplus` is given the entry as well.
unfoldable pub do_readdirplus :
    {S : Type 0}
    → (S → DirEntry → Entry → S × Result ℕ)
    → PseudoFs
    → ℕ
    → ℕ
    → ℕ
    → ℕ
    → S
    → S × Result (Unit {0})
unfolding do_readdir get_entry
do_readdirplus add_entry fs now parent size offset s =
    do_readdir (λ t d. add_entry t d (get_entry now d.ino)) fs parent size offset s
