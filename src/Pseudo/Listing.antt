-- ===== src/Pseudo/Listing.antt =====
-- src/api/pseudo_fs.rs: what `lookup` and a directory read show of the tree.
use fuse_backend_rs.Prelude.{
  ℕ, zero, suc, ◌+◌, ◌-◌, ◌%◌, ◌<◌, ◌≤◌, ◌≡◌, refl, sym, ap, ◌∙◌, Bool, true, false, Option, none,
  some, List, [], ◌∷◌, ◌++◌, arith, ◌==◌, leb, if◌then◌else◌, bytes_eq, drop, take, length,
  Option-cases, Bool-cases, inl, inr,
}
use native.Mathlib.Nat.{add-zero, add_comm}
use mathlib.Core.List.{append_assoc, append-nil}
use fuse_backend_rs.Prelude.Map.{get}
use fuse_backend_rs.Prelude.Outcome.{ok, err, panic}
use fuse_backend_rs.Fs.{enoent, Result, Name, Entry, DirEntry, u64_mod}
use fuse_backend_rs.Pseudo.{Child, PseudoInode, PseudoFs, find_child, walk_from}
use fuse_backend_rs.Pseudo.Path.{Component, cur_dir, parent_dir, normal, dot, dot_dot}
use fuse_backend_rs.Pseudo.Invariant.{IsWellFormed, Stands, up_Arrives, down_Arrives}
use fuse_backend_rs.Pseudo.Serve.{get_entry, lookup_ino, lookup, add_children, do_readdir}

-- A name as a step of a path.
abbrev pub step_of : Name → Component
step_of name =
    if bytes_eq name dot then cur_dir else if bytes_eq name dot_dot then parent_dir else normal name

-- A step's end, as the answer to a lookup.
abbrev pub as_entry : ℕ → Result (Option ℕ) → Result Entry
as_entry now (ok (some i)) = ok (get_entry now i)
as_entry now (ok none) = err enoent
as_entry now (err e) = err e
as_entry now panic = panic

module _ (fs : PseudoFs) (wf : IsWellFormed fs) (n : PseudoInode) (s : Stands fs n)
    (name : Name) where
  -- Where the name leads; 0 stands for nowhere.
  abbrev lands : ℕ → Result (Option ℕ)
  lands i = if i == 0 then ok none else ok (some i)

  lookup_ino-child :
      walk_from fs n (normal name ∷ [])
      ≡ lands (elim (find_child name n.children) [ none ↦ 0 | some ino ↦ ino ])
  unfolding walk_from
  lookup_ino-child = elim (Option-cases (find_child name n.children)) [
    | inl miss ↦ rw (miss, walk_from)
    | inr (c, f) ↦
        let a = down_Arrives fs wf n.ino n name c s.anchored s.here f in
        ground (arith, f, a.here, wf.nonzero, wf.own_ino c a.node a.here)
  ]

  lookup_ino-walk_from : walk_from fs n (step_of name ∷ []) ≡ lands (lookup_ino n name)
  unfolding lookup_ino walk_from
  lookup_ino-walk_from = elim (Bool-cases (bytes_eq name dot)) [
    | inl d ↦ rw d (ground (arith, s.here, wf.nonzero))
    | inr d ↦ elim (Bool-cases (bytes_eq name dot_dot)) [
      | inl dd ↦
          let a = up_Arrives fs wf n.ino n s.anchored s.here in
          rw (d, dd) (ground (arith, a.here, wf.nonzero, wf.own_ino n.parent a.node a.here))
      | inr dd ↦ rw (d, dd) lookup_ino-child
    ]
  ]

  -- In a well-formed table, `lookup` of a UTF-8 name in a directory that hangs from the root of the
  -- table answers as one step of `path_walk` from there.
  pub lookup-walk_from :
      (utf8 : Name → Bool) (now : ℕ)
      → utf8 name ≡ true
      → lookup utf8 fs now n.ino name ≡ as_entry now (walk_from fs n (step_of name ∷ []))
  unfolding lookup
  lookup-walk_from utf8 now valid = rw lookup_ino-walk_from (ground (arith, s.here, valid))

-- The entries of a directory read, the first of which has the number `next` as its offset.
abbrev pub listing : ℕ → List Child → List DirEntry
listing next [] = []
listing next (c ∷ cs) =
    record { ino = c.ino; offset = next; type_ = 0; name = c.name } ∷ listing (next + 1) cs

-- A caller's buffer with room for so many entries more.
pub record Buffer : Type 0 where
  pub entries : List DirEntry
  pub room : ℕ

-- An `add_entry` that keeps what it has room for, and says that an entry takes 24 bytes.
abbrev pub fill : Buffer → DirEntry → Buffer × Result ℕ
fill b d =
    if b.room == 0
    then (b, ok 0)
    else (record { entries = b.entries ++ d ∷ []; room = b.room - 1 }, ok 24)

abbrev pub buffer : List DirEntry → ℕ → Buffer
buffer es k = record { entries = es; room = k }

-- What a read appends to a buffer with room for `k` entries.
abbrev pub Appends : Buffer × Result (Unit {0}) → List DirEntry → List DirEntry → Type 0
Appends r es ds = (r.0.entries ≡ es ++ ds) × (r.1 ≡ ok tt)

add_children-suc :
    (c : Child) (cs : List Child) (es : List DirEntry) (k next : ℕ)
    → next + 1 < u64_mod
    → add_children fill (buffer es (suc k)) next (c ∷ cs)
      ≡ add_children fill
          (buffer (es ++ record { ino = c.ino; offset = next; type_ = 0; name = c.name } ∷ []) k)
          (next + 1)
          cs
unfolding add_children
add_children-suc c cs es k next h =
    let fits : (next + 1) % u64_mod ≡ next + 1 = omega arith in rw (← fits) (ground arith)

add_children-listing :
    (cs : List Child) (es : List DirEntry) (k next : ℕ)
    → next + length cs < u64_mod
    → Appends (add_children fill (buffer es k) next cs) es (take k (listing next cs))
unfolding add_children
add_children-listing [] es zero next h = (sym (append-nil es), refl)
add_children-listing [] es (suc k) next h = (sym (append-nil es), refl)
add_children-listing (c ∷ cs) es zero next h = (sym (append-nil es), refl)
add_children-listing (c ∷ cs) es (suc k) next h =
    let d : DirEntry = record { ino = c.ino; offset = next; type_ = 0; name = c.name } in
    let (ih, done) = add_children-listing cs (es ++ d ∷ []) k (next + 1) (omega arith) in
    rw (add_children-suc c cs es k next (omega arith))
      (ih ∙ append_assoc es (d ∷ []) (take k (listing (next + 1) cs)), done)

-- The listing from the offset `o` is the rest of the whole listing.
listing-drop :
    (o next : ℕ) (cs : List Child) → listing (next + o) (drop o cs) ≡ drop o (listing next cs)
listing-drop zero next cs = rw add-zero
listing-drop (suc o) next [] = refl
listing-drop (suc o) next (c ∷ cs) =
    let e : next + suc o ≡ next + 1 + o = omega arith in rw e (listing-drop o (next + 1) cs)

drop-all : (o : ℕ) (ds : List DirEntry) → length ds ≤ o → drop o ds ≡ []
drop-all zero [] h = refl
drop-all zero (d ∷ ds) h = absurd (omega arith)
drop-all (suc o) [] h = refl
drop-all (suc o) (d ∷ ds) h = drop-all o ds (omega arith)

length-listing : (next : ℕ) (cs : List Child) → length (listing next cs) ≡ length cs
length-listing next [] = refl
length-listing next (c ∷ cs) = ap suc (length-listing (next + 1) cs)

take-nil : (k : ℕ) → take {A = DirEntry} k [] ≡ []
take-nil zero = refl
take-nil (suc k) = refl

length-drop : (o : ℕ) (cs : List Child) → length (drop o cs) ≡ length cs - o
length-drop zero cs = omega arith
length-drop (suc o) [] = omega arith
length-drop (suc o) (c ∷ cs) = omega (arith, length-drop o cs)

-- A read of a directory from the offset `o`, into a buffer with room for `k` entries, gives the
-- entries `o` to `o + k` of the listing: the children in order, numbered from 1. So a read that
-- goes on from the offset of the last entry received misses none and repeats none.
pub do_readdir-listing :
    (fs : PseudoFs) (n : PseudoInode) (size o k : ℕ)
    → get n.ino fs.inodes ≡ some n
    → 0 < size
    → length n.children < u64_mod - 1
    → Appends
        (do_readdir fill fs n.ino size o (buffer [] k))
        []
        (take k (drop o (listing 1 n.children)))
unfolding do_readdir
do_readdir-listing fs n size o k h pos small =
    let some_size : (size == 0) ≡ false = ground arith in
    elim (Bool-cases (leb (length n.children) o)) [
      | inl past ↦
          let e : take k (drop o (listing 1 n.children)) ≡ [] =
            ap (take k)
              (drop-all o (listing 1 n.children) (ground (arith, length-listing 1 n.children)))
            ∙ take-nil k in
          rw (e, some_size, do_readdir, h, past) (refl, refl)
      | inr inside ↦
          let (ls, done) =
            add_children-listing (drop o n.children) [] k (o + 1)
              (ground (arith, length-drop o n.children)) in
          let e : listing (o + 1) (drop o n.children) ≡ drop o (listing 1 n.children) =
            ap (λ i. listing i (drop o n.children)) (add_comm o 1) ∙ listing-drop o 1 n.children in
          rw (some_size, do_readdir, h, inside) (rw e at ls, done)
    ]
