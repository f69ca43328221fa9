-- ===== src/Pseudo/Path.antt =====
-- `Path::has_root` and `Path::components` of Rust's std::path on Unix, which
-- src/api/pseudo_fs.rs walks over: the segments between slashes, without the empty ones and ".".
use fuse_backend_rs.Prelude.{
  ℕ, Bool, false, List, [], ◌∷◌, ◌++◌, arith, ◌==◌, if◌then◌else◌, bytes_eq,
}
use fuse_backend_rs.Fs.{Name}

-- std::path::Component
pub data Component : Type 0 where
  prefix root_dir cur_dir parent_dir : Component
  normal : Name → Component

unfoldable pub has_root : List ℕ → Bool
has_root [] = false
has_root (c ∷ path) = c == b'/'

push_front : ℕ → List Name → List Name
push_front c [] = (c ∷ []) ∷ []
push_front c (seg ∷ segs) = (c ∷ seg) ∷ segs

segments : List ℕ → List Name
unfolding push_front
segments [] = [] ∷ []
segments (c ∷ path) = let rest = segments path in if c == b'/' then [] ∷ rest else push_front c rest

abbrev pub dot : Name
dot = b'.' ∷ []

abbrev pub dot_dot : Name
dot_dot = b'.' ∷ b'.' ∷ []

-- What one segment contributes.
of_segment : Name → List Component → List Component
of_segment seg rest =
    if bytes_eq seg []
    then rest
    else if bytes_eq seg dot
    then rest
    else if bytes_eq seg dot_dot
    then parent_dir ∷ rest
    else normal seg ∷ rest

of_segments : List Name → List Component
unfolding of_segment
of_segments [] = []
of_segments (seg ∷ segs) = of_segment seg (of_segments segs)

-- A relative path may begin with a "." that counts.
leading : List ℕ → List Name → List Component
leading path [] = []
leading path (seg ∷ segs) =
    if has_root path then root_dir ∷ [] else if bytes_eq seg dot then cur_dir ∷ [] else []

unfoldable pub components : List ℕ → List Component
unfolding has_root segments of_segments leading bytes_eq
components path = leading path (segments path) ++ of_segments (segments path)

-- Unix paths have no prefix component.
abbrev pub IsUnix : List Component → Type 0
IsUnix [] = Unit
IsUnix (prefix ∷ cs) = ⊥
IsUnix (_ ∷ cs) = IsUnix cs

of_segment-IsUnix :
    (seg : Name) (rest : List Component) → IsUnix rest → IsUnix (of_segment seg rest)
unfolding of_segment
of_segment-IsUnix seg rest h = ground arith

of_segments-IsUnix : (segs : List Name) → IsUnix (of_segments segs)
unfolding of_segments
of_segments-IsUnix [] = tt
of_segments-IsUnix (seg ∷ segs) = of_segment-IsUnix seg _ (of_segments-IsUnix segs)

leading-IsUnix :
    (path : List ℕ) (segs : List Name) (cs : List Component)
    → IsUnix cs
    → IsUnix (leading path segs ++ cs)
unfolding leading
leading-IsUnix path [] cs h = h
leading-IsUnix path (seg ∷ segs) cs h = ground arith

pub components-IsUnix : (path : List ℕ) → IsUnix (components path)
unfolding components
components-IsUnix path = leading-IsUnix path (segments path) _ (of_segments-IsUnix (segments path))
