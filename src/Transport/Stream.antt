-- ===== src/Transport/Stream.antt =====
-- The bytes that a reader of src/transport/mod.rs still holds, as one list.
use fuse_backend_rs.Prelude.{ℕ, ◌≡◌, refl, sym, List, [], ◌∷◌, ◌++◌, append_assoc}
use fuse_backend_rs.Transport.Volatile.{VolatileSlices}

module _ (slices : VolatileSlices) where
  open slices use {Slice, len, bytes}

  -- What the buffers show, one behind the other.
  unfoldable pub content : List Slice → List ℕ
  content [] = []
  content (buf ∷ bufs) = bytes buf ++ content bufs

  pub content-append : (xs ys : List Slice) → content (xs ++ ys) ≡ content xs ++ content ys
  unfolding content
  content-append [] ys = refl
  content-append (x ∷ xs) ys =
      rw (content-append xs ys) (sym (append_assoc (bytes x) (content xs) (content ys)))
