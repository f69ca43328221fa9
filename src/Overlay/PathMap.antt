-- ===== src/Overlay/PathMap.antt =====
-- src/overlayfs/inode_store.rs: the Trie from paths to inode numbers, as an association list.
use fuse_backend_rs.Prelude.{
  ℕ, ◌≡◌, refl, Option, none, some, List, [], ◌∷◌, arith, if◌then◌else◌, bytes_eq, bytes_eq_refl,
}

unfoldable pub find : List ℕ → List (List ℕ × ℕ) → Option ℕ
find p [] = none
find p ((q, v) ∷ m) = if bytes_eq q p then some v else find p m

unfoldable pub without : List ℕ → List (List ℕ × ℕ) → List (List ℕ × ℕ)
without p [] = []
without p ((q, v) ∷ m) = let rest = without p m in if bytes_eq q p then rest else (q, v) ∷ rest

unfoldable pub store : List ℕ → ℕ → List (List ℕ × ℕ) → List (List ℕ × ℕ)
store p v m = (p, v) ∷ without p m

pub find-store_self : (p : List ℕ) (v : ℕ) (m : List (List ℕ × ℕ)) → find p (store p v m) ≡ some v
unfolding find store
find-store_self p v m = rw (bytes_eq_refl p)

pub find-without_self : (p : List ℕ) (m : List (List ℕ × ℕ)) → find p (without p m) ≡ none
unfolding find without
find-without_self p [] = refl
find-without_self p ((q, v) ∷ m) = ground (arith, find-without_self p m)
