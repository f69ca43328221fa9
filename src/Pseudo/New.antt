-- ===== src/Pseudo/New.antt =====
-- src/api/pseudo_fs.rs, `new`: the root alone.
use fuse_backend_rs.Prelude.{ℕ, ◌≡◌, refl, none, some, [], ◌∷◌, arith, ◌==◌, if◌then◌else◌}
use fuse_backend_rs.Prelude.Map.{get, map_laws}
use fuse_backend_rs.Fs.{root_id}
use fuse_backend_rs.Pseudo.{new, new_node, find_child}
use fuse_backend_rs.Pseudo.Invariant.{IsWellFormed}

get-new :
    (i : ℕ)
    → get i new.inodes
      ≡ (if root_id == i then some (new_node root_id root_id (b'/' ∷ [])) else none)
unfolding new get
get-new i = simp map_laws

-- A new pseudo file system is the root alone.
pub new-IsWellFormed : IsWellFormed new
unfolding new find_child
new-IsWellFormed = record {
  root = new_node root_id root_id (b'/' ∷ []);
  root_here = get-new 1;
  root_parent = refl;
  nonzero = get-new 0;
  own_ino = λ i n h. ground (arith, get-new i);
  below_next = λ i n h. ground (arith, get-new i);
  child_here = λ i n name c h f. absurd (ground (arith, get-new i));
  distinct = λ i n h.
      let e : n ≡ new_node root_id root_id (b'/' ∷ []) = ground (arith, get-new i) in rw e tt;
}
