-- ===== src/Transport/Volatile.antt =====
-- vm_memory's VolatileSlice, as src/transport/mod.rs uses it.
use fuse_backend_rs.Prelude.{ℕ, ◌≤◌, ◌≡◌, Option, some, List, length, take, drop}

-- A slice has a length and shows bytes. `subslice` gives a part and `offset` what lies behind a
-- place, as long as these are within the slice; both are documented to fail otherwise.
pub record VolatileSlices : Type 1 where
  pub Slice : Type 0
  pub len : Slice → ℕ
  pub bytes : Slice → List ℕ
  pub subslice : Slice → ℕ → ℕ → Option Slice
  pub offset : Slice → ℕ → Option Slice
  pub length-bytes : (s : Slice) → length (bytes s) ≡ len s
  pub subslice_within :
      (s : Slice) (n : ℕ)
      → n ≤ len s
      → (t : Slice) × (subslice s 0 n ≡ some t) × (bytes t ≡ take n (bytes s))
  pub offset_within :
      (s : Slice) (n : ℕ)
      → n ≤ len s
      → (t : Slice) × (offset s n ≡ some t) × (bytes t ≡ drop n (bytes s))
