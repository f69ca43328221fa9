-- ===== src/Prelude/Words.antt =====
-- Numbers as bytes in memory, the lowest byte first.
use Prim.Native.Nat.{ℕ, zero, suc, ◌+◌, ◌*◌, ◌/◌, ◌%◌, ◌^◌, ◌<◌}
use mathlib.Core.Path.{◌≡◌, refl}
use mathlib.Core.List.{List, [], ◌∷◌}
use native.Mathlib.Omega.{arith}
use fuse_backend_rs.Prelude.Lists.{length, take, drop}

-- The `k` low bytes of a number.
unfoldable pub to_bytes : ℕ → ℕ → List ℕ
to_bytes zero n = []
to_bytes (suc k) n = n % 256 ∷ to_bytes k (n / 256)

unfoldable pub from_bytes : List ℕ → ℕ
from_bytes [] = 0
from_bytes (b ∷ bs) = b + 256 * from_bytes bs

-- The field of `k` bytes at a place of a structure.
abbrev pub field : ℕ → ℕ → List ℕ → ℕ
field at k bytes = from_bytes (take k (drop at bytes))

pub length-to_bytes : (k n : ℕ) → length (to_bytes k n) ≡ k
unfolding to_bytes
length-to_bytes zero n = refl
length-to_bytes (suc k) n = omega (arith, length-to_bytes k (n / 256))

pub from_bytes-to_bytes_4 : (n : ℕ) → n < 2 ^ 32 → from_bytes (to_bytes 4 n) ≡ n
unfolding to_bytes from_bytes
from_bytes-to_bytes_4 n h = omega arith

pub from_bytes-to_bytes_8 : (n : ℕ) → n < 2 ^ 64 → from_bytes (to_bytes 8 n) ≡ n
unfolding to_bytes from_bytes
from_bytes-to_bytes_8 n h = omega arith
