-- ===== src/Transport/Tests.antt =====
-- Readers over concrete buffers.
use fuse_backend_rs.Prelude.{
  ℕ, ◌+◌, ◌≤◌, ◌≡◌, refl, false, Option, none, some, List, [], ◌∷◌, ltb, length, take, drop, arith,
  if◌then◌else◌,
}
use fuse_backend_rs.Prelude.Outcome.{ok}
use fuse_backend_rs.Transport.{IoBuffers, read_obj}
use fuse_backend_rs.Transport.Calls.{ReaderCall, reads, reads_obj, splits_at, Stream}
use fuse_backend_rs.Transport.Calls
use fuse_backend_rs.Transport.Refine.{step, run, run_refines, stream}
use fuse_backend_rs.Transport.Stream.{content}
use fuse_backend_rs.Transport.Volatile.{VolatileSlices}

-- Slices that are lists of bytes, and fail beyond their end.
abbrev part : List ℕ → ℕ → ℕ → Option (List ℕ)
part s at n = if ltb (length s) (at + n) then none else some (take n (drop at s))

abbrev behind : List ℕ → ℕ → Option (List ℕ)
behind s n = if ltb (length s) n then none else some (drop n s)

pub not_less : (m n : ℕ) → n ≤ m → ltb m n ≡ false
not_less m n h = ground arith

abbrev pub lists : VolatileSlices
lists = record {
  Slice = List ℕ;
  len = length;
  bytes = λ s. s;
  subslice = part;
  offset = behind;
  length-bytes = λ s. refl;
  subslice_within = λ s n h. (take n s, rw (not_less (length s) (0 + n) (omega arith)) refl, refl);
  offset_within = λ s n h. (drop n s, rw (not_less (length s) n h) refl, refl);
}

-- Two buffers, the second empty, and a third.
abbrev pub three_buffers : IoBuffers lists
three_buffers = record {
  buffers = (1 ∷ 2 ∷ 3 ∷ []) ∷ [] ∷ (4 ∷ 5 ∷ []) ∷ [];
  bytes_consumed = 0;
  dirty = [];
}

abbrev calls : List ReaderCall
calls = reads_obj 2 ∷ splits_at 2 ∷ reads 9 ∷ reads_obj 1 ∷ []

program : Unit {0}
unfolding run Calls.run step read_obj
program = tt

runs :
    run lists three_buffers (reads_obj 4 ∷ reads 9 ∷ [])
    ≡ some (ok ((1 ∷ 2 ∷ 3 ∷ 4 ∷ []) ∷ (5 ∷ []) ∷ []))
unfolding program
runs = refl

run_refines_example :
    run lists three_buffers calls ≡ some (Calls.run (stream lists three_buffers) calls)
unfolding content
run_refines_example = run_refines lists calls three_buffers (omega arith)
