-- ===== src/Transport.antt =====
-- src/transport/mod.rs: the buffers that a request is read from.
pub mod Volatile
pub mod Stream
mod Lengths
pub mod Consume
pub mod Exact
mod Calls
mod Refine
pub mod Tests
use fuse_backend_rs.Prelude.{
  ℕ, zero, suc, ◌+◌, ◌-◌, Bool, true, false, Option, none, some, List, [], ◌∷◌, ◌++◌, ◌==◌, ltb,
  leb, if◌then◌else◌, length, take,
}
use fuse_backend_rs.Prelude.Outcome.{Outcome, ok, err, panic, ◌>>=◌}
use fuse_backend_rs.Fs.{u64_mod}
use fuse_backend_rs.Transport.Volatile.{VolatileSlices}

-- Errors of the buffers, and one of the callers' own that carries its number.
pub data TransportError : Type 0 where
  descriptor_chain_overflow unexpected_eof interrupted volatile_memory_error : TransportError
  split_out_of_bounds io_error : ℕ → TransportError

module _ {A : Type 0} where
  -- `unwrap`, `expect`
  abbrev pub unwrap : Option A → Outcome TransportError A
  unwrap none = panic
  unwrap (some a) = ok a

  -- `map_err(Error::VolatileMemoryError)?`
  abbrev pub checked : Option A → Outcome TransportError A
  checked none = err volatile_memory_error
  checked (some a) = ok a

module _ (slices : VolatileSlices) where
  open slices use {Slice, len, subslice, offset, bytes}

  -- What was marked as dirty is listed here, in order; in the source the slices share bitmaps.
  pub record IoBuffers : Type 0 where
    pub buffers : List Slice
    pub bytes_consumed : ℕ
    pub dirty : List Slice

  abbrev pub total_len : List Slice → ℕ → ℕ
  total_len [] count = count
  total_len (buf ∷ bufs) count = total_len bufs (count + len buf)

  -- The sum does not wrap, since it is checked where the buffers are made.
  abbrev pub available_bytes : IoBuffers → ℕ
  available_bytes b = total_len b.buffers 0

  -- The buffer, cut off if it is longer than `rem`.
  abbrev pub local_buf : Slice → ℕ → Outcome TransportError Slice
  local_buf buf rem = if ltb rem (len buf) then unwrap (subslice buf 0 rem) else ok buf

  -- The loop of `allocate_file_volatile_slice`, and of `mark_dirty`.
  unfoldable pub allocate : List Slice → ℕ → Outcome TransportError (List Slice)
  allocate [] rem = ok []
  allocate (buf ∷ bufs) rem = elim (rem == 0) [
    | true ↦ ok []
    | false ↦ do l ← local_buf buf rem; rest ← allocate bufs (rem - len l); ok (l ∷ rest)
  ]

  abbrev pub allocate_file_volatile_slice : IoBuffers → ℕ → Outcome TransportError (List Slice)
  allocate_file_volatile_slice b count = allocate b.buffers count

  unfoldable pub mark_dirty : IoBuffers → ℕ → Outcome TransportError IoBuffers
  unfolding allocate
  mark_dirty b count = do
    marked ← allocate b.buffers count
    ok (record b { dirty = b.dirty ++ marked })

  -- The loop of `mark_used`.
  unfoldable pub pop_used : List Slice → ℕ → Outcome TransportError (List Slice)
  pop_used [] rem = ok []
  pop_used (buf ∷ bufs) rem =
      let more = pop_used bufs (rem - len buf) in
      if ltb rem (len buf) then (do rest ← unwrap (offset buf rem); ok (rest ∷ bufs)) else more

  unfoldable pub mark_used : IoBuffers → ℕ → Outcome TransportError IoBuffers
  unfolding pop_used
  mark_used b bytes_consumed =
      if leb u64_mod (b.bytes_consumed + bytes_consumed) then err descriptor_chain_overflow else do
        rest ← pop_used b.buffers bytes_consumed
        ok (record b { buffers = rest; bytes_consumed = b.bytes_consumed + bytes_consumed })

  -- `f` returns how many bytes it consumed, and what it made of them; `idle` stands for the latter
  -- where `f` is not called.
  unfoldable pub consume :
      {A : Type 0}
      → Bool
      → ℕ
      → (List Slice → Outcome TransportError (ℕ × A))
      → A
      → IoBuffers
      → Outcome TransportError (IoBuffers × (ℕ × A))
  unfolding allocate mark_dirty mark_used
  consume dirty count f idle b = do
    bufs ← allocate_file_volatile_slice b count
    elim bufs [
      | [] ↦ ok (b, (0, idle))
      | buf ∷ more ↦ do
        (n, a) ← f (buf ∷ more)
        b1 ← (if dirty then mark_dirty b n else ok b)
        b2 ← mark_used b1 n
        ok (b2, (n, a))
    ]

  -- `position`, with the bytes that are left of the offset: the buffers before it, and from it on.
  unfoldable pub cut_at : List Slice → ℕ → List Slice × (ℕ × List Slice)
  cut_at [] rem = ([], (rem, []))
  cut_at (buf ∷ bufs) rem =
      let (before, (left, behind)) = cut_at bufs (rem - len buf) in
      if ltb rem (len buf) then ([], (rem, buf ∷ bufs)) else (buf ∷ before, (left, behind))

  abbrev pub split_result :
      IoBuffers → ℕ → List Slice × (ℕ × List Slice) → Outcome TransportError (IoBuffers × IoBuffers)
  split_result b off (before, (rem, [])) =
      if rem == 0
      then ok
          (record b { buffers = before }, record { buffers = []; bytes_consumed = 0; dirty = [] })
      else err (split_out_of_bounds off)
  split_result b off (before, (rem, front ∷ other)) =
      if ltb 0 rem
      then (do
        head ← checked (subslice front 0 rem)
        tail ← checked (offset front rem)
        ok (
          record b { buffers = before ++ head ∷ [] },
          record { buffers = tail ∷ other; bytes_consumed = 0; dirty = [] },
        ))
      else ok (
        record b { buffers = before },
        record { buffers = front ∷ other; bytes_consumed = 0; dirty = [] },
      )

  unfoldable pub split_at : IoBuffers → ℕ → Outcome TransportError (IoBuffers × IoBuffers)
  unfolding cut_at
  split_at b off = split_result b off (cut_at b.buffers off)

  -- The copying of `read`: the bytes that come to lie in a buffer of `rem` bytes, and their number.
  unfoldable pub copy_out : List Slice → ℕ → ℕ × List ℕ
  copy_out [] rem = (0, [])
  copy_out (buf ∷ bufs) rem =
      let copy_len = (if ltb rem (len buf) then rem else len buf) in
      let (total, out) = copy_out bufs (rem - copy_len) in
      (copy_len + total, take copy_len (bytes buf) ++ out)

  -- `read` of Reader into a buffer of `size` bytes; a Reader is its IoBuffers.
  unfoldable pub read : IoBuffers → ℕ → Outcome TransportError (IoBuffers × (ℕ × List ℕ))
  unfolding consume copy_out
  read b size = consume false size (λ bufs. ok (copy_out bufs size)) [] b

  -- `read_exact` of std::io::Read, with what is left to read and what was read; `none` is for fuel
  -- that ran out.
  unfoldable pub read_exact_loop :
      ℕ → IoBuffers → ℕ → List ℕ → Option (Outcome TransportError (IoBuffers × List ℕ))
  unfolding read
  read_exact_loop zero b size done = none
  read_exact_loop (suc fuel) b size done = elim (size == 0) [
    | true ↦ some (ok (b, done))
    | false ↦ elim (read b size) [
      | err e ↦ some (err e)
      | panic ↦ some panic
      | ok (b', (n, out)) ↦ elim (n == 0) [
        | true ↦ some (err unexpected_eof)
        | false ↦ read_exact_loop fuel b' (size - n) (done ++ out)
      ]
    ]
  ]

  -- `read_obj` of a type of `size` bytes: its bytes.
  unfoldable pub read_obj : IoBuffers → ℕ → Option (Outcome TransportError (IoBuffers × List ℕ))
  unfolding read_exact_loop
  read_obj b size = read_exact_loop (suc size) b size []

  -- `read_to` and `read_to_at`: the file answers with the number of bytes that it took.
  unfoldable pub read_to :
      (List Slice → Outcome TransportError ℕ)
      → IoBuffers
      → ℕ
      → Outcome TransportError (IoBuffers × (ℕ × Unit {0}))
  unfolding consume
  read_to dst b count = consume false count (λ bufs. do n ← dst bufs; ok (n, tt)) tt b
