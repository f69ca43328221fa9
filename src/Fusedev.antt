-- ===== src/Fusedev.antt =====
-- src/transport/fusedev/mod.rs: the writer of replies to the FUSE device.
pub mod Messages
use fuse_backend_rs.Prelude.{
  ℕ, zero, suc, ◌+◌, ◌-◌, Bool, true, false, not, ◌&&◌, ◌||◌, Option, none, some, List, [], ◌∷◌,
  ◌++◌, ◌==◌, ltb, if◌then◌else◌, length, take, drop, ◌⊎◌, inl, inr,
}
use fuse_backend_rs.Prelude.Outcome.{Outcome, ok, err, panic}
use fuse_backend_rs.Prelude.Run.{Run, result, get_state, set_state, goes_on, map_err, ◌>>=◌, ◌>>◌}
use fuse_backend_rs.Transport.{TransportError, split_out_of_bounds}

-- `io::ErrorKind`, as far as the crate names them.
pub data IoErrorKind : Type 0 where
  permission_denied not_found interrupted already_exists would_block : IoErrorKind
  invalid_data write_zero unexpected_eof other_kind : IoErrorKind

-- `io::Error`: with the operating system's number, or of a kind only.
pub data IoError : Type 0 where
  raw_os_error : ℕ → IoError
  of_kind : IoErrorKind → IoError

-- The memory that the writer's Vec lies over, which is as long as its capacity, and the Vec's length.
pub record FuseDevWriter : Type 0 where
  pub buffered : Bool
  pub memory : List ℕ
  pub len : ℕ

-- What the device was given, message by message, and the writer in use.
pub record Dev : Type 0 where
  pub sent : List (List ℕ)
  pub writer : FuseDevWriter

abbrev pub capacity : FuseDevWriter → ℕ
capacity w = length w.memory

-- `buf.as_slice()`
abbrev pub as_slice : FuseDevWriter → List ℕ
as_slice w = take w.len w.memory

abbrev pub bytes_written : FuseDevWriter → ℕ
bytes_written w = w.len

abbrev pub writer_available : FuseDevWriter → ℕ
writer_available w = capacity w - w.len

abbrev pub new_writer : List ℕ → FuseDevWriter
new_writer data_buf = record { buffered = false; memory = data_buf; len = 0 }

-- `extend_from_slice`, where the capacity lasts.
abbrev pub extend_from_slice : FuseDevWriter → List ℕ → FuseDevWriter
extend_from_slice w bytes = record w {
  memory = take w.len w.memory ++ (bytes ++ drop (w.len + length bytes) w.memory);
  len = w.len + length bytes;
}

abbrev pub account_written : FuseDevWriter → ℕ → FuseDevWriter
account_written w count = record w { len = w.len + count }

-- The two writers, with their lengths.
abbrev halves : FuseDevWriter → ℕ → ℕ × ℕ → FuseDevWriter × FuseDevWriter
halves w offset (len1, len2) = (
  record { buffered = true; memory = take offset w.memory; len = len1 },
  record { buffered = true; memory = drop offset w.memory; len = len2 },
)

unfoldable pub split_writer :
    FuseDevWriter → ℕ → Outcome TransportError (FuseDevWriter × FuseDevWriter)
split_writer w offset =
    if ltb (capacity w) offset
    then err (split_out_of_bounds offset)
    else ok (halves w offset (if ltb offset w.len then (offset, w.len - offset) else (w.len, 0)))

-- The answer, from the assertion and from the test.
abbrev spare : Bool → Bool → Run Dev IoError (Unit {0})
spare false beyond = result panic
spare true true = result (err (of_kind invalid_data))
spare true false = result (ok tt)

unfoldable pub check_available_space : ℕ → Run Dev IoError (Unit {0})
check_available_space sz = do
  d ← get_state
  spare (d.writer.buffered || (d.writer.len == 0)) (ltb (writer_available d.writer) sz)

-- The bytes of several slices, one behind the other.
abbrev pub joined : List (List ℕ) → List ℕ
joined [] = []
joined (b ∷ bufs) = b ++ joined bufs

-- `iter().fold(0, |acc, x| acc + x.len())`
abbrev pub total_of : List (List ℕ) → ℕ
total_of [] = 0
total_of (b ∷ bufs) = length b + total_of bufs

-- The buffered branch of `write_vectored`.
abbrev pub extend_all : FuseDevWriter → List (List ℕ) → FuseDevWriter
extend_all w [] = w
extend_all w ([] ∷ bufs) = extend_all w bufs
extend_all w ((b ∷ bs) ∷ bufs) = extend_all (extend_from_slice w (b ∷ bs)) bufs

-- The device answers a write, after what it was given before, with a number of bytes or an errno.
module _ (device : List (List ℕ) → List ℕ → ℕ ⊎ ℕ) where
  -- `write` and `writev` of the operating system.
  abbrev pub answered : List ℕ → Dev → ℕ ⊎ ℕ → Dev × Outcome ℕ ℕ
  answered bytes d (inl errno) = (d, err errno)
  answered bytes d (inr count) = (record d { sent = d.sent ++ take count bytes ∷ [] }, ok count)

  abbrev pub os_write : List ℕ → Run Dev ℕ ℕ
  os_write bytes d = answered bytes d (device d.sent bytes)

  abbrev pub do_write : List ℕ → Run Dev IoError ℕ
  do_write bytes = map_err (λ errno. of_kind other_kind) (os_write bytes)

  -- The bytes that the writer keeps.
  abbrev keep : FuseDevWriter → ℕ → Run Dev IoError ℕ
  keep w count d = (record d { writer = w }, ok count)

  -- The bytes that go to the device, and are accounted for.
  abbrev pass : List ℕ → Run Dev IoError ℕ
  pass bytes = do x ← do_write bytes; d ← get_state; keep (account_written d.writer x) x

  unfoldable pub write : List ℕ → Run Dev IoError ℕ
  unfolding check_available_space
  write bytes = do
    check_available_space (length bytes)
    d ← get_state
    if d.writer.buffered then keep (extend_from_slice d.writer bytes) (length bytes) else pass bytes

  unfoldable pub write_vectored : List (List ℕ) → Run Dev IoError ℕ
  unfolding check_available_space
  write_vectored bufs = do
    check_available_space (total_of bufs)
    d ← get_state
    if d.writer.buffered
        then keep (extend_all d.writer bufs) (total_of bufs)
        else (elim bufs [ [] ↦ result (ok 0) | b ∷ more ↦ pass (joined (b ∷ more)) ])

  -- `write_all` of std::io::Write; the fuel is one more than the bytes are.
  abbrev pub write_rest :
      (List ℕ → Run Dev IoError (Unit {0}))
      → List ℕ
      → Dev × Outcome IoError ℕ
      → Dev × Outcome IoError (Unit {0})
  write_rest again bytes (d, ok zero) = (d, err (of_kind write_zero))
  write_rest again bytes (d, ok (suc n)) = again (drop (suc n) bytes) d
  write_rest again bytes (d, err (of_kind interrupted)) = again bytes d
  write_rest again bytes (d, err e) = (d, err e)
  write_rest again bytes (d, panic) = (d, panic)

  unfoldable pub write_all_loop : ℕ → List ℕ → Run Dev IoError (Unit {0})
  unfolding write
  write_all_loop zero bytes d = (d, panic)
  write_all_loop (suc fuel) [] d = (d, ok tt)
  write_all_loop (suc fuel) (b ∷ bytes) d =
      write_rest (λ rest. write_all_loop fuel rest) (b ∷ bytes) (write (b ∷ bytes) d)

  unfoldable pub write_all : List ℕ → Run Dev IoError (Unit {0})
  unfolding write_all_loop
  write_all bytes = write_all_loop (suc (length bytes)) bytes

  -- `commit`, with the bytes of the other writer.
  abbrev pub issue : List ℕ → List ℕ → Run Dev ℕ ℕ
  issue [] [] = result (ok 0)
  issue own other = os_write (own ++ other)

  abbrev pub slice_of : Option FuseDevWriter → List ℕ
  slice_of none = []
  slice_of (some w) = as_slice w

  unfoldable pub commit : Option FuseDevWriter → Run Dev IoError ℕ
  commit other d =
      if d.writer.buffered
      then map_err raw_os_error (issue (as_slice d.writer) (slice_of other)) d
      else (d, ok 0)
