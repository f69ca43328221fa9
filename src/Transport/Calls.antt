-- ===== src/Transport/Calls.antt =====
-- What the reader of src/transport/mod.rs promises: a stream of bytes.
use fuse_backend_rs.Prelude.{ℕ, ◌+◌, List, [], ◌∷◌, ltb, if◌then◌else◌, length, take, drop}
use fuse_backend_rs.Prelude.Outcome.{Outcome, ok, err, ◌>>=◌}
use fuse_backend_rs.Transport.{TransportError, unexpected_eof, split_out_of_bounds}

-- A call of a reader: `read` into so many bytes, `read_obj` of a type of so many bytes, `split_at`.
pub data ReaderCall : Type 0 where
  reads reads_obj splits_at : ℕ → ReaderCall

-- The specification: the bytes that are left, and how many were read.
pub record Stream : Type 0 where
  pub left : List ℕ
  pub bytes_read : ℕ

abbrev pub advance : Stream → ℕ → Stream
advance s n = record { left = drop n s.left; bytes_read = s.bytes_read + length (take n s.left) }

-- Each call answers with bytes: those that were read, or those of the reader that is split off.
abbrev pub step : Stream → ReaderCall → Outcome TransportError (Stream × List ℕ)
step s (reads n) = ok (advance s n, take n s.left)
step s (reads_obj n) =
    if ltb (length s.left) n then err unexpected_eof else ok (advance s n, take n s.left)
step s (splits_at n) =
    if ltb (length s.left) n
    then err (split_out_of_bounds n)
    else ok (record s { left = take n s.left }, drop n s.left)

-- Several calls, up to the first that fails.
unfoldable pub run : Stream → List ReaderCall → Outcome TransportError (List (List ℕ))
run s [] = ok []
run s (call ∷ calls) = do (s', bytes) ← step s call; rest ← run s' calls; ok (bytes ∷ rest)
