-- ===== src/Server/Reply.antt =====
-- The replies of src/api/server/sync_io.rs over the writer of the FUSE device.
use fuse_backend_rs.Prelude.{ℕ, ◌+◌, ◌^◌, ◌%◌, List, [], ◌∷◌, none, length, ◌⊎◌}
use fuse_backend_rs.Prelude.Outcome.{ok}
use fuse_backend_rs.Prelude.Run.{Run, result, get_state, map_err, ◌>>=◌, ◌>>◌}
use fuse_backend_rs.Fusedev.{
  Dev, IoError, IoErrorKind, raw_os_error, of_kind, permission_denied, not_found, interrupted,
  already_exists, would_block, bytes_written, write, write_vectored, write_all, commit,
}
use fuse_backend_rs.Server.{Error, encode_message}
use fuse_backend_rs.Server.Wire.{out_header, out_header_size, negative}

-- `encode_io_error_kind` of src/lib.rs; EPERM | EACCES is EACCES.
abbrev pub encode_io_error_kind : IoErrorKind → ℕ
encode_io_error_kind permission_denied = 13
encode_io_error_kind not_found = 2
encode_io_error_kind interrupted = 4
encode_io_error_kind already_exists = 17
encode_io_error_kind would_block = 11
encode_io_error_kind other = 5

abbrev pub error_code : IoError → ℕ
error_code (raw_os_error e) = e
error_code (of_kind kind) = encode_io_error_kind kind

module _ (device : List (List ℕ) → List ℕ → ℕ ⊎ ℕ) (unique : ℕ) where
  -- The four ways to write the header with what there is behind it.
  abbrev pub write_parts : List ℕ → List ℕ → List ℕ → Run Dev IoError ℕ
  write_parts header [] [] = write device header
  write_parts header [] (c ∷ data3) = write_vectored device (header ∷ (c ∷ data3) ∷ [])
  write_parts header (b ∷ data2) [] = write_vectored device (header ∷ (b ∷ data2) ∷ [])
  write_parts header (b ∷ data2) (c ∷ data3) =
      write_vectored device (header ∷ (b ∷ data2) ∷ (c ∷ data3) ∷ [])

  -- `out` holds the bytes of the structure, and is empty for `None`; so is `data`.
  unfoldable pub reply_ok : List ℕ → List ℕ → Run Dev Error ℕ
  reply_ok out data3 = do
    let len = out_header_size + length out + length data3
    let header = out_header (record { len = len % 2 ^ 32; error = 0; unique = unique })
    map_err encode_message (write_parts header out data3)
    d ← get_state
    result (ok (bytes_written d.writer))

  -- `explicit` makes a difference to the log only.
  unfoldable pub do_reply_error : IoError → Run Dev Error ℕ
  do_reply_error e = do
    let header =
        out_header
          (record { len = out_header_size; error = negative (error_code e); unique = unique })
    map_err encode_message (write_all device header)
    map_err encode_message (commit device none)
    d ← get_state
    result (ok (bytes_written d.writer))
