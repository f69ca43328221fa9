-- ===== src/Server/Notify.antt =====
-- The notices to the kernel in src/api/server/sync_io.rs.
use fuse_backend_rs.Prelude.{ℕ, ◌+◌, ◌-◌, ◌^◌, ◌%◌, none, List, [], ◌∷◌, ◌++◌, length, ◌⊎◌}
use fuse_backend_rs.Prelude.Outcome.{Outcome, ok, err, panic}
use fuse_backend_rs.Prelude.Run.{Run, result, map_err, ◌>>◌}
use fuse_backend_rs.Prelude.Words.{to_bytes}
use fuse_backend_rs.Fusedev.{Dev, FuseDevWriter, split_writer, write, write_all, commit}
use fuse_backend_rs.Transport.{TransportError}
use fuse_backend_rs.Server.{Error, failed_to_write, failed_to_split_writer, invalid_message}
use fuse_backend_rs.Server.Wire.{out_header, out_header_size}

-- `NotifyInvalEntryOut` of src/abi/fuse_abi_linux.rs; its padding is zero.
pub record NotifyInvalEntryOut : Type 0 where
  pub parent : ℕ
  pub namelen : ℕ

abbrev pub notify_inval_entry_out : NotifyInvalEntryOut → List ℕ
notify_inval_entry_out e = to_bytes 8 e.parent ++ (to_bytes 4 e.namelen ++ to_bytes 4 0)

-- `NotifyOpcode`
abbrev pub inval_entry : ℕ
inval_entry = 3

abbrev pub resend : ℕ
resend = 7

module _ (device : List (List ℕ) → List ℕ → ℕ ⊎ ℕ) where
  -- The second of the two writers, with the state for it.
  abbrev pub on_second :
      {A : Type 0}
      → Run Dev Error A
      → Dev
      → Outcome TransportError (FuseDevWriter × FuseDevWriter)
      → Dev × Outcome Error A
  on_second notice d (ok (w, buffer_writer)) = notice (record d { writer = buffer_writer })
  on_second notice d (err e) = (d, err (failed_to_split_writer e))
  on_second notice d panic = (d, panic)

  abbrev pub inval_entry_notice : ℕ → List ℕ → Run Dev Error ℕ
  inval_entry_notice parent name = do
    let name_with_null = name ++ 0 ∷ []
    let len = out_header_size + 16 + length name_with_null
    map_err failed_to_write (
        write_all device
          (out_header (record { len = len % 2 ^ 32; error = inval_entry; unique = 0 })))
    map_err failed_to_write (
        write_all device (
          notify_inval_entry_out
            (record { parent = parent; namelen = (length name_with_null - 1) % 2 ^ 32 })))
    map_err failed_to_write (write device name_with_null)
    map_err invalid_message (commit device none)

  unfoldable pub notify_inval_entry : ℕ → List ℕ → Run Dev Error ℕ
  notify_inval_entry parent name d =
      on_second (inval_entry_notice parent name) d (split_writer d.writer 0)

  abbrev pub resend_notice : Run Dev Error (Unit {0})
  resend_notice = do
    map_err failed_to_write
        (write_all device (out_header (record { len = 0; error = resend; unique = 0 })))
    map_err invalid_message (commit device none)
    result (ok tt)

  unfoldable pub notify_resend : Run Dev Error (Unit {0})
  notify_resend d = on_second resend_notice d (split_writer d.writer 0)
