-- ===== src/Server/ReadDir.antt =====
-- `add_dirent` and `do_readdir` of src/api/server/sync_io.rs.
use fuse_backend_rs.Prelude.{
  ℕ, ◌+◌, ◌-◌, ◌*◌, ◌/◌, ◌^◌, ◌%◌, List, [], ◌∷◌, Option, none, some, length, take, ltb, leb,
  if◌then◌else◌, ◌⊎◌, inl, inr,
}
use fuse_backend_rs.Prelude.Outcome.{Outcome, ok, err, panic}
use fuse_backend_rs.Prelude.Run.{Run, result, get_state, map_err, ◌>>=◌, ◌>>◌}
use fuse_backend_rs.Fs.{u64_mod}
use fuse_backend_rs.Fusedev.{
  Dev, FuseDevWriter, IoError, raw_os_error, bytes_written, writer_available, split_writer,
  write_all, commit,
}
use fuse_backend_rs.Transport.{TransportError}
use fuse_backend_rs.Server.{Error, encode_message, invalid_header_length}
use fuse_backend_rs.Server.Reply.{do_reply_error}
use fuse_backend_rs.Server.Wire.{
  out_header, out_header_size, Entry, entry_out, entry_out_size, dirent, dirent_size,
}

-- `DirEntry` of src/api/filesystem/mod.rs.
pub record DirEntry : Type 0 where
  pub ino : ℕ
  pub offset : ℕ
  pub type_ : ℕ
  pub name : List ℕ

abbrev pub eoverflow : ℕ
eoverflow = 75

abbrev pub enomem : ℕ
enomem = 12

-- `checked_add(..).ok_or_else(..)?` with EOVERFLOW
abbrev pub checked_add : ℕ → ℕ → Run Dev IoError ℕ
checked_add a b =
    if leb u64_mod (a + b) then result (err (raw_os_error eoverflow)) else result (ok (a + b))

abbrev pub dirent_padding : List ℕ
dirent_padding = 0 ∷ 0 ∷ 0 ∷ 0 ∷ 0 ∷ 0 ∷ 0 ∷ 0 ∷ []

-- A file system's answer to readdir or readdirplus: it offers entries, goes on from the answer to
-- each (an error or the number of bytes added), and ends with a result.
pub data Driver : Type 0 where
  finish : Outcome IoError (Unit {0}) → Driver
  offers : DirEntry → Option Entry → (IoError ⊎ ℕ → Driver) → Driver

pub record ReadIn : Type 0 where
  pub fh : ℕ
  pub offset : ℕ
  pub size : ℕ

module _ (device : List (List ℕ) → List ℕ → ℕ ⊎ ℕ) where
  -- `total_len`
  abbrev pub with_entry : Option Entry → ℕ → Run Dev IoError ℕ
  with_entry none padded = result (ok padded)
  with_entry (some e) padded = checked_add padded entry_out_size

  abbrev pub write_entry : Option Entry → Run Dev IoError (Unit {0})
  write_entry none = result (ok tt)
  write_entry (some e) = write_all device (entry_out e)

  abbrev pub write_padding : ℕ → Run Dev IoError (Unit {0})
  write_padding padding =
      if ltb 0 padding then write_all device (take padding dirent_padding) else result (ok tt)

  -- What is written of an entry.
  abbrev pub write_dirent : DirEntry → Option Entry → ℕ → ℕ → Run Dev IoError ℕ
  write_dirent d entry padding total_len = do
    write_entry entry
    write_all device
        (dirent (record { ino = d.ino; off = d.offset; namelen = length d.name; type_ = d.type_ }))
    write_all device d.name
    write_padding padding
    result (ok total_len)

  unfoldable pub add_dirent : ℕ → DirEntry → Option Entry → Run Dev IoError ℕ
  add_dirent max d entry =
      if ltb (2 ^ 32 - 1) (length d.name) then result (err (raw_os_error eoverflow)) else (do
        dirent_len ← checked_add dirent_size (length d.name)
        rounded ← checked_add dirent_len 7
        let padded_dirent_len = rounded / 8 * 8
        total_len ← with_entry entry padded_dirent_len
        cursor ← get_state
        if ltb (max - bytes_written cursor.writer) total_len
            then result (ok 0)
            else write_dirent d entry (padded_dirent_len - dirent_len) total_len)

  -- What the file system does after the answer to an entry.
  abbrev pub reacted :
      (IoError ⊎ ℕ → Run Dev IoError (Unit {0}))
      → Dev × Outcome IoError ℕ
      → Dev × Outcome IoError (Unit {0})
  reacted next (d, ok n) = next (inr n) d
  reacted next (d, err e) = next (inl e) d
  reacted next (d, panic) = (d, panic)

  -- The file system and the closure that it calls; a panic there ends it.
  unfoldable pub drive : ℕ → Driver → Run Dev IoError (Unit {0})
  drive max (finish o) d = (d, o)
  drive max (offers entry plus next) d =
      reacted (λ answer. drive max (next answer)) (add_dirent max entry plus d)

  -- The reply to a listing, with the header's writer and the entries'.
  abbrev pub finish_listing :
      ℕ → FuseDevWriter → Dev × Outcome IoError (Unit {0}) → Dev × Outcome Error ℕ
  finish_listing unique w (d, panic) = (d, panic)
  finish_listing unique w (d, err e) = do_reply_error device unique e (record d { writer = w })
  finish_listing unique w (d, ok done) =
      (do
        let len = (out_header_size + bytes_written d.writer) % 2 ^ 32
        map_err encode_message
            (write_all device (out_header (record { len = len; error = 0; unique = unique })))
        map_err encode_message (commit device (some d.writer))
        result (ok len))
        (record d { writer = w })

  -- The listing, once room for the header was split off.
  abbrev pub list_entries :
      ℕ
      → Driver
      → ℕ
      → Dev
      → Outcome TransportError (FuseDevWriter × FuseDevWriter)
      → Dev × Outcome Error ℕ
  list_entries unique driver size d panic = (d, panic)
  list_entries unique driver size d (err e) = (d, err invalid_header_length)
  list_entries unique driver size d (ok (w, cursor)) =
      finish_listing unique w (drive size driver (record d { writer = cursor }))

  unfoldable pub do_readdir : ℕ → (ReadIn → Driver) → ReadIn → Run Dev Error ℕ
  do_readdir unique fs request d =
      if ltb (writer_available d.writer) request.size
      then do_reply_error device unique (raw_os_error enomem) d
      else list_entries unique (fs request) request.size d (split_writer d.writer out_header_size)
