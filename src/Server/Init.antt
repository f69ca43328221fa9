-- ===== src/Server/Init.antt =====
-- `init` of src/api/server/sync_io.rs, on Linux.
use fuse_backend_rs.Prelude.{
  ℕ, ◌-◌, ◌*◌, ◌/◌, ◌^◌, ◌%◌, Bool, Option, none, some, List, [], ◌++◌, ◌==◌, ltb, take, replicate,
  if◌then◌else◌, bit_and, bit_or, ◌⊎◌, inl,
}
use fuse_backend_rs.Prelude.Outcome.{Outcome, ok, err, panic}
use fuse_backend_rs.Prelude.Words.{to_bytes, field}
use fuse_backend_rs.Fusedev.{Dev, IoError, raw_os_error}
use fuse_backend_rs.Server.{Error, decode_message}
use fuse_backend_rs.Server.Reply.{reply_ok, do_reply_error}
use fuse_backend_rs.Transport.{IoBuffers, TransportError, read_obj}
use fuse_backend_rs.Transport.Volatile.{VolatileSlices}

abbrev pub kernel_version : ℕ
kernel_version = 7

abbrev pub kernel_minor_version : ℕ
kernel_minor_version = 33

abbrev pub eproto : ℕ
eproto = 71

-- Flags of FsOptions.
abbrev pub big_writes : ℕ
big_writes = 0x20

abbrev pub max_pages_flag : ℕ
max_pages_flag = 0x40_0000

abbrev pub init_ext : ℕ
init_ext = 0x4000_0000

-- `MAX_REQ_PAGES`, and the least `max_write`.
abbrev pub max_req_pages : ℕ
max_req_pages = 256

abbrev pub min_max_write : ℕ
min_max_write = 8192 - 0x1000

-- `ServerVersion`
pub record ServerVersion : Type 0 where
  pub major : ℕ
  pub minor : ℕ

-- The fields that `init` sets; the others are zero.
pub record InitOut : Type 0 where
  pub minor : ℕ
  pub max_readahead : ℕ
  pub flags : ℕ
  pub max_background : ℕ
  pub congestion_threshold : ℕ
  pub max_write : ℕ
  pub time_gran : ℕ
  pub max_pages : ℕ

-- The structure in memory; the high half of `flags` is its field `flags2`.
unfoldable pub init_out : InitOut → List ℕ
init_out o =
    to_bytes 4 kernel_version
    ++ (to_bytes 4 o.minor
        ++ (to_bytes 4 o.max_readahead
            ++ (to_bytes 4 o.flags
                ++ (to_bytes 2 o.max_background
                    ++ (to_bytes 2 o.congestion_threshold
                        ++ (to_bytes 4 o.max_write
                            ++ (to_bytes 4 o.time_gran
                                ++ (to_bytes 2 o.max_pages
                                    ++ (to_bytes 2 0
                                        ++ (to_bytes 4 (o.flags / 2 ^ 32)
                                            ++ replicate 28 0))))))))))

-- The answer to a kernel of a later major version.
abbrev pub version_only : InitOut
version_only = record {
  minor = kernel_minor_version;
  max_readahead = 0;
  flags = 0;
  max_background = 0;
  congestion_threshold = 0;
  max_write = 0;
  time_gran = 0;
  max_pages = 0;
}

-- Which parts of the structure a kernel of that minor version knows.
abbrev pub known_part : ℕ → List ℕ → List ℕ
known_part minor out =
    if ltb minor 5 then take 8 out else (if ltb minor 23 then take 24 out else out)

abbrev pub has : ℕ → ℕ → Bool
has opts flag = bit_and opts flag == flag

-- `page` is the size of a page.
abbrev pub enabled_out : ℕ → ℕ → ℕ → InitOut
enabled_out page max_readahead enabled = record {
  minor = kernel_minor_version;
  max_readahead = max_readahead;
  flags = enabled;
  max_background = 65535;
  congestion_threshold = 65535 / 4 * 3;
  max_write =
      (if has enabled max_pages_flag
        then max_req_pages * page % 2 ^ 32
        else (if has enabled big_writes then max_req_pages * page % 2 ^ 32 else min_max_write));
  time_gran = 1;
  max_pages = (if has enabled max_pages_flag then max_req_pages else 0);
}

-- `flags` are those that FsOptions names, `page` the size of a page, and `fs_init` the file system's
-- `init` on its state.
module _ {F : Type 0} (fs_options page : ℕ) (fs_init : ℕ → F → F × Outcome IoError ℕ) where
  module _ (device : List (List ℕ) → List ℕ → ℕ ⊎ ℕ) (unique : ℕ) where
    -- The version that is kept, the file system's state, and the reply.
    abbrev pub started :
        ServerVersion
        → ℕ
        → ℕ
        → ℕ
        → F × Outcome IoError ℕ
        → Dev
        → ServerVersion × F × (Dev × Outcome Error ℕ)
    started vers minor max_readahead capable (fs, ok want) d = (
      record { major = kernel_version; minor = minor },
      fs,
      reply_ok device unique
          (known_part minor (init_out (enabled_out page max_readahead (bit_and capable want)))) []
          d,
    )
    started vers minor max_readahead capable (fs, err e) d =
        (vers, fs, do_reply_error device unique e d)
    started vers minor max_readahead capable (fs, panic) d = (vers, fs, (d, panic))

    abbrev pub with_flags :
        ServerVersion → ℕ → ℕ → ℕ → F → Dev → ServerVersion × F × (Dev × Outcome Error ℕ)
    with_flags vers minor max_readahead flags fs d =
        started vers minor max_readahead (bit_and flags fs_options)
          (fs_init (bit_and flags fs_options) fs) d

    module _ (slices : VolatileSlices) where
      -- The structure that comes after the first, if the flags say so.
      abbrev pub extended :
          ServerVersion
          → ℕ
          → ℕ
          → ℕ
          → F
          → Dev
          → Option (Outcome TransportError (IoBuffers slices × List ℕ))
          → Option (ServerVersion × F × (Dev × Outcome Error ℕ))
      extended vers minor max_readahead flags fs d none = none
      extended vers minor max_readahead flags fs d (some panic) = some (vers, fs, (d, panic))
      extended vers minor max_readahead flags fs d (some (err e)) =
          some (vers, fs, (d, err (decode_message (inl e))))
      extended vers minor max_readahead flags fs d (some (ok (r, init_in2))) =
          some
            (with_flags vers minor max_readahead (bit_or flags (field 0 4 init_in2 * 2 ^ 32)) fs d)

      -- A kernel of the server's own major version.
      abbrev pub same_major :
          ServerVersion
          → ℕ
          → ℕ
          → ℕ
          → IoBuffers slices
          → F
          → Dev
          → Option (ServerVersion × F × (Dev × Outcome Error ℕ))
      same_major vers minor max_readahead flags r fs d =
          if bit_and flags init_ext == 0
          then some (with_flags vers minor max_readahead flags fs d)
          else extended vers minor max_readahead flags fs d (read_obj slices r 48)

      abbrev pub negotiated :
          ServerVersion
          → F
          → Dev
          → Option (Outcome TransportError (IoBuffers slices × List ℕ))
          → Option (ServerVersion × F × (Dev × Outcome Error ℕ))
      negotiated vers fs d none = none
      negotiated vers fs d (some panic) = some (vers, fs, (d, panic))
      negotiated vers fs d (some (err e)) = some (vers, fs, (d, err (decode_message (inl e))))
      negotiated vers fs d (some (ok (r, init_in))) =
          if ltb (field 0 4 init_in) kernel_version
          then some (vers, fs, do_reply_error device unique (raw_os_error eproto) d)
          else (if ltb kernel_version (field 0 4 init_in)
              then some (vers, fs, reply_ok device unique (init_out version_only) [] d)
              else same_major vers (field 4 4 init_in) (field 8 4 init_in) (field 12 4 init_in) r fs
                  d)

      -- `none` is for fuel of a reader that ran out.
      unfoldable pub init :
          ServerVersion
          → IoBuffers slices
          → F
          → Dev
          → Option (ServerVersion × F × (Dev × Outcome Error ℕ))
      init vers r fs d = negotiated vers fs d (read_obj slices r 16)
