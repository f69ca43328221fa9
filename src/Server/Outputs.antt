-- ===== src/Server/Outputs.antt =====
-- The structures of src/abi/fuse_abi_linux.rs that the replies to single requests carry.
use fuse_backend_rs.Prelude.{ℕ, List, ◌++◌, Option, none, some}
use fuse_backend_rs.Prelude.Words.{to_bytes}
use fuse_backend_rs.Server.Wire.{Stat64, Duration, Entry, entry_out, attr_with_flags}
use fuse_backend_rs.Server.Request.{FileLock, Statvfs64, Opened}

-- `unwrap_or(0)`
abbrev pub or_zero : Option ℕ → ℕ
or_zero none = 0
or_zero (some n) = n

abbrev pub attr_out : Stat64 → Duration → List ℕ
attr_out st timeout =
    to_bytes 8 timeout.as_secs
    ++ (to_bytes 4 timeout.subsec_nanos ++ (to_bytes 4 0 ++ attr_with_flags st 0))

-- `EntryOut` as `create` fills it: the flags of the attributes are not passed on.
abbrev pub created_out : Entry → List ℕ
created_out e = entry_out (record e { attr_flags = 0 })

abbrev pub open_out : Opened → List ℕ
open_out o =
    to_bytes 8 (or_zero o.handle) ++ (to_bytes 4 o.opts ++ to_bytes 4 (or_zero o.passthrough))

-- `WriteOut`, and `GetxattrOut` and `PollOut`, which have the same fields.
abbrev pub word_out : ℕ → List ℕ
word_out n = to_bytes 4 n ++ to_bytes 4 0

-- `Kstatfs`
abbrev pub kstatfs : Statvfs64 → List ℕ
kstatfs st =
    to_bytes 8 st.blocks
    ++ (to_bytes 8 st.bfree
        ++ (to_bytes 8 st.bavail
            ++ (to_bytes 8 st.files
                ++ (to_bytes 8 st.ffree
                    ++ (to_bytes 4 st.bsize
                        ++ (to_bytes 4 st.namemax
                            ++ (to_bytes 4 st.frsize ++ (to_bytes 4 0 ++ to_bytes 24 0))))))))

-- `LkOut`
abbrev pub lk_out : FileLock → List ℕ
lk_out l = to_bytes 8 l.start ++ (to_bytes 8 l.end ++ (to_bytes 4 l.type_ ++ to_bytes 4 l.pid))

-- `BmapOut` and `LseekOut`
abbrev pub long_out : ℕ → List ℕ
long_out n = to_bytes 8 n

abbrev pub ioctl_out : ℕ → List ℕ
ioctl_out n = to_bytes 4 n ++ to_bytes 12 0
