-- ===== src/Server/Wire.antt =====
-- The structures of src/abi/fuse_abi_linux.rs that replies carry, as they lie in memory on a machine
-- that keeps the lowest byte first, and `Entry` of src/api/filesystem/mod.rs with all its fields.
use fuse_backend_rs.Prelude.{ℕ, List, ◌++◌, ◌-◌, ◌^◌, ◌%◌}
use fuse_backend_rs.Prelude.Words.{to_bytes}

pub record OutHeader : Type 0 where
  pub len : ℕ
  pub error : ℕ
  pub unique : ℕ

abbrev pub out_header : OutHeader → List ℕ
out_header h = to_bytes 4 h.len ++ (to_bytes 4 h.error ++ to_bytes 8 h.unique)

-- `size_of::<OutHeader>()`
abbrev pub out_header_size : ℕ
out_header_size = 16

-- `-x` of an i32, as its 32 bits.
abbrev pub negative : ℕ → ℕ
negative x = (2 ^ 32 - x % 2 ^ 32) % 2 ^ 32

-- `stat64`; signed fields are their 64 bits.
pub record Stat64 : Type 0 where
  pub ino : ℕ
  pub size : ℕ
  pub blocks : ℕ
  pub atime : ℕ
  pub mtime : ℕ
  pub ctime : ℕ
  pub atime_nsec : ℕ
  pub mtime_nsec : ℕ
  pub ctime_nsec : ℕ
  pub mode : ℕ
  pub nlink : ℕ
  pub uid : ℕ
  pub gid : ℕ
  pub rdev : ℕ
  pub blksize : ℕ

pub record Duration : Type 0 where
  pub as_secs : ℕ
  pub subsec_nanos : ℕ

pub record Entry : Type 0 where
  pub inode : ℕ
  pub generation : ℕ
  pub attr : Stat64
  pub attr_flags : ℕ
  pub attr_timeout : Duration
  pub entry_timeout : Duration

-- `Attr::with_flags`
abbrev pub attr_with_flags : Stat64 → ℕ → List ℕ
attr_with_flags st flags =
    to_bytes 8 st.ino
    ++ (to_bytes 8 st.size
        ++ (to_bytes 8 st.blocks
            ++ (to_bytes 8 st.atime
                ++ (to_bytes 8 st.mtime
                    ++ (to_bytes 8 st.ctime
                        ++ (to_bytes 4 st.atime_nsec
                            ++ (to_bytes 4 st.mtime_nsec
                                ++ (to_bytes 4 st.ctime_nsec
                                    ++ (to_bytes 4 st.mode
                                        ++ (to_bytes 4 st.nlink
                                            ++ (to_bytes 4 st.uid
                                                ++ (to_bytes 4 st.gid
                                                    ++ (to_bytes 4 st.rdev
                                                        ++ (to_bytes 4 st.blksize
                                                            ++ to_bytes 4 flags))))))))))))))

-- `EntryOut::from`
unfoldable pub entry_out : Entry → List ℕ
entry_out e =
    to_bytes 8 e.inode
    ++ (to_bytes 8 e.generation
        ++ (to_bytes 8 e.entry_timeout.as_secs
            ++ (to_bytes 8 e.attr_timeout.as_secs
                ++ (to_bytes 4 e.entry_timeout.subsec_nanos
                    ++ (to_bytes 4 e.attr_timeout.subsec_nanos
                        ++ attr_with_flags e.attr e.attr_flags)))))

-- `size_of::<EntryOut>()`
abbrev pub entry_out_size : ℕ
entry_out_size = 128

pub record Dirent : Type 0 where
  pub ino : ℕ
  pub off : ℕ
  pub namelen : ℕ
  pub type_ : ℕ

unfoldable pub dirent : Dirent → List ℕ
dirent d = to_bytes 8 d.ino ++ (to_bytes 8 d.off ++ (to_bytes 4 d.namelen ++ to_bytes 4 d.type_))

-- `size_of::<Dirent>()`
abbrev pub dirent_size : ℕ
dirent_size = 24
