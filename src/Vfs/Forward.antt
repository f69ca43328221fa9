-- ===== src/Vfs/Forward.antt =====
-- src/api/vfs/sync_io.rs: the files that backends create are given out under numbers of theirs.
use fuse_backend_rs.Vfs.State.{Vfs}
