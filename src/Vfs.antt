-- ===== src/Vfs.antt =====
-- src/api/vfs/mod.rs: the file system that joins backend file systems under the pseudo file system.
pub mod Inode
pub mod Ids
pub mod Alloc
pub mod State
pub mod Consistent
pub mod Commit
pub mod Unmount
pub mod Unmounted
pub mod Insert
pub mod Mount
pub mod Dispatch
pub mod Ops
pub mod Negotiate
pub mod Started
pub mod Requests
pub mod ReadDir
pub mod Attributes
pub mod Routing
pub mod Numbers
pub mod Forward
pub mod RootOwner
pub mod Reach
mod Tests
