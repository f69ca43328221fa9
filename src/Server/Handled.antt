-- ===== src/Server/Handled.antt =====
-- Each handler of src/api/server/sync_io.rs makes at most one call and sends at most one reply.
pub mod Nodes
pub mod Files
pub mod Attributes
mod Transfer
mod Forgets
pub mod Arms
pub mod Message
