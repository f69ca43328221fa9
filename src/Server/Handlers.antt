-- ===== src/Server/Handlers.antt =====
-- The handlers of src/api/server/sync_io.rs, by what they serve; each decodes its request, makes one
-- call of the file system and replies.
pub mod Nodes
pub mod Files
pub mod Attributes
pub mod Transfer
pub mod Forgets
