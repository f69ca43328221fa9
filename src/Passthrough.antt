-- ===== src/Passthrough.antt =====
-- src/passthrough: the store of inodes, the numbers that they get, lookups and forgets, and the
-- handles of open files.
pub mod Store
pub mod Unique
pub mod Inodes
mod Keeps
mod Counts
mod Lookup
mod Forget
mod Calls
mod Imported
mod Ledger
mod Replaced
mod Distinct
mod Tests
