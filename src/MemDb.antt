-- ===== src/MemDb.antt =====
-- The crate pmxcfs-memdb: the cluster's file tree in memory, mirrored in SQLite.
pub mod Types
pub mod External
pub mod Paths
pub mod State
pub mod Mutation
pub mod Create
pub mod Write
pub mod Remove
pub mod Checks
pub mod Mirror
pub mod Index
pub mod Encode
pub mod Update
pub mod Locks
pub mod VmList
pub mod Replicate
pub mod Tests
mod CodecTests
mod SharedTests
