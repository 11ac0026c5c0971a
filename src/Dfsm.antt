-- ===== src/Dfsm.antt =====
-- The crate pmxcfs-dfsm: the messages that the nodes of a cluster exchange.
pub mod Wire
pub mod Message
pub mod Fuse
pub mod KvStore
pub mod Protocol
pub mod Machine
mod Tests
