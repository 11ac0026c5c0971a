-- ===== src/Cluster.antt =====
-- How the nodes of a cluster agree on the newest state.
pub mod Leader
pub mod Callbacks
mod Tests
