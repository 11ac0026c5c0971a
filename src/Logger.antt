-- ===== src/Logger.antt =====
-- The crate pmxcfs-logger: the cluster log.
pub mod Hash
pub mod Text
pub mod Entry
pub mod Ring
pub mod ClusterLog
mod Tests
