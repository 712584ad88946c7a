-- ===== src/Cluster.antt =====
-- cluster/: the ZooKeeper handle, its node operations, the list of model servers and the events
-- that renew it. The C client of ZooKeeper is the parameter `Zoo`.
pub mod Zoo
pub mod Zk
pub mod Nodes
pub mod Start
pub mod Guards
pub mod Children
pub mod Admin
pub mod Retries
pub mod Rotation
pub mod History
pub mod Names
