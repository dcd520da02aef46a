-- ===== src/Cluster.antt =====
-- cluster: the nodes of the cluster, how they are discovered and how one is chosen.
pub mod Entry
pub mod Balancer
pub mod Resolver
pub mod Registry
pub mod Tests
pub mod Publish
pub mod Watch
