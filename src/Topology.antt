-- ===== src/Topology.antt =====
-- resources/topology.py: the placement gate over the mounts of a host.
pub mod Paths
pub mod Mounts
pub mod Placement
pub mod Safe
pub mod Resolve
pub mod Ranking
pub mod Gpus
