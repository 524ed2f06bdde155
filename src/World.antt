-- ===== src/World.antt =====
-- domain/world_state.py: the snapshot of hosts that placement is decided on.
pub mod Fault
pub mod Observation
pub mod Floats
pub mod Host
