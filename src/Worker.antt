-- ===== src/Worker.antt =====
-- worker/state.py: the in-memory projection of one worker generation.
pub mod Usage
pub mod State
pub mod Apply
pub mod Status
pub mod Accepts
pub mod Invariant
pub mod History
pub mod Terminal
pub mod Replay
pub mod Reuse
pub mod UsageLaws
pub mod Admission
