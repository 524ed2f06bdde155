-- ===== src/Scheduler.antt =====
-- scheduler/core.py: filter, score, reserve and reconcile.
pub mod Model
pub mod Evidence
pub mod Gate
pub mod Score
pub mod Assess
pub mod Keeps
pub mod Amounts
pub mod Fit
pub mod Rank
pub mod Book
pub mod Selection
