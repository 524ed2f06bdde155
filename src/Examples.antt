-- ===== src/Examples.antt =====
-- Runs of the model on concrete inputs, at which the theorems are applied.
mod Worker
mod Status
mod Topology
mod Scheduler
mod Book
mod Lifecycle
mod Ledger
mod Liveness
mod Packages
