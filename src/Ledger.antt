-- ===== src/Ledger.antt =====
-- ledger/store.py and domain/events.py: the append-only store of provenance events.
pub mod Json
pub mod Patterns
pub mod Event
pub mod Secrets
pub mod Store
pub mod Append
pub mod Index
pub mod Log
pub mod Load
pub mod Replayed
pub mod Reopen
pub mod Promotion
pub mod Conflicts
pub mod Terminal
pub mod Liveness
pub mod Emitted
pub mod Preserved
