-- ===== src/Scheduler/Book.antt =====
-- scheduler/core.py: `ReservationBook`, the ledger of reservations of one scheduler process. The
-- lock makes each method atomic, so a method is a function on the state. A method that raises has
-- not written to the state, and returns none.
pub mod State
pub mod Usage
pub mod Reconcile
pub mod Reserve
pub mod Outcomes
pub mod Held
pub mod Replays
pub mod Charges
pub mod Consistent
pub mod Steps
pub mod Capacity
pub mod Balance
