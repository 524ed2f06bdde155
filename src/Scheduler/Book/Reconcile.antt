-- ===== src/Scheduler/Book/Reconcile.antt =====
-- `reconcile` and `cancel` of src/local_agent_dispatch/scheduler/core.py.
use local_agent_dispatch.Prelude.Dict
use local_agent_dispatch.Prelude.Dict.{Dict, values}
use local_agent_dispatch.Prelude.Keys.{string_eq}
use local_agent_dispatch.Prelude.{
  ℕ, ◌+◌, String, Bool, true, false, not, ◌&&◌, ◌||◌, Option, none, some, ltb, ◌==◌, if◌then◌else◌,
}
use local_agent_dispatch.Scheduler.Model.{ResourceUsage, no_usage}
use local_agent_dispatch.World.Fault.{Result, ok, err, reservation_conflict, ◌>>=◌}
use local_agent_dispatch.Scheduler.Book.State.{
  ReservationState, active, completed, cancelled, Reservation, Book,
}
use local_agent_dispatch.Scheduler.Book.Usage.{is_active}

-- `getattr(actual, name) > getattr(row.reserved, name)` for some of the six names.
unfoldable pub exceeds : ResourceUsage → ResourceUsage → Bool
exceeds actual reserved =
    ltb reserved.memory_bytes actual.memory_bytes
    || ltb reserved.disk_bytes actual.disk_bytes
    || ltb reserved.disk_inodes actual.disk_inodes
    || ltb reserved.gpu_vram_mib actual.gpu_vram_mib
    || ltb reserved.lanes actual.lanes
    || ltb reserved.cpu_threads actual.cpu_threads

abbrev pub usage_beq : ResourceUsage → ResourceUsage → Bool
usage_beq a b =
    (a.memory_bytes == b.memory_bytes)
    && (a.disk_bytes == b.disk_bytes)
    && (a.disk_inodes == b.disk_inodes)
    && (a.gpu_vram_mib == b.gpu_vram_mib)
    && (a.lanes == b.lanes)
    && (a.cpu_threads == b.cpu_threads)

abbrev pub state_beq : ReservationState → ReservationState → Bool
state_beq active active = true
state_beq completed completed = true
state_beq cancelled cancelled = true
state_beq _ _ = false

-- A terminal state that `reconcile` may be asked for.
pub data TerminalState : Type 0 where
  to_completed to_cancelled : TerminalState

abbrev pub terminal : TerminalState → ReservationState
terminal to_completed = completed
terminal to_cancelled = cancelled

-- `terminal_state or row.state`
abbrev pub next_state : Option TerminalState → ReservationState → ReservationState
next_state none state = state
next_state (some t) state = terminal t

abbrev pub bool_beq : Bool → Bool → Bool
bool_beq true b = b
bool_beq false b = not b

-- `updated != row`, where only these three fields can differ.
unfoldable pub row_changed : Reservation → Reservation → Bool
row_changed updated row =
    not (usage_beq updated.actual row.actual)
    || not (bool_beq updated.overage row.overage)
    || not (state_beq updated.state row.state)

-- A row that has ended can only be reconciled as it ended.
abbrev pub reconcile_ended : Reservation → ResourceUsage → Option TerminalState → Result Reservation
reconcile_ended row actual none = err reservation_conflict
reconcile_ended row actual (some t) =
    if not (state_beq (terminal t) row.state)
    then err reservation_conflict
    else if not (usage_beq actual row.actual)
    then err reservation_conflict
    else ok row

abbrev pub reconciled_row : Reservation → ResourceUsage → Option TerminalState → Reservation
reconciled_row row actual terminal_state = record row {
  actual = actual;
  overage = exceeds actual row.reserved;
  state = next_state terminal_state row.state;
}

module _ {Float : Type 0} where
  abbrev pub write_row : String → Reservation → Reservation → Book Float → Book Float
  write_row id updated row b =
      if row_changed updated row
      then record b { revision = b.revision + 1; reservations = Dict.put id updated b.reservations }
      else b

  abbrev pub reconcile_row :
      String
      → Reservation
      → ℕ
      → ResourceUsage
      → Option TerminalState
      → Book Float
      → Result (Reservation × Book Float)
  reconcile_row id row fence_token actual terminal_state b =
      if not (row.fence_token == fence_token)
      then err reservation_conflict
      else if not (is_active row.state)
      then (do ended ← reconcile_ended row actual terminal_state; ok (ended, b))
      else let updated = reconciled_row row actual terminal_state in
        ok (updated, write_row id updated row b)

  abbrev reconcile_found :
      String
      → Option Reservation
      → ℕ
      → ResourceUsage
      → Option TerminalState
      → Book Float
      → Result (Reservation × Book Float)
  reconcile_found id none fence_token actual terminal_state b = err reservation_conflict
  reconcile_found id (some row) fence_token actual terminal_state b =
      reconcile_row id row fence_token actual terminal_state b

  unfoldable pub reconcile :
      String
      → ℕ
      → ResourceUsage
      → Option TerminalState
      → Book Float
      → Result (Reservation × Book Float)
  reconcile id fence_token actual terminal_state b =
      reconcile_found id (Dict.get id b.reservations) fence_token actual terminal_state b

  unfoldable pub cancel : String → ℕ → Book Float → Result (Reservation × Book Float)
  cancel id fence_token b = reconcile id fence_token no_usage (some to_cancelled) b
