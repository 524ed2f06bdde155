-- ===== src/Worker/Status.antt =====
-- The read side of `WorkerState` (src/local_agent_dispatch/worker/state.py): the statuses derived
-- from the time to live of the evidence, and the readiness of a worker for dispatch.
use local_agent_dispatch.Api.Contracts.{
  WorkerReportedState, WorkerHeartbeat, CapabilitySnapshot, ResourceSnapshot, ExecutionState,
  ExecutionHandle,
}
use local_agent_dispatch.Api.Freshness.{Clock, Freshness, freshness}
use local_agent_dispatch.Prelude.Dict
use local_agent_dispatch.Prelude.Keys.{string_eq}
use local_agent_dispatch.Prelude.{
  ℕ, String, Bool, true, false, not, ◌||◌, Option, none, some, [], leb, ◌==◌, if◌then◌else◌,
}
use local_agent_dispatch.Worker.State.{WorkerState, contract, Result, ok, err, ◌>>=◌}
use local_agent_dispatch.Worker.Usage.{UsageStatus, UsageReconciliation, reconcile_usage}

-- The texts that the status functions return. `reported` is a state of the worker's heartbeat.
pub data WorkerStatus : Type 0 where
  unknown lost blocked : WorkerStatus
  reported : WorkerReportedState → WorkerStatus

-- "unknown" is one text, whether it is derived or reported.
abbrev pub reported_status : WorkerReportedState → WorkerStatus
reported_status WorkerReportedState.unknown = unknown
reported_status s = reported s

abbrev pub ready : WorkerStatus
ready = reported WorkerReportedState.ready

abbrev pub is_ready : WorkerStatus → Bool
is_ready (reported WorkerReportedState.ready) = true
is_ready _ = false

abbrev pub or_contract {ℓ} : {A : Type ℓ} → Option A → Result A
or_contract none = err contract
or_contract (some a) = ok a

abbrev pub is_fresh : Freshness → Bool
is_fresh Freshness.fresh = true
is_fresh _ = false

abbrev pub status_at : Freshness → WorkerReportedState → WorkerStatus
status_at Freshness.stale s = lost
status_at Freshness.unknown s = unknown
status_at Freshness.fresh s = reported_status s

abbrev pub lives : ExecutionState → Bool
lives ExecutionState.accepted = true
lives ExecutionState.running = true
lives _ = false

abbrev pub execution_status_at : Freshness → ExecutionState → ExecutionState
execution_status_at Freshness.stale s = if lives s then ExecutionState.lost else s
execution_status_at Freshness.unknown s = if lives s then ExecutionState.unknown else s
execution_status_at Freshness.fresh s = s

-- `item.confidence is None or item.confidence <= 0`
abbrev pub lacks_confidence : Option ℕ → Bool
lacks_confidence none = true
lacks_confidence (some c) = leb c 0

-- `self.heartbeat.x_sequence is None or self.heartbeat.x_sequence != snapshot.sequence`
abbrev pub sequence_differs : Option ℕ → ℕ → Bool
sequence_differs none n = true
sequence_differs (some m) n = not (m == n)

abbrev pub no_usage : UsageReconciliation
no_usage = record {
  status = UsageStatus.unknown;
  compared_dimensions = [];
  unknown_dimensions = [];
  overages = [];
}

abbrev usage_of : Option WorkerHeartbeat → UsageReconciliation
usage_of none = no_usage
usage_of (some h) = reconcile_usage h.reserved_usage h.actual_usage

unfoldable pub usage_reconciliation : WorkerState → UsageReconciliation
usage_reconciliation s = usage_of s.heartbeat

abbrev pub usage_verdict : UsageStatus → WorkerStatus
usage_verdict UsageStatus.exceeded = blocked
usage_verdict UsageStatus.unknown = unknown
usage_verdict UsageStatus.within = ready

module _ (clock : Clock) (now : Option String) where
  abbrev heartbeat_status : WorkerHeartbeat → Result WorkerStatus
  heartbeat_status h = do
    fresh ← or_contract (freshness clock h.observed_at h.ttl_seconds now)
    ok (status_at fresh h.state)

  abbrev worker_status_of : Option WorkerHeartbeat → WorkerState → Result WorkerStatus
  worker_status_of none s = ok unknown
  worker_status_of (some h) s = elim s.registration [
    | none ↦ ok unknown
    | some r ↦ heartbeat_status h
  ]

  unfoldable pub worker_status : WorkerState → Result WorkerStatus
  worker_status s = worker_status_of s.heartbeat s

  abbrev handle_status : Option ExecutionHandle → Result ExecutionState
  handle_status none = ok ExecutionState.unknown
  handle_status (some h) = do
    fresh ← or_contract (freshness clock h.observed_at h.ttl_seconds now)
    ok (execution_status_at fresh h.state)

  unfoldable pub execution_status : String → WorkerState → Result ExecutionState
  execution_status handle_id s = handle_status (Dict.get handle_id s.execution_handles)

  -- The tests of `admission_status` on a heartbeat and two snapshots that are there.
  unfoldable pub evidence_status :
      CapabilitySnapshot → ResourceSnapshot → WorkerHeartbeat → WorkerState → Result WorkerStatus
  evidence_status c r h s = do
    c_fresh ← or_contract (freshness clock c.observed_at c.ttl_seconds now)
    if not (is_fresh c_fresh) then ok unknown else do
      r_fresh ← or_contract (freshness clock r.observed_at r.ttl_seconds now)
      ok (
          if not (is_fresh r_fresh)
          then unknown
          else if sequence_differs h.capability_sequence c.sequence
          then unknown
          else if sequence_differs h.resource_sequence r.sequence
          then unknown
          else if lacks_confidence c.confidence
              || lacks_confidence r.confidence
              || lacks_confidence h.confidence
          then unknown
          else usage_verdict (usage_reconciliation s).status)

  abbrev pub evidence_of :
      Option CapabilitySnapshot
      → Option ResourceSnapshot
      → Option WorkerHeartbeat
      → WorkerState
      → Result WorkerStatus
  evidence_of (some c) (some r) (some h) s = evidence_status c r h s
  evidence_of _ _ _ s = ok unknown

  unfoldable pub admission_status : WorkerState → Result WorkerStatus
  admission_status s = do
    status ← worker_status s
    if not (is_ready status)
        then ok status
        else evidence_of s.capability_snapshot s.resource_snapshot s.heartbeat s
