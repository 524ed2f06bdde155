-- ===== src/Worker/Apply.antt =====
-- The five handlers of `WorkerState` (src/local_agent_dispatch/worker/state.py). No handler writes
-- to the state before its last test, so a handler that raises returns no state: the old one stays.
-- `Json` is the canonical encoder of Python's json module, applied to each message.
use local_agent_dispatch.Api.Contracts.{
  HostRegistration, CapabilitySnapshot, ResourceSnapshot, WorkerHeartbeat, ExecutionHandle,
}
use local_agent_dispatch.Prelude.Dict
use local_agent_dispatch.Prelude.Keys.{◌=?◌, string_eq}
use local_agent_dispatch.Prelude.{
  ℕ, String, Bool, true, false, not, ◌||◌, Option, none, some, List, [], ◌∷◌, ltb, ◌==◌,
  if◌then◌else◌,
}
use local_agent_dispatch.Worker.State.{
  WorkerState, identity, fence, sequence, Result, ok, err, ◌>>=◌, ◌>>◌, raise_if, registration,
  capability, resource, heartbeat, execution, Identity, is_retry, remember,
  clear_generation_idempotency, execution_identity, identity_beq, transition_allowed,
  require_current_identity, require_forward_sequence,
}

-- `to_json` of each kind of message.
pub record Json : Type 0 where
  pub registration_json : HostRegistration → String
  pub capability_json : CapabilitySnapshot → String
  pub resource_json : ResourceSnapshot → String
  pub heartbeat_json : WorkerHeartbeat → String
  pub execution_json : ExecutionHandle → String

abbrev pub capability_sequence_of : Option CapabilitySnapshot → Option ℕ
capability_sequence_of none = none
capability_sequence_of (some c) = some c.sequence

abbrev pub resource_sequence_of : Option ResourceSnapshot → Option ℕ
resource_sequence_of none = none
resource_sequence_of (some c) = some c.sequence

abbrev pub heartbeat_sequence_of : Option WorkerHeartbeat → Option ℕ
heartbeat_sequence_of none = none
heartbeat_sequence_of (some c) = some c.sequence

abbrev pub handle_sequence_of : Option ExecutionHandle → Option ℕ
handle_sequence_of none = none
handle_sequence_of (some c) = some c.sequence

-- The first tests of `apply_registration`, where a registration is there.
abbrev pub same_worker : Option HostRegistration → HostRegistration → Result (Unit {0})
same_worker none r = ok tt
same_worker (some previous) r = do
  raise_if (not (r.host_id =? previous.host_id) || not (r.worker_id =? previous.worker_id)) identity
  raise_if (ltb r.fence_token previous.fence_token) fence

-- A new generation: the old one's telemetry and keys are dropped.
abbrev pub generation_of : Option HostRegistration → WorkerState → WorkerState
generation_of none s = s
generation_of (some previous) s = clear_generation_idempotency (record s {
  capability_snapshot = none;
  resource_snapshot = none;
  heartbeat = none;
  execution_handles = [];
})

abbrev pub next_generation :
    Option HostRegistration → HostRegistration → WorkerState → Result WorkerState
next_generation none r s = ok s
next_generation (some previous) r s = do
  raise_if (r.fence_token == previous.fence_token) fence
  ok (generation_of (some previous) s)

abbrev pub same_identity : Option Identity → Identity → Result (Unit {0})
same_identity none i = ok tt
same_identity (some established) i = raise_if (not (identity_beq i established)) identity

abbrev pub legal_transition : Option ExecutionHandle → ExecutionHandle → Result (Unit {0})
legal_transition none h = ok tt
legal_transition (some current) h =
    raise_if (not (transition_allowed current.state h.state)) sequence

-- A message of any kind.
pub data Message : Type 0 where
  register : HostRegistration → Message
  report_capability : CapabilitySnapshot → Message
  report_resource : ResourceSnapshot → Message
  beat : WorkerHeartbeat → Message
  report_execution : ExecutionHandle → Message

-- The state that a handler leaves: a handler that raises leaves the old one.
abbrev pub state_after : WorkerState → Result (Bool × WorkerState) → WorkerState
state_after s (ok (accepted, s')) = s'
state_after s (err e) = s

module _ (json : Json) where
  abbrev pub register_after :
      Option HostRegistration → HostRegistration → WorkerState → Result (Bool × WorkerState)
  register_after previous r s = do
    same_worker previous r
    retry ← is_retry registration r.idempotency_key (json.registration_json r) s
    if retry then ok (false, s) else do
      cleared ← next_generation previous r s
      ok (
        true,
        remember registration r.idempotency_key (json.registration_json r)
            (record cleared { registration = some r }),
      )

  unfoldable pub apply_registration : HostRegistration → WorkerState → Result (Bool × WorkerState)
  apply_registration r s = register_after s.registration r s

  unfoldable pub apply_capability_snapshot :
      CapabilitySnapshot → WorkerState → Result (Bool × WorkerState)
  apply_capability_snapshot c s = do
    require_current_identity c.host_id c.worker_id c.fence_token s
    retry ← is_retry capability c.idempotency_key (json.capability_json c) s
    if retry then ok (false, s) else do
      require_forward_sequence c.sequence (capability_sequence_of s.capability_snapshot)
      ok (
        true,
        remember capability c.idempotency_key (json.capability_json c)
            (record s { capability_snapshot = some c }),
      )

  unfoldable pub apply_resource_snapshot :
      ResourceSnapshot → WorkerState → Result (Bool × WorkerState)
  apply_resource_snapshot c s = do
    require_current_identity c.host_id c.worker_id c.fence_token s
    retry ← is_retry resource c.idempotency_key (json.resource_json c) s
    if retry then ok (false, s) else do
      require_forward_sequence c.sequence (resource_sequence_of s.resource_snapshot)
      ok (
        true,
        remember resource c.idempotency_key (json.resource_json c)
            (record s { resource_snapshot = some c }),
      )

  unfoldable pub apply_heartbeat : WorkerHeartbeat → WorkerState → Result (Bool × WorkerState)
  apply_heartbeat h s = do
    require_current_identity h.host_id h.worker_id h.fence_token s
    retry ← is_retry heartbeat h.idempotency_key (json.heartbeat_json h) s
    if retry then ok (false, s) else do
      require_forward_sequence h.sequence (heartbeat_sequence_of s.heartbeat)
      ok (
        true,
        remember heartbeat h.idempotency_key (json.heartbeat_json h)
            (record s { heartbeat = some h }),
      )

  unfoldable pub apply_execution_handle :
      ExecutionHandle → WorkerState → Result (Bool × WorkerState)
  apply_execution_handle h s = do
    require_current_identity h.host_id h.worker_id h.fence_token s
    retry ← is_retry (execution h.handle_id) h.idempotency_key (json.execution_json h) s
    if retry then ok (false, s) else do
      same_identity (Dict.get h.handle_id s.execution_identities) (execution_identity h)
      let current = Dict.get h.handle_id s.execution_handles
      require_forward_sequence h.sequence (handle_sequence_of current)
      legal_transition current h
      ok (
        true,
        remember (execution h.handle_id) h.idempotency_key (json.execution_json h) (record s {
          execution_identities = Dict.put h.handle_id (execution_identity h) s.execution_identities;
          execution_handles = Dict.put h.handle_id h s.execution_handles;
        }),
      )

  unfoldable pub apply : Message → WorkerState → Result (Bool × WorkerState)
  apply (register r) = apply_registration r
  apply (report_capability c) = apply_capability_snapshot c
  apply (report_resource c) = apply_resource_snapshot c
  apply (beat h) = apply_heartbeat h
  apply (report_execution h) = apply_execution_handle h

  -- The messages of a session, in the order of their arrival.
  unfoldable pub deliver : List Message → WorkerState → WorkerState
  deliver [] s = s
  deliver (m ∷ ms) s = deliver ms (state_after s (apply m s))
