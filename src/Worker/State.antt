-- ===== src/Worker/State.antt =====
-- The state of `WorkerState`, its errors and its private helpers
-- (src/local_agent_dispatch/worker/state.py).
use local_agent_dispatch.Api.Contracts.{
  HostRegistration, CapabilitySnapshot, ResourceSnapshot, WorkerHeartbeat, ExecutionHandle,
  ExecutionState, accepted, running, exited, failed, cancelled, lost, unknown,
}
use local_agent_dispatch.Prelude.Dict
use local_agent_dispatch.Prelude.Dict.{Dict}
use local_agent_dispatch.Prelude.Keys.{Eq, ◌=?◌, string_eq}
use local_agent_dispatch.Prelude.{
  ℕ, String, ◌≡◌, ◌↔◌, Bool, true, false, not, ◌&&◌, ◌||◌, Option, none, some, [], arith, ltb, ◌==◌,
  if◌then◌else◌,
}

-- The exception classes; `contract` is the ContractValidationError of a freshness test.
pub data WorkerError : Type 0 where
  identity fence sequence idempotency contract : WorkerError

pub data Result {ℓ} (A : Type ℓ) : Type ℓ where
  ok : A → Result A
  err : WorkerError → Result A

infixl 5 ◌>>=◌ ◌>>◌
abbrev pub ◌>>=◌ {ℓ κ} : {X : Type ℓ} {Y : Type κ} → Result X → (X → Result Y) → Result Y
err raised >>= next = err raised
ok x >>= next = next x

abbrev pub ◌>>◌ {ℓ} : {Y : Type ℓ} → Result (Unit {0}) → Result Y → Result Y
err raised >> rest = err raised
ok passed >> rest = rest

-- `if bad: raise e`
abbrev pub raise_if : Bool → WorkerError → Result (Unit {0})
raise_if true e = err e
raise_if false e = ok tt

-- The name of a message stream; `execution h` is the text "execution:h", which no other stream has.
pub data Stream : Type 0 where
  registration capability resource heartbeat : Stream
  execution : String → Stream

abbrev pub stream_beq : Stream → Stream → Bool
stream_beq registration registration = true
stream_beq capability capability = true
stream_beq resource resource = true
stream_beq heartbeat heartbeat = true
stream_beq (execution h) (execution k) = h =? k
stream_beq _ _ = false

pub stream_beq_iff : (a b : Stream) → (stream_beq a b ≡ true) ↔ (a ≡ b)
stream_beq_iff (execution h) (execution k) = ground (arith, string_eq.beq_iff h k)
stream_beq_iff _ _ = ground arith

-- A key of `_idempotency_payloads`.
pub record StreamKey : Type 0 where
  pub stream : Stream
  pub key : String

pub stream_key_beq_iff :
    (a b : StreamKey) → ((stream_beq a.stream b.stream && (a.key =? b.key)) ≡ true) ↔ (a ≡ b)
stream_key_beq_iff a b =
    ground (arith, stream_beq_iff a.stream b.stream, string_eq.beq_iff a.key b.key)

instance abbrev pub stream_key_eq : Eq StreamKey
stream_key_eq = record {
  beq = λ a b. stream_beq a.stream b.stream && (a.key =? b.key);
  beq_iff = stream_key_beq_iff;
}

-- The tuple of `_execution_identity`.
pub record Identity : Type 0 where
  pub job_id : String
  pub attempt_id : String
  pub host_id : String
  pub worker_id : String
  pub fence_token : ℕ
  pub reservation_id : Option String
  pub process_id : Option String

pub record WorkerState : Type 0 where
  pub registration : Option HostRegistration
  pub capability_snapshot : Option CapabilitySnapshot
  pub resource_snapshot : Option ResourceSnapshot
  pub heartbeat : Option WorkerHeartbeat
  pub execution_handles : Dict String ExecutionHandle
  pub execution_identities : Dict String Identity
  pub idempotency_payloads : Dict StreamKey String

-- WorkerState()
abbrev pub initial : WorkerState
initial = record {
  registration = none;
  capability_snapshot = none;
  resource_snapshot = none;
  heartbeat = none;
  execution_handles = [];
  execution_identities = [];
  idempotency_payloads = [];
}

-- _EXECUTION_TRANSITIONS: `handle.state in _EXECUTION_TRANSITIONS[current.state]`
unfoldable pub transition_allowed : ExecutionState → ExecutionState → Bool
transition_allowed unknown _ = true
transition_allowed accepted exited = false
transition_allowed accepted _ = true
transition_allowed running accepted = false
transition_allowed running _ = true
transition_allowed exited exited = true
transition_allowed failed failed = true
transition_allowed cancelled cancelled = true
transition_allowed lost lost = true
transition_allowed _ _ = false

abbrev pub option_beq : Option String → Option String → Bool
option_beq none none = true
option_beq (some a) (some b) = a =? b
option_beq _ _ = false

abbrev pub identity_beq : Identity → Identity → Bool
identity_beq a b =
    (a.job_id =? b.job_id)
    && (a.attempt_id =? b.attempt_id)
    && (a.host_id =? b.host_id)
    && (a.worker_id =? b.worker_id)
    && (a.fence_token == b.fence_token)
    && option_beq a.reservation_id b.reservation_id
    && option_beq a.process_id b.process_id

option_beq_iff : (a b : Option String) → (option_beq a b ≡ true) ↔ (a ≡ b)
option_beq_iff (some a) (some b) = ground (arith, string_eq.beq_iff a b)
option_beq_iff _ _ = ground arith

pub identity_beq_iff : (a b : Identity) → (identity_beq a b ≡ true) ↔ (a ≡ b)
identity_beq_iff a b = ground (
  arith,
  string_eq.beq_iff a.job_id b.job_id,
  string_eq.beq_iff a.attempt_id b.attempt_id,
  string_eq.beq_iff a.host_id b.host_id,
  string_eq.beq_iff a.worker_id b.worker_id,
  option_beq_iff a.reservation_id b.reservation_id,
  option_beq_iff a.process_id b.process_id,
)

-- `_execution_identity`
abbrev pub execution_identity : ExecutionHandle → Identity
execution_identity handle = record {
  job_id = handle.job_id;
  attempt_id = handle.attempt_id;
  host_id = handle.host_id;
  worker_id = handle.worker_id;
  fence_token = handle.fence_token;
  reservation_id = handle.reservation_id;
  process_id = handle.process_id;
}

abbrev found_payload : Option String → String → Result Bool
found_payload none payload = ok false
found_payload (some existing) payload = if existing =? payload then ok true else err idempotency

-- `_idempotency_result`: `ok true` is its False, an exact retry, and `ok false` its None.
unfoldable pub is_retry : Stream → String → String → WorkerState → Result Bool
is_retry stream key payload s =
    found_payload (Dict.get (record { stream = stream; key = key }) s.idempotency_payloads) payload

-- `_remember`
unfoldable pub remember : Stream → String → String → WorkerState → WorkerState
remember stream key payload s = record s {
  idempotency_payloads =
      Dict.put (record { stream = stream; key = key }) payload s.idempotency_payloads;
}

abbrev pub is_registration : StreamKey → Bool
is_registration k = stream_beq k.stream registration

-- `_clear_generation_idempotency`
unfoldable pub clear_generation_idempotency : WorkerState → WorkerState
clear_generation_idempotency s = record s {
  idempotency_payloads = Dict.keep is_registration s.idempotency_payloads;
}

abbrev pub matches_registration : Option HostRegistration → String → String → ℕ → Result (Unit {0})
matches_registration none host_id worker_id fence_token = err identity
matches_registration (some r) host_id worker_id fence_token = do
  raise_if (not (host_id =? r.host_id) || not (worker_id =? r.worker_id)) identity
  raise_if (not (fence_token == r.fence_token)) fence

-- `_require_current_identity`
unfoldable pub require_current_identity : String → String → ℕ → WorkerState → Result (Unit {0})
require_current_identity host_id worker_id fence_token s =
    matches_registration s.registration host_id worker_id fence_token

-- `_require_forward_sequence`
unfoldable pub require_forward_sequence : ℕ → Option ℕ → Result (Unit {0})
require_forward_sequence incoming none = ok tt
require_forward_sequence incoming (some current) = do
  raise_if (ltb incoming current) sequence
  raise_if (incoming == current) sequence
