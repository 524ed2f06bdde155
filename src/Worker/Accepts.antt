-- ===== src/Worker/Accepts.antt =====
-- What it means that a handler of worker/state.py returned: either the message was an exact retry
-- and nothing changed, or it passed every test and the state is the one written out here.
use local_agent_dispatch.Api.Contracts.{
  HostRegistration, CapabilitySnapshot, ResourceSnapshot, WorkerHeartbeat, ExecutionHandle,
}
use local_agent_dispatch.Prelude.Dict
use local_agent_dispatch.Prelude.Keys.{string_eq}
use local_agent_dispatch.Prelude.{
  ℕ, ◌<◌, String, ◌≡◌, refl, ◌⊎◌, Bool, true, false, Option, none, some, arith,
}
use local_agent_dispatch.Worker.State.{
  WorkerState, ok, registration, capability, resource, heartbeat, execution, Identity, remember,
  execution_identity, identity_beq_iff, transition_allowed, matches_registration,
  require_current_identity, require_forward_sequence,
}
use local_agent_dispatch.Worker.Apply.{
  Json, apply_registration, apply_capability_snapshot, apply_resource_snapshot, apply_heartbeat,
  apply_execution_handle, register_after, generation_of, same_identity, legal_transition,
  capability_sequence_of, resource_sequence_of, heartbeat_sequence_of, handle_sequence_of,
}

-- The message bears the active registration's host, worker and fence.
pub record IsOwned (s : WorkerState) (host_id worker_id : String) (fence_token : ℕ) : Type 0 where
  pub owner : HostRegistration
  pub active : s.registration ≡ some owner
  pub same_host : host_id ≡ owner.host_id
  pub same_worker : worker_id ≡ owner.worker_id
  pub same_fence : fence_token ≡ owner.fence_token

abbrev pub IsForward : ℕ → Option ℕ → Type 0
IsForward n none = Unit
IsForward n (some m) = m < n

pub current_identity-IsOwned :
    (host_id worker_id : String) (fence_token : ℕ) (s : WorkerState)
    → require_current_identity host_id worker_id fence_token s ≡ ok tt
    → IsOwned s host_id worker_id fence_token
unfolding require_current_identity
current_identity-IsOwned host_id worker_id fence_token s h = go s.registration refl h
  where
    go :
        (o : Option HostRegistration)
        → s.registration ≡ o
        → matches_registration o host_id worker_id fence_token ≡ ok tt
        → IsOwned s host_id worker_id fence_token
    go none e h = cc
    go (some r) e h = record {
      owner = r;
      active = e;
      same_host = ground (arith, string_eq.beq_iff host_id r.host_id);
      same_worker = ground (arith, string_eq.beq_iff worker_id r.worker_id);
      same_fence = ground arith;
    }

pub require_forward_sequence-IsForward :
    (n : ℕ) (o : Option ℕ) → require_forward_sequence n o ≡ ok tt → IsForward n o
unfolding require_forward_sequence
require_forward_sequence-IsForward n none h = tt
require_forward_sequence-IsForward n (some m) h = ground arith

module _ (json : Json) where
  abbrev pub heartbeat_accepted : WorkerHeartbeat → WorkerState → WorkerState
  heartbeat_accepted h s =
      remember heartbeat h.idempotency_key (json.heartbeat_json h) (record s { heartbeat = some h })

  pub apply_heartbeat-eq-ok :
      (h : WorkerHeartbeat) (s : WorkerState) {b : Bool} {s' : WorkerState}
      → apply_heartbeat json h s ≡ ok (b, s')
      → (b ≡ false) × (s' ≡ s)
        ⊎ (b ≡ true)
          × IsOwned s h.host_id h.worker_id h.fence_token
          × IsForward h.sequence (heartbeat_sequence_of s.heartbeat)
          × (s' ≡ heartbeat_accepted h s)
  unfolding apply_heartbeat
  apply_heartbeat-eq-ok h s e = ground (
    arith,
    current_identity-IsOwned h.host_id h.worker_id h.fence_token s,
    require_forward_sequence-IsForward h.sequence (heartbeat_sequence_of s.heartbeat),
  )

  abbrev pub capability_accepted : CapabilitySnapshot → WorkerState → WorkerState
  capability_accepted c s =
      remember capability c.idempotency_key (json.capability_json c)
        (record s { capability_snapshot = some c })

  pub apply_capability_snapshot-eq-ok :
      (c : CapabilitySnapshot) (s : WorkerState) {b : Bool} {s' : WorkerState}
      → apply_capability_snapshot json c s ≡ ok (b, s')
      → (b ≡ false) × (s' ≡ s)
        ⊎ (b ≡ true)
          × IsOwned s c.host_id c.worker_id c.fence_token
          × IsForward c.sequence (capability_sequence_of s.capability_snapshot)
          × (s' ≡ capability_accepted c s)
  unfolding apply_capability_snapshot
  apply_capability_snapshot-eq-ok c s e = ground (
    arith,
    current_identity-IsOwned c.host_id c.worker_id c.fence_token s,
    require_forward_sequence-IsForward c.sequence (capability_sequence_of s.capability_snapshot),
  )

  abbrev pub resource_accepted : ResourceSnapshot → WorkerState → WorkerState
  resource_accepted c s =
      remember resource c.idempotency_key (json.resource_json c)
        (record s { resource_snapshot = some c })

  pub apply_resource_snapshot-eq-ok :
      (c : ResourceSnapshot) (s : WorkerState) {b : Bool} {s' : WorkerState}
      → apply_resource_snapshot json c s ≡ ok (b, s')
      → (b ≡ false) × (s' ≡ s)
        ⊎ (b ≡ true)
          × IsOwned s c.host_id c.worker_id c.fence_token
          × IsForward c.sequence (resource_sequence_of s.resource_snapshot)
          × (s' ≡ resource_accepted c s)
  unfolding apply_resource_snapshot
  apply_resource_snapshot-eq-ok c s e = ground (
    arith,
    current_identity-IsOwned c.host_id c.worker_id c.fence_token s,
    require_forward_sequence-IsForward c.sequence (resource_sequence_of s.resource_snapshot),
  )

  -- An identity that was established earlier is the one that the handle bears.
  abbrev pub Agrees : Option Identity → Identity → Type 0
  Agrees none i = Unit
  Agrees (some established) i = i ≡ established

  -- The move from the live handle's state is one of the table.
  abbrev pub IsLegal : Option ExecutionHandle → ExecutionHandle → Type 0
  IsLegal none h = Unit
  IsLegal (some current) h = transition_allowed current.state h.state ≡ true

  pub same_identity-Agrees :
      (o : Option Identity) (i : Identity) → same_identity o i ≡ ok tt → Agrees o i
  same_identity-Agrees none i h = tt
  same_identity-Agrees (some j) i h = (identity_beq_iff i j).0 (ground arith)

  pub legal_transition-IsLegal :
      (o : Option ExecutionHandle) (h : ExecutionHandle)
      → legal_transition o h ≡ ok tt
      → IsLegal o h
  legal_transition-IsLegal none h e = tt
  legal_transition-IsLegal (some c) h e = ground arith

  abbrev pub execution_accepted : ExecutionHandle → WorkerState → WorkerState
  execution_accepted h s =
      remember (execution h.handle_id) h.idempotency_key (json.execution_json h) (record s {
        execution_identities = Dict.put h.handle_id (execution_identity h) s.execution_identities;
        execution_handles = Dict.put h.handle_id h s.execution_handles;
      })

  pub apply_execution_handle-eq-ok :
      (h : ExecutionHandle) (s : WorkerState) {b : Bool} {s' : WorkerState}
      → apply_execution_handle json h s ≡ ok (b, s')
      → (b ≡ false) × (s' ≡ s)
        ⊎ (b ≡ true)
          × IsOwned s h.host_id h.worker_id h.fence_token
          × Agrees (Dict.get h.handle_id s.execution_identities) (execution_identity h)
          × IsForward h.sequence (handle_sequence_of (Dict.get h.handle_id s.execution_handles))
          × IsLegal (Dict.get h.handle_id s.execution_handles) h
          × (s' ≡ execution_accepted h s)
  unfolding apply_execution_handle
  apply_execution_handle-eq-ok h s e = ground (
    arith,
    current_identity-IsOwned h.host_id h.worker_id h.fence_token s,
    same_identity-Agrees (Dict.get h.handle_id s.execution_identities) (execution_identity h),
    require_forward_sequence-IsForward h.sequence
        (handle_sequence_of (Dict.get h.handle_id s.execution_handles)),
    legal_transition-IsLegal (Dict.get h.handle_id s.execution_handles) h,
  )

  -- The same worker as before, under a fence that is not lower.
  abbrev pub Succeeds : Option HostRegistration → HostRegistration → Type 0
  Succeeds none r = Unit
  Succeeds (some p) r =
      (r.host_id ≡ p.host_id) × (r.worker_id ≡ p.worker_id) × (p.fence_token < r.fence_token)

  abbrev pub registration_accepted : HostRegistration → WorkerState → WorkerState
  registration_accepted r s =
      remember registration r.idempotency_key (json.registration_json r)
        (record (generation_of s.registration s) { registration = some r })

  register_after-eq-ok :
      (o : Option HostRegistration) (r : HostRegistration) (s : WorkerState) {b : Bool}
      {s' : WorkerState}
      → register_after json o r s ≡ ok (b, s')
      → (b ≡ false) × (s' ≡ s)
        ⊎ (b ≡ true)
          × Succeeds o r
          × (s'
              ≡ remember registration r.idempotency_key
                  (json.registration_json r)
                  (record (generation_of o s) { registration = some r }))
  register_after-eq-ok none r s e = ground arith
  register_after-eq-ok (some p) r s e =
      ground
        (arith, string_eq.beq_iff r.host_id p.host_id, string_eq.beq_iff r.worker_id p.worker_id)

  pub apply_registration-eq-ok :
      (r : HostRegistration) (s : WorkerState) {b : Bool} {s' : WorkerState}
      → apply_registration json r s ≡ ok (b, s')
      → (b ≡ false) × (s' ≡ s)
        ⊎ (b ≡ true) × Succeeds s.registration r × (s' ≡ registration_accepted r s)
  unfolding apply_registration
  apply_registration-eq-ok r s e = register_after-eq-ok s.registration r s e
