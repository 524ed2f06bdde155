-- ===== src/Worker/Invariant.antt =====
-- What holds of a `WorkerState` between two messages (src/local_agent_dispatch/worker/state.py).
use local_agent_dispatch.Api.Contracts.{
  HostRegistration, CapabilitySnapshot, ResourceSnapshot, WorkerHeartbeat, ExecutionHandle,
}
use local_agent_dispatch.Prelude.Dict
use local_agent_dispatch.Prelude.Keys.{string_eq}
use local_agent_dispatch.Prelude.{
  String, ◌≡◌, refl, inl, inr, Bool, Option, none, some, List, [], ◌∷◌, arith,
}
use local_agent_dispatch.Worker.State.{
  WorkerState, Result, ok, err, registration, initial, remember, clear_generation_idempotency,
  execution_identity,
}
use local_agent_dispatch.Worker.Apply.{
  Json, generation_of, Message, register, report_capability, report_resource, beat,
  report_execution, apply, state_after, deliver,
}
use local_agent_dispatch.Worker.Accepts.{
  IsOwned, capability_accepted, resource_accepted, heartbeat_accepted, execution_accepted,
  apply_registration-eq-ok, apply_capability_snapshot-eq-ok, apply_resource_snapshot-eq-ok,
  apply_heartbeat-eq-ok, apply_execution_handle-eq-ok,
}

-- Everything that is shown belongs to the registered worker and its fence, a live handle stands
-- under its own identifier, and its identity is the one that is kept for good.
pub record IsWellFormed (s : WorkerState) : Type 0 where
  pub capability_owned :
      (c : CapabilitySnapshot)
      → s.capability_snapshot ≡ some c
      → IsOwned s c.host_id c.worker_id c.fence_token
  pub resource_owned :
      (c : ResourceSnapshot)
      → s.resource_snapshot ≡ some c
      → IsOwned s c.host_id c.worker_id c.fence_token
  pub heartbeat_owned :
      (h : WorkerHeartbeat) → s.heartbeat ≡ some h → IsOwned s h.host_id h.worker_id h.fence_token
  pub handle_owned :
      (k : String) (h : ExecutionHandle)
      → Dict.get k s.execution_handles ≡ some h
      → IsOwned s h.host_id h.worker_id h.fence_token
  pub handle_named :
      (k : String) (h : ExecutionHandle) → Dict.get k s.execution_handles ≡ some h → h.handle_id ≡ k
  pub identity_kept :
      (k : String) (h : ExecutionHandle)
      → Dict.get k s.execution_handles ≡ some h
      → Dict.get k s.execution_identities ≡ some (execution_identity h)

pub initial-IsWellFormed : IsWellFormed initial
unfolding Dict.get
initial-IsWellFormed = record {
  capability_owned = λ c e. cc;
  resource_owned = λ c e. cc;
  heartbeat_owned = λ c e. cc;
  handle_owned = λ k h e. cc;
  handle_named = λ k h e. cc;
  identity_kept = λ k h e. cc;
}

module _ (json : Json) (s : WorkerState) (w : IsWellFormed s) where
  heartbeat-IsWellFormed :
      (h : WorkerHeartbeat)
      → IsOwned s h.host_id h.worker_id h.fence_token
      → IsWellFormed (heartbeat_accepted json h s)
  unfolding remember
  heartbeat-IsWellFormed h o = record {
    capability_owned = λ c e. ground (arith, w.capability_owned c e);
    resource_owned = λ c e. ground (arith, w.resource_owned c e);
    heartbeat_owned = λ c e. ground arith;
    handle_owned = λ k c e. ground (arith, w.handle_owned k c e);
    handle_named = w.handle_named;
    identity_kept = w.identity_kept;
  }

  capability-IsWellFormed :
      (h : CapabilitySnapshot)
      → IsOwned s h.host_id h.worker_id h.fence_token
      → IsWellFormed (capability_accepted json h s)
  unfolding remember
  capability-IsWellFormed h o = record {
    capability_owned = λ c e. ground arith;
    resource_owned = λ c e. ground (arith, w.resource_owned c e);
    heartbeat_owned = λ c e. ground (arith, w.heartbeat_owned c e);
    handle_owned = λ k c e. ground (arith, w.handle_owned k c e);
    handle_named = w.handle_named;
    identity_kept = w.identity_kept;
  }

  resource-IsWellFormed :
      (h : ResourceSnapshot)
      → IsOwned s h.host_id h.worker_id h.fence_token
      → IsWellFormed (resource_accepted json h s)
  unfolding remember
  resource-IsWellFormed h o = record {
    capability_owned = λ c e. ground (arith, w.capability_owned c e);
    resource_owned = λ c e. ground arith;
    heartbeat_owned = λ c e. ground (arith, w.heartbeat_owned c e);
    handle_owned = λ k c e. ground (arith, w.handle_owned k c e);
    handle_named = w.handle_named;
    identity_kept = w.identity_kept;
  }

  execution-IsWellFormed :
      (h : ExecutionHandle)
      → IsOwned s h.host_id h.worker_id h.fence_token
      → IsWellFormed (execution_accepted json h s)
  unfolding remember
  execution-IsWellFormed h o = record {
    capability_owned = λ c e. ground (arith, w.capability_owned c e);
    resource_owned = λ c e. ground (arith, w.resource_owned c e);
    heartbeat_owned = λ c e. ground (arith, w.heartbeat_owned c e);
    handle_owned = λ k c e.
        ground (arith, w.handle_owned k c, Dict.get-put h.handle_id k h s.execution_handles);
    handle_named = λ k c e. ground (
      arith,
      w.handle_named k c,
      Dict.get-put h.handle_id k h s.execution_handles,
      string_eq.beq_iff h.handle_id k,
    );
    identity_kept = λ k c e. ground (
      arith,
      w.identity_kept k c,
      Dict.get-put h.handle_id k h s.execution_handles,
      Dict.get-put h.handle_id k (execution_identity h) s.execution_identities,
    );
  }

  registered_after-IsWellFormed :
      (r : HostRegistration) (o : Option HostRegistration)
      → s.registration ≡ o
      → IsWellFormed (
          remember registration r.idempotency_key
            (json.registration_json r)
            (record (generation_of o s) { registration = some r }))
  unfolding remember clear_generation_idempotency Dict.get
  registered_after-IsWellFormed r none u = record {
    capability_owned = λ c e. ground (arith, w.capability_owned c e);
    resource_owned = λ c e. ground (arith, w.resource_owned c e);
    heartbeat_owned = λ c e. ground (arith, w.heartbeat_owned c e);
    handle_owned = λ k c e. ground (arith, w.handle_owned k c e);
    handle_named = w.handle_named;
    identity_kept = w.identity_kept;
  }
  registered_after-IsWellFormed r (some p) u = record {
    capability_owned = λ c e. cc;
    resource_owned = λ c e. cc;
    heartbeat_owned = λ c e. cc;
    handle_owned = λ k c e. cc;
    handle_named = λ k c e. cc;
    identity_kept = λ k c e. cc;
  }

  -- What a message that was accepted leaves is well formed.
  accepted-IsWellFormed :
      (m : Message) (b : Bool) (s' : WorkerState) → apply json m s ≡ ok (b, s') → IsWellFormed s'
  unfolding apply
  accepted-IsWellFormed (register r) b s' e = elim (apply_registration-eq-ok json r s e) [
    | inl (_, same) ↦ rw same w
    | inr (_, _, done) ↦ rw done (registered_after-IsWellFormed r s.registration refl)
  ]
  accepted-IsWellFormed (report_capability c) b s' e =
      elim (apply_capability_snapshot-eq-ok json c s e) [
        | inl (_, same) ↦ rw same w
        | inr (_, owned, _, done) ↦ rw done (capability-IsWellFormed c owned)
      ]
  accepted-IsWellFormed (report_resource c) b s' e =
      elim (apply_resource_snapshot-eq-ok json c s e) [
        | inl (_, same) ↦ rw same w
        | inr (_, owned, _, done) ↦ rw done (resource-IsWellFormed c owned)
      ]
  accepted-IsWellFormed (beat h) b s' e = elim (apply_heartbeat-eq-ok json h s e) [
    | inl (_, same) ↦ rw same w
    | inr (_, owned, _, done) ↦ rw done (heartbeat-IsWellFormed h owned)
  ]
  accepted-IsWellFormed (report_execution h) b s' e =
      elim (apply_execution_handle-eq-ok json h s e) [
        | inl (_, same) ↦ rw same w
        | inr (_, owned, _, _, _, done) ↦ rw done (execution-IsWellFormed h owned)
      ]

-- A property of the old state and of every state that a handler returns holds afterwards.
pub state_after_ind {ℓ} :
    (P : WorkerState → Type ℓ) (s : WorkerState) (r : Result (Bool × WorkerState))
    → P s
    → ((b : Bool) (s' : WorkerState) → r ≡ ok (b, s') → P s')
    → P (state_after s r)
state_after_ind P s (ok (b, s')) h k = k b s' refl
state_after_ind P s (err e) h k = h

-- Every message, accepted or refused, keeps a well-formed state well formed.
pub apply-IsWellFormed :
    (json : Json) (s : WorkerState) (m : Message)
    → IsWellFormed s
    → IsWellFormed (state_after s (apply json m s))
apply-IsWellFormed json s m w =
    state_after_ind IsWellFormed s (apply json m s) w (accepted-IsWellFormed json s w m)

pub deliver_from-IsWellFormed :
    (json : Json) (ms : List Message) (s : WorkerState)
    → IsWellFormed s
    → IsWellFormed (deliver json ms s)
unfolding deliver
deliver_from-IsWellFormed json [] s w = w
deliver_from-IsWellFormed json (m ∷ ms) s w =
    deliver_from-IsWellFormed json ms (state_after s (apply json m s))
      (apply-IsWellFormed json s m w)

-- After any messages whatever, from a new projection: each snapshot, heartbeat and live handle bears
-- the active registration's host, worker and fence; each live handle stands under its own
-- identifier; and its identity is the recorded one.
pub deliver-IsWellFormed :
    (json : Json) (ms : List Message) → IsWellFormed (deliver json ms initial)
deliver-IsWellFormed json ms = deliver_from-IsWellFormed json ms initial initial-IsWellFormed
