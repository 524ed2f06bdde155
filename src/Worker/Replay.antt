-- ===== src/Worker/Replay.antt =====
-- Idempotency of the handlers of src/local_agent_dispatch/worker/state.py.
use local_agent_dispatch.Api.Contracts.{HostRegistration}
use local_agent_dispatch.Prelude.Dict
use local_agent_dispatch.Prelude.Keys.{string_eq, =?_refl}
use local_agent_dispatch.Prelude.{ℕ, String, ◌≡◌, ◌≢◌, inl, inr, true, false, some, arith}
use local_agent_dispatch.Worker.State.{
  WorkerState, WorkerError, Result, ok, err, idempotency, Stream, registration, capability,
  resource, heartbeat, execution, is_retry, remember, require_current_identity,
  matches_registration, execution_identity, stream_key_eq,
}
use local_agent_dispatch.Worker.Apply.{
  Json, same_worker, generation_of, Message, register, report_capability, report_resource, beat,
  report_execution, apply, apply_registration, apply_capability_snapshot, apply_resource_snapshot,
  apply_heartbeat, apply_execution_handle,
}
use local_agent_dispatch.Worker.Accepts.{
  IsOwned, apply_registration-eq-ok, apply_capability_snapshot-eq-ok, apply_resource_snapshot-eq-ok,
  apply_heartbeat-eq-ok, apply_execution_handle-eq-ok,
}

abbrev pub stream_of : Message → Stream
stream_of (register r) = registration
stream_of (report_capability c) = capability
stream_of (report_resource c) = resource
stream_of (beat h) = heartbeat
stream_of (report_execution h) = execution h.handle_id

abbrev pub key_of : Message → String
key_of (register r) = r.idempotency_key
key_of (report_capability c) = c.idempotency_key
key_of (report_resource c) = c.idempotency_key
key_of (beat h) = h.idempotency_key
key_of (report_execution h) = h.idempotency_key

module _ (json : Json) where
  abbrev pub json_of : Message → String
  json_of (register r) = json.registration_json r
  json_of (report_capability c) = json.capability_json c
  json_of (report_resource c) = json.resource_json c
  json_of (beat h) = json.heartbeat_json h
  json_of (report_execution h) = json.execution_json h

  -- The tests that stand before the look-up of the idempotency key.
  abbrev pub admits : WorkerState → Message → Result (Unit {0})
  admits s (register r) = same_worker s.registration r
  admits s (report_capability c) = require_current_identity c.host_id c.worker_id c.fence_token s
  admits s (report_resource c) = require_current_identity c.host_id c.worker_id c.fence_token s
  admits s (beat h) = require_current_identity h.host_id h.worker_id h.fence_token s
  admits s (report_execution h) = require_current_identity h.host_id h.worker_id h.fence_token s

  -- A known key decides the outcome: an exact retry changes nothing.
  apply_retry :
      (m : Message) (s : WorkerState)
      → admits s m ≡ ok tt
      → is_retry (stream_of m) (key_of m) (json_of m) s ≡ ok true
      → apply json m s ≡ ok (false, s)
  unfolding apply apply_registration apply_capability_snapshot apply_resource_snapshot
      apply_heartbeat apply_execution_handle
  apply_retry (register r) s a k = ground arith
  apply_retry _ s a k = ground arith

  pub apply_conflict :
      (m : Message) (s : WorkerState) {e : WorkerError}
      → admits s m ≡ ok tt
      → is_retry (stream_of m) (key_of m) (json_of m) s ≡ err e
      → apply json m s ≡ err e
  unfolding apply apply_registration apply_capability_snapshot apply_resource_snapshot
      apply_heartbeat apply_execution_handle
  apply_conflict (register r) s a k = ground arith
  apply_conflict _ s a k = ground arith

  -- The state remembers the message, and would take it again.
  record Remembers (m : Message) (s : WorkerState) : Type 0 where
    base : WorkerState
    remembered : s ≡ remember (stream_of m) (key_of m) (json_of m) base
    admitted : admits s m ≡ ok tt

  same_worker_self : (r : HostRegistration) → same_worker (some r) r ≡ ok tt
  same_worker_self r = ground (arith, =?_refl r.host_id, =?_refl r.worker_id)

  owned-current :
      {host_id worker_id : String} {fence_token : ℕ} {s : WorkerState} (t : WorkerState)
      → IsOwned s host_id worker_id fence_token
      → t.registration ≡ s.registration
      → require_current_identity host_id worker_id fence_token t ≡ ok tt
  unfolding require_current_identity
  owned-current t o same =
      rw (same, o.active, o.same_host, o.same_worker, o.same_fence) (owned_self o.owner)
    where
      owned_self :
          (r : HostRegistration)
          → matches_registration (some r) r.host_id r.worker_id r.fence_token ≡ ok tt
      owned_self r = ground (arith, =?_refl r.host_id, =?_refl r.worker_id)

  accepted-Remembers :
      (m : Message) (s : WorkerState) {s' : WorkerState}
      → apply json m s ≡ ok (true, s')
      → Remembers m s'
  unfolding apply remember
  accepted-Remembers (register r) s e = elim (apply_registration-eq-ok json r s e) [
    | inl (no_retry, _) ↦ cc
    | inr (_, _, done) ↦ record {
      base = record (generation_of s.registration s) { registration = some r };
      remembered = done;
      admitted = rw done (same_worker_self r);
    }
  ]
  accepted-Remembers (report_capability c) s e = elim (apply_capability_snapshot-eq-ok json c s e) [
    | inl (no_retry, _) ↦ cc
    | inr (_, owned, _, done) ↦ record {
      base = record s { capability_snapshot = some c };
      remembered = done;
      admitted = owned-current _ owned (rw done);
    }
  ]
  accepted-Remembers (report_resource c) s e = elim (apply_resource_snapshot-eq-ok json c s e) [
    | inl (no_retry, _) ↦ cc
    | inr (_, owned, _, done) ↦ record {
      base = record s { resource_snapshot = some c };
      remembered = done;
      admitted = owned-current _ owned (rw done);
    }
  ]
  accepted-Remembers (beat h) s e = elim (apply_heartbeat-eq-ok json h s e) [
    | inl (no_retry, _) ↦ cc
    | inr (_, owned, _, done) ↦ record {
      base = record s { heartbeat = some h };
      remembered = done;
      admitted = owned-current _ owned (rw done);
    }
  ]
  accepted-Remembers (report_execution h) s e = elim (apply_execution_handle-eq-ok json h s e) [
    | inl (no_retry, _) ↦ cc
    | inr (_, owned, _, _, _, done) ↦ record {
      base = record s {
        execution_identities = Dict.put h.handle_id (execution_identity h) s.execution_identities;
        execution_handles = Dict.put h.handle_id h s.execution_handles;
      };
      remembered = done;
      admitted = owned-current _ owned (rw done);
    }
  ]

  is_retry-remember :
      (stream : Stream) (key payload : String) (s : WorkerState)
      → is_retry stream key payload (remember stream key payload s) ≡ ok true
  unfolding is_retry remember
  is_retry-remember stream key payload s = rw Dict.get-put_self (ground (arith, =?_refl payload))

  pub is_retry-held :
      (stream : Stream) (key old payload : String) (s : WorkerState)
      → payload ≢ old
      → Dict.get (record { stream = stream; key = key }) s.idempotency_payloads ≡ some old
      → is_retry stream key payload s ≡ err idempotency
  unfolding is_retry
  is_retry-held stream key old payload s n held =
      rw held (ground (arith, string_eq.beq_iff old payload))

  -- The content of a message that was accepted stands under its key.
  pub accepted-remembered :
      (m : Message) (s : WorkerState) {s' : WorkerState}
      → apply json m s ≡ ok (true, s')
      → Dict.get (record { stream = stream_of m; key = key_of m }) s'.idempotency_payloads
        ≡ some (json_of m)
  unfolding remember
  accepted-remembered m s e =
      let r = accepted-Remembers m s e in
      rw r.remembered (Dict.get-put_self _ (json_of m) r.base.idempotency_payloads)

  -- A message that was accepted is an exact retry when it comes again at once: the handler returns
  -- False, and the state is unchanged.
  pub apply_again :
      (m : Message) (s s' : WorkerState)
      → apply json m s ≡ ok (true, s')
      → apply json m s' ≡ ok (false, s')
  apply_again m s s' e =
      let r = accepted-Remembers m s e in
      apply_retry m s' r.admitted
        (rw r.remembered (is_retry-remember (stream_of m) (key_of m) (json_of m) r.base))
