-- ===== src/Worker/Reuse.antt =====
-- How long the idempotency keys of src/local_agent_dispatch/worker/state.py are remembered: until the
-- next generation, whatever messages come.
use local_agent_dispatch.Api.Contracts.{HostRegistration}
use local_agent_dispatch.Prelude.Dict
use local_agent_dispatch.Prelude.Keys.{string_eq}
use local_agent_dispatch.Prelude.{
  ◌≤◌, String, ◌≡◌, ◌≢◌, refl, ap, ◌∙◌, inl, inr, Bool, true, Option, none, some, List, [], ◌∷◌,
  arith,
}
use local_agent_dispatch.Worker.Accepts.{
  Succeeds, apply_registration-eq-ok, apply_capability_snapshot-eq-ok,
  apply_resource_snapshot-eq-ok, apply_heartbeat-eq-ok, apply_execution_handle-eq-ok,
}
use local_agent_dispatch.Worker.Apply.{
  Json, Message, register, report_capability, report_resource, beat, report_execution, apply,
  apply_registration, apply_capability_snapshot, apply_resource_snapshot, apply_heartbeat,
  apply_execution_handle, state_after, deliver,
}
use local_agent_dispatch.Worker.Invariant.{state_after_ind}
use local_agent_dispatch.Worker.Replay.{
  stream_of, key_of, json_of, admits, apply_conflict, accepted-remembered, is_retry-held,
}
use local_agent_dispatch.Worker.State.{
  WorkerState, ok, err, idempotency, Stream, StreamKey, is_retry, remember, stream_key_eq,
}

-- The state remembers this content under a key of a stream.
abbrev pub Holds : StreamKey → String → WorkerState → Type 0
Holds k payload s = Dict.get k s.idempotency_payloads ≡ some payload

-- From one state to another the worker stays registered under no lower fence; and under the same fence
-- no key is forgotten or given other content.
record KeepsKeys (s t : WorkerState) : Type 0 where
  registered :
      (p : HostRegistration)
      → s.registration ≡ some p
      → (r : HostRegistration) × (t.registration ≡ some r)
        × (p.fence_token ≤ r.fence_token)
        × (r.fence_token ≡ p.fence_token
            → (k : StreamKey) (payload : String) → Holds k payload s
            → Holds k payload t)

KeepsKeys-refl : (s : WorkerState) → KeepsKeys s s
KeepsKeys-refl s = record { registered = λ p e. (p, e, omega arith, λ same k payload h. h) }

KeepsKeys-trans : (s t u : WorkerState) → KeepsKeys s t → KeepsKeys t u → KeepsKeys s u
KeepsKeys-trans s t u a b = record {
  registered = λ p e.
      let (q, at_t, low, keys) = a.registered p e in
      let (r, at_u, low', keys') = b.registered q at_t in
      (
        r,
        at_u,
        omega arith,
        λ same k payload h. keys' (omega arith) k payload (keys (omega arith) k payload h),
      );
}

new_key-kept :
    (k j : StreamKey) (old payload : String) (s : WorkerState)
    → Dict.get k s.idempotency_payloads ≡ none
    → Holds j old s
    → Dict.get j (Dict.put k payload s.idempotency_payloads) ≡ some old
new_key-kept k j old payload s new held =
    ground
      (arith, stream_key_eq.beq_iff k j, Dict.get-put k j payload s.idempotency_payloads, new, held)

-- A message with a new key, other than a registration, keeps the keys.
remembered-KeepsKeys :
    (stream : Stream) (key payload : String) (s t : WorkerState)
    → Dict.get (record { stream = stream; key = key }) s.idempotency_payloads ≡ none
    → t.registration ≡ s.registration
    → t.idempotency_payloads ≡ s.idempotency_payloads
    → KeepsKeys s (remember stream key payload t)
unfolding remember
remembered-KeepsKeys stream key payload s t new same_worker same_keys = record {
  registered = λ p e. (
    p,
    same_worker ∙ e,
    omega arith,
    λ same k old h.
        ap (λ d. Dict.get k (Dict.put (record { stream = stream; key = key }) payload d)) same_keys
        ∙ new_key-kept (record { stream = stream; key = key }) k old payload s new h,
  );
}

module _ (json : Json) (s : WorkerState) where
  -- A message is only accepted under a key that is new.
  accepted_new :
      (m : Message) {s' : WorkerState}
      → apply json m s ≡ ok (true, s')
      → Dict.get (record { stream = stream_of m; key = key_of m }) s.idempotency_payloads ≡ none
  unfolding apply apply_registration apply_capability_snapshot apply_resource_snapshot
      apply_heartbeat apply_execution_handle is_retry
  accepted_new (register r) e = ground arith
  accepted_new (report_capability c) e = ground arith
  accepted_new (report_resource c) e = ground arith
  accepted_new (beat h) e = ground arith
  accepted_new (report_execution h) e = ground arith

  registered_after-KeepsKeys :
      (r : HostRegistration) (o : Option HostRegistration) (t : WorkerState)
      → s.registration ≡ o
      → Succeeds json o r
      → t.registration ≡ some r
      → KeepsKeys s t
  registered_after-KeepsKeys r none t u h now = record { registered = λ p e. cc }
  registered_after-KeepsKeys r (some q) t u h now = record {
    registered = λ p e. (r, now, ground arith, λ same. absurd (ground arith));
  }

  accepted-KeepsKeys :
      (m : Message) (b : Bool) (s' : WorkerState) → apply json m s ≡ ok (b, s') → KeepsKeys s s'
  unfolding apply remember
  accepted-KeepsKeys (register r) b s' e = elim (apply_registration-eq-ok json r s e) [
    | inl (_, same) ↦ rw same (KeepsKeys-refl s)
    | inr (_, succeeds, done) ↦
        registered_after-KeepsKeys r s.registration s' refl succeeds (rw done refl)
  ]
  accepted-KeepsKeys (report_capability c) b s' e =
      elim (apply_capability_snapshot-eq-ok json c s e) [
        | inl (_, same) ↦ rw same (KeepsKeys-refl s)
        | inr (is_true, _, _, done) ↦
            let new = accepted_new (report_capability c) (rw is_true at e) in
            rw done (remembered-KeepsKeys _ _ _ s _ new refl refl)
      ]
  accepted-KeepsKeys (report_resource c) b s' e = elim (apply_resource_snapshot-eq-ok json c s e) [
    | inl (_, same) ↦ rw same (KeepsKeys-refl s)
    | inr (is_true, _, _, done) ↦
        let new = accepted_new (report_resource c) (rw is_true at e) in
        rw done (remembered-KeepsKeys _ _ _ s _ new refl refl)
  ]
  accepted-KeepsKeys (beat h) b s' e = elim (apply_heartbeat-eq-ok json h s e) [
    | inl (_, same) ↦ rw same (KeepsKeys-refl s)
    | inr (is_true, _, _, done) ↦
        let new = accepted_new (beat h) (rw is_true at e) in
        rw done (remembered-KeepsKeys _ _ _ s _ new refl refl)
  ]
  accepted-KeepsKeys (report_execution h) b s' e = elim (apply_execution_handle-eq-ok json h s e) [
    | inl (_, same) ↦ rw same (KeepsKeys-refl s)
    | inr (is_true, _, _, _, _, done) ↦
        let new = accepted_new (report_execution h) (rw is_true at e) in
        rw done (remembered-KeepsKeys _ _ _ s _ new refl refl)
  ]

deliver-KeepsKeys :
    (json : Json) (ms : List Message) (s : WorkerState) → KeepsKeys s (deliver json ms s)
unfolding deliver
deliver-KeepsKeys json [] s = KeepsKeys-refl s
deliver-KeepsKeys json (m ∷ ms) s =
    let t = state_after s (apply json m s) in
    KeepsKeys-trans s t (deliver json ms t)
      (state_after_ind (KeepsKeys s) s (apply json m s) (KeepsKeys-refl s)
        (accepted-KeepsKeys json s m))
      (deliver-KeepsKeys json ms t)

held_after :
    (json : Json) (ms : List Message) (s : WorkerState) (p r : HostRegistration) (k : StreamKey)
    (payload : String)
    → s.registration ≡ some p
    → (deliver json ms s).registration ≡ some r
    → r.fence_token ≡ p.fence_token
    → Holds k payload s
    → Holds k payload (deliver json ms s)
held_after json ms s p r k payload at_s now same held =
    let (q, at_t, _, keys) = (deliver-KeepsKeys json ms s).registered p at_s in
    let one : q.fence_token ≡ r.fence_token = ground (arith, at_t, now) in
    keys (one ∙ same) k payload held

-- After a message was accepted and any others were delivered, as long as the registered fence is the
-- same, another message of the same stream under the same idempotency key, with other content, is
-- refused with WorkerIdempotencyError if its worker and fence are current.
pub deliver-key_reuse :
    (json : Json) (m m' : Message) (ms : List Message) (s s' : WorkerState) (p r : HostRegistration)
    → apply json m s ≡ ok (true, s')
    → s'.registration ≡ some p
    → (deliver json ms s').registration ≡ some r
    → r.fence_token ≡ p.fence_token
    → stream_of m' ≡ stream_of m
    → key_of m' ≡ key_of m
    → json_of json m' ≢ json_of json m
    → admits json (deliver json ms s') m' ≡ ok tt
    → apply json m' (deliver json ms s') ≡ err idempotency
deliver-key_reuse json m m' ms s s' p r e at_first now same_fence same_stream same_key other a =
    let k : StreamKey = record { stream = stream_of m; key = key_of m } in
    let held =
      held_after json ms s' p r k (json_of json m) at_first now same_fence
        (accepted-remembered json m s e) in
    apply_conflict json m' (deliver json ms s') a (
      rw (same_stream, same_key)
        (is_retry-held json (stream_of m) (key_of m) (json_of json m) (json_of json m')
          (deliver json ms s') other held))
