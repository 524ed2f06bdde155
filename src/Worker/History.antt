-- ===== src/Worker/History.antt =====
-- What a `WorkerState` keeps over a session of messages, whatever they are
-- (src/local_agent_dispatch/worker/state.py).
use local_agent_dispatch.Api.Contracts.{HostRegistration, ExecutionHandle}
use local_agent_dispatch.Prelude.Dict
use local_agent_dispatch.Prelude.Keys.{string_eq}
use local_agent_dispatch.Prelude.{
  ◌<◌, ◌≤◌, String, ◌≡◌, refl, ap, inl, inr, Bool, Option, none, some, List, [], ◌∷◌, arith,
  Option-cases,
}
use local_agent_dispatch.Worker.State.{
  WorkerState, ok, registration, Identity, remember, clear_generation_idempotency,
  execution_identity,
}
use local_agent_dispatch.Worker.Apply.{
  Json, generation_of, Message, register, report_capability, report_resource, beat,
  report_execution, apply, state_after, deliver,
}
use local_agent_dispatch.Worker.Accepts.{
  Succeeds, apply_registration-eq-ok, apply_capability_snapshot-eq-ok,
  apply_resource_snapshot-eq-ok, apply_heartbeat-eq-ok, apply_execution_handle-eq-ok,
}
use local_agent_dispatch.Worker.Invariant.{IsWellFormed, state_after_ind, deliver_from-IsWellFormed}

-- What one session step does to the parts that outlive a message.
pub record Keeps (s t : WorkerState) : Type 0 where
  -- The worker stays registered, as the same worker, under no lower fence.
  pub registered :
      (p : HostRegistration)
      → s.registration ≡ some p
      → (r : HostRegistration) × (t.registration ≡ some r)
        × (r.host_id ≡ p.host_id)
        × (r.worker_id ≡ p.worker_id)
        × (p.fence_token ≤ r.fence_token)
  pub identities :
      (k : String) (i : Identity)
      → Dict.get k s.execution_identities ≡ some i
      → Dict.get k t.execution_identities ≡ some i

pub Keeps-refl : (s : WorkerState) → Keeps s s
Keeps-refl s = record {
  registered = λ p e. (p, e, refl, refl, omega arith);
  identities = λ k i e. e;
}

pub Keeps-trans : (s t u : WorkerState) → Keeps s t → Keeps t u → Keeps s u
Keeps-trans s t u a b = record {
  registered = λ p e.
      let (q, at_t, host, worker, low) = a.registered p e in
      let (r, at_u, host', worker', low') = b.registered q at_t in (r, at_u, cc, cc, omega arith);
  identities = λ k i e. b.identities k i (a.identities k i e);
}

module _ (json : Json) (s : WorkerState) where
  registered_after-Keeps :
      (r : HostRegistration) (o : Option HostRegistration)
      → s.registration ≡ o
      → Succeeds json o r
      → Keeps s (
          remember registration r.idempotency_key
            (json.registration_json r)
            (record (generation_of o s) { registration = some r }))
  unfolding remember clear_generation_idempotency
  registered_after-Keeps r none u h = record { registered = λ p e. cc; identities = λ k i e. e }
  registered_after-Keeps r (some q) u h = record {
    registered = λ p e. (r, refl, ground arith, ground arith, ground arith);
    identities = λ k i e. e;
  }

  pub accepted-Keeps :
      (m : Message) (b : Bool) (s' : WorkerState) → apply json m s ≡ ok (b, s') → Keeps s s'
  unfolding apply remember clear_generation_idempotency
  accepted-Keeps (register r) b s' e = elim (apply_registration-eq-ok json r s e) [
    | inl (_, same) ↦ rw same (Keeps-refl s)
    | inr (_, succeeds, done) ↦ rw done (registered_after-Keeps r s.registration refl succeeds)
  ]
  accepted-Keeps (report_capability c) b s' e = elim (apply_capability_snapshot-eq-ok json c s e) [
    | inl (_, same) ↦ rw same (Keeps-refl s)
    | inr (_, _, _, done) ↦
        rw done (record { registered = (Keeps-refl s).registered; identities = λ k i e. e })
  ]
  accepted-Keeps (report_resource c) b s' e = elim (apply_resource_snapshot-eq-ok json c s e) [
    | inl (_, same) ↦ rw same (Keeps-refl s)
    | inr (_, _, _, done) ↦
        rw done (record { registered = (Keeps-refl s).registered; identities = λ k i e. e })
  ]
  accepted-Keeps (beat h) b s' e = elim (apply_heartbeat-eq-ok json h s e) [
    | inl (_, same) ↦ rw same (Keeps-refl s)
    | inr (_, _, _, done) ↦
        rw done (record { registered = (Keeps-refl s).registered; identities = λ k i e. e })
  ]
  accepted-Keeps (report_execution h) b s' e = elim (apply_execution_handle-eq-ok json h s e) [
    | inl (_, same) ↦ rw same (Keeps-refl s)
    | inr (_, _, agrees, _, _, done) ↦ rw done (record {
      registered = (Keeps-refl s).registered;
      identities = λ k i e. ground (
        arith,
        string_eq.beq_iff h.handle_id k,
        Dict.get-put h.handle_id k (execution_identity h) s.execution_identities,
      );
    })
  ]

pub deliver-Keeps :
    (json : Json) (ms : List Message) (s : WorkerState) → Keeps s (deliver json ms s)
unfolding deliver
deliver-Keeps json [] s = Keeps-refl s
deliver-Keeps json (m ∷ ms) s =
    let t = state_after s (apply json m s) in
    Keeps-trans s t (deliver json ms t)
      (state_after_ind (Keeps s) s (apply json m s) (Keeps-refl s) (accepted-Keeps json s m))
      (deliver-Keeps json ms t)

-- Once a worker is registered, every later state has the same host and worker registered, and the
-- fence never goes back.
pub deliver-fence_monotone :
    (json : Json) (ms : List Message) (s : WorkerState) (p : HostRegistration)
    → s.registration ≡ some p
    → (r : HostRegistration) × ((deliver json ms s).registration ≡ some r)
      × (r.host_id ≡ p.host_id)
      × (r.worker_id ≡ p.worker_id)
      × (p.fence_token ≤ r.fence_token)
deliver-fence_monotone json ms s = (deliver-Keeps json ms s).registered

-- From a well-formed state, a handle identifier is bound for good: whatever is delivered later, a
-- live handle under it bears the job, attempt, host, worker, fence, reservation and process that the
-- identifier is bound to.
pub deliver-identity_permanent :
    (json : Json) (ms : List Message) (s : WorkerState) (k : String) (i : Identity)
    (h : ExecutionHandle)
    → IsWellFormed s
    → Dict.get k s.execution_identities ≡ some i
    → Dict.get k (deliver json ms s).execution_handles ≡ some h
    → execution_identity h ≡ i
deliver-identity_permanent json ms s k i h w bound live =
    let kept = (deliver-Keeps json ms s).identities k i bound in
    let named = (deliver_from-IsWellFormed json ms s w).identity_kept k h live in cc

pub fence_of_same :
    {o : Option HostRegistration} {p r : HostRegistration}
    → o ≡ some p
    → o ≡ some r
    → p.fence_token ≡ r.fence_token
fence_of_same e f = cc

-- A handle of an old generation is gone for good: once, in a well-formed state, the active fence is
-- above the one that an identifier was bound under, no later message makes a handle live under it.
pub deliver-stale_handle_gone :
    (json : Json) (ms : List Message) (s : WorkerState) (k : String) (i : Identity)
    (p : HostRegistration)
    → IsWellFormed s
    → Dict.get k s.execution_identities ≡ some i
    → s.registration ≡ some p
    → i.fence_token < p.fence_token
    → Dict.get k (deliver json ms s).execution_handles ≡ none
deliver-stale_handle_gone json ms s k i p w bound active older =
    elim (Option-cases (Dict.get k (deliver json ms s).execution_handles)) [
      | inl gone ↦ gone
      | inr (h, live) ↦
          let same = deliver-identity_permanent json ms s k i h w bound live in
          let owned = (deliver_from-IsWellFormed json ms s w).handle_owned k h live in
          let (r, now, _, _, low) = deliver-fence_monotone json ms s p active in
          absurd (
            omega (
              arith,
              ap (λ (j : Identity). j.fence_token) same,
              owned.same_fence,
              fence_of_same owned.active now,
            ))
    ]
