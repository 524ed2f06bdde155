-- ===== src/Worker/Admission.antt =====
-- When a worker is ready for dispatch (src/local_agent_dispatch/worker/state.py).
use local_agent_dispatch.Api.Contracts.{
  WorkerReportedState, HostRegistration, CapabilitySnapshot, ResourceSnapshot, WorkerHeartbeat,
}
use local_agent_dispatch.Api.Freshness.{Clock, fresh, freshness}
use local_agent_dispatch.Prelude.{ℕ, ◌<◌, String, ◌≡◌, ◌↔◌, Option, none, some, arith}
use local_agent_dispatch.Worker.State.{WorkerState, ok}
use local_agent_dispatch.Worker.Usage.{within, reconcile_usage}
use local_agent_dispatch.Worker.Status.{
  ready, worker_status, evidence_status, admission_status, usage_reconciliation,
}

-- The confidence is known, and positive.
abbrev pub IsConfident : Option ℕ → Type 0
IsConfident none = ⊥
IsConfident (some c) = 0 < c

module _ (clock : Clock) (now : Option String) where
  -- All of the evidence that a dispatch needs, fresh and about one another.
  pub record IsReady (s : WorkerState) : Type 0 where
    pub owner : HostRegistration
    pub registered : s.registration ≡ some owner
    pub beat : WorkerHeartbeat
    pub has_beat : s.heartbeat ≡ some beat
    pub says_ready : beat.state ≡ WorkerReportedState.ready
    pub beat_fresh : freshness clock beat.observed_at beat.ttl_seconds now ≡ some fresh
    pub capability : CapabilitySnapshot
    pub has_capability : s.capability_snapshot ≡ some capability
    pub capability_fresh :
        freshness clock capability.observed_at capability.ttl_seconds now ≡ some fresh
    pub resource : ResourceSnapshot
    pub has_resource : s.resource_snapshot ≡ some resource
    pub resource_fresh : freshness clock resource.observed_at resource.ttl_seconds now ≡ some fresh
    pub capability_seen : beat.capability_sequence ≡ some capability.sequence
    pub resource_seen : beat.resource_sequence ≡ some resource.sequence
    pub capability_confident : IsConfident capability.confidence
    pub resource_confident : IsConfident resource.confidence
    pub beat_confident : IsConfident beat.confidence
    pub usage_within : (reconcile_usage beat.reserved_usage beat.actual_usage).status ≡ within

  worker_ready :
      (s : WorkerState)
      → worker_status clock now s ≡ ok ready
      → (owner : HostRegistration) × (s.registration ≡ some owner)
        × (h : WorkerHeartbeat) × (s.heartbeat ≡ some h)
        × (h.state ≡ WorkerReportedState.ready)
        × (freshness clock h.observed_at h.ttl_seconds now ≡ some fresh)
  unfolding worker_status
  worker_ready s e = ground arith

  evidence_ready :
      (c : CapabilitySnapshot) (r : ResourceSnapshot) (h : WorkerHeartbeat) (s : WorkerState)
      → evidence_status clock now c r h s ≡ ok ready
      → (freshness clock c.observed_at c.ttl_seconds now ≡ some fresh)
        × (freshness clock r.observed_at r.ttl_seconds now ≡ some fresh)
        × (h.capability_sequence ≡ some c.sequence)
        × (h.resource_sequence ≡ some r.sequence)
        × IsConfident c.confidence
        × IsConfident r.confidence
        × IsConfident h.confidence
        × ((usage_reconciliation s).status ≡ within)
  unfolding evidence_status
  evidence_ready c r h s e = ground arith

  admission_ready :
      (s : WorkerState)
      → admission_status clock now s ≡ ok ready
      → (worker_status clock now s ≡ ok ready)
        × (c : CapabilitySnapshot) × (s.capability_snapshot ≡ some c)
        × (r : ResourceSnapshot) × (s.resource_snapshot ≡ some r)
        × (h : WorkerHeartbeat) × (s.heartbeat ≡ some h)
        × (evidence_status clock now c r h s ≡ ok ready)
  unfolding admission_status
  admission_ready s e = ground arith

  usage_of_beat :
      (h : WorkerHeartbeat) (s : WorkerState)
      → s.heartbeat ≡ some h
      → usage_reconciliation s ≡ reconcile_usage h.reserved_usage h.actual_usage
  unfolding usage_reconciliation
  usage_of_beat h s e = ground arith

  ready-IsReady : (s : WorkerState) → admission_status clock now s ≡ ok ready → IsReady s
  ready-IsReady s e =
      let (works, c, has_c, r, has_r, h, has_h, evident) = admission_ready s e in
      let (owner, registered, h', has_h', says, beat_fresh) = worker_ready s works in
      let (cf, rf, cs, rs, cc1, rc1, hc1, usage) = evidence_ready c r h s evident in
      let same : h' ≡ h = cc in
      record {
        owner = owner;
        registered = registered;
        beat = h;
        has_beat = has_h;
        says_ready = rw same at says;
        beat_fresh = rw same at beat_fresh;
        capability = c;
        has_capability = has_c;
        capability_fresh = cf;
        resource = r;
        has_resource = has_r;
        resource_fresh = rf;
        capability_seen = cs;
        resource_seen = rs;
        capability_confident = cc1;
        resource_confident = rc1;
        beat_confident = hc1;
        usage_within = rw (usage_of_beat h s has_h) at usage;
      }

  IsReady-ready : (s : WorkerState) → IsReady s → admission_status clock now s ≡ ok ready
  unfolding admission_status worker_status evidence_status
  IsReady-ready s i = ground (arith, usage_of_beat i.beat s i.has_beat)

  -- The admission status is "ready" exactly when the worker is registered and reports itself ready in
  -- a fresh heartbeat, both snapshots are there and fresh, the heartbeat names the sequence numbers of
  -- those very snapshots, all three have a positive confidence, and the reported usage is known to lie
  -- within the reservation.
  pub admission_status-ready :
      (s : WorkerState) → (admission_status clock now s ≡ ok ready) ↔ IsReady s
  admission_status-ready s = (ready-IsReady s, IsReady-ready s)
