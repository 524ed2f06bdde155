-- ===== src/Examples/Status.antt =====
-- A worker that is ready for dispatch (src/local_agent_dispatch/worker/state.py).
use local_agent_dispatch.Api.Contracts.{WorkerReportedState, ResourceUsage, MemoryResources}
use local_agent_dispatch.Api.Freshness.{Clock, freshness, parse_timestamp, current_instant}
use local_agent_dispatch.Prelude.Int.{pos, ◌-ℤ◌}
use local_agent_dispatch.Prelude.{◌≡◌, refl, none, some, []}
use local_agent_dispatch.Worker.Admission.{IsReady, admission_status-ready}
use local_agent_dispatch.Worker.State.{WorkerState, ok, initial}
use local_agent_dispatch.Worker.Status.{
  ready, worker_status, evidence_status, admission_status, usage_reconciliation,
}
use local_agent_dispatch.Worker.Usage.{UsageStatus, tally, reconcile_usage}
use local_agent_dispatch.Worker.UsageLaws.{reconcile_usage-status}

-- Every timestamp reads as the start of the epoch, and it is one second later.
abbrev clock : Clock
clock = record { from_iso_format = λ t. some (pos 0); utc_now = pos 1_000_000 }

abbrev reserved : ResourceUsage
reserved = record {
  cpu_cores = some 4;
  ram_bytes = some 1000;
  swap_bytes = none;
  gpu_memory_bytes = none;
  disk_bytes = none;
  inodes = none;
  owned_process_rss_bytes = none;
}

abbrev used : ResourceUsage
used = record reserved { ram_bytes = some 900 }

abbrev overused : ResourceUsage
overused = record reserved { ram_bytes = some 1100; cpu_cores = none }

abbrev unknown_memory : MemoryResources
unknown_memory = record {
  capacity_bytes = none;
  allocatable_bytes = none;
  available_bytes = none;
  used_bytes = none;
}

abbrev worker : WorkerState
worker = record initial {
  registration = some (record {
    registration_id = "reg";
    host_id = "host";
    worker_id = "worker";
    roles = [];
    registered_at = "t";
    idempotency_key = "r1";
    fence_token = 1;
    labels = [];
  });
  capability_snapshot = some (record {
    snapshot_id = "c";
    host_id = "host";
    worker_id = "worker";
    capabilities = [];
    observed_at = "t";
    ttl_seconds = some 60;
    source = "probe";
    confidence = some 1;
    sequence = 5;
    idempotency_key = "c1";
    fence_token = 1;
  });
  resource_snapshot = some (record {
    snapshot_id = "s";
    host_id = "host";
    worker_id = "worker";
    cpu = record {
      capacity_cores = some 8;
      allocatable_cores = none;
      available_cores = none;
      utilization_percent = none;
    };
    ram = unknown_memory;
    swap = unknown_memory;
    cgroup = record {
      cpu_quota_cores = none;
      memory_limit_bytes = none;
      memory_current_bytes = none;
      swap_limit_bytes = none;
      swap_current_bytes = none;
    };
    mounts = [];
    gpus = [];
    owned_processes = [];
    observed_at = "t";
    ttl_seconds = some 60;
    source = "probe";
    confidence = some 1;
    sequence = 7;
    idempotency_key = "s1";
    fence_token = 1;
  });
  heartbeat = some (record {
    heartbeat_id = "b";
    host_id = "host";
    worker_id = "worker";
    state = WorkerReportedState.ready;
    observed_at = "t";
    ttl_seconds = some 60;
    source = "worker";
    confidence = some 1;
    sequence = 9;
    idempotency_key = "b1";
    fence_token = 1;
    capability_sequence = some 5;
    resource_sequence = some 7;
    reserved_usage = reserved;
    actual_usage = used;
    active_execution_handles = [];
  });
}

worker_is_ready : admission_status clock none worker ≡ ok ready
unfolding admission_status worker_status evidence_status usage_reconciliation reconcile_usage tally
    freshness parse_timestamp current_instant ◌-ℤ◌
worker_is_ready = refl

admission_status-ready_example : IsReady clock none worker
admission_status-ready_example = (admission_status-ready clock none worker).0 worker_is_ready

-- More memory is used than was reserved, and the cores are not known.
reconcile_usage-status_example : (reconcile_usage reserved overused).status ≡ UsageStatus.exceeded
reconcile_usage-status_example = reconcile_usage-status reserved overused
