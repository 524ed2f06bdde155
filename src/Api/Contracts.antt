-- ===== src/Api/Contracts.antt =====
-- The records of src/local_agent_dispatch/api/contracts.py. The checks of `__post_init__` and the
-- JSON forms are not here: the worker projection takes messages that have passed them.
-- `schema_version` and `api_version` are left out: every valid message has the same ones.
-- Fractions (cores, percentages, confidence) are whole numbers of a fixed small unit.
use local_agent_dispatch.Prelude.{ℕ, String, Bool, Option, List}

pub record Capability : Type 0 where
  pub capability_id : String
  pub kind : String
  pub status : String
  pub version : Option String
  pub constraints : List String

pub record CpuResources : Type 0 where
  pub capacity_cores : Option ℕ
  pub allocatable_cores : Option ℕ
  pub available_cores : Option ℕ
  pub utilization_percent : Option ℕ

pub record MemoryResources : Type 0 where
  pub capacity_bytes : Option ℕ
  pub allocatable_bytes : Option ℕ
  pub available_bytes : Option ℕ
  pub used_bytes : Option ℕ

pub record CgroupResources : Type 0 where
  pub cpu_quota_cores : Option ℕ
  pub memory_limit_bytes : Option ℕ
  pub memory_current_bytes : Option ℕ
  pub swap_limit_bytes : Option ℕ
  pub swap_current_bytes : Option ℕ

pub record MountResources : Type 0 where
  pub mount_path : String
  pub device : Option String
  pub fs_type : Option String
  pub writable : Option Bool
  pub capacity_bytes : Option ℕ
  pub available_bytes : Option ℕ
  pub total_inodes : Option ℕ
  pub free_inodes : Option ℕ

pub record GpuResources : Type 0 where
  pub gpu_id : String
  pub model : Option String
  pub memory_capacity_bytes : Option ℕ
  pub memory_available_bytes : Option ℕ
  pub utilization_percent : Option ℕ

pub record OwnedProcessResources : Type 0 where
  pub process_id : String
  pub attempt_id : String
  pub pid : ℕ
  pub started_at : String
  pub fence_token : ℕ
  pub rss_bytes : Option ℕ
  pub gpu_memory_bytes : Option ℕ

-- `none` is unknown, never zero.
pub record ResourceUsage : Type 0 where
  pub cpu_cores : Option ℕ
  pub ram_bytes : Option ℕ
  pub swap_bytes : Option ℕ
  pub gpu_memory_bytes : Option ℕ
  pub disk_bytes : Option ℕ
  pub inodes : Option ℕ
  pub owned_process_rss_bytes : Option ℕ

pub record HostRegistration : Type 0 where
  pub registration_id : String
  pub host_id : String
  pub worker_id : String
  pub roles : List String
  pub registered_at : String
  pub idempotency_key : String
  pub fence_token : ℕ
  pub labels : List String

pub record CapabilitySnapshot : Type 0 where
  pub snapshot_id : String
  pub host_id : String
  pub worker_id : String
  pub capabilities : List Capability
  pub observed_at : String
  pub ttl_seconds : Option ℕ
  pub source : String
  pub confidence : Option ℕ
  pub sequence : ℕ
  pub idempotency_key : String
  pub fence_token : ℕ

pub record ResourceSnapshot : Type 0 where
  pub snapshot_id : String
  pub host_id : String
  pub worker_id : String
  pub cpu : CpuResources
  pub ram : MemoryResources
  pub swap : MemoryResources
  pub cgroup : CgroupResources
  pub mounts : List MountResources
  pub gpus : List GpuResources
  pub owned_processes : List OwnedProcessResources
  pub observed_at : String
  pub ttl_seconds : Option ℕ
  pub source : String
  pub confidence : Option ℕ
  pub sequence : ℕ
  pub idempotency_key : String
  pub fence_token : ℕ

-- WORKER_REPORTED_STATES
pub data WorkerReportedState : Type 0 where
  ready busy draining stopped unknown : WorkerReportedState

pub record WorkerHeartbeat : Type 0 where
  pub heartbeat_id : String
  pub host_id : String
  pub worker_id : String
  pub state : WorkerReportedState
  pub observed_at : String
  pub ttl_seconds : Option ℕ
  pub source : String
  pub confidence : Option ℕ
  pub sequence : ℕ
  pub idempotency_key : String
  pub fence_token : ℕ
  pub capability_sequence : Option ℕ
  pub resource_sequence : Option ℕ
  pub reserved_usage : ResourceUsage
  pub actual_usage : ResourceUsage
  pub active_execution_handles : List String

-- EXECUTION_STATES
pub data ExecutionState : Type 0 where
  accepted running exited failed cancelled lost unknown : ExecutionState

pub record ExecutionHandle : Type 0 where
  pub handle_id : String
  pub job_id : String
  pub attempt_id : String
  pub host_id : String
  pub worker_id : String
  pub state : ExecutionState
  pub observed_at : String
  pub ttl_seconds : Option ℕ
  pub source : String
  pub confidence : Option ℕ
  pub sequence : ℕ
  pub idempotency_key : String
  pub fence_token : ℕ
  pub reservation_id : Option String
  pub process_id : Option String
  pub reserved_usage : ResourceUsage
  pub actual_usage : ResourceUsage
  pub artifact_refs : List String
