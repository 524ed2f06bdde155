-- ===== src/Scheduler/Model.antt =====
-- The records of src/local_agent_dispatch/scheduler/core.py. Their `__post_init__` checks are in the
-- types: amounts that are checked as non-negative are natural numbers. A ratio is a float.
use local_agent_dispatch.Prelude.Int.{ℤ}
use local_agent_dispatch.Prelude.{ℕ, ◌+◌, String, Bool, true, false, Option, none, some, List}
use local_agent_dispatch.World.Floats.{Floats}
use local_agent_dispatch.World.Host.{Host}

pub record WorkloadRequirements (Float : Type 0) : Type 0 where
  pub job_id : String
  pub memory_bytes : ℕ
  pub disk_bytes : ℕ
  pub disk_inodes : Option ℕ
  pub cpu_threads : Option ℕ
  pub gpu_vram_mib : Option ℕ
  pub required_capabilities : List String
  pub preferred_host_ids : List String
  pub server_preferred : Bool
  pub headroom_ratio : Float

module _ (floats : Floats) where
  open floats use {Float, scaled}

  abbrev pub with_headroom : ℕ → Float → ℕ
  with_headroom amount ratio = amount + scaled amount ratio

  abbrev pub memory_with_headroom : WorkloadRequirements Float → ℕ
  memory_with_headroom r = with_headroom r.memory_bytes r.headroom_ratio

  abbrev pub gpu_with_headroom_mib : WorkloadRequirements Float → Option ℕ
  gpu_with_headroom_mib r = elim r.gpu_vram_mib [
    | none ↦ none
    | some amount ↦ some (with_headroom amount r.headroom_ratio)
  ]

pub record CandidateTarget (Float : Type 0) : Type 0 where
  pub target_id : String
  pub host : Host
  pub workspace_path : String
  pub capabilities : List String
  pub harness_id : String
  pub provider_id : Option String
  pub runtime_id : Option String
  pub remote : Bool
  pub route_verified : Option Bool
  pub execution_ready : Option Bool
  pub max_lanes : ℕ
  pub active_lanes : ℕ
  pub reliability : Option Float

pub record ResourceUsage : Type 0 where
  pub memory_bytes : ℕ
  pub disk_bytes : ℕ
  pub disk_inodes : ℕ
  pub gpu_vram_mib : ℕ
  pub lanes : ℕ
  pub cpu_threads : ℕ

-- ResourceUsage()
abbrev pub no_usage : ResourceUsage
no_usage = record {
  memory_bytes = 0;
  disk_bytes = 0;
  disk_inodes = 0;
  gpu_vram_mib = 0;
  lanes = 0;
  cpu_threads = 0;
}

pub data AssessmentVerdict : Type 0 where
  eligible unknown reject : AssessmentVerdict

abbrev pub is_eligible : AssessmentVerdict → Bool
is_eligible eligible = true
is_eligible _ = false

-- What each text of `reasons` says; `disk_gate` stands for the texts of the placement gate.
pub data AssessmentReason : Type 0 where
  target_not_ready readiness_unknown route_unverified route_unknown : AssessmentReason
  capabilities_missing no_lane threads_unknown threads_short : AssessmentReason
  ram_missing ram_stale ram_freshness ram_unknown cgroup_incomplete ram_short : AssessmentReason
  disk_gate disk_exhausted inodes_unknown inodes_exhausted : AssessmentReason
  no_gpu gpu_unknown gpu_stale gpu_short all_passed : AssessmentReason

pub record CandidateAssessment (Float : Type 0) : Type 0 where
  pub target_id : String
  pub host_id : String
  pub verdict : AssessmentVerdict
  pub score : Option Float
  pub reasons : List AssessmentReason
  pub available_memory_bytes : Option ℤ
  pub safe_disk_bytes_after_request : Option ℤ
  pub available_gpu_vram_mib : Option ℤ
  pub lane_slots_after_request : ℤ
  pub score_components : List (String × Float)

pub data Decision : Type 0 where
  place blocked : Decision

pub record PlacementPlan (Float : Type 0) : Type 0 where
  pub job_id : String
  pub decision : Decision
  pub selected_target_id : Option String
  pub assessments : List (CandidateAssessment Float)
