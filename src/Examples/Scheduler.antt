-- ===== src/Examples/Scheduler.antt =====
-- Placement of a job on one of two targets (src/local_agent_dispatch/scheduler/core.py).
use local_agent_dispatch.Examples.Topology.{floats, calendar, paths, host, data_mount}
use local_agent_dispatch.Prelude.Dict
use local_agent_dispatch.Prelude.Dict.{values}
use local_agent_dispatch.Prelude.Int.{pos, ◌-ℤ◌}
use local_agent_dispatch.Prelude.Keys.{string_eq}
use local_agent_dispatch.Prelude.{
  ℕ, String, ◌≡◌, ◌≢◌, refl, true, false, none, some, List, [], ◌∷◌, inl, In,
}
use local_agent_dispatch.Scheduler.Score.{score_components}
use local_agent_dispatch.Scheduler.Assess.{gate, assessment, assess_candidate}
use local_agent_dispatch.Scheduler.Book.Charges.{
  weight, weight_of, usage_at, usage_by_target-weight,
}
use local_agent_dispatch.Scheduler.Book.State.{Reservation, Book, active, cancelled, empty_book}
use local_agent_dispatch.Scheduler.Book.Usage.{usage_by_target}
use local_agent_dispatch.Scheduler.Evidence.{freshness, memory_available}
use local_agent_dispatch.Scheduler.Fit.{IsFit, assess_candidate-eligible}
use local_agent_dispatch.Scheduler.Model.{
  WorkloadRequirements, CandidateTarget, CandidateAssessment, no_usage, PlacementPlan, eligible,
}
use local_agent_dispatch.Prelude.Sort.{insert_sorted, stable_sort, first}
use local_agent_dispatch.Scheduler.Rank.{assess_all, key_less, plan_of, rank_candidates}
use local_agent_dispatch.Scheduler.Selection.{
  assessed, rank_candidates-selected, rank_candidates-blocked,
}
use local_agent_dispatch.Topology.Mounts.{
  normalized_mounts, exact_mount, deepest_mount, resolve_mount,
}
use local_agent_dispatch.Topology.Paths.{pure_absolute_path, covers}
use local_agent_dispatch.Topology.Placement.{
  Reason, safe, decided, PlacementDecision, test_inodes, decide_reserved, evaluate_placement,
}
use local_agent_dispatch.World.Fault.{ok}
use local_agent_dispatch.World.Observation.{is_stale, parse_iso, anchor}

abbrev pub job : WorkloadRequirements ℕ
job = record {
  job_id = "job";
  memory_bytes = 1000;
  disk_bytes = 1000;
  disk_inodes = none;
  cpu_threads = some 4;
  gpu_vram_mib = none;
  required_capabilities = "python" ∷ [];
  preferred_host_ids = [];
  server_preferred = true;
  headroom_ratio = 1;
}

abbrev local_target : CandidateTarget ℕ
local_target = record {
  target_id = "local";
  host = host;
  workspace_path = "/data/job";
  capabilities = "python" ∷ [];
  harness_id = "harness";
  provider_id = none;
  runtime_id = none;
  remote = false;
  route_verified = none;
  execution_ready = some true;
  max_lanes = 1;
  active_lanes = 0;
  reliability = none;
}

-- A target whose route was not verified.
abbrev far_target : CandidateTarget ℕ
far_target = record local_target { target_id = "far"; remote = true; route_verified = some false }

abbrev pub far_only : List (CandidateTarget ℕ)
far_only = far_target ∷ []

abbrev pub both : List (CandidateTarget ℕ)
both = far_target ∷ local_target ∷ []

-- What the placement gate says of the job's directory.
abbrev disk : PlacementDecision
disk =
    decided "/data/job" 1000 data_mount safe (some (pos 1500))
      (Reason.writable_on ∷ Reason.reserved_known ∷ Reason.headroom ∷ [])

abbrev local_assessment : CandidateAssessment ℕ
local_assessment = assessment floats calendar paths none local_target job no_usage disk

abbrev far_assessment : CandidateAssessment ℕ
far_assessment = assessment floats calendar paths none far_target job no_usage disk

disk_answers :
    evaluate_placement floats calendar paths host "/data/job"
      (record { required_bytes = 1000; required_inodes = none; p90_headroom_ratio = 1 })
      none
    ≡ ok disk
unfolding evaluate_placement test_inodes decide_reserved is_stale parse_iso anchor resolve_mount
    normalized_mounts exact_mount deepest_mount pure_absolute_path covers ◌-ℤ◌
disk_answers = refl

local_assessed :
    assess_candidate floats calendar paths none local_target job no_usage ≡ ok local_assessment
unfolding assess_candidate
local_assessed = rw disk_answers refl

far_assessed :
    assess_candidate floats calendar paths none far_target job no_usage ≡ ok far_assessment
unfolding assess_candidate
far_assessed = rw disk_answers refl

local_eligible : local_assessment.verdict ≡ eligible
unfolding assessment gate memory_available freshness is_stale parse_iso anchor ◌-ℤ◌
local_eligible = refl

assess_candidate-eligible_example :
    (answer : PlacementDecision) × (evaluate_placement floats calendar paths host "/data/job"
        (record { required_bytes = 1000; required_inodes = none; p90_headroom_ratio = 1 })
        none
      ≡ ok answer)
    × IsFit floats calendar none local_target job no_usage answer
assess_candidate-eligible_example =
    (assess_candidate-eligible floats calendar paths none local_target job no_usage local_assessment
        local_assessed).0
      local_eligible

abbrev pub both_plan : PlacementPlan ℕ
both_plan = plan_of floats calendar paths none "job" (local_assessment ∷ far_assessment ∷ [])

pub both_ranked : rank_candidates floats calendar paths none both job [] ≡ ok both_plan
unfolding rank_candidates assess_all insert_sorted stable_sort key_less Dict.get assess_candidate
    assessment gate score_components memory_available freshness evaluate_placement test_inodes
    decide_reserved is_stale parse_iso anchor resolve_mount normalized_mounts exact_mount
    deepest_mount pure_absolute_path covers ◌-ℤ◌
both_ranked = refl

pub both_selected : both_plan.selected_target_id ≡ some "local"
unfolding first assessment gate memory_available freshness is_stale parse_iso anchor ◌-ℤ◌
both_selected = refl

rank_candidates-selected_example :
    (c : CandidateTarget ℕ) × In c both
    × (c.target_id ≡ "local")
    × (a : CandidateAssessment ℕ) × (assessed floats calendar paths none job [] c ≡ ok a)
    × (a.verdict ≡ eligible)
rank_candidates-selected_example =
    rank_candidates-selected floats calendar paths none job [] both both_plan "local" both_ranked
      both_selected

abbrev far_plan : PlacementPlan ℕ
far_plan = plan_of floats calendar paths none "job" (far_assessment ∷ [])

far_ranked : rank_candidates floats calendar paths none far_only job [] ≡ ok far_plan
unfolding rank_candidates assess_all insert_sorted stable_sort key_less Dict.get assess_candidate
    assessment gate score_components memory_available freshness evaluate_placement test_inodes
    decide_reserved is_stale parse_iso anchor resolve_mount normalized_mounts exact_mount
    deepest_mount pure_absolute_path covers ◌-ℤ◌
far_ranked = refl

far_blocked : far_plan.selected_target_id ≡ none
unfolding first assessment gate memory_available freshness is_stale parse_iso anchor ◌-ℤ◌
far_blocked = refl

far_known : assessed floats calendar paths none job [] far_target ≡ ok far_assessment
unfolding Dict.get
far_known = far_assessed

rank_candidates-blocked_example : far_assessment.verdict ≢ eligible
rank_candidates-blocked_example =
    rank_candidates-blocked floats calendar paths none job [] far_only far_plan far_target
      far_assessment far_ranked far_blocked (inl refl) far_known

abbrev row : ℕ → String → Reservation
row fence target = record {
  reservation_id = "rsv";
  idempotency_key = "key";
  request_digest = "digest";
  job_id = "job";
  target_id = target;
  fence_token = fence;
  state = active;
  reserved = record no_usage { memory_bytes = 100; lanes = 1 };
  actual = record no_usage { memory_bytes = 300 };
  overage = true;
}

-- Two active reservations on "local", one of "far", and one that has ended.
abbrev busy_book : Book ℕ
busy_book = record empty_book {
  revision = 4;
  reservations =
      ("a", row 1 "local")
      ∷ ("b", row 2 "far")
      ∷ ("c", row 3 "local")
      ∷ ("d", record (row 4 "local") { state = cancelled })
      ∷ [];
}

busy_weight :
    weight_of "local" (values busy_book.reservations)
    ≡ record no_usage { memory_bytes = 600; lanes = 2 }
unfolding weight_of weight
busy_weight = refl

usage_by_target-weight_example :
    usage_at "local" (usage_by_target busy_book) ≡ weight_of "local" (values busy_book.reservations)
usage_by_target-weight_example = usage_by_target-weight busy_book "local"
