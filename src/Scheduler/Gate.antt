-- ===== src/Scheduler/Gate.antt =====
-- The tests of `assess_candidate` of src/local_agent_dispatch/scheduler/core.py, each of which may
-- lower the verdict and add its reason.
use local_agent_dispatch.Prelude.Int.{ℤ, pos, ltb_ℤ, ◌-ℤ◌}
use local_agent_dispatch.Prelude.Keys.{◌=?◌, string_eq}
use local_agent_dispatch.Prelude.{
  ℕ, String, Bool, true, false, Option, none, some, List, [], ◌∷◌, ◌++◌, any, all, ◌==◌,
  if◌then◌else◌,
}
use local_agent_dispatch.Scheduler.Evidence.{
  merge_verdict, Available, unverified, ruled_out, amount,
}
use local_agent_dispatch.Scheduler.Model.{
  AssessmentVerdict, eligible, unknown, reject, AssessmentReason, target_not_ready,
  readiness_unknown, route_unverified, route_unknown, capabilities_missing, no_lane,
  threads_unknown, threads_short, disk_gate, disk_exhausted, inodes_unknown, inodes_exhausted,
  gpu_short,
}
use local_agent_dispatch.Topology.Placement
use local_agent_dispatch.Topology.Placement.{Verdict, PlacementDecision, evaluate_placement}
use local_agent_dispatch.World.Host.{CpuTopology}

pub record Gate : Type 0 where
  pub verdict : AssessmentVerdict
  pub reasons : List AssessmentReason

abbrev pub open_gate : Gate
open_gate = record { verdict = eligible; reasons = [] }

-- `verdict = _merge_verdict(verdict, v)` and `reasons.append(r)`; at `reject` the merge is the
-- assignment `verdict = "reject"`.
abbrev pub against : AssessmentVerdict → AssessmentReason → Gate → Gate
against v r g = record { verdict = merge_verdict g.verdict v; reasons = g.reasons ++ r ∷ [] }

abbrev pub test_ready : Option Bool → Gate → Gate
test_ready (some true) g = g
test_ready (some false) g = against reject target_not_ready g
test_ready none g = against unknown readiness_unknown g

abbrev pub test_route : Bool → Option Bool → Gate → Gate
test_route false route g = g
test_route true (some true) g = g
test_route true (some false) g = against reject route_unverified g
test_route true none g = against unknown route_unknown g

-- `set(required) - set(capabilities)` is empty.
abbrev pub has_all : List String → List String → Bool
has_all required capabilities = all (λ c. any (λ d. c =? d) capabilities) required

abbrev pub test_capabilities : List String → List String → Gate → Gate
test_capabilities required capabilities g =
    if has_all required capabilities then g else against reject capabilities_missing g

-- `max_lanes - active_lanes - usage.lanes - 1`
abbrev pub lane_slots : ℕ → ℕ → ℕ → ℤ
lane_slots max_lanes active_lanes lanes = pos max_lanes -ℤ pos active_lanes -ℤ pos lanes -ℤ pos 1

abbrev pub test_lanes : ℤ → Gate → Gate
test_lanes slots g = if ltb_ℤ slots (pos 0) then against reject no_lane g else g

abbrev pub threads_of : Option CpuTopology → Option ℤ
threads_of none = none
threads_of (some cpu) = cpu.threads

abbrev pub test_threads : Option ℕ → Option ℤ → ℕ → Gate → Gate
test_threads none threads used g = g
test_threads (some required) none used g = against unknown threads_unknown g
test_threads (some required) (some threads) used g =
    if ltb_ℤ (threads -ℤ pos used) (pos required) then against reject threads_short g else g

abbrev pub test_amount : Available → ℕ → AssessmentReason → Gate → Gate
test_amount (unverified r) needed short g = against unknown r g
test_amount (ruled_out r) needed short g = against reject r g
test_amount (amount a) needed short g = if ltb_ℤ a (pos needed) then against reject short g else g

abbrev pub known_amount : Available → Option ℤ
known_amount (unverified r) = none
known_amount (ruled_out r) = none
known_amount (amount a) = some a

abbrev pub test_disk : Verdict → Gate → Gate
test_disk Placement.safe g = g
test_disk Placement.unknown g = against unknown disk_gate g
test_disk Placement.reject g = against reject disk_gate g

-- `disk_after`
abbrev pub disk_after : Option ℤ → ℕ → Option ℤ
disk_after none used = none
disk_after (some spare) used = some (spare -ℤ pos used)

abbrev pub test_disk_after : Option ℤ → Gate → Gate
test_disk_after none g = g
test_disk_after (some after) g = if ltb_ℤ after (pos 0) then against reject disk_exhausted g else g

abbrev pub test_disk_inodes : Option ℕ → Option ℤ → ℕ → Gate → Gate
test_disk_inodes none free used g = g
test_disk_inodes (some required) none used g =
    if used == 0 then g else against unknown inodes_unknown g
test_disk_inodes (some required) (some free) used g =
    if used == 0
    then g
    else if ltb_ℤ (free -ℤ pos used) (pos required)
    then against reject inodes_exhausted g
    else g

abbrev pub test_gpu : Option ℕ → Available → Gate → Gate
test_gpu none available g = g
test_gpu (some needed) available g = test_amount available needed gpu_short g

abbrev pub known_gpu : Option ℕ → Available → Option ℤ
known_gpu none available = none
known_gpu (some needed) available = known_amount available
