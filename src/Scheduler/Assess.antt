-- ===== src/Scheduler/Assess.antt =====
-- `assess_candidate` of src/local_agent_dispatch/scheduler/core.py. The variables `verdict` and
-- `reasons` are a `Gate`, and each test of the body is a function on it, in the order of the body.
use local_agent_dispatch.Scheduler.Gate.{
  Gate, disk_after, known_amount, known_gpu, lane_slots, open_gate, test_amount, test_capabilities,
  test_disk, test_disk_after, test_disk_inodes, test_gpu, test_lanes, test_ready, test_route,
  test_threads, threads_of,
}
use local_agent_dispatch.Scheduler.Score.{score_components, total}
use local_agent_dispatch.Prelude.Int.{ℤ, pos, max_ℤ}
use local_agent_dispatch.Prelude.Keys.{string_eq}
use local_agent_dispatch.Prelude.{String, Option, none, some, [], ◌∷◌, if◌then◌else◌}
use local_agent_dispatch.Scheduler.Evidence.{memory_available, gpu_available}
use local_agent_dispatch.Scheduler.Model.{
  WorkloadRequirements, memory_with_headroom, gpu_with_headroom_mib, CandidateTarget, ResourceUsage,
  eligible, is_eligible, ram_short, all_passed, CandidateAssessment,
}
use local_agent_dispatch.Topology.Paths.{Pathlib}
use local_agent_dispatch.Topology.Placement.{PlacementDecision, evaluate_placement}
use local_agent_dispatch.World.Fault.{Result, ok, ◌>>=◌}
use local_agent_dispatch.World.Floats.{Floats}
use local_agent_dispatch.World.Observation.{Calendar}

module _ (floats : Floats) (calendar : Calendar) (paths : Pathlib) (now : Option String) where
  open floats use {Float, whole, round6}

  -- The tests of the body, after the disk gate has answered.
  unfoldable pub gate :
      CandidateTarget Float → WorkloadRequirements Float → ResourceUsage → PlacementDecision → Gate
  gate c r usage disk =
      let slots = lane_slots c.max_lanes c.active_lanes usage.lanes in
      let memory = memory_available calendar now c.host usage in
      let gpu = gpu_available calendar now c.host usage in
      test_gpu (gpu_with_headroom_mib floats r) gpu (
        test_disk_inodes r.disk_inodes disk.free_inodes usage.disk_inodes (
          test_disk_after (disk_after disk.safe_to_place_bytes usage.disk_bytes) (
            test_disk disk.verdict (
              test_amount memory (memory_with_headroom floats r) ram_short (
                test_threads r.cpu_threads (threads_of c.host.cpu) usage.cpu_threads (
                  test_lanes slots (
                    test_capabilities r.required_capabilities c.capabilities (
                      test_route c.remote c.route_verified
                        (test_ready c.execution_ready open_gate)))))))))

  abbrev eligible_assessment :
      CandidateTarget Float
      → WorkloadRequirements Float
      → Option ℤ
      → Option ℤ
      → Option ℤ
      → ℤ
      → CandidateAssessment Float
  eligible_assessment c r memory disk gpu slots =
      let components = score_components floats c r memory disk slots in
      record {
        target_id = c.target_id;
        host_id = c.host.host_id;
        verdict = eligible;
        score = some (round6 (total floats (whole 0) components));
        reasons = all_passed ∷ [];
        available_memory_bytes = memory;
        safe_disk_bytes_after_request = disk;
        available_gpu_vram_mib = gpu;
        lane_slots_after_request = slots;
        score_components = components;
      }

  abbrev refused_assessment :
      CandidateTarget Float → Gate → Option ℤ → Option ℤ → Option ℤ → ℤ → CandidateAssessment Float
  refused_assessment c g memory disk gpu slots = record {
    target_id = c.target_id;
    host_id = c.host.host_id;
    verdict = g.verdict;
    score = none;
    reasons = g.reasons;
    available_memory_bytes = memory;
    safe_disk_bytes_after_request = disk;
    available_gpu_vram_mib = gpu;
    lane_slots_after_request = max_ℤ slots (pos 0);
    score_components = [];
  }

  unfoldable pub assessment :
      CandidateTarget Float
      → WorkloadRequirements Float
      → ResourceUsage
      → PlacementDecision
      → CandidateAssessment Float
  assessment c r usage disk =
      let slots = lane_slots c.max_lanes c.active_lanes usage.lanes in
      let memory = known_amount (memory_available calendar now c.host usage) in
      let spare = disk_after disk.safe_to_place_bytes usage.disk_bytes in
      let gpu =
        known_gpu (gpu_with_headroom_mib floats r) (gpu_available calendar now c.host usage) in
      let g = gate c r usage disk in
      if is_eligible g.verdict
      then eligible_assessment c r memory spare gpu slots
      else refused_assessment c g memory spare gpu slots

  -- A ValueError of the placement gate, from a timestamp that cannot be read, passes through.
  unfoldable pub assess_candidate :
      CandidateTarget Float
      → WorkloadRequirements Float
      → ResourceUsage
      → Result (CandidateAssessment Float)
  assess_candidate c r usage = do
    disk ←
        evaluate_placement floats calendar paths c.host c.workspace_path
          (record {
            required_bytes = r.disk_bytes;
            required_inodes = r.disk_inodes;
            p90_headroom_ratio = r.headroom_ratio;
          })
          now
    ok (assessment c r usage disk)
