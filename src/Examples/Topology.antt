-- ===== src/Examples/Topology.antt =====
-- A job's directory on a probed mount (src/local_agent_dispatch/resources/topology.py).
use local_agent_dispatch.Prelude.Int.{pos, ◌-ℤ◌}
use local_agent_dispatch.Prelude.Keys.{◌=?◌, string_eq}
use local_agent_dispatch.Prelude.{
  ℕ, ◌+◌, ◌*◌, ◌-◌, ◌≡◌, refl, true, false, none, some, [], ◌∷◌, ltb, if◌then◌else◌,
}
use local_agent_dispatch.Topology.Mounts.{
  normalized_mounts, exact_mount, deepest_mount, resolve_mount,
}
use local_agent_dispatch.Topology.Paths.{Pathlib, pure_absolute_path, covers}
use local_agent_dispatch.Topology.Placement.{
  PathRequirements, PlacementDecision, Reason, decided, safe, test_inodes, decide_reserved,
  evaluate_placement,
}
use local_agent_dispatch.Prelude.Sort.{insert_sorted, stable_sort}
use local_agent_dispatch.Topology.Ranking.{
  evaluate_all, rank_paths, IsRanking, rank_paths-IsRanking,
}
use local_agent_dispatch.Topology.Gpus.{
  gpu_available_now_mib, evaluate_vram, IsFree, evaluate_vram-IsFree,
}
use local_agent_dispatch.Topology.Resolve.{IsDeepest, resolve_mount-IsDeepest}
use local_agent_dispatch.Topology.Safe.{IsSafe, evaluate_placement-IsSafe}
use local_agent_dispatch.World.Fault.{ok}
use local_agent_dispatch.World.Floats.{Floats}
use local_agent_dispatch.World.Host.{Host, MountState, ResourceValues, GpuState, in_use_vram_mib}
use local_agent_dispatch.World.Observation.{Calendar, Observation, is_stale, parse_iso, anchor}

-- Whole numbers in the place of floats; a ratio is a factor.
abbrev pub floats : Floats
floats = record {
  Float = ℕ;
  whole = λ n. n;
  add = λ a b. a + b;
  mul = λ a b. a * b;
  div = λ a b. a;
  neg = λ a. 1000 - a;
  least = λ a b. if ltb b a then b else a;
  round6 = λ a. a;
  lt = ltb;
  scaled = λ a r. a * r;
}

-- Every timestamp reads as the start of the epoch, and it is one second later.
abbrev pub calendar : Calendar
calendar = record { strip = λ s. s; from_iso_format = λ t. some (pos 0); utc_now = pos 1_000_000 }

-- POSIX paths only, of which two are known.
abbrev pub paths : Pathlib
paths = record {
  strip = λ s. s;
  windows_drive = λ s. "";
  windows_is_absolute = λ s. false;
  windows_parts = λ s. [];
  posix_is_absolute = λ s. true;
  posix_parts = λ s. if s =? "/data" then "/" ∷ "data" ∷ [] else "/" ∷ "data" ∷ "job" ∷ [];
}

abbrev pub observation : Observation
observation = record {
  kind = "observed";
  source = "probe";
  observed_at = "t";
  evidence = [];
  ttl_seconds = some (pos 60_000_000);
  confidence = none;
}

abbrev bytes : ResourceValues
bytes = record {
  units = "bytes";
  capacity = some (pos 5000);
  allocatable = none;
  available_now = some (pos 4000);
  reserved = some (pos 500);
  used = none;
}

abbrev pub data_mount : MountState
data_mount = record {
  path = "/data";
  device = none;
  fs_type = none;
  options = [];
  writable = some true;
  probed_path = some "/data";
  values = bytes;
  free_bytes = some (pos 4000);
  free_inodes = some (pos 100);
  quota = none;
  observation = some observation;
}

abbrev pub host : Host
host = record {
  host_id = "host";
  name = "host";
  os = none;
  arch = none;
  execution_host = true;
  workload_host = true;
  cpu = some (record {
    sockets = none;
    cores = none;
    threads = some (pos 16);
    model = none;
    observation = some observation;
  });
  ram = some (record {
    values = bytes;
    cgroup_limit_bytes = none;
    cgroup_current_bytes = none;
    observation = some observation;
  });
  gpus = [];
  mounts = data_mount ∷ [];
  labels = [];
}

job_mount : (resolve_mount paths "/data/job" host.mounts).mount ≡ some data_mount
unfolding resolve_mount normalized_mounts exact_mount deepest_mount pure_absolute_path covers
job_mount = refl

job_covered : (resolve_mount paths "/data/job" host.mounts).covering_prefix ≡ true
unfolding resolve_mount normalized_mounts exact_mount deepest_mount pure_absolute_path covers
job_covered = refl

resolve_mount-IsDeepest_example : IsDeepest paths "/data/job" host.mounts data_mount
resolve_mount-IsDeepest_example =
    resolve_mount-IsDeepest paths "/data/job" host.mounts data_mount job_mount job_covered

-- A thousand bytes with as much headroom.
abbrev request : PathRequirements ℕ
request = record { required_bytes = 1000; required_inodes = some 10; p90_headroom_ratio = 1 }

abbrev job_decision : PlacementDecision
job_decision =
    decided "/data/job" 1000 data_mount safe (some (pos 1500))
      (Reason.writable_on ∷ Reason.inodes_free ∷ Reason.reserved_known ∷ Reason.headroom ∷ [])

job_placed :
    evaluate_placement floats calendar paths host "/data/job" request none ≡ ok job_decision
unfolding evaluate_placement test_inodes decide_reserved is_stale parse_iso anchor resolve_mount
    normalized_mounts exact_mount deepest_mount pure_absolute_path covers ◌-ℤ◌
job_placed = refl

evaluate_placement-IsSafe_example :
    IsSafe floats calendar paths host "/data/job" request none (some (pos 1500))
evaluate_placement-IsSafe_example =
    evaluate_placement-IsSafe floats calendar paths host "/data/job" request none job_decision
      job_placed refl

job_ranked :
    rank_paths floats calendar paths host request none ("/data/job" ∷ []) ≡ ok (job_decision ∷ [])
unfolding rank_paths evaluate_all evaluate_placement test_inodes decide_reserved is_stale parse_iso
    anchor resolve_mount normalized_mounts exact_mount deepest_mount pure_absolute_path covers ◌-ℤ◌
    stable_sort insert_sorted
job_ranked = refl

rank_paths-IsRanking_example :
    IsRanking floats calendar paths host request none ("/data/job" ∷ []) (job_decision ∷ [])
rank_paths-IsRanking_example =
    rank_paths-IsRanking floats calendar paths host request none ("/data/job" ∷ [])
      (job_decision ∷ []) job_ranked

abbrev device : GpuState
device = record {
  index = "0";
  model = none;
  vram = some (record {
    units = "MiB";
    capacity = some (pos 24_000);
    allocatable = none;
    available_now = some (pos 20_000);
    reserved = none;
    used = none;
  });
  processes = record { pid = 7; name = "train"; vram_mib = some 2000 } ∷ [];
  cuda_compatible = some true;
  observation = some observation;
}

device_safe : (evaluate_vram floats device 8000 1).verdict ≡ safe
unfolding evaluate_vram gpu_available_now_mib in_use_vram_mib ◌-ℤ◌
device_safe = refl

evaluate_vram-IsFree_example : IsFree floats device 16_000
evaluate_vram-IsFree_example = evaluate_vram-IsFree floats device 8000 1 device_safe
