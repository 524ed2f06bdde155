-- ===== src/Scheduler/Evidence.antt =====
-- `_freshness`, `_merge_verdict`, `_memory_available` and `_gpu_available` of
-- src/local_agent_dispatch/scheduler/core.py.
use local_agent_dispatch.Prelude.Int.{ℤ, pos, min_ℤ, max_ℤ, ◌-ℤ◌}
use local_agent_dispatch.Prelude.{
  String, Bool, true, false, Option, none, some, List, [], ◌∷◌, null, get_or, if◌then◌else◌,
}
use local_agent_dispatch.Scheduler.Model.{
  AssessmentVerdict, eligible, unknown, reject, AssessmentReason, ram_missing, ram_stale,
  ram_freshness, ram_unknown, cgroup_incomplete, no_gpu, gpu_unknown, gpu_stale, ResourceUsage,
}
use local_agent_dispatch.World.Fault.{Result, ok, err}
use local_agent_dispatch.World.Host.{ResourceValues, RamState, GpuState, Host}
use local_agent_dispatch.World.Observation.{Calendar, Observation, is_stale}

-- `incoming if order[incoming] > order[current] else current`
abbrev pub merge_verdict : AssessmentVerdict → AssessmentVerdict → AssessmentVerdict
merge_verdict eligible incoming = incoming
merge_verdict unknown reject = reject
merge_verdict unknown _ = unknown
merge_verdict reject _ = reject

-- A stale timestamp that cannot be read is unknown: the ValueError is caught.
abbrev pub verdict_of_staleness : Result (Option Bool) → AssessmentVerdict
verdict_of_staleness (ok (some true)) = reject
verdict_of_staleness (ok (some false)) = eligible
verdict_of_staleness (ok none) = unknown
verdict_of_staleness (err e) = unknown

-- The cgroup limit, where one is observed: its free part, or that it is incomplete.
abbrev pub cgroup_bound : Option ℤ → Option ℤ → ℤ → Option ℤ
cgroup_bound none none available = some available
cgroup_bound (some limit) (some current) available =
    some (min_ℤ available (max_ℤ (pos 0) (limit -ℤ current)))
cgroup_bound _ _ available = none

-- `int(values.reserved or 0)`
abbrev pub reserved_or_zero : Option ℤ → ℤ
reserved_or_zero reserved = get_or reserved (pos 0)

-- The available amount, or the reason of the verdict against it, "unknown" or "reject".
pub data Available : Type 0 where
  unverified ruled_out : AssessmentReason → Available
  amount : ℤ → Available

abbrev pub bounded_memory : RamState → ResourceUsage → Option ℤ → Available
bounded_memory ram usage none = unverified cgroup_incomplete
bounded_memory ram usage (some bound) =
    amount (max_ℤ (pos 0) (bound -ℤ reserved_or_zero ram.values.reserved -ℤ pos usage.memory_bytes))

abbrev pub observed_memory : RamState → ResourceUsage → Option ℤ → Available
observed_memory ram usage none = unverified ram_unknown
observed_memory ram usage (some available) =
    bounded_memory ram usage
      (cgroup_bound ram.cgroup_limit_bytes ram.cgroup_current_bytes available)

abbrev pub fresh_memory : AssessmentVerdict → RamState → ResourceUsage → Available
fresh_memory eligible ram usage = observed_memory ram usage ram.values.available_now
fresh_memory unknown ram usage = unverified ram_freshness
fresh_memory reject ram usage = ruled_out ram_stale

module _ (calendar : Calendar) (now : Option String) where
  -- `_freshness`, of which the verdict is kept.
  unfoldable pub freshness : Option Observation → AssessmentVerdict
  freshness none = unknown
  freshness (some o) = verdict_of_staleness (is_stale calendar o now)

  abbrev pub ram_available : Option RamState → ResourceUsage → Available
  ram_available none usage = unverified ram_missing
  ram_available (some ram) usage = fresh_memory (freshness ram.observation) ram usage

  unfoldable pub memory_available : Host → ResourceUsage → Available
  memory_available host usage = ram_available host.ram usage

  -- The variables of the loop over the devices.
  abbrev pub GpuScan : Type 0
  GpuScan = Bool × Option ℤ

  abbrev pub take_best : Option ℤ → ℤ → Option ℤ
  take_best none available = some available
  take_best (some best) available = some (max_ℤ best available)

  abbrev pub vram_available : Option ResourceValues → Option ℤ
  vram_available none = none
  vram_available (some vram) = elim vram.available_now [
    | none ↦ none
    | some available ↦ some (available -ℤ reserved_or_zero vram.reserved)
  ]

  abbrev pub scan_device : AssessmentVerdict → Option ℤ → GpuScan → GpuScan
  scan_device unknown available (saw_unknown, best) = (true, best)
  scan_device reject none (saw_unknown, best) = (true, best)
  scan_device reject (some available) (saw_unknown, best) = (saw_unknown, best)
  scan_device eligible none (saw_unknown, best) = (true, best)
  scan_device eligible (some available) (saw_unknown, best) =
      (saw_unknown, take_best best available)

  unfoldable pub scan_gpus : List GpuState → GpuScan → GpuScan
  scan_gpus [] scan = scan
  scan_gpus (g ∷ gs) scan =
      scan_gpus gs (scan_device (freshness g.observation) (vram_available g.vram) scan)

  abbrev pub scan_result : GpuScan → ResourceUsage → Available
  scan_result (saw_unknown, none) usage =
      if saw_unknown then unverified gpu_unknown else ruled_out gpu_stale
  scan_result (saw_unknown, some best) usage =
      amount (max_ℤ (pos 0) (best -ℤ pos usage.gpu_vram_mib))

  unfoldable pub gpu_available : Host → ResourceUsage → Available
  gpu_available host usage =
      if null host.gpus
      then ruled_out no_gpu
      else scan_result (scan_gpus host.gpus (false, none)) usage
