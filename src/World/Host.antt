-- ===== src/World/Host.antt =====
-- The records of src/local_agent_dispatch/domain/world_state.py that placement reads. Sizes are
-- whole numbers, which may be negative since the snapshot does not check them; the model keeps no
-- fraction of a byte, so that `int` leaves them as they are. The parts of a host that no placement
-- test reads (runtimes, caches, data sets, NUMA tables) are left out.
use local_agent_dispatch.Prelude.Int.{ℤ}
use local_agent_dispatch.Prelude.{ℕ, ◌+◌, String, Bool, Option, none, some, List, [], ◌∷◌, is_some}
use local_agent_dispatch.World.Observation.{Observation}

pub record ResourceValues : Type 0 where
  pub units : String
  pub capacity : Option ℤ
  pub allocatable : Option ℤ
  pub available_now : Option ℤ
  pub reserved : Option ℤ
  pub used : Option ℤ

pub record CpuTopology : Type 0 where
  pub sockets : Option ℤ
  pub cores : Option ℤ
  pub threads : Option ℤ
  pub model : Option String
  pub observation : Option Observation

pub record RamState : Type 0 where
  pub values : ResourceValues
  pub cgroup_limit_bytes : Option ℤ
  pub cgroup_current_bytes : Option ℤ
  pub observation : Option Observation

pub record GpuProcess : Type 0 where
  pub pid : ℕ
  pub name : String
  pub vram_mib : Option ℕ

pub record GpuState : Type 0 where
  pub index : String
  pub model : Option String
  pub vram : Option ResourceValues
  pub processes : List GpuProcess
  pub cuda_compatible : Option Bool
  pub observation : Option Observation

pub record QuotaState : Type 0 where
  pub kind : String
  pub unit : String
  pub limit : Option ℤ
  pub used : Option ℤ
  pub free : Option ℤ
  pub source : Option String

pub record MountState : Type 0 where
  pub path : String
  pub device : Option String
  pub fs_type : Option String
  pub options : List String
  pub writable : Option Bool
  pub probed_path : Option String
  pub values : ResourceValues
  pub free_bytes : Option ℤ
  pub free_inodes : Option ℤ
  pub quota : Option QuotaState
  pub observation : Option Observation

abbrev pub is_probed : MountState → Bool
is_probed mount = is_some mount.probed_path

pub record Host : Type 0 where
  pub host_id : String
  pub name : String
  pub os : Option String
  pub arch : Option String
  pub execution_host : Bool
  pub workload_host : Bool
  pub cpu : Option CpuTopology
  pub ram : Option RamState
  pub gpus : List GpuState
  pub mounts : List MountState
  pub labels : List String

abbrev pub add_known : Option ℕ → Option ℕ → Option ℕ
add_known (some a) (some b) = some (a + b)
add_known _ _ = none

-- `in_use_vram_mib`: the sum, unless the use of some process is unknown.
unfoldable pub in_use_vram_mib : List GpuProcess → Option ℕ
in_use_vram_mib [] = some 0
in_use_vram_mib (p ∷ ps) = add_known p.vram_mib (in_use_vram_mib ps)
