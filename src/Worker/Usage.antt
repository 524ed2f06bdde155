-- ===== src/Worker/Usage.antt =====
-- `UsageReconciliation` and `reconcile_usage` of src/local_agent_dispatch/worker/state.py.
use local_agent_dispatch.Api.Contracts.{ResourceUsage}
use local_agent_dispatch.Prelude.{
  ℕ, ◌-◌, String, ◌||◌, Option, none, some, List, [], ◌∷◌, ltb, not, null, if◌then◌else◌,
}

pub data UsageStatus : Type 0 where
  within exceeded unknown : UsageStatus

pub record UsageReconciliation : Type 0 where
  pub status : UsageStatus
  pub compared_dimensions : List String
  pub unknown_dimensions : List String
  pub overages : List (String × ℕ)

-- The variables of the loop.
pub record Tally : Type 0 where
  pub compared : List String
  pub unknown : List String
  pub overages : List (String × ℕ)

-- ResourceUsage.DIMENSIONS, each with its value on both sides.
abbrev pub dimensions : ResourceUsage → ResourceUsage → List (String × Option ℕ × Option ℕ)
dimensions r a =
    ("cpu_cores", r.cpu_cores, a.cpu_cores)
    ∷ ("ram_bytes", r.ram_bytes, a.ram_bytes)
    ∷ ("swap_bytes", r.swap_bytes, a.swap_bytes)
    ∷ ("gpu_memory_bytes", r.gpu_memory_bytes, a.gpu_memory_bytes)
    ∷ ("disk_bytes", r.disk_bytes, a.disk_bytes)
    ∷ ("inodes", r.inodes, a.inodes)
    ∷ ("owned_process_rss_bytes", r.owned_process_rss_bytes, a.owned_process_rss_bytes)
    ∷ []

-- One round, put before what the later rounds append.
abbrev pub tally_one : String → Option ℕ → Option ℕ → Tally → Tally
tally_one d none none t = t
tally_one d (some expected) none t = record t { unknown = d ∷ t.unknown }
tally_one d none (some observed) t = record t { unknown = d ∷ t.unknown }
tally_one d (some expected) (some observed) t = record t {
  compared = d ∷ t.compared;
  overages = if ltb expected observed then (d, observed - expected) ∷ t.overages else t.overages;
}

unfoldable pub tally : List (String × Option ℕ × Option ℕ) → Tally
tally [] = record { compared = []; unknown = []; overages = [] }
tally ((d, expected, observed) ∷ rest) = tally_one d expected observed (tally rest)

abbrev pub status_of : Tally → UsageStatus
status_of t =
    if not (null t.overages)
    then UsageStatus.exceeded
    else if not (null t.unknown) || null t.compared
    then UsageStatus.unknown
    else UsageStatus.within

unfoldable pub reconcile_usage : ResourceUsage → ResourceUsage → UsageReconciliation
reconcile_usage reserved actual =
    let t = tally (dimensions reserved actual) in
    record {
      status = status_of t;
      compared_dimensions = t.compared;
      unknown_dimensions = t.unknown;
      overages = t.overages;
    }
