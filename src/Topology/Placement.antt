-- ===== src/Topology/Placement.antt =====
-- `PathRequirements`, `PlacementDecision` and `evaluate_placement` of
-- src/local_agent_dispatch/resources/topology.py. A ratio is not negative here, as it is wherever
-- the scheduler calls the gate.
use local_agent_dispatch.Prelude.Int.{ℤ, pos, ltb_ℤ, min_ℤ, ◌-ℤ◌}
use local_agent_dispatch.Prelude.{
  ℕ, ◌+◌, max, String, Bool, true, false, not, Option, none, some, List, [], ◌∷◌, ◌++◌,
  if◌then◌else◌, get_or,
}
use local_agent_dispatch.Topology.Mounts.{MountResolution, resolve_mount}
use local_agent_dispatch.Topology.Paths.{Pathlib}
use local_agent_dispatch.World.Fault.{Result, ok, ◌>>=◌}
use local_agent_dispatch.World.Floats.{Floats}
use local_agent_dispatch.World.Host.{MountState, QuotaState, Host}
use local_agent_dispatch.World.Observation.{Calendar, Observation, is_stale}

pub record PathRequirements (Float : Type 0) : Type 0 where
  pub required_bytes : ℕ
  pub required_inodes : Option ℕ
  pub p90_headroom_ratio : Float

pub data Verdict : Type 0 where
  safe unknown reject : Verdict

-- What each text of `reasons` says.
pub data Reason : Type 0 where
  no_probe_evidence no_observation mount_stale mount_unverifiable writability_unverified : Reason
  not_writable writable_on free_bytes_unknown quota_unknown quota_free inodes_unknown : Reason
  inodes_exhausted inodes_free not_enough_bytes reserved_treated_as_zero reserved_known : Reason
  not_enough_unreserved headroom : Reason

pub record PlacementDecision : Type 0 where
  pub path : String
  pub verdict : Verdict
  pub mount : Option MountState
  pub writable : Option Bool
  pub free_bytes : Option ℤ
  pub free_inodes : Option ℤ
  pub fs_type : Option String
  pub p90_headroom_bytes : Option ℕ
  pub safe_to_place_bytes : Option ℤ
  pub stale : Option Bool
  pub reasons : List Reason

-- `_decide` before the evidence of a mount is read.
abbrev pub undecided : String → ℕ → Verdict → Reason → PlacementDecision
undecided path headroom_bytes verdict reason = record {
  path = path;
  verdict = verdict;
  mount = none;
  writable = none;
  free_bytes = none;
  free_inodes = none;
  fs_type = none;
  p90_headroom_bytes = some headroom_bytes;
  safe_to_place_bytes = none;
  stale = none;
  reasons = reason ∷ [];
}

-- `_decide` with the evidence of a fresh mount.
abbrev pub decided : String → ℕ → MountState → Verdict → Option ℤ → List Reason → PlacementDecision
decided path headroom_bytes mount verdict safe_to_place reasons = record {
  path = path;
  verdict = verdict;
  mount = some mount;
  writable = mount.writable;
  free_bytes = mount.free_bytes;
  free_inodes = mount.free_inodes;
  fs_type = mount.fs_type;
  p90_headroom_bytes = some headroom_bytes;
  safe_to_place_bytes = safe_to_place;
  stale = some false;
  reasons = reasons;
}

-- The free bytes after the quota, or that the quota is there and its free part is not known.
abbrev pub effective_free : ℤ → Option QuotaState → Option ℤ
effective_free free_bytes none = some free_bytes
effective_free free_bytes (some q) = elim q.free [
  | none ↦ none
  | some free ↦ some (min_ℤ free_bytes free)
]

abbrev pub quota_reasons : Option QuotaState → List Reason
quota_reasons none = []
quota_reasons (some q) = quota_free ∷ []

-- `mount.values.reserved if mount.values.reserved is not None else 0`
abbrev pub reserved_or_zero : Option ℤ → ℤ
reserved_or_zero reserved = get_or reserved (pos 0)

-- The test of the inodes: the verdict against, or the reasons to go on with.
pub data InodeTest : Type 0 where
  refused : Verdict → Reason → InodeTest
  passed : List Reason → InodeTest

unfoldable pub test_inodes : Option ℕ → Option ℤ → InodeTest
test_inodes none free_inodes = passed []
test_inodes (some required) none = refused unknown inodes_unknown
test_inodes (some required) (some free) =
    if ltb_ℤ free (pos required) then refused reject inodes_exhausted else passed (inodes_free ∷ [])

module _ (path : String) (headroom_bytes needed : ℕ) (mount : MountState) where
  abbrev pub refuse : Verdict → Reason → PlacementDecision
  refuse verdict reason = decided path headroom_bytes mount verdict none (reason ∷ [])

  -- The tests of the free bytes against the reservations, and the safe end.
  unfoldable pub decide_reserved : ℤ → Option ℤ → List Reason → PlacementDecision
  decide_reserved free none reasons =
      decided path headroom_bytes mount safe (some (free -ℤ pos 0 -ℤ pos needed))
        (reasons ++ reserved_treated_as_zero ∷ headroom ∷ [])
  decide_reserved free (some reserved) reasons =
      if ltb_ℤ (free -ℤ reserved) (pos needed)
      then refuse reject not_enough_unreserved
      else decided path headroom_bytes mount safe (some (free -ℤ reserved -ℤ pos needed))
          (reasons ++ reserved_known ∷ headroom ∷ [])

  abbrev pub decide_inodes : InodeTest → ℤ → List Reason → PlacementDecision
  decide_inodes (refused verdict reason) free reasons = refuse verdict reason
  decide_inodes (passed more) free reasons =
      if ltb_ℤ free (pos needed)
      then refuse reject not_enough_bytes
      else decide_reserved free mount.values.reserved (reasons ++ more)

  abbrev pub decide_quota : Option ℕ → Option ℤ → List Reason → PlacementDecision
  decide_quota required_inodes none reasons = refuse unknown quota_unknown
  decide_quota required_inodes (some free) reasons =
      decide_inodes (test_inodes required_inodes mount.free_inodes) free reasons

  abbrev pub decide_free : Option ℕ → Option ℤ → PlacementDecision
  decide_free required_inodes none = refuse unknown free_bytes_unknown
  decide_free required_inodes (some free_bytes) =
      decide_quota required_inodes (effective_free free_bytes mount.quota)
        (writable_on ∷ quota_reasons mount.quota)

  abbrev pub decide_writable : Option ℕ → Option Bool → PlacementDecision
  decide_writable required_inodes none = refuse unknown writability_unverified
  decide_writable required_inodes (some false) = refuse reject not_writable
  decide_writable required_inodes (some true) = decide_free required_inodes mount.free_bytes

  abbrev pub decide_stale : Option ℕ → Option Bool → PlacementDecision
  decide_stale required_inodes (some true) = undecided path headroom_bytes reject mount_stale
  decide_stale required_inodes none = undecided path headroom_bytes unknown mount_unverifiable
  decide_stale required_inodes (some false) = decide_writable required_inodes mount.writable

module _ (floats : Floats) (calendar : Calendar) (paths : Pathlib) where
  open floats use {Float, scaled}

  abbrev pub headroom_of : PathRequirements Float → ℕ
  headroom_of requirements =
      max (scaled requirements.required_bytes requirements.p90_headroom_ratio) 0

  abbrev decide_observed :
      String
      → PathRequirements Float
      → Option String
      → MountState
      → Option Observation
      → Result PlacementDecision
  decide_observed path requirements now mount none =
      ok (undecided path (headroom_of requirements) reject no_observation)
  decide_observed path requirements now mount (some o) = do
    stale ← is_stale calendar o now
    let headroom_bytes = headroom_of requirements
    ok (
        decide_stale path headroom_bytes (requirements.required_bytes + headroom_bytes) mount
          requirements.required_inodes stale)

  abbrev decide_mount :
      String
      → PathRequirements Float
      → Option String
      → MountResolution
      → Option MountState
      → Result PlacementDecision
  decide_mount path requirements now resolution none = ok (
      undecided path (headroom_of requirements)
        (if resolution.evidence_unknown then unknown else reject) no_probe_evidence)
  decide_mount path requirements now resolution (some mount) =
      if not resolution.probed
      then ok (
          undecided path (headroom_of requirements)
            (if resolution.evidence_unknown then unknown else reject) no_probe_evidence)
      else decide_observed path requirements now mount mount.observation

  unfoldable pub evaluate_placement :
      Host → String → PathRequirements Float → Option String → Result PlacementDecision
  evaluate_placement host path requirements now =
      let resolution = resolve_mount paths path host.mounts in
      decide_mount path requirements now resolution resolution.mount
