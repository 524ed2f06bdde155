-- ===== src/Topology/Mounts.antt =====
-- `resolve_mount` of src/local_agent_dispatch/resources/topology.py. The texts of the reasons are
-- left out here and in the modules that follow; a reason is a tag.
use local_agent_dispatch.Prelude.{
  ℕ, String, Bool, true, false, not, ◌||◌, Option, none, some, List, [], ◌∷◌, length, ltb,
  if◌then◌else◌,
}
use local_agent_dispatch.Topology.Paths.{
  Pathlib, PurePath, Flavor, flavor_beq, pure_absolute_path, path_beq, covers, parts, is_root,
}
use local_agent_dispatch.World.Host.{MountState, is_probed}

pub record MountResolution : Type 0 where
  pub mount : Option MountState
  pub probed : Bool
  pub covering_prefix : Bool
  pub evidence_unknown : Bool

abbrev pub Located : Type 0
Located = MountState × PurePath

module _ (paths : Pathlib) where
  abbrev pub locate_one :
      MountState → Flavor → Option PurePath × Flavor → List Located → List Located
  locate_one mount flavor (none, mount_flavor) rest = rest
  locate_one mount flavor (some p, mount_flavor) rest =
      if flavor_beq mount_flavor flavor then (mount, p) ∷ rest else rest

  -- The mounts whose path can be read, and is of the flavor asked for.
  unfoldable pub normalized_mounts : Flavor → List MountState → List Located
  normalized_mounts flavor [] = []
  normalized_mounts flavor (m ∷ ms) =
      locate_one m flavor (pure_absolute_path paths m.path) (normalized_mounts flavor ms)

-- The first mount that stands exactly at the path.
unfoldable pub exact_mount : PurePath → List Located → Option MountState
exact_mount target [] = none
exact_mount target ((m, p) ∷ ms) = if path_beq p target then some m else exact_mount target ms

-- `depth > best_depth`, with nothing found yet for -1.
abbrev pub is_deeper : ℕ → Option (MountState × ℕ) → Bool
is_deeper depth none = true
is_deeper depth (some (m, best_depth)) = ltb best_depth depth

-- One round of the second loop.
abbrev pub better_mount : PurePath → Located → Option (MountState × ℕ) → Option (MountState × ℕ)
better_mount target (m, p) best =
    if is_root p || not (covers p target)
    then best
    else if is_deeper (length (parts p)) best
    then some (m, length (parts p))
    else best

unfoldable pub deepest_mount :
    PurePath → List Located → Option (MountState × ℕ) → Option (MountState × ℕ)
deepest_mount target [] best = best
deepest_mount target (l ∷ ls) best = deepest_mount target ls (better_mount target l best)

abbrev pub covering_resolution : Option (MountState × ℕ) → MountResolution
covering_resolution none = record {
  mount = none;
  probed = false;
  covering_prefix = false;
  evidence_unknown = false;
}
covering_resolution (some (m, depth)) = record {
  mount = some m;
  probed = is_probed m;
  covering_prefix = true;
  evidence_unknown = false;
}

abbrev pub resolution : Option MountState → Option (MountState × ℕ) → MountResolution
resolution (some m) best = record {
  mount = some m;
  probed = is_probed m;
  covering_prefix = false;
  evidence_unknown = false;
}
resolution none best = covering_resolution best

module _ (paths : Pathlib) where
  abbrev pub resolve_located : Option PurePath × Flavor → List MountState → MountResolution
  resolve_located (none, flavor) mounts = record {
    mount = none;
    probed = false;
    covering_prefix = false;
    evidence_unknown = true;
  }
  resolve_located (some target, flavor) mounts =
      let located = normalized_mounts paths flavor mounts in
      resolution (exact_mount target located) (deepest_mount target located none)

  -- The exact mount, or else the deepest covering one, never a root.
  unfoldable pub resolve_mount : String → List MountState → MountResolution
  resolve_mount path mounts = resolve_located (pure_absolute_path paths path) mounts
