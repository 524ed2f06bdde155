-- ===== src/Topology/Paths.antt =====
-- `_pure_absolute_path` and `_covers` of src/local_agent_dispatch/resources/topology.py.
-- Python's pathlib is a parameter: what it reads off a text. A path is given by its parts, in the
-- form in which pathlib compares them (Windows paths without regard to case).
use Prim.Native.Char.{code}
use local_agent_dispatch.Prelude.Keys.{◌=?◌, string_eq}
use local_agent_dispatch.Prelude.{
  String, Bool, true, false, not, ◌&&◌, ◌||◌, Option, none, some, List, [], ◌∷◌, any, ◌==◌,
  if◌then◌else◌,
}

pub record Pathlib : Type 0 where
  -- `str.strip`
  pub strip : String → String
  -- `PureWindowsPath(text).drive`, `.is_absolute()` and `.parts`
  pub windows_drive : String → String
  pub windows_is_absolute : String → Bool
  pub windows_parts : String → List String
  -- `PurePosixPath(text).is_absolute()` and `.parts`
  pub posix_is_absolute : String → Bool
  pub posix_parts : String → List String

-- A PurePath of either class.
pub data PurePath : Type 0 where
  windows posix : List String → PurePath

-- The third component that `_pure_absolute_path` returns.
pub data Flavor : Type 0 where
  windows_flavor posix_flavor unc unknown : Flavor

abbrev pub flavor_beq : Flavor → Flavor → Bool
flavor_beq windows_flavor windows_flavor = true
flavor_beq posix_flavor posix_flavor = true
flavor_beq unc unc = true
flavor_beq unknown unknown = true
flavor_beq _ _ = false

abbrev pub is_empty : String → Bool
is_empty String.[] = true
is_empty _ = false

-- `"\x00" in text`
abbrev pub has_nul : String → Bool
has_nul String.[] = false
has_nul (String.◌∷◌ c s) = (code c == 0) || has_nul s

-- `drive.startswith("\\\\")`, two backslashes.
abbrev pub is_unc : String → Bool
is_unc (String.◌∷◌ c (String.◌∷◌ d s)) = (code c == 92) && (code d == 92)
is_unc _ = false

abbrev pub climbs : List String → Bool
climbs parts = any (λ p. p =? "..") parts

module _ (paths : Pathlib) where
  -- A path that cannot be admitted is `none`, with its flavor.
  unfoldable pub pure_absolute_path : String → Option PurePath × Flavor
  pure_absolute_path path =
      let text = paths.strip path in
      if is_empty text
      then (none, unknown)
      else if has_nul text
      then (none, unknown)
      else if is_unc (paths.windows_drive text)
      then (none, unc)
      else if not (is_empty (paths.windows_drive text))
      then (if not (paths.windows_is_absolute text)
          then (none, windows_flavor)
          else if climbs (paths.windows_parts text)
          then (none, windows_flavor)
          else (some (windows (paths.windows_parts text)), windows_flavor))
      else if not (paths.posix_is_absolute text)
      then (none, unknown)
      else if climbs (paths.posix_parts text)
      then (none, posix_flavor)
      else (some (posix (paths.posix_parts text)), posix_flavor)

abbrev pub parts_beq : List String → List String → Bool
parts_beq [] [] = true
parts_beq (x ∷ xs) (y ∷ ys) = (x =? y) && parts_beq xs ys
parts_beq _ _ = false

-- `a == b` on paths
abbrev pub path_beq : PurePath → PurePath → Bool
path_beq (windows xs) (windows ys) = parts_beq xs ys
path_beq (posix xs) (posix ys) = parts_beq xs ys
path_beq _ _ = false

abbrev pub parts_prefix : List String → List String → Bool
parts_prefix [] ys = true
parts_prefix (x ∷ xs) (y ∷ ys) = (x =? y) && parts_prefix xs ys
parts_prefix _ _ = false

-- `_covers`: `child.relative_to(parent)` succeeds when the parts of the parent begin the child's.
unfoldable pub covers : PurePath → PurePath → Bool
covers (windows xs) (windows ys) = parts_prefix xs ys
covers (posix xs) (posix ys) = parts_prefix xs ys
covers _ _ = false

abbrev pub parts : PurePath → List String
parts (windows xs) = xs
parts (posix xs) = xs

abbrev short : List String → Bool
short [] = true
short (x ∷ []) = true
short _ = false

-- `mount_path.parent == mount_path`, of a path that has no part but its anchor.
abbrev pub is_root : PurePath → Bool
is_root p = short (parts p)
