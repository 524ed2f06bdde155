-- ===== src/Packages/Manifest.antt =====
-- The parts of `ExtensionManifest` of src/local_agent_dispatch/packages/manifest.py that resolution
-- reads. Names are those that `_package_name` gave.
use local_agent_dispatch.Prelude.Keys.{◌=?◌, string_eq}
use local_agent_dispatch.Prelude.{String, Bool, ◌&&◌, ◌||◌, List, null, any}

pub record PlatformConstraint : Type 0 where
  pub os : String
  pub arch : String

-- `matches`, of names in lower case.
abbrev pub matches : String → String → PlatformConstraint → Bool
matches os_name arch p = (p.os =? "any" || p.os =? os_name) && (p.arch =? "any" || p.arch =? arch)

pub record Dependency : Type 0 where
  pub name : String
  pub constraint : String
  pub optional : Bool

-- `digest` is the property of that name, of the whole manifest.
pub record Manifest : Type 0 where
  pub name : String
  pub version : String
  pub platforms : List PlatformConstraint
  pub dependencies : List Dependency
  pub digest : String

abbrev pub supports : String → String → Manifest → Bool
supports os_name arch m = null m.platforms || any (λ p. matches os_name arch p) m.platforms
