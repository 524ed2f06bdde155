-- ===== src/Packages/Catalog.antt =====
-- `PackageCatalog.add` and `available` of src/local_agent_dispatch/packages/catalog.py.
use Prim.Native.Nat.{Ordering}
use local_agent_dispatch.Packages.Manifest.{Manifest}
use local_agent_dispatch.Packages.Version.{
  PackageError, resolution_error, Version, Operator, compare_versions,
}
use local_agent_dispatch.Prelude.Dict
use local_agent_dispatch.Prelude.Dict.{Dict, values}
use local_agent_dispatch.Prelude.Keys.{◌=?◌, string_eq, string_less}
use local_agent_dispatch.Prelude.Outcome.{Outcome, returned, raised, ◌>>=◌, ◌>>◌, raise_if}
use local_agent_dispatch.Prelude.Sort.{stable_sort}
use local_agent_dispatch.Prelude.{String, Bool, true, false, not, Option, none, some, List, [], ◌∷◌}

-- `_manifests`: by name, and then by version.
abbrev pub PackageCatalog : Type 0
PackageCatalog = Dict String (Dict String Manifest)

-- The entries of a name.
abbrev pub versions_of : String → PackageCatalog → Dict String Manifest
versions_of name catalog = elim (Dict.get name catalog) [ none ↦ [] | some versions ↦ versions ]

abbrev pub conflicts : Manifest → Option Manifest → Bool
conflicts m none = false
conflicts m (some existing) = not (existing.digest =? m.digest)

unfoldable pub add : Manifest → PackageCatalog → Outcome PackageError PackageCatalog
add m catalog = do
  let versions = versions_of m.name catalog
  raise_if (conflicts m (Dict.get m.version versions)) resolution_error
  returned (Dict.put m.name (Dict.put m.version m versions) catalog)

-- `__init__`
unfoldable pub add_all : List Manifest → PackageCatalog → Outcome PackageError PackageCatalog
add_all [] catalog = returned catalog
add_all (m ∷ ms) catalog = add m catalog >>= λ after. add_all ms after

module _ (parse_version : String → Option Version)
    (clauses_of : String → List (Option (Operator × String))) where
  -- `_compare_manifests` is positive. The version of a manifest has been parsed, so that its comparison
  -- does not raise.
  abbrev pub manifest_greater : Manifest → Manifest → Bool
  manifest_greater left right =
      elim (compare_versions parse_version clauses_of left.version right.version) [
        | returned Ordering.gt ↦ true
        | returned Ordering.eq ↦ string_less right.version left.version
        | returned Ordering.lt ↦ false
        | raised x ↦ false
      ]

  -- Of a name that `_package_name` gave: the highest version first.
  unfoldable pub available : String → PackageCatalog → List Manifest
  available name catalog = stable_sort manifest_greater (values (versions_of name catalog))
