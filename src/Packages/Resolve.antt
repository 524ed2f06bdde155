-- ===== src/Packages/Resolve.antt =====
-- `PackageCatalog.resolve` and `_search` of src/local_agent_dispatch/packages/catalog.py. The fuel
-- bounds the depth of the search. The texts of `failures`, and the sources of constraints, which only
-- they show, are left out.
use local_agent_dispatch.Packages.Catalog.{PackageCatalog, available}
use local_agent_dispatch.Packages.Manifest.{Dependency, Manifest, supports}
use local_agent_dispatch.Packages.Order.{Selected, dependencies_of, is_selected, dependency_order}
use local_agent_dispatch.Packages.Version.{
  PackageError, resolution_error, key_error, exhausted, Version, Operator, version_satisfies,
}
use local_agent_dispatch.Prelude.Dict
use local_agent_dispatch.Prelude.Dict.{Dict, keys}
use local_agent_dispatch.Prelude.Keys.{◌=?◌, string_eq, string_less, is_in}
use local_agent_dispatch.Prelude.Outcome.{Outcome, returned, raised, ◌>>=◌, ◌>>◌, raise_if}
use local_agent_dispatch.Prelude.Sort.{stable_sort, filter}
use local_agent_dispatch.Prelude.{
  ℕ, zero, suc, String, Bool, true, false, not, ◌&&◌, ◌||◌, Option, none, some, List, [], ◌∷◌, ◌++◌,
  map, length, if◌then◌else◌,
}

-- The constraints on each name, in the order in which they came.
abbrev pub Constraints : Type 0
Constraints = Dict String (List String)

abbrev pub listed : Option (List String) → List String
listed none = []
listed (some cs) = cs

abbrev pub required : String → Constraints → List String
required name constraints = listed (Dict.get name constraints)

abbrev pub require : Dependency → Constraints → Constraints
require d constraints =
    Dict.put d.name (required d.name constraints ++ d.constraint ∷ []) constraints

unfoldable pub require_all : List Dependency → Constraints → Constraints
require_all [] constraints = constraints
require_all (d ∷ ds) constraints = require_all ds (require d constraints)

-- `for candidate in candidates: if found(candidate) is not None: return it`
unfoldable pub first_found :
    {A R : Type 0}
    → (A → Outcome PackageError (Option R))
    → List A
    → Outcome PackageError (Option R)
first_found found [] = returned none
first_found found (x ∷ xs) = do
  result ← found x
  let others = first_found found xs in elim result [ none ↦ others | some r ↦ returned (some r) ]

-- Names of constraints that have no version yet.
abbrev pub unresolved : Selected → Constraints → List String
unresolved selected constraints =
    stable_sort string_less
      (filter (λ name. not (is_selected true selected name)) (keys constraints))

abbrev pub Solution : Type 0
Solution = Selected × List String

-- The end of a search, where a cycle is no solution.
abbrev pub solution :
    Selected → Outcome PackageError (List String) → Outcome PackageError (Option Solution)
solution selected (returned order) = returned (some (selected, order))
solution selected (raised resolution_error) = returned none
solution selected (raised x) = raised x

-- The roots stand by name, and then by constraint.
abbrev pub root_less : Dependency → Dependency → Bool
root_less d e =
    string_less d.name e.name || (d.name =? e.name) && string_less d.constraint e.constraint

unfoldable pub has_duplicates : List String → Bool
has_duplicates [] = false
has_duplicates (name ∷ names) = is_in name names || has_duplicates names

pub record ResolutionResult : Type 0 where
  pub roots : List Dependency
  pub packages : List Manifest
  pub os_name : String
  pub arch : String
  pub include_optional : Bool

module _ (parse_version : String → Option Version)
    (clauses_of : String → List (Option (Operator × String))) where
  -- `all(version_satisfies(version, value) for value in required)`
  unfoldable pub satisfies_all : String → List String → Outcome PackageError Bool
  satisfies_all version [] = returned true
  satisfies_all version (c ∷ cs) = do
    holds ← version_satisfies parse_version clauses_of version c
    let rest = satisfies_all version cs in if holds then rest else returned false

  -- The loop over the selected names, false at the first conflict.
  unfoldable pub is_consistent : Selected → Constraints → List String → Outcome PackageError Bool
  is_consistent selected constraints [] = returned true
  is_consistent selected constraints (name ∷ names) = elim (Dict.get name selected) [
    | none ↦ raised key_error
    | some m ↦ do
      holds ← satisfies_all m.version (required name constraints)
      let rest = is_consistent selected constraints names in if holds then rest else returned false
  ]

  -- The versions that satisfy what is required of the name.
  unfoldable pub matching : List String → List Manifest → Outcome PackageError (List Manifest)
  matching cs [] = returned []
  matching cs (m ∷ ms) = do
    holds ← satisfies_all m.version cs
    rest ← matching cs ms
    returned (if holds then m ∷ rest else rest)

  module _ (catalog : PackageCatalog) (os_name arch : String) (include_optional : Bool) where
    unfoldable pub candidates : String → Constraints → Outcome PackageError (List Manifest)
    candidates name constraints = do
      found ← matching (required name constraints) (available parse_version clauses_of name catalog)
      returned (filter (supports os_name arch) found)

    -- `_search`
    unfoldable pub search : ℕ → Selected → Constraints → Outcome PackageError (Option Solution)
    search zero selected constraints = raised exhausted
    search (suc fuel) selected constraints = do
      consistent ← is_consistent selected constraints (stable_sort string_less (keys selected))
      let tried : String → Manifest → Outcome PackageError (Option Solution) = λ name m.
            search fuel (Dict.put name m selected)
              (require_all (dependencies_of include_optional m) constraints) in
          if consistent
          then elim (unresolved selected constraints) [
            | [] ↦ solution selected (dependency_order include_optional selected)
            | name ∷ others ↦ candidates name constraints >>= λ ms. first_found (tried name) ms
          ]
          else returned none

    -- `tuple(selected[name] for name in order)`
    unfoldable pub packages_of : Selected → List String → Outcome PackageError (List Manifest)
    packages_of selected [] = returned []
    packages_of selected (name ∷ names) = elim (Dict.get name selected) [
      | none ↦ raised key_error
      | some m ↦ packages_of selected names >>= λ ms. returned (m ∷ ms)
    ]

    -- What `resolve` makes of the end of the search.
    unfoldable pub result_of :
        List Dependency → Option Solution → Outcome PackageError ResolutionResult
    result_of roots none = raised resolution_error
    result_of roots (some (selected, order)) = do
      packages ← packages_of selected order
      raise_if (has_duplicates (map (λ m. m.name) packages)) resolution_error
      returned (record {
        roots = roots;
        packages = packages;
        os_name = os_name;
        arch = arch;
        include_optional = include_optional;
      })

    -- `resolve`, of Dependency values, on a platform in lower case.
    unfoldable pub resolve : List Dependency → Outcome PackageError ResolutionResult
    resolve requirements = do
      let roots = stable_sort root_less requirements
      raise_if ((os_name =? "") || (arch =? "")) resolution_error
      found ← search (suc (length (keys catalog))) [] (require_all roots [])
      result_of roots found
