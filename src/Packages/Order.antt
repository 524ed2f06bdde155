-- ===== src/Packages/Order.antt =====
-- `PackageCatalog._dependency_order` of src/local_agent_dispatch/packages/catalog.py. The fuel bounds
-- the depth of `visit`. `visited` has the names of `order`, and is not kept apart from it.
use local_agent_dispatch.Packages.Manifest.{Dependency, Manifest}
use local_agent_dispatch.Packages.Version.{PackageError, resolution_error, key_error, exhausted}
use local_agent_dispatch.Prelude.Dict
use local_agent_dispatch.Prelude.Dict.{Dict, keys}
use local_agent_dispatch.Prelude.Keys.{string_eq, string_less, is_in}
use local_agent_dispatch.Prelude.Outcome.{Outcome, returned, raised, ◌>>=◌}
use local_agent_dispatch.Prelude.Sort.{stable_sort}
use local_agent_dispatch.Prelude.{
  ℕ, zero, suc, String, Bool, true, not, ◌||◌, none, some, List, [], ◌∷◌, ◌++◌, map, length,
  is_some, if◌then◌else◌,
}

-- One version of each package that was chosen.
abbrev pub Selected : Type 0
Selected = Dict String Manifest

-- The dependencies that count, by name.
abbrev pub is_counted : Bool → Dependency → Bool
is_counted include_optional d = not d.optional || include_optional

unfoldable pub active : Bool → List Dependency → List Dependency
active include_optional [] = []
active include_optional (d ∷ ds) =
    if is_counted include_optional d
    then d ∷ active include_optional ds
    else active include_optional ds

abbrev pub dependency_less : Dependency → Dependency → Bool
dependency_less d e = string_less d.name e.name

abbrev pub dependencies_of : Bool → Manifest → List Dependency
dependencies_of include_optional m =
    active include_optional (stable_sort dependency_less m.dependencies)

-- `for name in names: order = step(name, order)`, of the names that pass the test.
unfoldable pub visit_each :
    (String → Bool)
    → (String → List String → Outcome PackageError (List String))
    → List String
    → List String
    → Outcome PackageError (List String)
visit_each counts step [] order = returned order
visit_each counts step (name ∷ names) order =
    if counts name
    then (step name order >>= λ after. visit_each counts step names after)
    else visit_each counts step names order

abbrev pub names_of : List Dependency → List String
names_of ds = map (λ d. d.name) ds

module _ (include_optional : Bool) (selected : Selected) where
  abbrev pub is_selected : String → Bool
  is_selected name = is_some (Dict.get name selected)

  unfoldable pub visit : ℕ → List String → String → List String → Outcome PackageError (List String)
  visit zero visiting name order = raised exhausted
  visit (suc fuel) visiting name order =
      if is_in name order
      then returned order
      else if is_in name visiting
      then raised resolution_error
      else elim (Dict.get name selected) [
        | none ↦ raised key_error
        | some m ↦
            visit_each is_selected (visit fuel (visiting ++ name ∷ []))
              (names_of (dependencies_of include_optional m)) order
            >>= λ after. returned (after ++ name ∷ [])
      ]

  unfoldable pub dependency_order : Outcome PackageError (List String)
  dependency_order =
      visit_each (λ name. true) (visit (suc (length (keys selected))) [])
        (stable_sort string_less (keys selected)) []
