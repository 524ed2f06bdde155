-- ===== src/Examples/Packages.antt =====
-- The resolution of a package that needs an older version of another one.
use Prim.Native.Nat.{Ordering}
use local_agent_dispatch.Packages.Catalog.{PackageCatalog, add, add_all, available}
use local_agent_dispatch.Packages.Complete.{search_of, search-finds}
use local_agent_dispatch.Packages.Filed.{available-IsFiled}
use local_agent_dispatch.Packages.Feasible.{IsClosed}
use local_agent_dispatch.Packages.Manifest.{Dependency, Manifest}
use local_agent_dispatch.Packages.Order.{
  active, dependencies_of, visit_each, visit, dependency_order,
}
use local_agent_dispatch.Packages.Precedence.{compare_versions-opposite}
use local_agent_dispatch.Packages.Resolve.{
  ResolutionResult, Solution, require_all, first_found, has_duplicates, satisfies_all,
  is_consistent, matching, candidates, search, packages_of, result_of, resolve,
}
use local_agent_dispatch.Packages.Resolved.{IsResolved, resolve-IsResolved}
use local_agent_dispatch.Packages.Sound.{IsMet, IsOffered}
use local_agent_dispatch.Packages.Terminates.{resolve-terminates}
use local_agent_dispatch.Packages.Topological.{
  IsDependencyFirst, dependency_order-IsDependencyFirst,
}
use local_agent_dispatch.Packages.Version.{
  manifest_error, resolution_error, exhausted, Version, Operator, at_least, below,
  compare_prerelease, compare_versions, all_hold, version_satisfies,
}
use local_agent_dispatch.Prelude.Dict
use local_agent_dispatch.Prelude.Dict.{Dict, keys}
use local_agent_dispatch.Prelude.Keys.{◌=?◌, string_eq}
use local_agent_dispatch.Prelude.Outcome.{returned, raised}
use local_agent_dispatch.Prelude.Sort.{insert_sorted, stable_sort, filter}
use local_agent_dispatch.Prelude.{
  ℕ, ◌<◌, String, ◌≡◌, ◌⊎◌, ◌≢◌, refl, sym, subst, inl, inr, arith, Bool-cases, false, Option, none,
  some, List, [], ◌∷◌, In, if◌then◌else◌,
}

abbrev version : String → Option Version
version s =
    if s =? "1.0.0"
    then some (record { major = 1; minor = 0; patch = 0; prerelease = none })
    else if s =? "2.0.0"
    then some (record { major = 2; minor = 0; patch = 0; prerelease = none })
    else none

abbrev clauses : String → List (Option (Operator × String))
clauses s =
    if s =? "*"
    then []
    else if s =? "<2.0.0"
    then some (below, "2.0.0") ∷ []
    else if s =? ">=2.0.0"
    then some (at_least, "2.0.0") ∷ []
    else none ∷ []

abbrev depends : String → String → Dependency
depends n c = record { name = n; constraint = c; optional = false }

abbrev a_package : String → String → List Dependency → Manifest
a_package n v ds = record { name = n; version = v; platforms = []; dependencies = ds; digest = v }

abbrev lib_one : Manifest
lib_one = a_package "lib" "1.0.0" []

abbrev lib_two : Manifest
lib_two = a_package "lib" "2.0.0" []

abbrev app : Manifest
app = a_package "app" "1.0.0" (depends "lib" "<2.0.0" ∷ [])

abbrev catalog : PackageCatalog
catalog = ("lib", ("1.0.0", lib_one) ∷ ("2.0.0", lib_two) ∷ []) ∷ ("app", ("1.0.0", app) ∷ []) ∷ []

abbrev wanted : List Dependency
wanted = depends "app" "*" ∷ []

abbrev lock : ResolutionResult
lock = record {
  roots = wanted;
  packages = lib_one ∷ app ∷ [];
  os_name = "linux";
  arch = "x86_64";
  include_optional = false;
}

locked : resolve version clauses catalog "linux" "x86_64" false wanted ≡ returned lock
unfolding resolve result_of packages_of search candidates matching is_consistent satisfies_all
    has_duplicates first_found require_all active visit_each visit dependency_order
    compare_prerelease compare_versions all_hold version_satisfies available insert_sorted
    stable_sort filter Dict.get Dict.put
locked = refl

-- A newer library is asked for beside the package that excludes it.
conflict :
    resolve version clauses catalog "linux" "x86_64" false (depends "lib" ">=2.0.0" ∷ wanted)
    ≡ raised resolution_error
unfolding resolve result_of packages_of search candidates matching is_consistent satisfies_all
    has_duplicates first_found require_all active visit_each visit dependency_order
    compare_prerelease compare_versions all_hold version_satisfies available insert_sorted
    stable_sort filter Dict.get Dict.put
conflict = refl

resolve-IsResolved_example : IsResolved version clauses catalog "linux" "x86_64" false wanted lock
resolve-IsResolved_example =
    resolve-IsResolved version clauses catalog "linux" "x86_64" false wanted lock locked

resolve-terminates_example :
    resolve version clauses catalog "linux" "x86_64" false wanted ≢ raised exhausted
resolve-terminates_example =
    resolve-terminates version clauses catalog "linux" "x86_64" false wanted

abbrev chosen : Dict String Manifest
chosen = ("app", app) ∷ ("lib", lib_one) ∷ []

in_order : dependency_order false chosen ≡ returned ("lib" ∷ "app" ∷ [])
unfolding active visit_each visit dependency_order insert_sorted stable_sort Dict.get
in_order = refl

dependency_order-IsDependencyFirst_example :
    IsDependencyFirst false chosen ("lib" ∷ "app" ∷ [])
    × ((name : String) → In name (keys chosen) → In name ("lib" ∷ "app" ∷ []))
dependency_order-IsDependencyFirst_example =
    dependency_order-IsDependencyFirst false chosen ("lib" ∷ "app" ∷ []) in_order

-- What holds of the two chosen packages holds of every one that is looked up.
chosen-each :
    (P : String → Manifest → Type 0)
    → P "app" app
    → P "lib" lib_one
    → (name : String) (m : Manifest) → Dict.get name chosen ≡ some m
    → P name m
unfolding Dict.get
chosen-each P of_app of_lib name m h = elim (Bool-cases ("app" =? name)) [
  | inl is_app ↦
      let same : app ≡ m = ground (arith, h, is_app) in
      subst (λ n. P n m) ((string_eq.beq_iff "app" name).0 is_app) (subst (P "app") same of_app)
  | inr other ↦ elim (Bool-cases ("lib" =? name)) [
    | inl is_lib ↦
        let same : lib_one ≡ m = ground (arith, h, other, is_lib) in
        subst (λ n. P n m) ((string_eq.beq_iff "lib" name).0 is_lib) (subst (P "lib") same of_lib)
    | inr neither ↦ absurd (ground (arith, h, other, neither))
  ]
]

abbrev rank : String → ℕ
rank name = if name =? "app" then 1 else 0

abbrev Depends : Manifest → Dependency → Type 0
Depends m d = In d (dependencies_of false m)

only_lib :
    (P : Dependency → Type 0) → P (depends "lib" "<2.0.0") → (d : Dependency) → Depends app d → P d
unfolding active insert_sorted stable_sort
only_lib P of_lib d (inl here) = subst P (sym here) of_lib
only_lib P of_lib d (inr there) = absurd there

nothing : (P : Dependency → Type 0) (d : Dependency) → Depends lib_one d → P d
unfolding active insert_sorted stable_sort
nothing P d there = absurd there

abbrev Meets : Dependency → Type 0
Meets d = IsMet version clauses catalog "linux" "x86_64" false chosen d.name d.constraint

lib_met : Meets (depends "lib" "<2.0.0")
unfolding Dict.get compare_prerelease compare_versions all_hold version_satisfies
lib_met = (lib_one, refl, refl)

app_met : Meets (depends "app" "*")
unfolding Dict.get all_hold version_satisfies
app_met = (app, refl, refl)

abbrev Offered : String → Manifest → Type 0
Offered name m = IsOffered version clauses catalog "linux" "x86_64" false name m

app-Offered : Offered "app" app
unfolding available insert_sorted stable_sort Dict.get
app-Offered = (inl refl, refl)

lib-Offered : Offered "lib" lib_one
unfolding available insert_sorted stable_sort Dict.get compare_versions compare_prerelease
lib-Offered = (inr (inl refl), refl)

chosen-IsClosed : IsClosed version clauses catalog "linux" "x86_64" false chosen rank
chosen-IsClosed = record {
  offered = chosen-each Offered app-Offered lib-Offered;
  closed =
      chosen-each (λ n m. (d : Dependency) → Depends m d → Meets d) (only_lib Meets lib_met)
        (nothing Meets);
  ranked =
      chosen-each (λ n m. (d : Dependency) → Depends m d → rank d.name < rank n)
        (only_lib (λ d. rank d.name < 1) (ground arith)) (nothing (λ d. rank d.name < 0));
}

search-finds_example :
    ((found : Solution) × (search_of version clauses catalog "linux" "x86_64" false wanted
        ≡ returned (some found)))
    ⊎ (search_of version clauses catalog "linux" "x86_64" false wanted ≡ raised manifest_error)
search-finds_example =
    search-finds version clauses catalog "linux" "x86_64" false wanted chosen rank chosen-IsClosed
      (λ r there. elim there [
        | inl here ↦ subst Meets (sym here) app_met
        | inr there ↦ absurd there
      ])

filled : add_all (lib_one ∷ lib_two ∷ app ∷ []) [] ≡ returned catalog
unfolding add_all add Dict.get Dict.put
filled = refl

lib_available : In lib_one (available version clauses "lib" catalog)
unfolding available insert_sorted stable_sort Dict.get compare_versions compare_prerelease
lib_available = inr (inl refl)

available-IsFiled_example : (lib_one.name ≡ "lib") × In lib_one (lib_one ∷ lib_two ∷ app ∷ [])
available-IsFiled_example =
    available-IsFiled version clauses (lib_one ∷ lib_two ∷ app ∷ []) catalog "lib" lib_one filled
      lib_available

older : compare_versions version clauses "1.0.0" "2.0.0" ≡ returned Ordering.lt
unfolding compare_versions compare_prerelease
older = refl

compare_versions-opposite_example :
    compare_versions version clauses "2.0.0" "1.0.0" ≡ returned Ordering.gt
compare_versions-opposite_example =
    compare_versions-opposite version clauses "1.0.0" "2.0.0" Ordering.lt older
