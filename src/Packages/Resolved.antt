-- ===== src/Packages/Resolved.antt =====
-- What `PackageCatalog.resolve` of src/local_agent_dispatch/packages/catalog.py returns.
use local_agent_dispatch.Packages.Catalog.{PackageCatalog}
use local_agent_dispatch.Packages.Constrained.{In-require_each}
use local_agent_dispatch.Packages.Manifest.{Dependency, Manifest}
use local_agent_dispatch.Packages.Order.{Selected, dependencies_of}
use local_agent_dispatch.Packages.Resolve.{
  require_all, root_less, has_duplicates, ResolutionResult, Solution, search, packages_of,
  result_of, resolve,
}
use local_agent_dispatch.Packages.Sound.{IsMet, IsOffered, search-IsSolution}
use local_agent_dispatch.Packages.Topological.{
  IsDependencyFirst, dependency_order-IsDependencyFirst,
}
use local_agent_dispatch.Packages.Version.{
  PackageError, resolution_error, key_error, Version, Operator,
}
use local_agent_dispatch.Prelude.Dict
use local_agent_dispatch.Prelude.Dict.{Dict, keys}
use local_agent_dispatch.Prelude.Keys.{◌=?◌, string_eq}
use local_agent_dispatch.Prelude.Outcome.{
  Outcome, returned, raised, ◌>>=◌, >>=-eq-returned, returned-injective, raise_if-eq-returned,
  raised≢returned,
}
use local_agent_dispatch.Prelude.Sort.{stable_sort, In-sort}
use local_agent_dispatch.Prelude.{
  suc, String, ◌≡◌, refl, sym, ap, ◌∙◌, subst, Bool, false, ◌||◌, Option, none, some, List, [], ◌∷◌,
  In, length, map, none≢some,
}

packages_of-lookups :
    (parse_version : String → Option Version)
    (clauses_of : String → List (Option (Operator × String))) (catalog : PackageCatalog)
    (os_name arch : String) (include_optional : Bool) (selected : Selected) (names : List String)
    (ms : List Manifest)
    → packages_of parse_version clauses_of catalog os_name arch include_optional selected names
      ≡ returned ms
    → map (λ m. some m) ms ≡ map (λ name. Dict.get name selected) names
unfolding packages_of
packages_of-lookups pv cl catalog os_name arch opt selected [] ms h =
    ap (λ l. map (λ m. some m) l) (sym (returned-injective h))
packages_of-lookups pv cl catalog os_name arch opt selected (name ∷ names) ms h =
    looked_up (Dict.get name selected) refl h
      (packages_of-lookups pv cl catalog os_name arch opt selected names)
  where
    rest : Outcome PackageError (List Manifest)
    rest = packages_of pv cl catalog os_name arch opt selected names

    looked_up :
        (o : Option Manifest)
        → Dict.get name selected ≡ o
        → (elim o [ none ↦ raised key_error | some m ↦ rest >>= λ ks. returned (m ∷ ks) ])
          ≡ returned ms
        → ((ks : List Manifest)
            → rest ≡ returned ks
            → map (λ m. some m) ks ≡ map (λ n. Dict.get n selected) names)
        → map (λ m. some m) ms ≡ map (λ n. Dict.get n selected) (name ∷ names)
    looked_up none is h others = cc
    looked_up (some m) is h others =
        let (ks, h1, h2) = >>=-eq-returned rest _ h in
        ap (λ l. map (λ k. some k) l) (sym (returned-injective h2))
        ∙ ap (λ l. some m ∷ l) (others ks h1)
        ∙ ap (λ o. o ∷ map (λ n. Dict.get n selected) names) (sym is)

module _ (parse_version : String → Option Version)
    (clauses_of : String → List (Option (Operator × String))) (catalog : PackageCatalog)
    (os_name arch : String) (include_optional : Bool) where
  -- The versions that were chosen, and the packages of the result.
  pub record IsResolved (requirements : List Dependency) (result : ResolutionResult) : Type 0 where
    pub selected : Selected
    pub order : List String
    pub packages_are :
        map (λ m. some m) result.packages ≡ map (λ name. Dict.get name selected) order
    pub distinct : has_duplicates (map (λ m. m.name) result.packages) ≡ false
    pub roots_met :
        (r : Dependency)
        → In r requirements
        → IsMet parse_version clauses_of catalog os_name arch include_optional selected r.name
            r.constraint
    pub offered :
        (name : String) (m : Manifest)
        → Dict.get name selected ≡ some m
        → IsOffered parse_version clauses_of catalog os_name arch include_optional name m
    pub closed :
        (name : String) (m : Manifest)
        → Dict.get name selected ≡ some m
        → (d : Dependency) → In d (dependencies_of include_optional m)
        → IsMet parse_version clauses_of catalog os_name arch include_optional selected d.name
            d.constraint
    pub dependency_first : IsDependencyFirst include_optional selected order
    pub complete : (name : String) → In name (keys selected) → In name order

  -- A resolution that `resolve` returns: its packages are the chosen versions, in an order in which each
  -- stands after those that it depends on, no two of one name; each is a version of the catalog that
  -- supports the platform; each requirement, and each dependency of a chosen version that counts, is met
  -- by the chosen version of its name.
  pub resolve-IsResolved :
      (requirements : List Dependency) (result : ResolutionResult)
      → resolve parse_version clauses_of catalog os_name arch include_optional requirements
        ≡ returned result
      → IsResolved requirements result
  unfolding resolve result_of Dict.get
  resolve-IsResolved requirements result h =
      let (_, h1) = raise_if-eq-returned ((os_name =? "") || (arch =? "")) resolution_error _ h in
      let (o, h2, h3) =
        >>=-eq-returned
          (search parse_version clauses_of catalog os_name arch include_optional
            (suc (length (keys catalog))) [] (require_all (stable_sort root_less requirements) []))
          _ h1 in
      found o h2 h3
    where
      roots : List Dependency
      roots = stable_sort root_less requirements

      found :
          (o : Option Solution)
          → search parse_version clauses_of catalog os_name arch include_optional
              (suc (length (keys catalog)))
              []
              (require_all roots [])
            ≡ returned o
          → result_of parse_version clauses_of catalog os_name arch include_optional roots o
            ≡ returned result
          → IsResolved requirements result
      found none h2 h3 = absurd (raised≢returned h3)
      found (some (selected, order)) h2 h3 =
          let solution =
            search-IsSolution parse_version clauses_of catalog os_name arch include_optional
              (suc (length (keys catalog))) [] (require_all roots []) {found = (selected, order)} h2
              (λ name m none_there. absurd (none≢some none_there)) in
          let (first, all) =
            dependency_order-IsDependencyFirst include_optional selected order solution.ordered in
          let (packages, h4, h5) =
            >>=-eq-returned
              (packages_of parse_version clauses_of catalog os_name arch include_optional selected
                order)
              _ h3 in
          let (distinct, h6) =
            raise_if-eq-returned (has_duplicates (map (λ m. m.name) packages)) resolution_error _
              h5 in
          subst (IsResolved requirements) (returned-injective h6) (record {
            selected = selected;
            order = order;
            packages_are =
                packages_of-lookups parse_version clauses_of catalog os_name arch include_optional
                  selected order packages h4;
            distinct = distinct;
            roots_met = λ r there.
                solution.met r.name r.constraint
                  (In-require_each r roots [] ((In-sort root_less r requirements).1 there));
            offered = solution.offered;
            closed = solution.closed;
            dependency_first = first;
            complete = all;
          })
