-- ===== src/Packages/Terminates.antt =====
-- The fuel that `resolve` of src/local_agent_dispatch/packages/catalog.py gives its search is enough.
use local_agent_dispatch.Packages.Catalog.{PackageCatalog, available, versions_of, manifest_greater}
use local_agent_dispatch.Packages.Constrained.{get-In_keys}
use local_agent_dispatch.Packages.Tested.{candidates-In}
use local_agent_dispatch.Packages.Fuel.{
  IsFueled, returned-Avoids, manifest_error-IsFueled, key_error-IsFueled, resolution_error-IsFueled,
  >>=-Avoids, if-Avoids, is_consistent-Avoids, candidates-Avoids, first_found-Avoids,
}
use local_agent_dispatch.Packages.Manifest.{Dependency, Manifest}
use local_agent_dispatch.Packages.Order.{Selected, dependencies_of, is_selected, dependency_order}
use local_agent_dispatch.Packages.Resolve.{
  Constraints, require_all, unresolved, is_consistent, candidates, first_found, Solution, solution,
  root_less, packages_of, has_duplicates, result_of, search, resolve,
}
use local_agent_dispatch.Packages.Version.{
  PackageError, manifest_error, resolution_error, key_error, exhausted, Version, Operator,
}
use local_agent_dispatch.Packages.Visits.{dependency_order-IsFueled}
use local_agent_dispatch.Prelude.Dict
use local_agent_dispatch.Prelude.Dict.{Dict, keys, values, get-put, get-put_self}
use local_agent_dispatch.Prelude.Keys.{◌=?◌, string_eq, string_less}
use local_agent_dispatch.Prelude.Outcome.{
  Outcome, returned, raised, ◌>>=◌, ◌>>◌, raise_if, raised-injective,
}
use local_agent_dispatch.Prelude.Sort.{
  stable_sort, In-sort, filter, In-filter, length-filter_lt, length-filter_all,
}
use local_agent_dispatch.Prelude.{
  ℕ, zero, suc, ◌<◌, String, ◌≡◌, ◌≢◌, refl, map, sym, ap, ◌∙◌, subst, inl, Bool, true, false, not,
  ◌||◌, Option, none, some, List, [], ◌∷◌, In, length, arith,
}

raise_if-IsFueled :
    {A : Type 0} (b : Bool) (rest : Outcome PackageError A)
    → IsFueled rest
    → IsFueled (raise_if b resolution_error >> rest)
raise_if-IsFueled true rest h = resolution_error-IsFueled
raise_if-IsFueled false rest h = h

solution-IsFueled :
    (selected : Selected) (o : Outcome PackageError (List String))
    → IsFueled o
    → IsFueled (solution selected o)
solution-IsFueled selected (returned order) h = returned-Avoids exhausted (some (selected, order))
solution-IsFueled selected (raised resolution_error) h = returned-Avoids exhausted none
solution-IsFueled selected (raised manifest_error) h = manifest_error-IsFueled
solution-IsFueled selected (raised key_error) h = key_error-IsFueled
solution-IsFueled selected (raised exhausted) h = absurd (h refl)

module _ (parse_version : String → Option Version)
    (clauses_of : String → List (Option (Operator × String))) (catalog : PackageCatalog) where
  -- A name that has a version is one of the catalog.
  available-In_keys :
      (name : String) (m : Manifest)
      → In m (available parse_version clauses_of name catalog)
      → In name (keys catalog)
  unfolding available
  available-In_keys name m there = known (Dict.get name catalog) refl (
      (In-sort (manifest_greater parse_version clauses_of) m (values (versions_of name catalog))).0
        there)
    where
      known :
          (o : Option (Dict String Manifest))
          → Dict.get name catalog ≡ o
          → In m (values (versions_of name catalog))
          → In name (keys catalog)
      known none missing h =
          absurd
            (subst (λ o. In m (values (elim o [ none ↦ [] | some versions ↦ versions ]))) missing h)
      known (some versions) found h = get-In_keys name catalog found

  -- The names of the catalog of which no version is chosen.
  abbrev pub unchosen : Selected → ℕ
  unchosen selected = length (filter (λ n. not (is_selected true selected n)) (keys catalog))

  unchosen-falls :
      (name : String) (m : Manifest) (selected : Selected)
      → In name (keys catalog)
      → not (is_selected true selected name) ≡ true
      → unchosen (Dict.put name m selected) < unchosen selected
  unchosen-falls name m selected there waiting =
      length-filter_lt (λ n. not (is_selected true selected n))
        (λ n. not (is_selected true (Dict.put name m selected) n)) name (keys catalog)
        (λ n h. ground (arith, h, get-put name n m selected)) there waiting
        (ground (arith, get-put_self name m selected))

module _ (parse_version : String → Option Version)
    (clauses_of : String → List (Option (Operator × String))) (catalog : PackageCatalog)
    (os_name arch : String) (include_optional : Bool) where
  waiting-unchosen :
      (selected : Selected) (constraints : Constraints) (name : String) (others : List String)
      → unresolved selected constraints ≡ name ∷ others
      → not (is_selected true selected name) ≡ true
  waiting-unchosen selected constraints name others h =
      let waiting = λ (n : String). not (is_selected true selected n) in
      let there =
        (In-sort string_less name (filter waiting (keys constraints))).0
          (subst (In name) (sym h) (inl refl)) in
      ((In-filter waiting name (keys constraints)).0 there).1

  pub search-IsFueled :
      (fuel : ℕ) (selected : Selected) (constraints : Constraints)
      → unchosen parse_version clauses_of catalog selected < fuel
      → IsFueled (
          search parse_version clauses_of catalog os_name arch include_optional fuel selected
            constraints)
  unfolding search
  search-IsFueled zero selected constraints enough = absurd (omega (arith, enough))
  search-IsFueled (suc fuel) selected constraints enough =
      >>=-Avoids exhausted
        (is_consistent parse_version clauses_of selected constraints
          (stable_sort string_less (keys selected)))
        _
        (is_consistent-Avoids parse_version clauses_of exhausted (λ h. cc) selected constraints
          (stable_sort string_less (keys selected)) (λ n there missing h. cc))
        (λ b.
          if-Avoids exhausted b _ _
            (branch (unresolved selected constraints) refl (search-IsFueled fuel))
            (returned-Avoids exhausted none))
    where
      after : String → Manifest → Outcome PackageError (Option Solution)
      after name m =
          search parse_version clauses_of catalog os_name arch include_optional fuel
            (Dict.put name m selected)
            (require_all (dependencies_of include_optional m) constraints)

      branch :
          (u : List String)
          → unresolved selected constraints ≡ u
          → ((s : Selected) (cs : Constraints)
              → unchosen parse_version clauses_of catalog s < fuel
              → IsFueled
                  (search parse_version clauses_of catalog os_name arch include_optional fuel s cs))
          → IsFueled (elim u [
            | [] ↦ solution selected (dependency_order include_optional selected)
            | name ∷ others ↦
                candidates parse_version clauses_of catalog os_name arch include_optional name
                  constraints
                >>= λ ms. first_found (after name) ms
          ])
      branch [] none_left rest =
          solution-IsFueled selected (dependency_order include_optional selected)
            (dependency_order-IsFueled include_optional selected)
      branch (name ∷ others) some_left rest =
          tried
            (candidates parse_version clauses_of catalog os_name arch include_optional name
              constraints)
            refl
        where
          tried :
              (o : Outcome PackageError (List Manifest))
              → candidates parse_version clauses_of catalog os_name arch include_optional name
                  constraints
                ≡ o
              → IsFueled (o >>= λ ms. first_found (after name) ms)
          tried (raised x) is = λ h.
              candidates-Avoids parse_version clauses_of exhausted (λ h. cc) catalog os_name arch
                name include_optional constraints (is ∙ ap raised (raised-injective h))
          tried (returned ms) is = first_found-Avoids exhausted (after name) ms (λ m there.
              let offered =
                candidates-In parse_version clauses_of catalog os_name arch name include_optional
                  constraints is m there in
              let fewer =
                unchosen-falls parse_version clauses_of catalog name m selected
                  (available-In_keys parse_version clauses_of catalog name m offered.0)
                  (waiting-unchosen selected constraints name others some_left) in
              rest (Dict.put name m selected)
                (require_all (dependencies_of include_optional m) constraints)
                (omega (arith, enough, fewer)))

  packages_of-IsFueled :
      (selected : Selected) (names : List String)
      → IsFueled (
          packages_of parse_version clauses_of catalog os_name arch include_optional selected names)
  unfolding packages_of
  packages_of-IsFueled selected [] = returned-Avoids exhausted []
  packages_of-IsFueled selected (name ∷ names) =
      chosen (packages_of-IsFueled selected names) (Dict.get name selected)
    where
      rest : Outcome PackageError (List Manifest)
      rest =
          packages_of parse_version clauses_of catalog os_name arch include_optional selected names

      chosen :
          IsFueled rest
          → (o : Option Manifest)
          → IsFueled
              (elim o [ none ↦ raised key_error | some m ↦ rest >>= λ ms. returned (m ∷ ms) ])
      chosen others none = key_error-IsFueled
      chosen others (some m) =
          >>=-Avoids exhausted rest _ others (λ ms. returned-Avoids exhausted (m ∷ ms))

  result_of-IsFueled :
      (roots : List Dependency) (o : Option Solution)
      → IsFueled (result_of parse_version clauses_of catalog os_name arch include_optional roots o)
  unfolding result_of
  result_of-IsFueled roots none = resolution_error-IsFueled
  result_of-IsFueled roots (some (selected, order)) =
      >>=-Avoids exhausted
        (packages_of parse_version clauses_of catalog os_name arch include_optional selected order)
        _ (packages_of-IsFueled selected order)
        (λ packages.
          raise_if-IsFueled (has_duplicates (map (λ m. m.name) packages)) _
            (returned-Avoids exhausted _))

  -- The fuel of the search, one more than the catalog has names, and that of each visit, one more than
  -- the selection has names, are never used up: `resolve` returns, or raises an error of its own.
  pub resolve-terminates :
      (requirements : List Dependency)
      → resolve parse_version clauses_of catalog os_name arch include_optional requirements
        ≢ raised exhausted
  unfolding resolve
  resolve-terminates requirements =
      let roots = stable_sort root_less requirements in
      let enough = length-filter_all (λ n. not (is_selected true [] n)) (keys catalog) in
      raise_if-IsFueled ((os_name =? "") || (arch =? "")) _ (
        >>=-Avoids exhausted
          (search parse_version clauses_of catalog os_name arch include_optional
            (suc (length (keys catalog))) [] (require_all roots []))
          _
          (search-IsFueled (suc (length (keys catalog))) [] (require_all roots [])
            (omega (arith, enough)))
          (λ o. result_of-IsFueled roots o))
