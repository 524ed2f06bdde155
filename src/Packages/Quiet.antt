-- ===== src/Packages/Quiet.antt =====
-- Which errors a search of src/local_agent_dispatch/packages/catalog.py can raise: where what a package
-- depends on is of lower rank or not, neither a cycle nor a missing name comes out of it.
use local_agent_dispatch.Packages.Catalog.{PackageCatalog}
use local_agent_dispatch.Packages.Fuel.{
  Avoids, returned-Avoids, raised-Avoids, >>=-Avoids, if-Avoids, is_consistent-Avoids,
  candidates-Avoids, first_found-Avoids, visit_each-Avoids,
}
use local_agent_dispatch.Packages.Manifest.{Manifest}
use local_agent_dispatch.Packages.Order.{
  Selected, dependencies_of, visit_each, names_of, is_selected, visit, dependency_order,
}
use local_agent_dispatch.Packages.Resolve.{
  Constraints, require_all, unresolved, is_consistent, candidates, first_found, Solution, solution,
  search,
}
use local_agent_dispatch.Packages.Version.{
  PackageError, manifest_error, resolution_error, key_error, exhausted, Version, Operator,
}
use local_agent_dispatch.Prelude.Dict
use local_agent_dispatch.Prelude.Dict.{Dict, keys}
use local_agent_dispatch.Prelude.Keys.{◌=?◌, string_eq, string_less, is_in}
use local_agent_dispatch.Prelude.Outcome.{Outcome, returned, raised, ◌>>=◌}
use local_agent_dispatch.Prelude.Sort.{stable_sort, In-sort}
use local_agent_dispatch.Prelude.{
  ℕ, zero, suc, String, ◌≡◌, ◌≢◌, refl, sym, ◌∙◌, inl, inr, Bool, true, Option, none, some, is_some,
  List, [], ◌∷◌, ◌++◌, In, length, Bool-cases, none≢some, true≢false,
}

-- A key of a dictionary has a value.
key-present :
    {V : Type 0} (name : String) (d : Dict String V) → In name (keys d) → Dict.get name d ≢ none
unfolding Dict.get
key-present name [] there missing = absurd there
key-present name ((k, v) ∷ d) there missing = elim (Bool-cases (k =? name)) [
  | inl same ↦ none≢some (sym (rw same at missing))
  | inr other ↦ elim there [
    | inl here ↦ true≢false (sym ((string_eq.beq_iff k name).1 (sym here)) ∙ other)
    | inr more ↦ key-present name d more (rw other at missing)
  ]
]

selected_there : {V : Type 0} (o : Option V) → is_some o ≡ true → o ≢ none
selected_there none h missing = cc
selected_there (some v) h missing = none≢some (sym missing)

module _ (include_optional : Bool) (selected : Selected) where
  visit-present :
      (fuel : ℕ) (visiting : List String) (name : String) (order : List String)
      → Dict.get name selected ≢ none
      → Avoids key_error (visit include_optional selected fuel visiting name order)
  unfolding visit
  visit-present zero visiting name order there = raised-Avoids key_error exhausted (λ h. cc)
  visit-present (suc fuel) visiting name order there =
      if-Avoids key_error (is_in name order) _ _ (returned-Avoids key_error order) (
        if-Avoids key_error (is_in name visiting) _ _
          (raised-Avoids key_error resolution_error (λ h. cc))
          (chosen (Dict.get name selected) there (visit-present fuel (visiting ++ name ∷ []))))
    where
      step : String → List String → Outcome PackageError (List String)
      step = visit include_optional selected fuel (visiting ++ name ∷ [])

      chosen :
          (o : Option Manifest)
          → o ≢ none
          → ((n : String) (l : List String)
              → Dict.get n selected ≢ none
              → Avoids key_error (step n l))
          → Avoids key_error (elim o [
            | none ↦ raised key_error
            | some m ↦
                visit_each
                  (is_selected include_optional selected)
                  step
                  (names_of (dependencies_of include_optional m))
                  order
                >>= λ all. returned (all ++ name ∷ [])
          ])
      chosen none is_there rest = absurd (is_there refl)
      chosen (some m) is_there rest =
          >>=-Avoids key_error
            (visit_each (is_selected include_optional selected) step
              (names_of (dependencies_of include_optional m)) order)
            _
            (visit_each-Avoids key_error (is_selected include_optional selected) step
              (names_of (dependencies_of include_optional m)) order
              (λ n l _ counted. rest n l (selected_there (Dict.get n selected) counted)))
            (λ all. returned-Avoids key_error (all ++ name ∷ []))

  dependency_order-present : Avoids key_error (dependency_order include_optional selected)
  unfolding dependency_order
  dependency_order-present =
      let fuel = suc (length (keys selected)) in
      visit_each-Avoids key_error (λ name. true) (visit include_optional selected fuel [])
        (stable_sort string_less (keys selected)) []
        (λ n l there _.
          visit-present fuel [] n l
            (key-present n selected ((In-sort string_less n (keys selected)).0 there)))

solution-present :
    (selected : Selected) (o : Outcome PackageError (List String))
    → Avoids key_error o
    → Avoids key_error (solution selected o)
solution-present selected (returned order) h = returned-Avoids key_error (some (selected, order))
solution-present selected (raised resolution_error) h = returned-Avoids key_error none
solution-present selected (raised manifest_error) h =
    raised-Avoids key_error manifest_error (λ e. cc)
solution-present selected (raised key_error) h = absurd (h refl)
solution-present selected (raised exhausted) h = raised-Avoids key_error exhausted (λ e. cc)

solution-ordered :
    (selected : Selected) (o : Outcome PackageError (List String))
    → Avoids resolution_error (solution selected o)
solution-ordered selected (returned order) =
    returned-Avoids resolution_error (some (selected, order))
solution-ordered selected (raised resolution_error) = returned-Avoids resolution_error none
solution-ordered selected (raised manifest_error) =
    raised-Avoids resolution_error manifest_error (λ e. cc)
solution-ordered selected (raised key_error) = raised-Avoids resolution_error key_error (λ e. cc)
solution-ordered selected (raised exhausted) = raised-Avoids resolution_error exhausted (λ e. cc)

module _ (parse_version : String → Option Version)
    (clauses_of : String → List (Option (Operator × String))) (catalog : PackageCatalog)
    (os_name arch : String) (include_optional : Bool) where
  module _ (e : PackageError) (other_error : ◌≢◌ {A = PackageError} manifest_error e)
      (other_end : ◌≢◌ {A = PackageError} exhausted e)
      (ends : (selected : Selected)
        → Avoids e (solution selected (dependency_order include_optional selected))) where
    search-Avoids :
        (fuel : ℕ) (selected : Selected) (constraints : Constraints)
        → Avoids e (
            search parse_version clauses_of catalog os_name arch include_optional fuel selected
              constraints)
    unfolding search
    search-Avoids zero selected constraints = raised-Avoids e exhausted other_end
    search-Avoids (suc fuel) selected constraints =
        >>=-Avoids e
          (is_consistent parse_version clauses_of selected constraints
            (stable_sort string_less (keys selected)))
          _
          (is_consistent-Avoids parse_version clauses_of e other_error selected constraints
            (stable_sort string_less (keys selected))
            (λ n there missing.
              absurd
                (key-present n selected ((In-sort string_less n (keys selected)).0 there) missing)))
          (λ b.
            if-Avoids e b _ _ (branch (unresolved selected constraints) (search-Avoids fuel))
              (returned-Avoids e none))
      where
        after : String → Manifest → Outcome PackageError (Option Solution)
        after name m =
            search parse_version clauses_of catalog os_name arch include_optional fuel
              (Dict.put name m selected)
              (require_all (dependencies_of include_optional m) constraints)

        branch :
            (u : List String)
            → ((s : Selected) (cs : Constraints)
                → Avoids e (
                    search parse_version clauses_of catalog os_name arch include_optional fuel s
                      cs))
            → Avoids e (elim u [
              | [] ↦ solution selected (dependency_order include_optional selected)
              | name ∷ others ↦
                  candidates parse_version clauses_of catalog os_name arch include_optional name
                    constraints
                  >>= λ ms. first_found (after name) ms
            ])
        branch [] rest = ends selected
        branch (name ∷ others) rest =
            >>=-Avoids e
              (candidates parse_version clauses_of catalog os_name arch include_optional name
                constraints)
              _
              (candidates-Avoids parse_version clauses_of e other_error catalog os_name arch name
                include_optional constraints)
              (λ ms. first_found-Avoids e (after name) ms (λ m there.
                rest (Dict.put name m selected)
                  (require_all (dependencies_of include_optional m) constraints)))

  -- No name is missing in a search, and it does not raise for a cycle.
  pub search-present :
      (fuel : ℕ) (selected : Selected) (constraints : Constraints)
      → Avoids key_error (
          search parse_version clauses_of catalog os_name arch include_optional fuel selected
            constraints)
  search-present =
      search-Avoids key_error (λ h. cc) (λ h. cc)
        (λ selected.
          solution-present selected (dependency_order include_optional selected)
            (dependency_order-present include_optional selected))

  pub search-ordered :
      (fuel : ℕ) (selected : Selected) (constraints : Constraints)
      → Avoids resolution_error (
          search parse_version clauses_of catalog os_name arch include_optional fuel selected
            constraints)
  search-ordered =
      search-Avoids resolution_error (λ h. cc) (λ h. cc)
        (λ selected. solution-ordered selected (dependency_order include_optional selected))
