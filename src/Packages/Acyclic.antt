-- ===== src/Packages/Acyclic.antt =====
-- `_dependency_order` of src/local_agent_dispatch/packages/catalog.py on a selection without cycles.
use local_agent_dispatch.Packages.Fuel.{
  Avoids, returned-Avoids, >>=-Avoids, if-Avoids, visit_each-Avoids,
}
use local_agent_dispatch.Packages.Manifest.{Dependency, Manifest}
use local_agent_dispatch.Packages.Order.{
  Selected, dependencies_of, visit_each, names_of, is_selected, visit, dependency_order,
}
use local_agent_dispatch.Packages.Version.{PackageError, resolution_error, key_error}
use local_agent_dispatch.Packages.Visits.{is_in-append}
use local_agent_dispatch.Prelude.Dict
use local_agent_dispatch.Prelude.Dict.{Dict, keys}
use local_agent_dispatch.Prelude.Keys.{◌=?◌, string_eq, string_less, is_in}
use local_agent_dispatch.Prelude.Outcome.{Outcome, returned, raised, ◌>>=◌}
use local_agent_dispatch.Prelude.Sort.{stable_sort}
use local_agent_dispatch.Prelude.{
  ℕ, zero, suc, ◌<◌, String, ◌≡◌, refl, sym, subst, inl, inr, Bool, true, Option, none, some, List,
  [], ◌∷◌, ◌++◌, In, length, arith, Bool-cases, if-false, true≢false,
}

In-names_of-dependency :
    (name : String) (ds : List Dependency)
    → In name (names_of ds)
    → (d : Dependency) × In d ds × (d.name ≡ name)
In-names_of-dependency name [] h = absurd h
In-names_of-dependency name (e ∷ ds) (inl here) = (e, inl refl, sym here)
In-names_of-dependency name (e ∷ ds) (inr there) =
    let (d, later, same) = In-names_of-dependency name ds there in (d, inr later, same)

-- What a package depends on is of lower rank.
abbrev pub IsRanked : Bool → Selected → (String → ℕ) → Type 0
IsRanked include_optional selected rank =
    (name : String) (m : Manifest)
    → Dict.get name selected ≡ some m
    → (d : Dependency) → In d (dependencies_of include_optional m)
    → rank d.name < rank name

module _ (include_optional : Bool) (selected : Selected) (rank : String → ℕ)
    (ranked : IsRanked include_optional selected rank) where
  -- Every open visit is on a name of a higher rank.
  abbrev IsBelow : String → List String → Type 0
  IsBelow name visiting = (v : String) → is_in v visiting ≡ true → rank name < rank v

  visit-acyclic :
      (fuel : ℕ) (visiting : List String) (name : String) (order : List String)
      → IsBelow name visiting
      → Avoids resolution_error (visit include_optional selected fuel visiting name order)
  unfolding visit
  visit-acyclic zero visiting name order below = λ h. cc
  visit-acyclic (suc fuel) visiting name order below =
      if-Avoids resolution_error (is_in name order) _ _ (returned-Avoids resolution_error order)
        (elim (Bool-cases (is_in name visiting)) [
          | inl open_visit ↦ absurd (omega (arith, below name open_visit))
          | inr fresh ↦
              subst (Avoids resolution_error) (sym (if-false (is_in name visiting) _ _ fresh))
                (chosen (Dict.get name selected) refl (visit-acyclic fuel (visiting ++ name ∷ [])))
        ])
    where
      step : String → List String → Outcome PackageError (List String)
      step = visit include_optional selected fuel (visiting ++ name ∷ [])

      chosen :
          (o : Option Manifest)
          → Dict.get name selected ≡ o
          → ((n : String) (l : List String)
              → IsBelow n (visiting ++ name ∷ [])
              → Avoids resolution_error (step n l))
          → Avoids resolution_error (elim o [
            | none ↦ raised key_error
            | some m ↦
                visit_each
                  (is_selected include_optional selected)
                  step
                  (names_of (dependencies_of include_optional m))
                  order
                >>= λ all. returned (all ++ name ∷ [])
          ])
      chosen none found rest = λ h. cc
      chosen (some m) found rest =
          >>=-Avoids resolution_error
            (visit_each (is_selected include_optional selected) step
              (names_of (dependencies_of include_optional m)) order)
            _
            (visit_each-Avoids resolution_error (is_selected include_optional selected) step
              (names_of (dependencies_of include_optional m)) order
              (λ n l there _.
                let (d, in_deps, is_n) =
                  In-names_of-dependency n (dependencies_of include_optional m) there in
                let lower = subst (λ x. rank x < rank name) is_n (ranked name m found d in_deps) in
                rest n l (λ v open_visit. elim (Bool-cases (is_in v visiting)) [
                  | inl older ↦ omega (arith, lower, below v older)
                  | inr other ↦
                      let same : (v =? name) ≡ true =
                        ground (arith, open_visit, other, is_in-append v visiting name) in
                      subst (λ x. rank n < rank x) (sym ((string_eq.beq_iff v name).0 same)) lower
                ])))
            (λ all. returned-Avoids resolution_error (all ++ name ∷ []))

  -- A selection in which what a package depends on is of lower rank has an order, or is refused for
  -- another reason than a cycle.
  pub dependency_order-acyclic :
      Avoids resolution_error (dependency_order include_optional selected)
  unfolding dependency_order
  dependency_order-acyclic =
      let fuel = suc (length (keys selected)) in
      visit_each-Avoids resolution_error (λ name. true) (visit include_optional selected fuel [])
        (stable_sort string_less (keys selected)) []
        (λ n l _ _. visit-acyclic fuel [] n l (λ v h. absurd (true≢false (sym h))))
