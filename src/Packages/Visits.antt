-- ===== src/Packages/Visits.antt =====
-- The fuel that `_dependency_order` of src/local_agent_dispatch/packages/catalog.py is given is enough.
use local_agent_dispatch.Packages.Constrained.{get-In_keys}
use local_agent_dispatch.Packages.Fuel.{
  IsFueled, returned-Avoids, key_error-IsFueled, resolution_error-IsFueled, >>=-Avoids, if-Avoids,
  visit_each-Avoids,
}
use local_agent_dispatch.Packages.Manifest.{Manifest}
use local_agent_dispatch.Packages.Order.{
  Selected, dependencies_of, visit_each, names_of, is_selected, visit, dependency_order,
}
use local_agent_dispatch.Packages.Version.{PackageError, key_error, exhausted}
use local_agent_dispatch.Prelude.Dict
use local_agent_dispatch.Prelude.Dict.{Dict, keys, values, get-put, get-put_self}
use local_agent_dispatch.Prelude.Keys.{◌=?◌, string_eq, string_less, is_in, =?_refl}
use local_agent_dispatch.Prelude.Outcome.{Outcome, returned, raised, ◌>>=◌}
use local_agent_dispatch.Prelude.Sort.{stable_sort, filter, length-filter_lt, length-filter_all}
use local_agent_dispatch.Prelude.{
  ℕ, zero, suc, ◌<◌, String, ◌≡◌, refl, sym, subst, inl, inr, Bool, true, false, not, ◌||◌, Option,
  none, some, List, [], ◌∷◌, ◌++◌, length, arith, Bool-cases, if-true, if-false,
}

pub is_in-append :
    (s : String) (xs : List String) (y : String) → is_in s (xs ++ y ∷ []) ≡ (is_in s xs || s =? y)
is_in-append s [] y = ground arith
is_in-append s (x ∷ xs) y = ground (arith, is_in-append s xs y)

module _ (include_optional : Bool) (selected : Selected) where
  -- The selected names that no visit is open on.
  abbrev unvisited : List String → ℕ
  unvisited visiting = length (filter (λ n. not (is_in n visiting)) (keys selected))

  unvisited-falls :
      (visiting : List String) (name : String) (m : Manifest)
      → Dict.get name selected ≡ some m
      → is_in name visiting ≡ false
      → unvisited (visiting ++ name ∷ []) < unvisited visiting
  unvisited-falls visiting name m found fresh =
      length-filter_lt (λ n. not (is_in n visiting)) (λ n. not (is_in n (visiting ++ name ∷ [])))
        name (keys selected) (λ n h. ground (arith, h, is_in-append n visiting name))
        (get-In_keys name selected found) (ground (arith, fresh))
        (ground (arith, is_in-append name visiting name, =?_refl name))

  visit-IsFueled :
      (fuel : ℕ) (visiting : List String) (name : String) (order : List String)
      → unvisited visiting < fuel
      → IsFueled (visit include_optional selected fuel visiting name order)
  unfolding visit
  visit-IsFueled zero visiting name order enough = absurd (omega (arith, enough))
  visit-IsFueled (suc fuel) visiting name order enough =
      if-Avoids exhausted (is_in name order) _ _ (returned-Avoids exhausted order)
        (elim (Bool-cases (is_in name visiting)) [
          | inl open_visit ↦
              subst IsFueled (sym (if-true (is_in name visiting) _ _ open_visit))
                resolution_error-IsFueled
          | inr fresh ↦ subst IsFueled (sym (if-false (is_in name visiting) _ _ fresh)) (
              chosen (Dict.get name selected) refl fresh
                (visit-IsFueled fuel (visiting ++ name ∷ [])))
        ])
    where
      step : String → List String → Outcome PackageError (List String)
      step = visit include_optional selected fuel (visiting ++ name ∷ [])

      chosen :
          (o : Option Manifest)
          → Dict.get name selected ≡ o
          → is_in name visiting ≡ false
          → ((n : String) (l : List String)
              → unvisited (visiting ++ name ∷ []) < fuel
              → IsFueled (step n l))
          → IsFueled (elim o [
            | none ↦ raised key_error
            | some m ↦
                visit_each
                  (is_selected include_optional selected)
                  step
                  (names_of (dependencies_of include_optional m))
                  order
                >>= λ all. returned (all ++ name ∷ [])
          ])
      chosen none found fresh rest = key_error-IsFueled
      chosen (some m) found fresh rest =
          let fewer = unvisited-falls visiting name m found fresh in
          >>=-Avoids exhausted
            (visit_each (is_selected include_optional selected) step
              (names_of (dependencies_of include_optional m)) order)
            _
            (visit_each-Avoids exhausted (is_selected include_optional selected) step
              (names_of (dependencies_of include_optional m)) order
              (λ n l _ _. rest n l (omega (arith, enough, fewer))))
            (λ all. returned-Avoids exhausted (all ++ name ∷ []))

  pub dependency_order-IsFueled : IsFueled (dependency_order include_optional selected)
  unfolding dependency_order
  dependency_order-IsFueled =
      let fuel = suc (length (keys selected)) in
      let enough = length-filter_all (λ n. not (is_in n [])) (keys selected) in
      visit_each-Avoids exhausted (λ name. true) (visit include_optional selected fuel [])
        (stable_sort string_less (keys selected)) []
        (λ n l _ _. visit-IsFueled fuel [] n l (omega (arith, enough)))
