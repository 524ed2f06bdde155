-- ===== src/Packages/Complete.antt =====
-- The search of src/local_agent_dispatch/packages/catalog.py where a solution is there to be found.
use local_agent_dispatch.Packages.Acyclic.{dependency_order-acyclic}
use local_agent_dispatch.Packages.Catalog.{PackageCatalog}
use local_agent_dispatch.Packages.Feasible.{
  IsClosed, IsPart, IsMetBy, part-consistent, chosen-IsPart, required-IsMetBy, candidate-there,
}
use local_agent_dispatch.Packages.Manifest.{Dependency, Manifest}
use local_agent_dispatch.Packages.Order.{Selected, dependencies_of, is_selected, dependency_order}
use local_agent_dispatch.Packages.Requirements.{first_found-none}
use local_agent_dispatch.Packages.Resolve.{
  Constraints, require_all, unresolved, is_consistent, candidates, first_found, Solution, solution,
  root_less, search,
}
use local_agent_dispatch.Packages.Fuel.{Avoids}
use local_agent_dispatch.Packages.Quiet.{search-present, search-ordered}
use local_agent_dispatch.Packages.Sound.{IsMet}
use local_agent_dispatch.Packages.Terminates.{search-IsFueled}
use local_agent_dispatch.Packages.Version.{
  PackageError, manifest_error, resolution_error, key_error, exhausted, Version, Operator,
}
use local_agent_dispatch.Prelude.Dict
use local_agent_dispatch.Prelude.Dict.{Dict, keys, get-put}
use local_agent_dispatch.Prelude.Keys.{string_eq, string_less}
use local_agent_dispatch.Prelude.Outcome.{
  Outcome, returned, raised, ◌>>=◌, >>=-eq-returned, returned-injective, raised≢returned,
}
use local_agent_dispatch.Prelude.Sort.{stable_sort, In-sort, filter, In-filter, length-filter_all}
use local_agent_dispatch.Prelude.{
  ℕ, zero, suc, String, ◌≡◌, ◌≢◌, refl, sym, subst, ◌⊎◌, inl, inr, Bool, true, false, not, Option,
  none, some, List, [], ◌∷◌, In, length, arith, if◌then◌else◌, none≢some,
}

solution-none :
    (selected : Selected) (o : Outcome PackageError (List String))
    → solution selected o ≡ returned none
    → o ≡ raised resolution_error
solution-none selected (returned order) h = absurd (none≢some (sym (returned-injective h)))
solution-none selected (raised resolution_error) h = refl
solution-none selected (raised manifest_error) h = absurd (raised≢returned h)
solution-none selected (raised key_error) h = absurd (raised≢returned h)
solution-none selected (raised exhausted) h = absurd (raised≢returned h)

module _ (parse_version : String → Option Version)
    (clauses_of : String → List (Option (Operator × String))) (catalog : PackageCatalog)
    (os_name arch : String) (include_optional : Bool) where
  module _ (chosen : Selected) (rank : String → ℕ)
      (is_closed : IsClosed parse_version clauses_of catalog os_name arch include_optional chosen
        rank) where
    abbrev IsPartOf : Selected → Type 0
    IsPartOf =
        IsPart parse_version clauses_of catalog os_name arch include_optional chosen rank is_closed

    abbrev IsMetIn : Constraints → Type 0
    IsMetIn =
        IsMetBy parse_version clauses_of catalog os_name arch include_optional chosen rank is_closed

    search_complete :
        (fuel : ℕ) (selected : Selected) (constraints : Constraints)
        → IsPartOf selected
        → IsMetIn constraints
        → search parse_version clauses_of catalog os_name arch include_optional fuel selected
            constraints
          ≢ returned none
    unfolding search
    search_complete zero selected constraints part h e = raised≢returned e
    search_complete (suc fuel) selected constraints part h e =
        let (b, h1, h2) =
          >>=-eq-returned
            (is_consistent parse_version clauses_of selected constraints
              (stable_sort string_less (keys selected)))
            _ e in
        tested b h1 h2 (search_complete fuel)
      where
        after : String → Manifest → Outcome PackageError (Option Solution)
        after name m =
            search parse_version clauses_of catalog os_name arch include_optional fuel
              (Dict.put name m selected)
              (require_all (dependencies_of include_optional m) constraints)

        branch : List String → Outcome PackageError (Option Solution)
        branch u = elim u [
          | [] ↦ solution selected (dependency_order include_optional selected)
          | name ∷ others ↦
              candidates parse_version clauses_of catalog os_name arch include_optional name
                constraints
              >>= λ ms. first_found (after name) ms
        ]

        Rest : Type 0
        Rest =
            (s : Selected) (cs : Constraints)
            → IsPartOf s
            → IsMetIn cs
            → search parse_version clauses_of catalog os_name arch include_optional fuel s cs
              ≢ returned none

        tried :
            (u : List String)
            → unresolved selected constraints ≡ u
            → branch u ≡ returned none
            → Rest
            → ⊥
        tried [] is none_found rest =
            dependency_order-acyclic include_optional selected rank
              (λ name m found d there. is_closed.ranked name m (part name m found) d there)
              (solution-none selected _ none_found)
        tried (name ∷ others) is none_found rest =
            let waiting = λ (n : String). not (is_selected true selected n) in
            let in_keys =
              ((In-filter waiting name (keys constraints)).0 (
                (In-sort string_less name (filter waiting (keys constraints))).0
                  (subst (In name) (sym is) (inl refl)))).0 in
            let (m, found) = h.named name in_keys in
            let (ms, h1, h2) =
              >>=-eq-returned
                (candidates parse_version clauses_of catalog os_name arch include_optional name
                  constraints)
                _ none_found in
            let no_result = first_found-none (after name) ms h2 m (
              candidate-there parse_version clauses_of catalog os_name arch include_optional chosen
                rank is_closed constraints name m ms h found h1) in
            rest (Dict.put name m selected)
              (require_all (dependencies_of include_optional m) constraints)
              (chosen-IsPart parse_version clauses_of catalog os_name arch include_optional chosen
                rank is_closed selected name m part found)
              (required-IsMetBy parse_version clauses_of catalog os_name arch include_optional
                chosen rank is_closed (dependencies_of include_optional m) constraints h
                (λ d there. is_closed.closed name m found d there))
              no_result

        tested :
            (b : Bool)
            → is_consistent parse_version clauses_of selected constraints
                (stable_sort string_less (keys selected))
              ≡ returned b
            → (if b then branch (unresolved selected constraints) else returned none)
              ≡ returned none
            → Rest
            → ⊥
        tested false h1 h2 rest =
            part-consistent parse_version clauses_of catalog os_name arch include_optional chosen
              rank is_closed selected constraints (stable_sort string_less (keys selected)) part h
              h1
        tested true h1 h2 rest = tried (unresolved selected constraints) refl h2 rest

  -- The search that `resolve` makes.
  abbrev pub search_of : List Dependency → Outcome PackageError (Option Solution)
  search_of requirements =
      search parse_version clauses_of catalog os_name arch include_optional
        (suc (length (keys catalog))) [] (require_all (stable_sort root_less requirements) [])

  found_or_unread :
      (o : Outcome PackageError (Option Solution))
      → o ≢ returned none
      → Avoids resolution_error o
      → Avoids key_error o
      → Avoids exhausted o
      → ((found : Solution) × (o ≡ returned (some found))) ⊎ (o ≡ raised manifest_error)
  found_or_unread (returned (some found)) some_found ordered present fueled = inl (found, refl)
  found_or_unread (returned none) some_found ordered present fueled = absurd (some_found refl)
  found_or_unread (raised manifest_error) some_found ordered present fueled = inr refl
  found_or_unread (raised resolution_error) some_found ordered present fueled =
      absurd (ordered refl)
  found_or_unread (raised key_error) some_found ordered present fueled = absurd (present refl)
  found_or_unread (raised exhausted) some_found ordered present fueled = absurd (fueled refl)

  pub search-finds :
      (requirements : List Dependency) (chosen : Selected) (rank : String → ℕ)
      → IsClosed parse_version clauses_of catalog os_name arch include_optional chosen rank
      → ((r : Dependency)
          → In r requirements
          → IsMet parse_version clauses_of catalog os_name arch include_optional chosen r.name
              r.constraint)
      → ((found : Solution) × (search_of requirements ≡ returned (some found)))
        ⊎ (search_of requirements ≡ raised manifest_error)
  unfolding Dict.get
  search-finds requirements chosen rank is_closed met =
      let fuel = suc (length (keys catalog)) in
      let constraints = require_all (stable_sort root_less requirements) [] in
      let enough = length-filter_all (λ n. not (is_selected true [] n)) (keys catalog) in
      found_or_unread (search_of requirements)
        (search_complete chosen rank is_closed fuel [] constraints
          (λ name m found. absurd (none≢some found))
          (required-IsMetBy parse_version clauses_of catalog os_name arch include_optional chosen
            rank is_closed (stable_sort root_less requirements) []
            (record { named = λ name there. absurd there; met = λ name c there. absurd there })
            (λ r there. met r ((In-sort root_less r requirements).0 there))))
        (search-ordered parse_version clauses_of catalog os_name arch include_optional fuel []
          constraints)
        (search-present parse_version clauses_of catalog os_name arch include_optional fuel []
          constraints)
        (search-IsFueled parse_version clauses_of catalog os_name arch include_optional fuel []
          constraints (omega (arith, enough)))
