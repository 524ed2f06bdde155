-- ===== src/Packages/Sound.antt =====
-- What a search of src/local_agent_dispatch/packages/catalog.py that found a solution has found.
use local_agent_dispatch.Packages.Catalog.{PackageCatalog, available}
use local_agent_dispatch.Packages.Constrained.{
  get-In_keys, In-require_all, In-require_each, unresolved-null,
}
use local_agent_dispatch.Packages.Tested.{
  Satisfies, satisfies_all-each, is_consistent-each, candidates-In, first_found-some,
}
use local_agent_dispatch.Packages.Manifest.{Dependency, Manifest, supports}
use local_agent_dispatch.Packages.Order.{Selected, dependencies_of, dependency_order}
use local_agent_dispatch.Packages.Resolve.{
  Constraints, required, require_all, unresolved, is_consistent, candidates, first_found, Solution,
  solution, search,
}
use local_agent_dispatch.Packages.Version.{
  PackageError, manifest_error, resolution_error, key_error, exhausted, Version, Operator,
}
use local_agent_dispatch.Prelude.Dict
use local_agent_dispatch.Prelude.Dict.{Dict, keys, get-put}
use local_agent_dispatch.Prelude.Keys.{◌=?◌, string_eq, string_less}
use local_agent_dispatch.Prelude.Outcome.{
  Outcome, returned, raised, ◌>>=◌, >>=-eq-returned, returned-injective,
}
use local_agent_dispatch.Prelude.Sort.{stable_sort, In-sort}
use local_agent_dispatch.Prelude.{
  ℕ, zero, suc, String, ◌≡◌, refl, sym, ap, ◌∙◌, subst, inl, inr, Bool, true, false, Option, none,
  some, List, [], ◌∷◌, In, arith, Bool-cases, if◌then◌else◌, some-injective, none≢some,
}

module _ (parse_version : String → Option Version)
    (clauses_of : String → List (Option (Operator × String))) (catalog : PackageCatalog)
    (os_name arch : String) (include_optional : Bool) where
  -- A version was chosen that the constraint admits.
  abbrev pub IsMet : Selected → String → String → Type 0
  IsMet selected name c =
      (m : Manifest) × (Dict.get name selected ≡ some m)
      × Satisfies parse_version clauses_of m.version c

  -- A version of the catalog for the platform.
  abbrev pub IsOffered : String → Manifest → Type 0
  IsOffered name m =
      In m (available parse_version clauses_of name catalog) × (supports os_name arch m ≡ true)

  -- What was chosen on the way is offered, and what it depends on is required.
  abbrev pub IsGathered : Selected → Constraints → Type 0
  IsGathered selected constraints =
      (name : String) (m : Manifest)
      → Dict.get name selected ≡ some m
      → IsOffered name m
        × ((d : Dependency)
            → In d (dependencies_of include_optional m)
            → In d.constraint (required d.name constraints))

  -- What was chosen in the end is offered, and what it depends on is chosen.
  pub record IsSolution (constraints : Constraints) (found : Solution) : Type 0 where
    pub met : (name c : String) → In c (required name constraints) → IsMet found.0 name c
    pub offered : (name : String) (m : Manifest) → Dict.get name found.0 ≡ some m → IsOffered name m
    pub closed :
        (name : String) (m : Manifest)
        → Dict.get name found.0 ≡ some m
        → (d : Dependency) → In d (dependencies_of include_optional m)
        → IsMet found.0 d.name d.constraint
    pub ordered : dependency_order include_optional found.0 ≡ returned found.1

  solution-some :
      (selected : Selected) (o : Outcome PackageError (List String)) {found : Solution}
      → solution selected o ≡ returned (some found)
      → (order : List String) × ((selected, order) ≡ found) × (o ≡ returned order)
  solution-some selected (returned order) h = (order, some-injective (returned-injective h), refl)
  solution-some selected (raised resolution_error) h = absurd (none≢some (returned-injective h))
  solution-some selected (raised manifest_error) h = cc
  solution-some selected (raised key_error) h = cc
  solution-some selected (raised exhausted) h = cc

  chosen-IsGathered :
      (name : String) (m : Manifest) (selected : Selected) (constraints : Constraints)
      → IsGathered selected constraints
      → IsOffered name m
      → IsGathered
          (Dict.put name m selected)
          (require_all (dependencies_of include_optional m) constraints)
  chosen-IsGathered name m selected constraints h offered n k found =
      elim (Bool-cases (name =? n)) [
        | inl same ↦
            let is_k : m ≡ k = ground (arith, same, found, get-put name n m selected) in
            (
              subst (λ x. IsOffered x k) ((string_eq.beq_iff name n).0 same)
                  (subst (IsOffered name) is_k offered),
              λ d there.
                  In-require_each d (dependencies_of include_optional m) constraints
                    (subst (λ x. In d (dependencies_of include_optional x)) (sym is_k) there),
            )
        | inr other ↦
            let (was_offered, needs) =
              h n k (ground (arith, other, found, get-put name n m selected)) in
            (
              was_offered,
              λ d there.
                  In-require_all d.name d.constraint (dependencies_of include_optional m)
                    constraints (needs d there),
            )
      ]

  -- A selection that meets its constraints, of which no name is unresolved.
  resolved-IsSolution :
      (selected : Selected) (constraints : Constraints) (order : List String)
      → IsGathered selected constraints
      → is_consistent parse_version clauses_of selected constraints
          (stable_sort string_less (keys selected))
        ≡ returned true
      → unresolved selected constraints ≡ []
      → dependency_order include_optional selected ≡ returned order
      → IsSolution constraints (selected, order)
  resolved-IsSolution selected constraints order gathered consistent none_left in_order = record {
    met = is_met;
    offered = λ name m found. (gathered name m found).0;
    closed = λ name m found d there. is_met d.name d.constraint ((gathered name m found).1 d there);
    ordered = in_order;
  }
    where
      is_met : (name c : String) → In c (required name constraints) → IsMet selected name c
      is_met name c there =
          let (m, found) = unresolved-null selected constraints name c none_left there in
          let named =
            (In-sort string_less name (keys selected)).1 (get-In_keys name selected found) in
          let holds_all =
            is_consistent-each parse_version clauses_of selected constraints
              (stable_sort string_less (keys selected)) consistent name m named found in
          (
            m,
            found,
            satisfies_all-each parse_version clauses_of m.version (required name constraints)
                holds_all c there,
          )

  if-returned_some :
      (b : Bool) (o : Outcome PackageError (Option Solution)) {found : Solution}
      → (if b then o else returned none) ≡ returned (some found)
      → (b ≡ true) × (o ≡ returned (some found))
  if-returned_some true o h = (refl, h)
  if-returned_some false o h = absurd (none≢some (returned-injective h))

  pub search-IsSolution :
      (fuel : ℕ) (selected : Selected) (constraints : Constraints) {found : Solution}
      → search parse_version clauses_of catalog os_name arch include_optional fuel selected
          constraints
        ≡ returned (some found)
      → IsGathered selected constraints
      → IsSolution constraints found
  unfolding search
  search-IsSolution zero selected constraints h gathered = cc
  search-IsSolution (suc fuel) selected constraints {found} h gathered =
      let (b, h1, h2) =
        >>=-eq-returned
          (is_consistent parse_version clauses_of selected constraints
            (stable_sort string_less (keys selected)))
          _ h in
      let (is_true, h3) = if-returned_some b _ h2 in
      branch (unresolved selected constraints) refl h3 (h1 ∙ ap returned is_true)
        (λ s cs. search-IsSolution fuel s cs {found = found})
    where
      Rest : Type 0
      Rest =
          (s : Selected) (cs : Constraints)
          → search parse_version clauses_of catalog os_name arch include_optional fuel s cs
            ≡ returned (some found)
          → IsGathered s cs
          → IsSolution cs found

      after : String → Manifest → Outcome PackageError (Option Solution)
      after name m =
          search parse_version clauses_of catalog os_name arch include_optional fuel
            (Dict.put name m selected)
            (require_all (dependencies_of include_optional m) constraints)

      branch :
          (u : List String)
          → unresolved selected constraints ≡ u
          → (elim u [
            | [] ↦ solution selected (dependency_order include_optional selected)
            | name ∷ others ↦
                candidates parse_version clauses_of catalog os_name arch include_optional name
                  constraints
                >>= λ ms. first_found (after name) ms
          ])
            ≡ returned (some found)
          → is_consistent parse_version clauses_of selected constraints
              (stable_sort string_less (keys selected))
            ≡ returned true
          → Rest
          → IsSolution constraints found
      branch [] none_left h consistent rest =
          let (order, is_found, in_order) = solution-some selected _ h in
          subst (IsSolution constraints) is_found
            (resolved-IsSolution selected constraints order gathered consistent none_left in_order)
      branch (name ∷ others) some_left h consistent rest =
          let (ms, h1, h2) =
            >>=-eq-returned
              (candidates parse_version clauses_of catalog os_name arch include_optional name
                constraints)
              _ h in
          let (m, there, h3) = first_found-some parse_version clauses_of (after name) ms h2 in
          let offered =
            candidates-In parse_version clauses_of catalog os_name arch name include_optional
              constraints h1 m there in
          let sub =
            rest (Dict.put name m selected)
              (require_all (dependencies_of include_optional m) constraints) h3
              (chosen-IsGathered name m selected constraints gathered offered) in
          record {
            met = λ n c there.
                sub.met n c
                  (In-require_all n c (dependencies_of include_optional m) constraints there);
            offered = sub.offered;
            closed = sub.closed;
            ordered = sub.ordered;
          }
