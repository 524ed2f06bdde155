-- ===== src/Packages/Feasible.antt =====
-- A choice of versions that meets all constraints, beside a search of
-- src/local_agent_dispatch/packages/catalog.py.
use local_agent_dispatch.Packages.Acyclic.{IsRanked}
use local_agent_dispatch.Packages.Catalog.{PackageCatalog, available}
use local_agent_dispatch.Packages.Tested.{Satisfies}
use local_agent_dispatch.Packages.Manifest.{Dependency, Manifest, supports}
use local_agent_dispatch.Packages.Order.{Selected, dependencies_of}
use local_agent_dispatch.Packages.Requirements.{
  In-require_keys, In-required_cases, satisfies_all-met, matching-met,
}
use local_agent_dispatch.Packages.Resolve.{
  Constraints, required, require_all, satisfies_all, is_consistent, matching, candidates,
}
use local_agent_dispatch.Packages.Sound.{IsMet, IsOffered}
use local_agent_dispatch.Packages.Version.{PackageError, key_error, Version, Operator}
use local_agent_dispatch.Prelude.Dict
use local_agent_dispatch.Prelude.Dict.{Dict, keys, get-put}
use local_agent_dispatch.Prelude.Keys.{◌=?◌, string_eq}
use local_agent_dispatch.Prelude.Outcome.{
  Outcome, returned, raised, ◌>>=◌, >>=-eq-returned, returned-injective, raised≢returned,
}
use local_agent_dispatch.Prelude.Sort.{In-filter}
use local_agent_dispatch.Prelude.{
  ℕ, String, ◌≡◌, ◌≢◌, refl, sym, ap, ◌∙◌, subst, inl, inr, Bool, true, false, Option, none, some,
  List, [], ◌∷◌, In, arith, Bool-cases, if◌then◌else◌, some-injective, true≢false,
}

module _ (parse_version : String → Option Version)
    (clauses_of : String → List (Option (Operator × String))) (catalog : PackageCatalog)
    (os_name arch : String) (include_optional : Bool) where
  -- A choice of versions of the catalog for the platform, which has what its packages depend on, where
  -- what a package depends on is of lower rank.
  pub record IsClosed (chosen : Selected) (rank : String → ℕ) : Type 0 where
    pub offered :
        (name : String) (m : Manifest)
        → Dict.get name chosen ≡ some m
        → IsOffered parse_version clauses_of catalog os_name arch include_optional name m
    pub closed :
        (name : String) (m : Manifest)
        → Dict.get name chosen ≡ some m
        → (d : Dependency) → In d (dependencies_of include_optional m)
        → IsMet parse_version clauses_of catalog os_name arch include_optional chosen d.name
            d.constraint
    pub ranked : IsRanked include_optional chosen rank

  module _ (chosen : Selected) (rank : String → ℕ) (is_closed : IsClosed chosen rank) where
    abbrev pub Met : String → String → Type 0
    Met = IsMet parse_version clauses_of catalog os_name arch include_optional chosen

    -- The selection is a part of the choice.
    abbrev pub IsPart : Selected → Type 0
    IsPart selected =
        (name : String) (m : Manifest)
        → Dict.get name selected ≡ some m
        → Dict.get name chosen ≡ some m

    -- The choice has every name that is constrained, and meets the constraints.
    pub record IsMetBy (constraints : Constraints) : Type 0 where
      pub named :
          (name : String)
          → In name (keys constraints)
          → (m : Manifest) × (Dict.get name chosen ≡ some m)
      pub met : (name c : String) → In c (required name constraints) → Met name c

    met-satisfies_all :
        (constraints : Constraints) (name : String) (m : Manifest)
        → IsMetBy constraints
        → Dict.get name chosen ≡ some m
        → satisfies_all parse_version clauses_of m.version (required name constraints)
          ≡ returned true
    met-satisfies_all constraints name m h found =
        satisfies_all-met parse_version clauses_of m.version (required name constraints) (λ c there.
          let (k, is_k, holds) = h.met name c there in
          subst (λ x. Satisfies parse_version clauses_of x.version c)
            (some-injective (sym is_k ∙ found)) holds)

    pub part-consistent :
        (selected : Selected) (constraints : Constraints) (names : List String)
        → IsPart selected
        → IsMetBy constraints
        → is_consistent parse_version clauses_of selected constraints names ≢ returned false
    unfolding is_consistent
    part-consistent selected constraints [] part h e = true≢false (returned-injective e)
    part-consistent selected constraints (name ∷ names) part h e =
        tested (Dict.get name selected) refl e (part-consistent selected constraints names part h)
      where
        rest : Outcome PackageError Bool
        rest = is_consistent parse_version clauses_of selected constraints names

        tested :
            (o : Option Manifest)
            → Dict.get name selected ≡ o
            → (elim o [
              | none ↦ raised key_error
              | some m ↦
                  satisfies_all parse_version clauses_of m.version (required name constraints)
                  >>= λ holds. if holds then rest else returned false
            ])
              ≡ returned false
            → rest ≢ returned false
            → ⊥
        tested none is e others = raised≢returned e
        tested (some m) is e others =
            let holds = met-satisfies_all constraints name m h (part name m is) in
            others (sym (ap (λ o. o >>= λ b. if b then rest else returned false) holds) ∙ e)

    pub chosen-IsPart :
        (selected : Selected) (name : String) (m : Manifest)
        → IsPart selected
        → Dict.get name chosen ≡ some m
        → IsPart (Dict.put name m selected)
    chosen-IsPart selected name m part found n k is = elim (Bool-cases (name =? n)) [
      | inl same ↦
          let is_k : m ≡ k = ground (arith, same, is, get-put name n m selected) in
          ap (λ x. Dict.get x chosen) (sym ((string_eq.beq_iff name n).0 same))
          ∙ found
          ∙ ap (λ x. some x) is_k
      | inr other ↦ part n k (ground (arith, other, is, get-put name n m selected))
    ]

    pub required-IsMetBy :
        (ds : List Dependency) (constraints : Constraints)
        → IsMetBy constraints
        → ((d : Dependency) → In d ds → Met d.name d.constraint)
        → IsMetBy (require_all ds constraints)
    required-IsMetBy ds constraints h needs = record {
      named = λ name there. elim (In-require_keys name ds constraints there) [
        | inl before ↦ h.named name before
        | inr (d, in_ds, same) ↦
            let (m, found, _) = needs d in_ds in (m, ap (λ x. Dict.get x chosen) same ∙ found)
      ];
      met = λ name c there. elim (In-required_cases name c ds constraints there) [
        | inl before ↦ h.met name c before
        | inr (d, in_ds, same, is) ↦
            subst (λ n. Met n c) (sym same) (subst (Met d.name) (sym is) (needs d in_ds))
      ];
    }

    pub candidate-there :
        (constraints : Constraints) (name : String) (m : Manifest) (ms : List Manifest)
        → IsMetBy constraints
        → Dict.get name chosen ≡ some m
        → candidates parse_version clauses_of catalog os_name arch include_optional name constraints
          ≡ returned ms
        → In m ms
    unfolding candidates
    candidate-there constraints name m ms h found e =
        let offered = available parse_version clauses_of name catalog in
        let (all, h1, h2) =
          >>=-eq-returned (matching parse_version clauses_of (required name constraints) offered) _
            e in
        let (is_offered, supported) = is_closed.offered name m found in
        let matches =
          matching-met parse_version clauses_of (required name constraints) offered all m h1
            is_offered (met-satisfies_all constraints name m h found) in
        subst (In m) (returned-injective h2)
          ((In-filter (supports os_name arch) m all).1 (matches, supported))
