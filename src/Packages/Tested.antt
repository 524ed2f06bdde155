-- ===== src/Packages/Tested.antt =====
-- The tests of versions against constraints, and the candidates of a name, where they passed
-- (src/local_agent_dispatch/packages/catalog.py).
use local_agent_dispatch.Packages.Catalog.{PackageCatalog, available}
use local_agent_dispatch.Packages.Manifest.{Manifest, supports}
use local_agent_dispatch.Packages.Order.{Selected}
use local_agent_dispatch.Packages.Resolve.{
  Constraints, required, satisfies_all, is_consistent, matching, candidates, first_found,
}
use local_agent_dispatch.Packages.Version.{
  PackageError, key_error, Version, Operator, version_satisfies,
}
use local_agent_dispatch.Prelude.Dict
use local_agent_dispatch.Prelude.Dict.{Dict, keys, get-put}
use local_agent_dispatch.Prelude.Keys.{string_eq}
use local_agent_dispatch.Prelude.Outcome.{
  Outcome, returned, raised, ◌>>=◌, >>=-eq-returned, returned-injective,
}
use local_agent_dispatch.Prelude.Sort.{In-filter}
use local_agent_dispatch.Prelude.{
  String, ◌≡◌, refl, sym, ap, ◌∙◌, subst, ◌⊎◌, inl, inr, Bool, true, false, Option, none, some,
  List, [], ◌∷◌, In, if◌then◌else◌, some-injective, true≢false,
}

module _ (parse_version : String → Option Version)
    (clauses_of : String → List (Option (Operator × String))) where
  -- The version is one that the constraint admits.
  abbrev pub Satisfies : String → String → Type 0
  Satisfies version c = version_satisfies parse_version clauses_of version c ≡ returned true

  if-returned_true :
      (b : Bool) (rest : Outcome PackageError Bool)
      → (if b then rest else returned false) ≡ returned true
      → (b ≡ true) × (rest ≡ returned true)
  if-returned_true true rest h = (refl, h)
  if-returned_true false rest h = absurd (true≢false (sym (returned-injective h)))

  pub satisfies_all-each :
      (version : String) (cs : List String)
      → satisfies_all parse_version clauses_of version cs ≡ returned true
      → (c : String) → In c cs
      → Satisfies version c
  unfolding satisfies_all
  satisfies_all-each version [] h c there = absurd there
  satisfies_all-each version (d ∷ cs) h c there =
      let (b, h1, h2) =
        >>=-eq-returned (version_satisfies parse_version clauses_of version d) _ h in
      let (is_true, rest) = if-returned_true b _ h2 in
      first there (h1 ∙ ap returned is_true) (satisfies_all-each version cs rest c)
    where
      first :
          (c ≡ d) ⊎ In c cs
          → Satisfies version d
          → (In c cs → Satisfies version c)
          → Satisfies version c
      first (inl here) holds others = subst (Satisfies version) (sym here) holds
      first (inr later) holds others = others later

  pub first_found-some :
      {A R : Type 0} (found : A → Outcome PackageError (Option R)) (xs : List A) {r : R}
      → first_found found xs ≡ returned (some r)
      → (x : A) × In x xs × (found x ≡ returned (some r))
  unfolding first_found
  first_found-some found [] h = cc
  first_found-some {A = A} {R = R} found (x ∷ xs) {r = r} h =
      let (o, h1, h2) = >>=-eq-returned (found x) _ h in after o h1 h2 (first_found-some found xs)
    where
      after :
          (o : Option R)
          → found x ≡ returned o
          → (elim o [ none ↦ first_found found xs | some q ↦ returned (some q) ])
            ≡ returned (some r)
          → (first_found found xs ≡ returned (some r)
              → (y : A) × In y xs × (found y ≡ returned (some r)))
          → (y : A) × In y (x ∷ xs) × (found y ≡ returned (some r))
      after none h1 h2 rest = let (y, later, is_found) = rest h2 in (y, inr later, is_found)
      after (some q) h1 h2 rest = (x, inl refl, h1 ∙ h2)

  -- The candidates of a name are versions of the catalog for the platform.
  matching-In :
      (cs : List String) (ms found : List Manifest)
      → matching parse_version clauses_of cs ms ≡ returned found
      → (m : Manifest) → In m found
      → In m ms
  unfolding matching
  matching-In cs [] found h m there = subst (In m) (sym (returned-injective h)) there
  matching-In cs (n ∷ ms) found h m there =
      let (b, _, h2) = >>=-eq-returned (satisfies_all parse_version clauses_of n.version cs) _ h in
      let (rest, h3, h4) = >>=-eq-returned (matching parse_version clauses_of cs ms) _ h2 in
      kept b rest (subst (In m) (sym (returned-injective h4)) there) (matching-In cs ms rest h3 m)
    where
      kept :
          (b : Bool) (rest : List Manifest)
          → In m (if b then n ∷ rest else rest)
          → (In m rest → In m ms)
          → In m (n ∷ ms)
      kept true rest (inl here) later = inl here
      kept true rest (inr there) later = inr (later there)
      kept false rest there later = inr (later there)

  pub is_consistent-each :
      (selected : Selected) (constraints : Constraints) (names : List String)
      → is_consistent parse_version clauses_of selected constraints names ≡ returned true
      → (name : String) (m : Manifest) → In name names
      → Dict.get name selected ≡ some m
      → satisfies_all parse_version clauses_of m.version (required name constraints) ≡ returned true
  unfolding is_consistent
  is_consistent-each selected constraints [] h name m there found = absurd there
  is_consistent-each selected constraints (n ∷ names) h name m there found =
      tested (Dict.get n selected) refl h
        (λ rest later. is_consistent-each selected constraints names rest name m later found) there
    where
      rest : Outcome PackageError Bool
      rest = is_consistent parse_version clauses_of selected constraints names

      tested :
          (o : Option Manifest)
          → Dict.get n selected ≡ o
          → (elim o [
            | none ↦ raised key_error
            | some k ↦
                satisfies_all parse_version clauses_of k.version (required n constraints)
                >>= λ holds. if holds then rest else returned false
          ])
            ≡ returned true
          → (rest ≡ returned true
              → In name names
              → satisfies_all parse_version clauses_of m.version (required name constraints)
                ≡ returned true)
          → (name ≡ n) ⊎ In name names
          → satisfies_all parse_version clauses_of m.version (required name constraints)
            ≡ returned true
      tested none is h others there = cc
      tested (some k) is h others there =
          let holds_all = satisfies_all parse_version clauses_of in
          let (b, h1, h2) = >>=-eq-returned (holds_all k.version (required n constraints)) _ h in
          let (is_true, rest_holds) = if-returned_true b _ h2 in
          elim there [
            | inr later ↦ others rest_holds later
            | inl same ↦
                let is_m =
                  some-injective (sym is ∙ ap (λ x. Dict.get x selected) (sym same) ∙ found) in
                subst (λ x. holds_all x.version (required name constraints) ≡ returned true) is_m
                  (subst (λ y. holds_all k.version (required y constraints) ≡ returned true)
                    (sym same) (h1 ∙ ap returned is_true))
          ]

  pub candidates-In :
      (catalog : PackageCatalog) (os_name arch name : String) (include_optional : Bool)
      (constraints : Constraints) {ms : List Manifest}
      → candidates parse_version clauses_of catalog os_name arch include_optional name constraints
        ≡ returned ms
      → (m : Manifest) → In m ms
      → In m (available parse_version clauses_of name catalog) × (supports os_name arch m ≡ true)
  unfolding candidates
  candidates-In catalog os_name arch name include_optional constraints h m there =
      let offered = available parse_version clauses_of name catalog in
      let (found, h1, h2) =
        >>=-eq-returned (matching parse_version clauses_of (required name constraints) offered) _
          h in
      let (is_found, supported) =
        (In-filter (supports os_name arch) m found).0
          (subst (In m) (sym (returned-injective h2)) there) in
      (matching-In (required name constraints) offered found h1 m is_found, supported)
