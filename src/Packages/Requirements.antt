-- ===== src/Packages/Requirements.antt =====
-- Where the constraints of a search come from (src/local_agent_dispatch/packages/catalog.py), and
-- the tests and candidates of versions that meet them.
use local_agent_dispatch.Packages.Constrained.{required-put}
use local_agent_dispatch.Packages.Tested.{Satisfies}
use local_agent_dispatch.Packages.Manifest.{Dependency, Manifest}
use local_agent_dispatch.Packages.Resolve.{
  Constraints, required, require, require_all, satisfies_all, matching, first_found,
}
use local_agent_dispatch.Packages.Version.{PackageError, Version, Operator}
use local_agent_dispatch.Prelude.Dict
use local_agent_dispatch.Prelude.Dict.{Dict, keys}
use local_agent_dispatch.Prelude.Keys.{◌=?◌, string_eq}
use local_agent_dispatch.Prelude.Outcome.{Outcome, returned, >>=-eq-returned, returned-injective}
use local_agent_dispatch.Prelude.{
  String, ◌≡◌, refl, sym, ap, ◌∙◌, subst, ◌⊎◌, inl, inr, Bool, true, false, Option, none, some,
  List, [], ◌∷◌, ◌++◌, In, arith, Bool-cases, if-true, if-false, if◌then◌else◌, true≢false,
  none≢some,
}

In-put_keys :
    {V : Type 0} (name k : String) (v : V) (d : Dict String V)
    → In name (keys (Dict.put k v d))
    → In name (keys d) ⊎ (name ≡ k)
unfolding Dict.put
In-put_keys name k v [] (inl here) = inr here
In-put_keys name k v [] (inr there) = absurd there
In-put_keys name k v ((j, w) ∷ d) h = elim (Bool-cases (j =? k)) [
  | inl same ↦ inl (ground (arith, h, same))
  | inr other ↦ placed (ground (arith, h, other)) (In-put_keys name k v d)
]
  where
    placed :
        (name ≡ j) ⊎ In name (keys (Dict.put k v d))
        → (In name (keys (Dict.put k v d)) → In name (keys d) ⊎ (name ≡ k))
        → In name (keys ((j, w) ∷ d)) ⊎ (name ≡ k)
    placed (inl here) rest = inl (inl here)
    placed (inr there) rest = elim (rest there) [ inl old ↦ inl (inr old) | inr new ↦ inr new ]

-- A name that is constrained was so before, or is that of a dependency.
pub In-require_keys :
    (name : String) (ds : List Dependency) (constraints : Constraints)
    → In name (keys (require_all ds constraints))
    → In name (keys constraints) ⊎ ((d : Dependency) × In d ds × (name ≡ d.name))
unfolding require_all
In-require_keys name [] constraints h = inl h
In-require_keys name (d ∷ ds) constraints h =
    elim (In-require_keys name ds (require d constraints) h) [
      | inr (e, there, same) ↦ inr (e, inr there, same)
      | inl before ↦
          elim (In-put_keys name d.name (required d.name constraints ++ d.constraint ∷ [])
            constraints before) [ inl old ↦ inl old | inr new ↦ inr (d, inl refl, new) ]
    ]

In-append_cases : {A : Type 0} (a x : A) (xs : List A) → In a (xs ++ x ∷ []) → In a xs ⊎ (a ≡ x)
In-append_cases a x [] (inl here) = inr here
In-append_cases a x [] (inr there) = absurd there
In-append_cases a x (y ∷ ys) (inl here) = inl (inl here)
In-append_cases a x (y ∷ ys) (inr there) = elim (In-append_cases a x ys there) [
  | inl old ↦ inl (inr old)
  | inr last ↦ inr last
]

-- A constraint that stands on a name was there before, or is that of a dependency.
pub In-required_cases :
    (name c : String) (ds : List Dependency) (constraints : Constraints)
    → In c (required name (require_all ds constraints))
    → In c (required name constraints)
      ⊎ ((d : Dependency) × In d ds × (name ≡ d.name) × (c ≡ d.constraint))
unfolding require_all
In-required_cases name c [] constraints h = inl h
In-required_cases name c (d ∷ ds) constraints h =
    elim (In-required_cases name c ds (require d constraints) h) [
      | inr (e, there, same, is) ↦ inr (e, inr there, same, is)
      | inl before ↦
          let extended = required d.name constraints ++ d.constraint ∷ [] in
          let put = required-put name d.name extended constraints in
          elim (Bool-cases (d.name =? name)) [
            | inr other ↦ inl (subst (In c) (put ∙ if-false (d.name =? name) _ _ other) before)
            | inl same ↦
                let is_name = sym ((string_eq.beq_iff d.name name).0 same) in
                elim (In-append_cases c d.constraint (required d.name constraints)
                  (subst (In c) (put ∙ if-true (d.name =? name) _ _ same) before)) [
                    | inl old ↦ inl (subst (λ n. In c (required n constraints)) (sym is_name) old)
                    | inr last ↦ inr (d, inl refl, is_name, last)
                  ]
          ]
    ]

module _ (parse_version : String → Option Version)
    (clauses_of : String → List (Option (Operator × String))) where
  -- A version that meets every constraint passes the test.
  pub satisfies_all-met :
      (version : String) (cs : List String)
      → ((c : String) → In c cs → Satisfies parse_version clauses_of version c)
      → satisfies_all parse_version clauses_of version cs ≡ returned true
  unfolding satisfies_all
  satisfies_all-met version [] h = refl
  satisfies_all-met version (c ∷ cs) h =
      rw (h c (inl refl)) (satisfies_all-met version cs (λ d there. h d (inr there)))

  -- A version that meets every constraint is among those that match, if the matching returns.
  pub matching-met :
      (cs : List String) (ms found : List Manifest) (m : Manifest)
      → matching parse_version clauses_of cs ms ≡ returned found
      → In m ms
      → satisfies_all parse_version clauses_of m.version cs ≡ returned true
      → In m found
  unfolding matching
  matching-met cs [] found m h there holds = absurd there
  matching-met cs (n ∷ ms) found m h there holds =
      let (b, h1, h2) = >>=-eq-returned (satisfies_all parse_version clauses_of n.version cs) _ h in
      let (rest, h3, h4) = >>=-eq-returned (matching parse_version clauses_of cs ms) _ h2 in
      subst (In m) (returned-injective h4)
        (placed b rest there h1 (λ later. matching-met cs ms rest m h3 later holds))
    where
      placed :
          (b : Bool) (rest : List Manifest)
          → (m ≡ n) ⊎ In m ms
          → satisfies_all parse_version clauses_of n.version cs ≡ returned b
          → (In m ms → In m rest)
          → In m (if b then n ∷ rest else rest)
      placed true rest (inl here) is later = inl here
      placed true rest (inr there) is later = inr (later there)
      placed false rest (inl here) is later = absurd (
          true≢false (
            returned-injective (
              sym holds ∙ ap (λ x. satisfies_all parse_version clauses_of x.version cs) here ∙ is)))
      placed false rest (inr there) is later = later there

-- If no candidate gives a result, each was tried and gave none.
pub first_found-none :
    {A R : Type 0} (found : A → Outcome PackageError (Option R)) (xs : List A)
    → first_found found xs ≡ returned none
    → (x : A) → In x xs
    → found x ≡ returned none
unfolding first_found
first_found-none found [] h x there = absurd there
first_found-none {R = R} found (y ∷ xs) h x there =
    let (o, h1, h2) = >>=-eq-returned (found y) _ h in
    tried o there h1 h2 (λ rest. first_found-none found xs rest x)
  where
    tried :
        (o : Option R)
        → (x ≡ y) ⊎ In x xs
        → found y ≡ returned o
        → (elim o [ none ↦ first_found found xs | some r ↦ returned (some r) ]) ≡ returned none
        → (first_found found xs ≡ returned none → In x xs → found x ≡ returned none)
        → found x ≡ returned none
    tried none (inl here) is h rest = ap found here ∙ is
    tried none (inr later) is h rest = rest h later
    tried (some r) there is h rest = absurd (none≢some (sym (returned-injective h)))
