-- ===== src/Packages/Fuel.antt =====
-- Which errors the parts of a search raise that use no fuel
-- (src/local_agent_dispatch/packages/catalog.py).
use local_agent_dispatch.Packages.Catalog.{PackageCatalog, available}
use local_agent_dispatch.Packages.Manifest.{Manifest, supports}
use local_agent_dispatch.Packages.Order.{Selected, visit_each}
use local_agent_dispatch.Packages.Resolve.{
  Constraints, required, satisfies_all, is_consistent, matching, candidates, first_found,
}
use local_agent_dispatch.Packages.Version.{
  PackageError, manifest_error, resolution_error, key_error, exhausted, Version, Operator,
  version_tuple, compare_versions, compare_tuples, holds, all_hold, version_satisfies,
}
use local_agent_dispatch.Prelude.Dict
use local_agent_dispatch.Prelude.Keys.{◌=?◌, string_eq}
use local_agent_dispatch.Prelude.Outcome.{
  Outcome, returned, raised, ◌>>=◌, raised-injective, >>=-eq-raised, raised≢returned,
}
use local_agent_dispatch.Prelude.Sort.{filter}
use local_agent_dispatch.Prelude.{
  String, ◌≡◌, ◌≢◌, refl, sym, inl, inr, Bool, true, false, Option, none, some, List, [], ◌∷◌, In,
  subst, Bool-cases, if-true, if-false, if◌then◌else◌,
}

-- An outcome that does not raise this error.
abbrev pub Avoids : {A : Type 0} → PackageError → Outcome PackageError A → Type 0
Avoids {A = A} e o = ◌≢◌ {A = Outcome PackageError A} o (raised e)

-- An outcome other than that of a search that ran out of fuel.
abbrev pub IsFueled : {A : Type 0} → Outcome PackageError A → Type 0
IsFueled o = Avoids exhausted o

pub returned-Avoids : {A : Type 0} (e : PackageError) (a : A) → Avoids e (returned a)
returned-Avoids e a h = raised≢returned (sym h)

pub raised-Avoids :
    {A : Type 0} (e x : PackageError) → ◌≢◌ {A = PackageError} x e → Avoids {A = A} e (raised x)
raised-Avoids e x other h = other (raised-injective h)

pub manifest_error-IsFueled : {A : Type 0} → IsFueled {A = A} (raised manifest_error)
manifest_error-IsFueled h = cc

pub key_error-IsFueled : {A : Type 0} → IsFueled {A = A} (raised key_error)
key_error-IsFueled h = cc

pub resolution_error-IsFueled : {A : Type 0} → IsFueled {A = A} (raised resolution_error)
resolution_error-IsFueled h = cc

pub >>=-Avoids :
    {A B : Type 0} (e : PackageError) (m : Outcome PackageError A)
    (next : A → Outcome PackageError B)
    → Avoids e m
    → ((a : A) → Avoids e (next a))
    → Avoids e (m >>= next)
>>=-Avoids e m next first others h = elim (>>=-eq-raised m next h) [
  | inl here ↦ first here
  | inr (a, _, later) ↦ others a later
]

pub if-Avoids :
    {A : Type 0} (e : PackageError) (b : Bool) (x y : Outcome PackageError A)
    → Avoids e x
    → Avoids e y
    → Avoids e (if b then x else y)
if-Avoids e true x y hx hy = hx
if-Avoids e false x y hx hy = hy

module _ (parse_version : String → Option Version)
    (clauses_of : String → List (Option (Operator × String))) (e : PackageError)
    (other_error : ◌≢◌ {A = PackageError} manifest_error e) where
  version_tuple-Avoids : (v : String) → Avoids e (version_tuple parse_version clauses_of v)
  version_tuple-Avoids v = parsed (parse_version v)
    where
      parsed :
          (o : Option Version)
          → Avoids e (elim o [ none ↦ raised manifest_error | some w ↦ returned w ])
      parsed none = raised-Avoids e manifest_error other_error
      parsed (some w) = returned-Avoids e w

  compare_versions-Avoids :
      (v w : String) → Avoids e (compare_versions parse_version clauses_of v w)
  unfolding compare_versions
  compare_versions-Avoids v w =
      >>=-Avoids e (version_tuple parse_version clauses_of v) _ (version_tuple-Avoids v) (λ l.
        >>=-Avoids e (version_tuple parse_version clauses_of w) _ (version_tuple-Avoids w)
          (λ r. returned-Avoids e (compare_tuples l r)))

  all_hold-Avoids :
      (v : String) (clauses : List (Option (Operator × String)))
      → Avoids e (all_hold parse_version clauses_of v clauses)
  unfolding all_hold
  all_hold-Avoids v [] = returned-Avoids e true
  all_hold-Avoids v (none ∷ clauses) = raised-Avoids e manifest_error other_error
  all_hold-Avoids v (some (operator, operand) ∷ clauses) =
      >>=-Avoids e (compare_versions parse_version clauses_of v operand) _
        (compare_versions-Avoids v operand)
        (λ order.
          if-Avoids e (holds operator order (v =? operand)) _ _ (all_hold-Avoids v clauses)
            (returned-Avoids e false))

  version_satisfies-Avoids :
      (v c : String) → Avoids e (version_satisfies parse_version clauses_of v c)
  unfolding version_satisfies
  version_satisfies-Avoids v c =
      >>=-Avoids e (version_tuple parse_version clauses_of v) _ (version_tuple-Avoids v)
        (λ _. all_hold-Avoids v (clauses_of c))

  satisfies_all-Avoids :
      (v : String) (cs : List String) → Avoids e (satisfies_all parse_version clauses_of v cs)
  unfolding satisfies_all
  satisfies_all-Avoids v [] = returned-Avoids e true
  satisfies_all-Avoids v (c ∷ cs) =
      >>=-Avoids e (version_satisfies parse_version clauses_of v c) _ (version_satisfies-Avoids v c)
        (λ b. if-Avoids e b _ _ (satisfies_all-Avoids v cs) (returned-Avoids e false))

  pub is_consistent-Avoids :
      (selected : Selected) (constraints : Constraints) (names : List String)
      → ((name : String)
          → In name names
          → Dict.get name selected ≡ none
          → ◌≢◌ {A = PackageError} key_error e)
      → Avoids e (is_consistent parse_version clauses_of selected constraints names)
  unfolding is_consistent
  is_consistent-Avoids selected constraints [] absent = returned-Avoids e true
  is_consistent-Avoids selected constraints (name ∷ names) absent =
      chosen (is_consistent-Avoids selected constraints names (λ n there. absent n (inr there)))
        (Dict.get name selected) refl
    where
      rest : Outcome PackageError Bool
      rest = is_consistent parse_version clauses_of selected constraints names

      chosen :
          Avoids e rest
          → (o : Option Manifest) → Dict.get name selected ≡ o
          → Avoids e (elim o [
            | none ↦ raised key_error
            | some m ↦
                satisfies_all parse_version clauses_of m.version (required name constraints)
                >>= λ b. if b then rest else returned false
          ])
      chosen others none missing = raised-Avoids e key_error (absent name (inl refl) missing)
      chosen others (some m) there =
          >>=-Avoids e
            (satisfies_all parse_version clauses_of m.version (required name constraints)) _
            (satisfies_all-Avoids m.version (required name constraints))
            (λ b. if-Avoids e b _ _ others (returned-Avoids e false))

  matching-Avoids :
      (cs : List String) (ms : List Manifest) → Avoids e (matching parse_version clauses_of cs ms)
  unfolding matching
  matching-Avoids cs [] = returned-Avoids e []
  matching-Avoids cs (m ∷ ms) =
      >>=-Avoids e (satisfies_all parse_version clauses_of m.version cs) _
        (satisfies_all-Avoids m.version cs)
        (λ b.
          >>=-Avoids e (matching parse_version clauses_of cs ms) _ (matching-Avoids cs ms)
            (λ rest. returned-Avoids e (if b then m ∷ rest else rest)))

  pub candidates-Avoids :
      (catalog : PackageCatalog) (os_name arch name : String) (include_optional : Bool)
      (constraints : Constraints)
      → Avoids e (
          candidates parse_version clauses_of catalog os_name arch include_optional name
            constraints)
  unfolding candidates
  candidates-Avoids catalog os_name arch name include_optional constraints =
      >>=-Avoids e
        (matching parse_version clauses_of (required name constraints)
          (available parse_version clauses_of name catalog))
        _
        (matching-Avoids (required name constraints)
          (available parse_version clauses_of name catalog))
        (λ found. returned-Avoids e (filter (supports os_name arch) found))

-- A first result is found without an error where each candidate is tried without it.
pub first_found-Avoids :
    {A R : Type 0} (e : PackageError) (found : A → Outcome PackageError (Option R)) (xs : List A)
    → ((x : A) → In x xs → Avoids e (found x))
    → Avoids e (first_found found xs)
unfolding first_found
first_found-Avoids e found [] h = returned-Avoids e none
first_found-Avoids {R = R} e found (x ∷ xs) h =
    >>=-Avoids e (found x) _ (h x (inl refl))
      (λ o. chosen (first_found-Avoids e found xs (λ y there. h y (inr there))) o)
  where
    chosen :
        Avoids e (first_found found xs)
        → (o : Option R)
        → Avoids e (elim o [ none ↦ first_found found xs | some r ↦ returned (some r) ])
    chosen others none = others
    chosen others (some r) = returned-Avoids e (some r)

pub visit_each-Avoids :
    (e : PackageError) (counts : String → Bool)
    (step : String → List String → Outcome PackageError (List String))
    → (names order : List String)
    → ((name : String) (o : List String)
        → In name names
        → counts name ≡ true
        → Avoids e (step name o))
    → Avoids e (visit_each counts step names order)
unfolding visit_each
visit_each-Avoids e counts step [] order h = returned-Avoids e order
visit_each-Avoids e counts step (name ∷ names) order h = elim (Bool-cases (counts name)) [
  | inl counted ↦ subst (Avoids e) (sym (if-true (counts name) _ _ counted)) (
      >>=-Avoids e (step name order) _ (h name order (inl refl) counted)
        (λ after. visit_each-Avoids e counts step names after (λ n o there. h n o (inr there))))
  | inr skipped ↦
      subst (Avoids e) (sym (if-false (counts name) _ _ skipped))
        (visit_each-Avoids e counts step names order (λ n o there. h n o (inr there)))
]
