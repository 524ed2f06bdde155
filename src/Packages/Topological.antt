-- ===== src/Packages/Topological.antt =====
-- The order that `_dependency_order` of src/local_agent_dispatch/packages/catalog.py returns.
use local_agent_dispatch.Packages.Manifest.{Dependency, Manifest}
use local_agent_dispatch.Packages.Order.{
  Selected, dependencies_of, visit_each, names_of, is_selected, visit, dependency_order,
}
use local_agent_dispatch.Packages.Version.{PackageError, key_error}
use local_agent_dispatch.Prelude.Dict
use local_agent_dispatch.Prelude.Dict.{Dict, keys}
use local_agent_dispatch.Prelude.Keys.{◌=?◌, string_eq, string_less, is_in}
use local_agent_dispatch.Prelude.Members.{append-split, empty-split}
use local_agent_dispatch.Prelude.Outcome.{
  Outcome, returned, raised, ◌>>=◌, >>=-eq-returned, returned-injective, raised≢returned,
}
use local_agent_dispatch.Prelude.Sort.{stable_sort, In-sort}
use local_agent_dispatch.Prelude.{
  ℕ, zero, suc, String, ◌≡◌, refl, sym, ap, ◌∙◌, subst, inl, inr, Bool, true, Option, none, some,
  List, [], ◌∷◌, ◌++◌, In, In-append_left, In-append_last, length, arith, Bool-cases,
  some-injective, true≢false, if-true, if-false,
}
use mathlib.Core.List.{append_assoc, append-nil}

is_in-In : (s : String) (xs : List String) → is_in s xs ≡ true → In s xs
is_in-In s [] h = cc
is_in-In s (x ∷ xs) h = elim (Bool-cases (s =? x)) [
  | inl here ↦ inl ((string_eq.beq_iff s x).0 here)
  | inr other ↦ inr (is_in-In s xs (ground (arith, h, other)))
]

-- The second list goes on from the first.
abbrev pub Extends : List String → List String → Type 0
Extends order after = (more : List String) × (after ≡ order ++ more)

Extends-In :
    (s : String) (order after : List String) → Extends order after → In s order → In s after
Extends-In s order after (more, e) h = subst (In s) (sym e) (In-append_left s order more h)

Extends-trans : (a b c : List String) → Extends a b → Extends b c → Extends a c
Extends-trans a b c (more, e) (rest, f) =
    (more ++ rest, f ∙ ap (λ l. l ++ rest) e ∙ append_assoc a more rest)

-- Each name stands after those that its package depends on and that are selected.
pub record IsDependencyFirst (include_optional : Bool) (selected : Selected) (order : List String)
    : Type 0 where
  pub earlier :
      (before after : List String) (name : String) (m : Manifest)
      → order ≡ before ++ name ∷ after
      → Dict.get name selected ≡ some m
      → (d : Dependency) → In d (dependencies_of include_optional m)
      → is_selected include_optional selected d.name ≡ true
      → In d.name before

In-names_of : (d : Dependency) (ds : List Dependency) → In d ds → In d.name (names_of ds)
In-names_of d [] h = absurd h
In-names_of d (e ∷ ds) (inl here) = inl (ap (λ x. x.name) here)
In-names_of d (e ∷ ds) (inr there) = inr (In-names_of d ds there)

module _ (include_optional : Bool) (selected : Selected) where
  abbrev IsFirst : List String → Type 0
  IsFirst = IsDependencyFirst include_optional selected

  -- What a visit does to the order.
  abbrev IsVisited : List String → List String → Type 0
  IsVisited order after = IsFirst after × Extends order after

  IsVisited-refl : (order : List String) → IsFirst order → IsVisited order order
  IsVisited-refl order first = (first, ([], sym (append-nil order)))

  abbrev Visits : (String → List String → Outcome PackageError (List String)) → Type 0
  Visits step =
      (name : String) (order after : List String)
      → step name order ≡ returned after
      → IsFirst order
      → IsVisited order after × In name after

  visit_each-IsVisited :
      (counts : String → Bool) (step : String → List String → Outcome PackageError (List String))
      → Visits step
      → (names order after : List String) → visit_each counts step names order ≡ returned after
      → IsFirst order
      → IsVisited order after
        × ((name : String) → In name names → counts name ≡ true → In name after)
  unfolding visit_each
  visit_each-IsVisited counts step visits [] order after h first = (
    subst (IsVisited order) (returned-injective h) (IsVisited-refl order first),
    λ name there counted. absurd there,
  )
  visit_each-IsVisited counts step visits (name ∷ names) order after h first =
      elim (Bool-cases (counts name)) [
        | inl counted ↦
            let h1 = sym (if-true (counts name) _ _ counted) ∙ h in
            let (mid, h2, h3) = >>=-eq-returned (step name order) _ h1 in
            let ((mid_first, mid_extends), here) = visits name order mid h2 first in
            let ((all_first, extends), others) =
              visit_each-IsVisited counts step visits names mid after h3 mid_first in
            (
              (all_first, Extends-trans order mid after mid_extends extends),
              λ n there is. elim there [
                | inl same ↦ Extends-In n mid after extends (subst (λ x. In x mid) (sym same) here)
                | inr later ↦ others n later is
              ],
            )
        | inr skipped ↦
            let h1 = sym (if-false (counts name) _ _ skipped) ∙ h in
            let (visited, others) =
              visit_each-IsVisited counts step visits names order after h1 first in
            (
              visited,
              λ n there is. elim there [
                | inl same ↦ absurd (true≢false (sym is ∙ ap counts same ∙ skipped))
                | inr later ↦ others n later is
              ],
            )
      ]

  -- A name may follow once all that it depends on stands before it.
  IsFirst-snoc :
      (order : List String) (name : String) (m : Manifest)
      → IsFirst order
      → Dict.get name selected ≡ some m
      → ((d : Dependency)
          → In d (dependencies_of include_optional m)
          → is_selected include_optional selected d.name ≡ true
          → In d.name order)
      → IsFirst (order ++ name ∷ [])
  IsFirst-snoc order name m first found ready = record {
    earlier = λ before after n k split is d there chosen.
        elim (append-split before after order split) [
          | inl (rest, e) ↦ first.earlier before rest n k e is d there chosen
          | inr (all, last) ↦
              let is_m : k ≡ m =
                some-injective (sym is ∙ ap (λ x. Dict.get x selected) last ∙ found) in
              subst (In d.name) (sym all)
                (ready d (subst (λ x. In d (dependencies_of include_optional x)) is_m there) chosen)
        ];
  }

  visit-Visits :
      (fuel : ℕ) (visiting : List String) → Visits (visit include_optional selected fuel visiting)
  unfolding visit
  visit-Visits zero visiting name order after h first = cc
  visit-Visits (suc fuel) visiting name order after h first = elim (Bool-cases (is_in name order)) [
    | inl seen ↦
        let h1 = sym (if-true (is_in name order) _ _ seen) ∙ h in
        (
          subst (IsVisited order) (returned-injective h1) (IsVisited-refl order first),
          subst (In name) (returned-injective h1) (is_in-In name order seen),
        )
    | inr unseen ↦
        let h1 = sym (if-false (is_in name order) _ _ unseen) ∙ h in
        elim (Bool-cases (is_in name visiting)) [
          | inl open_visit ↦
              absurd (raised≢returned (sym (if-true (is_in name visiting) _ _ open_visit) ∙ h1))
          | inr fresh ↦
              finish (Dict.get name selected) refl
                (sym (if-false (is_in name visiting) _ _ fresh) ∙ h1)
                (visit-Visits fuel (visiting ++ name ∷ []))
        ]
  ]
    where
      step : String → List String → Outcome PackageError (List String)
      step = visit include_optional selected fuel (visiting ++ name ∷ [])

      finish :
          (o : Option Manifest)
          → Dict.get name selected ≡ o
          → (elim o [
            | none ↦ raised key_error
            | some m ↦
                visit_each
                  (is_selected include_optional selected)
                  step
                  (names_of (dependencies_of include_optional m))
                  order
                >>= λ all. returned (all ++ name ∷ [])
          ])
            ≡ returned after
          → Visits step
          → IsVisited order after × In name after
      finish none found h visits = cc
      finish (some m) found h visits =
          let names = names_of (dependencies_of include_optional m) in
          let (all, h1, h2) =
            >>=-eq-returned (visit_each (is_selected include_optional selected) step names order) _
              h in
          let ((all_first, extends), visited) =
            visit_each-IsVisited (is_selected include_optional selected) step visits names order all
              h1 first in
          let is_first = IsFirst-snoc all name m all_first found (λ d there chosen.
            visited d.name (In-names_of d (dependencies_of include_optional m) there) chosen) in
          let is_after = returned-injective h2 in
          (
            subst (IsVisited order) is_after
                (is_first, Extends-trans order all (all ++ name ∷ []) extends (name ∷ [], refl)),
            subst (In name) is_after (In-append_last name all),
          )

  IsFirst-empty : IsFirst []
  IsFirst-empty = record {
    earlier = λ before after n k split is d there chosen. absurd (empty-split before after n split);
  }

  pub dependency_order-IsDependencyFirst :
      (order : List String)
      → dependency_order include_optional selected ≡ returned order
      → IsDependencyFirst include_optional selected order
        × ((name : String) → In name (keys selected) → In name order)
  unfolding dependency_order
  dependency_order-IsDependencyFirst order h =
      let names = stable_sort string_less (keys selected) in
      let step = visit include_optional selected (suc (length (keys selected))) [] in
      let ((first, _), visited) =
        visit_each-IsVisited (λ name. true) step (visit-Visits (suc (length (keys selected))) [])
          names [] order h IsFirst-empty in
      (first, λ name there. visited name ((In-sort string_less name (keys selected)).1 there) refl)
