-- ===== src/Packages/Constrained.antt =====
-- Constraints, the tests of a selection against them, and the candidates of a name
-- (src/local_agent_dispatch/packages/catalog.py).
use local_agent_dispatch.Packages.Manifest.{Dependency, Manifest}
use local_agent_dispatch.Packages.Order.{Selected, is_selected}
use local_agent_dispatch.Packages.Resolve.{
  Constraints, listed, required, require, require_all, unresolved,
}
use local_agent_dispatch.Prelude.Dict
use local_agent_dispatch.Prelude.Dict.{Dict, keys, get-put}
use local_agent_dispatch.Prelude.Keys.{◌=?◌, string_eq, string_less, =?_refl}
use local_agent_dispatch.Prelude.Sort.{In-sort, filter, In-filter}
use local_agent_dispatch.Prelude.{
  String, ◌≡◌, refl, sym, ap, ◌∙◌, subst, inl, inr, Bool, true, false, not, Option, none, some,
  List, [], ◌∷◌, ◌++◌, In, In-append_left, In-append_last, arith, Bool-cases, Option-cases,
  if◌then◌else◌,
}

pub get-In_keys :
    {V : Type 0} (k : String) {v : V} (d : Dict String V) → Dict.get k d ≡ some v → In k (keys d)
unfolding Dict.get
get-In_keys k [] h = cc
get-In_keys k {v} ((j, w) ∷ d) h = elim (Bool-cases (j =? k)) [
  | inl same ↦ inl (sym ((string_eq.beq_iff j k).0 same))
  | inr other ↦ inr (get-In_keys k {v = v} d (ground (arith, h, other)))
]

pub required-put :
    (name k : String) (cs : List String) (constraints : Constraints)
    → required name (Dict.put k cs constraints)
      ≡ (if k =? name then cs else required name constraints)
required-put name k cs constraints =
    ap listed (get-put k name cs constraints) ∙ listed_if (k =? name) cs (Dict.get name constraints)
  where
    listed_if :
        (b : Bool) (cs : List String) (o : Option (List String))
        → listed (if b then some cs else o) ≡ (if b then cs else listed o)
    listed_if true cs o = refl
    listed_if false cs o = refl

required-require :
    (d : Dependency) (constraints : Constraints)
    → required d.name (require d constraints) ≡ required d.name constraints ++ d.constraint ∷ []
required-require d constraints =
    required-put d.name d.name (required d.name constraints ++ d.constraint ∷ []) constraints
    ∙ rw (=?_refl d.name) refl

In-require :
    (name c : String) (d : Dependency) (constraints : Constraints)
    → In c (required name constraints)
    → In c (required name (require d constraints))
In-require name c d constraints h =
    let extended = required d.name constraints ++ d.constraint ∷ [] in
    elim (Bool-cases (d.name =? name)) [
      | inl same ↦
          let is_name = (string_eq.beq_iff d.name name).0 same in
          subst (λ n. In c (required n (require d constraints))) is_name
            (subst (In c) (sym (required-require d constraints)) (
              In-append_left c (required d.name constraints) (d.constraint ∷ [])
                (subst (λ n. In c (required n constraints)) (sym is_name) h)))
      | inr other ↦
          subst (In c) (sym (required-put name d.name extended constraints ∙ rw other refl)) h
    ]

-- What was required is still required, and so is what each dependency says.
pub In-require_all :
    (name c : String) (ds : List Dependency) (constraints : Constraints)
    → In c (required name constraints)
    → In c (required name (require_all ds constraints))
unfolding require_all
In-require_all name c [] constraints h = h
In-require_all name c (d ∷ ds) constraints h =
    In-require_all name c ds (require d constraints) (In-require name c d constraints h)

pub In-require_each :
    (d : Dependency) (ds : List Dependency) (constraints : Constraints)
    → In d ds
    → In d.constraint (required d.name (require_all ds constraints))
unfolding require_all
In-require_each d [] constraints h = absurd h
In-require_each d (e ∷ ds) constraints (inl here) =
    subst (λ x. In x.constraint (required x.name (require_all ds (require e constraints))))
      (sym here)
      (In-require_all e.name e.constraint ds (require e constraints) (
        subst (In e.constraint) (sym (required-require e constraints))
          (In-append_last e.constraint (required e.name constraints))))
In-require_each d (e ∷ ds) constraints (inr there) =
    In-require_each d ds (require e constraints) there

-- A constraint on a name that nothing is unresolved of is on a selected one.
pub unresolved-null :
    (selected : Selected) (constraints : Constraints) (name c : String)
    → unresolved selected constraints ≡ []
    → In c (required name constraints)
    → (m : Manifest) × (Dict.get name selected ≡ some m)
unresolved-null selected constraints name c h there = elim (Option-cases (Dict.get name selected)) [
  | inr found ↦ found
  | inl missing ↦
      let waiting = λ (n : String). not (is_selected true selected n) in
      let (cs, has_name) = constrained (Dict.get name constraints) refl in
      let unmet =
        (In-filter waiting name (keys constraints)).1
          (get-In_keys name constraints has_name, rw missing refl) in
      absurd
        (subst (In name) h ((In-sort string_less name (filter waiting (keys constraints))).1 unmet))
]
  where
    constrained :
        (o : Option (List String))
        → Dict.get name constraints ≡ o
        → (cs : List String) × (Dict.get name constraints ≡ some cs)
    constrained none missing = absurd (subst (λ o. In c (listed o)) missing there)
    constrained (some cs) found = (cs, found)
