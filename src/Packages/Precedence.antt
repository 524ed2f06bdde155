-- ===== src/Packages/Precedence.antt =====
-- The order of versions of src/local_agent_dispatch/packages/manifest.py.
use Prim.Native.Nat.{Ordering, compare}
use local_agent_dispatch.Packages.Version.{
  Identifier, numeric, word, Version, Operator, version_tuple, compare_versions, then_by,
  compare_identifiers, compare_prerelease, compare_optional, compare_tuples,
}
use local_agent_dispatch.Prelude.Precedence.{opposite, compare-opposite, string_compare-opposite}
use local_agent_dispatch.Prelude.Outcome.{returned, >>=-eq-returned, returned-injective}
use local_agent_dispatch.Prelude.{String, ◌≡◌, refl, ap, ◌∙◌, Option, none, some, List, [], ◌∷◌}

then_by-opposite :
    (o p later after : Ordering)
    → p ≡ opposite o
    → after ≡ opposite later
    → then_by p after ≡ opposite (then_by o later)
then_by-opposite o p later after h k =
    ap (λ x. then_by x after) h ∙ ap (λ y. then_by (opposite o) y) k ∙ decided o
  where
    decided : (x : Ordering) → then_by (opposite x) (opposite later) ≡ opposite (then_by x later)
    decided Ordering.lt = refl
    decided Ordering.eq = refl
    decided Ordering.gt = refl

identifiers-opposite :
    (x y : Identifier) → compare_identifiers y x ≡ opposite (compare_identifiers x y)
identifiers-opposite (numeric m) (numeric n) = compare-opposite m n
identifiers-opposite (numeric m) (word t) = refl
identifiers-opposite (word s) (numeric n) = refl
identifiers-opposite (word s) (word t) = string_compare-opposite s t

prerelease-opposite :
    (xs ys : List Identifier) → compare_prerelease ys xs ≡ opposite (compare_prerelease xs ys)
unfolding compare_prerelease
prerelease-opposite [] [] = refl
prerelease-opposite [] (y ∷ ys) = refl
prerelease-opposite (x ∷ xs) [] = refl
prerelease-opposite (x ∷ xs) (y ∷ ys) =
    then_by-opposite (compare_identifiers x y) (compare_identifiers y x) (compare_prerelease xs ys)
      (compare_prerelease ys xs) (identifiers-opposite x y) (prerelease-opposite xs ys)

optional-opposite :
    (p q : Option (List Identifier)) → compare_optional q p ≡ opposite (compare_optional p q)
optional-opposite none none = refl
optional-opposite none (some ys) = refl
optional-opposite (some xs) none = refl
optional-opposite (some xs) (some ys) = prerelease-opposite xs ys

tuples-opposite : (v w : Version) → compare_tuples w v ≡ opposite (compare_tuples v w)
tuples-opposite v w =
    then_by-opposite (compare v.major w.major) (compare w.major v.major) _ _
      (compare-opposite v.major w.major)
      (then_by-opposite (compare v.minor w.minor) (compare w.minor v.minor) _ _
        (compare-opposite v.minor w.minor)
        (then_by-opposite (compare v.patch w.patch) (compare w.patch v.patch) _ _
          (compare-opposite v.patch w.patch) (optional-opposite v.prerelease w.prerelease)))

-- Where one version compares to another, the other compares to it, with the opposite answer.
pub compare_versions-opposite :
    (parse_version : String → Option Version)
    (clauses_of : String → List (Option (Operator × String))) (left right : String) (o : Ordering)
    → compare_versions parse_version clauses_of left right ≡ returned o
    → compare_versions parse_version clauses_of right left ≡ returned (opposite o)
unfolding compare_versions
compare_versions-opposite parse_version clauses_of left right o h =
    let (l, l_read, h1) = >>=-eq-returned (version_tuple parse_version clauses_of left) _ h in
    let (r, r_read, h2) = >>=-eq-returned (version_tuple parse_version clauses_of right) _ h1 in
    rw (r_read, l_read) (ap returned (tuples-opposite l r ∙ ap opposite (returned-injective h2)))
