-- ===== src/Packages/Version.antt =====
-- The order of versions and `version_satisfies` of
-- src/local_agent_dispatch/packages/manifest.py. Python's re module and str.split are parameters:
-- `parse_version` has the groups of `_VERSION_RE`, `none` where it does not match, and `clauses_of` the
-- clauses of a constraint, each with its operator and operand, `none` where it is of another form.
use Prim.Native.Nat.{Ordering, compare}
use Prim.Native.String
use local_agent_dispatch.Prelude.Keys.{◌=?◌, string_eq}
use local_agent_dispatch.Prelude.Outcome.{Outcome, returned, raised, ◌>>=◌}
use local_agent_dispatch.Prelude.{
  ℕ, String, Bool, true, false, Option, none, some, List, [], ◌∷◌, if◌then◌else◌,
}

-- The exception classes, and `exhausted` where a search has run out of fuel.
pub data PackageError : Type 0 where
  manifest_error resolution_error key_error exhausted : PackageError

-- One part of a prerelease: digits, or another text.
pub data Identifier : Type 0 where
  numeric : ℕ → Identifier
  word : String → Identifier

-- What `_version_tuple` returns.
pub record Version : Type 0 where
  pub major : ℕ
  pub minor : ℕ
  pub patch : ℕ
  pub prerelease : Option (List Identifier)

-- -1, 0 and 1 are lt, eq and gt. The second decides where the first is 0.
abbrev pub then_by : Ordering → Ordering → Ordering
then_by Ordering.lt later = Ordering.lt
then_by Ordering.gt later = Ordering.gt
then_by Ordering.eq later = later

abbrev pub compare_identifiers : Identifier → Identifier → Ordering
compare_identifiers (numeric m) (numeric n) = compare m n
compare_identifiers (numeric m) (word t) = Ordering.lt
compare_identifiers (word s) (numeric n) = Ordering.gt
compare_identifiers (word s) (word t) = String.compare s t

-- `_compare_prerelease`
unfoldable pub compare_prerelease : List Identifier → List Identifier → Ordering
compare_prerelease [] [] = Ordering.eq
compare_prerelease [] (y ∷ ys) = Ordering.lt
compare_prerelease (x ∷ xs) [] = Ordering.gt
compare_prerelease (x ∷ xs) (y ∷ ys) = then_by (compare_identifiers x y) (compare_prerelease xs ys)

-- A version without a prerelease is above those with one.
abbrev pub compare_optional : Option (List Identifier) → Option (List Identifier) → Ordering
compare_optional none none = Ordering.eq
compare_optional none (some ys) = Ordering.gt
compare_optional (some xs) none = Ordering.lt
compare_optional (some xs) (some ys) = compare_prerelease xs ys

abbrev pub compare_tuples : Version → Version → Ordering
compare_tuples v w = then_by (compare v.major w.major) (
    then_by (compare v.minor w.minor)
      (then_by (compare v.patch w.patch) (compare_optional v.prerelease w.prerelease)))

pub data Operator : Type 0 where
  exactly at_least at_most above below : Operator

-- One clause of a constraint, of a version, its order to the operand, and whether they are one text.
abbrev pub holds : Operator → Ordering → Bool → Bool
holds exactly o same = same
holds at_least Ordering.lt same = false
holds at_least _ same = true
holds at_most Ordering.gt same = false
holds at_most _ same = true
holds above Ordering.gt same = true
holds above _ same = false
holds below Ordering.lt same = true
holds below _ same = false

module _ (parse_version : String → Option Version)
    (clauses_of : String → List (Option (Operator × String))) where
  -- `_version_tuple`
  abbrev pub version_tuple : String → Outcome PackageError Version
  version_tuple value = elim (parse_version value) [
    | none ↦ raised manifest_error
    | some v ↦ returned v
  ]

  -- `_compare_versions`
  unfoldable pub compare_versions : String → String → Outcome PackageError Ordering
  compare_versions left right = do
    l ← version_tuple left
    r ← version_tuple right
    returned (compare_tuples l r)

  -- The loop over the clauses, which ends at the first that does not hold.
  unfoldable pub all_hold : String → List (Option (Operator × String)) → Outcome PackageError Bool
  all_hold version [] = returned true
  all_hold version (none ∷ clauses) = raised manifest_error
  all_hold version (some (operator, operand) ∷ clauses) = do
    order ← compare_versions version operand
    let rest = all_hold version clauses in
        if holds operator order (version =? operand) then rest else returned false

  -- A constraint that is blank or "*" has no clauses.
  unfoldable pub version_satisfies : String → String → Outcome PackageError Bool
  version_satisfies version constraint = do
    parsed ← version_tuple version
    all_hold version (clauses_of constraint)
