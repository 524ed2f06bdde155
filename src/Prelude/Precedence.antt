-- ===== src/Prelude/Precedence.antt =====
-- The three answers of a comparison, and that comparing the other way round gives the opposite one.
use Prim.Native.Nat.{ℕ, Ordering, compare as compare_ℕ}
use Prim.Native.Char.{code}
use Prim.Native.String.compare
use Prim.Native.String.{String, [], ◌∷◌, compare, then}
use mathlib.Core.Path.{◌≡◌, refl, sym, ap, ◌∙◌}
use native.Mathlib.Omega.{arith}

abbrev pub opposite : Ordering → Ordering
opposite Ordering.lt = Ordering.gt
opposite Ordering.eq = Ordering.eq
opposite Ordering.gt = Ordering.lt

pub compare-opposite : (m n : ℕ) → compare_ℕ n m ≡ opposite (compare_ℕ m n)
compare-opposite m n = ground arith

then-opposite : (o r : Ordering) → then (opposite o) (opposite r) ≡ opposite (then o r)
then-opposite Ordering.lt r = refl
then-opposite Ordering.eq r = refl
then-opposite Ordering.gt r = refl

pub string_compare-opposite : (s t : String) → compare t s ≡ opposite (compare s t)
string_compare-opposite [] [] = compare.nil-nil ∙ ap opposite (sym compare.nil-nil)
string_compare-opposite [] (d ∷ t) = compare.cons-nil d t ∙ ap opposite (sym (compare.nil-cons d t))
string_compare-opposite (c ∷ s) [] = compare.nil-cons c s ∙ ap opposite (sym (compare.cons-nil c s))
string_compare-opposite (c ∷ s) (d ∷ t) =
    compare.cons-cons d c t s
    ∙ ap (λ o. then o (compare t s)) (compare-opposite (code c) (code d))
    ∙ ap (λ r. then (opposite (compare_ℕ (code c) (code d))) r) (string_compare-opposite s t)
    ∙ then-opposite (compare_ℕ (code c) (code d)) (compare s t)
    ∙ ap opposite (sym (compare.cons-cons c d s t))
