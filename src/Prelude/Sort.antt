-- ===== src/Prelude/Sort.antt =====
-- Python's stable, ascending `sort`, as an insertion sort, and the first element that passes a test.
use Prim.Native.Nat.{◌≤◌, ◌<◌}
use mathlib.Core.Path.{◌≡◌, sym, ap, ◌∙◌}
use mathlib.Core.Logic.{◌↔◌, ◌⊎◌, inl, inr}
use mathlib.Core.Bool.{Bool, true, false}
use mathlib.Core.Option.{Option, none, some}
use mathlib.Core.List.{List, [], ◌∷◌}
use native.Mathlib.Omega.{arith}
use local_agent_dispatch.Prelude.Lists.{In, length}
use local_agent_dispatch.Prelude.Tests.{if◌then◌else◌, Bool-cases}

module _ {A : Type 0} (less : A → A → Bool) where
  -- Puts `x` before the first element that is not less than it.
  unfoldable pub insert_sorted : A → List A → List A
  insert_sorted x [] = x ∷ []
  insert_sorted x (y ∷ ys) = if less y x then y ∷ insert_sorted x ys else x ∷ y ∷ ys

  unfoldable pub stable_sort : List A → List A
  stable_sort [] = []
  stable_sort (x ∷ xs) = insert_sorted x (stable_sort xs)

module _ {A : Type 0} (less : A → A → Bool) where
  In-insert : (a x : A) (xs : List A) → In a (insert_sorted less x xs) ↔ ((a ≡ x) ⊎ In a xs)
  unfolding insert_sorted
  In-insert a x [] = ground arith
  In-insert a x (y ∷ ys) = elim (Bool-cases (less y x)) [
    | inl swap ↦ rw swap (ground (arith, In-insert a x ys))
    | inr stay ↦ rw stay (ground arith)
  ]

  -- Sorting keeps the elements.
  pub In-sort : (a : A) (xs : List A) → In a (stable_sort less xs) ↔ In a xs
  unfolding stable_sort
  In-sort a [] = ground arith
  In-sort a (x ∷ xs) = ground (arith, In-insert a x (stable_sort less xs), In-sort a xs)

  -- No element is less than the one before it.
  abbrev pub IsOrdered : List A → Type 0
  IsOrdered [] = Unit
  IsOrdered (x ∷ []) = Unit
  IsOrdered (x ∷ y ∷ ys) = (less y x ≡ false) × IsOrdered (y ∷ ys)

  module _ (asymmetric : (x y : A) → less x y ≡ true → less y x ≡ false) where
    insert_sorted-IsOrdered :
        (x : A) (ys : List A) → IsOrdered ys → IsOrdered (insert_sorted less x ys)
    unfolding insert_sorted
    insert_sorted-IsOrdered x [] o = tt
    insert_sorted-IsOrdered x (y ∷ []) o = elim (Bool-cases (less y x)) [
      | inl swap ↦ rw swap (asymmetric y x swap, tt)
      | inr stay ↦ rw stay (stay, tt)
    ]
    insert_sorted-IsOrdered x (y ∷ z ∷ zs) o = elim (Bool-cases (less y x)) [
      | inr stay ↦ rw stay (stay, o)
      | inl swap ↦
          let rest = insert_sorted-IsOrdered x (z ∷ zs) (o.1) in
          elim (Bool-cases (less z x)) [
            | inl deeper ↦ rw (swap, deeper) (o.0, rw deeper at rest)
            | inr here ↦ rw (swap, here) (asymmetric y x swap, (here, o.1))
          ]
    ]

    pub stable_sort-IsOrdered : (xs : List A) → IsOrdered (stable_sort less xs)
    unfolding stable_sort
    stable_sort-IsOrdered [] = tt
    stable_sort-IsOrdered (x ∷ xs) =
        insert_sorted-IsOrdered x (stable_sort less xs) (stable_sort-IsOrdered xs)

-- `next((row for row in rows if test(row)), None)`
unfoldable pub first {ℓ} : {A : Type ℓ} → (A → Bool) → List A → Option A
first test [] = none
first test (x ∷ xs) = if test x then some x else first test xs

unfoldable pub filter : {A : Type 0} → (A → Bool) → List A → List A
filter p [] = []
filter p (x ∷ xs) = if p x then x ∷ filter p xs else filter p xs

pub In-filter :
    {A : Type 0} (p : A → Bool) (a : A) (xs : List A)
    → In a (filter p xs) ↔ (In a xs × (p a ≡ true))
unfolding filter
In-filter p a [] = ground arith
In-filter p a (x ∷ xs) = elim (Bool-cases (p x)) [
  | inl kept ↦
      let same : a ≡ x → p a ≡ true = λ e. ap p e ∙ kept in
      rw kept (ground (arith, In-filter p a xs, same))
  | inr left ↦
      let other : a ≡ x → p a ≡ false = λ e. ap p e ∙ left in
      rw left (ground (arith, In-filter p a xs, other))
]

-- A test that is passed by fewer elements, one of which it drops.
pub length-filter_le :
    {A : Type 0} (p q : A → Bool) (xs : List A)
    → ((x : A) → q x ≡ true → p x ≡ true)
    → length (filter q xs) ≤ length (filter p xs)
unfolding filter
length-filter_le p q [] h = omega arith
length-filter_le p q (x ∷ xs) h = elim (Bool-cases (q x)) [
  | inl kept ↦ rw (kept, h x kept) (omega (arith, length-filter_le p q xs h))
  | inr left ↦ elim (Bool-cases (p x)) [
    | inl here ↦ rw (left, here) (omega (arith, length-filter_le p q xs h))
    | inr gone ↦ rw (left, gone) (length-filter_le p q xs h)
  ]
]

pub length-filter_lt :
    {A : Type 0} (p q : A → Bool) (a : A) (xs : List A)
    → ((x : A) → q x ≡ true → p x ≡ true)
    → In a xs
    → p a ≡ true
    → q a ≡ false
    → length (filter q xs) < length (filter p xs)
unfolding filter
length-filter_lt p q a [] h there passes dropped = absurd there
length-filter_lt p q a (x ∷ xs) h (inl same) passes dropped =
    let x_passes = ap p (sym same) ∙ passes in
    let x_dropped = ap q (sym same) ∙ dropped in
    rw (x_passes, x_dropped) (omega (arith, length-filter_le p q xs h))
length-filter_lt p q a (x ∷ xs) h (inr later) passes dropped = elim (Bool-cases (q x)) [
  | inl kept ↦ rw (kept, h x kept) (omega (arith, length-filter_lt p q a xs h later passes dropped))
  | inr left ↦ elim (Bool-cases (p x)) [
    | inl here ↦ rw (left, here) (omega (arith, length-filter_lt p q a xs h later passes dropped))
    | inr gone ↦ rw (left, gone) (length-filter_lt p q a xs h later passes dropped)
  ]
]

pub length-filter_all : {A : Type 0} (p : A → Bool) (xs : List A) → length (filter p xs) ≤ length xs
unfolding filter
length-filter_all p [] = omega arith
length-filter_all p (x ∷ xs) = elim (Bool-cases (p x)) [
  | inl kept ↦ rw kept (omega (arith, length-filter_all p xs))
  | inr left ↦ rw left (omega (arith, length-filter_all p xs))
]
