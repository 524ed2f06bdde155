-- ===== src/Prelude/Members.antt =====
-- Members of lists, and the ways in which a list that was extended by one element splits.
use mathlib.Core.Path.{◌≡◌, refl, sym, subst}
use mathlib.Core.Logic.{◌⊎◌, inl, inr}
use local_agent_dispatch.Prelude.Lists.{All}
use mathlib.Core.List.{List, [], ◌∷◌, ◌++◌, Memᴰ}

module _ {ℓ} {A : Type ℓ} where
  pub Mem-append_left : {x : A} (xs ys : List A) → Memᴰ x xs → Memᴰ x (xs ++ ys)
  Mem-append_left [] ys m = elim m [ ]
  Mem-append_left (y ∷ xs) ys (Memᴰ.head e) = Memᴰ.head e
  Mem-append_left (y ∷ xs) ys (Memᴰ.tail m) = Memᴰ.tail (Mem-append_left xs ys m)

  pub Mem-append_last : (xs : List A) (x : A) → Memᴰ x (xs ++ x ∷ [])
  Mem-append_last [] x = Memᴰ.head refl
  Mem-append_last (y ∷ xs) x = Memᴰ.tail (Mem-append_last xs x)

  pub Mem-append_cases : {x : A} (xs : List A) (y : A) → Memᴰ x (xs ++ y ∷ []) → Memᴰ x xs ⊎ (x ≡ y)
  Mem-append_cases [] y (Memᴰ.head e) = inr e
  Mem-append_cases [] y (Memᴰ.tail m) = elim m [ ]
  Mem-append_cases (z ∷ xs) y (Memᴰ.head e) = inl (Memᴰ.head e)
  Mem-append_cases (z ∷ xs) y (Memᴰ.tail m) = elim (Mem-append_cases xs y m) [
    | inl old ↦ inl (Memᴰ.tail old)
    | inr last ↦ inr last
  ]

  tail-eq : {x y : A} {xs ys : List A} → x ∷ xs ≡ y ∷ ys → (x ≡ y) × (xs ≡ ys)
  tail-eq h = (cc, cc)

  pub empty-split : (before after : List A) (x : A) → [] ≡ before ++ x ∷ after → ⊥
  empty-split [] after x h = cc
  empty-split (b ∷ before) after x h = cc

  -- What stands where in a list that ends in `x`: in the list before it, or at the end.
  pub append-split :
      (before after xs : List A) {x y : A}
      → xs ++ x ∷ [] ≡ before ++ y ∷ after
      → ((rest : List A) × (xs ≡ before ++ y ∷ rest)) ⊎ ((before ≡ xs) × (y ≡ x))
  append-split [] after [] h = inr (refl, sym (tail-eq h).0)
  append-split [] after (z ∷ xs) h = inl (xs, cc)
  append-split (b ∷ before) after [] {x} {y} h = absurd (empty-split before after y (tail-eq h).1)
  append-split (b ∷ before) after (z ∷ xs) h = elim (append-split before after xs (tail-eq h).1) [
    | inl (rest, e) ↦ inl (rest, cc)
    | inr (e, last) ↦ inr (cc, last)
  ]

  pub All-Mem {κ} : (P : A → Type κ) (xs : List A) → All P xs → (x : A) → Memᴰ x xs → P x
  All-Mem P [] h x m = elim m [ ]
  All-Mem P (y ∷ xs) h x (Memᴰ.head e) = subst P (sym e) h.0
  All-Mem P (y ∷ xs) h x (Memᴰ.tail m) = All-Mem P xs h.1 x m
