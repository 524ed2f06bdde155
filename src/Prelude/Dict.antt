-- ===== src/Prelude/Dict.antt =====
-- Python's `dict`: an association list in insertion order. A write to a key that is there keeps
-- its place, a new key goes to the end.
use mathlib.Core.Path.{◌≡◌, refl}
use mathlib.Core.Logic.{inl, inr}
use mathlib.Core.Bool.{Bool}
use mathlib.Core.Option.{Option, none, some}
use mathlib.Core.List.{List, [], ◌∷◌, ◌++◌, map}
use native.Mathlib.Omega.{arith}
use local_agent_dispatch.Prelude.Tests.{if◌then◌else◌, Bool-cases}
use local_agent_dispatch.Prelude.Keys.{Eq, ◌=?◌}

abbrev pub Dict {ℓ} : Type ℓ → Type ℓ → Type ℓ
Dict K V = List (K × V)

abbrev pub values {ℓ} : {K V : Type ℓ} → Dict K V → List V
values d = map (λ p. p.1) d

abbrev pub keys {ℓ} : {K V : Type ℓ} → Dict K V → List K
keys d = map (λ p. p.0) d

module _ {ℓ} {K V : Type ℓ} ⦃e : Eq K⦄ where
  -- d.get(k)
  unfoldable pub get : K → Dict K V → Option V
  get k [] = none
  get k ((j, v) ∷ d) = if j =? k then some v else get k d

  -- d[k] = v
  unfoldable pub put : K → V → Dict K V → Dict K V
  put k v [] = (k, v) ∷ []
  put k v ((j, w) ∷ d) = if j =? k then (j, v) ∷ d else (j, w) ∷ put k v d

  -- {key: value for key, value in d.items() if p(key)}
  unfoldable pub keep : (K → Bool) → Dict K V → Dict K V
  keep p [] = []
  keep p ((j, v) ∷ d) = if p j then (j, v) ∷ keep p d else keep p d

  pub get-put :
      (k j : K) (v : V) (d : Dict K V) → get j (put k v d) ≡ (if k =? j then some v else get j d)
  unfolding get put
  get-put k j v [] = refl
  get-put k j v ((i, w) ∷ d) =
      ground (arith, e.beq_iff k j, e.beq_iff i k, e.beq_iff i j, get-put k j v d)

  pub get-put_self : (k : K) (v : V) (d : Dict K V) → get k (put k v d) ≡ some v
  get-put_self k v d = ground (arith, get-put k k v d, e.beq_iff k k)

  pub get-keep :
      (p : K → Bool) (k : K) (d : Dict K V) → get k (keep p d) ≡ (if p k then get k d else none)
  unfolding get keep
  get-keep p k [] = ground arith
  get-keep p k ((j, v) ∷ d) = elim (Bool-cases (j =? k)) [
    | inl same ↦ ground (arith, (e.beq_iff j k).0 same, get-keep p k d)
    | inr other ↦ ground (arith, get-keep p k d)
  ]

  -- A new key goes to the end.
  pub put_new : (k : K) (v : V) (d : Dict K V) → get k d ≡ none → put k v d ≡ d ++ (k, v) ∷ []
  unfolding get put
  put_new k v [] h = refl
  put_new k v ((j, w) ∷ d) h = ground (arith, put_new k v d)
