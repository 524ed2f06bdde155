-- ===== src/Worker/UsageLaws.antt =====
-- What `reconcile_usage` of src/local_agent_dispatch/worker/state.py reports, in terms of the
-- dimensions alone.
use local_agent_dispatch.Api.Contracts.{ResourceUsage}
use local_agent_dispatch.Prelude.{
  ℕ, String, ◌≡◌, refl, Bool, true, false, not, Option, none, some, List, [], ◌∷◌, any, null, arith,
  ltb, if◌then◌else◌,
}
use local_agent_dispatch.Worker.Usage.{
  within, exceeded, unknown, Tally, dimensions, tally, status_of, reconcile_usage,
}

-- Both sides are known, and more is used than was reserved.
abbrev pub is_over : (String × Option ℕ × Option ℕ) → Bool
is_over (d, some expected, some observed) = ltb expected observed
is_over (d, _, _) = false

-- One side is known and the other is not.
abbrev pub is_gap : (String × Option ℕ × Option ℕ) → Bool
is_gap (d, some expected, none) = true
is_gap (d, none, some observed) = true
is_gap (d, _, _) = false

abbrev pub is_compared : (String × Option ℕ × Option ℕ) → Bool
is_compared (d, some expected, some observed) = true
is_compared (d, _, _) = false

tally-overages :
    (l : List (String × Option ℕ × Option ℕ)) → not (null (tally l).overages) ≡ any is_over l
unfolding tally
tally-overages [] = refl
tally-overages ((d, none, none) ∷ l) = tally-overages l
tally-overages ((d, none, some o) ∷ l) = tally-overages l
tally-overages ((d, some e, none) ∷ l) = tally-overages l
tally-overages ((d, some e, some o) ∷ l) = ground (arith, tally-overages l)

tally-unknown :
    (l : List (String × Option ℕ × Option ℕ)) → not (null (tally l).unknown) ≡ any is_gap l
unfolding tally
tally-unknown [] = refl
tally-unknown ((d, none, none) ∷ l) = tally-unknown l
tally-unknown ((d, none, some o) ∷ l) = refl
tally-unknown ((d, some e, none) ∷ l) = refl
tally-unknown ((d, some e, some o) ∷ l) = tally-unknown l

tally-compared :
    (l : List (String × Option ℕ × Option ℕ)) → null (tally l).compared ≡ not (any is_compared l)
unfolding tally
tally-compared [] = refl
tally-compared ((d, none, none) ∷ l) = tally-compared l
tally-compared ((d, none, some o) ∷ l) = tally-compared l
tally-compared ((d, some e, none) ∷ l) = tally-compared l
tally-compared ((d, some e, some o) ∷ l) = refl

-- The status is `exceeded` if some dimension known on both sides is over its reservation; else
-- `unknown` if some dimension is known on one side only, or none on both; else `within`.
pub reconcile_usage-status :
    (reserved actual : ResourceUsage)
    → (reconcile_usage reserved actual).status ≡ (
        if any is_over (dimensions reserved actual)
        then exceeded
        else if any is_gap (dimensions reserved actual)
        then unknown
        else if any is_compared (dimensions reserved actual)
        then within
        else unknown)
unfolding reconcile_usage
reconcile_usage-status reserved actual =
    let l = dimensions reserved actual in
    go (tally l) (any is_compared l) (tally-overages l) (tally-unknown l) (tally-compared l)
  where
    go :
        (t : Tally) {o g : Bool} (c : Bool)
        → not (null t.overages) ≡ o
        → not (null t.unknown) ≡ g
        → null t.compared ≡ not c
        → status_of t
          ≡ (if o then exceeded else if g then unknown else if c then within else unknown)
    go t c p q r = ground arith
