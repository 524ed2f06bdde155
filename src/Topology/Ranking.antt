-- ===== src/Topology/Ranking.antt =====
-- `rank_paths` of src/local_agent_dispatch/resources/topology.py.
use local_agent_dispatch.Prelude.Int.{ℤ, negsuc, ltb_ℤ, ◌≤ℤ◌}
use local_agent_dispatch.Prelude.Sort.{stable_sort, IsOrdered, stable_sort-IsOrdered, In-sort}
use local_agent_dispatch.Prelude.{
  ℕ, String, ◌≡◌, refl, sym, subst, ◌⊎◌, inl, inr, Bool, true, false, Option, none, some, List, [],
  ◌∷◌, arith, In, get_or, ltb, if◌then◌else◌,
}
use local_agent_dispatch.Topology.Paths.{Pathlib}
use local_agent_dispatch.Topology.Placement.{
  PathRequirements, Verdict, safe, unknown, reject, PlacementDecision, evaluate_placement,
}
use local_agent_dispatch.World.Fault.{Result, ok, ◌>>=◌, >>=-eq-ok, ok-injective}
use local_agent_dispatch.World.Floats.{Floats}
use local_agent_dispatch.World.Host.{Host}
use local_agent_dispatch.World.Observation.{Calendar}

-- VERDICT_ORDER
abbrev pub verdict_order : Verdict → ℕ
verdict_order safe = 0
verdict_order unknown = 1
verdict_order reject = 2

-- The order of the pairs (VERDICT_ORDER[verdict], -amount).
abbrev pub pair_less : ℕ → ℤ → ℕ → ℤ → Bool
pair_less m a n b = if ltb m n then true else if ltb n m then false else ltb_ℤ b a

pub pair_less_asymmetric :
    (m : ℕ) (a : ℤ) (n : ℕ) (b : ℤ) → pair_less m a n b ≡ true → pair_less n b m a ≡ false
pair_less_asymmetric m a n b e = ground arith

-- `spare if spare is not None else -1`
abbrev pub spare_of : PlacementDecision → ℤ
spare_of d = get_or d.safe_to_place_bytes (negsuc 0)

unfoldable pub decision_less : PlacementDecision → PlacementDecision → Bool
decision_less a b =
    pair_less (verdict_order a.verdict) (spare_of a) (verdict_order b.verdict) (spare_of b)

decision_less_asymmetric :
    (a b : PlacementDecision) → decision_less a b ≡ true → decision_less b a ≡ false
unfolding decision_less
decision_less_asymmetric a b e =
    pair_less_asymmetric (verdict_order a.verdict) (spare_of a) (verdict_order b.verdict)
      (spare_of b) e

-- One verdict is better than another.
pub data IsBetter : Verdict → Verdict → Type 0 where
  safe_unknown : IsBetter safe unknown
  safe_reject : IsBetter safe reject
  unknown_reject : IsBetter unknown reject

-- The first amount is at most the second, where an unknown one stands at -1.
abbrev pub SpareLe : Option ℤ → Option ℤ → Type 0
SpareLe none none = Unit
SpareLe none (some b) = negsuc 0 ≤ℤ b
SpareLe (some a) none = a ≤ℤ negsuc 0
SpareLe (some a) (some b) = a ≤ℤ b

-- A decision may stand before another: its verdict is better, or the same with no fewer spare bytes.
pub data MayPrecede (a b : PlacementDecision) : Type 0 where
  better : IsBetter a.verdict b.verdict → MayPrecede a b
  as_good :
      a.verdict ≡ b.verdict → SpareLe b.safe_to_place_bytes a.safe_to_place_bytes → MayPrecede a b

-- Each decision may stand before the next.
abbrev pub IsRanked : List PlacementDecision → Type 0
IsRanked [] = Unit
IsRanked (a ∷ []) = Unit
IsRanked (a ∷ b ∷ ds) = MayPrecede a b × IsRanked (b ∷ ds)

spare_le :
    (a b : Option ℤ) → ltb_ℤ (get_or b (negsuc 0)) (get_or a (negsuc 0)) ≡ false → SpareLe a b
spare_le none none e = tt
spare_le none (some b) e = ground arith
spare_le (some a) none e = ground arith
spare_le (some a) (some b) e = ground arith

may_precede :
    (v w : Verdict) (s t : Option ℤ)
    → pair_less (verdict_order w) (get_or t (negsuc 0)) (verdict_order v) (get_or s (negsuc 0))
      ≡ false
    → IsBetter v w ⊎ (v ≡ w) × SpareLe t s
may_precede safe safe s t e = inr (refl, spare_le t s e)
may_precede safe unknown s t e = inl safe_unknown
may_precede safe reject s t e = inl safe_reject
may_precede unknown safe s t e = cc
may_precede unknown unknown s t e = inr (refl, spare_le t s e)
may_precede unknown reject s t e = inl unknown_reject
may_precede reject safe s t e = cc
may_precede reject unknown s t e = cc
may_precede reject reject s t e = inr (refl, spare_le t s e)

decision-MayPrecede : (a b : PlacementDecision) → decision_less b a ≡ false → MayPrecede a b
unfolding decision_less
decision-MayPrecede a b e =
    elim (may_precede a.verdict b.verdict a.safe_to_place_bytes b.safe_to_place_bytes e) [
      | inl h ↦ better h
      | inr (same, le) ↦ as_good same le
    ]

IsOrdered-IsRanked : (ds : List PlacementDecision) → IsOrdered decision_less ds → IsRanked ds
IsOrdered-IsRanked [] h = tt
IsOrdered-IsRanked (a ∷ []) h = tt
IsOrdered-IsRanked (a ∷ b ∷ ds) h = (decision-MayPrecede a b h.0, IsOrdered-IsRanked (b ∷ ds) h.1)

module _ (floats : Floats) (calendar : Calendar) (paths : Pathlib) (host : Host)
    (requirements : PathRequirements floats.Float) (now : Option String) where
  abbrev pub evaluated : String → Result PlacementDecision
  evaluated path = evaluate_placement floats calendar paths host path requirements now

  unfoldable pub evaluate_all : List String → Result (List PlacementDecision)
  evaluate_all [] = ok []
  evaluate_all (path ∷ rest) = do
    decision ← evaluated path
    decisions ← evaluate_all rest
    ok (decision ∷ decisions)

  unfoldable pub rank_paths : List String → Result (List PlacementDecision)
  rank_paths declared_paths = do
    decisions ← evaluate_all declared_paths
    ok (stable_sort decision_less decisions)

  evaluate_all-cons :
      (path : String) (rest : List String) (ds : List PlacementDecision)
      → evaluate_all (path ∷ rest) ≡ ok ds
      → (d : PlacementDecision) × (evaluated path ≡ ok d)
        × (tail : List PlacementDecision) × (evaluate_all rest ≡ ok tail)
        × (ds ≡ d ∷ tail)
  unfolding evaluate_all
  evaluate_all-cons path rest ds e =
      let (d, at_path, then_rest) =
        >>=-eq-ok (evaluated path) (λ d. do tail ← evaluate_all rest; ok (d ∷ tail)) e in
      let (tail, at_rest, done) = >>=-eq-ok (evaluate_all rest) (λ tail. ok (d ∷ tail)) then_rest in
      (d, at_path, tail, at_rest, sym (ok-injective done))

  decision_origin :
      (declared : List String) (ds : List PlacementDecision) (d : PlacementDecision)
      → evaluate_all declared ≡ ok ds
      → In d ds
      → (path : String) × In path declared × (evaluated path ≡ ok d)
  unfolding evaluate_all
  decision_origin [] ds d e m = absurd (subst (In d) (ok-injective (sym e)) m)
  decision_origin (path ∷ rest) ds d e m =
      let (x, at_path, tail, at_rest, same) = evaluate_all-cons path rest ds e in
      elim (subst (In d) same m) [
        | inl here ↦ (path, inl refl, rw here at_path)
        | inr there ↦
            let (p, listed, at_p) = decision_origin rest tail d at_rest there in
            (p, inr listed, at_p)
      ]

  path_listed :
      (declared : List String) (ds : List PlacementDecision) (path : String)
      → evaluate_all declared ≡ ok ds
      → In path declared
      → (d : PlacementDecision) × In d ds × (evaluated path ≡ ok d)
  path_listed [] ds path e m = absurd m
  path_listed (p ∷ rest) ds path e m =
      let (x, at_p, tail, at_rest, same) = evaluate_all-cons p rest ds e in
      elim m [
        | inl here ↦ (x, subst (In x) (sym same) (inl refl), rw here at_p)
        | inr there ↦
            let (d, listed, at_path) = path_listed rest tail path at_rest there in
            (d, subst (In d) (sym same) (inr listed), at_path)
      ]

  -- A ranking of the declared paths: safe ones first, then unknown, then rejected, and more spare
  -- bytes first among those of one verdict; its decisions are those of the paths.
  pub record IsRanking (declared : List String) (ranked : List PlacementDecision) : Type 0 where
    pub ordered : IsRanked ranked
    pub decided :
        (d : PlacementDecision)
        → In d ranked
        → (path : String) × In path declared × (evaluated path ≡ ok d)
    pub complete :
        (path : String)
        → In path declared
        → (d : PlacementDecision) × In d ranked × (evaluated path ≡ ok d)

  -- What `rank_paths` returns has the decision of each declared path and no other decision, the safe
  -- ones first, then the unknown, then the rejected, and among those of one verdict none before one
  -- with more spare bytes, where an unknown amount stands at -1.
  pub rank_paths-IsRanking :
      (declared : List String) (ranked : List PlacementDecision)
      → rank_paths declared ≡ ok ranked
      → IsRanking declared ranked
  unfolding rank_paths
  rank_paths-IsRanking declared ranked e =
      let (ds, at_all, done) =
        >>=-eq-ok (evaluate_all declared) (λ ds. ok (stable_sort decision_less ds)) e in
      subst (IsRanking declared) (ok-injective done) (record {
        ordered =
            IsOrdered-IsRanked (stable_sort decision_less ds)
              (stable_sort-IsOrdered decision_less decision_less_asymmetric ds);
        decided = λ d m. decision_origin declared ds d at_all ((In-sort decision_less d ds).0 m);
        complete = λ path m.
            let (d, listed, at_path) = path_listed declared ds path at_all m in
            (d, (In-sort decision_less d ds).1 listed, at_path);
      })
