-- ===== src/Scheduler/Selection.antt =====
-- Which target `rank_candidates` of src/local_agent_dispatch/scheduler/core.py selects.
use local_agent_dispatch.Prelude.Dict
use local_agent_dispatch.Prelude.Dict.{Dict}
use local_agent_dispatch.Prelude.Keys.{string_eq}
use local_agent_dispatch.Prelude.Sort.{In-sort, stable_sort, first}
use local_agent_dispatch.Prelude.{
  String, ◌≡◌, ◌≢◌, refl, inl, inr, Bool, true, false, Option, none, some, List, [], ◌∷◌, get_or,
  arith, Bool-cases, In, Option-cases, sym, ◌∙◌, subst,
}
use local_agent_dispatch.Scheduler.Assess.{assess_candidate, assessment}
use local_agent_dispatch.Scheduler.Model.{
  WorkloadRequirements, CandidateTarget, ResourceUsage, no_usage, eligible, is_eligible,
  CandidateAssessment, PlacementPlan,
}
use local_agent_dispatch.Scheduler.Rank.{key_less, assess_all, selected_id, rank_candidates}
use local_agent_dispatch.Topology.Paths.{Pathlib}
use local_agent_dispatch.World.Fault.{Result, ok, ◌>>=◌, >>=-eq-ok, ok-injective}
use local_agent_dispatch.World.Floats.{Floats}
use local_agent_dispatch.World.Observation.{Calendar}

module _ {A : Type 0} (test : A → Bool) where
  first-some : (xs : List A) (x : A) → first test xs ≡ some x → In x xs × (test x ≡ true)
  unfolding first
  first-some [] x e = cc
  first-some (y ∷ ys) x e = elim (Bool-cases (test y)) [
    | inl found ↦ ground arith
    | inr later ↦ ground (arith, first-some ys x)
  ]

  first-none : (xs : List A) (x : A) → first test xs ≡ none → In x xs → test x ≡ false
  unfolding first
  first-none [] x e m = absurd m
  first-none (y ∷ ys) x e m = ground (arith, first-none ys x)

module _ (floats : Floats) (calendar : Calendar) (paths : Pathlib) (now : Option String)
    (r : WorkloadRequirements floats.Float) (usage : Dict String ResourceUsage) where
  open floats use {Float}

  -- What the scheduler counts as reserved on a target.
  abbrev pub reserved_on : CandidateTarget Float → ResourceUsage
  reserved_on c = get_or (Dict.get c.target_id usage) no_usage

  abbrev pub assessed : CandidateTarget Float → Result (CandidateAssessment Float)
  assessed c = assess_candidate floats calendar paths now c r (reserved_on c)

  assessed_id :
      (c : CandidateTarget Float) (a : CandidateAssessment Float)
      → assessed c ≡ ok a
      → a.target_id ≡ c.target_id
  unfolding assess_candidate assessment
  assessed_id c a e = ground arith

  abbrev Rows : Type 0
  Rows = List (CandidateAssessment Float)

  abbrev all_assessed : List (CandidateTarget Float) → Result Rows
  all_assessed cs = assess_all floats calendar paths now cs r usage

  assess_all-cons :
      (c : CandidateTarget Float) (cs : List (CandidateTarget Float)) (rows : Rows)
      → all_assessed (c ∷ cs) ≡ ok rows
      → (a : CandidateAssessment Float) × (assessed c ≡ ok a)
        × (rest : Rows) × (all_assessed cs ≡ ok rest)
        × (rows ≡ a ∷ rest)
  unfolding assess_all
  assess_all-cons c cs rows e =
      let (a, at_c, tail) =
        >>=-eq-ok (assessed c) (λ a. do rest ← all_assessed cs; ok (a ∷ rest)) e in
      let (rest, at_cs, done) = >>=-eq-ok (all_assessed cs) (λ rest. ok (a ∷ rest)) tail in
      (a, at_c, rest, at_cs, sym (ok-injective done))

  row_origin :
      (cs : List (CandidateTarget Float)) (rows : Rows) (a : CandidateAssessment Float)
      → all_assessed cs ≡ ok rows
      → In a rows
      → (c : CandidateTarget Float) × In c cs × (assessed c ≡ ok a)
  unfolding assess_all
  row_origin [] rows a e m = absurd (subst (In a) (ok-injective (sym e)) m)
  row_origin (c ∷ cs) rows a e m =
      let (b, at_c, rest, at_cs, same) = assess_all-cons c cs rows e in
      elim (subst (In a) same m) [
        | inl here ↦ (c, inl refl, rw here at_c)
        | inr there ↦
            let (d, listed, at_d) = row_origin cs rest a at_cs there in (d, inr listed, at_d)
      ]

  row_listed :
      (cs : List (CandidateTarget Float)) (rows : Rows) (c : CandidateTarget Float)
      → all_assessed cs ≡ ok rows
      → In c cs
      → (a : CandidateAssessment Float) × In a rows × (assessed c ≡ ok a)
  row_listed [] rows c e m = absurd m
  row_listed (d ∷ cs) rows c e m =
      let (b, at_d, rest, at_cs, same) = assess_all-cons d cs rows e in
      elim m [
        | inl here ↦ (b, rw same (inl refl), rw here at_d)
        | inr there ↦
            let (a, listed, at_c) = row_listed cs rest c at_cs there in
            (a, rw same (inr listed), at_c)
      ]

  rank_chain :
      (cs : List (CandidateTarget Float)) (plan : PlacementPlan Float)
      → rank_candidates floats calendar paths now cs r usage ≡ ok plan
      → (rows : Rows) × (all_assessed cs ≡ ok rows)
        × (plan.assessments ≡ stable_sort (key_less floats) rows)
        × (plan.selected_target_id
            ≡ selected_id floats calendar paths now
                (first (λ row. is_eligible row.verdict) (stable_sort (key_less floats) rows)))
  unfolding rank_candidates
  rank_chain cs plan e = ground arith

  abbrev selected_name : Option (CandidateAssessment Float) → Option String
  selected_name = selected_id floats calendar paths now

  none_selected :
      {o : Option (CandidateAssessment Float)} {t : String}
      → o ≡ none
      → selected_name o ≡ some t
      → ⊥
  none_selected {o} e s = ground arith

  some_selected :
      {o : Option (CandidateAssessment Float)} (a : CandidateAssessment Float) {t : String}
      → o ≡ some a
      → selected_name o ≡ some t
      → a.target_id ≡ t
  some_selected a e s = ground arith

  some_ne_none :
      {o : Option (CandidateAssessment Float)} {a : CandidateAssessment Float}
      → o ≡ some a
      → selected_name o ≡ none
      → ⊥
  some_ne_none e s = ground arith

  -- A target is selected only if a candidate of that name was assessed as eligible against what is
  -- reserved on it.
  pub rank_candidates-selected :
      (cs : List (CandidateTarget Float)) (plan : PlacementPlan Float) (t : String)
      → rank_candidates floats calendar paths now cs r usage ≡ ok plan
      → plan.selected_target_id ≡ some t
      → (c : CandidateTarget Float) × In c cs
        × (c.target_id ≡ t)
        × (a : CandidateAssessment Float) × (assessed c ≡ ok a)
        × (a.verdict ≡ eligible)
  rank_candidates-selected cs plan t e s =
      let (rows, at_cs, _, sel) = rank_chain cs plan e in
      let sorted = stable_sort (key_less floats) rows in
      let test = λ (row : CandidateAssessment Float). is_eligible row.verdict in
      elim (Option-cases (first test sorted)) [
        | inl nothing ↦ absurd (none_selected nothing (sym sel ∙ s))
        | inr (a, found) ↦
            let (m, passes) = first-some test sorted a found in
            let (c, listed, at_c) =
              row_origin cs rows a at_cs ((In-sort (key_less floats) a rows).0 m) in
            let named = some_selected a found (sym sel ∙ s) in
            (c, listed, sym (assessed_id c a at_c) ∙ named, a, at_c, ground arith)
      ]

  -- A plan without a selection means that no candidate was assessed as eligible.
  pub rank_candidates-blocked :
      (cs : List (CandidateTarget Float)) (plan : PlacementPlan Float) (c : CandidateTarget Float)
      (a : CandidateAssessment Float)
      → rank_candidates floats calendar paths now cs r usage ≡ ok plan
      → plan.selected_target_id ≡ none
      → In c cs
      → assessed c ≡ ok a
      → a.verdict ≢ eligible
  rank_candidates-blocked cs plan c a e s m at_c v =
      let (rows, at_cs, _, sel) = rank_chain cs plan e in
      let sorted = stable_sort (key_less floats) rows in
      let test = λ (row : CandidateAssessment Float). is_eligible row.verdict in
      let (b, listed, at_b) = row_listed cs rows c at_cs m in
      let same : b ≡ a = ok-injective (sym at_b ∙ at_c) in
      elim (Option-cases (first test sorted)) [
        | inl nothing ↦
            let fails =
              first-none test sorted b nothing ((In-sort (key_less floats) b rows).1 listed) in
            ground arith
        | inr (x, found) ↦ absurd (some_ne_none found (sym sel ∙ s))
      ]
