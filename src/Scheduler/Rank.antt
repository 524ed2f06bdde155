-- ===== src/Scheduler/Rank.antt =====
-- `rank_candidates` of src/local_agent_dispatch/scheduler/core.py. Python's `sort` is stable and
-- ascending; the insertion here gives the same list.
use local_agent_dispatch.Prelude.Dict
use local_agent_dispatch.Prelude.Dict.{Dict}
use local_agent_dispatch.Prelude.Keys.{string_less, string_eq}
use local_agent_dispatch.Prelude.{
  ℕ, String, Bool, true, false, Option, none, some, List, [], ◌∷◌, get_or, ltb, if◌then◌else◌,
}
use local_agent_dispatch.Prelude.Sort.{stable_sort, first}
use local_agent_dispatch.Scheduler.Assess.{assess_candidate}
use local_agent_dispatch.Scheduler.Model.{
  WorkloadRequirements, CandidateTarget, ResourceUsage, no_usage, AssessmentVerdict, eligible,
  unknown, reject, is_eligible, CandidateAssessment, Decision, place, blocked, PlacementPlan,
}
use local_agent_dispatch.Topology.Paths.{Pathlib}
use local_agent_dispatch.World.Fault.{Result, ok, ◌>>=◌}
use local_agent_dispatch.World.Floats.{Floats}
use local_agent_dispatch.World.Observation.{Calendar}

abbrev pub verdict_rank : AssessmentVerdict → ℕ
verdict_rank eligible = 0
verdict_rank unknown = 1
verdict_rank reject = 2

module _ (floats : Floats) where
  open floats use {Float, whole, neg, lt}

  -- `-(row.score or 0.0)`
  abbrev pub score_key : CandidateAssessment Float → Float
  score_key a = neg (get_or a.score (whole 0))

  -- The order of the key tuples.
  unfoldable pub key_less : CandidateAssessment Float → CandidateAssessment Float → Bool
  key_less a b =
      if ltb (verdict_rank a.verdict) (verdict_rank b.verdict)
      then true
      else if ltb (verdict_rank b.verdict) (verdict_rank a.verdict)
      then false
      else if lt (score_key a) (score_key b)
      then true
      else if lt (score_key b) (score_key a)
      then false
      else string_less a.target_id b.target_id

module _ (floats : Floats) (calendar : Calendar) (paths : Pathlib) (now : Option String) where
  open floats use {Float}

  unfoldable pub assess_all :
      List (CandidateTarget Float)
      → WorkloadRequirements Float
      → Dict String ResourceUsage
      → Result (List (CandidateAssessment Float))
  assess_all [] r usage = ok []
  assess_all (c ∷ cs) r usage = do
    row ←
        assess_candidate floats calendar paths now c r
          (get_or (Dict.get c.target_id usage) no_usage)
    rows ← assess_all cs r usage
    ok (row ∷ rows)

  abbrev pub selected_id : Option (CandidateAssessment Float) → Option String
  selected_id none = none
  selected_id (some row) = some row.target_id

  abbrev pub decision_of : Option (CandidateAssessment Float) → Decision
  decision_of none = blocked
  decision_of (some row) = place

  abbrev pub plan_of : String → List (CandidateAssessment Float) → PlacementPlan Float
  plan_of job_id rows =
      let selected = first (λ row. is_eligible row.verdict) rows in
      record {
        job_id = job_id;
        decision = decision_of selected;
        selected_target_id = selected_id selected;
        assessments = rows;
      }

  unfoldable pub rank_candidates :
      List (CandidateTarget Float)
      → WorkloadRequirements Float
      → Dict String ResourceUsage
      → Result (PlacementPlan Float)
  rank_candidates cs r usage = do
    rows ← assess_all cs r usage
    ok (plan_of r.job_id (stable_sort (key_less floats) rows))
