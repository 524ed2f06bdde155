-- ===== src/Scheduler/Book/Outcomes.antt =====
-- What a call of `reserve_best` or `reconcile` (src/local_agent_dispatch/scheduler/core.py) that
-- returned has done.
use local_agent_dispatch.Prelude.Dict
use local_agent_dispatch.Prelude.Keys.{string_eq}
use local_agent_dispatch.Prelude.{
  ℕ, ◌+◌, String, ◌≡◌, refl, subst, ◌⊎◌, inl, inr, false, Option, none, some, List, arith,
  Bool-cases,
}
use local_agent_dispatch.Scheduler.Book.Reserve.{
  plan, new_row, record_row, reserve_target, reserve_new, replay, reserve_known, reserve_best,
  is_expected,
}
use local_agent_dispatch.Scheduler.Book.State.{Reservation, Book, Outside, Placed}
use local_agent_dispatch.Scheduler.Model.{WorkloadRequirements, CandidateTarget, PlacementPlan}
use local_agent_dispatch.Topology.Paths.{Pathlib}
use local_agent_dispatch.World.Fault.{ok, >>=-eq-ok, ok-injective}
use local_agent_dispatch.World.Floats.{Floats}
use local_agent_dispatch.World.Observation.{Calendar}

module _ (floats : Floats) (calendar : Calendar) (paths : Pathlib) (outside : Outside floats.Float)
    (now : Option String) where
  open floats use {Float}
  open outside use {digest, is_blank}

  -- The key names a reservation of the same request, which is returned with its plan.
  pub record IsReplay (r : WorkloadRequirements Float) (key : String) (b : Book Float)
      (placed : Placed Float) : Type 0 where
    pub id : String
    pub known : Dict.get key b.by_idempotency ≡ some id
    pub existing : Reservation
    pub kept : Dict.get id b.reservations ≡ some existing
    pub has_plan : Dict.get id b.plans_by_reservation ≡ some (placed.0)
    pub same_request : existing.request_digest ≡ digest r
    pub returned : placed.1 ≡ some existing

  -- A new reservation of the target that the plan selects.
  pub record IsNew (cs : List (CandidateTarget Float)) (r : WorkloadRequirements Float)
      (key : String) (b : Book Float) (placed : Placed Float) (b' : Book Float) : Type 0 where
    pub unknown : Dict.get key b.by_idempotency ≡ none
    pub planned : plan floats calendar paths outside now cs r b ≡ ok (placed.0)
    pub target : String
    pub selected : placed.0.selected_target_id ≡ some target
    pub returned :
        placed.1 ≡ some (new_row floats calendar paths outside now r key target (b.revision + 1))
    pub recorded :
        b'
        ≡ record_row floats calendar paths outside now
            (placed.0)
            (new_row floats calendar paths outside now r key target (b.revision + 1))
            b

  -- Nothing is eligible.
  pub record IsBlocked (b : Book Float) (placed : Placed Float) (b' : Book Float) : Type 0 where
    pub nothing : placed.1 ≡ none
    pub unchanged : b' ≡ b

  replay-eq-ok :
      (r : WorkloadRequirements Float) (o : Option Reservation) (q : Option (PlacementPlan Float))
      (b : Book Float) {x : Placed Float × Book Float}
      → replay floats calendar paths outside now r o q b ≡ ok x
      → (existing : Reservation) × (o ≡ some existing)
        × (q ≡ some (x.0.0))
        × (existing.request_digest ≡ digest r)
        × (x.0.1 ≡ some existing)
        × (x.1 ≡ b)
  replay-eq-ok r (some x) (some y) b e =
      ground (arith, string_eq.beq_iff x.request_digest (digest r))
  replay-eq-ok r (some x) none b e = ground arith
  replay-eq-ok r none q b e = ground arith

  abbrev Wrote :
      List (CandidateTarget Float)
      → WorkloadRequirements Float
      → String
      → Book Float
      → Placed Float × Book Float
      → Type 0
  Wrote cs r key b x = IsNew cs r key b (x.0) (x.1) ⊎ IsBlocked b (x.0) (x.1)

  reserve_target-Wrote :
      (cs : List (CandidateTarget Float)) (r : WorkloadRequirements Float) (key : String)
      (b : Book Float) (p : PlacementPlan Float) (t : Option String)
      → Dict.get key b.by_idempotency ≡ none
      → plan floats calendar paths outside now cs r b ≡ ok p
      → p.selected_target_id ≡ t
      → Wrote cs r key b (reserve_target floats calendar paths outside now p t r key b)
  reserve_target-Wrote cs r key b p none u planned sel =
      inr (record { nothing = refl; unchanged = refl })
  reserve_target-Wrote cs r key b p (some t) u planned sel = inl (record {
    unknown = u;
    planned = planned;
    target = t;
    selected = sel;
    returned = refl;
    recorded = refl;
  })

  reserve_new-Wrote :
      (cs : List (CandidateTarget Float)) (r : WorkloadRequirements Float) (key : String)
      (expected : Option ℕ) (b : Book Float) {x : Placed Float × Book Float}
      → Dict.get key b.by_idempotency ≡ none
      → reserve_new floats calendar paths outside now cs r key expected b ≡ ok x
      → Wrote cs r key b x
  reserve_new-Wrote cs r key expected b u e =
      elim (Bool-cases (is_expected floats calendar paths outside now expected b.revision)) [
        | inl current ↦
            let (p, planned, done) =
              >>=-eq-ok (plan floats calendar paths outside now cs r b)
                (λ p.
                  ok (
                    reserve_target floats calendar paths outside now p p.selected_target_id r key
                      b))
                (rw current at e) in
            subst (Wrote cs r key b) (ok-injective done)
              (reserve_target-Wrote cs r key b p p.selected_target_id u planned refl)
        | inr stale ↦ ground arith
      ]

  abbrev Outcome :
      List (CandidateTarget Float)
      → WorkloadRequirements Float
      → String
      → Book Float
      → Placed Float × Book Float
      → Type 0
  Outcome cs r key b x = (IsReplay r key b (x.0) × (x.1 ≡ b)) ⊎ Wrote cs r key b x

  reserve_known-Outcome :
      (cs : List (CandidateTarget Float)) (r : WorkloadRequirements Float) (key : String)
      (expected : Option ℕ) (b : Book Float) (o : Option String) {x : Placed Float × Book Float}
      → Dict.get key b.by_idempotency ≡ o
      → reserve_known floats calendar paths outside now cs r key expected o b ≡ ok x
      → Outcome cs r key b x
  reserve_known-Outcome cs r key expected b none u e =
      inr (reserve_new-Wrote cs r key expected b u e)
  reserve_known-Outcome cs r key expected b (some id) u e =
      let (existing, kept, has_plan, same, returned, unchanged) =
        replay-eq-ok r (Dict.get id b.reservations) (Dict.get id b.plans_by_reservation) b e in
      inl (
        record {
          id = id;
          known = u;
          existing = existing;
          kept = kept;
          has_plan = has_plan;
          same_request = same;
          returned = returned;
        },
        unchanged,
      )

  -- A call that returned was given a key that is not blank, and replayed, reserved, or found nothing.
  pub reserve_best-eq-ok :
      (cs : List (CandidateTarget Float)) (r : WorkloadRequirements Float) (key : String)
      (expected : Option ℕ) (b : Book Float) {x : Placed Float × Book Float}
      → reserve_best floats calendar paths outside now cs r key expected b ≡ ok x
      → (is_blank key ≡ false) × Outcome cs r key b x
  unfolding reserve_best
  reserve_best-eq-ok cs r key expected b e = elim (Bool-cases (is_blank key)) [
    | inl blank ↦ ground arith
    | inr written ↦ (
      written,
      reserve_known-Outcome cs r key expected b (Dict.get key b.by_idempotency) refl
          (rw written at e),
    )
  ]
