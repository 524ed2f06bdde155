-- ===== src/Examples/Lifecycle.antt =====
-- An attempt whose first validation passed (src/local_agent_dispatch/domain/lifecycle.py).
use local_agent_dispatch.Lifecycle.Checks.{project_lifecycle-recheck, project_lifecycle-promotion}
use local_agent_dispatch.Lifecycle.{Event, Lifecycle, not_a_mapping, project_lifecycle}
use local_agent_dispatch.Prelude.{
  String, ◌≡◌, ◌≢◌, refl, false, Option, none, some, List, [], ◌∷◌, ◌++◌, arith,
}
use local_agent_dispatch.Prelude.Keys.{string_eq}

abbrev event : String → Option String → Event
event t outcome = record { event_type = t; outcome = outcome; decision = none }

abbrev passed_chain : List Event
passed_chain =
    event "attempt.started" none
    ∷ event "attempt.completed" none
    ∷ event "attempt.validation" (some "passed")
    ∷ []

abbrev recheck : Event
recheck = event "attempt.validation" (some "failed")

failed_not_passed : ◌≢◌ {A = Option String} (some "failed") (some "passed")
failed_not_passed e = ground (arith, e, string_eq.beq_iff "failed" "passed")

project_lifecycle-recheck_example :
    (project_lifecycle (λ s. s) (passed_chain ++ recheck ∷ []) none none not_a_mapping).validated
    ≡ false
project_lifecycle-recheck_example =
    project_lifecycle-recheck (λ s. s) passed_chain recheck none none not_a_mapping refl
      failed_not_passed

abbrev promotion : Event
promotion = event "claim.promoted" none

abbrev before : Lifecycle
before = project_lifecycle (λ s. s) passed_chain none none not_a_mapping

abbrev after : Lifecycle
after = project_lifecycle (λ s. s) (passed_chain ++ promotion ∷ []) none none not_a_mapping

project_lifecycle-promotion_example :
    (after.executed ≡ before.executed)
    × (after.completed ≡ before.completed)
    × (after.validated ≡ before.validated)
    × (after.validation_outcome ≡ before.validation_outcome)
    × (after.reviewed ≡ before.reviewed)
project_lifecycle-promotion_example =
    project_lifecycle-promotion (λ s. s) passed_chain promotion none none not_a_mapping refl
