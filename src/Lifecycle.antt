-- ===== src/Lifecycle.antt =====
-- `project_lifecycle` of src/local_agent_dispatch/domain/lifecycle.py. An event is given by the parts
-- that the projection reads, an event type that is missing being the empty text. Python's `strip` and
-- `lower` are a parameter.
pub mod Checks
use local_agent_dispatch.Prelude.Dict
use local_agent_dispatch.Prelude.Dict.{Dict}
use local_agent_dispatch.Prelude.Keys.{◌=?◌, string_eq}
use local_agent_dispatch.Prelude.{
  String, Bool, true, false, not, ◌&&◌, ◌||◌, Option, none, some, List, [], ◌∷◌, any, null, get_or,
  is_some, if◌then◌else◌,
}

pub record Event : Type 0 where
  pub event_type : String
  pub outcome : Option String
  pub decision : Option String

-- What a persisted validator result holds.
pub data ValidationRow : Type 0 where
  not_a_mapping : ValidationRow
  mapping : Option String → Option String → Option Bool → ValidationRow

pub record Lifecycle : Type 0 where
  pub planned : Bool
  pub executed : Bool
  pub completed : Bool
  pub validated : Bool
  pub validation_outcome : String
  pub reviewed : Bool
  pub review_decision : String
  pub claim_promoted : Bool
  pub status : String
  pub execution_status : String

-- EVENT_STATUS
abbrev pub event_status : Dict String String
event_status =
    ("attempt.queued", "queued")
    ∷ ("attempt.reserved", "reserved")
    ∷ ("attempt.claimed", "claimed")
    ∷ ("attempt.started", "started")
    ∷ ("attempt.heartbeat", "started")
    ∷ ("artifact.observed", "started")
    ∷ ("attempt.validation", "started")
    ∷ ("attempt.completed", "completed")
    ∷ ("attempt.failed", "failed")
    ∷ ("attempt.abandoned", "abandoned")
    ∷ ("attempt.review", "review")
    ∷ ("claim.promoted", "claim_promoted")
    ∷ []

abbrev pub is_in : String → List String → Bool
is_in s texts = any (λ t. s =? t) texts

-- _EXECUTED_ATTEMPT_STATES
abbrev pub executed_attempt_states : List String
executed_attempt_states = "running" ∷ "completed" ∷ "failed" ∷ "retry" ∷ "abandoned" ∷ "review" ∷ []

-- _JOB_EXECUTED_STATES
abbrev pub job_executed_states : List String
job_executed_states = "running" ∷ "completed" ∷ "failed" ∷ "retry" ∷ "blocked" ∷ "pending" ∷ []

-- The types of the events that show an execution.
abbrev pub execution_events : List String
execution_events =
    "attempt.started" ∷ "attempt.heartbeat" ∷ "artifact.observed" ∷ "attempt.validation"
    ∷ "attempt.completed" ∷ "attempt.failed" ∷ "attempt.abandoned" ∷ []

-- `a or b` on texts that may be missing.
abbrev pub or_text : Option String → Option String → Option String
or_text none b = b
or_text (some a) b = if a =? "" then b else some a

-- `outcome if outcome in {"passed", "failed"} else other`
abbrev pub outcome_or : String → Option String → String
outcome_or other none = other
outcome_or other (some o) = if is_in o ("passed" ∷ "failed" ∷ []) then o else other

abbrev ok_outcome : Option Bool → String
ok_outcome none = "unknown"
ok_outcome (some true) = "passed"
ok_outcome (some false) = "failed"

-- `_validation_outcome`
unfoldable pub validation_outcome_of : ValidationRow → String
validation_outcome_of not_a_mapping = "unknown"
validation_outcome_of (mapping outcome status ok) =
    outcome_or (ok_outcome ok) (or_text outcome status)

-- The last event of a type.
unfoldable pub last_of : String → List Event → Option Event
last_of t [] = none
last_of t (e ∷ es) = elim (last_of t es) [
  | some later ↦ some later
  | none ↦ if e.event_type =? t then some e else none
]

unfoldable pub has_event : String → List Event → Bool
has_event t es = any (λ e. e.event_type =? t) es

abbrev pub latest_validation : Option Event → ValidationRow → String
latest_validation none row = validation_outcome_of row
latest_validation (some e) row = outcome_or "unknown" e.outcome

abbrev pub decision_of_review : Option Event → String
decision_of_review none = "unknown"
decision_of_review (some e) = get_or e.decision "unknown"

unfoldable pub last_type : List Event → String
last_type [] = ""
last_type (e ∷ []) = e.event_type
last_type (e ∷ f ∷ es) = last_type (f ∷ es)

-- The overlay of promotion and review, then the rows, then the last event.
abbrev pub status_of : Bool → Bool → String → String → List Event → String
status_of promoted reviewed raw_attempt raw_job chain =
    if promoted
    then "claim_promoted"
    else if reviewed
    then "review"
    else if is_in raw_attempt executed_attempt_states
        || is_in raw_attempt ("queued" ∷ "reserved" ∷ "claimed" ∷ [])
    then raw_attempt
    else if is_in raw_job job_executed_states || is_in raw_job ("queued" ∷ "retry" ∷ [])
    then raw_job
    else if not (null chain)
    then get_or (Dict.get (last_type chain) event_status) "unknown"
    else "unknown"

abbrev pub execution_status_of : Bool → String → String → String → List Event → String
execution_status_of completed status raw_attempt raw_job chain =
    if (raw_attempt =? "failed") || has_event "attempt.failed" chain
    then "failed"
    else if (raw_attempt =? "abandoned") || has_event "attempt.abandoned" chain
    then "abandoned"
    else if raw_attempt =? "retry"
    then "retry"
    else if (raw_attempt =? "running") || (raw_job =? "running")
    then "running"
    else if completed
    then "completed"
    else status

module _ (clean : String → String) where
  -- `str(status or "").strip().lower()`
  abbrev pub raw : Option String → String
  raw status = clean (get_or status "")

  unfoldable pub project_lifecycle :
      List Event → Option String → Option String → ValidationRow → Lifecycle
  project_lifecycle chain job_status attempt_status validation =
      let raw_attempt = raw attempt_status in
      let raw_job = raw job_status in
      let latest = latest_validation (last_of "attempt.validation" chain) validation in
      let completed =
        has_event "attempt.completed" chain
        || (raw_attempt =? "completed")
        || (raw_job =? "completed") in
      let reviewed = has_event "attempt.review" chain in
      let promoted = has_event "claim.promoted" chain in
      let status = status_of promoted reviewed raw_attempt raw_job chain in
      record {
        planned = not (null chain) || not (raw_attempt =? "") || not (raw_job =? "");
        executed =
            any (λ e. is_in e.event_type execution_events) chain
            || is_in raw_attempt executed_attempt_states
            || is_in raw_job job_executed_states;
        completed = completed;
        validated = completed && (latest =? "passed");
        validation_outcome = latest;
        reviewed = reviewed;
        review_decision = decision_of_review (last_of "attempt.review" chain);
        claim_promoted = promoted;
        status = status;
        execution_status = execution_status_of completed status raw_attempt raw_job chain;
      }
