-- ===== src/Ledger/Event.antt =====
-- `validate_event` of src/local_agent_dispatch/domain/events.py. `is_decimal` is the class `\d` of
-- Python's re module.
use local_agent_dispatch.Ledger.Json.{
  Value, number, text, Fields, find, has, value_beq, is_nonempty_text, is_absent_or,
}
use local_agent_dispatch.Ledger.Patterns.{is_digest, is_timestamp, codes, after}
use local_agent_dispatch.Prelude.Int.{pos, pos_part, neg_part}
use local_agent_dispatch.Prelude.Keys.{is_in, ◌=?◌, string_eq}
use local_agent_dispatch.Prelude.{
  ℕ, String, Bool, true, false, not, ◌&&◌, ◌||◌, Option, none, some, List, [], ◌∷◌, all, is_some,
  leb, ◌==◌,
}
use Prim.Native.Nat.{◌^◌}

-- EVENT_TYPES
abbrev pub event_types : List String
event_types =
    "attempt.queued" ∷ "attempt.reserved" ∷ "attempt.claimed" ∷ "attempt.started"
    ∷ "attempt.heartbeat" ∷ "artifact.observed" ∷ "attempt.validation" ∷ "attempt.completed"
    ∷ "attempt.failed" ∷ "attempt.abandoned" ∷ "attempt.review" ∷ "claim.promoted"
    ∷ "run.segment.started" ∷ "run.segment.finished" ∷ "run.segment.adopted" ∷ "checkpoint.recorded"
    ∷ "cleanup.intent" ∷ []

-- PRIVACY_CLASSES
abbrev pub privacy_classes : List String
privacy_classes = "public" ∷ "internal" ∷ "private" ∷ "unknown" ∷ []

-- REVIEW_DECISIONS
abbrev pub review_decisions : List String
review_decisions = "approve" ∷ "abandon" ∷ "reroute" ∷ "escalate" ∷ []

-- VALIDATION_OUTCOMES
abbrev pub validation_outcomes : List String
validation_outcomes = "passed" ∷ "failed" ∷ []

-- EVIDENCE_QUALITIES
abbrev pub evidence_qualities : List String
evidence_qualities = "full" ∷ "legacy_incomplete" ∷ "reconciled" ∷ "unknown" ∷ []

-- _DIGEST_FIELDS
abbrev pub digest_fields : List String
digest_fields =
    "cps_digest" ∷ "source_digest" ∷ "worktree_digest" ∷ "prompt_digest" ∷ "artifact_digest"
    ∷ "claim_contract_digest" ∷ []

-- _STRING_REF_FIELDS
abbrev pub string_ref_fields : List String
string_ref_fields =
    "mission_id" ∷ "task_id" ∷ "plan_revision_id" ∷ "assignment_id" ∷ "reservation_id"
    ∷ "policy_version_id" ∷ "run_id" ∷ "segment_id" ∷ "checkpoint_id" ∷ "provider" ∷ "pool_id"
    ∷ "model_id" ∷ "model_variant" ∷ "execution_host" ∷ "workload_host" ∷ "mount" ∷ "route"
    ∷ "validator" ∷ "prompt_ref" ∷ "claim_id" ∷ "review_event_id" ∷ []

-- `isinstance(v, str) and p(v)`
abbrev pub is_text_that : (String → Bool) → Option Value → Bool
is_text_that p (some (text s)) = p s
is_text_that p _ = false

-- The text of a field, where it has one.
abbrev pub text_of : Option Value → Option String
text_of (some (text s)) = some s
text_of _ = none

-- `v == s`
abbrev pub is_text : String → Option Value → Bool
is_text s v = is_text_that (λ t. t =? s) v

abbrev pub is_nonempty : String → Bool
is_nonempty s = not (s =? "")

-- A number, which no bool is, within [0, 1].
abbrev pub is_confidence : Option Value → Bool
is_confidence (some (number n k)) = (neg_part n == 0) && leb (pos_part n) (2 ^ k)
is_confidence _ = false

-- `event.get("schema_version") == 2`
abbrev pub is_version : Option Value → Bool
is_version none = false
is_version (some v) = value_beq v (number (pos 2) 0)

abbrev pub is_absent_or_in : List String → Option Value → Bool
is_absent_or_in texts v = is_absent_or (λ s. is_in s texts) v

-- `event_type.startswith(p)`
abbrev pub starts_with : String → Option Value → Bool
starts_with p (some (text s)) = is_some (after (codes p) (codes s))
starts_with p _ = false

-- The tests that stand under an `if event_type == …`.
abbrev pub only_if : Bool → Bool → Bool
only_if true b = b
only_if false b = true

module _ (is_decimal : ℕ → Bool) where
  abbrev is_envelope : Fields → Bool
  is_envelope event =
      is_version (find "schema_version" event)
      && is_text_that (λ s. is_in s event_types) (find "event_type" event)
      && is_nonempty_text (find "event_id" event)
      && is_text_that (is_timestamp is_decimal) (find "timestamp" event)
      && has "causal_parent" event
      && is_absent_or is_nonempty (find "causal_parent" event)
      && is_nonempty_text (find "source" event)
      && is_confidence (find "confidence" event)
      && is_text_that (λ s. is_in s privacy_classes) (find "privacy_class" event)
      && is_nonempty_text (find "idempotency_key" event)

  abbrev has_valid_refs : Fields → Bool
  has_valid_refs event =
      all (λ name. is_absent_or is_digest (find name event)) digest_fields
      && all (λ name. is_absent_or is_nonempty (find name event)) string_ref_fields

  abbrev is_promotion_form : Fields → Bool
  is_promotion_form event =
      all (λ name. is_nonempty_text (find name event))
        ("attempt_id" ∷ "claim_id" ∷ "review_event_id" ∷ [])
      && is_text_that is_digest (find "claim_contract_digest" event)
      && is_text "approve" (find "decision" event)

  abbrev has_valid_body : Fields → Bool
  has_valid_body event =
      let event_type = find "event_type" event in
      only_if (starts_with "attempt." event_type || starts_with "artifact." event_type)
        (is_nonempty_text (find "attempt_id" event))
      && only_if (is_text "artifact.observed" event_type) (
          all (λ name. is_nonempty_text (find name event)) ("artifact_id" ∷ "artifact_digest" ∷ []))
      && only_if (is_text "attempt.validation" event_type)
          (is_text_that (λ s. is_in s validation_outcomes) (find "outcome" event))
      && only_if (is_text "attempt.review" event_type)
          (is_text_that (λ s. is_in s review_decisions) (find "decision" event))
      && only_if (is_text "claim.promoted" event_type) (is_promotion_form event)

  -- `validate_event` returns; each of its refusals is a ProvenanceValidationError.
  unfoldable pub is_valid_event : Fields → Bool
  is_valid_event event =
      is_envelope event
      && has_valid_refs event
      && has_valid_body event
      && is_absent_or_in evidence_qualities (find "evidence_quality" event)
