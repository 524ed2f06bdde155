-- ===== src/Ledger/Terminal.antt =====
-- The events that end an attempt, as `LivenessReconciler` of src/local_agent_dispatch/ledger/store.py
-- makes them, with `stable_id` and `new_event` of domain/events.py. `uuid5` is the text of the
-- identifier of a name in the namespace of the module.
use local_agent_dispatch.Ledger.Event.{text_of}
use local_agent_dispatch.Ledger.Json.{null, boolean, number, text, Value, Fields, end, field, find}
use local_agent_dispatch.Prelude.Int.{ℤ, pos}
use local_agent_dispatch.Prelude.Keys.{string_eq}
use local_agent_dispatch.Prelude.{
  String, Bool, true, Option, none, some, List, [], ◌∷◌, if◌then◌else◌,
}
use Prim.Native.String.{◌++◌ as join_texts}

-- The fields that a terminal event takes from the last event of its attempt.
abbrev pub kept_fields : List String
kept_fields =
    "mission_id" ∷ "task_id" ∷ "plan_revision_id" ∷ "assignment_id" ∷ "reservation_id"
    ∷ "policy_version_id" ∷ "provider" ∷ "pool_id" ∷ "model_id" ∷ "model_variant" ∷ []

-- Its attributes but the store; stale_after_seconds in microseconds.
pub record LivenessReconciler : Type 0 where
  pub stale_after : ℤ
  pub now : String
  pub confidence : Value

abbrev pub optional_text : Option String → Value
optional_text none = null
optional_text (some s) = text s

-- The texts among the kept fields.
unfoldable pub kept : List String → Fields → Fields → Fields
kept [] last rest = rest
kept (name ∷ names) last rest = elim (text_of (find name last)) [
  | none ↦ kept names last rest
  | some s ↦ field name (text s) (kept names last rest)
]

abbrev pub kept_quality : Option Value → Fields
kept_quality none = end
kept_quality (some v) = field "evidence_quality" v end

abbrev pub privacy_of : Option Value → Value
privacy_of none = text "public"
privacy_of (some v) = v

module _ (uuid5 : String → String) where
  abbrev pub joined : List String → String
  joined [] = ""
  joined (part ∷ []) = part
  joined (part ∷ next ∷ parts) = join_texts part (join_texts ":" (joined (next ∷ parts)))

  -- stable_id("event", *parts)
  abbrev pub stable_id : List String → String
  stable_id parts = join_texts "event:" (uuid5 (joined parts))

  -- `new_event`, of a given time and a body.
  abbrev pub new_event : String → String → String → Value → Value → String → Value → Fields → Fields
  new_event event_type source key parent confidence timestamp privacy_class body =
      field "schema_version" (number (pos 2) 0) (
        field "event_id" (text (stable_id (key ∷ []))) (
          field "event_type" (text event_type) (
            field "timestamp" (text timestamp) (
              field "causal_parent" parent (
                field "source" (text source) (
                  field "confidence" confidence (
                    field "privacy_class" privacy_class
                      (field "idempotency_key" (text key) body))))))))

  abbrev pub payload : String → String → Option String → Bool → Fields → Fields
  payload attempt_id reason pid ended last = field "attempt_id" (text attempt_id) (
      field "reason" (text reason) (
        field "preserves_evidence" (boolean true) (
          field "pid" (optional_text pid) (
            if ended
            then kept kept_fields last (kept_quality (find "evidence_quality" last))
            else field "decision" (text "escalate")
                (kept kept_fields last (kept_quality (find "evidence_quality" last)))))))

  -- The event for a stale attempt, of a process that is dead or not known to be.
  abbrev pub terminal_event : LivenessReconciler → String → Fields → String → Bool → Fields
  terminal_event r attempt_id last parent ended =
      let event_type = if ended then "attempt.abandoned" else "attempt.review" in
      let reason = if ended then "stale_dead_pid" else "stale_unconfirmed_pid" in
      new_event event_type "liveness_reconciler"
        (stable_id ("reconcile" ∷ event_type ∷ attempt_id ∷ [])) (text parent) r.confidence r.now
        (privacy_of (find "privacy_class" last))
        (payload attempt_id reason (text_of (find "pid" last)) ended last)
