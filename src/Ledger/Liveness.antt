-- ===== src/Ledger/Liveness.antt =====
-- `LivenessReconciler.reconcile` of src/local_agent_dispatch/ledger/store.py. Times are in
-- microseconds; `parse_iso` is `none` where it raises ValueError, and `uuid5` as in Terminal.
use local_agent_dispatch.Ledger.Event.{text_of}
use local_agent_dispatch.Ledger.Json.{Fields, find}
use local_agent_dispatch.Ledger.Store.{
  LedgerError, value_error, index_error, EventStore, required_text, project_attempt_chain,
}
use local_agent_dispatch.Ledger.Store
use local_agent_dispatch.Ledger.Terminal.{LivenessReconciler, terminal_event}
use local_agent_dispatch.Prelude.Dict
use local_agent_dispatch.Prelude.Dict.{Dict}
use local_agent_dispatch.Prelude.Int.{ℤ, ◌-ℤ◌, ltb_ℤ}
use local_agent_dispatch.Prelude.Keys.{is_in, ◌=?◌, string_eq}
use local_agent_dispatch.Prelude.Outcome.{Outcome, returned, raised, ◌>>=◌}
use local_agent_dispatch.Prelude.{
  ℕ, String, Bool, true, false, not, ◌&&◌, Option, none, some, List, [], ◌∷◌, any, if◌then◌else◌,
}

-- TERMINAL_EVENT_TYPES
abbrev pub terminal_event_types : List String
terminal_event_types =
    "attempt.completed" ∷ "attempt.failed" ∷ "attempt.abandoned" ∷ "attempt.review"
    ∷ "claim.promoted" ∷ []

-- Attempts in first-seen order, of which those in `known` have been seen.
unfoldable pub attempt_ids_but : List String → List Fields → List String
attempt_ids_but known [] = []
attempt_ids_but known (e ∷ es) = elim (text_of (find "attempt_id" e)) [
  | none ↦ attempt_ids_but known es
  | some a ↦
      let rest = attempt_ids_but known es in
      let others = attempt_ids_but (a ∷ known) es in
      if not (a =? "") && not (is_in a known) then a ∷ others else rest
]

abbrev pub attempt_ids : EventStore → List String
attempt_ids s = attempt_ids_but [] s.events

abbrev pub is_terminal : Fields → Bool
is_terminal e = elim (text_of (find "event_type" e)) [
  | none ↦ false
  | some t ↦ is_in t terminal_event_types
]

-- `chain[-1]`
abbrev pub last_event : List Fields → Option Fields
last_event [] = none
last_event (e ∷ []) = some e
last_event (e ∷ f ∷ es) = last_event (f ∷ es)

-- What is known of a process identifier.
pub data Liveness : Type 0 where
  alive dead unconfirmed : Liveness

abbrev pub liveness : Option String → Dict String Bool → Liveness
liveness none pid_alive = unconfirmed
liveness (some pid) pid_alive = elim (Dict.get pid pid_alive) [
  | none ↦ unconfirmed
  | some true ↦ alive
  | some false ↦ dead
]

abbrev pub time_or : ℤ → Option ℤ → ℤ
time_or now none = now
time_or now (some t) = t

module _ (uuid5 : String → String) (parse_iso : String → Option ℤ) where
  module _ (is_decimal : ℕ → Bool) (dumps : Fields → String) where
    unfoldable pub emit :
        LivenessReconciler
        → String
        → Fields
        → Bool
        → EventStore
        → Outcome LedgerError (Option Fields × EventStore)
    emit r attempt_id last ended s = do
      parent ← required_text "event_id" last
      (result, after) ←
          Store.append is_decimal dumps (terminal_event uuid5 r attempt_id last parent ended) s
      returned (some (terminal_event uuid5 r attempt_id last parent ended), after)

    unfoldable pub emit_unless_alive :
        LivenessReconciler
        → String
        → Fields
        → Liveness
        → EventStore
        → Outcome LedgerError (Option Fields × EventStore)
    emit_unless_alive r attempt_id last alive s = returned (none, s)
    emit_unless_alive r attempt_id last dead s = emit r attempt_id last true s
    emit_unless_alive r attempt_id last unconfirmed s = emit r attempt_id last false s

    unfoldable pub reconcile_last :
        LivenessReconciler
        → Dict String Bool
        → ℤ
        → String
        → Option Fields
        → EventStore
        → Outcome LedgerError (Option Fields × EventStore)
    reconcile_last r pid_alive now attempt_id none s = raised index_error
    reconcile_last r pid_alive now attempt_id (some last) s = do
      timestamp ← required_text "timestamp" last
      if ltb_ℤ (now -ℤ time_or now (parse_iso timestamp)) r.stale_after
          then returned (none, s)
          else emit_unless_alive r attempt_id last (liveness (text_of (find "pid" last)) pid_alive)
              s

    -- One round of the loop: the event that it makes, if any.
    unfoldable pub reconcile_attempt :
        LivenessReconciler
        → Dict String Bool
        → ℤ
        → String
        → EventStore
        → Outcome LedgerError (Option Fields × EventStore)
    reconcile_attempt r pid_alive now attempt_id s =
        let chain = project_attempt_chain attempt_id s.events in
        if any is_terminal chain
        then returned (none, s)
        else reconcile_last r pid_alive now attempt_id (last_event chain) s

    -- The events that were made, or the first exception, and the store that is left.
    abbrev pub Reconciled : Type 0
    Reconciled = Outcome LedgerError (List Fields) × EventStore

    abbrev pub with_created : Option Fields → Reconciled → Reconciled
    with_created none (o, s) = (o, s)
    with_created (some e) (raised x, s) = (raised x, s)
    with_created (some e) (returned es, s) = (returned (e ∷ es), s)

    abbrev pub with_others :
        (EventStore → Reconciled)
        → EventStore
        → Outcome LedgerError (Option Fields × EventStore)
        → Reconciled
    with_others rest s (raised x) = (raised x, s)
    with_others rest s (returned (created, after)) = with_created created (rest after)

    unfoldable pub reconcile_each :
        LivenessReconciler → Dict String Bool → ℤ → List String → EventStore → Reconciled
    reconcile_each r pid_alive now [] s = (returned [], s)
    reconcile_each r pid_alive now (a ∷ attempts) s =
        with_others (reconcile_each r pid_alive now attempts) s
          (reconcile_attempt r pid_alive now a s)

    abbrev pub reconcile_from :
        LivenessReconciler → Dict String Bool → Option ℤ → EventStore → Reconciled
    reconcile_from r pid_alive none s = (raised value_error, s)
    reconcile_from r pid_alive (some now) s = reconcile_each r pid_alive now (attempt_ids s) s

    unfoldable pub reconcile : LivenessReconciler → Dict String Bool → EventStore → Reconciled
    reconcile r pid_alive s = reconcile_from r pid_alive (parse_iso r.now) s
