-- ===== src/Examples/Liveness.antt =====
-- The liveness reconciler on a ledger with an attempt that fell silent, of which the process is dead.
use local_agent_dispatch.Examples.Ledger.{is_digit, name_line, event}
use local_agent_dispatch.Ledger.Event.{is_valid_event}
use local_agent_dispatch.Ledger.Json.{
  number, text, null, Fields, end, field, find, value_beq, size, without, fields_within,
}
use local_agent_dispatch.Ledger.Liveness.{
  attempt_ids_but, emit, emit_unless_alive, reconcile_last, reconcile_attempt, reconcile_each,
  reconcile,
}
use local_agent_dispatch.Ledger.Log.{IsReachable, opened, stepped}
use local_agent_dispatch.Ledger.Patterns
use local_agent_dispatch.Ledger.Preserved.{IsExtended, reconcile-IsExtended}
use local_agent_dispatch.Ledger.Store.{
  EventStore, appended, empty_store, has_secret, holds_secret, last_of, project_attempt_chain,
  may_promote, promotion_allowed, recorded, append_new, append_known_key, append_known, append,
}
use local_agent_dispatch.Ledger.Terminal.{LivenessReconciler, kept}
use local_agent_dispatch.Prelude.Dict
use local_agent_dispatch.Prelude.Dict.{Dict}
use local_agent_dispatch.Prelude.Int.{ℤ, pos, ◌-ℤ◌}
use local_agent_dispatch.Prelude.Keys.{◌=?◌, string_eq}
use local_agent_dispatch.Prelude.{
  String, ◌≡◌, refl, Bool, false, Option, none, some, [], ◌∷◌, map, if◌then◌else◌,
}

abbrev started : Fields
started = event "attempt.started" "e1" null (field "pid" (text "77") end)

abbrev silent : EventStore
silent = record {
  events = started ∷ [];
  by_id = ("e1", started) ∷ [];
  by_idempotency = ("e1", started) ∷ [];
  file = none;
}

silent-IsReachable : IsReachable is_digit name_line none silent
unfolding append append_known append_known_key append_new recorded is_valid_event has_secret
    holds_secret find may_promote promotion_allowed last_of project_attempt_chain Dict.get Dict.put
    value_beq Patterns.is_timestamp Patterns.match_places Patterns.codes Patterns.after
    Patterns.is_digest Patterns.hex_run size without fields_within
silent-IsReachable = stepped started {r = appended} {s = empty_store none} refl opened

abbrev an_hour_later : String
an_hour_later = "2026-07-01T09:00:00Z"

abbrev reconciler : LivenessReconciler
reconciler = record {
  stale_after = pos 600000000;
  now = an_hour_later;
  confidence = number (pos 1) 1;
}

abbrev clock : String → Option ℤ
clock t = if t =? an_hour_later then some (pos 3600000000) else some (pos 0)

abbrev pids : Dict String Bool
pids = ("77", false) ∷ []

reconcile-IsExtended_example :
    IsExtended is_digit name_line none pids silent
      (reconcile (λ name. name) clock is_digit name_line reconciler pids silent).1
reconcile-IsExtended_example =
    reconcile-IsExtended is_digit name_line none pids (λ name. name) clock reconciler silent
      silent-IsReachable

abandoned_once :
    map
      (λ e. find "event_type" e)
      (reconcile (λ name. name) clock is_digit name_line reconciler pids silent).1.events
    ≡ some (text "attempt.started") ∷ some (text "attempt.abandoned") ∷ []
unfolding reconcile reconcile_each reconcile_attempt reconcile_last emit_unless_alive emit
    attempt_ids_but kept ◌-ℤ◌ append append_known append_known_key append_new recorded
    is_valid_event has_secret holds_secret find may_promote promotion_allowed last_of
    project_attempt_chain Dict.get Dict.put value_beq Patterns.is_timestamp Patterns.match_places
    Patterns.codes Patterns.after Patterns.is_digest Patterns.hex_run size without fields_within
abandoned_once = refl
