-- ===== src/Examples/Ledger.antt =====
-- The ledger of provenance events on a concrete run: an attempt that is queued, completed, validated,
-- reviewed and promoted.
use local_agent_dispatch.Ledger.Conflicts.{other_fields, append-known_id, append-known_key}
use local_agent_dispatch.Ledger.Event.{is_text, is_valid_event, text_of}
use local_agent_dispatch.Ledger.Json.{
  null, number, text, object, Value, Fields, end, field, find, size, without, value_beq,
  fields_within,
}
use local_agent_dispatch.Ledger.Load.{read_jsonl, append_payloads, load}
use local_agent_dispatch.Ledger.Log.{
  IsReachable, opened, IsLog, IsReachable-IsLog, append_all-IsReachable,
}
use local_agent_dispatch.Ledger.Patterns
use local_agent_dispatch.Ledger.Promotion.{Says, IsReviewed, promotion-IsReviewed}
use local_agent_dispatch.Ledger.Reopen.{IsRead, load-writes_again}
use local_agent_dispatch.Ledger.Replayed.{append_all-replays}
use local_agent_dispatch.Ledger.Store.{
  duplicate, duplicate_conflict, EventStore, empty_store, has_secret, holds_secret, last_of,
  project_attempt_chain, may_promote, promotion_allowed, recorded, append_new, append_known_key,
  append_known, append, append_all,
}
use local_agent_dispatch.Prelude.Dict
use local_agent_dispatch.Prelude.Int.{pos}
use local_agent_dispatch.Prelude.Keys.{◌=?◌, string_eq}
use local_agent_dispatch.Prelude.Members.{All-Mem}
use local_agent_dispatch.Prelude.Outcome.{returned, raised}
use local_agent_dispatch.Prelude.{
  ℕ, String, ◌≡◌, refl, sym, ap, ◌∙◌, true≢false, Bool, false, ◌&&◌, Option, none, some, List, [],
  ◌∷◌, ◌++◌, map, leb, if◌then◌else◌,
}
use mathlib.Core.List.{Memᴰ}

abbrev pub is_digit : ℕ → Bool
is_digit c = leb 48 c && leb c 57

abbrev pub name_line : Fields → String
name_line e = elim (text_of (find "event_id" e)) [ none ↦ "" | some s ↦ s ]

abbrev pub event : String → String → Value → Fields → Fields
event t i parent body = field "schema_version" (number (pos 2) 0) (
    field "event_type" (text t) (
      field "event_id" (text i) (
        field "timestamp" (text "2026-07-01T08:00:00Z") (
          field "causal_parent" parent (
            field "source" (text "worker") (
              field "confidence" (number (pos 3) 2) (
                field "privacy_class" (text "internal")
                  (field "idempotency_key" (text i) (field "attempt_id" (text "a1") body)))))))))

abbrev queued : Fields
queued = event "attempt.queued" "e1" null end

abbrev completed : Fields
completed = event "attempt.completed" "e2" (text "e1") end

abbrev validated : Fields
validated = event "attempt.validation" "e3" (text "e2") (field "outcome" (text "passed") end)

abbrev reviewed : Fields
reviewed = event "attempt.review" "e4" (text "e3") (field "decision" (text "approve") end)

abbrev contract : String
contract = "sha256:0123456789abcdef0123456789abcdef0123456789abcdef0123456789abcdef"

abbrev promoted : Fields
promoted = event "claim.promoted" "e5" (text "e4") (
    field "claim_id" (text "c1") (
      field "review_event_id" (text "e4")
        (field "claim_contract_digest" (text contract) (field "decision" (text "approve") end))))

abbrev all_events : List Fields
all_events = queued ∷ completed ∷ validated ∷ reviewed ∷ promoted ∷ []

abbrev final : EventStore
final = elim (append_all is_digit name_line all_events (empty_store (some []))) [
  | returned s ↦ s
  | raised _ ↦ empty_store none
]

run : append_all is_digit name_line all_events (empty_store (some [])) ≡ returned final
unfolding append_all append append_known append_known_key append_new recorded is_valid_event
    has_secret holds_secret find may_promote promotion_allowed last_of project_attempt_chain
    Dict.get Dict.put value_beq Patterns.is_timestamp Patterns.match_places Patterns.codes
    Patterns.after Patterns.is_digest Patterns.hex_run
run = refl

reached : IsReachable is_digit name_line (some []) final
reached = append_all-IsReachable is_digit name_line (some []) all_events run opened

-- An event that bears an identifier of the ledger, but another time.
abbrev changed : Fields
changed = event "attempt.queued" "e1" null (field "reason" (text "again") end)

-- An event under a new identifier and a key of the ledger.
abbrev repeated : Fields
repeated = field "schema_version" (number (pos 2) 0) (
    field "event_type" (text "attempt.queued") (
      field "event_id" (text "e9") (
        field "timestamp" (text "2026-07-01T08:00:00Z") (
          field "causal_parent" null (
            field "source" (text "worker") (
              field "confidence" (number (pos 3) 2) (
                field "privacy_class" (text "internal")
                  (field "idempotency_key" (text "e1") (field "attempt_id" (text "a1") end)))))))))

abbrev read_line : String → Option Value
read_line line =
    if line =? "e1"
    then some (object queued)
    else if line =? "e2"
    then some (object completed)
    else if line =? "e3"
    then some (object validated)
    else if line =? "e4"
    then some (object reviewed)
    else if line =? "e5"
    then some (object promoted)
    else none

IsReachable-IsLog_example : IsLog is_digit final
IsReachable-IsLog_example = IsReachable-IsLog is_digit name_line (some []) reached

append_all-replays_example :
    append_all is_digit name_line final.events (empty_store (some [])) ≡ returned final
append_all-replays_example = append_all-replays is_digit name_line (some []) reached

promotion-IsReviewed_example : IsReviewed (queued ∷ completed ∷ validated ∷ reviewed ∷ []) promoted
unfolding append_all append append_known append_known_key append_new recorded is_valid_event
    has_secret holds_secret find may_promote promotion_allowed last_of project_attempt_chain
    Dict.get Dict.put value_beq Patterns.is_timestamp Patterns.match_places Patterns.codes
    Patterns.after Patterns.is_digest Patterns.hex_run
promotion-IsReviewed_example =
    promotion-IsReviewed is_digit name_line (some [])
      (queued ∷ completed ∷ validated ∷ reviewed ∷ []) [] promoted reached refl refl

append-known_id_example : append is_digit name_line changed final ≡ raised duplicate_conflict
unfolding append_all append append_known append_known_key append_new recorded is_valid_event
    has_secret holds_secret find may_promote promotion_allowed last_of project_attempt_chain
    Dict.get Dict.put value_beq Patterns.is_timestamp Patterns.match_places Patterns.codes
    Patterns.after Patterns.is_digest Patterns.hex_run size
append-known_id_example =
    append-known_id is_digit name_line (some []) final queued changed "e1" "e1" reached
      (Memᴰ.head refl) refl refl refl refl refl

bears_other : (x : Fields) → is_text "e9" (find "event_id" x) ≡ false → Says "event_id" "e9" x → ⊥
bears_other x other h = true≢false (sym (ap (λ v. is_text "e9" v) h) ∙ other)

append-known_key_example : append is_digit name_line repeated final ≡ returned (duplicate, final)
unfolding append_all append append_known append_known_key append_new recorded is_valid_event
    has_secret holds_secret find may_promote promotion_allowed last_of project_attempt_chain
    Dict.get Dict.put value_beq Patterns.is_timestamp Patterns.match_places Patterns.codes
    Patterns.after Patterns.is_digest Patterns.hex_run size without fields_within other_fields
append-known_key_example =
    append-known_key is_digit name_line (some []) final queued repeated "e9" "e1" reached
      (Memᴰ.head refl) refl refl refl refl
      (All-Mem (λ x. Says "event_id" "e9" x → ⊥) all_events
        (
          bears_other queued refl,
          (
            bears_other completed refl,
            (
              bears_other validated refl,
              (bears_other reviewed refl, (bears_other promoted refl, tt)),
            ),
          ),
        ))
      refl

abbrev own_lines : List String
own_lines = "e1" ∷ "e2" ∷ "e3" ∷ "e4" ∷ "e5" ∷ []

abbrev opened_again : EventStore
opened_again = record final { file = some (own_lines ++ own_lines) }

opens_again : load is_digit name_line read_line (λ line. line) own_lines ≡ returned opened_again
unfolding append_all append append_known append_known_key append_new recorded is_valid_event
    has_secret holds_secret find may_promote promotion_allowed last_of project_attempt_chain
    Dict.get Dict.put value_beq Patterns.is_timestamp Patterns.match_places Patterns.codes
    Patterns.after Patterns.is_digest Patterns.hex_run size load read_jsonl append_payloads
opens_again = refl

load-writes_again_example :
    ((e : Fields)
      → Memᴰ e opened_again.events
      → IsRead read_line (λ line. line) (object e) own_lines)
    × (opened_again.file ≡ some (own_lines ++ map name_line opened_again.events))
load-writes_again_example =
    load-writes_again is_digit name_line read_line (λ line. line) own_lines opened_again opens_again
