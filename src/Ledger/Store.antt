-- ===== src/Ledger/Store.antt =====
-- `EventStore` of src/local_agent_dispatch/ledger/store.py. A file is its lines; `dumps` is
-- `json.dumps(record, sort_keys=True)`, and `is_decimal` the class `\d` of Python's re module.
use local_agent_dispatch.Ledger.Event.{is_text, text_of, is_valid_event}
use local_agent_dispatch.Ledger.Json.{
  Value, null, text, object, Fields, end, field, find, without, dict_beq,
}
use local_agent_dispatch.Prelude.Dict
use local_agent_dispatch.Prelude.Dict.{Dict}
use local_agent_dispatch.Prelude.Keys.{is_in, ◌=?◌, string_eq}
use local_agent_dispatch.Prelude.Outcome.{Outcome, returned, raised, ◌>>=◌, ◌>>◌, raise_if}
use local_agent_dispatch.Prelude.{
  ℕ, String, Bool, true, false, not, ◌&&◌, ◌||◌, Option, none, some, List, [], ◌∷◌, ◌++◌, any,
  is_some, map, if◌then◌else◌,
}

-- The exception classes; `store_error` is a plain ProvenanceStoreError,
-- key_error, value_error and index_error are Python's own.
pub data LedgerError : Type 0 where
  validation secret_leak duplicate_conflict orphan store_error key_error value_error index_error :
      LedgerError

-- What `append` returns.
pub data AppendResult : Type 0 where
  appended duplicate : AppendResult

pub record EventStore : Type 0 where
  pub events : List Fields
  pub by_id : Dict String Fields
  pub by_idempotency : Dict String Fields
  pub file : Option (List String)

-- EventStore(), and EventStore(path) with a file that is not there yet.
abbrev pub empty_store : Option (List String) → EventStore
empty_store file = record { events = []; by_id = []; by_idempotency = []; file = file }

-- _FORBIDDEN_SECRET_KEYS
abbrev pub forbidden_secret_keys : List String
forbidden_secret_keys =
    "prompt_body" ∷ "context_body" ∷ "prompt" ∷ "prompt_text" ∷ "credentials" ∷ "credential"
    ∷ "api_key" ∷ "auth_token" ∷ "access_token" ∷ "secret" ∷ "password" ∷ "ssh_key" ∷ []

-- `_reject_secrets` raises: a forbidden key here, or in a dict that is a value here.
unfoldable mutual
  pub has_secret : Fields → Bool
  has_secret end = false
  has_secret (field k v fs) = is_in k forbidden_secret_keys || holds_secret v || has_secret fs

  pub holds_secret : Value → Bool
  holds_secret (object fs) = has_secret fs
  holds_secret _ = false

-- `record[k]`, of a field that a valid event has as a text.
abbrev pub required_text : String → Fields → Outcome LedgerError String
required_text k record_fields = elim (text_of (find k record_fields)) [
  | none ↦ raised key_error
  | some s ↦ returned s
]

-- `project_attempt_chain`
unfoldable pub project_attempt_chain : String → List Fields → List Fields
project_attempt_chain attempt_id [] = []
project_attempt_chain attempt_id (e ∷ es) =
    if is_text attempt_id (find "attempt_id" e)
    then e ∷ project_attempt_chain attempt_id es
    else project_attempt_chain attempt_id es

abbrev pub has_type : String → Fields → Bool
has_type t e = is_text t (find "event_type" e)

-- `[item for item in chain if item.get("event_type") == t][-1]`
unfoldable pub last_of : String → List Fields → Option Fields
last_of t [] = none
last_of t (e ∷ es) = elim (last_of t es) [
  | some later ↦ some later
  | none ↦ if has_type t e then some e else none
]

-- `found is not None and found.get(k) == s`
abbrev pub last_is : String → String → Option Fields → Bool
last_is k s none = false
last_is k s (some e) = is_text s (find k e)

-- `a == b` on two optional values of which the second is a text.
abbrev pub same_text : Option Value → Option String → Bool
same_text v none = false
same_text v (some s) = is_text s v

-- Its causal parent is this review.
abbrev pub caused_by : Option Fields → Fields → Bool
caused_by none e = false
caused_by (some review) e = same_text (find "causal_parent" e) (text_of (find "event_id" review))

unfoldable pub promotion_allowed : Fields → List Fields → Bool
promotion_allowed e chain =
    any (has_type "attempt.completed") chain
    && last_is "outcome" "passed" (last_of "attempt.validation" chain)
    && last_is "decision" "approve" (last_of "attempt.review" chain)
    && caused_by (last_of "attempt.review" chain) e
    && same_text (find "review_event_id" e) (text_of (find "causal_parent" e))

-- `_validate_claim_promotion` returns; each of its refusals is a ProvenanceStoreError.
unfoldable pub may_promote : Fields → List Fields → Bool
may_promote e events = elim (text_of (find "attempt_id" e)) [
  | none ↦ false
  | some attempt_id ↦
      not (attempt_id =? "") && promotion_allowed e (project_attempt_chain attempt_id events)
]

-- A dict of `existing` and of the new record, both without the event's identifier.
abbrev pub same_but_id : Fields → Fields → Bool
same_but_id existing record_fields =
    dict_beq (without "event_id" existing) (without "event_id" record_fields)

-- `parent is not None and parent not in self._by_id`
abbrev pub is_orphan : Option Value → Dict String Fields → Bool
is_orphan none by_id = true
is_orphan (some null) by_id = false
is_orphan (some (text parent)) by_id = not (is_some (Dict.get parent by_id))
is_orphan (some _) by_id = true

module _ (is_decimal : ℕ → Bool) (dumps : Fields → String) where
  abbrev pub written : Fields → Option (List String) → Option (List String)
  written e none = none
  written e (some lines) = some (lines ++ dumps e ∷ [])

  -- The four writes.
  unfoldable pub recorded : Fields → String → String → EventStore → EventStore
  recorded e event_id idempotency_key s = record {
    events = s.events ++ e ∷ [];
    by_id = Dict.put event_id e s.by_id;
    by_idempotency = Dict.put idempotency_key e s.by_idempotency;
    file = written e s.file;
  }

  -- The tests of a record whose identifier and key are new.
  unfoldable pub append_new :
      Fields → String → String → EventStore → Outcome LedgerError (AppendResult × EventStore)
  append_new e event_id idempotency_key s = do
    raise_if (is_orphan (find "causal_parent" e) s.by_id) orphan
    raise_if (has_type "claim.promoted" e && not (may_promote e s.events)) store_error
    returned (appended, recorded e event_id idempotency_key s)

  unfoldable pub append_known_key :
      Fields
      → String
      → String
      → Option Fields
      → EventStore
      → Outcome LedgerError (AppendResult × EventStore)
  append_known_key e event_id idempotency_key none s = append_new e event_id idempotency_key s
  append_known_key e event_id idempotency_key (some existing) s =
      if is_text event_id (find "event_id" existing)
      then returned (duplicate, s)
      else if same_but_id existing e
      then returned (duplicate, s)
      else raised duplicate_conflict

  unfoldable pub append_known :
      Fields
      → String
      → String
      → Option Fields
      → EventStore
      → Outcome LedgerError (AppendResult × EventStore)
  append_known e event_id idempotency_key none s =
      append_known_key e event_id idempotency_key (Dict.get idempotency_key s.by_idempotency) s
  append_known e event_id idempotency_key (some existing) s =
      if dict_beq existing e then returned (duplicate, s) else raised duplicate_conflict

  unfoldable pub append : Fields → EventStore → Outcome LedgerError (AppendResult × EventStore)
  append e s = do
    raise_if (not (is_valid_event is_decimal e)) validation
    raise_if (has_secret e) secret_leak
    event_id ← required_text "event_id" e
    idempotency_key ← required_text "idempotency_key" e
    append_known e event_id idempotency_key (Dict.get event_id s.by_id) s

  -- The loop of `__init__`, of which no store is left when it raises.
  unfoldable pub append_all : List Fields → EventStore → Outcome LedgerError EventStore
  append_all [] s = returned s
  append_all (e ∷ es) s = do (result, after) ← append e s; append_all es after

  abbrev pub with_result :
      AppendResult
      → Outcome LedgerError (List AppendResult) × EventStore
      → Outcome LedgerError (List AppendResult) × EventStore
  with_result r (raised e, s) = (raised e, s)
  with_result r (returned rs, s) = (returned (r ∷ rs), s)

  abbrev pub with_rest :
      (EventStore → Outcome LedgerError (List AppendResult) × EventStore)
      → EventStore
      → Outcome LedgerError (AppendResult × EventStore)
      → Outcome LedgerError (List AppendResult) × EventStore
  with_rest rest s (raised x) = (raised x, s)
  with_rest rest s (returned (r, after)) = with_result r (rest after)

  -- The results, or the first exception, and the store, which keeps what was appended before it.
  unfoldable pub append_many :
      List Fields → EventStore → Outcome LedgerError (List AppendResult) × EventStore
  append_many [] s = (returned [], s)
  append_many (e ∷ es) s = with_rest (append_many es) s (append e s)

  -- Of a path that is given, or that the store has.
  unfoldable pub write_jsonl : EventStore → EventStore
  write_jsonl s = record {
    events = s.events;
    by_id = s.by_id;
    by_idempotency = s.by_idempotency;
    file = some (map dumps s.events);
  }
