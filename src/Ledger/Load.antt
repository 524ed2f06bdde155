-- ===== src/Ledger/Load.antt =====
-- What a file of src/local_agent_dispatch/ledger/store.py holds, and what `EventStore` reads of it.
-- `loads` is `json.loads`, `none` where it raises, and `strip` is `str.strip`.
use local_agent_dispatch.Ledger.Json.{object, Value, Fields}
use local_agent_dispatch.Ledger.Store.{
  LedgerError, validation, store_error, EventStore, empty_store, append,
}
use local_agent_dispatch.Prelude.Keys.{◌=?◌, string_eq}
use local_agent_dispatch.Prelude.Outcome.{Outcome, returned, raised, ◌>>=◌}
use local_agent_dispatch.Prelude.{ℕ, String, Bool, Option, none, some, List, [], ◌∷◌, if◌then◌else◌}

-- `_read_jsonl`, of the lines of a file.
unfoldable pub read_jsonl :
    (String → Option Value) → (String → String) → List String → Outcome LedgerError (List Value)
read_jsonl loads strip [] = returned []
read_jsonl loads strip (line ∷ lines) =
    let rest = read_jsonl loads strip lines in
    if strip line =? "" then rest else elim (loads (strip line)) [
      | none ↦ raised store_error
      | some payload ↦ rest >>= λ payloads. returned (payload ∷ payloads)
    ]

module _ (is_decimal : ℕ → Bool) (dumps : Fields → String) where
  -- The loop of `__init__`, where what is no mapping is refused by `validate_event`.
  unfoldable pub append_payloads : List Value → EventStore → Outcome LedgerError EventStore
  append_payloads [] s = returned s
  append_payloads (object e ∷ payloads) s = do
    (result, after) ← append is_decimal dumps e s
    append_payloads payloads after
  append_payloads (payload ∷ payloads) s = raised validation

  -- EventStore(path), of a file with these lines.
  unfoldable pub load :
      (String → Option Value) → (String → String) → List String → Outcome LedgerError EventStore
  load loads strip lines = do
    payloads ← read_jsonl loads strip lines
    append_payloads payloads (empty_store (some lines))
