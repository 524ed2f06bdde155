-- ===== src/Ledger/Append.antt =====
-- What an `append` of src/local_agent_dispatch/ledger/store.py that returned has tested and done.
use local_agent_dispatch.Ledger.Event.{text_of, is_valid_event}
use local_agent_dispatch.Ledger.Json.{Fields, find}
use local_agent_dispatch.Ledger.Store.{
  validation, secret_leak, orphan, store_error, AppendResult, appended, duplicate, EventStore,
  has_secret, has_type, required_text, may_promote, is_orphan, recorded, append_new, append,
  append_known, append_known_key,
}
use local_agent_dispatch.Prelude.Dict
use local_agent_dispatch.Prelude.Keys.{string_eq}
use local_agent_dispatch.Prelude.Outcome.{returned, >>=-eq-returned, raise_if-eq-returned}
use local_agent_dispatch.Prelude.{
  ℕ, String, ◌≡◌, refl, ◌⊎◌, inl, inr, Bool, true, false, not, ◌&&◌, Option, none, some, arith,
  Option-cases,
}

-- What is tested of a record that becomes a new event of a store.
pub record IsAccepted (is_decimal : ℕ → Bool) (e : Fields) (event_id idempotency_key : String)
    (s : EventStore) : Type 0 where
  pub valid : is_valid_event is_decimal e ≡ true
  pub clean : has_secret e ≡ false
  pub names : text_of (find "event_id" e) ≡ some event_id
  pub keys : text_of (find "idempotency_key" e) ≡ some idempotency_key
  pub new_id : Dict.get event_id s.by_id ≡ none
  pub new_key : Dict.get idempotency_key s.by_idempotency ≡ none
  pub known_parent : is_orphan (find "causal_parent" e) s.by_id ≡ false
  pub promotable : (has_type "claim.promoted" e && not (may_promote e s.events)) ≡ false

required_text-eq-returned :
    (k : String) (e : Fields) {s : String}
    → required_text k e ≡ returned s
    → text_of (find k e) ≡ some s
required_text-eq-returned k e h = elim (Option-cases (text_of (find k e))) [
  | inl missing ↦ absurd (ground (arith, h, missing))
  | inr (t, there) ↦ ground (arith, h, there)
]

module _ (is_decimal : ℕ → Bool) (dumps : Fields → String) where
  append_new-eq-returned :
      (e : Fields) (i k : String) (s : EventStore) {r : AppendResult} {t : EventStore}
      → append_new is_decimal dumps e i k s ≡ returned (r, t)
      → (is_orphan (find "causal_parent" e) s.by_id ≡ false)
        × ((has_type "claim.promoted" e && not (may_promote e s.events)) ≡ false)
        × (r ≡ appended)
        × (t ≡ recorded is_decimal dumps e i k s)
  unfolding append_new
  append_new-eq-returned e i k s h =
      let (known, h1) =
        raise_if-eq-returned (is_orphan (find "causal_parent" e) s.by_id) orphan _ h in
      let (gate, h2) =
        raise_if-eq-returned (has_type "claim.promoted" e && not (may_promote e s.events))
          store_error _ h1 in
      (known, gate, cc, cc)

  append_known_key-eq-returned :
      (e : Fields) (i k : String) (o : Option Fields) (s : EventStore) {r : AppendResult}
      {t : EventStore}
      → append_known_key is_decimal dumps e i k o s ≡ returned (r, t)
      → ((o ≡ none) × (append_new is_decimal dumps e i k s ≡ returned (r, t)))
        ⊎ ((r ≡ duplicate) × (t ≡ s))
  unfolding append_known_key
  append_known_key-eq-returned e i k none s h = inl (refl, h)
  append_known_key-eq-returned e i k (some existing) s h =
      inr (ground (arith, h), ground (arith, h))

  append_known-eq-returned :
      (e : Fields) (i k : String) (o : Option Fields) (s : EventStore) {r : AppendResult}
      {t : EventStore}
      → append_known is_decimal dumps e i k o s ≡ returned (r, t)
      → ((o ≡ none)
          × (append_known_key is_decimal dumps e i k (Dict.get k s.by_idempotency) s
              ≡ returned (r, t)))
        ⊎ ((r ≡ duplicate) × (t ≡ s))
  unfolding append_known
  append_known-eq-returned e i k none s h = inl (refl, h)
  append_known-eq-returned e i k (some existing) s h = inr (ground (arith, h), ground (arith, h))

  -- An append that returned has either recorded the event or left the store as it was.
  pub append-eq-returned :
      (e : Fields) (s : EventStore) {r : AppendResult} {t : EventStore}
      → append is_decimal dumps e s ≡ returned (r, t)
      → ((i : String) × (k : String) × IsAccepted is_decimal e i k s
          × (r ≡ appended)
          × (t ≡ recorded is_decimal dumps e i k s))
        ⊎ ((r ≡ duplicate) × (t ≡ s))
  unfolding append
  append-eq-returned e s h =
      let (valid, h1) = raise_if-eq-returned (not (is_valid_event is_decimal e)) validation _ h in
      let (clean, h2) = raise_if-eq-returned (has_secret e) secret_leak _ h1 in
      let (i, names, h3) = >>=-eq-returned (required_text "event_id" e) _ h2 in
      let (k, keys, h4) = >>=-eq-returned (required_text "idempotency_key" e) _ h3 in
      elim (append_known-eq-returned e i k _ s h4) [
        | inr same ↦ inr same
        | inl (new_id, h5) ↦ elim (append_known_key-eq-returned e i k _ s h5) [
          | inr same ↦ inr same
          | inl (new_key, h6) ↦
              let (known, gate, is_new, is_recorded) = append_new-eq-returned e i k s h6 in
              inl (
                i,
                k,
                record {
                  valid = ground (arith, valid);
                  clean = clean;
                  names = required_text-eq-returned "event_id" e names;
                  keys = required_text-eq-returned "idempotency_key" e keys;
                  new_id = new_id;
                  new_key = new_key;
                  known_parent = known;
                  promotable = gate;
                },
                is_new,
                is_recorded,
              )
        ]
      ]
