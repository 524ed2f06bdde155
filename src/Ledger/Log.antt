-- ===== src/Ledger/Log.antt =====
-- The stores that appends lead to (src/local_agent_dispatch/ledger/store.py): what stands in their
-- list of events, and how the two dictionaries index it.
use local_agent_dispatch.Ledger.Index.{IsIndex, IsIndex-put, IsIndex-empty}
use local_agent_dispatch.Ledger.Append.{IsAccepted, append-eq-returned}
use local_agent_dispatch.Ledger.Event.{text_of, is_valid_event}
use local_agent_dispatch.Ledger.Json.{text, Value, Fields, find}
use local_agent_dispatch.Ledger.Secrets.{IsSecretKey, Inside, has_secret-Inside}
use local_agent_dispatch.Ledger.Store.{
  AppendResult, EventStore, empty_store, has_secret, has_type, may_promote, is_orphan, recorded,
  append, append_all, append_many, with_result, with_rest, LedgerError,
}
use local_agent_dispatch.Prelude.Dict
use local_agent_dispatch.Prelude.Dict.{Dict, get-put, get-put_self}
use local_agent_dispatch.Prelude.Keys.{string_eq}
use local_agent_dispatch.Prelude.Members.{append-split, empty-split}
use local_agent_dispatch.Prelude.Outcome.{
  Outcome, returned, raised, >>=-eq-returned, returned-injective,
}
use local_agent_dispatch.Prelude.{
  ℕ, String, ◌≡◌, ◌≢◌, refl, sym, ap, ◌∙◌, subst, inl, inr, Bool, true, false, not, Option, none,
  some, is_some, List, [], ◌∷◌, ◌++◌, arith, Option-cases, none≢some, true≢false,
}
use mathlib.Core.List.{Memᴰ}

-- What an event meets, given the events before it.
pub record IsAdmitted (is_decimal : ℕ → Bool) (before : List Fields) (e : Fields) : Type 0 where
  pub event_id : String
  pub idempotency_key : String
  pub names : text_of (find "event_id" e) ≡ some event_id
  pub keys : text_of (find "idempotency_key" e) ≡ some idempotency_key
  pub valid : is_valid_event is_decimal e ≡ true
  pub clean : has_secret e ≡ false
  pub no_secret : (d : Fields) → Inside e d → (k : String) → IsSecretKey k → find k d ≡ none
  pub new_id : (x : Fields) → Memᴰ x before → text_of (find "event_id" x) ≢ some event_id
  pub new_key :
      (x : Fields) → Memᴰ x before → text_of (find "idempotency_key" x) ≢ some idempotency_key
  pub parent_before :
      (p : String)
      → find "causal_parent" e ≡ some (text p)
      → (x : Fields) × Memᴰ x before × (text_of (find "event_id" x) ≡ some p)
  pub promotable : has_type "claim.promoted" e ≡ true → may_promote e before ≡ true

pub record IsLog (is_decimal : ℕ → Bool) (s : EventStore) : Type 0 where
  pub ids : IsIndex "event_id" s.by_id s.events
  pub keys : IsIndex "idempotency_key" s.by_idempotency s.events
  pub admitted :
      (before after : List Fields) (e : Fields)
      → s.events ≡ before ++ e ∷ after
      → IsAdmitted is_decimal before e

-- What the appends that return lead to, from a store on a file with these lines.
pub data IsReachable (is_decimal : ℕ → Bool) (dumps : Fields → String) (file : Option (List String))
    : EventStore → Type 0 where
  opened : IsReachable is_decimal dumps file (empty_store file)
  stepped :
      (e : Fields) {r : AppendResult} {s t : EventStore}
      → append is_decimal dumps e s ≡ returned (r, t)
      → IsReachable is_decimal dumps file s
      → IsReachable is_decimal dumps file t

known_parent-held :
    (s : EventStore) (v : Option Value) (p : String)
    → is_orphan v s.by_id ≡ false
    → v ≡ some (text p)
    → (x : Fields) × (Dict.get p s.by_id ≡ some x)
known_parent-held s v p known is_p = elim (Option-cases (Dict.get p s.by_id)) [
  | inl missing ↦ absurd (
      true≢false (
        sym (ap (λ o. not (is_some o)) missing)
        ∙ subst (λ o. is_orphan o s.by_id ≡ false) is_p known))
  | inr there ↦ there
]

module _ (is_decimal : ℕ → Bool) (dumps : Fields → String) where
  IsAccepted-IsAdmitted :
      (e : Fields) (i k : String) (s : EventStore)
      → IsLog is_decimal s
      → IsAccepted is_decimal e i k s
      → IsAdmitted is_decimal s.events e
  IsAccepted-IsAdmitted e i k s log h = record {
    event_id = i;
    idempotency_key = k;
    names = h.names;
    keys = h.keys;
    valid = h.valid;
    clean = h.clean;
    no_secret = has_secret-Inside h.clean;
    new_id = λ x there same. none≢some (sym h.new_id ∙ log.ids.held i x there same);
    new_key = λ x there same. none≢some (sym h.new_key ∙ log.keys.held k x there same);
    parent_before = λ p is_p.
        let (x, there) = known_parent-held s (find "causal_parent" e) p h.known_parent is_p in
        let (member, named) = log.ids.found p x there in (x, member, named);
    promotable = λ promoted. ground (arith, promoted, h.promotable);
  }

  IsLog-recorded :
      (e : Fields) (i k : String) (s : EventStore)
      → IsLog is_decimal s
      → IsAccepted is_decimal e i k s
      → IsLog is_decimal (recorded is_decimal dumps e i k s)
  unfolding recorded
  IsLog-recorded e i k s log h = record {
    ids = IsIndex-put "event_id" i e s.by_id s.events log.ids h.new_id h.names;
    keys = IsIndex-put "idempotency_key" k e s.by_idempotency s.events log.keys h.new_key h.keys;
    admitted = λ before after x split. elim (append-split before after s.events split) [
      | inl (rest, e) ↦ log.admitted before rest x e
      | inr (all, last) ↦
          subst (λ y. IsAdmitted is_decimal before y) (sym last)
            (subst (λ es. IsAdmitted is_decimal es e) (sym all)
              (IsAccepted-IsAdmitted e i k s log h))
    ];
  }

  IsLog-empty : (file : Option (List String)) → IsLog is_decimal (empty_store file)
  IsLog-empty file = record {
    ids = IsIndex-empty "event_id";
    keys = IsIndex-empty "idempotency_key";
    admitted = λ before after e split. absurd (empty-split before after e split);
  }

  -- In every store that appends lead to: each event passes the tests of its fields, has no forbidden key,
  -- in itself or in a dict that is a value in it at any depth (lists are not looked into), bears an
  -- identifier and a key that no earlier event has, has its causal parent among the earlier events, and
  -- passes the tests of a promotion over them; the two dictionaries hold exactly the events, under their
  -- identifiers and keys.
  pub IsReachable-IsLog :
      (file : Option (List String)) {s : EventStore}
      → IsReachable is_decimal dumps file s
      → IsLog is_decimal s
  IsReachable-IsLog file opened = IsLog-empty file
  IsReachable-IsLog file (stepped e {s = s} h before) =
      elim (append-eq-returned is_decimal dumps e s h) [
        | inl (i, k, accepted, _, is_recorded) ↦
            subst (λ t. IsLog is_decimal t) (sym is_recorded)
              (IsLog-recorded e i k s (IsReachable-IsLog file before) accepted)
        | inr (_, same) ↦ subst (λ t. IsLog is_decimal t) (sym same) (IsReachable-IsLog file before)
      ]

  pub append_all-IsReachable :
      (file : Option (List String)) (es : List Fields) {s t : EventStore}
      → append_all is_decimal dumps es s ≡ returned t
      → IsReachable is_decimal dumps file s
      → IsReachable is_decimal dumps file t
  unfolding append_all
  append_all-IsReachable file [] h before =
      subst (λ u. IsReachable is_decimal dumps file u) (returned-injective h) before
  append_all-IsReachable file (e ∷ es) {s} h before =
      let (first, h1, h2) = >>=-eq-returned (append is_decimal dumps e s) _ h in
      append_all-IsReachable file es h2 (stepped e {r = first.0} h1 before)

  -- Whether `append_many` returns or raises, the store that it leaves is one that appends lead to.
  pub append_many-IsReachable :
      (file : Option (List String)) (es : List Fields) {s : EventStore}
      → IsReachable is_decimal dumps file s
      → IsReachable is_decimal dumps file (append_many is_decimal dumps es s).1
  unfolding append_many
  append_many-IsReachable file [] before = before
  append_many-IsReachable file (e ∷ es) {s} before =
      after (λ t h. append_many-IsReachable file es {s = t} h) (append is_decimal dumps e s) refl
    where
      kept :
          (r : AppendResult) (p : Outcome LedgerError (List AppendResult) × EventStore)
          → IsReachable is_decimal dumps file p.1
          → IsReachable is_decimal dumps file (with_result is_decimal dumps r p).1
      kept r (raised x, t) h = h
      kept r (returned rs, t) h = h

      after :
          ((t : EventStore)
            → IsReachable is_decimal dumps file t
            → IsReachable is_decimal dumps file (append_many is_decimal dumps es t).1)
          → (o : Outcome LedgerError (AppendResult × EventStore)) → append is_decimal dumps e s ≡ o
          → IsReachable is_decimal dumps file
              (with_rest is_decimal dumps (append_many is_decimal dumps es) s o).1
      after rest (raised x) h = before
      after rest (returned (r, t)) h =
          kept r (append_many is_decimal dumps es t) (rest t (stepped e h before))
