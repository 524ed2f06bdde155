-- ===== src/Ledger/Conflicts.antt =====
-- Identifiers and idempotency keys that come again, in `EventStore.append` of
-- src/local_agent_dispatch/ledger/store.py.
use local_agent_dispatch.Ledger.Event.{is_text, text_of, is_valid_event}
use local_agent_dispatch.Ledger.Json.{Fields, end, field, find, dict_beq, without}
use local_agent_dispatch.Ledger.Log.{IsLog, IsReachable, IsReachable-IsLog}
use local_agent_dispatch.Ledger.Promotion.{Says, is_text-Says, text_of-Says}
use local_agent_dispatch.Ledger.Store.{
  duplicate_conflict, duplicate, EventStore, has_secret, required_text, append_known_key,
  append_known, append,
}
use local_agent_dispatch.Prelude.Dict
use local_agent_dispatch.Prelude.Keys.{◌=?◌, string_eq}
use local_agent_dispatch.Prelude.Outcome.{returned, raised}
use local_agent_dispatch.Prelude.{
  ℕ, String, ◌≡◌, refl, ap, ◌∙◌, Bool, true, false, Option, none, some, List, if◌then◌else◌,
}
use mathlib.Core.List.{Memᴰ}

required_text-eq-returned :
    (k s : String) (e : Fields) → Says k s e → required_text k e ≡ returned s
required_text-eq-returned k s e h = rw (required_text, h) refl

-- The fields of a dict that are not its identifier.
unfoldable pub other_fields : Fields → Fields
other_fields end = end
other_fields (field k v fs) =
    if k =? "event_id" then other_fields fs else field k v (other_fields fs)

without-other_fields : (fs : Fields) → without "event_id" fs ≡ other_fields fs
unfolding without other_fields
without-other_fields end = refl
without-other_fields (field k v fs) = rw (without-other_fields fs) refl

module _ (is_decimal : ℕ → Bool) (dumps : Fields → String) where
  -- Of a record that is valid and has no secret, what is left of `append` is the look-up.
  append-eq-known :
      (e : Fields) (i k : String) (s : EventStore)
      → is_valid_event is_decimal e ≡ true
      → has_secret e ≡ false
      → Says "event_id" i e
      → Says "idempotency_key" k e
      → append is_decimal dumps e s ≡ append_known is_decimal dumps e i k (Dict.get i s.by_id) s
  unfolding append
  append-eq-known e i k s valid clean named keyed =
      let id_read = required_text-eq-returned "event_id" i e named in
      let key_read = required_text-eq-returned "idempotency_key" k e keyed in
      rw (valid, clean, id_read, key_read) refl

  -- In a store that appends lead to, a record that is valid, holds no secret and bears the identifier of
  -- an event of the store is a duplicate if it equals that event, else it is refused with
  -- DuplicateConflictError; the idempotency key is of no account.
  pub append-known_id :
      (file : Option (List String)) (s : EventStore) (x e : Fields) (i k : String)
      → IsReachable is_decimal dumps file s
      → Memᴰ x s.events
      → Says "event_id" i x
      → is_valid_event is_decimal e ≡ true
      → has_secret e ≡ false
      → Says "event_id" i e
      → Says "idempotency_key" k e
      → append is_decimal dumps e s
        ≡ (if dict_beq x e then returned (duplicate, s) else raised duplicate_conflict)
  unfolding append_known
  append-known_id file s x e i k reached there x_named valid clean named keyed =
      let log = IsReachable-IsLog is_decimal dumps file reached in
      let known = log.ids.held i x there (ap text_of x_named) in
      append-eq-known e i k s valid clean named keyed ∙ rw known refl

  -- In a store that appends lead to, a record that is valid, holds no secret, bears an identifier that no
  -- event of the store has and the idempotency key of an event of the store is a duplicate if it equals
  -- that event but for the identifier, else it is refused with DuplicateConflictError.
  pub append-known_key :
      (file : Option (List String)) (s : EventStore) (x e : Fields) (i k : String)
      → IsReachable is_decimal dumps file s
      → Memᴰ x s.events
      → Says "idempotency_key" k x
      → is_valid_event is_decimal e ≡ true
      → has_secret e ≡ false
      → Says "event_id" i e
      → ((y : Fields) → Memᴰ y s.events → Says "event_id" i y → ⊥)
      → Says "idempotency_key" k e
      → append is_decimal dumps e s ≡ (
          if dict_beq (other_fields x) (other_fields e)
          then returned (duplicate, s)
          else raised duplicate_conflict)
  unfolding append_known append_known_key
  append-known_key file s x e i k reached there x_keyed valid clean named new_id keyed =
      let old_fields = without-other_fields x in
      let new_fields = without-other_fields e in
      let log = IsReachable-IsLog is_decimal dumps file reached in
      let key_known = log.keys.held k x there (ap text_of x_keyed) in
      let id_new = is_new (Dict.get i s.by_id) refl log in
      let other = is_other (is_text i (find "event_id" x)) refl in
      append-eq-known e i k s valid clean named keyed
      ∙ rw (id_new, key_known, other, old_fields, new_fields) refl
    where
      is_new :
          (o : Option Fields)
          → Dict.get i s.by_id ≡ o
          → IsLog is_decimal s
          → Dict.get i s.by_id ≡ none
      is_new none found log = found
      is_new (some y) found log =
          let (member, id) = log.ids.found i y found in
          absurd (new_id y member (text_of-Says "event_id" i y id))

      is_other :
          (b : Bool) → is_text i (find "event_id" x) ≡ b → is_text i (find "event_id" x) ≡ false
      is_other true same = absurd (new_id x there (is_text-Says "event_id" i x same))
      is_other false same = same
