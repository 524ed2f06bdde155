-- ===== src/Ledger/Replayed.antt =====
-- The events of a store of src/local_agent_dispatch/ledger/store.py appended again, and its file.
use local_agent_dispatch.Ledger.Append.{IsAccepted, append-eq-returned}
use local_agent_dispatch.Ledger.Event.{text_of}
use local_agent_dispatch.Ledger.Json.{Fields, find}
use local_agent_dispatch.Ledger.Log.{IsReachable, opened, stepped}
use local_agent_dispatch.Ledger.Store.{
  AppendResult, appended, EventStore, empty_store, written, required_text, recorded, append_new,
  append_known_key, append_known, append, append_all,
}
use local_agent_dispatch.Prelude.Keys.{string_eq}
use local_agent_dispatch.Prelude.Outcome.{returned, >>=-eq-returned, returned-injective}
use local_agent_dispatch.Prelude.{
  ℕ, String, ◌≡◌, refl, sym, ap, ◌∙◌, subst, inl, inr, Bool, Option, some, List, [], ◌∷◌, ◌++◌, map,
}
use mathlib.Core.List.{append_assoc, append-nil}

required_text-eq-some :
    (k : String) (e : Fields) {s : String}
    → text_of (find k e) ≡ some s
    → required_text k e ≡ returned s
required_text-eq-some k e h = rw (required_text, h) refl

module _ (is_decimal : ℕ → Bool) (dumps : Fields → String) where
  append-eq-appended :
      (e : Fields) (i k : String) (s : EventStore)
      → IsAccepted is_decimal e i k s
      → append is_decimal dumps e s ≡ returned (appended, recorded is_decimal dumps e i k s)
  unfolding append append_known append_known_key append_new
  append-eq-appended e i k s h =
      let names = required_text-eq-some "event_id" e h.names in
      let keys = required_text-eq-some "idempotency_key" e h.keys in
      rw (h.valid, h.clean, names, keys, h.new_id, h.new_key, h.known_parent, h.promotable) refl

  append_all-snoc :
      (e : Fields) {r : AppendResult} {t u : EventStore} (es : List Fields) (s : EventStore)
      → append_all is_decimal dumps es s ≡ returned t
      → append is_decimal dumps e t ≡ returned (r, u)
      → append_all is_decimal dumps (es ++ e ∷ []) s ≡ returned u
  unfolding append_all
  append_all-snoc e {r} {t} {u} [] s h step =
      let here : append is_decimal dumps e s ≡ returned (r, u) =
        subst (λ x. append is_decimal dumps e x ≡ returned (r, u)) (sym (returned-injective h))
          step in
      rw here refl
  append_all-snoc e (x ∷ es) s h step =
      let (first, h1, h2) = >>=-eq-returned (append is_decimal dumps x s) _ h in
      rw h1 (append_all-snoc e es first.1 h2 step)

  -- The lines that the writes of the events add.
  unfoldable pub extended : Option (List String) → List Fields → Option (List String)
  extended file [] = file
  extended file (e ∷ es) = extended (written is_decimal dumps e file) es

  abbrev pub on_file : Option (List String) → EventStore → EventStore
  on_file file s = record {
    events = s.events;
    by_id = s.by_id;
    by_idempotency = s.by_idempotency;
    file = extended file s.events;
  }

  extended-snoc :
      (e : Fields) (es : List Fields) (file : Option (List String))
      → extended file (es ++ e ∷ []) ≡ written is_decimal dumps e (extended file es)
  unfolding extended
  extended-snoc e [] file = refl
  extended-snoc e (x ∷ es) file = extended-snoc e es (written is_decimal dumps x file)

  pub extended-map :
      (es : List Fields) (lines : List String)
      → extended (some lines) es ≡ some (lines ++ map dumps es)
  unfolding extended
  extended-map [] lines = ap some (sym (append-nil lines))
  extended-map (e ∷ es) lines =
      extended-map es (lines ++ dumps e ∷ [])
      ∙ ap some (append_assoc lines (dumps e ∷ []) (map dumps es))

  IsAccepted-on_file :
      (other : Option (List String)) {e : Fields} {i k : String} {s : EventStore}
      → IsAccepted is_decimal e i k s
      → IsAccepted is_decimal e i k (on_file other s)
  IsAccepted-on_file other h = record {
    valid = h.valid;
    clean = h.clean;
    names = h.names;
    keys = h.keys;
    new_id = h.new_id;
    new_key = h.new_key;
    known_parent = h.known_parent;
    promotable = h.promotable;
  }

  -- The same appends, made on another file.
  pub IsReachable-on_file :
      (file other : Option (List String)) {s : EventStore}
      → IsReachable is_decimal dumps file s
      → IsReachable is_decimal dumps other (on_file other s)
  unfolding recorded extended
  IsReachable-on_file file other opened = opened
  IsReachable-on_file file other (stepped e {s = s} h before) =
      elim (append-eq-returned is_decimal dumps e s h) [
        | inr (_, same) ↦
            subst (λ t. IsReachable is_decimal dumps other (on_file other t)) (sym same)
              (IsReachable-on_file file other before)
        | inl (i, k, accepted, _, is_recorded) ↦
            subst (λ t. IsReachable is_decimal dumps other (on_file other t)) (sym is_recorded)
              (subst
                (λ f.
                  IsReachable is_decimal dumps other
                    (record (recorded is_decimal dumps e i k (on_file other s)) { file = f }))
                (sym (extended-snoc e s.events other))
                (stepped e
                  (append-eq-appended e i k (on_file other s) (IsAccepted-on_file other accepted))
                  (IsReachable-on_file file other before)))
      ]

  -- Appending the events of a store that appends lead to, in their order, to a new store on the same
  -- file gives that store.
  pub append_all-replays :
      (file : Option (List String)) {s : EventStore}
      → IsReachable is_decimal dumps file s
      → append_all is_decimal dumps s.events (empty_store file) ≡ returned s
  unfolding append_all recorded
  append_all-replays file opened = refl
  append_all-replays file (stepped e {s = s} h before) =
      elim (append-eq-returned is_decimal dumps e s h) [
        | inr (_, same) ↦
            subst (λ t. append_all is_decimal dumps t.events (empty_store file) ≡ returned t)
              (sym same) (append_all-replays file before)
        | inl (i, k, accepted, _, is_recorded) ↦
            subst (λ t. append_all is_decimal dumps t.events (empty_store file) ≡ returned t)
              (sym is_recorded)
              (append_all-snoc e s.events (empty_store file) (append_all-replays file before)
                (append-eq-appended e i k s accepted))
      ]

  IsReachable-extended :
      (file : Option (List String)) {s : EventStore}
      → IsReachable is_decimal dumps file s
      → s.file ≡ extended file s.events
  unfolding extended recorded
  IsReachable-extended file opened = refl
  IsReachable-extended file (stepped e {s = s} h before) =
      elim (append-eq-returned is_decimal dumps e s h) [
        | inr (_, same) ↦
            subst (λ t. t.file ≡ extended file t.events) (sym same)
              (IsReachable-extended file before)
        | inl (i, k, accepted, _, is_recorded) ↦
            subst (λ t. t.file ≡ extended file t.events) (sym is_recorded)
              (ap (written is_decimal dumps e) (IsReachable-extended file before)
                ∙ sym (extended-snoc e s.events file))
      ]

  -- The file of a store that was opened on a file with these lines holds them and then one line for
  -- each event that the store has, in their order.
  pub IsReachable-file :
      (lines : List String) {s : EventStore}
      → IsReachable is_decimal dumps (some lines) s
      → s.file ≡ some (lines ++ map dumps s.events)
  IsReachable-file lines {s} h = IsReachable-extended (some lines) h ∙ extended-map s.events lines
