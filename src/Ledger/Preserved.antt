-- ===== src/Ledger/Preserved.antt =====
-- What `LivenessReconciler.reconcile` of src/local_agent_dispatch/ledger/store.py does to the store.
use local_agent_dispatch.Ledger.Append.{append-eq-returned}
use local_agent_dispatch.Ledger.Event.{text_of}
use local_agent_dispatch.Ledger.Json.{Fields, find}
use local_agent_dispatch.Ledger.Liveness.{
  Liveness, alive, dead, unconfirmed, liveness, emit, emit_unless_alive, reconcile_last,
  reconcile_attempt, last_event, is_terminal, attempt_ids, with_others, with_created,
  reconcile_each, time_or, reconcile_from, reconcile,
}
use local_agent_dispatch.Ledger.Log.{IsReachable, stepped}
use local_agent_dispatch.Ledger.Promotion.{text_of-Says}
use local_agent_dispatch.Ledger.Terminal.{LivenessReconciler, optional_text, terminal_event}
use local_agent_dispatch.Ledger.Store.{
  LedgerError, AppendResult, EventStore, required_text, project_attempt_chain, append, recorded,
}
use local_agent_dispatch.Prelude.Dict.{Dict}
use local_agent_dispatch.Prelude.Int.{ℤ, ◌-ℤ◌, ltb_ℤ}
use local_agent_dispatch.Prelude.Keys.{string_eq}
use local_agent_dispatch.Prelude.Outcome.{
  Outcome, returned, raised, >>=-eq-returned, returned-injective,
}
use local_agent_dispatch.Prelude.{
  ℕ, String, ◌≡◌, refl, sym, ap, ◌∙◌, subst, inl, inr, Bool, true, false, Option, none, some, List,
  [], ◌∷◌, ◌++◌, any, if-cases,
}
use mathlib.Core.List.{append_assoc, append-nil}
use local_agent_dispatch.Ledger.Emitted.{
  IsLast, IsEmitted, abandoned, escalated, Emits, nothing, one, Emits-trans, chain-IsLast,
  liveness-dead,
}

module _ (is_decimal : ℕ → Bool) (dumps : Fields → String) (file : Option (List String))
    (pid_alive : Dict String Bool) where
  -- A store that appends lead to, with the events of an earlier one before those that were added.
  pub record IsExtended (s t : EventStore) : Type 0 where
    pub reached : IsReachable is_decimal dumps file t
    pub added : List Fields
    pub extends : t.events ≡ s.events ++ added
    pub emitted : Emits pid_alive s.events added

  IsExtended-refl : (s : EventStore) → IsReachable is_decimal dumps file s → IsExtended s s
  IsExtended-refl s h = record {
    reached = h;
    added = [];
    extends = sym (append-nil s.events);
    emitted = nothing;
  }

  IsExtended-trans : (s t u : EventStore) → IsExtended s t → IsExtended t u → IsExtended s u
  IsExtended-trans s t u h k = record {
    reached = k.reached;
    added = h.added ++ k.added;
    extends =
        k.extends ∙ ap (λ es. es ++ k.added) h.extends ∙ append_assoc s.events h.added k.added;
    emitted =
        Emits-trans pid_alive s.events k.added h.emitted
          (subst (λ es. Emits pid_alive es k.added) h.extends k.emitted);
  }

  append-IsExtended :
      (e : Fields) (s : EventStore) {r : AppendResult} {t : EventStore}
      → append is_decimal dumps e s ≡ returned (r, t)
      → IsReachable is_decimal dumps file s
      → IsEmitted pid_alive s.events e
      → IsExtended s t
  unfolding recorded
  append-IsExtended e s {r} {t} h reached emitted =
      elim (append-eq-returned is_decimal dumps e s h) [
        | inr (_, same) ↦ subst (IsExtended s) (sym same) (IsExtended-refl s reached)
        | inl (i, k, _, _, is_recorded) ↦ record {
          reached = stepped e h reached;
          added = e ∷ [];
          extends = ap (λ u. u.events) is_recorded;
          emitted = one emitted nothing;
        }
      ]

  module _ (uuid5 : String → String) (parse_iso : String → Option ℤ) where
    emit-IsExtended :
        (r : LivenessReconciler) (a : String) (last : Fields) (ended : Bool) (s : EventStore)
        {c : Option Fields} {t : EventStore}
        → emit uuid5 parse_iso is_decimal dumps r a last ended s ≡ returned (c, t)
        → IsReachable is_decimal dumps file s
        → ((parent : String)
            → IsEmitted pid_alive s.events (terminal_event uuid5 r a last parent ended))
        → IsExtended s t
    unfolding emit
    emit-IsExtended r a last ended s {t = t} h reached emitted =
        let (parent, _, h1) = >>=-eq-returned (required_text "event_id" last) _ h in
        let (after, h2, h3) =
          >>=-eq-returned (append is_decimal dumps (terminal_event uuid5 r a last parent ended) s) _
            h1 in
        let same : after.1 ≡ t = ap (λ p. p.1) (returned-injective h3) in
        subst (IsExtended s) same (
          append-IsExtended (terminal_event uuid5 r a last parent ended) s {r = after.0} h2 reached
            (emitted parent))

    unless_alive-IsExtended :
        (r : LivenessReconciler) (a : String) (last : Fields) (l : Liveness) (s : EventStore)
        {c : Option Fields} {t : EventStore}
        → liveness (text_of (find "pid" last)) pid_alive ≡ l
        → emit_unless_alive uuid5 parse_iso is_decimal dumps r a last l s ≡ returned (c, t)
        → IsReachable is_decimal dumps file s
        → IsLast a s.events last
        → IsExtended s t
    unfolding emit_unless_alive find
    unless_alive-IsExtended r a last alive s is h reached is_last =
        subst (IsExtended s) (ap (λ p. p.1) (returned-injective h)) (IsExtended-refl s reached)
    unless_alive-IsExtended r a last dead s is h reached is_last =
        let (pid, is_pid, gone) = liveness-dead (text_of (find "pid" last)) pid_alive is in
        emit-IsExtended r a last true s h reached (λ parent.
          abandoned a pid last is_last (text_of-Says "pid" pid last is_pid) gone refl refl
            (ap (λ o. some (optional_text o)) is_pid))
    unless_alive-IsExtended r a last unconfirmed s is h reached is_last =
        emit-IsExtended r a last false s h reached
          (λ parent. escalated a last is_last refl refl refl)

    reconcile_last-IsExtended :
        (r : LivenessReconciler) (now : ℤ) (a : String) (last : Option Fields) (s : EventStore)
        {c : Option Fields} {t : EventStore}
        → reconcile_last uuid5 parse_iso is_decimal dumps r pid_alive now a last s ≡ returned (c, t)
        → IsReachable is_decimal dumps file s
        → last ≡ last_event (project_attempt_chain a s.events)
        → IsExtended s t
    unfolding reconcile_last
    reconcile_last-IsExtended r now a none s h reached is_last = cc
    reconcile_last-IsExtended r now a (some last) s h reached is_last =
        let (timestamp, _, h1) = >>=-eq-returned (required_text "timestamp" last) _ h in
        elim (if-cases (ltb_ℤ (now -ℤ time_or now (parse_iso timestamp)) r.stale_after) _ _ h1) [
          | inl recent ↦
              subst (IsExtended s) (ap (λ p. p.1) (returned-injective recent))
                (IsExtended-refl s reached)
          | inr stale ↦
              unless_alive-IsExtended r a last _ s refl stale reached
                (chain-IsLast a s.events (sym is_last))
        ]

    reconcile_attempt-IsExtended :
        (r : LivenessReconciler) (now : ℤ) (a : String) (s : EventStore) {c : Option Fields}
        {t : EventStore}
        → reconcile_attempt uuid5 parse_iso is_decimal dumps r pid_alive now a s ≡ returned (c, t)
        → IsReachable is_decimal dumps file s
        → IsExtended s t
    unfolding reconcile_attempt
    reconcile_attempt-IsExtended r now a s h reached =
        let chain = project_attempt_chain a s.events in
        elim (if-cases (any is_terminal chain) _ _ h) [
          | inl ended ↦
              subst (IsExtended s) (ap (λ p. p.1) (returned-injective ended))
                (IsExtended-refl s reached)
          | inr unended ↦
              reconcile_last-IsExtended r now a (last_event chain) s unended reached refl
        ]

    with_created-store :
        (s : EventStore) (c : Option Fields) (p : Outcome LedgerError (List Fields) × EventStore)
        → IsExtended s p.1
        → IsExtended s (with_created uuid5 parse_iso is_decimal dumps c p).1
    with_created-store s none (o, t) h = h
    with_created-store s (some e) (raised x, t) h = h
    with_created-store s (some e) (returned es, t) h = h

    others-IsExtended :
        (rest : EventStore → Outcome LedgerError (List Fields) × EventStore) (s : EventStore)
        (o : Outcome LedgerError (Option Fields × EventStore))
        → IsReachable is_decimal dumps file s
        → ((c : Option Fields) (t : EventStore) → o ≡ returned (c, t) → IsExtended s t)
        → ((t : EventStore) → IsReachable is_decimal dumps file t → IsExtended t (rest t).1)
        → IsExtended s (with_others uuid5 parse_iso is_decimal dumps rest s o).1
    others-IsExtended rest s (raised x) reached first others = IsExtended-refl s reached
    others-IsExtended rest s (returned (c, t)) reached first others =
        let step = first c t refl in
        with_created-store s c (rest t)
          (IsExtended-trans s t (rest t).1 step (others t step.reached))

    reconcile_each-IsExtended :
        (r : LivenessReconciler) (now : ℤ) (attempts : List String) (s : EventStore)
        → IsReachable is_decimal dumps file s
        → IsExtended s
            (reconcile_each uuid5 parse_iso is_decimal dumps r pid_alive now attempts s).1
    unfolding reconcile_each
    reconcile_each-IsExtended r now [] s reached = IsExtended-refl s reached
    reconcile_each-IsExtended r now (a ∷ attempts) s reached =
        others-IsExtended (reconcile_each uuid5 parse_iso is_decimal dumps r pid_alive now attempts)
          s (reconcile_attempt uuid5 parse_iso is_decimal dumps r pid_alive now a s) reached
          (λ c t h. reconcile_attempt-IsExtended r now a s h reached)
          (reconcile_each-IsExtended r now attempts)

    -- Whether `reconcile` returns or raises: the events of the store stay in their places, the store is
    -- one that appends lead to, and each event added abandons an attempt, the process that the attempt's
    -- last event before it names being confirmed dead, or asks for a review of an attempt that has events
    -- before it, with the decision to escalate.
    pub reconcile-IsExtended :
        (r : LivenessReconciler) (s : EventStore)
        → IsReachable is_decimal dumps file s
        → IsExtended s (reconcile uuid5 parse_iso is_decimal dumps r pid_alive s).1
    unfolding reconcile
    reconcile-IsExtended r s reached = from_time (parse_iso r.now)
      where
        from_time :
            (o : Option ℤ)
            → IsExtended s (reconcile_from uuid5 parse_iso is_decimal dumps r pid_alive o s).1
        from_time none = IsExtended-refl s reached
        from_time (some now) = reconcile_each-IsExtended r now (attempt_ids s) s reached
