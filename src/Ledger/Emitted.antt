-- ===== src/Ledger/Emitted.antt =====
-- What events the `LivenessReconciler` of src/local_agent_dispatch/ledger/store.py may add.
use local_agent_dispatch.Ledger.Event.{is_text}
use local_agent_dispatch.Ledger.Json.{Fields, find}
use local_agent_dispatch.Ledger.Liveness.{alive, dead, unconfirmed, liveness, last_event}
use local_agent_dispatch.Ledger.Promotion.{Says, is_text-Says, Says-is_text}
use local_agent_dispatch.Ledger.Store.{project_attempt_chain}
use local_agent_dispatch.Prelude.Dict
use local_agent_dispatch.Prelude.Dict.{Dict}
use local_agent_dispatch.Prelude.Keys.{string_eq}
use local_agent_dispatch.Prelude.{
  String, ◌≡◌, refl, sym, ap, ◌∙◌, subst, inl, inr, Bool, true, false, Option, none, some, List, [],
  ◌∷◌, ◌++◌, All, Bool-cases, Option-cases, some-injective, none≢some, true≢false,
}
use mathlib.Core.List.{append_assoc, append-nil}

-- The last event of an attempt: none of the events after it is of the attempt.
pub record IsLast (attempt_id : String) (events : List Fields) (last : Fields) : Type 0 where
  pub earlier : List Fields
  pub later : List Fields
  pub split : events ≡ earlier ++ last ∷ later
  pub of_attempt : Says "attempt_id" attempt_id last
  pub none_later : All (λ x. ¬ Says "attempt_id" attempt_id x) later

-- After these events, an event that gives an attempt up, the process that its last event names being
-- confirmed dead, or one that asks for a review of an attempt.
pub data IsEmitted (pid_alive : Dict String Bool) (before : List Fields) (e : Fields) : Type 0 where
  abandoned :
      (a pid : String) (last : Fields)
      → IsLast a before last
      → Says "pid" pid last
      → Dict.get pid pid_alive ≡ some false
      → Says "attempt_id" a e
      → Says "event_type" "attempt.abandoned" e
      → Says "pid" pid e
      → IsEmitted pid_alive before e
  escalated :
      (a : String) (last : Fields)
      → IsLast a before last
      → Says "attempt_id" a e
      → Says "event_type" "attempt.review" e
      → Says "decision" "escalate" e
      → IsEmitted pid_alive before e

-- Events one after another, each after those before it.
pub data Emits (pid_alive : Dict String Bool) : List Fields → List Fields → Type 0 where
  nothing : {before : List Fields} → Emits pid_alive before []
  one :
      {before : List Fields} {e : Fields} {es : List Fields}
      → IsEmitted pid_alive before e
      → Emits pid_alive (before ++ e ∷ []) es
      → Emits pid_alive before (e ∷ es)

pub Emits-trans :
    (pid_alive : Dict String Bool) (before : List Fields) {xs : List Fields} (ys : List Fields)
    → Emits pid_alive before xs
    → Emits pid_alive (before ++ xs) ys
    → Emits pid_alive before (xs ++ ys)
Emits-trans pid_alive before ys nothing more =
    subst (λ es. Emits pid_alive es ys) (append-nil before) more
Emits-trans pid_alive before ys (one {e} {es} here rest) more = one here (
    Emits-trans pid_alive (before ++ e ∷ []) ys rest
      (subst (λ all. Emits pid_alive all ys) (sym (append_assoc before (e ∷ []) es)) more))

last_event-cons :
    (x : Fields) (es : List Fields) {w : Fields}
    → last_event es ≡ some w
    → last_event (x ∷ es) ≡ some w
last_event-cons x [] h = absurd (none≢some h)
last_event-cons x (y ∷ es) h = h

last_event-none : (es : List Fields) → last_event es ≡ none → es ≡ []
last_event-none [] h = refl
last_event-none (x ∷ []) h = cc
last_event-none (x ∷ y ∷ es) h = absurd (cons≢nil (last_event-none (y ∷ es) h))
  where
    cons≢nil : y ∷ es ≡ [] → ⊥
    cons≢nil e = cc

-- Where its chain is empty, no event is of the attempt.
empty_chain :
    (a : String) (es : List Fields)
    → project_attempt_chain a es ≡ []
    → All (λ x. ¬ Says "attempt_id" a x) es
unfolding project_attempt_chain
empty_chain a [] h = tt
empty_chain a (x ∷ es) h = elim (Bool-cases (is_text a (find "attempt_id" x))) [
  | inl same ↦ absurd (cons≢nil (rw same at h))
  | inr other ↦ (
    λ says. true≢false (sym (Says-is_text "attempt_id" a x says) ∙ other),
    empty_chain a es (rw other at h),
  )
]
  where
    cons≢nil : x ∷ project_attempt_chain a es ≡ [] → ⊥
    cons≢nil e = cc

earlier_too :
    {a : String} {es : List Fields} {w : Fields} (x : Fields) → IsLast a es w → IsLast a (x ∷ es) w
earlier_too x h = record {
  earlier = x ∷ h.earlier;
  later = h.later;
  split = ap (λ l. x ∷ l) h.split;
  of_attempt = h.of_attempt;
  none_later = h.none_later;
}

-- The last event of an attempt's chain is the last event of the attempt.
pub chain-IsLast :
    (a : String) (es : List Fields) {w : Fields}
    → last_event (project_attempt_chain a es) ≡ some w
    → IsLast a es w
unfolding project_attempt_chain
chain-IsLast a [] h = absurd (none≢some h)
chain-IsLast a (x ∷ es) {w} h = elim (Bool-cases (is_text a (find "attempt_id" x))) [
  | inl same ↦ elim (Option-cases (last_event (project_attempt_chain a es))) [
    | inl none_later ↦
        let empty = last_event-none (project_attempt_chain a es) none_later in
        let here : x ≡ w = some-injective (rw (same, empty) at h) in
        subst (IsLast a (x ∷ es)) here (record {
          earlier = [];
          later = es;
          split = refl;
          of_attempt = is_text-Says "attempt_id" a x same;
          none_later = empty_chain a es empty;
        })
    | inr (v, is_later) ↦
        let there : v ≡ w =
          some-injective
            (sym (last_event-cons x (project_attempt_chain a es) is_later) ∙ (rw same at h)) in
        earlier_too x (chain-IsLast a es (is_later ∙ ap some there))
  ]
  | inr other ↦ earlier_too x (chain-IsLast a es (rw other at h))
]

pub liveness-dead :
    (o : Option String) (pid_alive : Dict String Bool)
    → liveness o pid_alive ≡ dead
    → (pid : String) × (o ≡ some pid) × (Dict.get pid pid_alive ≡ some false)
liveness-dead none pid_alive h = cc
liveness-dead (some pid) pid_alive h = (pid, refl, known (Dict.get pid pid_alive) h)
  where
    known :
        (o : Option Bool)
        → (elim o [ none ↦ unconfirmed | some true ↦ alive | some false ↦ dead ]) ≡ dead
        → o ≡ some false
    known none h = cc
    known (some true) h = cc
    known (some false) h = refl
