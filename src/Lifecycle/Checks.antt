-- ===== src/Lifecycle/Checks.antt =====
-- How validation, completion and promotion stand apart in `project_lifecycle`
-- (src/local_agent_dispatch/domain/lifecycle.py).
use local_agent_dispatch.Lifecycle.{
  Event, ValidationRow, Lifecycle, last_of, has_event, outcome_or, is_in, execution_events,
  project_lifecycle,
}
use local_agent_dispatch.Prelude.Keys.{◌=?◌, string_eq}
use local_agent_dispatch.Prelude.{
  String, ◌≡◌, ◌≢◌, refl, ap, inl, inr, Bool, true, false, ◌||◌, Option, none, some, List, [], ◌∷◌,
  ◌++◌, any, arith, Bool-cases,
}

last_of-append :
    (t : String) (es : List Event) (e : Event)
    → (e.event_type =? t) ≡ true
    → last_of t (es ++ e ∷ []) ≡ some e
unfolding last_of
last_of-append t [] e h = rw h refl
last_of-append t (x ∷ es) e h = rw (last_of-append t es e h) refl

outcome_not_passed :
    (o : Option String) → o ≢ some "passed" → (outcome_or "unknown" o =? "passed") ≡ false
outcome_not_passed none n = refl
outcome_not_passed (some o) n = elim (Bool-cases (o =? "passed")) [
  | inl passed ↦ absurd (n (ap some ((string_eq.beq_iff o "passed").0 passed)))
  | inr other ↦ elim (Bool-cases (is_in o ("passed" ∷ "failed" ∷ []))) [
    | inl known ↦ rw known other
    | inr unknown ↦ rw unknown refl
  ]
]

-- A later validation that did not pass is not hidden by an earlier one that did: if the last event of
-- the chain is a validation with another outcome than "passed", the projection is not validated,
-- whatever came before and whatever the rows say.
pub project_lifecycle-recheck :
    (clean : String → String) (chain : List Event) (e : Event) (job attempt : Option String)
    (validation : ValidationRow)
    → e.event_type ≡ "attempt.validation"
    → e.outcome ≢ some "passed"
    → (project_lifecycle clean (chain ++ e ∷ []) job attempt validation).validated ≡ false
unfolding project_lifecycle
project_lifecycle-recheck clean chain e job attempt validation t n =
    let last = last_of-append "attempt.validation" chain e (rw t refl) in
    rw (last, outcome_not_passed e.outcome n) (ground arith)

last_of-append_other :
    (t : String) (es : List Event) (e : Event)
    → (e.event_type =? t) ≡ false
    → last_of t (es ++ e ∷ []) ≡ last_of t es
unfolding last_of
last_of-append_other t [] e h = rw h refl
last_of-append_other t (x ∷ es) e h = rw (last_of-append_other t es e h) refl

any-append_fails :
    {A : Type 0} (p : A → Bool) (xs : List A) (x : A)
    → p x ≡ false
    → any p (xs ++ x ∷ []) ≡ any p xs
any-append_fails p [] x h = rw h refl
any-append_fails p (y ∷ ys) x h = ap (λ b. p y || b) (any-append_fails p ys x h)

-- A promotion, appended to any chain, changes nothing of what was executed, completed, validated or
-- reviewed: these stand apart from it.
pub project_lifecycle-promotion :
    (clean : String → String) (chain : List Event) (e : Event) (job attempt : Option String)
    (validation : ValidationRow)
    → e.event_type ≡ "claim.promoted"
    → let before : Lifecycle = project_lifecycle clean chain job attempt validation in
      let after : Lifecycle = project_lifecycle clean (chain ++ e ∷ []) job attempt validation in
      (after.executed ≡ before.executed)
      × (after.completed ≡ before.completed)
      × (after.validated ≡ before.validated)
      × (after.validation_outcome ≡ before.validation_outcome)
      × (after.reviewed ≡ before.reviewed)
unfolding project_lifecycle has_event
project_lifecycle-promotion clean chain e job attempt validation t =
    let no_run =
      any-append_fails (λ (x : Event). is_in x.event_type execution_events) chain e (rw t refl) in
    let no_end =
      any-append_fails (λ (x : Event). x.event_type =? "attempt.completed") chain e (rw t refl) in
    let no_review =
      any-append_fails (λ (x : Event). x.event_type =? "attempt.review") chain e (rw t refl) in
    let no_check = last_of-append_other "attempt.validation" chain e (rw t refl) in
    (rw no_run refl, rw no_end refl, rw (no_end, no_check) refl, rw no_check refl, no_review)
