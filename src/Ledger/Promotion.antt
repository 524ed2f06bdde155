-- ===== src/Ledger/Promotion.antt =====
-- The promotion gate, `_validate_claim_promotion` of src/local_agent_dispatch/ledger/store.py.
use local_agent_dispatch.Ledger.Event.{is_text, text_of}
use local_agent_dispatch.Ledger.Json.{
  null, boolean, number, text, array, object, Value, Fields, find,
}
use local_agent_dispatch.Ledger.Log.{IsReachable, IsReachable-IsLog}
use local_agent_dispatch.Ledger.Store.{
  EventStore, has_type, last_of, last_is, same_text, project_attempt_chain, may_promote,
  promotion_allowed, caused_by,
}
use local_agent_dispatch.Prelude.Keys.{◌=?◌, string_eq}
use local_agent_dispatch.Prelude.{
  ℕ, String, ◌≡◌, refl, sym, ap, ◌∙◌, subst, inl, inr, Bool, true, false, not, Option, none, some,
  List, [], ◌∷◌, ◌++◌, any, All, arith, Bool-cases, none≢some, true≢false, Option-cases, &&-eq-true,
  some-injective, if◌then◌else◌,
}
use mathlib.Core.List.{Memᴰ}

-- The field is this text.
abbrev pub Says : String → String → Fields → Type 0
Says name s e = find name e ≡ some (text s)

-- An event is the latest of its kind of an attempt: no event of the attempt that comes after it is of
-- that kind.
pub record IsLatest (kind attempt_id : String) (events : List Fields) (v : Fields) : Type 0 where
  pub earlier : List Fields
  pub later : List Fields
  pub split : events ≡ earlier ++ v ∷ later
  pub of_attempt : Says "attempt_id" attempt_id v
  pub of_kind : Says "event_type" kind v
  pub none_later : All (λ x. ¬ (Says "attempt_id" attempt_id x × Says "event_type" kind x)) later

-- What stands in the events before the promotion of an attempt.
pub record IsReviewed (before : List Fields) (e : Fields) : Type 0 where
  pub attempt_id : String
  pub attempt : Says "attempt_id" attempt_id e
  pub completion : Fields
  pub completed :
      Memᴰ completion before
      × Says "attempt_id" attempt_id completion
      × Says "event_type" "attempt.completed" completion
  pub last_validation : Fields
  pub validated :
      IsLatest "attempt.validation" attempt_id before last_validation
      × Says "outcome" "passed" last_validation
  pub last_review : Fields
  pub reviewed :
      IsLatest "attempt.review" attempt_id before last_review
      × Says "decision" "approve" last_review
  pub review_id : String
  pub review_named : Says "event_id" review_id last_review
  pub parent : Says "causal_parent" review_id e
  pub review_event : Says "review_event_id" review_id e

pub is_text-Says : (name s : String) (e : Fields) → is_text s (find name e) ≡ true → Says name s e
is_text-Says name s e h = value_is (find name e) h
  where
    value_is : (v : Option Value) → is_text s v ≡ true → v ≡ some (text s)
    value_is none h = cc
    value_is (some null) h = cc
    value_is (some (boolean b)) h = cc
    value_is (some (number n k)) h = cc
    value_is (some (text t)) h = ap (λ x. some (text x)) ((string_eq.beq_iff t s).0 h)
    value_is (some (array xs)) h = cc
    value_is (some (object fs)) h = cc

pub Says-is_text : (name s : String) (e : Fields) → Says name s e → is_text s (find name e) ≡ true
Says-is_text name s e h = ap (is_text s) h ∙ (string_eq.beq_iff s s).1 refl

pub text_of-Says : (name s : String) (e : Fields) → text_of (find name e) ≡ some s → Says name s e
text_of-Says name s e h = value_is (find name e) h
  where
    value_is : (v : Option Value) → text_of v ≡ some s → v ≡ some (text s)
    value_is none h = cc
    value_is (some null) h = cc
    value_is (some (boolean b)) h = cc
    value_is (some (number n k)) h = cc
    value_is (some (text t)) h = cc
    value_is (some (array xs)) h = cc
    value_is (some (object fs)) h = cc

-- The events of an attempt are events, and of that attempt.
chain-member :
    (a : String) (es : List Fields) {e : Fields}
    → Memᴰ e (project_attempt_chain a es)
    → Memᴰ e es × Says "attempt_id" a e
unfolding project_attempt_chain
chain-member a [] m = elim m [ ]
chain-member a (x ∷ es) {e} m = kept (chain-member a es) (is_text a (find "attempt_id" x)) refl m
  where
    kept :
        (Memᴰ e (project_attempt_chain a es) → Memᴰ e es × Says "attempt_id" a e)
        → (b : Bool) → is_text a (find "attempt_id" x) ≡ b
        → Memᴰ e (if b then x ∷ project_attempt_chain a es else project_attempt_chain a es)
        → Memᴰ e (x ∷ es) × Says "attempt_id" a e
    kept rest true is (Memᴰ.head same) =
        (Memᴰ.head same, subst (Says "attempt_id" a) (sym same) (is_text-Says "attempt_id" a x is))
    kept rest true is (Memᴰ.tail later) = (Memᴰ.tail (rest later).0, (rest later).1)
    kept rest false is later = (Memᴰ.tail (rest later).0, (rest later).1)

-- Where an attempt's chain has no event of a kind, no event of the attempt is of that kind.
chain-none :
    (a t : String) (es : List Fields)
    → last_of t (project_attempt_chain a es) ≡ none
    → All (λ x. ¬ (Says "attempt_id" a x × Says "event_type" t x)) es
unfolding last_of project_attempt_chain
chain-none a t [] h = tt
chain-none a t (x ∷ es) h = elim (Bool-cases (is_text a (find "attempt_id" x))) [
  | inl same ↦ elim (Option-cases (last_of t (project_attempt_chain a es))) [
    | inl none_later ↦ elim (Bool-cases (has_type t x)) [
      | inl is_last ↦ absurd (none≢some (sym (rw (same, none_later, is_last) at h)))
      | inr other ↦ (
        λ (_, says). true≢false (sym (Says-is_text "event_type" t x says) ∙ other),
        chain-none a t es none_later,
      )
    ]
    | inr (v, is_later) ↦ absurd (none≢some (sym (rw (same, is_later) at h)))
  ]
  | inr other ↦ (
    λ (says, _). true≢false (sym (Says-is_text "attempt_id" a x says) ∙ other),
    chain-none a t es (rw other at h),
  )
]

one_more :
    {kind a : String} {es : List Fields} {v : Fields} (x : Fields)
    → IsLatest kind a es v
    → IsLatest kind a (x ∷ es) v
one_more x h = record {
  earlier = x ∷ h.earlier;
  later = h.later;
  split = ap (λ l. x ∷ l) h.split;
  of_attempt = h.of_attempt;
  of_kind = h.of_kind;
  none_later = h.none_later;
}

-- The last event of a kind in an attempt's chain is the attempt's latest of that kind.
chain-IsLatest :
    (a t : String) (es : List Fields) {v : Fields}
    → last_of t (project_attempt_chain a es) ≡ some v
    → IsLatest t a es v
unfolding last_of project_attempt_chain
chain-IsLatest a t [] h = absurd (none≢some h)
chain-IsLatest a t (x ∷ es) {v} h = elim (Bool-cases (is_text a (find "attempt_id" x))) [
  | inl same ↦ elim (Option-cases (last_of t (project_attempt_chain a es))) [
    | inl none_later ↦ elim (Bool-cases (has_type t x)) [
      | inl is_last ↦
          let here : x ≡ v = some-injective (rw (same, none_later, is_last) at h) in
          subst (IsLatest t a (x ∷ es)) here (record {
            earlier = [];
            later = es;
            split = refl;
            of_attempt = is_text-Says "attempt_id" a x same;
            of_kind = is_text-Says "event_type" t x is_last;
            none_later = chain-none a t es none_later;
          })
      | inr other ↦ absurd (none≢some (rw (same, none_later, other) at h))
    ]
    | inr (w, is_later) ↦
        let there : w ≡ v = some-injective (rw (same, is_later) at h) in
        one_more x (chain-IsLatest a t es (is_later ∙ ap (λ y. some y) there))
  ]
  | inr other ↦ one_more x (chain-IsLatest a t es (rw other at h))
]

any-member :
    (p : Fields → Bool) (es : List Fields)
    → any p es ≡ true
    → (e : Fields) × Memᴰ e es × (p e ≡ true)
any-member p [] h = cc
any-member p (x ∷ es) h = elim (Bool-cases (p x)) [
  | inl here ↦ (x, Memᴰ.head refl, here)
  | inr other ↦
      let (e, there, holds) = any-member p es (ground (arith, h, other)) in
      (e, Memᴰ.tail there, holds)
]

-- The text that a field of the last event of a kind has.
last_is-last :
    (name s : String) (o : Option Fields)
    → last_is name s o ≡ true
    → (v : Fields) × (o ≡ some v) × Says name s v
last_is-last name s none h = cc
last_is-last name s (some v) h = (v, refl, is_text-Says name s v h)

same_text-same :
    (name : String) (e : Fields) (o : Option String)
    → same_text (find name e) o ≡ true
    → (s : String) × (o ≡ some s) × Says name s e
same_text-same name e none h = cc
same_text-same name e (some s) h = (s, refl, is_text-Says name s e h)

promotion_allowed-IsReviewed :
    (a : String) (e : Fields) (before : List Fields)
    → Says "attempt_id" a e
    → promotion_allowed e (project_attempt_chain a before) ≡ true
    → IsReviewed before e
unfolding promotion_allowed
promotion_allowed-IsReviewed a e before of_attempt h =
    let chain = project_attempt_chain a before in
    let (h1, review_event) = &&-eq-true _ _ h in
    let (h2, caused) = &&-eq-true _ _ h1 in
    let (h3, approved) = &&-eq-true _ _ h2 in
    let (completed, passed) = &&-eq-true _ _ h3 in
    let (completion, in_chain, is_completion) =
      any-member (has_type "attempt.completed") chain completed in
    let (of_chain, completed_attempt) = chain-member a before in_chain in
    let (v, is_last, has_passed) = last_is-last "outcome" "passed" _ passed in
    let (r, is_last_review, is_approved) = last_is-last "decision" "approve" _ approved in
    let (p, review_named, parent) =
      same_text-same "causal_parent" e _
        (subst (λ o. caused_by o e ≡ true) is_last_review caused) in
    let (q, parent_text, review_event) = same_text-same "review_event_id" e _ review_event in
    record {
      attempt_id = a;
      attempt = of_attempt;
      completion = completion;
      completed = (
        of_chain,
        completed_attempt,
        is_text-Says "event_type" "attempt.completed" completion is_completion,
      );
      last_validation = v;
      validated = (chain-IsLatest a "attempt.validation" before is_last, has_passed);
      last_review = r;
      reviewed = (chain-IsLatest a "attempt.review" before is_last_review, is_approved);
      review_id = p;
      review_named = text_of-Says "event_id" p r review_named;
      parent = parent;
      review_event =
          subst (λ s. Says "review_event_id" s e)
            (some-injective (sym parent_text ∙ ap text_of parent)) review_event;
    }

may_promote-IsReviewed :
    (e : Fields) (before : List Fields) → may_promote e before ≡ true → IsReviewed before e
unfolding may_promote
may_promote-IsReviewed e before h = elim (Option-cases (text_of (find "attempt_id" e))) [
  | inl missing ↦ absurd (ground (arith, h, missing))
  | inr (a, of_attempt) ↦
      promotion_allowed-IsReviewed a e before (text_of-Says "attempt_id" a e of_attempt)
        (&&-eq-true (not (a =? "")) _ (ground (arith, h, of_attempt))).1
]

-- In the list of events of any store that appends lead to, a promotion stands after a completion, the
-- latest validation, which passed, and the latest review, which approved, of the attempt it names; that
-- review is its causal parent and its review_event_id.
pub promotion-IsReviewed :
    (is_decimal : ℕ → Bool) (dumps : Fields → String) (file : Option (List String)) {s : EventStore}
    (before after : List Fields) (e : Fields)
    → IsReachable is_decimal dumps file s
    → s.events ≡ before ++ e ∷ after
    → Says "event_type" "claim.promoted" e
    → IsReviewed before e
promotion-IsReviewed is_decimal dumps file before after e reached split promoted =
    let log = IsReachable-IsLog is_decimal dumps file reached in
    let admitted = log.admitted before after e split in
    may_promote-IsReviewed e before (admitted.promotable (rw promoted refl))
