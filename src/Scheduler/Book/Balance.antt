-- ===== src/Scheduler/Book/Balance.antt =====
-- What `reconcile` and `cancel` do to the usage of a target
-- (src/local_agent_dispatch/scheduler/core.py).
use local_agent_dispatch.Prelude.Dict
use local_agent_dispatch.Prelude.Dict.{Dict, values}
use local_agent_dispatch.Prelude.Keys.{◌=?◌, string_eq}
use local_agent_dispatch.Prelude.{
  ℕ, ◌+◌, String, ◌≡◌, ◌≢◌, refl, sym, ap, subst, ◌∙◌, inl, inr, Bool, true, false, not, ◌||◌,
  Option, none, some, [], ◌∷◌, arith, Bool-cases,
}
use local_agent_dispatch.Scheduler.Book.Charges.{
  usage_at, weight, weight_of, usage_by_target-weight, add_usage_zero, ended-weight,
}
use local_agent_dispatch.Scheduler.Book.Reconcile.{
  TerminalState, to_completed, next_state, reconciled_row, row_changed, usage_beq, state_beq,
  bool_beq, write_row, reconcile, cancel, to_cancelled,
}
use local_agent_dispatch.Scheduler.Book.State.{
  ReservationState, active, completed, cancelled, Reservation, Book,
}
use local_agent_dispatch.Scheduler.Book.Steps.{reconcile-eq-ok}
use local_agent_dispatch.Scheduler.Book.Usage.{add_usage, is_active, usage_by_target}
use local_agent_dispatch.Scheduler.Model.{ResourceUsage, no_usage}
use local_agent_dispatch.World.Fault.{ok}

swap_weights :
    (a b c d e : ResourceUsage)
    → add_usage a b ≡ add_usage c d
    → add_usage (add_usage e a) b ≡ add_usage (add_usage e c) d
swap_weights a b c d e h = ground arith

flip_weights : (a b c : ResourceUsage) → add_usage (add_usage a c) b ≡ add_usage (add_usage b c) a
flip_weights a b c = ground arith

-- Replacing a row replaces its weight in the sum.
weight_of-put :
    (t id : String) (row updated : Reservation) (d : Dict String Reservation)
    → Dict.get id d ≡ some row
    → add_usage (weight_of t (values (Dict.put id updated d))) (weight t row)
      ≡ add_usage (weight_of t (values d)) (weight t updated)
unfolding Dict.get Dict.put weight_of
weight_of-put t id row updated [] e = cc
weight_of-put t id row updated ((j, x) ∷ d) e = elim (Bool-cases (j =? id)) [
  | inl here ↦
      let same : x ≡ row = ground arith in
      rw (here, same) (flip_weights (weight t updated) (weight t row) (weight_of t (values d)))
  | inr later ↦ rw later (
      swap_weights (weight_of t (values (Dict.put id updated d))) (weight t row)
        (weight_of t (values d)) (weight t updated) (weight t x)
        (weight_of-put t id row updated d (rw later at e)))
]

usage_beq→eq : (a b : ResourceUsage) → usage_beq a b ≡ true → a ≡ b
usage_beq→eq a b e = ground arith

state_beq→eq : (a b : ReservationState) → state_beq a b ≡ true → a ≡ b
state_beq→eq a b e = ground arith

bool_beq→eq : (a b : Bool) → bool_beq a b ≡ true → a ≡ b
bool_beq→eq a b e = ground arith

same_fields :
    (row : Reservation) (actual : ResourceUsage) (overage : Bool) (state : ReservationState)
    → actual ≡ row.actual
    → overage ≡ row.overage
    → state ≡ row.state
    → record row { actual = actual; overage = overage; state = state } ≡ row
same_fields row actual overage state p q r = rw (p, q, r) refl

no_test : (a b c : Bool) → (not a || not b || not c) ≡ false → (a ≡ true) × (b ≡ true) × (c ≡ true)
no_test a b c e = ground arith

-- A row that is written back unchanged is the same.
unchanged_same :
    (row : Reservation) (actual : ResourceUsage) (t : Option TerminalState)
    → row_changed (reconciled_row row actual t) row ≡ false
    → reconciled_row row actual t ≡ row
unfolding row_changed
unchanged_same row actual t e =
    let updated = reconciled_row row actual t in
    let (same_actual, same_overage, same_state) =
      no_test (usage_beq updated.actual row.actual) (bool_beq updated.overage row.overage)
        (state_beq updated.state row.state) e in
    same_fields row updated.actual updated.overage updated.state
      (usage_beq→eq updated.actual row.actual same_actual)
      (bool_beq→eq updated.overage row.overage same_overage)
      (state_beq→eq updated.state row.state same_state)

-- The state after a reconcile, for what is asked of an active row.
unfoldable pub state_after : Option TerminalState → ReservationState
state_after none = active
state_after (some to_completed) = completed
state_after (some to_cancelled) = cancelled

-- What a reconcile makes of a row: an active one holds what it held, uses what it was seen to use and
-- is in the state that was asked for; an ended one stays.
pub data IsSettled (row : Reservation) (actual : ResourceUsage) (asked : Option TerminalState)
    (x : Reservation) : Type 0 where
  settled :
      row.state ≡ active
      → x.target_id ≡ row.target_id
      → x.reserved ≡ row.reserved
      → x.actual ≡ actual
      → x.state ≡ state_after asked
      → IsSettled row actual asked x
  stayed : row.state ≢ active → x ≡ row → IsSettled row actual asked x

live_active : (s : ReservationState) → is_active s ≡ true → s ≡ active
live_active active live = refl
live_active completed live = cc
live_active cancelled live = cc

over_active : (s : ReservationState) → is_active s ≡ false → s ≢ active
over_active s over same = ground arith

next_state-after :
    (asked : Option TerminalState) {s : ReservationState}
    → s ≡ active
    → next_state asked s ≡ state_after asked
unfolding state_after
next_state-after none h = h
next_state-after (some to_completed) h = refl
next_state-after (some to_cancelled) h = refl

module _ {Float : Type 0} where
  -- What a target is charged with after a write of a row and before it, side by side.
  abbrev Balanced : String → Reservation → Reservation → Book Float → Book Float → Type 0
  Balanced t row x b b' =
      add_usage (usage_at t (usage_by_target b')) (weight t row)
      ≡ add_usage (usage_at t (usage_by_target b)) (weight t x)

  written-balance :
      (t id : String) (row : Reservation) (actual : ResourceUsage) (s : Option TerminalState)
      (b : Book Float)
      → Dict.get id b.reservations ≡ some row
      → Balanced t row
          (reconciled_row row actual s)
          b
          (write_row id (reconciled_row row actual s) row b)
  written-balance t id row actual s b kept =
      let updated = reconciled_row row actual s in
      elim (Bool-cases (row_changed updated row)) [
        | inl changed ↦
            let b' = record b {
              revision = b.revision + 1;
              reservations = Dict.put id updated b.reservations;
            } in
            rw changed (
              ap (λ a. add_usage a (weight t row)) (usage_by_target-weight b' t)
              ∙ weight_of-put t id row updated b.reservations kept
              ∙ ap (λ a. add_usage a (weight t updated)) (sym (usage_by_target-weight b t)))
        | inr same ↦ rw (same, unchanged_same row actual s same) refl
      ]

  Balanced-transport :
      (t : String) (b : Book Float) {row row' x x' : Reservation} {w w' : Book Float}
      → row ≡ row'
      → x ≡ x'
      → w ≡ w'
      → Balanced t row x' b w'
      → Balanced t row' x b w
  Balanced-transport t b {row} {row'} {x} {x'} {w} {w'} p q r h =
      subst (λ i. Balanced t i x b w) p
        (subst (λ y. Balanced t row y b w) (sym q) (subst (λ v. Balanced t row x' b v) (sym r) h))

  row-IsSettled :
      (id : String) (fence : ℕ) (actual : ResourceUsage) (asked : Option TerminalState)
      (b b' : Book Float) (row x : Reservation)
      → Dict.get id b.reservations ≡ some row
      → reconcile id fence actual asked b ≡ ok (x, b')
      → IsSettled row actual asked x
  row-IsSettled id fence actual asked b b' row x kept e =
      let r = reconcile-eq-ok id fence actual asked b e in
      let one : r.row ≡ row = cc (r.kept, kept) in
      elim r.done [
        | inl (over, same, _) ↦
            stayed (over_active row.state (ap (λ i. is_active i.state) (sym one) ∙ over))
              (same ∙ one)
        | inr (live, same, _) ↦
            let is_active_row : row.state ≡ active =
              live_active row.state (ap (λ i. is_active i.state) (sym one) ∙ live) in
            settled is_active_row (ap (λ i. i.target_id) same ∙ ap (λ i. i.target_id) one)
              (ap (λ i. i.reserved) same ∙ ap (λ i. i.reserved) one) (ap (λ i. i.actual) same)
              (ap (λ i. i.state) same
                ∙ next_state-after asked (ap (λ i. i.state) one ∙ is_active_row))
      ]

  charge_moves :
      (t id : String) (fence : ℕ) (actual : ResourceUsage) (s : Option TerminalState)
      (b b' : Book Float) (row x : Reservation)
      → Dict.get id b.reservations ≡ some row
      → reconcile id fence actual s b ≡ ok (x, b')
      → Balanced t row x b b'
  charge_moves t id fence actual s b b' row x kept e =
      let r = reconcile-eq-ok id fence actual s b e in
      let one : r.row ≡ row = cc (r.kept, kept) in
      elim r.done [
        | inl (_, same, unchanged) ↦ Balanced-transport t b one same unchanged refl
        | inr (_, same, wrote) ↦
            Balanced-transport t b one same wrote (written-balance t id r.row actual s b r.kept)
      ]

  pub reconcile-balance :
      (t id : String) (fence : ℕ) (actual : ResourceUsage) (s : Option TerminalState)
      (b b' : Book Float) (row x : Reservation)
      → Dict.get id b.reservations ≡ some row
      → reconcile id fence actual s b ≡ ok (x, b')
      → IsSettled row actual s x
        × (add_usage (usage_at t (usage_by_target b')) (weight t row)
            ≡ add_usage (usage_at t (usage_by_target b)) (weight t x))
  reconcile-balance t id fence actual s b b' row x kept e = (
    row-IsSettled id fence actual s b b' row x kept e,
    charge_moves t id fence actual s b b' row x kept e,
  )

  cancelled_ended :
      (id : String) (fence : ℕ) (b b' : Book Float) (x : Reservation)
      → cancel id fence b ≡ ok (x, b')
      → is_active x.state ≡ false
  unfolding cancel
  cancelled_ended id fence b b' x e =
      let r = reconcile-eq-ok id fence no_usage (some to_cancelled) b e in
      elim r.done [ inl (over, same, _) ↦ rw same over | inr (_, same, _) ↦ rw same refl ]

  -- A reservation that is cancelled is charged no more: the usage of every target is what it was,
  -- less what the reservation weighed on it.
  pub cancel-releases :
      (t id : String) (fence : ℕ) (b b' : Book Float) (row x : Reservation)
      → Dict.get id b.reservations ≡ some row
      → cancel id fence b ≡ ok (x, b')
      → add_usage (usage_at t (usage_by_target b')) (weight t row) ≡ usage_at t (usage_by_target b)
  unfolding cancel
  cancel-releases t id fence b b' row x kept e =
      (reconcile-balance t id fence no_usage (some to_cancelled) b b' row x kept e).1
      ∙ ap (add_usage (usage_at t (usage_by_target b)))
          (ended-weight t x (cancelled_ended id fence b b' x e))
      ∙ add_usage_zero (usage_at t (usage_by_target b))
