-- ===== src/Scheduler/Book/Steps.antt =====
-- Calls on a `ReservationBook`, one after another (src/local_agent_dispatch/scheduler/core.py).
use local_agent_dispatch.Prelude.Dict
use local_agent_dispatch.Prelude.Keys.{◌=?◌, string_eq}
use local_agent_dispatch.Prelude.{
  ℕ, ◌+◌, String, ◌≡◌, refl, sym, ap, ◌∙◌, ◌⊎◌, inl, inr, true, false, Option, none, some, List,
  arith, Bool-cases, Option-cases, ◌==◌, ==_iff,
}
use local_agent_dispatch.Scheduler.Book.Consistent.{
  IsConsistent, empty-IsConsistent, next_free, not_free, recorded-IsConsistent,
  updated-IsConsistent,
}
use local_agent_dispatch.Scheduler.Book.Outcomes.{reserve_best-eq-ok}
use local_agent_dispatch.Scheduler.Book.Reconcile.{
  TerminalState, reconcile_ended, reconciled_row, row_changed, write_row, reconcile_row, reconcile,
}
use local_agent_dispatch.Scheduler.Book.Reserve.{new_row, reserve_best}
use local_agent_dispatch.Scheduler.Book.State.{Reservation, Book, empty_book, Outside, Placed}
use local_agent_dispatch.Scheduler.Book.Usage.{is_active}
use local_agent_dispatch.Scheduler.Model.{WorkloadRequirements, CandidateTarget, ResourceUsage}
use local_agent_dispatch.Topology.Paths.{Pathlib}
use local_agent_dispatch.World.Fault.{ok, >>=-eq-ok, ok-injective}
use local_agent_dispatch.World.Floats.{Floats}
use local_agent_dispatch.World.Observation.{Calendar}

ended_same :
    (row : Reservation) (actual : ResourceUsage) (t : Option TerminalState) {x : Reservation}
    → reconcile_ended row actual t ≡ ok x
    → x ≡ row
ended_same row actual none e = ground arith
ended_same row actual (some t) e = ground arith

-- One row is not both active and ended.
active_apart :
    {o : Option Reservation} {row x : Reservation}
    → o ≡ some row
    → is_active row.state ≡ true
    → o ≡ some x
    → is_active x.state ≡ false
    → ⊥
active_apart there live kept over = ground arith

module _ {Float : Type 0} where
  -- What a call of `reconcile` that returned has done to the row of that name.
  pub record IsReconciled (id : String) (fence : ℕ) (actual : ResourceUsage)
      (terminal_state : Option TerminalState) (b : Book Float) (x : Reservation) (b' : Book Float)
      : Type 0 where
    pub row : Reservation
    pub kept : Dict.get id b.reservations ≡ some row
    pub same_fence : row.fence_token ≡ fence
    pub done :
        ((is_active row.state ≡ false) × (x ≡ row) × (b' ≡ b))
        ⊎ ((is_active row.state ≡ true)
            × (x ≡ reconciled_row row actual terminal_state)
            × (b' ≡ write_row id (reconciled_row row actual terminal_state) row b))

  row_done :
      (id : String) (row : Reservation) (fence : ℕ) (actual : ResourceUsage)
      (t : Option TerminalState) (b : Book Float) {x : Reservation} {b' : Book Float}
      → reconcile_row id row fence actual t b ≡ ok (x, b')
      → (row.fence_token ≡ fence)
        × (((is_active row.state ≡ false) × (x ≡ row) × (b' ≡ b))
            ⊎ ((is_active row.state ≡ true)
                × (x ≡ reconciled_row row actual t)
                × (b' ≡ write_row id (reconciled_row row actual t) row b)))
  row_done id row fence actual t b {x} {b'} e = elim (Bool-cases (row.fence_token == fence)) [
    | inl same ↦ (
      (==_iff row.fence_token fence).0 same,
      elim (Bool-cases (is_active row.state)) [
        | inl live ↦
            let pair : (
              reconciled_row row actual t,
              write_row id (reconciled_row row actual t) row b,
            )
                ≡ (x, b') =
              ok-injective (rw (same, live) at e) in
            inr (live, sym (ap (λ p. p.0) pair), sym (ap (λ p. p.1) pair))
        | inr over ↦
            let (y, ended, last) =
              >>=-eq-ok (reconcile_ended row actual t) (λ y. ok (y, b)) (rw (same, over) at e) in
            let pair : (y, b) ≡ (x, b') = ok-injective last in
            inl (
              over,
              sym (ap (λ p. p.0) pair) ∙ ended_same row actual t ended,
              sym (ap (λ p. p.1) pair),
            )
      ],
    )
    | inr other ↦ ground arith
  ]

  pub reconcile-eq-ok :
      (id : String) (fence : ℕ) (actual : ResourceUsage) (t : Option TerminalState) (b : Book Float)
      {x : Reservation} {b' : Book Float}
      → reconcile id fence actual t b ≡ ok (x, b')
      → IsReconciled id fence actual t b x b'
  unfolding reconcile
  reconcile-eq-ok id fence actual t b {x} {b'} e =
      elim (Option-cases (Dict.get id b.reservations)) [
        | inl missing ↦ ground arith
        | inr (row, kept) ↦
            let (same_fence, done) = row_done id row fence actual t b (rw kept at e) in
            record { row = row; kept = kept; same_fence = same_fence; done = done }
      ]

module _ (floats : Floats) (calendar : Calendar) (paths : Pathlib)
    (outside : Outside floats.Float) where
  open floats use {Float}
  open outside use {reservation_name}

  -- A call on the book that returned.
  pub data Step (b b' : Book Float) : Type 0 where
    reserved :
        (now : Option String) (cs : List (CandidateTarget Float)) (r : WorkloadRequirements Float)
        (key : String) (expected : Option ℕ) (placed : Placed Float)
        → reserve_best floats calendar paths outside now cs r key expected b ≡ ok (placed, b')
        → Step b b'
    reconciled :
        (id : String) (fence : ℕ) (actual : ResourceUsage) (terminal_state : Option TerminalState)
        (row : Reservation)
        → reconcile id fence actual terminal_state b ≡ ok (row, b')
        → Step b b'

  -- The books that calls lead to, from a new one.
  pub data Reachable : Book Float → Type 0 where
    start : Reachable empty_book
    next : (b b' : Book Float) → Reachable b → Step b b' → Reachable b'

  reconciled_row-IsConsistent :
      (b : Book Float) (id : String) (row : Reservation) (actual : ResourceUsage)
      (t : Option TerminalState)
      → ((m n : ℕ) → reservation_name m ≡ reservation_name n → m ≡ n)
      → IsConsistent floats calendar paths outside b
      → Dict.get id b.reservations ≡ some row
      → IsConsistent floats calendar paths outside
          (write_row id (reconciled_row row actual t) row b)
  reconciled_row-IsConsistent b id row actual t injective c kept =
      elim (Bool-cases (row_changed (reconciled_row row actual t) row)) [
        | inl changed ↦ rw changed (
            updated-IsConsistent floats calendar paths outside injective b c id row
              (reconciled_row row actual t) (b.revision + 1) kept (omega arith) refl refl refl refl)
        | inr same ↦ rw same c
      ]

  pub Step-IsConsistent :
      (b b' : Book Float)
      → ((m n : ℕ) → reservation_name m ≡ reservation_name n → m ≡ n)
      → IsConsistent floats calendar paths outside b
      → Step b b'
      → IsConsistent floats calendar paths outside b'
  Step-IsConsistent b b' injective c (reserved now cs r key expected placed e) =
      let (_, outcome) =
        reserve_best-eq-ok floats calendar paths outside now cs r key expected b e in
      elim outcome [
        | inl (_, unchanged) ↦ rw unchanged c
        | inr (inr blocked) ↦ rw (blocked.unchanged) c
        | inr (inl fresh) ↦ rw (fresh.recorded) (
            recorded-IsConsistent floats calendar paths outside injective b c
              (new_row floats calendar paths outside now r key fresh.target (b.revision + 1))
              (placed.0) refl refl fresh.unknown fresh.selected)
      ]
  Step-IsConsistent b b' injective c (reconciled id fence actual t row e) =
      let r = reconcile-eq-ok id fence actual t b e in
      elim r.done [
        | inl (_, _, same) ↦ rw same c
        | inr (_, _, wrote) ↦
            rw wrote (reconciled_row-IsConsistent b id r.row actual t injective c r.kept)
      ]

  -- Whatever calls are made on a new book: each reservation stands under the name of its fence, no
  -- higher than the revision, and its key names it; and each key names a reservation made under it,
  -- with the plan that selected its target. Names of different fences have to differ.
  pub Reachable-IsConsistent :
      (b : Book Float)
      → ((m n : ℕ) → reservation_name m ≡ reservation_name n → m ≡ n)
      → Reachable b
      → IsConsistent floats calendar paths outside b
  Reachable-IsConsistent _ injective start = empty-IsConsistent floats calendar paths outside
  Reachable-IsConsistent _ injective (next b b' r s) =
      Step-IsConsistent b b' injective (Reachable-IsConsistent b injective r) s

  other_kept :
      (j id : String) (row updated x : Reservation) (b : Book Float)
      → Dict.get j b.reservations ≡ some row
      → is_active row.state ≡ true
      → Dict.get id b.reservations ≡ some x
      → is_active x.state ≡ false
      → Dict.get id (write_row j updated row b).reservations ≡ some x
  other_kept j id row updated x b there live kept over =
      elim (Bool-cases (row_changed updated row)) [
        | inr same ↦ rw same kept
        | inl changed ↦ rw changed (elim (Bool-cases (j =? id)) [
          | inl one ↦
              let e : j ≡ id = (string_eq.beq_iff j id).0 one in
              absurd (active_apart {x = x} there live (rw e kept) over)
          | inr apart ↦ Dict.get-put j id updated b.reservations ∙ rw apart kept
        ])
      ]

  -- Each call that returns leaves the rows that have ended as they are.
  pub Step-ended_stays :
      (b b' : Book Float) (id : String) (row : Reservation)
      → ((m n : ℕ) → reservation_name m ≡ reservation_name n → m ≡ n)
      → IsConsistent floats calendar paths outside b
      → Step b b'
      → Dict.get id b.reservations ≡ some row
      → is_active row.state ≡ false
      → Dict.get id b'.reservations ≡ some row
  Step-ended_stays b b' id row injective c (reserved now cs r key expected placed e) kept over =
      let (_, outcome) =
        reserve_best-eq-ok floats calendar paths outside now cs r key expected b e in
      elim outcome [
        | inl (_, unchanged) ↦ rw unchanged kept
        | inr (inr blocked) ↦ rw (blocked.unchanged) kept
        | inr (inl fresh) ↦
            let name = reservation_name (b.revision + 1) in
            let apart =
              not_free floats calendar paths outside id name b
                (next_free floats calendar paths outside b injective c) kept in
            rw (fresh.recorded) (
              Dict.get-put name id
                (new_row floats calendar paths outside now r key fresh.target (b.revision + 1))
                b.reservations
              ∙ rw apart kept)
      ]
  Step-ended_stays b b' id row injective c (reconciled j fence actual t x e) kept over =
      let r = reconcile-eq-ok j fence actual t b e in
      elim r.done [
        | inl (_, _, same) ↦ rw same kept
        | inr (live, _, wrote) ↦
            rw wrote
              (other_kept j id r.row (reconciled_row r.row actual t) row b r.kept live kept over)
      ]
