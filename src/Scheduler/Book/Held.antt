-- ===== src/Scheduler/Book/Held.antt =====
-- An idempotency key of a `ReservationBook` stands for its reservation over all later calls
-- (src/local_agent_dispatch/scheduler/core.py).
use local_agent_dispatch.Prelude.Dict
use local_agent_dispatch.Prelude.Dict.{Dict}
use local_agent_dispatch.Prelude.Keys.{◌=?◌, string_eq}
use local_agent_dispatch.Prelude.{
  ℕ, ◌+◌, String, ◌≡◌, refl, sym, ap, ◌∙◌, inl, inr, false, Option, none, some, List, Bool-cases,
  none≢some,
}
use local_agent_dispatch.Scheduler.Book.Consistent.{IsConsistent, next_free}
use local_agent_dispatch.Scheduler.Book.Outcomes.{IsNew, reserve_best-eq-ok}
use local_agent_dispatch.Scheduler.Book.Reconcile.{
  TerminalState, reconciled_row, row_changed, write_row,
}
use local_agent_dispatch.Scheduler.Book.Reserve.{new_row, reserve_best}
use local_agent_dispatch.Scheduler.Book.State.{Reservation, Book, Outside}
use local_agent_dispatch.Scheduler.Book.Steps.{
  Step, reserved, reconciled, Step-IsConsistent, reconcile-eq-ok,
}
use local_agent_dispatch.Scheduler.Model.{
  WorkloadRequirements, CandidateTarget, PlacementPlan, ResourceUsage,
}
use local_agent_dispatch.Topology.Paths.{Pathlib}
use local_agent_dispatch.World.Fault.{ok}
use local_agent_dispatch.World.Floats.{Floats}
use local_agent_dispatch.World.Observation.{Calendar}

-- The row of the same reservation, perhaps with another use and state.
pub record IsSameReservation (row x : Reservation) : Type 0 where
  pub name : x.reservation_id ≡ row.reservation_id
  pub key : x.idempotency_key ≡ row.idempotency_key
  pub request : x.request_digest ≡ row.request_digest
  pub target : x.target_id ≡ row.target_id
  pub fence : x.fence_token ≡ row.fence_token
  pub holds : x.reserved ≡ row.reserved

IsSameReservation-refl : (row : Reservation) → IsSameReservation row row
IsSameReservation-refl row = record {
  name = refl;
  key = refl;
  request = refl;
  target = refl;
  fence = refl;
  holds = refl;
}

key_apart :
    {V : Type 0} (j k : String) {v : V} (d : Dict String V)
    → Dict.get j d ≡ none
    → Dict.get k d ≡ some v
    → (j =? k) ≡ false
key_apart j k d free taken = elim (Bool-cases (j =? k)) [
  | inl same ↦
      let one = (string_eq.beq_iff j k).0 same in
      absurd (none≢some (sym free ∙ ap (λ i. Dict.get i d) one ∙ taken))
  | inr other ↦ other
]

module _ (floats : Floats) (calendar : Calendar) (paths : Pathlib)
    (outside : Outside floats.Float) where
  open floats use {Float}
  open outside use {digest, is_blank, reservation_name}

  -- The key stands for a reservation, with its plan, and the digest of its request.
  pub record IsHeld (key : String) (p : PlacementPlan Float) (row : Reservation) (b : Book Float)
      : Type 0 where
    pub written : is_blank key ≡ false
    pub known : Dict.get key b.by_idempotency ≡ some row.reservation_id
    pub current : Reservation
    pub kept : Dict.get row.reservation_id b.reservations ≡ some current
    pub has_plan : Dict.get row.reservation_id b.plans_by_reservation ≡ some p
    pub same : IsSameReservation row current

  -- Calls that returned, one after another.
  pub data Steps (b : Book Float) : Book Float → Type 0 where
    none_yet : Steps b b
    one_more :
        {b1 b2 : Book Float} → Steps b b1 → Step floats calendar paths outside b1 b2 → Steps b b2

  new-IsHeld :
      (now : Option String) (cs : List (CandidateTarget Float)) (r : WorkloadRequirements Float)
      (key : String) (b : Book Float) (p : PlacementPlan Float) (row : Reservation)
      (b' : Book Float)
      → is_blank key ≡ false
      → IsNew floats calendar paths outside now cs r key b (p, some row) b'
      → IsHeld key p row b' × (row.request_digest ≡ digest r)
  new-IsHeld now cs r key b p row b' written n =
      let made = new_row floats calendar paths outside now r key n.target (b.revision + 1) in
      let same : row ≡ made = cc (n.returned) in
      rw (n.recorded, same)
        (
          record {
            written = written;
            known = Dict.get-put_self key (reservation_name (b.revision + 1)) b.by_idempotency;
            current = made;
            kept = Dict.get-put_self (reservation_name (b.revision + 1)) made b.reservations;
            has_plan =
                Dict.get-put_self (reservation_name (b.revision + 1)) p b.plans_by_reservation;
            same = IsSameReservation-refl made;
          },
          refl,
        )

  -- A key that has placed a reservation stands for it.
  pub reserved-IsHeld :
      (now : Option String) (cs : List (CandidateTarget Float)) (r : WorkloadRequirements Float)
      (key : String) (expected : Option ℕ) (b : Book Float) (p : PlacementPlan Float)
      (row : Reservation) (b' : Book Float)
      → IsConsistent floats calendar paths outside b
      → reserve_best floats calendar paths outside now cs r key expected b ≡ ok ((p, some row), b')
      → IsHeld key p row b' × (row.request_digest ≡ digest r)
  reserved-IsHeld now cs r key expected b p row b' c e =
      let (written, outcome) =
        reserve_best-eq-ok floats calendar paths outside now cs r key expected b e in
      elim outcome [
        | inl (old, unchanged) ↦
            let one : row ≡ old.existing = cc (old.returned) in
            let (own_name, _, _) = c.named old.id old.existing old.kept in
            rw (unchanged, one)
              (
                record {
                  written = written;
                  known = old.known ∙ ap some (sym own_name);
                  current = old.existing;
                  kept = ap (λ i. Dict.get i b.reservations) own_name ∙ old.kept;
                  has_plan = ap (λ i. Dict.get i b.plans_by_reservation) own_name ∙ old.has_plan;
                  same = IsSameReservation-refl old.existing;
                },
                old.same_request,
              )
        | inr (inl fresh) ↦ new-IsHeld now cs r key b p row b' written fresh
        | inr (inr blocked) ↦ cc (blocked.nothing)
      ]

  recorded-IsHeld :
      (now : Option String) (cs : List (CandidateTarget Float)) (r : WorkloadRequirements Float)
      (new_key key : String) (b : Book Float) (p q : PlacementPlan Float) (row : Reservation)
      (o : Option Reservation) (b' : Book Float)
      → Dict.get (reservation_name (b.revision + 1)) b.reservations ≡ none
      → IsNew floats calendar paths outside now cs r new_key b (q, o) b'
      → IsHeld key p row b
      → IsHeld key p row b'
  recorded-IsHeld now cs r new_key key b p q row o b' free n h =
      let name = reservation_name (b.revision + 1) in
      let made = new_row floats calendar paths outside now r new_key n.target (b.revision + 1) in
      let other_key = key_apart new_key key b.by_idempotency n.unknown h.known in
      let other_name = key_apart name row.reservation_id b.reservations free h.kept in
      rw (n.recorded) (record {
        written = h.written;
        known = Dict.get-put new_key key name b.by_idempotency ∙ rw other_key h.known;
        current = h.current;
        kept = Dict.get-put name row.reservation_id made b.reservations ∙ rw other_name h.kept;
        has_plan =
            Dict.get-put name row.reservation_id q b.plans_by_reservation
            ∙ rw other_name h.has_plan;
        same = h.same;
      })

  written-IsHeld :
      (key id : String) (p : PlacementPlan Float) (row x : Reservation) (actual : ResourceUsage)
      (t : Option TerminalState) (b : Book Float)
      → Dict.get id b.reservations ≡ some x
      → IsHeld key p row b
      → IsHeld key p row (write_row id (reconciled_row x actual t) x b)
  written-IsHeld key id p row x actual t b there h =
      let updated = reconciled_row x actual t in
      elim (Bool-cases (row_changed updated x)) [
        | inr same ↦ rw same h
        | inl changed ↦ rw changed (elim (Bool-cases (id =? row.reservation_id)) [
          | inl one ↦
              let e : id ≡ row.reservation_id = (string_eq.beq_iff id row.reservation_id).0 one in
              let own : x ≡ h.current =
                some_same (sym there ∙ ap (λ i. Dict.get i b.reservations) e ∙ h.kept) in
              record {
                written = h.written;
                known = h.known;
                current = updated;
                kept = Dict.get-put id row.reservation_id updated b.reservations ∙ rw one refl;
                has_plan = h.has_plan;
                same = record {
                  name = ap (λ y. y.reservation_id) own ∙ h.same.name;
                  key = ap (λ y. y.idempotency_key) own ∙ h.same.key;
                  request = ap (λ y. y.request_digest) own ∙ h.same.request;
                  target = ap (λ y. y.target_id) own ∙ h.same.target;
                  fence = ap (λ y. y.fence_token) own ∙ h.same.fence;
                  holds = ap (λ y. y.reserved) own ∙ h.same.holds;
                };
              }
          | inr apart ↦ record {
            written = h.written;
            known = h.known;
            current = h.current;
            kept = Dict.get-put id row.reservation_id updated b.reservations ∙ rw apart h.kept;
            has_plan = h.has_plan;
            same = h.same;
          }
        ])
      ]
    where
      some_same : {y z : Reservation} → some y ≡ some z → y ≡ z
      some_same e = cc

  Step-IsHeld :
      (key : String) (p : PlacementPlan Float) (row : Reservation) (b b' : Book Float)
      → ((m n : ℕ) → reservation_name m ≡ reservation_name n → m ≡ n)
      → IsConsistent floats calendar paths outside b
      → IsHeld key p row b
      → Step floats calendar paths outside b b'
      → IsHeld key p row b'
  Step-IsHeld key p row b b' injective c h (reserved now cs r new_key expected (q, o) e) =
      let (_, outcome) =
        reserve_best-eq-ok floats calendar paths outside now cs r new_key expected b e in
      elim outcome [
        | inl (_, unchanged) ↦ rw unchanged h
        | inr (inr blocked) ↦ rw (blocked.unchanged) h
        | inr (inl fresh) ↦
            recorded-IsHeld now cs r new_key key b p q row o b'
              (next_free floats calendar paths outside b injective c) fresh h
      ]
  Step-IsHeld key p row b b' injective c h (reconciled j fence actual t x e) =
      let r = reconcile-eq-ok j fence actual t b e in
      elim r.done [
        | inl (_, _, same) ↦ rw same h
        | inr (_, _, wrote) ↦ rw wrote (written-IsHeld key j p row r.row actual t b r.kept h)
      ]

  Steps-IsHeld_and_IsConsistent :
      (key : String) (p : PlacementPlan Float) (row : Reservation) (b : Book Float)
      {b' : Book Float}
      → ((m n : ℕ) → reservation_name m ≡ reservation_name n → m ≡ n)
      → IsConsistent floats calendar paths outside b
      → IsHeld key p row b
      → Steps b b'
      → IsHeld key p row b' × IsConsistent floats calendar paths outside b'
  Steps-IsHeld_and_IsConsistent key p row b injective c h none_yet = (h, c)
  Steps-IsHeld_and_IsConsistent key p row b injective c h (one_more {b1} {b2} before step) =
      let (held, consistent) = Steps-IsHeld_and_IsConsistent key p row b injective c h before in
      (
        Step-IsHeld key p row b1 b2 injective consistent held step,
        Step-IsConsistent floats calendar paths outside b1 b2 injective consistent step,
      )

  -- However many calls come between, a key that has placed a reservation stands for it.
  pub IsHeld-later :
      (now : Option String) (cs : List (CandidateTarget Float)) (r : WorkloadRequirements Float)
      (key : String) (expected : Option ℕ) (b b' later : Book Float) (p : PlacementPlan Float)
      (row : Reservation)
      → ((m n : ℕ) → reservation_name m ≡ reservation_name n → m ≡ n)
      → IsConsistent floats calendar paths outside b
      → reserve_best floats calendar paths outside now cs r key expected b ≡ ok ((p, some row), b')
      → Steps b' later
      → IsHeld key p row later × (row.request_digest ≡ digest r)
  IsHeld-later now cs r key expected b b' later p row injective c e steps =
      let (held, request) = reserved-IsHeld now cs r key expected b p row b' c e in
      let c' =
        Step-IsConsistent floats calendar paths outside b b' injective c
          (reserved now cs r key expected (p, some row) e) in
      ((Steps-IsHeld_and_IsConsistent key p row b' injective c' held steps).0, request)
