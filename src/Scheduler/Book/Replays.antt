-- ===== src/Scheduler/Book/Replays.antt =====
-- Idempotency of `reserve_best` (src/local_agent_dispatch/scheduler/core.py).
use local_agent_dispatch.Prelude.Dict
use local_agent_dispatch.Prelude.Keys.{◌=?◌, string_eq, =?_refl}
use local_agent_dispatch.Prelude.{
  ℕ, String, ◌≡◌, ◌≢◌, refl, Option, some, List, arith, if◌then◌else◌,
}
use local_agent_dispatch.Scheduler.Book.Consistent.{IsConsistent}
use local_agent_dispatch.Scheduler.Book.Held.{IsSameReservation, IsHeld, Steps, IsHeld-later}
use local_agent_dispatch.Scheduler.Book.Reserve.{reserve_best}
use local_agent_dispatch.Scheduler.Book.State.{Reservation, Book, Outside}
use local_agent_dispatch.Scheduler.Model.{WorkloadRequirements, CandidateTarget, PlacementPlan}
use local_agent_dispatch.Topology.Paths.{Pathlib}
use local_agent_dispatch.World.Fault.{ok, err, reservation_conflict}
use local_agent_dispatch.World.Floats.{Floats}
use local_agent_dispatch.World.Observation.{Calendar}

module _ (floats : Floats) (calendar : Calendar) (paths : Pathlib)
    (outside : Outside floats.Float) where
  open floats use {Float}
  open outside use {digest, reservation_name}

  -- What a key that stands for a reservation gives.
  held_again :
      (now : Option String) (cs : List (CandidateTarget Float)) (r : WorkloadRequirements Float)
      (key : String) (expected : Option ℕ) (b : Book Float) (p : PlacementPlan Float)
      (row : Reservation) (h : IsHeld floats calendar paths outside key p row b)
      → reserve_best floats calendar paths outside now cs r key expected b ≡ (
          if row.request_digest =? digest r
          then ok ((p, some h.current), b)
          else err reservation_conflict)
  unfolding reserve_best
  held_again now cs r key expected b p row h =
      rw (h.written, h.known, h.kept, h.has_plan, h.same.request) refl

  -- The same reservation, as the book has it now.
  pub record IsCurrent (row x : Reservation) (b : Book Float) : Type 0 where
    pub stored : Dict.get row.reservation_id b.reservations ≡ some x
    pub same : IsSameReservation row x

  -- Once a key has placed a reservation, however many calls on the book return after that, the same key
  -- with a request of the same digest gives back the same plan and the reservation as the book has it
  -- then, and leaves the book as it is, whatever the targets, the expected revision and the time are.
  -- The book at first is consistent and names of different fences differ.
  pub reserve_best-replays :
      (now now' : Option String) (cs cs' : List (CandidateTarget Float))
      (r r' : WorkloadRequirements Float) (key : String) (expected expected' : Option ℕ)
      (b b' later : Book Float) (p : PlacementPlan Float) (row : Reservation)
      → ((m n : ℕ) → reservation_name m ≡ reservation_name n → m ≡ n)
      → IsConsistent floats calendar paths outside b
      → reserve_best floats calendar paths outside now cs r key expected b ≡ ok ((p, some row), b')
      → Steps floats calendar paths outside b' later
      → digest r' ≡ digest r
      → (x : Reservation) × IsCurrent row x later
        × (reserve_best floats calendar paths outside now' cs' r' key expected' later
            ≡ ok ((p, some x), later))
  reserve_best-replays now now' cs cs' r r' key expected expected' b b' later p row injective c e
        steps same =
      let (held, request) =
        IsHeld-later floats calendar paths outside now cs r key expected b b' later p row injective
          c e steps in
      (
        held.current,
        record { stored = held.kept; same = held.same },
        rw
            (
              held_again now' cs' r' key expected' later p row held,
              request,
              same,
              =?_refl (digest r),
            )
            refl,
      )

  -- Once a key has placed a reservation, however many calls on the book return after that, a request of
  -- another digest under that key is refused with ReservationConflict. The book at first is consistent
  -- and names of different fences differ.
  pub reserve_best-key_reuse :
      (now now' : Option String) (cs cs' : List (CandidateTarget Float))
      (r r' : WorkloadRequirements Float) (key : String) (expected expected' : Option ℕ)
      (b b' later : Book Float) (p : PlacementPlan Float) (row : Reservation)
      → ((m n : ℕ) → reservation_name m ≡ reservation_name n → m ≡ n)
      → IsConsistent floats calendar paths outside b
      → reserve_best floats calendar paths outside now cs r key expected b ≡ ok ((p, some row), b')
      → Steps floats calendar paths outside b' later
      → digest r' ≢ digest r
      → reserve_best floats calendar paths outside now' cs' r' key expected' later
        ≡ err reservation_conflict
  reserve_best-key_reuse now now' cs cs' r r' key expected expected' b b' later p row injective c e
        steps other =
      let (held, request) =
        IsHeld-later floats calendar paths outside now cs r key expected b b' later p row injective
          c e steps in
      let again = held_again now' cs' r' key expected' later p row held in
      ground (arith, again, request, string_eq.beq_iff (digest r) (digest r'))
