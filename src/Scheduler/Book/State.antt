-- ===== src/Scheduler/Book/State.antt =====
-- `Reservation` and the state of a `ReservationBook`
-- (src/local_agent_dispatch/scheduler/core.py).
use local_agent_dispatch.Prelude.Dict.{Dict}
use local_agent_dispatch.Prelude.Keys.{string_eq}
use local_agent_dispatch.Prelude.{ℕ, String, Bool, Option, []}
use local_agent_dispatch.Scheduler.Model.{WorkloadRequirements, ResourceUsage, PlacementPlan}

pub data ReservationState : Type 0 where
  active completed cancelled : ReservationState

pub record Reservation : Type 0 where
  pub reservation_id : String
  pub idempotency_key : String
  pub request_digest : String
  pub job_id : String
  pub target_id : String
  pub fence_token : ℕ
  pub state : ReservationState
  pub reserved : ResourceUsage
  pub actual : ResourceUsage
  pub overage : Bool

-- The state of a ReservationBook.
pub record Book (Float : Type 0) : Type 0 where
  pub revision : ℕ
  pub reservations : Dict String Reservation
  pub by_idempotency : Dict String String
  pub plans_by_reservation : Dict String (PlacementPlan Float)

abbrev pub empty_book : {Float : Type 0} → Book Float
empty_book = record {
  revision = 0;
  reservations = [];
  by_idempotency = [];
  plans_by_reservation = [];
}

-- What Python's libraries compute for the book.
pub record Outside (Float : Type 0) : Type 0 where
  -- `_stable_digest(requirements.to_dict())`
  pub digest : WorkloadRequirements Float → String
  -- `f"rsv-{revision:08d}"`
  pub reservation_name : ℕ → String
  -- `not text.strip()`
  pub is_blank : String → Bool

abbrev pub Placed : Type 0 → Type 0
Placed Float = PlacementPlan Float × Option Reservation
