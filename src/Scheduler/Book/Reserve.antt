-- ===== src/Scheduler/Book/Reserve.antt =====
-- `plan` and `reserve_best` of src/local_agent_dispatch/scheduler/core.py.
use local_agent_dispatch.Prelude.Dict
use local_agent_dispatch.Prelude.Dict.{Dict, values}
use local_agent_dispatch.Prelude.Keys.{◌=?◌, string_eq}
use local_agent_dispatch.Prelude.{
  ℕ, ◌+◌, String, Bool, true, false, not, Option, none, some, List, get_or, ◌==◌, if◌then◌else◌,
}
use local_agent_dispatch.Scheduler.Model.{
  WorkloadRequirements, with_headroom, memory_with_headroom, gpu_with_headroom_mib, CandidateTarget,
  ResourceUsage, no_usage, PlacementPlan,
}
use local_agent_dispatch.Scheduler.Rank.{rank_candidates}
use local_agent_dispatch.Topology.Paths.{Pathlib}
use local_agent_dispatch.World.Fault.{
  Result, ok, err, value_error, reservation_conflict, key_error, ◌>>=◌,
}
use local_agent_dispatch.World.Floats.{Floats}
use local_agent_dispatch.World.Observation.{Calendar}
use local_agent_dispatch.Scheduler.Book.State.{active, Reservation, Book, Outside, Placed}
use local_agent_dispatch.Scheduler.Book.Usage.{usage_by_target}

module _ (floats : Floats) (calendar : Calendar) (paths : Pathlib) (outside : Outside floats.Float)
    (now : Option String) where
  open floats use {Float}
  open outside use {digest, reservation_name, is_blank}

  unfoldable pub plan :
      List (CandidateTarget Float)
      → WorkloadRequirements Float
      → Book Float
      → Result (PlacementPlan Float)
  plan candidates r b = rank_candidates floats calendar paths now candidates r (usage_by_target b)

  -- The amounts that a reservation holds.
  abbrev pub held : WorkloadRequirements Float → ResourceUsage
  held r = record {
    memory_bytes = memory_with_headroom floats r;
    disk_bytes = with_headroom floats r.disk_bytes r.headroom_ratio;
    disk_inodes = get_or r.disk_inodes 0;
    gpu_vram_mib = get_or (gpu_with_headroom_mib floats r) 0;
    lanes = 1;
    cpu_threads = get_or r.cpu_threads 0;
  }

  abbrev pub new_row : WorkloadRequirements Float → String → String → ℕ → Reservation
  new_row r key target_id revision = record {
    reservation_id = reservation_name revision;
    idempotency_key = key;
    request_digest = digest r;
    job_id = r.job_id;
    target_id = target_id;
    fence_token = revision;
    state = active;
    reserved = held r;
    actual = no_usage;
    overage = false;
  }

  abbrev pub record_row : PlacementPlan Float → Reservation → Book Float → Book Float
  record_row plan row b = record {
    revision = row.fence_token;
    reservations = Dict.put row.reservation_id row b.reservations;
    by_idempotency = Dict.put row.idempotency_key row.reservation_id b.by_idempotency;
    plans_by_reservation = Dict.put row.reservation_id plan b.plans_by_reservation;
  }

  abbrev pub reserve_target :
      PlacementPlan Float
      → Option String
      → WorkloadRequirements Float
      → String
      → Book Float
      → Placed Float × Book Float
  reserve_target plan none r key b = ((plan, none), b)
  reserve_target plan (some target_id) r key b =
      let row = new_row r key target_id (b.revision + 1) in
      ((plan, some row), record_row plan row b)

  abbrev pub is_expected : Option ℕ → ℕ → Bool
  is_expected none revision = true
  is_expected (some n) revision = n == revision

  abbrev pub reserve_new :
      List (CandidateTarget Float)
      → WorkloadRequirements Float
      → String
      → Option ℕ
      → Book Float
      → Result (Placed Float × Book Float)
  reserve_new candidates r key expected b =
      if not (is_expected expected b.revision) then err reservation_conflict else do
        placement ← plan candidates r b
        ok (reserve_target placement placement.selected_target_id r key b)

  -- A known key names a reservation and its plan; a name that is not there is a KeyError.
  abbrev pub replay :
      WorkloadRequirements Float
      → Option Reservation
      → Option (PlacementPlan Float)
      → Book Float
      → Result (Placed Float × Book Float)
  replay r (some existing) (some placement) b =
      if existing.request_digest =? digest r
      then ok ((placement, some existing), b)
      else err reservation_conflict
  replay r (some existing) none b =
      if existing.request_digest =? digest r then err key_error else err reservation_conflict
  replay r none placement b = err key_error

  abbrev pub reserve_known :
      List (CandidateTarget Float)
      → WorkloadRequirements Float
      → String
      → Option ℕ
      → Option String
      → Book Float
      → Result (Placed Float × Book Float)
  reserve_known candidates r key expected none b = reserve_new candidates r key expected b
  reserve_known candidates r key expected (some id) b =
      replay r (Dict.get id b.reservations) (Dict.get id b.plans_by_reservation) b

  unfoldable pub reserve_best :
      List (CandidateTarget Float)
      → WorkloadRequirements Float
      → String
      → Option ℕ
      → Book Float
      → Result (Placed Float × Book Float)
  reserve_best candidates r key expected b =
      if is_blank key
      then err value_error
      else reserve_known candidates r key expected (Dict.get key b.by_idempotency) b
