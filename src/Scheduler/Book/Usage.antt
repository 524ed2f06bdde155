-- ===== src/Scheduler/Book/Usage.antt =====
-- `usage_by_target` of src/local_agent_dispatch/scheduler/core.py.
use local_agent_dispatch.Prelude.Dict
use local_agent_dispatch.Prelude.Dict.{Dict, values}
use local_agent_dispatch.Prelude.Keys.{string_eq}
use local_agent_dispatch.Prelude.{
  ◌+◌, max, String, Bool, true, false, List, [], ◌∷◌, get_or, if◌then◌else◌,
}
use local_agent_dispatch.Scheduler.Model.{ResourceUsage, no_usage}
use local_agent_dispatch.Scheduler.Book.State.{ReservationState, active, Reservation, Book}

-- What an active reservation is charged with.
abbrev pub larger : ResourceUsage → ResourceUsage → ResourceUsage
larger a b = record {
  memory_bytes = max a.memory_bytes b.memory_bytes;
  disk_bytes = max a.disk_bytes b.disk_bytes;
  disk_inodes = max a.disk_inodes b.disk_inodes;
  gpu_vram_mib = max a.gpu_vram_mib b.gpu_vram_mib;
  lanes = max a.lanes b.lanes;
  cpu_threads = max a.cpu_threads b.cpu_threads;
}

abbrev pub add_usage : ResourceUsage → ResourceUsage → ResourceUsage
add_usage a b = record {
  memory_bytes = a.memory_bytes + b.memory_bytes;
  disk_bytes = a.disk_bytes + b.disk_bytes;
  disk_inodes = a.disk_inodes + b.disk_inodes;
  gpu_vram_mib = a.gpu_vram_mib + b.gpu_vram_mib;
  lanes = a.lanes + b.lanes;
  cpu_threads = a.cpu_threads + b.cpu_threads;
}

abbrev pub is_active : ReservationState → Bool
is_active active = true
is_active _ = false

-- One round of the loop in `usage_by_target`.
unfoldable pub charge_row : Reservation → Dict String ResourceUsage → Dict String ResourceUsage
charge_row row totals =
    if is_active row.state
    then Dict.put row.target_id
        (add_usage (get_or (Dict.get row.target_id totals) no_usage)
          (larger row.reserved row.actual))
        totals
    else totals

unfoldable pub charge_rows :
    List Reservation → Dict String ResourceUsage → Dict String ResourceUsage
charge_rows [] totals = totals
charge_rows (row ∷ rows) totals = charge_rows rows (charge_row row totals)

unfoldable pub usage_by_target : {Float : Type 0} → Book Float → Dict String ResourceUsage
usage_by_target b = charge_rows (values b.reservations) []
