-- ===== src/Scheduler/Book/Charges.antt =====
-- `usage_by_target` of src/local_agent_dispatch/scheduler/core.py as a sum.
use local_agent_dispatch.Prelude.Dict
use local_agent_dispatch.Prelude.Dict.{Dict, values}
use local_agent_dispatch.Prelude.Keys.{◌=?◌, string_eq}
use local_agent_dispatch.Prelude.{
  ◌+◌, max, true, false, String, ◌≡◌, refl, List, [], ◌∷◌, ◌++◌, get_or, arith, sym, ◌∙◌,
  Bool-cases, inl, inr, if◌then◌else◌, ap,
}
use local_agent_dispatch.Scheduler.Book.State.{
  ReservationState, active, completed, cancelled, Reservation, Book,
}
use local_agent_dispatch.Scheduler.Book.Usage.{
  larger, add_usage, is_active, charge_row, charge_rows, usage_by_target,
}
use local_agent_dispatch.Scheduler.Model.{ResourceUsage, no_usage}

-- What a reservation in a state weighs on its target: the larger of what it holds and what it uses,
-- while it is active.
abbrev pub own_weight : ReservationState → ResourceUsage → ResourceUsage → ResourceUsage
own_weight active reserved actual = record {
  memory_bytes = max reserved.memory_bytes actual.memory_bytes;
  disk_bytes = max reserved.disk_bytes actual.disk_bytes;
  disk_inodes = max reserved.disk_inodes actual.disk_inodes;
  gpu_vram_mib = max reserved.gpu_vram_mib actual.gpu_vram_mib;
  lanes = max reserved.lanes actual.lanes;
  cpu_threads = max reserved.cpu_threads actual.cpu_threads;
}
own_weight completed reserved actual = no_usage
own_weight cancelled reserved actual = no_usage

-- What a reservation weighs on a target.
unfoldable pub weight : String → Reservation → ResourceUsage
weight t row = if row.target_id =? t then own_weight row.state row.reserved row.actual else no_usage

-- Two usages together.
abbrev together : ResourceUsage → ResourceUsage → ResourceUsage
together a b = record {
  memory_bytes = a.memory_bytes + b.memory_bytes;
  disk_bytes = a.disk_bytes + b.disk_bytes;
  disk_inodes = a.disk_inodes + b.disk_inodes;
  gpu_vram_mib = a.gpu_vram_mib + b.gpu_vram_mib;
  lanes = a.lanes + b.lanes;
  cpu_threads = a.cpu_threads + b.cpu_threads;
}

-- The sum of what the reservations weigh on a target.
unfoldable pub weight_of : String → List Reservation → ResourceUsage
weight_of t [] = no_usage
weight_of t (row ∷ rows) = together (weight t row) (weight_of t rows)

add_usage_assoc :
    (a b c : ResourceUsage) → add_usage (add_usage a b) c ≡ add_usage a (add_usage b c)
add_usage_assoc a b c = ground arith

pub add_usage_zero : (a : ResourceUsage) → add_usage a no_usage ≡ a
add_usage_zero a = ground arith

zero_add_usage : (a : ResourceUsage) → add_usage no_usage a ≡ a
zero_add_usage a = ground arith

abbrev pub usage_at : String → Dict String ResourceUsage → ResourceUsage
usage_at t totals = get_or (Dict.get t totals) no_usage

live-weight :
    (s : ReservationState) (reserved actual : ResourceUsage)
    → is_active s ≡ true
    → own_weight s reserved actual ≡ larger reserved actual
live-weight active reserved actual live = refl
live-weight completed reserved actual live = cc
live-weight cancelled reserved actual live = cc

over-weight :
    (s : ReservationState) (reserved actual : ResourceUsage)
    → is_active s ≡ false
    → own_weight s reserved actual ≡ no_usage
over-weight active reserved actual over = cc
over-weight completed reserved actual over = refl
over-weight cancelled reserved actual over = refl

-- Only the active have a weight.
pub ended-weight :
    (t : String) (x : Reservation) → is_active x.state ≡ false → weight t x ≡ no_usage
unfolding weight
ended-weight t x over = elim (Bool-cases (x.target_id =? t)) [
  | inl here ↦ rw here (over-weight x.state x.reserved x.actual over)
  | inr other ↦ rw other refl
]

charge_row-weight :
    (t : String) (row : Reservation) (totals : Dict String ResourceUsage)
    → usage_at t (charge_row row totals) ≡ add_usage (usage_at t totals) (weight t row)
unfolding charge_row weight
charge_row-weight t row totals = elim (Bool-cases (is_active row.state)) [
  | inl live ↦
      rw (live, Dict.get-put)
        (elim (Bool-cases (row.target_id =? t)) [
          | inl same ↦
              rw (same, live-weight row.state row.reserved row.actual live)
                (rw ((string_eq.beq_iff row.target_id t).0 same) refl)
          | inr other ↦ rw other (sym (add_usage_zero _))
        ])
  | inr ended ↦
      let weightless = ended-weight t row ended in rw (ended, weightless) (sym (add_usage_zero _))
]

charge_rows-weight :
    (t : String) (rows : List Reservation) (totals : Dict String ResourceUsage)
    → usage_at t (charge_rows rows totals) ≡ add_usage (usage_at t totals) (weight_of t rows)
unfolding charge_rows weight_of
charge_rows-weight t [] totals = sym (add_usage_zero _)
charge_rows-weight t (row ∷ rows) totals =
    charge_rows-weight t rows (charge_row row totals)
    ∙ ap (λ a. add_usage a (weight_of t rows)) (charge_row-weight t row totals)
    ∙ add_usage_assoc (usage_at t totals) (weight t row) (weight_of t rows)

-- The usage of a target is the sum, over the active reservations on it, of the larger of what each
-- holds and what each was seen to use, in every dimension.
pub usage_by_target-weight :
    {Float : Type 0} (b : Book Float) (t : String)
    → usage_at t (usage_by_target b) ≡ weight_of t (values b.reservations)
unfolding usage_by_target Dict.get
usage_by_target-weight b t = charge_rows-weight t (values b.reservations) [] ∙ zero_add_usage _

pub weight_of-append :
    (t : String) (xs ys : List Reservation)
    → weight_of t (xs ++ ys) ≡ add_usage (weight_of t xs) (weight_of t ys)
unfolding weight_of
weight_of-append t [] ys = sym (zero_add_usage _)
weight_of-append t (x ∷ xs) ys =
    ap (add_usage (weight t x)) (weight_of-append t xs ys)
    ∙ sym (add_usage_assoc (weight t x) (weight_of t xs) (weight_of t ys))
