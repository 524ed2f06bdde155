-- ===== src/Examples/Book.antt =====
-- Calls on a book of reservations (src/local_agent_dispatch/scheduler/core.py).
use local_agent_dispatch.Examples.Scheduler.{job, both, both_plan, far_only}
use local_agent_dispatch.Examples.Topology.{floats, calendar, paths}
use local_agent_dispatch.Prelude.Dict
use local_agent_dispatch.Prelude.Keys.{◌=?◌, string_eq}
use local_agent_dispatch.Prelude.{
  ℕ, zero, suc, String, ◌≡◌, ◌≢◌, refl, ap, sym, ◌∙◌, none, some, arith,
}
use local_agent_dispatch.Scheduler.Book.Balance.{IsSettled, reconcile-balance, cancel-releases}
use local_agent_dispatch.Scheduler.Book.Capacity.{IsCharged, reserve_best-IsCharged}
use local_agent_dispatch.Scheduler.Book.Charges.{usage_at, weight}
use local_agent_dispatch.Scheduler.Book.Consistent.{IsConsistent, empty-IsConsistent}
use local_agent_dispatch.Scheduler.Book.Reconcile.{
  to_completed, to_cancelled, reconciled_row, exceeds, row_changed, reconcile, cancel,
}
use local_agent_dispatch.Scheduler.Book.Replays.{
  IsCurrent, reserve_best-replays, reserve_best-key_reuse,
}
use local_agent_dispatch.Scheduler.Book.Held.{Steps, none_yet, one_more}
use local_agent_dispatch.Scheduler.Book.Reserve.{plan, new_row, record_row, reserve_best}
use local_agent_dispatch.Scheduler.Book.State.{Reservation, Book, Outside, empty_book}
use local_agent_dispatch.Scheduler.Book.Steps.{
  Step, Reachable, Reachable-IsConsistent, Step-ended_stays,
}
use local_agent_dispatch.Scheduler.Book.Usage.{add_usage, usage_by_target, charge_rows}
use local_agent_dispatch.Prelude.Int.{◌-ℤ◌}
use local_agent_dispatch.Scheduler.Score.{score_components}
use local_agent_dispatch.Scheduler.Assess.{gate, assessment, assess_candidate}
use local_agent_dispatch.Scheduler.Evidence.{freshness, memory_available}
use local_agent_dispatch.Prelude.Sort.{insert_sorted, stable_sort, first}
use local_agent_dispatch.Scheduler.Rank.{assess_all, key_less, rank_candidates}
use local_agent_dispatch.Topology.Mounts.{
  normalized_mounts, exact_mount, deepest_mount, resolve_mount,
}
use local_agent_dispatch.Topology.Paths.{pure_absolute_path, covers}
use local_agent_dispatch.Topology.Placement.{test_inodes, decide_reserved, evaluate_placement}
use local_agent_dispatch.World.Observation.{is_stale, parse_iso, anchor}
use local_agent_dispatch.Scheduler.Model.{WorkloadRequirements, ResourceUsage, no_usage}
use local_agent_dispatch.World.Fault.{ok, err, reservation_conflict}

-- A name for each number: as many strokes.
strokes : ℕ → String
strokes zero = ""
strokes (suc n) = String.◌∷◌ "x" (strokes n)

size : String → ℕ
size String.[] = 0
size (String.◌∷◌ c s) = suc (size s)

size-strokes : (n : ℕ) → size (strokes n) ≡ n
unfolding size strokes
size-strokes zero = refl
size-strokes (suc n) = ap suc (size-strokes n)

strokes_injective : (m n : ℕ) → strokes m ≡ strokes n → m ≡ n
strokes_injective m n e = sym (size-strokes m) ∙ ap size e ∙ size-strokes n

abbrev outside : Outside ℕ
outside = record { digest = λ r. r.job_id; reservation_name = strokes; is_blank = λ s. s =? "" }

abbrev row : Reservation
row = new_row floats calendar paths outside none job "key" "local" 1

abbrev book : Book ℕ
book = record_row floats calendar paths outside none both_plan row empty_book

job_reserved :
    reserve_best floats calendar paths outside none both job "key" none empty_book
    ≡ ok ((both_plan, some row), book)
unfolding reserve_best plan usage_by_target charge_rows rank_candidates assess_all insert_sorted
    stable_sort key_less first Dict.get Dict.put assess_candidate assessment gate score_components
    memory_available freshness evaluate_placement test_inodes decide_reserved is_stale parse_iso
    anchor resolve_mount normalized_mounts exact_mount deepest_mount pure_absolute_path covers ◌-ℤ◌
job_reserved = refl

abbrev other_job : WorkloadRequirements ℕ
other_job = record job { job_id = "other" }

other_digest : ◌≢◌ {A = String} "other" "job"
other_digest e = ground (arith, e, (string_eq.beq_iff "other" "job").1 e)

no_key : Dict.get "key" (empty_book {Float = ℕ}).by_idempotency ≡ none
unfolding Dict.get
no_key = refl

reserve_best-IsCharged_example :
    IsCharged floats calendar paths outside none both job empty_book "local" book
reserve_best-IsCharged_example =
    reserve_best-IsCharged floats calendar paths outside none both job "key" none empty_book book
      both_plan row strokes_injective (empty-IsConsistent floats calendar paths outside) no_key
      job_reserved

abbrev more : ResourceUsage
more = record no_usage { memory_bytes = 2500; lanes = 1 }

abbrev updated : Reservation
updated = reconciled_row row more (some to_completed)

abbrev ended_book : Book ℕ
ended_book = record book { revision = 2; reservations = Dict.put "x" updated book.reservations }

row_stored : Dict.get "x" book.reservations ≡ some row
unfolding Dict.get Dict.put strokes
row_stored = refl

job_ended : reconcile "x" 1 more (some to_completed) book ≡ ok (updated, ended_book)
unfolding reconcile Dict.get Dict.put strokes row_changed
job_ended = refl

-- The calls on the book after the reservation: its job has ended.
since : Steps floats calendar paths outside book ended_book
since = one_more none_yet (Step.reconciled "x" 1 more (some to_completed) updated job_ended)

-- The same request then, when only a target without a route is left.
reserve_best-replays_example :
    (x : Reservation) × IsCurrent floats calendar paths outside row x ended_book
    × (reserve_best floats calendar paths outside
          (some "later")
          far_only
          job
          "key"
          (some 7)
          ended_book
        ≡ ok ((both_plan, some x), ended_book))
reserve_best-replays_example =
    reserve_best-replays floats calendar paths outside none (some "later") both far_only job job
      "key" none (some 7) empty_book book ended_book both_plan row strokes_injective
      (empty-IsConsistent floats calendar paths outside) job_reserved since refl

reserve_best-key_reuse_example :
    reserve_best floats calendar paths outside none both other_job "key" none ended_book
    ≡ err reservation_conflict
reserve_best-key_reuse_example =
    reserve_best-key_reuse floats calendar paths outside none none both both job other_job "key"
      none none empty_book book ended_book both_plan row strokes_injective
      (empty-IsConsistent floats calendar paths outside) job_reserved since other_digest

reconcile-balance_example :
    IsSettled row more (some to_completed) updated
    × (add_usage (usage_at "local" (usage_by_target ended_book)) (weight "local" row)
        ≡ add_usage (usage_at "local" (usage_by_target book)) (weight "local" updated))
reconcile-balance_example =
    reconcile-balance "local" "x" 1 more (some to_completed) book ended_book row updated row_stored
      job_ended

abbrev cancelled_row : Reservation
cancelled_row = reconciled_row row no_usage (some to_cancelled)

abbrev cancelled_book : Book ℕ
cancelled_book = record book {
  revision = 2;
  reservations = Dict.put "x" cancelled_row book.reservations;
}

job_cancelled : cancel "x" 1 book ≡ ok (cancelled_row, cancelled_book)
unfolding cancel reconcile Dict.get Dict.put strokes row_changed exceeds
job_cancelled = refl

cancel-releases_example :
    add_usage (usage_at "local" (usage_by_target cancelled_book)) (weight "local" row)
    ≡ usage_at "local" (usage_by_target book)
cancel-releases_example =
    cancel-releases "local" "x" 1 book cancelled_book row cancelled_row row_stored job_cancelled

book_reached : Reachable floats calendar paths outside book
book_reached =
    Reachable.next empty_book book Reachable.start
      (Step.reserved none both job "key" none (both_plan, some row) job_reserved)

ended_reached : Reachable floats calendar paths outside ended_book
ended_reached =
    Reachable.next book ended_book book_reached
      (Step.reconciled "x" 1 more (some to_completed) updated job_ended)

Reachable-IsConsistent_example : IsConsistent floats calendar paths outside ended_book
Reachable-IsConsistent_example =
    Reachable-IsConsistent floats calendar paths outside ended_book strokes_injective ended_reached

ended_stored : Dict.get "x" ended_book.reservations ≡ some updated
unfolding Dict.get Dict.put strokes
ended_stored = refl

ended_replayed : reconcile "x" 1 more (some to_completed) ended_book ≡ ok (updated, ended_book)
unfolding reconcile Dict.get Dict.put strokes row_changed
ended_replayed = refl

ended_book-IsConsistent : IsConsistent floats calendar paths outside ended_book
ended_book-IsConsistent =
    Reachable-IsConsistent floats calendar paths outside ended_book strokes_injective ended_reached

Step-ended_stays_example : Dict.get "x" ended_book.reservations ≡ some updated
Step-ended_stays_example =
    Step-ended_stays floats calendar paths outside ended_book ended_book "x" updated
      strokes_injective ended_book-IsConsistent
      (Step.reconciled "x" 1 more (some to_completed) updated ended_replayed) ended_stored refl
