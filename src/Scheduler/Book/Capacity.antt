-- ===== src/Scheduler/Book/Capacity.antt =====
-- What a new reservation takes from its target (src/local_agent_dispatch/scheduler/core.py).
use local_agent_dispatch.Prelude.Dict
use local_agent_dispatch.Prelude.Dict.{Dict, values}
use local_agent_dispatch.Prelude.Keys.{string_eq, =?_refl}
use local_agent_dispatch.Prelude.{
  ℕ, ◌+◌, ◌≤◌, String, ◌≡◌, refl, sym, subst, ap, ◌∙◌, inl, inr, Option, none, some, List, [], ◌∷◌,
  ◌++◌, In, arith, get_or,
}
use local_agent_dispatch.Scheduler.Book.Charges.{
  usage_at, weight, weight_of, weight_of-append, usage_by_target-weight, add_usage_zero,
}
use local_agent_dispatch.Scheduler.Book.Consistent.{IsConsistent, next_free}
use local_agent_dispatch.Scheduler.Book.Outcomes.{IsNew, reserve_best-eq-ok}
use local_agent_dispatch.Scheduler.Book.Reserve.{plan, held, new_row, reserve_best}
use local_agent_dispatch.Scheduler.Book.State.{Reservation, Book, Outside}
use local_agent_dispatch.Scheduler.Book.Usage.{larger, add_usage, usage_by_target}
use local_agent_dispatch.Scheduler.Fit.{IsFit, assess_candidate-eligible}
use local_agent_dispatch.Scheduler.Model.{
  WorkloadRequirements, CandidateTarget, ResourceUsage, no_usage, PlacementPlan,
}
use local_agent_dispatch.Scheduler.Selection.{rank_candidates-selected}
use local_agent_dispatch.Topology.Paths.{Pathlib}
use local_agent_dispatch.Topology.Placement.{PlacementDecision, evaluate_placement}
use local_agent_dispatch.World.Fault.{ok}
use local_agent_dispatch.World.Floats.{Floats}
use local_agent_dispatch.World.Observation.{Calendar}

values-append :
    {V : Type 0} (d : Dict String V) (k : String) (v : V)
    → values (d ++ (k, v) ∷ []) ≡ values d ++ v ∷ []
values-append [] k v = refl
values-append ((j, w) ∷ d) k v = ap (λ l. w ∷ l) (values-append d k v)

larger_zero : (a : ResourceUsage) → larger a no_usage ≡ a
larger_zero a = ground arith

module _ (floats : Floats) (calendar : Calendar) (paths : Pathlib) (outside : Outside floats.Float)
    (now : Option String) where
  open floats use {Float}
  open outside use {reservation_name}

  abbrev made : WorkloadRequirements Float → String → String → ℕ → Reservation
  made = new_row floats calendar paths outside now

  abbrev held_for : WorkloadRequirements Float → ResourceUsage
  held_for = held floats calendar paths outside now

  made-weight :
      (r : WorkloadRequirements Float) (key t : String) (n : ℕ)
      → weight t (made r key t n) ≡ held_for r
  unfolding weight
  made-weight r key t n = rw (=?_refl t) (larger_zero (held_for r))

  weight_of-last :
      (t : String) (rows : List Reservation) (row : Reservation)
      → weight_of t (rows ++ row ∷ []) ≡ add_usage (weight_of t rows) (weight t row)
  unfolding weight_of
  weight_of-last t rows row =
      weight_of-append t rows (row ∷ [])
      ∙ ap (add_usage (weight_of t rows)) (add_usage_zero (weight t row))

  recorded_usage :
      (b b' : Book Float) (r : WorkloadRequirements Float) (key t : String)
      → Dict.get (reservation_name (b.revision + 1)) b.reservations ≡ none
      → b'.reservations
        ≡ Dict.put
            (reservation_name (b.revision + 1))
            (made r key t (b.revision + 1))
            b.reservations
      → usage_at t (usage_by_target b') ≡ add_usage (usage_at t (usage_by_target b)) (held_for r)
  recorded_usage b b' r key t free wrote =
      let row = made r key t (b.revision + 1) in
      let name = reservation_name (b.revision + 1) in
      let rows : values b'.reservations ≡ values b.reservations ++ row ∷ [] =
        ap values (wrote ∙ Dict.put_new name row b.reservations free)
        ∙ values-append b.reservations name row in
      usage_by_target-weight b' t
      ∙ ap (weight_of t) rows
      ∙ weight_of-last t (values b.reservations) row
      ∙ ap (λ a. add_usage a (weight t row)) (sym (usage_by_target-weight b t))
      ∙ ap (add_usage (usage_at t (usage_by_target b))) (made-weight r key t (b.revision + 1))

  -- The GPU memory that is asked for, if any, with headroom.
  abbrev pub gpu_asked : Option ℕ → Float → ℕ
  gpu_asked none ratio = 0
  gpu_asked (some n) ratio = n + floats.scaled n ratio

  -- The amounts that a request asks for, with its headroom where there is one.
  pub record IsDemand (r : WorkloadRequirements Float) (demand : ResourceUsage) : Type 0 where
    pub memory :
        demand.memory_bytes ≡ r.memory_bytes + floats.scaled r.memory_bytes r.headroom_ratio
    pub disk : demand.disk_bytes ≡ r.disk_bytes + floats.scaled r.disk_bytes r.headroom_ratio
    pub inodes : demand.disk_inodes ≡ get_or r.disk_inodes 0
    pub gpu : demand.gpu_vram_mib ≡ gpu_asked r.gpu_vram_mib r.headroom_ratio
    pub lane : demand.lanes ≡ 1
    pub threads : demand.cpu_threads ≡ get_or r.cpu_threads 0

  gpu_demand :
      (amount : Option ℕ) (ratio : Float)
      → get_or (elim amount [ none ↦ none | some n ↦ some (n + floats.scaled n ratio) ]) 0
        ≡ gpu_asked amount ratio
  gpu_demand none ratio = refl
  gpu_demand (some n) ratio = refl

  held_for-IsDemand : (r : WorkloadRequirements Float) → IsDemand r (held_for r)
  held_for-IsDemand r = record {
    memory = refl;
    disk = refl;
    inodes = refl;
    gpu = gpu_demand r.gpu_vram_mib r.headroom_ratio;
    lane = refl;
    threads = refl;
  }

  -- A new reservation: a candidate of its target's name was fit for the request beside what the book
  -- counted before, by the placement gate's own decision on its workspace, the book now counts what the
  -- request asks for on top of that, and no lane is taken twice.
  pub record IsCharged (cs : List (CandidateTarget Float)) (r : WorkloadRequirements Float)
      (b : Book Float) (target : String) (b' : Book Float) : Type 0 where
    pub candidate : CandidateTarget Float
    pub listed : In candidate cs
    pub named : candidate.target_id ≡ target
    pub disk : PlacementDecision
    pub decided :
        evaluate_placement floats calendar paths candidate.host candidate.workspace_path
          (record {
            required_bytes = r.disk_bytes;
            required_inodes = r.disk_inodes;
            p90_headroom_ratio = r.headroom_ratio;
          })
          now
        ≡ ok disk
    pub fit : IsFit floats calendar now candidate r (usage_at target (usage_by_target b)) disk
    pub demand : ResourceUsage
    pub is_demand : IsDemand r demand
    pub counted :
        usage_at target (usage_by_target b')
        ≡ add_usage (usage_at target (usage_by_target b)) demand
    pub lanes :
        candidate.active_lanes + (usage_at target (usage_by_target b')).lanes ≤ candidate.max_lanes

  lanes_left :
      (c : CandidateTarget Float) (r : WorkloadRequirements Float) (old new : ResourceUsage)
      → c.active_lanes + old.lanes + 1 ≤ c.max_lanes
      → new ≡ add_usage old (held_for r)
      → c.active_lanes + new.lanes ≤ c.max_lanes
  lanes_left c r old new room counted = rw counted (omega (arith, room))

  new-IsCharged :
      (cs : List (CandidateTarget Float)) (r : WorkloadRequirements Float) (key : String)
      (b b' : Book Float) (p : PlacementPlan Float) (row : Reservation)
      → Dict.get (reservation_name (b.revision + 1)) b.reservations ≡ none
      → IsNew floats calendar paths outside now cs r key b (p, some row) b'
      → IsCharged cs r b row.target_id b'
  unfolding plan
  new-IsCharged cs r key b b' p row free fresh =
      let usage = usage_by_target b in
      let (c, listed, named, a, at_c, good) =
        rank_candidates-selected floats calendar paths now r usage cs p fresh.target fresh.planned
          fresh.selected in
      let (disk, at_disk, fit) =
        (assess_candidate-eligible floats calendar paths now c r (usage_at c.target_id usage) a
            at_c).0
          good in
      let fit_target =
        subst (λ t. IsFit floats calendar now c r (usage_at t usage) disk) named fit in
      let counted =
        recorded_usage b b' r key fresh.target free
          (ap (λ (x : Book Float). x.reservations) fresh.recorded) in
      let same : fresh.target ≡ row.target_id = sym (target_of fresh.returned) in
      subst (λ t. IsCharged cs r b t b') same
        (record {
          candidate = c;
          listed = listed;
          named = named;
          disk = disk;
          decided = at_disk;
          fit = fit_target;
          demand = held_for r;
          is_demand = held_for-IsDemand r;
          counted = counted;
          lanes =
              lanes_left c r (usage_at fresh.target usage)
                (usage_at fresh.target (usage_by_target b')) fit_target.lanes counted;
        })
    where
      target_of : {x y : Reservation} → some x ≡ some y → x.target_id ≡ y.target_id
      target_of e = cc

  -- A call of `reserve_best` with a key that is not known yet, which returns a reservation: some
  -- candidate of its target's name was fit for the request beside what the book counted on the target,
  -- given what `evaluate_placement` decided on its workspace; the book now counts on top what the request
  -- asks for, memory, disk and GPU memory with headroom; and the lanes in use with the counted ones are
  -- at most the candidate's. The book is consistent and names of different fences differ.
  pub reserve_best-IsCharged :
      (cs : List (CandidateTarget Float)) (r : WorkloadRequirements Float) (key : String)
      (expected : Option ℕ) (b b' : Book Float) (p : PlacementPlan Float) (row : Reservation)
      → ((m n : ℕ) → reservation_name m ≡ reservation_name n → m ≡ n)
      → IsConsistent floats calendar paths outside b
      → Dict.get key b.by_idempotency ≡ none
      → reserve_best floats calendar paths outside now cs r key expected b ≡ ok ((p, some row), b')
      → IsCharged cs r b row.target_id b'
  reserve_best-IsCharged cs r key expected b b' p row injective c unknown e =
      let (_, outcome) =
        reserve_best-eq-ok floats calendar paths outside now cs r key expected b e in
      elim outcome [
        | inl (old, _) ↦ absurd (cc (old.known, unknown))
        | inr (inr blocked) ↦ absurd (cc (blocked.nothing))
        | inr (inl fresh) ↦
            new-IsCharged cs r key b b' p row
              (next_free floats calendar paths outside b injective c) fresh
      ]
