-- ===== src/Scheduler/Fit.antt =====
-- When `assess_candidate` of src/local_agent_dispatch/scheduler/core.py finds a target eligible.
use local_agent_dispatch.Scheduler.Keeps.{
  HasFreeInodes, HasGpu, HasRoute, HasSpare, HasThreads, Suffices, amount-Keeps, capabilities-Keeps,
  disk-Keeps, gpu-Keeps, inodes-Keeps, lanes-Keeps, ready-Keeps, route-Keeps, spare-Keeps,
  threads-Keeps,
}
use local_agent_dispatch.Scheduler.Amounts.{
  RamLeaves, GpuLeaves, memory_available-RamLeaves, gpu_available-GpuLeaves,
}
use mathlib.Core.List.{Memᴰ}
use local_agent_dispatch.Prelude.Keys.{◌=?◌, string_eq}
use local_agent_dispatch.Prelude.{
  ◌+◌, ◌≤◌, ℕ, String, ◌≡◌, refl, ◌↔◌, inl, inr, true, Option, none, some, List, [], ◌∷◌, any, All,
  arith, sym, ◌∙◌, subst, Bool-cases, &&-eq-true,
}
use local_agent_dispatch.Scheduler.Gate.{open_gate, has_all, threads_of}
use local_agent_dispatch.Scheduler.Assess.{gate, assessment, assess_candidate}
use local_agent_dispatch.Scheduler.Evidence.{memory_available, gpu_available}
use local_agent_dispatch.Scheduler.Model.{
  WorkloadRequirements, with_headroom, memory_with_headroom, gpu_with_headroom_mib, CandidateTarget,
  ResourceUsage, eligible, CandidateAssessment, ram_short,
}
use local_agent_dispatch.Topology.Paths.{Pathlib}
use local_agent_dispatch.Topology.Placement
use local_agent_dispatch.Topology.Placement.{
  PathRequirements, PlacementDecision, evaluate_placement,
}
use local_agent_dispatch.World.Fault.{ok}
use local_agent_dispatch.World.Floats.{Floats}
use local_agent_dispatch.World.Observation.{Calendar}

-- Each of the required names is among the capabilities.
abbrev pub HasAll : List String → List String → Type 0
HasAll required capabilities = All (λ c. Memᴰ c capabilities) required

any-Mem : (c : String) (ds : List String) → (any (λ d. c =? d) ds ≡ true) ↔ Memᴰ c ds
any-Mem c [] = (λ h. cc, λ h. elim h [ ])
any-Mem c (d ∷ ds) =
    let (to, from) = any-Mem c ds in
    (
      λ h. elim (Bool-cases (c =? d)) [
        | inl same ↦ Memᴰ.head ((string_eq.beq_iff c d).0 same)
        | inr other ↦ Memᴰ.tail (to (ground (arith, h, other)))
      ],
      λ m. from_mem from m,
    )
  where
    from_mem :
        (Memᴰ c ds → any (λ d. c =? d) ds ≡ true)
        → Memᴰ c (d ∷ ds)
        → any (λ d. c =? d) (d ∷ ds) ≡ true
    from_mem from (Memᴰ.head same) = let here = (string_eq.beq_iff c d).1 same in rw here refl
    from_mem from (Memᴰ.tail there) = let later = from there in ground (arith, later)

has_all-HasAll :
    (required capabilities : List String)
    → (has_all required capabilities ≡ true) ↔ HasAll required capabilities
has_all-HasAll [] capabilities = (λ h. tt, λ h. refl)
has_all-HasAll (c ∷ required) capabilities =
    let (to, from) = has_all-HasAll required capabilities in
    let (to_mem, from_mem) = any-Mem c capabilities in
    (
      λ h. let (here, rest) = &&-eq-true _ _ h in (to_mem here, to rest),
      λ (here, rest).
          let found = from_mem here in let others = from rest in rw (found, others) refl,
    )

-- The GPU memory that is asked for, if any, with headroom.
abbrev pub gpu_need : (floats : Floats) → Option ℕ → floats.Float → Option ℕ
gpu_need floats none ratio = none
gpu_need floats (some n) ratio = some (n + floats.scaled n ratio)

gpu_need-eq :
    (floats : Floats) (amount : Option ℕ) (ratio : floats.Float)
    → elim amount [ none ↦ none | some n ↦ some (with_headroom floats n ratio) ]
      ≡ gpu_need floats amount ratio
gpu_need-eq floats none ratio = refl
gpu_need-eq floats (some n) ratio = refl

-- Everything that a target has to have for the request, beside what is reserved on it, given the
-- answer of the placement gate on its workspace.
pub record IsFit (floats : Floats) (calendar : Calendar) (now : Option String)
    (c : CandidateTarget floats.Float) (r : WorkloadRequirements floats.Float)
    (usage : ResourceUsage) (disk : PlacementDecision) : Type 0 where
  pub ready : c.execution_ready ≡ some true
  pub route : HasRoute c.remote c.route_verified
  pub capabilities : HasAll r.required_capabilities c.capabilities
  pub lanes : c.active_lanes + usage.lanes + 1 ≤ c.max_lanes
  pub threads : HasThreads r.cpu_threads (threads_of c.host.cpu) usage.cpu_threads
  pub memory :
      RamLeaves calendar now
        (r.memory_bytes + floats.scaled r.memory_bytes r.headroom_ratio)
        c.host.ram
        usage.memory_bytes
  pub workspace_safe : disk.verdict ≡ Placement.safe
  pub disk_left : HasSpare disk.safe_to_place_bytes usage.disk_bytes
  pub inodes_left : HasFreeInodes r.disk_inodes disk.free_inodes usage.disk_inodes
  pub gpu :
      GpuLeaves calendar now
        (gpu_need floats r.gpu_vram_mib r.headroom_ratio)
        c.host.gpus
        usage.gpu_vram_mib

module _ (floats : Floats) (calendar : Calendar) (paths : Pathlib) (now : Option String)
    (c : CandidateTarget floats.Float) (r : WorkloadRequirements floats.Float)
    (usage : ResourceUsage) where
  asked_gpu : gpu_with_headroom_mib floats r ≡ gpu_need floats r.gpu_vram_mib r.headroom_ratio
  asked_gpu = gpu_need-eq floats r.gpu_vram_mib r.headroom_ratio

  gpu_fits :
      HasGpu (gpu_with_headroom_mib floats r) (gpu_available calendar now c.host usage)
      ↔ GpuLeaves calendar now
          (gpu_need floats r.gpu_vram_mib r.headroom_ratio)
          c.host.gpus
          usage.gpu_vram_mib
  gpu_fits =
      subst
        (λ n.
          HasGpu (gpu_with_headroom_mib floats r) (gpu_available calendar now c.host usage)
          ↔ GpuLeaves calendar now n c.host.gpus usage.gpu_vram_mib)
        asked_gpu
        (gpu_available-GpuLeaves calendar now (gpu_with_headroom_mib floats r) usage c.host)

  memory_fits :
      Suffices (memory_available calendar now c.host usage) (memory_with_headroom floats r)
      ↔ RamLeaves calendar now
          (r.memory_bytes + floats.scaled r.memory_bytes r.headroom_ratio)
          c.host.ram
          usage.memory_bytes
  memory_fits = memory_available-RamLeaves calendar now (memory_with_headroom floats r) usage c.host

  gate-IsFit :
      (disk : PlacementDecision)
      → ((gate floats calendar paths now c r usage disk).verdict ≡ eligible)
        ↔ IsFit floats calendar now c r usage disk
  unfolding gate
  gate-IsFit disk = (
    λ e.
        let (g, e9) =
          (gpu-Keeps _ (gpu_with_headroom_mib floats r) (gpu_available calendar now c.host usage)).0
            e in
        let (i, e8) = (inodes-Keeps _ r.disk_inodes disk.free_inodes usage.disk_inodes).0 e9 in
        let (s, e7) = (spare-Keeps _ disk.safe_to_place_bytes usage.disk_bytes).0 e8 in
        let (d, e6) = (disk-Keeps _ disk.verdict).0 e7 in
        let (m, e5) =
          (amount-Keeps _ (memory_available calendar now c.host usage)
              (memory_with_headroom floats r) ram_short).0
            e6 in
        let (t, e4) =
          (threads-Keeps _ r.cpu_threads (threads_of c.host.cpu) usage.cpu_threads).0 e5 in
        let (l, e3) = (lanes-Keeps _ c.max_lanes c.active_lanes usage.lanes).0 e4 in
        let (k, e2) = (capabilities-Keeps _ r.required_capabilities c.capabilities).0 e3 in
        let (w, e1) = (route-Keeps _ c.remote c.route_verified).0 e2 in
        let (y, e0) = (ready-Keeps open_gate c.execution_ready).0 e1 in
        record {
          ready = y;
          route = w;
          capabilities = (has_all-HasAll r.required_capabilities c.capabilities).0 k;
          lanes = l;
          threads = t;
          memory = memory_fits.0 m;
          workspace_safe = d;
          disk_left = s;
          inodes_left = i;
          gpu = gpu_fits.0 g;
        },
    λ f.
        (gpu-Keeps _ (gpu_with_headroom_mib floats r) (gpu_available calendar now c.host usage)).1 (
          gpu_fits.1 f.gpu,
          (inodes-Keeps _ r.disk_inodes disk.free_inodes usage.disk_inodes).1 (
            f.inodes_left,
            (spare-Keeps _ disk.safe_to_place_bytes usage.disk_bytes).1 (
              f.disk_left,
              (disk-Keeps _ disk.verdict).1 (
                f.workspace_safe,
                (amount-Keeps _ (memory_available calendar now c.host usage)
                      (memory_with_headroom floats r) ram_short).1
                    (
                      memory_fits.1 f.memory,
                      (threads-Keeps _ r.cpu_threads (threads_of c.host.cpu) usage.cpu_threads).1 (
                        f.threads,
                        (lanes-Keeps _ c.max_lanes c.active_lanes usage.lanes).1 (
                          f.lanes,
                          (capabilities-Keeps _ r.required_capabilities c.capabilities).1 (
                            (has_all-HasAll r.required_capabilities c.capabilities).1
                                f.capabilities,
                            (route-Keeps _ c.remote c.route_verified).1 (
                              f.route,
                              (ready-Keeps open_gate c.execution_ready).1 (f.ready, refl),
                            ),
                          ),
                        ),
                      ),
                    ),
              ),
            ),
          ),
        ),
  )

  abbrev disk_request : PathRequirements floats.Float
  disk_request = record {
    required_bytes = r.disk_bytes;
    required_inodes = r.disk_inodes;
    p90_headroom_ratio = r.headroom_ratio;
  }

  assessment-verdict :
      (disk : PlacementDecision)
      → (assessment floats calendar paths now c r usage disk).verdict
        ≡ (gate floats calendar paths now c r usage disk).verdict
  unfolding assessment
  assessment-verdict disk = ground arith

  pub assess_chain :
      {a : CandidateAssessment floats.Float}
      → assess_candidate floats calendar paths now c r usage ≡ ok a
      → (disk : PlacementDecision) × (evaluate_placement floats calendar paths c.host
            c.workspace_path disk_request now
          ≡ ok disk)
        × (a ≡ assessment floats calendar paths now c r usage disk)
  unfolding assess_candidate
  assess_chain e = ground arith

  pub assess_candidate-eligible :
      (a : CandidateAssessment floats.Float)
      → assess_candidate floats calendar paths now c r usage ≡ ok a
      → (a.verdict ≡ eligible) ↔ (
          (disk : PlacementDecision) × (evaluate_placement floats calendar paths c.host
              c.workspace_path disk_request now
            ≡ ok disk)
          × IsFit floats calendar now c r usage disk)
  assess_candidate-eligible a e =
      let (disk, at, same) = assess_chain e in
      let verdicts : a.verdict ≡ (gate floats calendar paths now c r usage disk).verdict =
        rw same (assessment-verdict disk) in
      (
        λ v. (disk, at, (gate-IsFit disk).0 (sym verdicts ∙ v)),
        λ (disk', at', fit).
            let one : disk' ≡ disk = cc in
            verdicts
            ∙ (gate-IsFit disk).1 (subst (λ d. IsFit floats calendar now c r usage d) one fit),
      )
