-- ===== src/Scheduler/Keeps.antt =====
-- When each test of src/local_agent_dispatch/scheduler/core.py leaves a candidate eligible.
use local_agent_dispatch.Prelude.Int.{ℤ, pos, ◌-ℤ◌, ◌≤ℤ◌}
use local_agent_dispatch.Prelude.Keys.{string_eq}
use local_agent_dispatch.Prelude.{
  ℕ, zero, suc, ◌+◌, ◌≤◌, ◌<◌, String, ◌≡◌, ◌↔◌, Bool, true, false, Option, none, some, List, arith,
}
use local_agent_dispatch.Scheduler.Gate.{
  Gate, test_ready, test_route, has_all, test_capabilities, lane_slots, test_lanes, test_threads,
  test_amount, test_disk, disk_after, test_disk_after, test_disk_inodes, test_gpu,
}
use local_agent_dispatch.Scheduler.Evidence.{Available, unverified, ruled_out, amount}
use local_agent_dispatch.Scheduler.Model.{eligible, AssessmentReason, gpu_short}
use local_agent_dispatch.Topology.Placement
use local_agent_dispatch.Topology.Placement.{
  PathRequirements, PlacementDecision, evaluate_placement,
}

-- There is a known amount, and it is enough.
abbrev pub Suffices : Available → ℕ → Type 0
Suffices (unverified r) needed = ⊥
Suffices (ruled_out r) needed = ⊥
Suffices (amount a) needed = pos needed ≤ℤ a

abbrev pub HasRoute : Bool → Option Bool → Type 0
HasRoute false route = Unit
HasRoute true route = route ≡ some true

abbrev pub HasThreads : Option ℕ → Option ℤ → ℕ → Type 0
HasThreads none threads used = Unit
HasThreads (some required) none used = ⊥
HasThreads (some required) (some threads) used = pos (required + used) ≤ℤ threads

abbrev pub HasSpare : Option ℤ → ℕ → Type 0
HasSpare none used = Unit
HasSpare (some spare) used = pos used ≤ℤ spare

-- Where inodes are asked for and some are reserved, enough are free beside those.
abbrev pub HasFreeInodes : Option ℕ → Option ℤ → ℕ → Type 0
HasFreeInodes none free used = Unit
HasFreeInodes (some required) none used = used ≡ 0
HasFreeInodes (some required) (some free) used = 0 < used → pos (required + used) ≤ℤ free

abbrev pub HasGpu : Option ℕ → Available → Type 0
HasGpu none available = Unit
HasGpu (some needed) available = Suffices available needed

module _ (g : Gate) where
  abbrev Keeps : Type 0 → Gate → Type 0
  Keeps P h = (h.verdict ≡ eligible) ↔ (P × (g.verdict ≡ eligible))

  pub ready-Keeps : (r : Option Bool) → Keeps (r ≡ some true) (test_ready r g)
  ready-Keeps r = ground arith

  pub route-Keeps :
      (remote : Bool) (r : Option Bool) → Keeps (HasRoute remote r) (test_route remote r g)
  route-Keeps remote r = ground arith

  pub capabilities-Keeps :
      (required capabilities : List String)
      → Keeps (has_all required capabilities ≡ true) (test_capabilities required capabilities g)
  capabilities-Keeps required capabilities = ground arith

  pub lanes-Keeps :
      (max_lanes active used : ℕ)
      → Keeps (active + used + 1 ≤ max_lanes) (test_lanes (lane_slots max_lanes active used) g)
  unfolding ◌-ℤ◌
  lanes-Keeps max_lanes active used = ground arith

  pub threads-Keeps :
      (required : Option ℕ) (threads : Option ℤ) (used : ℕ)
      → Keeps (HasThreads required threads used) (test_threads required threads used g)
  unfolding ◌-ℤ◌
  threads-Keeps none threads used = ground arith
  threads-Keeps (some n) none used = ground arith
  threads-Keeps (some n) (some t) used = ground arith

  pub amount-Keeps :
      (a : Available) (needed : ℕ) (short : AssessmentReason)
      → Keeps (Suffices a needed) (test_amount a needed short g)
  amount-Keeps (unverified r) needed short = ground arith
  amount-Keeps (ruled_out r) needed short = ground arith
  amount-Keeps (amount a) needed short = ground arith

  pub disk-Keeps : (v : Placement.Verdict) → Keeps (v ≡ Placement.safe) (test_disk v g)
  disk-Keeps v = ground arith

  pub spare-Keeps :
      (spare : Option ℤ) (used : ℕ)
      → Keeps (HasSpare spare used) (test_disk_after (disk_after spare used) g)
  unfolding ◌-ℤ◌
  spare-Keeps none used = ground arith
  spare-Keeps (some s) used = ground arith

  pub inodes-Keeps :
      (required : Option ℕ) (free : Option ℤ) (used : ℕ)
      → Keeps (HasFreeInodes required free used) (test_disk_inodes required free used g)
  unfolding ◌-ℤ◌
  inodes-Keeps none free used = ground arith
  inodes-Keeps (some n) none used = ground arith
  inodes-Keeps (some n) (some f) zero = ((λ e. ((λ p. absurd (omega arith)), e)), λ h. h.1)
  inodes-Keeps (some n) (some f) (suc used) = ground arith

pub gpu-Keeps :
    (g : Gate) (needed : Option ℕ) (a : Available) → Keeps g (HasGpu needed a) (test_gpu needed a g)
gpu-Keeps g none a = ground arith
gpu-Keeps g (some n) a = amount-Keeps g a n gpu_short
