-- ===== src/Topology/Gpus.antt =====
-- `evaluate_vram` and `rank_gpus` of src/local_agent_dispatch/resources/topology.py.
-- The texts of a `GpuFit` are left out.
use local_agent_dispatch.Prelude.Int.{ℤ, pos, negsuc, ltb_ℤ, min_ℤ, ◌-ℤ◌, ◌≤ℤ◌, -ℤ_parts}
use local_agent_dispatch.Prelude.Sort.{stable_sort}
use local_agent_dispatch.Prelude.{
  ℕ, zero, ◌+◌, String, ◌≡◌, refl, ap, ◌∙◌, subst, Bool, false, Option, none, some, List, [], ◌∷◌,
  map, arith, if◌then◌else◌,
}
use local_agent_dispatch.Topology.Ranking.{verdict_order, pair_less}
use local_agent_dispatch.Topology.Placement.{Verdict, safe, unknown, reject}
use local_agent_dispatch.World.Floats.{Floats}
use local_agent_dispatch.World.Host.{
  GpuProcess, add_known, GpuState, ResourceValues, in_use_vram_mib,
}

pub record GpuFit : Type 0 where
  pub gpu_index : String
  pub verdict : Verdict
  pub required_mib : ℕ
  pub available_now_mib : Option ℤ
  pub in_use_mib : Option ℕ

-- `_min_known` of two values.
abbrev pub min_known : Option ℤ → Option ℤ → Option ℤ
min_known none b = b
min_known (some a) none = some a
min_known (some a) (some b) = some (min_ℤ a b)

abbrev pub base_of : Option ResourceValues → Option ℤ
base_of none = none
base_of (some vram) = min_known vram.available_now (min_known vram.allocatable vram.capacity)

abbrev pub less_in_use : Option ℤ → Option ℕ → Option ℤ
less_in_use (some base) (some in_use) = some (base -ℤ pos in_use)
less_in_use _ _ = none

unfoldable pub gpu_available_now_mib : GpuState → Option ℤ
gpu_available_now_mib gpu = less_in_use (base_of gpu.vram) (in_use_vram_mib gpu.processes)

module _ (floats : Floats) where
  open floats use {Float, scaled}

  abbrev pub vram_verdict : Option ℤ → ℕ → Verdict
  vram_verdict none needed = unknown
  vram_verdict (some available) needed = if ltb_ℤ available (pos needed) then reject else safe

  unfoldable pub evaluate_vram : GpuState → ℕ → Float → GpuFit
  evaluate_vram gpu required_mib ratio = record {
    gpu_index = gpu.index;
    verdict = vram_verdict (gpu_available_now_mib gpu) (required_mib + scaled required_mib ratio);
    required_mib = required_mib;
    available_now_mib = gpu_available_now_mib gpu;
    in_use_mib = in_use_vram_mib gpu.processes;
  }

  -- `fit.available_now_mib or -1`: a known zero counts as -1 too.
  abbrev pub amount_of : Option ℤ → ℤ
  amount_of none = negsuc 0
  amount_of (some (pos zero)) = negsuc 0
  amount_of (some a) = a

  abbrev pub fit_less : GpuFit → GpuFit → Bool
  fit_less a b =
      pair_less (verdict_order a.verdict) (amount_of a.available_now_mib) (verdict_order b.verdict)
        (amount_of b.available_now_mib)

  unfoldable pub rank_gpus : List GpuState → ℕ → Float → List GpuFit
  rank_gpus gpus required_mib ratio =
      stable_sort fit_less (map (λ g. evaluate_vram g required_mib ratio) gpus)

-- The sum of some amounts.
unfoldable pub sum : List ℕ → ℕ
sum [] = 0
sum (n ∷ ns) = n + sum ns

-- The use of each process is observed; these are the amounts, in the order of the processes.
pub data AreUses : List GpuProcess → List ℕ → Type 0 where
  no_process : AreUses [] []
  process :
      {p : GpuProcess} {ps : List GpuProcess} {n : ℕ} {ns : List ℕ}
      → p.vram_mib ≡ some n
      → AreUses ps ns
      → AreUses (p ∷ ps) (n ∷ ns)

both_known :
    (a b : Option ℕ) (n : ℕ)
    → add_known a b ≡ some n
    → (x : ℕ) × (y : ℕ) × (a ≡ some x) × (b ≡ some y) × (n ≡ x + y)
both_known none b n e = cc
both_known (some x) none n e = cc
both_known (some x) (some y) n e = (x, y, refl, refl, cc)

in_use-AreUses :
    (ps : List GpuProcess) (n : ℕ)
    → in_use_vram_mib ps ≡ some n
    → (ns : List ℕ) × AreUses ps ns × (n ≡ sum ns)
unfolding in_use_vram_mib sum
in_use-AreUses [] n e = ([], no_process, cc)
in_use-AreUses (p ∷ ps) n e =
    let (x, y, here, rest, total) = both_known p.vram_mib (in_use_vram_mib ps) n e in
    let (ns, uses, y_is) = in_use-AreUses ps y rest in
    (x ∷ ns, process here uses, total ∙ ap (λ k. x + k) y_is)

-- The amount, where it is known, is at least `n`.
abbrev pub AtLeast : ℕ → Option ℤ → Type 0
AtLeast n none = Unit
AtLeast n (some a) = pos n ≤ℤ a

min_known-AtLeast :
    (n : ℕ) (a b : Option ℤ) (m : ℤ)
    → min_known a b ≡ some m
    → pos n ≤ℤ m
    → AtLeast n a × AtLeast n b
min_known-AtLeast n none b m e h = ground arith
min_known-AtLeast n (some a) none m e h = ground arith
min_known-AtLeast n (some a) (some b) m e h = ground arith

least-AtLeast : (n : ℕ) (a b : Option ℤ) → AtLeast n (min_known a b) → AtLeast n a × AtLeast n b
least-AtLeast n none b h = (tt, h)
least-AtLeast n (some a) none h = (h, tt)
least-AtLeast n (some a) (some b) h = ground arith

base_room :
    (base : ℤ) (u needed : ℕ)
    → ltb_ℤ (base -ℤ pos u) (pos needed) ≡ false
    → pos (needed + u) ≤ℤ base
base_room base u needed e = ground (arith, -ℤ_parts base (pos u))

module _ (floats : Floats) where
  open floats use {Float, scaled}

  vram_chain :
      (base : Option ℤ) (u : Option ℕ) (needed : ℕ)
      → vram_verdict floats (less_in_use base u) needed ≡ safe
      → (b : ℤ) × (base ≡ some b)
        × (v : ℕ) × (u ≡ some v)
        × (ltb_ℤ (b -ℤ pos v) (pos needed) ≡ false)
  vram_chain none u needed e = cc
  vram_chain (some b) none needed e = cc
  vram_chain (some b) (some v) needed e = (b, refl, v, refl, ground arith)

  base_chain :
      (vram : Option ResourceValues) (b : ℤ)
      → base_of vram ≡ some b
      → (values : ResourceValues) × (vram ≡ some values)
        × (min_known values.available_now (min_known values.allocatable values.capacity) ≡ some b)
  base_chain none b e = cc
  base_chain (some values) b e = (values, refl, e)

  -- The device's memory is observed, as is the use of each of its processes, and every known one of
  -- its available, allocatable and total amounts holds the request with headroom beside that use.
  pub record IsFree (g : GpuState) (needed : ℕ) : Type 0 where
    pub values : ResourceValues
    pub observed : g.vram ≡ some values
    pub uses : List ℕ
    pub are_uses : AreUses g.processes uses
    pub available : AtLeast (needed + sum uses) values.available_now
    pub allocatable : AtLeast (needed + sum uses) values.allocatable
    pub total : AtLeast (needed + sum uses) values.capacity

  -- A device is found safe only if its memory and the use of each of its processes are observed, and
  -- every known one of its available, allocatable and total amounts is at least the request with
  -- headroom and the sum of those uses together.
  pub evaluate_vram-IsFree :
      (g : GpuState) (required : ℕ) (ratio : Float)
      → (evaluate_vram floats g required ratio).verdict ≡ safe
      → IsFree g (required + scaled required ratio)
  unfolding evaluate_vram gpu_available_now_mib
  evaluate_vram-IsFree g required ratio e =
      let needed = required + scaled required ratio in
      let (b, has_base, u, has_use, enough) =
        vram_chain (base_of g.vram) (in_use_vram_mib g.processes) needed e in
      let (values, observed, least_known) = base_chain g.vram b has_base in
      let (now_enough, others) =
        min_known-AtLeast (needed + u) values.available_now
          (min_known values.allocatable values.capacity) b least_known
          (base_room b u needed enough) in
      let (allocatable, total) =
        least-AtLeast (needed + u) values.allocatable values.capacity others in
      let (uses, are_uses, sums) = in_use-AreUses g.processes u has_use in
      record {
        values = values;
        observed = observed;
        uses = uses;
        are_uses = are_uses;
        available = subst (λ k. AtLeast (needed + k) values.available_now) sums now_enough;
        allocatable = subst (λ k. AtLeast (needed + k) values.allocatable) sums allocatable;
        total = subst (λ k. AtLeast (needed + k) values.capacity) sums total;
      }
