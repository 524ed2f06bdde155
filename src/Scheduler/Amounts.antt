-- ===== src/Scheduler/Amounts.antt =====
-- When `_memory_available` and `_gpu_available` of src/local_agent_dispatch/scheduler/core.py give an
-- amount that is enough.
use local_agent_dispatch.Prelude.Int.{ℤ, pos, ltb_ℤ, min_ℤ, max_ℤ, ◌-ℤ◌, ◌≤ℤ◌, -ℤ_parts}
use local_agent_dispatch.Prelude.{
  ℕ, ◌≡◌, refl, ◌↔◌, ◌⊎◌, inl, inr, Bool, true, false, Option, none, some, List, [], ◌∷◌, null,
  get_or, arith, String, Bool-cases, if◌then◌else◌,
}
use local_agent_dispatch.Scheduler.Evidence.{
  verdict_of_staleness, ruled_out, cgroup_bound, bounded_memory, observed_memory, fresh_memory,
  freshness, ram_available, memory_available, vram_available, scan_device, scan_gpus, scan_result,
  gpu_available,
}
use local_agent_dispatch.Scheduler.Keeps.{Suffices, HasGpu}
use local_agent_dispatch.Scheduler.Model.{
  AssessmentVerdict, eligible, unknown, reject, no_gpu, ResourceUsage,
}
use local_agent_dispatch.World.Fault.{Result, ok, err}
use local_agent_dispatch.World.Host.{ResourceValues, RamState, GpuState, Host}
use local_agent_dispatch.World.Observation.{Calendar, Observation, is_stale}

-- At least so much is left of an amount beside what is reserved and what is used; nothing always is.
abbrev pub Leaves : ℕ → ℤ → ℤ → ℕ → Type 0
Leaves needed total reserved used = (needed ≡ 0) ⊎ (pos needed ≤ℤ (total -ℤ reserved -ℤ pos used))

-- The amount is known, and leaves enough.
abbrev pub KnownLeaves : ℕ → Option ℤ → ℤ → ℕ → Type 0
KnownLeaves needed none reserved used = ⊥
KnownLeaves needed (some total) reserved used = Leaves needed total reserved used

-- No cgroup limit is observed, or it is with its use, and what is free of it leaves enough.
abbrev pub CgroupLeaves : ℕ → Option ℤ → Option ℤ → ℤ → ℕ → Type 0
CgroupLeaves needed none none reserved used = Unit
CgroupLeaves needed (some limit) (some current) reserved used =
    Leaves needed (max_ℤ (pos 0) (limit -ℤ current)) reserved used
CgroupLeaves needed _ _ reserved used = ⊥

at_least_max :
    (needed : ℕ) (y : ℤ) → (pos needed ≤ℤ max_ℤ (pos 0) y) ↔ ((needed ≡ 0) ⊎ (pos needed ≤ℤ y))
at_least_max needed y = elim (Bool-cases (ltb_ℤ (pos 0) y)) [
  | inl more ↦ rw more (λ h. inr h, λ h. elim h [ inl e ↦ ground arith | inr k ↦ k ])
  | inr less ↦
      rw less (
        λ h. inl (omega (arith, h)),
        λ h. elim h [ inl e ↦ omega (arith, e) | inr k ↦ ground arith ],
      )
]

sub_mono :
    (n : ℕ) (a b r : ℤ) (u : ℕ) → a ≤ℤ b → pos n ≤ℤ (a -ℤ r -ℤ pos u) → pos n ≤ℤ (b -ℤ r -ℤ pos u)
sub_mono n a b r u h k =
    omega (
      arith,
      h,
      k,
      -ℤ_parts a r,
      -ℤ_parts (a -ℤ r) (pos u),
      -ℤ_parts b r,
      -ℤ_parts (b -ℤ r) (pos u),
    )

Leaves-min :
    (n : ℕ) (a b r : ℤ) (u : ℕ) → Leaves n (min_ℤ a b) r u ↔ (Leaves n a r u × Leaves n b r u)
Leaves-min n a b r u = elim (Bool-cases (ltb_ℤ b a)) [
  | inl less ↦ rw less (
    λ h. (elim h [ inl e ↦ inl e | inr k ↦ inr (sub_mono n b a r u (ground arith) k) ], h),
    λ h. h.1,
  )
  | inr not_less ↦ rw not_less (
    λ h. (h, elim h [ inl e ↦ inl e | inr k ↦ inr (sub_mono n a b r u (ground arith) k) ]),
    λ h. h.0,
  )
]

sub_mono_one : (n : ℕ) (a b : ℤ) (u : ℕ) → a ≤ℤ b → pos n ≤ℤ (a -ℤ pos u) → pos n ≤ℤ (b -ℤ pos u)
sub_mono_one n a b u h k = omega (arith, h, k, -ℤ_parts a (pos u), -ℤ_parts b (pos u))

-- An amount is enough beside what is used.
abbrev Enough : ℕ → ℤ → ℕ → Type 0
Enough n a u = (n ≡ 0) ⊎ (pos n ≤ℤ (a -ℤ pos u))

Enough-mono : (n : ℕ) (a b : ℤ) (u : ℕ) → a ≤ℤ b → Enough n a u → Enough n b u
Enough-mono n a b u h (inl e) = inl e
Enough-mono n a b u h (inr k) = inr (sub_mono_one n a b u h k)

Enough-max : (n : ℕ) (a b : ℤ) (u : ℕ) → Enough n (max_ℤ a b) u ↔ (Enough n a u ⊎ Enough n b u)
Enough-max n a b u = elim (Bool-cases (ltb_ℤ a b)) [
  | inl less ↦
      rw less (λ h. inr h, λ h. elim h [ inl l ↦ Enough-mono n a b u (ground arith) l | inr l ↦ l ])
  | inr not_less ↦
      rw not_less
        (λ h. inl h, λ h. elim h [ inl l ↦ l | inr l ↦ Enough-mono n b a u (ground arith) l ])
]

module _ (calendar : Calendar) (now : Option String) where
  -- An observation that `is_stale` finds fresh.
  abbrev pub IsFresh : Option Observation → Type 0
  IsFresh none = ⊥
  IsFresh (some o) = is_stale calendar o now ≡ ok (some false)

  staleness-fresh :
      (r : Result (Option Bool)) → (verdict_of_staleness r ≡ eligible) ↔ (r ≡ ok (some false))
  staleness-fresh (ok (some true)) = (λ h. cc, λ h. cc)
  staleness-fresh (ok (some false)) = (λ h. refl, λ h. refl)
  staleness-fresh (ok none) = (λ h. cc, λ h. cc)
  staleness-fresh (err e) = (λ h. cc, λ h. cc)

  freshness-IsFresh : (o : Option Observation) → (freshness calendar now o ≡ eligible) ↔ IsFresh o
  unfolding freshness
  freshness-IsFresh none = (λ h. cc, λ h. absurd h)
  freshness-IsFresh (some o) = staleness-fresh (is_stale calendar o now)

  -- The host's memory is freshly observed, and the available amount and the cgroup's free part leave
  -- enough beside what is reserved, which counts as nothing if unknown, and what is used.
  abbrev pub RamLeaves : ℕ → Option RamState → ℕ → Type 0
  RamLeaves needed none used = ⊥
  RamLeaves needed (some ram) used =
      IsFresh ram.observation
      × KnownLeaves needed ram.values.available_now (get_or ram.values.reserved (pos 0)) used
      × CgroupLeaves needed ram.cgroup_limit_bytes ram.cgroup_current_bytes
          (get_or ram.values.reserved (pos 0)) used

  module _ (needed : ℕ) (usage : ResourceUsage) where
    bound_iff :
        (ram : RamState) (limit current : Option ℤ) (a : ℤ)
        → Suffices (bounded_memory ram usage (cgroup_bound limit current a)) needed ↔ (
            Leaves needed a (get_or ram.values.reserved (pos 0)) usage.memory_bytes
            × CgroupLeaves needed limit current
                (get_or ram.values.reserved (pos 0))
                usage.memory_bytes)
    bound_iff ram none none a =
        let (to, from) = at_least_max needed _ in (λ h. (to h, tt), λ h. from h.0)
    bound_iff ram (some l) (some c) a =
        let (to, from) = at_least_max needed _ in
        let (split, join) =
          Leaves-min needed a (max_ℤ (pos 0) (l -ℤ c)) (get_or ram.values.reserved (pos 0))
            usage.memory_bytes in
        (λ h. split (to h), λ h. from (join h))
    bound_iff ram none (some c) a = (λ h. absurd h, λ h. absurd h.1)
    bound_iff ram (some l) none a = (λ h. absurd h, λ h. absurd h.1)

    observed_iff :
        (ram : RamState) (a : Option ℤ)
        → Suffices (observed_memory ram usage a) needed ↔ (
            KnownLeaves needed a (get_or ram.values.reserved (pos 0)) usage.memory_bytes
            × CgroupLeaves needed ram.cgroup_limit_bytes ram.cgroup_current_bytes
                (get_or ram.values.reserved (pos 0))
                usage.memory_bytes)
    observed_iff ram none = (λ h. absurd h, λ h. absurd h.0)
    observed_iff ram (some a) = bound_iff ram ram.cgroup_limit_bytes ram.cgroup_current_bytes a

    fresh_iff :
        (v : AssessmentVerdict) (ram : RamState)
        → Suffices (fresh_memory v ram usage) needed
          ↔ ((v ≡ eligible) × Suffices (observed_memory ram usage ram.values.available_now) needed)
    fresh_iff eligible ram = (λ h. (refl, h), λ h. h.1)
    fresh_iff unknown ram = (λ h. absurd h, λ h. cc (h.0))
    fresh_iff reject ram = (λ h. absurd h, λ h. cc (h.0))

    ram_iff :
        (ram : Option RamState)
        → Suffices (ram_available calendar now ram usage) needed
          ↔ RamLeaves needed ram usage.memory_bytes
    ram_iff none = (λ h. h, λ h. h)
    ram_iff (some ram) =
        let (split, join) = fresh_iff (freshness calendar now ram.observation) ram in
        let (to_fresh, from_fresh) = freshness-IsFresh ram.observation in
        let (to, from) = observed_iff ram ram.values.available_now in
        (
          λ h. let (v, s) = split h in let (k, c) = to s in (to_fresh v, k, c),
          λ (f, k, c). join (from_fresh f, from (k, c)),
        )

  pub memory_available-RamLeaves :
      (needed : ℕ) (usage : ResourceUsage) (host : Host)
      → Suffices (memory_available calendar now host usage) needed
        ↔ RamLeaves needed host.ram usage.memory_bytes
  unfolding memory_available
  memory_available-RamLeaves needed usage host = ram_iff needed usage host.ram

  -- A device is freshly observed, and its available GPU memory is known and leaves enough beside what is
  -- reserved on it, which counts as nothing if unknown, and what is used.
  abbrev pub VramLeaves : ℕ → Option ResourceValues → ℕ → Type 0
  VramLeaves needed none used = ⊥
  VramLeaves needed (some vram) used =
      KnownLeaves needed vram.available_now (get_or vram.reserved (pos 0)) used

  -- So it is for some device of the list.
  abbrev pub DeviceLeaves : ℕ → List GpuState → ℕ → Type 0
  DeviceLeaves needed [] used = ⊥
  DeviceLeaves needed (g ∷ gs) used =
      (IsFresh g.observation × VramLeaves needed g.vram used) ⊎ DeviceLeaves needed gs used

  module _ (needed used : ℕ) where
    abbrev BestEnough : Option ℤ → Type 0
    BestEnough none = ⊥
    BestEnough (some b) = Enough needed b used

    device_iff :
        (v : AssessmentVerdict) (a : Option ℤ) (saw : Bool) (best : Option ℤ)
        → BestEnough (scan_device calendar now v a (saw, best)).1
          ↔ (BestEnough best ⊎ ((v ≡ eligible) × BestEnough a))
    device_iff unknown a saw best = (λ h. inl h, λ h. elim h [ inl l ↦ l | inr k ↦ cc (k.0) ])
    device_iff reject none saw best = (λ h. inl h, λ h. elim h [ inl l ↦ l | inr k ↦ cc (k.0) ])
    device_iff reject (some a) saw best = (λ h. inl h, λ h. elim h [ inl l ↦ l | inr k ↦ cc (k.0) ])
    device_iff eligible none saw best =
        (λ h. inl h, λ h. elim h [ inl l ↦ l | inr k ↦ absurd (k.1) ])
    device_iff eligible (some a) saw none =
        (λ h. inr (refl, h), λ h. elim h [ inl l ↦ absurd l | inr k ↦ k.1 ])
    device_iff eligible (some a) saw (some b) =
        let (split, join) = Enough-max needed b a used in
        (
          λ h. elim (split h) [ inl l ↦ inl l | inr k ↦ inr (refl, k) ],
          λ h. elim h [ inl l ↦ join (inl l) | inr k ↦ join (inr (k.1)) ],
        )

    known_iff :
        (o : Option ℤ) (r : ℤ)
        → BestEnough (elim o [ none ↦ none | some available ↦ some (available -ℤ r) ])
          ↔ KnownLeaves needed o r used
    known_iff none r = (λ h. h, λ h. h)
    known_iff (some a) r = (λ h. h, λ h. h)

    vram_iff :
        (vram : Option ResourceValues)
        → BestEnough (vram_available calendar now vram) ↔ VramLeaves needed vram used
    vram_iff none = (λ h. h, λ h. h)
    vram_iff (some vram) = known_iff vram.available_now (get_or vram.reserved (pos 0))

    scan_iff :
        (gs : List GpuState) (saw : Bool) (best : Option ℤ)
        → BestEnough (scan_gpus calendar now gs (saw, best)).1
          ↔ (BestEnough best ⊎ DeviceLeaves needed gs used)
    unfolding scan_gpus
    scan_iff [] saw best = (λ h. inl h, λ h. elim h [ inl l ↦ l | inr k ↦ absurd k ])
    scan_iff (g ∷ gs) saw best =
        let fresh = freshness calendar now g.observation in
        let scan =
          scan_device calendar now fresh (vram_available calendar now g.vram) (saw, best) in
        let (to_rest, from_rest) = scan_iff gs (scan.0) (scan.1) in
        let (to_device, from_device) =
          device_iff fresh (vram_available calendar now g.vram) saw best in
        let (to_fresh, from_fresh) = freshness-IsFresh g.observation in
        let (to_vram, from_vram) = vram_iff g.vram in
        (
          λ h. elim (to_rest h) [
            | inl here ↦ elim (to_device here) [
              | inl old ↦ inl old
              | inr (f, a) ↦ inr (inl (to_fresh f, to_vram a))
            ]
            | inr later ↦ inr (inr later)
          ],
          λ h. elim h [
            | inl old ↦ from_rest (inl (from_device (inl old)))
            | inr (inl (f, a)) ↦ from_rest (inl (from_device (inr (from_fresh f, from_vram a))))
            | inr (inr later) ↦ from_rest (inr later)
          ],
        )

    result_iff :
        (usage : ResourceUsage) (saw : Bool) (best : Option ℤ)
        → usage.gpu_vram_mib ≡ used
        → Suffices (scan_result calendar now (saw, best) usage) needed ↔ BestEnough best
    result_iff usage true none e = (λ h. h, λ h. h)
    result_iff usage false none e = (λ h. h, λ h. h)
    result_iff usage saw (some b) e = rw e (at_least_max needed (b -ℤ pos used))

  gpus_iff :
      (needed : ℕ) (usage : ResourceUsage) (gs : List GpuState)
      → Suffices
          (if null gs
            then ruled_out no_gpu
            else scan_result calendar now (scan_gpus calendar now gs (false, none)) usage)
          needed
        ↔ DeviceLeaves needed gs usage.gpu_vram_mib
  gpus_iff needed usage [] = (λ h. h, λ h. h)
  gpus_iff needed usage (g ∷ gs) =
      let scan = scan_gpus calendar now (g ∷ gs) (false, none) in
      let (to, from) = result_iff needed usage.gpu_vram_mib usage (scan.0) (scan.1) refl in
      let (split, join) = scan_iff needed usage.gpu_vram_mib (g ∷ gs) false none in
      (
        λ h. elim (split (to h)) [ inl nothing ↦ absurd nothing | inr device ↦ device ],
        λ h. from (join (inr h)),
      )

  -- GPU memory is not asked for, or some device has enough.
  abbrev pub GpuLeaves : Option ℕ → List GpuState → ℕ → Type 0
  GpuLeaves none gs used = Unit
  GpuLeaves (some needed) gs used = DeviceLeaves needed gs used

  pub gpu_available-GpuLeaves :
      (needed : Option ℕ) (usage : ResourceUsage) (host : Host)
      → HasGpu needed (gpu_available calendar now host usage)
        ↔ GpuLeaves needed host.gpus usage.gpu_vram_mib
  unfolding gpu_available
  gpu_available-GpuLeaves none usage host = (λ h. tt, λ h. tt)
  gpu_available-GpuLeaves (some needed) usage host = gpus_iff needed usage host.gpus
