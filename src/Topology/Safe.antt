-- ===== src/Topology/Safe.antt =====
-- What a safe verdict of `evaluate_placement` rests on
-- (src/local_agent_dispatch/resources/topology.py).
use local_agent_dispatch.Prelude.Int.{ℤ, pos, ltb_ℤ, min_ℤ, ◌-ℤ◌, ◌≤ℤ◌, -ℤ_parts}
use local_agent_dispatch.Prelude.{
  List, [], ◌∷◌, ◌++◌, ℕ, ◌+◌, String, ◌≡◌, refl, sym, subst, ◌⊎◌, inl, inr, Bool-cases,
  some-injective, Bool, true, false, Option, none, some, arith,
}
use local_agent_dispatch.Topology.Mounts.{resolve_mount}
use local_agent_dispatch.Topology.Paths.{Pathlib}
use local_agent_dispatch.Topology.Placement.{
  Reason, inodes_free, PathRequirements, PlacementDecision, safe, decide_stale, decide_writable,
  decide_free, decide_quota, decide_inodes, decide_reserved, test_inodes, passed, writable_on,
  quota_reasons, effective_free, reserved_or_zero, headroom_of, evaluate_placement,
}
use local_agent_dispatch.World.Fault.{ok}
use local_agent_dispatch.World.Floats.{Floats}
use local_agent_dispatch.World.Host.{MountState, QuotaState, Host}
use local_agent_dispatch.World.Observation.{Calendar, Observation, is_stale}

-- Enough inodes are known to be free, where inodes are asked for.
abbrev pub HasInodes : Option ℕ → Option ℤ → Type 0
HasInodes none free_inodes = Unit
HasInodes (some required) none = ⊥
HasInodes (some required) (some free) = pos required ≤ℤ free

-- What may be filled: the free bytes, or where there is a quota the least of them and its free part,
-- which is known.
abbrev pub IsLimit : Option QuotaState → ℤ → ℤ → Type 0
IsLimit none free_bytes limit = limit ≡ free_bytes
IsLimit (some quota) free_bytes limit =
    (left : ℤ) × (quota.free ≡ some left)
    × (limit ≤ℤ free_bytes)
    × (limit ≤ℤ left)
    × ((limit ≡ free_bytes) ⊎ (limit ≡ left))

-- What is reserved, where nothing known counts as nothing.
abbrev pub IsReserved : Option ℤ → ℤ → Type 0
IsReserved none reserved = reserved ≡ pos 0
IsReserved (some amount) reserved = reserved ≡ amount

effective_free-IsLimit :
    (free_bytes : ℤ) (quota : Option QuotaState) {limit : ℤ}
    → effective_free free_bytes quota ≡ some limit
    → IsLimit quota free_bytes limit
effective_free-IsLimit free_bytes none e = sym (some-injective e)
effective_free-IsLimit free_bytes (some quota) {limit} e = of_free quota.free e refl
  where
    of_free :
        (left : Option ℤ)
        → elim left [ none ↦ none | some free ↦ some (min_ℤ free_bytes free) ] ≡ some limit
        → quota.free ≡ left
        → IsLimit (some quota) free_bytes limit
    of_free none e same = cc
    of_free (some left) e same =
        let is_least : min_ℤ free_bytes left ≡ limit = some-injective e in
        (
          left,
          same,
          subst (λ x. x ≤ℤ free_bytes) is_least (ground arith),
          subst (λ x. x ≤ℤ left) is_least (ground arith),
          subst (λ x. (x ≡ free_bytes) ⊎ (x ≡ left)) is_least (one_of left),
        )
      where
        one_of : (b : ℤ) → (min_ℤ free_bytes b ≡ free_bytes) ⊎ (min_ℤ free_bytes b ≡ b)
        one_of b = elim (Bool-cases (ltb_ℤ b free_bytes)) [
          | inl less ↦ inr (rw less refl)
          | inr not_less ↦ inl (rw not_less refl)
        ]

reserved_or_zero-IsReserved :
    (reserved : Option ℤ) → IsReserved reserved (reserved_or_zero reserved)
reserved_or_zero-IsReserved none = refl
reserved_or_zero-IsReserved (some amount) = refl

-- A mount with verified writability and known free space, which has room for `needed` bytes beside
-- what is reserved; `spare` is what is left.
pub record HasRoom (mount : MountState) (needed : ℕ) (required_inodes : Option ℕ) (spare : Option ℤ)
    : Type 0 where
  pub writable : mount.writable ≡ some true
  pub free_bytes : ℤ
  pub has_free_bytes : mount.free_bytes ≡ some free_bytes
  pub limit : ℤ
  pub is_limit : IsLimit mount.quota free_bytes limit
  pub reserved : ℤ
  pub is_reserved : IsReserved mount.values.reserved reserved
  pub has_inodes : HasInodes required_inodes mount.free_inodes
  pub room : pos needed ≤ℤ (limit -ℤ reserved)
  pub is_spare : spare ≡ some (limit -ℤ reserved -ℤ pos needed)

module _ (path : String) (headroom needed : ℕ) (mount : MountState) where
  -- The last tests leave room beside the reservation, and say how much.
  reserved_room :
      (free : ℤ) (reserved : Option ℤ) (reasons : List Reason)
      → (decide_reserved path headroom needed mount free reserved reasons).verdict ≡ safe
      → ltb_ℤ free (pos needed) ≡ false
      → (pos needed ≤ℤ (free -ℤ reserved_or_zero reserved))
        × ((decide_reserved path headroom needed mount free reserved reasons).safe_to_place_bytes
            ≡ some (free -ℤ reserved_or_zero reserved -ℤ pos needed))
  unfolding decide_reserved
  reserved_room free none reasons e h = (ground (arith, -ℤ_parts free (pos 0)), refl)
  reserved_room free (some r) reasons e h = ground arith

  inodes_passed :
      (required : Option ℕ) (free_inodes : Option ℤ) {reasons : List Reason}
      → test_inodes required free_inodes ≡ passed reasons
      → HasInodes required free_inodes
  unfolding test_inodes
  inodes_passed none free_inodes e = tt
  inodes_passed (some n) none e = cc
  inodes_passed (some n) (some free) e = ground arith

  inodes_chain :
      (required : Option ℕ) (free_inodes : Option ℤ) (f : ℤ) (reasons : List Reason)
      → (decide_inodes path headroom needed mount
          (test_inodes required free_inodes)
          f
          reasons).verdict
        ≡ safe
      → (more : List Reason) × (test_inodes required free_inodes ≡ passed more)
        × (ltb_ℤ f (pos needed) ≡ false)
        × (decide_inodes path headroom needed mount (test_inodes required free_inodes) f reasons
            ≡ decide_reserved path headroom needed mount f mount.values.reserved (reasons ++ more))
  unfolding test_inodes
  inodes_chain none free_inodes f reasons e = ([], refl, ground arith, ground arith)
  inodes_chain (some n) none f reasons e = cc
  inodes_chain (some n) (some free) f reasons e =
      (inodes_free ∷ [], ground arith, ground arith, ground arith)

  -- A safe verdict comes out of the last tests.
  abbrev Passes : Option ℕ → Option ℤ → List Reason → PlacementDecision → Type 0
  Passes required_inodes within_quota reasons d =
      (f : ℤ) × (within_quota ≡ some f)
      × (more : List Reason) × (test_inodes required_inodes mount.free_inodes ≡ passed more)
      × (ltb_ℤ f (pos needed) ≡ false)
      × (d ≡ decide_reserved path headroom needed mount f mount.values.reserved (reasons ++ more))

  quota_chain :
      (required_inodes : Option ℕ) (o : Option ℤ) (reasons : List Reason)
      → (decide_quota path headroom needed mount required_inodes o reasons).verdict ≡ safe
      → Passes required_inodes o reasons
          (decide_quota path headroom needed mount required_inodes o reasons)
  quota_chain required_inodes none reasons e = cc
  quota_chain required_inodes (some f) reasons e =
      let (more, inodes, enough, last) =
        inodes_chain required_inodes mount.free_inodes f reasons e in
      (f, refl, more, inodes, enough, last)

  abbrev FreePasses : Option ℕ → Option ℤ → PlacementDecision → Type 0
  FreePasses required_inodes free_bytes d =
      (b : ℤ) × (free_bytes ≡ some b)
      × Passes required_inodes (effective_free b mount.quota)
          (writable_on ∷ quota_reasons mount.quota) d

  free_chain :
      (required_inodes : Option ℕ) (o : Option ℤ)
      → (decide_free path headroom needed mount required_inodes o).verdict ≡ safe
      → FreePasses required_inodes o (decide_free path headroom needed mount required_inodes o)
  free_chain required_inodes none e = cc
  free_chain required_inodes (some b) e = (
    b,
    refl,
    quota_chain required_inodes (effective_free b mount.quota)
        (writable_on ∷ quota_reasons mount.quota) e,
  )

  writable_chain :
      (required_inodes : Option ℕ) (o : Option Bool)
      → (decide_writable path headroom needed mount required_inodes o).verdict ≡ safe
      → (o ≡ some true)
        × FreePasses required_inodes mount.free_bytes
            (decide_writable path headroom needed mount required_inodes o)
  writable_chain required_inodes none e = cc
  writable_chain required_inodes (some false) e = cc
  writable_chain required_inodes (some true) e =
      (refl, free_chain required_inodes mount.free_bytes e)

  stale_chain :
      (required_inodes : Option ℕ) (stale : Option Bool)
      → (decide_stale path headroom needed mount required_inodes stale).verdict ≡ safe
      → (stale ≡ some false)
        × (mount.writable ≡ some true)
        × FreePasses required_inodes mount.free_bytes
            (decide_stale path headroom needed mount required_inodes stale)
  stale_chain required_inodes none e = cc
  stale_chain required_inodes (some true) e = cc
  stale_chain required_inodes (some false) e =
      let (writable, rest) = writable_chain required_inodes mount.writable e in
      (refl, writable, rest)

  safe_mount :
      (required_inodes : Option ℕ) (stale : Option Bool)
      → (decide_stale path headroom needed mount required_inodes stale).verdict ≡ safe
      → (stale ≡ some false)
        × HasRoom mount needed required_inodes
            (decide_stale path headroom needed mount required_inodes stale).safe_to_place_bytes
  safe_mount required_inodes stale e =
      let (fresh, writable, passes) = stale_chain required_inodes stale e in
      let (b, has_b, passed_quota) = passes in
      let (f, has_f, more, inodes, enough, last) = passed_quota in
      let reasons = (writable_on ∷ quota_reasons mount.quota) ++ more in
      let (room, spare) = reserved_room f mount.values.reserved reasons (rw last at e) enough in
      (
        fresh,
        record {
          writable = writable;
          free_bytes = b;
          has_free_bytes = has_b;
          limit = f;
          is_limit = effective_free-IsLimit b mount.quota has_f;
          reserved = reserved_or_zero mount.values.reserved;
          is_reserved = reserved_or_zero-IsReserved mount.values.reserved;
          has_inodes = inodes_passed required_inodes mount.free_inodes inodes;
          room = room;
          is_spare = rw last spare;
        },
      )

-- A safe decision about a path: the mount that stands for it was probed, and has a fresh observation
-- and room for the request with its headroom.
pub record IsSafe (floats : Floats) (calendar : Calendar) (paths : Pathlib) (host : Host)
    (path : String) (requirements : PathRequirements floats.Float) (now : Option String)
    (spare : Option ℤ) : Type 0 where
  pub mount : MountState
  pub resolved : (resolve_mount paths path host.mounts).mount ≡ some mount
  pub probed : (resolve_mount paths path host.mounts).probed ≡ true
  pub observation : Observation
  pub observed : mount.observation ≡ some observation
  pub fresh : is_stale calendar observation now ≡ ok (some false)
  pub has_room :
      HasRoom mount
        (requirements.required_bytes
          + floats.scaled requirements.required_bytes requirements.p90_headroom_ratio)
        requirements.required_inodes
        spare

module _ (floats : Floats) (calendar : Calendar) (paths : Pathlib) (host : Host) (path : String)
    (requirements : PathRequirements floats.Float) (now : Option String) where
  abbrev headroom_bytes : ℕ
  headroom_bytes = headroom_of floats calendar paths requirements

  headroom-scaled :
      headroom_bytes ≡ floats.scaled requirements.required_bytes requirements.p90_headroom_ratio
  headroom-scaled = omega arith

  observed_chain :
      (d : PlacementDecision)
      → evaluate_placement floats calendar paths host path requirements now ≡ ok d
      → d.verdict ≡ safe
      → (m : MountState) × ((resolve_mount paths path host.mounts).mount ≡ some m)
        × ((resolve_mount paths path host.mounts).probed ≡ true)
        × (o : Observation) × (m.observation ≡ some o)
        × (stale : Option Bool) × (is_stale calendar o now ≡ ok stale)
        × (d
            ≡ decide_stale path headroom_bytes
                (requirements.required_bytes + headroom_bytes)
                m
                requirements.required_inodes
                stale)
  unfolding evaluate_placement
  observed_chain d e v = ground arith

  -- A path is found safe only on the mount that `resolve_mount` finds for it, which was probed and has a
  -- fresh observation, verified writability, known free bytes, a known free part of its quota if it has
  -- one, known inodes, enough of them, if inodes are asked for, and beside the reservation, which counts
  -- as nothing if unknown, room for the requested bytes with headroom within the free bytes and the
  -- quota; what is left over is reported.
  pub evaluate_placement-IsSafe :
      (d : PlacementDecision)
      → evaluate_placement floats calendar paths host path requirements now ≡ ok d
      → d.verdict ≡ safe
      → IsSafe floats calendar paths host path requirements now d.safe_to_place_bytes
  evaluate_placement-IsSafe d e v =
      let (m, resolved, probed, o, observed, stale, at_now, same) = observed_chain d e v in
      let (fresh, room) =
        safe_mount path headroom_bytes (requirements.required_bytes + headroom_bytes) m
          requirements.required_inodes stale (rw same at v) in
      record {
        mount = m;
        resolved = resolved;
        probed = probed;
        observation = o;
        observed = observed;
        fresh = rw fresh at at_now;
        has_room = rw same (
            subst
              (λ h.
                HasRoom m (requirements.required_bytes + h) requirements.required_inodes
                  (decide_stale path headroom_bytes (requirements.required_bytes + headroom_bytes) m
                    requirements.required_inodes stale).safe_to_place_bytes)
              headroom-scaled room);
      }
