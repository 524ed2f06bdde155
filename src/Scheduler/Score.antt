-- ===== src/Scheduler/Score.antt =====
-- The score of `assess_candidate` of src/local_agent_dispatch/scheduler/core.py.
use local_agent_dispatch.Prelude.Int.{ℤ, pos, pos_part, max_ℤ, ◌-ℤ◌}
use local_agent_dispatch.Prelude.Keys.{◌=?◌, string_eq}
use local_agent_dispatch.Prelude.{
  ℕ, max, String, Bool, true, false, Option, none, some, List, [], ◌∷◌, any, get_or, if◌then◌else◌,
}
use local_agent_dispatch.Scheduler.Model.{
  WorkloadRequirements, memory_with_headroom, CandidateTarget,
}
use local_agent_dispatch.World.Floats.{Floats}

module _ (floats : Floats) where
  open floats use {Float, whole, add, mul, div, least, round6}

  -- `min(top, top * part / max(of, 1))`
  abbrev pub share : ℕ → ℕ → ℕ → Float
  share top part of = least (whole top) (div (mul (whole top) (whole part)) (whole (max of 1)))

  -- `max(0, amount - needed)`, and `max(amount, 0)`, of an amount that may be missing.
  abbrev pub margin : Option ℤ → ℕ → ℕ
  margin a needed = pos_part (max_ℤ (pos 0) (get_or a (pos 0) -ℤ pos needed))

  abbrev pub topology_points : Bool → Bool → ℕ
  topology_points true true = 10
  topology_points false false = 10
  topology_points _ _ = 0

  abbrev pub reliability_score : Option Float → Float
  reliability_score none = whole 0
  reliability_score (some r) = mul (whole 5) r

  abbrev pub route_points : Bool → Option Bool → ℕ
  route_points false route = 5
  route_points true (some true) = 5
  route_points true _ = 0

  unfoldable pub score_components :
      CandidateTarget Float
      → WorkloadRequirements Float
      → Option ℤ
      → Option ℤ
      → ℤ
      → List (String × Float)
  score_components c r memory disk slots =
      let needed = memory_with_headroom floats r in
      ("memory_headroom", round6 (share 30 (margin memory needed) needed))
      ∷ ("disk_headroom", round6 (share 20 (margin disk 0) r.disk_bytes))
      ∷ ("lane_headroom", round6 (share 10 (pos_part (max_ℤ slots (pos 0))) c.max_lanes))
      ∷ (
        "preferred_host",
        whole (if any (λ h. h =? c.host.host_id) r.preferred_host_ids then 20 else 0),
      )
      ∷ ("topology", whole (topology_points r.server_preferred c.remote))
      ∷ ("reliability", round6 (reliability_score c.reliability))
      ∷ ("verified_route", whole (route_points c.remote c.route_verified))
      ∷ []

  -- `sum(components.values())`, from the left.
  abbrev pub total : Float → List (String × Float) → Float
  total acc [] = acc
  total acc ((name, points) ∷ rest) = total (add acc points) rest
