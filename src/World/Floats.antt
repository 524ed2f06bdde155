-- ===== src/World/Floats.antt =====
-- Python's floating-point numbers, as far as the placement code uses them. They are a parameter:
-- the model assumes nothing of them but the laws that a theorem names.
use local_agent_dispatch.Prelude.{ℕ, Bool}

pub record Floats : Type 1 where
  pub Float : Type 0
  -- A whole number as a float.
  pub whole : ℕ → Float
  pub add : Float → Float → Float
  pub mul : Float → Float → Float
  pub div : Float → Float → Float
  pub neg : Float → Float
  pub least : Float → Float → Float
  -- `round(x, 6)`
  pub round6 : Float → Float
  pub lt : Float → Float → Bool
  -- `int(round(amount * ratio))` at a ratio that is not negative.
  pub scaled : ℕ → Float → ℕ
