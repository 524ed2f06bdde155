-- ===== src/Api/Freshness.antt =====
-- Three-valued freshness of an observation: `freshness`, `timestamp` and `parse_timestamp` of
-- src/local_agent_dispatch/api/_validation.py.
-- The parser of Python's datetime and the reading of the system clock are parameters. An instant
-- is a number of microseconds, which is the resolution of Python's `datetime`.
use Prim.Native.Char.{code}
use local_agent_dispatch.Prelude.Int.{ℤ, pos, ltb_ℤ, ◌-ℤ◌}
use local_agent_dispatch.Prelude.{
  ℕ, ◌*◌, String, ◌||◌, Option, none, some, ltb, ◌==◌, if◌then◌else◌,
}

pub record Clock : Type 0 where
  -- The instant that `datetime.fromisoformat` reads; `none` where it raises, or where the text has
  -- no offset.
  pub from_iso_format : String → Option ℤ
  -- `datetime.now(timezone.utc)`, read once in a call.
  pub utc_now : ℤ

-- `text[:-1] + "+00:00" if text.endswith(("Z", "z")) else text`
abbrev pub normalized : String → String
normalized String.[] = String.[]
normalized (String.◌∷◌ c String.[]) =
    if code c == b'Z' || code c == b'z' then "+00:00" else String.◌∷◌ c String.[]
normalized (String.◌∷◌ c (String.◌∷◌ d s)) = String.◌∷◌ c (normalized (String.◌∷◌ d s))

pub data Freshness : Type 0 where
  fresh stale unknown : Freshness

-- Microseconds in a second.
abbrev pub second : ℕ
second = 1_000_000

-- What is left of `freshness` when both instants are known.
abbrev pub age_freshness : ℤ → ℕ → Freshness
age_freshness age ttl =
    if ltb_ℤ age (pos 0) then unknown else if ltb_ℤ (pos (ttl * second)) age then stale else fresh

module _ (clock : Clock) where
  -- `timestamp` and `parse_timestamp`: `none` is a ContractValidationError.
  unfoldable pub parse_timestamp : String → Option ℤ
  parse_timestamp text = clock.from_iso_format (normalized text)

  -- The instant of `now`, which is the clock's where it is not given.
  unfoldable pub current_instant : Option String → Option ℤ
  current_instant none = some clock.utc_now
  current_instant (some text) = parse_timestamp text

  abbrev freshness_at : Option ℤ → ℤ → ℕ → Option Freshness
  freshness_at none observed ttl = none
  freshness_at (some current) observed ttl = some (age_freshness (current -ℤ observed) ttl)

  abbrev freshness_with_ttl : ℤ → Option ℕ → Option String → Option Freshness
  freshness_with_ttl observed none now = some unknown
  freshness_with_ttl observed (some ttl) now =
      if ltb ttl 1 then none else freshness_at (current_instant now) observed ttl

  abbrev freshness_from : Option ℤ → Option ℕ → Option String → Option Freshness
  freshness_from none ttl now = none
  freshness_from (some observed) ttl now = freshness_with_ttl observed ttl now

  -- `none` is a ContractValidationError.
  unfoldable pub freshness : String → Option ℕ → Option String → Option Freshness
  freshness observed_at ttl_seconds now =
      freshness_from (parse_timestamp observed_at) ttl_seconds now
