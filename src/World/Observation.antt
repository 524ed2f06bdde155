-- ===== src/World/Observation.antt =====
-- `Observation`, `is_stale` and `_parse_iso` of src/local_agent_dispatch/domain/world_state.py.
-- Python's datetime and its clock are parameters. Instants and times to live are whole numbers of
-- microseconds, which is the resolution of Python's `datetime`.
use Prim.Native.Char.{code}
use local_agent_dispatch.Prelude.Int.{ℤ, pos, ltb_ℤ, ◌-ℤ◌}
use local_agent_dispatch.Prelude.{
  ℕ, String, Bool, ◌||◌, Option, none, some, List, ◌==◌, if◌then◌else◌,
}
use local_agent_dispatch.World.Fault.{Result, ok, err, value_error, ◌>>=◌}

pub record Observation : Type 0 where
  pub kind : String
  pub source : String
  pub observed_at : String
  pub evidence : List String
  pub ttl_seconds : Option ℤ
  pub confidence : Option ℕ

pub record Calendar : Type 0 where
  -- `str.strip`
  pub strip : String → String
  -- The instant that `datetime.fromisoformat` reads, a text without an offset being in UTC; `none`
  -- where it raises ValueError.
  pub from_iso_format : String → Option ℤ
  -- `datetime.now(timezone.utc)`, read once in a call.
  pub utc_now : ℤ

-- `text[:-1] + "+00:00"` where the text ends with "Z" or "z".
abbrev pub with_offset : String → String
with_offset String.[] = String.[]
with_offset (String.◌∷◌ c String.[]) =
    if code c == b'Z' || code c == b'z' then "+00:00" else String.◌∷◌ c String.[]
with_offset (String.◌∷◌ c (String.◌∷◌ d s)) = String.◌∷◌ c (with_offset (String.◌∷◌ d s))

abbrev pub or_value_error {ℓ} : {A : Type ℓ} → Option A → Result A
or_value_error none = err value_error
or_value_error (some a) = ok a

abbrev pub expired : ℤ → ℤ → Option Bool
expired age ttl = if ltb_ℤ age (pos 0) then none else some (ltb_ℤ ttl age)

module _ (calendar : Calendar) where
  -- `_parse_iso`
  unfoldable pub parse_iso : String → Result ℤ
  parse_iso value = or_value_error (calendar.from_iso_format (with_offset (calendar.strip value)))

  -- `now or datetime.now(timezone.utc).isoformat()`, parsed; the empty text counts as not given.
  unfoldable pub anchor : Option String → Result ℤ
  anchor none = ok calendar.utc_now
  anchor (some String.[]) = ok calendar.utc_now
  anchor (some text) = parse_iso text

  abbrev stale_with_ttl : Option ℤ → String → Option String → Result (Option Bool)
  stale_with_ttl none observed_at now = ok none
  stale_with_ttl (some ttl) observed_at now = do
    current ← anchor now
    observed ← parse_iso observed_at
    ok (expired (current -ℤ observed) ttl)

  -- `some true` is expired, `some false` is verified as fresh, `none` cannot be established.
  unfoldable pub is_stale : Observation → Option String → Result (Option Bool)
  is_stale o now = stale_with_ttl o.ttl_seconds o.observed_at now
