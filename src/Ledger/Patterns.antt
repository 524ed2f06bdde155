-- ===== src/Ledger/Patterns.antt =====
-- The two regular expressions of src/local_agent_dispatch/domain/events.py, on the code points of a
-- text. `$` also matches before a line feed that ends the text. `is_decimal` is the class `\d` of
-- Python's re module, which has the decimal digits of every script.
use Prim.Native.Char.{code}
use local_agent_dispatch.Prelude.{
  ℕ, zero, suc, String, Bool, true, false, ◌&&◌, ◌||◌, Option, none, some, List, [], ◌∷◌, ◌++◌,
  ◌==◌, leb, if◌then◌else◌,
}

unfoldable pub codes : String → List ℕ
codes String.[] = []
codes (String.◌∷◌ c s) = code c ∷ codes s

-- `$`
abbrev pub at_end : List ℕ → Bool
at_end [] = true
at_end (c ∷ []) = c == 10
at_end _ = false

-- [0-9a-f]
abbrev pub is_hex : ℕ → Bool
is_hex c = (leb b'0' c && leb c b'9') || (leb b'a' c && leb c b'f')

-- [0-9a-f]{n}$
unfoldable pub hex_run : ℕ → List ℕ → Bool
hex_run zero cs = at_end cs
hex_run (suc n) [] = false
hex_run (suc n) (c ∷ cs) = is_hex c && hex_run n cs

-- What follows a prefix.
unfoldable pub after : List ℕ → List ℕ → Option (List ℕ)
after [] cs = some cs
after (p ∷ ps) [] = none
after (p ∷ ps) (c ∷ cs) = if p == c then after ps cs else none

abbrev hex_after : ℕ → Option (List ℕ) → Bool
hex_after n none = false
hex_after n (some cs) = hex_run n cs

-- _DIGEST_RE
unfoldable pub is_digest : String → Bool
is_digest s =
    hex_after 64 (after (codes "sha256:") (codes s))
    || hex_after 128 (after (codes "sha512:") (codes s))

-- One place of a pattern.
pub data Place : Type 0 where
  digit : Place
  exactly : ℕ → Place

module _ (is_decimal : ℕ → Bool) where
  abbrev fits : Place → ℕ → Bool
  fits digit c = is_decimal c
  fits (exactly d) c = d == c

  unfoldable pub match_places : List Place → List ℕ → Option (List ℕ)
  match_places [] cs = some cs
  match_places (p ∷ ps) [] = none
  match_places (p ∷ ps) (c ∷ cs) = if fits p c then match_places ps cs else none

  abbrev two : List Place
  two = digit ∷ digit ∷ []

  -- \d{4}-\d{2}-\d{2}T\d{2}:\d{2}:\d{2}
  abbrev date_and_time : List Place
  date_and_time =
      two
      ++ two
      ++ exactly b'-' ∷ two
      ++ exactly b'-' ∷ two
      ++ exactly b'T' ∷ two
      ++ exactly b':' ∷ two
      ++ exactly b':' ∷ two

  -- `\d*`
  unfoldable pub skip_digits : List ℕ → List ℕ
  skip_digits [] = []
  skip_digits (c ∷ cs) = if is_decimal c then skip_digits cs else c ∷ cs

  -- (\.\d+)?, of which the zone that follows begins with no digit.
  abbrev after_fraction : List ℕ → Option (List ℕ)
  after_fraction [] = some []
  after_fraction (c ∷ []) = if c == b'.' then none else some (c ∷ [])
  after_fraction (c ∷ d ∷ cs) =
      if c == b'.'
      then (if is_decimal d then some (skip_digits cs) else none)
      else some (c ∷ d ∷ cs)

  abbrev ends : Option (List ℕ) → Bool
  ends none = false
  ends (some cs) = at_end cs

  -- (Z|[+-]\d{2}:\d{2})$
  abbrev is_zone : Option (List ℕ) → Bool
  is_zone none = false
  is_zone (some []) = false
  is_zone (some (c ∷ cs)) =
      if c == b'Z'
      then at_end cs
      else ((c == b'+') || (c == b'-')) && ends (match_places (two ++ exactly b':' ∷ two) cs)

  abbrev is_time : Option (List ℕ) → Bool
  is_time none = false
  is_time (some cs) = is_zone (after_fraction cs)

  -- _TIMESTAMP_RE
  unfoldable pub is_timestamp : String → Bool
  is_timestamp s = is_time (match_places date_and_time (codes s))
