-- ===== src/Ledger/Json.antt =====
-- JSON values as Python holds them, and the equality of dicts. An event of
-- src/local_agent_dispatch/domain/events.py is a dict, given by its fields in their order.
use Prim.Native.Nat.{◌^◌}
use local_agent_dispatch.Prelude.Int.{ℤ, pos, pos_part, neg_part}
use local_agent_dispatch.Prelude.Keys.{◌=?◌, string_eq}
use local_agent_dispatch.Prelude.{
  ℕ, suc, ◌*◌, String, Bool, true, false, ◌&&◌, Option, none, some, ◌==◌, if◌then◌else◌, is_some,
}

-- `number n k` is the number n / 2 ^ k: an integer, or a finite float.
mutual
  pub data Value : Type 0 where
    null : Value
    boolean : Bool → Value
    number : ℤ → ℕ → Value
    text : String → Value
    array : Items → Value
    object : Fields → Value

  pub data Items : Type 0 where
    nil : Items
    cons : Value → Items → Items

  pub data Fields : Type 0 where
    end : Fields
    field : String → Value → Fields → Fields

-- d.get(k), where `none` is Python's None for a key that is missing.
unfoldable pub find : String → Fields → Option Value
find k end = none
find k (field j v fs) = if j =? k then some v else find k fs

-- `k in d`
abbrev pub has : String → Fields → Bool
has k fs = is_some (find k fs)

-- The dict without a key.
unfoldable pub without : String → Fields → Fields
without k end = end
without k (field j v fs) = if j =? k then without k fs else field j v (without k fs)

unfoldable pub size : Fields → ℕ
size end = 0
size (field k v fs) = suc (size fs)

-- n / 2 ^ k == m / 2 ^ l
abbrev pub number_beq : ℤ → ℕ → ℤ → ℕ → Bool
number_beq n k m l =
    (pos_part n * 2 ^ l == pos_part m * 2 ^ k) && (neg_part n * 2 ^ l == neg_part m * 2 ^ k)

-- A bool counts as the number 0 or 1.
abbrev pub bit : Bool → ℤ
bit true = pos 1
bit false = pos 0

-- `==`: dicts without regard to the order of their keys.
unfoldable mutual
  pub value_beq : Value → Value → Bool
  value_beq null null = true
  value_beq (boolean a) (boolean b) = number_beq (bit a) 0 (bit b) 0
  value_beq (boolean a) (number m l) = number_beq (bit a) 0 m l
  value_beq (number n k) (boolean b) = number_beq n k (bit b) 0
  value_beq (number n k) (number m l) = number_beq n k m l
  value_beq (text s) (text t) = s =? t
  value_beq (array xs) (array ys) = items_beq xs ys
  value_beq (object fs) (object gs) = (size fs == size gs) && fields_within fs gs
  value_beq _ _ = false

  pub items_beq : Items → Items → Bool
  items_beq nil nil = true
  items_beq (cons x xs) (cons y ys) = value_beq x y && items_beq xs ys
  items_beq _ _ = false

  -- Each field of the first has an equal one in the second.
  pub fields_within : Fields → Fields → Bool
  fields_within end gs = true
  fields_within (field k v fs) gs =
      elim (find k gs) [ none ↦ false | some w ↦ value_beq v w ] && fields_within fs gs

abbrev pub dict_beq : Fields → Fields → Bool
dict_beq fs gs = (size fs == size gs) && fields_within fs gs

-- `isinstance(v, str) and v`
abbrev pub is_nonempty_text : Option Value → Bool
is_nonempty_text (some (text s)) = if s =? "" then false else true
is_nonempty_text _ = false

-- `v is None or (isinstance(v, str) and v)`
abbrev pub is_absent_or : (String → Bool) → Option Value → Bool
is_absent_or p none = true
is_absent_or p (some null) = true
is_absent_or p (some (text s)) = p s
is_absent_or p _ = false
