-- ===== src/Prelude/Outcome.antt =====
-- A result whose exceptions are of a type of the component's own.
use mathlib.Core.Path.{◌≡◌, refl, ap}
use mathlib.Core.Logic.{◌⊎◌, inl, inr}
use mathlib.Core.Bool.{Bool, true, false}

pub data Outcome {ℓ} (E : Type 0) (A : Type ℓ) : Type ℓ where
  returned : A → Outcome E A
  raised : E → Outcome E A

infixl 5 ◌>>=◌ ◌>>◌
abbrev pub ◌>>=◌ {ℓ κ} :
    {E : Type 0} {A : Type ℓ} {B : Type κ} → Outcome E A → (A → Outcome E B) → Outcome E B
raised e >>= next = raised e
returned a >>= next = next a

abbrev pub ◌>>◌ {ℓ} : {E : Type 0} {B : Type ℓ} → Outcome E (Unit {0}) → Outcome E B → Outcome E B
raised e >> rest = raised e
returned a >> rest = rest

-- `if bad: raise e`
abbrev pub raise_if : {E : Type 0} → Bool → E → Outcome E (Unit {0})
raise_if true e = raised e
raise_if false e = returned tt

-- A chain that returned has returned at its first step, and then at the others.
pub >>=-eq-returned {ℓ κ} :
    {E : Type 0} {A : Type ℓ} {B : Type κ} (m : Outcome E A) (next : A → Outcome E B) {b : B}
    → (m >>= next) ≡ returned b
    → (a : A) × (m ≡ returned a) × (next a ≡ returned b)
>>=-eq-returned (raised e) next h = cc
>>=-eq-returned (returned a) next h = (a, refl, h)

pub returned-injective {ℓ} :
    {E : Type 0} {A : Type ℓ} {a b : A} → ◌≡◌ {A = Outcome E A} (returned a) (returned b) → a ≡ b
returned-injective h = cc

-- A chain that returned has not raised at its test.
pub raise_if-eq-returned {ℓ} :
    {E : Type 0} {B : Type ℓ} (bad : Bool) (e : E) (rest : Outcome E B) {b : B}
    → (raise_if bad e >> rest) ≡ returned b
    → (bad ≡ false) × (rest ≡ returned b)
raise_if-eq-returned true e rest h = cc
raise_if-eq-returned false e rest h = (refl, h)

pub >>=-eq {ℓ κ} :
    {E : Type 0} {A : Type ℓ} {B : Type κ} (m : Outcome E A) (f g : A → Outcome E B)
    → ((a : A) → f a ≡ g a)
    → (m >>= f) ≡ (m >>= g)
>>=-eq (raised e) f g h = refl
>>=-eq (returned a) f g h = h a

pub raised≢returned {ℓ} :
    {E : Type 0} {A : Type ℓ} {e : E} {a : A} → ◌≡◌ {A = Outcome E A} (raised e) (returned a) → ⊥
raised≢returned h = cc

pub raised-injective {ℓ} :
    {E : Type 0} {A : Type ℓ} {e x : E} → ◌≡◌ {A = Outcome E A} (raised e) (raised x) → e ≡ x
raised-injective h = cc

-- What raised in a chain: its first step, or the others.
pub >>=-eq-raised {ℓ κ} :
    {E : Type 0} {A : Type ℓ} {B : Type κ} (m : Outcome E A) (next : A → Outcome E B) {e : E}
    → (m >>= next) ≡ raised e
    → (m ≡ raised e) ⊎ ((a : A) × (m ≡ returned a) × (next a ≡ raised e))
>>=-eq-raised (raised x) next h = inl (ap raised (raised-injective h))
>>=-eq-raised (returned a) next h = inr (a, refl, h)
