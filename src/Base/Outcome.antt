-- ===== src/Base/Outcome.antt =====
-- Exceptions as values: a Python function that may raise returns an outcome.
use mathlib.Core.Bool.{Bool, true, false}
use mathlib.Core.Path.{◌≡◌, refl}
use mathlib.Core.Logic.{◌⊎◌, inl, inr}

pub data Outcome {ℓ κ} (E : Type κ) (A : Type ℓ) : Type (ℓ ⊔ κ) where
  ok : A → Outcome E A
  raised : E → Outcome E A

infixl 5 ◌>>=◌ ◌>>◌
abbrev pub ◌>>=◌ {ℓ ℓ' κ} :
    {E : Type κ} {A : Type ℓ} {B : Type ℓ'} → Outcome E A → (A → Outcome E B) → Outcome E B
ok a >>= f = f a
raised e >>= f = raised e

abbrev pub ◌>>◌ {ℓ κ} : {E : Type κ} {B : Type ℓ} → Outcome E (Unit {0}) → Outcome E B → Outcome E B
m >> k = m >>= λ _. k

-- `if bad: raise e`
abbrev pub raise_if {κ} : {E : Type κ} → Bool → E → Outcome E (Unit {0})
raise_if true e = raised e
raise_if false e = ok tt

module _ {ℓ ℓ' κ} {E : Type κ} {A : Type ℓ} {B : Type ℓ'} where
  -- A chain that returns: its first part returns a value, and so does the rest on it.
  pub bind_ok :
      (m : Outcome E A) (f : A → Outcome E B) (b : B)
      → (m >>= f) ≡ ok b
      → (a : A) × (m ≡ ok a) × (f a ≡ ok b)
  bind_ok (ok a) f b h = (a, refl, h)
  bind_ok (raised e) f b h = absurd (cc h)

pub raise_if_ok {κ} : {E : Type κ} (b : Bool) (e : E) (u : Unit) → raise_if b e ≡ ok u → b ≡ false
raise_if_ok true e u h = absurd (cc h)
raise_if_ok false e u h = refl

-- To split on a computed outcome and keep the equation.
pub Outcome-cases {ℓ κ} :
    {E : Type κ} {A : Type ℓ} (m : Outcome E A)
    → ((a : A) × (m ≡ ok a)) ⊎ ((e : E) × (m ≡ raised e))
Outcome-cases (ok a) = inl (a, refl)
Outcome-cases (raised e) = inr (e, refl)

-- What is raised satisfies `P`.
abbrev pub Raises {ℓ κ ι} : {E : Type κ} {A : Type ℓ} → (E → Type ι) → Outcome E A → Type ι
Raises P (ok a) = Unit
Raises P (raised e) = P e

module _ {ℓ ℓ' κ ι} {E : Type κ} {A : Type ℓ} {B : Type ℓ'} (P : E → Type ι) where
  pub Raises-bind :
      (m : Outcome E A) (f : A → Outcome E B)
      → Raises P m
      → ((a : A) → Raises P (f a))
      → Raises P (m >>= f)
  Raises-bind (ok a) f h k = k a
  Raises-bind (raised e) f h k = h

pub raise_if-Raises {κ ι} :
    {E : Type κ} (P : E → Type ι) (b : Bool) (e : E) → P e → Raises P (raise_if b e)
raise_if-Raises P true e h = h
raise_if-Raises P false e h = tt

-- What is returned satisfies `P`.
abbrev pub Returns {ℓ κ ι} : {E : Type κ} {A : Type ℓ} → (A → Type ι) → Outcome E A → Type ι
Returns P (ok a) = P a
Returns P (raised e) = Unit
