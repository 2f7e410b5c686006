-- ===== src/Prelude/Results.antt =====
-- How a C call ends: it returns, an assertion aborts the process, `exit` ends it, or it does what C
-- leaves undefined (an access outside an array, a division by zero, a null dereference).
use Prim.Native.Nat.{ℕ}
use mathlib.Core.Path.{◌≡◌, refl}
use native.Mathlib.Omega.{arith}
use mathlib.Core.Bool.{Bool, true, false}
use mathlib.Core.Option.{Option, none, some}
use mathlib.Core.List.{List}
use servant.Prelude.Lists.{get_elem?}

pub data Outcome {ℓ} (A : Type ℓ) : Type ℓ where
  returns : A → Outcome A
  aborted : Outcome A
  exited : ℕ → Outcome A
  undefined : Outcome A

infixl 5 ◌>>=◌ ◌>>◌
abbrev pub ◌>>=◌ {ℓ κ} : {A : Type ℓ} {B : Type κ} → Outcome A → (A → Outcome B) → Outcome B
returns a >>= f = f a
aborted >>= f = aborted
exited n >>= f = exited n
undefined >>= f = undefined

abbrev pub ◌>>◌ {ℓ} : {B : Type ℓ} → Outcome (Unit {0}) → Outcome B → Outcome B
m >> k = m >>= λ _. k

-- `assert(b)`.
abbrev pub assert : Bool → Outcome (Unit {0})
assert true = returns tt
assert false = aborted

-- What C needs for the next step to be defined.
abbrev pub require : Bool → Outcome (Unit {0})
require true = returns tt
require false = undefined

abbrev pub or_undefined {ℓ} : {A : Type ℓ} → Option A → Outcome A
or_undefined none = undefined
or_undefined (some a) = returns a

-- `xs[i]` as an operand: undefined outside the array.
abbrev pub at {ℓ} : {A : Type ℓ} → List A → ℕ → Outcome A
at xs i = or_undefined (get_elem? xs i)

-- What a successful bind and a successful operand say.
pub >>=-returns {ℓ κ} :
    {A : Type ℓ} {B : Type κ} (m : Outcome A) (f : A → Outcome B) {b : B}
    → (m >>= f) ≡ returns b
    → (a : A) × (m ≡ returns a) × (f a ≡ returns b)
>>=-returns (returns a) f h = (a, refl, h)
>>=-returns aborted f h = cc
>>=-returns (exited n) f h = cc
>>=-returns undefined f h = cc

pub at-returns {ℓ} :
    {A : Type ℓ} (xs : List A) (i : ℕ) {a : A} → at xs i ≡ returns a → get_elem? xs i ≡ some a
at-returns xs i h = ground arith

pub returns-injective {ℓ} : {A : Type ℓ} {a b : A} → returns a ≡ returns b → a ≡ b
returns-injective h = cc
