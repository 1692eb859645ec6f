-- ===== src/Prelude/Exceptions.antt =====
-- Exceptions of JavaScript as values, with `do`.
use mathlib.Core.Path.{◌≡◌, refl}
use mathlib.Core.Logic.{◌⊎◌, inl, inr}
use mathlib.Core.Bool.{Bool, true, false}
use mathlib.Core.Option.{Option, none, some}
use Prim.Native.String.{String}
use kestrel_feature_mcp.Prelude.Tests.{if◌then◌else◌}

-- The classes that the code tells apart; `foreign` is any other, by its `name`.
pub data Exception : Type 0 where
  type_error range_error error : String → Exception
  foreign : String → Exception

pub data Outcome {ℓ} (A : Type ℓ) : Type ℓ where
  ok : A → Outcome A
  throw : Exception → Outcome A

infixl 5 ◌>>=◌ ◌>>◌
abbrev pub ◌>>=◌ {ℓ κ} : {A : Type ℓ} {B : Type κ} → Outcome A → (A → Outcome B) → Outcome B
throw x >>= rest = throw x
ok a >>= rest = rest a

-- `if (!test) throw e`
abbrev pub require : Bool → Exception → Outcome (Unit {0})
require true e = ok tt
require false e = throw e

-- The same for a step whose result is not read.
abbrev pub ◌>>◌ {ℓ} : {B : Type ℓ} → Outcome (Unit {0}) → Outcome B → Outcome B
first >> second = first >>= λ _. second

abbrev pub or_throw {ℓ} : {A : Type ℓ} → Option A → Exception → Outcome A
or_throw none e = throw e
or_throw (some a) e = ok a

abbrev pub is_ok {ℓ} : {A : Type ℓ} → Outcome A → Bool
is_ok (ok a) = true
is_ok (throw e) = false

-- Inversion of a sequence that returns.
pub >>=-eq-ok {ℓ κ} :
    {A : Type ℓ} {B : Type κ} (first : Outcome A) (rest : A → Outcome B) {b : B}
    → (first >>= rest) ≡ ok b
    → (a : A) × (first ≡ ok a) × (rest a ≡ ok b)
>>=-eq-ok (throw x) rest h = cc
>>=-eq-ok (ok a) rest h = (a, refl, h)

pub or_throw-eq-ok {ℓ} :
    {A : Type ℓ} (o : Option A) (e : Exception) {a : A} → or_throw o e ≡ ok a → o ≡ some a
or_throw-eq-ok none e h = cc
or_throw-eq-ok (some a) e h = cc

-- A guarded sequence that returns: the test passed, and the rest returned.
pub require->>= {ℓ} :
    {B : Type ℓ} (t : Bool) (e : Exception) (m : Outcome B) {b : B}
    → (require t e >> m) ≡ ok b
    → (t ≡ true) × (m ≡ ok b)
require->>= true e m h = (refl, h)
require->>= false e m h = cc

-- What is returned has the property.
abbrev pub Ensures {ℓ κ} : {A : Type ℓ} → (A → Type κ) → Outcome A → Type κ
Ensures P (ok a) = P a
Ensures P (throw e) = Unit

pub Outcome-cases {ℓ} :
    {A : Type ℓ} (m : Outcome A) → ((a : A) × (m ≡ ok a)) ⊎ ((e : Exception) × (m ≡ throw e))
Outcome-cases (ok a) = inl (a, refl)
Outcome-cases (throw e) = inr (e, refl)

pub ok-injective {ℓ} : {A : Type ℓ} {a b : A} → ok a ≡ ok b → a ≡ b
ok-injective h = cc

-- A conditional that returns, where its other branch throws.
pub conditional {ℓ} :
    {A : Type ℓ} (b : Bool) (a : A) (x : Exception) {c : A}
    → (if b then ok a else throw x) ≡ ok c
    → (b ≡ true) × (a ≡ c)
conditional true a x h = (refl, cc)
conditional false a x h = cc
