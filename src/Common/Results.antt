-- ===== src/Common/Results.antt =====
-- What a function that may throw returns; an error carries its message.
use Prim.Native.String.{String}
use mathlib.Core.Path.{◌≡◌, refl}
use mathlib.Core.Logic.{◌⊎◌, inl, inr}
use mathlib.Core.Bool.{Bool, true, false}
use mathlib.Core.Option.{Option, none, some}

pub data Result {κ} (Value : Type κ) : Type κ where
  err : (message : String) → Result Value
  ok : (returned : Value) → Result Value

infixl 5 ◌>>=◌
abbrev pub ◌>>=◌ {κ ℓ} :
    {First : Type κ} {Second : Type ℓ} → Result First → (First → Result Second) → Result Second
err message >>= next = err message
ok returned >>= next = next returned

-- `if (test) throw new Error(message)`.
abbrev pub throw_if : Bool → String → Result (Unit {0})
throw_if true e = err e
throw_if false e = ok tt

-- A statement before another one.
infixl 5 ◌>>◌
abbrev pub ◌>>◌ {κ} : {Value : Type κ} → Result (Unit {0}) → Result Value → Result Value
check >> rest = check >>= (λ passed. rest)

-- A value that the code throws on when it is missing.
abbrev pub or_throw {ℓ} : {A : Type ℓ} → Option A → String → Result A
or_throw none e = err e
or_throw (some a) e = ok a

abbrev pub is_ok {ℓ} : {A : Type ℓ} → Result A → Bool
is_ok (ok a) = true
is_ok (err e) = false

-- A successful bind has two successful parts.
pub >>=-eq-ok {κ ℓ} :
    {First : Type κ} {Second : Type ℓ} (first : Result First) (next : First → Result Second)
    {last : Second}
    → (first >>= next) ≡ ok last
    → (returned : First) × (first ≡ ok returned) × (next returned ≡ ok last)
>>=-eq-ok (err message) next e = absurd (cc e)
>>=-eq-ok (ok returned) next e = (returned, refl, e)

-- What is left when a test that throws has passed.
pub throw_if-eq-ok {ℓ} :
    {A : Type ℓ} (b : Bool) (e : String) (k : Result A) {a : A}
    → (throw_if b e >> k) ≡ ok a
    → (b ≡ false) × (k ≡ ok a)
throw_if-eq-ok true e k h = absurd (cc h)
throw_if-eq-ok false e k h = (refl, h)

pub Result-cases {ℓ} :
    {A : Type ℓ} (r : Result A) → ((a : A) × (r ≡ ok a)) ⊎ ((e : String) × (r ≡ err e))
Result-cases (ok a) = inl (a, refl)
Result-cases (err e) = inr (e, refl)
