-- ===== src/Prelude/Results.antt =====
-- A computation that may raise an error of the type `E`.
use mathlib.Core.Path.{◌≡◌, refl}
use mathlib.Core.Bool.{Bool, true, false}
use mathlib.Core.Option.{Option, none, some}

pub data Result {ℓ} (E : Type 0) (A : Type ℓ) : Type ℓ where
  ok : A → Result E A
  err : E → Result E A

-- What follows an error is not run.
abbrev pub ◌>>=◌ {ℓ μ} :
    {E : Type 0} {X : Type ℓ} {Y : Type μ} → Result E X → (X → Result E Y) → Result E Y
err stop >>= rest = err stop
ok x >>= rest = rest x

abbrev pub ◌>>◌ {μ} : {E : Type 0} {Y : Type μ} → Result E (Unit {0}) → Result E Y → Result E Y
check >> rest = check >>= λ _. rest

infixl 5 ◌>>=◌
infixl 5 ◌>>◌
-- `if test: raise error`
abbrev pub refuse_if : {E : Type 0} → Bool → E → Result E (Unit {0})
refuse_if true e = err e
refuse_if false e = ok tt

-- A value that may be missing, and the error that its absence raises.
abbrev pub or_raise {ℓ} : {E : Type 0} {A : Type ℓ} → E → Option A → Result E A
or_raise e none = err e
or_raise e (some a) = ok a

pub ok-injective {ℓ} :
    {E : Type 0} {A : Type ℓ} {x y : A} → ◌≡◌ {A = Result E A} (ok x) (ok y) → x ≡ y
ok-injective h = cc

pub or_raise-eq-ok {ℓ} :
    {E : Type 0} {A : Type ℓ} (e : E) (o : Option A) (a : A) → or_raise e o ≡ ok a → o ≡ some a
or_raise-eq-ok e none a h = cc h
or_raise-eq-ok e (some b) a h = cc

-- Where a chain gives a result, its first step gave one, and the rest took it on.
pub >>=-eq-ok {ℓ μ} :
    {E : Type 0} {X : Type ℓ} {Y : Type μ} (first : Result E X) (rest : X → Result E Y) {out : Y}
    → (first >>= rest) ≡ ok out
    → (x : X) × (first ≡ ok x) × (rest x ≡ ok out)
>>=-eq-ok (err stop) rest done = cc
>>=-eq-ok (ok x) rest done = (x, refl, done)

-- A guard that was passed: its test is false, and the rest gave the result.
pub refuse_if-eq-ok {ℓ} :
    {E : Type 0} {B : Type ℓ} (t : Bool) (e : E) (m : Result E B) {b : B}
    → (refuse_if t e >> m) ≡ ok b
    → (t ≡ false) × (m ≡ ok b)
refuse_if-eq-ok true e m h = cc
refuse_if-eq-ok false e m h = (refl, h)
