-- ===== src/Common/Results.antt =====
-- Go's (value, error) pairs, and the do notation that chains early returns.
use mathlib.Core.Path.{◌≡◌, refl, subst}
use mathlib.Core.Bool.{Bool, true, false}
use mathlib.Core.Logic.{◌⊎◌, inl, inr}
use tailscale_railway_quic_b.Common.Tests.{if◌then◌else◌}
use native.Mathlib.Omega.{arith}
use mathlib.Core.Option.{Option, none, some}

pub data Result {ℓ} (E : Type 0) (A : Type ℓ) : Type ℓ where
  ok : A → Result E A
  err : E → Result E A

-- A missing value is the error `e`.
abbrev pub or_fail {ℓ} : {E : Type 0} {A : Type ℓ} → Option A → E → Result E A
or_fail (some value) reason = ok value
or_fail none reason = err reason

infixl 5 ◌>>◌
-- `if !b { return e }`.
abbrev pub guard : {E : Type 0} → Bool → E → Result E (Unit {0})
guard false reason = err reason
guard true reason = ok tt

infixl 5 ◌>>=◌
-- An early return with the error, or on with the value.
abbrev pub ◌>>=◌ {ℓ κ} :
    {E : Type 0} {A : Type ℓ} {B : Type κ} → Result E A → (A → Result E B) → Result E B
err reason >>= next = err reason
ok value >>= next = next value

abbrev pub ◌>>◌ {ℓ} : {E : Type 0} {B : Type ℓ} → Result E (Unit {0}) → Result E B → Result E B
first >> second = first >>= λ _. second

-- What a successful chain says of its first step and of the rest.
pub >>=-eq-ok {ℓ κ} :
    {E : Type 0} {A : Type ℓ} {B : Type κ} (step : Result E A) (rest : A → Result E B) {done : B}
    → (step >>= rest) ≡ ok done
    → (value : A) × (step ≡ ok value) × (rest value ≡ ok done)
>>=-eq-ok (err reason) rest went = cc
>>=-eq-ok (ok value) rest went = (value, refl, went)

pub guard-eq-ok : {E : Type 0} (b : Bool) (e : E) {u : Unit {0}} → guard b e ≡ ok u → b ≡ true
guard-eq-ok true e h = refl
guard-eq-ok false e h = cc

pub or_fail-eq-ok {ℓ} :
    {E : Type 0} {A : Type ℓ} (o : Option A) (e : E) {a : A} → or_fail o e ≡ ok a → o ≡ some a
or_fail-eq-ok none e h = cc
or_fail-eq-ok (some b) e h = cc

pub Result-cases {ℓ} :
    {E : Type 0} {A : Type ℓ} (r : Result E A) → ((a : A) × (r ≡ ok a)) ⊎ ((e : E) × (r ≡ err e))
Result-cases (ok a) = inl (a, refl)
Result-cases (err e) = inr (e, refl)

pub ok-injective {ℓ} :
    {E : Type 0} {A : Type ℓ} {x y : A} → ◌≡◌ {A = Result E A} (ok x) (ok y) → x ≡ y
ok-injective h = ground arith

-- What holds of the value of a computation that succeeds.
pub data Ensures {E A : Type 0} (P : A → Type 0) : Result E A → Type 0 where
  done : {a : A} → P a → Ensures P (ok a)
  failed : {e : E} → Ensures P (err e)

pub Ensures-bind :
    {E A B : Type 0} {P : A → Type 0} {Q : B → Type 0} (m : Result E A) (f : A → Result E B)
    → Ensures P m
    → ((a : A) → P a → Ensures Q (f a))
    → Ensures Q (m >>= f)
Ensures-bind (ok a) f (done p) k = k a p
Ensures-bind (err e) f failed k = failed

pub Ensures-any :
    {E A B : Type 0} {Q : B → Type 0} (m : Result E A) (f : A → Result E B)
    → ((a : A) → m ≡ ok a → Ensures Q (f a))
    → Ensures Q (m >>= f)
Ensures-any (ok a) f k = k a refl
Ensures-any (err e) f k = failed

pub Ensures-guard :
    {E B : Type 0} {Q : B → Type 0} (b : Bool) (e : E) (k : Result E B)
    → (b ≡ true → Ensures Q k)
    → Ensures Q (guard b e >> k)
Ensures-guard true e k h = h refl
Ensures-guard false e k h = failed

pub Ensures-if :
    {E B : Type 0} {Q : B → Type 0} (b : Bool) (x y : Result E B)
    → (b ≡ true → Ensures Q x)
    → (b ≡ false → Ensures Q y)
    → Ensures Q (if b then x else y)
Ensures-if true x y h k = h refl
Ensures-if false x y h k = k refl

pub Ensures-ok :
    {E A : Type 0} {P : A → Type 0} {r : Result E A} {a : A} → Ensures P r → r ≡ ok a → P a
Ensures-ok {P = P} (done p) h = subst P (ok-injective h) p
Ensures-ok failed h = absurd (cc)
