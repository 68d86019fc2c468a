-- ===== src/Base/Results.antt =====
-- Go's `(value, error)` results.
use mathlib.Core.Path.{◌≡◌, refl}
use mathlib.Core.Option.{Option, none, some}

pub data Result {ℓ κ} (E : Type ℓ) (A : Type κ) : Type (ℓ ⊔ κ) where
  err : E → Result E A
  ok : A → Result E A

infixl 5 ◌>>=◌ ◌>>◌
abbrev pub ◌>>=◌ {ℓ κ μ} :
    {E : Type ℓ} {A : Type κ} {B : Type μ} → Result E A → (A → Result E B) → Result E B
err e >>= f = err e
ok a >>= next = next a

abbrev pub ◌>>◌ {ℓ κ} : {E : Type ℓ} {B : Type κ} → Result E (Unit {0}) → Result E B → Result E B
check >> rest = check >>= λ _. rest

pub ok-inj {ℓ κ} : {E : Type ℓ} {A : Type κ} {a b : A} → ◌≡◌ {A = Result E A} (ok a) (ok b) → a ≡ b
ok-inj e = cc e

-- what is known of a chain that returned a value
pub >>=-eq-ok {ℓ κ μ} :
    {E : Type ℓ} {A : Type κ} {B : Type μ} (first : Result E A) (next : A → Result E B) {b : B}
    → (first >>= next) ≡ ok b
    → (a : A) × (first ≡ ok a) × (next a ≡ ok b)
>>=-eq-ok (err e) next returned = cc
>>=-eq-ok (ok a) next returned = (a, refl, returned)

-- what every value of a chain has
abbrev pub AllOk {ℓ κ μ} : {E : Type ℓ} {A : Type κ} → (A → Type μ) → Result E A → Type (ℓ ⊔ κ ⊔ μ)
AllOk {A = A} P r = (a : A) → r ≡ ok a → P a

pub >>=-AllOk {ℓ κ μ ν} :
    {E : Type ℓ} {A : Type κ} {B : Type μ} {P : B → Type ν} (first : Result E A)
    (next : A → Result E B)
    → ((a : A) → first ≡ ok a → AllOk P (next a))
    → AllOk P (first >>= next)
>>=-AllOk (err e) next h b returned = cc
>>=-AllOk (ok a) next h b returned = h a refl b returned

-- a chain of Options, and what is known of one that returned a value
abbrev pub and_then {ℓ κ} : {A : Type ℓ} {B : Type κ} → Option A → (A → Option B) → Option B
and_then none next = none
and_then (some a) next = next a

pub and_then-eq-some {ℓ κ} :
    {A : Type ℓ} {B : Type κ} (first : Option A) (next : A → Option B) {b : B}
    → and_then first next ≡ some b
    → (a : A) × (first ≡ some a) × (next a ≡ some b)
and_then-eq-some none next returned = cc
and_then-eq-some (some a) next returned = (a, refl, returned)

pub some-inj {ℓ} : {A : Type ℓ} {a b : A} → some a ≡ some b → a ≡ b
some-inj e = cc

-- the first value there is
abbrev pub or_else {ℓ} : {A : Type ℓ} → Option A → Option A → Option A
or_else none d = d
or_else (some a) d = some a

pub or_else-none {ℓ} : {A : Type ℓ} (o : Option A) → or_else o none ≡ o
or_else-none none = refl
or_else-none (some a) = refl
