-- ===== src/Prelude/Outcome.antt =====
-- Properties of results that may not be there.
use mathlib.Core.Bool.{Bool, true, false}
use mathlib.Core.Option.{Option, none, some}
use mathlib.Core.Path.{◌≡◌, subst}
use sfproxy.Prelude.Tests.{if◌then◌else◌, ◌>>=◌}

-- A property of the result, where there is one.
abbrev pub Post {ℓ κ} : {A : Type ℓ} → (A → Type κ) → Option A → Type κ
Post P none = Unit
Post P (some a) = P a

pub Post-bind {ℓ κ μ ν} :
    {A : Type ℓ} {B : Type κ} (P : A → Type μ) (Q : B → Type ν) (o : Option A) (f : A → Option B)
    → Post P o
    → ((a : A) → P a → Post Q (f a))
    → Post Q (o >>= f)
Post-bind P Q none f h k = tt
Post-bind P Q (some a) f h k = k a h

-- A step whose result may be anything.
pub Post-bind_any {ℓ κ ν} :
    {A : Type ℓ} {B : Type κ} (Q : B → Type ν) (o : Option A) (f : A → Option B)
    → ((a : A) → Post Q (f a))
    → Post Q (o >>= f)
Post-bind_any Q none f k = tt
Post-bind_any Q (some a) f k = k a

pub either {ℓ κ} :
    {A : Type ℓ} (P : A → Type κ) (b : Bool) (x y : A) → P x → P y → P (if b then x else y)
either P true x y h k = h
either P false x y h k = k

-- There is a result, and it is as `P` says.
abbrev pub Returns {ℓ} : {A : Type ℓ} → (A → Type 0) → Option A → Type 0
Returns P none = ⊥
Returns P (some a) = P a

pub Returns-bind {ℓ κ} :
    {A : Type ℓ} {B : Type κ} (P : A → Type 0) (Q : B → Type 0) (o : Option A) (f : A → Option B)
    → Returns P o
    → ((a : A) → P a → Returns Q (f a))
    → Returns Q (o >>= f)
Returns-bind P Q none f h k = absurd h
Returns-bind P Q (some a) f h k = k a h

pub Returns-map {ℓ} :
    {A : Type ℓ} (P Q : A → Type 0) (o : Option A)
    → Returns P o
    → ((a : A) → P a → Q a)
    → Returns Q o
Returns-map P Q none h k = absurd h
Returns-map P Q (some a) h k = k a h

-- A result that is known.
pub Post-known {ℓ κ} :
    {A : Type ℓ} (P : A → Type κ) (o : Option A) (a : A) → o ≡ some a → Post P o → P a
Post-known P o a e h = subst (Post P) e h

pub Post-both {ℓ κ ν} :
    {A : Type ℓ} (P : A → Type κ) (Q : A → Type ν) (o : Option A)
    → Post P o
    → Post Q o
    → Post (λ a. P a × Q a) o
Post-both P Q none h k = tt
Post-both P Q (some a) h k = (h, k)

pub Post-map {ℓ κ ν} :
    {A : Type ℓ} (P : A → Type κ) (Q : A → Type ν) (o : Option A)
    → ((a : A) → P a → Q a)
    → Post P o
    → Post Q o
Post-map P Q none f h = tt
Post-map P Q (some a) f h = f a h
