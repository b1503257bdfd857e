-- ===== src/Base/Results.antt =====
-- What a run of the C++ code comes to. `fault` is an access outside of an array, through a null
-- pointer or to freed memory, which C++ leaves undefined. `stuck` is no outcome of the code: a loop
-- that is modelled with fuel ran out of it.
use mathlib.Core.Path.{◌≡◌, refl}
use mathlib.Core.Option.{Option, none, some}

pub data Outcome {ℓ} (A : Type ℓ) : Type ℓ where
  ok : A → Outcome A
  fault : Outcome A
  stuck : Outcome A

infixl 5 ◌>>=◌
abbrev pub ◌>>=◌ {ℓ κ} : {A : Type ℓ} {B : Type κ} → Outcome A → (A → Outcome B) → Outcome B
ok a >>= f = f a
fault >>= f = fault
stuck >>= f = stuck

-- A read through a pointer or at an index: nothing there is a fault.
abbrev pub deref {ℓ} : {A : Type ℓ} → Option A → Outcome A
deref none = fault
deref (some a) = ok a

-- A run that ends with a value of which `P` holds.
abbrev pub Returns {ℓ} : {A : Type ℓ} → (A → Type 0) → Outcome A → Type 0
Returns P (ok a) = P a
Returns P fault = ⊥
Returns P stuck = ⊥

pub Returns-bind {ℓ κ} :
    {A : Type ℓ} {B : Type κ} (P : A → Type 0) (Q : B → Type 0) (m : Outcome A) (f : A → Outcome B)
    → Returns P m
    → ((a : A) → P a → Returns Q (f a))
    → Returns Q (m >>= f)
Returns-bind P Q (ok a) f h k = k a h
Returns-bind P Q fault f h k = absurd h
Returns-bind P Q stuck f h k = absurd h

pub Returns-map {ℓ} :
    {A : Type ℓ} (P Q : A → Type 0) (m : Outcome A)
    → ((a : A) → P a → Q a)
    → Returns P m
    → Returns Q m
Returns-map P Q (ok a) k h = k a h
Returns-map P Q fault k h = h
Returns-map P Q stuck k h = h

-- A run that is known to end has an outcome to rewrite by.
pub Returns-ok {ℓ} :
    {A : Type ℓ} (P : A → Type 0) (m : Outcome A) → Returns P m → (a : A) × (m ≡ ok a) × P a
Returns-ok P (ok a) h = (a, refl, h)
Returns-ok P fault h = absurd h
Returns-ok P stuck h = absurd h

-- What holds of a value, if there is one.
abbrev pub OnSome {ℓ} : {A : Type ℓ} → (A → Type 0) → Option A → Type 0
OnSome P none = Unit {0}
OnSome P (some a) = P a

-- A run with a value or none, and what follows in the two cases.
pub Returns-option {ℓ κ} :
    {A : Type ℓ} {B : Type κ} (P : A → Type 0) (Q : B → Type 0) (m : Outcome (Option A))
    (z : Outcome B) (k : A → Outcome B)
    → Returns (OnSome P) m
    → Returns Q z
    → ((a : A) → P a → Returns Q (k a))
    → Returns Q (m >>= λ o. elim o [ none ↦ z | some a ↦ k a ])
Returns-option P Q (ok none) z k h hz hk = hz
Returns-option P Q (ok (some a)) z k h hz hk = hk a h
Returns-option P Q fault z k h hz hk = absurd h
Returns-option P Q stuck z k h hz hk = absurd h

-- What follows on a value or on none.
pub elim-OnSome {ℓ κ} :
    {A : Type ℓ} {B : Type κ} (P : A → Type 0) (Q : B → Type 0) (o : Option A) (z : B) (k : A → B)
    → OnSome P o
    → Q z
    → ((a : A) → P a → Q (k a))
    → Q (elim o [ none ↦ z | some a ↦ k a ])
elim-OnSome P Q none z k h hz hk = hz
elim-OnSome P Q (some a) z k h hz hk = hk a h
