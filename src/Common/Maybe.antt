-- ===== src/Common/Maybe.antt =====
-- Chains of steps that may fail: `none` is a failed assertion, or a loop that ran out of fuel.
use mathlib.Core.Bool.{Bool, true, false}
use mathlib.Core.Option.{Option, none, some}

infixl 5 ◌>>=◌ ◌>>◌
abbrev pub ◌>>=◌ {ℓ κ} : {A : Type ℓ} {B : Type κ} → Option A → (A → Option B) → Option B
none >>= f = none
some a >>= f = f a

abbrev pub ◌>>◌ {ℓ} : {B : Type ℓ} → Option (Unit {0}) → Option B → Option B
m >> k = m >>= λ _. k

-- assert() of lib/assert_debug.h
abbrev pub assert : Bool → Option (Unit {0})
assert true = some tt
assert false = none

abbrev pub is_some {ℓ} : {A : Type ℓ} → Option A → Bool
is_some none = false
is_some (some _) = true

-- The step gives a result, and the result satisfies the predicate.
abbrev pub Succeeds {ℓ} : {A : Type ℓ} → Option A → (A → Type 0) → Type 0
Succeeds none P = ⊥
Succeeds (some a) P = P a

pub Succeeds->>= {ℓ κ} :
    {A : Type ℓ} {B : Type κ} (P : A → Type 0) (Q : B → Type 0) (m : Option A) (f : A → Option B)
    → Succeeds m P
    → ((a : A) → P a → Succeeds (f a) Q)
    → Succeeds (m >>= f) Q
Succeeds->>= P Q none f h k = elim h [ ]
Succeeds->>= P Q (some a) f h k = k a h

pub Succeeds-mono {ℓ} :
    {A : Type ℓ} (P Q : A → Type 0) (m : Option A)
    → Succeeds m P
    → ((a : A) → P a → Q a)
    → Succeeds m Q
Succeeds-mono P Q none h k = h
Succeeds-mono P Q (some a) h k = k a h

pub Succeeds-both {ℓ} :
    {A : Type ℓ} (P Q : A → Type 0) (m : Option A)
    → Succeeds m P
    → Succeeds m Q
    → Succeeds m (λ a. P a × Q a)
Succeeds-both P Q none p q = p
Succeeds-both P Q (some a) p q = (p, q)

-- What there is, or the other value.
abbrev pub maybe {ℓ κ} : {A : Type ℓ} {B : Type κ} → Option A → B → (A → B) → B
maybe none b f = b
maybe (some a) b f = f a
