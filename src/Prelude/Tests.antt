-- ===== src/Prelude/Tests.antt =====
-- Boolean tests on the native numbers, the conditional, and case splits that keep the equation.
use Prim.Native.Nat.{ℕ, ◌≤◌, ◌<◌, compare, Ordering}
use mathlib.Core.Path.{◌≡◌, refl}
use mathlib.Core.Logic.{◌↔◌, ◌⊎◌, ◌≢◌, inl, inr}
use mathlib.Core.Bool.{Bool, true, false}
use mathlib.Core.Option.{Option, none, some}
use native.Mathlib.Omega.{arith}

abbrev pub ltb : ℕ → ℕ → Bool
ltb m n = elim (compare m n) [ Ordering.lt ↦ true | _ ↦ false ]

abbrev pub leb : ℕ → ℕ → Bool
leb m n = elim (compare m n) [ Ordering.gt ↦ false | _ ↦ true ]

infix 50 ◌==◌
abbrev pub ◌==◌ : ℕ → ℕ → Bool
m == n = elim (compare m n) [ Ordering.eq ↦ true | _ ↦ false ]

infix 1 if◌then◌else◌
abbrev pub if◌then◌else◌ {ℓ} : {A : Type ℓ} → Bool → A → A → A
if true then x else y = x
if false then x else y = y

pub ==_iff : (m n : ℕ) → ((m == n) ≡ true) ↔ (m ≡ n)
==_iff m n = ground arith

pub ==_refl : (n : ℕ) → (n == n) ≡ true
==_refl n = ground arith

pub Bool-cases : (b : Bool) → (b ≡ true) ⊎ (b ≡ false)
Bool-cases true = inl refl
Bool-cases false = inr refl

pub Option-cases {ℓ} : {A : Type ℓ} (o : Option A) → (o ≡ none) ⊎ ((a : A) × (o ≡ some a))
Option-cases none = inl refl
Option-cases (some a) = inr (a, refl)

-- `has_value()` of an optional, and the test of a pointer for null.
abbrev pub has_value {ℓ} : {A : Type ℓ} → Option A → Bool
has_value none = false
has_value (some a) = true

-- Code that may abort: `none` is a failed `MIRAKC_ARIB_ASSERT`.
infixl 5 ◌>>=◌ ◌>>◌
abbrev pub ◌>>=◌ {ℓ κ} : {A : Type ℓ} {B : Type κ} → Option A → (A → Option B) → Option B
none >>= f = none
some a >>= f = f a

abbrev pub ◌>>◌ {ℓ} : {B : Type ℓ} → Option (Unit {0}) → Option B → Option B
m >> k = m >>= λ _. k

abbrev pub assert : Bool → Option (Unit {0})
assert true = some tt
assert false = none

-- The code does not abort, and its result satisfies `P`.
abbrev pub Returns {ℓ} : {A : Type ℓ} → (A → Type 0) → Option A → Type 0
Returns P none = ⊥
Returns P (some a) = P a

pub Returns-bind {ℓ κ} :
    {A : Type ℓ} {B : Type κ} (P : A → Type 0) (Q : B → Type 0) (m : Option A) (f : A → Option B)
    → Returns P m
    → ((a : A) → P a → Returns Q (f a))
    → Returns Q (m >>= f)
Returns-bind P Q none f h k = absurd h
Returns-bind P Q (some a) f h k = k a h

pub Returns-map {ℓ} :
    {A : Type ℓ} (P Q : A → Type 0) (m : Option A)
    → Returns P m
    → ((a : A) → P a → Q a)
    → Returns Q m
Returns-map P Q none h k = absurd h
Returns-map P Q (some a) h k = k a h

pub lt→ltb : (m n : ℕ) → m < n → ltb m n ≡ true
lt→ltb m n h = ground arith

pub le→leb : (m n : ℕ) → m ≤ n → leb m n ≡ true
le→leb m n h = ground arith

pub eq→== : (m n : ℕ) → m ≡ n → (m == n) ≡ true
eq→== m n h = ground arith

-- If the code does not abort, its result satisfies `P`.
abbrev pub Ensures {ℓ} : {A : Type ℓ} → (A → Type 0) → Option A → Type 0
Ensures P none = Unit
Ensures P (some a) = P a

pub Ensures-bind {ℓ κ} :
    {A : Type ℓ} {B : Type κ} (P : A → Type 0) (Q : B → Type 0) (m : Option A) (f : A → Option B)
    → Ensures P m
    → ((a : A) → P a → Ensures Q (f a))
    → Ensures Q (m >>= f)
Ensures-bind P Q none f h k = tt
Ensures-bind P Q (some a) f h k = k a h

pub Returns-Ensures {ℓ} :
    {A : Type ℓ} (P Q : A → Type 0) (m : Option A) → Returns P m → Ensures Q m → Returns Q m
Returns-Ensures P Q none h k = absurd h
Returns-Ensures P Q (some a) h k = k

pub Ensures-map {ℓ} :
    {A : Type ℓ} (P Q : A → Type 0) (m : Option A)
    → Ensures P m
    → ((a : A) → P a → Q a)
    → Ensures Q m
Ensures-map P Q none h k = tt
Ensures-map P Q (some a) h k = k a h

pub Ensures-assert {ℓ} :
    {A : Type ℓ} (Q : A → Type 0) (b : Bool) (k : Option A)
    → Ensures Q k
    → Ensures Q (assert b >> k)
Ensures-assert Q true k h = h
Ensures-assert Q false k h = tt

pub ne→== : (m n : ℕ) → m ≢ n → (m == n) ≡ false
ne→== m n h = ground arith

pub Returns-some {ℓ} :
    {A : Type ℓ} (P : A → Type 0) (m : Option A) → Returns P m → (a : A) × (m ≡ some a) × P a
Returns-some P none h = absurd h
Returns-some P (some a) h = (a, refl, h)

-- A test of a pointer or an optional, with what is done in each case.
abbrev pub maybe {ℓ κ} : {A : Type ℓ} {B : Type κ} → Option A → B → (A → B) → B
maybe none absent present = absent
maybe (some a) absent present = present a

pub Ensures-if {ℓ} :
    {A : Type ℓ} (P : A → Type 0) (b : Bool) (m n : Option A)
    → Ensures P m
    → Ensures P n
    → Ensures P (if b then m else n)
Ensures-if P true m n h k = h
Ensures-if P false m n h k = k

pub Ensures-maybe {ℓ κ} :
    {A : Type ℓ} {B : Type κ} (P : B → Type 0) (o : Option A) (m : Option B) (f : A → Option B)
    → Ensures P m
    → ((a : A) → Ensures P (f a))
    → Ensures P (maybe o m f)
Ensures-maybe P none m f h k = h
Ensures-maybe P (some a) m f h k = k a

pub both {ℓ} :
    {A : Type ℓ} (P : A → Type 0) (b : Bool) (x y : A) → P x → P y → P (if b then x else y)
both P true x y h k = h
both P false x y h k = k

-- What follows an assertion may use it.
pub Ensures-asserted {ℓ} :
    {A : Type ℓ} (Q : A → Type 0) (b : Bool) (k : Option A)
    → (b ≡ true → Ensures Q k)
    → Ensures Q (assert b >> k)
Ensures-asserted Q true k h = h refl
Ensures-asserted Q false k h = tt

pub Returns-both {ℓ} :
    {A : Type ℓ} (P Q : A → Type 0) (m : Option A)
    → Returns P m
    → Ensures Q m
    → Returns (λ a. P a × Q a) m
Returns-both P Q none h k = absurd h
Returns-both P Q (some a) h k = (h, k)

pub Ensures-both {ℓ} :
    {A : Type ℓ} (P Q : A → Type 0) (m : Option A)
    → Ensures P m
    → Ensures Q m
    → Ensures (λ a. P a × Q a) m
Ensures-both P Q none h k = tt
Ensures-both P Q (some a) h k = (h, k)
