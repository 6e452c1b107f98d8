-- ===== src/Prelude/Lists.antt =====
-- Lists measured and cut by native numbers, under the library's names.
use Prim.Native.Nat.{ℕ, zero, suc, ◌+◌, ◌-◌, ◌≤◌, ◌<◌, min}
use mathlib.Core.Path.{◌≡◌, refl, ap}
use mathlib.Core.Bool.{Bool, true, false, ◌&&◌, ◌||◌}
use mathlib.Core.List.{List, [], ◌∷◌, ◌++◌}
use mathlib.Core.Option.{Option, none, some}
use native.Mathlib.Nat.{zero-add, suc-add}
use native.Mathlib.Omega.{arith}
use mathlib.Core.Logic.{inl, inr}
use mirakc_arib.Prelude.Tests.{◌==◌, if◌then◌else◌, Bool-cases}

module _ {ℓ} {A : Type ℓ} where
  abbrev pub length : List A → ℕ
  length [] = 0
  length (x ∷ xs) = suc (length xs)

  abbrev pub get_elem? : List A → ℕ → Option A
  get_elem? [] i = none
  get_elem? (x ∷ xs) zero = some x
  get_elem? (x ∷ xs) (suc i) = get_elem? xs i

  abbrev pub get_or : List A → ℕ → A → A
  get_or [] i d = d
  get_or (x ∷ xs) zero d = x
  get_or (x ∷ xs) (suc i) d = get_or xs i d

  abbrev pub take : ℕ → List A → List A
  take zero xs = []
  take (suc n) [] = []
  take (suc n) (x ∷ xs) = x ∷ take n xs

  abbrev pub drop : ℕ → List A → List A
  drop zero xs = xs
  drop (suc n) [] = []
  drop (suc n) (x ∷ xs) = drop n xs

  -- Whether every entry passes a test.
  abbrev pub all : (A → Bool) → List A → Bool
  all p [] = true
  all p (x ∷ xs) = p x && all p xs

  abbrev pub select : (A → Bool) → List A → List A
  select p [] = []
  select p (x ∷ xs) = if p x then x ∷ select p xs else select p xs

  abbrev pub All {κ} : (A → Type κ) → List A → Type κ
  All Q [] = Unit
  All Q (a ∷ rest) = Q a × All Q rest

module _ {ℓ} {A : Type ℓ} where
  pub length-append : (xs ys : List A) → length (xs ++ ys) ≡ length xs + length ys
  length-append [] ys = omega arith
  length-append (x ∷ xs) ys = omega (arith, length-append xs ys)

  pub length-take : (n : ℕ) (xs : List A) → length (take n xs) ≡ min n (length xs)
  length-take zero xs = omega arith
  length-take (suc n) [] = omega arith
  length-take (suc n) (x ∷ xs) = omega (arith, length-take n xs)

  pub length-drop : (n : ℕ) (xs : List A) → length (drop n xs) ≡ length xs - n
  length-drop zero xs = omega arith
  length-drop (suc n) [] = omega arith
  length-drop (suc n) (x ∷ xs) = omega (arith, length-drop n xs)

  pub take-append-drop : (n : ℕ) (xs : List A) → take n xs ++ drop n xs ≡ xs
  take-append-drop zero xs = refl
  take-append-drop (suc n) [] = refl
  take-append-drop (suc n) (x ∷ xs) = ap (◌∷◌ x) (take-append-drop n xs)

  pub All-append {κ} :
      (Q : A → Type κ) (front back : List A) → All Q front → All Q back → All Q (front ++ back)
  All-append Q [] back h k = k
  All-append Q (a ∷ front) back h k = (h.0, All-append Q front back h.1 k)

-- A set of numbers as a list: `count(x) != 0` and `insert(x)`.
abbrev pub contains : ℕ → List ℕ → Bool
contains k [] = false
contains k (x ∷ xs) = k == x || contains k xs

contains_absorb :
    (j k : ℕ) (xs : List ℕ) → contains k xs ≡ true → contains j xs ≡ (j == k || contains j xs)
contains_absorb j k [] h = cc
contains_absorb j k (x ∷ xs) h = ground (arith, contains_absorb j k xs)

abbrev pub insert : ℕ → List ℕ → List ℕ
insert k xs = if contains k xs then xs else k ∷ xs

pub contains-insert : (j k : ℕ) (xs : List ℕ) → contains j (insert k xs) ≡ (j == k || contains j xs)
contains-insert j k xs = elim (Bool-cases (contains k xs)) [
  | inl old ↦ rw old (contains_absorb j k xs old)
  | inr new ↦ rw new
]

module _ {ℓ} {A : Type ℓ} where
  pub take_head : (n : ℕ) (xs ys : List A) → length xs ≡ n → take n (xs ++ ys) ≡ xs
  take_head zero [] ys h = refl
  take_head zero (x ∷ xs) ys h = absurd (omega arith)
  take_head (suc n) [] ys h = absurd (omega arith)
  take_head (suc n) (x ∷ xs) ys h = ap (◌∷◌ x) (take_head n xs ys (omega arith))

  pub drop_head : (n : ℕ) (xs ys : List A) → length xs ≡ n → drop n (xs ++ ys) ≡ ys
  drop_head zero [] ys h = refl
  drop_head zero (x ∷ xs) ys h = absurd (omega arith)
  drop_head (suc n) [] ys h = absurd (omega arith)
  drop_head (suc n) (x ∷ xs) ys h = drop_head n xs ys (omega arith)

  pub drop_all : (n : ℕ) (xs : List A) → length xs ≤ n → drop n xs ≡ []
  drop_all zero [] h = refl
  drop_all zero (x ∷ xs) h = absurd (omega arith)
  drop_all (suc n) [] h = refl
  drop_all (suc n) (x ∷ xs) h = drop_all n xs (omega arith)

  pub take_all : (n : ℕ) (xs : List A) → length xs ≤ n → take n xs ≡ xs
  take_all zero [] h = refl
  take_all zero (x ∷ xs) h = absurd (omega arith)
  take_all (suc n) [] h = refl
  take_all (suc n) (x ∷ xs) h = ap (◌∷◌ x) (take_all n xs (omega arith))

  pub take_split : (n m : ℕ) (xs : List A) → take n xs ++ take m (drop n xs) ≡ take (n + m) xs
  take_split zero m xs = rw zero-add refl
  take_split (suc n) zero [] = rw suc-add refl
  take_split (suc n) (suc m) [] = rw suc-add refl
  take_split (suc n) m (x ∷ xs) = rw suc-add (ap (◌∷◌ x) (take_split n m xs))

  pub drop-drop : (n m : ℕ) (xs : List A) → drop m (drop n xs) ≡ drop (n + m) xs
  drop-drop zero m xs = rw zero-add refl
  drop-drop (suc n) zero [] = rw suc-add refl
  drop-drop (suc n) (suc m) [] = rw suc-add refl
  drop-drop (suc n) m (x ∷ xs) = rw suc-add (drop-drop n m xs)

  pub take-take : (n m : ℕ) (xs : List A) → n ≤ m → take n (take m xs) ≡ take n xs
  take-take zero m xs h = refl
  take-take (suc n) zero xs h = absurd (omega arith)
  take-take (suc n) (suc m) [] h = refl
  take-take (suc n) (suc m) (x ∷ xs) h = ap (◌∷◌ x) (take-take n m xs (omega arith))

-- A loop of `rounds` rounds that counts up from `first` and changes the state in each.
abbrev pub for_range {ℓ} : {State : Type ℓ} → ℕ → ℕ → (ℕ → State → State) → State → State
for_range zero first change state = state
for_range (suc rounds) first change state =
    let state' = change first state in for_range rounds (first + 1) change state'

-- A loop that returns false at the first number below `n` that fails the test.
abbrev pub all_below : ℕ → (ℕ → Bool) → Bool
all_below zero p = true
all_below (suc n) p = all_below n p && p n

pub all_below_at : (n : ℕ) (p : ℕ → Bool) (i : ℕ) → all_below n p ≡ true → i < n → p i ≡ true
all_below_at zero p i h lt = absurd (omega arith)
all_below_at (suc n) p i h lt = elim (Bool-cases (i == n)) [
  | inl last ↦ ground arith
  | inr before ↦ all_below_at n p i (ground arith) (ground arith)
]

pub all_below_monotone :
    (n : ℕ) (p q : ℕ → Bool)
    → ((i : ℕ) → i < n → p i ≡ true → q i ≡ true)
    → all_below n p ≡ true
    → all_below n q ≡ true
all_below_monotone zero p q h all_ = refl
all_below_monotone (suc n) p q h all_ =
    let rest : all_below n q ≡ true =
      all_below_monotone n p q (λ i lt. h i (omega arith)) (ground arith) in
    let here : q n ≡ true = h n (omega arith) (ground arith) in ground arith

-- A loop that adds the terms of the numbers below `n`.
abbrev pub sum_below : ℕ → (ℕ → ℕ) → ℕ
sum_below zero f = 0
sum_below (suc n) f = sum_below n f + f n

-- Whether some entry passes a test.
abbrev pub any {ℓ} : {A : Type ℓ} → (A → Bool) → List A → Bool
any p [] = false
any p (x ∷ xs) = p x || any p xs

pub all_below_ext :
    (n : ℕ) (p q : ℕ → Bool) → ((i : ℕ) → i < n → p i ≡ q i) → all_below n p ≡ all_below n q
all_below_ext zero p q h = refl
all_below_ext (suc n) p q h = ground (arith, h n, all_below_ext n p q (λ i lt. h i (omega arith)))
