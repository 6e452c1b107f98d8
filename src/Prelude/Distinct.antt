-- ===== src/Prelude/Distinct.antt =====
-- Lists of numbers without repetition, by their sizes.
use Prim.Native.Nat.{ℕ, suc, ◌≤◌}
use mathlib.Core.Path.{◌≡◌}
use mathlib.Core.Logic.{inl, inr}
use mathlib.Core.Bool.{true, false}
use mathlib.Core.List.{List, [], ◌∷◌}
use native.Mathlib.Omega.{arith}
use mirakc_arib.Prelude.Tests.{◌==◌, ==_refl, ==_iff, if◌then◌else◌, Bool-cases}
use mirakc_arib.Prelude.Lists.{length, contains}

abbrev pub IsDistinct : List ℕ → Type 0
IsDistinct [] = Unit
IsDistinct (x ∷ xs) = (contains x xs ≡ false) × IsDistinct xs

-- Each number of the first list is one of the second.
abbrev pub IsWithin : List ℕ → List ℕ → Type 0
IsWithin xs ys = (k : ℕ) → contains k xs ≡ true → contains k ys ≡ true

abbrev remove : ℕ → List ℕ → List ℕ
remove k [] = []
remove k (x ∷ xs) = if k == x then xs else x ∷ remove k xs

length-remove :
    (k : ℕ) (xs : List ℕ) → contains k xs ≡ true → suc (length (remove k xs)) ≡ length xs
length-remove k [] h = absurd cc
length-remove k (x ∷ xs) h = ground (arith, length-remove k xs)

contains-remove :
    (j k : ℕ) (xs : List ℕ)
    → (j == k) ≡ false
    → contains j xs ≡ true
    → contains j (remove k xs) ≡ true
contains-remove j k [] ne h = h
contains-remove j k (x ∷ xs) ne h = ground (arith, contains-remove j k xs ne)

contains_ne :
    (j k : ℕ) (xs : List ℕ) → contains k xs ≡ false → contains j xs ≡ true → (j == k) ≡ false
contains_ne j k [] h h' = absurd cc
contains_ne j k (x ∷ xs) h h' = ground (arith, contains_ne j k xs)

-- A list without repetition is no longer than one that it is within.
pub length_within : (xs ys : List ℕ) → IsDistinct xs → IsWithin xs ys → length xs ≤ length ys
length_within [] ys d w = omega arith
length_within (x ∷ xs) ys d w =
    let there_ = w x (ground (arith, ==_refl x)) in
    let rest =
      length_within xs (remove x ys) d.1
        (λ k h. contains-remove k x ys (contains_ne k x xs d.0 h) (w k (ground arith))) in
    omega (arith, rest, length-remove x ys there_)

-- If it is as long, it has all of the other's numbers.
pub pigeonhole :
    (xs ys : List ℕ) → IsDistinct xs → IsWithin xs ys → length ys ≤ length xs → IsWithin ys xs
pigeonhole xs ys d w le k h = elim (Bool-cases (contains k xs)) [
  | inl in_ ↦ in_
  | inr out ↦
      let more =
        length_within (k ∷ xs) ys (out, d)
          (λ j h'. elim (Bool-cases (j == k)) [
            | inl same_ ↦ let e : j ≡ k = (==_iff j k).0 same_ in rw e h
            | inr else_ ↦ w j (ground arith)
          ]) in
      absurd (omega (arith, more))
]
