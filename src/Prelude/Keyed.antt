-- ===== src/Prelude/Keyed.antt =====
-- `std::map` with numbers for keys, as an association list in insertion order.
use Prim.Native.Nat.{ℕ, suc, ◌<◌, ◌≤◌}
use mathlib.Core.Path.{◌≡◌, refl, ap}
use mathlib.Core.List.{List, [], ◌∷◌}
use mathlib.Core.Logic.{inl, inr}
use mathlib.Core.Bool.{false}
use mathlib.Core.Option.{Option, none, some}
use native.Mathlib.Omega.{arith}
use mirakc_arib.Prelude.Tests.{◌==◌, ltb, has_value, if◌then◌else◌, Bool-cases, both, ==_iff}
use mirakc_arib.Prelude.Lists.{length, contains}
use mirakc_arib.Prelude.Distinct.{IsDistinct}

module _ {ℓ} {V : Type ℓ} where
  unfoldable pub lookup : ℕ → List (ℕ × V) → Option V
  lookup key [] = none
  lookup key ((at, value) ∷ rest) = if at == key then some value else lookup key rest

  unfoldable pub put : ℕ → V → List (ℕ × V) → List (ℕ × V)
  put key value [] = (key, value) ∷ []
  put key value ((at, old) ∷ rest) =
      if at == key then (key, value) ∷ rest else (at, old) ∷ put key value rest

  pub lookup-put :
      (k j : ℕ) (v : V) (m : List (ℕ × V))
      → lookup j (put k v m) ≡ (if k == j then some v else lookup j m)
  unfolding lookup put
  lookup-put k j v [] = refl
  lookup-put k j v ((i, w) ∷ m) = ground (arith, lookup-put k j v m)

-- `std::map` where its order matters: the keys ascend.
module _ {ℓ} {V : Type ℓ} where
  unfoldable pub put_sorted : ℕ → V → List (ℕ × V) → List (ℕ × V)
  put_sorted key value [] = (key, value) ∷ []
  put_sorted key value ((at, old) ∷ rest) =
      if at == key
      then (key, value) ∷ rest
      else if ltb key at
      then (key, value) ∷ (at, old) ∷ rest
      else (at, old) ∷ put_sorted key value rest

  abbrev pub keys : List (ℕ × V) → List ℕ
  keys [] = []
  keys ((j, w) ∷ m) = j ∷ keys m

  abbrev pub IsAbove : ℕ → List (ℕ × V) → Type 0
  IsAbove k [] = Unit
  IsAbove k ((j, w) ∷ m) = k < j

  abbrev pub IsSorted : List (ℕ × V) → Type 0
  IsSorted [] = Unit
  IsSorted ((j, w) ∷ m) = IsAbove j m × IsSorted m

module _ {ℓ} {V : Type ℓ} where
  pub lookup-put_sorted :
      (k j : ℕ) (v : V) (m : List (ℕ × V))
      → lookup j (put_sorted k v m) ≡ (if k == j then some v else lookup j m)
  unfolding lookup put_sorted
  lookup-put_sorted k j v [] = refl
  lookup-put_sorted k j v ((i, w) ∷ m) = ground (arith, lookup-put_sorted k j v m)

  IsAbove-put_sorted :
      (i k : ℕ) (v : V) (m : List (ℕ × V)) → i < k → IsAbove i m → IsAbove i (put_sorted k v m)
  unfolding put_sorted
  IsAbove-put_sorted i k v [] lt h = lt
  IsAbove-put_sorted i k v ((j, w) ∷ m) lt h = elim (Bool-cases (j == k)) [
    | inl same_ ↦ rw same_ lt
    | inr else_ ↦
        both (IsAbove i) (j == k) _ _ lt
          (both (IsAbove i) (ltb k j) ((k, v) ∷ (j, w) ∷ m) ((j, w) ∷ put_sorted k v m) lt h)
  ]

  pub put_sorted-IsSorted :
      (k : ℕ) (v : V) (m : List (ℕ × V)) → IsSorted m → IsSorted (put_sorted k v m)
  unfolding put_sorted
  put_sorted-IsSorted k v [] h = (tt, tt)
  put_sorted-IsSorted k v ((j, w) ∷ m) h = elim (Bool-cases (j == k)) [
    | inl same_ ↦ let e : j ≡ k = (==_iff j k).0 same_ in rw same_ (rw (← e) h.0, h.1)
    | inr else_ ↦ elim (Bool-cases (ltb k j)) [
      | inl below ↦ rw (else_, below) (ground arith, h)
      | inr above ↦
          rw (else_, above)
            (IsAbove-put_sorted j k v m (ground arith) h.0, put_sorted-IsSorted k v m h.1)
    ]
  ]

  pub keys_contain : (k : ℕ) (m : List (ℕ × V)) → contains k (keys m) ≡ has_value (lookup k m)
  unfolding lookup
  keys_contain k [] = refl
  keys_contain k ((j, w) ∷ m) = ground (arith, keys_contain k m)

  pub length-keys : (m : List (ℕ × V)) → length (keys m) ≡ length m
  length-keys [] = refl
  length-keys ((j, w) ∷ m) = ap suc (length-keys m)

  -- A key below the first is none of a sorted list.
  below_sorted :
      (k j : ℕ) (m : List (ℕ × V)) → k ≤ j → IsAbove j m → IsSorted m → contains k (keys m) ≡ false
  below_sorted k j [] le h s = refl
  below_sorted k j ((i, w) ∷ m) le h s = ground (arith, below_sorted k i m (omega arith) s.0 s.1)

  pub keys-IsDistinct : (m : List (ℕ × V)) → IsSorted m → IsDistinct (keys m)
  keys-IsDistinct [] h = tt
  keys-IsDistinct ((j, w) ∷ m) h = (below_sorted j j m (omega arith) h.0 h.1, keys-IsDistinct m h.1)
