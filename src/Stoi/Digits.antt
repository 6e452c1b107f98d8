-- ===== src/Stoi/Digits.antt =====
-- `std::stoi` reads a number printed in decimal back.
use mirakc_arib.Prelude.{
  ℕ, zero, suc, ◌+◌, ◌-◌, ◌*◌, ◌/◌, ◌%◌, ◌^◌, ◌<◌, ◌≤◌, ◌≡◌, refl, ap, ◌∙◌, true, false, some, List,
  [], ◌∷◌, ◌++◌, pos, length, length-append, All, All-append, ltb, le→leb, ◌==◌, if◌then◌else◌,
  Bool-cases, inl, inr, arith,
}
use mirakc_arib.Stoi.{is_digit, count_spaces, read_digits, starts_with, read_number, stoi}

-- The decimal digits of a number, with fuel.
unfoldable pub digits_of : ℕ → ℕ → List ℕ
digits_of zero n = []
digits_of (suc fuel) n =
    let rest = digits_of fuel (n / 10) in
    if ltb n 10 then (48 + n) ∷ [] else rest ++ (48 + n % 10) ∷ []

-- A number printed in decimal.
unfoldable pub decimal : ℕ → List ℕ
decimal n = digits_of (suc n) n

read_digits-append :
    (xs : List ℕ) (c value : ℕ)
    → All (λ x. is_digit x ≡ true) xs
    → is_digit c ≡ true
    → let (v, n) = read_digits xs value in
      read_digits (xs ++ c ∷ []) value ≡ (v * 10 + (c - 48), suc n)
unfolding read_digits
read_digits-append [] c value h d = rw d refl
read_digits-append (x ∷ xs) c value h d =
    let ih = read_digits-append xs c (value * 10 + (x - 48)) h.1 d in
    rw h.0 (ap (λ (r : ℕ × ℕ). (r.0, suc r.1)) ih)

digits_of-is_digit : (fuel n : ℕ) → All (λ x. is_digit x ≡ true) (digits_of fuel n)
unfolding digits_of
digits_of-is_digit zero n = tt
digits_of-is_digit (suc fuel) n = elim (Bool-cases (ltb n 10)) [
  | inl small ↦ rw small (ground arith, tt)
  | inr large ↦ rw large (
      All-append (λ x. is_digit x ≡ true) (digits_of fuel (n / 10)) ((48 + n % 10) ∷ [])
        (digits_of-is_digit fuel (n / 10)) (ground arith, tt))
]

one_digit : (n : ℕ) → n < 10 → read_digits ((48 + n) ∷ []) 0 ≡ (n, 1)
unfolding read_digits
one_digit n h =
    let digit : is_digit (48 + n) ≡ true = ground arith in
    let same : 0 * 10 + (48 + n - 48) ≡ n = omega arith in rw digit (rw same refl)

read_digits-digits_of :
    (fuel n : ℕ) → n < fuel → read_digits (digits_of fuel n) 0 ≡ (n, length (digits_of fuel n))
unfolding digits_of
read_digits-digits_of zero n h = absurd (omega arith)
read_digits-digits_of (suc fuel) n h = elim (Bool-cases (ltb n 10)) [
  | inl small ↦ rw small (one_digit n (ground arith))
  | inr large ↦
      let rest = digits_of fuel (n / 10) in
      let c = 48 + n % 10 in
      let ih = read_digits-digits_of fuel (n / 10) (ground arith) in
      let value : (read_digits rest 0).0 ≡ n / 10 = ap (λ (r : ℕ × ℕ). r.0) ih in
      let count : (read_digits rest 0).1 ≡ length rest = ap (λ (r : ℕ × ℕ). r.1) ih in
      let all_ = read_digits-append rest c 0 (digits_of-is_digit fuel (n / 10)) (ground arith) in
      let same : (read_digits rest 0).0 * 10 + (c - 48) ≡ n = omega (arith, value) in
      let long : suc (read_digits rest 0).1 ≡ length (rest ++ c ∷ []) =
        omega (arith, count, length-append rest (c ∷ [])) in
      rw large (all_ ∙ rw (same, long) refl)
]

-- A string of digits has no space and no sign at its head.
no_prefix :
    (xs : List ℕ)
    → All (λ x. is_digit x ≡ true) xs
    → (count_spaces xs ≡ 0) × (starts_with 45 xs ≡ false) × (starts_with 43 xs ≡ false)
unfolding count_spaces
no_prefix [] h = (refl, refl, refl)
no_prefix (x ∷ xs) h = (ground (arith, h.0), ground (arith, h.0), ground (arith, h.0))

decimal-is_digit : (n : ℕ) → All (λ x. is_digit x ≡ true) (decimal n)
unfolding decimal
decimal-is_digit n = digits_of-is_digit (suc n) n

length-decimal : (n : ℕ) → 0 < length (decimal n)
unfolding decimal digits_of
length-decimal n = elim (Bool-cases (ltb n 10)) [
  | inl small ↦ rw small (omega arith)
  | inr large ↦ rw large (omega (arith, length-append (digits_of n (n / 10)) ((48 + n % 10) ∷ [])))
]

read_number-decimal :
    (n limit : ℕ) → n ≤ limit → read_number (decimal n) limit ≡ some (n, length (decimal n))
unfolding read_number decimal
read_number-decimal n limit h =
    let read : read_digits (decimal n) 0 ≡ (n, length (decimal n)) =
      read_digits-digits_of (suc n) n (omega arith) in
    let some_ : (length (decimal n) == 0) ≡ false = ground (arith, length-decimal n) in
    rw read (rw (some_, le→leb n limit h) refl)

-- A number below 2^31 that is printed in decimal is read back, to the end of the string.
pub stoi-decimal : (n : ℕ) → n < 2 ^ 31 → stoi (decimal n) ≡ some (pos n, length (decimal n))
unfolding stoi
stoi-decimal n h =
    let prefix = no_prefix (decimal n) (decimal-is_digit n) in
    let read = read_number-decimal n (2 ^ 31 - 1) (omega arith) in
    simp (prefix.0, prefix.1, prefix.2, read) (ap (λ k. some (pos n, k)) (omega arith))
