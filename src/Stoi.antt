-- ===== src/Stoi.antt =====
-- `std::stoi` as the program calls it, on strings that are lists of ASCII codes. Where it throws, for
-- want of a number or for one that is out of the range of `int`, the result is `none`.
pub mod Digits
use mirakc_arib.Prelude.{
  ℕ, suc, ◌+◌, ◌-◌, ◌*◌, ◌^◌, Bool, true, false, ◌&&◌, ◌||◌, Option, none, some, List, [], ◌∷◌, ℤ,
  pos, ◌-ℤ◌, length, drop, leb, ltb, ◌==◌, if◌then◌else◌,
}

-- `isspace`
abbrev pub is_space : ℕ → Bool
is_space c = c == 32 || (leb 9 c && leb c 13)

abbrev pub is_digit : ℕ → Bool
is_digit c = leb 48 c && leb c 57

unfoldable pub count_spaces : List ℕ → ℕ
count_spaces [] = 0
count_spaces (c ∷ cs) = let rest = count_spaces cs in if is_space c then suc rest else 0

-- The value of the digits at the head, from a value, and their number.
unfoldable pub read_digits : List ℕ → ℕ → ℕ × ℕ
read_digits [] value = (value, 0)
read_digits (c ∷ cs) value =
    let rest = read_digits cs (value * 10 + (c - 48)) in
    if is_digit c then (rest.0, suc rest.1) else (value, 0)

abbrev pub starts_with : ℕ → List ℕ → Bool
starts_with c [] = false
starts_with c (x ∷ xs) = x == c

-- The number without its sign, with the number of characters that were read. `limit` is the largest
-- number that fits.
unfoldable pub read_number : List ℕ → ℕ → Option (ℕ × ℕ)
read_number str limit =
    let (value, count) = read_digits str 0 in
    if count == 0 then none else if leb value limit then some (value, count) else none

-- The number, and the value of `pos`.
unfoldable pub stoi : List ℕ → Option (ℤ × ℕ)
stoi str =
    let spaces = count_spaces str in
    let rest = drop spaces str in
    let negative : Option (ℤ × ℕ) = elim (read_number (drop 1 rest) (2 ^ 31)) [
      | none ↦ none
      | some (value, count) ↦ some (pos 0 -ℤ pos value, spaces + 1 + count)
    ] in
    let signed : Option (ℤ × ℕ) = elim (read_number (drop 1 rest) (2 ^ 31 - 1)) [
      | none ↦ none
      | some (value, count) ↦ some (pos value, spaces + 1 + count)
    ] in
    let unsigned : Option (ℤ × ℕ) = elim (read_number rest (2 ^ 31 - 1)) [
      | none ↦ none
      | some (value, count) ↦ some (pos value, spaces + count)
    ] in
    if starts_with 45 rest then negative else if starts_with 43 rest then signed else unsigned
