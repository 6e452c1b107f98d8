-- ===== src/SidSet.antt =====
-- `SidSet` of src/base.hh: a set of service identifiers.
pub mod Read
use mirakc_arib.Prelude.{
  ℕ, Bool, not, List, [], ◌∷◌, ◌-◌, ◌%◌, ◌^◌, ℤ, pos, negsuc, Option, none, some, ◌>>=◌, contains,
  insert, length, ◌==◌, if◌then◌else◌,
}
use mirakc_arib.Stoi.{stoi}

pub record SidSet : Type 0 where
  pub set : List ℕ

abbrev pub new : SidSet
new = record { set = [] }

unfoldable pub is_empty : SidSet → Bool
is_empty s = length s.set == 0

unfoldable pub add : ℕ → SidSet → SidSet
add sid s = record { set = insert sid s.set }

-- `static_cast<uint16_t>`
unfoldable pub to_uint16 : ℤ → ℕ
to_uint16 (pos n) = n % 2 ^ 16
to_uint16 (negsuc n) = 2 ^ 16 - 1 - n % 2 ^ 16

-- `Add` of strings: `none` is an exception of `std::stoi`.
unfoldable pub add_strings : List (List ℕ) → SidSet → Option SidSet
add_strings [] s = some s
add_strings (str ∷ strs) s = stoi str >>= λ (value, read).
    if not (read == length str)
    then add_strings strs s
    else add_strings strs (add (to_uint16 value) s)

unfoldable pub contain : SidSet → ℕ → Bool
contain s sid = contains sid s.set

unfoldable pub size : SidSet → ℕ
size s = length s.set
