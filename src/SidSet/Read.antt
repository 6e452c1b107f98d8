-- ===== src/SidSet/Read.antt =====
-- `SidSet` of src/base.hh filled from the command line.
use mirakc_arib.Prelude.{
  ℕ, ◌^◌, ◌<◌, ◌%◌, ◌≡◌, refl, ◌∙◌, ◌||◌, List, [], ◌∷◌, All, map, contains, contains-insert,
  length, ◌==◌, ==_refl, Returns, Returns-map, arith,
}
use mirakc_arib.Stoi.Digits.{decimal, stoi-decimal}
use mirakc_arib.SidSet.{SidSet, add, add_strings, contain, to_uint16}

contain-add : (sid k : ℕ) (s : SidSet) → contain (add sid s) k ≡ (k == sid || contain s k)
unfolding contain add
contain-add sid k s = contains-insert k sid s.set

-- The set after the additions has what was added and what it had.
abbrev pub HasAdded : List ℕ → SidSet → SidSet → Type 0
HasAdded sids s s' = (k : ℕ) → contain s' k ≡ (contains k sids || contain s k)

-- Service identifiers of 16 bits that are printed in decimal are all added, and nothing else, to what
-- the set holds already, without an exception.
pub add_strings-decimal :
    (sids : List ℕ) (s : SidSet)
    → All (λ sid. sid < 2 ^ 16) sids
    → Returns (HasAdded sids s) (add_strings (map decimal sids) s)
unfolding add_strings to_uint16
add_strings-decimal [] s h = λ k. refl
add_strings-decimal (sid ∷ sids) s h =
    let read = stoi-decimal sid (omega (arith, h.0)) in
    let cast : sid % 2 ^ 16 ≡ sid = omega (arith, h.0) in
    let ih = add_strings-decimal sids (add sid s) h.1 in
    simp (read, ==_refl (length (decimal sid)), cast)
      (Returns-map (HasAdded sids (add sid s)) (HasAdded (sid ∷ sids) s)
        (add_strings (map decimal sids) (add sid s)) ih
        (λ s' added k. added k ∙ ground (arith, contain-add sid k s)))
