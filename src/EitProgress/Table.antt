-- ===== src/EitProgress/Table.antt =====
-- The bits that `TableProgress` of src/eit_collector.hh sets, in closed form, and the flag that it
-- keeps of them.
use mirakc_arib.Prelude.{
  ℕ, zero, suc, ◌+◌, ◌-◌, ◌/◌, ◌<◌, ◌≡◌, refl, sym, Bool, true, ◌&&◌, ◌||◌, ltb, leb, ◌==◌,
  if◌then◌else◌, for_range, all_below, all_below_ext, arith,
}
use mirakc_arib.EitSection.{
  EitSection, segment_index, section_index, last_segment_index, last_section_index,
}
use mirakc_arib.EitProgress.{
  Bitmap, TableProgress, num_segments, set_bit, set_byte, set_version, reset, unuse, update,
  update_unused, check_completed, new,
}

pub set_bytes :
    (n a : ℕ) (m : Bitmap) (i j : ℕ)
    → for_range n a set_byte m i j ≡ (leb a i && ltb i (a + n)) || m i j
set_bytes zero a m i j = ground arith
set_bytes (suc n) a m i j = ground (arith, set_bytes n (a + 1) (set_byte a m) i j)

pub set_bits :
    (segment n a : ℕ) (m : Bitmap) (i j : ℕ)
    → for_range n a (set_bit segment) m i j ≡ (segment == i && (leb a j && ltb j (a + n))) || m i j
set_bits segment zero a m i j = ground arith
set_bits segment (suc n) a m i j =
    ground (arith, set_bits segment n (a + 1) (set_bit segment a m) i j)

pub set_versions :
    (version n a : ℕ) (versions : ℕ → ℕ) (i : ℕ)
    → for_range n a (set_version version) versions i
      ≡ (if leb a i && ltb i (a + n) then version else versions i)
set_versions version zero a versions i = ground arith
set_versions version (suc n) a versions i =
    ground (arith, set_versions version n (a + 1) (set_version version a versions) i)

-- The section is the one at a place of its table.
abbrev pub is_at : ℕ → ℕ → EitSection → Bool
is_at i j eit = segment_index eit == i && section_index eit == j

-- The section says that a place of its table is not used: the place lies behind the last segment, or
-- behind the last section of the section's own segment.
abbrev pub excuses : ℕ → ℕ → EitSection → Bool
excuses i j eit =
    ltb (last_segment_index eit) i || (segment_index eit == i && ltb (last_section_index eit) j)

pub collected-update :
    (s : TableProgress) (eit : EitSection) (i j : ℕ)
    → (update s eit).collected i j ≡ is_at i j eit || s.collected i j
unfolding update
collected-update s eit i j = refl

pub unused-update :
    (s : TableProgress) (eit : EitSection) (i j : ℕ)
    → i < num_segments
    → j < 8
    → (update s eit).unused i j ≡ excuses i j eit || s.unused i j
unfolding update
unused-update s eit i j hi hj =
    let seg = segment_index eit in
    let a = last_segment_index eit + 1 in
    let b = last_section_index eit + 1 in
    let m = for_range (num_segments - a) a set_byte s.unused in
    ground (arith, set_bits seg (8 - b) b m i j, set_bytes (num_segments - a) a s.unused i j)

pub collected-update_unused :
    (s : TableProgress) (hour i j : ℕ) → (update_unused s hour).collected i j ≡ s.collected i j
unfolding update_unused
collected-update_unused s hour i j = refl

pub unused-update_unused :
    (s : TableProgress) (hour i j : ℕ)
    → (update_unused s hour).unused i j ≡ ltb i (hour / 3) || s.unused i j
unfolding update_unused
unused-update_unused s hour i j = ground (arith, set_bytes (hour / 3) 0 s.unused i j)

pub unused-unuse : (s : TableProgress) (i j : ℕ) → i < num_segments → (unuse s).unused i j ≡ true
unfolding unuse
unused-unuse s i j hi = ground (arith, set_bytes num_segments 0 s.unused i j)

-- The flag of a table says what its bitmaps say.
abbrev pub IsCurrent : TableProgress → Type 0
IsCurrent s = s.completed ≡ check_completed s

pub update-IsCurrent : (s : TableProgress) (eit : EitSection) → IsCurrent (update s eit)
unfolding update check_completed
update-IsCurrent s eit = refl

pub update_unused-IsCurrent : (s : TableProgress) (hour : ℕ) → IsCurrent (update_unused s hour)
unfolding update_unused check_completed
update_unused-IsCurrent s hour = refl

pub new-IsCurrent : IsCurrent new
unfolding check_completed
new-IsCurrent = refl

pub reset-IsCurrent : (s : TableProgress) → IsCurrent (reset s)
unfolding reset check_completed
reset-IsCurrent s = refl

pub unuse-IsCurrent : (s : TableProgress) → IsCurrent (unuse s)
unfolding unuse check_completed
unuse-IsCurrent s =
    let s' = unuse s in
    sym (
      all_below_ext num_segments (λ i. all_below 8 (λ j. s'.collected i j || s'.unused i j))
        (λ i. true)
        (λ i hi.
          all_below_ext 8 (λ j. s'.collected i j || s'.unused i j) (λ j. true)
            (λ j hj. ground (arith, set_bytes num_segments 0 s.unused i j))))
