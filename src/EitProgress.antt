-- ===== src/EitProgress.antt =====
-- `TableProgress` of src/eit_collector.hh: which sections of a table of an EIT schedule have been
-- collected and which are not used. A byte of a bitmap is its eight bits, an array a function of the
-- index. The log of `Show` is left out.
pub mod Group
pub mod Services
pub mod Table
pub mod Versions
pub mod Count
pub mod View
pub mod Log
pub mod Places
pub mod Kept
pub mod Sound
use mirakc_arib.Prelude.{
  ℕ, zero, suc, ◌+◌, ◌-◌, ◌/◌, Bool, true, false, not, ◌&&◌, ◌||◌, ltb, ◌==◌, if◌then◌else◌,
  for_range, all_below, sum_below,
}
use mirakc_arib.EitSection.{
  EitSection, segment_index, section_index, last_segment_index, last_section_index,
}

-- `kNumSegments`
abbrev pub num_segments : ℕ
num_segments = 32

abbrev pub Bitmap : Type 0
Bitmap = ℕ → ℕ → Bool

-- `m[i] |= 1 << j`
abbrev pub set_bit : ℕ → ℕ → Bitmap → Bitmap
set_bit i j m = λ i' j'. (i == i' && j == j') || m i' j'

-- `m[i] = 0xFF`
abbrev pub set_byte : ℕ → Bitmap → Bitmap
set_byte i m = λ i' j'. i == i' || m i' j'

-- `0xFF` in `section_versions_`: no version is stored.
abbrev pub no_version : ℕ
no_version = 0xFF

abbrev pub set_version : ℕ → ℕ → (ℕ → ℕ) → ℕ → ℕ
set_version version i versions = λ i'. if i == i' then version else versions i'

pub record TableProgress : Type 0 where
  pub collected : Bitmap
  pub unused : Bitmap
  pub section_versions : ℕ → ℕ
  pub completed : Bool

abbrev pub new : TableProgress
new = record {
  collected = λ i j. false;
  unused = λ i j. false;
  section_versions = λ i. no_version;
  completed = false;
}

unfoldable pub reset : TableProgress → TableProgress
reset s = record s { collected = λ i j. false; unused = λ i j. false; completed = false }

unfoldable pub unuse : TableProgress → TableProgress
unuse s = record s { unused = for_range num_segments 0 set_byte s.unused; completed = true }

-- `CheckCompleted`
unfoldable pub check_completed : TableProgress → Bool
check_completed s = all_below num_segments (λ i. all_below 8 (λ j. s.collected i j || s.unused i j))

unfoldable pub update : TableProgress → EitSection → TableProgress
update s eit =
    let segment = segment_index eit in
    let section = section_index eit in
    let last_segment = last_segment_index eit in
    let last_section = last_section_index eit in
    let segments =
      for_range (num_segments - (last_segment + 1)) (last_segment + 1) set_byte s.unused in
    let s' : TableProgress = record s {
      unused = for_range (8 - (last_section + 1)) (last_section + 1) (set_bit segment) segments;
      collected = set_bit segment section s.collected;
      section_versions =
          for_range (last_section + 1 - section) section (set_version eit.version)
            s.section_versions;
    } in
    record s' { completed = check_completed s' }

-- `UpdateUnused` at an hour of the day.
unfoldable pub update_unused : TableProgress → ℕ → TableProgress
update_unused s hour =
    let s' : TableProgress = record s { unused = for_range (hour / 3) 0 set_byte s.unused } in
    record s' { completed = check_completed s' }

-- The loop over the sections of the segment, from `i` for `n` rounds.
unfoldable pub check_versions : ℕ → ℕ → (ℕ → ℕ) → ℕ → Bool
check_versions zero i versions version = true
check_versions (suc n) i versions version =
    let rest = check_versions n (i + 1) versions version in
    if versions i == no_version then false else if not (versions i == version) then false else rest

unfoldable pub check_collected : TableProgress → EitSection → Bool
check_collected s eit =
    let section = section_index eit in
    check_versions (last_section_index eit - section) section s.section_versions eit.version
    && s.collected (segment_index eit) section

unfoldable pub count_sections : TableProgress → ℕ
count_sections s = sum_below num_segments (λ i. sum_below 8 (λ j. if s.collected i j then 1 else 0))

unfoldable pub calc_progress_count : TableProgress → ℕ
calc_progress_count s =
    sum_below num_segments
      (λ i. sum_below 8 (λ j. if s.collected i j || s.unused i j then 1 else 0))
