-- ===== src/EitProgress/View.antt =====
-- What `TableGroupProgress` of src/eit_collector.hh promises: its bitmaps stand for the sections and
-- the times that it was handed since the index of the last table changed.
use mirakc_arib.Prelude.{
  ℕ, ◌/◌, ◌<◌, ◌≡◌, Bool, true, false, ◌&&◌, ◌||◌, List, [], ◌∷◌, Option, none, some, ltb, ◌==◌,
  if◌then◌else◌, all_below, any, maybe,
}
use mirakc_arib.EitSection.{EitSection, table_index, last_table_index}
use mirakc_arib.EitProgress.{TableProgress, num_segments}
use mirakc_arib.EitProgress.Group
use mirakc_arib.EitProgress.Group.{
  TableGroupProgress, num_tables, change_table, check_consistency, restart, update_table, update,
  update_unused, is_completed, check_completed,
}
use mirakc_arib.EitProgress.Table.{is_at, excuses, IsCurrent}

-- What the collector hands on: a section of the schedule, or the hour of a TOT.
pub data Event : Type 0 where
  section : EitSection → Event
  time : ℕ → Event

-- The sections and the hours since the index of the last table changed, newest first.
pub record View : Type 0 where
  pub last : Option ℕ
  pub sections : List EitSection
  pub hours : List ℕ

abbrev pub empty_view : View
empty_view = record { last = none; sections = []; hours = [] }

abbrev pub is_last : Option ℕ → EitSection → Bool
is_last none eit = false
is_last (some last) eit = last == last_table_index eit

unfoldable pub extend : View → Event → View
extend v (section eit) =
    if is_last v.last eit
    then record v { sections = eit ∷ v.sections }
    else record { last = some (last_table_index eit); sections = eit ∷ []; hours = [] }
extend v (time hour) = record v { hours = hour ∷ v.hours }

unfoldable pub view : List Event → View
unfolding extend
view [] = empty_view
view (event ∷ events) = extend (view events) event

-- A section of the view has the place.
abbrev pub is_received : View → ℕ → ℕ → ℕ → Bool
is_received v t i j = any (λ eit. table_index eit == t && is_at i j eit) v.sections

-- The place is not to be expected: its table lies behind the last, a section of its table says so, or
-- it is in the past of the first table.
abbrev pub is_excused : View → ℕ → ℕ → ℕ → Bool
is_excused v t i j =
    maybe v.last false (λ last. ltb last t)
    || any (λ eit. table_index eit == t && excuses i j eit) v.sections
    || (0 == t && any (λ hour. ltb i (hour / 3)) v.hours)

-- Every place of a table is received or excused.
unfoldable pub is_table_complete : View → ℕ → Bool
is_table_complete v t =
    all_below num_segments (λ i. all_below 8 (λ j. is_received v t i j || is_excused v t i j))

-- No section came yet, or all places of the tables are received or excused.
unfoldable pub is_complete : View → Bool
is_complete v = maybe v.last true (λ last. all_below num_tables (is_table_complete v))

abbrev pub handle : TableGroupProgress → Event → TableGroupProgress
handle s (section eit) = update s eit
handle s (time hour) = update_unused s hour

-- The code's progress after the events, newest first.
unfoldable pub run : List Event → TableGroupProgress
run [] = Group.new
run (event ∷ events) = handle (run events) event

pub record Shows (tables : ℕ → TableProgress) (v : View) : Type 0 where
  pub received :
      (t i j : ℕ)
      → t < num_tables
      → i < num_segments
      → j < 8
      → (tables t).collected i j ≡ is_received v t i j
  pub excused :
      (t i j : ℕ)
      → t < num_tables
      → i < num_segments
      → j < 8
      → (tables t).unused i j ≡ is_excused v t i j
  pub current : (t : ℕ) → t < num_tables → IsCurrent (tables t)
