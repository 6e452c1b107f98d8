-- ===== src/EitProgress/Group.antt =====
-- `TableGroupProgress` of src/eit_collector.hh: the eight tables of the basic or of the extended
-- schedule of a service. The index of the last table is `none` for -1. The count of its changes is
-- kept for the log of `Show` alone.
use mirakc_arib.Prelude.{
  ℕ, ◌+◌, ◌-◌, Bool, true, false, not, Option, none, some, ◌==◌, if◌then◌else◌, for_range,
  all_below, sum_below, maybe,
}
use mirakc_arib.EitSection.{EitSection, table_index, last_table_index}
use mirakc_arib.EitProgress
use mirakc_arib.EitProgress.{TableProgress}

-- `kNumTables`
abbrev pub num_tables : ℕ
num_tables = 8

-- `tables_[t] = f(tables_[t])`
abbrev pub change_table :
    (TableProgress → TableProgress) → ℕ → (ℕ → TableProgress) → ℕ → TableProgress
change_table f t tables = λ u. if t == u then f (tables u) else tables u

pub record TableGroupProgress : Type 0 where
  pub tables : ℕ → TableProgress
  pub last_table_index : Option ℕ
  pub last_table_index_change_count : ℕ
  pub completed : Bool

abbrev pub new : TableGroupProgress
new = record {
  tables = λ t. EitProgress.new;
  last_table_index = none;
  last_table_index_change_count = 0;
  completed = false;
}

unfoldable pub check_completed : TableGroupProgress → Bool
check_completed s = all_below num_tables (λ t. (s.tables t).completed)

-- The result of `CheckConsistency`, with the count that it changes.
unfoldable pub check_consistency : TableGroupProgress → EitSection → TableGroupProgress × Bool
check_consistency s eit =
    maybe s.last_table_index (s, false)
      (λ last. if last == last_table_index eit then (s, true) else (
        record s { last_table_index_change_count = s.last_table_index_change_count + 1 },
        false,
      ))

-- What `Update` does when the index of the last table is new.
unfoldable pub restart : TableGroupProgress → EitSection → TableGroupProgress
restart s eit =
    let last = last_table_index eit in
    let tables = for_range num_tables 0 (change_table EitProgress.reset) s.tables in
    record s {
      tables =
          for_range (num_tables - (last + 1)) (last + 1) (change_table EitProgress.unuse) tables;
      completed = false;
    }

-- `Update` after the consistency check.
unfoldable pub update_table : TableGroupProgress → EitSection → TableGroupProgress
update_table s eit =
    let s' : TableGroupProgress = record s {
      tables = change_table (λ table. EitProgress.update table eit) (table_index eit) s.tables;
      last_table_index = some (last_table_index eit);
    } in
    record s' { completed = check_completed s' }

unfoldable pub update : TableGroupProgress → EitSection → TableGroupProgress
update s eit =
    let checked = check_consistency s eit in
    update_table (if checked.1 then checked.0 else restart checked.0 eit) eit

unfoldable pub update_unused : TableGroupProgress → ℕ → TableGroupProgress
update_unused s hour =
    let s' : TableGroupProgress = record s {
      tables = change_table (λ table. EitProgress.update_unused table hour) 0 s.tables;
    } in
    record s' { completed = check_completed s' }

unfoldable pub check_collected : TableGroupProgress → EitSection → Bool
check_collected s eit = maybe s.last_table_index false (λ last.
    if not (last == last_table_index eit)
    then false
    else EitProgress.check_collected (s.tables (table_index eit)) eit)

unfoldable pub is_completed : TableGroupProgress → Bool
is_completed s = maybe s.last_table_index true (λ last. s.completed)

unfoldable pub count_sections : TableGroupProgress → ℕ
count_sections s = sum_below num_tables (λ t. EitProgress.count_sections (s.tables t))
