-- ===== src/EitProgress/Sound.antt =====
-- What the flags `completed_` of src/eit_collector.hh stand for: in every state that the progress
-- comes to, a flag that is set is true of the bitmaps.
use mirakc_arib.Prelude.{
  ℕ, zero, suc, ◌+◌, ◌-◌, ◌⊎◌, ◌<◌, ◌≡◌, refl, sym, ◌∙◌, true, ◌||◌, ◌==◌, none, all_below,
  all_below_at, all_below_monotone, for_range, Bool-cases, Option-cases, inl, inr, arith,
}
use mirakc_arib.EitSection.{EitSection, table_index, last_table_index}
use mirakc_arib.EitProgress
use mirakc_arib.EitProgress.{TableProgress, num_segments}
use mirakc_arib.EitProgress.Group
use mirakc_arib.EitProgress.Group.{
  TableGroupProgress, num_tables, change_table, update_table, restart, check_consistency,
}
use mirakc_arib.EitProgress.Table.{
  IsCurrent, update-IsCurrent, update_unused-IsCurrent, reset-IsCurrent, unuse-IsCurrent,
  new-IsCurrent, collected-update_unused, unused-update_unused,
}

-- Every section of a table is received or excused.
abbrev pub IsDone : TableProgress → Type 0
IsDone s = (i j : ℕ) → i < num_segments → j < 8 → s.collected i j || s.unused i j ≡ true

IsCurrent-IsDone : (s : TableProgress) → IsCurrent s → s.completed ≡ true → IsDone s
unfolding EitProgress.check_completed
IsCurrent-IsDone s current completed i j hi hj =
    all_below_at 8 (λ k. s.collected i k || s.unused i k) j
      (all_below_at num_segments (λ l. all_below 8 (λ k. s.collected l k || s.unused l k)) i
        (sym current ∙ completed) hi)
      hj

table_stays_completed :
    (s : TableProgress) (hour : ℕ)
    → IsCurrent s
    → s.completed ≡ true
    → (EitProgress.update_unused s hour).completed ≡ true
unfolding EitProgress.check_completed
table_stays_completed s hour current completed =
    let s' = EitProgress.update_unused s hour in
    update_unused-IsCurrent s hour
    ∙ all_below_monotone num_segments (λ i. all_below 8 (λ j. s.collected i j || s.unused i j))
        (λ i. all_below 8 (λ j. s'.collected i j || s'.unused i j))
        (λ i hi.
          all_below_monotone 8 (λ j. s.collected i j || s.unused i j)
            (λ j. s'.collected i j || s'.unused i j)
            (λ j hj.
              ground (arith, collected-update_unused s hour i j, unused-update_unused s hour i j)))
        (sym current ∙ completed)

-- The flags of a group are those of its bitmaps.
abbrev pub IsSoundGroup : TableGroupProgress → Type 0
IsSoundGroup s = ((t : ℕ) → IsCurrent (s.tables t)) × (s.completed ≡ Group.check_completed s)

change_table-IsCurrent :
    (f : TableProgress → TableProgress) (t : ℕ) (tables : ℕ → TableProgress)
    → ((table : TableProgress) → IsCurrent table → IsCurrent (f table))
    → ((u : ℕ) → IsCurrent (tables u))
    → (u : ℕ) → IsCurrent (change_table f t tables u)
change_table-IsCurrent f t tables keeps current u = elim (Bool-cases (t == u)) [
  | inl here ↦ rw here (keeps (tables u) (current u))
  | inr other ↦ rw other (current u)
]

for_range-IsCurrent :
    (f : TableProgress → TableProgress) (n t : ℕ) (tables : ℕ → TableProgress)
    → ((table : TableProgress) → IsCurrent table → IsCurrent (f table))
    → ((u : ℕ) → IsCurrent (tables u))
    → (u : ℕ) → IsCurrent (for_range n t (change_table f) tables u)
for_range-IsCurrent f zero t tables keeps current = current
for_range-IsCurrent f (suc n) t tables keeps current =
    for_range-IsCurrent f n (t + 1) (change_table f t tables) keeps
      (change_table-IsCurrent f t tables keeps current)

restart-IsCurrent :
    (s : TableGroupProgress) (eit : EitSection)
    → ((t : ℕ) → IsCurrent (s.tables t))
    → (t : ℕ) → IsCurrent ((restart s eit).tables t)
unfolding restart
restart-IsCurrent s eit current =
    let last = last_table_index eit in
    let tables = for_range num_tables 0 (change_table EitProgress.reset) s.tables in
    for_range-IsCurrent EitProgress.unuse (num_tables - (last + 1)) (last + 1) tables
      (λ table _. unuse-IsCurrent table)
      (for_range-IsCurrent EitProgress.reset num_tables 0 s.tables
        (λ table _. reset-IsCurrent table) current)

update_table-IsSound :
    (s : TableGroupProgress) (eit : EitSection)
    → ((t : ℕ) → IsCurrent (s.tables t))
    → IsSoundGroup (update_table s eit)
unfolding update_table Group.check_completed
update_table-IsSound s eit current = (
  change_table-IsCurrent (λ table. EitProgress.update table eit) (table_index eit) s.tables
      (λ table _. update-IsCurrent table eit) current,
  refl,
)

consistency-tables :
    (s : TableGroupProgress) (eit : EitSection) → (check_consistency s eit).0.tables ≡ s.tables
unfolding check_consistency
consistency-tables s eit = elim (Option-cases s.last_table_index) [
  | inl none_ ↦ simp none_ refl
  | inr (last, some_) ↦ elim (Bool-cases (last == last_table_index eit)) [
    | inl same ↦ simp (some_, same) refl
    | inr new_ ↦ simp (some_, new_) refl
  ]
]

pub group_update-IsSound :
    (s : TableGroupProgress) (eit : EitSection) → IsSoundGroup s → IsSoundGroup (Group.update s eit)
unfolding Group.update
group_update-IsSound s eit sound =
    let checked = check_consistency s eit in
    let current : (t : ℕ) → IsCurrent (checked.0.tables t) =
      rw (consistency-tables s eit) sound.0 in
    elim (Bool-cases checked.1) [
      | inl kept ↦ rw kept (update_table-IsSound checked.0 eit current)
      | inr changed ↦ rw changed (
          update_table-IsSound (restart checked.0 eit) eit
            (restart-IsCurrent checked.0 eit current))
    ]

pub group_unused-IsSound :
    (s : TableGroupProgress) (hour : ℕ) → IsSoundGroup s → IsSoundGroup (Group.update_unused s hour)
unfolding Group.update_unused Group.check_completed
group_unused-IsSound s hour sound = (
  change_table-IsCurrent (λ table. EitProgress.update_unused table hour) 0 s.tables
      (λ table _. update_unused-IsCurrent table hour) sound.0,
  refl,
)

pub group_stays_completed :
    (s : TableGroupProgress) (hour : ℕ)
    → IsSoundGroup s
    → Group.is_completed s ≡ true
    → Group.is_completed (Group.update_unused s hour) ≡ true
unfolding Group.is_completed Group.update_unused Group.check_completed
group_stays_completed s hour sound completed = elim (Option-cases s.last_table_index) [
  | inl none_ ↦ rw none_ refl
  | inr (last, some_) ↦
      let whole = sym sound.1 ∙ rw some_ at completed in
      rw some_ (
        all_below_monotone num_tables (λ t. (s.tables t).completed)
          (λ t.
            (change_table (λ table. EitProgress.update_unused table hour) 0 s.tables t).completed)
          (λ t ht done. elim (Bool-cases (0 == t)) [
            | inl first ↦ rw first (table_stays_completed (s.tables t) hour (sound.0 t) done)
            | inr other ↦ rw other done
          ])
          whole)
]

-- A group of which a section has been seen has every section of every table received or excused.
abbrev pub IsDoneGroup : TableGroupProgress → Type 0
IsDoneGroup s = (s.last_table_index ≡ none) ⊎ ((t : ℕ) → t < num_tables → IsDone (s.tables t))

pub IsSoundGroup-IsDone :
    (s : TableGroupProgress) → IsSoundGroup s → Group.is_completed s ≡ true → IsDoneGroup s
unfolding Group.is_completed Group.check_completed
IsSoundGroup-IsDone s sound completed = elim (Option-cases s.last_table_index) [
  | inl none_ ↦ inl none_
  | inr (last, some_) ↦
      let whole = sym sound.1 ∙ rw some_ at completed in
      inr (λ t ht.
        IsCurrent-IsDone (s.tables t) (sound.0 t)
          (all_below_at num_tables (λ u. (s.tables u).completed) t whole ht))
]

pub new-IsSoundGroup : IsSoundGroup Group.new
unfolding Group.check_completed
new-IsSoundGroup = ((λ t. new-IsCurrent), refl)
