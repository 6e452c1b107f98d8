-- ===== src/EitProgress/Log.antt =====
-- `TableGroupProgress` of src/eit_collector.hh keeps what its view promises.
use mirakc_arib.Prelude.{
  ℕ, zero, suc, ◌+◌, ◌-◌, ◌<◌, ◌≡◌, refl, sym, ap, ◌∙◌, true, false, ◌&&◌, ◌||◌, List, [], ◌∷◌,
  Option, none, some, ltb, leb, ◌==◌, ==_iff, if◌then◌else◌, for_range, all_below, all_below_ext,
  Bool-cases, both, Option-cases, inl, inr, arith,
}
use mirakc_arib.EitSection.{EitSection, last_table_index}
use mirakc_arib.EitProgress
use mirakc_arib.EitProgress.{TableProgress, num_segments}
use mirakc_arib.EitProgress.Group.{
  TableGroupProgress, num_tables, change_table, check_consistency, restart, update_table, update,
  update_unused, is_completed, check_completed,
}
use mirakc_arib.EitProgress.Table.{
  IsCurrent, collected-update, unused-update, collected-update_unused, unused-update_unused,
  unused-unuse, update-IsCurrent, update_unused-IsCurrent, new-IsCurrent, reset-IsCurrent,
  unuse-IsCurrent,
}
use mirakc_arib.EitProgress.View.{
  Event, section, time, View, is_last, extend, view, is_received, is_excused, is_table_complete,
  is_complete, run, Shows,
}

change_tables :
    (f : TableProgress → TableProgress) (n a : ℕ) (tables : ℕ → TableProgress) (t : ℕ)
    → for_range n a (change_table f) tables t
      ≡ (if leb a t && ltb t (a + n) then f (tables t) else tables t)
change_tables f zero a tables t = ground arith
change_tables f (suc n) a tables t =
    ground (arith, change_tables f n (a + 1) (change_table f a tables) t)

restarted :
    (s : TableGroupProgress) (eit : EitSection) (t : ℕ)
    → t < num_tables
    → (restart s eit).tables t ≡ (
        if ltb (last_table_index eit) t
        then EitProgress.unuse (EitProgress.reset (s.tables t))
        else EitProgress.reset (s.tables t))
unfolding restart
restarted s eit t ht =
    let last = last_table_index eit in
    let tables = for_range num_tables 0 (change_table EitProgress.reset) s.tables in
    change_tables EitProgress.unuse (num_tables - (last + 1)) (last + 1) tables t
    ∙ ground (arith, change_tables EitProgress.reset num_tables 0 s.tables t)

pub restart-Shows :
    (s : TableGroupProgress) (eit : EitSection)
    → Shows
        (restart s eit).tables
        (record { last = some (last_table_index eit); sections = []; hours = [] })
unfolding EitProgress.reset EitProgress.unuse
restart-Shows s eit = record {
  received = λ t i j ht hi hj.
      ap (λ table. table.collected i j) (restarted s eit t ht)
      ∙ both (λ (table : TableProgress). table.collected i j ≡ false) (ltb (last_table_index eit) t)
          _ _ refl refl;
  excused = λ t i j ht hi hj.
      ap (λ table. table.unused i j) (restarted s eit t ht)
      ∙ ground (arith, unused-unuse (EitProgress.reset (s.tables t)) i j hi);
  current = λ t ht. rw (restarted s eit t ht) (
      both IsCurrent (ltb (last_table_index eit) t) _ _
        (unuse-IsCurrent (EitProgress.reset (s.tables t))) (reset-IsCurrent (s.tables t)));
}

update_table-Shows :
    (s : TableGroupProgress) (v : View) (eit : EitSection)
    → Shows s.tables v
    → Shows (update_table s eit).tables (record v { sections = eit ∷ v.sections })
unfolding update_table
update_table-Shows s v eit h = record {
  received = λ t i j ht hi hj.
      ground (arith, collected-update (s.tables t) eit i j, h.received t i j ht hi hj);
  excused = λ t i j ht hi hj.
      ground (arith, unused-update (s.tables t) eit i j hi hj, h.excused t i j ht hi hj);
  current = λ t ht. ground (arith, h.current t ht, update-IsCurrent (s.tables t) eit);
}

update_unused-Shows :
    (s : TableGroupProgress) (v : View) (hour : ℕ)
    → Shows s.tables v
    → Shows (update_unused s hour).tables (record v { hours = hour ∷ v.hours })
unfolding update_unused
update_unused-Shows s v hour h = record {
  received = λ t i j ht hi hj.
      ground (arith, collected-update_unused (s.tables t) hour i j, h.received t i j ht hi hj);
  excused = λ t i j ht hi hj.
      ground (arith, unused-update_unused (s.tables t) hour i j, h.excused t i j ht hi hj);
  current = λ t ht. ground (arith, h.current t ht, update_unused-IsCurrent (s.tables t) hour);
}

-- The code's state stands for the view.
pub record Related (s : TableGroupProgress) (v : View) : Type 0 where
  pub last : s.last_table_index ≡ v.last
  pub tables : Shows s.tables v
  pub completed : s.completed ≡ check_completed s

pub update-kept :
    (s : TableGroupProgress) (eit : EitSection)
    → is_last s.last_table_index eit ≡ true
    → update s eit ≡ update_table s eit
unfolding update check_consistency
update-kept s eit kept = elim (Option-cases s.last_table_index) [
  | inl none_ ↦ absurd (ground (arith, kept))
  | inr (last, some_) ↦
      let kept' : (last == last_table_index eit) ≡ true = simp some_ at kept in
      simp (some_, kept') refl
]

pub update-changed :
    (s : TableGroupProgress) (eit : EitSection)
    → is_last s.last_table_index eit ≡ false
    → (update s eit).tables ≡ (update_table (restart s eit) eit).tables
unfolding update check_consistency update_table restart
update-changed s eit changed = elim (Option-cases s.last_table_index) [
  | inl none_ ↦ simp none_ refl
  | inr (last, some_) ↦
      let changed' : (last == last_table_index eit) ≡ false = simp some_ at changed in
      simp (some_, changed') refl
]

update-Shows :
    (s : TableGroupProgress) (v : View) (eit : EitSection)
    → Related s v
    → Shows (update s eit).tables (extend v (section eit))
unfolding extend
update-Shows s v eit h = elim (Bool-cases (is_last v.last eit)) [
  | inl kept ↦
      rw (kept, update-kept s eit (ap (λ l. is_last l eit) h.last ∙ kept))
        (update_table-Shows s v eit h.tables)
  | inr changed ↦
      rw (changed, update-changed s eit (ap (λ l. is_last l eit) h.last ∙ changed))
        (update_table-Shows (restart s eit) _ eit (restart-Shows s eit))
]

last_of_is_last :
    (o : Option ℕ) (eit : EitSection) → is_last o eit ≡ true → o ≡ some (last_table_index eit)
last_of_is_last none eit h = absurd cc
last_of_is_last (some last) eit h = ap some ((==_iff last (last_table_index eit)).0 h)

extend-last :
    (v : View) (eit : EitSection) → (extend v (section eit)).last ≡ some (last_table_index eit)
unfolding extend
extend-last v eit = elim (Bool-cases (is_last v.last eit)) [
  | inl kept ↦ rw kept (last_of_is_last v.last eit kept)
  | inr changed ↦ rw changed refl
]

update-Related :
    (s : TableGroupProgress) (v : View) (eit : EitSection)
    → Related s v
    → Related (update s eit) (extend v (section eit))
unfolding update update_table check_completed
update-Related s v eit h = record {
  last = sym (extend-last v eit);
  tables = update-Shows s v eit h;
  completed = refl;
}

update_unused-Related :
    (s : TableGroupProgress) (v : View) (hour : ℕ)
    → Related s v
    → Related (update_unused s hour) (extend v (time hour))
unfolding update_unused check_completed extend
update_unused-Related s v hour h = record {
  last = h.last;
  tables = update_unused-Shows s v hour h.tables;
  completed = refl;
}

run-Related : (events : List Event) → Related (run events) (view events)
unfolding run view check_completed
run-Related [] = record {
  last = refl;
  tables = record {
    received = λ t i j ht hi hj. refl;
    excused = λ t i j ht hi hj. ground arith;
    current = λ t ht. new-IsCurrent;
  };
  completed = refl;
}
run-Related (section eit ∷ events) =
    update-Related (run events) (view events) eit (run-Related events)
run-Related (time hour ∷ events) =
    update_unused-Related (run events) (view events) hour (run-Related events)

table_completed :
    (s : TableGroupProgress) (v : View)
    → Related s v
    → (t : ℕ) → t < num_tables
    → (s.tables t).completed ≡ is_table_complete v t
unfolding EitProgress.check_completed is_table_complete
table_completed s v h t ht =
    h.tables.current t ht
    ∙ all_below_ext num_segments
        (λ i. all_below 8 (λ j. (s.tables t).collected i j || (s.tables t).unused i j))
        (λ i. all_below 8 (λ j. is_received v t i j || is_excused v t i j))
        (λ i hi.
          all_below_ext 8 (λ j. (s.tables t).collected i j || (s.tables t).unused i j)
            (λ j. is_received v t i j || is_excused v t i j)
            (λ j hj.
              ground (arith, h.tables.received t i j ht hi hj, h.tables.excused t i j ht hi hj)))

is_completed-is_complete :
    (s : TableGroupProgress) (v : View) → Related s v → is_completed s ≡ is_complete v
unfolding is_completed is_complete check_completed
is_completed-is_complete s v h =
    let flag : s.completed ≡ all_below num_tables (is_table_complete v) =
      h.completed
      ∙ all_below_ext num_tables (λ t. (s.tables t).completed) (is_table_complete v)
          (table_completed s v h) in
    rw (h.last, flag) refl

-- After any sections and hours, in any order, a bit of the code's bitmaps is set exactly if the place
-- was received, or excused, since the index of the last table changed, and the group counts as
-- complete exactly if every place of that view is received or excused, or no section came at all.
pub run_refines :
    (events : List Event) (t i j : ℕ)
    → t < num_tables
    → i < num_segments
    → j < 8
    → let s = run events in
      let v = view events in
      (s.last_table_index ≡ v.last)
      × ((s.tables t).collected i j ≡ is_received v t i j)
      × ((s.tables t).unused i j ≡ is_excused v t i j)
      × (is_completed s ≡ is_complete v)
run_refines events t i j ht hi hj =
    let h = run-Related events in
    (
      h.last,
      h.tables.received t i j ht hi hj,
      h.tables.excused t i j ht hi hj,
      is_completed-is_complete (run events) (view events) h,
    )
