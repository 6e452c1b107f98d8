-- ===== src/Program/Times.antt =====
-- What the event times, the clock and the PAT do to the PCR range of `ProgramFilter`, in
-- src/program_filter.hh.
use mirakc_arib.Prelude.{
  ℕ, ◌≤◌, ◌≡◌, refl, ◌≢◌, Bool, true, false, not, ◌&&◌, none, some, List, [], ◌∷◌, ℤ, ◌==◌,
  if◌then◌else◌, lookup, Bool-cases, Option-cases, inl, inr, Returns, le→leb, both, arith,
}
use mirakc_arib.Pcr.{max_pcr, time_to_pcr}
use mirakc_arib.Pcr.Time.{time_to_pcr-lt}
use mirakc_arib.Tables.{
  add_pid, remove_pid, cat, nit_act, sdt_act, other, Pat, Event, Table, pat, pmt, tot, eit_pf_act,
  pid_pat, pid_null,
}
use mirakc_arib.Program.{
  ProgramFilter, need_clock_sync, convert_time_to_pcr, update_pcr_range, update_event_time,
  update_clock_pcr, update_clock_time, handle_pat,
}

-- The range is the event's times at the clock.
abbrev pub Computed : {S Z : Type 0} → ProgramFilter S Z → Type 0
Computed s =
    (s.start_pcr ≡ time_to_pcr s.clock_pcr s.clock_time s.event_start_time)
    × (s.end_pcr ≡ time_to_pcr s.clock_pcr s.clock_time s.event_end_time)

pub record InStep {S Z : Type 0} (s : ProgramFilter S Z) : Type 0 where
  pub clock_valid : s.clock_pcr ≤ max_pcr
  pub start_valid : s.start_pcr ≤ max_pcr
  pub end_valid : s.end_pcr ≤ max_pcr
  pub in_step :
      s.event_time_ready ≡ true → s.clock_time_ready ≡ true → s.clock_pcr_ready ≡ true → Computed s

-- Every usable PAT names the service, as `ServiceFilter` ensures.
abbrev pub Names : ℕ → List Table → Type 0
Names sid [] = Unit
Names sid (pat t ∷ ts) = (lookup sid t.pmts ≢ none) × Names sid ts
Names sid (t ∷ ts) = Names sid ts

-- In step, and in the state and with the option that it had.
abbrev pub Kept : {S Z : Type 0} → ProgramFilter S Z → ProgramFilter S Z → Type 0
Kept s s' = InStep s' × (s'.state ≡ s.state) × (s'.option ≡ s.option)

pub Names-split :
    (sid : ℕ) (t : Table) (ts : List Table) → Names sid (t ∷ ts) → Names sid (t ∷ []) × Names sid ts
Names-split sid (pat t) ts (a, b) = ((a, tt), b)
Names-split sid (pmt t) ts b = (tt, b)
Names-split sid (cat t) ts b = (tt, b)
Names-split sid (tot t) ts b = (tt, b)
Names-split sid (nit_act t) ts b = (tt, b)
Names-split sid (sdt_act t) ts b = (tt, b)
Names-split sid (eit_pf_act t) ts b = (tt, b)
Names-split sid other ts b = (tt, b)

module _ {S Z : Type 0} where
  update_pcr_range_lem :
      (s : ProgramFilter S Z)
      → s.event_time_ready ≡ true
      → s.clock_time_ready ≡ true
      → s.clock_pcr_ready ≡ true
      → s.clock_pcr ≤ max_pcr
      → Returns (Kept s) (update_pcr_range s)
  unfolding update_pcr_range convert_time_to_pcr
  update_pcr_range_lem s e t c v =
      let start_lt = time_to_pcr-lt s.clock_pcr s.clock_time s.event_start_time in
      let end_lt = time_to_pcr-lt s.clock_pcr s.clock_time s.event_end_time in
      rw e (
        rw c (
          rw t (
            rw (le→leb s.clock_pcr max_pcr v) (
              (
                record {
                  clock_valid = v;
                  start_valid = omega arith;
                  end_valid = omega arith;
                  in_step = λ _ _ _. (refl, refl);
                },
                refl,
                refl,
              )))))

  -- The test that each update ends with: the range is computed when all three are ready.
  update_if_ready :
      (s : ProgramFilter S Z) (a b : Bool)
      → s.clock_pcr ≤ max_pcr
      → s.start_pcr ≤ max_pcr
      → s.end_pcr ≤ max_pcr
      → (a && b ≡ true
          → (s.event_time_ready ≡ true) × (s.clock_time_ready ≡ true) × (s.clock_pcr_ready ≡ true))
      → (a && b ≡ false
          → s.event_time_ready ≡ true
          → s.clock_time_ready ≡ true
          → s.clock_pcr_ready ≡ true
          → Computed s)
      → Returns (Kept s) (if a && b then update_pcr_range s else some s)
  update_if_ready s a b c v w ready unready = elim (Bool-cases (a && b)) [
    | inl yes_ ↦ let (e, t, k) = ready yes_ in rw yes_ (update_pcr_range_lem s e t k c)
    | inr no_ ↦ rw no_ (
        (
          record { clock_valid = c; start_valid = v; end_valid = w; in_step = unready no_ },
          refl,
          refl,
        ))
  ]

  pub update_event_time_lem :
      (s : ProgramFilter S Z) (event : Event)
      → InStep s
      → Returns (Kept s) (update_event_time s event)
  unfolding update_event_time
  update_event_time_lem s event v =
      update_if_ready _ s.clock_time_ready s.clock_pcr_ready v.clock_valid v.start_valid v.end_valid
        (λ h. ground arith) (λ h e t k. absurd (ground arith))

  pub update_clock_pcr_lem :
      (s : ProgramFilter S Z) (pcr : ℕ)
      → InStep s
      → pcr ≤ max_pcr
      → need_clock_sync s ≡ true
      → Returns (Kept s) (update_clock_pcr s pcr)
  unfolding update_clock_pcr
  update_clock_pcr_lem s pcr v h need = rw need (
      update_if_ready _ s.event_time_ready s.clock_time_ready h v.start_valid v.end_valid
        (λ h. ground arith) (λ h e t k. absurd (ground arith)))

  pub update_clock_time_lem :
      (s : ProgramFilter S Z) (time : ℤ)
      → InStep s
      → s.clock_time_ready ≡ false
      → Returns (Kept s) (update_clock_time s time)
  unfolding update_clock_time
  update_clock_time_lem s time v unready = simp unready (
      update_if_ready _ s.event_time_ready s.clock_pcr_ready v.clock_valid v.start_valid v.end_valid
        (λ h. ground arith) (λ h e t k. absurd (ground arith)))

  pub same : (s : ProgramFilter S Z) → InStep s → Kept s s
  same s v = (v, refl, refl)

  pub handle_pat_lem :
      (s : ProgramFilter S Z) (t : Pat)
      → lookup s.option.sid t.pmts ≢ none
      → InStep s
      → Returns (Kept s) (handle_pat s t)
  unfolding handle_pat
  handle_pat_lem s t named v = elim (Option-cases (lookup s.option.sid t.pmts)) [
    | inl missing ↦ absurd (named missing)
    | inr (pid, found) ↦ rw found (
        let accepted : Kept s (record s {
          demux =
              add_pid pid
              ∷ (if s.pmt_pid == pid_null then s.demux else remove_pid s.pmt_pid ∷ s.demux);
          pmt_pid = pid;
        }) =
          (
            record {
              clock_valid = v.clock_valid;
              start_valid = v.start_valid;
              end_valid = v.end_valid;
              in_step = v.in_step;
            },
            refl,
            refl,
          ) in
        both (Returns (Kept s)) (not (t.source_pid == pid_pat)) _ _ (same s v) (
          both (Returns (Kept s)) (not t.is_valid) _ _ (same s v)
            (both (Returns (Kept s)) (t.ts_id == 0) _ _ (same s v) accepted)))
  ]

  pub stopped : (s : ProgramFilter S Z) → InStep s → Kept s (record s { stop = true })
  stopped s v = (
    record {
      clock_valid = v.clock_valid;
      start_valid = v.start_valid;
      end_valid = v.end_valid;
      in_step = v.in_step;
    },
    refl,
    refl,
  )
