-- ===== src/Clock/Follow.antt =====
-- How `Clock` of src/base.hh follows the PCRs of a stream.
use mirakc_arib.Prelude.{
  ℕ, ◌+◌, ◌/◌, ◌%◌, ◌≤◌, ◌<◌, ◌≡◌, refl, ap, ◌∙◌, true, false, Option, some, List, [], ◌∷◌, ℤ, pos,
  sub_ℕ, ◌+ℤ◌, ltb, leb, ◌>>=◌, Bool-cases, inl, inr, Returns, Returns-some, Returns-bind, both,
  le→leb, arith,
}
use mirakc_arib.Pcr.{max_pcr, pcr_upper_bound, pcr_ticks_per_sec, pcr_ticks_per_ms}
use mirakc_arib.Clock.{
  Clock, quot, is_baseline_ready, baseline_pcr_to_time, set_baseline_pcr, set_baseline_time,
  is_ready, unwrapped, now, sync_pcr, update_time, compute_delta, invalidate, take_pcr, count_gap,
  update_pcr, pcr_gap_count_threshold,
}

-- The clock is ready at `time`, and `elapsed` ticks have passed since the baseline.
pub record Follows (time : ℤ) (elapsed : ℕ) (c : Clock) : Type 0 where
  pub running : is_ready c ≡ true
  pub at_time : c.baseline.time ≡ time
  pub last_valid : c.last_pcr < pcr_upper_bound
  pub ahead : unwrapped c ≡ c.baseline.pcr + elapsed
  pub base_valid : c.baseline.pcr < pcr_upper_bound

-- The PCR that comes `d` ticks after the last one.
abbrev pub advance : Clock → ℕ → Option Clock
advance c d = update_pcr c ((c.last_pcr + d) % pcr_upper_bound)

abbrev pub advance_all : Clock → List ℕ → Option Clock
advance_all c [] = some c
advance_all c (d ∷ ds) = advance c d >>= λ c'. advance_all c' ds

abbrev pub total : List ℕ → ℕ
total [] = 0
total (d ∷ ds) = d + total ds

abbrev pub Small : List ℕ → Type 0
Small [] = Unit
Small (d ∷ ds) = (d < pcr_ticks_per_sec) × Small ds

delta_lem :
    (last d : ℕ)
    → last < pcr_upper_bound
    → d < pcr_ticks_per_sec
    → compute_delta ((last + d) % pcr_upper_bound) last ≡ d
unfolding compute_delta
delta_lem last d h k = ground arith

advance-Follows :
    (time : ℤ) (elapsed d : ℕ) (c : Clock)
    → Follows time elapsed c
    → d < pcr_ticks_per_sec
    → elapsed + d ≤ pcr_upper_bound
    → Returns (Follows time (elapsed + d)) (advance c d)
unfolding update_pcr take_pcr is_ready unwrapped
advance-Follows time elapsed d c f h k =
    let pcr = (c.last_pcr + d) % pcr_upper_bound in
    let small : leb pcr_ticks_per_sec (compute_delta pcr c.last_pcr) ≡ false =
      rw (delta_lem c.last_pcr d f.last_valid h) (ground arith) in
    let valid : leb pcr max_pcr ≡ true = ground arith in
    let both_ : (c.ready ≡ true) × (is_baseline_ready c.baseline ≡ true) =
      ground (arith, f.running) in
    rw valid (
      rw f.running (
        rw small (
          rw both_.1 (record {
            running = both_.1;
            at_time = f.at_time;
            last_valid = omega arith;
            ahead = ground (arith, f.ahead);
            base_valid = f.base_valid;
          }))))

advance_all-Follows :
    (time : ℤ) (elapsed : ℕ) (ds : List ℕ) (c : Clock)
    → Follows time elapsed c
    → Small ds
    → elapsed + total ds ≤ pcr_upper_bound
    → Returns (Follows time (elapsed + total ds)) (advance_all c ds)
advance_all-Follows time elapsed [] c f small k =
    let none_more : elapsed + 0 ≡ elapsed = omega arith in rw none_more f
advance_all-Follows time elapsed (d ∷ ds) c f small k =
    Returns-bind (Follows time (elapsed + d)) (Follows time (elapsed + total (d ∷ ds))) _ _
      (advance-Follows time elapsed d c f small.0 (omega arith))
      (λ c' f'.
        let rest = advance_all-Follows time (elapsed + d) ds c' f' small.1 (omega arith) in
        let sum : elapsed + (d + total ds) ≡ elapsed + d + total ds = omega arith in rw sum rest)

now-Follows :
    (time : ℤ) (elapsed : ℕ) (local_time : ℤ) (c : Clock)
    → Follows time elapsed c
    → now c local_time ≡ some (time +ℤ pos (elapsed / pcr_ticks_per_ms))
unfolding now baseline_pcr_to_time quot
now-Follows time elapsed local_time c f =
    let behind : sub_ℕ (unwrapped c) c.baseline.pcr ≡ pos elapsed = ground (arith, f.ahead) in
    let based : is_baseline_ready c.baseline ≡ true =
      unfold is_ready in ground (arith, f.running) in
    let read : baseline_pcr_to_time c.baseline (unwrapped c)
        ≡ some (time +ℤ pos (elapsed / pcr_ticks_per_ms)) =
      rw based (rw behind (rw f.at_time refl)) in
    rw f.running (elim (Bool-cases c.pcr_wrap_around) [
      | inl wrapped ↦
          let positive : ltb 0 (unwrapped c) ≡ true = unfold unwrapped in ground arith in
          simp wrapped (rw positive read)
      | inr straight ↦ simp straight read
    ])

update_time-Follows :
    (c : Clock) (local_time time : ℤ)
    → c.ready ≡ true
    → c.last_pcr < pcr_upper_bound
    → Returns (Follows time 0) (update_time c local_time time)
unfolding update_time sync_pcr set_baseline_pcr set_baseline_time is_ready is_baseline_ready
    unwrapped
update_time-Follows c local_time time ready valid = rw ready (
    rw (le→leb c.last_pcr max_pcr (omega arith)) (record {
      running = refl;
      at_time = refl;
      last_valid = valid;
      ahead = omega arith;
      base_valid = valid;
    }))

-- After a TOT with `time` on a clock that has seen a PCR, the last one valid, and then PCRs that
-- are each less than a second ahead of the one before and together no more than one turn of the
-- counter, wrapped or not, no assertion fails and the clock reads `time` plus the milliseconds of
-- all the ticks since, whatever the local time is.
pub now_after :
    (c : Clock) (local_time later_local_time time : ℤ) (ds : List ℕ)
    → c.ready ≡ true
    → c.last_pcr < pcr_upper_bound
    → Small ds
    → total ds ≤ pcr_upper_bound
    → ((update_time c local_time time >>= λ c'. advance_all c' ds) >>= λ c'.
        now c' later_local_time)
      ≡ some (time +ℤ pos (total ds / pcr_ticks_per_ms))
now_after c local_time later_local_time time ds ready valid small k =
    let (c', e, f) =
      Returns-some (Follows time 0) _ (update_time-Follows c local_time time ready valid) in
    let (c'', e', f') =
      Returns-some (Follows time (0 + total ds)) _
        (advance_all-Follows time 0 ds c' f small (omega arith)) in
    rw e (
      rw e' (
        now-Follows time (0 + total ds) later_local_time c'' f'
        ∙ ap (λ (n : ℕ). some (time +ℤ pos (n / pcr_ticks_per_ms))) (omega arith)))

take_pcr_valid :
    (c : Clock) (pcr : ℕ) → pcr ≤ max_pcr → Returns (λ c'. c'.last_pcr ≤ max_pcr) (take_pcr c pcr)
unfolding take_pcr sync_pcr set_baseline_pcr
take_pcr_valid c pcr valid =
    let P = λ (c' : Clock). c'.last_pcr ≤ max_pcr in
    both (Returns P) (is_baseline_ready c.baseline) _ _ valid (rw (le→leb pcr max_pcr valid) valid)

-- A valid PCR is taken or refused without an abort, and the last PCR stays valid.
pub update_pcr_valid :
    (c : Clock) (pcr : ℕ)
    → pcr ≤ max_pcr
    → c.last_pcr ≤ max_pcr
    → Returns (λ c'. c'.last_pcr ≤ max_pcr) (update_pcr c pcr)
unfolding update_pcr count_gap invalidate
update_pcr_valid c pcr valid last =
    let P = λ (c' : Clock). c'.last_pcr ≤ max_pcr in
    let counted = record c { pcr_gap_count = (c.pcr_gap_count + 1) % 256 } in
    rw (le→leb pcr max_pcr valid) (
      both (Returns P) (is_ready c) _ _
        (both (Returns P) (leb pcr_ticks_per_sec (compute_delta pcr c.last_pcr)) _ _
          (both P (leb counted.pcr_gap_count pcr_gap_count_threshold) _ _ last (omega arith))
          (taken (record c { pcr_gap_count = 0 })))
        (taken c))
  where
    taken : (c' : Clock) → Returns (λ c''. c''.last_pcr ≤ max_pcr) (take_pcr c' pcr)
    taken c' = take_pcr_valid c' pcr valid

pub update_time_valid :
    (c : Clock) (local_time time : ℤ)
    → c.last_pcr ≤ max_pcr
    → Returns (λ c'. c'.last_pcr ≤ max_pcr) (update_time c local_time time)
unfolding update_time sync_pcr set_baseline_pcr set_baseline_time
update_time_valid c local_time time last =
    let P = λ (c' : Clock). c'.last_pcr ≤ max_pcr in
    both (Returns P) c.ready _ _ (rw (le→leb c.last_pcr max_pcr last) last) last
