-- ===== src/PesPrinter/Frames.antt =====
-- What the parts of `PesPrinter` of src/pes_printer.hh do to its clocks.
use mirakc_arib.Prelude.{
  ℕ, ◌*◌, ◌^◌, ◌<◌, ◌≤◌, ◌≡◌, refl, Bool, true, false, not, Option, none, some, List, [], ◌∷◌, ℤ,
  All, lookup, put_sorted, contains, ltb, le→leb, ◌==◌, Returns, Returns-bind, Bool-cases,
  Option-cases, both, inl, inr, arith,
}
use mirakc_arib.Pcr.{max_pcr, max_pcr_ext}
use mirakc_arib.Clock.{
  Clock, is_ready, is_baseline_ready, pcr_to_time, baseline_pcr_to_time, update_pcr, update_time,
}
use mirakc_arib.Clock.Follow.{update_pcr_valid, update_time_valid}
use mirakc_arib.Tables.{Pat, Event, Eit, Tot, pid_null, pid_pat}
use mirakc_arib.PesPrinter.{
  PesPrinter, StreamType, Subject, pcr_of, pat_from, eit_of, print_line, print_pcr, handle_pcr,
  print_stamp, print_services, reset_states, handle_pat, print_events, handle_eit, update_times,
  handle_tot, is_nil,
}

-- The last PCR of each clock is in range.
abbrev pub AreValid : List (ℕ × Clock) → Type 0
AreValid clocks = All (λ entry. entry.1.last_pcr ≤ max_pcr) clocks

AreValid-lookup :
    (k : ℕ) (clocks : List (ℕ × Clock)) (clock : Clock)
    → AreValid clocks
    → lookup k clocks ≡ some clock
    → clock.last_pcr ≤ max_pcr
unfolding lookup
AreValid-lookup k [] clock h e = absurd cc
AreValid-lookup k ((j, c) ∷ clocks) clock h e = elim (Bool-cases (j == k)) [
  | inl here_ ↦
      let e' : some c ≡ some clock = simp here_ at e in
      let same_ : c ≡ clock = cc in rw (← same_) h.0
  | inr there_ ↦ AreValid-lookup k clocks clock h.1 (simp there_ at e)
]

pub AreValid-put :
    (k : ℕ) (clock : Clock) (clocks : List (ℕ × Clock))
    → clock.last_pcr ≤ max_pcr
    → AreValid clocks
    → AreValid (put_sorted k clock clocks)
unfolding put_sorted
AreValid-put k clock [] h hs = (h, tt)
AreValid-put k clock ((j, c) ∷ clocks) h hs =
    both AreValid (j == k) ((k, clock) ∷ clocks) _ (h, hs.1)
      (both AreValid (ltb k j) ((k, clock) ∷ (j, c) ∷ clocks) _ (h, hs)
        (hs.0, AreValid-put k clock clocks h hs.1))

abbrev pub IsValid : PesPrinter → Type 0
IsValid s = AreValid s.clock_map

to_time :
    (clock : Clock) (pcr : ℕ)
    → pcr ≤ max_pcr
    → is_ready clock ≡ true
    → Returns (λ time. Unit {0}) (pcr_to_time clock pcr)
unfolding pcr_to_time is_ready baseline_pcr_to_time
to_time clock pcr h ready =
    let base : is_baseline_ready clock.baseline ≡ true = ground arith in
    rw (le→leb pcr max_pcr h, base) tt

print_pcr-IsValid :
    (s : PesPrinter) (pcr_pid pcr : ℕ) (subject : Subject)
    → pcr ≤ max_pcr
    → IsValid s
    → Returns IsValid (print_pcr s pcr_pid pcr subject)
unfolding print_pcr print_line
print_pcr-IsValid s pcr_pid pcr subject le h = elim (Option-cases (lookup pcr_pid s.clock_map)) [
  | inl none_ ↦ rw (none_, le→leb pcr max_pcr le) h
  | inr (clock, some_) ↦ elim (Bool-cases (is_ready clock)) [
    | inr waits ↦ rw (some_, waits, le→leb pcr max_pcr le) h
    | inl ready ↦
        rw (some_, ready, le→leb pcr max_pcr le)
          (Returns-bind (λ time. Unit {0}) IsValid (pcr_to_time clock pcr) _
            (to_time clock pcr le ready) (λ time u. h))
  ]
]

pub handle_pcr-IsValid :
    (s : PesPrinter) (pid : ℕ) (pcr : Option ℕ)
    → ((value : ℕ) → pcr ≡ some value → value ≤ max_pcr)
    → IsValid s
    → Returns IsValid (handle_pcr s pid pcr)
unfolding handle_pcr
handle_pcr-IsValid s pid none le h = h
handle_pcr-IsValid s pid (some value) le h = elim (Option-cases (lookup pid s.clock_map)) [
  | inl none_ ↦ rw none_ h
  | inr (clock, some_) ↦ rw some_ (
      Returns-bind (λ c. c.last_pcr ≤ max_pcr) IsValid (update_pcr clock value) _
        (update_pcr_valid clock value (le value refl)
          (AreValid-lookup pid s.clock_map clock h some_))
        (λ clock' valid.
          print_pcr-IsValid (record s { clock_map = put_sorted pid clock' s.clock_map }) pid value
            (pcr_of pid) (le value refl) (AreValid-put pid clock' s.clock_map valid h)))
]

-- A PTS or a DTS has 33 bits.
pub print_stamp-IsValid :
    (s : PesPrinter) (pid stamp : ℕ) (subject : Option StreamType → Subject)
    → stamp < 2 ^ 33
    → IsValid s
    → Returns IsValid (print_stamp s pid stamp subject)
unfolding print_stamp
print_stamp-IsValid s pid stamp subject small h =
    let le : stamp * max_pcr_ext ≤ max_pcr = omega arith in
    rw (le→leb (stamp * max_pcr_ext) max_pcr le) (elim (Option-cases (lookup pid s.stream_map)) [
      | inl none_ ↦
          rw none_ (print_pcr-IsValid s pid_null (stamp * max_pcr_ext) (subject none) le h)
      | inr (info, some_) ↦
          rw some_ (
            print_pcr-IsValid s info.pcr_pid (stamp * max_pcr_ext) (subject (some info.type_)) le h)
    ])

print_services-frame :
    (taken : Bool) (pmts : List (ℕ × ℕ)) (s : PesPrinter)
    → (print_services taken pmts s).clock_map ≡ s.clock_map
unfolding print_services print_line
print_services-frame taken [] s = refl
print_services-frame true ((sid, pid) ∷ pmts) s = print_services-frame true pmts _
print_services-frame false ((sid, pid) ∷ pmts) s = print_services-frame false pmts _

print_events-frame :
    (events : List Event) (s : PesPrinter) → (print_events events s).clock_map ≡ s.clock_map
unfolding print_events print_line
print_events-frame [] s = refl
print_events-frame (event ∷ events) s = print_events-frame events _

update_times-AreValid :
    (local_time time : ℤ) (clocks : List (ℕ × Clock))
    → AreValid clocks
    → Returns AreValid (update_times local_time time clocks)
unfolding update_times
update_times-AreValid local_time time [] h = tt
update_times-AreValid local_time time ((pid, clock) ∷ clocks) h =
    Returns-bind (λ c. c.last_pcr ≤ max_pcr) AreValid (update_time clock local_time time) _
      (update_time_valid clock local_time time h.0)
      (λ clock' valid.
        Returns-bind AreValid AreValid (update_times local_time time clocks) _
          (update_times-AreValid local_time time clocks h.1) (λ clocks' valids. (valid, valids)))

pub handle_tot-IsValid :
    (local_time : ℤ) (s : PesPrinter) (t : Tot)
    → IsValid s
    → Returns IsValid (handle_tot local_time s t)
unfolding handle_tot print_line
handle_tot-IsValid local_time s t h = both (Returns IsValid) (not t.is_valid) _ _ h (
    Returns-bind AreValid IsValid (update_times local_time t.utc_time s.clock_map) _
      (update_times-AreValid local_time t.utc_time s.clock_map h) (λ clocks valid. valid))

pub handle_pat-frame : (s : PesPrinter) (t : Pat) → (handle_pat s t).clock_map ≡ s.clock_map
unfolding handle_pat reset_states print_line
handle_pat-frame s t =
    let P = λ (s' : PesPrinter). s'.clock_map ≡ s.clock_map in
    let shown = print_line (reset_states s) none none (pat_from t.source_pid) in
    let taken = print_services-frame true t.pmts shown in
    both P (not t.is_valid) s _ refl (
      both P (t.source_pid == pid_pat) _ (print_services false t.pmts shown)
        (both P (is_nil (print_services true t.pmts shown).pmt_pids) _
          (print_services true t.pmts shown) taken taken)
        (print_services-frame false t.pmts shown))

pub handle_eit-frame : (s : PesPrinter) (eit : Eit) → (handle_eit s eit).clock_map ≡ s.clock_map
unfolding handle_eit print_line
handle_eit-frame s eit =
    let P = λ (s' : PesPrinter). s'.clock_map ≡ s.clock_map in
    let shown = print_line s none none (eit_of eit.service_id) in
    both P (not eit.is_valid) s _ refl (
      both P (not (contains eit.service_id s.sids)) s (print_events eit.events shown) refl
        (print_events-frame eit.events shown))
