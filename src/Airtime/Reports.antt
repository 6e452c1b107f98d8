-- ===== src/Airtime/Reports.antt =====
-- What `AirtimeTracker` of src/airtime_tracker.hh reports, and when it stops.
use mirakc_arib.Prelude.{
  ℕ, ◌≡◌, refl, sym, ap, ◌∙◌, Bool, true, false, not, ◌&&◌, ◌||◌, List, [], ◌∷◌, ◌++◌, append-nil,
  append_assoc, map, select, take, ◌==◌, if◌then◌else◌, Bool-cases, inl, inr, arith,
}
use mirakc_arib.Tables.{Event, Eit, Table, eit_pf_act, pat, cat, pmt, nit_act, sdt_act, tot, other}
use mirakc_arib.Airtime.{
  EventInfo, AirtimeTracker, event_info, write_event_info, handle_events, handle_eit, handle_table,
  feed_packet, handle_packet,
}

-- The valid EITs of the service among the tables.
abbrev pub eits_of : ℕ → List Table → List Eit
eits_of sid [] = []
eits_of sid (eit_pf_act eit ∷ ts) =
    if eit.is_valid && (eit.service_id == sid) then eit ∷ eits_of sid ts else eits_of sid ts
eits_of sid (t ∷ ts) = eits_of sid ts

-- The event, if it is the present or the following one, as a list of at most one.
abbrev pub sought : ℕ → Eit → List Event
sought eid eit = take 1 (select (λ event. event.event_id == eid) (take 2 eit.events))

abbrev pub reports : ℕ → List Eit → List EventInfo
reports eid [] = []
reports eid (eit ∷ eits) = map (event_info eit) (sought eid eit) ++ reports eid eits

abbrev pub is_none_sought : List Event → Bool
is_none_sought [] = true
is_none_sought (event ∷ events) = false

-- Some EIT lacks the event.
abbrev pub is_missing : ℕ → List Eit → Bool
is_missing eid [] = false
is_missing eid (eit ∷ eits) = is_none_sought (sought eid eit) || is_missing eid eits

abbrev Reported : AirtimeTracker → List EventInfo → Bool → AirtimeTracker → Type 0
Reported s infos missing s' =
    (s'.documents ≡ s.documents ++ infos) × (s'.done ≡ s.done || missing) × (s'.option ≡ s.option)

lacking : (s : AirtimeTracker) → Reported s [] true (record s { done = true })
lacking s = (sym (append-nil s.documents), ground arith, refl)

handle_events_lem :
    (s : AirtimeTracker) (eit : Eit) (events : List Event)
    → let found = take 1 (select (λ event. event.event_id == s.option.eid) (take 2 events)) in
      Reported s (map (event_info eit) found) (is_none_sought found) (handle_events s eit events)
unfolding handle_events write_event_info
handle_events_lem s eit [] = lacking s
handle_events_lem s eit (present ∷ []) = elim (Bool-cases (present.event_id == s.option.eid)) [
  | inl hit ↦ simp hit (refl, ground arith, refl)
  | inr miss ↦ simp miss (lacking s)
]
handle_events_lem s eit (present ∷ following ∷ events) =
    elim (Bool-cases (present.event_id == s.option.eid)) [
      | inl hit ↦ simp hit (refl, ground arith, refl)
      | inr miss ↦ elim (Bool-cases (following.event_id == s.option.eid)) [
        | inl hit ↦ simp (miss, hit) (refl, ground arith, refl)
        | inr miss' ↦ simp (miss, miss') (lacking s)
      ]
    ]

then-Reported :
    (s s' s'' : AirtimeTracker) (infos more : List EventInfo) (a b : Bool)
    → Reported s infos a s'
    → Reported s' more b s''
    → Reported s (infos ++ more) (a || b) s''
then-Reported s s' s'' infos more a b (d, m, o) (d', m', o') = (
  d' ∙ ap (λ xs. xs ++ more) d ∙ append_assoc s.documents infos more,
  ground (arith, m, m'),
  o' ∙ o,
)

unreported : (s : AirtimeTracker) → Reported s [] false s
unreported s = (sym (append-nil s.documents), ground arith, refl)

handle_eit-away :
    (s : AirtimeTracker) (eit : Eit)
    → eit.is_valid && (eit.service_id == s.option.sid) ≡ false
    → handle_eit s eit ≡ s
unfolding handle_eit
handle_eit-away s eit away = elim (Bool-cases eit.is_valid) [
  | inr broken ↦ rw broken refl
  | inl valid ↦ elim (Bool-cases (eit.service_id == s.option.sid)) [
    | inr else_ ↦ rw valid (rw else_ refl)
    | inl same_ ↦ absurd (ground arith)
  ]
]

handle_eit-ours :
    (s : AirtimeTracker) (eit : Eit)
    → eit.is_valid && (eit.service_id == s.option.sid) ≡ true
    → handle_eit s eit ≡ handle_events s eit eit.events
unfolding handle_eit
handle_eit-ours s eit ours =
    let parts : (eit.is_valid ≡ true) × ((eit.service_id == s.option.sid) ≡ true) = ground arith in
    simp (parts.0, parts.1) refl

Reported-from :
    (s s' : AirtimeTracker) (ts : List Table) (infos : List EventInfo) (missing : Bool)
    → s' ≡ s
    → Reported s infos missing (feed_packet s ts)
    → Reported s infos missing (feed_packet s' ts)
Reported-from s s' ts infos missing e h =
    let same : feed_packet s' ts ≡ feed_packet s ts = ap (λ x. feed_packet x ts) e in
    (ap (λ x. x.documents) same ∙ h.0, ap (λ x. x.done) same ∙ h.1, ap (λ x. x.option) same ∙ h.2)

Reported-step :
    (s s' s'' : AirtimeTracker) (eit : Eit) (ts : List Table)
    → s'' ≡ s'
    → Reported s
        (map (event_info eit) (sought s.option.eid eit))
        (is_none_sought (sought s.option.eid eit))
        s'
    → (let eits = eits_of s'.option.sid ts in
        Reported s'
          (reports s'.option.eid eits)
          (is_missing s'.option.eid eits)
          (feed_packet s' ts))
    → (let eits = eit ∷ eits_of s.option.sid ts in
        Reported s (reports s.option.eid eits) (is_missing s.option.eid eits) (feed_packet s'' ts))
Reported-step s s' s'' eit ts e now_ later =
    let o = now_.2 in
    let eits = eits_of s.option.sid ts in
    let later' : Reported s' (reports s.option.eid eits) (is_missing s.option.eid eits)
        (feed_packet s'' ts) =
      Reported-from s' s'' ts _ _ e (
        later.0 ∙ ap (λ x. s'.documents ++ reports x.eid (eits_of x.sid ts)) o,
        later.1 ∙ ap (λ x. s'.done || is_missing x.eid (eits_of x.sid ts)) o,
        later.2,
      ) in
    then-Reported s s' (feed_packet s'' ts) _ _ _ _ now_ later'

feed_packet-Reported :
    (s : AirtimeTracker) (tables : List Table)
    → let eits = eits_of s.option.sid tables in
      Reported s (reports s.option.eid eits) (is_missing s.option.eid eits) (feed_packet s tables)
unfolding feed_packet handle_table
feed_packet-Reported s [] = unreported s
feed_packet-Reported s (eit_pf_act eit ∷ ts) =
    elim (Bool-cases (eit.is_valid && (eit.service_id == s.option.sid))) [
      | inr away ↦ rw away (
          Reported-from s (handle_eit s eit) ts _ _ (handle_eit-away s eit away)
            (feed_packet-Reported s ts))
      | inl ours ↦
          let now_ = handle_events_lem s eit eit.events in
          let later = feed_packet-Reported (handle_events s eit eit.events) ts in
          rw ours (
            Reported-step s (handle_events s eit eit.events) (handle_eit s eit) eit ts
              (handle_eit-ours s eit ours) now_ later)
    ]
feed_packet-Reported s (pat t ∷ ts) = feed_packet-Reported s ts
feed_packet-Reported s (cat t ∷ ts) = feed_packet-Reported s ts
feed_packet-Reported s (pmt t ∷ ts) = feed_packet-Reported s ts
feed_packet-Reported s (nit_act t ∷ ts) = feed_packet-Reported s ts
feed_packet-Reported s (sdt_act t ∷ ts) = feed_packet-Reported s ts
feed_packet-Reported s (tot t ∷ ts) = feed_packet-Reported s ts
feed_packet-Reported s (other ∷ ts) = feed_packet-Reported s ts

-- Whatever tables a packet completes, the documents written are one for each valid EIT of the service
-- among them whose present or following event is the one sought, in order; the call returns false
-- exactly when the tracker was done before or one of those EITs lacks the event.
pub handle_packet_reports :
    (s : AirtimeTracker) (tables : List Table)
    → let eits = eits_of s.option.sid tables in
      let r = handle_packet s tables in
      (r.0.documents ≡ s.documents ++ reports s.option.eid eits)
      × (r.0.done ≡ s.done || is_missing s.option.eid eits)
      × (r.1 ≡ not (s.done || is_missing s.option.eid eits))
unfolding handle_packet feed_packet
handle_packet_reports s tables =
    let (d, m, o) = feed_packet-Reported s tables in
    elim (Bool-cases (feed_packet s tables).done) [
      | inl done_ ↦ rw done_ (d, m, ap not (sym done_ ∙ m))
      | inr going ↦ rw going (d, m, ap not (sym going ∙ m))
    ]
