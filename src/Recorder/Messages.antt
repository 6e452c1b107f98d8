-- ===== src/Recorder/Messages.antt =====
-- The messages of `ServiceRecorder`, in src/service_recorder.hh: which event they say is recorded,
-- and how the update of the events keeps that in step with the state.
use mirakc_arib.Prelude.{
  ℕ, ◌≡◌, refl, sym, ap, ◌∙◌, ◌≢◌, Bool, true, false, Option, none, some, List, [], ◌∷◌, ◌++◌, ℤ,
  ltb, leb_ℤ, ◌==◌, ==_refl, if◌then◌else◌, ◌>>=◌, Bool-cases, Option-cases, inl, inr, Returns,
  Returns-map, Returns-bind, both, arith,
}
use mirakc_arib.Clock.{Clock, now, unwrapped, is_ready, is_baseline_ready, baseline_pcr_to_time}
use mirakc_arib.Tables.{Event, Eit}
use mirakc_arib.Recorder.{
  EventKind, event_start, event_update, event_end, Message, event_message, PacketRingSink,
  ServiceRecorder, feed_document, get_event, is_unspecified_event_end_time, get_event_end_time,
  send_event_message, send_event_start_message, send_event_end_message, update_event_boundary,
  start_event, update_started, update_events,
}

-- What a reader of the messages knows: the event that is open, if one is; `none` once a message
-- starts an event while another is open, or ends one that is not.
abbrev pub heard : EventKind → ℕ → Option ℕ → Option (Option ℕ)
heard event_start id none = some (some id)
heard event_start id (some told) = none
heard event_update id told = some told
heard event_end id none = none
heard event_end id (some told) = if told == id then some none else none

abbrev pub follow_message : Option ℕ → Message → Option (Option ℕ)
follow_message told (event_message kind eit event time position) = heard kind event.event_id told
follow_message told _ = some told

abbrev pub follow : Option ℕ → List Message → Option (Option ℕ)
follow told [] = some told
follow told (message ∷ messages) = follow_message told message >>= λ o. follow o messages

pub follow-append :
    (told : Option ℕ) (messages : List Message) (message : Message)
    → follow told (messages ++ message ∷ [])
      ≡ (follow told messages >>= λ o. follow_message o message)
follow-append told [] message = elim (Option-cases (follow_message told message)) [
  | inl e ↦ rw e refl
  | inr (o, e) ↦ rw e refl
]
follow-append told (m ∷ messages) message = elim (Option-cases (follow_message told m)) [
  | inl e ↦ rw e refl
  | inr (o, e) ↦ rw e (follow-append o messages message)
]

abbrev pub event_id_of : Option Event → Option ℕ
event_id_of none = none
event_id_of (some event) = some event.event_id

-- The event that the state says is being recorded.
abbrev pub current : {S : Type 0} → ServiceRecorder S → Option ℕ
current s = if s.event_started then event_id_of (get_event s.eit) else none

-- A step that only sends: the rest of the state stays.
abbrev pub Only : {S : Type 0} → ServiceRecorder S → ServiceRecorder S → Type 0
Only s s' =
    (s'.state ≡ s.state)
    × (s'.eit ≡ s.eit)
    × (s'.new_eit ≡ s.new_eit)
    × (s'.event_started ≡ s.event_started)
    × (s'.sink ≡ s.sink)
    × (s'.clock ≡ s.clock)

pub send_event_message_lem :
    {S : Type 0} (s : ServiceRecorder S) (kind : EventKind) (eit : Option Eit) (event : Event)
    (time : ℤ) (position : ℕ) (told after : Option ℕ)
    → get_event eit ≡ some event
    → follow none s.messages ≡ some told
    → heard kind event.event_id told ≡ some after
    → Returns
        (λ s'. Only s s' × (follow none s'.messages ≡ some after))
        (send_event_message s kind eit time position)
unfolding send_event_message feed_document
send_event_message_lem s kind none event time position told after e f h = absurd cc
send_event_message_lem s kind (some eit) event time position told after e f h =
    rw e ((refl, refl, refl, refl, refl, refl), (follow-append none s.messages _ ∙ rw f h))

pub now_lem : (c : Clock) (local_time : ℤ) → Returns (λ (time : ℤ). Unit) (now c local_time)
unfolding now baseline_pcr_to_time
now_lem c local_time = elim (Bool-cases (is_ready c)) [
  | inr unready ↦ rw unready tt
  | inl ready ↦
      let based : is_baseline_ready c.baseline ≡ true = unfold is_ready in ground arith in
      elim (Bool-cases c.pcr_wrap_around) [
        | inl wrapped ↦
            let positive : ltb 0 (unwrapped c) ≡ true = unfold unwrapped in ground arith in
            rw ready (simp wrapped (rw positive (rw based tt)))
        | inr straight ↦ rw ready (simp straight (rw based tt))
      ]
]

-- What `update_events` is handed: the event that is told of, and the new one if it has changed.
pub record Given {S : Type 0} (s : ServiceRecorder S) (eit new_eit : Option Eit) (changed : Bool)
    (event : Event) : Type 0 where
  pub has_event : get_event eit ≡ some event
  pub told : follow none s.messages ≡ some (if s.event_started then some event.event_id else none)
  pub new_held : changed ≡ true → new_eit ≡ s.eit
  pub new_event : changed ≡ true → get_event new_eit ≢ none
  pub old_held : changed ≡ false → eit ≡ s.eit

unfoldable pub Tells : {S : Type 0} → ServiceRecorder S → ServiceRecorder S → Type 0
Tells s s' =
    (follow none s'.messages ≡ some (current s'))
    × (s'.state ≡ s.state)
    × (s'.eit ≡ s.eit)
    × (s'.new_eit ≡ s.new_eit)
    × (s'.clock ≡ s.clock)

pub current_event :
    (held eit : Option Eit) (event : Event)
    → held ≡ eit
    → get_event eit ≡ some event
    → event_id_of (get_event held) ≡ some event.event_id
current_event held eit event h e = ap (λ o. event_id_of (get_event o)) h ∙ ap event_id_of e

pub start_event_lem :
    {S : Type 0} (s : ServiceRecorder S) (eit : Option Eit)
    → eit ≡ s.eit
    → get_event eit ≢ none
    → follow none s.messages ≡ some none
    → Returns (Tells s) (start_event s eit)
unfolding start_event send_event_start_message Tells
start_event_lem s eit held has silent = elim (Option-cases (get_event eit)) [
  | inl missing ↦ absurd (has missing)
  | inr (event, e) ↦
      Returns-bind (λ s'. Only s s' × (follow none s'.messages ≡ some (some event.event_id)))
        (Tells s) _ _
        (send_event_message_lem s event_start eit event _ _ none (some event.event_id) e silent
          refl)
        (λ s' ((st, ei, ne, es, si, cl), f).
          (f ∙ ap some (sym (current_event s'.eit eit event (ei ∙ sym held) e)), st, ei, ne, cl))
]

module _ {S : Type 0} (ring : PacketRingSink S) where
  next_lem :
      (s : ServiceRecorder S) (time : ℤ) (position : ℕ) (eit new_eit : Option Eit) (event : Event)
      → Given s eit new_eit true event
      → s.event_started ≡ true
      → Returns (Tells s) (
          send_event_end_message (update_event_boundary s time position) eit >>= λ s'.
          send_event_start_message s' new_eit)
  unfolding Tells send_event_end_message send_event_start_message update_event_boundary
  next_lem s time position eit new_eit event g started = elim (Option-cases (get_event new_eit)) [
    | inl missing ↦ absurd (g.new_event refl missing)
    | inr (new, e) ↦
        let s₁ = record s { event_boundary_time = time; event_boundary_pos = position } in
        let told : follow none s.messages ≡ some (some event.event_id) = g.told ∙ rw started refl in
        let ended : heard event_end event.event_id (some event.event_id) ≡ some none =
          rw (==_refl event.event_id) refl in
        Returns-bind (λ s'. Only s₁ s' × (follow none s'.messages ≡ some none)) (Tells s) _ _
          (send_event_message_lem s₁ event_end eit event _ _ (some event.event_id) none g.has_event
            told ended)
          (λ s' ((st, ei, ne, es, si, cl), f).
            Returns-map (λ s''. Only s' s'' × (follow none s''.messages ≡ some (some new.event_id)))
              (Tells s) _
              (send_event_message_lem s' event_start new_eit new _ _ none (some new.event_id) e f
                refl)
              (λ s'' ((st', ei', ne', es', si', cl'), f'). (
                f'
                    ∙ ap some (
                        sym (
                          rw (es' ∙ es ∙ started) (
                            current_event s''.eit new_eit new (ei' ∙ ei ∙ sym (g.new_held refl))
                              e))),
                st' ∙ st,
                ei' ∙ ei,
                ne' ∙ ne,
                cl' ∙ cl,
              )))
  ]

  ended_lem :
      (s : ServiceRecorder S) (time : ℤ) (position : ℕ) (eit new_eit : Option Eit) (event : Event)
      → Given s eit new_eit false event
      → s.event_started ≡ true
      → Returns (Tells s) (
          send_event_end_message (update_event_boundary s time position) eit >>= λ s'.
          some (record s' { event_started = false }))
  unfolding Tells send_event_end_message update_event_boundary
  ended_lem s time position eit new_eit event g started =
      let s₁ = record s { event_boundary_time = time; event_boundary_pos = position } in
      let told : follow none s.messages ≡ some (some event.event_id) = g.told ∙ rw started refl in
      let ended : heard event_end event.event_id (some event.event_id) ≡ some none =
        rw (==_refl event.event_id) refl in
      Returns-bind (λ s'. Only s₁ s' × (follow none s'.messages ≡ some none)) (Tells s) _ _
        (send_event_message_lem s₁ event_end eit event _ _ (some event.event_id) none g.has_event
          told ended)
        (λ s' ((st, ei, ne, es, si, cl), f). (f, st, ei, ne, cl))

  unchanged_lem :
      (s : ServiceRecorder S) (eit new_eit : Option Eit) (event : Event)
      → Given s eit new_eit false event
      → Tells s s
  unfolding Tells
  unchanged_lem s eit new_eit event g = (
    g.told
        ∙ ap (λ o. some (if s.event_started then o else none))
            (sym (current_event s.eit eit event (sym (g.old_held refl)) g.has_event)),
    refl,
    refl,
    refl,
    refl,
  )

  update_started_lem :
      (s : ServiceRecorder S) (time : ℤ) (eit new_eit : Option Eit) (changed : Bool) (event : Event)
      → Given s eit new_eit changed event
      → s.event_started ≡ true
      → Returns (Tells s) (update_started ring s time eit new_eit changed)
  unfolding update_started
  update_started_lem s time eit new_eit true event g started =
      next_lem s time (ring.position s.sink) eit new_eit event g started
  update_started_lem s time eit new_eit false event g started = rw g.has_event (
      both (Returns (Tells s)) (is_unspecified_event_end_time event) _ _
        (unchanged_lem s eit new_eit event g)
        (both (Returns (Tells s)) (leb_ℤ (get_event_end_time event) time) _ _
          (ended_lem s (get_event_end_time event) (ring.position s.sink) eit new_eit event g
            started)
          (unchanged_lem s eit new_eit event g)))

  pub update_events_lem :
      (s : ServiceRecorder S) (time : ℤ) (eit new_eit : Option Eit) (changed : Bool) (event : Event)
      → Given s eit new_eit changed event
      → Returns (Tells s) (update_events ring s time eit new_eit changed)
  unfolding update_events
  update_events_lem s time eit new_eit true event g = elim (Bool-cases s.event_started) [
    | inl started ↦ simp started (update_started_lem s time eit new_eit true event g started)
    | inr idle ↦
        simp idle
          (start_event_lem s new_eit (g.new_held refl) (g.new_event refl) (g.told ∙ rw idle refl))
  ]
  update_events_lem s time eit new_eit false event g = elim (Bool-cases s.event_started) [
    | inl started ↦ simp started (update_started_lem s time eit new_eit false event g started)
    | inr idle ↦ simp idle (unchanged_lem s eit new_eit event g)
  ]
