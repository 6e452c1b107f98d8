-- ===== src/Recorder/Events.antt =====
-- The event that `ServiceRecorder` of src/service_recorder.hh holds, as new tables and the ends of
-- chunks change it.
use mirakc_arib.Pcr.{max_pcr}
use mirakc_arib.Prelude.{
  ◌≤◌, ℕ, ◌%◌, ◌<◌, ◌≡◌, refl, ap, ◌∙◌, ◌≢◌, Bool, true, false, not, Option, none, some, List, [],
  ◌∷◌, ℤ, ◌==◌, if◌then◌else◌, Option-cases, inl, inr, Returns, Returns-map, Returns-bind, arith,
}
use mirakc_arib.Tables.{Event, Eit}
use mirakc_arib.Recorder.{
  preparing, recording, event_update, PacketRingSink, ServiceRecorder, feed_document, get_event,
  send_event_update_message, take_eit, on_end_of_chunk, end_chunks,
}
use mirakc_arib.Recorder.Messages.{
  follow, follow-append, event_id_of, current, Only, send_event_message_lem, now_lem, Given,
}

module _ {S : Type 0} (ring : PacketRingSink S) where
  -- The state between packets: the messages tell of the current event, a recording has an EIT, and
  -- a new EIT has an event; the ring is at the start of a chunk until the recording begins.
  pub record Speaks (s : ServiceRecorder S) : Type 0 where
    pub tells : follow none s.messages ≡ some (current s)
    pub quiet : s.state ≡ preparing → s.event_started ≡ false
    pub holds : s.state ≡ recording → get_event s.eit ≢ none
    pub fresh : (eit : Eit) → s.new_eit ≡ some eit → get_event (some eit) ≢ none
    pub aligned :
        s.state ≡ preparing
        → (ring.position s.sink < ring.ring_size s.sink)
          × (ring.position s.sink % s.option.chunk_size ≡ 0)
    pub clock_valid : s.clock.last_pcr ≤ max_pcr

  unfoldable pub Taken : ServiceRecorder S → ServiceRecorder S × Option Eit × Bool → Type 0
  Taken s (s', eit, changed) =
      (event : Event) × Given s' eit s.new_eit changed event
      × (s'.state ≡ s.state)
      × (s'.new_eit ≡ none)
      × (s'.clock ≡ s.clock)

  told_of :
      (s : ServiceRecorder S) (event : Event)
      → Speaks s
      → get_event s.eit ≡ some event
      → follow none s.messages ≡ some (if s.event_started then some event.event_id else none)
  told_of s event v e = v.tells ∙ ap (λ o. some (if s.event_started then event_id_of o else none)) e

  take_new_lem :
      (s : ServiceRecorder S) (eit : Eit) (old new : Event)
      → Speaks s
      → s.new_eit ≡ some eit
      → get_event s.eit ≡ some old
      → get_event (some eit) ≡ some new
      → (changed : Bool) → not (old.event_id == new.event_id) ≡ changed
      → Taken s (
        record s { eit = some eit; new_eit = none },
        if changed then s.eit else some eit,
        changed,
      )
  unfolding Taken
  take_new_lem s eit old new v held e e' true differs = (
    old,
    record {
      has_event = e;
      told = told_of s old v e;
      new_held = λ _. held;
      new_event =
          λ _ missing. absurd (let same : get_event s.new_eit ≡ some new = rw held e' in cc);
      old_held = λ h. absurd cc;
    },
    refl,
    refl,
    refl,
  )
  take_new_lem s eit old new v held e e' false same_ = (
    new,
    record {
      has_event = e';
      told =
          told_of s old v e
          ∙ ap (λ (n : ℕ). some (if s.event_started then some n else none)) (ground arith);
      new_held = λ h. absurd cc;
      new_event = λ h. absurd cc;
      old_held = λ _. refl;
    },
    refl,
    refl,
    refl,
  )

  take_old_lem :
      (s : ServiceRecorder S) (old : Event)
      → Speaks s
      → get_event s.eit ≡ some old
      → s.new_eit ≡ none
      → Taken s (s, s.eit, false)
  unfolding Taken
  take_old_lem s old v e none_ = (
    old,
    record {
      has_event = e;
      told = told_of s old v e;
      new_held = λ h. absurd cc;
      new_event = λ h. absurd cc;
      old_held = λ _. refl;
    },
    refl,
    none_,
    refl,
  )

  pub take_eit_lem :
      (s : ServiceRecorder S) → Speaks s → s.state ≡ recording → Returns (Taken s) (take_eit s)
  unfolding take_eit
  take_eit_lem s v state = elim (Option-cases (get_event s.eit)) [
    | inl missing ↦ absurd (v.holds state missing)
    | inr (old, e) ↦ elim (Option-cases s.new_eit) [
      | inl none_ ↦ simp none_ (take_old_lem s old v e none_)
      | inr (eit, held) ↦ elim (Option-cases (get_event (some eit))) [
        | inl missing ↦ absurd (v.fresh eit held missing)
        | inr (new, e') ↦
            simp (held, e, e')
              (take_new_lem s eit old new v held e e' (not (old.event_id == new.event_id)) refl)
      ]
    ]
  ]

  pub Given-has :
      (s : ServiceRecorder S) (eit new_eit : Option Eit) (changed : Bool) (event : Event)
      → Given s eit new_eit changed event
      → get_event s.eit ≢ none
  Given-has s eit new_eit true event g missing =
      g.new_event refl (ap get_event (g.new_held refl) ∙ missing)
  Given-has s eit new_eit false event g missing =
      let same : get_event eit ≡ none = ap get_event (g.old_held refl) ∙ missing in
      let has = g.has_event in cc

  on_end_of_chunk_lem :
      (s : ServiceRecorder S) (local_time : ℤ) (position : ℕ) (told : Option ℕ)
      → get_event s.eit ≢ none
      → follow none s.messages ≡ some told
      → Returns
          (λ s'. Only s s' × (follow none s'.messages ≡ some told))
          (on_end_of_chunk ring s local_time position)
  unfolding on_end_of_chunk send_event_update_message feed_document
  on_end_of_chunk_lem s local_time position told has f = elim (Option-cases (get_event s.eit)) [
    | inl missing ↦ absurd (has missing)
    | inr (event, e) ↦
        Returns-bind (λ (time : ℤ). Unit) (λ s'. Only s s' × (follow none s'.messages ≡ some told))
          _ _ (now_lem s.clock local_time)
          (λ time _.
            Returns-bind (λ s'. Only s s' × (follow none s'.messages ≡ some told))
              (λ s'. Only s s' × (follow none s'.messages ≡ some told)) _ _
              (send_event_message_lem s event_update s.eit event time _ told told e f refl)
              (λ s' (o, f'). (o, follow-append none s'.messages _ ∙ rw f' refl)))
  ]

  pub end_chunks_lem :
      (s : ServiceRecorder S) (local_time : ℤ) (positions : List ℕ) (told : Option ℕ)
      → get_event s.eit ≢ none
      → follow none s.messages ≡ some told
      → Returns
          (λ s'. Only s s' × (follow none s'.messages ≡ some told))
          (end_chunks ring s local_time positions)
  unfolding end_chunks
  end_chunks_lem s local_time [] told has f = ((refl, refl, refl, refl, refl, refl), f)
  end_chunks_lem s local_time (p ∷ positions) told has f =
      Returns-bind (λ s'. Only s s' × (follow none s'.messages ≡ some told))
        (λ s'. Only s s' × (follow none s'.messages ≡ some told)) _ _
        (on_end_of_chunk_lem s local_time p told has f)
        (λ s' ((st, ei, ne, es, si, cl), f').
          Returns-map (λ s''. Only s' s'' × (follow none s''.messages ≡ some told))
            (λ s''. Only s s'' × (follow none s''.messages ≡ some told)) _
            (end_chunks_lem s' local_time positions told (rw ei has) f')
            (λ s'' ((st', ei', ne', es', si', cl'), f'').
              ((st' ∙ st, ei' ∙ ei, ne' ∙ ne, es' ∙ es, si' ∙ si, cl' ∙ cl), f'')))
