-- ===== src/Recorder/Protocol.antt =====
-- The messages of `ServiceRecorder`, in src/service_recorder.hh: what each packet keeps of them.
use mirakc_arib.Pcr.{max_pcr}
use mirakc_arib.Prelude.{
  ◌≤◌, ℕ, ◌%◌, ◌≡◌, refl, sym, ap, ◌∙◌, ◌≢◌, Bool, true, false, ◌&&◌, Option, none, some, ℤ,
  if◌then◌else◌, has_value, Bool-cases, Option-cases, inl, inr, Returns, Returns-map, Returns-bind,
  lt→ltb, eq→==, both, arith,
}
use mirakc_arib.Clock.{is_ready}
use mirakc_arib.Tables.{Packet, Eit}
use mirakc_arib.Recorder.{
  State, preparing, recording, finished, chunk_message, PacketRingSink, ServiceRecorder,
  feed_document, get_event, update_event_boundary, is_running, start_event, on_preparing,
  on_recording,
}
use mirakc_arib.Recorder.Handlers.{dispatch}
use mirakc_arib.Recorder.Messages.{
  follow, follow-append, event_id_of, current, Only, now_lem, Tells, start_event_lem,
  update_events_lem,
}
use mirakc_arib.Recorder.Events.{Speaks, Taken, take_eit_lem, Given-has, end_chunks_lem}

module _ {S : Type 0} (ring : PacketRingSink S) where
  Continues : ServiceRecorder S × Bool → Type 0
  Continues r = Speaks ring r.0

  recorded_lem :
      (s s' s'' : ServiceRecorder S) (sink : S)
      → get_event s.eit ≢ none
      → s.state ≡ recording
      → s.new_eit ≡ none
      → s.clock.last_pcr ≤ max_pcr
      → Tells s s'
      → Only s' s''
      → follow none s''.messages ≡ some (current s')
      → Speaks ring (record s'' { sink = sink })
  unfolding Tells
  recorded_lem s s' s'' sink has state taken clock (t, st, ei, ne, cl)
        (st', ei', ne', es', si', cl') f =
      record {
        tells = f ∙ ap some (rw (es', ei') refl);
        quiet = λ h. absurd cc;
        holds = λ h missing. has (ap get_event (sym ei ∙ sym ei') ∙ missing);
        fresh = λ eit h. absurd cc;
        aligned = λ h. absurd cc;
        clock_valid = rw cl' (rw cl clock);
      }

  on_recording_lem :
      (s : ServiceRecorder S) (local_time : ℤ) (packet : Packet)
      → Speaks ring s
      → s.state ≡ recording
      → Returns Continues (on_recording ring s local_time packet)
  unfolding on_recording Taken Continues
  on_recording_lem s local_time packet v state =
      Returns-bind (λ (time : ℤ). Unit) Continues _ _ (now_lem s.clock local_time)
        (λ time _.
          Returns-bind (Taken ring s) Continues _ _ (take_eit_lem ring s v state)
            (λ (s', eit, changed) (event, g, st, taken, cl).
              Returns-bind (Tells s') Continues _ _
                (update_events_lem ring s' time eit s.new_eit changed event g)
                (λ s'' t.
                  let has = Given-has ring s' eit s.new_eit changed event g in
                  let told : (follow none s''.messages ≡ some (current s'')) × (s''.eit ≡ s'.eit) =
                    unfold Tells in (t.0, t.2) in
                  let called = ring.handle_packet s''.sink packet in
                  Returns-bind
                    (λ s'''. Only s'' s''' × (follow none s'''.messages ≡ some (current s'')))
                    Continues _ _
                    (end_chunks_lem ring s'' local_time called.1 (current s'') (rw told.1 has)
                      told.0)
                    (λ s''' (o, f).
                      recorded_lem s' s'' s''' called.0.0 has (st ∙ state) taken
                        (rw cl v.clock_valid) t o f))))

  -- The first messages of a recording have told of no event.
  record Begun (s : ServiceRecorder S) : Type 0 where
    state_ : s.state ≡ recording
    has_event : get_event s.eit ≢ none
    taken : s.new_eit ≡ none
    silent : follow none s.messages ≡ some none
    clock_ok : s.clock.last_pcr ≤ max_pcr

  begin_started_lem :
      (s : ServiceRecorder S) (eit : Option Eit)
      → Begun s
      → eit ≡ s.eit
      → Returns (Speaks ring) (start_event s eit)
  begin_started_lem s eit b held =
      Returns-map (Tells s) (Speaks ring) _
        (start_event_lem s eit held (rw held b.has_event) b.silent)
        (λ s' t.
          let (told, st, ei, ne, cl) : (follow none s'.messages ≡ some (current s'))
              × (s'.state ≡ s.state)
              × (s'.eit ≡ s.eit)
              × (s'.new_eit ≡ s.new_eit)
              × (s'.clock ≡ s.clock) =
            unfold Tells in t in
          let st_ = b.state_ in
          let taken_ = b.taken in
          record {
            tells = told;
            quiet = λ h. absurd cc;
            holds = λ h missing. b.has_event (ap get_event (sym ei) ∙ missing);
            fresh = λ e h. absurd cc;
            aligned = λ h. absurd cc;
            clock_valid = rw cl b.clock_ok;
          })

  begin_idle_lem :
      (s : ServiceRecorder S) → Begun s → Speaks ring (record s { event_started = false })
  begin_idle_lem s b =
      let st_ = b.state_ in
      let taken_ = b.taken in
      record {
        tells = b.silent;
        quiet = λ h. refl;
        holds = λ h. b.has_event;
        fresh = λ e h. absurd cc;
        aligned = λ h. absurd cc;
        clock_valid = b.clock_ok;
      }

  Begun_lem :
      (s : ServiceRecorder S) (eit : Eit) (message : ℤ) (time : ℤ) (position : ℕ)
      → Speaks ring s
      → s.state ≡ preparing
      → s.new_eit ≡ some eit
      → Begun (
          update_event_boundary
            (feed_document
              (record s { eit = s.new_eit; new_eit = none; state = recording })
              (chunk_message message position))
            time
            position)
  unfolding update_event_boundary feed_document
  Begun_lem s eit message time position v state held = record {
    state_ = refl;
    has_event = rw held (v.fresh eit held);
    taken = refl;
    clock_ok = v.clock_valid;
    silent =
        follow-append none s.messages _
        ∙ rw
            (v.tells
              ∙ ap (λ b. some (if b then event_id_of (get_event s.eit) else none)) (v.quiet state))
            refl;
  }

  on_preparing_lem :
      (s : ServiceRecorder S) (local_time : ℤ) (clock_ready : Bool)
      → Speaks ring s
      → s.state ≡ preparing
      → Returns Continues (on_preparing ring s local_time clock_ready)
  unfolding on_preparing Continues update_event_boundary feed_document
  on_preparing_lem s local_time clock_ready v state =
      elim (Bool-cases (clock_ready && has_value s.new_eit)) [
        | inr waiting ↦ rw waiting v
        | inl ready ↦ elim (Option-cases s.new_eit) [
          | inl none_ ↦
              absurd (let bad : clock_ready && false ≡ true = rw none_ at ready in ground arith)
          | inr (eit, held) ↦ elim (Option-cases (get_event s.new_eit)) [
            | inl missing ↦ absurd (v.fresh eit held (ap get_event (sym held) ∙ missing))
            | inr (event, e) ↦
                let (room, start_) = v.aligned state in
                let position = ring.position s.sink in
                rw ready (
                  Returns-bind (Speaks ring) Continues _ _
                    (Returns-bind (λ (time : ℤ). Unit) (Speaks ring) _ _
                      (now_lem s.clock local_time)
                      (λ time _. rw (lt→ltb position (ring.ring_size s.sink) room) (
                        rw (eq→== (position % s.option.chunk_size) 0 start_) (
                          rw e (
                            both (Returns (Speaks ring)) (is_running event time) _ _
                              (begin_started_lem _ s.new_eit
                                (Begun_lem s eit time time position v state held) refl)
                              (begin_idle_lem _
                                (Begun_lem s eit time time position v state held)))))))
                    (λ s'' w. w))
          ]
        ]
      ]

  -- The step on a packet, once its PCR and tables are taken.
  pub dispatch-Speaks :
      (s : ServiceRecorder S) (local_time : ℤ) (packet : Packet)
      → Speaks ring s
      → Returns (λ r. Speaks ring r.0) (dispatch ring s.state s local_time packet)
  unfolding dispatch Continues
  dispatch-Speaks s local_time packet v = dispatch_lem s.state refl
    where
      dispatch_lem :
          (now_ : State)
          → s.state ≡ now_
          → Returns (λ r. Speaks ring r.0) (dispatch ring now_ s local_time packet)
      dispatch_lem preparing e = on_preparing_lem s local_time (is_ready s.clock) v e
      dispatch_lem recording e = on_recording_lem s local_time packet v e
      dispatch_lem finished e = v
