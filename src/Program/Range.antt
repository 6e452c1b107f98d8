-- ===== src/Program/Range.antt =====
-- The PCR range of `ProgramFilter`, in src/program_filter.hh: it follows the event's times and the
-- clock through every table.
use mirakc_arib.Prelude.{
  ◌≡◌, refl, ◌∙◌, Bool, true, false, not, some, List, [], ◌∷◌, ℤ, ◌==◌, if◌then◌else◌, has_value,
  Bool-cases, Option-cases, inl, inr, Returns, Returns-map, Returns-bind, both, arith,
}
use mirakc_arib.Tables.{Pmt, Event, Eit, Tot, Table, pat, pmt, tot, eit_pf_act, Packetizer}
use mirakc_arib.Program.{
  ProgramFilter, is_streaming, update_clock_time, handle_pmt, missing_event, handle_events,
  handle_eit, check_time_limit, handle_tot, handle_table, feed_packet,
}
use mirakc_arib.Program.Times.{
  InStep, Names, Kept, Names-split, update_event_time_lem, update_clock_time_lem, same,
  handle_pat_lem, stopped,
}

module _ {S Z : Type 0} where
  module _ (packetizer : Packetizer Z Pmt) where
    handle_pmt_lem :
        (s : ProgramFilter S Z) (t : Pmt) → InStep s → Kept s (handle_pmt packetizer s t)
    unfolding handle_pmt
    handle_pmt_lem s t v = both (Kept s) (not t.is_valid) _ _ (same s v) (
        both (Kept s) (not (t.service_id == s.option.sid)) _ _ (same s v) (
          (
            record {
              clock_valid = v.clock_valid;
              start_valid = v.start_valid;
              end_valid = v.end_valid;
              in_step = λ e time pcr.
                  v.in_step e (kept_ready (not (s.clock_pid == t.pcr_pid)) _ time)
                    (kept_ready (not (s.clock_pid == t.pcr_pid)) _ pcr);
            },
            refl,
            refl,
          )))
      where
        kept_ready : (moved ready : Bool) → (if moved then false else ready) ≡ true → ready ≡ true
        kept_ready moved ready h = ground arith

    missing_event_lem :
        (s : ProgramFilter S Z) (cancel : Bool)
        → InStep s
        → Kept s (missing_event packetizer s cancel)
    unfolding missing_event
    missing_event_lem s cancel v =
        both (Kept s) (is_streaming s.state) _ _ (same s v)
          (both (Kept s) cancel _ _ (stopped s v) (same s v))

    handle_events_lem :
        (s : ProgramFilter S Z) (events : List Event)
        → InStep s
        → Returns (Kept s) (handle_events packetizer s events)
    unfolding handle_events
    handle_events_lem s [] v = stopped s v
    handle_events_lem s (present ∷ []) v =
        both (Returns (Kept s)) (present.event_id == s.option.eid) _ _
          (update_event_time_lem s present v) (missing_event_lem s true v)
    handle_events_lem s (present ∷ following ∷ events) v =
        both (Returns (Kept s)) (present.event_id == s.option.eid) _ _
          (update_event_time_lem s present v)
          (both (Returns (Kept s)) (following.event_id == s.option.eid) _ _
            (update_event_time_lem s following v)
            (missing_event_lem s (not (has_value s.option.wait_until)) v))

    handle_eit_lem :
        (s : ProgramFilter S Z) (t : Eit) → InStep s → Returns (Kept s) (handle_eit packetizer s t)
    unfolding handle_eit
    handle_eit_lem s t v = both (Returns (Kept s)) (not t.is_valid) _ _ (same s v) (
        both (Returns (Kept s)) (not (t.service_id == s.option.sid)) _ _ (same s v)
          (handle_events_lem s t.events v))

    check_time_limit_lem :
        (s : ProgramFilter S Z) (time : ℤ) → InStep s → Kept s (check_time_limit packetizer s time)
    unfolding check_time_limit
    check_time_limit_lem s time v = elim (Option-cases s.option.wait_until) [
      | inl e ↦ simp e (same s v)
      | inr (limit, e) ↦ simp e (both (Kept s) _ _ _ (stopped s v) (same s v))
    ]

    Kept-trans : (s s' s'' : ProgramFilter S Z) → Kept s s' → Kept s' s'' → Kept s s''
    Kept-trans s s' s'' (v, a, b) (v', a', b') = (v', a' ∙ a, b' ∙ b)

    handle_tot_lem :
        (s : ProgramFilter S Z) (t : Tot) → InStep s → Returns (Kept s) (handle_tot packetizer s t)
    unfolding handle_tot
    handle_tot_lem s t v = both (Returns (Kept s)) (not t.is_valid) _ _ (same s v) (
        updated (if is_streaming s.state then s else check_time_limit packetizer s t.utc_time) (
          both (Kept s) (is_streaming s.state) _ _ (same s v)
            (check_time_limit_lem s t.utc_time v)))
      where
        updated :
            (s' : ProgramFilter S Z)
            → Kept s s'
            → Returns
                (Kept s)
                (if s'.clock_time_ready then some s' else update_clock_time s' t.utc_time)
        updated s' k = elim (Bool-cases s'.clock_time_ready) [
          | inl ready ↦ simp ready k
          | inr unready ↦ simp unready (
              Returns-map (Kept s') (Kept s) _ (update_clock_time_lem s' t.utc_time k.0 unready)
                (λ s'' k'. Kept-trans s s' s'' k k'))
        ]

    handle_table_lem :
        (s : ProgramFilter S Z) (t : Table)
        → Names s.option.sid (t ∷ [])
        → InStep s
        → Returns (Kept s) (handle_table packetizer s t)
    unfolding handle_table
    handle_table_lem s (pat t) named v = handle_pat_lem s t named.0 v
    handle_table_lem s (pmt t) named v = handle_pmt_lem s t v
    handle_table_lem s (eit_pf_act t) named v = handle_eit_lem s t v
    handle_table_lem s (tot t) named v = handle_tot_lem s t v
    handle_table_lem s _ named v = same s v

    -- From a state that is in step (its PCRs are in range, and the start and end PCR are those of
    -- the event's start and end times at the clock whenever the event time and the clock are
    -- ready), the tables of a packet, whose PATs name the service, are handled without a failed
    -- assertion and leave a state that is in step, waiting or streaming as before.
    pub feed_packet_lem :
        (s : ProgramFilter S Z) (tables : List Table)
        → Names s.option.sid tables
        → InStep s
        → Returns (Kept s) (feed_packet packetizer s tables)
    unfolding feed_packet
    feed_packet_lem s [] named v = same s v
    feed_packet_lem s (t ∷ ts) named v =
        let (now, later) = Names-split s.option.sid t ts named in
        Returns-bind (Kept s) (Kept s) _ _ (handle_table_lem s t now v) (λ s' k.
          Returns-map (Kept s') (Kept s) _ (feed_packet_lem s' ts (rw k.2 later) k.0)
            (λ s'' k'. Kept-trans s s' s'' k k'))
