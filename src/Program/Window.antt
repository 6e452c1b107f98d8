-- ===== src/Program/Window.antt =====
-- When `ProgramFilter` of src/program_filter.hh begins to hand packets on, and when not.
use mirakc_arib.Prelude.{
  ℕ, ◌≤◌, ◌≡◌, sym, ◌∙◌, Bool, true, false, not, ◌&&◌, ◌||◌, Option, none, some, List, [], ◌∷◌,
  ◌++◌, pos, ltb_ℤ, ◌==◌, if◌then◌else◌, maybe, Bool-cases, Option-cases, inl, inr, Returns-some,
  Ensures, Ensures-bind, Ensures-if, Ensures-map, both, arith,
}
use mirakc_arib.Pcr.{max_pcr, compare_pcr}
use mirakc_arib.Sink.{PacketSink}
use mirakc_arib.Tables.{Packet, Pmt, Table, Packetizer, pid_pat}
use mirakc_arib.Program.{wait_ready, streaming, ProgramFilter, need_clock_sync}
use mirakc_arib.Program.Packets.{
  sync_clock, save_pat, send, check_range, wait_clock, do_wait_ready, dispatch, handle_packet,
}
use mirakc_arib.Program.Times.{Computed, InStep, Kept, Names}
use mirakc_arib.Program.Range.{feed_packet_lem}
use mirakc_arib.Program.Sending.{
  InWindow, at_or_after_lem, SameEvent, sync_clock_event, sync_clock_lem, Inside,
  start_streaming_keeps,
}

module _ {S Z : Type 0} (packetizer : Packetizer Z Pmt) (downstream : PacketSink S Packet)
    (packet : Packet) where
  -- Streaming begins in the window only.
  Begins : ProgramFilter S Z × Bool → Type 0
  Begins r = r.0.state ≡ streaming → InWindow packet r.0

  waits : (s : ProgramFilter S Z) (ok : Bool) → s.state ≡ wait_ready → Begins (s, ok)
  unfolding Begins
  waits s ok e h = absurd cc

  check_range-Begins :
      (fuel : ℕ) (s : ProgramFilter S Z) (pcr : ℕ)
      → s.state ≡ wait_ready
      → packet.pcr ≡ some pcr
      → packet.pid ≡ s.pcr_pid
      → Computed s
      → Ensures Begins (check_range packetizer downstream fuel s packet pcr)
  unfolding check_range Begins
  check_range-Begins fuel s pcr waiting has pid c =
      Ensures-bind (λ b. b ≡ not (ltb_ℤ (compare_pcr pcr s.end_pcr) (pos 0))) Begins _ _
        (at_or_after_lem pcr s.end_pcr)
        (λ ended e. elim (Bool-cases ended) [
          | inl yes_ ↦ rw yes_ (waits s false waiting)
          | inr no_ ↦ rw no_ (
              Ensures-bind (λ b. b ≡ not (ltb_ℤ (compare_pcr pcr s.start_pcr) (pos 0))) Begins _ _
                (at_or_after_lem pcr s.start_pcr)
                (λ started e'. elim (Bool-cases started) [
                  | inr early ↦ rw early (waits s true waiting)
                  | inl reached ↦ rw reached (
                      Ensures-map (Inside packetizer downstream packet) Begins _
                        (start_streaming_keeps packetizer downstream packet fuel s (record {
                          pcr = pcr;
                          has_pcr = has;
                          pid = pid;
                          started = ground arith;
                          not_ended = ground arith;
                          computed = c;
                        }))
                        (λ r w. inside r w))
                ]))
        ])
    where
      inside : (r : ProgramFilter S Z × Bool) → Inside packetizer downstream packet r → Begins r
      inside r w = λ _. w

  wait_clock-Begins :
      (fuel : ℕ) (s : ProgramFilter S Z) (pcr : ℕ)
      → InStep s
      → s.state ≡ wait_ready
      → s.event_time_ready ≡ true
      → packet.pcr ≡ some pcr
      → pcr ≤ max_pcr
      → packet.pid ≡ s.pcr_pid
      → Ensures Begins (wait_clock packetizer downstream fuel s packet pcr)
  unfolding wait_clock
  wait_clock-Begins fuel s pcr v waiting ready has valid pid =
      Ensures-bind (λ s'. InStep s' × SameEvent s s') Begins _ _
        (pair (sync_clock s pcr) (sync_clock_lem s pcr v valid) (sync_clock_event s pcr))
        (λ s' (v', (e, p, st)). elim (Bool-cases (need_clock_sync s')) [
          | inl need ↦ rw need (waits s' true (st ∙ waiting))
          | inr synced ↦
              let clocks : (s'.clock_time_ready ≡ true) × (s'.clock_pcr_ready ≡ true) =
                unfold need_clock_sync in ground arith in
              rw synced (
                check_range-Begins fuel s' pcr (st ∙ waiting) has (pid ∙ sym p)
                  (v'.in_step (e ∙ ready) clocks.0 clocks.1))
        ])
    where
      pair :
          (m : Option (ProgramFilter S Z))
          → Ensures InStep m
          → Ensures (SameEvent s) m
          → Ensures (λ s'. InStep s' × SameEvent s s') m
      pair none a b = tt
      pair (some s') a b = (a, b)

  clock-Begins :
      (fuel : ℕ) (s : ProgramFilter S Z)
      → InStep s
      → s.state ≡ wait_ready
      → ((pcr : ℕ) → packet.pcr ≡ some pcr → pcr ≤ max_pcr)
      → Ensures Begins (
          if not s.pcr_pid_ready || not s.event_time_ready
          then some (s, true)
          else if not (packet.pid == s.pcr_pid)
          then some (s, true)
          else maybe packet.pcr (some (s, true)) (wait_clock packetizer downstream fuel s packet))
  clock-Begins fuel s v waiting valid =
      elim (Bool-cases (not s.pcr_pid_ready || not s.event_time_ready)) [
        | inl unready ↦ rw unready (waits s true waiting)
        | inr ready ↦ rw ready (elim (Bool-cases (packet.pid == s.pcr_pid)) [
          | inr away ↦ rw away (waits s true waiting)
          | inl clock ↦ rw clock (elim (Option-cases packet.pcr) [
            | inl none_ ↦ simp none_ (waits s true waiting)
            | inr (pcr, e) ↦
                let timed : s.event_time_ready ≡ true = ground arith in
                let begins =
                  wait_clock-Begins fuel s pcr v waiting timed e (valid pcr e) (ground arith) in
                simp e begins
          ])
        ])
      ]

  do_wait_ready-Begins :
      (fuel : ℕ) (s : ProgramFilter S Z)
      → InStep s
      → s.state ≡ wait_ready
      → ((pcr : ℕ) → packet.pcr ≡ some pcr → pcr ≤ max_pcr)
      → Ensures Begins (do_wait_ready packetizer downstream fuel s packet)
  unfolding do_wait_ready save_pat send Begins
  do_wait_ready-Begins fuel s v waiting valid =
      let kept = if packet.pusi then [] else s.last_pat_packets in
      let s' =
        if packet.pid == pid_pat then record s { last_pat_packets = kept ++ packet ∷ [] } else s in
      let saved : InStep s' × (s'.state ≡ wait_ready) =
        both (λ (x : ProgramFilter S Z). InStep x × (x.state ≡ wait_ready)) (packet.pid == pid_pat)
          _ _
          (
            record {
              clock_valid = v.clock_valid;
              start_valid = v.start_valid;
              end_valid = v.end_valid;
              in_step = v.in_step;
            },
            waiting,
          )
          (v, waiting) in
      Ensures-if Begins s.stop _ _ (λ h. absurd cc)
        (Ensures-if Begins (packet.pid == pid_pat && s.option.pre_streaming) _ _ (λ h. absurd cc)
          (clock-Begins fuel s' saved.0 saved.1 valid))

  -- From a waiting state that is in step, with tables whose PATs name the service and a packet
  -- whose PCR, if it has one, is in range: if `HandlePacket` does not abort and streaming has begun
  -- after it, the packet is one of the PCR PID, its PCR is at or after the start PCR and before the
  -- end PCR, and those two are the event's start and end times at the clock.
  pub handle_packet_window :
      (fuel : ℕ) (s : ProgramFilter S Z) (tables : List Table)
      → InStep s
      → s.state ≡ wait_ready
      → Names s.option.sid tables
      → ((pcr : ℕ) → packet.pcr ≡ some pcr → pcr ≤ max_pcr)
      → Ensures
          (λ (r : ProgramFilter S Z × Bool). r.0.state ≡ streaming → InWindow packet r.0)
          (handle_packet packetizer downstream fuel s packet tables)
  unfolding handle_packet dispatch Begins
  handle_packet_window fuel s tables v waiting named valid =
      let (s', e, (v', st, op)) =
        Returns-some (Kept s) _ (feed_packet_lem packetizer s tables named v) in
      rw e (waited s' v' (st ∙ waiting))
    where
      waited :
          (s' : ProgramFilter S Z)
          → InStep s'
          → s'.state ≡ wait_ready
          → Ensures Begins (dispatch packetizer downstream s'.state fuel s' packet)
      waited s' v' w = simp w (do_wait_ready-Begins fuel s' v' w valid)
