-- ===== src/Program/Start.antt =====
-- How `ProgramFilter` of src/program_filter.hh begins to hand packets on.
use mirakc_arib.Prelude.{
  ℕ, zero, suc, ◌≤◌, ◌<◌, ◌≡◌, refl, sym, ap, ◌∙◌, ◌≢◌, Bool, true, false, some, List, [], ◌∷◌,
  ◌++◌, append-nil, append_assoc, All, pos, ltb_ℤ, Bool-cases, inl, inr, Returns, Returns-map,
  Returns-bind, le→leb, eq→==, ne→==, arith,
}
use mirakc_arib.Pcr.{max_pcr, compare_pcr}
use mirakc_arib.Sink.{PacketSink, AcceptLaw}
use mirakc_arib.Tables.{Packet, Pmt, Packetizer, pid_pat}
use mirakc_arib.Program.{streaming, ProgramFilter, need_clock_sync}
use mirakc_arib.Program.Packets.{
  is_pcr_at_or_after, sync_clock, save_pat, is_none_held, send, send_all, send_pats,
  send_pmt_packet, send_pmts, start_streaming, check_range, wait_clock, do_wait_ready,
}

-- What the filter relies on of its packetizer: `pid_of` is the PID of the packets that it makes, that
-- is the one that was set if it holds a table and the null PID otherwise, which making a packet does
-- not change; and its cycles end.
pub record CycleLaw {Z : Type 0} (packetizer : Packetizer Z Pmt) (pid_of left : Z → ℕ)
    : Type 0 where
  pub next_pid : (z : Z) → (packetizer.next_packet z).1.pid ≡ pid_of z
  pub same_pid : (z : Z) → pid_of (packetizer.next_packet z).0 ≡ pid_of z
  pub shorter :
      (z : Z)
      → packetizer.at_cycle_boundary (packetizer.next_packet z).0 ≡ false
      → left (packetizer.next_packet z).0 < left z

-- The first packet of the program, with the clock in step with the event and a PAT at hand.
pub record Starts {S Z : Type 0} (s : ProgramFilter S Z) (packet : Packet) (pcr : ℕ) : Type 0 where
  pub going : s.stop ≡ false
  pub pid_ready : s.pcr_pid_ready ≡ true
  pub time_ready : s.event_time_ready ≡ true
  pub in_sync : need_clock_sync s ≡ false
  pub pid : packet.pid ≡ s.pcr_pid
  pub not_pat : packet.pid ≢ pid_pat
  pub has_pcr : packet.pcr ≡ some pcr
  pub valid : pcr ≤ max_pcr
  pub start_valid : s.start_pcr ≤ max_pcr
  pub end_valid : s.end_pcr ≤ max_pcr
  pub started : ltb_ℤ (compare_pcr pcr s.start_pcr) (pos 0) ≡ false
  pub not_ended : ltb_ℤ (compare_pcr pcr s.end_pcr) (pos 0) ≡ true
  pub buffered : s.option.pre_streaming ≡ false
  pub pat_held : is_none_held s.last_pat_packets ≡ false

module _ {S Z : Type 0} (packetizer : Packetizer Z Pmt) (pid_of left : Z → ℕ)
    (cycle : CycleLaw packetizer pid_of left) (downstream : PacketSink S Packet)
    (got : S → List Packet) (law : AcceptLaw downstream got) where
  -- Handed on: `packets`, and nothing of the state but the sink and the packetizer has changed.
  Handed : ProgramFilter S Z → List Packet → ProgramFilter S Z × Bool → Type 0
  Handed s packets r =
      (r.1 ≡ true)
      × (got r.0.sink ≡ got s.sink ++ packets)
      × (r.0.pmt_pid ≡ s.pmt_pid)
      × (r.0.pmt_packetizer ≡ s.pmt_packetizer)

  send_all_lem :
      (s : ProgramFilter S Z) (packets : List Packet)
      → Handed s packets (send_all packetizer downstream s packets)
  unfolding send_all send Handed
  send_all_lem s [] = (refl, sym (append-nil (got s.sink)), refl, refl)
  send_all_lem s (p ∷ packets) =
      let s₁ = record s { sink = (downstream.handle_packet s.sink p).0 } in
      let (ok, all_, pid, z) = send_all_lem s₁ packets in
      rw (law.accepts s.sink p) (
        ok,
        all_
            ∙ ap (λ xs. xs ++ packets) (law.records s.sink p)
            ∙ append_assoc (got s.sink) (p ∷ []) packets,
        pid,
        z,
      )

  -- The packets that the packetizer makes up to the end of its cycle: one at least.
  abbrev pub IsCycle : Z → List Packet → Type 0
  IsCycle z [] = ⊥
  IsCycle z (p ∷ []) =
      let (z', made) = packetizer.next_packet z in
      (p ≡ made) × (packetizer.at_cycle_boundary z' ≡ true)
  IsCycle z (p ∷ q ∷ ps) =
      let (z', made) = packetizer.next_packet z in
      (p ≡ made) × (packetizer.at_cycle_boundary z' ≡ false) × IsCycle z' (q ∷ ps)

  IsCycle-more :
      (z : Z) (ps : List Packet)
      → packetizer.at_cycle_boundary (packetizer.next_packet z).0 ≡ false
      → IsCycle (packetizer.next_packet z).0 ps
      → IsCycle z ((packetizer.next_packet z).1 ∷ ps)
  IsCycle-more z [] more h = absurd h
  IsCycle-more z (p ∷ ps) more h = (refl, more, h)

  PmtsSent : ProgramFilter S Z → ProgramFilter S Z × Bool → Type 0
  PmtsSent s r =
      (pmts : List Packet) × IsCycle s.pmt_packetizer pmts
      × All (λ p. p.pid ≡ s.pmt_pid) pmts
      × (r.1 ≡ true)
      × (got r.0.sink ≡ got s.sink ++ pmts)

  send_pmts_lem :
      (fuel : ℕ) (s : ProgramFilter S Z)
      → left s.pmt_packetizer < fuel
      → pid_of s.pmt_packetizer ≡ s.pmt_pid
      → Returns (PmtsSent s) (send_pmts packetizer downstream fuel s)
  unfolding send_pmts send_pmt_packet send PmtsSent
  send_pmts_lem zero s h e = absurd (omega arith)
  send_pmts_lem (suc fuel) s h e =
      let z = (packetizer.next_packet s.pmt_packetizer).0 in
      let p = (packetizer.next_packet s.pmt_packetizer).1 in
      let pid : p.pid ≡ s.pmt_pid = cycle.next_pid s.pmt_packetizer ∙ e in
      let s₁ = record s { pmt_packetizer = z; sink = (downstream.handle_packet s.sink p).0 } in
      rw (eq→== p.pid s.pmt_pid pid) (
        rw (law.accepts s.sink p) (elim (Bool-cases (packetizer.at_cycle_boundary z)) [
          | inl boundary ↦
              rw boundary ((p ∷ [], (refl, boundary), (pid, tt), refl, law.records s.sink p))
          | inr more ↦ rw more (
              Returns-map (PmtsSent s₁) (PmtsSent s) _
                (send_pmts_lem fuel s₁ (let d = cycle.shorter s.pmt_packetizer more in omega arith)
                  (cycle.same_pid s.pmt_packetizer ∙ e))
                (λ r (pmts, cycled, pids, ok, all_). (
                  p ∷ pmts,
                  IsCycle-more s.pmt_packetizer pmts more cycled,
                  (pid, pids),
                  ok,
                  all_
                      ∙ ap (λ xs. xs ++ pmts) (law.records s.sink p)
                      ∙ append_assoc (got s.sink) (p ∷ []) pmts,
                )))
        ]))

  -- Streaming has begun with the PAT packets held, then one cycle of the PMT, then `packet`.
  abbrev pub Started : ProgramFilter S Z → Packet → ProgramFilter S Z × Bool → Type 0
  Started s packet r =
      (pmts : List Packet) × IsCycle s.pmt_packetizer pmts
      × All (λ p. p.pid ≡ s.pmt_pid) pmts
      × (r.1 ≡ true)
      × (r.0.state ≡ streaming)
      × (got r.0.sink ≡ got s.sink ++ (s.last_pat_packets ++ (pmts ++ packet ∷ [])))

  send_pats_lem :
      (s : ProgramFilter S Z)
      → s.option.pre_streaming ≡ false
      → is_none_held s.last_pat_packets ≡ false
      → Returns (Handed s s.last_pat_packets) (send_pats packetizer downstream s)
  unfolding send_pats Handed
  send_pats_lem s buffered held =
      let (ok, all_, pid, z) : Handed s s.last_pat_packets
          (send_all packetizer downstream s s.last_pat_packets) =
        send_all_lem s s.last_pat_packets in
      simp (buffered, held, ok) ((refl, all_, pid, z))

  start_streaming_lem :
      (fuel : ℕ) (s : ProgramFilter S Z) (packet : Packet)
      → left s.pmt_packetizer < fuel
      → pid_of s.pmt_packetizer ≡ s.pmt_pid
      → s.option.pre_streaming ≡ false
      → is_none_held s.last_pat_packets ≡ false
      → Returns (Started s packet) (start_streaming packetizer downstream fuel s packet)
  unfolding start_streaming Handed PmtsSent send
  start_streaming_lem fuel s packet h e buffered held =
      Returns-bind (Handed s s.last_pat_packets) (Started s packet) _ _
        (send_pats_lem s buffered held)
        (λ (s₁, ok) (k, all_, pid, z). rw k (
          Returns-bind (PmtsSent s₁) (Started s packet) _ _
            (send_pmts_lem fuel s₁ (rw z h) (rw z (e ∙ sym pid)))
            (λ (s₂, ok') (pmts, cycled, pids, k', all'). rw k' (
              (
                pmts,
                rw z at cycled,
                rw pid at pids,
                law.accepts s₂.sink packet,
                refl,
                law.records s₂.sink packet
                    ∙ ap (λ xs. xs ++ packet ∷ []) (all' ∙ ap (λ xs. xs ++ pmts) all_)
                    ∙ append_assoc (got s.sink ++ s.last_pat_packets) pmts (packet ∷ [])
                    ∙ append_assoc (got s.sink) s.last_pat_packets (pmts ++ packet ∷ []),
              )))))

  -- With a sink that accepts every packet, a packetizer set to the PMT's PID and more fuel than its
  -- cycle has packets left, and from a state that has not been stopped, knows the PCR PID and the
  -- event time, has its clock in sync, its PCRs in range and a PAT held, without pre-streaming: a
  -- packet of the PCR PID, other than the PAT's, with a valid PCR at or after the start and before
  -- the end begins the streaming. `WaitReady` returns true, and what the sink gets is the PAT
  -- packets held, then the packets that the packetizer makes up to the end of its cycle, one at least
  -- and all with the PMT's PID, then this packet.
  pub do_wait_ready_stream :
      (fuel : ℕ) (s : ProgramFilter S Z) (packet : Packet) (pcr : ℕ)
      → Starts s packet pcr
      → left s.pmt_packetizer < fuel
      → pid_of s.pmt_packetizer ≡ s.pmt_pid
      → Returns (Started s packet) (do_wait_ready packetizer downstream fuel s packet)
  unfolding do_wait_ready save_pat wait_clock sync_clock check_range is_pcr_at_or_after
  do_wait_ready_stream fuel s packet pcr v h e =
      let away = ne→== packet.pid pid_pat v.not_pat in
      let clock = eq→== packet.pid s.pcr_pid v.pid in
      simp (v.going, away, v.pid_ready, v.time_ready, clock, v.has_pcr)
        (rw v.in_sync (
          rw v.in_sync (
            rw (le→leb pcr max_pcr v.valid) (
              rw (le→leb s.end_pcr max_pcr v.end_valid) (
                rw v.not_ended (
                  rw (le→leb s.start_pcr max_pcr v.start_valid) (
                    rw v.started
                      (start_streaming_lem fuel s packet h e v.buffered v.pat_held))))))))
