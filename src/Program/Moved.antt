-- ===== src/Program/Moved.antt =====
-- How `ProgramFilter` of src/program_filter.hh takes a PMT that a PAT moves to another PID.
use mirakc_arib.Prelude.{
  lookup, ◌==◌, if◌then◌else◌, both, ℕ, ◌≡◌, refl, sym, ◌∙◌, ◌≢◌, true, false, none, some, [], ◌∷◌,
  Returns, eq→==, ne→==,
}
use mirakc_arib.Sink.{PacketSink}
use mirakc_arib.Tables.{Packet, Pmt, Packetizer, pid_pat, pid_null, Pat, pat, add_pid, remove_pid}
use mirakc_arib.Program.{
  check_pes_black_list_for_drop, handle_table, handle_pat, streaming, ProgramFilter, feed_packet,
}
use mirakc_arib.Program.Packets.{
  send, send_pmt_packet, dispatch, do_streaming, forward, handle_packet,
}
use mirakc_arib.Program.Start.{CycleLaw}

-- A packet of the PMT while the packetizer makes packets of another PID.
stale_packet_aborts :
    {S Z : Type 0} (packetizer : Packetizer Z Pmt) (pid_of left : Z → ℕ)
    (downstream : PacketSink S Packet) (fuel : ℕ) (s : ProgramFilter S Z) (packet : Packet)
    → CycleLaw packetizer pid_of left
    → s.state ≡ streaming
    → s.stop ≡ false
    → packet.pid ≡ s.pmt_pid
    → packet.pid ≢ s.pcr_pid
    → pid_of s.pmt_packetizer ≢ s.pmt_pid
    → handle_packet packetizer downstream fuel s packet [] ≡ none
unfolding handle_packet feed_packet dispatch do_streaming forward send_pmt_packet
stale_packet_aborts packetizer pid_of left downstream fuel s packet cycle state going pid away
      moved =
    let elsewhere : (packetizer.next_packet s.pmt_packetizer).1.pid ≢ s.pmt_pid =
      λ e. moved (sym (cycle.next_pid s.pmt_packetizer) ∙ e) in
    simp
      (
        state,
        going,
        ne→== packet.pid s.pcr_pid away,
        eq→== packet.pid s.pmt_pid pid,
        ne→== (packetizer.next_packet s.pmt_packetizer).1.pid s.pmt_pid elsewhere,
      )
      refl

-- What a PAT that names the service with another PMT PID leaves.
abbrev moved_to : {S Z : Type 0} → ProgramFilter S Z → ℕ → ProgramFilter S Z
moved_to s new_pid = record s {
  demux =
      add_pid new_pid ∷ (if s.pmt_pid == pid_null then s.demux else remove_pid s.pmt_pid ∷ s.demux);
  pmt_pid = new_pid;
}

moving_pat :
    {S Z : Type 0} (packetizer : Packetizer Z Pmt) (s : ProgramFilter S Z) (t : Pat) (new_pid : ℕ)
    → (t.source_pid ≡ pid_pat) × (t.is_valid ≡ true) × (t.ts_id ≢ 0)
    → lookup s.option.sid t.pmts ≡ some new_pid
    → feed_packet packetizer s (pat t ∷ []) ≡ some (moved_to s new_pid)
unfolding feed_packet handle_table handle_pat
moving_pat packetizer s t new_pid (from, valid, id) named =
    simp (eq→== t.source_pid pid_pat from, valid, ne→== t.ts_id 0 id, named) refl

-- The packet of that PAT is dropped or handed on.
moving_packet :
    {S Z : Type 0} (packetizer : Packetizer Z Pmt) (downstream : PacketSink S Packet) (fuel : ℕ)
    (s : ProgramFilter S Z) (t : Pat) (new_pid : ℕ) (packet : Packet)
    → (s.state ≡ streaming) × (s.stop ≡ false)
    → (t.source_pid ≡ pid_pat) × (t.is_valid ≡ true) × (t.ts_id ≢ 0)
    → lookup s.option.sid t.pmts ≡ some new_pid
    → (packet.pid ≢ s.pcr_pid) × (packet.pid ≢ new_pid)
    → handle_packet packetizer downstream fuel s packet (pat t ∷ []) ≡ (
        if check_pes_black_list_for_drop s packet.pid
        then some (moved_to s new_pid, true)
        else some (send packetizer downstream (moved_to s new_pid) packet))
unfolding handle_packet dispatch do_streaming forward check_pes_black_list_for_drop
moving_packet packetizer downstream fuel s t new_pid packet (state, going) accepted named away =
    let fed = moving_pat packetizer s t new_pid accepted named in
    let clock = ne→== packet.pid s.pcr_pid away.0 in
    let other_pmt = ne→== packet.pid new_pid away.1 in
    simp (fed, state, going, clock, other_pmt) refl

-- While streaming, not stopped, with a packetizer that makes packets of the PMT's PID: after the
-- packet of a valid PAT that gives the service another PMT PID, other than the PCR's and the PAT's,
-- at which it does not abort, the filter aborts at a packet of that PID on which no table is
-- completed, as the first of a PMT of several packets: the packetizer still makes packets of the
-- old PID.
pub moved_pmt_aborts :
    {S Z : Type 0} (packetizer : Packetizer Z Pmt) (pid_of left : Z → ℕ)
    (downstream : PacketSink S Packet) (fuel : ℕ) (s : ProgramFilter S Z) (t : Pat) (new_pid : ℕ)
    (first second : Packet)
    → CycleLaw packetizer pid_of left
    → (s.state ≡ streaming) × (s.stop ≡ false)
    → pid_of s.pmt_packetizer ≡ s.pmt_pid
    → (t.source_pid ≡ pid_pat) × (t.is_valid ≡ true) × (t.ts_id ≢ 0)
    → lookup s.option.sid t.pmts ≡ some new_pid
    → (new_pid ≢ s.pmt_pid) × (new_pid ≢ s.pcr_pid) × (new_pid ≢ pid_pat)
    → s.pcr_pid ≢ pid_pat
    → (first.pid ≡ pid_pat) × (second.pid ≡ new_pid)
    → Returns
        (λ r. handle_packet packetizer downstream fuel r.0 second [] ≡ none)
        (handle_packet packetizer downstream fuel s first (pat t ∷ []))
unfolding send
moved_pmt_aborts {S = S} packetizer pid_of left downstream fuel s t new_pid first second cycle
      (state, going) in_step accepted named (other_pmt, other_pcr, other_pat) pcr
      (first_pid, second_pid) =
    let after : (sink : S)
        → handle_packet packetizer downstream fuel (record (moved_to s new_pid) { sink = sink })
            second []
          ≡ none =
      λ sink.
        stale_packet_aborts packetizer pid_of left downstream fuel
          (record (moved_to s new_pid) { sink = sink }) second cycle state going second_pid
          (λ e. other_pcr (sym second_pid ∙ e)) (λ e. other_pmt (sym e ∙ in_step)) in
    let first_away : (first.pid ≢ s.pcr_pid) × (first.pid ≢ new_pid) =
      (λ e. pcr (sym e ∙ first_pid), λ e. other_pat (sym e ∙ first_pid)) in
    rw
      (moving_packet packetizer downstream fuel s t new_pid first (state, going) accepted named
        first_away)
      (both (Returns (λ r. handle_packet packetizer downstream fuel r.0 second [] ≡ none))
        (check_pes_black_list_for_drop s first.pid) _ _ (after s.sink) (after _))
