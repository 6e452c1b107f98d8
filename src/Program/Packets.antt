-- ===== src/Program/Packets.antt =====
-- `HandlePacket` of `ProgramFilter`, in src/program_filter.hh: it waits for the program's first PCR,
-- then hands packets on until its last one. A failed assertion is `none`, and so is a lack of fuel
-- for the packets of a PMT.
use mirakc_arib.Prelude.{
  ℕ, zero, suc, Bool, true, false, not, ◌&&◌, ◌||◌, Option, none, some, List, [], ◌∷◌, ◌++◌, pos,
  ltb_ℤ, leb, ◌==◌, if◌then◌else◌, maybe, ◌>>=◌, ◌>>◌, assert,
}
use mirakc_arib.Pcr.{max_pcr, compare_pcr}
use mirakc_arib.Sink.{PacketSink, exit_retry}
use mirakc_arib.Tables.{Packet, Pmt, Table, Packetizer, pid_pat}
use mirakc_arib.Program.{
  State, wait_ready, streaming, ProgramFilter, need_clock_sync, update_clock_pcr,
  check_pes_black_list_for_drop, feed_packet,
}

-- `ComparePcr(lhs, rhs) >= 0`, with the assertions of `ComparePcr`.
unfoldable pub is_pcr_at_or_after : ℕ → ℕ → Option Bool
is_pcr_at_or_after lhs rhs =
    assert (leb lhs max_pcr)
    >> (assert (leb rhs max_pcr) >> some (not (ltb_ℤ (compare_pcr lhs rhs) (pos 0))))

-- The two tests of `NeedClockSync` with the update between them: the caller tests again.
unfoldable pub sync_clock : {S Z : Type 0} → ProgramFilter S Z → ℕ → Option (ProgramFilter S Z)
sync_clock s pcr = if need_clock_sync s then update_clock_pcr s pcr else some s

-- The packets of the last PAT.
unfoldable pub save_pat : {S Z : Type 0} → ProgramFilter S Z → Packet → ProgramFilter S Z
save_pat s packet =
    let kept = if packet.pusi then [] else s.last_pat_packets in
    if packet.pid == pid_pat then record s { last_pat_packets = kept ++ packet ∷ [] } else s

abbrev pub is_none_held : List Packet → Bool
is_none_held [] = true
is_none_held (packet ∷ packets) = false

module _ {S Z : Type 0} (packetizer : Packetizer Z Pmt) (downstream : PacketSink S Packet) where
  -- `sink_->HandlePacket`
  unfoldable pub send : ProgramFilter S Z → Packet → ProgramFilter S Z × Bool
  send s packet =
      let (sink, ok) = downstream.handle_packet s.sink packet in (record s { sink = sink }, ok)

  -- The loop over the pending PAT packets.
  unfoldable pub send_all : ProgramFilter S Z → List Packet → ProgramFilter S Z × Bool
  unfolding send
  send_all s [] = (s, true)
  send_all s (packet ∷ packets) =
      let (s', ok) = send s packet in
      let rest = send_all s' packets in if ok then rest else (s', false)

  unfoldable pub send_pats : ProgramFilter S Z → Option (ProgramFilter S Z × Bool)
  send_pats s =
      let (s', ok) = send_all s s.last_pat_packets in
      let sent = if ok then (record s' { last_pat_packets = [] }, true) else (s', false) in
      if s.option.pre_streaming
      then some (s, true)
      else assert (not (is_none_held s.last_pat_packets)) >> some sent

  -- One packet of the PMT.
  unfoldable pub send_pmt_packet : ProgramFilter S Z → Option (ProgramFilter S Z × Bool)
  send_pmt_packet s =
      let (packetizer', pmt_packet) = packetizer.next_packet s.pmt_packetizer in
      assert (pmt_packet.pid == s.pmt_pid)
      >> some (send (record s { pmt_packetizer = packetizer' }) pmt_packet)

  -- The loop that sends one cycle of PMT packets.
  unfoldable pub send_pmts : ℕ → ProgramFilter S Z → Option (ProgramFilter S Z × Bool)
  send_pmts zero s = none
  send_pmts (suc fuel) s = send_pmt_packet s >>= λ (s', ok).
      if not ok
      then some (s', false)
      else if packetizer.at_cycle_boundary s'.pmt_packetizer
      then some (s', true)
      else send_pmts fuel s'

  -- The first packet of the program, after the PAT and the PMT.
  unfoldable pub start_streaming :
      ℕ → ProgramFilter S Z → Packet → Option (ProgramFilter S Z × Bool)
  start_streaming fuel s packet = send_pats s >>= λ (s', ok).
      if not ok
      then some (s', false)
      else send_pmts fuel s' >>= λ (s'', ok').
          if not ok'
          then some (s'', false)
          else some (send (record s'' { state = streaming }) packet)

  -- A PCR while waiting, with the clock in step.
  unfoldable pub check_range :
      ℕ → ProgramFilter S Z → Packet → ℕ → Option (ProgramFilter S Z × Bool)
  check_range fuel s packet pcr = is_pcr_at_or_after pcr s.end_pcr >>= λ ended.
      if ended
      then some (s, false)
      else is_pcr_at_or_after pcr s.start_pcr >>= λ started.
          if not started then some (s, true) else start_streaming fuel s packet

  unfoldable pub wait_clock : ℕ → ProgramFilter S Z → Packet → ℕ → Option (ProgramFilter S Z × Bool)
  wait_clock fuel s packet pcr = sync_clock s pcr >>= λ s'.
      if need_clock_sync s' then some (s', true) else check_range fuel s' packet pcr

  unfoldable pub do_wait_ready : ℕ → ProgramFilter S Z → Packet → Option (ProgramFilter S Z × Bool)
  do_wait_ready fuel s packet =
      let s' = save_pat s packet in
      if s.stop
      then some (record s { retry = true }, false)
      else if packet.pid == pid_pat && s.option.pre_streaming
      then some (send s packet)
      else if not s'.pcr_pid_ready || not s'.event_time_ready
      then some (s', true)
      else if not (packet.pid == s'.pcr_pid)
      then some (s', true)
      else maybe packet.pcr (some (s', true)) (wait_clock fuel s' packet)

  -- The rest of `DoStreaming` for a packet that ends nothing.
  unfoldable pub forward : ProgramFilter S Z → Packet → Option (ProgramFilter S Z × Bool)
  forward s packet =
      if packet.pid == s.pmt_pid
      then send_pmt_packet s
      else if check_pes_black_list_for_drop s packet.pid
      then some (s, true)
      else some (send s packet)

  unfoldable pub stream_clock : ProgramFilter S Z → Packet → ℕ → Option (ProgramFilter S Z × Bool)
  stream_clock s packet pcr = sync_clock s pcr >>= λ s'.
      if need_clock_sync s'
      then some (send s' packet)
      else is_pcr_at_or_after pcr s'.end_pcr >>= λ ended.
          if ended then some (s', false) else forward s' packet

  unfoldable pub do_streaming : ProgramFilter S Z → Packet → Option (ProgramFilter S Z × Bool)
  do_streaming s packet =
      if s.stop
      then some (s, false)
      else if packet.pid == s.pcr_pid
      then maybe packet.pcr (some (send s packet)) (stream_clock s packet)
      else forward s packet

  unfoldable pub dispatch :
      State → ℕ → ProgramFilter S Z → Packet → Option (ProgramFilter S Z × Bool)
  dispatch wait_ready fuel s packet = do_wait_ready fuel s packet
  dispatch streaming fuel s packet = do_streaming s packet

  unfoldable pub handle_packet :
      ℕ → ProgramFilter S Z → Packet → List Table → Option (ProgramFilter S Z × Bool)
  handle_packet fuel s packet tables =
      feed_packet packetizer s tables >>= λ s'. dispatch s'.state fuel s' packet

  unfoldable pub exit_code : ProgramFilter S Z → ℕ
  exit_code s = if s.retry then exit_retry else downstream.exit_code s.sink
