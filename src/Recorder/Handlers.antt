-- ===== src/Recorder/Handlers.antt =====
-- The interface of `ServiceRecorder`, in src/service_recorder.hh: its tables, and `PacketSink`.
use mirakc_arib.Prelude.{
  ℕ, Bool, true, false, not, ◌&&◌, Option, none, some, List, [], ◌∷◌, ℤ, leb, lookup, ◌==◌,
  if◌then◌else◌, maybe, ◌>>=◌,
}
use mirakc_arib.Pcr.{max_pcr}
use mirakc_arib.Clock.{has_pid, is_ready, set_pid, update_time, update_pcr}
use mirakc_arib.Tables.{
  Packet, Pat, Pmt, Eit, Tot, Table, pat, pmt, tot, eit_pf_act, add_pid, remove_pid, pid_pat,
  pid_null,
}
use mirakc_arib.Recorder.{
  State, preparing, recording, finished, ServiceRecorder, PacketRingSink, start_message,
  stop_message, feed_document, get_event, on_preparing, on_recording,
}

unfoldable pub handle_pat : {S : Type 0} → ServiceRecorder S → Pat → Option (ServiceRecorder S)
handle_pat s t =
    let named = maybe (lookup s.option.sid t.pmts) none λ new_pmt_pid.
      let removed = if s.pmt_pid == pid_null then s.demux else remove_pid s.pmt_pid ∷ s.demux in
      some (record s { demux = add_pid new_pmt_pid ∷ removed; pmt_pid = new_pmt_pid }) in
    if not (t.source_pid == pid_pat)
    then some s
    else if not t.is_valid
    then some s
    else if t.ts_id == 0
    then some s
    else named

unfoldable pub handle_pmt : {S : Type 0} → ServiceRecorder S → Pmt → ServiceRecorder S
handle_pmt s t =
    let moved = record s { clock = set_pid s.clock t.pcr_pid } in
    if not t.is_valid
    then s
    else if not (t.service_id == s.option.sid)
    then s
    else if not (has_pid s.clock)
    then moved
    else if not (s.clock.baseline.pid == t.pcr_pid)
    then moved
    else s

unfoldable pub handle_eit : {S : Type 0} → ServiceRecorder S → Eit → ServiceRecorder S
handle_eit s t =
    if not t.is_valid
    then s
    else if not (t.service_id == s.option.sid)
    then s
    else maybe (get_event (some t)) s λ event. record s { new_eit = some t }

unfoldable pub handle_tot : {S : Type 0} → ServiceRecorder S → ℤ → Tot → Option (ServiceRecorder S)
handle_tot s local_time t =
    let updated =
      update_time s.clock local_time t.utc_time >>= λ clock. some (record s { clock = clock }) in
    if not t.is_valid then some s else updated

unfoldable pub handle_table :
    {S : Type 0} → ServiceRecorder S → ℤ → Table → Option (ServiceRecorder S)
handle_table s local_time (pat t) = handle_pat s t
handle_table s local_time (pmt t) = some (handle_pmt s t)
handle_table s local_time (eit_pf_act t) = some (handle_eit s t)
handle_table s local_time (tot t) = handle_tot s local_time t
handle_table s local_time _ = some s

-- `demux_.feedPacket`: the tables that it hands on, in order.
unfoldable pub feed_packet :
    {S : Type 0} → ServiceRecorder S → ℤ → List Table → Option (ServiceRecorder S)
feed_packet s local_time [] = some s
feed_packet s local_time (t ∷ ts) =
    handle_table s local_time t >>= λ s'. feed_packet s' local_time ts

-- The PCR of a packet, to the clock; one that is not valid is ignored.
unfoldable pub feed_pcr : {S : Type 0} → ServiceRecorder S → Packet → Option (ServiceRecorder S)
feed_pcr s packet =
    let taken = λ (pcr : ℕ).
      (if leb pcr max_pcr
        then (update_pcr s.clock pcr >>= λ clock. some (record s { clock = clock }))
        else some s) in
    if has_pid s.clock && (s.clock.baseline.pid == packet.pid)
    then maybe packet.pcr (some s) taken
    else some s

module _ {S : Type 0} (ring : PacketRingSink S) where
  unfoldable pub start : ServiceRecorder S → ServiceRecorder S × Bool
  start s =
      let (sink, ok) = ring.start s.sink in
      let (sink', moved) = ring.set_position sink s.option.start_pos in
      let started : S → ServiceRecorder S × Bool =
        λ ready. (feed_document (record s { sink = ready }) start_message, true) in
      if not ok
      then (record s { sink = sink }, false)
      else if s.option.start_pos == 0
      then started sink
      else if not moved
      then (record s { sink = sink' }, false)
      else started sink'

  unfoldable pub end_recorder : ServiceRecorder S → ServiceRecorder S
  end_recorder s =
      let s' = feed_document s (stop_message (ring.is_broken s.sink)) in
      record s' { sink = ring.end_ s.sink }

  unfoldable pub dispatch :
      State → ServiceRecorder S → ℤ → Packet → Option (ServiceRecorder S × Bool)
  dispatch preparing s local_time packet = on_preparing ring s local_time (is_ready s.clock)
  dispatch recording s local_time packet = on_recording ring s local_time packet
  dispatch finished s local_time packet = some (s, false)

  unfoldable pub handle_packet :
      ServiceRecorder S → ℤ → Packet → List Table → Option (ServiceRecorder S × Bool)
  handle_packet s local_time packet tables = feed_pcr s packet >>= λ s'.
      feed_packet s' local_time tables >>= λ s''. dispatch s''.state s'' local_time packet
