-- ===== src/Seeker.antt =====
-- `StartSeeker` of src/start_seeker.hh, connected to its sink: it holds packets back until the
-- content changes or a limit is reached. A failed assertion, and a read past the packets held, is
-- `none`. The demux calls are kept newest first; `end_pcr` is `none` for the source's -1.
pub mod Limits
pub mod Duration
use mirakc_arib.Prelude.{
  ℕ, ◌+◌, ◌*◌, ◌%◌, Bool, true, false, not, ◌&&◌, Option, none, some, List, [], ◌∷◌, ◌++◌, pos,
  ltb_ℤ, length, get_elem?, drop, all, contains, insert, lookup, ltb, leb, ◌==◌, if◌then◌else◌,
  maybe, ◌>>=◌, ◌>>◌, assert,
}
use mirakc_arib.Pcr.{max_pcr, pcr_upper_bound, pcr_ticks_per_ms, compare_pcr}
use mirakc_arib.Sink.{PacketSink}
use mirakc_arib.Tables.{
  Packet, Pat, Stream, Pmt, Table, pat, pmt, DemuxCall, add_pid, remove_pid, pid_pat, pid_null,
}

-- `max_packets` is a `uint32_t`: the loading of the options cuts it to below 2 ^ 32.
pub record StartSeekerOption : Type 0 where
  pub sid : ℕ
  pub max_duration : ℕ
  pub max_packets : ℕ

pub data State : Type 0 where
  seek streaming : State

pub record StartSeeker (S : Type 0) : Type 0 where
  pub option : StartSeekerOption
  pub demux : List DemuxCall
  pub sink : S
  pub state : State
  pub packets : List Packet
  pub pmt_pid : ℕ
  pub pcr_pid : ℕ
  pub video_pids : List ℕ
  pub audio_pids : List ℕ
  pub end_pcr : Option ℕ
  pub transition_index : ℕ
  pub pat_index : ℕ

unfoldable pub create : {S : Type 0} → StartSeekerOption → S → StartSeeker S
create option sink = record {
  option = option;
  demux = add_pid pid_pat ∷ [];
  sink = sink;
  state = seek;
  packets = [];
  pmt_pid = pid_null;
  pcr_pid = pid_null;
  video_pids = [];
  audio_pids = [];
  end_pcr = none;
  transition_index = 0;
  pat_index = 0;
}

-- The PIDs of the streams that a test selects, as a set.
unfoldable pub select_pids : (Stream → Bool) → List Stream → List ℕ
select_pids test [] = []
select_pids test (stream ∷ streams) =
    let pids = select_pids test streams in if test stream then insert stream.pid pids else pids

-- `!a.empty() && a != b` of two sets.
unfoldable pub is_changed : List ℕ → List ℕ → Bool
is_changed [] new = false
is_changed (p ∷ old) new =
    not (all (λ q. contains q new) (p ∷ old) && all (λ q. contains q (p ∷ old)) new)

unfoldable pub handle_pat : {S : Type 0} → StartSeeker S → Pat → Option (StartSeeker S)
handle_pat s t =
    let named = maybe (lookup s.option.sid t.pmts) none λ new_pmt_pid.
      let removed = if s.pmt_pid == pid_null then s.demux else remove_pid s.pmt_pid ∷ s.demux in
      some (record s {
        demux = add_pid new_pmt_pid ∷ removed;
        pmt_pid = new_pmt_pid;
        pat_index = t.first_packet_index;
      }) in
    if not (t.source_pid == pid_pat)
    then some s
    else if not t.is_valid
    then some s
    else if t.ts_id == 0
    then some s
    else named

unfoldable pub handle_pmt : {S : Type 0} → StartSeeker S → Pmt → StartSeeker S
handle_pmt s t =
    let video_pids = select_pids (λ stream. stream.is_video) t.streams in
    let audio_pids = select_pids (λ stream. stream.is_audio) t.streams in
    let changed =
      if is_changed s.video_pids video_pids then true else is_changed s.audio_pids audio_pids in
    let s' = record s { pcr_pid = t.pcr_pid; video_pids = video_pids; audio_pids = audio_pids } in
    let moved = record s' {
      transition_index = t.first_packet_index;
      demux = remove_pid pid_pat ∷ remove_pid s.pmt_pid ∷ s.demux;
      pmt_pid = pid_null;
    } in
    if not t.is_valid
    then s
    else if not (t.service_id == s.option.sid)
    then s
    else if changed
    then moved
    else s'

unfoldable pub handle_table : {S : Type 0} → StartSeeker S → Table → Option (StartSeeker S)
handle_table s (pat t) = handle_pat s t
handle_table s (pmt t) = some (handle_pmt s t)
handle_table s _ = some s

unfoldable pub feed_packet : {S : Type 0} → StartSeeker S → List Table → Option (StartSeeker S)
feed_packet s [] = some s
feed_packet s (t ∷ ts) = handle_table s t >>= λ s'. feed_packet s' ts

module _ {S : Type 0} (downstream : PacketSink S Packet) where
  -- The loop of `SendPackets`: the sink after it.
  unfoldable pub send_all : S → List Packet → S
  send_all sink [] = sink
  send_all sink (packet ∷ packets) =
      let (sink', ok) = downstream.handle_packet sink packet in
      let rest = send_all sink' packets in if ok then rest else sink'

  -- `SendPackets` from an index on; its result is never read.
  unfoldable pub send_packets : StartSeeker S → ℕ → StartSeeker S
  send_packets s index = record s { sink = send_all s.sink (drop index s.packets); packets = [] }

  -- `SendPacket`, whose result is never read.
  unfoldable pub send_packet : StartSeeker S → ℕ → Option (StartSeeker S)
  send_packet s index =
      maybe (get_elem? s.packets index) none
        λ packet. some (record s { sink = (downstream.handle_packet s.sink packet).0 })

  -- All that is held is sent, and the streaming starts.
  unfoldable pub start_streaming : StartSeeker S → StartSeeker S
  unfolding send_packets
  start_streaming s = record (send_packets s 0) { state = streaming }

  -- The part of `Seek` about the duration: `s` holds the packet already.
  unfoldable pub check_duration : StartSeeker S → Packet → Option (StartSeeker S × Bool)
  check_duration s packet =
      let end_at =
        λ (pcr : ℕ). (pcr + s.option.max_duration * pcr_ticks_per_ms) % pcr_upper_bound in
      let has_pcr = s.pcr_pid == packet.pid && not (s.pcr_pid == pid_null) in
      let compared = λ (pcr end_pcr : ℕ).
        assert (leb pcr max_pcr)
        >> (assert (leb end_pcr max_pcr)
            >> some
                (if ltb_ℤ (compare_pcr pcr end_pcr) (pos 0) then s else start_streaming s, true)) in
      let timed = maybe packet.pcr (some (s, true)) λ pcr.
        maybe s.end_pcr (some (record s { end_pcr = some (end_at pcr) }, true)) (compared pcr) in
      if has_pcr then timed else some (s, true)

  unfoldable pub seek_packet : StartSeeker S → Packet → Option (StartSeeker S × Bool)
  seek_packet s₀ packet =
      let s = record s₀ { packets = s₀.packets ++ packet ∷ [] } in
      let transition = send_packet s s.pat_index >>= λ s'.
      some (record (send_packets s' s.transition_index) { state = streaming }, true) in
      let bounded =
        assert (ltb (length s.packets) s.option.max_packets) >> check_duration s packet in
      if ltb 0 s.transition_index
      then transition
      else if s.option.max_packets == 0
      then check_duration s packet
      else if s.option.max_packets == length s.packets
      then some (start_streaming s, true)
      else bounded

  unfoldable pub do_streaming : StartSeeker S → Packet → StartSeeker S × Bool
  do_streaming s packet =
      let (sink, ok) = downstream.handle_packet s.sink packet in (record s { sink = sink }, ok)

  unfoldable pub dispatch : State → StartSeeker S → Packet → Option (StartSeeker S × Bool)
  dispatch seek s packet = seek_packet s packet
  dispatch streaming s packet = some (do_streaming s packet)

  unfoldable pub handle_packet : StartSeeker S → Packet → List Table → Option (StartSeeker S × Bool)
  handle_packet s packet tables = feed_packet s tables >>= λ s'. dispatch s'.state s' packet

  -- `End`
  unfoldable pub end_seek : StartSeeker S → StartSeeker S
  end_seek s = let s' = send_packets s 0 in record s' { sink = downstream.end_ s'.sink }
