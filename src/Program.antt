-- ===== src/Program.antt =====
-- `ProgramFilter` of src/program_filter.hh, connected to its sink: its state and what it does with
-- the tables. A failed assertion is `none`. Times are milliseconds, and the clock's PCR in the options
-- is taken to be no less than 0. The demux calls are kept newest first.
pub mod Packets
pub mod Times
pub mod Range
pub mod Start
pub mod Moved
pub mod Sending
pub mod Window
use mirakc_arib.Prelude.{
  ℕ, ◌+◌, ◌*◌, Bool, true, false, not, ◌&&◌, ◌||◌, Option, none, some, List, [], ◌∷◌, ℤ, pos, ◌+ℤ◌,
  ◌-ℤ◌, scale, ltb_ℤ, contains, insert, lookup, select, ltb, leb, ◌==◌, if◌then◌else◌, has_value,
  maybe, ◌>>=◌, ◌>>◌, assert,
}
use mirakc_arib.Pcr.{max_pcr, time_to_pcr}
use mirakc_arib.Tables.{
  Packet, Pat, Stream, Pmt, Event, Eit, Tot, Table, pat, pmt, tot, eit_pf_act, DemuxCall, add_pid,
  remove_pid, Packetizer, pid_pat, pid_eit, pid_tot, pid_null,
}

pub record ProgramFilterOption : Type 0 where
  pub sid : ℕ
  pub eid : ℕ
  pub clock_pid : ℕ
  pub clock_pcr : ℕ
  pub clock_time : ℤ
  pub audio_tags : List ℕ
  pub video_tags : List ℕ
  pub start_margin : ℤ
  pub end_margin : ℤ
  pub wait_until : Option ℤ
  pub pre_streaming : Bool

pub data State : Type 0 where
  wait_ready streaming : State

pub record ProgramFilter (S Z : Type 0) : Type 0 where
  pub option : ProgramFilterOption
  pub demux : List DemuxCall
  pub sink : S
  pub state : State
  pub last_pat_packets : List Packet
  pub pes_black_list : List ℕ
  pub pmt_packetizer : Z
  pub clock_pid : ℕ
  pub clock_pcr : ℕ
  pub clock_time : ℤ
  pub pmt_pid : ℕ
  pub pcr_pid : ℕ
  pub event_start_time : ℤ
  pub event_end_time : ℤ
  pub start_pcr : ℕ
  pub end_pcr : ℕ
  pub pcr_pid_ready : Bool
  pub event_time_ready : Bool
  pub clock_pcr_ready : Bool
  pub clock_time_ready : Bool
  pub stop : Bool
  pub retry : Bool

-- The constructor, with the packetizer that it makes and the sink of `Connect`.
unfoldable pub create : {S Z : Type 0} → ProgramFilterOption → Z → S → ProgramFilter S Z
create option packetizer sink = record {
  option = option;
  demux = add_pid pid_tot ∷ add_pid pid_eit ∷ add_pid pid_pat ∷ [];
  sink = sink;
  state = wait_ready;
  last_pat_packets = [];
  pes_black_list = [];
  pmt_packetizer = packetizer;
  clock_pid = option.clock_pid;
  clock_pcr = option.clock_pcr;
  clock_time = option.clock_time;
  pmt_pid = pid_null;
  pcr_pid = pid_null;
  event_start_time = pos 0;
  event_end_time = pos 0;
  start_pcr = 0;
  end_pcr = 0;
  pcr_pid_ready = false;
  event_time_ready = false;
  clock_pcr_ready = true;
  clock_time_ready = true;
  stop = false;
  retry = false;
}

-- `state_ == kStreaming`
abbrev pub is_streaming : State → Bool
is_streaming wait_ready = false
is_streaming streaming = true

unfoldable pub need_clock_sync : {S Z : Type 0} → ProgramFilter S Z → Bool
need_clock_sync s = not s.clock_time_ready || not s.clock_pcr_ready

unfoldable pub convert_time_to_pcr : {S Z : Type 0} → ProgramFilter S Z → ℤ → Option ℕ
convert_time_to_pcr s time =
    assert s.clock_pcr_ready
    >> (assert s.clock_time_ready
        >> (assert (leb s.clock_pcr max_pcr) >> some (time_to_pcr s.clock_pcr s.clock_time time)))

unfoldable pub update_pcr_range : {S Z : Type 0} → ProgramFilter S Z → Option (ProgramFilter S Z)
update_pcr_range s = do
  assert s.event_time_ready
  assert s.clock_pcr_ready
  assert s.clock_time_ready
  start_pcr ← convert_time_to_pcr s s.event_start_time
  end_pcr ← convert_time_to_pcr s s.event_end_time
  some (record s { start_pcr = start_pcr; end_pcr = end_pcr })

unfoldable pub update_event_time :
    {S Z : Type 0} → ProgramFilter S Z → Event → Option (ProgramFilter S Z)
update_event_time s event =
    let duration = scale 1000 event.duration +ℤ s.option.end_margin in
    let s' = record s {
      event_start_time = event.start_time -ℤ s.option.start_margin;
      event_end_time = event.start_time +ℤ duration;
      event_time_ready = true;
    } in
    if s'.clock_time_ready && s'.clock_pcr_ready then update_pcr_range s' else some s'

unfoldable pub update_clock_pcr :
    {S Z : Type 0} → ProgramFilter S Z → ℕ → Option (ProgramFilter S Z)
update_clock_pcr s pcr =
    let s' = record s { clock_pcr = pcr; clock_pcr_ready = true } in
    assert (need_clock_sync s)
    >> (if s'.event_time_ready && s'.clock_time_ready then update_pcr_range s' else some s')

unfoldable pub update_clock_time :
    {S Z : Type 0} → ProgramFilter S Z → ℤ → Option (ProgramFilter S Z)
update_clock_time s time =
    let s' = record s { clock_time = time; clock_time_ready = true } in
    assert (not s.clock_time_ready)
    >> (if s'.event_time_ready && s'.clock_pcr_ready then update_pcr_range s' else some s')

unfoldable pub handle_pat : {S Z : Type 0} → ProgramFilter S Z → Pat → Option (ProgramFilter S Z)
handle_pat s t =
    let named = maybe (lookup s.option.sid t.pmts) none λ new_pmt_pid.
      let removed = if s.pmt_pid == pid_null then s.demux else remove_pid s.pmt_pid ∷ s.demux in
      some (record s { demux = add_pid new_pmt_pid ∷ removed; pmt_pid = new_pmt_pid }) in
    if not (t.source_pid == pid_pat)
    then some s
    else if not t.is_valid
    then some s
    else if t.ts_id == 0
    then some s
    else named

-- Whether a stream of a kind has none of the tags that are asked for.
abbrev pub is_tag_unlisted : List ℕ → Option ℕ → Bool
is_tag_unlisted tags none = true
is_tag_unlisted tags (some tag) = not (contains tag tags)

abbrev pub is_empty : List ℕ → Bool
is_empty [] = true
is_empty (tag ∷ tags) = false

unfoldable pub is_black : ProgramFilterOption → Stream → Bool
is_black option stream =
    if stream.is_video && not (is_empty option.video_tags)
    then is_tag_unlisted option.video_tags stream.component_tag
    else if stream.is_audio && not (is_empty option.audio_tags)
    then is_tag_unlisted option.audio_tags stream.component_tag
    else false

unfoldable pub black_list : ProgramFilterOption → List Stream → List ℕ
black_list option [] = []
black_list option (stream ∷ streams) =
    let pids = black_list option streams in
    if is_black option stream then insert stream.pid pids else pids

unfoldable pub check_pes_black_list_for_drop : {S Z : Type 0} → ProgramFilter S Z → ℕ → Bool
check_pes_black_list_for_drop s pid = contains pid s.pes_black_list

module _ {S Z : Type 0} (packetizer : Packetizer Z Pmt) where
  unfoldable pub handle_pmt : ProgramFilter S Z → Pmt → ProgramFilter S Z
  handle_pmt s t =
      let black = black_list s.option t.streams in
      let left = record t {
        streams = select (λ stream. not (contains stream.pid black)) t.streams;
      } in
      let moved = not (s.clock_pid == t.pcr_pid) in
      let s' = record s {
        pcr_pid = t.pcr_pid;
        pcr_pid_ready = true;
        clock_pid = t.pcr_pid;
        clock_pcr_ready = if moved then false else s.clock_pcr_ready;
        clock_time_ready = if moved then false else s.clock_time_ready;
        pes_black_list = black;
        pmt_packetizer =
            packetizer.add_table left
              (packetizer.set_pid t.source_pid (packetizer.remove_all s.pmt_packetizer));
      } in
      if not t.is_valid then s else if not (t.service_id == s.option.sid) then s else s'

  -- The event is in neither place of the EIT: `cancel` is whether to give up.
  unfoldable pub missing_event : ProgramFilter S Z → Bool → ProgramFilter S Z
  missing_event s cancel =
      if is_streaming s.state then s else if cancel then record s { stop = true } else s

  unfoldable pub handle_events : ProgramFilter S Z → List Event → Option (ProgramFilter S Z)
  handle_events s [] = some (record s { stop = true })
  handle_events s (present ∷ []) =
      if present.event_id == s.option.eid
      then update_event_time s present
      else some (missing_event s true)
  handle_events s (present ∷ following ∷ events) =
      if present.event_id == s.option.eid
      then update_event_time s present
      else if following.event_id == s.option.eid
      then update_event_time s following
      else some (missing_event s (not (has_value s.option.wait_until)))

  unfoldable pub handle_eit : ProgramFilter S Z → Eit → Option (ProgramFilter S Z)
  handle_eit s t =
      if not t.is_valid
      then some s
      else if not (t.service_id == s.option.sid)
      then some s
      else handle_events s t.events

  unfoldable pub check_time_limit : ProgramFilter S Z → ℤ → ProgramFilter S Z
  check_time_limit s jst_time =
      maybe s.option.wait_until s
        (λ limit. if ltb_ℤ limit jst_time then record s { stop = true } else s)

  unfoldable pub handle_tot : ProgramFilter S Z → Tot → Option (ProgramFilter S Z)
  handle_tot s t =
      let s' = if is_streaming s.state then s else check_time_limit s t.utc_time in
      if not t.is_valid
      then some s
      else if s'.clock_time_ready
      then some s'
      else update_clock_time s' t.utc_time

  unfoldable pub handle_table : ProgramFilter S Z → Table → Option (ProgramFilter S Z)
  handle_table s (pat t) = handle_pat s t
  handle_table s (pmt t) = some (handle_pmt s t)
  handle_table s (eit_pf_act t) = handle_eit s t
  handle_table s (tot t) = handle_tot s t
  handle_table s _ = some s

  -- `demux_.feedPacket`: the tables that it hands on, in order.
  unfoldable pub feed_packet : ProgramFilter S Z → List Table → Option (ProgramFilter S Z)
  feed_packet s [] = some s
  feed_packet s (t ∷ ts) = handle_table s t >>= λ s'. feed_packet s' ts
