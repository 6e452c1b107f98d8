-- ===== src/PesPrinter.antt =====
-- `PesPrinter` of src/pes_printer.hh: it prints the times of the PCRs, the PTSs and the DTSs, and what
-- the tables name. A failed assertion is `none`. The lines are values, oldest first, without the
-- versions, the stream types and the times of events. Whether a stream has subtitles is TSDuck's to say,
-- a parameter, and the local time is one value for each packet. The demux calls are kept newest first.
pub mod Frames
pub mod Clocks
use mirakc_arib.Prelude.{
  ℕ, ◌*◌, Bool, true, false, not, ◌&&◌, Option, none, some, List, [], ◌∷◌, ◌++◌, ℤ, contains,
  insert, lookup, put_sorted, leb, ◌==◌, if◌then◌else◌, maybe, ◌>>=◌, ◌>>◌, assert,
}
use mirakc_arib.Pcr.{max_pcr, max_pcr_ext}
use mirakc_arib.Clock as Clock
use mirakc_arib.Clock.{Clock, new_baseline}
use mirakc_arib.Tables.{
  Pat, Cat, Stream, Pmt, Event, Eit, Tot, Table, pat, cat, pmt, tot, eit_pf_act, DemuxCall, add_pid,
  remove_pid, pid_pat, pid_cat, pid_eit, pid_tot, pid_null,
}

-- What the printer reads of a packet. A PTS or DTS counts at 90 kHz.
pub record PesPacket : Type 0 where
  pub pid : ℕ
  pub pcr : Option ℕ
  pub pts : Option ℕ
  pub dts : Option ℕ

pub data StreamType : Type 0 where
  audio video subtitle arib_subtitle arib_superimposed_text other_type : StreamType

pub record StreamInfo : Type 0 where
  pub type_ : StreamType
  pub pcr_pid : ℕ

-- What a line is about. The stream's type is `none` for a PID that no PMT has named.
pub data Subject : Type 0 where
  pcr_of : ℕ → Subject
  pts_of : Option StreamType → ℕ → Subject
  dts_of : Option StreamType → ℕ → Subject
  pat_from : ℕ → Subject
  pat_entry : ℕ → ℕ → Subject
  cat_line : Subject
  pmt_of : ℕ → ℕ → Subject
  stream_of : ℕ → StreamType → Subject
  eit_of : ℕ → Subject
  event_of : ℕ → Subject
  tot_line : Subject

pub record Line : Type 0 where
  pub time : Option ℤ
  pub pcr : Option ℕ
  pub subject : Subject

pub record PesPrinter : Type 0 where
  pub demux : List DemuxCall
  pub sids : List ℕ
  pub pmt_pids : List ℕ
  pub clock_map : List (ℕ × Clock)
  pub stream_map : List (ℕ × StreamInfo)
  pub done : Bool
  pub lines : List Line

-- The constructor.
abbrev pub create : PesPrinter
create = record {
  demux = add_pid pid_tot ∷ add_pid pid_eit ∷ add_pid pid_cat ∷ add_pid pid_pat ∷ [];
  sids = [];
  pmt_pids = [];
  clock_map = [];
  stream_map = [];
  done = false;
  lines = [];
}

unfoldable pub check_component_tag_by_range : Stream → ℕ → ℕ → Bool
check_component_tag_by_range stream min_ max_ =
    maybe stream.component_tag false (λ tag. leb min_ tag && leb tag max_)

unfoldable pub is_arib_subtitle : Stream → Bool
is_arib_subtitle stream = check_component_tag_by_range stream 0x30 0x37

unfoldable pub is_arib_superimposed_text : Stream → Bool
is_arib_superimposed_text stream = check_component_tag_by_range stream 0x38 0x3F

unfoldable pub print_line : PesPrinter → Option ℤ → Option ℕ → Subject → PesPrinter
print_line s time pcr subject = record s {
  lines = s.lines ++ record { time = time; pcr = pcr; subject = subject } ∷ [];
}

-- `Print` of a PCR: with the time that the clock gives it, if the clock is there and ready.
unfoldable pub print_pcr : PesPrinter → ℕ → ℕ → Subject → Option PesPrinter
print_pcr s pcr_pid pcr subject =
    let untimed = assert (leb pcr max_pcr) >> some (print_line s none (some pcr) subject) in
    maybe (lookup pcr_pid s.clock_map) untimed (λ clock.
      let timed = Clock.pcr_to_time clock pcr >>= λ time.
      assert (leb pcr max_pcr) >> some (print_line s (some time) (some pcr) subject) in
      if Clock.is_ready clock then timed else untimed)

-- The PCR of a packet, of a clock that is there.
unfoldable pub handle_pcr : PesPrinter → ℕ → Option ℕ → Option PesPrinter
handle_pcr s pid pcr = maybe pcr (some s) (λ value.
    maybe (lookup pid s.clock_map) (some s) (λ clock. Clock.update_pcr clock value >>= λ clock'.
    print_pcr (record s { clock_map = put_sorted pid clock' s.clock_map }) pid value (pcr_of pid)))

-- A PTS or a DTS, as a PCR of the clock of its stream.
unfoldable pub print_stamp : PesPrinter → ℕ → ℕ → (Option StreamType → Subject) → Option PesPrinter
print_stamp s pid stamp subject =
    let pcr = stamp * max_pcr_ext in
    assert (leb pcr max_pcr)
    >> maybe (lookup pid s.stream_map) (print_pcr s pid_null pcr (subject none))
        (λ info. print_pcr s info.pcr_pid pcr (subject (some info.type_)))

unfoldable pub handle_pts : PesPrinter → ℕ → Option ℕ → Option PesPrinter
handle_pts s pid pts =
    maybe pts (some s) (λ stamp. print_stamp s pid stamp (λ type_. pts_of type_ pid))

unfoldable pub handle_dts : PesPrinter → ℕ → Option ℕ → Option PesPrinter
handle_dts s pid dts =
    maybe dts (some s) (λ stamp. print_stamp s pid stamp (λ type_. dts_of type_ pid))

abbrev pub removals : List ℕ → List DemuxCall → List DemuxCall
removals [] demux = demux
removals (pid ∷ pids) demux = removals pids (remove_pid pid ∷ demux)

unfoldable pub reset_states : PesPrinter → PesPrinter
reset_states s = record s {
  demux = removals s.pmt_pids s.demux;
  sids = [];
  pmt_pids = [];
  done = false;
}

-- The loop over the services of a PAT, which are taken from the PAT's own PID alone.
unfoldable pub print_services : Bool → List (ℕ × ℕ) → PesPrinter → PesPrinter
print_services taken [] s = s
print_services taken ((sid, pmt_pid) ∷ pmts) s =
    let s' = print_line s none none (pat_entry sid pmt_pid) in
    print_services taken pmts (
      if taken
      then record s' {
        demux = add_pid pmt_pid ∷ s'.demux;
        sids = insert sid s'.sids;
        pmt_pids = s'.pmt_pids ++ pmt_pid ∷ [];
      }
      else s')

abbrev pub is_nil : List ℕ → Bool
is_nil [] = true
is_nil (pid ∷ pids) = false

unfoldable pub handle_pat : PesPrinter → Pat → PesPrinter
handle_pat s t =
    let s' = print_line (reset_states s) none none (pat_from t.source_pid) in
    let taken = print_services true t.pmts s' in
    if not t.is_valid
    then s
    else if t.source_pid == pid_pat
    then (if is_nil taken.pmt_pids then record taken { done = true } else taken)
    else print_services false t.pmts s'

unfoldable pub handle_cat : PesPrinter → Cat → PesPrinter
handle_cat s t = if not t.is_valid then s else print_line s none none cat_line

unfoldable pub print_events : List Event → PesPrinter → PesPrinter
print_events [] s = s
print_events (event ∷ events) s =
    print_events events (print_line s none none (event_of event.event_id))

unfoldable pub handle_eit : PesPrinter → Eit → PesPrinter
handle_eit s eit =
    if not eit.is_valid
    then s
    else if not (contains eit.service_id s.sids)
    then s
    else print_events eit.events (print_line s none none (eit_of eit.service_id))

-- The loop over the clocks.
unfoldable pub update_times : ℤ → ℤ → List (ℕ × Clock) → Option (List (ℕ × Clock))
update_times local_time time [] = some []
update_times local_time time ((pid, clock) ∷ clocks) =
    Clock.update_time clock local_time time >>= λ clock'.
    update_times local_time time clocks >>= λ clocks'. some ((pid, clock') ∷ clocks')

unfoldable pub handle_tot : ℤ → PesPrinter → Tot → Option PesPrinter
handle_tot local_time s t =
    let s' = print_line s (some t.utc_time) none tot_line in
    let updated = update_times local_time t.utc_time s.clock_map >>= λ clocks.
    some (record s' { clock_map = clocks }) in
    if not t.is_valid then some s else updated

module _ (is_subtitles : Stream → Bool) where
  unfoldable pub stream_type : Stream → StreamType
  stream_type stream =
      if stream.is_audio
      then audio
      else if stream.is_video
      then video
      else if is_subtitles stream
      then subtitle
      else if is_arib_subtitle stream
      then arib_subtitle
      else if is_arib_superimposed_text stream
      then arib_superimposed_text
      else other_type

  -- The loop over the streams of a PMT.
  unfoldable pub print_streams : ℕ → List Stream → PesPrinter → PesPrinter
  print_streams pcr_pid [] s = s
  print_streams pcr_pid (stream ∷ streams) s =
      let type_ = stream_type stream in
      let s' : PesPrinter = record s {
        stream_map =
            put_sorted stream.pid (record { type_ = type_; pcr_pid = pcr_pid }) s.stream_map;
      } in
      print_streams pcr_pid streams (print_line s' none none (stream_of stream.pid type_))

  unfoldable pub handle_pmt : PesPrinter → Pmt → PesPrinter
  handle_pmt s t =
      let s' = print_line s none none (pmt_of t.service_id t.pcr_pid) in
      let clock = Clock.set_pid (Clock.create new_baseline) t.pcr_pid in
      let clocked =
        if not (t.pcr_pid == pid_null)
        then record s' { clock_map = put_sorted t.pcr_pid clock s'.clock_map }
        else s' in
      if not t.is_valid then s else print_streams t.pcr_pid t.streams clocked

  unfoldable pub handle_table : ℤ → PesPrinter → Table → Option PesPrinter
  handle_table local_time s (pat t) = some (handle_pat s t)
  handle_table local_time s (cat t) = some (handle_cat s t)
  handle_table local_time s (pmt t) = some (handle_pmt s t)
  handle_table local_time s (eit_pf_act eit) = some (handle_eit s eit)
  handle_table local_time s (tot t) = handle_tot local_time s t
  handle_table local_time s _ = some s

  -- `demux_.feedPacket`: the tables that it hands on, in order.
  unfoldable pub feed_packet : ℤ → PesPrinter → List Table → Option PesPrinter
  feed_packet local_time s [] = some s
  feed_packet local_time s (t ∷ ts) =
      handle_table local_time s t >>= λ s'. feed_packet local_time s' ts

  unfoldable pub handle_packet :
      ℤ → PesPrinter → PesPacket → List Table → Option (PesPrinter × Bool)
  handle_packet local_time s packet tables = handle_pcr s packet.pid packet.pcr >>= λ s1.
      handle_pts s1 packet.pid packet.pts >>= λ s2. handle_dts s2 packet.pid packet.dts >>= λ s3.
      feed_packet local_time s3 tables >>= λ s4. some (s4, not s4.done)
