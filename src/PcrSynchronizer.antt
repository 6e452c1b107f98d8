-- ===== src/PcrSynchronizer.antt =====
-- `PcrSynchronizer` of src/pcr_synchronizer.hh: it waits for the PAT, the SDT, the PMTs of the
-- services and a TOT, and then takes a PCR of each clock. A failed assertion is `none`. Times are
-- milliseconds in JST, signed. The demux calls are kept newest first. The logs are left out.
pub mod Fields
pub mod Steps
pub mod Counts
use mirakc_arib.Prelude.{
  ℕ, suc, ◌+◌, Bool, true, false, not, ◌||◌, ◌&&◌, Option, none, some, List, [], ◌∷◌, ◌++◌, ℤ, pos,
  ◌-ℤ◌, ◌+ℤ◌, contains, insert, length, lookup, put_sorted, leb, ◌==◌, if◌then◌else◌, has_value,
  maybe, ◌>>◌, assert,
}
use mirakc_arib.SidSet.{SidSet, is_empty, contain}
use mirakc_arib.Sink.{exit_success, exit_failure}
use mirakc_arib.Pcr.{max_pcr}
use mirakc_arib.Tables.{
  Packet, Pat, Pmt, Sdt, Tot, Table, pat, pmt, sdt_act, tot, DemuxCall, add_pid, remove_pid,
  pid_pat, pid_sdt, pid_tot, pid_null,
}

-- `kJstTzOffset`
abbrev pub jst_tz_offset : ℕ
jst_tz_offset = 32400000

-- `ConvertJstTimeToUnixTime`, with times from the Unix epoch.
unfoldable pub convert_jst_time_to_unix_time : ℤ → ℤ
convert_jst_time_to_unix_time jst_time = jst_time -ℤ pos jst_tz_offset

-- `ConvertUnixTimeToJstTime`, with times from the Unix epoch.
unfoldable pub convert_unix_time_to_jst_time : ℤ → ℤ
convert_unix_time_to_jst_time unix_time = pos jst_tz_offset +ℤ unix_time

unfoldable pub is_audio_video_service : ℕ → Bool
is_audio_video_service service_type =
    contains service_type (0x01 ∷ 0x02 ∷ 0xA1 ∷ 0xA2 ∷ 0xA5 ∷ 0xA6 ∷ 0xAD ∷ [])

pub record PcrSynchronizerOption : Type 0 where
  pub sids : SidSet
  pub xsids : SidSet

-- An entry of the document: the clock of a service.
pub record ServiceClock : Type 0 where
  pub nid : ℕ
  pub tsid : ℕ
  pub sid : ℕ
  pub pid : ℕ
  pub pcr : ℕ
  pub time : ℤ

pub record PcrSynchronizer : Type 0 where
  pub option : PcrSynchronizerOption
  pub demux : List DemuxCall
  pub pmt_pids : List (ℕ × ℕ)
  pub nid : ℕ
  pub tsid : ℕ
  pub pmt_count : ℕ
  pub pcr_pid_map : List (ℕ × ℕ)
  pub pcr_pids : List ℕ
  pub pcr_map : List (ℕ × ℕ)
  pub time : ℤ
  pub started : Bool
  pub done : Bool
  pub documents : List (List ServiceClock)

-- The constructor.
unfoldable pub create : PcrSynchronizerOption → PcrSynchronizer
create option = record {
  option = option;
  demux = add_pid pid_pat ∷ [];
  pmt_pids = [];
  nid = 0;
  tsid = 0;
  pmt_count = 0;
  pcr_pid_map = [];
  pcr_pids = [];
  pcr_map = [];
  time = pos 0;
  started = false;
  done = false;
  documents = [];
}

-- The clocks of the services whose PCR is known.
unfoldable pub clocks : PcrSynchronizer → List (ℕ × ℕ) → List ServiceClock
clocks s [] = []
clocks s ((sid, pcr_pid) ∷ services) =
    let rest = clocks s services in
    maybe (lookup pcr_pid s.pcr_map) rest (λ pcr.
      record {
        nid = s.nid;
        tsid = s.tsid;
        sid = sid;
        pid = pcr_pid;
        pcr = pcr;
        time = convert_jst_time_to_unix_time s.time;
      }
      ∷ rest)

unfoldable pub end_ : PcrSynchronizer → PcrSynchronizer
end_ s =
    if not s.done then s else record s { documents = s.documents ++ clocks s s.pcr_pid_map ∷ [] }

unfoldable pub get_exit_code : PcrSynchronizer → ℕ
get_exit_code s = if not s.done then exit_failure else exit_success

unfoldable pub remove_pids : List (ℕ × ℕ) → List DemuxCall → List DemuxCall
remove_pids [] demux = demux
remove_pids ((sid, pid) ∷ pmt_pids) demux = remove_pids pmt_pids (remove_pid pid ∷ demux)

unfoldable pub reset_states : PcrSynchronizer → PcrSynchronizer
reset_states s = record s {
  demux = remove_pid pid_sdt ∷ remove_pids s.pmt_pids (remove_pid pid_tot ∷ s.demux);
  pmt_pids = [];
  nid = 0;
  tsid = 0;
  pmt_count = 0;
  pcr_pid_map = [];
  pcr_pids = [];
  pcr_map = [];
  started = false;
  done = false;
}

abbrev pub is_nil : List (ℕ × ℕ) → Bool
is_nil [] = true
is_nil (entry ∷ entries) = false

-- The tests of `HandlePat` on the inclusion and exclusion lists: `false` where it ignores the service.
unfoldable pub is_allowed : PcrSynchronizerOption → ℕ → Bool
is_allowed option sid =
    if not (is_empty option.sids) && not (contain option.sids sid)
    then false
    else if not (is_empty option.xsids) && contain option.xsids sid
    then false
    else true

-- The loop over the services of the PAT.
unfoldable pub take_services : PcrSynchronizerOption → List (ℕ × ℕ) → List (ℕ × ℕ) → List (ℕ × ℕ)
take_services option [] pmt_pids = pmt_pids
take_services option ((sid, pmt_pid) ∷ pmts) pmt_pids =
    take_services option pmts
      (if is_allowed option sid then put_sorted sid pmt_pid pmt_pids else pmt_pids)

-- The rest of `HandlePat` for a PAT that is taken.
unfoldable pub take_pat : PcrSynchronizer → Pat → PcrSynchronizer
take_pat s t =
    let cleared = if not (is_nil s.pmt_pids) then reset_states s else s in
    let pmt_pids = take_services s.option t.pmts cleared.pmt_pids in
    record cleared {
      pmt_pids = pmt_pids;
      done = if is_nil pmt_pids then true else cleared.done;
      demux = add_pid pid_sdt ∷ cleared.demux;
    }

unfoldable pub handle_pat : PcrSynchronizer → Pat → PcrSynchronizer
handle_pat s t =
    if not (t.source_pid == pid_pat)
    then s
    else if not t.is_valid
    then s
    else if t.ts_id == 0
    then s
    else take_pat s t

-- A round of the loop of `HandleSdt` over the services of the PAT.
unfoldable pub demux_pmt : List (ℕ × ℕ) → ℕ → ℕ → PcrSynchronizer → PcrSynchronizer
demux_pmt services sid pid s = maybe (lookup sid services) s (λ service_type.
    if not (is_audio_video_service service_type)
    then s
    else record s { pmt_count = s.pmt_count + 1; demux = add_pid pid ∷ s.demux })

unfoldable pub demux_pmts : List (ℕ × ℕ) → List (ℕ × ℕ) → PcrSynchronizer → PcrSynchronizer
demux_pmts services [] s = s
demux_pmts services ((sid, pid) ∷ pmt_pids) s =
    demux_pmts services pmt_pids (demux_pmt services sid pid s)

unfoldable pub handle_sdt : PcrSynchronizer → Sdt → PcrSynchronizer
handle_sdt s t =
    if not t.is_valid
    then s
    else demux_pmts t.services s.pmt_pids (record s { nid = t.onetw_id; tsid = t.ts_id })

-- The rest of `HandlePmt` for the PMT of a service on its PID.
unfoldable pub take_pmt : PcrSynchronizer → Pmt → PcrSynchronizer
take_pmt s t =
    let s' : PcrSynchronizer = record s {
      pcr_pid_map = put_sorted t.service_id t.pcr_pid s.pcr_pid_map;
      pcr_pids = if not (t.pcr_pid == pid_null) then insert t.pcr_pid s.pcr_pids else s.pcr_pids;
    } in
    if length s'.pcr_pid_map == s.pmt_count
    then record s' { demux = add_pid pid_tot ∷ s.demux }
    else s'

unfoldable pub handle_pmt : PcrSynchronizer → Pmt → PcrSynchronizer
handle_pmt s t =
    if not t.is_valid
    then s
    else maybe (lookup t.service_id s.pmt_pids) s
        (λ pid. if not (pid == t.source_pid) then s else take_pmt s t)

unfoldable pub handle_tot : PcrSynchronizer → Tot → PcrSynchronizer
handle_tot s t = if not t.is_valid then s else record s { time = t.utc_time; started = true }

unfoldable pub handle_table : PcrSynchronizer → Table → PcrSynchronizer
handle_table s (pat t) = handle_pat s t
handle_table s (pmt t) = handle_pmt s t
handle_table s (sdt_act t) = handle_sdt s t
handle_table s (tot t) = handle_tot s t
handle_table s _ = s

-- `demux_.feedPacket`: the tables that it hands on, in order.
unfoldable pub feed_packet : PcrSynchronizer → List Table → PcrSynchronizer
feed_packet s [] = s
feed_packet s (t ∷ ts) = feed_packet (handle_table s t) ts

-- The PCR of a packet of a clock without one. `FormatPcr` asserts that it is in range.
unfoldable pub take_pcr : PcrSynchronizer → ℕ → Option ℕ → Option (PcrSynchronizer × Bool)
take_pcr s pid pcr = maybe pcr (some (s, true)) (λ value.
    let s' : PcrSynchronizer = record s { pcr_map = put_sorted pid value s.pcr_map } in
    assert (leb value max_pcr)
    >> (if length s'.pcr_map == length s.pcr_pids
        then some (record s' { done = true }, false)
        else some (s', true)))

unfoldable pub handle_packet :
    PcrSynchronizer → Packet → List Table → Option (PcrSynchronizer × Bool)
handle_packet s packet tables =
    let s' = feed_packet s tables in
    let rest =
      if s'.started
      then if contains packet.pid s'.pcr_pids && not (has_value (lookup packet.pid s'.pcr_map))
        then take_pcr s' packet.pid packet.pcr
        else some (s', true)
      else some (s', true) in
    if packet.pid == pid_null then some (s, true) else if s'.done then some (s', false) else rest
