-- ===== src/MetadataFilter.antt =====
-- `ProgramMetadataFilter` of src/program_metadata_filter.hh: it writes the present and following
-- events of one service, or of all for the service identifier 0. The documents are kept oldest first
-- and hold the events themselves. The logs are left out.
pub mod Written
use mirakc_arib.Prelude.{
  ℕ, Bool, true, false, not, ◌&&◌, List, [], ◌∷◌, ◌++◌, length, ◌==◌, if◌then◌else◌,
}
use mirakc_arib.Tables.{Event, Eit, Table, eit_pf_act, DemuxCall, add_pid, pid_eit}

pub record ProgramMetadataFilterOption : Type 0 where
  pub sid : ℕ

-- The document of `WriteEvents`.
pub record EventsInfo : Type 0 where
  pub nid : ℕ
  pub tsid : ℕ
  pub sid : ℕ
  pub events : List Event

pub record ProgramMetadataFilter : Type 0 where
  pub option : ProgramMetadataFilterOption
  pub demux : List DemuxCall
  pub documents : List EventsInfo

-- The constructor.
unfoldable pub create : ProgramMetadataFilterOption → ProgramMetadataFilter
create option = record { option = option; demux = add_pid pid_eit ∷ []; documents = [] }

unfoldable pub events_info : Eit → EventsInfo
events_info eit = record {
  nid = eit.onetw_id;
  tsid = eit.ts_id;
  sid = eit.service_id;
  events = eit.events;
}

unfoldable pub write_events : ProgramMetadataFilter → Eit → ProgramMetadataFilter
write_events s eit = record s { documents = s.documents ++ events_info eit ∷ [] }

unfoldable pub handle_eit : ProgramMetadataFilter → Eit → ProgramMetadataFilter
handle_eit s eit =
    if not eit.is_valid
    then s
    else if not (s.option.sid == 0) && not (eit.service_id == s.option.sid)
    then s
    else if length eit.events == 0
    then s
    else write_events s eit

unfoldable pub handle_table : ProgramMetadataFilter → Table → ProgramMetadataFilter
handle_table s (eit_pf_act eit) = handle_eit s eit
handle_table s _ = s

-- `demux_.feedPacket`: the tables that it hands on, in order.
unfoldable pub feed_packet : ProgramMetadataFilter → List Table → ProgramMetadataFilter
feed_packet s [] = s
feed_packet s (t ∷ ts) = feed_packet (handle_table s t) ts

unfoldable pub handle_packet : ProgramMetadataFilter → List Table → ProgramMetadataFilter × Bool
handle_packet s tables = (feed_packet s tables, true)
