-- ===== src/Airtime.antt =====
-- `AirtimeTracker` of src/airtime_tracker.hh: it reports the times of one event until the EIT lacks
-- it. The documents are kept oldest first and hold times in JST, before their conversion for JSON.
pub mod Reports
use mirakc_arib.Prelude.{
  ℕ, Bool, true, false, not, List, [], ◌∷◌, ◌++◌, ℤ, scale, ◌==◌, if◌then◌else◌,
}
use mirakc_arib.Tables.{Packet, Event, Eit, Table, eit_pf_act, DemuxCall, add_pid, pid_eit}

pub record AirtimeTrackerOption : Type 0 where
  pub sid : ℕ
  pub eid : ℕ

-- The document of `WriteEventInfo`.
pub record EventInfo : Type 0 where
  pub nid : ℕ
  pub tsid : ℕ
  pub sid : ℕ
  pub eid : ℕ
  pub start_time : ℤ
  pub duration : ℤ

pub record AirtimeTracker : Type 0 where
  pub option : AirtimeTrackerOption
  pub demux : List DemuxCall
  pub done : Bool
  pub documents : List EventInfo

unfoldable pub create : AirtimeTrackerOption → AirtimeTracker
create option = record {
  option = option;
  demux = add_pid pid_eit ∷ [];
  done = false;
  documents = [];
}

unfoldable pub event_info : Eit → Event → EventInfo
event_info eit event = record {
  nid = eit.onetw_id;
  tsid = eit.ts_id;
  sid = eit.service_id;
  eid = event.event_id;
  start_time = event.start_time;
  duration = scale 1000 event.duration;
}

unfoldable pub write_event_info : AirtimeTracker → Eit → Event → AirtimeTracker
write_event_info s eit event = record s { documents = s.documents ++ event_info eit event ∷ [] }

-- `HandleEit` for a valid EIT of the service, by its events.
unfoldable pub handle_events : AirtimeTracker → Eit → List Event → AirtimeTracker
handle_events s eit [] = record s { done = true }
handle_events s eit (present ∷ []) =
    if present.event_id == s.option.eid
    then write_event_info s eit present
    else record s { done = true }
handle_events s eit (present ∷ following ∷ events) =
    if present.event_id == s.option.eid
    then write_event_info s eit present
    else if following.event_id == s.option.eid
    then write_event_info s eit following
    else record s { done = true }

unfoldable pub handle_eit : AirtimeTracker → Eit → AirtimeTracker
handle_eit s eit =
    if not eit.is_valid
    then s
    else if not (eit.service_id == s.option.sid)
    then s
    else handle_events s eit eit.events

unfoldable pub handle_table : AirtimeTracker → Table → AirtimeTracker
handle_table s (eit_pf_act eit) = handle_eit s eit
handle_table s _ = s

-- `demux_.feedPacket`: the tables that it hands on, in order.
unfoldable pub feed_packet : AirtimeTracker → List Table → AirtimeTracker
feed_packet s [] = s
feed_packet s (t ∷ ts) = feed_packet (handle_table s t) ts

unfoldable pub handle_packet : AirtimeTracker → List Table → AirtimeTracker × Bool
handle_packet s tables =
    let s' = feed_packet s tables in if s'.done then (s', false) else (s', true)
