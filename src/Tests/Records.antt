-- ===== src/Tests/Records.antt =====
-- The recorder, its clock and the airtime tracker at concrete inputs.
use mirakc_arib.Prelude.{
  not, ◌||◌, ℕ, ◌/◌, ◌≡◌, refl, ap, true, false, some, List, [], ◌∷◌, ◌++◌, ◌+ℤ◌, pos, ◌>>=◌,
  Returns, arith,
}
use mirakc_arib.Airtime as Airtime
use mirakc_arib.Airtime.{AirtimeTracker}
use mirakc_arib.Airtime.Reports.{eits_of, reports, is_missing, handle_packet_reports}
use mirakc_arib.Tables.{Table, eit_pf_act, Packet, Event, Eit, pid_null}
use mirakc_arib.Pcr.{pcr_ticks_per_ms}
use mirakc_arib.Clock.{Clock, now, update_time}
use mirakc_arib.Clock.Follow.{advance_all, now_after}
use mirakc_arib.Recorder.{
  PacketRingSink, ServiceRecorder, recording, event_start, event_message, get_event,
}
use mirakc_arib.Recorder.Handlers.{handle_packet}
use mirakc_arib.Recorder.Events.{Speaks}
use mirakc_arib.Recorder.Feed.{handle_packet-Speaks}
use mirakc_arib.Tests.{packet_of}

-- Half a second before the counter wraps.
abbrev clock : Clock
clock = record {
  baseline = record {
    time = pos 1000;
    pcr = 1000;
    pid = 0x1FF;
    pcr_ready = true;
    time_ready = true;
  };
  baseline_local_time = pos 0;
  last_pcr = 2576966877600;
  pcr_gap_count = 0;
  ready = true;
  pcr_wrap_around = false;
}

now_after_example :
    ((update_time clock (pos 5) (pos 70000) >>= λ c.
    advance_all c (13500000 ∷ 13500000 ∷ 270000 ∷ []))
      >>= λ c. now c (pos 9))
    ≡ some (pos 70000 +ℤ pos (27270000 / pcr_ticks_per_ms))
now_after_example =
    now_after clock (pos 5) (pos 9) (pos 70000) (13500000 ∷ 13500000 ∷ 270000 ∷ []) refl
      (omega arith) (omega arith, (omega arith, (omega arith, tt))) (omega arith)

-- Two chunks of 8192 bytes, of which the first is always about to end.
abbrev ring : PacketRingSink (List Packet)
ring = record {
  ring_size = λ s. 16384;
  position = λ s. 0;
  set_position = λ s p. (s, true);
  is_broken = λ s. false;
  start = λ s. (s, true);
  handle_packet = λ s p. ((s ++ p ∷ [], true), 8192 ∷ []);
  end_ = λ s. s;
  exit_code = λ s. 0;
}

abbrev event_of : ℕ → Event
event_of id = record { event_id = id; start_time = pos 1000; duration = pos 20 }

abbrev eit_of : ℕ → Eit
eit_of id = record {
  is_valid = true;
  service_id = 1024;
  onetw_id = 4;
  ts_id = 1;
  events = event_of id ∷ [];
}

-- Event 7 is being recorded, and event 8 has just come.
abbrev recorder : ServiceRecorder (List Packet)
recorder = record {
  option = record { sid = 1024; chunk_size = 8192; num_chunks = 2; start_pos = 0 };
  demux = [];
  sink = [];
  clock = clock;
  event_boundary_time = pos 1000;
  event_boundary_pos = 0;
  eit = some (eit_of 7);
  new_eit = some (eit_of 8);
  pmt_pid = pid_null;
  state = recording;
  event_started = true;
  messages = event_message event_start (eit_of 7) (event_of 7) (pos 1000) 0 ∷ [];
}

recorder-Speaks : Speaks ring recorder
recorder-Speaks = record {
  tells = refl;
  quiet = λ h. absurd cc;
  holds = λ h missing. absurd cc;
  fresh = λ eit h missing.
      let same : some (event_of 8) ≡ get_event (some eit) = ap get_event h in absurd cc;
  aligned = λ h. absurd cc;
  clock_valid = omega arith;
}

handle_packet-Speaks_example :
    Returns
      (λ r. Speaks ring r.0)
      (handle_packet ring recorder
        (pos 0)
        (packet_of 0x1FF (some 2576967000000))
        (eit_pf_act (eit_of 9) ∷ []))
handle_packet-Speaks_example =
    handle_packet-Speaks ring recorder (pos 0) (packet_of 0x1FF (some 2576967000000))
      (eit_pf_act (eit_of 9) ∷ []) recorder-Speaks tt

abbrev tracker : AirtimeTracker
tracker = record {
  option = record { sid = 1024; eid = 7 };
  demux = [];
  done = false;
  documents = [];
}

-- The event is there, and then it is not.
abbrev eits : List Table
eits = eit_pf_act (eit_of 7) ∷ eit_pf_act (eit_of 8) ∷ []

handle_packet_reports_example :
    let r = Airtime.handle_packet tracker eits in
    (r.0.documents ≡ [] ++ reports 7 (eits_of 1024 eits))
    × (r.0.done ≡ false || is_missing 7 (eits_of 1024 eits))
    × (r.1 ≡ not (false || is_missing 7 (eits_of 1024 eits)))
handle_packet_reports_example = handle_packet_reports tracker eits
