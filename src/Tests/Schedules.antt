-- ===== src/Tests/Schedules.antt =====
-- The collectors of EIT sections and the sets of services at concrete inputs.
use mirakc_arib.Prelude.{
  ℕ, ◌+◌, ◌*◌, ◌≡◌, refl, true, false, List, [], ◌∷◌, ℤ, pos, ◌⊎◌, ◌++◌, inr, Returns, lookup,
  arith, ◌+ℤ◌,
}
use mirakc_arib.SidSet as SidSet
use mirakc_arib.SidSet.{add_strings}
use mirakc_arib.Tables.{Tot, tot}
use mirakc_arib.EitSection.{
  Section, ByteReader, EitSection, eit_section, section_index, last_section_index, service_triple,
  is_basic, table_index,
}
use mirakc_arib.EitProgress.Group as Group
use mirakc_arib.EitProgress.Services as Services
use mirakc_arib.EitProgress.View.{
  Event, section, time, view, run, is_received, is_excused, is_complete,
}
use mirakc_arib.EitProgress.Log.{run_refines}
use mirakc_arib.EitProgress.Versions.{
  with_version, check_collected-with_version, check_collected-update,
}
use mirakc_arib.EitProgress.Places.{place, is_collected}
use mirakc_arib.EitCollector as Collector
use mirakc_arib.EitCollector.{
  EitCollector, EitCollectorOption, Delivery, table, handle_section, handle_eit, handle_packet,
  handle_tot, is_completed, feed_packet,
}
use mirakc_arib.EitCollector.Written.{HasPlace, feed_packet-HasPlace, handle_section_twice}
use mirakc_arib.EitCollector.Rivals.{handle_section_alternates}
use mirakc_arib.EitCollector.Completed.{IsSound, AreDone, handle_packet-Sound}
use mirakc_arib.EitCollector.Stops.{IsLate, AllStop, handle_packet_limit}
use mirakc_arib.EitpfCollector as Pf
use mirakc_arib.EitpfCollector.{EitpfCollector}
use mirakc_arib.EitpfCollector.Versions as Versions
use mirakc_arib.EitpfCollector.Done.{handle_packet-Returns}

abbrev byte_at_head : List ℕ → ℕ
byte_at_head [] = 0
byte_at_head (x ∷ xs) = x

abbrev word_at_head : List ℕ → ℕ
word_at_head [] = 0
word_at_head (x ∷ []) = x
word_at_head (x ∷ y ∷ xs) = 256 * x + y

abbrev reader : ByteReader
reader = record { get_uint8 = byte_at_head; get_uint16 = word_at_head }

-- The hour of the day, from midnight.
abbrev hour : ℤ → ℕ
hour clock = 9

-- Section 0 of the only table of a schedule, the last of its segment and of the table.
abbrev only_section : Section
only_section = record {
  is_valid = true;
  is_next = false;
  source_pid = 0x12;
  table_id = 0x50;
  table_id_extension = 101;
  section_number = 0;
  last_section_number = 0;
  version = 1;
  payload = 0x40 ∷ 0x10 ∷ 0x00 ∷ 0x04 ∷ 0x00 ∷ 0x50 ∷ [];
}

-- The first of two sections of the segment from section 8 on, in a table of 16 sections.
abbrev first_of_two : EitSection
first_of_two = record {
  pid = 0x12;
  sid = 101;
  tid = 0x50;
  nid = 4;
  tsid = 0x4010;
  last_table_id = 0x50;
  section_number = 8;
  last_section_number = 9;
  segment_last_section_number = 9;
  version = 2;
  events_data = [];
  events_size = 0;
}

-- The first of two sections of the first segment, of an older version.
abbrev older : EitSection
older = record first_of_two { section_number = 0; segment_last_section_number = 1; version = 1 }

abbrev collector : EitCollector
collector = record {
  option = record {
    sids = SidSet.new;
    xsids = SidSet.new;
    time_limit = pos 30000;
    streaming = false;
    collect_actual = true;
    collect_others = true;
  };
  demux = [];
  has_timestamp = true;
  timestamp = pos 1000;
  last_updated = pos 1000;
  progress = Services.new;
  documents = [];
}

abbrev events : List Event
events = section first_of_two ∷ time 9 ∷ section older ∷ []

run_refines_example :
    ((run events).last_table_index ≡ (view events).last)
    × (((run events).tables 0).collected 1 0 ≡ is_received (view events) 0 1 0)
    × (((run events).tables 0).unused 1 0 ≡ is_excused (view events) 0 1 0)
    × (Group.is_completed (run events) ≡ is_complete (view events))
run_refines_example = run_refines events 0 1 0 (omega arith) (omega arith) (omega arith)

check_collected-with_version_example :
    let s = Services.update Services.new (eit_section reader only_section) in
    Services.check_collected s (with_version 5 (eit_section reader only_section))
    ≡ Services.check_collected s (eit_section reader only_section)
unfolding eit_section section_index last_section_index
check_collected-with_version_example =
    check_collected-with_version (Services.update Services.new (eit_section reader only_section))
      (eit_section reader only_section) 5 (omega arith)

feed_packet-HasPlace_example :
    HasPlace
      (place (eit_section reader only_section))
      (feed_packet reader hour collector (Collector.section only_section ∷ [])).documents
unfolding is_collected lookup Collector.is_selected Collector.is_allowed SidSet.is_empty
    SidSet.contain
feed_packet-HasPlace_example =
    feed_packet-HasPlace reader hour collector [] only_section [] (omega arith) refl
      (λ p r h. absurd cc)

handle_section_twice_example :
    let s = handle_section reader hour collector only_section in
    handle_section reader hour s only_section ≡ s
handle_section_twice_example = handle_section_twice reader hour collector only_section (omega arith)

abbrev late : Tot
late = record { is_valid = true; utc_time = pos 31000 }

-- The section that is no longer new, and the time once more.
abbrev quiet_packets : List (List Delivery)
quiet_packets = (table (tot late) ∷ []) ∷ (Collector.section only_section ∷ []) ∷ []

-- The collector with the section.
abbrev holding : EitCollector
holding = record collector {
  progress = Services.update Services.new (eit_section reader only_section);
}

only_section-IsQuiet :
    Services.check_collected holding.progress (eit_section reader only_section) ≡ true
unfolding eit_section
only_section-IsQuiet =
    check_collected-update Services.new (eit_section reader only_section) (omega arith)

handle_packet_limit_example : AllStop reader hour holding ((table (tot late) ∷ []) ∷ quiet_packets)
unfolding ◌+ℤ◌
handle_packet_limit_example =
    handle_packet_limit reader hour holding late quiet_packets refl refl refl (omega arith)
      ((λ _. omega arith, tt), ((inr only_section-IsQuiet, tt), tt))

handle_packet-Sound_example :
    let step =
      handle_packet reader hour collector
        (Collector.section only_section ∷ table (tot late) ∷ []) in
    IsSound step.0.progress
    × (step.1 ≡ false
        → (step.0.option.streaming ≡ false)
          × (AreDone step.0.progress.services ⊎ IsLate step.0 step.0.timestamp))
handle_packet-Sound_example =
    handle_packet-Sound reader hour collector
      (Collector.section only_section ∷ table (tot late) ∷ []) (tt, λ h. absurd cc)

-- Two sections of different segments of one table, each the first of two, with versions 1 and 2.
abbrev rival : ℕ → Section
rival segment = record {
  is_valid = true;
  is_next = false;
  source_pid = 0x12;
  table_id = 0x50;
  table_id_extension = 101;
  section_number = segment * 8;
  last_section_number = 9;
  version = segment + 1;
  payload = 0x40 ∷ 0x10 ∷ 0x00 ∷ 0x04 ∷ (segment * 8 + 1) ∷ 0x50 ∷ [];
}

handle_section_alternates_example :
    let s' = handle_section reader hour collector (rival 0) in
    (handle_section reader hour (handle_section reader hour s' (rival 1)) (rival 0)).documents
    ≡ s'.documents ++ eit_section reader (rival 1) ∷ eit_section reader (rival 0) ∷ []
unfolding eit_section service_triple is_basic table_index section_index last_section_index
    Collector.is_selected Collector.is_allowed SidSet.is_empty SidSet.contain
handle_section_alternates_example =
    handle_section_alternates reader hour collector (rival 0) (rival 1) 0 (omega arith)
      (omega arith) refl refl
      (refl, refl, refl, omega arith, omega arith, omega arith, omega arith, omega arith)

abbrev pf_section : ℕ → Section
pf_section number = record only_section { table_id = 0x4E; section_number = number }

abbrev asked : EitpfCollector
asked = record {
  option = record {
    sids = record { set = 101 ∷ [] };
    streaming = false;
    present = true;
    following = true;
  };
  demux = [];
  present_versions = [];
  following_versions = [];
  documents = [];
}

abbrev pf_sections : List Section
pf_sections = pf_section 0 ∷ pf_section 1 ∷ []

handle_packet-Returns_example :
    Returns
      (λ step.
        Versions.IsValid 4 0x4010 step.0 × (step.1 ≡ false → Versions.AllKnown 4 0x4010 step.0))
      (Pf.handle_packet reader asked pf_sections)
unfolding eit_section SidSet.is_empty
handle_packet-Returns_example =
    handle_packet-Returns reader 4 0x4010 asked pf_sections ((refl, refl), ((refl, refl), tt)) refl
      ((tt, λ k h. absurd cc), (tt, λ k h. absurd cc))
