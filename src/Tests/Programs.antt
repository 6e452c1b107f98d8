-- ===== src/Tests/Programs.antt =====
-- The program filter at concrete inputs.
use mirakc_arib.Prelude.{
  lookup, ℕ, ◌≡◌, refl, Bool, true, false, none, some, List, [], ◌∷◌, pos, Returns, Ensures, arith,
}
use mirakc_arib.Tables.{Pat, pat, Packet, Packetizer, Pmt, Table, eit_pf_act}
use mirakc_arib.Pcr.{compare_pcr, time_to_pcr}
use mirakc_arib.Pcr.Time.{time_to_pcr-lt}
use mirakc_arib.Program.{
  ProgramFilterOption, wait_ready, streaming, ProgramFilter, need_clock_sync, feed_packet,
}
use mirakc_arib.Program.Packets.{do_wait_ready, handle_packet}
use mirakc_arib.Program.Times.{InStep, Kept}
use mirakc_arib.Program.Range.{feed_packet_lem}
use mirakc_arib.Program.Start.{CycleLaw, Starts, Started, do_wait_ready_stream}
use mirakc_arib.Program.Moved.{moved_pmt_aborts}
use mirakc_arib.Program.Sending.{InWindow}
use mirakc_arib.Program.Window.{handle_packet_window}
use mirakc_arib.Tests.{keeping_sink, kept, keeping-AcceptLaw, packet_of}

-- Its state is the PID: one packet for each cycle.
abbrev pmt_packetizer : Packetizer ℕ Pmt
pmt_packetizer = record {
  remove_all = λ z. z;
  set_pid = λ p z. p;
  add_table = λ t z. z;
  next_packet = λ z. (z, packet_of z none);
  at_cycle_boundary = λ z. true;
}

abbrev same_pid : ℕ → ℕ
same_pid z = z

abbrev none_left : ℕ → ℕ
none_left z = 0

pmt_packetizer-CycleLaw : CycleLaw pmt_packetizer same_pid none_left
pmt_packetizer-CycleLaw = record {
  next_pid = λ z. refl;
  same_pid = λ z. refl;
  shorter = λ z h. absurd cc;
}

abbrev option : ProgramFilterOption
option = record {
  sid = 1024;
  eid = 7;
  clock_pid = 0x1FF;
  clock_pcr = 27000000;
  clock_time = pos 50000;
  audio_tags = [];
  video_tags = [];
  start_margin = pos 0;
  end_margin = pos 0;
  wait_until = none;
  pre_streaming = false;
}

abbrev waiting : ProgramFilter (List Packet) ℕ
waiting = record {
  option = option;
  demux = [];
  sink = [];
  state = wait_ready;
  last_pat_packets = packet_of 0 none ∷ [];
  pes_black_list = [];
  pmt_packetizer = 0x1F0;
  clock_pid = 0x1FF;
  clock_pcr = 27000000;
  clock_time = pos 50000;
  pmt_pid = 0x1F0;
  pcr_pid = 0x1FF;
  event_start_time = pos 51000;
  event_end_time = pos 61000;
  start_pcr = time_to_pcr 27000000 (pos 50000) (pos 51000);
  end_pcr = time_to_pcr 27000000 (pos 50000) (pos 61000);
  pcr_pid_ready = true;
  event_time_ready = true;
  clock_pcr_ready = true;
  clock_time_ready = true;
  stop = false;
  retry = false;
}

waiting-InStep : InStep waiting
waiting-InStep = record {
  clock_valid = omega arith;
  start_valid = omega (arith, time_to_pcr-lt 27000000 (pos 50000) (pos 51000));
  end_valid = omega (arith, time_to_pcr-lt 27000000 (pos 50000) (pos 61000));
  in_step = λ e t c. (refl, refl);
}

abbrev later_event : Table
later_event = eit_pf_act (record {
  is_valid = true;
  service_id = 1024;
  onetw_id = 4;
  ts_id = 1;
  events = record { event_id = 7; start_time = pos 52000; duration = pos 20 } ∷ [];
})

feed_packet_lem_example :
    Returns (Kept waiting) (feed_packet pmt_packetizer waiting (later_event ∷ []))
feed_packet_lem_example =
    feed_packet_lem pmt_packetizer waiting (later_event ∷ []) tt waiting-InStep

abbrev packet : Packet
packet = packet_of 0x1FF (some 81000000)

handle_packet_window_example :
    Ensures
      (λ (r : ProgramFilter (List Packet) ℕ × Bool). r.0.state ≡ streaming → InWindow packet r.0)
      (handle_packet pmt_packetizer keeping_sink 5 waiting packet (later_event ∷ []))
handle_packet_window_example =
    handle_packet_window pmt_packetizer keeping_sink packet 5 waiting (later_event ∷ [])
      waiting-InStep refl tt (λ pcr h. ground arith)

-- With its range written out: one second and eleven seconds after the clock.
abbrev started : ProgramFilter (List Packet) ℕ
started = record waiting { start_pcr = 54000000; end_pcr = 324000000 }

started-Starts : Starts started packet 81000000
unfolding need_clock_sync compare_pcr
started-Starts = record {
  going = refl;
  pid_ready = refl;
  time_ready = refl;
  in_sync = refl;
  pid = refl;
  not_pat = λ h. ground arith;
  has_pcr = refl;
  valid = omega arith;
  start_valid = omega arith;
  end_valid = omega arith;
  started = refl;
  not_ended = refl;
  buffered = refl;
  pat_held = refl;
}

do_wait_ready_stream_example :
    Returns
      (Started pmt_packetizer same_pid none_left pmt_packetizer-CycleLaw keeping_sink kept
        keeping-AcceptLaw started packet)
      (do_wait_ready pmt_packetizer keeping_sink 5 started packet)
do_wait_ready_stream_example =
    do_wait_ready_stream pmt_packetizer same_pid none_left pmt_packetizer-CycleLaw keeping_sink kept
      keeping-AcceptLaw 5 started packet 81000000 started-Starts (omega arith) refl

abbrev streaming_filter : ProgramFilter (List Packet) ℕ
streaming_filter = record waiting { state = streaming }

-- A PAT that moves the PMT to another PID.
abbrev moving : Pat
moving = record {
  source_pid = 0;
  is_valid = true;
  ts_id = 1;
  nit_pid = 16;
  first_packet_index = 0;
  pmts = (1024, 0x2F0) ∷ [];
}

moved_pmt_aborts_example :
    Returns
      (λ r. handle_packet pmt_packetizer keeping_sink 5 r.0 (packet_of 0x2F0 none) [] ≡ none)
      (handle_packet pmt_packetizer keeping_sink 5 streaming_filter
        (packet_of 0 none)
        (pat moving ∷ []))
unfolding lookup
moved_pmt_aborts_example =
    moved_pmt_aborts pmt_packetizer same_pid none_left keeping_sink 5 streaming_filter moving 0x2F0
      (packet_of 0 none) (packet_of 0x2F0 none) pmt_packetizer-CycleLaw (refl, refl) refl
      (refl, refl, λ h. ground arith) refl (λ h. ground arith, λ h. ground arith, λ h. ground arith)
      (λ h. ground arith) (refl, refl)
