-- ===== src/Tests/Filters.antt =====
-- The service filter and the start seeker at concrete inputs.
use mirakc_arib.Prelude.{
  ap, ◌≡◌, refl, inl, true, false, none, some, List, [], ◌∷◌, ◌++◌, ◌&&◌, ◌||◌, ◌==◌, contains,
  lookup, Returns, arith,
}
use mirakc_arib.Tables.{Packet, Packetizer, Pat, Pmt, Stream, pat, pid_pat, pid_null}
use mirakc_arib.Service.{
  ServiceFilter, create, connect, is_safe_dynamic_pid, stream_pids, only_service, feed_packet,
}
use mirakc_arib.Service as Service
use mirakc_arib.Service.Filters.{handle_pmt_content}
use mirakc_arib.Service.Sets.{Distinct, IsSafe}
use mirakc_arib.Service.Ready.{PatLaw, IsReady}
use mirakc_arib.Service.Forward.{Outcome, handle_packet_lem}
use mirakc_arib.Seeker as Seeker
use mirakc_arib.Seeker.{StartSeeker, seek}
use mirakc_arib.Seeker.Limits.{Waits, so_far, handle_packet_limits}
use mirakc_arib.Tests.{keeping_sink, kept, keeping-AcceptLaw, packet_of}

-- A packetizer is the tables that it holds; it makes null packets while it holds none.
abbrev made_of : List Pat → Packet
made_of [] = packet_of pid_null none
made_of (t ∷ ts) = packet_of pid_pat none

abbrev pat_packetizer : Packetizer (List Pat) Pat
pat_packetizer = record {
  remove_all = λ z. [];
  set_pid = λ p z. z;
  add_table = λ t z. t ∷ z;
  next_packet = λ z. (z, made_of z);
  at_cycle_boundary = λ z. true;
}

pat_packetizer-PatLaw : PatLaw pat_packetizer kept
pat_packetizer-PatLaw = record {
  removed = λ z. refl;
  added = λ t z e. ap (λ ts. t ∷ ts) e;
  kept = λ z. refl;
  next_pid = λ z t e. ap (λ ts. (made_of ts).pid) e;
}

abbrev filter : ServiceFilter (List Packet) (List Pat)
filter = record {
  option = record { sid = 1024; time_limit = none };
  demux = [];
  pat_packetizer = [];
  sink = some [];
  psi_filter = [];
  content_filter = [];
  emm_filter = [];
  pmt_pid = pid_null;
  done = false;
  error = false;
}

filter-IsSafe : IsSafe filter
filter-IsSafe = record {
  content = λ p h. absurd cc;
  emm = λ p h. absurd cc;
  psi = λ p h. absurd cc;
  pmt_safe = inl refl;
  demuxed = tt;
}

abbrev two_services : Pat
two_services = record {
  source_pid = pid_pat;
  is_valid = true;
  ts_id = 1;
  nit_pid = 16;
  first_packet_index = 0;
  pmts = (1024, 0x1F0) ∷ (1025, 0x1F1) ∷ [];
}

two_services-Distinct : Distinct two_services.pmts
unfolding lookup
two_services-Distinct = (refl, (refl, tt))

handle_packet_lem_example :
    Returns
      (λ r.
        IsSafe r.0
        × IsReady pat_packetizer kept r.0
        × ((s' : ServiceFilter (List Packet) (List Pat)) × (feed_packet pat_packetizer filter
                (pat two_services ∷ [])
              ≡ some s')
            × Outcome pat_packetizer kept pat_packetizer-PatLaw keeping_sink s' []
                (packet_of pid_pat none)
                r))
      (Service.handle_packet pat_packetizer keeping_sink filter
        (packet_of pid_pat none)
        (pat two_services ∷ []))
handle_packet_lem_example =
    handle_packet_lem pat_packetizer kept pat_packetizer-PatLaw keeping_sink filter []
      (packet_of pid_pat none) (pat two_services ∷ []) filter-IsSafe (λ h. absurd cc) refl
      (two_services-Distinct, tt)

abbrev video : Stream
video = record { pid = 0x100; is_video = true; is_audio = false; component_tag = some 0 }

abbrev service_pmt : Pmt
service_pmt = record {
  source_pid = 0x1F0;
  first_packet_index = 0;
  is_valid = true;
  service_id = 1024;
  pcr_pid = 0x1FF;
  ca_pids = 0x901 ∷ [];
  streams = video ∷ [];
}

handle_pmt_content_example :
    contains 0x100 (Service.handle_pmt filter service_pmt).content_filter ≡ (
      is_safe_dynamic_pid 0x100
      && (0x100 == 0x1FF
          || (contains 0x100 (0x901 ∷ []) || contains 0x100 (stream_pids (video ∷ [])))))
handle_pmt_content_example = handle_pmt_content filter service_pmt 0x100 refl refl

-- One packet below its limit of two.
abbrev seeker : StartSeeker (List Packet)
seeker = record {
  option = record { sid = 1024; max_duration = 1000; max_packets = 2 };
  demux = [];
  sink = [];
  state = seek;
  packets = packet_of 0x100 none ∷ [];
  pmt_pid = pid_null;
  pcr_pid = 0x1FF;
  video_pids = [];
  audio_pids = [];
  end_pcr = none;
  transition_index = 0;
  pat_index = 0;
}

seeker-Waits : Waits seeker
seeker-Waits = record {
  within = λ h k. omega arith;
  emptied = λ h. absurd cc;
  end_valid = λ pcr h. absurd cc;
}

seeker_fed : Seeker.feed_packet seeker [] ≡ some seeker
unfolding Seeker.feed_packet
seeker_fed = refl

handle_packet_limits_example :
    Returns
      (λ r.
        Waits r.0
        × (r.1 ≡ true)
        × (so_far keeping_sink kept keeping-AcceptLaw r.0
            ≡ so_far keeping_sink kept keeping-AcceptLaw seeker ++ packet_of 0x1FF (some 7) ∷ []))
      (Seeker.handle_packet keeping_sink seeker (packet_of 0x1FF (some 7)) [])
handle_packet_limits_example =
    handle_packet_limits keeping_sink kept keeping-AcceptLaw seeker seeker
      (packet_of 0x1FF (some 7)) [] seeker-Waits seeker_fed (λ h. refl) (λ pcr h. ground arith)

-- A limit of a hundred packets, and none on the duration.
abbrev packets_seeker : StartSeeker (List Packet)
packets_seeker = record seeker {
  option = record { sid = 1024; max_duration = 0; max_packets = 100 };
}
