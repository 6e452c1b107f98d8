-- ===== src/Tests/Stages.antt =====
-- The synchronizer, the scanner, the metadata filter, the logo collector and the PES printer at
-- concrete inputs.
use mirakc_arib.Prelude.{
  All, ◌↔◌, ◌++◌, ℕ, ◌≡◌, ◌↔◌, refl, true, false, not, none, some, List, [], ◌∷◌, ◌++◌, map, select,
  pos, Bool-cases, inl, inr, ◌==◌, lookup, Returns, arith,
}
use mirakc_arib.SidSet as SidSet
use mirakc_arib.Tables.{Pat, Eit, eit_pf_act, pmt, Sdt}
use mirakc_arib.Tests.{packet_of}
use mirakc_arib.PcrSynchronizer as Sync
use mirakc_arib.PcrSynchronizer.{PcrSynchronizer, handle_sdt, is_audio_video_service}
use mirakc_arib.PcrSynchronizer.Fields.{Fields}
use mirakc_arib.PcrSynchronizer.Steps.{Goes, handle_packet-Goes}
use mirakc_arib.PcrSynchronizer.Counts.{handle_sdt_again}
use mirakc_arib.ServiceScanner as Scanner
use mirakc_arib.ServiceScanner.{
  ServiceScannerOption, ServiceTable, NetworkTable, ServiceInfo, ServiceScanner,
}
use mirakc_arib.ServiceScanner.Scan.{HasService, HasEntry, IsWanted, IsOf, end_-HasService}
use mirakc_arib.MetadataFilter as Metadata
use mirakc_arib.MetadataFilter.{ProgramMetadataFilter, events_info}
use mirakc_arib.MetadataFilter.Written as Wanted
use mirakc_arib.MetadataFilter.Written.{eits_of, handle_packet-documents}
use mirakc_arib.LogoCollector as Logo
use mirakc_arib.LogoCollector.{LogoCollector, LogoData, Engine, insert_png_chunks}
use mirakc_arib.LogoCollector.Chunks.{Adds, handle_packet-Adds}
use mirakc_arib.PesPrinter as Pes
use mirakc_arib.PesPrinter.{PesPrinter, PesPacket}
use mirakc_arib.PesPrinter.Frames as Frames
use mirakc_arib.PesPrinter.Clocks.{handle_packet-AreValid}
use mirakc_arib.Clock as Clock
use mirakc_arib.Clock.{new_baseline}
use mirakc_arib.Tests.{bytes}

-- One service, whose clock has PID 0x1FF, after a TOT.
abbrev synchronizer : PcrSynchronizer
synchronizer = record {
  option = record { sids = SidSet.new; xsids = SidSet.new };
  demux = [];
  pmt_pids = (101, 0x1F0) ∷ [];
  nid = 4;
  tsid = 0x4010;
  pmt_count = 1;
  pcr_pid_map = (101, 0x1FF) ∷ [];
  pcr_pids = 0x1FF ∷ [];
  pcr_map = [];
  time = pos 0;
  started = true;
  done = false;
  documents = [];
}

known : Fields ((101, 0x1F0) ∷ []) ((101, 0x1FF) ∷ []) (0x1FF ∷ []) []
unfolding lookup
known = record {
  services_sorted = (tt, tt);
  services_within = λ k h. h;
  clocks_wanted = λ sid pid h ne. elim (Bool-cases (101 == sid)) [
    | inl here_ ↦
        let e : some 0x1FF ≡ some pid = simp here_ at h in
        let e' : 0x1FF ≡ pid = cc in rw (← e') refl
    | inr there_ ↦ let e : none ≡ some pid = simp there_ at h in absurd cc
  ];
  pcrs_sorted = tt;
  pcrs_within = λ k h. absurd cc;
}

handle_packet-Goes_example :
    Returns (Goes synchronizer) (Sync.handle_packet synchronizer (packet_of 0x1FF (some 300)) [])
unfolding Sync.feed_packet
handle_packet-Goes_example =
    handle_packet-Goes synchronizer (packet_of 0x1FF (some 300)) []
      (λ value e. let e' : 300 ≡ value = cc in omega arith) known

abbrev television : Sdt
television = record { is_valid = true; onetw_id = 4; ts_id = 0x4010; services = (101, 0x01) ∷ [] }

handle_sdt_again_example :
    let s = handle_sdt (handle_sdt synchronizer television) television in
    (Sync.feed_packet s (map pmt [])).demux ≡ s.demux
unfolding lookup is_audio_video_service
handle_sdt_again_example = handle_sdt_again synchronizer television [] known refl refl (omega arith)

abbrev scanned : ServiceTable ℕ
scanned = record {
  is_valid = true;
  onetw_id = 4;
  ts_id = 0x4010;
  services = (101, record { service_type = 0x01; service_name = 7; logo = none }) ∷ [];
}

abbrev scan_option : ServiceScannerOption
scan_option = record { sids = SidSet.new; xsids = SidSet.new }

abbrev scan_pat : Pat
scan_pat = record {
  source_pid = 0;
  is_valid = true;
  ts_id = 1;
  nit_pid = 16;
  first_packet_index = 0;
  pmts = (101, 0x1F0) ∷ (102, 0x1F1) ∷ [];
}

abbrev scan_nit : NetworkTable
scan_nit = record { is_valid = true; transports = [] }

abbrev scanner : ServiceScanner ℕ
scanner = record {
  option = scan_option;
  demux = [];
  pat = some scan_pat;
  sdt = some scanned;
  nit = some scan_nit;
  documents = [];
}

end_-HasService_example :
    (infos : List (ServiceInfo ℕ)) × ((Scanner.end_ scanner).documents ≡ [] ++ infos ∷ [])
    × ((sid : ℕ)
        → HasService sid infos ↔ (HasEntry sid scan_pat.pmts × IsWanted scan_option scanned sid))
    × All (IsOf scanned) infos
end_-HasService_example = end_-HasService scanner scan_pat scanned scan_nit refl refl refl

abbrev metadata : ProgramMetadataFilter
metadata = record { option = record { sid = 101 }; demux = []; documents = [] }

abbrev present_eit : Eit
present_eit = record {
  is_valid = true;
  service_id = 101;
  onetw_id = 4;
  ts_id = 0x4010;
  events = record { event_id = 1; start_time = pos 0; duration = pos 60 } ∷ [];
}

handle_packet-documents_example :
    let step = Metadata.handle_packet metadata (eit_pf_act present_eit ∷ []) in
    (step.1 ≡ true)
    × (step.0.documents ≡ [] ++ map events_info (select (Wanted.is_wanted 101) (present_eit ∷ [])))
handle_packet-documents_example = handle_packet-documents metadata (eit_pf_act present_eit ∷ [])

abbrev logo : LogoData
logo = record {
  logo_type = 5;
  logo_id = 2;
  logo_version = 1;
  network_id = 4;
  data_size = 100;
  bytes = bytes 100 7;
  service_list = [];
}

-- It counts the packets, and finds the logo on each.
abbrev counting : Engine ℕ
counting = record { build = 0; output = λ n packet. ((n, true), logo ∷ []); close = λ n. n }

abbrev started : LogoCollector ℕ (List ℕ)
started = record { engine = some 0; documents = [] }

handle_packet-Adds_example :
    Returns
      (λ step. Adds counting (λ image size. image) started (logo ∷ []) step.0 × (step.1 ≡ true))
      (Logo.handle_packet counting (λ image size. image) started (packet_of 0x100 none))
handle_packet-Adds_example =
    handle_packet-Adds counting (λ image size. image) started 0 (packet_of 0x100 none) refl
      (refl, tt)

abbrev printer : PesPrinter
printer = record {
  demux = [];
  sids = 101 ∷ [];
  pmt_pids = 0x1F0 ∷ [];
  clock_map = (0x1FF, Clock.create new_baseline) ∷ [];
  stream_map = (0x100, record { type_ = Pes.audio; pcr_pid = 0x1FF }) ∷ [];
  done = false;
  lines = [];
}

abbrev pes_packet : PesPacket
pes_packet = record { pid = 0x100; pcr = none; pts = some 90000; dts = none }

handle_packet-AreValid_example :
    Returns
      (λ step. Frames.AreValid step.0.clock_map × (step.1 ≡ not step.0.done))
      (Pes.handle_packet (λ stream. false) (pos 0) printer pes_packet (eit_pf_act present_eit ∷ []))
unfolding Clock.create
handle_packet-AreValid_example =
    handle_packet-AreValid (λ stream. false) (pos 0) printer pes_packet
      (eit_pf_act present_eit ∷ [])
      (
        λ value e. absurd cc,
        λ stamp e. let e' : 90000 ≡ stamp = cc in omega arith,
        λ stamp e. absurd cc,
      )
      (omega arith, tt)
