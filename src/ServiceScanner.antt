-- ===== src/ServiceScanner.antt =====
-- `ServiceScanner` of src/service_scanner.hh: it waits for the PAT, the SDT and the NIT, and writes
-- the services of the stream. Text is a parameter, the decoding of descriptors TSDuck's. The demux
-- calls are kept newest first. The logs are left out.
pub mod Scan
use mirakc_arib.Prelude.{
  ℕ, Bool, true, false, not, ◌||◌, ◌&&◌, Option, none, some, List, [], ◌∷◌, ◌++◌, ℤ, pos, negsuc,
  lookup, ◌==◌, if◌then◌else◌, has_value, maybe,
}
use mirakc_arib.Sink.{exit_success, exit_failure}
use mirakc_arib.SidSet.{SidSet, is_empty, contain}
use mirakc_arib.Tables.{Pat, DemuxCall, add_pid, remove_pid, pid_pat, pid_nit, pid_sdt, pid_null}
use mirakc_arib.PcrSynchronizer.{is_audio_video_service}

pub record ServiceScannerOption : Type 0 where
  pub sids : SidSet
  pub xsids : SidSet

-- `ts::ARIBLogoTransmissionDescriptor`
pub record LogoDescriptor : Type 0 where
  pub logo_transmission_type : ℕ
  pub logo_id : ℕ

-- A service of an SDT, with the first logo transmission descriptor.
pub record ServiceEntry (Text : Type 0) : Type 0 where
  pub service_type : ℕ
  pub service_name : Text
  pub logo : Option LogoDescriptor

pub record ServiceTable (Text : Type 0) : Type 0 where
  pub is_valid : Bool
  pub onetw_id : ℕ
  pub ts_id : ℕ
  pub services : List (ℕ × ServiceEntry Text)

-- A transport stream of an NIT. A descriptor is its key for a remote control, if it is a
-- `ts::ARIBTSInformationDescriptor`.
pub record Transport : Type 0 where
  pub ts_id : ℕ
  pub onetw_id : ℕ
  pub descs : List (Option ℕ)

pub record NetworkTable : Type 0 where
  pub is_valid : Bool
  pub transports : List Transport

pub data ScanTable (Text : Type 0) : Type 0 where
  pat_table : Pat → ScanTable Text
  sdt_table : ServiceTable Text → ScanTable Text
  nit_table : NetworkTable → ScanTable Text
  other_table : ScanTable Text

-- An entry of the document. The key is left out where it is 0.
pub record ServiceInfo (Text : Type 0) : Type 0 where
  pub nid : ℕ
  pub tsid : ℕ
  pub sid : ℕ
  pub name : Text
  pub type_ : ℕ
  pub logo_id : ℤ
  pub remote_control_key_id : Option ℕ

pub record ServiceScanner (Text : Type 0) : Type 0 where
  pub option : ServiceScannerOption
  pub demux : List DemuxCall
  pub pat : Option Pat
  pub sdt : Option (ServiceTable Text)
  pub nit : Option NetworkTable
  pub documents : List (List (ServiceInfo Text))

-- `find` of a transport stream.
unfoldable pub find_transport : ℕ → ℕ → List Transport → Option Transport
find_transport ts_id onetw_id [] = none
find_transport ts_id onetw_id (transport ∷ transports) =
    if transport.ts_id == ts_id && transport.onetw_id == onetw_id
    then some transport
    else find_transport ts_id onetw_id transports

-- The loop over the descriptors of the transport stream.
unfoldable pub first_key : List (Option ℕ) → ℕ
first_key [] = 0
first_key (none ∷ descs) = first_key descs
first_key (some key ∷ descs) = key

unfoldable pub get_logo_id : Option LogoDescriptor → ℤ
get_logo_id logo = maybe logo (negsuc 0) (λ desc.
    if desc.logo_transmission_type == 1 || desc.logo_transmission_type == 2
    then pos desc.logo_id
    else negsuc 0)

-- The tests of `CollectServices` on the inclusion and exclusion lists: `false` where it ignores the
-- service.
unfoldable pub is_allowed : ServiceScannerOption → ℕ → Bool
is_allowed option sid =
    if not (is_empty option.sids) && not (contain option.sids sid)
    then false
    else if not (is_empty option.xsids) && contain option.xsids sid
    then false
    else true

module _ {Text : Type 0} where
  -- The constructor.
  unfoldable pub create : ServiceScannerOption → ServiceScanner Text
  create option = record {
    option = option;
    demux = add_pid pid_sdt ∷ add_pid pid_nit ∷ add_pid pid_pat ∷ [];
    pat = none;
    sdt = none;
    nit = none;
    documents = [];
  }

  unfoldable pub completed : ServiceScanner Text → Bool
  completed s = has_value s.pat && has_value s.sdt && has_value s.nit

  unfoldable pub get_remote_control_key_id : Option NetworkTable → ServiceTable Text → ℕ
  get_remote_control_key_id nit sdt = maybe nit 0 (λ table.
      maybe (find_transport sdt.ts_id sdt.onetw_id table.transports) 0
        (λ transport. first_key transport.descs))

  -- The entry of a service of the SDT.
  unfoldable pub service_info :
      Option NetworkTable → ServiceTable Text → ℕ → ServiceEntry Text → ServiceInfo Text
  service_info nit sdt sid service =
      let key = get_remote_control_key_id nit sdt in
      record {
        nid = sdt.onetw_id;
        tsid = sdt.ts_id;
        sid = sid;
        name = service.service_name;
        type_ = service.service_type;
        logo_id = get_logo_id service.logo;
        remote_control_key_id = if not (key == 0) then some key else none;
      }

  -- The loop of `CollectServices` over the services of the PAT.
  unfoldable pub collect_loop :
      ServiceScannerOption
      → Option NetworkTable
      → ServiceTable Text
      → List (ℕ × ℕ)
      → List (ServiceInfo Text)
  collect_loop option nit sdt [] = []
  collect_loop option nit sdt ((sid, pmt_pid) ∷ pmts) =
      let rest = collect_loop option nit sdt pmts in
      if not (is_allowed option sid)
      then rest
      else maybe (lookup sid sdt.services) rest (λ service.
        if not (is_audio_video_service service.service_type)
        then rest
        else service_info nit sdt sid service ∷ rest)

  unfoldable pub collect_services : ServiceScanner Text → List (ServiceInfo Text)
  collect_services s =
      maybe s.pat [] (λ pat. maybe s.sdt [] (λ sdt. collect_loop s.option s.nit sdt pat.pmts))

  unfoldable pub end_ : ServiceScanner Text → ServiceScanner Text
  end_ s =
      if not (completed s)
      then s
      else record s { documents = s.documents ++ collect_services s ∷ [] }

  unfoldable pub get_exit_code : ServiceScanner Text → ℕ
  get_exit_code s = if not (completed s) then exit_failure else exit_success

  unfoldable pub handle_pat : ServiceScanner Text → Pat → ServiceScanner Text
  handle_pat s t =
      let moved : ServiceScanner Text = record s {
        nit = none;
        demux = add_pid t.nit_pid ∷ remove_pid pid_nit ∷ s.demux;
      } in
      let s' = if not (t.nit_pid == pid_null) && not (t.nit_pid == pid_nit) then moved else s in
      if not (t.source_pid == pid_pat)
      then s
      else if not t.is_valid
      then s
      else if t.ts_id == 0
      then s
      else record s' { pat = some t }

  unfoldable pub handle_nit : ServiceScanner Text → NetworkTable → ServiceScanner Text
  handle_nit s t = if not t.is_valid then s else record s { nit = some t }

  unfoldable pub handle_sdt : ServiceScanner Text → ServiceTable Text → ServiceScanner Text
  handle_sdt s t =
      if not t.is_valid then s else if t.ts_id == 0 then s else record s { sdt = some t }

  unfoldable pub handle_table : ServiceScanner Text → ScanTable Text → ServiceScanner Text
  handle_table s (pat_table t) = handle_pat s t
  handle_table s (nit_table t) = handle_nit s t
  handle_table s (sdt_table t) = handle_sdt s t
  handle_table s other_table = s

  -- `demux_.feedPacket`: the tables that it hands on, in order.
  unfoldable pub feed_packet : ServiceScanner Text → List (ScanTable Text) → ServiceScanner Text
  feed_packet s [] = s
  feed_packet s (t ∷ ts) = feed_packet (handle_table s t) ts

  unfoldable pub handle_packet :
      ServiceScanner Text → List (ScanTable Text) → ServiceScanner Text × Bool
  handle_packet s tables =
      let s' = feed_packet s tables in if completed s' then (s', false) else (s', true)
