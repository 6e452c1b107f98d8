-- ===== src/Tables.antt =====
-- What the program reads of a packet and of the PSI/SI tables that TSDuck decodes: the fields that
-- the sources use, with the validity that `isValid()` reports. Section reassembly is TSDuck's: a
-- stage is handed each packet with the tables that its demux completes on it. What the stage asks
-- of the demux and of a packetizer is kept as a list of calls, or goes through a parameter.
use mirakc_arib.Prelude.{ℕ, Bool, Option, List, ℤ}

-- `ts::TSPacket`: `pcr` is `none` where `hasPCR()` is false or `getPCR()` is `INVALID_PCR`.
pub record Packet : Type 0 where
  pub pid : ℕ
  pub pusi : Bool
  pub pcr : Option ℕ
  pub payload : List ℕ

-- The PIDs of ISO/IEC 13818-1 and ARIB STD-B10, as TSDuck names them.
abbrev pub pid_pat : ℕ
pid_pat = 0x0000

abbrev pub pid_cat : ℕ
pid_cat = 0x0001

abbrev pub pid_nit : ℕ
pid_nit = 0x0010

abbrev pub pid_sdt : ℕ
pid_sdt = 0x0011

abbrev pub pid_eit : ℕ
pid_eit = 0x0012

abbrev pub pid_rst : ℕ
pid_rst = 0x0013

abbrev pub pid_tot : ℕ
pid_tot = 0x0014

abbrev pub pid_bit : ℕ
pid_bit = 0x0024

abbrev pub pid_cdt : ℕ
pid_cdt = 0x0029

abbrev pub pid_null : ℕ
pid_null = 0x1FFF

-- `pmts` maps a service to the PID of its PMT.
pub record Pat : Type 0 where
  pub source_pid : ℕ
  pub is_valid : Bool
  pub ts_id : ℕ
  pub nit_pid : ℕ
  pub first_packet_index : ℕ
  pub pmts : List (ℕ × ℕ)

-- `ca_pids` are the PIDs of the CA descriptors, in order.
pub record Cat : Type 0 where
  pub is_valid : Bool
  pub ca_pids : List ℕ

pub record Stream : Type 0 where
  pub pid : ℕ
  pub is_video : Bool
  pub is_audio : Bool
  pub component_tag : Option ℕ

pub record Pmt : Type 0 where
  pub source_pid : ℕ
  pub first_packet_index : ℕ
  pub is_valid : Bool
  pub service_id : ℕ
  pub pcr_pid : ℕ
  pub ca_pids : List ℕ
  pub streams : List Stream

-- Times are milliseconds and durations seconds, both signed.
pub record Event : Type 0 where
  pub event_id : ℕ
  pub start_time : ℤ
  pub duration : ℤ

pub record Eit : Type 0 where
  pub is_valid : Bool
  pub service_id : ℕ
  pub onetw_id : ℕ
  pub ts_id : ℕ
  pub events : List Event

pub record Tot : Type 0 where
  pub is_valid : Bool
  pub utc_time : ℤ

-- `services` maps a service to its service type.
pub record Sdt : Type 0 where
  pub is_valid : Bool
  pub onetw_id : ℕ
  pub ts_id : ℕ
  pub services : List (ℕ × ℕ)

pub record Nit : Type 0 where
  pub is_valid : Bool

-- The tables by `tableId()`.
pub data Table : Type 0 where
  pat : Pat → Table
  cat : Cat → Table
  pmt : Pmt → Table
  nit_act : Nit → Table
  sdt_act : Sdt → Table
  eit_pf_act : Eit → Table
  tot : Tot → Table
  other : Table

-- The calls of `demux_.addPID` and `demux_.removePID`.
pub data DemuxCall : Type 0 where
  add_pid remove_pid : ℕ → DemuxCall

-- `ts::CyclingPacketizer` for tables of type `T`.
pub record Packetizer (Z T : Type 0) : Type 0 where
  pub remove_all : Z → Z
  pub set_pid : ℕ → Z → Z
  pub add_table : T → Z → Z
  pub next_packet : Z → Z × Packet
  pub at_cycle_boundary : Z → Bool
