-- ===== src/EitSection.antt =====
-- `EitSection` of src/tsduck_helper.hh: the header of a section of an EIT, and its places among the
-- tables, segments and sections of a schedule. The fields have 8 or 16 bits.
pub mod Triple
use mirakc_arib.Prelude.{ℕ, ◌+◌, ◌*◌, ◌/◌, ◌%◌, ◌-◌, ◌^◌, Bool, List, length, drop, ltb}

-- What the program reads of a `ts::Section`.
pub record Section : Type 0 where
  pub is_valid : Bool
  pub is_next : Bool
  pub source_pid : ℕ
  pub table_id : ℕ
  pub table_id_extension : ℕ
  pub section_number : ℕ
  pub last_section_number : ℕ
  pub version : ℕ
  pub payload : List ℕ

-- `ts::GetUInt8` and `ts::GetUInt16`.
pub record ByteReader : Type 0 where
  pub get_uint8 : List ℕ → ℕ
  pub get_uint16 : List ℕ → ℕ

pub record EitSection : Type 0 where
  pub pid : ℕ
  pub sid : ℕ
  pub tid : ℕ
  pub nid : ℕ
  pub tsid : ℕ
  pub last_table_id : ℕ
  pub section_number : ℕ
  pub last_section_number : ℕ
  pub segment_last_section_number : ℕ
  pub version : ℕ
  pub events_data : List ℕ
  pub events_size : ℕ

-- `EIT_PAYLOAD_FIXED_SIZE`
abbrev pub eit_payload_fixed_size : ℕ
eit_payload_fixed_size = 6

unfoldable pub eit_section : ByteReader → Section → EitSection
eit_section reader section = record {
  pid = section.source_pid;
  sid = section.table_id_extension;
  tid = section.table_id;
  nid = reader.get_uint16 (drop 2 section.payload);
  tsid = reader.get_uint16 section.payload;
  last_table_id = reader.get_uint8 (drop 5 section.payload);
  section_number = section.section_number;
  last_section_number = section.last_section_number;
  segment_last_section_number = reader.get_uint8 (drop 4 section.payload);
  version = section.version;
  events_data = drop eit_payload_fixed_size section.payload;
  events_size = length section.payload - eit_payload_fixed_size;
}

-- The fields have 16 bits and do not overlap, so that `|` adds.
unfoldable pub service_triple : EitSection → ℕ
service_triple eit = eit.nid * 2 ^ 48 + eit.tsid * 2 ^ 32 + eit.sid * 2 ^ 16

unfoldable pub table_index : EitSection → ℕ
table_index eit = eit.tid % 8

unfoldable pub last_table_index : EitSection → ℕ
last_table_index eit = eit.last_table_id % 8

unfoldable pub segment_index : EitSection → ℕ
segment_index eit = eit.section_number / 8

unfoldable pub section_index : EitSection → ℕ
section_index eit = eit.section_number % 8

unfoldable pub last_segment_index : EitSection → ℕ
last_segment_index eit = eit.last_section_number / 8

unfoldable pub last_section_index : EitSection → ℕ
last_section_index eit = eit.segment_last_section_number % 8

unfoldable pub is_basic : EitSection → Bool
is_basic eit = ltb (eit.tid % 16) 8
