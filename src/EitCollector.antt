-- ===== src/EitCollector.antt =====
-- `EitCollector` of src/eit_collector.hh: it writes each section of the EIT schedules once, and stops
-- when all are collected or none came for the time limit. Times are milliseconds in JST, signed. What
-- TSDuck does, the reading of a payload's bytes and the hour of a time, is a parameter. The logs and
-- the time that `End` logs are left out. The documents are kept oldest first.
pub mod Written
pub mod Rivals
pub mod Stops
pub mod Completed
use mirakc_arib.Prelude.{
  ℕ, Bool, true, false, not, ◌&&◌, ◌||◌, Option, none, some, List, [], ◌∷◌, ◌++◌, ℤ, pos, ◌-ℤ◌,
  leb_ℤ, length, ltb, leb, if◌then◌else◌, ◌>>◌, assert,
}
use mirakc_arib.SidSet.{SidSet, is_empty, contain}
use mirakc_arib.Tables.{Tot, Table, tot, DemuxCall, add_pid, pid_eit, pid_tot}
use mirakc_arib.EitSection.{Section, ByteReader, EitSection, eit_section, eit_payload_fixed_size}
use mirakc_arib.EitProgress.Services
use mirakc_arib.EitProgress.Services.{CollectProgress}

pub record EitCollectorOption : Type 0 where
  pub sids : SidSet
  pub xsids : SidSet
  pub time_limit : ℤ
  pub streaming : Bool
  pub collect_actual : Bool
  pub collect_others : Bool

pub record EitCollector : Type 0 where
  pub option : EitCollectorOption
  pub demux : List DemuxCall
  pub has_timestamp : Bool
  pub timestamp : ℤ
  pub last_updated : ℤ
  pub progress : CollectProgress
  pub documents : List EitSection

-- What the demux hands on: each section, and each table.
pub data Delivery : Type 0 where
  section : Section → Delivery
  table : Table → Delivery

-- The table identifiers of the schedules of the actual stream and of the others, as TSDuck names them.
abbrev pub tid_eit_s_act_min : ℕ
tid_eit_s_act_min = 0x50

abbrev pub tid_eit_s_act_max : ℕ
tid_eit_s_act_max = 0x5F

abbrev pub tid_eit_s_oth_min : ℕ
tid_eit_s_oth_min = 0x60

abbrev pub tid_eit_s_oth_max : ℕ
tid_eit_s_oth_max = 0x6F

-- The constructor.
unfoldable pub create : EitCollectorOption → Option EitCollector
create option =
    assert (option.collect_actual || option.collect_others)
    >> some (record {
      option = option;
      demux = add_pid pid_tot ∷ add_pid pid_eit ∷ [];
      has_timestamp = false;
      timestamp = pos 0;
      last_updated = pos 0;
      progress = Services.new;
      documents = [];
    })

-- The table identifiers that the options select.
unfoldable pub is_selected : EitCollectorOption → ℕ → Bool
is_selected option tid =
    if leb tid_eit_s_act_min tid && leb tid tid_eit_s_act_max
    then option.collect_actual
    else if leb tid_eit_s_oth_min tid && leb tid tid_eit_s_oth_max
    then option.collect_others
    else false

-- The tests of `handleSection` on the inclusion and exclusion lists: `false` where it ignores the
-- service.
unfoldable pub is_allowed : EitCollectorOption → ℕ → Bool
is_allowed option sid =
    if not (is_empty option.sids) && not (contain option.sids sid)
    then false
    else if not (is_empty option.xsids) && contain option.xsids sid
    then false
    else true

unfoldable pub write_eit_section : EitCollector → EitSection → EitCollector
write_eit_section s eit = record s { documents = s.documents ++ eit ∷ [] }

unfoldable pub update_progress : EitCollector → EitSection → EitCollector
update_progress s eit = record s {
  last_updated = s.timestamp;
  progress = Services.update s.progress eit;
}

-- `handleSection` from the point where the section has been read.
unfoldable pub handle_eit : EitCollector → EitSection → EitCollector
handle_eit s eit =
    if not (is_allowed s.option eit.sid)
    then s
    else if Services.check_collected s.progress eit
    then s
    else update_progress (write_eit_section s eit) eit

unfoldable pub is_completed : EitCollector → Bool
is_completed s = if s.option.streaming then false else s.progress.completed

unfoldable pub check_timeout : EitCollector → Bool
check_timeout s =
    if s.option.streaming then false else leb_ℤ s.option.time_limit (s.timestamp -ℤ s.last_updated)

module _ (reader : ByteReader) (hour : ℤ → ℕ) where
  unfoldable pub handle_section : EitCollector → Section → EitCollector
  handle_section s x =
      if not x.is_valid
      then s
      else if not (is_selected s.option x.table_id)
      then s
      else if x.is_next
      then s
      else if ltb (length x.payload) eit_payload_fixed_size
      then s
      else handle_eit s (eit_section reader x)

  unfoldable pub handle_time : EitCollector → ℤ → EitCollector
  handle_time s time =
      let s' : EitCollector = record s {
        timestamp = time;
        progress = Services.update_unused s.progress (hour time);
      } in
      if not s.has_timestamp then record s' { last_updated = time; has_timestamp = true } else s'

  unfoldable pub handle_tot : EitCollector → Tot → EitCollector
  handle_tot s t = if not t.is_valid then s else handle_time s t.utc_time

  unfoldable pub handle_table : EitCollector → Table → EitCollector
  handle_table s (tot t) = handle_tot s t
  handle_table s _ = s

  unfoldable pub handle_delivery : EitCollector → Delivery → EitCollector
  handle_delivery s (section x) = handle_section s x
  handle_delivery s (table t) = handle_table s t

  -- `demux_.feedPacket`: what it hands on, in order.
  unfoldable pub feed_packet : EitCollector → List Delivery → EitCollector
  feed_packet s [] = s
  feed_packet s (delivery ∷ deliveries) = feed_packet (handle_delivery s delivery) deliveries

  unfoldable pub handle_packet : EitCollector → List Delivery → EitCollector × Bool
  handle_packet s deliveries =
      let s' = feed_packet s deliveries in
      if is_completed s' then (s', false) else if check_timeout s' then (s', false) else (s', true)
