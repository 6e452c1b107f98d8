-- ===== src/EitpfCollector.antt =====
-- `EitpfCollector` of src/eitpf_collector.hh: it writes the sections of the present and the following
-- event of each service when their versions change, and stops when both are known for the services
-- asked for. `at` of a missing key throws, which is `none`. The reading of a payload's bytes is a
-- parameter. The logs are left out. The documents are kept oldest first.
pub mod Written
pub mod Versions
pub mod Done
use mirakc_arib.Prelude.{
  ℕ, Bool, true, false, not, ◌&&◌, Option, none, some, List, [], ◌∷◌, ◌++◌, length, lookup,
  put_sorted, ltb, ◌==◌, if◌then◌else◌, maybe, ◌>>=◌,
}
use mirakc_arib.SidSet
use mirakc_arib.SidSet.{SidSet}
use mirakc_arib.Tables.{DemuxCall, add_pid, pid_eit}
use mirakc_arib.EitSection.{
  Section, ByteReader, EitSection, eit_section, eit_payload_fixed_size, service_triple,
}

pub record EitpfCollectorOption : Type 0 where
  pub sids : SidSet
  pub streaming : Bool
  pub present : Bool
  pub following : Bool

pub record EitpfCollector : Type 0 where
  pub option : EitpfCollectorOption
  pub demux : List DemuxCall
  pub present_versions : List (ℕ × ℕ)
  pub following_versions : List (ℕ × ℕ)
  pub documents : List EitSection

abbrev pub tid_eit_pf_act : ℕ
tid_eit_pf_act = 0x4E

-- The constructor.
unfoldable pub create : EitpfCollectorOption → EitpfCollector
create option = record {
  option = option;
  demux = add_pid pid_eit ∷ [];
  present_versions = [];
  following_versions = [];
  documents = [];
}

unfoldable pub is_collected : EitSection → List (ℕ × ℕ) → Bool
is_collected eit versions =
    maybe (lookup (service_triple eit) versions) false (λ version. version == eit.version)

-- The loop of `Done` over the versions of the present events.
unfoldable pub same_versions : List (ℕ × ℕ) → List (ℕ × ℕ) → Option Bool
same_versions [] following = some true
same_versions ((triple, version) ∷ present) following =
    let rest = same_versions present following in
    lookup triple following >>= λ version'. if not (version' == version) then some false else rest

unfoldable pub done : EitpfCollector → Option Bool
done s =
    let compared =
      if s.option.present && s.option.following
      then same_versions s.present_versions s.following_versions
      else some true in
    if s.option.streaming
    then some false
    else if s.option.present && not (length s.present_versions == SidSet.size s.option.sids)
    then some false
    else if s.option.following && not (length s.following_versions == SidSet.size s.option.sids)
    then some false
    else compared

unfoldable pub write_eit_section : EitpfCollector → EitSection → EitpfCollector
write_eit_section s eit = record s { documents = s.documents ++ eit ∷ [] }

-- The section of the present event.
unfoldable pub handle_present : EitpfCollector → EitSection → EitpfCollector
handle_present s eit =
    let s' = if s.option.present then write_eit_section s eit else s in
    if is_collected eit s.present_versions then s else record s' {
      present_versions = put_sorted (service_triple eit) eit.version s.present_versions;
    }

-- The section of the following event.
unfoldable pub handle_following : EitpfCollector → EitSection → EitpfCollector
handle_following s eit =
    let s' = if s.option.following then write_eit_section s eit else s in
    if is_collected eit s.following_versions then s else record s' {
      following_versions = put_sorted (service_triple eit) eit.version s.following_versions;
    }

-- `handleSection` from the point where the section has been read.
unfoldable pub handle_eit : EitpfCollector → EitSection → EitpfCollector
handle_eit s eit =
    if not (SidSet.is_empty s.option.sids) && not (SidSet.contain s.option.sids eit.sid)
    then s
    else if eit.section_number == 0
    then handle_present s eit
    else if eit.section_number == 1
    then handle_following s eit
    else s

module _ (reader : ByteReader) where
  unfoldable pub handle_section : EitpfCollector → Section → EitpfCollector
  handle_section s section =
      if not section.is_valid
      then s
      else if not (section.table_id == tid_eit_pf_act)
      then s
      else if ltb (length section.payload) eit_payload_fixed_size
      then s
      else if section.is_next
      then s
      else handle_eit s (eit_section reader section)

  -- `demux_.feedPacket`: the sections that it hands on, in order.
  unfoldable pub feed_packet : EitpfCollector → List Section → EitpfCollector
  feed_packet s [] = s
  feed_packet s (section ∷ sections) = feed_packet (handle_section s section) sections

  unfoldable pub handle_packet : EitpfCollector → List Section → Option (EitpfCollector × Bool)
  handle_packet s sections =
      let s' = feed_packet s sections in done s' >>= λ is_done. some (s', not is_done)
