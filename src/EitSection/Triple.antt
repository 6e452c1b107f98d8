-- ===== src/EitSection/Triple.antt =====
-- The places that `EitSection` of src/tsduck_helper.hh computes.
use mirakc_arib.Prelude.{◌+◌, ◌*◌, ◌<◌, ◌^◌, ◌%◌, ◌≡◌, if◌then◌else◌, arith}
use mirakc_arib.EitSection.{
  EitSection, service_triple, table_index, segment_index, section_index, is_basic,
}

-- The fields of the header that the triple is made of have 16 bits.
abbrev pub Is16Bit : EitSection → Type 0
Is16Bit eit = (eit.nid < 2 ^ 16) × (eit.tsid < 2 ^ 16) × (eit.sid < 2 ^ 16)

-- Two sections whose network, stream and service identifiers have 16 bits have the same service
-- triple only if they agree in the three identifiers, and the triple has 64 bits.
pub service_triple-injective :
    (eit eit' : EitSection)
    → Is16Bit eit
    → Is16Bit eit'
    → (service_triple eit < 2 ^ 64)
      × (service_triple eit ≡ service_triple eit'
          → (eit.nid ≡ eit'.nid) × (eit.tsid ≡ eit'.tsid) × (eit.sid ≡ eit'.sid))
unfolding service_triple
service_triple-injective eit eit' h h' = (omega arith, λ e. (omega arith, omega arith, omega arith))

-- A schedule's section is found again from whether its table is a basic one, the index of its table,
-- the index of its segment and its index there: the low four bits of its table identifier and its
-- number are put together from them.
pub section_place :
    (eit : EitSection)
    → (eit.tid % 16 ≡ (if is_basic eit then 0 else 8) + table_index eit)
      × (eit.section_number ≡ segment_index eit * 8 + section_index eit)
      × (table_index eit < 8)
      × (section_index eit < 8)
unfolding is_basic table_index segment_index section_index
section_place eit = (ground arith, omega arith, omega arith, omega arith)
