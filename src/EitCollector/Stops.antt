-- ===== src/EitCollector/Stops.antt =====
-- When `EitCollector` of src/eit_collector.hh stops.
use mirakc_arib.Prelude.{
  ℕ, ◌≡◌, refl, ap, ◌∙◌, ◌⊎◌, true, false, not, ◌||◌, List, [], ◌∷◌, All, ℤ, ◌-ℤ◌, ◌+ℤ◌, ◌≤ℤ◌,
  leb_ℤ, +ℤ_parts, -ℤ_parts, Bool-cases, inl, inr, arith,
}
use mirakc_arib.Tables.{Tot, tot, pat, cat, pmt, nit_act, sdt_act, eit_pf_act, other}
use mirakc_arib.EitSection.{Section, ByteReader, EitSection, eit_section}
use mirakc_arib.EitProgress.Services
use mirakc_arib.EitProgress.Kept.{check_collected-update_unused}
use mirakc_arib.EitCollector.{
  EitCollector, Delivery, section, table, is_completed, check_timeout, handle_section, handle_time,
  handle_tot, handle_table, handle_delivery, feed_packet, handle_packet,
}
use mirakc_arib.EitCollector.Written.{is_accepted, handle_section-accepted, handle_section-refused}

pub handle_packet_lem :
    (reader : ByteReader) (hour : ℤ → ℕ) (s : EitCollector) (deliveries : List Delivery)
    → let s' = feed_packet reader hour s deliveries in
      handle_packet reader hour s deliveries ≡ (s', not (is_completed s' || check_timeout s'))
unfolding handle_packet
handle_packet_lem reader hour s deliveries =
    let s' = feed_packet reader hour s deliveries in
    elim (Bool-cases (is_completed s')) [
      | inl yes_ ↦ simp yes_ refl
      | inr no_ ↦ elim (Bool-cases (check_timeout s')) [
        | inl late ↦ simp (no_, late) refl
        | inr soon ↦ simp (no_, soon) refl
      ]
    ]

-- The time limit has passed since the last section.
abbrev pub IsLate : EitCollector → ℤ → Type 0
IsLate s time = s.last_updated +ℤ s.option.time_limit ≤ℤ time

module _ (reader : ByteReader) (hour : ℤ → ℕ) where
  -- A delivery that brings nothing new to a state: a section that the guards do not let through or
  -- that counts as collected, or a table that is no valid TOT of an earlier time than the limit.
  abbrev pub IsQuiet : EitCollector → Delivery → Type 0
  IsQuiet s (section x) =
      (is_accepted reader hour s.option x ≡ false)
      ⊎ (Services.check_collected s.progress (eit_section reader x) ≡ true)
  IsQuiet s (table (tot t)) = t.is_valid ≡ true → IsLate s t.utc_time
  IsQuiet s (table _) = Unit

  -- Each of the packets asks for no more packets.
  abbrev pub AllStop : EitCollector → List (List Delivery) → Type 0
  AllStop s [] = Unit
  AllStop s (packet ∷ packets) =
      let step = handle_packet reader hour s packet in (step.1 ≡ false) × AllStop step.0 packets

  -- What quiet deliveries leave of a state.
  record Stays (s s' : EitCollector) : Type 0 where
    option : s'.option ≡ s.option
    updated : s'.last_updated ≡ s.last_updated
    stamped : s'.has_timestamp ≡ true
    late : IsLate s s'.timestamp
    collected :
        (eit : EitSection)
        → Services.check_collected s'.progress eit ≡ Services.check_collected s.progress eit

  Stays-handle_section :
      (s s' : EitCollector) (x : Section)
      → Stays s s'
      → IsQuiet s (section x)
      → Stays s (handle_section reader hour s' x)
  Stays-handle_section s s' x stays (inl refused) =
      rw
        (handle_section-refused reader hour s' x
          (ap (λ option. is_accepted reader hour option x) stays.option ∙ refused))
        stays
  Stays-handle_section s s' x stays (inr old) =
      elim (Bool-cases (is_accepted reader hour s'.option x)) [
        | inl accepted ↦
            let same : handle_section reader hour s' x ≡ s' =
              handle_section-accepted reader hour s' x accepted
              ∙ rw (stays.collected (eit_section reader x) ∙ old) refl in
            rw same stays
        | inr refused ↦ rw (handle_section-refused reader hour s' x refused) stays
      ]

  Stays-handle_tot :
      (s s' : EitCollector) (t : Tot)
      → Stays s s'
      → (t.is_valid ≡ true → IsLate s t.utc_time)
      → Stays s (handle_tot reader hour s' t)
  unfolding handle_tot handle_time
  Stays-handle_tot s s' t stays late = elim (Bool-cases t.is_valid) [
    | inr invalid ↦ rw invalid stays
    | inl valid ↦
        rw (valid, stays.stamped)
          (record {
            option = stays.option;
            updated = stays.updated;
            stamped = refl;
            late = late valid;
            collected = λ eit.
                check_collected-update_unused s'.progress (hour t.utc_time) eit
                ∙ stays.collected eit;
          })
  ]

  Stays-handle_delivery :
      (s s' : EitCollector) (delivery : Delivery)
      → Stays s s'
      → IsQuiet s delivery
      → Stays s (handle_delivery reader hour s' delivery)
  unfolding handle_delivery handle_table
  Stays-handle_delivery s s' (section x) stays quiet = Stays-handle_section s s' x stays quiet
  Stays-handle_delivery s s' (table (tot t)) stays quiet = Stays-handle_tot s s' t stays quiet
  Stays-handle_delivery s s' (table (pat t)) stays quiet = stays
  Stays-handle_delivery s s' (table (cat t)) stays quiet = stays
  Stays-handle_delivery s s' (table (pmt t)) stays quiet = stays
  Stays-handle_delivery s s' (table (nit_act t)) stays quiet = stays
  Stays-handle_delivery s s' (table (sdt_act t)) stays quiet = stays
  Stays-handle_delivery s s' (table (eit_pf_act t)) stays quiet = stays
  Stays-handle_delivery s s' (table other) stays quiet = stays

  Stays-feed_packet :
      (s s' : EitCollector) (deliveries : List Delivery)
      → Stays s s'
      → All (IsQuiet s) deliveries
      → Stays s (feed_packet reader hour s' deliveries)
  unfolding feed_packet
  Stays-feed_packet s s' [] stays quiet = stays
  Stays-feed_packet s s' (delivery ∷ deliveries) stays quiet =
      Stays-feed_packet s (handle_delivery reader hour s' delivery) deliveries
        (Stays-handle_delivery s s' delivery stays quiet.0) quiet.1

  Stays-check_timeout :
      (s s' : EitCollector) → s.option.streaming ≡ false → Stays s s' → check_timeout s' ≡ true
  unfolding check_timeout
  Stays-check_timeout s s' stream stays =
      let limit = s.option.time_limit in
      let over : leb_ℤ limit (s'.timestamp -ℤ s.last_updated) ≡ true =
        let late = stays.late in
        ground (arith, -ℤ_parts s'.timestamp s.last_updated, +ℤ_parts s.last_updated limit) in
      rw (stays.option, stays.updated, stream) over

  AllStop-quiet :
      (s s' : EitCollector) (packets : List (List Delivery))
      → s.option.streaming ≡ false
      → Stays s s'
      → All (All (IsQuiet s)) packets
      → AllStop s' packets
  AllStop-quiet s s' [] stream stays quiet = tt
  AllStop-quiet s s' (packet ∷ packets) stream stays quiet =
      let fed = feed_packet reader hour s' packet in
      let kept = Stays-feed_packet s s' packet stays quiet.0 in
      let over = Stays-check_timeout s fed stream kept in
      let stops : not (is_completed fed || check_timeout fed) ≡ false = ground arith in
      rw (handle_packet_lem reader hour s' packet)
        (stops, AllStop-quiet s fed packets stream kept quiet.1)

  Stays-limit :
      (s : EitCollector) (t : Tot)
      → s.has_timestamp ≡ true
      → t.is_valid ≡ true
      → IsLate s t.utc_time
      → Stays s (handle_tot reader hour s t)
  unfolding handle_tot handle_time
  Stays-limit s t stamped valid late =
      rw (valid, stamped)
        (record {
          option = refl;
          updated = refl;
          stamped = refl;
          late = late;
          collected = λ eit. check_collected-update_unused s.progress (hour t.utc_time) eit;
        })

  -- Once a TOT has come, a collector that does not stream stops at the packet of a valid TOT whose
  -- time is the time limit or more after the time of the last section, and at each of any further
  -- packets on which nothing new is delivered: sections that the guards do not let through or that
  -- were collected, and TOTs that are not valid or not before the limit either.
  pub handle_packet_limit :
      (s : EitCollector) (t : Tot) (packets : List (List Delivery))
      → s.option.streaming ≡ false
      → s.has_timestamp ≡ true
      → t.is_valid ≡ true
      → IsLate s t.utc_time
      → All (All (IsQuiet s)) packets
      → AllStop s ((table (tot t) ∷ []) ∷ packets)
  unfolding feed_packet handle_delivery handle_table
  handle_packet_limit s t packets stream stamped valid late quiet =
      let s' = handle_tot reader hour s t in
      let stays = Stays-limit s t stamped valid late in
      let over = Stays-check_timeout s s' stream stays in
      let stops : not (is_completed s' || check_timeout s') ≡ false = ground arith in
      rw (handle_packet_lem reader hour s (table (tot t) ∷ []))
        (stops, AllStop-quiet s s' packets stream stays quiet)
