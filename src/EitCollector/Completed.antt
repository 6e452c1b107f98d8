-- ===== src/EitCollector/Completed.antt =====
-- What it means that `EitCollector` of src/eit_collector.hh asks for no more packets.
use mirakc_arib.Prelude.{
  ℕ, ◌≡◌, refl, ◌⊎◌, true, false, not, ◌||◌, List, [], ◌∷◌, All, ℤ, ◌-ℤ◌, leb_ℤ, -ℤ_parts, +ℤ_parts,
  ◌==◌, lookup, put, maybe, ltb, length, both, Bool-cases, inl, inr, arith,
}
use mirakc_arib.Tables.{Tot, tot, pat, cat, pmt, nit_act, sdt_act, eit_pf_act, other}
use mirakc_arib.EitSection.{
  Section, ByteReader, EitSection, eit_section, eit_payload_fixed_size, service_triple, is_basic,
}
use mirakc_arib.EitProgress.Services
use mirakc_arib.EitProgress.Services.{ServiceProgress, CollectProgress, new_service}
use mirakc_arib.EitProgress.Sound.{
  IsSoundGroup, IsDoneGroup, group_update-IsSound, group_unused-IsSound, group_stays_completed,
  IsSoundGroup-IsDone, new-IsSoundGroup,
}
use mirakc_arib.EitCollector.{
  EitCollector, Delivery, section, table, is_allowed, is_selected, write_eit_section,
  update_progress, handle_eit, is_completed, check_timeout, handle_section, handle_time, handle_tot,
  handle_table, handle_delivery, feed_packet, handle_packet,
}
use mirakc_arib.EitCollector.Stops.{IsLate, handle_packet_lem}

abbrev IsSoundService : ServiceProgress → Type 0
IsSoundService s = IsSoundGroup s.basic × IsSoundGroup s.extra

abbrev AreSound : List (ℕ × ServiceProgress) → Type 0
AreSound services = All (λ entry. IsSoundService entry.1) services

-- The flags of the services are those of their bitmaps, and services that count as complete are.
abbrev pub IsSound : CollectProgress → Type 0
IsSound s = AreSound s.services × (s.completed ≡ true → Services.check_completed s.services ≡ true)

new_service-IsSound : IsSoundService new_service
new_service-IsSound = (new-IsSoundGroup, new-IsSoundGroup)

AreSound-lookup :
    (services : List (ℕ × ServiceProgress)) (triple : ℕ)
    → AreSound services
    → IsSoundService (maybe (lookup triple services) new_service (λ found. found))
unfolding lookup
AreSound-lookup [] triple sound = new_service-IsSound
AreSound-lookup ((k, service) ∷ services) triple sound = elim (Bool-cases (k == triple)) [
  | inl here ↦ rw here sound.0
  | inr later ↦ rw later (AreSound-lookup services triple sound.1)
]

AreSound-put :
    (services : List (ℕ × ServiceProgress)) (triple : ℕ) (service : ServiceProgress)
    → IsSoundService service
    → AreSound services
    → AreSound (put triple service services)
unfolding put
AreSound-put [] triple service new_ sound = (new_, tt)
AreSound-put ((k, old) ∷ services) triple service new_ sound = elim (Bool-cases (k == triple)) [
  | inl here ↦ rw here (new_, sound.1)
  | inr later ↦ rw later (sound.0, AreSound-put services triple service new_ sound.1)
]

service_update-IsSound :
    (s : ServiceProgress) (eit : EitSection)
    → IsSoundService s
    → IsSoundService (Services.update_service s eit)
unfolding Services.update_service
service_update-IsSound s eit sound = elim (Bool-cases (is_basic eit)) [
  | inl basic ↦ rw basic (group_update-IsSound s.basic eit sound.0, sound.1)
  | inr extra ↦ rw extra (sound.0, group_update-IsSound s.extra eit sound.1)
]

update-IsSound :
    (s : CollectProgress) (eit : EitSection) → IsSound s → IsSound (Services.update s eit)
unfolding Services.update
update-IsSound s eit sound =
    let triple = service_triple eit in
    let service = maybe (lookup triple s.services) new_service (λ found. found) in
    (
      AreSound-put s.services triple (Services.update_service service eit)
          (service_update-IsSound service eit (AreSound-lookup s.services triple sound.0)) sound.0,
      λ h. h,
    )

services_unused-AreSound :
    (services : List (ℕ × ServiceProgress)) (hour : ℕ)
    → AreSound services
    → AreSound (Services.update_unused_all services hour)
unfolding Services.update_unused_all Services.update_unused_service
services_unused-AreSound [] hour sound = tt
services_unused-AreSound ((k, service) ∷ services) hour sound = (
  (
    group_unused-IsSound service.basic hour sound.0.0,
    group_unused-IsSound service.extra hour sound.0.1,
  ),
  services_unused-AreSound services hour sound.1,
)

services_stay_completed :
    (services : List (ℕ × ServiceProgress)) (hour : ℕ)
    → AreSound services
    → Services.check_completed services ≡ true
    → Services.check_completed (Services.update_unused_all services hour) ≡ true
unfolding Services.update_unused_all Services.check_completed Services.is_completed_service
    Services.update_unused_service
services_stay_completed [] hour sound h = refl
services_stay_completed ((k, service) ∷ services) hour sound h =
    let basic = group_stays_completed service.basic hour sound.0.0 (ground arith) in
    let extra = group_stays_completed service.extra hour sound.0.1 (ground arith) in
    rw (basic, extra) (services_stay_completed services hour sound.1 (ground arith))

update_unused-IsSound :
    (s : CollectProgress) (hour : ℕ) → IsSound s → IsSound (Services.update_unused s hour)
unfolding Services.update_unused
update_unused-IsSound s hour sound = (
  services_unused-AreSound s.services hour sound.0,
  λ h. services_stay_completed s.services hour sound.0 (sound.1 h),
)

-- Every section of each schedule of a service that has been seen is received or excused.
abbrev pub AreDone : List (ℕ × ServiceProgress) → Type 0
AreDone services = All (λ entry. IsDoneGroup entry.1.basic × IsDoneGroup entry.1.extra) services

check_completed-AreDone :
    (services : List (ℕ × ServiceProgress))
    → AreSound services
    → Services.check_completed services ≡ true
    → AreDone services
unfolding Services.check_completed Services.is_completed_service
check_completed-AreDone [] sound h = tt
check_completed-AreDone ((k, service) ∷ services) sound h = (
  (
    IsSoundGroup-IsDone service.basic sound.0.0 (ground arith),
    IsSoundGroup-IsDone service.extra sound.0.1 (ground arith),
  ),
  check_completed-AreDone services sound.1 (ground arith),
)

module _ (reader : ByteReader) (hour : ℤ → ℕ) where
  abbrev Sound : EitCollector → Type 0
  Sound s = IsSound s.progress

  handle_section-Sound :
      (s : EitCollector) (x : Section) → Sound s → Sound (handle_section reader hour s x)
  unfolding handle_section handle_eit update_progress write_eit_section
  handle_section-Sound s x h =
      let eit = eit_section reader x in
      both Sound (not x.is_valid) _ _ h (
        both Sound (not (is_selected s.option x.table_id)) _ _ h (
          both Sound x.is_next _ _ h (
            both Sound (ltb (length x.payload) eit_payload_fixed_size) _ _ h (
              both Sound (not (is_allowed s.option eit.sid)) _ _ h (
                both Sound (Services.check_collected s.progress eit) _ _ h
                  (update-IsSound s.progress eit h))))))

  handle_tot-Sound : (s : EitCollector) (t : Tot) → Sound s → Sound (handle_tot reader hour s t)
  unfolding handle_tot handle_time
  handle_tot-Sound s t h =
      let kept = update_unused-IsSound s.progress (hour t.utc_time) h in
      both Sound (not t.is_valid) _ _ h (both Sound (not s.has_timestamp) _ _ kept kept)

  handle_delivery-Sound :
      (s : EitCollector) (delivery : Delivery)
      → Sound s
      → Sound (handle_delivery reader hour s delivery)
  unfolding handle_delivery handle_table
  handle_delivery-Sound s (section x) h = handle_section-Sound s x h
  handle_delivery-Sound s (table (tot t)) h = handle_tot-Sound s t h
  handle_delivery-Sound s (table (pat t)) h = h
  handle_delivery-Sound s (table (cat t)) h = h
  handle_delivery-Sound s (table (pmt t)) h = h
  handle_delivery-Sound s (table (nit_act t)) h = h
  handle_delivery-Sound s (table (sdt_act t)) h = h
  handle_delivery-Sound s (table (eit_pf_act t)) h = h
  handle_delivery-Sound s (table other) h = h

  feed_packet-Sound :
      (s : EitCollector) (deliveries : List Delivery)
      → Sound s
      → Sound (feed_packet reader hour s deliveries)
  unfolding feed_packet
  feed_packet-Sound s [] h = h
  feed_packet-Sound s (delivery ∷ deliveries) h =
      feed_packet-Sound (handle_delivery reader hour s delivery) deliveries
        (handle_delivery-Sound s delivery h)

  Sound-stop :
      (s : EitCollector)
      → Sound s
      → not (is_completed s || check_timeout s) ≡ false
      → (s.option.streaming ≡ false) × (AreDone s.progress.services ⊎ IsLate s s.timestamp)
  unfolding is_completed check_timeout
  Sound-stop s h stop = elim (Bool-cases s.option.streaming) [
    | inl streams ↦ let stop' = rw streams at stop in absurd cc
    | inr ends ↦
        let stop' = rw ends at stop in
        (
          ends,
          elim (Bool-cases s.progress.completed) [
            | inl completed ↦ inl (check_completed-AreDone s.progress.services h.0 (h.1 completed))
            | inr going ↦
                let over : leb_ℤ s.option.time_limit (s.timestamp -ℤ s.last_updated) ≡ true =
                  ground arith in
                inr (
                  ground (
                    arith,
                    -ℤ_parts s.timestamp s.last_updated,
                    +ℤ_parts s.last_updated s.option.time_limit,
                  ))
          ],
        )
  ]

  -- From a state in which the flags of the progress are true of its bitmaps, they stay so whatever
  -- sections and tables a packet completes, TOTs included, which excuse sections without a new test
  -- of the services. So where the collector asks for no more packets, it does not stream, and for
  -- every service every section of each schedule that has been seen is received or excused, or the
  -- time of the last TOT is the time limit or more after the last section.
  pub handle_packet-Sound :
      (s : EitCollector) (deliveries : List Delivery)
      → IsSound s.progress
      → let step = handle_packet reader hour s deliveries in
        IsSound step.0.progress
        × (step.1 ≡ false
            → (step.0.option.streaming ≡ false)
              × (AreDone step.0.progress.services ⊎ IsLate step.0 step.0.timestamp))
  handle_packet-Sound s deliveries h =
      let fed = feed_packet reader hour s deliveries in
      let kept = feed_packet-Sound s deliveries h in
      rw (handle_packet_lem reader hour s deliveries) (kept, Sound-stop fed kept)
