-- ===== src/EitProgress/Kept.antt =====
-- `CheckCollected` of src/eit_collector.hh over a TOT: `UpdateUnused` changes neither the versions nor
-- the places that are collected.
use mirakc_arib.Prelude.{ℕ, ◌≡◌, refl, ◌==◌, lookup, Bool-cases, Option-cases, inl, inr}
use mirakc_arib.EitSection.{EitSection, service_triple, is_basic, table_index}
use mirakc_arib.EitProgress
use mirakc_arib.EitProgress.{TableProgress}
use mirakc_arib.EitProgress.Group
use mirakc_arib.EitProgress.Group.{TableGroupProgress}
use mirakc_arib.EitProgress.Services
use mirakc_arib.EitProgress.Services.{ServiceProgress, CollectProgress}
use mirakc_arib.EitProgress.Places.{lookup-update_unused}

table_kept :
    (s : TableProgress) (hour : ℕ) (eit : EitSection)
    → EitProgress.check_collected (EitProgress.update_unused s hour) eit
      ≡ EitProgress.check_collected s eit
unfolding EitProgress.check_collected EitProgress.update_unused
table_kept s hour eit = refl

group_kept :
    (s : TableGroupProgress) (hour : ℕ) (eit : EitSection)
    → Group.check_collected (Group.update_unused s hour) eit ≡ Group.check_collected s eit
unfolding Group.check_collected Group.update_unused
group_kept s hour eit = elim (Bool-cases (0 == table_index eit)) [
  | inl first ↦ rw (first, table_kept (s.tables (table_index eit)) hour eit) refl
  | inr other ↦ rw other refl
]

service_kept :
    (s : ServiceProgress) (hour : ℕ) (eit : EitSection)
    → Services.check_collected_service (Services.update_unused_service s hour) eit
      ≡ Services.check_collected_service s eit
unfolding Services.check_collected_service Services.update_unused_service
service_kept s hour eit = elim (Bool-cases (is_basic eit)) [
  | inl basic ↦ rw basic (group_kept s.basic hour eit)
  | inr extra ↦ rw extra (group_kept s.extra hour eit)
]

-- What is collected is so after a TOT, and nothing else is.
pub check_collected-update_unused :
    (s : CollectProgress) (hour : ℕ) (eit : EitSection)
    → Services.check_collected (Services.update_unused s hour) eit ≡ Services.check_collected s eit
unfolding Services.check_collected Services.update_unused
check_collected-update_unused s hour eit =
    elim (Option-cases (lookup (service_triple eit) s.services)) [
      | inl none_ ↦ simp (lookup-update_unused s.services hour (service_triple eit), none_) refl
      | inr (service, some_) ↦
          simp (lookup-update_unused s.services hour (service_triple eit), some_)
            (service_kept service hour eit)
    ]
