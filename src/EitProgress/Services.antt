-- ===== src/EitProgress/Services.antt =====
-- `ServiceProgress` and `CollectProgress` of src/eit_collector.hh: the schedules of the services, by
-- their triples.
use mirakc_arib.Prelude.{
  ℕ, ◌+◌, Bool, true, false, ◌&&◌, List, [], ◌∷◌, length, lookup, put, if◌then◌else◌, maybe,
}
use mirakc_arib.EitSection.{EitSection, service_triple, is_basic}
use mirakc_arib.EitProgress.Group
use mirakc_arib.EitProgress.Group.{TableGroupProgress}

pub record ServiceProgress : Type 0 where
  pub basic : TableGroupProgress
  pub extra : TableGroupProgress

abbrev pub new_service : ServiceProgress
new_service = record { basic = Group.new; extra = Group.new }

unfoldable pub update_service : ServiceProgress → EitSection → ServiceProgress
update_service s eit =
    if is_basic eit
    then record s { basic = Group.update s.basic eit }
    else record s { extra = Group.update s.extra eit }

unfoldable pub update_unused_service : ServiceProgress → ℕ → ServiceProgress
update_unused_service s hour = record {
  basic = Group.update_unused s.basic hour;
  extra = Group.update_unused s.extra hour;
}

unfoldable pub check_collected_service : ServiceProgress → EitSection → Bool
check_collected_service s eit =
    if is_basic eit then Group.check_collected s.basic eit else Group.check_collected s.extra eit

unfoldable pub is_completed_service : ServiceProgress → Bool
is_completed_service s = Group.is_completed s.basic && Group.is_completed s.extra

unfoldable pub count_sections_service : ServiceProgress → ℕ
count_sections_service s = Group.count_sections s.basic + Group.count_sections s.extra

pub record CollectProgress : Type 0 where
  pub services : List (ℕ × ServiceProgress)
  pub completed : Bool

abbrev pub new : CollectProgress
new = record { services = []; completed = false }

-- `CheckCompleted`, the loop over the services.
unfoldable pub check_completed : List (ℕ × ServiceProgress) → Bool
check_completed [] = true
check_completed ((triple, service) ∷ services) =
    let rest = check_completed services in if is_completed_service service then rest else false

-- `services_[triple]` makes the progress of a service that has none.
unfoldable pub update : CollectProgress → EitSection → CollectProgress
update s eit =
    let triple = service_triple eit in
    let service = maybe (lookup triple s.services) new_service (λ found. found) in
    let services = put triple (update_service service eit) s.services in
    record { services = services; completed = check_completed services }

unfoldable pub update_unused_all : List (ℕ × ServiceProgress) → ℕ → List (ℕ × ServiceProgress)
update_unused_all [] hour = []
update_unused_all ((triple, service) ∷ services) hour =
    (triple, update_unused_service service hour) ∷ update_unused_all services hour

unfoldable pub update_unused : CollectProgress → ℕ → CollectProgress
update_unused s hour = record s { services = update_unused_all s.services hour }

unfoldable pub check_collected : CollectProgress → EitSection → Bool
check_collected s eit =
    maybe (lookup (service_triple eit) s.services) false
      (λ service. check_collected_service service eit)

unfoldable pub count_services : CollectProgress → ℕ
count_services s = length s.services

unfoldable pub count_sections_all : List (ℕ × ServiceProgress) → ℕ
count_sections_all [] = 0
count_sections_all ((triple, service) ∷ services) =
    count_sections_service service + count_sections_all services

unfoldable pub count_sections : CollectProgress → ℕ
count_sections s = count_sections_all s.services
