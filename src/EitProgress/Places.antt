-- ===== src/EitProgress/Places.antt =====
-- Which sections the progress of src/eit_collector.hh holds as collected, by their places.
use mirakc_arib.Prelude.{
  ℕ, ◌<◌, ◌≡◌, refl, sym, ap, ◌∙◌, ◌⊎◌, Bool, true, false, ◌&&◌, ◌||◌, List, [], ◌∷◌, ◌==◌, ==_iff,
  lookup, lookup-put, maybe, Bool-cases, Option-cases, inl, inr, arith,
}
use mathlib.Core.Option
use mirakc_arib.EitSection.{
  EitSection, service_triple, is_basic, table_index, last_table_index, segment_index, section_index,
}
use mirakc_arib.EitProgress
use mirakc_arib.EitProgress.{TableProgress, num_segments, check_versions}
use mirakc_arib.EitProgress.Group
use mirakc_arib.EitProgress.Group.{
  TableGroupProgress, num_tables, change_table, update_table, restart,
}
use mirakc_arib.EitProgress.Services
use mirakc_arib.EitProgress.Services.{ServiceProgress, CollectProgress, new_service}
use mirakc_arib.EitProgress.Table.{collected-update, collected-update_unused, is_at}
use mirakc_arib.EitProgress.View.{is_last}
use mirakc_arib.EitProgress.Log.{restart-Shows, update-kept, update-changed}

pub record Place : Type 0 where
  pub triple : ℕ
  pub basic : Bool
  pub table : ℕ
  pub segment : ℕ
  pub section : ℕ

unfoldable pub place : EitSection → Place
place eit = record {
  triple = service_triple eit;
  basic = is_basic eit;
  table = table_index eit;
  segment = segment_index eit;
  section = section_index eit;
}

abbrev pub InRange : Place → Type 0
InRange p = (p.table < num_tables) × (p.segment < num_segments) × (p.section < 8)

unfoldable pub is_collected_group : TableGroupProgress → ℕ → ℕ → ℕ → Bool
is_collected_group s t i j = (s.tables t).collected i j

unfoldable pub is_collected_service : ServiceProgress → Bool → ℕ → ℕ → ℕ → Bool
is_collected_service s true t i j = is_collected_group s.basic t i j
is_collected_service s false t i j = is_collected_group s.extra t i j

-- The bit of a place.
unfoldable pub is_collected : CollectProgress → Place → Bool
is_collected s p =
    maybe (lookup p.triple s.services) false
      (λ service. is_collected_service service p.basic p.table p.segment p.section)

is_collected-update_table :
    (s : TableGroupProgress) (eit : EitSection) (t i j : ℕ)
    → is_collected_group (update_table s eit) t i j
      ≡ (table_index eit == t && is_at i j eit) || is_collected_group s t i j
unfolding is_collected_group update_table
is_collected-update_table s eit t i j = ground (arith, collected-update (s.tables t) eit i j)

is_collected_group-update :
    (s : TableGroupProgress) (eit : EitSection) (t i j : ℕ)
    → t < num_tables
    → i < num_segments
    → j < 8
    → is_collected_group (Group.update s eit) t i j ≡ true
    → (table_index eit == t && is_at i j eit) || is_collected_group s t i j ≡ true
unfolding is_collected_group
is_collected_group-update s eit t i j ht hi hj h =
    elim (Bool-cases (is_last s.last_table_index eit)) [
      | inl kept ↦
          let e =
            ap (λ (x : TableGroupProgress). is_collected_group x t i j) (update-kept s eit kept) in
          ground (arith, is_collected-update_table s eit t i j)
      | inr changed ↦
          let e =
            ap (λ (x : ℕ → TableProgress). (x t).collected i j) (update-changed s eit changed) in
          let cleared = (restart-Shows s eit).received t i j ht hi hj in
          ground (arith, is_collected-update_table (restart s eit) eit t i j)
    ]

-- The section has the place in its service.
abbrev IsThere : EitSection → Bool → ℕ → ℕ → ℕ → Type 0
IsThere eit basic t i j =
    (is_basic eit ≡ basic)
    × (table_index eit ≡ t)
    × (segment_index eit ≡ i)
    × (section_index eit ≡ j)

group_place :
    (s : TableGroupProgress) (eit : EitSection) (basic : Bool) (t i j : ℕ)
    → (t < num_tables) × (i < num_segments) × (j < 8)
    → is_basic eit ≡ basic
    → is_collected_group (Group.update s eit) t i j ≡ true
    → IsThere eit basic t i j ⊎ (is_collected_group s t i j ≡ true)
group_place s eit basic t i j (ht, hi, hj) hb h =
    let step = is_collected_group-update s eit t i j ht hi hj h in
    elim (Bool-cases (is_collected_group s t i j)) [
      | inl old ↦ inr old
      | inr new_ ↦ inl (hb, ground arith, ground arith, ground arith)
    ]

service_place :
    (s : ServiceProgress) (eit : EitSection) (basic : Bool) (t i j : ℕ)
    → (t < num_tables) × (i < num_segments) × (j < 8)
    → is_collected_service (Services.update_service s eit) basic t i j ≡ true
    → IsThere eit basic t i j ⊎ (is_collected_service s basic t i j ≡ true)
unfolding is_collected_service Services.update_service
service_place s eit true t i j r h = elim (Bool-cases (is_basic eit)) [
  | inl basic ↦ group_place s.basic eit true t i j r basic (simp basic at h)
  | inr extra ↦ inr (simp extra at h)
]
service_place s eit false t i j r h = elim (Bool-cases (is_basic eit)) [
  | inl basic ↦ inr (simp basic at h)
  | inr extra ↦ group_place s.extra eit false t i j r extra (simp extra at h)
]

new_service-none : (basic : Bool) (t i j : ℕ) → is_collected_service new_service basic t i j ≡ false
unfolding is_collected_service is_collected_group
new_service-none true t i j = refl
new_service-none false t i j = refl

-- The service that `services_[triple]` gives.
found_service :
    (s : CollectProgress) (p : Place)
    → (let service = maybe (lookup p.triple s.services) new_service (λ found. found) in
        is_collected_service service p.basic p.table p.segment p.section ≡ is_collected s p)
unfolding is_collected
found_service s p = elim (Option-cases (lookup p.triple s.services)) [
  | inl none_ ↦ rw none_ (new_service-none p.basic p.table p.segment p.section)
  | inr (service, some_) ↦ rw some_ refl
]

pub is_collected-update :
    (s : CollectProgress) (eit : EitSection) (p : Place)
    → InRange p
    → is_collected (Services.update s eit) p ≡ true
    → (place eit ≡ p) ⊎ (is_collected s p ≡ true)
unfolding is_collected Services.update place
is_collected-update s eit p r h =
    let triple = service_triple eit in
    let service = maybe (lookup triple s.services) new_service (λ found. found) in
    let at_ = lookup-put triple p.triple (Services.update_service service eit) s.services in
    elim (Bool-cases (triple == p.triple)) [
      | inr else_ ↦ inr (rw (at_, else_) at h)
      | inl same_ ↦
          let e : service_triple eit ≡ p.triple = (==_iff triple p.triple).0 same_ in
          elim (service_place service eit p.basic p.table p.segment p.section r
            (rw (at_, same_) at h)) [
              | inl (b, t, i, j) ↦ inl (simp (e, b, t, i, j) refl)
              | inr old ↦ inr (
                  sym (
                    ap
                      (λ k.
                        is_collected_service
                          (maybe (lookup k s.services) new_service (λ found. found)) p.basic p.table
                          p.segment p.section)
                      e
                    ∙ found_service s p)
                  ∙ old)
            ]
    ]

is_collected_service-update_unused :
    (s : ServiceProgress) (hour : ℕ) (basic : Bool) (t i j : ℕ)
    → is_collected_service (Services.update_unused_service s hour) basic t i j
      ≡ is_collected_service s basic t i j
unfolding is_collected_service Services.update_unused_service is_collected_group Group.update_unused
is_collected_service-update_unused s hour true t i j =
    ground (arith, collected-update_unused (s.basic.tables t) hour i j)
is_collected_service-update_unused s hour false t i j =
    ground (arith, collected-update_unused (s.extra.tables t) hour i j)

pub lookup-update_unused :
    (services : List (ℕ × ServiceProgress)) (hour k : ℕ)
    → lookup k (Services.update_unused_all services hour)
      ≡ Option.map (λ service. Services.update_unused_service service hour) (lookup k services)
unfolding Services.update_unused_all lookup
lookup-update_unused [] hour k = refl
lookup-update_unused ((triple, service) ∷ services) hour k = elim (Bool-cases (triple == k)) [
  | inl same_ ↦ simp same_ refl
  | inr else_ ↦ simp else_ (lookup-update_unused services hour k)
]

-- A TOT changes no place.
pub is_collected-update_unused :
    (s : CollectProgress) (hour : ℕ) (p : Place)
    → is_collected (Services.update_unused s hour) p ≡ is_collected s p
unfolding is_collected Services.update_unused
is_collected-update_unused s hour p = elim (Option-cases (lookup p.triple s.services)) [
  | inl none_ ↦ simp (lookup-update_unused s.services hour p.triple, none_) refl
  | inr (service, some_) ↦
      simp (lookup-update_unused s.services hour p.triple, some_)
        (is_collected_service-update_unused service hour p.basic p.table p.segment p.section)
]

false_not_true : false ≡ true → ⊥
false_not_true h = cc

table_collected :
    (s : TableProgress) (eit : EitSection)
    → EitProgress.check_collected s eit ≡ true
    → s.collected (segment_index eit) (section_index eit) ≡ true
unfolding EitProgress.check_collected
table_collected s eit h = ground arith

group_collected :
    (s : TableGroupProgress) (eit : EitSection)
    → Group.check_collected s eit ≡ true
    → is_collected_group s (table_index eit) (segment_index eit) (section_index eit) ≡ true
unfolding Group.check_collected is_collected_group
group_collected s eit h = elim (Option-cases s.last_table_index) [
  | inl none_ ↦ absurd (false_not_true (simp none_ at h))
  | inr (last, some_) ↦ elim (Bool-cases (last == last_table_index eit)) [
    | inr else_ ↦ absurd (false_not_true (simp (some_, else_) at h))
    | inl same_ ↦ table_collected (s.tables (table_index eit)) eit (simp (some_, same_) at h)
  ]
]

service_collected :
    (s : ServiceProgress) (eit : EitSection)
    → Services.check_collected_service s eit ≡ true
    → is_collected_service s
        (is_basic eit)
        (table_index eit)
        (segment_index eit)
        (section_index eit)
      ≡ true
unfolding Services.check_collected_service is_collected_service
service_collected s eit h = elim (Bool-cases (is_basic eit)) [
  | inl basic ↦ rw basic (group_collected s.basic eit (simp basic at h))
  | inr extra ↦ rw extra (group_collected s.extra eit (simp extra at h))
]

-- A section that is reported as collected has the bit of its place.
pub check_collected-is_collected :
    (s : CollectProgress) (eit : EitSection)
    → Services.check_collected s eit ≡ true
    → is_collected s (place eit) ≡ true
unfolding Services.check_collected is_collected place
check_collected-is_collected s eit h =
    elim (Option-cases (lookup (service_triple eit) s.services)) [
      | inl none_ ↦ absurd (false_not_true (simp none_ at h))
      | inr (service, some_) ↦ simp some_ (service_collected service eit (simp some_ at h))
    ]
