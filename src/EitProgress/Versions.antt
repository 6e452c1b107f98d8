-- ===== src/EitProgress/Versions.antt =====
-- When the `CheckCollected` methods of src/eit_collector.hh report a section as collected.
use mirakc_arib.Prelude.{
  ℕ, zero, suc, ◌+◌, ◌-◌, ◌<◌, ◌≤◌, ◌≡◌, ◌≢◌, ◌==◌, refl, sym, ap, ◌∙◌, true, false, ==_refl,
  if◌then◌else◌, lookup, lookup-put, maybe, Bool-cases, Option-cases, inl, inr, arith,
}
use mirakc_arib.EitSection.{
  EitSection, service_triple, is_basic, table_index, last_table_index, segment_index, section_index,
  last_section_index,
}
use mirakc_arib.EitProgress
use mirakc_arib.EitProgress.{TableProgress, no_version, set_version, check_versions}
use mirakc_arib.EitProgress.Group
use mirakc_arib.EitProgress.Group.{TableGroupProgress, num_tables, change_table}
use mirakc_arib.EitProgress.Services
use mirakc_arib.EitProgress.Services.{ServiceProgress, CollectProgress, new_service}
use mirakc_arib.EitProgress.Table.{set_versions}

versions_stored :
    (n i : ℕ) (versions : ℕ → ℕ) (version : ℕ)
    → version ≢ no_version
    → ((k : ℕ) → i ≤ k → k < i + n → versions k ≡ version)
    → check_versions n i versions version ≡ true
unfolding check_versions
versions_stored zero i versions version hv h = refl
versions_stored (suc n) i versions version hv h =
    let rest =
      versions_stored n (i + 1) versions version hv (λ k lo hi. h k (omega arith) (omega arith)) in
    ground (arith, rest, h i (omega arith) (omega arith))

table_collected-update :
    (s : TableProgress) (eit : EitSection)
    → eit.version ≢ no_version
    → EitProgress.check_collected (EitProgress.update s eit) eit ≡ true
unfolding EitProgress.check_collected EitProgress.update
table_collected-update s eit hv =
    let section = section_index eit in
    let last = last_section_index eit in
    let stored =
      versions_stored (last - section) section (EitProgress.update s eit).section_versions
        eit.version hv
        (λ k lo hi.
          ground
            (arith, set_versions eit.version (last + 1 - section) section s.section_versions k)) in
    rw stored (ground (arith, ==_refl (segment_index eit), ==_refl section))

group_collected-update :
    (s : TableGroupProgress) (eit : EitSection)
    → eit.version ≢ no_version
    → Group.check_collected (Group.update s eit) eit ≡ true
unfolding Group.check_collected Group.update Group.update_table
group_collected-update s eit hv =
    let checked = Group.check_consistency s eit in
    let s' = if checked.1 then checked.0 else Group.restart checked.0 eit in
    rw (==_refl (last_table_index eit), ==_refl (table_index eit))
      (table_collected-update (s'.tables (table_index eit)) eit hv)

service_collected-update :
    (s : ServiceProgress) (eit : EitSection)
    → eit.version ≢ no_version
    → Services.check_collected_service (Services.update_service s eit) eit ≡ true
unfolding Services.check_collected_service Services.update_service
service_collected-update s eit hv = elim (Bool-cases (is_basic eit)) [
  | inl basic ↦ rw basic (group_collected-update s.basic eit hv)
  | inr extra ↦ rw extra (group_collected-update s.extra eit hv)
]

-- A section whose version is not 0xFF is reported as collected once the progress has been updated
-- with it, whatever the progress was before.
pub check_collected-update :
    (s : CollectProgress) (eit : EitSection)
    → eit.version ≢ no_version
    → Services.check_collected (Services.update s eit) eit ≡ true
unfolding Services.check_collected Services.update
check_collected-update s eit hv =
    let triple = service_triple eit in
    let service = maybe (lookup triple s.services) new_service (λ found. found) in
    rw (lookup-put triple triple (Services.update_service service eit) s.services, ==_refl triple)
      (service_collected-update service eit hv)

versions_hold :
    (n i : ℕ) (versions : ℕ → ℕ) (version : ℕ)
    → check_versions n i versions version ≡ true
    → (k : ℕ) → i ≤ k
    → k < i + n
    → versions k ≡ version
unfolding check_versions
versions_hold zero i versions version h k lo hi = absurd (omega arith)
versions_hold (suc n) i versions version h k lo hi = elim (Bool-cases (i == k)) [
  | inl here ↦ ground arith
  | inr later ↦
      versions_hold n (i + 1) versions version (ground arith) k (ground arith) (ground arith)
]

-- Sections of one table of a service, both before the last of their segments at an index, whichever
-- segments these are, with different versions.
abbrev pub AreRivals : EitSection → EitSection → ℕ → Type 0
AreRivals eit other k =
    (service_triple eit ≡ service_triple other)
    × (is_basic eit ≡ is_basic other)
    × (table_index eit ≡ table_index other)
    × (section_index eit ≤ k)
    × (k < last_section_index eit)
    × (section_index other ≤ k)
    × (k < last_section_index other)
    × (eit.version ≢ other.version)

table_version :
    (s : TableProgress) (eit : EitSection) (k : ℕ)
    → section_index eit ≤ k
    → k < last_section_index eit
    → EitProgress.check_collected s eit ≡ true
    → s.section_versions k ≡ eit.version
unfolding EitProgress.check_collected
table_version s eit k lo hi h =
    versions_hold (last_section_index eit - section_index eit) (section_index eit)
      s.section_versions eit.version (ground arith) k lo (omega arith)

group_table :
    (s : TableGroupProgress) (eit : EitSection)
    → Group.check_collected s eit ≡ true
    → EitProgress.check_collected (s.tables (table_index eit)) eit ≡ true
unfolding Group.check_collected
group_table s eit h = elim (Option-cases s.last_table_index) [
  | inl none_ ↦ let h' = rw none_ at h in absurd cc
  | inr (last, some_) ↦ let h' = rw some_ at h in ground arith
]

group_rivals :
    (s : TableGroupProgress) (eit other : EitSection) (k : ℕ)
    → AreRivals eit other k
    → Group.check_collected s eit ≡ true
    → Group.check_collected s other ≡ true
    → ⊥
group_rivals s eit other k (_, _, table_, lo, hi, lo', hi', differ) h h' =
    let v = table_version (s.tables (table_index eit)) eit k lo hi (group_table s eit h) in
    let v' =
      table_version (s.tables (table_index other)) other k lo' hi' (group_table s other h') in
    differ (sym v ∙ ap (λ t. (s.tables t).section_versions k) table_ ∙ v')

service_rivals :
    (s : ServiceProgress) (eit other : EitSection) (k : ℕ)
    → AreRivals eit other k
    → Services.check_collected_service s eit ≡ true
    → Services.check_collected_service s other ≡ true
    → ⊥
unfolding Services.check_collected_service
service_rivals s eit other k rivals h h' = elim (Bool-cases (is_basic eit)) [
  | inl basic ↦
      group_rivals s.basic eit other k rivals (simp basic at h) (simp (sym rivals.1 ∙ basic) at h')
  | inr extra ↦
      group_rivals s.extra eit other k rivals (simp extra at h) (simp (sym rivals.1 ∙ extra) at h')
]

-- Of two rivals at most one is reported as collected.
pub check_collected-rivals :
    (s : CollectProgress) (eit other : EitSection) (k : ℕ)
    → AreRivals eit other k
    → Services.check_collected s eit ≡ true
    → Services.check_collected s other ≡ false
unfolding Services.check_collected
check_collected-rivals s eit other k rivals h =
    elim (Option-cases (lookup (service_triple eit) s.services)) [
      | inl none_ ↦ let h' = rw none_ at h in absurd cc
      | inr (service, some_) ↦
          let h' : Services.check_collected_service service eit ≡ true = rw some_ at h in
          elim (Bool-cases (Services.check_collected_service service other)) [
            | inl both_ ↦ absurd (service_rivals service eit other k rivals h' both_)
            | inr no_ ↦ rw (← rivals.0, some_) no_
          ]
    ]

-- The section is the last of its segment.
abbrev pub EndsSegment : EitSection → Type 0
EndsSegment eit = last_section_index eit ≤ section_index eit

-- The same section with another version.
abbrev pub with_version : ℕ → EitSection → EitSection
with_version version eit = record eit { version = version }

no_round : (n i version : ℕ) (versions : ℕ → ℕ) → n ≡ 0 → check_versions n i versions version ≡ true
unfolding check_versions
no_round zero i version versions h = refl
no_round (suc n) i version versions h = absurd (omega arith)

table_collected-with_version :
    (s : TableProgress) (eit : EitSection) (version : ℕ)
    → EndsSegment eit
    → EitProgress.check_collected s (with_version version eit) ≡ EitProgress.check_collected s eit
unfolding EitProgress.check_collected section_index last_section_index segment_index
table_collected-with_version s eit version h =
    let section = section_index eit in
    let n = last_section_index eit - section in
    rw
      (
        no_round n section version s.section_versions (omega arith),
        no_round n section eit.version s.section_versions (omega arith),
      )
      refl

group_collected-with_version :
    (s : TableGroupProgress) (eit : EitSection) (version : ℕ)
    → EndsSegment eit
    → Group.check_collected s (with_version version eit) ≡ Group.check_collected s eit
unfolding Group.check_collected table_index last_table_index
group_collected-with_version s eit version h =
    rw (table_collected-with_version (s.tables (table_index eit)) eit version h) refl

-- A section that is the last of its segment is reported as collected or not whatever its version is:
-- another version of it makes no difference.
pub check_collected-with_version :
    (s : CollectProgress) (eit : EitSection) (version : ℕ)
    → EndsSegment eit
    → Services.check_collected s (with_version version eit) ≡ Services.check_collected s eit
unfolding Services.check_collected Services.check_collected_service service_triple is_basic
check_collected-with_version s eit version h =
    elim (Option-cases (lookup (service_triple eit) s.services)) [
      | inl none_ ↦ rw none_ refl
      | inr (service, some_) ↦
          rw
            (
              some_,
              group_collected-with_version service.basic eit version h,
              group_collected-with_version service.extra eit version h,
            )
            refl
    ]
