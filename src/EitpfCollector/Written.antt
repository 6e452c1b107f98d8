-- ===== src/EitpfCollector/Written.antt =====
-- What `EitpfCollector` of src/eitpf_collector.hh writes.
use mirakc_arib.Prelude.{
  ℕ, ◌≡◌, refl, sym, ap, ◌∙◌, Bool, true, false, not, ◌&&◌, List, length, put_sorted,
  lookup-put_sorted, ltb, ◌==◌, ==_refl, both, Bool-cases, inl, inr, arith,
}
use mirakc_arib.SidSet
use mirakc_arib.EitSection.{
  Section, ByteReader, EitSection, eit_section, eit_payload_fixed_size, service_triple,
}
use mirakc_arib.EitpfCollector.{
  EitpfCollector, is_collected, tid_eit_pf_act, write_eit_section, handle_present, handle_following,
  handle_eit, handle_section,
}

is_collected-put :
    (eit : EitSection) (versions : List (ℕ × ℕ))
    → is_collected eit (put_sorted (service_triple eit) eit.version versions) ≡ true
unfolding is_collected
is_collected-put eit versions =
    rw
      (
        lookup-put_sorted (service_triple eit) (service_triple eit) eit.version versions,
        ==_refl (service_triple eit),
      )
      (==_refl eit.version)

handle_present_twice :
    (s : EitpfCollector) (eit : EitSection)
    → handle_present (handle_present s eit) eit ≡ handle_present s eit
unfolding handle_present write_eit_section
handle_present_twice s eit =
    let known = is_collected-put eit s.present_versions in
    elim (Bool-cases (is_collected eit s.present_versions)) [
      | inl old ↦ simp (old, old) refl
      | inr new_ ↦ elim (Bool-cases s.option.present) [
        | inl wanted ↦ simp (new_, wanted, known) refl
        | inr ignored ↦ simp (new_, ignored, known) refl
      ]
    ]

handle_following_twice :
    (s : EitpfCollector) (eit : EitSection)
    → handle_following (handle_following s eit) eit ≡ handle_following s eit
unfolding handle_following write_eit_section
handle_following_twice s eit =
    let known = is_collected-put eit s.following_versions in
    elim (Bool-cases (is_collected eit s.following_versions)) [
      | inl old ↦ simp (old, old) refl
      | inr new_ ↦ elim (Bool-cases s.option.following) [
        | inl wanted ↦ simp (new_, wanted, known) refl
        | inr ignored ↦ simp (new_, ignored, known) refl
      ]
    ]

handle_present-option :
    (s : EitpfCollector) (eit : EitSection) → (handle_present s eit).option ≡ s.option
unfolding handle_present write_eit_section
handle_present-option s eit =
    both (λ (s' : EitpfCollector). s'.option ≡ s.option) (is_collected eit s.present_versions) s _
      refl (both (λ (s' : EitpfCollector). s'.option ≡ s.option) s.option.present _ s refl refl)

handle_following-option :
    (s : EitpfCollector) (eit : EitSection) → (handle_following s eit).option ≡ s.option
unfolding handle_following write_eit_section
handle_following-option s eit =
    both (λ (s' : EitpfCollector). s'.option ≡ s.option) (is_collected eit s.following_versions) s _
      refl (both (λ (s' : EitpfCollector). s'.option ≡ s.option) s.option.following _ s refl refl)

-- The test of the inclusion list.
abbrev is_ignored : EitpfCollector → EitSection → Bool
is_ignored s eit = not (SidSet.is_empty s.option.sids) && not (SidSet.contain s.option.sids eit.sid)

handle_eit_twice :
    (s : EitpfCollector) (eit : EitSection) → handle_eit (handle_eit s eit) eit ≡ handle_eit s eit
unfolding handle_eit
handle_eit_twice s eit = elim (Bool-cases (is_ignored s eit)) [
  | inl ignored ↦ simp (ignored, ignored) refl
  | inr asked ↦ elim (Bool-cases (eit.section_number == 0)) [
    | inl present ↦
        let still : is_ignored (handle_present s eit) eit ≡ false =
          rw (handle_present-option s eit) asked in
        simp (asked, present, still) (handle_present_twice s eit)
    | inr later ↦ elim (Bool-cases (eit.section_number == 1)) [
      | inl following ↦
          let still : is_ignored (handle_following s eit) eit ≡ false =
            rw (handle_following-option s eit) asked in
          simp (asked, later, following, still) (handle_following_twice s eit)
      | inr other_ ↦ simp (asked, later, other_) refl
    ]
  ]
]

-- A section that is handed on twice in a row is taken once: the second time nothing changes.
pub repeated_section :
    (reader : ByteReader) (s : EitpfCollector) (x : Section)
    → handle_section reader (handle_section reader s x) x ≡ handle_section reader s x
unfolding handle_section
repeated_section reader s x =
    let ok =
      x.is_valid
      && (x.table_id == tid_eit_pf_act)
      && not (ltb (length x.payload) eit_payload_fixed_size)
      && not x.is_next in
    let eit = eit_section reader x in
    elim (Bool-cases ok) [
      | inl through ↦
          let step : (s' : EitpfCollector) → handle_section reader s' x ≡ handle_eit s' eit =
            λ s'. ground arith in
          ap (λ s'. handle_section reader s' x) (step s)
          ∙ step (handle_eit s eit)
          ∙ handle_eit_twice s eit
          ∙ sym (step s)
      | inr dropped ↦
          let step : (s' : EitpfCollector) → handle_section reader s' x ≡ s' = λ s'. ground arith in
          ap (λ s'. handle_section reader s' x) (step s)
    ]
