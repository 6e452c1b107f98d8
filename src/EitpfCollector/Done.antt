-- ===== src/EitpfCollector/Done.antt =====
-- When `EitpfCollector` of src/eitpf_collector.hh has all that it was asked for.
use mirakc_arib.Prelude.{
  ℕ, ◌≡◌, refl, ap, ◌∙◌, true, false, not, List, [], ◌∷◌, some, All, contains, length, put_sorted,
  ltb, ◌==◌, Returns, Returns-bind, Bool-cases, both, inl, inr, arith,
}
use mirakc_arib.SidSet
use mirakc_arib.SidSet.{SidSet}
use mirakc_arib.EitSection.{
  Section, ByteReader, EitSection, eit_section, eit_payload_fixed_size, service_triple,
}
use mirakc_arib.EitpfCollector.{
  EitpfCollector, is_collected, done, tid_eit_pf_act, write_eit_section, handle_present,
  handle_following, handle_eit, handle_section, feed_packet, handle_packet,
}
use mirakc_arib.EitpfCollector.Versions.{IsAsked, put-IsAsked, IsValid, AllKnown, done_lem}

-- The section is of the stream.
abbrev pub IsOf : ℕ → ℕ → EitSection → Type 0
IsOf nid tsid eit = (eit.nid ≡ nid) × (eit.tsid ≡ tsid)

-- What a handler keeps: the options, and that the maps are of services that were asked for.
abbrev Keeps : ℕ → ℕ → EitpfCollector → EitpfCollector → Type 0
Keeps nid tsid s s' = (s'.option ≡ s.option) × IsValid nid tsid s'

put-of :
    (nid tsid : ℕ) (eit : EitSection) (sids : List ℕ) (versions : List (ℕ × ℕ))
    → IsOf nid tsid eit
    → contains eit.sid sids ≡ true
    → IsAsked nid tsid sids versions
    → IsAsked nid tsid sids (put_sorted (service_triple eit) eit.version versions)
unfolding service_triple
put-of nid tsid eit sids versions (n, t) asked h =
    rw (n, t) (put-IsAsked nid tsid eit.sid eit.version sids versions asked h)

handle_present-Keeps :
    (nid tsid : ℕ) (s : EitpfCollector) (eit : EitSection)
    → IsOf nid tsid eit
    → contains eit.sid s.option.sids.set ≡ true
    → IsValid nid tsid s
    → Keeps nid tsid s (handle_present s eit)
unfolding handle_present write_eit_section
handle_present-Keeps nid tsid s eit of_ asked (p, f) =
    let p' = put-of nid tsid eit s.option.sids.set s.present_versions of_ asked p in
    elim (Bool-cases (is_collected eit s.present_versions)) [
      | inl old ↦ simp old (refl, (p, f))
      | inr new_ ↦ elim (Bool-cases s.option.present) [
        | inl wanted ↦ simp (new_, wanted) (refl, (p', f))
        | inr ignored ↦ simp (new_, ignored) (refl, (p', f))
      ]
    ]

handle_following-Keeps :
    (nid tsid : ℕ) (s : EitpfCollector) (eit : EitSection)
    → IsOf nid tsid eit
    → contains eit.sid s.option.sids.set ≡ true
    → IsValid nid tsid s
    → Keeps nid tsid s (handle_following s eit)
unfolding handle_following write_eit_section
handle_following-Keeps nid tsid s eit of_ asked (p, f) =
    let f' = put-of nid tsid eit s.option.sids.set s.following_versions of_ asked f in
    elim (Bool-cases (is_collected eit s.following_versions)) [
      | inl old ↦ simp old (refl, (p, f))
      | inr new_ ↦ elim (Bool-cases s.option.following) [
        | inl wanted ↦ simp (new_, wanted) (refl, (p, f'))
        | inr ignored ↦ simp (new_, ignored) (refl, (p, f'))
      ]
    ]

handle_eit-Keeps :
    (nid tsid : ℕ) (s : EitpfCollector) (eit : EitSection)
    → IsOf nid tsid eit
    → SidSet.is_empty s.option.sids ≡ false
    → IsValid nid tsid s
    → Keeps nid tsid s (handle_eit s eit)
unfolding handle_eit SidSet.contain
handle_eit-Keeps nid tsid s eit of_ some_ h =
    elim (Bool-cases (contains eit.sid s.option.sids.set)) [
      | inr other_ ↦ simp (some_, other_) (refl, h)
      | inl asked ↦
          simp (some_, asked)
            (both (Keeps nid tsid s) (eit.section_number == 0) _ _
              (handle_present-Keeps nid tsid s eit of_ asked h)
              (both (Keeps nid tsid s) (eit.section_number == 1) _ _
                (handle_following-Keeps nid tsid s eit of_ asked h) (refl, h)))
    ]

module _ (reader : ByteReader) (nid tsid : ℕ) where
  handle_section-Keeps :
      (s : EitpfCollector) (x : Section)
      → IsOf nid tsid (eit_section reader x)
      → SidSet.is_empty s.option.sids ≡ false
      → IsValid nid tsid s
      → Keeps nid tsid s (handle_section reader s x)
  unfolding handle_section
  handle_section-Keeps s x of_ some_ h =
      both (Keeps nid tsid s) (not x.is_valid) _ _ (refl, h)
        (both (Keeps nid tsid s) (not (x.table_id == tid_eit_pf_act)) _ _ (refl, h)
          (both (Keeps nid tsid s) (ltb (length x.payload) eit_payload_fixed_size) _ _ (refl, h)
            (both (Keeps nid tsid s) x.is_next _ _ (refl, h)
              (handle_eit-Keeps nid tsid s (eit_section reader x) of_ some_ h))))

  feed_packet-Keeps :
      (s : EitpfCollector) (sections : List Section)
      → All (λ x. IsOf nid tsid (eit_section reader x)) sections
      → SidSet.is_empty s.option.sids ≡ false
      → IsValid nid tsid s
      → Keeps nid tsid s (feed_packet reader s sections)
  unfolding feed_packet
  feed_packet-Keeps s [] all_ some_ h = (refl, h)
  feed_packet-Keeps s (x ∷ sections) all_ some_ h =
      let s' = handle_section reader s x in
      let first = handle_section-Keeps s x all_.0 some_ h in
      let rest =
        feed_packet-Keeps s' sections all_.1
          (ap (λ option. SidSet.is_empty option.sids) first.0 ∙ some_) first.1 in
      (rest.0 ∙ first.0, rest.1)

  -- When services are asked for and all sections are of one stream, no packet makes the collector
  -- throw, from a state in which the versions are of services that were asked for, nor does it leave
  -- those states. The packet at which it stops leaves the versions of the events that were asked for
  -- known for each service, equal for the two events if both were.
  pub handle_packet-Returns :
      (s : EitpfCollector) (sections : List Section)
      → All (λ x. IsOf nid tsid (eit_section reader x)) sections
      → SidSet.is_empty s.option.sids ≡ false
      → IsValid nid tsid s
      → Returns
          (λ step. IsValid nid tsid step.0 × (step.1 ≡ false → AllKnown nid tsid step.0))
          (handle_packet reader s sections)
  unfolding handle_packet
  handle_packet-Returns s sections all_ some_ h =
      let s' = feed_packet reader s sections in
      let kept = feed_packet-Keeps s sections all_ some_ h in
      Returns-bind (λ is_done. is_done ≡ true → AllKnown nid tsid s')
        (λ step. IsValid nid tsid step.0 × (step.1 ≡ false → AllKnown nid tsid step.0)) (done s')
        (λ is_done. some (s', not is_done)) (done_lem nid tsid s' kept.1)
        (λ is_done known. (kept.1, λ stops. known (ground arith)))
