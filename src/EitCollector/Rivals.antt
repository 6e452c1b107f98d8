-- ===== src/EitCollector/Rivals.antt =====
-- Sections that `EitCollector` of src/eit_collector.hh writes again and again.
use mirakc_arib.Prelude.{
  ℕ, ◌≡◌, ◌≢◌, refl, sym, ap, ◌∙◌, true, false, [], ◌∷◌, ◌++◌, append_assoc, ℤ, Bool-cases, inl,
  inr,
}
use mirakc_arib.EitSection.{Section, ByteReader, EitSection, eit_section}
use mirakc_arib.EitProgress.{no_version}
use mirakc_arib.EitProgress.Services
use mirakc_arib.EitProgress.Versions.{check_collected-update, check_collected-rivals, AreRivals}
use mirakc_arib.EitCollector.{EitCollector, write_eit_section, update_progress, handle_section}
use mirakc_arib.EitCollector.Written.{is_accepted, handle_section-accepted}

rivals_swap : (eit other : EitSection) (k : ℕ) → AreRivals eit other k → AreRivals other eit k
rivals_swap eit other k (t, b, i, lo, hi, lo', hi', differ) =
    (sym t, sym b, sym i, lo', hi', lo, hi, λ e. differ (sym e))

module _ (reader : ByteReader) (hour : ℤ → ℕ) where
  -- What a section that the guards let through leaves: the options, and itself as collected.
  handle_section-collected :
      (s : EitCollector) (x : Section)
      → x.version ≢ no_version
      → is_accepted reader hour s.option x ≡ true
      → let s' = handle_section reader hour s x in
        (s'.option ≡ s.option)
        × (Services.check_collected s'.progress (eit_section reader x) ≡ true)
  unfolding update_progress write_eit_section eit_section
  handle_section-collected s x known accepted =
      let eit = eit_section reader x in
      rw (handle_section-accepted reader hour s x accepted)
        (elim (Bool-cases (Services.check_collected s.progress eit)) [
          | inl old ↦ rw old (refl, old)
          | inr new_ ↦ rw new_ (refl, check_collected-update s.progress eit known)
        ])

  handle_section-new :
      (s : EitCollector) (x : Section)
      → is_accepted reader hour s.option x ≡ true
      → Services.check_collected s.progress (eit_section reader x) ≡ false
      → (handle_section reader hour s x).documents ≡ s.documents ++ eit_section reader x ∷ []
  unfolding update_progress write_eit_section
  handle_section-new s x accepted new_ =
      rw (handle_section-accepted reader hour s x accepted, new_) refl

  -- Two sections that the guards let through, of one table of a service, not the last of their
  -- segments at some index, with different versions, neither 0xFF: even if they are of different
  -- segments, each of them makes the other count as new. When the first has been handled, and then
  -- the second and the first are delivered again, both are written, in this order.
  pub handle_section_alternates :
      (s : EitCollector) (x y : Section) (k : ℕ)
      → x.version ≢ no_version
      → y.version ≢ no_version
      → is_accepted reader hour s.option x ≡ true
      → is_accepted reader hour s.option y ≡ true
      → AreRivals (eit_section reader x) (eit_section reader y) k
      → let s' = handle_section reader hour s x in
        (handle_section reader hour (handle_section reader hour s' y) x).documents
        ≡ s'.documents ++ eit_section reader y ∷ eit_section reader x ∷ []
  handle_section_alternates s x y k known known' accepted accepted' rivals =
      let a = eit_section reader x in
      let b = eit_section reader y in
      let s' = handle_section reader hour s x in
      let s'' = handle_section reader hour s' y in
      let first = handle_section-collected s x known accepted in
      let allowed = ap (λ option. is_accepted reader hour option y) first.0 ∙ accepted' in
      let second = handle_section-collected s' y known' allowed in
      let third =
        handle_section-new s'' x
          (ap (λ option. is_accepted reader hour option x) (second.0 ∙ first.0) ∙ accepted)
          (check_collected-rivals s''.progress b a k (rivals_swap a b k rivals) second.1) in
      third
      ∙ ap (λ eits. eits ++ a ∷ [])
          (handle_section-new s' y allowed
            (check_collected-rivals s'.progress a b k rivals first.1))
      ∙ append_assoc s'.documents (b ∷ []) (a ∷ [])
