-- ===== src/EitCollector/Written.antt =====
-- What `EitCollector` of src/eit_collector.hh writes: every section that its options select, one of
-- each place at least, and no section again that it has just written.
use mirakc_arib.Prelude.{
  ℕ, ◌<◌, ◌≡◌, ◌≢◌, refl, sym, ap, ◌∙◌, ◌⊎◌, Bool, true, false, not, ◌&&◌, List, [], ◌∷◌, ◌++◌, ℤ,
  length, ltb, if◌then◌else◌, Bool-cases, inl, inr, arith,
}
use mirakc_arib.Tables.{Table, tot, pat, cat, pmt, nit_act, sdt_act, eit_pf_act, other}
use mirakc_arib.EitSection.{
  Section, ByteReader, EitSection, eit_section, eit_payload_fixed_size, table_index, segment_index,
  section_index,
}
use mirakc_arib.EitProgress.{no_version}
use mirakc_arib.EitProgress.Services
use mirakc_arib.EitProgress.Services.{CollectProgress}
use mirakc_arib.EitProgress.Versions.{check_collected-update}
use mirakc_arib.EitProgress.Places.{
  Place, place, InRange, is_collected, is_collected-update, is_collected-update_unused,
  check_collected-is_collected,
}
use mirakc_arib.EitCollector.{
  is_allowed, EitCollector, EitCollectorOption, Delivery, section, table, is_selected,
  write_eit_section, update_progress, handle_eit, handle_section, handle_time, handle_tot,
  handle_table, handle_delivery, feed_packet,
}

-- Some section of the list has the place.
abbrev pub HasPlace : Place → List EitSection → Type 0
HasPlace p [] = ⊥
HasPlace p (eit ∷ eits) = (place eit ≡ p) ⊎ HasPlace p eits

HasPlace-append :
    (p : Place) (eits more : List EitSection) → HasPlace p eits → HasPlace p (eits ++ more)
HasPlace-append p [] more h = absurd h
HasPlace-append p (eit ∷ eits) more (inl here_) = inl here_
HasPlace-append p (eit ∷ eits) more (inr there_) = inr (HasPlace-append p eits more there_)

HasPlace-last :
    (p : Place) (eits : List EitSection) (eit : EitSection)
    → place eit ≡ p
    → HasPlace p (eits ++ eit ∷ [])
HasPlace-last p [] eit h = inl h
HasPlace-last p (x ∷ eits) eit h = inr (HasPlace-last p eits eit h)

-- Every place that counts as collected has a document.
abbrev pub IsBacked : EitCollector → Type 0
IsBacked s = (p : Place) → InRange p → is_collected s.progress p ≡ true → HasPlace p s.documents

-- What a handler may do: it keeps the invariant, the options and the documents there are.
record Keeps (s s' : EitCollector) : Type 0 where
  option : s'.option ≡ s.option
  backed : IsBacked s → IsBacked s'
  grows : (p : Place) → HasPlace p s.documents → HasPlace p s'.documents

keep : (s : EitCollector) → Keeps s s
keep s = record { option = refl; backed = λ h. h; grows = λ p h. h }

keep_both : (s s' s'' : EitCollector) → Keeps s s' → Keeps s' s'' → Keeps s s''
keep_both s s' s'' h k = record {
  option = k.option ∙ h.option;
  backed = λ b. k.backed (h.backed b);
  grows = λ p d. k.grows p (h.grows p d);
}

keep_if :
    (s : EitCollector) (b : Bool) (x y : EitCollector)
    → Keeps s x
    → Keeps s y
    → Keeps s (if b then x else y)
keep_if s true x y h k = h
keep_if s false x y h k = k

write-Keeps :
    (s : EitCollector) (eit : EitSection) → Keeps s (update_progress (write_eit_section s eit) eit)
unfolding update_progress write_eit_section
write-Keeps s eit = record {
  option = refl;
  backed = λ b p r h. elim (is_collected-update s.progress eit p r h) [
    | inl here_ ↦ HasPlace-last p s.documents eit here_
    | inr old ↦ HasPlace-append p s.documents (eit ∷ []) (b p r old)
  ];
  grows = λ p d. HasPlace-append p s.documents (eit ∷ []) d;
}

handle_eit-Keeps : (s : EitCollector) (eit : EitSection) → Keeps s (handle_eit s eit)
unfolding handle_eit
handle_eit-Keeps s eit = keep_if s _ _ _ (keep s) (keep_if s _ _ _ (keep s) (write-Keeps s eit))

module _ (reader : ByteReader) (hour : ℤ → ℕ) where
  handle_section-Keeps : (s : EitCollector) (x : Section) → Keeps s (handle_section reader hour s x)
  unfolding handle_section
  handle_section-Keeps s x = keep_if s (not x.is_valid) _ _ (keep s) (
      keep_if s (not (is_selected s.option x.table_id)) _ _ (keep s) (
        keep_if s x.is_next _ _ (keep s) (
          keep_if s (ltb (length x.payload) eit_payload_fixed_size) _ _ (keep s)
            (handle_eit-Keeps s (eit_section reader x)))))

  handle_time-Keeps : (s : EitCollector) (time : ℤ) → Keeps s (handle_time reader hour s time)
  unfolding handle_time
  handle_time-Keeps s time =
      let same : (p : Place)
          → is_collected (Services.update_unused s.progress (hour time)) p
            ≡ is_collected s.progress p =
        is_collected-update_unused s.progress (hour time) in
      keep_if s _ _ _
        (record { option = refl; backed = λ b p r h. b p r (sym (same p) ∙ h); grows = λ p d. d })
        (record { option = refl; backed = λ b p r h. b p r (sym (same p) ∙ h); grows = λ p d. d })

  handle_table-Keeps : (s : EitCollector) (t : Table) → Keeps s (handle_table reader hour s t)
  unfolding handle_table handle_tot
  handle_table-Keeps s (tot t) = keep_if s _ _ _ (keep s) (handle_time-Keeps s t.utc_time)
  handle_table-Keeps s (pat t) = keep s
  handle_table-Keeps s (cat t) = keep s
  handle_table-Keeps s (pmt t) = keep s
  handle_table-Keeps s (nit_act t) = keep s
  handle_table-Keeps s (sdt_act t) = keep s
  handle_table-Keeps s (eit_pf_act t) = keep s
  handle_table-Keeps s other = keep s

  handle_delivery-Keeps :
      (s : EitCollector) (delivery : Delivery) → Keeps s (handle_delivery reader hour s delivery)
  unfolding handle_delivery
  handle_delivery-Keeps s (section x) = handle_section-Keeps s x
  handle_delivery-Keeps s (table t) = handle_table-Keeps s t

  feed_packet-Keeps :
      (s : EitCollector) (deliveries : List Delivery)
      → Keeps s (feed_packet reader hour s deliveries)
  unfolding feed_packet
  feed_packet-Keeps s [] = keep s
  feed_packet-Keeps s (delivery ∷ deliveries) =
      let s' = handle_delivery reader hour s delivery in
      keep_both s s' _ (handle_delivery-Keeps s delivery) (feed_packet-Keeps s' deliveries)

  -- The code's guards let the section through.
  abbrev pub is_accepted : EitCollectorOption → Section → Bool
  is_accepted option x =
      x.is_valid
      && is_selected option x.table_id
      && not x.is_next
      && not (ltb (length x.payload) eit_payload_fixed_size)
      && is_allowed option x.table_id_extension

  pub handle_section-accepted :
      (s : EitCollector) (x : Section)
      → is_accepted s.option x ≡ true
      → let eit = eit_section reader x in
        handle_section reader hour s x ≡ (
          if Services.check_collected s.progress eit
          then s
          else update_progress (write_eit_section s eit) eit)
  unfolding handle_section handle_eit eit_section
  handle_section-accepted s x h =
      let parts : (x.is_valid ≡ true)
          × (is_selected s.option x.table_id ≡ true)
          × (x.is_next ≡ false)
          × (ltb (length x.payload) eit_payload_fixed_size ≡ false)
          × (is_allowed s.option x.table_id_extension ≡ true) =
        (ground arith, ground arith, ground arith, ground arith, ground arith) in
      simp (parts.0, parts.1, parts.2, parts.3, parts.4) refl

  place-InRange : (x : Section) → x.section_number < 256 → InRange (place (eit_section reader x))
  unfolding place eit_section table_index segment_index section_index
  place-InRange x h = (omega arith, omega arith, omega arith)

  handle_section-HasPlace :
      (s : EitCollector) (x : Section)
      → x.section_number < 256
      → is_accepted s.option x ≡ true
      → IsBacked s
      → HasPlace (place (eit_section reader x)) (handle_section reader hour s x).documents
  unfolding update_progress write_eit_section
  handle_section-HasPlace s x small accepted backed =
      let eit = eit_section reader x in
      rw (handle_section-accepted s x accepted)
        (elim (Bool-cases (Services.check_collected s.progress eit)) [
          | inl old ↦ rw old (
              backed (place eit) (place-InRange x small)
                (check_collected-is_collected s.progress eit old))
          | inr new_ ↦ rw new_ (HasPlace-last (place eit) s.documents eit refl)
        ])

  -- From a state in which every collected place has a document, a section that is delivered among
  -- others and that the guards let through leaves a document of its place, that is of its service,
  -- table, segment and number: the section itself or an earlier one. Section numbers have 8 bits.
  pub feed_packet-HasPlace :
      (s : EitCollector) (before : List Delivery) (x : Section) (after : List Delivery)
      → x.section_number < 256
      → is_accepted s.option x ≡ true
      → IsBacked s
      → HasPlace
          (place (eit_section reader x))
          (feed_packet reader hour s (before ++ section x ∷ after)).documents
  unfolding feed_packet handle_delivery
  feed_packet-HasPlace s [] x after small accepted backed =
      (feed_packet-Keeps (handle_section reader hour s x) after).grows
        (place (eit_section reader x)) (handle_section-HasPlace s x small accepted backed)
  feed_packet-HasPlace s (delivery ∷ before) x after small accepted backed =
      let kept = handle_delivery-Keeps s delivery in
      feed_packet-HasPlace (handle_delivery reader hour s delivery) before x after small
        (ap (λ option. is_accepted option x) kept.option ∙ accepted) (kept.backed backed)

  pub handle_section-refused :
      (s : EitCollector) (x : Section)
      → is_accepted s.option x ≡ false
      → handle_section reader hour s x ≡ s
  unfolding handle_section handle_eit eit_section
  handle_section-refused s x h = ground arith

  -- A section whose version is not 0xFF and that is delivered twice in a row is written once: the
  -- second delivery changes nothing.
  pub handle_section_twice :
      (s : EitCollector) (x : Section)
      → x.version ≢ no_version
      → handle_section reader hour (handle_section reader hour s x) x
        ≡ handle_section reader hour s x
  unfolding update_progress write_eit_section eit_section
  handle_section_twice s x h = elim (Bool-cases (is_accepted s.option x)) [
    | inr refused ↦
        let e = handle_section-refused s x refused in ap (λ s'. handle_section reader hour s' x) e
    | inl accepted ↦
        elim (Bool-cases (Services.check_collected s.progress (eit_section reader x))) [
          | inl old ↦
              let e : handle_section reader hour s x ≡ s =
                handle_section-accepted s x accepted ∙ rw old refl in
              ap (λ s'. handle_section reader hour s' x) e
          | inr new_ ↦
              let eit = eit_section reader x in
              let s' = update_progress (write_eit_section s eit) eit in
              let e : handle_section reader hour s x ≡ s' =
                handle_section-accepted s x accepted ∙ rw new_ refl in
              let again : handle_section reader hour s' x ≡ s' =
                handle_section-accepted s' x accepted
                ∙ rw (check_collected-update s.progress eit h) refl in
              ap (λ s''. handle_section reader hour s'' x) e ∙ again ∙ sym e
        ]
  ]
