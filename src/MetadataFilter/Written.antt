-- ===== src/MetadataFilter/Written.antt =====
-- What `ProgramMetadataFilter` of src/program_metadata_filter.hh writes.
use mirakc_arib.Prelude.{
  ℕ, ◌≡◌, refl, sym, ap, ◌∙◌, Bool, true, not, ◌&&◌, ◌||◌, List, [], ◌∷◌, ◌++◌, append-nil,
  append_assoc, length, map, select, ◌==◌, Bool-cases, inl, inr, arith,
}
use mirakc_arib.Tables.{Eit, Table, eit_pf_act, pat, cat, pmt, nit_act, sdt_act, tot, other}
use mirakc_arib.MetadataFilter.{
  ProgramMetadataFilter, events_info, write_events, handle_eit, handle_table, feed_packet,
  handle_packet,
}

-- The EITs of present and following events among the tables.
abbrev pub eits_of : List Table → List Eit
eits_of [] = []
eits_of (eit_pf_act eit ∷ ts) = eit ∷ eits_of ts
eits_of (t ∷ ts) = eits_of ts

-- A valid EIT with events, of the service that is asked for or of any if that is 0.
abbrev pub is_wanted : ℕ → Eit → Bool
is_wanted sid eit =
    eit.is_valid && (sid == 0 || eit.service_id == sid) && not (length eit.events == 0)

abbrev Wrote : ProgramMetadataFilter → List Eit → ProgramMetadataFilter → Type 0
Wrote s eits s' =
    (s'.documents ≡ s.documents ++ map events_info (select (is_wanted s.option.sid) eits))
    × (s'.option ≡ s.option)

handle_eit-Wrote : (s : ProgramMetadataFilter) (eit : Eit) → Wrote s (eit ∷ []) (handle_eit s eit)
unfolding handle_eit write_events
handle_eit-Wrote s eit = elim (Bool-cases (is_wanted s.option.sid eit)) [
  | inl wanted ↦
      let e : handle_eit s eit ≡ write_events s eit = ground arith in simp (e, wanted) (refl, refl)
  | inr unwanted ↦
      let e : handle_eit s eit ≡ s = ground arith in
      simp (e, unwanted) (sym (append-nil s.documents), refl)
]

select_head :
    (test : Eit → Bool) (eit : Eit) (eits : List Eit)
    → map events_info (select test (eit ∷ [])) ++ map events_info (select test eits)
      ≡ map events_info (select test (eit ∷ eits))
select_head test eit eits = elim (Bool-cases (test eit)) [
  | inl hit ↦ rw hit refl
  | inr miss ↦ rw miss refl
]

feed_packet-Wrote :
    (s : ProgramMetadataFilter) (ts : List Table) → Wrote s (eits_of ts) (feed_packet s ts)
unfolding feed_packet handle_table
feed_packet-Wrote s [] = (sym (append-nil s.documents), refl)
feed_packet-Wrote s (eit_pf_act eit ∷ ts) =
    let s' = handle_eit s eit in
    let first = handle_eit-Wrote s eit in
    let rest = feed_packet-Wrote s' ts in
    let test = is_wanted s.option.sid in
    let infos = map events_info (select test (eit ∷ [])) in
    let more = map events_info (select test (eits_of ts)) in
    let same =
      ap (λ option. map events_info (select (is_wanted option.sid) (eits_of ts))) first.1 in
    (
      rest.0
          ∙ ap (λ xs. s'.documents ++ xs) same
          ∙ ap (λ xs. xs ++ more) first.0
          ∙ append_assoc s.documents infos more
          ∙ ap (λ xs. s.documents ++ xs) (select_head test eit (eits_of ts)),
      rest.1 ∙ first.1,
    )
feed_packet-Wrote s (pat t ∷ ts) = feed_packet-Wrote s ts
feed_packet-Wrote s (cat t ∷ ts) = feed_packet-Wrote s ts
feed_packet-Wrote s (pmt t ∷ ts) = feed_packet-Wrote s ts
feed_packet-Wrote s (nit_act t ∷ ts) = feed_packet-Wrote s ts
feed_packet-Wrote s (sdt_act t ∷ ts) = feed_packet-Wrote s ts
feed_packet-Wrote s (tot t ∷ ts) = feed_packet-Wrote s ts
feed_packet-Wrote s (other ∷ ts) = feed_packet-Wrote s ts

-- The filter takes every packet, and after it has written a document for each valid EIT with events
-- of the service that it is for, or of any service if that is 0, in order.
pub handle_packet-documents :
    (s : ProgramMetadataFilter) (tables : List Table)
    → let step = handle_packet s tables in
      (step.1 ≡ true)
      × (step.0.documents
          ≡ s.documents ++ map events_info (select (is_wanted s.option.sid) (eits_of tables)))
unfolding handle_packet
handle_packet-documents s tables = (refl, (feed_packet-Wrote s tables).0)
