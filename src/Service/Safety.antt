-- ===== src/Service/Safety.antt =====
-- What the tables leave of the state of `ServiceFilter`, in src/service_filter.hh.
use mirakc_arib.Prelude.{
  ℕ, ◌≡◌, refl, ap, ◌∙◌, inl, inr, true, List, [], ◌∷◌, some, length, lookup, has_value, ◌==◌,
  Bool-cases, eq→==, ==_refl, Option-cases, Returns, Returns-bind, Returns-map,
}
use mirakc_arib.Tables.{
  Pat, Table, pat, cat, pmt, tot, nit_act, sdt_act, eit_pf_act, other, Packetizer, pid_pat,
}
use mirakc_arib.Service.{
  ServiceFilter, is_safe_dynamic_pid, only_service, accept_pat, handle_pat, handle_table,
  feed_packet,
}
use mirakc_arib.Service.Filters.{lookup-only_service}
use mirakc_arib.Service.Sets.{
  Distinct, Decoded, IsSafe, psi-ne-null, removed_pmt, length-only_service, handle_cat-IsSafe,
  handle_pmt-IsSafe, finish-IsSafe, handle_tot-IsSafe, handle_cat-same, handle_pmt-same,
  handle_tot-same,
}

module _ {S Z : Type 0} where
  module _ (packetizer : Packetizer Z Pat) where
    abbrev pub Keeps : ServiceFilter S Z → ServiceFilter S Z → Type 0
    Keeps s s' = IsSafe s' × (s'.option ≡ s.option) × (s'.sink ≡ s.sink)

    accept_pat-IsSafe :
        (s : ServiceFilter S Z) (t : Pat) (p : ℕ)
        → IsSafe s
        → Distinct t.pmts
        → lookup s.option.sid t.pmts ≡ some p
        → is_safe_dynamic_pid p ≡ true
        → Returns (Keeps s) (accept_pat packetizer s t p)
    unfolding accept_pat
    accept_pat-IsSafe s t p v d e safe =
        let one =
          eq→== (length (only_service s.option.sid t).pmts) 1
            (length-only_service s.option.sid t p d e) in
        let named : has_value (lookup s.option.sid (only_service s.option.sid t).pmts) ≡ true =
          rw (lookup-only_service s.option.sid s.option.sid t, ==_refl s.option.sid)
            (ap has_value e) in
        rw (one, named)
          (
            record {
              content = v.content;
              emm = v.emm;
              psi = λ q h. psi-ne-null p q safe h;
              pmt_safe = inr safe;
              demuxed = (tt, removed_pmt s.pmt_pid s.demux v.pmt_safe v.demuxed);
            },
            refl,
            refl,
          )

    handle_pat_cases :
        (P : ServiceFilter S Z → Type 0) (s : ServiceFilter S Z) (t : Pat)
        → P s
        → P (record s { done = true; error = true })
        → ((p : ℕ)
            → lookup s.option.sid t.pmts ≡ some p
            → is_safe_dynamic_pid p ≡ true
            → Returns P (accept_pat packetizer s t p))
        → Returns P (handle_pat packetizer s t)
    unfolding handle_pat
    handle_pat_cases P s t same missing accepted = elim (Bool-cases (t.source_pid == pid_pat)) [
      | inr elsewhere ↦ rw elsewhere same
      | inl e ↦ rw e (elim (Bool-cases t.is_valid) [
        | inr broken ↦ rw broken same
        | inl valid ↦ rw valid (elim (Bool-cases (t.ts_id == 0)) [
          | inl zero_id ↦ rw zero_id same
          | inr id ↦ rw id (elim (Option-cases (lookup s.option.sid t.pmts)) [
            | inl absent ↦ rw absent missing
            | inr (p, found) ↦ rw found (elim (Bool-cases (is_safe_dynamic_pid p)) [
              | inl safe ↦ rw safe (accepted p found safe)
              | inr unsafe ↦ rw unsafe same
            ])
          ])
        ])
      ])
    ]

    handle_pat-IsSafe :
        (s : ServiceFilter S Z) (t : Pat)
        → IsSafe s
        → Distinct t.pmts
        → Returns (Keeps s) (handle_pat packetizer s t)
    handle_pat-IsSafe s t v d =
        handle_pat_cases (Keeps s) s t (v, refl, refl) (finish-IsSafe s true v, refl, refl)
          (λ p found safe. accept_pat-IsSafe s t p v d found safe)

    handle_table-IsSafe :
        (s : ServiceFilter S Z) (t : Table) (ts : List Table)
        → IsSafe s
        → Decoded (t ∷ ts)
        → Returns (Keeps s) (handle_table packetizer s t) × Decoded ts
    unfolding handle_table
    handle_table-IsSafe s (pat t) ts v d = (handle_pat-IsSafe s t v d.0, d.1)
    handle_table-IsSafe s (cat t) ts v d =
        ((handle_cat-IsSafe s t v, (handle_cat-same s t).0, (handle_cat-same s t).1), d)
    handle_table-IsSafe s (pmt t) ts v d =
        ((handle_pmt-IsSafe s t v, (handle_pmt-same s t).0, (handle_pmt-same s t).1), d)
    handle_table-IsSafe s (tot t) ts v d =
        ((handle_tot-IsSafe s t v, (handle_tot-same s t).0, (handle_tot-same s t).1), d)
    handle_table-IsSafe s (nit_act t) ts v d = ((v, refl, refl), d)
    handle_table-IsSafe s (sdt_act t) ts v d = ((v, refl, refl), d)
    handle_table-IsSafe s (eit_pf_act t) ts v d = ((v, refl, refl), d)
    handle_table-IsSafe s other ts v d = ((v, refl, refl), d)

    pub feed_packet-IsSafe :
        (s : ServiceFilter S Z) (ts : List Table)
        → IsSafe s
        → Decoded ts
        → Returns (Keeps s) (feed_packet packetizer s ts)
    unfolding feed_packet
    feed_packet-IsSafe s [] v d = (v, refl, refl)
    feed_packet-IsSafe s (t ∷ ts) v d =
        let (handled, d') = handle_table-IsSafe s t ts v d in
        Returns-bind (Keeps s) (Keeps s) _ _ handled λ s' k.
          Returns-map (Keeps s') (Keeps s) _ (feed_packet-IsSafe s' ts k.0 d')
            λ s'' k'. (k'.0, k'.1 ∙ k.1, k'.2 ∙ k.2)
