-- ===== src/Service/Ready.antt =====
-- The PAT that `ServiceFilter`, in src/service_filter.hh, has its packetizer hold.
use mirakc_arib.Prelude.{
  ℕ, ◌≡◌, ◌∙◌, true, not, List, [], ◌∷◌, some, contains, length, lookup, ◌==◌, ==_iff, ==_refl,
  has_value, both, Ensures, Ensures-bind, Ensures-asserted, Option-cases, inl, inr,
}
use mirakc_arib.Tables.{
  Pat, Table, pat, cat, pmt, tot, nit_act, sdt_act, eit_pf_act, other, Packetizer, pid_pat,
}
use mirakc_arib.Service.{
  ServiceFilter, is_safe_dynamic_pid, only_service, handle_cat, handle_pmt, accept_pat, handle_pat,
  handle_table, feed_packet,
}
use mirakc_arib.Service.Sets.{handle_tot_cases}
use mirakc_arib.Service.Filters.{lookup-only_service}

-- What the filter relies on of its packetizer, which is made with `PID_PAT`; `held` is the tables that
-- it holds. Only a packetizer that holds a table is known to make packets of the PAT: an empty one
-- makes null packets.
pub record PatLaw {Z : Type 0} (packetizer : Packetizer Z Pat) (held : Z → List Pat) : Type 0 where
  pub removed : (z : Z) → held (packetizer.remove_all z) ≡ []
  pub added : (t : Pat) (z : Z) → held z ≡ [] → held (packetizer.add_table t z) ≡ t ∷ []
  pub kept : (z : Z) → held (packetizer.next_packet z).0 ≡ held z
  pub next_pid : (z : Z) (t : Pat) → held z ≡ t ∷ [] → (packetizer.next_packet z).1.pid ≡ pid_pat

module _ {S Z : Type 0} (packetizer : Packetizer Z Pat) (held : Z → List Pat) where
  -- The packetizer holds one PAT, which names the service alone, with the PID of its PMT.
  abbrev pub HoldsPat : ServiceFilter S Z → Type 0
  HoldsPat s =
      (t : Pat) × (held s.pat_packetizer ≡ t ∷ [])
      × (length t.pmts ≡ 1)
      × (lookup s.option.sid t.pmts ≡ some s.pmt_pid)

  -- The PAT is let through only while there is one to put in its place.
  abbrev pub IsReady : ServiceFilter S Z → Type 0
  IsReady s = contains pid_pat s.psi_filter ≡ true → HoldsPat s

  module _ (law : PatLaw packetizer held) where
    accept_pat-IsReady :
        (s : ServiceFilter S Z) (t : Pat) (p : ℕ)
        → lookup s.option.sid t.pmts ≡ some p
        → Ensures IsReady (accept_pat packetizer s t p)
    unfolding accept_pat
    accept_pat-IsReady s t p named =
        let only = only_service s.option.sid t in
        let kept : lookup s.option.sid only.pmts ≡ some p =
          lookup-only_service s.option.sid s.option.sid t ∙ rw (==_refl s.option.sid) named in
        Ensures-asserted IsReady (length only.pmts == 1) _ λ one.
          Ensures-asserted IsReady (has_value (lookup s.option.sid only.pmts)) _ λ _. λ _. (
            only,
            law.added only (packetizer.remove_all s.pat_packetizer) (law.removed s.pat_packetizer),
            (==_iff (length only.pmts) 1).0 one,
            kept,
          )

    handle_pat-IsReady :
        (s : ServiceFilter S Z) (t : Pat) → IsReady s → Ensures IsReady (handle_pat packetizer s t)
    unfolding handle_pat
    handle_pat-IsReady s t ready =
        both (Ensures IsReady) (not (t.source_pid == pid_pat)) _ _ ready (
          both (Ensures IsReady) (not t.is_valid) _ _ ready (
            both (Ensures IsReady) (t.ts_id == 0) _ _ ready
              (elim (Option-cases (lookup s.option.sid t.pmts)) [
                | inl absent ↦ rw absent ready
                | inr (p, named) ↦ rw named (
                    both (Ensures IsReady) (is_safe_dynamic_pid p) _ _
                      (accept_pat-IsReady s t p named) ready)
              ])))

    handle_table-IsReady :
        (s : ServiceFilter S Z) (t : Table)
        → IsReady s
        → Ensures IsReady (handle_table packetizer s t)
    unfolding handle_table handle_cat handle_pmt
    handle_table-IsReady s (pat t) ready = handle_pat-IsReady s t ready
    handle_table-IsReady s (cat t) ready = both IsReady t.is_valid _ s ready ready
    handle_table-IsReady s (pmt t) ready =
        both IsReady t.is_valid _ s (both IsReady (t.service_id == s.option.sid) _ s ready ready)
          ready
    handle_table-IsReady s (tot t) ready = handle_tot_cases IsReady s t ready ready
    handle_table-IsReady s (nit_act t) ready = ready
    handle_table-IsReady s (sdt_act t) ready = ready
    handle_table-IsReady s (eit_pf_act t) ready = ready
    handle_table-IsReady s other ready = ready

    pub feed_packet-IsReady :
        (s : ServiceFilter S Z) (ts : List Table)
        → IsReady s
        → Ensures IsReady (feed_packet packetizer s ts)
    unfolding feed_packet
    feed_packet-IsReady s [] ready = ready
    feed_packet-IsReady s (t ∷ ts) ready =
        Ensures-bind IsReady IsReady _ _ (handle_table-IsReady s t ready)
          λ s' ready'. feed_packet-IsReady s' ts ready'
