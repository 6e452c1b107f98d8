-- ===== src/PcrSynchronizer/Fields.antt =====
-- What holds of the fields of `PcrSynchronizer` of src/pcr_synchronizer.hh after any tables.
use mirakc_arib.Prelude.{
  ℕ, ◌≡◌, ◌≢◌, refl, sym, ap, ◌∙◌, inl, inr, true, not, some, List, [], ◌∷◌, contains, insert,
  contains-insert, length, lookup, keys, put_sorted, lookup-put_sorted, put_sorted-IsSorted,
  IsSorted, keys_contain, IsWithin, ◌==◌, ==_iff, ==_refl, ne→==, if◌then◌else◌, has_value,
  Bool-cases, Option-cases, both, arith,
}
use mirakc_arib.Tables.{
  Pat, Pmt, Table, pat, cat, pmt, nit_act, sdt_act, eit_pf_act, tot, other, pid_null,
}
use mirakc_arib.PcrSynchronizer.{
  PcrSynchronizer, take_services, reset_states, take_pat, handle_pat, is_audio_video_service,
  demux_pmt, demux_pmts, handle_sdt, take_pmt, handle_pmt, handle_tot, handle_table, feed_packet,
  is_nil,
}

-- The services are those of the PAT, their clocks are wanted, and PCRs are kept of wanted clocks.
pub record Fields (pmt_pids pcr_pid_map : List (ℕ × ℕ)) (pcr_pids : List ℕ) (pcr_map : List (ℕ × ℕ))
    : Type 0 where
  pub services_sorted : IsSorted pcr_pid_map
  pub services_within : IsWithin (keys pcr_pid_map) (keys pmt_pids)
  pub clocks_wanted :
      (sid pid : ℕ)
      → lookup sid pcr_pid_map ≡ some pid
      → pid ≢ pid_null
      → contains pid pcr_pids ≡ true
  pub pcrs_sorted : IsSorted pcr_map
  pub pcrs_within : IsWithin (keys pcr_map) pcr_pids

abbrev pub IsValid : PcrSynchronizer → Type 0
IsValid s = Fields s.pmt_pids s.pcr_pid_map s.pcr_pids s.pcr_map

cleared : (pmt_pids : List (ℕ × ℕ)) → Fields pmt_pids [] [] []
unfolding lookup
cleared pmt_pids = record {
  services_sorted = tt;
  services_within = λ k h. absurd cc;
  clocks_wanted = λ sid pid h ne. absurd cc;
  pcrs_sorted = tt;
  pcrs_within = λ k h. h;
}

-- A PAT whose services come to an empty list.
renamed :
    (pmt_pids pmt_pids' pcr_pid_map : List (ℕ × ℕ)) (pcr_pids : List ℕ) (pcr_map : List (ℕ × ℕ))
    → is_nil pmt_pids ≡ true
    → Fields pmt_pids pcr_pid_map pcr_pids pcr_map
    → Fields pmt_pids' pcr_pid_map pcr_pids pcr_map
renamed [] pmt_pids' pcr_pid_map pcr_pids pcr_map e h = record {
  services_sorted = h.services_sorted;
  services_within = λ k h'. absurd (let out = h.services_within k h' in cc);
  clocks_wanted = h.clocks_wanted;
  pcrs_sorted = h.pcrs_sorted;
  pcrs_within = h.pcrs_within;
}
renamed (entry ∷ pmt_pids) pmt_pids' pcr_pid_map pcr_pids pcr_map e h = absurd cc

take_pat-IsValid : (s : PcrSynchronizer) (t : Pat) → IsValid s → IsValid (take_pat s t)
unfolding take_pat reset_states
take_pat-IsValid s t h = elim (Bool-cases (is_nil s.pmt_pids)) [
  | inl empty_ ↦ rw empty_ (
      renamed s.pmt_pids (take_services s.option t.pmts s.pmt_pids) s.pcr_pid_map s.pcr_pids
        s.pcr_map empty_ h)
  | inr some_ ↦ rw some_ (cleared (take_services s.option t.pmts []))
]

handle_pat-IsValid : (s : PcrSynchronizer) (t : Pat) → IsValid s → IsValid (handle_pat s t)
unfolding handle_pat
handle_pat-IsValid s t h = both IsValid (not (t.source_pid == 0)) _ _ h (
    both IsValid (not t.is_valid) _ _ h
      (both IsValid (t.ts_id == 0) _ _ h (take_pat-IsValid s t h)))

-- The SDT changes the count, the identifiers and the demux alone.
demux_pmt-IsValid :
    (services : List (ℕ × ℕ)) (sid pid : ℕ) (s : PcrSynchronizer)
    → IsValid s
    → IsValid (demux_pmt services sid pid s)
unfolding demux_pmt
demux_pmt-IsValid services sid pid s h = elim (Option-cases (lookup sid services)) [
  | inl none_ ↦ simp none_ h
  | inr (service_type, some_) ↦
      simp some_ (both IsValid (not (is_audio_video_service service_type)) s _ h h)
]

pub demux_pmts-IsValid :
    (services pmt_pids : List (ℕ × ℕ)) (s : PcrSynchronizer)
    → IsValid s
    → IsValid (demux_pmts services pmt_pids s)
unfolding demux_pmts
demux_pmts-IsValid services [] s h = h
demux_pmts-IsValid services ((sid, pid) ∷ pmt_pids) s h =
    demux_pmts-IsValid services pmt_pids (demux_pmt services sid pid s)
      (demux_pmt-IsValid services sid pid s h)

-- The PCR PIDs with the one of a PMT.
abbrev with_clock : ℕ → List ℕ → List ℕ
with_clock pid pcr_pids = if not (pid == pid_null) then insert pid pcr_pids else pcr_pids

with_clock-old :
    (pid k : ℕ) (pcr_pids : List ℕ)
    → contains k pcr_pids ≡ true
    → contains k (with_clock pid pcr_pids) ≡ true
with_clock-old pid k pcr_pids h = ground (arith, contains-insert k pid pcr_pids)

with_clock-new :
    (pid : ℕ) (pcr_pids : List ℕ) → pid ≢ pid_null → contains pid (with_clock pid pcr_pids) ≡ true
with_clock-new pid pcr_pids ne =
    rw (ne→== pid pid_null ne) (contains-insert pid pid pcr_pids ∙ rw (==_refl pid) refl)

pub with_service :
    (sid pid : ℕ) (pmt_pids pcr_pid_map : List (ℕ × ℕ)) (pcr_pids : List ℕ) (pcr_map : List (ℕ × ℕ))
    → contains sid (keys pmt_pids) ≡ true
    → Fields pmt_pids pcr_pid_map pcr_pids pcr_map
    → Fields pmt_pids (put_sorted sid pid pcr_pid_map) (with_clock pid pcr_pids) pcr_map
with_service sid pid pmt_pids pcr_pid_map pcr_pids pcr_map known h = record {
  services_sorted = put_sorted-IsSorted sid pid pcr_pid_map h.services_sorted;
  services_within = λ k h'.
      let found = sym (keys_contain k (put_sorted sid pid pcr_pid_map)) ∙ h' in
      elim (Bool-cases (sid == k)) [
        | inl same_ ↦ let e : sid ≡ k = (==_iff sid k).0 same_ in rw (← e) known
        | inr else_ ↦ h.services_within k (
            keys_contain k pcr_pid_map
            ∙ (rw (lookup-put_sorted sid k pid pcr_pid_map, else_) at found))
      ];
  clocks_wanted = λ k p h' ne. elim (Bool-cases (sid == k)) [
    | inl same_ ↦
        let found : some pid ≡ some p = rw (lookup-put_sorted sid k pid pcr_pid_map, same_) at h' in
        let e : pid ≡ p = cc in rw (← e) (with_clock-new pid pcr_pids (rw e ne))
    | inr else_ ↦
        with_clock-old pid p pcr_pids
          (h.clocks_wanted k p (rw (lookup-put_sorted sid k pid pcr_pid_map, else_) at h') ne)
  ];
  pcrs_sorted = h.pcrs_sorted;
  pcrs_within = λ k h'. with_clock-old pid k pcr_pids (h.pcrs_within k h');
}

take_pmt-IsValid :
    (s : PcrSynchronizer) (t : Pmt)
    → contains t.service_id (keys s.pmt_pids) ≡ true
    → IsValid s
    → IsValid (take_pmt s t)
unfolding take_pmt
take_pmt-IsValid s t known h =
    let h' =
      with_service t.service_id t.pcr_pid s.pmt_pids s.pcr_pid_map s.pcr_pids s.pcr_map known h in
    both IsValid (length (put_sorted t.service_id t.pcr_pid s.pcr_pid_map) == s.pmt_count) _ _ h' h'

handle_pmt-IsValid : (s : PcrSynchronizer) (t : Pmt) → IsValid s → IsValid (handle_pmt s t)
unfolding handle_pmt
handle_pmt-IsValid s t h =
    both IsValid (not t.is_valid) _ _ h (elim (Option-cases (lookup t.service_id s.pmt_pids)) [
      | inl none_ ↦ rw none_ h
      | inr (pid, some_) ↦ rw some_ (
          both IsValid (not (pid == t.source_pid)) _ _ h
            (take_pmt-IsValid s t (keys_contain t.service_id s.pmt_pids ∙ ap has_value some_) h))
    ])

handle_table-IsValid : (s : PcrSynchronizer) (t : Table) → IsValid s → IsValid (handle_table s t)
unfolding handle_table handle_tot handle_sdt
handle_table-IsValid s (pat t) h = handle_pat-IsValid s t h
handle_table-IsValid s (pmt t) h = handle_pmt-IsValid s t h
handle_table-IsValid s (sdt_act t) h =
    both IsValid (not t.is_valid) _ _ h (demux_pmts-IsValid t.services s.pmt_pids _ h)
handle_table-IsValid s (tot t) h = both IsValid (not t.is_valid) _ _ h h
handle_table-IsValid s (cat t) h = h
handle_table-IsValid s (nit_act t) h = h
handle_table-IsValid s (eit_pf_act t) h = h
handle_table-IsValid s other h = h

pub feed_packet-IsValid :
    (s : PcrSynchronizer) (ts : List Table) → IsValid s → IsValid (feed_packet s ts)
unfolding feed_packet
feed_packet-IsValid s [] h = h
feed_packet-IsValid s (t ∷ ts) h =
    feed_packet-IsValid (handle_table s t) ts (handle_table-IsValid s t h)
