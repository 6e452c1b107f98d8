-- ===== src/PcrSynchronizer/Counts.antt =====
-- The count of PMTs that `PcrSynchronizer` of src/pcr_synchronizer.hh waits for before the TOT.
use mirakc_arib.Prelude.{
  ℕ, ◌+◌, ◌<◌, ◌≡◌, refl, ap, ◌∙◌, inl, inr, true, false, not, List, [], ◌∷◌, map, contains, length,
  lookup, keys, put_sorted, keys_contain, keys-IsDistinct, length-keys, length_within, has_value,
  ◌==◌, if◌then◌else◌, maybe, Bool-cases, Option-cases, both, arith,
}
use mirakc_arib.Tables.{Pmt, Sdt, pmt}
use mirakc_arib.PcrSynchronizer.{
  PcrSynchronizer, is_audio_video_service, demux_pmt, demux_pmts, handle_sdt, take_pmt, handle_pmt,
  handle_table, feed_packet,
}
use mirakc_arib.PcrSynchronizer.Fields.{IsValid, with_service, demux_pmts-IsValid}

-- The services of the PAT that the SDT names as audio and video services.
abbrev pub count_services : List (ℕ × ℕ) → List (ℕ × ℕ) → ℕ
count_services services [] = 0
count_services services ((sid, pid) ∷ pmt_pids) =
    (maybe (lookup sid services) 0
      (λ service_type. if is_audio_video_service service_type then 1 else 0))
    + count_services services pmt_pids

demux_pmt-count :
    (services : List (ℕ × ℕ)) (sid pid : ℕ) (s : PcrSynchronizer)
    → let s' = demux_pmt services sid pid s in
      (s'.pmt_count ≡ s.pmt_count + count_services services ((sid, pid) ∷ []))
      × (s'.pmt_pids ≡ s.pmt_pids)
unfolding demux_pmt
demux_pmt-count services sid pid s = elim (Option-cases (lookup sid services)) [
  | inl none_ ↦ simp none_ (omega arith, refl)
  | inr (service_type, some_) ↦ elim (Bool-cases (is_audio_video_service service_type)) [
    | inl av ↦ simp (some_, av) (omega arith, refl)
    | inr else_ ↦ simp (some_, else_) (omega arith, refl)
  ]
]

demux_pmts-count :
    (services pmt_pids : List (ℕ × ℕ)) (s : PcrSynchronizer)
    → let s' = demux_pmts services pmt_pids s in
      (s'.pmt_count ≡ s.pmt_count + count_services services pmt_pids) × (s'.pmt_pids ≡ s.pmt_pids)
unfolding demux_pmts
demux_pmts-count services [] s = (omega arith, refl)
demux_pmts-count services ((sid, pid) ∷ pmt_pids) s =
    let first = demux_pmt-count services sid pid s in
    let rest = demux_pmts-count services pmt_pids (demux_pmt services sid pid s) in
    (omega (arith, first.0, rest.0), rest.1 ∙ first.1)

-- A valid SDT adds to the count the number of services of the PAT that it names as audio and video
-- services, whatever the count is already, and leaves the PMTs' PIDs.
handle_sdt-count :
    (s : PcrSynchronizer) (t : Sdt)
    → t.is_valid ≡ true
    → let s' = handle_sdt s t in
      (s'.pmt_count ≡ s.pmt_count + count_services t.services s.pmt_pids)
      × (s'.pmt_pids ≡ s.pmt_pids)
unfolding handle_sdt
handle_sdt-count s t valid =
    simp valid
      (demux_pmts-count t.services s.pmt_pids (record s { nid = t.onetw_id; tsid = t.ts_id }))

handle_sdt-IsValid : (s : PcrSynchronizer) (t : Sdt) → IsValid s → IsValid (handle_sdt s t)
unfolding handle_sdt
handle_sdt-IsValid s t h =
    let s' : PcrSynchronizer = record s { nid = t.onetw_id; tsid = t.ts_id } in
    both IsValid (not t.is_valid) s (demux_pmts t.services s.pmt_pids s') h
      (demux_pmts-IsValid t.services s.pmt_pids s' h)

-- More PMTs are waited for than the PAT has services.
abbrev pub Starves : PcrSynchronizer → Type 0
Starves s = IsValid s × (length s.pmt_pids < s.pmt_count)

-- A state with which the demux is as before, and that starves still.
abbrev Stuck : PcrSynchronizer → PcrSynchronizer → Type 0
Stuck s s' = (s'.demux ≡ s.demux) × Starves s'

take_pmt-Stuck :
    (s : PcrSynchronizer) (t : Pmt)
    → contains t.service_id (keys s.pmt_pids) ≡ true
    → Starves s
    → Stuck s (take_pmt s t)
unfolding take_pmt
take_pmt-Stuck s t known (h, lt) =
    let h' =
      with_service t.service_id t.pcr_pid s.pmt_pids s.pcr_pid_map s.pcr_pids s.pcr_map known h in
    let services = put_sorted t.service_id t.pcr_pid s.pcr_pid_map in
    let few =
      length_within (keys services) (keys s.pmt_pids) (keys-IsDistinct services h'.services_sorted)
        h'.services_within in
    let ne : (length services == s.pmt_count) ≡ false =
      ground (arith, length-keys services, length-keys s.pmt_pids) in
    simp ne (refl, (h', lt))

handle_pmt-Stuck : (s : PcrSynchronizer) (t : Pmt) → Starves s → Stuck s (handle_pmt s t)
unfolding handle_pmt
handle_pmt-Stuck s t h =
    both (Stuck s) (not t.is_valid) _ _ (refl, h)
      (elim (Option-cases (lookup t.service_id s.pmt_pids)) [
        | inl none_ ↦ simp none_ (refl, h)
        | inr (pid, some_) ↦ simp some_ (
            both (Stuck s) (not (pid == t.source_pid)) _ _ (refl, h)
              (take_pmt-Stuck s t (keys_contain t.service_id s.pmt_pids ∙ ap has_value some_) h))
      ])

feed_packet-Stuck :
    (s : PcrSynchronizer) (ts : List Pmt) → Starves s → Stuck s (feed_packet s (map pmt ts))
unfolding feed_packet handle_table
feed_packet-Stuck s [] h = (refl, h)
feed_packet-Stuck s (t ∷ ts) h =
    let first = handle_pmt-Stuck s t h in
    let rest = feed_packet-Stuck (handle_pmt s t) ts first.1 in (rest.0 ∙ first.0, rest.1)

-- When an SDT that names all services of the PAT, at least one, as audio and video services is handed
-- on twice, then whatever PMTs follow ask the demux for nothing more: not for the TOT, which the
-- synchronizer needs to go on.
pub handle_sdt_again :
    (s : PcrSynchronizer) (t : Sdt) (ts : List Pmt)
    → IsValid s
    → t.is_valid ≡ true
    → count_services t.services s.pmt_pids ≡ length s.pmt_pids
    → 0 < length s.pmt_pids
    → let s' = handle_sdt (handle_sdt s t) t in (feed_packet s' (map pmt ts)).demux ≡ s'.demux
handle_sdt_again s t ts h valid all_ some_ =
    let s1 = handle_sdt s t in
    let first = handle_sdt-count s t valid in
    let second = handle_sdt-count s1 t valid in
    let again : count_services t.services s1.pmt_pids ≡ length s.pmt_pids =
      ap (count_services t.services) first.1 ∙ all_ in
    let same : length (handle_sdt s1 t).pmt_pids ≡ length s.pmt_pids =
      ap length (second.1 ∙ first.1) in
    (feed_packet-Stuck (handle_sdt s1 t) ts (
      handle_sdt-IsValid s1 t (handle_sdt-IsValid s t h),
      omega (arith, first.0, second.0, again, same),
    )).0
