-- ===== src/ServiceScanner/Scan.antt =====
-- What `ServiceScanner` of src/service_scanner.hh writes, and when it stops.
use mirakc_arib.Prelude.{
  All, both, contains, some, length, ◌==◌, arith, ℕ, ◌≡◌, refl, sym, ap, ◌∙◌, ◌⊎◌, ◌↔◌, Bool, true,
  false, not, ◌&&◌, List, [], ◌∷◌, ◌++◌, Option, lookup, if◌then◌else◌, maybe, Bool-cases,
  Option-cases, inl, inr,
}
use mirakc_arib.Sink.{exit_success, exit_failure}
use mirakc_arib.PcrSynchronizer.{is_audio_video_service}
use mirakc_arib.SidSet.{is_empty, contain}
use mirakc_arib.Tables.{Pat}
use mirakc_arib.ServiceScanner.{
  ServiceEntry, is_allowed, ServiceScannerOption, ServiceTable, NetworkTable, ServiceInfo,
  ServiceScanner, ScanTable, completed, service_info, collect_loop, collect_services, end_,
  get_exit_code, feed_packet, handle_packet,
}

-- The PAT names the service.
abbrev pub HasEntry : ℕ → List (ℕ × ℕ) → Type 0
HasEntry sid [] = ⊥
HasEntry sid ((sid', pid) ∷ pmts) = (sid' ≡ sid) ⊎ HasEntry sid pmts

-- The types of audio and video services of ARIB STD-B10.
abbrev pub audio_video_types : List ℕ
audio_video_types = 0x01 ∷ 0x02 ∷ 0xA1 ∷ 0xA2 ∷ 0xA5 ∷ 0xA6 ∷ 0xAD ∷ []

lists_allow :
    (xs ys : List ℕ) (sid : ℕ)
    → ((if not (length xs == 0) && not (contains sid xs)
          then false
          else if not (length ys == 0) && contains sid ys
          then false
          else true)
        ≡ true)
      ↔ (((xs ≡ []) ⊎ (contains sid xs ≡ true)) × (contains sid ys ≡ false))
lists_allow [] [] sid = (λ h. (inl refl, refl), λ h. refl)
lists_allow [] (y ∷ ys) sid = (λ h. (inl refl, ground arith), λ h. ground arith)
lists_allow (x ∷ xs) [] sid = (
  λ h. (inr (ground arith), refl),
  λ h. elim h.0 [ inl e ↦ absurd cc | inr listed ↦ ground arith ],
)
lists_allow (x ∷ xs) (y ∷ ys) sid = (
  λ h. (inr (ground arith), ground arith),
  λ h. elim h.0 [ inl e ↦ absurd cc | inr listed ↦ ground arith ],
)

is_allowed_iff :
    (option : ServiceScannerOption) (sid : ℕ)
    → (is_allowed option sid ≡ true) ↔ (
        ((option.sids.set ≡ []) ⊎ (contains sid option.sids.set ≡ true))
        × (contains sid option.xsids.set ≡ false))
unfolding is_allowed is_empty contain
is_allowed_iff option sid = lists_allow option.sids.set option.xsids.set sid

module _ {Text : Type 0} where
  -- An entry of the list has the service.
  abbrev pub HasService : ℕ → List (ServiceInfo Text) → Type 0
  HasService sid [] = ⊥
  HasService sid (info ∷ infos) = (info.sid ≡ sid) ⊎ HasService sid infos

  -- The SDT names the service as one that is wanted.
  abbrev is_wanted : ServiceScannerOption → ServiceTable Text → ℕ → Bool
  is_wanted option sdt sid =
      is_allowed option sid
      && maybe (lookup sid sdt.services) false
          (λ service. is_audio_video_service service.service_type)

  collect_step :
      (option : ServiceScannerOption) (nit : Option NetworkTable) (sdt : ServiceTable Text)
      (sid pid : ℕ) (pmts : List (ℕ × ℕ))
      → let rest = collect_loop option nit sdt pmts in
        let found = collect_loop option nit sdt ((sid, pid) ∷ pmts) in
        ((is_wanted option sdt sid ≡ false) × (found ≡ rest))
        ⊎ ((is_wanted option sdt sid ≡ true)
            × ((info : ServiceInfo Text) × ((info.sid ≡ sid) × (found ≡ info ∷ rest))))
  unfolding collect_loop service_info
  collect_step option nit sdt sid pid pmts = elim (Bool-cases (is_allowed option sid)) [
    | inr ignored ↦ simp ignored (inl (refl, refl))
    | inl allowed ↦ elim (Option-cases (lookup sid sdt.services)) [
      | inl none_ ↦ simp (allowed, none_) (inl (refl, refl))
      | inr (service, some_) ↦ elim (Bool-cases (is_audio_video_service service.service_type)) [
        | inr data_ ↦ simp (allowed, some_, data_) (inl (refl, refl))
        | inl av ↦
            simp (allowed, some_, av) (inr (refl, (service_info nit sdt sid service, (refl, refl))))
      ]
    ]
  ]

  collect_loop-HasService :
      (option : ServiceScannerOption) (nit : Option NetworkTable) (sdt : ServiceTable Text)
      (pmts : List (ℕ × ℕ)) (sid : ℕ)
      → HasService sid (collect_loop option nit sdt pmts)
        ↔ (HasEntry sid pmts × (is_wanted option sdt sid ≡ true))
  unfolding collect_loop
  collect_loop-HasService option nit sdt [] sid = (λ h. absurd h, λ h. absurd h.0)
  collect_loop-HasService option nit sdt ((sid', pid) ∷ pmts) sid =
      let ih = collect_loop-HasService option nit sdt pmts sid in
      elim (collect_step option nit sdt sid' pid pmts) [
        | inl (unwanted, e) ↦ rw e (
          λ h. (inr (ih.0 h).0, (ih.0 h).1),
          λ (h, wanted). elim h [
            | inl here_ ↦
                absurd (let no_ = sym (ap (is_wanted option sdt) here_ ∙ wanted) ∙ unwanted in cc)
            | inr there_ ↦ ih.1 (there_, wanted)
          ],
        )
        | inr (wanted, (info, (same_, e))) ↦ rw e (
          λ h. elim h [
            | inl here_ ↦
                (inl (sym same_ ∙ here_), ap (is_wanted option sdt) (sym here_ ∙ same_) ∙ wanted)
            | inr there_ ↦ (inr (ih.0 there_).0, (ih.0 there_).1)
          ],
          λ (h, wanted'). elim h [
            | inl here_ ↦ inl (same_ ∙ here_)
            | inr there_ ↦ inr (ih.1 (there_, wanted'))
          ],
        )
      ]

  -- The service is one of the lists' and, in the SDT, an audio and video service.
  abbrev pub IsWanted : ServiceScannerOption → ServiceTable Text → ℕ → Type 0
  IsWanted option sdt sid =
      ((option.sids.set ≡ []) ⊎ (contains sid option.sids.set ≡ true))
      × (contains sid option.xsids.set ≡ false)
      × ((service : ServiceEntry Text) × (lookup sid sdt.services ≡ some service)
          × (contains service.service_type audio_video_types ≡ true))

  -- The entry has the identifiers of the SDT, and the name and the type that the SDT gives its service.
  abbrev pub IsOf : ServiceTable Text → ServiceInfo Text → Type 0
  IsOf sdt info =
      (info.nid ≡ sdt.onetw_id)
      × (info.tsid ≡ sdt.ts_id)
      × ((service : ServiceEntry Text) × (lookup info.sid sdt.services ≡ some service)
          × (info.name ≡ service.service_name)
          × (info.type_ ≡ service.service_type))

  is_wanted-IsWanted :
      (option : ServiceScannerOption) (sdt : ServiceTable Text) (sid : ℕ)
      → (is_wanted option sdt sid ≡ true) ↔ IsWanted option sdt sid
  unfolding is_audio_video_service
  is_wanted-IsWanted option sdt sid =
      let listed = is_allowed_iff option sid in
      elim (Option-cases (lookup sid sdt.services)) [
        | inl none_ ↦
            rw none_ (λ h. absurd (ground arith), λ (l, x, (service, e, type_)). absurd cc)
        | inr (service, some_) ↦ rw some_ (
          λ h.
              let allowed : is_allowed option sid ≡ true = ground arith in
              ((listed.0 allowed).0, (listed.0 allowed).1, (service, refl, ground arith)),
          λ (l, x, (service', e, type_)).
              let allowed = listed.1 (l, x) in
              let same : some service ≡ some service' = e in
              let typed : contains service.service_type audio_video_types ≡ true =
                ap (λ o. maybe o false (λ v. contains v.service_type audio_video_types)) same
                ∙ type_ in
              rw allowed typed,
        )
      ]

  collect_loop-IsOf :
      (option : ServiceScannerOption) (nit : Option NetworkTable) (sdt : ServiceTable Text)
      (pmts : List (ℕ × ℕ))
      → All (IsOf sdt) (collect_loop option nit sdt pmts)
  unfolding collect_loop service_info
  collect_loop-IsOf option nit sdt [] = tt
  collect_loop-IsOf option nit sdt ((sid, pid) ∷ pmts) =
      let ih = collect_loop-IsOf option nit sdt pmts in
      both (All (IsOf sdt)) (not (is_allowed option sid)) _ _ ih
        (elim (Option-cases (lookup sid sdt.services)) [
          | inl none_ ↦ rw none_ ih
          | inr (service, some_) ↦ rw some_ (
              both (All (IsOf sdt)) (not (is_audio_video_service service.service_type)) _ _ ih
                ((refl, refl, (service, some_, refl, refl)), ih))
        ])

  -- Once the PAT, the SDT and the NIT are there, the end writes one more document. It has an entry of
  -- a service exactly if the PAT names the service, the inclusion list is empty or has it, the
  -- exclusion list does not have it, and the SDT gives it one of the seven types of audio and video
  -- services; and each entry has the identifiers, the name and the type of the SDT.
  pub end_-HasService :
      (s : ServiceScanner Text) (pat : Pat) (sdt : ServiceTable Text) (nit : NetworkTable)
      → s.pat ≡ some pat
      → s.sdt ≡ some sdt
      → s.nit ≡ some nit
      → (infos : List (ServiceInfo Text)) × ((end_ s).documents ≡ s.documents ++ infos ∷ [])
        × ((sid : ℕ) → HasService sid infos ↔ (HasEntry sid pat.pmts × IsWanted s.option sdt sid))
        × All (IsOf sdt) infos
  unfolding end_ completed collect_services
  end_-HasService s pat sdt nit has_pat has_sdt has_nit =
      let infos = collect_loop s.option s.nit sdt pat.pmts in
      let found = collect_loop-HasService s.option s.nit sdt pat.pmts in
      let wanted = is_wanted-IsWanted s.option sdt in
      (
        infos,
        simp (has_pat, has_sdt, has_nit) refl,
        λ sid. (
          λ h. (((found sid).0 h).0, (wanted sid).0 ((found sid).0 h).1),
          λ h. (found sid).1 (h.0, (wanted sid).1 h.1),
        ),
        collect_loop-IsOf s.option s.nit sdt pat.pmts,
      )

  -- The scanner stops exactly when the PAT, the SDT and the NIT are there. Then, and not before, its
  -- exit code is success and its end writes one more document.
  pub handle_packet-completed :
      (s : ServiceScanner Text) (tables : List (ScanTable Text))
      → let step = handle_packet s tables in
        (step.0 ≡ feed_packet s tables)
        × (step.1 ≡ not (completed step.0))
        × (get_exit_code step.0 ≡ (if step.1 then exit_failure else exit_success))
        × ((end_ step.0).documents ≡ (
            if step.1 then step.0.documents else step.0.documents ++ collect_services step.0 ∷ []))
  unfolding handle_packet get_exit_code end_
  handle_packet-completed s tables = elim (Bool-cases (completed (feed_packet s tables))) [
    | inl ready ↦ simp (ready, ready) (refl, refl, refl, refl)
    | inr waits ↦ simp (waits, waits) (refl, refl, refl, refl)
  ]
