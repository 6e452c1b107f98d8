-- ===== src/Service/Sets.antt =====
-- The filter sets of `ServiceFilter`, in src/service_filter.hh, after each table but the PAT.
use mirakc_arib.Prelude.{
  ℕ, ◌≡◌, refl, sym, ap, ◌∙◌, ◌≢◌, ◌⊎◌, inl, inr, Bool, true, false, List, [], ◌∷◌, none, some, All,
  contains, insert, contains-insert, select, length, lookup, ◌==◌, if◌then◌else◌, Bool-cases, arith,
}
use mirakc_arib.Tables.{Pat, Cat, Pmt, Tot, Table, pat, DemuxCall, add_pid, remove_pid, pid_null}
use mirakc_arib.Service.{
  ServiceFilter, psi_filter_pids, is_safe_dynamic_pid, insert_safe, stream_pids, insert_all,
  handle_cat, handle_pmt, handle_tot, only_service,
}
use mirakc_arib.Service.Filters.{insert_safe_lem}

-- A `std::map` has one entry for each key.
abbrev pub Distinct : List (ℕ × ℕ) → Type 0
Distinct [] = Unit
Distinct ((k, v) ∷ m) = (lookup k m ≡ none) × Distinct m

abbrev pub Decoded : List Table → Type 0
Decoded [] = Unit
Decoded (pat t ∷ ts) = Distinct t.pmts × Decoded ts
Decoded (t ∷ ts) = Decoded ts

-- Removes no PID of the PSI/SI tables from the demux.
abbrev LeavesPsi : DemuxCall → Type 0
LeavesPsi (add_pid p) = Unit
LeavesPsi (remove_pid p) = contains p psi_filter_pids ≡ false

abbrev AllSafe : List ℕ → Type 0
AllSafe filter = (p : ℕ) → contains p filter ≡ true → is_safe_dynamic_pid p ≡ true

pub record IsSafe {S Z : Type 0} (s : ServiceFilter S Z) : Type 0 where
  pub content : AllSafe s.content_filter
  pub emm : AllSafe s.emm_filter
  pub psi : (p : ℕ) → contains p s.psi_filter ≡ true → p ≢ pid_null
  pub pmt_safe : (s.pmt_pid ≡ pid_null) ⊎ (is_safe_dynamic_pid s.pmt_pid ≡ true)
  pub demuxed : All LeavesPsi s.demux

pub safe-ne-null : (p : ℕ) → is_safe_dynamic_pid p ≡ true → p ≢ pid_null
unfolding is_safe_dynamic_pid
safe-ne-null p h = ground arith

safe-not-psi : (p : ℕ) → is_safe_dynamic_pid p ≡ true → contains p psi_filter_pids ≡ false
unfolding is_safe_dynamic_pid
safe-not-psi p h = ground arith

select-none : (k : ℕ) (m : List (ℕ × ℕ)) → lookup k m ≡ none → select (λ e. e.0 == k) m ≡ []
unfolding lookup
select-none k [] h = refl
select-none k ((j, v) ∷ m) h = ground (arith, select-none k m)

select-one :
    (k : ℕ) (m : List (ℕ × ℕ)) (v : ℕ)
    → Distinct m
    → lookup k m ≡ some v
    → length (select (λ e. e.0 == k) m) ≡ 1
unfolding lookup
select-one k [] v d h = cc
select-one k ((j, w) ∷ m) v d h = elim (Bool-cases (j == k)) [
  | inl hit ↦
      let same : j ≡ k = ground arith in
      rw (hit, select-none k m (ap (λ i. lookup i m) (sym same) ∙ d.0)) refl
  | inr miss ↦ rw miss (select-one k m v d.1 (ground arith))
]

pub psi-ne-null :
    (p q : ℕ)
    → is_safe_dynamic_pid p ≡ true
    → contains q (insert p (insert_all psi_filter_pids [])) ≡ true
    → q ≢ pid_null
psi-ne-null p q safe h =
    ground (arith, contains-insert q p (insert_all psi_filter_pids []), safe-ne-null p safe)

pub removed_pmt :
    (p : ℕ) (calls : List DemuxCall)
    → (p ≡ pid_null) ⊎ (is_safe_dynamic_pid p ≡ true)
    → All LeavesPsi calls
    → All LeavesPsi (if p == pid_null then calls else remove_pid p ∷ calls)
removed_pmt p calls h a = elim (Bool-cases (p == pid_null)) [
  | inl unset ↦ rw unset a
  | inr is_set ↦
      rw is_set (elim h [ inl e ↦ absurd (ground arith) | inr safe ↦ safe-not-psi p safe ], a)
]

pub length-only_service :
    (sid : ℕ) (t : Pat) (p : ℕ)
    → Distinct t.pmts
    → lookup sid t.pmts ≡ some p
    → length (only_service sid t).pmts ≡ 1
unfolding only_service
length-only_service sid t p d e = select-one sid t.pmts p d e

module _ {S Z : Type 0} where
  pub handle_cat-IsSafe : (s : ServiceFilter S Z) (t : Cat) → IsSafe s → IsSafe (handle_cat s t)
  unfolding handle_cat
  handle_cat-IsSafe s t v = elim (Bool-cases t.is_valid) [
    | inr broken ↦ rw broken v
    | inl valid ↦ rw valid record {
      content = v.content;
      emm = λ p h. ground (arith, insert_safe_lem p t.ca_pids []);
      psi = v.psi;
      pmt_safe = v.pmt_safe;
      demuxed = v.demuxed;
    }
  ]

  pub handle_pmt-IsSafe : (s : ServiceFilter S Z) (t : Pmt) → IsSafe s → IsSafe (handle_pmt s t)
  unfolding handle_pmt
  handle_pmt-IsSafe s t v = elim (Bool-cases t.is_valid) [
    | inr broken ↦ rw broken v
    | inl valid ↦ rw valid (elim (Bool-cases (t.service_id == s.option.sid)) [
      | inr unmatched ↦ rw unmatched v
      | inl matched ↦ rw matched record {
        content = λ p h. ground (
          arith,
          insert_safe_lem p (stream_pids t.streams)
              (insert_safe t.ca_pids (insert_safe (t.pcr_pid ∷ []) [])),
          insert_safe_lem p t.ca_pids (insert_safe (t.pcr_pid ∷ []) []),
          insert_safe_lem p (t.pcr_pid ∷ []) [],
        );
        emm = v.emm;
        psi = v.psi;
        pmt_safe = v.pmt_safe;
        demuxed = v.demuxed;
      }
    ])
  ]

  -- The flags do not matter.
  pub finish-IsSafe :
      (s : ServiceFilter S Z) (error : Bool)
      → IsSafe s
      → IsSafe (record s { done = true; error = error })
  finish-IsSafe s error v = record {
    content = v.content;
    emm = v.emm;
    psi = v.psi;
    pmt_safe = v.pmt_safe;
    demuxed = v.demuxed;
  }

  pub handle_tot_cases :
      (P : ServiceFilter S Z → Type 0) (s : ServiceFilter S Z) (t : Tot)
      → P s
      → P (record s { done = true })
      → P (handle_tot s t)
  unfolding handle_tot
  handle_tot_cases P s t same over = ground arith

  pub handle_tot-IsSafe : (s : ServiceFilter S Z) (t : Tot) → IsSafe s → IsSafe (handle_tot s t)
  handle_tot-IsSafe s t v = handle_tot_cases IsSafe s t v (finish-IsSafe s s.error v)

  pub handle_cat-same :
      (s : ServiceFilter S Z) (t : Cat)
      → ((handle_cat s t).option ≡ s.option) × ((handle_cat s t).sink ≡ s.sink)
  unfolding handle_cat
  handle_cat-same s t = ground arith

  pub handle_pmt-same :
      (s : ServiceFilter S Z) (t : Pmt)
      → ((handle_pmt s t).option ≡ s.option) × ((handle_pmt s t).sink ≡ s.sink)
  unfolding handle_pmt
  handle_pmt-same s t = ground arith

  pub handle_tot-same :
      (s : ServiceFilter S Z) (t : Tot)
      → ((handle_tot s t).option ≡ s.option) × ((handle_tot s t).sink ≡ s.sink)
  handle_tot-same s t =
      handle_tot_cases (λ s'. (s'.option ≡ s.option) × (s'.sink ≡ s.sink)) s t (refl, refl)
        (refl, refl)
