-- ===== src/Service/Filters.antt =====
-- What the filter sets of `ServiceFilter`, in src/service_filter.hh, hold.
use mirakc_arib.Prelude.{
  ℕ, ◌≡◌, true, ◌||◌, ◌&&◌, List, [], ◌∷◌, none, contains, insert, contains-insert, select, lookup,
  ◌==◌, if◌then◌else◌, Bool-cases, inl, inr, eq→==, arith,
}
use mirakc_arib.Tables.{Pat, Pmt}
use mirakc_arib.Service.{
  ServiceFilter, is_safe_dynamic_pid, insert_safe, stream_pids, only_service, handle_pmt,
}

-- The safe ones among the new PIDs join the set, and nothing else changes.
pub insert_safe_lem :
    (p : ℕ) (pids filter : List ℕ)
    → contains p (insert_safe pids filter)
      ≡ (is_safe_dynamic_pid p && contains p pids || contains p filter)
unfolding insert_safe
insert_safe_lem p [] filter = ground arith
insert_safe_lem p (q ∷ pids) filter = elim (Bool-cases (is_safe_dynamic_pid q)) [
  | inl safe ↦
      rw (safe, insert_safe_lem p pids (insert q filter), contains-insert p q filter) (ground arith)
  | inr unsafe ↦ rw (unsafe, insert_safe_lem p pids filter) (ground arith)
]

-- A valid PMT of the service makes the content filter anew: a PID passes it exactly when it is safe
-- and is the PMT's PCR PID, the PID of one of its CA descriptors or of one of its streams.
pub handle_pmt_content :
    {S Z : Type 0} (s : ServiceFilter S Z) (t : Pmt) (p : ℕ)
    → t.is_valid ≡ true
    → t.service_id ≡ s.option.sid
    → contains p (handle_pmt s t).content_filter ≡ (
        is_safe_dynamic_pid p
        && (p == t.pcr_pid || (contains p t.ca_pids || contains p (stream_pids t.streams))))
unfolding handle_pmt
handle_pmt_content s t p v e =
    rw
      (
        v,
        eq→== _ _ e,
        insert_safe_lem p (stream_pids t.streams),
        insert_safe_lem p t.ca_pids,
        insert_safe_lem p (t.pcr_pid ∷ []),
      )
      (ground arith)

-- The PAT that is handed on names the option's service alone, with the PID that it had.
pub lookup-only_service :
    (sid k : ℕ) (t : Pat)
    → lookup k (only_service sid t).pmts ≡ (if k == sid then lookup sid t.pmts else none)
unfolding only_service lookup
lookup-only_service sid k t = go t.pmts
  where
    go :
        (m : List (ℕ × ℕ))
        → lookup k (select (λ entry. entry.0 == sid) m) ≡ (if k == sid then lookup sid m else none)
    go [] = ground arith
    go ((j, v) ∷ m) = ground (arith, go m)
