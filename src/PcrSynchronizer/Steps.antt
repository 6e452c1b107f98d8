-- ===== src/PcrSynchronizer/Steps.antt =====
-- What holds of the states of `PcrSynchronizer` of src/pcr_synchronizer.hh, and when it stops.
use mirakc_arib.Prelude.{
  ℕ, ◌≤◌, ◌≡◌, ◌≢◌, refl, sym, ◌∙◌, ◌⊎◌, inl, inr, Bool, true, false, not, ◌&&◌, some, List,
  contains, length, lookup, keys, put_sorted, lookup-put_sorted, put_sorted-IsSorted, keys_contain,
  keys-IsDistinct, length-keys, pigeonhole, le→leb, ◌==◌, ==_iff, has_value, Returns, Bool-cases,
  Option-cases, arith,
}
use mirakc_arib.Pcr.{max_pcr}
use mirakc_arib.Tables.{Packet, Table, pid_null}
use mirakc_arib.PcrSynchronizer.{PcrSynchronizer, feed_packet, take_pcr, handle_packet}
use mirakc_arib.PcrSynchronizer.Fields.{Fields, IsValid, feed_packet-IsValid}

-- Every service with a clock has a PCR of it.
abbrev pub IsSynchronized : PcrSynchronizer → Type 0
IsSynchronized s =
    (sid pid : ℕ)
    → lookup sid s.pcr_pid_map ≡ some pid
    → pid ≢ pid_null
    → has_value (lookup pid s.pcr_map) ≡ true

-- The result of a packet: the state is valid, and if the packet is the last one, either the tables
-- have ended the work or every clock has been read.
abbrev pub Goes : PcrSynchronizer → PcrSynchronizer × Bool → Type 0
Goes s' (s'', go) =
    IsValid s'' × (go ≡ false → (s'.done ≡ true) ⊎ (IsSynchronized s'' × (s''.done ≡ true)))

take_pcr-Goes :
    (s : PcrSynchronizer) (pid value : ℕ)
    → value ≤ max_pcr
    → contains pid s.pcr_pids ≡ true
    → IsValid s
    → Returns (Goes s) (take_pcr s pid (some value))
unfolding take_pcr
take_pcr-Goes s pid value le wanted h =
    let pcr_map = put_sorted pid value s.pcr_map in
    let valid : Fields s.pmt_pids s.pcr_pid_map s.pcr_pids pcr_map = record {
      services_sorted = h.services_sorted;
      services_within = h.services_within;
      clocks_wanted = h.clocks_wanted;
      pcrs_sorted = put_sorted-IsSorted pid value s.pcr_map h.pcrs_sorted;
      pcrs_within = λ k h'.
          let found = sym (keys_contain k pcr_map) ∙ h' in
          elim (Bool-cases (pid == k)) [
            | inl same_ ↦ let e : pid ≡ k = (==_iff pid k).0 same_ in rw (← e) wanted
            | inr else_ ↦ h.pcrs_within k (
                keys_contain k s.pcr_map
                ∙ (rw (lookup-put_sorted pid k value s.pcr_map, else_) at found))
          ];
    } in
    rw (le→leb value max_pcr le) (elim (Bool-cases (length pcr_map == length s.pcr_pids)) [
      | inr fewer ↦ rw fewer (valid, λ e. absurd cc)
      | inl all_ ↦ rw all_ (
        valid,
        λ e. inr (
          λ sid p found ne.
              sym (keys_contain p pcr_map)
              ∙ pigeonhole (keys pcr_map) s.pcr_pids (keys-IsDistinct pcr_map valid.pcrs_sorted)
                  valid.pcrs_within (ground (arith, length-keys pcr_map)) p
                  (h.clocks_wanted sid p found ne),
          refl,
        ),
      )
    ])

-- From a valid state, a packet whose PCR is in range aborts nothing and leaves a valid state; and
-- when no further packet is wanted, either the tables have ended the work, or the work is done and
-- every service with a clock has a PCR of it.
pub handle_packet-Goes :
    (s : PcrSynchronizer) (packet : Packet) (tables : List Table)
    → ((value : ℕ) → packet.pcr ≡ some value → value ≤ max_pcr)
    → IsValid s
    → Returns (Goes (feed_packet s tables)) (handle_packet s packet tables)
unfolding handle_packet take_pcr
handle_packet-Goes s packet tables in_range h =
    let s' = feed_packet s tables in
    let h' = feed_packet-IsValid s tables h in
    let goes_on : Returns (Goes s') (some (s', true)) = (h', λ e. absurd cc) in
    elim (Bool-cases (packet.pid == pid_null)) [
      | inl null_ ↦ simp null_ (h, λ e. absurd cc)
      | inr pid_ ↦ elim (Bool-cases s'.done) [
        | inl done_ ↦
            let e : handle_packet s packet tables ≡ some (s', false) = simp (pid_, done_) refl in
            rw e (h', λ e'. inl done_)
        | inr more ↦ elim (Bool-cases s'.started) [
          | inr waits ↦
              let e : handle_packet s packet tables ≡ some (s', true) =
                simp (pid_, more, waits) refl in
              rw e goes_on
          | inl started_ ↦
              elim (Bool-cases (
                contains packet.pid s'.pcr_pids
                && not (has_value (lookup packet.pid s'.pcr_map)))) [
                  | inr known ↦
                      let e : handle_packet s packet tables ≡ some (s', true) =
                        simp (pid_, more, started_, known) refl in
                      rw e goes_on
                  | inl wanted ↦
                      let e : handle_packet s packet tables ≡ take_pcr s' packet.pid packet.pcr =
                        simp (pid_, more, started_, wanted) refl in
                      rw e (elim (Option-cases packet.pcr) [
                        | inl none_ ↦ rw none_ goes_on
                        | inr (value, some_) ↦ rw some_ (
                            take_pcr-Goes s' packet.pid value (in_range value some_) (ground arith)
                              h')
                      ])
                ]
        ]
      ]
    ]
