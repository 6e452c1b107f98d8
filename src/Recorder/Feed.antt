-- ===== src/Recorder/Feed.antt =====
-- `HandlePacket` of `ServiceRecorder`, in src/service_recorder.hh: the PCR and the tables of a
-- packet keep what the messages tell, and then so does the step.
use mirakc_arib.Prelude.{
  ◌≤◌, ◌≡◌, refl, sym, ap, ◌∙◌, ◌≢◌, not, ◌&&◌, none, some, List, [], ◌∷◌, ℤ, leb, ◌==◌,
  if◌then◌else◌, lookup, Bool-cases, Option-cases, inl, inr, Returns, Returns-bind, Returns-map,
  both, arith,
}
use mirakc_arib.Pcr.{max_pcr}
use mirakc_arib.Clock.{Clock, has_pid, set_pid}
use mirakc_arib.Clock.Follow.{update_pcr_valid, update_time_valid}
use mirakc_arib.Tables.{
  Packet, Pat, Pmt, Eit, Tot, Table, pat, pmt, tot, eit_pf_act, add_pid, remove_pid, pid_pat,
  pid_null,
}
use mirakc_arib.Program.Times.{Names, Names-split}
use mirakc_arib.Recorder.{PacketRingSink, ServiceRecorder, get_event}
use mirakc_arib.Recorder.Handlers.{
  handle_pat, handle_pmt, handle_eit, handle_tot, handle_table, feed_packet, feed_pcr,
  handle_packet,
}
use mirakc_arib.Recorder.Events.{Speaks}
use mirakc_arib.Recorder.Protocol.{dispatch-Speaks}

module _ {S : Type 0} (ring : PacketRingSink S) where
  Keeps : ServiceRecorder S → ServiceRecorder S → Type 0
  Keeps s s' = Speaks ring s' × (s'.option ≡ s.option)

  with_clock :
      (s : ServiceRecorder S) (clock : Clock)
      → Speaks ring s
      → clock.last_pcr ≤ max_pcr
      → Keeps s (record s { clock = clock })
  unfolding Keeps
  with_clock s clock v last = (
    record {
      tells = v.tells;
      quiet = v.quiet;
      holds = v.holds;
      fresh = v.fresh;
      aligned = v.aligned;
      clock_valid = last;
    },
    refl,
  )

  same : (s : ServiceRecorder S) → Speaks ring s → Keeps s s
  unfolding Keeps
  same s v = (v, refl)

  handle_pat_lem :
      (s : ServiceRecorder S) (t : Pat)
      → lookup s.option.sid t.pmts ≢ none
      → Speaks ring s
      → Returns (Keeps s) (handle_pat s t)
  unfolding handle_pat
  handle_pat_lem s t named v = elim (Option-cases (lookup s.option.sid t.pmts)) [
    | inl missing ↦ absurd (named missing)
    | inr (pid, found) ↦ rw found (
        let accepted : Keeps s (record s {
          demux =
              add_pid pid
              ∷ (if s.pmt_pid == pid_null then s.demux else remove_pid s.pmt_pid ∷ s.demux);
          pmt_pid = pid;
        }) =
          unfold Keeps in
          (
            record {
              tells = v.tells;
              quiet = v.quiet;
              holds = v.holds;
              fresh = v.fresh;
              aligned = v.aligned;
              clock_valid = v.clock_valid;
            },
            refl,
          ) in
        both (Returns (Keeps s)) (not (t.source_pid == pid_pat)) _ _ (same s v) (
          both (Returns (Keeps s)) (not t.is_valid) _ _ (same s v)
            (both (Returns (Keeps s)) (t.ts_id == 0) _ _ (same s v) accepted)))
  ]

  handle_pmt_lem : (s : ServiceRecorder S) (t : Pmt) → Speaks ring s → Keeps s (handle_pmt s t)
  unfolding handle_pmt set_pid
  handle_pmt_lem s t v =
      let moved = with_clock s (set_pid s.clock t.pcr_pid) v v.clock_valid in
      both (Keeps s) (not t.is_valid) _ _ (same s v) (
        both (Keeps s) (not (t.service_id == s.option.sid)) _ _ (same s v) (
          both (Keeps s) (not (has_pid s.clock)) _ _ moved
            (both (Keeps s) (not (s.clock.baseline.pid == t.pcr_pid)) _ _ moved (same s v))))

  handle_eit_lem : (s : ServiceRecorder S) (t : Eit) → Speaks ring s → Keeps s (handle_eit s t)
  unfolding handle_eit
  handle_eit_lem s t v = elim (Option-cases (get_event (some t))) [
    | inl e ↦ rw e (
        both (Keeps s) (not t.is_valid) _ _ (same s v)
          (both (Keeps s) (not (t.service_id == s.option.sid)) _ _ (same s v) (same s v)))
    | inr (event, e) ↦
        let held : Keeps s (record s { new_eit = some t }) =
          unfold Keeps in
          (
            record {
              tells = v.tells;
              quiet = v.quiet;
              holds = v.holds;
              fresh = λ eit h missing.
                  absurd
                    (let held : get_event (some eit) ≡ some event = ap get_event (sym h) ∙ e in cc);
              aligned = v.aligned;
              clock_valid = v.clock_valid;
            },
            refl,
          ) in
        rw e (
          both (Keeps s) (not t.is_valid) _ _ (same s v)
            (both (Keeps s) (not (t.service_id == s.option.sid)) _ _ (same s v) held))
  ]

  handle_tot_lem :
      (s : ServiceRecorder S) (local_time : ℤ) (t : Tot)
      → Speaks ring s
      → Returns (Keeps s) (handle_tot s local_time t)
  unfolding handle_tot
  handle_tot_lem s local_time t v = both (Returns (Keeps s)) (not t.is_valid) _ _ (same s v) (
      Returns-bind (λ (c : Clock). c.last_pcr ≤ max_pcr) (Keeps s) _ _
        (update_time_valid s.clock local_time t.utc_time v.clock_valid)
        (λ c last. with_clock s c v last))

  handle_table_lem :
      (s : ServiceRecorder S) (local_time : ℤ) (t : Table)
      → Names s.option.sid (t ∷ [])
      → Speaks ring s
      → Returns (Keeps s) (handle_table s local_time t)
  unfolding handle_table
  handle_table_lem s local_time (pat t) named v = handle_pat_lem s t named.0 v
  handle_table_lem s local_time (pmt t) named v = handle_pmt_lem s t v
  handle_table_lem s local_time (eit_pf_act t) named v = handle_eit_lem s t v
  handle_table_lem s local_time (tot t) named v = handle_tot_lem s local_time t v
  handle_table_lem s local_time _ named v = same s v

  feed_packet-Keeps :
      (s : ServiceRecorder S) (local_time : ℤ) (tables : List Table)
      → Names s.option.sid tables
      → Speaks ring s
      → Returns (Keeps s) (feed_packet s local_time tables)
  unfolding feed_packet
  feed_packet-Keeps s local_time [] named v = same s v
  feed_packet-Keeps s local_time (t ∷ ts) named v =
      let (first, later) = Names-split s.option.sid t ts named in
      Returns-bind (Keeps s) (Keeps s) _ _ (handle_table_lem s local_time t first v) (λ s' k.
        let (v', o) : Speaks ring s' × (s'.option ≡ s.option) = unfold Keeps in k in
        Returns-map (Keeps s') (Keeps s) _ (feed_packet-Keeps s' local_time ts (rw o later) v')
          (λ s'' k'. unfold Keeps in (k'.0, k'.1 ∙ o)))

  feed_pcr-Keeps :
      (s : ServiceRecorder S) (packet : Packet)
      → Speaks ring s
      → Returns (Keeps s) (feed_pcr s packet)
  unfolding feed_pcr
  feed_pcr-Keeps s packet v =
      both (Returns (Keeps s)) (has_pid s.clock && (s.clock.baseline.pid == packet.pid)) _ _
        (elim (Option-cases packet.pcr) [
          | inl e ↦ simp e (same s v)
          | inr (pcr, e) ↦ simp e (elim (Bool-cases (leb pcr max_pcr)) [
            | inr invalid ↦ rw invalid (same s v)
            | inl valid ↦ rw valid (
                Returns-bind (λ (c : Clock). c.last_pcr ≤ max_pcr) (Keeps s) _ _
                  (update_pcr_valid s.clock pcr (ground arith) v.clock_valid)
                  (λ c last. with_clock s c v last))
          ])
        ])
        (same s v)

  -- Read from the first message on, no event is started while one is open and none is ended that is
  -- not; the event that the messages leave open is the first of the EIT held if the flag says that an
  -- event has started, and there is none otherwise. From a state where this holds, where a recording
  -- has an EIT with an event, a new EIT has one too, a recorder that is preparing has its ring at the
  -- start of a chunk and the flag unset, and the last PCR of the clock is valid, `HandlePacket` of
  -- any packet, with tables whose PATs name the service, does not abort and keeps all of this.
  pub handle_packet-Speaks :
      (s : ServiceRecorder S) (local_time : ℤ) (packet : Packet) (tables : List Table)
      → Speaks ring s
      → Names s.option.sid tables
      → Returns (λ r. Speaks ring r.0) (handle_packet ring s local_time packet tables)
  unfolding handle_packet
  handle_packet-Speaks s local_time packet tables v named =
      Returns-bind (Keeps s) (λ r. Speaks ring r.0) _ _ (feed_pcr-Keeps s packet v)
        (λ s' k.
          let (v', o) : Speaks ring s' × (s'.option ≡ s.option) = unfold Keeps in k in
          Returns-bind (Keeps s') (λ r. Speaks ring r.0) _ _
            (feed_packet-Keeps s' local_time tables (rw o named) v')
            (λ s'' k'. dispatch-Speaks ring s'' local_time packet (unfold Keeps in k'.0)))
