-- ===== src/Service/Forward.antt =====
-- What `HandlePacket` of `ServiceFilter`, in src/service_filter.hh, does with the packet itself, and
-- that no assertion fails.
use mirakc_arib.Prelude.{
  ap, Option, ℕ, ◌≡◌, refl, sym, ◌∙◌, ◌≢◌, ◌⊎◌, inl, inr, Bool, true, false, not, ◌||◌, List, some,
  contains, ◌==◌, Bool-cases, eq→==, ne→==, ==_iff, Returns, Returns-map, Returns-some, arith,
}
use mirakc_arib.Sink.{PacketSink}
use mirakc_arib.Tables.{Packet, Pat, Table, Packetizer, pid_null, pid_pat}
use mirakc_arib.Service.{
  is_safe_dynamic_pid, ServiceFilter, check_filter_for_drop, feed_packet, send, send_pat, forward,
  handle_packet,
}
use mirakc_arib.Service.Sets.{Decoded, IsSafe, safe-ne-null}
use mirakc_arib.Service.Ready.{PatLaw, IsReady, feed_packet-IsReady}
use mirakc_arib.Service.Safety.{Keeps, feed_packet-IsSafe}

module _ {S Z : Type 0} (packetizer : Packetizer Z Pat) (held : Z → List Pat)
    (law : PatLaw packetizer held) (downstream : PacketSink S Packet) where
  -- The packet passes one of the three filter sets.
  abbrev pub passes : ServiceFilter S Z → ℕ → Bool
  passes s pid =
      contains pid s.content_filter || (contains pid s.psi_filter || contains pid s.emm_filter)

  -- `sent` is handed to the downstream sink, which decides whether to go on.
  abbrev pub Sends : ServiceFilter S Z → S → Packet → Packet → ServiceFilter S Z × Bool → Type 0
  Sends s sink packet sent r =
      (s.done ≡ false)
      × (passes s packet.pid ≡ true)
      × (sent.pid ≡ packet.pid)
      × (sent.pid ≢ pid_null)
      × (packet.pid ≢ pid_pat → sent ≡ packet)
      × (packet.pid ≡ pid_pat → sent ≡ (packetizer.next_packet s.pat_packetizer).1)
      × (r.0.sink ≡ some (downstream.handle_packet sink sent).0)
      × (r.1 ≡ (downstream.handle_packet sink sent).1)

  -- What becomes of a packet at the state `s` that its tables leave.
  abbrev pub Outcome : ServiceFilter S Z → S → Packet → ServiceFilter S Z × Bool → Type 0
  Outcome s sink packet r =
      ((s.done ≡ true) × (r ≡ (s, false)))
      ⊎ ((s.done ≡ false) × (passes s packet.pid ≡ false) × (r ≡ (s, true)))
      ⊎ ((sent : Packet) × Sends s sink packet sent r)

  check-passes :
      (s : ServiceFilter S Z) (pid : ℕ) → check_filter_for_drop s pid ≡ not (passes s pid)
  unfolding check_filter_for_drop
  check-passes s pid = ground arith

  passes-ne-null :
      (s : ServiceFilter S Z) (pid : ℕ) → IsSafe s → passes s pid ≡ true → pid ≢ pid_null
  passes-ne-null s pid v h = ground (arith, v.content pid, v.emm pid, v.psi pid, safe-ne-null pid)

  passes-pat :
      (s : ServiceFilter S Z)
      → IsSafe s
      → passes s pid_pat ≡ true
      → contains pid_pat s.psi_filter ≡ true
  unfolding is_safe_dynamic_pid
  passes-pat s v h = ground (arith, v.content pid_pat, v.emm pid_pat)

  -- Neither the sink, nor the packetizer, nor whether the work is done matters.
  sent-IsSafe :
      (s : ServiceFilter S Z) (sink : Option S) (z : Z) (done : Bool)
      → IsSafe s
      → IsSafe (record s { sink = sink; pat_packetizer = z; done = done })
  sent-IsSafe s sink z done v = record {
    content = v.content;
    emm = v.emm;
    psi = v.psi;
    pmt_safe = v.pmt_safe;
    demuxed = v.demuxed;
  }

  forward_lem :
      (s : ServiceFilter S Z) (sink : S) (packet : Packet)
      → IsSafe s
      → IsReady packetizer held s
      → Returns
          (λ r. IsSafe r.0 × IsReady packetizer held r.0 × Outcome s sink packet r)
          (forward packetizer downstream s sink packet)
  unfolding forward send_pat send
  forward_lem s sink packet v ready = elim (Bool-cases s.done) [
    | inl over ↦ simp over (v, ready, inl (refl, refl))
    | inr going ↦
        simp (going, check-passes s packet.pid)
          (elim (Bool-cases (passes s packet.pid)) [
            | inr dropped ↦ rw dropped (v, ready, inr (inl (refl, refl, refl)))
            | inl through ↦
                let not_null = passes-ne-null s packet.pid v through in
                elim (Bool-cases (packet.pid == pid_pat)) [
                  | inl is_pat ↦
                      let at_pat = (==_iff packet.pid pid_pat).0 is_pat in
                      let (t, holds, one, named) =
                        ready (passes-pat s v (ap (passes s) (sym at_pat) ∙ through)) in
                      let next = packetizer.next_packet s.pat_packetizer in
                      let made = law.next_pid s.pat_packetizer t holds in
                      let pid_same : next.1.pid ≡ packet.pid = made ∙ sym at_pat in
                      rw (through, is_pat, eq→== _ _ made)
                        (
                          sent-IsSafe s _ _ _ v,
                          (λ _. (t, law.kept s.pat_packetizer ∙ holds, one, named)),
                          inr (
                              inr (
                                next.1,
                                (
                                  refl,
                                  refl,
                                  pid_same,
                                  (λ e. not_null (sym pid_same ∙ e)),
                                  (λ ne. absurd (ne ((==_iff packet.pid pid_pat).0 is_pat))),
                                  (λ _. refl),
                                  refl,
                                  refl,
                                ),
                              )),
                        )
                  | inr not_pat ↦
                      rw (through, not_pat, ne→== _ _ not_null)
                        (
                          sent-IsSafe s _ _ _ v,
                          ready,
                          inr (
                              inr (
                                packet,
                                (
                                  refl,
                                  refl,
                                  refl,
                                  not_null,
                                  (λ _. refl),
                                  (λ e. absurd (ground arith)),
                                  refl,
                                  refl,
                                ),
                              )),
                        )
                ]
          ])
  ]

  -- From a safe state, with tables whose maps have distinct keys and a packetizer that makes PAT
  -- packets while it holds a table, `HandlePacket` of a connected filter fails no assertion and
  -- leaves a safe state: no unsafe PID in a filter set, no PSI/SI PID ever taken from the demux, and,
  -- as soon as the PAT's PID passes, the packetizer holds one PAT, which names the service alone,
  -- with the PID of its PMT. At the state that
  -- the packet's tables leave, the call either stops because the filter is done, or drops the
  -- packet because its PID passes no filter set, or hands one packet of the same PID, never the
  -- null PID, to the downstream sink and returns its answer: a PAT packet made by the packetizer
  -- in place of a PAT packet, and the packet itself otherwise.
  pub handle_packet_lem :
      (s : ServiceFilter S Z) (sink : S) (packet : Packet) (tables : List Table)
      → IsSafe s
      → IsReady packetizer held s
      → s.sink ≡ some sink
      → Decoded tables
      → Returns
          (λ r.
            IsSafe r.0
            × IsReady packetizer held r.0
            × ((s' : ServiceFilter S Z) × (feed_packet packetizer s tables ≡ some s')
                × Outcome s' sink packet r))
          (handle_packet packetizer downstream s packet tables)
  unfolding handle_packet
  handle_packet_lem s sink packet tables v ready e d =
      let (s', fed, kept) =
        Returns-some (Keeps packetizer s) (feed_packet packetizer s tables)
          (feed_packet-IsSafe packetizer s tables v d) in
      let ready' : IsReady packetizer held s' =
        rw fed at (feed_packet-IsReady packetizer held law s tables ready) in
      simp e (
        rw fed (
          Returns-map (λ r. IsSafe r.0 × IsReady packetizer held r.0 × Outcome s' sink packet r) _ _
            (forward_lem s' sink packet kept.0 ready') λ r o. (o.0, o.1, (s', refl, o.2))))
