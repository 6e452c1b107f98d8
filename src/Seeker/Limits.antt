-- ===== src/Seeker/Limits.antt =====
-- What `StartSeeker` of src/start_seeker.hh holds back and sends, towards a sink that accepts.
use mirakc_arib.Prelude.{
  ℕ, ◌+◌, ◌≤◌, ◌<◌, ◌≡◌, refl, sym, ap, ◌∙◌, ◌≢◌, Bool, true, false, not, ◌&&◌, none, some, List,
  [], ◌∷◌, ◌++◌, append-nil, append_assoc, length, length-append, lookup, ltb, ◌==◌, Bool-cases,
  Option-cases, inl, inr, Returns, Returns-map, Ensures, Ensures-if, both, Ensures-maybe,
  Ensures-bind, Ensures-map, le→leb, lt→ltb, arith,
}
use mirakc_arib.Pcr.{max_pcr}
use mirakc_arib.Sink.{PacketSink, AcceptLaw}
use mirakc_arib.Tables.{pid_pat, pid_null, Packet, Pat, Pmt, Table, pat, pmt}
use mirakc_arib.Seeker.{
  State, seek, streaming, StartSeeker, handle_pat, handle_pmt, handle_table, feed_packet, send_all,
  send_packets, start_streaming, check_duration, seek_packet, do_streaming, dispatch, handle_packet,
}

pub record Waits {S : Type 0} (s : StartSeeker S) : Type 0 where
  pub within : s.state ≡ seek → s.option.max_packets ≢ 0 → length s.packets < s.option.max_packets
  pub emptied : s.state ≡ streaming → s.packets ≡ []
  pub end_valid : (pcr : ℕ) → s.end_pcr ≡ some pcr → pcr ≤ max_pcr

abbrev pub ValidPcr : Packet → Type 0
ValidPcr packet = (pcr : ℕ) → packet.pcr ≡ some pcr → pcr ≤ max_pcr

-- The tables touch neither what is held nor what was sent.
abbrev Keeps : {S : Type 0} → StartSeeker S → StartSeeker S → Type 0
Keeps s s' =
    (s'.option ≡ s.option)
    × (s'.sink ≡ s.sink)
    × (s'.state ≡ s.state)
    × (s'.packets ≡ s.packets)
    × (s'.end_pcr ≡ s.end_pcr)

handle_pat-Keeps : {S : Type 0} (s : StartSeeker S) (t : Pat) → Ensures (Keeps s) (handle_pat s t)
unfolding handle_pat
handle_pat-Keeps s t =
    let same : Keeps s s = (refl, refl, refl, refl, refl) in
    let named =
      Ensures-maybe (Keeps s) (lookup s.option.sid t.pmts) none _ tt
        (λ pid. (refl, refl, refl, refl, refl)) in
    Ensures-if (Keeps s) (not (t.source_pid == pid_pat)) _ _ same (
      Ensures-if (Keeps s) (not t.is_valid) _ _ same
        (Ensures-if (Keeps s) (t.ts_id == 0) _ _ same named))

handle_pmt-Keeps : {S : Type 0} (s : StartSeeker S) (t : Pmt) → Keeps s (handle_pmt s t)
unfolding handle_pmt
handle_pmt-Keeps s t =
    let same : Keeps s s = (refl, refl, refl, refl, refl) in
    both (Keeps s) (not t.is_valid) _ _ same (
      both (Keeps s) (not (t.service_id == s.option.sid)) _ _ same
        (both (Keeps s) _ _ _ (refl, refl, refl, refl, refl) (refl, refl, refl, refl, refl)))

handle_table-Keeps :
    {S : Type 0} (s : StartSeeker S) (t : Table) → Ensures (Keeps s) (handle_table s t)
unfolding handle_table
handle_table-Keeps s (pat t) = handle_pat-Keeps s t
handle_table-Keeps s (pmt t) = handle_pmt-Keeps s t
handle_table-Keeps s _ = (refl, refl, refl, refl, refl)

Keeps-trans : {S : Type 0} (s s' s'' : StartSeeker S) → Keeps s s' → Keeps s' s'' → Keeps s s''
Keeps-trans s s' s'' (a, b, c, d, e) (a', b', c', d', e') = (a' ∙ a, b' ∙ b, c' ∙ c, d' ∙ d, e' ∙ e)

feed_packet-Keeps :
    {S : Type 0} (s : StartSeeker S) (ts : List Table) → Ensures (Keeps s) (feed_packet s ts)
unfolding feed_packet
feed_packet-Keeps s [] = (refl, refl, refl, refl, refl)
feed_packet-Keeps s (t ∷ ts) =
    Ensures-bind (Keeps s) (Keeps s) _ _ (handle_table-Keeps s t) (λ s' k.
      Ensures-map (Keeps s') (Keeps s) _ (feed_packet-Keeps s' ts)
        (λ s'' k'. Keeps-trans s s' s'' k k'))

Waits-kept : {S : Type 0} (s s' : StartSeeker S) → Keeps s s' → Waits s → Waits s'
Waits-kept s s' (option_, sink_, state_, packets_, end_pcr_) w = record {
  within = λ h limited.
      rw packets_ (rw option_ (w.within (sym state_ ∙ h) (λ zero_. limited (rw option_ zero_))));
  emptied = λ h. packets_ ∙ w.emptied (sym state_ ∙ h);
  end_valid = λ pcr h. w.end_valid pcr (sym end_pcr_ ∙ h);
}

module _ {S : Type 0} (downstream : PacketSink S Packet) (got : S → List Packet)
    (law : AcceptLaw downstream got) where
  got-send_all :
      (sink : S) (packets : List Packet)
      → got (send_all downstream sink packets) ≡ got sink ++ packets
  unfolding send_all
  got-send_all sink [] = sym (append-nil (got sink))
  got-send_all sink (p ∷ packets) = rw (law.accepts sink p) (
      got-send_all (downstream.handle_packet sink p).0 packets
      ∙ ap (λ xs. xs ++ packets) (law.records sink p)
      ∙ append_assoc (got sink) (p ∷ []) packets)

  -- All packets so far: those sent, then those held.
  abbrev pub so_far : StartSeeker S → List Packet
  so_far s = got s.sink ++ s.packets

  -- A step that neither loses nor reorders: `packets` is all that there is after it.
  abbrev Keeping : List Packet → StartSeeker S × Bool → Type 0
  Keeping packets r = Waits r.0 × (r.1 ≡ true) × (so_far r.0 ≡ packets)

  start_streaming-Keeping :
      (s : StartSeeker S)
      → ((pcr : ℕ) → s.end_pcr ≡ some pcr → pcr ≤ max_pcr)
      → Keeping (so_far s) (start_streaming downstream s, true)
  unfolding start_streaming send_packets
  start_streaming-Keeping s e = (
    record { within = λ h. cc; emptied = λ _. refl; end_valid = e },
    refl,
    append-nil _ ∙ got-send_all s.sink s.packets,
  )

  check_duration-Keeping :
      (s : StartSeeker S) (packet : Packet)
      → Waits s
      → ValidPcr packet
      → Returns (Keeping (so_far s)) (check_duration downstream s packet)
  unfolding check_duration
  check_duration-Keeping s packet w valid =
      elim (Bool-cases (s.pcr_pid == packet.pid && not (s.pcr_pid == pid_null))) [
        | inl clock ↦ rw clock (elim (Option-cases packet.pcr) [
          | inl e ↦ rw e ((w, refl, refl))
          | inr (pcr, e) ↦ elim (Option-cases s.end_pcr) [
            | inl e' ↦ rw e (
                simp e' (
                  (
                    record {
                      within = w.within;
                      emptied = w.emptied;
                      end_valid = λ p h. ground arith;
                    },
                    refl,
                    refl,
                  )))
            | inr (end_pcr, e') ↦ rw e (
                simp e' (
                  rw (le→leb pcr max_pcr (valid pcr e)) (
                    rw (le→leb end_pcr max_pcr (w.end_valid end_pcr e')) (
                      both (λ r. Keeping (so_far s) (r, true)) _ s (start_streaming downstream s)
                        (w, refl, refl) (start_streaming-Keeping s w.end_valid)))))
          ]
        ])
        | inr no_clock ↦ rw no_clock ((w, refl, refl))
      ]

  seek_packet-Keeping :
      (s : StartSeeker S) (packet : Packet)
      → Waits s
      → s.state ≡ seek
      → s.transition_index ≡ 0
      → ValidPcr packet
      → Returns (Keeping (so_far s ++ packet ∷ [])) (seek_packet downstream s packet)
  unfolding seek_packet
  seek_packet-Keeping s packet w state no_change valid =
      let held = record s { packets = s.packets ++ packet ∷ [] } in
      let grown : so_far held ≡ so_far s ++ packet ∷ [] =
        sym (append_assoc (got s.sink) s.packets (packet ∷ [])) in
      let longer : length held.packets ≡ length s.packets + 1 =
        length-append s.packets (packet ∷ []) in
      let moved : (r : StartSeeker S × Bool)
          → Keeping (so_far held) r
          → Keeping (so_far s ++ packet ∷ []) r =
        λ r (v, ok, all_). (v, ok, all_ ∙ grown) in
      let waiting : (s.option.max_packets ≢ 0 → length held.packets < s.option.max_packets)
          → Returns (Keeping (so_far s ++ packet ∷ [])) (check_duration downstream held packet) =
        λ bound.
          Returns-map (Keeping (so_far held)) (Keeping (so_far s ++ packet ∷ [])) _
            (check_duration-Keeping held packet
              (record { within = λ h. bound; emptied = λ h. cc; end_valid = w.end_valid }) valid)
            moved in
      let unchanged : ltb 0 s.transition_index ≡ false = ground arith in
      rw unchanged (elim (Bool-cases (s.option.max_packets == 0)) [
        | inl none_ ↦ rw none_ (waiting (λ h. ground arith))
        | inr some_ ↦ rw some_ (elim (Bool-cases (s.option.max_packets == length held.packets)) [
          | inl full ↦ rw full (moved _ (start_streaming-Keeping held w.end_valid))
          | inr not_full ↦ rw not_full (
              rw (lt→ltb (length held.packets) s.option.max_packets (ground arith))
                (waiting (λ h. ground arith)))
        ])
      ])

  do_streaming-Keeping :
      (s : StartSeeker S) (packet : Packet)
      → Waits s
      → s.state ≡ streaming
      → Keeping (so_far s ++ packet ∷ []) (do_streaming downstream s packet)
  unfolding do_streaming
  do_streaming-Keeping s packet w state =
      let empty = w.emptied state in
      (
        record { within = w.within; emptied = w.emptied; end_valid = w.end_valid },
        law.accepts s.sink packet,
        rw empty (
            append-nil _
            ∙ law.records s.sink packet
            ∙ ap (λ xs. xs ++ packet ∷ []) (sym (append-nil (got s.sink)))),
      )

  dispatch-Keeping :
      (now : State) (s : StartSeeker S) (packet : Packet)
      → s.state ≡ now
      → Waits s
      → (s.state ≡ seek → s.transition_index ≡ 0)
      → ValidPcr packet
      → Returns (Keeping (so_far s ++ packet ∷ [])) (dispatch downstream now s packet)
  unfolding dispatch
  dispatch-Keeping seek s packet e w unmoved valid =
      seek_packet-Keeping s packet w e (unmoved e) valid
  dispatch-Keeping streaming s packet e w unmoved valid = do_streaming-Keeping s packet w e

  -- A packet that changes no content is neither lost nor reordered. With a sink that accepts every
  -- packet, from a state that waits (while it seeks, it holds fewer packets than the limit, if
  -- there is one, and while it streams, none; its end PCR is in range), with a packet whose PCR is
  -- in range and tables that are handled without an abort and leave no transition while seeking:
  -- `HandlePacket` does not abort and returns true, the packets sent followed by those held are the
  -- same as before with this packet at the end, and the state waits again.
  pub handle_packet_limits :
      (s s' : StartSeeker S) (packet : Packet) (tables : List Table)
      → Waits s
      → feed_packet s tables ≡ some s'
      → (s'.state ≡ seek → s'.transition_index ≡ 0)
      → ValidPcr packet
      → Returns
          (λ r. Waits r.0 × (r.1 ≡ true) × (so_far r.0 ≡ so_far s ++ packet ∷ []))
          (handle_packet downstream s packet tables)
  unfolding handle_packet
  handle_packet_limits s s' packet tables w e unmoved valid = rw e (
      let kept : Keeps s s' = rw e at (feed_packet-Keeps s tables) in
      let (option_, sink_, state_, packets_, end_pcr_) = kept in
      Returns-map (Keeping (so_far s' ++ packet ∷ [])) (Keeping (so_far s ++ packet ∷ [])) _
        (dispatch-Keeping s'.state s' packet refl (Waits-kept s s' kept w) unmoved valid)
        (λ r (v, ok, all_). (v, ok, all_ ∙ rw packets_ (rw sink_ refl))))
