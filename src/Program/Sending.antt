-- ===== src/Program/Sending.antt =====
-- Sending by `ProgramFilter`, in src/program_filter.hh, leaves the PCR of the packet in the window
-- of the program.
use mirakc_arib.Prelude.{
  ℕ, zero, suc, ◌≤◌, ◌≡◌, refl, Bool, true, false, not, ◌&&◌, Option, none, some, List, [], ◌∷◌,
  pos, ltb_ℤ, leb, ◌==◌, Bool-cases, inl, inr, Returns, Returns-map, Ensures, Ensures-bind,
  Ensures-if, Ensures-map, Ensures-assert, both,
}
use mirakc_arib.Pcr.{max_pcr, compare_pcr}
use mirakc_arib.Sink.{PacketSink}
use mirakc_arib.Tables.{Packet, Pmt, Packetizer}
use mirakc_arib.Program.{
  ProgramFilter, need_clock_sync, convert_time_to_pcr, update_pcr_range, update_clock_pcr,
}
use mirakc_arib.Program.Packets.{
  is_pcr_at_or_after, sync_clock, is_none_held, send, send_all, send_pats, send_pmt_packet,
  send_pmts, start_streaming,
}
use mirakc_arib.Program.Times.{Computed, InStep, Kept, update_clock_pcr_lem}

-- `packet` carries a PCR of the service at or after the start and before the end, and these are the
-- event's times at the clock.
pub record InWindow {S Z : Type 0} (packet : Packet) (s : ProgramFilter S Z) : Type 0 where
  pub pcr : ℕ
  pub has_pcr : packet.pcr ≡ some pcr
  pub pid : packet.pid ≡ s.pcr_pid
  pub started : ltb_ℤ (compare_pcr pcr s.start_pcr) (pos 0) ≡ false
  pub not_ended : ltb_ℤ (compare_pcr pcr s.end_pcr) (pos 0) ≡ true
  pub computed : Computed s

any_number : (m : Option ℕ) → Ensures (λ (n : ℕ). Unit) m
any_number none = tt
any_number (some n) = tt

pub at_or_after_lem :
    (lhs rhs : ℕ)
    → Ensures (λ b. b ≡ not (ltb_ℤ (compare_pcr lhs rhs) (pos 0))) (is_pcr_at_or_after lhs rhs)
unfolding is_pcr_at_or_after
at_or_after_lem lhs rhs =
    let exact = λ (b : Bool). b ≡ not (ltb_ℤ (compare_pcr lhs rhs) (pos 0)) in
    Ensures-assert exact (leb lhs max_pcr) _ (Ensures-assert exact (leb rhs max_pcr) _ refl)

module _ {S Z : Type 0} where
  abbrev pub SameEvent : ProgramFilter S Z → ProgramFilter S Z → Type 0
  SameEvent s s' =
      (s'.event_time_ready ≡ s.event_time_ready) × (s'.pcr_pid ≡ s.pcr_pid) × (s'.state ≡ s.state)

  update_pcr_range_event : (s : ProgramFilter S Z) → Ensures (SameEvent s) (update_pcr_range s)
  unfolding update_pcr_range
  update_pcr_range_event s =
      let start_pcr = convert_time_to_pcr s s.event_start_time in
      let end_pcr = convert_time_to_pcr s s.event_end_time in
      Ensures-assert (SameEvent s) s.event_time_ready _ (
        Ensures-assert (SameEvent s) s.clock_pcr_ready _ (
          Ensures-assert (SameEvent s) s.clock_time_ready _ (
            Ensures-bind (λ (n : ℕ). Unit) (SameEvent s) start_pcr _ (any_number start_pcr)
              (λ start _.
                Ensures-bind (λ (n : ℕ). Unit) (SameEvent s) end_pcr _ (any_number end_pcr)
                  (λ end_ _. (refl, refl, refl))))))

  pub sync_clock_event :
      (s : ProgramFilter S Z) (pcr : ℕ) → Ensures (SameEvent s) (sync_clock s pcr)
  unfolding sync_clock update_clock_pcr
  sync_clock_event s pcr =
      let s₁ = record s { clock_pcr = pcr; clock_pcr_ready = true } in
      Ensures-if (SameEvent s) (need_clock_sync s) _ _
        (Ensures-assert (SameEvent s) (need_clock_sync s) _ (
          Ensures-if (SameEvent s) (s.event_time_ready && s.clock_time_ready) _ _
            (Ensures-map (SameEvent s₁) (SameEvent s) _ (update_pcr_range_event s₁) (λ s' h. h))
            (refl, refl, refl)))
        (refl, refl, refl)

  pub sync_clock_lem :
      (s : ProgramFilter S Z) (pcr : ℕ)
      → InStep s
      → pcr ≤ max_pcr
      → Ensures InStep (sync_clock s pcr)
  unfolding sync_clock
  sync_clock_lem s pcr v h = elim (Bool-cases (need_clock_sync s)) [
    | inr synced ↦ rw synced v
    | inl need ↦ rw need (
        Ensures-of (update_clock_pcr s pcr)
          (Returns-map (Kept s) InStep _ (update_clock_pcr_lem s pcr v h need) (λ s' k. k.0)))
  ]
    where
      Ensures-of : (m : Option (ProgramFilter S Z)) → Returns InStep m → Ensures InStep m
      Ensures-of none r = tt
      Ensures-of (some s') r = r

module _ {S Z : Type 0} (packetizer : Packetizer Z Pmt) (downstream : PacketSink S Packet)
    (packet : Packet) where
  send_all_keeps :
      (s : ProgramFilter S Z) (packets : List Packet)
      → InWindow packet s
      → InWindow packet (send_all packetizer downstream s packets).0
  unfolding send_all send
  send_all_keeps s [] w = w
  send_all_keeps s (p ∷ packets) w =
      let s₁ = record s { sink = (downstream.handle_packet s.sink p).0 } in
      let w₁ : InWindow packet s₁ = record {
        pcr = w.pcr;
        has_pcr = w.has_pcr;
        pid = w.pid;
        started = w.started;
        not_ended = w.not_ended;
        computed = w.computed;
      } in
      both (λ (r : ProgramFilter S Z × Bool). InWindow packet r.0)
        (downstream.handle_packet s.sink p).1 _ _ (send_all_keeps s₁ packets w₁) w₁

  sent_keeps :
      (s : ProgramFilter S Z) (p : Packet)
      → InWindow packet s
      → InWindow packet (send packetizer downstream s p).0
  unfolding send
  sent_keeps s p w = record {
    pcr = w.pcr;
    has_pcr = w.has_pcr;
    pid = w.pid;
    started = w.started;
    not_ended = w.not_ended;
    computed = w.computed;
  }

  abbrev pub Inside : ProgramFilter S Z × Bool → Type 0
  Inside r = InWindow packet r.0

  send_pats_keeps :
      (s : ProgramFilter S Z)
      → InWindow packet s
      → Ensures Inside (send_pats packetizer downstream s)
  unfolding send_pats
  send_pats_keeps s w =
      let w' = send_all_keeps s s.last_pat_packets w in
      Ensures-if Inside s.option.pre_streaming _ _ w (
        Ensures-assert Inside (not (is_none_held s.last_pat_packets)) _ (
          both Inside (send_all packetizer downstream s s.last_pat_packets).1 _ _
            (record {
              pcr = w'.pcr;
              has_pcr = w'.has_pcr;
              pid = w'.pid;
              started = w'.started;
              not_ended = w'.not_ended;
              computed = w'.computed;
            })
            w'))

  send_pmt_packet_keeps :
      (s : ProgramFilter S Z)
      → InWindow packet s
      → Ensures Inside (send_pmt_packet packetizer downstream s)
  unfolding send_pmt_packet
  send_pmt_packet_keeps s w =
      Ensures-assert Inside ((packetizer.next_packet s.pmt_packetizer).1.pid == s.pmt_pid) _ (
        sent_keeps _ _ (record {
          pcr = w.pcr;
          has_pcr = w.has_pcr;
          pid = w.pid;
          started = w.started;
          not_ended = w.not_ended;
          computed = w.computed;
        }))

  send_pmts_keeps :
      (fuel : ℕ) (s : ProgramFilter S Z)
      → InWindow packet s
      → Ensures Inside (send_pmts packetizer downstream fuel s)
  unfolding send_pmts
  send_pmts_keeps zero s w = tt
  send_pmts_keeps (suc fuel) s w =
      Ensures-bind Inside Inside _ _ (send_pmt_packet_keeps s w) (λ (s', ok) w'.
        Ensures-if Inside (not ok) _ _ w' (
          Ensures-if Inside (packetizer.at_cycle_boundary s'.pmt_packetizer) _ _ w'
            (send_pmts_keeps fuel s' w')))

  pub start_streaming_keeps :
      (fuel : ℕ) (s : ProgramFilter S Z)
      → InWindow packet s
      → Ensures Inside (start_streaming packetizer downstream fuel s packet)
  unfolding start_streaming
  start_streaming_keeps fuel s w =
      Ensures-bind Inside Inside _ _ (send_pats_keeps s w) (λ (s', ok) w'.
        Ensures-if Inside (not ok) _ _ w' (
          Ensures-bind Inside Inside _ _ (send_pmts_keeps fuel s' w') (λ (s'', ok') w''.
            Ensures-if Inside (not ok') _ _ w'' (
              sent_keeps _ packet (record {
                pcr = w''.pcr;
                has_pcr = w''.has_pcr;
                pid = w''.pid;
                started = w''.started;
                not_ended = w''.not_ended;
                computed = w''.computed;
              })))))
