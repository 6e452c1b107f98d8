-- ===== src/PesPrinter/Clocks.antt =====
-- The clocks of `PesPrinter` of src/pes_printer.hh stay valid, and no packet makes it abort.
use mirakc_arib.Prelude.{
  ℕ, ◌^◌, ◌<◌, ◌≤◌, ◌≡◌, refl, Bool, not, Option, none, some, List, [], ◌∷◌, ℤ, put_sorted, ◌==◌,
  if◌then◌else◌, maybe, Returns, Returns-bind, both, arith,
}
use mirakc_arib.Pcr.{max_pcr}
use mirakc_arib.Clock as Clock
use mirakc_arib.Clock.{
  Clock, new_baseline, is_ready, is_baseline_ready, pcr_to_time, baseline_pcr_to_time, update_pcr,
  update_time, set_pid,
}
use mirakc_arib.Tables.{
  Stream, Pmt, Table, pat, cat, pmt, tot, eit_pf_act, nit_act, sdt_act, other, pid_null,
}
use mirakc_arib.PesPrinter.{
  PesPacket, PesPrinter, StreamType, Subject, pts_of, dts_of, pmt_of, print_line, handle_pcr,
  print_stamp, handle_pts, handle_dts, handle_cat, print_streams, handle_pmt, handle_table,
  feed_packet, handle_packet,
}
use mirakc_arib.PesPrinter.Frames.{
  AreValid-put, IsValid, handle_pcr-IsValid, print_stamp-IsValid, handle_tot-IsValid,
  handle_pat-frame, handle_eit-frame,
}

module _ (is_subtitles : Stream → Bool) where
  print_streams-frame :
      (pcr_pid : ℕ) (streams : List Stream) (s : PesPrinter)
      → (print_streams is_subtitles pcr_pid streams s).clock_map ≡ s.clock_map
  unfolding print_streams print_line
  print_streams-frame pcr_pid [] s = refl
  print_streams-frame pcr_pid (stream ∷ streams) s = print_streams-frame pcr_pid streams _

  handle_pmt-IsValid :
      (s : PesPrinter) (t : Pmt) → IsValid s → IsValid (handle_pmt is_subtitles s t)
  unfolding handle_pmt print_line Clock.create set_pid
  handle_pmt-IsValid s t h =
      let shown = print_line s none none (pmt_of t.service_id t.pcr_pid) in
      let clock = Clock.set_pid (Clock.create new_baseline) t.pcr_pid in
      let clocked : PesPrinter =
        if not (t.pcr_pid == pid_null)
        then record shown { clock_map = put_sorted t.pcr_pid clock shown.clock_map }
        else shown in
      let valid : IsValid clocked =
        both IsValid (not (t.pcr_pid == pid_null)) _ shown
          (AreValid-put t.pcr_pid clock s.clock_map (omega arith) h) h in
      both IsValid (not t.is_valid) s _ h
        (rw (print_streams-frame t.pcr_pid t.streams clocked) valid)

  handle_table-IsValid :
      (local_time : ℤ) (s : PesPrinter) (t : Table)
      → IsValid s
      → Returns IsValid (handle_table is_subtitles local_time s t)
  unfolding handle_table handle_cat print_line
  handle_table-IsValid local_time s (pat t) h = rw (handle_pat-frame s t) h
  handle_table-IsValid local_time s (cat t) h = both IsValid (not t.is_valid) s _ h h
  handle_table-IsValid local_time s (pmt t) h = handle_pmt-IsValid s t h
  handle_table-IsValid local_time s (eit_pf_act eit) h = rw (handle_eit-frame s eit) h
  handle_table-IsValid local_time s (tot t) h = handle_tot-IsValid local_time s t h
  handle_table-IsValid local_time s (nit_act t) h = h
  handle_table-IsValid local_time s (sdt_act t) h = h
  handle_table-IsValid local_time s other h = h

  feed_packet-IsValid :
      (local_time : ℤ) (s : PesPrinter) (ts : List Table)
      → IsValid s
      → Returns IsValid (feed_packet is_subtitles local_time s ts)
  unfolding feed_packet
  feed_packet-IsValid local_time s [] h = h
  feed_packet-IsValid local_time s (t ∷ ts) h =
      Returns-bind IsValid IsValid (handle_table is_subtitles local_time s t) _
        (handle_table-IsValid local_time s t h) (λ s' h'. feed_packet-IsValid local_time s' ts h')

  -- A PCR is in range, and a PTS or a DTS has 33 bits.
  abbrev pub IsPlausible : PesPacket → Type 0
  IsPlausible packet =
      ((value : ℕ) → packet.pcr ≡ some value → value ≤ max_pcr)
      × ((stamp : ℕ) → packet.pts ≡ some stamp → stamp < 2 ^ 33)
      × ((stamp : ℕ) → packet.dts ≡ some stamp → stamp < 2 ^ 33)

  -- If the last PCRs of the clocks are in range, a packet whose PCR is in range and whose PTS and DTS
  -- have 33 bits makes the printer abort on no tables, leaves the clocks so, and is followed by another
  -- exactly if the printer is not done.
  pub handle_packet-AreValid :
      (local_time : ℤ) (s : PesPrinter) (packet : PesPacket) (tables : List Table)
      → IsPlausible packet
      → IsValid s
      → Returns
          (λ step. IsValid step.0 × (step.1 ≡ not step.0.done))
          (handle_packet is_subtitles local_time s packet tables)
  unfolding handle_packet handle_pts handle_dts
  handle_packet-AreValid local_time s packet tables (in_range, pts, dts) h =
      let Q : PesPrinter × Bool → Type 0 = λ step. IsValid step.0 × (step.1 ≡ not step.0.done) in
      let pid = packet.pid in
      Returns-bind IsValid Q (handle_pcr s pid packet.pcr) _
        (handle_pcr-IsValid s pid packet.pcr in_range h)
        (λ s1 h1.
          Returns-bind IsValid Q (handle_pts s1 pid packet.pts) _
            (stamped s1 packet.pts (λ type_. pts_of type_ pid) pts h1)
            (λ s2 h2.
              Returns-bind IsValid Q (handle_dts s2 pid packet.dts) _
                (stamped s2 packet.dts (λ type_. dts_of type_ pid) dts h2)
                (λ s3 h3.
                  Returns-bind IsValid Q (feed_packet is_subtitles local_time s3 tables) _
                    (feed_packet-IsValid local_time s3 tables h3) (λ s4 h4. (h4, refl)))))
    where
      stamped :
          (s' : PesPrinter) (stamp : Option ℕ) (subject : Option StreamType → Subject)
          → ((value : ℕ) → stamp ≡ some value → value < 2 ^ 33)
          → IsValid s'
          → Returns IsValid
              (maybe stamp (some s') (λ value. print_stamp s' packet.pid value subject))
      stamped s' none subject small h' = h'
      stamped s' (some value) subject small h' =
          print_stamp-IsValid s' packet.pid value subject (small value refl) h'
