-- ===== src/Tests/Files.antt =====
-- The ring file, the source and the PCRs at concrete inputs.
use mirakc_arib.Prelude.{
  ℤ, length, ℕ, ◌+◌, ◌-◌, ◌↔◌, sym, ◌*◌, ◌%◌, ◌≤◌, ◌<◌, ◌≡◌, refl, ap, ◌⊎◌, true, false, some, List,
  [], ◌∷◌, ◌++◌, take, drop, take_all, take-append-drop, length-take, All, pos, ◌+ℤ◌, ◌-ℤ◌, ◌<ℤ◌,
  ◌≤ℤ◌, Returns, arith,
}
use mirakc_arib.Pcr.{compare_pcr, pcr_upper_bound, time_to_pcr, pcr_ticks_per_ms}
use mirakc_arib.Pcr.Order.{compare_pcr_nonneg_iff, compare_pcr_wrapped}
use mirakc_arib.Pcr.Time.{time_to_pcr_later, time_to_pcr_earlier}
use mirakc_arib.Sink.{exit_success, exit_failure}
use mirakc_arib.RingFile.{RingFileSink, buffer_size, create, set_position, pkt_size}
use mirakc_arib.RingFile
use mirakc_arib.RingFile.Layout.{IsValid}
use mirakc_arib.RingFile.Safety.{WriteLaw}
use mirakc_arib.RingFile.Contents.{LogLaw, stream, Holds, handle_packet_stream}
use mirakc_arib.Source.{FileSource, get_next_packet, feed_packets}
use mirakc_arib.Source.Resync as Resync
use mirakc_arib.Source.Resync.{ReadLaw}
use mirakc_arib.Source.Exact.{IsNext, get_next_packet_exact}
use mirakc_arib.Source.Feed.{IsPacket, hand, feed_packets_lem}
use mirakc_arib.Source.Clean.{EagerLaw, feed_packets_whole}
use mirakc_arib.Sink.Stdout as Stdout
use mirakc_arib.Sink.Stdout.{StdoutSink}
use mirakc_arib.Sink.Stdout.Contents as Output
use mirakc_arib.Sink.Stdout.Contents.{OutputLaw, handle_packet_output}
use mirakc_arib.Tests.{log_file, bytes, keeping_sink, kept, keeping-AcceptLaw}

log_file-WriteLaw : WriteLaw log_file
log_file-WriteLaw = record { write_le = λ f bytes_ n e. ground arith }

log_file-LogLaw : LogLaw log_file kept
log_file-LogLaw = record {
  write_log = λ f bytes_ n e. ap (λ xs. f ++ xs) (sym (take_all n bytes_ (ground arith)));
  sync_log = λ f. refl;
  trunc_log = λ f n. refl;
  seek_log = λ f n. refl;
}

abbrev on_end : ℕ → ℕ → ℕ
on_end calls position = calls + 1

-- A ring of four chunks of one buffer, 100 bytes before the end of its last chunk.
abbrev ring : RingFileSink (List ℕ) ℕ
ring = record {
  buf = bytes 8092 1;
  file = [];
  observer = some 0;
  ring_size = 4 * 8192;
  ring_pos = 3 * 8192 + 8092;
  chunk_size = 8192;
  buf_pos = 8092;
  chunk_pos = 0;
  broken = false;
}

ring-IsValid : IsValid 4 ring
ring-IsValid = (
  3,
  record {
    chunk_whole = refl;
    pos_whole = refl;
    in_chunk = omega arith;
    in_buffer = omega arith;
    size = refl;
    position = refl;
    in_ring = omega arith;
  },
  omega arith,
)

abbrev packet : List ℕ
packet = bytes 188 0x47

handle_packet_stream_example :
    Returns
      (λ r.
        r.1 ≡ true
        → (stream log_file on_end kept r.0 ≡ stream log_file on_end kept ring ++ packet)
          × Holds log_file on_end kept r.0)
      (RingFile.handle_packet log_file on_end ring packet)
handle_packet_stream_example =
    handle_packet_stream log_file on_end kept log_file-WriteLaw log_file-LogLaw 4 ring packet
      ring-IsValid (omega arith) refl

compare_pcr_wrapped_example :
    compare_pcr ((pcr_upper_bound - 1000 + 3000) % pcr_upper_bound) (pcr_upper_bound - 1000)
    <ℤ pos 0
compare_pcr_wrapped_example =
    compare_pcr_wrapped (pcr_upper_bound - 1000) 3000 (omega arith) (omega arith) (omega arith)
      (omega arith)

compare_pcr_nonneg_iff_example :
    (pos 0 ≤ℤ compare_pcr 5000 2000) ↔ ((2000 ≤ 5000) × (2 * (5000 - 2000) < pcr_upper_bound))
compare_pcr_nonneg_iff_example = compare_pcr_nonneg_iff 5000 2000 (omega arith) (omega arith)

time_to_pcr_later_example :
    time_to_pcr 2576980377000 (pos 500) (pos 500 +ℤ pos 20)
    ≡ (2576980377000 + pcr_ticks_per_ms * 20) % pcr_upper_bound
time_to_pcr_later_example = time_to_pcr_later 2576980377000 20 (pos 500)

time_to_pcr_earlier_example :
    (time_to_pcr 1000 (pos 500) (pos 500 -ℤ pos 20) + pcr_ticks_per_ms * 20) % pcr_upper_bound
    ≡ 1000
time_to_pcr_earlier_example = time_to_pcr_earlier 1000 20 (pos 500) (omega arith)

-- A file is what is left to read of it.
abbrev read_file : List ℕ → ℕ → List ℕ × List ℕ
read_file f n = (drop n f, take n f)

read_file-ReadLaw : ReadLaw read_file kept
read_file-ReadLaw = record {
  read_rest = λ f n. sym (take-append-drop n f);
  read_le = λ f n. omega (arith, length-take n f);
}

-- Ten bytes of noise, and a packet.
abbrev source : FileSource (List ℕ)
source = record { file = bytes 10 1 ++ packet; eof = false; buf = []; pos = 0 }

source-IsValid : Resync.IsValid source
source-IsValid = record { open_ = refl; in_buffer = omega arith; fits = omega arith }

feed_packets_lem_example :
    Returns
      (λ r.
        ((true ≡ false) × (r ≡ ([], exit_failure)))
        ⊎ ((true ≡ true)
            × ((ps : List (List ℕ)) × (r.0
                  ≡ hand read_file kept read_file-ReadLaw keeping_sink [] ps)
                × (r.1 ≡ 0)
                × All IsPacket ps)))
      (feed_packets read_file keeping_sink 1000 source [])
feed_packets_lem_example =
    feed_packets_lem read_file kept read_file-ReadLaw keeping_sink 1000 source [] source-IsValid
      (omega arith)

read_file-EagerLaw : EagerLaw read_file kept
read_file-EagerLaw = record { read_some = λ f n some_ more. omega (arith, length-take n f) }

-- Ten bytes of noise, and five packets.
abbrev noisy : FileSource (List ℕ)
noisy = record {
  file = bytes 10 1 ++ packet ++ packet ++ packet ++ packet ++ packet;
  eof = false;
  buf = [];
  pos = 0;
}

get_next_packet_exact_example :
    Returns
      (IsNext read_file kept read_file-ReadLaw read_file-EagerLaw
        (drop 0 noisy.buf ++ kept noisy.file))
      (get_next_packet read_file noisy)
get_next_packet_exact_example =
    get_next_packet_exact read_file kept read_file-ReadLaw read_file-EagerLaw noisy
      (record { open_ = refl; in_buffer = omega arith; fits = omega arith })

-- Two packets and nothing else.
abbrev clean_source : FileSource (List ℕ)
clean_source = record { file = packet ++ packet; eof = false; buf = []; pos = 0 }

feed_packets_whole_example :
    Returns
      (λ r.
        (fed : List (List ℕ)) × (fed ≡ [] ++ packet ∷ packet ∷ [])
        × (r.0 ≡ fed)
        × (r.1 ≡ exit_success))
      (feed_packets read_file keeping_sink 3 clean_source [])
feed_packets_whole_example =
    feed_packets_whole read_file kept read_file-ReadLaw read_file-EagerLaw keeping_sink kept
      keeping-AcceptLaw 3 clean_source [] (packet ∷ packet ∷ [])
      (record { open_ = refl; in_buffer = omega arith; fits = omega arith })
      ((refl, refl), ((refl, refl), tt)) refl (omega arith) refl

abbrev append_bytes : List ℕ → List ℕ → List ℕ × ℤ
append_bytes w added = (w ++ added, pos (length added))

append_bytes-OutputLaw : OutputLaw append_bytes kept
append_bytes-OutputLaw = record {
  write_log = λ w added n e. ap (λ xs. w ++ xs) (sym (take_all n added (ground arith)));
  write_le = λ w added n e. ground arith;
  write_some = λ w added n e h. ground arith;
}

-- A buffer that the packet fills past its end.
abbrev stdout : StdoutSink (List ℕ)
stdout = record { out = []; buf = bytes 16356 1 }

handle_packet_output_example :
    Returns
      (λ r.
        r.1 ≡ true
        → (Output.stream append_bytes kept append_bytes-OutputLaw r.0
            ≡ Output.stream append_bytes kept append_bytes-OutputLaw stdout ++ packet)
          × (length r.0.buf < Stdout.buffer_size))
      (Stdout.handle_packet append_bytes stdout packet)
handle_packet_output_example =
    handle_packet_output append_bytes kept append_bytes-OutputLaw stdout packet (omega arith) refl
