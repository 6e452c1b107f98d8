-- ===== src/RingFile/Contents.antt =====
-- The bytes that `RingFileSink` of src/ring_file_sink.hh has handed to its file and still holds.
use mathlib.Core.Path.{◌≡⟨◌⟩◌, ◌∎}
use mirakc_arib.Prelude.{
  ℕ, zero, suc, ◌+◌, ◌-◌, ◌≤◌, min, ◌≡◌, refl, sym, ap, ◌∙◌, Bool, true, Option, none, some, List,
  ◌++◌, append-nil, append_assoc, pos, length, take, drop, length-append, length-take, length-drop,
  take_all, take_split, drop-drop, take-take, ltb, leb, ◌==◌, Bool-cases, Returns, Ensures, assert,
  ◌>>◌, Ensures-bind, Ensures-assert, Returns-Ensures, ◌⊎◌, inl, inr, arith,
}
use mirakc_arib.RingFile.{
  buffer_size, pkt_size, RingFileSink, File, write_all, after_write_all, end_chunk, end_ring,
  end_buffer, flush, need_flush, flush_if_needed, fill_buffer, fill_loop, handle_packet,
}
use mirakc_arib.RingFile.Layout.{IsValid}
use mirakc_arib.RingFile.Safety.{WriteLaw, Accepts, handle_packet-IsValid, after_write_cases}

-- What the sink relies on of `File`, seen as the sequence of the bytes written so far: `Write`
-- writes as many of the given bytes as it returns, the first ones, and no other call writes.
pub record LogLaw {F : Type 0} (fs : File F) (written : F → List ℕ) : Type 0 where
  pub write_log :
      (f : F) (bytes : List ℕ) (n : ℕ)
      → (fs.write f bytes).1 ≡ pos n
      → written (fs.write f bytes).0 ≡ written f ++ take n bytes
  pub sync_log : (f : F) → written (fs.sync f).0 ≡ written f
  pub trunc_log : (f : F) (n : ℕ) → written (fs.trunc f n).0 ≡ written f
  pub seek_log : (f : F) (n : ℕ) → written (fs.seek f n).0 ≡ written f

-- Writing `d` bytes of the buffer and then the rest is writing all that was left.
append_rest :
    (w w' buf : List ℕ) (nwritten d : ℕ)
    → nwritten + d ≤ buffer_size
    → w' ≡ w ++ take d (take (buffer_size - nwritten) (drop nwritten buf))
    → w' ++ take (buffer_size - (nwritten + d)) (drop (nwritten + d) buf)
      ≡ w ++ take (buffer_size - nwritten) (drop nwritten buf)
append_rest w w' buf nwritten d h e =
    let total : d + (buffer_size - (nwritten + d)) ≡ buffer_size - nwritten = omega arith in
    let xs = drop nwritten buf in
    let rest = buffer_size - (nwritten + d) in
    w' ++ take rest (drop (nwritten + d) buf)
    ≡⟨ (rw (e, take-take d (buffer_size - nwritten) xs (omega arith), ← drop-drop nwritten d buf)) ⟩
      (w ++ take d xs) ++ take rest (drop d xs)
    ≡⟨ append_assoc w (take d xs) (take rest (drop d xs)) ⟩
      w ++ (take d xs ++ take rest (drop d xs))
    ≡⟨ (rw (take_split d rest xs, total)) ⟩ w ++ take (buffer_size - nwritten) xs ∎

grown :
    {w : List ℕ} (before packet : List ℕ) (nwritten d : ℕ)
    → w ≡ before ++ take nwritten packet
    → w ++ take d (drop nwritten packet) ≡ before ++ take (nwritten + d) packet
grown before packet nwritten d e = rw (e, append_assoc, take_split nwritten d packet) refl

module _ {F O : Type 0} (fs : File F) (on_end_of_chunk : O → ℕ → O) (written : F → List ℕ) where
  -- All bytes taken so far: those written, then those in the buffer.
  abbrev pub stream : RingFileSink F O → List ℕ
  stream s = written s.file ++ take s.buf_pos s.buf

  -- The buffer holds what its position says.
  abbrev pub Holds : RingFileSink F O → Type 0
  Holds s = s.buf_pos ≤ length s.buf

  -- A step that succeeded leaves `bytes` as the stream.
  abbrev Streams : List ℕ → RingFileSink F O × Bool → Type 0
  Streams bytes r = r.1 ≡ true → (stream r.0 ≡ bytes) × Holds r.0

  module _ (safe : WriteLaw fs) (law : LogLaw fs written) where
    abbrev Writes : F → List ℕ → F × Option ℕ → Type 0
    Writes f bytes r = (r.1 ≡ none) ⊎ (written r.0 ≡ written f ++ bytes)

    write_all_log :
        (fuel : ℕ) (f : F) (buf : List ℕ) (nwritten : ℕ)
        → nwritten ≤ buffer_size
        → Writes f
            (take (buffer_size - nwritten) (drop nwritten buf))
            (write_all fs on_end_of_chunk fuel f buf nwritten)
    unfolding write_all
    write_all_log zero f buf nwritten h = inl refl
    write_all_log (suc fuel) f buf nwritten h = elim (Bool-cases (ltb nwritten buffer_size)) [
      | inr done ↦
          let none_left : buffer_size - nwritten ≡ 0 = ground arith in
          rw (done, none_left) (inr (sym (append-nil (written f))))
      | inl more ↦ rw more (
          after_write_cases (Writes f (take (buffer_size - nwritten) (drop nwritten buf))) _ _ _
            (inl refl)
            λ n e.
              let bytes = take (buffer_size - nwritten) (drop nwritten buf) in
              let fits : nwritten + suc n ≤ buffer_size = omega (
                arith,
                safe.write_le f bytes (suc n) e,
                length-take (buffer_size - nwritten) (drop nwritten buf),
              ) in
              let f' = (fs.write f bytes).0 in
              elim (write_all_log fuel f' buf (nwritten + suc n) fits) [
                | inl failed ↦ inl failed
                | inr wrote ↦ inr (
                    wrote
                    ∙ append_rest (written f) (written f') buf nwritten (suc n) fits
                        (law.write_log f bytes (suc n) e))
              ])
    ]

    end_buffer_log :
        (s : RingFileSink F O) (bytes : List ℕ)
        → written s.file ≡ bytes
        → Ensures (Streams bytes) (end_buffer fs on_end_of_chunk s)
    unfolding end_buffer end_chunk end_ring
    end_buffer_log s bytes e = ground (
      arith,
      append-nil bytes,
      law.sync_log s.file,
      law.trunc_log s.file s.ring_size,
      law.seek_log (fs.trunc s.file s.ring_size).0 0,
      law.trunc_log (fs.sync s.file).0 s.ring_size,
      law.seek_log (fs.trunc (fs.sync s.file).0 s.ring_size).0 0,
    )

    after_write_all_log :
        (s : RingFileSink F O) (bytes : List ℕ) (w : Option ℕ)
        → (w ≡ none) ⊎ (written s.file ≡ bytes)
        → Ensures (Streams bytes) (after_write_all fs on_end_of_chunk s w)
    unfolding after_write_all
    after_write_all_log s bytes none wrote = λ ok. cc
    after_write_all_log s bytes (some m) (inl e) = cc
    after_write_all_log s bytes (some m) (inr e) = elim (Bool-cases (m == buffer_size)) [
      | inl all ↦ rw all (end_buffer_log s bytes e)
      | inr short ↦ rw short tt
    ]

    flush_if_needed_log :
        (s : RingFileSink F O)
        → Holds s
        → Ensures (Streams (stream s)) (flush_if_needed fs on_end_of_chunk s)
    unfolding flush_if_needed need_flush flush
    flush_if_needed_log s h = elim (Bool-cases (s.buf_pos == buffer_size)) [
      | inr space ↦ rw space (λ _. (refl, h))
      | inl full ↦
          let count : s.buf_pos ≡ buffer_size = ground arith in
          let r = write_all fs on_end_of_chunk (suc buffer_size) s.file s.buf 0 in
          let same : take buffer_size s.buf ≡ take s.buf_pos s.buf = rw count in
          rw full (
            after_write_all_log (record s { file = r.0 }) (stream s) r.1
              (elim (write_all_log (suc buffer_size) s.file s.buf 0 (omega arith)) [
                | inl failed ↦ inl failed
                | inr wrote ↦ inr (wrote ∙ ap (◌++◌ (written s.file)) same)
              ]))
    ]

    abbrev Fills : RingFileSink F O → List ℕ → ℕ → RingFileSink F O × ℕ → Type 0
    Fills s bytes size r = (r.1 ≤ size) × (stream r.0 ≡ stream s ++ take r.1 bytes) × Holds r.0

    fill_buffer_log :
        (s : RingFileSink F O) (bytes : List ℕ) (size : ℕ)
        → Holds s
        → size ≤ length bytes
        → Ensures (Fills s bytes size) (fill_buffer s bytes size)
    unfolding fill_buffer
    fill_buffer_log s bytes size h enough =
        let count = min size (buffer_size - s.buf_pos) in
        let buf = take s.buf_pos s.buf ++ take count bytes in
        let filled : length buf ≡ s.buf_pos + count = omega (
          arith,
          length-append (take s.buf_pos s.buf) (take count bytes),
          length-take s.buf_pos s.buf,
          length-take count bytes,
        ) in
        let t = record s {
          buf = buf;
          ring_pos = s.ring_pos + count;
          buf_pos = s.buf_pos + count;
        } in
        let result : Fills s bytes size (t, count) = (
          omega arith,
          rw (take_all (s.buf_pos + count) buf (omega arith))
              (sym (append_assoc (written s.file) (take s.buf_pos s.buf) (take count bytes))),
          omega arith,
        ) in
        Ensures-assert (Fills s bytes size) (leb (s.buf_pos + count) buffer_size)
          (assert (leb (s.ring_pos + count) s.ring_size) >> some (t, count))
          (Ensures-assert (Fills s bytes size) (leb (s.ring_pos + count) s.ring_size)
            (some (t, count)) result)

    -- The loop: what is taken so far is the stream at the start and the packet's first bytes.
    fill_loop_log :
        (fuel nwritten : ℕ) (s : RingFileSink F O) (before packet : List ℕ)
        → Holds s
        → length packet ≡ pkt_size
        → nwritten ≤ pkt_size
        → stream s ≡ before ++ take nwritten packet
        → Ensures (Streams (before ++ packet)) (fill_loop fs on_end_of_chunk fuel s packet nwritten)
    unfolding fill_loop
    fill_loop_log zero nwritten s before packet h whole w e = tt
    fill_loop_log (suc fuel) nwritten s before packet h whole w e =
        Ensures-bind (Fills s (drop nwritten packet) (pkt_size - nwritten))
          (Streams (before ++ packet)) _ _
          (fill_buffer_log s (drop nwritten packet) (pkt_size - nwritten) h
            (omega (arith, length-drop nwritten packet)))
          λ a filled.
            Ensures-bind (Streams (stream a.0)) (Streams (before ++ packet)) _ _
              (flush_if_needed_log a.0 filled.2)
              λ c flushed. elim (Bool-cases c.1) [
                | inr failed ↦ rw failed (λ ok. cc)
                | inl went ↦
                    let so_far : stream c.0 ≡ before ++ take (nwritten + a.1) packet =
                      (flushed went).0 ∙ filled.1 ∙ grown before packet nwritten a.1 e in
                    elim (Bool-cases (ltb (nwritten + a.1) pkt_size)) [
                      | inl more ↦
                          rw (went, more)
                            (fill_loop_log fuel (nwritten + a.1) c.0 before packet (flushed went).1
                              whole (omega arith) so_far)
                      | inr last ↦
                          let result : Streams (before ++ packet) (c.0, true) = λ _. (
                            so_far
                                ∙ ap (◌++◌ before)
                                    (take_all (nwritten + a.1) packet (ground arith)),
                            (flushed went).1,
                          ) in
                          rw (went, last)
                            (Ensures-assert (Streams (before ++ packet))
                              (nwritten + a.1 == pkt_size) (some (c.0, true)) result)
                    ]
              ]

    -- From a valid sink whose buffer holds its bytes, a packet of 188 bytes that is accepted is
    -- appended to the bytes taken so far, those written followed by those in the buffer: none is
    -- lost, repeated or moved, whatever the chunk and ring boundaries.
    pub handle_packet_stream :
        (n : ℕ) (s : RingFileSink F O) (packet : List ℕ)
        → IsValid n s
        → Holds s
        → length packet ≡ pkt_size
        → Returns
            (λ r. r.1 ≡ true → (stream r.0 ≡ stream s ++ packet) × Holds r.0)
            (handle_packet fs on_end_of_chunk s packet)
    unfolding handle_packet
    handle_packet_stream n s packet v h whole =
        Returns-Ensures (Accepts fs on_end_of_chunk safe n s.ring_pos s)
          (Streams (stream s ++ packet)) _
          (unfold handle_packet in handle_packet-IsValid fs on_end_of_chunk safe n s packet v)
          (fill_loop_log (suc pkt_size) 0 s (stream s) packet h whole (omega arith)
            (sym (append-nil (stream s))))
