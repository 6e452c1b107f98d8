-- ===== src/Sink/Stdout/Contents.antt =====
-- What `StdoutSink` of src/packet_sink.hh writes.
use mirakc_arib.Prelude.{
  ℕ, zero, suc, ◌+◌, ◌-◌, ◌≤◌, ◌<◌, ◌≡◌, refl, sym, ap, ◌∙◌, ◌⊎◌, inl, inr, Bool, true, Option,
  none, some, List, [], ◌∷◌, ◌++◌, append-nil, append_assoc, ℤ, pos, negsuc, length, length-append,
  length-take, length-drop, take, drop, take-append-drop, drop-drop, take_all, ltb, Bool-cases,
  Returns, Returns-bind, Returns-map, eq→==, arith,
}
use mirakc_arib.Sink.Stdout.{
  pkt_size, buffer_size, StdoutSink, after_write, write_loop, flush, fill_and_flush, handle_packet,
}

-- What the sink relies on of `write`, seen as the bytes written so far: it takes the first of the
-- bytes that it is given, as many as it returns, at least one if there is one.
pub record OutputLaw {W : Type 0} (write : W → List ℕ → W × ℤ) (written : W → List ℕ) : Type 0 where
  pub write_log :
      (w : W) (bytes : List ℕ) (n : ℕ)
      → (write w bytes).1 ≡ pos n
      → written (write w bytes).0 ≡ written w ++ take n bytes
  pub write_le : (w : W) (bytes : List ℕ) (n : ℕ) → (write w bytes).1 ≡ pos n → n ≤ length bytes
  pub write_some :
      (w : W) (bytes : List ℕ) (n : ℕ) → (write w bytes).1 ≡ pos n → 0 < length bytes → 0 < n

drop_all : (n : ℕ) (xs : List ℕ) → length xs ≤ n → drop n xs ≡ []
drop_all zero [] h = refl
drop_all (suc n) [] h = refl
drop_all zero (x ∷ xs) h = absurd (omega arith)
drop_all (suc n) (x ∷ xs) h = drop_all n xs (omega arith)

assoc4 : (a b c d : List ℕ) → (a ++ (b ++ c)) ++ d ≡ (a ++ b) ++ (c ++ d)
assoc4 a b c d = ap (λ xs. xs ++ d) (sym (append_assoc a b c)) ∙ append_assoc (a ++ b) c d

after_write_cases :
    {W : Type 0} (P : W × Option ℕ → Type 0) (w : W) (z : ℤ) (advance : ℕ → Option (W × Option ℕ))
    → P (w, none)
    → ((n : ℕ) → z ≡ pos n → Returns P (advance n))
    → Returns P (after_write w z advance)
unfolding after_write
after_write_cases P w (pos n) advance failed went_on = went_on n refl
after_write_cases P w (negsuc n) advance failed went_on = failed

module _ {W : Type 0} (write : W → List ℕ → W × ℤ) (written : W → List ℕ)
    (law : OutputLaw write written) where
  -- All bytes taken so far: those written, then those in the buffer.
  abbrev pub stream : StdoutSink W → List ℕ
  stream s = written s.out ++ s.buf

  Writes : W → List ℕ → ℕ → W × Option ℕ → Type 0
  Writes w rest total r = (r.1 ≡ none) ⊎ ((r.1 ≡ some total) × (written r.0 ≡ written w ++ rest))

  write_loop_lem :
      (fuel : ℕ) (w : W) (buf : List ℕ) (nwritten : ℕ)
      → nwritten ≤ length buf
      → length buf < nwritten + fuel
      → Returns (Writes w (drop nwritten buf) (length buf)) (write_loop write fuel w buf nwritten)
  unfolding write_loop Writes
  write_loop_lem zero w buf nwritten h f = absurd (omega arith)
  write_loop_lem (suc fuel) w buf nwritten h f =
      let rest = drop nwritten buf in
      let w' = (write w rest).0 in
      elim (Bool-cases (ltb nwritten (length buf))) [
        | inr done_ ↦
            let e : nwritten ≡ length buf = ground arith in
            rw done_ (
              inr (
                ap some e,
                rw (drop_all nwritten buf (omega arith)) (sym (append-nil (written w))),
              ))
        | inl more ↦ rw more (
            after_write_cases (Writes w rest (length buf)) w' (write w rest).1 _ (inl refl) (λ n e.
              let left = length-drop nwritten buf in
              let some_left : 0 < length rest = ground (arith, left) in
              let few = law.write_le w rest n e in
              let any_ = law.write_some w rest n e some_left in
              Returns-map (Writes w' (drop (nwritten + n) buf) (length buf))
                (Writes w rest (length buf)) _
                (write_loop_lem fuel w' buf (nwritten + n) (omega arith) (omega arith))
                (λ r h'. elim h' [
                  | inl failed ↦ inl failed
                  | inr (all_, e') ↦ inr (
                    all_,
                    e'
                        ∙ ap (λ xs. xs ++ drop (nwritten + n) buf) (law.write_log w rest n e)
                        ∙ append_assoc (written w) (take n rest) (drop (nwritten + n) buf)
                        ∙ ap (λ xs. written w ++ (take n rest ++ xs))
                            (sym (drop-drop nwritten n buf))
                        ∙ ap (λ xs. written w ++ xs) (take-append-drop n rest),
                  )
                ])))
      ]

  Flushed : StdoutSink W → StdoutSink W × Bool → Type 0
  Flushed s r = r.1 ≡ true → (written r.0.out ≡ stream s) × (r.0.buf ≡ [])

  flush_lem : (s : StdoutSink W) → Returns (Flushed s) (flush write s)
  unfolding flush Flushed Writes
  flush_lem s =
      Returns-bind (Writes s.out s.buf (length s.buf)) (Flushed s) _ _
        (write_loop_lem (suc (length s.buf)) s.out s.buf 0 (omega arith) (omega arith))
        (λ (out, result) h. elim h [
          | inl failed ↦ rw failed (λ e. absurd cc)
          | inr (all_, e) ↦ rw all_ (rw (eq→== (length s.buf) (length s.buf) refl) (λ _. (e, refl)))
        ])

  Takes : StdoutSink W → List ℕ → StdoutSink W × Bool → Type 0
  Takes s packet r = r.1 ≡ true → (stream r.0 ≡ stream s ++ packet) × (length r.0.buf < buffer_size)

  -- From a buffer that is not full, a packet of 188 bytes fails no assertion, and the call ends. If
  -- it returns true, the bytes written followed by those in the buffer are the ones before with the
  -- packet at their end, and the buffer is not full.
  pub handle_packet_output :
      (s : StdoutSink W) (packet : List ℕ)
      → length s.buf < buffer_size
      → length packet ≡ pkt_size
      → Returns
          (λ r. r.1 ≡ true → (stream r.0 ≡ stream s ++ packet) × (length r.0.buf < buffer_size))
          (handle_packet write s packet)
  unfolding handle_packet fill_and_flush Flushed
  handle_packet_output s packet h whole =
      elim (Bool-cases (ltb (length s.buf + pkt_size) buffer_size)) [
        | inl fits ↦ rw fits (λ _. (
          sym (append_assoc (written s.out) s.buf packet),
          ground (arith, length-append s.buf packet),
        ))
        | inr full ↦
            let remaining = buffer_size - length s.buf in
            let filled = s.buf ++ take remaining packet in
            let exact : length filled ≡ buffer_size =
              ground (
                arith,
                length-append s.buf (take remaining packet),
                length-take remaining packet,
              ) in
            rw full (
              rw (eq→== (length filled) buffer_size exact) (
                Returns-bind (Flushed (record s { buf = filled })) _ _ _
                  (flush_lem (record s { buf = filled }))
                  (λ (s', ok) g. elim (Bool-cases ok) [
                    | inr failed ↦ rw failed (λ e. absurd cc)
                    | inl went ↦
                        let (out_, empty) = g went in
                        let joined : (rest : List ℕ)
                            → take remaining packet ++ rest ≡ packet
                            → written s'.out ++ rest ≡ stream s ++ packet =
                          λ rest e.
                            ap (λ xs. xs ++ rest) out_
                            ∙ assoc4 (written s.out) s.buf (take remaining packet) rest
                            ∙ ap (λ xs. stream s ++ xs) e in
                        rw went (elim (Bool-cases (ltb remaining pkt_size)) [
                          | inl part ↦ rw part (
                              simp empty (λ _. (
                                joined (drop remaining packet) (take-append-drop remaining packet),
                                ground (arith, length-drop remaining packet),
                              )))
                          | inr whole_ ↦ rw whole_ (λ _. (
                            ap (λ xs. written s'.out ++ xs) empty
                                ∙ joined []
                                    (append-nil _ ∙ take_all remaining packet (ground arith)),
                            rw empty (omega arith),
                          ))
                        ])
                  ])))
      ]
