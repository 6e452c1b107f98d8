-- ===== src/Source/Clean.antt =====
-- `FeedPackets` of src/packet_source.hh over a file that is nothing but packets.
use mirakc_arib.Prelude.{
  ℕ, zero, suc, ◌-◌, ◌≤◌, ◌<◌, ◌≡◌, refl, sym, ap, ◌∙◌, Bool, true, not, Option, none, some, List,
  [], ◌∷◌, ◌++◌, append_assoc, append-nil, length, get_elem?, take, drop, length-append,
  length-take, length-drop, take-append-drop, ltb, leb, All, Returns, Returns-bind, Returns-map,
  Returns-both, Ensures, Ensures-assert, ne→==, Bool-cases, inl, inr, arith,
}
use mirakc_arib.Sink.{PacketSink, AcceptLaw}
use mirakc_arib.Source.{
  pkt_size, sync_byte, read_chunk_size, max_resync_bytes, buffer_size, FileSource, read_loop,
  fill_buffer, available_bytes, free_bytes, get_next_packet, feed_loop, feed_packets,
}
use mirakc_arib.Source.Resync.{ReadLaw, IsValid, get_elem?-take-drop}
use mirakc_arib.Source.Sync.{
  stream, Filled, Copies, Delivers, fill_buffer_lem, copy_packet_lem, get_next_packet_stream,
}
use mirakc_arib.Source.Feed.{IsPacket}

-- A file whose reads do not fail: as long as bytes are to come, at least one is read.
pub record EagerLaw {F : Type 0} (read : F → ℕ → F × List ℕ) (rest : F → List ℕ) : Type 0 where
  pub read_some : (f : F) (n : ℕ) → 0 < n → 0 < length (rest f) → 0 < length (read f n).1

-- Two ways to cut a list after the same number of elements are one.
same_cut :
    (front front' back back' : List ℕ)
    → length front ≡ length front'
    → front ++ back ≡ front' ++ back'
    → (front ≡ front') × (back ≡ back')
same_cut [] [] back back' h e = (refl, e)
same_cut [] (b ∷ front') back back' h e = absurd (omega arith)
same_cut (a ∷ front) [] back back' h e = absurd (omega arith)
same_cut (a ∷ front) (b ∷ front') back back' h e =
    let (same, rest) = same_cut front front' back back' (omega arith) (ap (drop 1) e) in
    let first : some a ≡ some b = ap (λ xs. get_elem? xs 0) e in (cc, rest)

abbrev pub joined : List (List ℕ) → List ℕ
joined [] = []
joined (p ∷ ps) = p ++ joined ps

module _ {F : Type 0} (read : F → ℕ → F × List ℕ) (rest : F → List ℕ) (law : ReadLaw read rest)
    (eager : EagerLaw read rest) where
  abbrev pub Succeeds : FileSource F × Bool → Type 0
  Succeeds r = r.1 ≡ true

  read_loop_enough :
      (fuel min_bytes : ℕ) (s : FileSource F)
      → s.pos ≡ 0
      → length s.buf < min_bytes
      → min_bytes ≤ length (stream read rest law s)
      → Ensures Succeeds (read_loop read fuel s min_bytes)
  unfolding read_loop free_bytes
  read_loop_enough zero min_bytes s p l m = tt
  read_loop_enough (suc fuel) min_bytes s p l m =
      let (f', bytes) = read s.file read_chunk_size in
      let t : FileSource F = record s { file = f'; buf = s.buf ++ bytes } in
      let same : stream read rest law t ≡ stream read rest law s = rw p (
        append_assoc s.buf bytes (rest f')
        ∙ ap (◌++◌ s.buf) (sym (law.read_rest s.file read_chunk_size))) in
      let whole : stream read rest law s ≡ s.buf ++ rest s.file = rw p refl in
      let more =
        eager.read_some s.file read_chunk_size (omega arith)
          (omega (arith, ap length whole, length-append s.buf (rest s.file))) in
      Ensures-assert Succeeds (leb read_chunk_size (free_bytes s)) _ (
        rw (ne→== (length bytes) 0 (λ e. omega arith))
          (elim (Bool-cases (ltb (length t.buf) min_bytes)) [
            | inl less ↦
                rw less (
                  read_loop_enough fuel min_bytes t p (ground arith)
                    (omega (arith, ap length same)))
            | inr enough ↦ rw enough refl
          ]))

  pub fill_buffer_enough :
      (min_bytes : ℕ) (s : FileSource F)
      → min_bytes ≤ length (stream read rest law s)
      → Ensures Succeeds (fill_buffer read s min_bytes)
  unfolding fill_buffer available_bytes
  fill_buffer_enough min_bytes s m = Ensures-assert Succeeds (leb min_bytes max_resync_bytes) _ (
      Ensures-assert Succeeds (not s.eof) _ (
        Ensures-assert Succeeds (leb s.pos (length s.buf)) _ (
          Ensures-assert Succeeds (leb (length s.buf) buffer_size) _
            (elim (Bool-cases (leb min_bytes (length s.buf - s.pos))) [
              | inl enough ↦ rw enough refl
              | inr short ↦ rw short (
                  read_loop_enough (suc min_bytes) min_bytes
                    (record s { buf = drop s.pos s.buf; pos = 0 }) refl
                    (ground (arith, length-drop s.pos s.buf)) m)
            ]))))

  -- A packet at the front of what is to come is handed on as it is.
  next_packet :
      (s : FileSource F) (packet more : List ℕ)
      → IsValid s
      → IsPacket packet
      → stream read rest law s ≡ packet ++ more
      → Returns
          (λ r. (r.1 ≡ some packet) × (stream read rest law r.0 ≡ more) × IsValid r.0)
          (get_next_packet read s)
  unfolding get_next_packet
  next_packet s packet more v p e =
      Returns-bind (λ a. Filled read rest law pkt_size s a × (a.1 ≡ true)) _ _ _
        (Returns-both (Filled read rest law pkt_size s) (λ a. a.1 ≡ true) _
          (fill_buffer_lem read rest law pkt_size s v (omega arith) (omega arith))
          (fill_buffer_enough pkt_size s (omega (arith, ap length e, length-append packet more))))
        λ a (filled, enough).
          let (valid, room) = filled.1 enough in
          let xs = drop a.0.pos a.0.buf in
          let size : length (take pkt_size xs) ≡ pkt_size =
            omega (arith, length-take pkt_size xs, length-drop a.0.pos a.0.buf) in
          let cut : take pkt_size xs ++ (drop pkt_size xs ++ rest a.0.file) ≡ packet ++ more =
            sym (append_assoc (take pkt_size xs) (drop pkt_size xs) (rest a.0.file))
            ∙ ap (λ ys. ys ++ rest a.0.file) (take-append-drop pkt_size xs)
            ∙ filled.0
            ∙ e in
          let front = (same_cut _ _ _ _ (size ∙ sym p.0) cut).0 in
          let here : get_elem? a.0.buf a.0.pos ≡ some sync_byte =
            sym (get_elem?-take-drop a.0.buf a.0.pos) ∙ ap (λ ys. get_elem? ys 0) front ∙ p.1 in
          rw (enough, here)
            (Returns-map (Copies read rest law a.0) _ _
              (copy_packet_lem read rest law a.0 valid room here) (copied a.0 (filled.0 ∙ e) p.0))
    where
      copied :
          (u : FileSource F)
          → stream read rest law u ≡ packet ++ more
          → length packet ≡ pkt_size
          → (r : FileSource F × Option (List ℕ)) → Copies read rest law u r
          → (r.1 ≡ some packet) × (stream read rest law r.0 ≡ more) × IsValid r.0
      copied u e' size (t, none) c = absurd c
      copied u e' size (t, some packet') (e'', size', first, valid) =
          let (same, left) =
            same_cut packet' packet (stream read rest law t) more (size' ∙ sym size)
              (sym e'' ∙ e') in
          (ap some same, left, valid)

  no_packet :
      (s : FileSource F)
      → IsValid s
      → stream read rest law s ≡ []
      → Returns (λ r. r.1 ≡ none) (get_next_packet read s)
  no_packet s v e =
      Returns-map (Delivers read rest law s) _ _ (get_next_packet_stream read rest law s v)
        λ r d. np r d
    where
      np : (r : FileSource F × Option (List ℕ)) → Delivers read rest law s r → r.1 ≡ none
      np (t, none) d = refl
      np (t, some packet) (dropped, cut, few, size, _, _) = absurd (
          omega (
            arith,
            ap length (sym e ∙ cut),
            length-append (dropped ++ packet) (stream read rest law t),
            length-append dropped packet,
          ))

  module _ {S : Type 0} (sink : PacketSink S (List ℕ)) (got : S → List (List ℕ))
      (accepting : AcceptLaw sink got) where
    feed_loop_whole :
        (fuel : ℕ) (s : FileSource F) (t : S) (packets : List (List ℕ))
        → IsValid s
        → All IsPacket packets
        → stream read rest law s ≡ joined packets
        → length packets < fuel
        → Returns (λ fed. got fed ≡ got t ++ packets) (feed_loop read sink fuel s t)
    unfolding feed_loop
    feed_loop_whole zero s t packets v each e f = absurd (omega arith)
    feed_loop_whole (suc fuel) s t [] v each e f =
        Returns-bind (λ r. r.1 ≡ none) _ _ _ (no_packet s v e)
          λ r nothing. rw nothing (sym (append-nil (got t)))
    feed_loop_whole (suc fuel) s t (p ∷ packets) v each e f =
        Returns-bind
          (λ r. (r.1 ≡ some p) × (stream read rest law r.0 ≡ joined packets) × IsValid r.0) _ _ _
          (next_packet s p (joined packets) v each.0 e)
          λ r (given, left, valid).
            rw (given, accepting.accepts t p)
              (Returns-map (λ fed. got fed ≡ got (sink.handle_packet t p).0 ++ packets)
                (λ fed. got fed ≡ got t ++ p ∷ packets)
                (feed_loop read sink fuel r.0 (sink.handle_packet t p).0)
                (feed_loop_whole fuel r.0 (sink.handle_packet t p).0 packets valid each.1 left
                  (omega arith))
                λ fed all_got.
                  (all_got
                    ∙ ap (λ ps. ps ++ packets) (accepting.records t p)
                    ∙ append_assoc (got t) (p ∷ []) packets))

    -- From a valid source whose bytes to come are packets of 188 bytes with the sync byte in front,
    -- over a file that is read without a failure until it ends, and to a sink that starts and
    -- accepts every packet, `FeedPackets` hands on exactly these packets, in order, before it ends
    -- the sink. The fuel is above the number of packets.
    pub feed_packets_whole :
        (fuel : ℕ) (s : FileSource F) (t : S) (packets : List (List ℕ))
        → IsValid s
        → All IsPacket packets
        → stream read rest law s ≡ joined packets
        → length packets < fuel
        → (sink.start t).1 ≡ true
        → Returns
            (λ r.
              (fed : S) × (got fed ≡ got (sink.start t).0 ++ packets)
              × (r.0 ≡ sink.end_ fed)
              × (r.1 ≡ sink.exit_code r.0))
            (feed_packets read sink fuel s t)
    unfolding feed_packets
    feed_packets_whole fuel s t packets v each e f started = rw started (
        Returns-bind (λ fed. got fed ≡ got (sink.start t).0 ++ packets) _ _ _
          (feed_loop_whole fuel s (sink.start t).0 packets v each e f)
          λ fed all_got. (fed, all_got, refl, refl))
