-- ===== src/Source/Sync.antt =====
-- What `FileSource` of src/packet_source.hh makes of the bytes of a file.
use mirakc_arib.Prelude.{
  ℕ, zero, suc, ◌+◌, ◌-◌, ◌*◌, ◌≤◌, ◌<◌, ◌≡◌, refl, sym, ap, ◌∙◌, Bool, true, false, not, Option,
  none, some, List, [], ◌++◌, append_assoc, length, get_elem?, get_or, take, drop, length-append,
  length-take, length-drop, take-append-drop, drop-drop, ltb, leb, ◌==◌, Returns, Returns-bind,
  Returns-map, Bool-cases, inl, inr, le→leb, arith,
}
use mirakc_arib.Source.{
  pkt_size, sync_byte, max_drop_bytes, max_resync_bytes, read_chunk_size, buffer_size, FileSource,
  read_loop, fill_buffer, available_bytes, free_bytes, resync, copy_packet, get_next_packet,
}
use mirakc_arib.Source.Resync.{
  ReadLaw, IsValid, get_elem?-eq-get_or, get_elem?-take-drop, InSync, Finds, resync_loop_lem,
  nil_of_length,
}

module _ {F : Type 0} (read : F → ℕ → F × List ℕ) (rest : F → List ℕ)
    (law : ReadLaw read rest) where
  -- The bytes that the source has not handed on.
  abbrev pub stream : FileSource F → List ℕ
  stream s = drop s.pos s.buf ++ rest s.file

  abbrev pub Filled : ℕ → FileSource F → FileSource F × Bool → Type 0
  Filled min_bytes s r =
      (stream r.0 ≡ stream s) × (r.1 ≡ true → IsValid r.0 × (r.0.pos + min_bytes ≤ length r.0.buf))

  read_loop_lem :
      (fuel min_bytes : ℕ) (s : FileSource F)
      → s.eof ≡ false
      → s.pos ≡ 0
      → length s.buf < min_bytes
      → min_bytes ≤ max_resync_bytes
      → min_bytes < length s.buf + fuel
      → Returns (Filled min_bytes s) (read_loop read fuel s min_bytes)
  unfolding read_loop free_bytes
  read_loop_lem zero min_bytes s o p l m f = absurd (omega arith)
  read_loop_lem (suc fuel) min_bytes s o p l m f =
      let (f', bytes) = read s.file read_chunk_size in
      let t = record s { file = f'; buf = s.buf ++ bytes } in
      let size = length-append s.buf bytes in
      let same : stream t ≡ stream s = rw p (
        append_assoc s.buf bytes (rest f')
        ∙ ap (◌++◌ s.buf) (sym (law.read_rest s.file read_chunk_size))) in
      rw (le→leb read_chunk_size (buffer_size - length s.buf) (omega arith))
        (elim (Bool-cases (length bytes == 0)) [
          | inl none_read ↦
              let nothing : rest s.file ≡ rest f' =
                law.read_rest s.file read_chunk_size
                ∙ ap (λ xs. xs ++ rest f') (nil_of_length none_read) in
              rw none_read (ap (◌++◌ (drop s.pos s.buf)) (sym nothing), λ ok. cc)
          | inr some_read ↦ rw some_read (elim (Bool-cases (ltb (length t.buf) min_bytes)) [
            | inl less ↦ rw less (
                Returns-map (Filled min_bytes t) (Filled min_bytes s) _
                  (read_loop_lem fuel min_bytes t o p (ground arith) m (ground arith))
                  λ r h. (h.0 ∙ same, h.1))
            | inr enough ↦ rw enough (
              same,
              λ _. (
                record {
                  open_ = o;
                  in_buffer = omega arith;
                  fits = omega (arith, law.read_le s.file read_chunk_size);
                },
                ground arith,
              ),
            )
          ])
        ])

  pub fill_buffer_lem :
      (min_bytes : ℕ) (s : FileSource F)
      → IsValid s
      → min_bytes ≤ max_resync_bytes
      → 0 < min_bytes
      → Returns (Filled min_bytes s) (fill_buffer read s min_bytes)
  unfolding fill_buffer available_bytes
  fill_buffer_lem min_bytes s v m z =
      rw
        (
          le→leb min_bytes max_resync_bytes m,
          ap not v.open_,
          le→leb s.pos (length s.buf) v.in_buffer,
          le→leb (length s.buf) buffer_size v.fits,
        )
        (elim (Bool-cases (leb min_bytes (length s.buf - s.pos))) [
          | inl enough ↦ rw enough (refl, λ _. (v, ground arith))
          | inr short ↦ rw short (
              read_loop_lem (suc min_bytes) min_bytes (record s { buf = drop s.pos s.buf; pos = 0 })
                v.open_ refl (ground (arith, length-drop s.pos s.buf)) m (omega arith))
        ])

  -- What `Resync` leaves: at most `max_drop_bytes` bytes are dropped, and where it succeeds fewer.
  abbrev pub Resynced : FileSource F → FileSource F × Bool → Type 0
  Resynced s r =
      (dropped : List ℕ) × (stream s ≡ dropped ++ stream r.0)
      × (length dropped ≤ max_drop_bytes)
      × (r.1 ≡ true
          → (length dropped < max_drop_bytes)
            × IsValid r.0
            × (r.0.pos + 3 * pkt_size < length r.0.buf)
            × InSync r.0.buf r.0.pos)

  -- Moving the position forward drops the bytes between.
  pub stream_move :
      (s : FileSource F) (n d : ℕ)
      → n ≡ s.pos + d
      → stream s ≡ take d (drop s.pos s.buf) ++ stream (record s { pos = n })
  stream_move s n d e =
      let xs = drop s.pos s.buf in
      sym (
        rw (e, ← drop-drop s.pos d s.buf)
          (sym (append_assoc (take d xs) (drop d xs) (rest s.file))
            ∙ ap (λ ys. ys ++ rest s.file) (take-append-drop d xs)))

  resync_lem : (s : FileSource F) → IsValid s → Returns (Resynced s) (resync read s)
  unfolding resync
  resync_lem s v =
      Returns-bind (Filled max_resync_bytes s) (Resynced s) _ _
        (fill_buffer_lem max_resync_bytes s v (omega arith) (omega arith))
        λ a filled. elim (Bool-cases a.1) [
          | inr short ↦ rw short ([], sym filled.0, omega arith, λ e. cc)
          | inl enough ↦
              let (valid, room) = filled.1 enough in
              rw enough (
                Returns-bind (Finds max_drop_bytes a.0.buf a.0.pos) (Resynced s) _ _
                  (resync_loop_lem max_drop_bytes a.0.buf a.0.pos (omega arith))
                  λ r found.
                    let d = r.0 - a.0.pos in
                    let dropped = take d (drop a.0.pos a.0.buf) in
                    let size = length-take d (drop a.0.pos a.0.buf) in
                    (
                      dropped,
                      sym filled.0 ∙ stream_move a.0 r.0 d (omega arith),
                      omega arith,
                      λ ok. (
                        omega (arith, (found.2 ok).0),
                        record { open_ = valid.open_; in_buffer = omega arith; fits = valid.fits },
                        omega (arith, (found.2 ok).0),
                        (found.2 ok).1,
                      ),
                    ))
        ]

  -- What `GetNextPacket` gives.
  abbrev pub Delivers : FileSource F → FileSource F × Option (List ℕ) → Type 0
  Delivers s (t, none) = (dropped : List ℕ) × (stream s ≡ dropped ++ stream t)
  Delivers s (t, some packet) =
      (dropped : List ℕ) × (stream s ≡ dropped ++ packet ++ stream t)
      × (length dropped < max_drop_bytes)
      × (length packet ≡ pkt_size)
      × (get_elem? packet 0 ≡ some sync_byte)
      × IsValid t

  abbrev pub Copies : FileSource F → FileSource F × Option (List ℕ) → Type 0
  Copies s (t, none) = ⊥
  Copies s (t, some packet) =
      (stream s ≡ packet ++ stream t)
      × (length packet ≡ pkt_size)
      × (get_elem? packet 0 ≡ some sync_byte)
      × IsValid t

  pub copy_packet_lem :
      (s : FileSource F)
      → IsValid s
      → s.pos + pkt_size ≤ length s.buf
      → get_elem? s.buf s.pos ≡ some sync_byte
      → Returns (Copies s) (copy_packet s)
  unfolding copy_packet
  copy_packet_lem s v room here =
      let xs = drop s.pos s.buf in
      let size : length (take pkt_size xs) ≡ pkt_size =
        omega (arith, length-take pkt_size xs, length-drop s.pos s.buf) in
      let head : get_elem? (take pkt_size xs) 0 ≡ some sync_byte =
        get_elem?-take-drop s.buf s.pos ∙ here in
      rw (here, le→leb (s.pos + pkt_size) (length s.buf) room)
        (
          stream_move s (s.pos + pkt_size) pkt_size refl,
          size,
          head,
          record { open_ = v.open_; in_buffer = room; fits = v.fits },
        )

  Copies-Delivers :
      (s u : FileSource F) (dropped : List ℕ)
      → stream s ≡ dropped ++ stream u
      → length dropped < max_drop_bytes
      → (r : FileSource F × Option (List ℕ)) → Copies u r
      → Delivers s r
  Copies-Delivers s u dropped e h (t, none) c = absurd c
  Copies-Delivers s u dropped e h (t, some packet) c = (
    dropped,
    e ∙ ap (◌++◌ dropped) c.0 ∙ sym (append_assoc dropped packet (stream t)),
    h,
    c.1,
    c.2,
    c.3,
  )

  -- From a valid source `GetNextPacket` fails no assertion, reads nothing outside the buffer and
  -- ends. A packet that it gives has 188 bytes and starts with the sync byte; with the dropped
  -- bytes, fewer than two packets, before it and what is still to come after it, it makes up the
  -- bytes that were to come, and the source is valid again. Without a packet, bytes were at most
  -- dropped from the front.
  pub get_next_packet_stream :
      (s : FileSource F) → IsValid s → Returns (Delivers s) (get_next_packet read s)
  unfolding get_next_packet
  get_next_packet_stream s v =
      Returns-bind (Filled pkt_size s) (Delivers s) _ _
        (fill_buffer_lem pkt_size s v (omega arith) (omega arith))
        λ a filled. elim (Bool-cases a.1) [
          | inr short ↦ rw short ([], sym filled.0)
          | inl enough ↦
              let (valid, room) = filled.1 enough in
              rw (enough, get_elem?-eq-get_or a.0.buf a.0.pos (omega arith))
                (elim (Bool-cases (get_or a.0.buf a.0.pos 0 == sync_byte)) [
                  | inl hit ↦ rw hit (
                      Returns-map (Copies a.0) (Delivers s) _
                        (copy_packet_lem a.0 valid room (
                          get_elem?-eq-get_or a.0.buf a.0.pos (omega arith)
                          ∙ ap some (ground arith)))
                        (Copies-Delivers s a.0 [] (sym filled.0) (omega arith)))
                  | inr miss ↦ rw miss (
                      Returns-bind (Resynced a.0) (Delivers s) _ _ (resync_lem a.0 valid) λ b moved.
                        let e = sym filled.0 ∙ moved.1 in
                        elim (Bool-cases b.1) [
                          | inr lost ↦ rw lost (moved.0, e)
                          | inl found ↦
                              let (few, valid', room', sync) = moved.3 found in
                              rw found (
                                Returns-map (Copies b.0) (Delivers s) _
                                  (copy_packet_lem b.0 valid' (omega arith) sync.0)
                                  (Copies-Delivers s b.0 moved.0 e few))
                        ])
                ])
        ]
