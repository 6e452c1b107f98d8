-- ===== src/RingFile/Safety.antt =====
-- `HandlePacket` of `RingFileSink`: no assertion fails, and where the position and the packet's
-- bytes go.
use native.Mathlib.Nat.{mul-mod_left}
use mirakc_arib.Prelude.{
  ℕ, zero, suc, ◌+◌, ◌-◌, ◌*◌, ◌%◌, ◌^◌, ◌≤◌, ◌<◌, ◌≡◌, refl, ◌⊎◌, inl, inr, Bool, true, false,
  Option, none, some, List, ℤ, pos, negsuc, length, take, drop, length-take, ltb, leb, ◌==◌,
  if◌then◌else◌, Returns, Returns-bind, Returns-map, Bool-cases, lt→ltb, le→leb, eq→==, arith,
}
use mirakc_arib.RingFile.{
  buffer_size, pkt_size, RingFileSink, File, after_write, write_all, after_write_all, flush,
  need_flush, flush_if_needed, fill_loop, handle_packet, is_at, create, set_position,
  max_chunk_size, max_num_chunks,
}
use mirakc_arib.RingFile.Layout.{
  Layout, IsValid, room, Fills, Closes, next_chunk, fill_buffer_lem, end_buffer_lem,
}

-- What the sink relies on of `File::Write`: it takes no more bytes than it is given.
pub record WriteLaw {F : Type 0} (fs : File F) : Type 0 where
  pub write_le : (f : F) (bytes : List ℕ) (n : ℕ) → (fs.write f bytes).1 ≡ pos n → n ≤ length bytes

pub after_write_cases :
    {F : Type 0} (P : F × Option ℕ → Type 0) (f : F) (z : ℤ) (advance : ℕ → F × Option ℕ)
    → P (f, none)
    → ((n : ℕ) → z ≡ pos (suc n) → P (advance (suc n)))
    → P (after_write f z advance)
unfolding after_write
after_write_cases P f (pos zero) advance failed went_on = failed
after_write_cases P f (pos (suc n)) advance failed went_on = went_on n refl
after_write_cases P f (negsuc n) advance failed went_on = failed

-- The position `d` bytes further round a ring of `size` bytes.
abbrev pub turn : ℕ → ℕ → ℕ → ℕ
turn p d size = if leb size (p + d) then p + d - size else p + d

ring_big :
    {F O : Type 0} (n k : ℕ) (s : RingFileSink F O) → Layout n k s → buffer_size ≤ s.ring_size
ring_big n k s v = omega (arith, room k n s.chunk_size v.in_ring)

ring_fits :
    {F O : Type 0} (n k : ℕ) (s : RingFileSink F O) → Layout n k s → s.ring_pos ≤ s.ring_size
ring_fits n k s v = omega (arith, room k n s.chunk_size v.in_ring)

-- Going on by `d` bytes to `reached`, which is not past the end of the ring, and to 0 at the end.
turn_step :
    (p nwritten d size reached final : ℕ)
    → p < size
    → nwritten + d < size
    → reached ≡ turn p nwritten size + d
    → reached ≤ size
    → final ≡ (if reached == size then 0 else reached)
    → final ≡ turn p (nwritten + d) size
turn_step p nwritten d size reached final h k e fits last = ground arith

module _ {F O : Type 0} (fs : File F) (on_end_of_chunk : O → ℕ → O) (law : WriteLaw fs) where
  abbrev IsWhole : F × Option ℕ → Type 0
  IsWhole r = (r.1 ≡ none) ⊎ (r.1 ≡ some buffer_size)

  write_all_count :
      (fuel : ℕ) (f : F) (buf : List ℕ) (nwritten : ℕ)
      → nwritten ≤ buffer_size
      → IsWhole (write_all fs on_end_of_chunk fuel f buf nwritten)
  unfolding write_all
  write_all_count zero f buf nwritten h = inl refl
  write_all_count (suc fuel) f buf nwritten h = elim (Bool-cases (ltb nwritten buffer_size)) [
    | inr done ↦ rw done (inr (ground arith))
    | inl more ↦ rw more (
        after_write_cases IsWhole _ _ _ (inl refl) λ n e.
          write_all_count fuel _ buf (nwritten + suc n) (
            ground (
              arith,
              law.write_le f (take (buffer_size - nwritten) (drop nwritten buf)) (suc n),
              length-take (buffer_size - nwritten) (drop nwritten buf),
            )))
  ]

  after_write_all_lem :
      (n k : ℕ) (s : RingFileSink F O) (written : Option ℕ)
      → Layout n k s
      → s.buf_pos ≡ buffer_size
      → (written ≡ none) ⊎ (written ≡ some buffer_size)
      → Returns
          (Closes fs on_end_of_chunk n (next_chunk n k s) s)
          (after_write_all fs on_end_of_chunk s written)
  unfolding after_write_all
  after_write_all_lem n k s none v full w = (refl, refl, λ e. cc)
  after_write_all_lem n k s (some m) v full (inl e) = cc
  after_write_all_lem n k s (some m) v full (inr e) =
      let count : m ≡ buffer_size = cc in rw count (end_buffer_lem fs on_end_of_chunk n k s v full)

  flush_lem :
      (n k : ℕ) (s : RingFileSink F O)
      → Layout n k s
      → (s.buf_pos == buffer_size) ≡ true
      → Returns (Closes fs on_end_of_chunk n (next_chunk n k s) s) (flush fs on_end_of_chunk s)
  unfolding flush next_chunk
  flush_lem n k s v full =
      let r = write_all fs on_end_of_chunk (suc buffer_size) s.file s.buf 0 in
      rw full (
        after_write_all_lem n k (record s { file = r.0 }) r.1 (ground arith) (ground arith)
          (write_all_count (suc buffer_size) s.file s.buf 0 (omega arith)))

  -- The sizes stay; if nothing failed, the buffer has room and the position goes on, or back to 0.
  abbrev Advances : ℕ → ℕ → RingFileSink F O → RingFileSink F O × Bool → Type 0
  Advances n position s r =
      (r.0.ring_size ≡ s.ring_size)
      × (r.0.chunk_size ≡ s.chunk_size)
      × (r.1 ≡ true
          → IsValid n r.0 × (r.0.ring_pos ≡ (if position == s.ring_size then 0 else position)))

  flush_if_needed_lem :
      (n k : ℕ) (s : RingFileSink F O)
      → Layout n k s
      → Returns (Advances n s.ring_pos s) (flush_if_needed fs on_end_of_chunk s)
  unfolding flush_if_needed need_flush
  flush_if_needed_lem n k s v = elim (Bool-cases (s.buf_pos == buffer_size)) [
    | inl full ↦ rw full (
        Returns-map (Closes fs on_end_of_chunk n (next_chunk n k s) s) (Advances n s.ring_pos s) _
          (flush_lem n k s v full)
          λ r c.
            (c.0, c.1, λ ok. ((next_chunk n k s, (c.2 ok).0, ground (arith, c.2 ok)), (c.2 ok).2)))
    | inr space ↦
        rw space (
          refl,
          refl,
          λ ok. ((k, v, ground arith), ground (arith, room k n s.chunk_size v.in_ring)),
        )
  ]

  -- What a packet does to the ring, seen from the position `p` at which it started.
  abbrev pub Accepts : ℕ → ℕ → RingFileSink F O → RingFileSink F O × Bool → Type 0
  Accepts n p s r =
      (r.0.ring_size ≡ s.ring_size)
      × (r.0.chunk_size ≡ s.chunk_size)
      × (r.1 ≡ true → IsValid n r.0 × (r.0.ring_pos ≡ turn p pkt_size s.ring_size))
      × (r.1 ≡ false → r.0.broken ≡ true)

  fill_loop_lem :
      (fuel n k p nwritten : ℕ) (s : RingFileSink F O) (packet : List ℕ)
      → Layout n k s
      → s.buf_pos < buffer_size
      → nwritten < pkt_size
      → pkt_size < nwritten + fuel
      → p < s.ring_size
      → s.ring_pos ≡ turn p nwritten s.ring_size
      → Returns (Accepts n p s) (fill_loop fs on_end_of_chunk fuel s packet nwritten)
  unfolding fill_loop
  fill_loop_lem zero n k p nwritten s packet v b w f h e = absurd (omega arith)
  fill_loop_lem (suc fuel) n k p nwritten s packet v b w f h e =
      Returns-bind (Fills n k (pkt_size - nwritten) s) (Accepts n p s) _ _
        (fill_buffer_lem n k (pkt_size - nwritten) s (drop nwritten packet) v)
        λ a filled.
          Returns-bind (Advances n a.0.ring_pos a.0) (Accepts n p s) _ _
            (flush_if_needed_lem n k a.0 filled.0)
            λ c moved.
              let big = ring_big n k s v in
              let fits = ring_fits n k a.0 filled.0 in
              elim (Bool-cases c.1) [
                | inr failed ↦ rw failed (ground arith, ground arith, λ ok. cc, λ _. refl)
                | inl went ↦
                    let valid = (moved.2 went).0 in
                    let moves : c.0.ring_pos ≡ turn p (nwritten + a.1) s.ring_size =
                      turn_step p nwritten a.1 s.ring_size a.0.ring_pos _ h (omega arith)
                        (omega arith) (omega arith) (ground (arith, moved.2 went)) in
                    elim (Bool-cases (ltb (nwritten + a.1) pkt_size)) [
                      | inl more ↦
                          rw (went, more)
                            (Returns-map (Accepts n p c.0) (Accepts n p s) _
                              (fill_loop_lem fuel n valid.0 p (nwritten + a.1) c.0 packet valid.1
                                valid.2 (ground arith) (omega arith) (omega arith) (ground arith))
                              λ r t. ground arith)
                      | inr last ↦ rw (went, last) (ground arith)
                    ]
              ]

  pub handle_packet-IsValid :
      (n : ℕ) (s : RingFileSink F O) (packet : List ℕ)
      → IsValid n s
      → Returns (Accepts n s.ring_pos s) (handle_packet fs on_end_of_chunk s packet)
  unfolding handle_packet
  handle_packet-IsValid n s packet (k, v, b) =
      let fits = room k n s.chunk_size v.in_ring in
      fill_loop_lem (suc pkt_size) n k s.ring_pos 0 s packet v b (omega arith) (omega arith)
        (omega arith) (ground arith)

-- For the sizes that its assertions allow, the constructor returns, and makes a valid sink.
pub create-IsValid :
    {F : Type 0} (O : Type 0) (file : F) (chunk_size num_chunks : ℕ)
    → 0 < chunk_size
    → chunk_size ≤ max_chunk_size
    → chunk_size % buffer_size ≡ 0
    → 0 < num_chunks
    → num_chunks ≤ max_num_chunks
    → Returns (IsValid {F = F} {O = O} num_chunks) (create file chunk_size num_chunks)
unfolding create
create-IsValid O file chunk_size num_chunks p q w m l =
    rw (lt→ltb _ _ p, le→leb _ _ q, lt→ltb _ _ m, le→leb _ _ l, eq→== _ _ w)
      (0, ground arith, omega arith)

multiple_whole : (k c : ℕ) → c % buffer_size ≡ 0 → k * c % buffer_size ≡ 0
multiple_whole zero c h = omega arith
multiple_whole (suc k) c h = omega (arith, multiple_whole k c h)

-- From a valid sink, a position that is a chunk boundary inside the ring, below 2^63, is accepted;
-- the sink stays valid, and it stands there if the file could be moved.
pub set_position-IsValid :
    {F O : Type 0} (fs : File F) (on_end_of_chunk : O → ℕ → O) (n chunk : ℕ) (s : RingFileSink F O)
    → IsValid n s
    → chunk < n
    → chunk * s.chunk_size < 2 ^ 63
    → Returns
        (λ r. IsValid n r.0 × (r.1 ≡ true → r.0.ring_pos ≡ chunk * s.chunk_size))
        (set_position fs on_end_of_chunk s (chunk * s.chunk_size))
unfolding set_position
set_position-IsValid fs on_end_of_chunk n chunk s (k, v, b) h small =
    let position = chunk * s.chunk_size in
    let inside = room chunk n s.chunk_size h in
    let aligned : position % buffer_size ≡ 0 = multiple_whole chunk s.chunk_size v.chunk_whole in
    rw
      (
        le→leb position (2 ^ 63 - 1) (omega arith),
        eq→== _ _ aligned,
        lt→ltb position s.ring_size (omega arith),
        eq→== _ _ (mul-mod_left chunk s.chunk_size),
      )
      (elim (Bool-cases (is_at position (fs.seek s.file position).1)) [
        | inl moved ↦ rw moved ((chunk, ground arith, omega arith), λ _. refl)
        | inr stuck ↦ rw stuck ((k, ground arith, b), λ e. cc)
      ])
