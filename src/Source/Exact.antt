-- ===== src/Source/Exact.antt =====
-- Which packet `GetNextPacket` of src/packet_source.hh gives, over a file whose reads do not fail.
use mirakc_arib.Prelude.{
  ℕ, zero, suc, ◌+◌, ◌-◌, ◌*◌, ◌≤◌, ◌<◌, ◌≡◌, refl, sym, ap, ◌∙◌, Bool, true, false, Option, none,
  some, List, [], ◌∷◌, ◌++◌, ◌⊎◌, length, get_elem?, get_or, take, drop, length-append, length-take,
  length-drop, drop-drop, take_head, drop_head, leb, ◌==◌, ==_iff, Returns, Returns-bind,
  Returns-map, Returns-both, if◌then◌else◌, Bool-cases, inl, inr, arith,
}
use mirakc_arib.Source.{
  pkt_size, sync_byte, max_drop_bytes, max_resync_bytes, FileSource, fill_buffer, resync,
  copy_packet, get_next_packet,
}
use mirakc_arib.Source.Resync.{
  ReadLaw, IsValid, get_elem?-eq-get_or, InSync, Finds, resync_loop_lem, some_injective,
}
use mirakc_arib.Source.Sync.{stream, Filled, Copies, fill_buffer_lem, stream_move, copy_packet_lem}
use mirakc_arib.Source.Clean.{EagerLaw, Succeeds, fill_buffer_enough}

get_elem?-append :
    (xs ys : List ℕ) (i : ℕ) → i < length xs → get_elem? (xs ++ ys) i ≡ get_elem? xs i
get_elem?-append [] ys i h = absurd (omega arith)
get_elem?-append (x ∷ xs) ys zero h = refl
get_elem?-append (x ∷ xs) ys (suc i) h = get_elem?-append xs ys i (omega arith)

later : (n i : ℕ) → suc n + i ≡ suc (n + i)
later n i = omega arith

get_elem?-drop-append :
    (n i : ℕ) (xs ys : List ℕ)
    → n + i < length xs
    → get_elem? (drop n xs ++ ys) i ≡ get_elem? xs (n + i)
get_elem?-drop-append zero i xs ys h =
    get_elem?-append xs ys i (omega arith) ∙ ap (get_elem? xs) (omega arith)
get_elem?-drop-append (suc n) i [] ys h = absurd (omega arith)
get_elem?-drop-append (suc n) i (x ∷ xs) ys h =
    get_elem?-drop-append n i xs ys (omega arith) ∙ sym (ap (get_elem? (x ∷ xs)) (later n i))

abbrev pub StartsInSync : List ℕ → Type 0
StartsInSync xs = get_elem? xs 0 ≡ some sync_byte

-- Enough bytes are left for a search, and this is the first position within two packets at which they
-- are in sync.
abbrev pub IsFirst : List ℕ → ℕ → Type 0
IsFirst xs n =
    (max_resync_bytes ≤ length xs)
    × (n < max_drop_bytes)
    × InSync xs n
    × ((k : ℕ) → k < n → ¬ InSync xs k)

-- Too few bytes are left for a search, or there is no such position.
abbrev pub IsLost : List ℕ → Type 0
IsLost xs = (length xs < max_resync_bytes) ⊎ ((k : ℕ) → k < max_drop_bytes → ¬ InSync xs k)

module _ {F : Type 0} (read : F → ℕ → F × List ℕ) (rest : F → List ℕ) (law : ReadLaw read rest)
    (eager : EagerLaw read rest) where
  abbrev FillsExactly : ℕ → FileSource F → FileSource F × Bool → Type 0
  FillsExactly n s r =
      Filled read rest law n s r × (r.1 ≡ false → length (stream read rest law s) < n)

  fill_buffer_exact :
      (n : ℕ) (s : FileSource F)
      → IsValid s
      → n ≤ max_resync_bytes
      → 0 < n
      → Returns (FillsExactly n s) (fill_buffer read s n)
  fill_buffer_exact n s v m z = elim (Bool-cases (leb n (length (stream read rest law s)))) [
    | inl enough ↦
        Returns-map _ (FillsExactly n s) _
          (Returns-both (Filled read rest law n s) (Succeeds read rest law eager) _
            (fill_buffer_lem read rest law n s v m z)
            (fill_buffer_enough read rest law eager n s (ground arith)))
          λ r (filled, ok). (filled, λ no. absurd cc)
    | inr short ↦
        Returns-map (Filled read rest law n s) (FillsExactly n s) _
          (fill_buffer_lem read rest law n s v m z) λ r filled. (filled, λ _. ground arith)
  ]

  get_elem?-stream :
      (s : FileSource F) (i : ℕ)
      → s.pos + i < length s.buf
      → get_elem? (stream read rest law s) i ≡ get_elem? s.buf (s.pos + i)
  get_elem?-stream s i h = get_elem?-drop-append s.pos i s.buf (rest s.file) h

  -- The bytes to come are in sync where those in the buffer are.
  InSync-stream :
      (s : FileSource F) (k : ℕ)
      → s.pos + k + 3 * pkt_size < length s.buf
      → (InSync (stream read rest law s) k → InSync s.buf (s.pos + k))
        × (InSync s.buf (s.pos + k) → InSync (stream read rest law s) k)
  InSync-stream s k h =
      let xs = stream read rest law s in
      let at0 : get_elem? xs k ≡ get_elem? s.buf (s.pos + k) = get_elem?-stream s k (omega arith) in
      let at1 = at 1 (omega arith) in
      let at2 = at 2 (omega arith) in
      let at3 = at 3 (omega arith) in
      (
        λ (a, b, c, d). (sym at0 ∙ a, sym at1 ∙ b, sym at2 ∙ c, sym at3 ∙ d),
        λ (a, b, c, d). (at0 ∙ a, at1 ∙ b, at2 ∙ c, at3 ∙ d),
      )
    where
      at :
          (j : ℕ)
          → j ≤ 3
          → get_elem? (stream read rest law s) (k + j * pkt_size)
            ≡ get_elem? s.buf (s.pos + k + j * pkt_size)
      at j le =
          get_elem?-stream s (k + j * pkt_size) (omega arith) ∙ ap (get_elem? s.buf) (omega arith)

  -- The position moved on by a number of bytes in the buffer.
  stream-drop :
      (s : FileSource F) (n d : ℕ)
      → n ≡ s.pos + d
      → n ≤ length s.buf
      → stream read rest law (record s { pos = n }) ≡ drop d (stream read rest law s)
  stream-drop s n d e h =
      let front = take d (drop s.pos s.buf) in
      let size : length front ≡ d =
        omega (arith, length-take d (drop s.pos s.buf), length-drop s.pos s.buf) in
      sym (
        ap (drop d) (stream_move read rest law s n d e)
        ∙ drop_head d front (stream read rest law (record s { pos = n })) size)

  -- What a search gives for the bytes that were to come.
  abbrev Searched : List ℕ → FileSource F × Bool → Type 0
  Searched xs r =
      (r.1 ≡ false → IsLost xs)
      × (r.1 ≡ true
          → (n : ℕ) × IsFirst xs n
            × (stream read rest law r.0 ≡ drop n xs)
            × IsValid r.0
            × (r.0.pos + pkt_size ≤ length r.0.buf)
            × (get_elem? r.0.buf r.0.pos ≡ some sync_byte))

  Finds-Searched :
      (s : FileSource F)
      → IsValid s
      → s.pos + max_resync_bytes ≤ length s.buf
      → (r : ℕ × Bool) → Finds max_drop_bytes s.buf s.pos r
      → Searched (stream read rest law s) (record s { pos = r.0 }, r.1)
  Finds-Searched s v room r f =
      let d = r.0 - s.pos in
      let e : r.0 ≡ s.pos + d = omega arith in
      let before : (k : ℕ) → k < d → ¬ InSync (stream read rest law s) k = λ k less sync.
        f.4 (s.pos + k) (omega arith) (omega arith) ((InSync-stream s k (omega arith)).0 sync) in
      (
        λ lost. inr (λ k less. before k (omega (arith, f.3 lost))),
        λ found. (
          d,
          (
            omega (arith, length-append (drop s.pos s.buf) (rest s.file), length-drop s.pos s.buf),
            omega (arith, (f.2 found).0),
            (InSync-stream s d (omega (arith, (f.2 found).0))).1 (rw (← e) (f.2 found).1),
            before,
          ),
          stream-drop s r.0 d e (omega arith),
          record { open_ = v.open_; in_buffer = omega arith; fits = v.fits },
          omega (arith, (f.2 found).0),
          (f.2 found).1.0,
        ),
      )

  resync_exact :
      (s : FileSource F) → IsValid s → Returns (Searched (stream read rest law s)) (resync read s)
  unfolding resync
  resync_exact s v =
      Returns-bind (FillsExactly max_resync_bytes s) (Searched (stream read rest law s)) _ _
        (fill_buffer_exact max_resync_bytes s v (omega arith) (omega arith))
        λ a (filled, few). elim (Bool-cases a.1) [
          | inr short ↦ rw short (λ _. inl (few short), λ e. absurd cc)
          | inl enough ↦
              let (valid, room) = filled.1 enough in
              rw (enough, ← filled.0)
                (Returns-bind (Finds max_drop_bytes a.0.buf a.0.pos)
                  (Searched (stream read rest law a.0)) _ _
                  (resync_loop_lem max_drop_bytes a.0.buf a.0.pos (omega arith))
                  (Finds-Searched a.0 valid room))
        ]

  -- What `GetNextPacket` gives for the bytes that were to come.
  abbrev pub IsNext : List ℕ → FileSource F × Option (List ℕ) → Type 0
  IsNext xs (t, none) = (length xs < pkt_size) ⊎ ((¬ StartsInSync xs) × IsLost xs)
  IsNext xs (t, some packet) =
      (n : ℕ) × (packet ≡ take pkt_size (drop n xs))
      × (stream read rest law t ≡ drop (n + pkt_size) xs)
      × (length packet ≡ pkt_size)
      × IsValid t
      × (((n ≡ 0) × StartsInSync xs) ⊎ ((¬ StartsInSync xs) × IsFirst xs n))

  Copies-IsNext :
      (xs : List ℕ) (n : ℕ) (u : FileSource F)
      → stream read rest law u ≡ drop n xs
      → ((n ≡ 0) × StartsInSync xs) ⊎ ((¬ StartsInSync xs) × IsFirst xs n)
      → (r : FileSource F × Option (List ℕ)) → Copies read rest law u r
      → IsNext xs r
  Copies-IsNext xs n u e which (t, none) c = absurd c
  Copies-IsNext xs n u e which (t, some packet) c =
      let whole = sym e ∙ c.0 in
      (
        n,
        sym (take_head pkt_size packet (stream read rest law t) c.1)
            ∙ ap (take pkt_size) (sym whole),
        sym (
            sym (drop-drop n pkt_size xs)
            ∙ ap (drop pkt_size) whole
            ∙ drop_head pkt_size packet (stream read rest law t) c.1),
        c.1,
        c.3,
        which,
      )

  -- From a valid source over a file whose reads do not fail, `GetNextPacket` fails no assertion,
  -- reads nothing outside the buffer and ends. Where the bytes to come start with the sync byte, the
  -- packet is the first 188 of them. Otherwise, with 940 bytes or more to come, it is the 188 bytes
  -- at the first position, within two packets, from which four sync bytes stand 188 bytes apart. The
  -- bytes behind it are still to come and the source is valid. There is no packet exactly if fewer
  -- than 188 bytes are to come, or they do not start with the sync byte and are fewer than 940 or
  -- have no such position.
  pub get_next_packet_exact :
      (s : FileSource F)
      → IsValid s
      → Returns (IsNext (stream read rest law s)) (get_next_packet read s)
  unfolding get_next_packet
  get_next_packet_exact s v =
      let xs = stream read rest law s in
      Returns-bind (FillsExactly pkt_size s) (IsNext xs) _ _
        (fill_buffer_exact pkt_size s v (omega arith) (omega arith))
        λ a (filled, few). elim (Bool-cases a.1) [
          | inr short ↦ rw short (inl (few short))
          | inl enough ↦
              let (valid, room) = filled.1 enough in
              let here = get_elem?-eq-get_or a.0.buf a.0.pos (omega arith) in
              let same : a.0.pos + 0 ≡ a.0.pos = omega arith in
              let front : get_elem? xs 0 ≡ some (get_or a.0.buf a.0.pos 0) =
                ap (λ ys. get_elem? ys 0) (sym filled.0)
                ∙ get_elem?-stream a.0 0 (omega arith)
                ∙ ap (get_elem? a.0.buf) same
                ∙ here in
              rw (enough, here)
                (elim (Bool-cases (get_or a.0.buf a.0.pos 0 == sync_byte)) [
                  | inl hit ↦
                      let sync = ap some ((==_iff (get_or a.0.buf a.0.pos 0) sync_byte).0 hit) in
                      rw hit (
                        Returns-map (Copies read rest law a.0) (IsNext xs) _
                          (copy_packet_lem read rest law a.0 valid room (here ∙ sync))
                          (Copies-IsNext xs 0 a.0 filled.0 (inl (refl, front ∙ sync))))
                  | inr miss ↦
                      let out : ¬ StartsInSync xs =
                        λ e. let same = some_injective (sym front ∙ e) in ground arith in
                      rw miss (
                        Returns-bind (Searched (stream read rest law a.0)) (IsNext xs) _ _
                          (resync_exact a.0 valid) (after xs out a.0 filled.0))
                ])
        ]
    where
      after :
          (xs : List ℕ)
          → ¬ StartsInSync xs
          → (a : FileSource F) → stream read rest law a ≡ xs
          → (b : FileSource F × Bool) → Searched (stream read rest law a) b
          → Returns (IsNext xs) (if b.1 then copy_packet b.0 else some (b.0, none))
      after xs out a e b searched = elim (Bool-cases b.1) [
        | inr lost ↦ rw lost (inr (out, rw e at (searched.0 lost)))
        | inl found ↦
            let (n, first, left, valid, room, sync) = searched.1 found in
            rw found (
              Returns-map (Copies read rest law b.0) (IsNext xs) _
                (copy_packet_lem read rest law b.0 valid room sync)
                (Copies-IsNext xs n b.0 (left ∙ ap (drop n) e) (inr (out, rw e at first))))
      ]
