-- ===== src/LogoCollector/Chunks.antt =====
-- The images that `LogoCollector` of src/logo_collector.hh writes.
use mirakc_arib.Prelude.{
  ℕ, zero, suc, ◌+◌, ◌-◌, ◌<◌, ◌≡◌, refl, sym, ap, ◌∙◌, Bool, true, not, some, List, [], ◌∷◌, ◌++◌,
  All, select, append-nil, append_assoc, length, length-append, length-take, length-drop, take,
  drop, take_all, drop_all, take_head, drop_head, drop-drop, leb, le→leb, ◌≤◌, lt→ltb, Returns,
  Returns-map, Returns-some, Returns-bind, Bool-cases, inl, inr, arith,
}
use mirakc_arib.Tables.{Packet}
use mirakc_arib.LogoCollector.Palette.{palette_chunks}
use mirakc_arib.LogoCollector.{
  idat_offset, chunks_size, memcpy, make_unique, insert_png_chunks, LogoData, LogoInfo, Engine,
  LogoCollector, make_base64_png, make_json_value, on_logo_downloaded, on_logos, handle_packet,
}

palette_size : length palette_chunks ≡ chunks_size
unfolding palette_chunks
palette_size = refl

abbrev pub Inserted : List ℕ → List ℕ × ℕ → Type 0
Inserted bytes (png, size) =
    (length png ≡ size)
    × (take idat_offset png ≡ take idat_offset bytes)
    × (take chunks_size (drop idat_offset png) ≡ palette_chunks)
    × (drop (idat_offset + chunks_size) png ≡ drop idat_offset bytes)

-- Three parts put together, taken apart.
assembled :
    (a b : ℕ) (head middle rest : List ℕ)
    → length head ≡ a
    → length middle ≡ b
    → let whole = head ++ (middle ++ rest) in
      (length whole ≡ a + b + length rest)
      × (take a whole ≡ head)
      × (take b (drop a whole) ≡ middle)
      × (drop (a + b) whole ≡ rest)
assembled a b head middle rest ea eb =
    let whole = head ++ (middle ++ rest) in
    let tail = drop_head a head (middle ++ rest) ea in
    (
      omega (arith, length-append head (middle ++ rest), length-append middle rest),
      take_head a head (middle ++ rest) ea,
      ap (take b) tail ∙ take_head b middle rest eb,
      sym (drop-drop a b whole) ∙ ap (drop b) tail ∙ drop_head b middle rest eb,
    )

length-make_unique : (n : ℕ) → length (make_unique n) ≡ n
unfolding make_unique
length-make_unique zero = refl
length-make_unique (suc n) = ap suc (length-make_unique n)

-- A copy to the position behind a front part leaves that part and overwrites what follows.
memcpy_behind :
    (front back source : List ℕ) (at n : ℕ)
    → length front ≡ at
    → n ≤ length source
    → n ≤ length back
    → memcpy (front ++ back) at source n ≡ some (front ++ (take n source ++ drop n back))
unfolding memcpy
memcpy_behind front back source at n e enough room =
    let fits : at + n ≤ length (front ++ back) = omega (arith, length-append front back) in
    let after : drop (at + n) (front ++ back) ≡ drop n back =
      sym (drop-drop at n (front ++ back)) ∙ ap (drop n) (drop_head at front back e) in
    rw (le→leb n (length source) enough, le→leb (at + n) (length (front ++ back)) fits)
      (rw (after, take_head at front back e) refl)

-- The three copies fill the new image.
insert_png_chunks_lem :
    (bytes : List ℕ) (size : ℕ)
    → length bytes ≡ size
    → idat_offset < size
    → let image = take idat_offset bytes ++ (palette_chunks ++ drop idat_offset bytes) in
      insert_png_chunks bytes size ≡ some (image, size + chunks_size)
unfolding insert_png_chunks
insert_png_chunks_lem bytes size e h =
    let head = take idat_offset bytes in
    let rest = drop idat_offset bytes in
    let blank = make_unique (size + chunks_size) in
    let back = drop idat_offset blank in
    let back' = drop chunks_size back in
    let head_size : length head ≡ idat_offset = omega (arith, length-take idat_offset bytes) in
    let rest_size : length rest ≡ size - idat_offset =
      omega (arith, length-drop idat_offset bytes) in
    let back_size : length back ≡ size + chunks_size - idat_offset =
      omega (arith, length-drop idat_offset blank, length-make_unique (size + chunks_size)) in
    let back'_size : length back' ≡ size - idat_offset =
      omega (arith, length-drop chunks_size back) in
    let first : memcpy blank 0 bytes idat_offset ≡ some (head ++ back) =
      memcpy_behind [] blank bytes 0 idat_offset refl (omega arith)
        (omega (arith, length-make_unique (size + chunks_size))) in
    let second : memcpy (head ++ back) idat_offset palette_chunks chunks_size
        ≡ some ((head ++ palette_chunks) ++ back') =
      memcpy_behind head back palette_chunks idat_offset chunks_size head_size
        (omega (arith, palette_size)) (omega arith)
      ∙ ap (λ xs. some (head ++ (xs ++ back')))
          (take_all chunks_size palette_chunks (omega (arith, palette_size)))
      ∙ ap some (sym (append_assoc head palette_chunks back')) in
    let third : memcpy ((head ++ palette_chunks) ++ back') (idat_offset + chunks_size) rest
          (size - idat_offset)
        ≡ some (head ++ (palette_chunks ++ rest)) =
      memcpy_behind (head ++ palette_chunks) back' rest (idat_offset + chunks_size)
        (size - idat_offset) (omega (arith, length-append head palette_chunks, palette_size))
        (omega arith) (omega arith)
      ∙ ap (λ xs. some ((head ++ palette_chunks) ++ (xs ++ drop (size - idat_offset) back')))
          (take_all (size - idat_offset) rest (omega arith))
      ∙ ap (λ xs. some ((head ++ palette_chunks) ++ (rest ++ xs)))
          (drop_all (size - idat_offset) back' (omega arith))
      ∙ ap (λ xs. some ((head ++ palette_chunks) ++ xs)) (append-nil rest)
      ∙ ap some (append_assoc head palette_chunks rest) in
    rw (lt→ltb idat_offset size h, first, second, third) refl

-- The image of more than 33 bytes is made without a failed assertion and without a copy out of
-- bounds: it has the size that is returned, the first 33 bytes of the one that was sent, then the
-- palette's chunks, then the rest.
insert_png_chunks-Inserted :
    (bytes : List ℕ) (size : ℕ)
    → length bytes ≡ size
    → idat_offset < size
    → Returns (Inserted bytes) (insert_png_chunks bytes size)
insert_png_chunks-Inserted bytes size e h =
    let head = take idat_offset bytes in
    let rest = drop idat_offset bytes in
    let head_size : length head ≡ idat_offset = omega (arith, length-take idat_offset bytes) in
    let parts = assembled idat_offset chunks_size head palette_chunks rest head_size palette_size in
    rw (insert_png_chunks_lem bytes size e h)
      (omega (arith, parts.0, length-drop idat_offset bytes), parts.1, parts.2, parts.3)

module _ {E Text : Type 0} (isdb : Engine E) (encode : List ℕ → ℕ → Text) where
  -- LibISDB reports the size of the bytes.
  abbrev pub AreSized : List LogoData → Type 0
  AreSized logos = All (λ logo. length logo.bytes ≡ logo.data_size) logos

  -- The logos that are not transparent.
  abbrev pub is_shown : LogoData → Bool
  is_shown logo = not (leb logo.data_size 93)

  -- The image is the logo's with the palette, and the rest of the document is the logo's.
  abbrev pub Shows : LogoData → LogoInfo Text → Type 0
  Shows logo info =
      (info.id ≡ logo.logo_id)
      × (info.type_ ≡ logo.logo_type)
      × (info.version ≡ logo.logo_version)
      × (info.nid ≡ logo.network_id)
      × (info.services ≡ logo.service_list)
      × ((image : List ℕ × ℕ) × Inserted logo.bytes image × (info.image ≡ encode image.0 image.1))

  -- A document for each logo, in order.
  abbrev pub AllShown : List LogoData → List (LogoInfo Text) → Type 0
  AllShown [] infos = infos ≡ []
  AllShown (logo ∷ logos) [] = ⊥
  AllShown (logo ∷ logos) (info ∷ infos) = Shows logo info × AllShown logos infos

  abbrev pub Adds : LogoCollector E Text → List LogoData → LogoCollector E Text → Type 0
  Adds s logos s' =
      (infos : List (LogoInfo Text)) × (s'.documents ≡ s.documents ++ infos)
      × AllShown (select is_shown logos) infos
      × (s'.engine ≡ s.engine)

  make_json_value-Shows :
      (logo : LogoData)
      → length logo.bytes ≡ logo.data_size
      → is_shown logo ≡ true
      → Returns (Shows logo) (make_json_value isdb encode logo)
  unfolding make_json_value make_base64_png
  make_json_value-Shows logo e h =
      let (image, made, inserted) =
        Returns-some (Inserted logo.bytes) (insert_png_chunks logo.bytes logo.data_size)
          (insert_png_chunks-Inserted logo.bytes logo.data_size e (ground arith)) in
      rw made (refl, refl, refl, refl, refl, (image, inserted, refl))

  on_logo_downloaded-Adds :
      (s : LogoCollector E Text) (logo : LogoData)
      → length logo.bytes ≡ logo.data_size
      → Returns (Adds s (logo ∷ [])) (on_logo_downloaded isdb encode s logo)
  unfolding on_logo_downloaded
  on_logo_downloaded-Adds s logo e = elim (Bool-cases (leb logo.data_size 93)) [
    | inl transparent ↦ simp transparent ([], sym (append-nil s.documents), refl, refl)
    | inr shown ↦
        let (info, made, shows) =
          Returns-some (Shows logo) (make_json_value isdb encode logo)
            (make_json_value-Shows logo e (ground arith)) in
        simp (shown, made) (info ∷ [], refl, (shows, refl), refl)
  ]

  AllShown-append :
      (logos more : List LogoData) (infos infos' : List (LogoInfo Text))
      → AllShown logos infos
      → AllShown more infos'
      → AllShown (logos ++ more) (infos ++ infos')
  AllShown-append [] more infos infos' h h' = rw h h'
  AllShown-append (logo ∷ logos) more [] infos' h h' = absurd h
  AllShown-append (logo ∷ logos) more (info ∷ infos) infos' h h' =
      (h.0, AllShown-append logos more infos infos' h.1 h')

  Adds-then :
      (s s' s'' : LogoCollector E Text) (logo : LogoData) (logos : List LogoData)
      → Adds s (logo ∷ []) s'
      → Adds s' logos s''
      → Adds s (logo ∷ logos) s''
  Adds-then s s' s'' logo logos (infos, d, a, e) (more, d', a', e') =
      let all_ : AllShown (select is_shown (logo ∷ logos)) (infos ++ more) =
        elim (Bool-cases (is_shown logo)) [
          | inl shown ↦
              rw shown
                (AllShown-append (logo ∷ []) (select is_shown logos) infos more (rw shown at a) a')
          | inr hidden ↦
              rw hidden (AllShown-append [] (select is_shown logos) infos more (rw hidden at a) a')
        ] in
      (
        infos ++ more,
        d' ∙ ap (λ xs. xs ++ more) d ∙ append_assoc s.documents infos more,
        all_,
        e' ∙ e,
      )

  on_logos-Adds :
      (s : LogoCollector E Text) (logos : List LogoData)
      → AreSized logos
      → Returns (Adds s logos) (on_logos isdb encode s logos)
  unfolding on_logos
  on_logos-Adds s [] h = ([], sym (append-nil s.documents), refl, refl)
  on_logos-Adds s (logo ∷ logos) h =
      Returns-bind (Adds s (logo ∷ [])) (Adds s (logo ∷ logos))
        (on_logo_downloaded isdb encode s logo) (λ s'. on_logos isdb encode s' logos)
        (on_logo_downloaded-Adds s logo h.0)
        (λ s' first.
          Returns-map (Adds s' logos) (Adds s (logo ∷ logos)) (on_logos isdb encode s' logos)
            (on_logos-Adds s' logos h.1) (λ s'' rest. Adds-then s s' s'' logo logos first rest))

  -- A collector that has been started hands each packet to the engine and returns what the engine
  -- returned. For the logos of more than 93 bytes that the engine reports on it, whose sizes are those
  -- of their bytes, it writes a document each, in order, with the palette in the image.
  pub handle_packet-Adds :
      (s : LogoCollector E Text) (engine : E) (packet : Packet)
      → s.engine ≡ some engine
      → AreSized (isdb.output engine packet).1
      → let ((engine', ok), logos) = isdb.output engine packet in
        Returns
          (λ step. Adds (record s { engine = some engine' }) logos step.0 × (step.1 ≡ ok))
          (handle_packet isdb encode s packet)
  unfolding handle_packet
  handle_packet-Adds s engine packet started sized =
      let ((engine', ok), logos) = isdb.output engine packet in
      let s' : LogoCollector E Text = record s { engine = some engine' } in
      rw started (
        Returns-bind (Adds s' logos) (λ step. Adds s' logos step.0 × (step.1 ≡ ok))
          (on_logos isdb encode s' logos) _ (on_logos-Adds s' logos sized)
          (λ s'' adds. (adds, refl)))
