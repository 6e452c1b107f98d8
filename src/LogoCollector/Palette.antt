-- ===== src/LogoCollector/Palette.antt =====
-- The PLTE and tRNS chunks that src/logo_collector.hh keeps for its images.
use mirakc_arib.Prelude.{ℕ, List, [], ◌∷◌}

-- `kChunks`
unfoldable pub palette_chunks : List ℕ
palette_chunks =
    0x00 ∷ 0x00 ∷ 0x01 ∷ 0x83 ∷ 0x50 ∷ 0x4c ∷ 0x54 ∷ 0x45 ∷ 0x00 ∷ 0x00 ∷ 0x00 ∷ 0xff ∷ 0x00 ∷ 0x00
    ∷ 0x00 ∷ 0xff ∷ 0x00 ∷ 0xff ∷ 0xff ∷ 0x00 ∷ 0x00 ∷ 0x00 ∷ 0xff ∷ 0xff ∷ 0x00 ∷ 0xff ∷ 0x00
    ∷ 0xff ∷ 0xff ∷ 0xff ∷ 0xff ∷ 0xff ∷ 0x00 ∷ 0x00 ∷ 0x00 ∷ 0xaa ∷ 0x00 ∷ 0x00 ∷ 0x00 ∷ 0xaa
    ∷ 0x00 ∷ 0xaa ∷ 0xaa ∷ 0x00 ∷ 0x00 ∷ 0x00 ∷ 0xaa ∷ 0xaa ∷ 0x00 ∷ 0xaa ∷ 0x00 ∷ 0xaa ∷ 0xaa
    ∷ 0xaa ∷ 0xaa ∷ 0xaa ∷ 0x00 ∷ 0x00 ∷ 0x55 ∷ 0x00 ∷ 0x55 ∷ 0x00 ∷ 0x00 ∷ 0x55 ∷ 0x55 ∷ 0x00
    ∷ 0x55 ∷ 0xaa ∷ 0x00 ∷ 0x55 ∷ 0xff ∷ 0x00 ∷ 0xaa ∷ 0x55 ∷ 0x00 ∷ 0xaa ∷ 0xff ∷ 0x00 ∷ 0xff
    ∷ 0x55 ∷ 0x00 ∷ 0xff ∷ 0xaa ∷ 0x55 ∷ 0x00 ∷ 0x00 ∷ 0x55 ∷ 0x00 ∷ 0x55 ∷ 0x55 ∷ 0x00 ∷ 0xaa
    ∷ 0x55 ∷ 0x00 ∷ 0xff ∷ 0x55 ∷ 0x55 ∷ 0x00 ∷ 0x55 ∷ 0x55 ∷ 0x55 ∷ 0x55 ∷ 0x55 ∷ 0xaa ∷ 0x55
    ∷ 0x55 ∷ 0xff ∷ 0x55 ∷ 0xaa ∷ 0x00 ∷ 0x55 ∷ 0xaa ∷ 0x55 ∷ 0x55 ∷ 0xaa ∷ 0xaa ∷ 0x55 ∷ 0xaa
    ∷ 0xff ∷ 0x55 ∷ 0xff ∷ 0x00 ∷ 0x55 ∷ 0xff ∷ 0x55 ∷ 0x55 ∷ 0xff ∷ 0xaa ∷ 0x55 ∷ 0xff ∷ 0xff
    ∷ 0xaa ∷ 0x00 ∷ 0x55 ∷ 0xaa ∷ 0x00 ∷ 0xff ∷ 0xaa ∷ 0x55 ∷ 0x00 ∷ 0xaa ∷ 0x55 ∷ 0x55 ∷ 0xaa
    ∷ 0x55 ∷ 0xaa ∷ 0xaa ∷ 0x55 ∷ 0xff ∷ 0xaa ∷ 0xaa ∷ 0x55 ∷ 0xaa ∷ 0xaa ∷ 0xff ∷ 0xaa ∷ 0xff
    ∷ 0x00 ∷ 0xaa ∷ 0xff ∷ 0x55 ∷ 0xaa ∷ 0xff ∷ 0xaa ∷ 0xaa ∷ 0xff ∷ 0xff ∷ 0xff ∷ 0x00 ∷ 0x55
    ∷ 0xff ∷ 0x00 ∷ 0xff ∷ 0xff ∷ 0x55 ∷ 0x00 ∷ 0xff ∷ 0x55 ∷ 0x55 ∷ 0xff ∷ 0x55 ∷ 0xaa ∷ 0xff
    ∷ 0x55 ∷ 0xff ∷ 0xff ∷ 0xaa ∷ 0x00 ∷ 0xff ∷ 0xaa ∷ 0x55 ∷ 0xff ∷ 0xaa ∷ 0xaa ∷ 0xff ∷ 0xaa
    ∷ 0xff ∷ 0xff ∷ 0xff ∷ 0x55 ∷ 0xff ∷ 0xff ∷ 0xff ∷ 0x00 ∷ 0x00 ∷ 0x00 ∷ 0xff ∷ 0x00 ∷ 0x00
    ∷ 0x00 ∷ 0xff ∷ 0x00 ∷ 0xff ∷ 0xff ∷ 0x00 ∷ 0x00 ∷ 0x00 ∷ 0xff ∷ 0xff ∷ 0x00 ∷ 0xff ∷ 0x00
    ∷ 0xff ∷ 0xff ∷ 0xff ∷ 0xff ∷ 0xff ∷ 0xaa ∷ 0x00 ∷ 0x00 ∷ 0x00 ∷ 0xaa ∷ 0x00 ∷ 0xaa ∷ 0xaa
    ∷ 0x00 ∷ 0x00 ∷ 0x00 ∷ 0xaa ∷ 0xaa ∷ 0x00 ∷ 0xaa ∷ 0x00 ∷ 0xaa ∷ 0xaa ∷ 0xaa ∷ 0xaa ∷ 0xaa
    ∷ 0x00 ∷ 0x00 ∷ 0x55 ∷ 0x00 ∷ 0x55 ∷ 0x00 ∷ 0x00 ∷ 0x55 ∷ 0x55 ∷ 0x00 ∷ 0x55 ∷ 0xaa ∷ 0x00
    ∷ 0x55 ∷ 0xff ∷ 0x00 ∷ 0xaa ∷ 0x55 ∷ 0x00 ∷ 0xaa ∷ 0xff ∷ 0x00 ∷ 0xff ∷ 0x55 ∷ 0x00 ∷ 0xff
    ∷ 0xaa ∷ 0x55 ∷ 0x00 ∷ 0x00 ∷ 0x55 ∷ 0x00 ∷ 0x55 ∷ 0x55 ∷ 0x00 ∷ 0xaa ∷ 0x55 ∷ 0x00 ∷ 0xff
    ∷ 0x55 ∷ 0x55 ∷ 0x00 ∷ 0x55 ∷ 0x55 ∷ 0x55 ∷ 0x55 ∷ 0x55 ∷ 0xaa ∷ 0x55 ∷ 0x55 ∷ 0xff ∷ 0x55
    ∷ 0xaa ∷ 0x00 ∷ 0x55 ∷ 0xaa ∷ 0x55 ∷ 0x55 ∷ 0xaa ∷ 0xaa ∷ 0x55 ∷ 0xaa ∷ 0xff ∷ 0x55 ∷ 0xff
    ∷ 0x00 ∷ 0x55 ∷ 0xff ∷ 0x55 ∷ 0x55 ∷ 0xff ∷ 0xaa ∷ 0x55 ∷ 0xff ∷ 0xff ∷ 0xaa ∷ 0x00 ∷ 0x55
    ∷ 0xaa ∷ 0x00 ∷ 0xff ∷ 0xaa ∷ 0x55 ∷ 0x00 ∷ 0xaa ∷ 0x55 ∷ 0x55 ∷ 0xaa ∷ 0x55 ∷ 0xaa ∷ 0xaa
    ∷ 0x55 ∷ 0xff ∷ 0xaa ∷ 0xaa ∷ 0x55 ∷ 0xaa ∷ 0xaa ∷ 0xff ∷ 0xaa ∷ 0xff ∷ 0x00 ∷ 0xaa ∷ 0xff
    ∷ 0x55 ∷ 0xaa ∷ 0xff ∷ 0xaa ∷ 0xaa ∷ 0xff ∷ 0xff ∷ 0xff ∷ 0x00 ∷ 0x55 ∷ 0xff ∷ 0x00 ∷ 0xff
    ∷ 0xff ∷ 0x55 ∷ 0x00 ∷ 0xff ∷ 0x55 ∷ 0x55 ∷ 0xff ∷ 0x55 ∷ 0xaa ∷ 0xff ∷ 0x55 ∷ 0xff ∷ 0xff
    ∷ 0xaa ∷ 0x00 ∷ 0xff ∷ 0xaa ∷ 0x55 ∷ 0xff ∷ 0xaa ∷ 0xaa ∷ 0xff ∷ 0xaa ∷ 0xff ∷ 0xff ∷ 0xff
    ∷ 0x55 ∷ 0xff ∷ 0xff ∷ 0xff ∷ 0x06 ∷ 0xdd ∷ 0x27 ∷ 0x7b ∷ 0x00 ∷ 0x00 ∷ 0x00 ∷ 0x81 ∷ 0x74
    ∷ 0x52 ∷ 0x4e ∷ 0x53 ∷ 0xff ∷ 0xff ∷ 0xff ∷ 0xff ∷ 0xff ∷ 0xff ∷ 0xff ∷ 0xff ∷ 0x00 ∷ 0xff
    ∷ 0xff ∷ 0xff ∷ 0xff ∷ 0xff ∷ 0xff ∷ 0xff ∷ 0xff ∷ 0xff ∷ 0xff ∷ 0xff ∷ 0xff ∷ 0xff ∷ 0xff
    ∷ 0xff ∷ 0xff ∷ 0xff ∷ 0xff ∷ 0xff ∷ 0xff ∷ 0xff ∷ 0xff ∷ 0xff ∷ 0xff ∷ 0xff ∷ 0xff ∷ 0xff
    ∷ 0xff ∷ 0xff ∷ 0xff ∷ 0xff ∷ 0xff ∷ 0xff ∷ 0xff ∷ 0xff ∷ 0xff ∷ 0xff ∷ 0xff ∷ 0xff ∷ 0xff
    ∷ 0xff ∷ 0xff ∷ 0xff ∷ 0xff ∷ 0xff ∷ 0xff ∷ 0xff ∷ 0xff ∷ 0xff ∷ 0xff ∷ 0xff ∷ 0xff ∷ 0xff
    ∷ 0xff ∷ 0xff ∷ 0xff ∷ 0x80 ∷ 0x80 ∷ 0x80 ∷ 0x80 ∷ 0x80 ∷ 0x80 ∷ 0x80 ∷ 0x80 ∷ 0x80 ∷ 0x80
    ∷ 0x80 ∷ 0x80 ∷ 0x80 ∷ 0x80 ∷ 0x80 ∷ 0x80 ∷ 0x80 ∷ 0x80 ∷ 0x80 ∷ 0x80 ∷ 0x80 ∷ 0x80 ∷ 0x80
    ∷ 0x80 ∷ 0x80 ∷ 0x80 ∷ 0x80 ∷ 0x80 ∷ 0x80 ∷ 0x80 ∷ 0x80 ∷ 0x80 ∷ 0x80 ∷ 0x80 ∷ 0x80 ∷ 0x80
    ∷ 0x80 ∷ 0x80 ∷ 0x80 ∷ 0x80 ∷ 0x80 ∷ 0x80 ∷ 0x80 ∷ 0x80 ∷ 0x80 ∷ 0x80 ∷ 0x80 ∷ 0x80 ∷ 0x80
    ∷ 0x80 ∷ 0x80 ∷ 0x80 ∷ 0x80 ∷ 0x80 ∷ 0x80 ∷ 0x80 ∷ 0x80 ∷ 0x80 ∷ 0x80 ∷ 0x80 ∷ 0x80 ∷ 0x80
    ∷ 0x80 ∷ 0x80 ∷ 0x7b ∷ 0x70 ∷ 0xf7 ∷ 0x6f ∷ []
