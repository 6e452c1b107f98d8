-- ===== src/LogoCollector.antt =====
-- `LogoCollector` of src/logo_collector.hh: it puts the palette that logos are sent without into their
-- PNG images. LibISDB, which finds the logos in the packets, is a parameter with a state of its own, and
-- so is the encoding in base 64. A failed assertion is `none`. The documents are kept oldest first.
pub mod Palette
pub mod Chunks
use mirakc_arib.Prelude.{
  ℕ, zero, suc, ◌+◌, ◌-◌, Bool, true, false, Option, none, some, List, [], ◌∷◌, ◌++◌, length, take,
  drop, ltb, leb, if◌then◌else◌, ◌>>=◌, ◌>>◌, assert,
}
use mirakc_arib.Tables.{Packet}
use mirakc_arib.LogoCollector.Palette.{palette_chunks}

-- `kIdatOffset`
abbrev pub idat_offset : ℕ
idat_offset = 33

-- `sizeof(kChunks)`
abbrev pub chunks_size : ℕ
chunks_size = 540

-- `std::memcpy` of the first bytes of a source to a position of a buffer. A copy that reads or writes
-- out of bounds is `none`.
unfoldable pub memcpy : List ℕ → ℕ → List ℕ → ℕ → Option (List ℕ)
memcpy buf at source n =
    assert (leb n (length source))
    >> assert (leb (at + n) (length buf))
    >> some (take at buf ++ (take n source ++ drop (at + n) buf))

-- The bytes of `std::make_unique<uint8_t[]>`.
unfoldable pub make_unique : ℕ → List ℕ
make_unique zero = []
make_unique (suc n) = 0 ∷ make_unique n

-- `InsertPngChunks`, with the pointer `p` as a position in the new image.
unfoldable pub insert_png_chunks : List ℕ → ℕ → Option (List ℕ × ℕ)
insert_png_chunks bytes size =
    let p : ℕ = 0 in
    let p' = p + idat_offset in
    let p'' = p' + chunks_size in
    assert (ltb idat_offset size)
    >> (memcpy (make_unique (size + chunks_size)) p bytes idat_offset >>= λ png.
        memcpy png p' palette_chunks chunks_size >>= λ png'.
        memcpy png' p'' (drop idat_offset bytes) (size - idat_offset) >>= λ png''.
        some (png'', size + chunks_size))

-- A service of a logo.
pub record LogoService : Type 0 where
  pub network_id : ℕ
  pub transport_stream_id : ℕ
  pub service_id : ℕ

-- `LibISDB::LogoDownloaderFilter::LogoData`
pub record LogoData : Type 0 where
  pub logo_type : ℕ
  pub logo_id : ℕ
  pub logo_version : ℕ
  pub network_id : ℕ
  pub data_size : ℕ
  pub bytes : List ℕ
  pub service_list : List LogoService

-- The document, with the text of the image after `data:image/png;base64,`.
pub record LogoInfo (Text : Type 0) : Type 0 where
  pub type_ : ℕ
  pub id : ℕ
  pub version : ℕ
  pub image : Text
  pub nid : ℕ
  pub services : List LogoService

-- The engine of LibISDB: a packet is handed to it, and it calls back with the logos that are complete.
pub record Engine (E : Type 0) : Type 0 where
  pub build : E
  pub output : E → Packet → (E × Bool) × List LogoData
  pub close : E → E

pub record LogoCollector (E Text : Type 0) : Type 0 where
  pub engine : Option E
  pub documents : List (LogoInfo Text)

-- The constructor.
unfoldable pub create : {E Text : Type 0} → LogoCollector E Text
create = record { engine = none; documents = [] }

module _ {E Text : Type 0} (isdb : Engine E) (encode : List ℕ → ℕ → Text) where
  unfoldable pub start : LogoCollector E Text → LogoCollector E Text × Bool
  start s = (record s { engine = some isdb.build }, true)

  unfoldable pub end_ : LogoCollector E Text → LogoCollector E Text
  end_ s = record s { engine = none }

  unfoldable pub make_base64_png : List ℕ → ℕ → Option Text
  make_base64_png bytes size =
      insert_png_chunks bytes size >>= λ (png, png_size). some (encode png png_size)

  unfoldable pub make_json_value : LogoData → Option (LogoInfo Text)
  make_json_value logo = make_base64_png logo.bytes logo.data_size >>= λ text. some (record {
    type_ = logo.logo_type;
    id = logo.logo_id;
    version = logo.logo_version;
    image = text;
    nid = logo.network_id;
    services = logo.service_list;
  })

  -- `OnLogoDownloaded`: an image of at most 93 bytes is a transparent one.
  unfoldable pub on_logo_downloaded :
      LogoCollector E Text → LogoData → Option (LogoCollector E Text)
  on_logo_downloaded s logo =
      let written =
        make_json_value logo >>= λ info. some (record s { documents = s.documents ++ info ∷ [] }) in
      if leb logo.data_size 93 then some s else written

  -- The calls that the engine makes on a packet.
  unfoldable pub on_logos : LogoCollector E Text → List LogoData → Option (LogoCollector E Text)
  on_logos s [] = some s
  on_logos s (logo ∷ logos) = on_logo_downloaded s logo >>= λ s'. on_logos s' logos

  -- `none` is also the bridge that is null before `Start` and after `End`.
  unfoldable pub handle_packet :
      LogoCollector E Text → Packet → Option (LogoCollector E Text × Bool)
  handle_packet s packet = s.engine >>= λ engine.
      let ((engine', ok), logos) = isdb.output engine packet in
      on_logos (record s { engine = some engine' }) logos >>= λ s'. some (s', ok)
