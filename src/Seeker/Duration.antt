-- ===== src/Seeker/Duration.antt =====
-- The limit on the duration of `StartSeeker`, in src/start_seeker.hh, where none is given.
use mirakc_arib.Prelude.{[], ◌∷◌, ◌++◌}
use mirakc_arib.Sink.{PacketSink}
use mirakc_arib.Tables.{Packet}
use mirakc_arib.Seeker.{StartSeeker}

module _ {S : Type 0} (downstream : PacketSink S Packet) where
  held : StartSeeker S → Packet → StartSeeker S
  held s packet = record s { packets = s.packets ++ packet ∷ [] }
