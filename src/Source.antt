-- ===== src/Source.antt =====
-- `PacketSource` and `FileSource` of src/packet_source.hh. The file is a parameter; a failed
-- assertion, and a read outside the buffer, is `none`. `ValidateResync` reads all three bytes here,
-- where the code stops at the first that differs.
pub mod Resync
pub mod Sync
pub mod Feed
pub mod Clean
pub mod Exact
use mirakc_arib.Prelude.{
  ℕ, zero, suc, ◌+◌, ◌-◌, ◌*◌, Bool, true, false, not, Option, none, some, List, [], ◌∷◌, ◌++◌,
  length, get_elem?, take, drop, ltb, leb, ◌==◌, if◌then◌else◌, ◌>>=◌, ◌>>◌, assert,
}
use mirakc_arib.Sink.{PacketSink, exit_failure}

-- `ts::PKT_SIZE` and `ts::SYNC_BYTE`
abbrev pub pkt_size : ℕ
pkt_size = 188

abbrev pub sync_byte : ℕ
sync_byte = 0x47

abbrev pub max_drop_bytes : ℕ
max_drop_bytes = 2 * pkt_size

abbrev pub max_resync_bytes : ℕ
max_resync_bytes = max_drop_bytes + 3 * pkt_size

abbrev pub read_chunk_size : ℕ
read_chunk_size = 4 * 4096

abbrev pub buffer_size : ℕ
buffer_size = read_chunk_size + max_resync_bytes

-- `buf` is the bytes up to `end_`, which is its length.
pub record FileSource (F : Type 0) : Type 0 where
  pub file : F
  pub eof : Bool
  pub buf : List ℕ
  pub pos : ℕ

unfoldable pub available_bytes : {F : Type 0} → FileSource F → ℕ
available_bytes s = length s.buf - s.pos

unfoldable pub free_bytes : {F : Type 0} → FileSource F → ℕ
free_bytes s = buffer_size - length s.buf

-- `ValidateResync` at a position.
unfoldable pub validate_resync : List ℕ → ℕ → Option Bool
validate_resync buf pos = do
  a ← get_elem? buf (pos + 1 * pkt_size)
  b ← get_elem? buf (pos + 2 * pkt_size)
  c ← get_elem? buf (pos + 3 * pkt_size)
  some (if a == sync_byte then (if b == sync_byte then c == sync_byte else false) else false)

-- The loop of `Resync` from `pos` over the `left` positions below `resync_end`: the position where
-- it stops, and whether it is in sync there.
unfoldable pub resync_loop : ℕ → List ℕ → ℕ → Option (ℕ × Bool)
resync_loop zero buf pos = some (pos, false)
resync_loop (suc left) buf pos = do
  byte ← get_elem? buf pos
  valid ← if byte == sync_byte then validate_resync buf pos else some false
  let next = resync_loop left buf (pos + 1)
  if valid then some (pos, true) else next

-- The rest of `GetNextPacket` once the source is in sync.
unfoldable pub copy_packet : {F : Type 0} → FileSource F → Option (FileSource F × Option (List ℕ))
copy_packet s = do
  byte ← get_elem? s.buf s.pos
  assert (byte == sync_byte)
  assert (leb (s.pos + pkt_size) (length s.buf))
  some (record s { pos = s.pos + pkt_size }, some (take pkt_size (drop s.pos s.buf)))

-- `Read` gives the bytes read, none at the end of the file and on an error.
module _ {F : Type 0} (read : F → ℕ → F × List ℕ) where
  -- The loop of `FillBuffer`, with fuel.
  unfoldable pub read_loop : ℕ → FileSource F → ℕ → Option (FileSource F × Bool)
  read_loop zero s min_bytes = none
  read_loop (suc fuel) s min_bytes = do
    assert (leb read_chunk_size (free_bytes s))
    let (file, bytes) = read s.file read_chunk_size
    let t = record s { file = file; buf = s.buf ++ bytes }
    let again = read_loop fuel t min_bytes
    let more = if ltb (length t.buf) min_bytes then again else some (t, true)
    if length bytes == 0 then some (record s { file = file; eof = true }, false) else more

  unfoldable pub fill_buffer : FileSource F → ℕ → Option (FileSource F × Bool)
  unfolding available_bytes
  fill_buffer s min_bytes = do
    assert (leb min_bytes max_resync_bytes)
    assert (not s.eof)
    assert (leb s.pos (length s.buf))
    assert (leb (length s.buf) buffer_size)
    let moved = record s { buf = drop s.pos s.buf; pos = 0 }
    if leb min_bytes (available_bytes s)
        then some (s, true)
        else read_loop (suc min_bytes) moved min_bytes

  unfoldable pub resync : FileSource F → Option (FileSource F × Bool)
  resync s = do
    (t, filled) ← fill_buffer s max_resync_bytes
    let search = do
      (pos, found) ← resync_loop max_drop_bytes t.buf t.pos
      some (record t { pos = pos }, found)
    if filled then search else some (t, false)

  unfoldable pub get_next_packet : FileSource F → Option (FileSource F × Option (List ℕ))
  get_next_packet s = do
    (t, filled) ← fill_buffer s pkt_size
    let sync = do
      byte ← get_elem? t.buf t.pos
      (u, ok) ← if byte == sync_byte then some (t, true) else resync t
      if ok then copy_packet u else some (u, none)
    if filled then sync else some (t, none)

  module _ {S : Type 0} (sink : PacketSink S (List ℕ)) where
    -- The loop of `FeedPackets`, with fuel: the sink as it is left.
    unfoldable pub feed_loop : ℕ → FileSource F → S → Option S
    feed_loop zero s t = none
    feed_loop (suc fuel) s t = do
      (s', packet) ← get_next_packet s
      elim packet [
        | none ↦ some t
        | some p ↦
            let (t', ok) = sink.handle_packet t p in
            let again = feed_loop fuel s' t' in if ok then again else some t'
      ]

    -- The sink as it is left, and the exit code.
    unfoldable pub feed_packets : ℕ → FileSource F → S → Option (S × ℕ)
    feed_packets fuel s t = do
      let (started, ok) = sink.start t
      let run = feed_loop fuel s started >>= λ fed.
          let ended = sink.end_ fed in some (ended, sink.exit_code ended)
      if ok then run else some (started, exit_failure)
