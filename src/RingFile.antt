-- ===== src/RingFile.antt =====
-- `RingFileSink` of src/ring_file_sink.hh. The file and the observer are parameters; a failed
-- assertion is `none`. The buffer is a list of bytes of which those from `buf_pos` on are stale.
pub mod Layout
pub mod Safety
pub mod Contents
use mirakc_arib.Prelude.{
  ℕ, zero, suc, ◌+◌, ◌-◌, ◌*◌, ◌%◌, ◌^◌, min, Bool, true, false, not, Option, none, some, List, [],
  ◌++◌, ℤ, pos, negsuc, take, drop, ltb, leb, ◌==◌, if◌then◌else◌, ◌>>=◌, ◌>>◌, assert,
}

abbrev pub block_size : ℕ
block_size = 4096

abbrev pub buffer_size : ℕ
buffer_size = 2 * block_size

abbrev pub max_chunk_size : ℕ
max_chunk_size = buffer_size * 0x3FFFF

abbrev pub max_num_chunks : ℕ
max_num_chunks = 0x7FFFFFFF

-- `ts::PKT_SIZE`
abbrev pub pkt_size : ℕ
pkt_size = 188

-- `File` of src/file.hh: each call gives the file after it and what it returned. `seek` is always
-- called with `SeekMode::kSet`.
pub record File (F : Type 0) : Type 0 where
  pub write : F → List ℕ → F × ℤ
  pub sync : F → F × Bool
  pub trunc : F → ℕ → F × Bool
  pub seek : F → ℕ → F × ℤ

pub record RingFileSink (F O : Type 0) : Type 0 where
  pub buf : List ℕ
  pub file : F
  pub observer : Option O
  pub ring_size : ℕ
  pub ring_pos : ℕ
  pub chunk_size : ℕ
  pub buf_pos : ℕ
  pub chunk_pos : ℕ
  pub broken : Bool

-- The constructor.
unfoldable pub create : {F O : Type 0} → F → ℕ → ℕ → Option (RingFileSink F O)
create file chunk_size num_chunks = do
  assert (ltb 0 chunk_size)
  assert (leb chunk_size max_chunk_size)
  assert (ltb 0 num_chunks)
  assert (leb num_chunks max_num_chunks)
  assert (chunk_size % buffer_size == 0)
  some (record {
    buf = [];
    file = file;
    observer = none;
    ring_size = chunk_size * num_chunks;
    ring_pos = 0;
    chunk_size = chunk_size;
    buf_pos = 0;
    chunk_pos = 0;
    broken = false;
  })

unfoldable pub exit_code : {F O : Type 0} → RingFileSink F O → ℕ
exit_code s = if s.broken then 1 else 0

unfoldable pub set_observer : {F O : Type 0} → RingFileSink F O → O → RingFileSink F O
set_observer s o = record s { observer = some o }

-- Copies what fits of the `size` bytes at the head of `bytes`, and returns the count.
unfoldable pub fill_buffer :
    {F O : Type 0} → RingFileSink F O → List ℕ → ℕ → Option (RingFileSink F O × ℕ)
fill_buffer s bytes size = do
  let fill_bytes = min size (buffer_size - s.buf_pos)
  let buf_pos = s.buf_pos + fill_bytes
  assert (leb buf_pos buffer_size)
  let ring_pos = s.ring_pos + fill_bytes
  assert (leb ring_pos s.ring_size)
  let buf = take s.buf_pos s.buf ++ take fill_bytes bytes
  some (record s { buf = buf; ring_pos = ring_pos; buf_pos = buf_pos }, fill_bytes)

unfoldable pub need_flush : {F O : Type 0} → RingFileSink F O → Bool
need_flush s = s.buf_pos == buffer_size

-- `Seek` returned the offset that it was asked for.
abbrev pub is_at : ℕ → ℤ → Bool
is_at offset (pos n) = n == offset
is_at offset (negsuc n) = false

-- What the loop of `Flush` does with the result of a `Write`.
unfoldable pub after_write : {F : Type 0} → F → ℤ → (ℕ → F × Option ℕ) → F × Option ℕ
after_write file (pos zero) advance = (file, none)
after_write file (pos (suc n)) advance = advance (suc n)
after_write file (negsuc n) advance = (file, none)

module _ {F O : Type 0} (fs : File F) (on_end_of_chunk : O → ℕ → O) where
  -- The loop that writes the buffer, with fuel: the file after it, and the bytes written in all if
  -- no write failed.
  unfoldable pub write_all : ℕ → F → List ℕ → ℕ → F × Option ℕ
  write_all zero file buf nwritten = (file, none)
  write_all (suc fuel) file buf nwritten =
      let (file', result) = fs.write file (take (buffer_size - nwritten) (drop nwritten buf)) in
      let next = after_write file' result (λ n. write_all fuel file' buf (nwritten + n)) in
      if ltb nwritten buffer_size then next else (file, some nwritten)

  -- The end of a chunk in `Flush`.
  unfoldable pub end_chunk : RingFileSink F O → Option (RingFileSink F O × Bool)
  end_chunk s = do
    assert (not (s.ring_pos == 0))
    assert (s.ring_pos % s.chunk_size == 0)
    let (file, synced) = fs.sync s.file
    let notified : Option O = elim s.observer [
      | none ↦ none
      | some o ↦ some (on_end_of_chunk o s.ring_pos)
    ]
    some (
        if synced
        then (record s { file = file; observer = notified; chunk_pos = 0 }, true)
        else (record s { file = file }, false))

  -- The end of the ring in `Flush`.
  unfoldable pub end_ring : RingFileSink F O → RingFileSink F O × Bool
  end_ring s =
      let (file, truncated) = fs.trunc s.file s.ring_size in
      let (file', offset) = fs.seek file 0 in
      let rewound : RingFileSink F O × Bool = (record s { file = file'; ring_pos = 0 }, true) in
      if s.ring_pos == s.ring_size
      then if truncated
        then (if is_at 0 offset then rewound else (record s { file = file' }, false))
        else (record s { file = file }, false)
      else (s, true)

  -- `Flush` once the buffer is written.
  unfoldable pub end_buffer : RingFileSink F O → Option (RingFileSink F O × Bool)
  end_buffer s = do
    let chunk_pos = s.chunk_pos + buffer_size
    let s' = record s { buf_pos = 0; chunk_pos = chunk_pos }
    assert (leb chunk_pos s.chunk_size)
    (t, ok) ← if chunk_pos == s.chunk_size then end_chunk s' else some (s', true)
    some (if ok then end_ring t else (t, false))

  -- `Flush` once the loop has written all (`some` count) or failed.
  unfoldable pub after_write_all : RingFileSink F O → Option ℕ → Option (RingFileSink F O × Bool)
  after_write_all s none = some (s, false)
  after_write_all s (some nwritten) = assert (nwritten == buffer_size) >> end_buffer s

  unfoldable pub flush : RingFileSink F O → Option (RingFileSink F O × Bool)
  flush s = do
    assert (s.buf_pos == buffer_size)
    let (file, written) = write_all (suc buffer_size) s.file s.buf 0
    after_write_all (record s { file = file }) written

  -- `if (NeedFlush()) …`: the sink and whether the loop goes on.
  unfoldable pub flush_if_needed : RingFileSink F O → Option (RingFileSink F O × Bool)
  flush_if_needed s = if need_flush s then flush s else some (s, true)

  -- The loop of `HandlePacket`, with fuel.
  unfoldable pub fill_loop : ℕ → RingFileSink F O → List ℕ → ℕ → Option (RingFileSink F O × Bool)
  fill_loop zero s packet nwritten = none
  fill_loop (suc fuel) s packet nwritten = do
    (filled, count) ← fill_buffer s (drop nwritten packet) (pkt_size - nwritten)
    (t, ok) ← flush_if_needed filled
    let rest = fill_loop fuel t packet (nwritten + count)
    let last = assert (nwritten + count == pkt_size) >> some (t, true)
    let next = if ltb (nwritten + count) pkt_size then rest else last
    if ok then next else some (record t { broken = true }, false)

  unfoldable pub handle_packet : RingFileSink F O → List ℕ → Option (RingFileSink F O × Bool)
  handle_packet s packet = fill_loop (suc pkt_size) s packet 0

  unfoldable pub set_position : RingFileSink F O → ℕ → Option (RingFileSink F O × Bool)
  set_position s position = do
    assert (leb position (2 ^ 63 - 1))
    assert (position % buffer_size == 0)
    assert (ltb position s.ring_size)
    assert (position % s.chunk_size == 0)
    let (file, offset) = fs.seek s.file position
    let moved = record s { file = file; buf_pos = 0; ring_pos = position; chunk_pos = 0 }
    some (if is_at position offset then (moved, true) else (record s { file = file }, false))
