-- ===== src/Sink/Stdout.antt =====
-- `StdoutSink` of src/packet_sink.hh. The file descriptor and `write(2)` on it are parameters; a
-- failed assertion, and a lack of fuel for the write loop, is `none`. `buf` is the bytes up to
-- `pos_`, which is its length.
pub mod Contents
use mirakc_arib.Prelude.{
  ℕ, zero, suc, ◌+◌, ◌-◌, ◌*◌, Bool, true, false, not, Option, none, some, List, [], ◌++◌, ℤ, pos,
  negsuc, length, take, drop, ltb, ◌==◌, if◌then◌else◌, maybe, ◌>>=◌, ◌>>◌, assert,
}

-- `ts::PKT_SIZE`
abbrev pub pkt_size : ℕ
pkt_size = 188

abbrev pub buffer_size : ℕ
buffer_size = 4096 * 4

pub record StdoutSink (W : Type 0) : Type 0 where
  pub out : W
  pub buf : List ℕ

unfoldable pub create : {W : Type 0} → W → StdoutSink W
create out = record { out = out; buf = [] }

-- What the loop does with the result of a `write`.
unfoldable pub after_write :
    {W : Type 0} → W → ℤ → (ℕ → Option (W × Option ℕ)) → Option (W × Option ℕ)
after_write out (pos n) advance = advance n
after_write out (negsuc n) advance = some (out, none)

module _ {W : Type 0} (write : W → List ℕ → W × ℤ) where
  -- The loop of `Flush`, with fuel: the count of the bytes written, if no write failed.
  unfoldable pub write_loop : ℕ → W → List ℕ → ℕ → Option (W × Option ℕ)
  write_loop zero out buf nwritten = none
  write_loop (suc fuel) out buf nwritten =
      let (out', result) = write out (drop nwritten buf) in
      let next = after_write out' result (λ n. write_loop fuel out' buf (nwritten + n)) in
      if ltb nwritten (length buf) then next else some (out, some nwritten)

  unfoldable pub flush : StdoutSink W → Option (StdoutSink W × Bool)
  flush s = write_loop (suc (length s.buf)) s.out s.buf 0 >>= λ (out, result).
      maybe result (some (record s { out = out }, false))
        λ nwritten. assert (nwritten == length s.buf) >> some (record { out = out; buf = [] }, true)

  -- The part of `HandlePacket` for a packet that fills the buffer.
  unfoldable pub fill_and_flush : StdoutSink W → List ℕ → Option (StdoutSink W × Bool)
  fill_and_flush s packet =
      let remaining = buffer_size - length s.buf in
      let filled = s.buf ++ take remaining packet in
      assert (length filled == buffer_size)
      >> (flush (record s { buf = filled }) >>= λ (s', ok).
          if not ok
          then some (s', false)
          else if ltb remaining pkt_size
          then (assert (length s'.buf == 0)
              >> some (record s' { buf = drop remaining packet }, true))
          else some (s', true))

  unfoldable pub handle_packet : StdoutSink W → List ℕ → Option (StdoutSink W × Bool)
  handle_packet s packet =
      if ltb (length s.buf + pkt_size) buffer_size
      then some (record s { buf = s.buf ++ packet }, true)
      else fill_and_flush s packet

  -- `End`, which ignores the result.
  unfoldable pub end_stdout : StdoutSink W → Option (StdoutSink W)
  end_stdout s = flush s >>= λ r. some r.0
