-- ===== src/RingFile/Layout.antt =====
-- Where the positions of `RingFileSink` stand, and that filling the buffer and closing it keep them.
use native.Mathlib.Nat.{mul-add-mod_self_right, mod_self}
use mirakc_arib.Prelude.{
  ℕ, suc, ◌+◌, ◌-◌, ◌*◌, ◌%◌, ◌≤◌, ◌<◌, min, ◌≡◌, refl, Bool, true, List, ◌==◌, if◌then◌else◌,
  Returns, arith,
}
use mirakc_arib.RingFile.{
  buffer_size, RingFileSink, File, fill_buffer, end_chunk, end_ring, end_buffer,
}

-- Of a ring of `n` chunks: whole chunks, whole buffers of the current chunk, bytes in the buffer.
pub record Layout {F O : Type 0} (n k : ℕ) (s : RingFileSink F O) : Type 0 where
  pub chunk_whole : s.chunk_size % buffer_size ≡ 0
  pub pos_whole : s.chunk_pos % buffer_size ≡ 0
  pub in_chunk : s.chunk_pos < s.chunk_size
  pub in_buffer : s.buf_pos ≤ buffer_size
  pub size : s.ring_size ≡ n * s.chunk_size
  pub position : s.ring_pos ≡ k * s.chunk_size + s.chunk_pos + s.buf_pos
  pub in_ring : k < n

-- A call may start here: the buffer has room.
abbrev pub IsValid : {F O : Type 0} → ℕ → RingFileSink F O → Type 0
IsValid n s = (k : ℕ) × Layout n k s × (s.buf_pos < buffer_size)

pub room : (k n c : ℕ) → k < n → k * c + c ≤ n * c
room k n c h = grind arith

whole : (k n c : ℕ) → suc k ≡ n → n * c ≡ k * c + c
whole k n c e = rw (← e) (omega arith)

multiple : (k c : ℕ) → (k * c + c) % c ≡ 0
multiple k c = rw (mul-add-mod_self_right k c c, mod_self c)

-- What `fill_buffer` does with `size` bytes: it takes those that fit.
abbrev pub Fills : {F O : Type 0} → ℕ → ℕ → ℕ → RingFileSink F O → RingFileSink F O × ℕ → Type 0
Fills n k size s r =
    Layout n k r.0
    × (r.1 ≡ min size (buffer_size - s.buf_pos))
    × (r.0.ring_pos ≡ s.ring_pos + r.1)
    × (r.0.ring_size ≡ s.ring_size)
    × (r.0.chunk_size ≡ s.chunk_size)

pub fill_buffer_lem :
    {F O : Type 0} (n k size : ℕ) (s : RingFileSink F O) (bytes : List ℕ)
    → Layout n k s
    → Returns (Fills n k size s) (fill_buffer s bytes size)
unfolding fill_buffer
fill_buffer_lem n k size s bytes v = ground (arith, room k n s.chunk_size)

-- The chunk that the position is in once a full buffer is closed.
unfoldable pub next_chunk : {F O : Type 0} → ℕ → ℕ → RingFileSink F O → ℕ
next_chunk n k s =
    if s.chunk_pos + buffer_size == s.chunk_size then if suc k == n then 0 else suc k else k

module _ {F O : Type 0} (fs : File F) (on_end_of_chunk : O → ℕ → O) where
  -- The sizes stay; if nothing failed, the buffer is empty and the position goes on, or back to 0.
  abbrev pub Closes : ℕ → ℕ → RingFileSink F O → RingFileSink F O × Bool → Type 0
  Closes n next s r =
      (r.0.ring_size ≡ s.ring_size)
      × (r.0.chunk_size ≡ s.chunk_size)
      × (r.1 ≡ true
          → Layout n next r.0
            × (r.0.buf_pos ≡ 0)
            × (r.0.ring_pos ≡ (if s.ring_pos == s.ring_size then 0 else s.ring_pos)))

  pub end_buffer_lem :
      (n k : ℕ) (s : RingFileSink F O)
      → Layout n k s
      → s.buf_pos ≡ buffer_size
      → Returns (Closes n (next_chunk n k s) s) (end_buffer fs on_end_of_chunk s)
  unfolding end_buffer end_chunk end_ring next_chunk
  end_buffer_lem n k s v full = ground (
    arith,
    room k n s.chunk_size v.in_ring,
    room (suc k) n s.chunk_size,
    multiple k s.chunk_size,
    whole k n s.chunk_size,
    whole k (suc k) s.chunk_size refl,
  )
