-- ===== src/Options/Record.antt =====
-- `record-service` of src/main.cc: the ring that `MakePacketSink` makes of the checked options.
use mirakc_arib.Prelude.{
  ℕ, ◌*◌, ◌/◌, ◌%◌, ◌^◌, ◌<◌, ◌≤◌, ◌≡◌, refl, ap, ◌∙◌, Bool, true, not, Option, none, some, ltb,
  leb, ◌==◌, Returns, Ensures, Ensures-bind, Ensures-assert, Ensures-asserted, Returns-map,
  Returns-both, Ensures-map, arith,
}
use native.Mathlib.Nat.{
  mul-le-mul_left, mul-le-mul_right, zero-mod, one-le-mul, div-add-mod', lt_of_mul-lt-mul_left,
}
use mirakc_arib.RingFile.{
  File, RingFileSink, buffer_size, max_chunk_size, max_num_chunks, create, set_position,
}
use mirakc_arib.RingFile.Layout.{IsValid}
use mirakc_arib.RingFile.Safety.{create-IsValid, set_position-IsValid}
use mirakc_arib.Recorder.{ServiceRecorderOption}
use mirakc_arib.Options.{RecordServiceArgs, to_uint64, load_start_pos, load_service_recorder_option}

-- The sizes that the ring accepts, and a position that is the start of one of its chunks.
pub record Fits (option : ServiceRecorderOption) : Type 0 where
  pub some_bytes : 0 < option.chunk_size
  pub chunk_bound : option.chunk_size ≤ max_chunk_size
  pub whole : option.chunk_size % buffer_size ≡ 0
  pub some_chunks : 0 < option.num_chunks
  pub chunks_bound : option.num_chunks ≤ max_num_chunks
  pub aligned : option.start_pos % option.chunk_size ≡ 0
  pub inside : option.start_pos < option.chunk_size * option.num_chunks

-- A position that is aligned and inside the ring.
abbrev IsStart : ℕ → ℕ → ℕ → Type 0
IsStart chunk_size num_chunks position =
    (position % chunk_size ≡ 0) × (position < chunk_size * num_chunks)

small_ring :
    (chunk_size num_chunks : ℕ)
    → chunk_size ≤ max_chunk_size
    → num_chunks ≤ max_num_chunks
    → chunk_size * num_chunks < 2 ^ 63
small_ring chunk_size num_chunks c n =
    omega (arith, mul-le-mul_right num_chunks c, mul-le-mul_left max_chunk_size n)

load_start_pos-IsStart :
    (start_pos : Option ℕ) (chunk_size num_chunks : ℕ)
    → 0 < chunk_size * num_chunks
    → chunk_size * num_chunks < 2 ^ 63
    → Ensures (IsStart chunk_size num_chunks) (load_start_pos start_pos chunk_size num_chunks)
unfolding load_start_pos
load_start_pos-IsStart none chunk_size num_chunks some_ small = (zero-mod chunk_size, some_)
load_start_pos-IsStart (some position) chunk_size num_chunks some_ small =
    Ensures-asserted (IsStart chunk_size num_chunks) (position % chunk_size == 0) _ (λ aligned.
      Ensures-asserted (IsStart chunk_size num_chunks)
        (ltb position (chunk_size * num_chunks % 2 ^ 64)) (some position)
        (λ inside.
          let whole : chunk_size * num_chunks % 2 ^ 64 ≡ chunk_size * num_chunks = omega arith in
          (ground arith, ground arith)))

load_service_recorder_option-Fits :
    (args : RecordServiceArgs) → Ensures Fits (load_service_recorder_option args)
unfolding load_service_recorder_option
load_service_recorder_option-Fits args =
    let c = to_uint64 args.chunk_size in
    let n = to_uint64 args.num_chunks in
    Ensures-asserted Fits (not (c == 0)) _ (λ some_bytes.
      Ensures-asserted Fits (c % buffer_size == 0) _ (λ whole.
        Ensures-asserted Fits (leb c max_chunk_size) _ (λ chunk_bound.
          Ensures-asserted Fits (not (n == 0)) _ (λ some_chunks.
            Ensures-asserted Fits (leb n max_num_chunks) _ (λ chunks_bound.
              let p : 0 < c * n = one-le-mul (ground arith) (ground arith) in
              let small = small_ring c n (ground arith) (ground arith) in
              Ensures-bind (IsStart c n) Fits (load_start_pos args.start_pos c n) _
                (load_start_pos-IsStart args.start_pos c n p small)
                (λ position start. record {
                  some_bytes = ground arith;
                  chunk_bound = ground arith;
                  whole = ground arith;
                  some_chunks = ground arith;
                  chunks_bound = ground arith;
                  aligned = start.0;
                  inside = start.1;
                }))))))

-- The ring of the options, moved to where the record goes on.
abbrev pub Starts : {F O : Type 0} → ServiceRecorderOption → RingFileSink F O × Bool → Type 0
Starts option r = IsValid option.num_chunks r.0 × (r.1 ≡ true → r.0.ring_pos ≡ option.start_pos)

create_size :
    {F : Type 0} (O : Type 0) (file : F) (chunk_size num_chunks : ℕ)
    → Ensures
        (λ sink. sink.chunk_size ≡ chunk_size)
        (create {F = F} {O = O} file chunk_size num_chunks)
unfolding create
create_size {F = F} O file chunk_size num_chunks =
    let Q = λ (sink : RingFileSink F O). sink.chunk_size ≡ chunk_size in
    Ensures-assert Q (ltb 0 chunk_size) _ (
      Ensures-assert Q (leb chunk_size max_chunk_size) _ (
        Ensures-assert Q (ltb 0 num_chunks) _ (
          Ensures-assert Q (leb num_chunks max_num_chunks) _
            (Ensures-assert Q (chunk_size % buffer_size == 0) _ refl))))

Fits-Starts :
    {F O : Type 0} (fs : File F) (on_end_of_chunk : O → ℕ → O) (file : F)
    (option : ServiceRecorderOption)
    → Fits option
    → Returns
        (λ sink. Returns (Starts option) (set_position fs on_end_of_chunk sink option.start_pos))
        (create {F = F} {O = O} file option.chunk_size option.num_chunks)
Fits-Starts {F = F} {O = O} fs on_end_of_chunk file option h =
    let c = option.chunk_size in
    let n = option.num_chunks in
    let start = option.start_pos in
    let chunk = start / c in
    let position : start / c * c ≡ start = omega (arith, div-add-mod' start c, h.aligned) in
    let below : chunk < n = lt_of_mul-lt-mul_left c (omega (arith, h.inside, position)) in
    let small = small_ring c n h.chunk_bound h.chunks_bound in
    let made =
      create-IsValid {F = F} O file c n h.some_bytes h.chunk_bound h.whole h.some_chunks
        h.chunks_bound in
    let sized = create_size {F = F} O file c n in
    let P = λ (sink : RingFileSink F O). IsValid n sink in
    let Q = λ (sink : RingFileSink F O). sink.chunk_size ≡ c in
    Returns-map (λ sink. P sink × Q sink)
      (λ sink. Returns (Starts option) (set_position fs on_end_of_chunk sink start))
      (create {F = F} {O = O} file c n)
      (Returns-both P Q (create {F = F} {O = O} file c n) made sized)
      (λ sink (valid, size).
        let at_ : chunk * sink.chunk_size ≡ start = ap (λ x. chunk * x) size ∙ position in
        let moved =
          set_position-IsValid fs on_end_of_chunk n chunk sink valid below
            (omega (arith, at_, h.inside, small)) in
        rw at_ at moved)

-- When the arguments of `record-service` are taken, the ring of their sizes is made without a failed
-- assertion, and so it can be moved to their start position: it is valid, and it stands there if the
-- file could be moved.
pub load_service_recorder_option-Starts :
    {F O : Type 0} (fs : File F) (on_end_of_chunk : O → ℕ → O) (file : F) (args : RecordServiceArgs)
    → Ensures
        (λ option.
          Returns
            (λ sink.
              Returns (Starts option) (set_position fs on_end_of_chunk sink option.start_pos))
            (create {O = O} file option.chunk_size option.num_chunks))
        (load_service_recorder_option args)
load_service_recorder_option-Starts fs on_end_of_chunk file args =
    Ensures-map Fits
      (λ option.
        Returns
          (λ sink. Returns (Starts option) (set_position fs on_end_of_chunk sink option.start_pos))
          (create file option.chunk_size option.num_chunks))
      (load_service_recorder_option args) (load_service_recorder_option-Fits args)
      (λ option fits. Fits-Starts fs on_end_of_chunk file option fits)
