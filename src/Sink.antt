-- ===== src/Sink.antt =====
-- The interface of `PacketSink` in src/packet_sink.hh, through which each stage of the pipeline
-- calls the next one, and `JsonlSink` of src/jsonl_sink.hh. A stage takes its downstream sink as a
-- parameter: a type of states and one function for each virtual method.
pub mod Stdout
use mirakc_arib.Prelude.{ℕ, ◌≡◌, Bool, true, List, [], ◌∷◌, ◌++◌}

-- `P` is the type of packets.
pub record PacketSink (S P : Type 0) : Type 0 where
  pub start : S → S × Bool
  pub handle_packet : S → P → S × Bool
  pub end_ : S → S
  pub exit_code : S → ℕ

-- `stdlib.h` and src/exit_code.hh
abbrev pub exit_success : ℕ
exit_success = 0

abbrev pub exit_failure : ℕ
exit_failure = 1

abbrev pub exit_retry : ℕ
exit_retry = 222

-- A sink that accepts every packet, seen as the packets that it has got.
pub record AcceptLaw {S P : Type 0} (sink : PacketSink S P) (got : S → List P) : Type 0 where
  pub accepts : (s : S) (p : P) → (sink.handle_packet s p).1 ≡ true
  pub records : (s : S) (p : P) → got (sink.handle_packet s p).0 ≡ got s ++ p ∷ []
