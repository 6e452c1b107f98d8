-- ===== src/Tests.antt =====
-- Runs of the model at concrete inputs, among them one for each theorem with hypotheses. The names
-- here are the collaborators that they share: a sink that keeps what it gets, and a file that is the
-- bytes written to it.
mod Files
mod Filters
mod Programs
mod Records
mod Schedules
mod Stages
mod Arguments
use mirakc_arib.Prelude.{
  ℕ, zero, suc, refl, Bool, true, Option, none, List, [], ◌∷◌, ◌++◌, pos, length,
}
use mirakc_arib.Sink.{PacketSink, AcceptLaw, exit_success}
use mirakc_arib.Tables.{Packet}
use mirakc_arib.RingFile.{File}

abbrev pub keeping_sink : {P : Type 0} → PacketSink (List P) P
keeping_sink = record {
  start = λ s. (s, true);
  handle_packet = λ s p. (s ++ p ∷ [], true);
  end_ = λ s. s;
  exit_code = λ s. exit_success;
}

abbrev pub kept : {P : Type 0} → List P → List P
kept s = s

abbrev pub keeping-AcceptLaw : {P : Type 0} → AcceptLaw (keeping_sink {P = P}) kept
keeping-AcceptLaw = record { accepts = λ s p. refl; records = λ s p. refl }

abbrev pub log_file : File (List ℕ)
log_file = record {
  write = λ f bytes. (f ++ bytes, pos (length bytes));
  sync = λ f. (f, true);
  trunc = λ f n. (f, true);
  seek = λ f n. (f, pos n);
}

-- A byte, `n` times.
abbrev pub bytes : ℕ → ℕ → List ℕ
bytes zero byte = []
bytes (suc n) byte = byte ∷ bytes n byte

abbrev pub packet_of : ℕ → Option ℕ → Packet
packet_of pid pcr = record { pid = pid; pusi = true; pcr = pcr; payload = [] }
