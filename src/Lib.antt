-- ===== src/Lib.antt =====
-- mirakc-arib: the stages that handle the packets of a transport stream. A command is a chain of
-- stages: a packet source reads 188-byte packets and hands each to a sink; a filter is a sink that
-- hands some of them on to the next one; the recorder writes them to a ring file and sends messages
-- about the events; the collectors, the scanner, the synchronizer and the metadata filter write
-- documents of what the tables tell, and most of them end the command when they have it all. Each
-- stage is a record of its fields, each method a function from the state to the state after it, and
-- each file here names the source file it is about.
--
--  * Prelude (with Tests, Lists, Keyed, Distinct, Int): Booleans, lists, keyed lists and signed
--    integers over the native numbers; `Returns` (the code does not abort and its result satisfies a
--    predicate) and `Ensures` (if it does not abort, its result does).
--  * Tables: what is read of a packet and of the decoded PSI/SI tables, and the packetizer's interface.
--  * Sink: `PacketSink` of src/packet_sink.hh, with what a stage assumes of a sink that accepts all;
--    Sink.Stdout (Contents): `StdoutSink` of the same file.
--  * Pcr (Order, Time): the 27 MHz counter of src/tsduck_helper.hh, `ComparePcr`, and `TimeToPcr` of
--    src/base.hh, which `ConvertTimeToPcr` of src/program_filter.hh repeats.
--  * Source (Resync, Sync, Feed, Clean, Exact): `PacketSource` and `FileSource` of src/packet_source.hh.
--  * RingFile (Layout, Safety, Contents): `RingFileSink` of src/ring_file_sink.hh, over the `File` of
--    src/file.hh.
--  * Service (Filters, Sets, Ready, Safety, Forward): `ServiceFilter` of src/service_filter.hh.
--  * Program (Packets, Times, Range, Start, Moved, Sending, Window): `ProgramFilter` of
--    src/program_filter.hh, its tables in Program and its packets in Program.Packets.
--  * Seeker (Limits, Duration): `StartSeeker` of src/start_seeker.hh.
--  * Airtime (Reports): `AirtimeTracker` of src/airtime_tracker.hh.
--  * Clock (Follow): `ClockBaseline` and `Clock` of src/base.hh.
--  * Recorder (Handlers, Messages, Events, Protocol, Feed): `ServiceRecorder` of
--    src/service_recorder.hh, its state machine in Recorder and its tables and interface in
--    Recorder.Handlers.
--  * SidSet (Read): `SidSet` of src/base.hh; Stoi (Digits): `std::stoi` over the codes of a string.
--  * EitSection (Triple): `EitSection` of src/tsduck_helper.hh.
--  * EitProgress, EitProgress.Group and EitProgress.Services: the progress of a table, of a group of
--    tables, and of all services, of src/eit_collector.hh; with Table, View and Log (the abstract view
--    of a group as a log of what was received and excused), Count, Versions, Places, Kept and
--    Sound.
--  * EitCollector (Written, Rivals, Stops, Completed): `EitCollector` of src/eit_collector.hh.
--  * EitpfCollector (Written, Versions, Done): `EitpfCollector` of src/eitpf_collector.hh.
--  * PcrSynchronizer (Fields, Steps, Counts): `PcrSynchronizer` of src/pcr_synchronizer.hh.
--  * ServiceScanner (Scan): `ServiceScanner` of src/service_scanner.hh.
--  * MetadataFilter (Written): `ProgramMetadataFilter` of src/program_metadata_filter.hh.
--  * LogoCollector (Palette, Chunks): `LogoCollector` of src/logo_collector.hh.
--  * PesPrinter (Frames, Clocks): `PesPrinter` of src/pes_printer.hh.
--  * Options (Record, Collect): the loading of the options of src/main.cc.
--  * Tests (Files, Filters, Programs, Records, Schedules, Stages, Arguments): runs at concrete
--    inputs.
--
-- A method keeps the source's name in snake case, and a field its name without the last underscore. A
-- failed `MIRAKC_ARIB_ASSERT`, which aborts, is `none`, and so is a read outside a buffer; logging is
-- left out. The next sink, the file, the packetizers, the observer of a ring, the reader of the bytes
-- of a payload, the hour of a time, the test for subtitles, the engine of LibISDB and base64 are
-- parameters; where the code relies on something of them it is a record of laws or a hypothesis.
--
-- Section reassembly is TSDuck's: a stage gets each packet with the tables that its demux completes on
-- it, in order, and the calls that add and remove PIDs are kept as a list. A PCR that is absent or
-- `INVALID_PCR` is `none`. Times are milliseconds; an `int64_t` has no overflow here, the 8-bit gap
-- count of the clock wraps. Sets are lists without order that matters, maps are keyed lists, and those
-- whose size the code reads are kept sorted by key. A bitmap of the EIT collector is a function from
-- the segment and the section in it to a Boolean, and a document is the value it is made of.
--
-- Loops that have no structural bound take fuel. The write loop of `Flush` has one round more than
-- the buffer has bytes, since each round writes at least one, and so has that of `StdoutSink`; the
-- loop of `HandlePacket` of the ring one more than a packet has bytes; the read loop one more than
-- the bytes asked for; the loop that raises a negative PCR one more than the turns it is below 0.
-- `FeedPackets` takes its fuel as an argument and needs more than the bytes that are to come, or
-- than the packets where nothing else is to come, and `SendPmts` more than the packets left in the
-- packetizer's cycle.
--
-- Not modelled: the JSON text of the documents, with the descriptors of the events, and the printers'
-- text, since rapidjson, fmt and LibISDB make them; the logging and the trace of the progress; of
-- src/main.cc the wiring of the stages, `PosixFile` and the help texts; of src/base.hh the trimming
-- of strings, which nothing calls.
pub mod Prelude
pub mod Pcr
pub mod RingFile
pub mod Sink
pub mod Source
pub mod Tables
pub mod Service
pub mod Airtime
pub mod Clock
pub mod EitSection
pub mod EitProgress
pub mod EitCollector
pub mod SidSet
pub mod EitpfCollector
pub mod PcrSynchronizer
pub mod ServiceScanner
pub mod Stoi
pub mod Options
pub mod LogoCollector
pub mod PesPrinter
pub mod MetadataFilter
pub mod Recorder
pub mod Seeker
pub mod Program
pub mod Tests
