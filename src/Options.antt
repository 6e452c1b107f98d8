-- ===== src/Options.antt =====
-- The options that src/main.cc makes of the command line. Its arguments are docopt's: a record holds
-- the values of those that a command reads, an absent one is `none`, and a string is a list of ASCII
-- codes. Times are milliseconds. `none` is an exception, `std::abort` or `exit`. `long` and `int64_t`
-- are signed numbers, and the PCR of a clock and the duration of the start seeker are taken to be no
-- less than 0. The logs, the name of the record's file and the flag for Unicode symbols are left out.
pub mod Record
pub mod Collect
use mirakc_arib.Prelude.{
  ◌&&◌, ℕ, ◌+◌, ◌-◌, ◌*◌, ◌%◌, ◌^◌, Bool, true, false, not, Option, none, some, List, [], ◌∷◌, ℤ,
  pos, negsuc, ltb_ℤ, leb_ℤ, insert, length, ltb, leb, ◌==◌, if◌then◌else◌, maybe, ◌>>=◌, ◌>>◌,
  assert,
}
use mirakc_arib.Stoi.{stoi}
use mirakc_arib.SidSet as SidSet
use mirakc_arib.SidSet.{SidSet, add_strings, to_uint16}
use mirakc_arib.Clock.{ClockBaseline, set_baseline_pid, set_baseline_pcr, set_baseline_time}
use mirakc_arib.PcrSynchronizer.{convert_unix_time_to_jst_time}
use mirakc_arib.RingFile.{buffer_size, max_chunk_size, max_num_chunks}
use mirakc_arib.Recorder.{ServiceRecorderOption}
use mirakc_arib.Service.{ServiceFilterOption}
use mirakc_arib.Program.{ProgramFilterOption}
use mirakc_arib.MetadataFilter.{ProgramMetadataFilterOption}
use mirakc_arib.Airtime.{AirtimeTrackerOption}
use mirakc_arib.Seeker.{StartSeekerOption}
use mirakc_arib.EitCollector.{EitCollectorOption}
use mirakc_arib.EitpfCollector.{EitpfCollectorOption}

-- `static_cast<size_t>`
unfoldable pub to_uint64 : ℤ → ℕ
to_uint64 (pos n) = n % 2 ^ 64
to_uint64 (negsuc n) = 2 ^ 64 - 1 - n % 2 ^ 64

-- `LoadSidSet` into an empty set.
unfoldable pub load_sid_set : Option (List (List ℕ)) → Option SidSet
load_sid_set sids = maybe sids (some SidSet.new) (λ list. add_strings list SidSet.new)

-- `LoadClockBaseline`
unfoldable pub load_clock_baseline : ℤ → ℕ → ℤ → ClockBaseline → Option ClockBaseline
load_clock_baseline pid pcr unix_time cbl =
    set_baseline_pcr (set_baseline_pid cbl (to_uint16 pid)) pcr >>= λ cbl'.
    some (set_baseline_time cbl' (convert_unix_time_to_jst_time unix_time))

-- The loop of `LoadComponentTags`.
unfoldable pub load_tags : List (List ℕ) → List ℕ → Option (List ℕ)
load_tags [] tags = some tags
load_tags (str ∷ strs) tags = stoi str >>= λ (val, read).
    assert (read == length str)
    >> (assert (not (ltb_ℤ val (pos 0)))
        >> (assert (not (leb_ℤ (pos 256) val))
            >> load_tags strs (insert (to_uint64 val % 256) tags)))

unfoldable pub load_component_tags : Option (List (List ℕ)) → Option (List ℕ)
load_component_tags list = maybe list (some []) (λ strs. load_tags strs [])

pub record CollectEitsArgs : Type 0 where
  pub sids : Option (List (List ℕ))
  pub xsids : Option (List (List ℕ))
  pub time_limit : Option ℤ
  pub streaming : Bool
  pub only_actual : Bool
  pub only_others : Bool

unfoldable pub load_eit_collector_option : CollectEitsArgs → Option EitCollectorOption
load_eit_collector_option args = load_sid_set args.sids >>= λ sids.
    load_sid_set args.xsids >>= λ xsids. some (record {
      sids = sids;
      xsids = xsids;
      time_limit = maybe args.time_limit (pos 30000) (λ limit. limit);
      streaming = args.streaming;
      collect_actual = not args.only_others;
      collect_others = not args.only_actual;
    })

pub record CollectEitpfArgs : Type 0 where
  pub sids : Option (List (List ℕ))
  pub streaming : Bool
  pub present : Bool
  pub following : Bool

unfoldable pub load_eitpf_collector_option : CollectEitpfArgs → Option EitpfCollectorOption
load_eitpf_collector_option args = load_sid_set args.sids >>= λ sids. some (record {
  sids = sids;
  streaming = args.streaming;
  present = not args.following;
  following = not args.present;
})

unfoldable pub load_service_filter_option : Option ℤ → ServiceFilterOption
load_service_filter_option sid = record { sid = maybe sid 0 to_uint16; time_limit = none }

pub record FilterProgramArgs : Type 0 where
  pub sid : ℤ
  pub eid : ℤ
  pub clock_pid : ℤ
  pub clock_pcr : ℕ
  pub clock_time : ℤ
  pub audio_tags : Option (List (List ℕ))
  pub video_tags : Option (List (List ℕ))
  pub start_margin : Option ℤ
  pub end_margin : Option ℤ
  pub wait_until : Option ℤ
  pub pre_streaming : Bool

unfoldable pub load_program_filter_option : FilterProgramArgs → Option ProgramFilterOption
load_program_filter_option args = load_component_tags args.audio_tags >>= λ audio_tags.
    load_component_tags args.video_tags >>= λ video_tags. some (record {
      sid = to_uint16 args.sid;
      eid = to_uint16 args.eid;
      clock_pid = to_uint16 args.clock_pid;
      clock_pcr = args.clock_pcr;
      clock_time = convert_unix_time_to_jst_time args.clock_time;
      audio_tags = audio_tags;
      video_tags = video_tags;
      start_margin = maybe args.start_margin (pos 0) (λ margin. margin);
      end_margin = maybe args.end_margin (pos 0) (λ margin. margin);
      wait_until = maybe args.wait_until none (λ time. some (convert_unix_time_to_jst_time time));
      pre_streaming = args.pre_streaming;
    })

unfoldable pub load_program_metadata_filter_option : Option ℤ → ProgramMetadataFilterOption
load_program_metadata_filter_option sid = record { sid = maybe sid 0 to_uint16 }

unfoldable pub load_airtime_tracker_option : ℤ → ℤ → AirtimeTrackerOption
load_airtime_tracker_option sid eid = record { sid = to_uint16 sid; eid = to_uint16 eid }

-- Without a limit the program ends with the help text. `max_packets` is a `uint32_t`, to which the
-- `size_t` is cut.
unfoldable pub load_start_seeker_option : ℤ → Option ℕ → Option ℤ → Option StartSeekerOption
load_start_seeker_option sid max_duration max_packets =
    let duration = maybe max_duration 0 (λ value. value) in
    let packets = maybe max_packets 0 to_uint64 % 2 ^ 32 in
    assert (not (duration == 0 && packets == 0))
    >> some (record { sid = to_uint16 sid; max_duration = duration; max_packets = packets })

pub record RecordServiceArgs : Type 0 where
  pub sid : ℤ
  pub chunk_size : ℤ
  pub num_chunks : ℤ
  pub start_pos : Option ℕ

-- The checks of `--start-pos`. The product is one of `uint64_t`.
unfoldable pub load_start_pos : Option ℕ → ℕ → ℕ → Option ℕ
load_start_pos start_pos chunk_size num_chunks = maybe start_pos (some 0) (λ position.
    assert (position % chunk_size == 0)
    >> (assert (ltb position (chunk_size * num_chunks % 2 ^ 64)) >> some position))

unfoldable pub load_service_recorder_option : RecordServiceArgs → Option ServiceRecorderOption
load_service_recorder_option args =
    let chunk_size = to_uint64 args.chunk_size in
    let num_chunks = to_uint64 args.num_chunks in
    assert (not (chunk_size == 0))
    >> (assert (chunk_size % buffer_size == 0)
        >> (assert (leb chunk_size max_chunk_size)
            >> (assert (not (num_chunks == 0))
                >> (assert (leb num_chunks max_num_chunks)
                    >> (load_start_pos args.start_pos chunk_size num_chunks >>= λ start_pos.
                        some (record {
                          sid = to_uint16 args.sid;
                          chunk_size = chunk_size;
                          num_chunks = num_chunks;
                          start_pos = start_pos;
                        }))))))
