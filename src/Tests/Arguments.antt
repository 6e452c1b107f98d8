-- ===== src/Tests/Arguments.antt =====
-- The command line at concrete arguments.
use mirakc_arib.Prelude.{
  ℕ, refl, true, false, none, some, List, [], ◌∷◌, map, pos, Returns, Ensures, arith,
}
use mirakc_arib.Stoi.Digits.{decimal}
use mirakc_arib.RingFile.{create, set_position}
use mirakc_arib.Options.{
  RecordServiceArgs, CollectEitsArgs, load_service_recorder_option, load_eit_collector_option,
  load_component_tags,
}
use mirakc_arib.Options.Record.{Starts, load_service_recorder_option-Starts}
use mirakc_arib.Options.Collect.{
  Collects, AreTags, AreRead, load_eit_collector_option-Collects, load_component_tags-AreRead,
}
use mirakc_arib.Tests.{log_file}

-- Two chunks of 16 KiB, from the second on.
abbrev record_args : RecordServiceArgs
record_args = record {
  sid = pos 101;
  chunk_size = pos 16384;
  num_chunks = pos 2;
  start_pos = some 16384;
}

load_service_recorder_option-Starts_example :
    Ensures
      (λ option.
        Returns
          (λ sink. Returns (Starts option) (
            set_position log_file
              (λ positions position. position ∷ positions)
              sink
              option.start_pos))
          (create {O = List ℕ} [] option.chunk_size option.num_chunks))
      (load_service_recorder_option record_args)
load_service_recorder_option-Starts_example =
    load_service_recorder_option-Starts log_file (λ positions position. position ∷ positions) []
      record_args

abbrev collect_args : CollectEitsArgs
collect_args = record {
  sids = some (map decimal (101 ∷ []));
  xsids = some (map decimal (1024 ∷ []));
  time_limit = none;
  streaming = false;
  only_actual = true;
  only_others = false;
}

load_eit_collector_option-Collects_example :
    Returns (Collects (101 ∷ []) (1024 ∷ [])) (load_eit_collector_option collect_args)
load_eit_collector_option-Collects_example =
    load_eit_collector_option-Collects (101 ∷ []) (1024 ∷ []) collect_args (omega arith, tt)
      (omega arith, tt) refl refl refl

load_component_tags-AreRead_example :
    Ensures
      (λ tags. AreTags tags × AreRead ((49 ∷ 54 ∷ []) ∷ []) tags)
      (load_component_tags (some ((49 ∷ 54 ∷ []) ∷ [])))
load_component_tags-AreRead_example = load_component_tags-AreRead ((49 ∷ 54 ∷ []) ∷ [])
