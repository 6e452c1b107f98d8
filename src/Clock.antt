-- ===== src/Clock.antt =====
-- `ClockBaseline` and `Clock` of src/base.hh: the time of the stream, from the last PCR and the time
-- and PCR of the last TOT. A failed assertion is `none`. Times are milliseconds, signed. The local
-- time that `ts::Time::CurrentLocalTime()` reads is an argument.
pub mod Follow
use mirakc_arib.Prelude.{
  ℕ, ◌+◌, ◌-◌, ◌/◌, ◌%◌, Bool, true, false, not, ◌&&◌, Option, none, some, ℤ, pos, negsuc, sub_ℕ,
  ◌+ℤ◌, ◌-ℤ◌, ltb, leb, ◌==◌, if◌then◌else◌, ◌>>=◌, ◌>>◌, assert,
}
use mirakc_arib.Pcr.{max_pcr, pcr_upper_bound, pcr_ticks_per_sec, pcr_ticks_per_ms, time_to_pcr}
use mirakc_arib.Tables.{pid_null}

pub record ClockBaseline : Type 0 where
  pub time : ℤ
  pub pcr : ℕ
  pub pid : ℕ
  pub pcr_ready : Bool
  pub time_ready : Bool

abbrev pub new_baseline : ClockBaseline
new_baseline = record {
  time = pos 0;
  pcr = 0;
  pid = pid_null;
  pcr_ready = false;
  time_ready = false;
}

-- Division that truncates towards 0.
unfoldable pub quot : ℤ → ℕ → ℤ
quot (pos n) k = pos (n / k)
quot (negsuc n) k = pos 0 -ℤ pos ((n + 1) / k)

unfoldable pub is_baseline_ready : ClockBaseline → Bool
is_baseline_ready b = b.pcr_ready && b.time_ready

unfoldable pub baseline_pcr_to_time : ClockBaseline → ℕ → Option ℤ
baseline_pcr_to_time b pcr =
    assert (is_baseline_ready b) >> some (b.time +ℤ quot (sub_ℕ pcr b.pcr) pcr_ticks_per_ms)

unfoldable pub baseline_time_to_pcr : ClockBaseline → ℤ → Option ℕ
baseline_time_to_pcr b time = assert (is_baseline_ready b) >> some (time_to_pcr b.pcr b.time time)

unfoldable pub set_baseline_pid : ClockBaseline → ℕ → ClockBaseline
set_baseline_pid b pid = record b { pid = pid; pcr_ready = false; time_ready = false }

unfoldable pub set_baseline_pcr : ClockBaseline → ℕ → Option ClockBaseline
set_baseline_pcr b pcr = assert (leb pcr max_pcr) >> some (record b { pcr = pcr; pcr_ready = true })

unfoldable pub set_baseline_time : ClockBaseline → ℤ → ClockBaseline
set_baseline_time b time = record b { time = time; time_ready = true }

unfoldable pub invalidate_baseline : ClockBaseline → ClockBaseline
invalidate_baseline b = record b { pcr_ready = false; time_ready = false }

-- `kPcrGapCountThreshold`
abbrev pub pcr_gap_count_threshold : ℕ
pcr_gap_count_threshold = 4

pub record Clock : Type 0 where
  pub baseline : ClockBaseline
  pub baseline_local_time : ℤ
  pub last_pcr : ℕ
  pub pcr_gap_count : ℕ
  pub ready : Bool
  pub pcr_wrap_around : Bool

unfoldable pub create : ClockBaseline → Clock
create baseline = record {
  baseline = baseline;
  baseline_local_time = pos 0;
  last_pcr = 0;
  pcr_gap_count = 0;
  ready = false;
  pcr_wrap_around = false;
}

unfoldable pub has_pid : Clock → Bool
has_pid c = not (c.baseline.pid == pid_null)

unfoldable pub is_ready : Clock → Bool
unfolding is_baseline_ready
is_ready c = c.ready && is_baseline_ready c.baseline

-- The last PCR, with the turn that the counter has made since the baseline.
unfoldable pub unwrapped : Clock → ℕ
unwrapped c = if c.pcr_wrap_around then c.last_pcr + pcr_upper_bound else c.last_pcr

unfoldable pub now : Clock → ℤ → Option ℤ
now c local_time =
    let running =
      (if c.pcr_wrap_around then assert (ltb 0 (unwrapped c)) else assert true)
      >> baseline_pcr_to_time c.baseline (unwrapped c) in
    if is_ready c then running else some (c.baseline.time +ℤ (local_time -ℤ c.baseline_local_time))

unfoldable pub set_pid : Clock → ℕ → Clock
set_pid c pid = record c { baseline = set_baseline_pid c.baseline pid; ready = false }

unfoldable pub sync_pcr : Clock → Option Clock
sync_pcr c = set_baseline_pcr c.baseline c.last_pcr >>= λ baseline.
    some (record c { baseline = baseline; pcr_wrap_around = false })

unfoldable pub update_time : Clock → ℤ → ℤ → Option Clock
update_time c local_time time =
    let c' = record c {
      baseline = set_baseline_time c.baseline time;
      baseline_local_time = local_time;
    } in
    if c.ready then sync_pcr c' else some c'

unfoldable pub compute_delta : ℕ → ℕ → ℕ
compute_delta pcr base_pcr =
    if ltb pcr base_pcr then pcr_upper_bound - base_pcr + pcr else pcr - base_pcr

unfoldable pub invalidate : Clock → Clock
invalidate c = record c {
  baseline = invalidate_baseline c.baseline;
  last_pcr = 0;
  ready = false;
  pcr_wrap_around = false;
}

-- The rest of `UpdatePcr` for a PCR that is taken.
unfoldable pub take_pcr : Clock → ℕ → Option Clock
take_pcr c pcr =
    let c' = record c {
      last_pcr = pcr;
      ready = true;
      pcr_wrap_around = if ltb pcr c.last_pcr then true else c.pcr_wrap_around;
    } in
    if is_baseline_ready c.baseline then some c' else sync_pcr c'

-- A gap of a second or more: `pcr_gap_count_` has 8 bits.
unfoldable pub count_gap : Clock → Clock
count_gap c =
    let c' = record c { pcr_gap_count = (c.pcr_gap_count + 1) % 256 } in
    if leb c'.pcr_gap_count pcr_gap_count_threshold then c' else invalidate c'

unfoldable pub update_pcr : Clock → ℕ → Option Clock
update_pcr c pcr =
    let checked =
      if leb pcr_ticks_per_sec (compute_delta pcr c.last_pcr)
      then some (count_gap c)
      else take_pcr (record c { pcr_gap_count = 0 }) pcr in
    assert (leb pcr max_pcr) >> (if is_ready c then checked else take_pcr c pcr)

unfoldable pub pcr_to_time : Clock → ℕ → Option ℤ
pcr_to_time c pcr = assert (leb pcr max_pcr) >> baseline_pcr_to_time c.baseline pcr
