-- ===== src/Pcr.antt =====
-- The PCR arithmetic of src/tsduck_helper.hh: a counter of 27 MHz ticks that returns to 0 at
-- `pcr_upper_bound`. A `ts::Time` is a number of milliseconds, signed; no `int64_t` overflow is
-- modelled. A PCR that the code has checked with `IsValidPcr` is a natural number.
pub mod Order
pub mod Time
use mirakc_arib.Prelude.{
  ℕ, zero, suc, ◌+◌, ◌-◌, ◌*◌, ◌/◌, ◌%◌, ◌^◌, Bool, ◌&&◌, ℤ, pos, negsuc, neg_part, sub_ℕ, abs,
  ◌+ℤ◌, ◌-ℤ◌, scale, ltb, leb_ℤ, if◌then◌else◌,
}

abbrev pub max_pcr_ext : ℕ
max_pcr_ext = 300

abbrev pub max_pcr : ℕ
max_pcr = (2 ^ 33 - 1) * max_pcr_ext + (max_pcr_ext - 1)

abbrev pub pcr_upper_bound : ℕ
pcr_upper_bound = max_pcr + 1

abbrev pub pcr_ticks_per_sec : ℕ
pcr_ticks_per_sec = 27 * 1000 * 1000

-- `ts::MilliSecPerSec` is 1000.
abbrev pub pcr_ticks_per_ms : ℕ
pcr_ticks_per_ms = pcr_ticks_per_sec / 1000

abbrev pub is_valid_pcr : ℤ → Bool
is_valid_pcr pcr = leb_ℤ (pos 0) pcr && leb_ℤ pcr (pos max_pcr)

-- The two numbers that `FormatPcr` prints.
unfoldable pub split_pcr : ℕ → ℕ × ℕ
split_pcr pcr = (pcr / max_pcr_ext, pcr % max_pcr_ext)

unfoldable pub compare_pcr : ℕ → ℕ → ℤ
compare_pcr lhs rhs =
    let a = sub_ℕ lhs rhs in
    let b = sub_ℕ lhs (pcr_upper_bound + rhs) in if ltb (abs a) (abs b) then a else b

-- `while (pcr < 0) { pcr += kPcrUpperBound; }`, with fuel.
unfoldable pub raise : ℕ → ℤ → ℤ
raise zero pcr = pcr
raise (suc fuel) (pos n) = pos n
raise (suc fuel) (negsuc n) = raise fuel (negsuc n +ℤ pos pcr_upper_bound)

-- `pcr % kPcrUpperBound` of a value that the loop has made non-negative; C++ keeps the sign of any
-- other, which never comes here.
unfoldable pub wrap : ℤ → ℕ
wrap (pos n) = n % pcr_upper_bound
wrap (negsuc n) = 0

-- The rounds that the loop takes from `pcr`.
abbrev pub raise_fuel : ℤ → ℕ
raise_fuel pcr = suc (neg_part pcr / pcr_upper_bound + 1)

-- `TimeToPcr` and `ConvertTimeToPcr`: the PCR at `time`, from the PCR and the time of the clock.
unfoldable pub time_to_pcr : ℕ → ℤ → ℤ → ℕ
unfolding raise wrap
time_to_pcr clock_pcr clock_time time =
    let pcr = pos clock_pcr +ℤ scale pcr_ticks_per_ms (time -ℤ clock_time) in
    wrap (raise (raise_fuel pcr) pcr)
