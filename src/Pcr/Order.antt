-- ===== src/Pcr/Order.antt =====
-- What `ComparePcr` of src/tsduck_helper.hh decides about two points of a counter that wraps.
use mirakc_arib.Prelude.{ℕ, ◌+◌, ◌-◌, ◌*◌, ◌%◌, ◌≤◌, ◌<◌, ◌≡◌, ◌↔◌, pos, negsuc, ◌≤ℤ◌, ◌<ℤ◌, arith}
use mirakc_arib.Pcr.{max_pcr_ext, pcr_upper_bound, split_pcr, compare_pcr}

-- A point that lies `d` ticks ahead of a valid PCR, more than none and at most half a turn, is seen
-- as ahead by exactly `d`, whether or not the counter has wrapped in between.
pub compare_pcr_behind :
    (pcr d : ℕ)
    → pcr < pcr_upper_bound
    → 0 < d
    → 2 * d ≤ pcr_upper_bound
    → compare_pcr pcr ((pcr + d) % pcr_upper_bound) ≡ negsuc (d - 1)
unfolding compare_pcr
compare_pcr_behind pcr d h p q = ground arith

-- For valid values the result is non-negative exactly when the left value is at or above the right
-- one by less than half a turn.
pub compare_pcr_nonneg_iff :
    (lhs rhs : ℕ)
    → lhs < pcr_upper_bound
    → rhs < pcr_upper_bound
    → (pos 0 ≤ℤ compare_pcr lhs rhs) ↔ ((rhs ≤ lhs) × (2 * (lhs - rhs) < pcr_upper_bound))
unfolding compare_pcr
compare_pcr_nonneg_iff lhs rhs h k = ground arith

-- Where the counter, from a valid PCR, passes its upper bound within `d` ticks, at most half a
-- turn, the later value compares as less than the earlier one.
pub compare_pcr_wrapped :
    (pcr d : ℕ)
    → pcr < pcr_upper_bound
    → 0 < d
    → 2 * d ≤ pcr_upper_bound
    → pcr_upper_bound ≤ pcr + d
    → compare_pcr ((pcr + d) % pcr_upper_bound) pcr <ℤ pos 0
unfolding compare_pcr
compare_pcr_wrapped pcr d h p q w = ground arith

-- The parts that are printed determine the PCR, and the extension is below 300.
pub split_pcr_lem :
    (pcr : ℕ)
    → let (base, ext) = split_pcr pcr in (base * max_pcr_ext + ext ≡ pcr) × (ext < max_pcr_ext)
unfolding split_pcr
split_pcr_lem pcr = (omega arith, omega arith)
