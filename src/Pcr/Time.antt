-- ===== src/Pcr/Time.antt =====
-- The conversion of a time to a PCR, in src/base.hh and src/program_filter.hh.
use mirakc_arib.Prelude.{
  ℕ, zero, suc, ◌+◌, ◌-◌, ◌*◌, ◌/◌, ◌%◌, ◌<◌, ◌≡◌, ap, ℤ, pos, negsuc, pos_part, neg_part, ◌+ℤ◌,
  ◌-ℤ◌, scale, arith, int_laws, +ℤ_parts, scale_parts,
}
use mirakc_arib.Pcr.{pcr_upper_bound, pcr_ticks_per_ms, raise, wrap, raise_fuel, time_to_pcr}

-- The loop ends within its fuel, above 0.
raise-negsuc :
    (fuel n : ℕ)
    → n / pcr_upper_bound < fuel
    → raise (suc fuel) (negsuc n) ≡ pos (pcr_upper_bound - 1 - n % pcr_upper_bound)
unfolding raise ◌+ℤ◌
raise-negsuc zero n h = absurd (omega arith)
raise-negsuc (suc fuel) n h = ground (arith, raise-negsuc fuel (n - pcr_upper_bound))

-- At `m - n` the loop and the remainder give the residue of `m - n`.
wrap-raise :
    (z : ℤ) (m n : ℕ)
    → pos_part z + n ≡ neg_part z + m
    → (wrap (raise (raise_fuel z) z) + n) % pcr_upper_bound ≡ m % pcr_upper_bound
unfolding wrap
wrap-raise (pos k) m n e = unfold raise in omega arith
wrap-raise (negsuc k) m n e =
    rw (raise-negsuc (suc k / pcr_upper_bound + 1) k (omega arith)) (omega arith)

wrap-lt : (z : ℤ) → wrap z < pcr_upper_bound
unfolding wrap
wrap-lt (pos k) = omega arith
wrap-lt (negsuc k) = omega arith

later_parts :
    (k m ms : ℕ) (t : ℤ)
    → let z = pos m +ℤ scale k (t +ℤ pos ms -ℤ t) in pos_part z + 0 ≡ neg_part z + (m + k * ms)
later_parts k m ms t = rw elapsed (omega (arith, +ℤ_parts, scale_parts))
  where
    elapsed : t +ℤ pos ms -ℤ t ≡ pos ms
    elapsed = omega int_laws

negated_parts : (n : ℕ) → (pos_part (pos 0 -ℤ pos n) ≡ 0) × (neg_part (pos 0 -ℤ pos n) ≡ n)
unfolding ◌-ℤ◌
negated_parts n = ground arith

earlier_parts :
    (k m ms : ℕ) (t : ℤ)
    → let z = pos m +ℤ scale k (t -ℤ pos ms -ℤ t) in pos_part z + k * ms ≡ neg_part z + m
earlier_parts k m ms t = rw elapsed (
    omega (
      arith,
      +ℤ_parts,
      scale_parts,
      ap (λ (n : ℕ). k * n) (negated_parts ms).0,
      ap (λ (n : ℕ). k * n) (negated_parts ms).1,
    ))
  where
    elapsed : t -ℤ pos ms -ℤ t ≡ pos 0 -ℤ pos ms
    elapsed = omega int_laws

-- At a time `ms` milliseconds after the clock's it is the clock's PCR
-- advanced by `ms` milliseconds of ticks, modulo the upper bound.
pub time_to_pcr_later :
    (clock_pcr ms : ℕ) (clock_time : ℤ)
    → time_to_pcr clock_pcr clock_time (clock_time +ℤ pos ms)
      ≡ (clock_pcr + pcr_ticks_per_ms * ms) % pcr_upper_bound
unfolding time_to_pcr
time_to_pcr_later clock_pcr ms clock_time =
    let z = pos clock_pcr +ℤ scale pcr_ticks_per_ms (clock_time +ℤ pos ms -ℤ clock_time) in
    omega (
      arith,
      wrap-raise z _ 0 (later_parts pcr_ticks_per_ms clock_pcr ms clock_time),
      wrap-lt (raise (raise_fuel z) z),
    )

-- At a time `ms` milliseconds before the clock's, whose PCR is valid, advancing the result by `ms`
-- milliseconds of ticks gives the clock's PCR again.
pub time_to_pcr_earlier :
    (clock_pcr ms : ℕ) (clock_time : ℤ)
    → clock_pcr < pcr_upper_bound
    → (time_to_pcr clock_pcr clock_time (clock_time -ℤ pos ms) + pcr_ticks_per_ms * ms)
        % pcr_upper_bound
      ≡ clock_pcr
unfolding time_to_pcr
time_to_pcr_earlier clock_pcr ms clock_time h =
    let z = pos clock_pcr +ℤ scale pcr_ticks_per_ms (clock_time -ℤ pos ms -ℤ clock_time) in
    omega (arith, wrap-raise z _ _ (earlier_parts pcr_ticks_per_ms clock_pcr ms clock_time))

-- The result is a valid PCR.
pub time_to_pcr-lt :
    (clock_pcr : ℕ) (clock_time time : ℤ) → time_to_pcr clock_pcr clock_time time < pcr_upper_bound
unfolding time_to_pcr
time_to_pcr-lt clock_pcr clock_time time = wrap-lt _
