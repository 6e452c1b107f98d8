-- ===== src/EitProgress/Count.antt =====
-- `CalcProgressCount` and `CountSections` of src/eit_collector.hh against the flag of a table.
use mirakc_arib.Prelude.{
  ℕ, zero, suc, ◌*◌, ◌≤◌, ◌≡◌, refl, ◌∙◌, Bool, ◌||◌, ◌==◌, if◌then◌else◌, all_below, all_below_ext,
  sum_below, arith,
}
use mirakc_arib.EitProgress.{
  TableProgress, num_segments, check_completed, count_sections, calc_progress_count,
}

abbrev count_below : ℕ → (ℕ → Bool) → ℕ
count_below n p = sum_below n (λ i. if p i then 1 else 0)

count_below-le : (n : ℕ) (p : ℕ → Bool) → count_below n p ≤ n
count_below-le zero p = omega arith
count_below-le (suc n) p = ground (arith, count_below-le n p)

count_below-all_below : (n : ℕ) (p : ℕ → Bool) → (count_below n p == n) ≡ all_below n p
count_below-all_below zero p = refl
count_below-all_below (suc n) p = ground (arith, count_below-le n p, count_below-all_below n p)

count_below_mono : (n : ℕ) (p q : ℕ → Bool) → count_below n p ≤ count_below n (λ i. p i || q i)
count_below_mono zero p q = omega arith
count_below_mono (suc n) p q = ground (arith, count_below_mono n p q)

sum_below-le : (n k : ℕ) (f : ℕ → ℕ) → ((i : ℕ) → f i ≤ k) → sum_below n f ≤ n * k
sum_below-le zero k f h = omega arith
sum_below-le (suc n) k f h = omega (arith, h n, sum_below-le n k f h)

sum_below_mono : (n : ℕ) (f g : ℕ → ℕ) → ((i : ℕ) → f i ≤ g i) → sum_below n f ≤ sum_below n g
sum_below_mono zero f g h = omega arith
sum_below_mono (suc n) f g h = omega (arith, h n, sum_below_mono n f g h)

sum_below-all_below :
    (n k : ℕ) (f : ℕ → ℕ)
    → ((i : ℕ) → f i ≤ k)
    → (sum_below n f == n * k) ≡ all_below n (λ i. f i == k)
sum_below-all_below zero k f h = ground arith
sum_below-all_below (suc n) k f h =
    ground (arith, h n, sum_below-le n k f h, sum_below-all_below n k f h)

-- The numbers of collected sections and of finished ones are in order and at most the 256 that the
-- trace is of, and all 256 are finished exactly if the table is complete.
pub calc_progress_count-check_completed :
    (s : TableProgress)
    → (count_sections s ≤ calc_progress_count s)
      × (calc_progress_count s ≤ 256)
      × ((calc_progress_count s == 256) ≡ check_completed s)
unfolding count_sections calc_progress_count check_completed
calc_progress_count-check_completed s =
    let done : ℕ → ℕ → Bool = λ i j. s.collected i j || s.unused i j in
    let f : ℕ → ℕ = λ i. count_below 8 (done i) in
    (
      sum_below_mono num_segments (λ i. count_below 8 (s.collected i)) f
          (λ i. count_below_mono 8 (s.collected i) (s.unused i)),
      sum_below-le num_segments 8 f (λ i. count_below-le 8 (done i)),
      sum_below-all_below num_segments 8 f (λ i. count_below-le 8 (done i))
          ∙ all_below_ext num_segments (λ i. f i == 8) (λ i. all_below 8 (done i))
              (λ i hi. count_below-all_below 8 (done i)),
    )
