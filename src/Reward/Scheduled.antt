-- ===== src/Reward/Scheduled.antt =====
-- The pass over a suite, and a TimeRank on its metric.
use coleman.Base.{length-map}
use coleman.Base.{
  sym, ◌∙◌, subst, ℕ, ◌+◌, ◌≤◌, ◌<◌, ◌≡◌, refl, inl, inr, Bool, true, false, List, [], ◌∷◌, map,
  arith, Bool-cases, ok, length, is_empty, All, sum,
}
use coleman.Evaluation.Metric.{
  Clock, Metric, TestRecord, ErrorKey, cumsum, select, both_masks, positive_mask, flags, error_of,
  scheduled_mask, process_rows, process_test_suite, reset,
}
use coleman.Evaluation.Counting.{length-scheduled_mask}
use coleman.Reward.Ranks.{Floats, zeros, array_place, all_in_bounds, scaled, time_rank}

-- A rank of one of `n` tests.
abbrev IsRank : ℕ → ℕ → Type 0
IsRank n r = (0 < r) × (r ≤ n)

all_in_bounds-IsRank :
    (n : ℕ) (ranks : List ℕ)
    → All (IsRank n) ranks
    → all_in_bounds n (map (array_place n) ranks) ≡ true
all_in_bounds-IsRank n [] h = refl
all_in_bounds-IsRank n (r ∷ ranks) h =
    let (low, high) = h.0 in let rest = all_in_bounds-IsRank n ranks h.1 in ground arith

-- The ranks count the scheduled tests, so that none is past them.
select-IsRank :
    (n so_far : ℕ) (scheduled positive : List Bool)
    → so_far + sum (flags scheduled) ≤ n
    → All (IsRank n) (select (both_masks scheduled positive) (cumsum so_far (flags scheduled)))
select-IsRank n so_far [] positive h = tt
select-IsRank n so_far (b ∷ bs) [] h = tt
select-IsRank n so_far (true ∷ bs) (true ∷ ps) h =
    ((omega arith, omega arith), select-IsRank n (so_far + 1) bs ps (omega arith))
select-IsRank n so_far (true ∷ bs) (false ∷ ps) h = select-IsRank n (so_far + 1) bs ps (omega arith)
select-IsRank n so_far (false ∷ bs) (p ∷ ps) h = select-IsRank n (so_far + 0) bs ps (omega arith)

length-select {ℓ} :
    {A : Type ℓ} (scheduled : List Bool) (xs : List A)
    → length scheduled ≡ length xs
    → length (select scheduled xs) ≡ sum (flags scheduled)
length-select [] xs h = refl
length-select (b ∷ bs) [] h = absurd (omega arith)
length-select (true ∷ bs) (x ∷ xs) h = omega (arith, length-select bs xs (omega arith))
length-select (false ∷ bs) (x ∷ xs) h = omega (arith, length-select bs xs (omega arith))

time_rank-returns :
    {V W : Type 0} (out : Floats W) (m : Metric V) (prioritized : List ℕ)
    → All (IsRank (length m.scheduled_testcases)) m.detection_ranks
    → (rewards : List W) × (time_rank out m prioritized ≡ ok rewards)
unfolding time_rank
time_rank-returns out m prioritized h =
    let inside = all_in_bounds-IsRank (length m.scheduled_testcases) m.detection_ranks h in
    elim (Bool-cases (is_empty m.detection_ranks)) [
      | inl none_detected ↦ (zeros out prioritized, rw none_detected refl)
      | inr detected ↦ (scaled out m prioritized, rw (detected, inside) refl)
    ]

-- For every suite, budget, error key and prioritization, the time rank returns on the metric that
-- a pass over the suite leaves after a reset: no detection rank is outside of the scheduled tests.
pub time_rank-process_test_suite :
    {V W : Type 0} (num : Clock V) (out : Floats W) (error_key : ErrorKey)
    (suite : List (TestRecord V)) (m : Metric V) (prioritized : List ℕ)
    → (rewards : List W) × (time_rank out
          (process_test_suite num error_key suite (reset num m)).1
          prioritized
        ≡ ok rewards)
unfolding process_test_suite process_rows reset
time_rank-process_test_suite num out error_key [] m prioritized =
    time_rank-returns out _ prioritized tt
time_rank-process_test_suite num out error_key (r ∷ suite) m prioritized =
    let tests = r ∷ suite in
    let mask = scheduled_mask num (reset num m) tests in
    let count = length-select mask (map (λ t. t.name) tests) (
      length-scheduled_mask num (reset num m) tests
      ∙ (length-map (λ t. t.duration) tests ∙ sym (length-map (λ t. t.name) tests))) in
    let within : 0 + sum (flags mask) ≤ sum (flags mask) = omega arith in
    time_rank-returns out _ prioritized (
      subst
        (λ n. All (IsRank n) (
          select (both_masks mask (positive_mask (map (error_of error_key) tests)))
            (cumsum 0 (flags mask))))
        (sym count)
        (select-IsRank (sum (flags mask)) 0 mask (positive_mask (map (error_of error_key) tests))
          within))
