-- ===== src/Evaluation/Counting.antt =====
-- The counts of a pass over a suite.
use coleman.Base.{
  suc, ap, ◌∙◌, eq_self, ok, ℕ, ◌+◌, ◌≤◌, ◌≡◌, refl, inl, inr, Bool, true, false, not, List, [],
  ◌∷◌, map, arith, ltb, ltb→lt, Bool-cases, length, All, sum,
}
use coleman.Evaluation.Metric.{
  requested, BudgetMode, Metric, TestRecord, select, both_masks, positive_mask, scheduled_mask,
  process_rows, process_test_suite, check_verdicts, by_verdict, reset, error_of, time_mask,
  index_mask, cumulate, cumulate_from, Clock, Totals,
}

-- Of errors that are zero or one, those that a mask detects and those outside of it are all.
detected-count :
    (mask : List Bool) (errors : List ℕ)
    → length mask ≡ length errors
    → All (λ e. e ≤ 1) errors
    → sum (select (map not mask) errors)
        + length (select (both_masks mask (positive_mask errors)) errors)
      ≡ sum errors
detected-count [] [] same small = refl
detected-count [] (e ∷ es) same small = absurd (omega arith)
detected-count (b ∷ bs) [] same small = absurd (omega arith)
detected-count (true ∷ bs) (e ∷ es) same small =
    let rest = detected-count bs es (omega arith) small.1 in
    let one = small.0 in
    elim (Bool-cases (ltb 0 e)) [
      | inl p ↦ let more = ltb→lt 0 e p in rw p (omega arith)
      | inr p ↦ rw p (ground arith)
    ]
detected-count (false ∷ bs) (e ∷ es) same small =
    let rest = detected-count bs es (omega arith) small.1 in omega arith

module _ {V : Type 0} (num : Clock V) where
  length-time_mask : (available : V) (cs : List V) → length (time_mask num available cs) ≡ length cs
  length-time_mask available [] = refl
  length-time_mask available (c ∷ cs) = ap suc (length-time_mask available cs)

  length-cumulate_from :
      (so_far : V) (ds : List V) → length (cumulate_from num so_far ds) ≡ length ds
  length-cumulate_from so_far [] = refl
  length-cumulate_from so_far (d ∷ ds) = ap suc (length-cumulate_from (num.plus so_far d) ds)

  length-cumulate : (ds : List V) → length (cumulate num ds) ≡ length ds
  length-cumulate [] = refl
  length-cumulate (d ∷ ds) = ap suc (length-cumulate_from d ds)

length-index_mask {ℓ} :
    {A : Type ℓ} (size i : ℕ) (ds : List A) → length (index_mask size i ds) ≡ length ds
length-index_mask size i [] = refl
length-index_mask size i (d ∷ ds) = ap suc (length-index_mask size (i + 1) ds)

module _ {V : Type 0} (num : Clock V) where
  pub length-scheduled_mask :
      (m : Metric V) (suite : List (TestRecord V))
      → length (scheduled_mask num m suite) ≡ length (map (λ r. r.duration) suite)
  unfolding scheduled_mask
  length-scheduled_mask m suite = by_mode m.budget_mode
    where
      by_mode :
          (mode : BudgetMode)
          → length (elim mode [
            | BudgetMode.subset_size ↦ index_mask (requested m) 0 (map (λ r. r.duration) suite)
            | BudgetMode.by_time ↦
                time_mask num m.available_time (cumulate num (map (λ r. r.duration) suite))
          ])
            ≡ length (map (λ r. r.duration) suite)
      by_mode BudgetMode.subset_size = length-index_mask (requested m) 0 _
      by_mode BudgetMode.by_time =
          length-time_mask num m.available_time _
          ∙ length-cumulate num (map (λ r. r.duration) suite)

abbrev pub IsVerdict : {V : Type 0} → TestRecord V → Type 0
IsVerdict r = r.verdict ≤ 1

module _ {V : Type 0} (num : Clock V) where
  verdicts_small :
      (suite : List (TestRecord V))
      → All IsVerdict suite
      → All (λ e. e ≤ 1) (map (error_of by_verdict) suite)
  verdicts_small [] h = tt
  verdicts_small (r ∷ rs) h = (h.0, verdicts_small rs h.1)

  same_columns :
      (suite : List (TestRecord V))
      → length (map (λ r. r.duration) suite) ≡ length (map (error_of by_verdict) suite)
  same_columns [] = refl
  same_columns (r ∷ rs) = ap suc (same_columns rs)

  verdicts_counted :
      (suite : List (TestRecord V)) (m : Metric V)
      → All IsVerdict suite
      → let r = process_test_suite num by_verdict suite (reset num m) in
        r.1.undetected_failures + r.1.detected_failures ≡ r.0.total_failure_count
  unfolding process_test_suite process_rows reset
  verdicts_counted [] m h = omega arith
  verdicts_counted (r ∷ rs) m h =
      detected-count (scheduled_mask num (reset num m) (r ∷ rs))
        (map (error_of by_verdict) (r ∷ rs))
        (length-scheduled_mask num (reset num m) (r ∷ rs) ∙ same_columns (r ∷ rs))
        (verdicts_small (r ∷ rs) h)

  -- For a suite whose verdicts are zero or one, the assertion of `NAPFDVerdictMetric.evaluate`
  -- holds under every budget: the pass over the suite succeeds, and the detected and the
  -- undetected failures are all failures.
  pub check_verdicts-ok :
      (suite : List (TestRecord V)) (m : Metric V)
      → All IsVerdict suite
      → (totals : Totals V) × (m' : Metric V) × (check_verdicts num suite m ≡ ok (totals, m'))
        × (m'.undetected_failures + m'.detected_failures ≡ totals.total_failure_count)
  unfolding check_verdicts
  check_verdicts-ok suite m h =
      let (totals, m') = process_test_suite num by_verdict suite (reset num m) in
      let counted = verdicts_counted suite m h in
      (totals, m', rw (counted, eq_self totals.total_failure_count) refl, counted)
