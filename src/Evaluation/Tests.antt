-- ===== src/Evaluation/Tests.antt =====
-- A pass over a small suite, and the witnesses of its properties.
use coleman.Base.{
  leb, All, ℕ, ◌+◌, ◌≤◌, ◌≡◌, refl, none, List, [], ◌∷◌, arith, ok, length, take, drop,
}
use coleman.Evaluation.Metric.{
  Clock, Metric, TestRecord, BudgetMode, ErrorKey, check_verdicts, reset, process_test_suite,
  process_rows, scheduled_mask, Totals,
}
use coleman.Evaluation.Masks.{
  process_test_suite-IsBudget, IsBudget, IsGrowing, durations_of, names_of, processed,
}
use coleman.Evaluation.Counting.{check_verdicts-ok}

abbrev test_of : ℕ → ℕ → ℕ → TestRecord ℕ
test_of n d v = record { name = n; duration = d; verdict = v; num_errors = v }

-- Whole durations.
abbrev whole : Clock ℕ
whole = record { nought = 0; plus = λ a b. a + b; within = λ a b. leb a b }

grows : (d : ℕ) → IsGrowing whole d
grows d so_far available h = ground (arith, h)

abbrev suite : List (TestRecord ℕ)
suite = test_of 7 2 0 ∷ test_of 8 3 1 ∷ test_of 9 4 1 ∷ []

abbrev metric : Metric ℕ
metric = record {
  available_time = 6;
  budget_mode = BudgetMode.by_time;
  budget_value = none;
  scheduled_testcases = [];
  unscheduled_testcases = [];
  detection_ranks = [];
  detection_ranks_time = [];
  detection_ranks_failures = [];
  ttf_duration = 0;
  detected_failures = 0;
  undetected_failures = 0;
}

ranked : (processed whole ErrorKey.by_verdict suite metric).detection_ranks ≡ 2 ∷ []
unfolding process_test_suite process_rows scheduled_mask reset
ranked = refl

growing : All (IsGrowing whole) (durations_of suite)
growing = (grows 2, (grows 3, (grows 4, tt)))

process_test_suite-IsBudget_example :
    (k : ℕ) × ((processed whole ErrorKey.by_verdict suite metric).scheduled_testcases
      ≡ take k (names_of suite))
    × ((processed whole ErrorKey.by_verdict suite metric).unscheduled_testcases
        ≡ drop k (names_of suite))
    × (k ≤ length suite)
    × IsBudget whole metric suite k
process_test_suite-IsBudget_example =
    process_test_suite-IsBudget whole ErrorKey.by_verdict suite metric growing

check_verdicts-ok_example :
    (totals : Totals ℕ) × (m : Metric ℕ) × (check_verdicts whole suite metric ≡ ok (totals, m))
    × (m.undetected_failures + m.detected_failures ≡ totals.total_failure_count)
check_verdicts-ok_example =
    check_verdicts-ok whole suite metric (omega arith, (omega arith, (omega arith, tt)))
