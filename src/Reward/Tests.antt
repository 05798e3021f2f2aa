-- ===== src/Reward/Tests.antt =====
-- Runs of the reward functions, and an instance of each theorem.
use coleman.Base.{◌*◌, ◌/◌, map, ◌+◌, leb, ℕ, ◌≡◌, refl, false, none, List, [], ◌∷◌, ok, err}
use coleman.Evaluation.Metric.{
  Clock, Metric, TestRecord, BudgetMode, ErrorKey, process_test_suite, reset,
}
use coleman.Reward.Ranks.{Floats, index_error, rn_fail, top_k_rn_fail, places, time_rank}
use coleman.Reward.Counts.{IsRewarded, top_k_rn_fail-IsRewarded}
use coleman.Reward.Documented.{documented, time_rank-documented}
use coleman.Reward.Scheduled.{time_rank-process_test_suite}

abbrev whole : Clock ℕ
whole = record { nought = 0; plus = λ a b. a + b; within = λ a b. leb a b }

-- Rewards in thousandths.
abbrev thousandths : Floats ℕ
thousandths = record { nought = 0; one = 1000; over = λ a b. (a * 1000) / b }

-- Three tests were scheduled, of which the second failed, and a fourth was not.
abbrev metric : Metric ℕ
metric = record {
  available_time = 9;
  budget_mode = BudgetMode.by_time;
  budget_value = none;
  scheduled_testcases = 5 ∷ 6 ∷ 7 ∷ [];
  unscheduled_testcases = 8 ∷ [];
  detection_ranks = 2 ∷ 3 ∷ [];
  detection_ranks_time = [];
  detection_ranks_failures = [];
  ttf_duration = 0;
  detected_failures = 2;
  undetected_failures = 0;
}

abbrev order : List ℕ
order = 5 ∷ 6 ∷ 7 ∷ 8 ∷ []

abbrev given : List ℕ
given = 0 ∷ 1000 ∷ 1000 ∷ 0 ∷ []

rn_fail_run : rn_fail thousandths metric order ≡ 0 ∷ 1000 ∷ 1000 ∷ 0 ∷ []
unfolding rn_fail
rn_fail_run = refl

top_k_run : top_k_rn_fail thousandths 2 false metric order ≡ 0 ∷ 500 ∷ 0 ∷ 0 ∷ []
unfolding top_k_rn_fail
top_k_run = refl

time_rank_run : time_rank thousandths metric order ≡ ok given
unfolding time_rank
time_rank_run = refl

-- A rank past the scheduled tests.
time_rank_refused :
    time_rank thousandths (record metric { detection_ranks = 4 ∷ [] }) order ≡ err index_error
unfolding time_rank
time_rank_refused = refl

top_k_rn_fail-IsRewarded_example :
    IsRewarded thousandths 2 1 order (top_k_rn_fail thousandths 2 false metric order)
top_k_rn_fail-IsRewarded_example = top_k_rn_fail-IsRewarded thousandths 2 false metric order refl

abbrev suite : List (TestRecord ℕ)
suite =
    record { name = 5; duration = 2; verdict = 0; num_errors = 0 }
    ∷ record { name = 6; duration = 3; verdict = 1; num_errors = 2 }
    ∷ record { name = 7; duration = 5; verdict = 1; num_errors = 1 }
    ∷ []

time_rank-process_test_suite_example :
    (rewards : List ℕ) × (time_rank thousandths
        (process_test_suite whole ErrorKey.by_verdict suite (reset whole metric)).1
        order
      ≡ ok rewards)
time_rank-process_test_suite_example =
    time_rank-process_test_suite whole thousandths ErrorKey.by_verdict suite metric order

abbrev scheduled : List ℕ
scheduled = 0 ∷ 1000 ∷ 1000 ∷ []

scheduled_run : time_rank thousandths metric metric.scheduled_testcases ≡ ok scheduled
unfolding time_rank
scheduled_run = refl

time_rank-documented_example :
    scheduled ≡ map (λ r. thousandths.over r 2) (documented (places metric) 2 1 3)
time_rank-documented_example =
    time_rank-documented thousandths metric scheduled refl refl refl scheduled_run
