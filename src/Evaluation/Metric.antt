-- ===== src/Evaluation/Metric.antt =====
-- coleman/evaluation/base.py, and the checks of coleman/evaluation/napfd.py. Verdicts and error
-- counts are natural numbers; a duration is of a type with the operations of floats; a NumPy array is
-- a list, a mask a list of Booleans.
use coleman.Base.{
  pos_part, ℕ, ◌+◌, ◌*◌, Bool, ◌&&◌, not, Option, none, some, List, [], ◌∷◌, map, ltb, ◌==◌,
  if◌then◌else◌, Result, ok, ◌>>◌, raise_if, length, is_empty, sum, ℤ,
}

-- The operations of floats on durations.
pub record Clock (V : Type 0) : Type 0 where
  pub nought : V
  pub plus : V → V → V
  pub within : V → V → Bool

pub record TestRecord (V : Type 0) : Type 0 where
  pub name : ℕ
  pub duration : V
  pub verdict : ℕ
  pub num_errors : ℕ

pub data ErrorKey : Type 0 where
  by_verdict by_errors : ErrorKey

-- The mode selects by time, except for a subset size.
pub data BudgetMode : Type 0 where
  by_time subset_size : BudgetMode

-- `budget_value` is what `int` gives of the float.
pub record Metric (V : Type 0) : Type 0 where
  pub available_time : V
  pub budget_mode : BudgetMode
  pub budget_value : Option ℤ
  pub scheduled_testcases : List ℕ
  pub unscheduled_testcases : List ℕ
  pub detection_ranks : List ℕ
  pub detection_ranks_time : List V
  pub detection_ranks_failures : List ℕ
  pub ttf_duration : V
  pub detected_failures : ℕ
  pub undetected_failures : ℕ

-- What `process_test_suite` returns.
pub record Totals (V : Type 0) : Type 0 where
  pub costs : List V
  pub total_failure_count : ℕ
  pub total_failed_tests : ℕ

-- `reset`, the attributes that are modelled.
unfoldable pub reset : {V : Type 0} → Clock V → Metric V → Metric V
reset num m = record m {
  scheduled_testcases = [];
  unscheduled_testcases = [];
  detection_ranks = [];
  detection_ranks_time = [];
  detection_ranks_failures = [];
  ttf_duration = num.nought;
  detected_failures = 0;
  undetected_failures = 0;
}

-- `update_available_time` and `update_budget`
unfoldable pub update_available_time : {V : Type 0} → V → Metric V → Metric V
update_available_time time m = record m { available_time = time }

unfoldable pub update_budget : {V : Type 0} → BudgetMode → Option ℤ → Metric V → Metric V
update_budget mode value m = record m { budget_mode = mode; budget_value = value }

-- `np.cumsum` of whole numbers, from a sum so far.
abbrev pub cumsum : ℕ → List ℕ → List ℕ
cumsum so_far [] = []
cumsum so_far (x ∷ xs) = (so_far + x) ∷ cumsum (so_far + x) xs

-- `np.cumsum` of durations: each sum is that of floats.
module _ {V : Type 0} (num : Clock V) where
  abbrev pub cumulate_from : V → List V → List V
  cumulate_from so_far [] = []
  cumulate_from so_far (d ∷ ds) = num.plus so_far d ∷ cumulate_from (num.plus so_far d) ds

  abbrev pub cumulate : List V → List V
  cumulate [] = []
  cumulate (d ∷ ds) = d ∷ cumulate_from d ds

-- `values[mask]`
abbrev pub select {ℓ} : {A : Type ℓ} → List Bool → List A → List A
select [] xs = []
select (b ∷ bs) [] = []
select (b ∷ bs) (x ∷ xs) = if b then x ∷ select bs xs else select bs xs

abbrev pub both_masks : List Bool → List Bool → List Bool
both_masks [] bs = []
both_masks (a ∷ rest) [] = []
both_masks (a ∷ rest) (b ∷ bs) = (a && b) ∷ both_masks rest bs

-- `np.arange(n) < requested`, from an index on.
abbrev pub index_mask {ℓ} : {A : Type ℓ} → ℕ → ℕ → List A → List Bool
index_mask requested i [] = []
index_mask requested i (x ∷ xs) = ltb i requested ∷ index_mask requested (i + 1) xs

abbrev pub time_mask : {V : Type 0} → Clock V → V → List V → List Bool
time_mask num available [] = []
time_mask num available (c ∷ cs) = num.within c available ∷ time_mask num available cs

abbrev pub positive_mask : List ℕ → List Bool
positive_mask [] = []
positive_mask (e ∷ es) = ltb 0 e ∷ positive_mask es

abbrev pub flags : List Bool → List ℕ
flags [] = []
flags (b ∷ bs) = (if b then 1 else 0) ∷ flags bs

abbrev pub last_or {ℓ} : {A : Type ℓ} → A → List A → A
last_or default [] = default
last_or default (x ∷ xs) = last_or x xs

abbrev pub first_or {ℓ} : {A : Type ℓ} → A → List A → A
first_or default [] = default
first_or default (x ∷ xs) = x

abbrev pub dot : List ℕ → List ℕ → ℕ
dot [] ys = 0
dot (x ∷ xs) [] = 0
dot (x ∷ xs) (y ∷ ys) = x * y + dot xs ys

abbrev pub error_of : {V : Type 0} → ErrorKey → TestRecord V → ℕ
error_of by_verdict r = r.verdict
error_of by_errors r = r.num_errors

abbrev pub requested : {V : Type 0} → Metric V → ℕ
requested m = elim m.budget_value [ none ↦ 0 | some v ↦ pos_part v ]

-- `scheduled_mask`
unfoldable pub scheduled_mask : {V : Type 0} → Clock V → Metric V → List (TestRecord V) → List Bool
scheduled_mask num m suite =
    let durations = map (λ r. r.duration) suite in
    elim m.budget_mode [
      | subset_size ↦ index_mask (requested m) 0 durations
      | by_time ↦ time_mask num m.available_time (cumulate num durations)
    ]

-- The body of `process_test_suite` for a frame with rows.
unfoldable pub process_rows :
    {V : Type 0} → Clock V → ErrorKey → List (TestRecord V) → Metric V → Totals V × Metric V
process_rows num error_key suite m =
    let durations = map (λ r. r.duration) suite in
    let errors = map (error_of error_key) suite in
    let cum_duration = cumulate num durations in
    let scheduled = scheduled_mask num m suite in
    let unscheduled = map not scheduled in
    let rank = cumsum 0 (flags scheduled) in
    let detected = both_masks scheduled (positive_mask errors) in
    (
      record {
        costs = durations;
        total_failure_count = sum errors;
        total_failed_tests = sum (map (λ r. r.verdict) suite);
      },
      record m {
        scheduled_testcases = select scheduled (map (λ r. r.name) suite);
        unscheduled_testcases = select unscheduled (map (λ r. r.name) suite);
        detection_ranks = select detected rank;
        detection_ranks_failures = select detected errors;
        detection_ranks_time = select detected durations;
        ttf_duration = first_or (last_or num.nought cum_duration) (select detected cum_duration);
        undetected_failures = sum (select unscheduled errors);
        detected_failures = elim error_key [
          | by_verdict ↦ length (select detected errors)
          | by_errors ↦ dot (select detected errors) (select detected rank)
        ];
      },
    )

unfoldable pub process_test_suite :
    {V : Type 0} → Clock V → ErrorKey → List (TestRecord V) → Metric V → Totals V × Metric V
process_test_suite num error_key suite m =
    if is_empty suite
    then (record { costs = []; total_failure_count = 0; total_failed_tests = 0 }, m)
    else process_rows num error_key suite m

pub data MetricError : Type 0 where
  assertion_failed : MetricError

-- `NAPFDVerdictMetric.evaluate` up to the branch on the failures: the reset, the pass over the
-- suite, and the assertion.
unfoldable pub check_verdicts :
    {V : Type 0}
    → Clock V
    → List (TestRecord V)
    → Metric V
    → Result MetricError (Totals V × Metric V)
check_verdicts num suite m =
    let (totals, m') = process_test_suite num by_verdict suite (reset num m) in
    raise_if (not (m'.undetected_failures + m'.detected_failures == totals.total_failure_count))
      assertion_failed
    >> ok (totals, m')
