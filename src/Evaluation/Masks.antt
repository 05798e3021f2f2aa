-- ===== src/Evaluation/Masks.antt =====
-- The tests that a budget schedules are a prefix of the suite.
use coleman.Base.{
  true, false, All, ◌-◌, min, ◌∙◌, ltb, ltb→lt, ℕ, suc, ◌+◌, ◌≤◌, ◌≡◌, refl, ap, inl, inr, Bool,
  not, List, [], ◌∷◌, map, arith, Bool-cases, length, take, drop, sum,
}
use coleman.Evaluation.Metric.{
  reset, Metric, TestRecord, BudgetMode, select, cumulate, cumulate_from, Clock, time_mask,
  index_mask, scheduled_mask, requested, process_rows, process_test_suite, ErrorKey, by_time,
  subset_size,
}

-- A mask and a list of the same length: the selected elements are the first ones.
abbrev pub IsPrefixMask {ℓ} : {A : Type ℓ} → List Bool → List A → ℕ → Type ℓ
IsPrefixMask mask xs m = (select mask xs ≡ take m xs) × (select (map not mask) xs ≡ drop m xs)

-- A duration that never brings a sum back under a bound, as adding one that is not negative does
-- not.
abbrev pub IsGrowing : {V : Type 0} → Clock V → V → Type 0
IsGrowing {V} num d =
    (so_far available : V)
    → num.within so_far available ≡ false
    → num.within (num.plus so_far d) available ≡ false

-- The first `k` of the sums are within the time, and the next, if there is one, is not.
abbrev pub IsTimed : {V : Type 0} → Clock V → V → List V → ℕ → Type 0
IsTimed num available sums k =
    All (λ c. num.within c available ≡ true) (take k sums)
    × All (λ c. num.within c available ≡ false) (take 1 (drop k sums))

module _ {ℓ} {V : Type 0} {A : Type ℓ} (num : Clock V) (available : V) where
  none-selected :
      (so_far : V) (durations : List V) (xs : List A)
      → num.within so_far available ≡ false
      → All (IsGrowing num) durations
      → length durations ≡ length xs
      → IsPrefixMask (time_mask num available (cumulate_from num so_far durations)) xs 0
  none-selected so_far [] [] over growing same = (refl, refl)
  none-selected so_far [] (x ∷ xs) over growing same = absurd (omega arith)
  none-selected so_far (d ∷ ds) [] over growing same = absurd (omega arith)
  none-selected so_far (d ∷ ds) (x ∷ xs) over growing same =
      let more = growing.0 so_far available over in
      let (head, tail) = none-selected (num.plus so_far d) ds xs more growing.1 (omega arith) in
      rw more (head, ap (◌∷◌ x) tail)

  -- By time, from the sum of the tests so far with the next one.
  abbrev IsTimedPrefix : V → List V → List A → Type ℓ
  IsTimedPrefix sum durations xs =
      (k : ℕ) × IsPrefixMask (time_mask num available (sum ∷ cumulate_from num sum durations)) xs k
      × (k ≤ length xs)
      × IsTimed num available (sum ∷ cumulate_from num sum durations) k

  time_mask-IsPrefixMask :
      (sum : V) (durations : List V) (x : A) (xs : List A)
      → All (IsGrowing num) durations
      → length durations ≡ length xs
      → IsTimedPrefix sum durations (x ∷ xs)
  time_mask-IsPrefixMask sum [] x [] growing same = elim (Bool-cases (num.within sum available)) [
    | inl e ↦ (1, rw e (refl, refl), omega arith, ((e, tt), tt))
    | inr e ↦ (0, rw e (refl, refl), omega arith, (tt, (e, tt)))
  ]
  time_mask-IsPrefixMask sum [] x (y ∷ xs) growing same = absurd (omega arith)
  time_mask-IsPrefixMask sum (d ∷ ds) x [] growing same = absurd (omega arith)
  time_mask-IsPrefixMask sum (d ∷ ds) x (y ∷ xs) growing same =
      elim (Bool-cases (num.within sum available)) [
        | inl e ↦
            let (k, (head, tail), short, (inside, next)) =
              time_mask-IsPrefixMask (num.plus sum d) ds y xs growing.1 (omega arith) in
            (suc k, rw e (ap (◌∷◌ x) head, tail), omega arith, ((e, inside), next))
        | inr e ↦
            let (head, tail) = none-selected sum (d ∷ ds) (y ∷ xs) e growing same in
            (0, rw e (head, ap (◌∷◌ x) tail), omega arith, (tt, (e, tt)))
      ]

-- By size: the prefix has the requested number of tests, as far as there are so many.
index_mask-IsPrefixMask {ℓ κ} :
    {A : Type ℓ} {B : Type κ} (size i : ℕ) (durations : List B) (xs : List A)
    → length durations ≡ length xs
    → IsPrefixMask (index_mask size i durations) xs (min (size - i) (length xs))
index_mask-IsPrefixMask size i [] [] same =
    let none_there : min (size - i) 0 ≡ 0 = omega arith in rw none_there (refl, refl)
index_mask-IsPrefixMask size i [] (x ∷ xs) same = absurd (omega arith)
index_mask-IsPrefixMask size i (d ∷ ds) [] same = absurd (omega arith)
index_mask-IsPrefixMask size i (d ∷ ds) (x ∷ xs) same =
    let (head, tail) = index_mask-IsPrefixMask size (i + 1) ds xs (omega arith) in
    elim (Bool-cases (ltb i size)) [
      | inl e ↦
          let inside = ltb→lt i size e in
          let more : min (size - i) (suc (length xs)) ≡ suc (min (size - (i + 1)) (length xs)) =
            omega arith in
          rw (e, more) (ap (◌∷◌ x) head, tail)
      | inr e ↦
          let out : size ≤ i = ground arith in
          let none_here : min (size - i) (suc (length xs)) ≡ 0 = omega arith in
          let none_there : min (size - (i + 1)) (length xs) ≡ 0 = omega arith in
          rw (e, none_here)
            (
              head ∙ ap (λ k. take k xs) none_there,
              ap (◌∷◌ x) (tail ∙ ap (λ k. drop k xs) none_there),
            )
    ]

module _ {V : Type 0} where
  abbrev pub durations_of : List (TestRecord V) → List V
  durations_of suite = map (λ r. r.duration) suite

  abbrev pub names_of : List (TestRecord V) → List ℕ
  names_of suite = map (λ r. r.name) suite

  same_length :
      {B C : Type 0} (f : TestRecord V → B) (g : TestRecord V → C) (suite : List (TestRecord V))
      → length (map f suite) ≡ length (map g suite)
  same_length f g [] = refl
  same_length f g (r ∷ rs) = ap suc (same_length f g rs)

  length-names_of : (suite : List (TestRecord V)) → length (names_of suite) ≡ length suite
  length-names_of [] = refl
  length-names_of (r ∷ rs) = ap suc (length-names_of rs)

module _ {V : Type 0} (num : Clock V) where
  -- How many tests a budget allows: the requested number, or as many as the time is enough for.
  abbrev pub IsBudgetBy : BudgetMode → Metric V → List (TestRecord V) → ℕ → Type 0
  IsBudgetBy subset_size m suite k = k ≡ min (requested m) (length suite)
  IsBudgetBy by_time m suite k = IsTimed num m.available_time (cumulate num (durations_of suite)) k

  abbrev pub IsBudget : Metric V → List (TestRecord V) → ℕ → Type 0
  IsBudget m = IsBudgetBy m.budget_mode m

  time_budget :
      (available : V) (suite : List (TestRecord V))
      → All (IsGrowing num) (durations_of suite)
      → (k : ℕ) × IsPrefixMask
          (time_mask num available (cumulate num (durations_of suite)))
          (names_of suite)
          k
        × (k ≤ length suite)
        × IsTimed num available (cumulate num (durations_of suite)) k
  time_budget available [] growing = (0, (refl, refl), omega arith, (tt, tt))
  time_budget available (r ∷ rs) growing =
      let n = length-names_of rs in
      let same = same_length (λ (t : TestRecord V). t.duration) (λ t. t.name) rs in
      let (k, prefix, short, timed) =
        time_mask-IsPrefixMask num available r.duration (durations_of rs) r.name (names_of rs)
          growing.1 same in
      (k, prefix, omega arith, timed)

  scheduled_mask-IsPrefixMask :
      (m : Metric V) (suite : List (TestRecord V))
      → All (IsGrowing num) (durations_of suite)
      → (k : ℕ) × IsPrefixMask (scheduled_mask num m suite) (names_of suite) k
        × (k ≤ length suite)
        × IsBudget m suite k
  unfolding scheduled_mask
  scheduled_mask-IsPrefixMask m suite growing = by_mode m.budget_mode
    where
      by_mode :
          (mode : BudgetMode)
          → (k : ℕ) × IsPrefixMask
              (elim mode [
                | subset_size ↦ index_mask (requested m) 0 (durations_of suite)
                | by_time ↦ time_mask num m.available_time (cumulate num (durations_of suite))
              ])
              (names_of suite)
              k
            × (k ≤ length suite)
            × IsBudgetBy mode m suite k
      by_mode subset_size =
          let n = length-names_of suite in
          let same = same_length (λ (t : TestRecord V). t.duration) (λ t. t.name) suite in
          (
            min (requested m - 0) (length (names_of suite)),
            index_mask-IsPrefixMask (requested m) 0 (durations_of suite) (names_of suite) same,
            omega arith,
            omega arith,
          )
      by_mode by_time = time_budget m.available_time suite growing

  reset-IsBudget :
      (mode : BudgetMode) (m : Metric V) (suite : List (TestRecord V)) (k : ℕ)
      → IsBudgetBy mode (reset num m) suite k
      → IsBudgetBy mode m suite k
  unfolding reset
  reset-IsBudget subset_size m suite k h = h
  reset-IsBudget by_time m suite k h = h

  -- The pass over a suite, from the attributes that `reset` leaves.
  abbrev pub processed : ErrorKey → List (TestRecord V) → Metric V → Metric V
  processed error_key suite m = (process_test_suite num error_key suite (reset num m)).1

  -- For every suite in which no duration brings a sum back under a bound, and either error key,
  -- the pass over the suite schedules a prefix of it and leaves the rest unscheduled, both in
  -- order. With a subset size the prefix has the requested number of tests, as far as there are so
  -- many; with a time, the cumulative sums of its durations, with the addition and the comparison
  -- of floats, are within the available time, and the next sum, if there is one, is not.
  pub process_test_suite-IsBudget :
      (error_key : ErrorKey) (suite : List (TestRecord V)) (m : Metric V)
      → All (IsGrowing num) (durations_of suite)
      → (k : ℕ) × ((processed error_key suite m).scheduled_testcases ≡ take k (names_of suite))
        × ((processed error_key suite m).unscheduled_testcases ≡ drop k (names_of suite))
        × (k ≤ length suite)
        × IsBudget m suite k
  unfolding process_test_suite process_rows reset
  process_test_suite-IsBudget error_key [] m growing =
      let (k, _, short, budget) = scheduled_mask-IsPrefixMask m [] growing in
      let none_left : k ≡ 0 = omega arith in
      (k, rw none_left refl, rw none_left refl, short, budget)
  process_test_suite-IsBudget error_key (r ∷ rs) m growing =
      let (k, (chosen, left), short, budget) =
        scheduled_mask-IsPrefixMask (reset num m) (r ∷ rs) growing in
      (k, chosen, left, short, reset-IsBudget m.budget_mode m (r ∷ rs) k budget)
