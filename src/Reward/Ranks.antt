-- ===== src/Reward/Ranks.antt =====
-- `evaluate` of rnfail.py, topk_rnfail.py and timerank.py in coleman/reward. The floats of the
-- rewards are a parameter, with zero, one and the quotient of two whole numbers.
use coleman.Base.{
  zero, ℕ, suc, min, Bool, true, ◌&&◌, not, none, some, List, [], ◌∷◌, ◌++◌, map, ltb, leb, ◌==◌,
  if◌then◌else◌, Result, ok, ◌>>◌, raise_if, length, drop, is_empty, contains, Dict, lookup, insert,
}
use coleman.Evaluation.Metric.{Metric, cumsum}

pub data RewardError : Type 0 where
  index_error : RewardError

pub record Floats (W : Type 0) : Type 0 where
  pub nought : W
  pub one : W
  pub over : ℕ → ℕ → W

abbrev pub zeros : {W : Type 0} → Floats W → List ℕ → List W
zeros num tests = map (λ t. num.nought) tests

-- Whether the rank is a failing one, over `n` ranks from `i` on.
abbrev pub hits : List ℕ → ℕ → ℕ → List Bool
hits failing i zero = []
hits failing i (suc n) = contains i failing ∷ hits failing (suc i) n

abbrev pub worth : {W : Type 0} → Floats W → W → Bool → W
worth num value hit = if hit then value else num.nought

-- One where the rank is a failing one, and else zero, over `n` ranks from `i` on.
abbrev pub marks : List ℕ → ℕ → ℕ → List ℕ
marks failing i zero = []
marks failing i (suc n) = (if contains i failing then 1 else 0) ∷ marks failing (suc i) n

-- `RNFailReward.evaluate`
unfoldable pub rn_fail : {V W : Type 0} → Floats W → Metric V → List ℕ → List W
rn_fail num m prioritized =
    if is_empty m.detection_ranks
    then zeros num prioritized
    else map (worth num num.one) (hits m.detection_ranks 1 (length prioritized))

-- The effective k: at most the tests, and with a time budget at most those that ran.
abbrev pub effective : {V : Type 0} → ℕ → Bool → Metric V → List ℕ → ℕ
effective top_k use_time_budget m prioritized =
    let k = min top_k (length prioritized) in
    if use_time_budget then min k (length m.scheduled_testcases) else k

-- `TopKRNFailReward.evaluate`
unfoldable pub top_k_rn_fail : {V W : Type 0} → Floats W → ℕ → Bool → Metric V → List ℕ → List W
top_k_rn_fail num top_k use_time_budget m prioritized =
    let k = effective top_k use_time_budget m prioritized in
    if k == 0
    then zeros num prioritized
    else map (worth num (num.over 1 k)) (hits m.detection_ranks 1 k)
      ++ zeros num (drop k prioritized)

-- The place, from one on, that a rank indexes in an array of `n`: the index -1 is its last.
abbrev pub array_place : ℕ → ℕ → ℕ
array_place n rank = if rank == 0 then n else rank

abbrev pub all_in_bounds : ℕ → List ℕ → Bool
all_in_bounds n [] = true
all_in_bounds n (p ∷ places) = ltb 0 p && leb p n && all_in_bounds n places

-- `rewards[failing_indices] = value`, from the place `i` on.
abbrev pub overwrite : List ℕ → ℕ → ℕ → List ℕ → List ℕ
overwrite failing value i [] = []
overwrite failing value i (r ∷ rewards) =
    (if contains i failing then value else r) ∷ overwrite failing value (suc i) rewards

-- `dict(zip(tests, rewards))`: of two tests of one name the later counts.
abbrev pub by_testcase : {W : Type 0} → List ℕ → List W → Dict W → Dict W
by_testcase [] rewards d = d
by_testcase (t ∷ tests) [] d = d
by_testcase (t ∷ tests) (r ∷ rewards) d = by_testcase tests rewards (insert t r d)

-- `.get(test_case, 0.0)`
abbrev pub reward_of : {W : Type 0} → Floats W → Dict W → ℕ → W
reward_of num d t = elim (lookup t d) [ none ↦ num.nought | some r ↦ r ]

-- The rewards of the places, with as many failing tests as `count`.
abbrev pub ranked : List ℕ → ℕ → ℕ → List ℕ
ranked failing count n = overwrite failing count 1 (cumsum 0 (marks failing 1 n))

abbrev pub places : {V : Type 0} → Metric V → List ℕ
places m = map (array_place (length m.scheduled_testcases)) m.detection_ranks

-- `rewards / num_failing_tests`
abbrev pub normalized : {V W : Type 0} → Floats W → Metric V → List W
normalized num m =
    let count = length m.detection_ranks in
    map (λ r. num.over r count) (ranked (places m) count (length m.scheduled_testcases))

-- The rewards by the name of the test, read for each prioritized test.
abbrev pub scaled : {V W : Type 0} → Floats W → Metric V → List ℕ → List W
scaled num m prioritized =
    map (reward_of num (by_testcase m.scheduled_testcases (normalized num m) [])) prioritized

-- `TimeRankReward.evaluate`
unfoldable pub time_rank :
    {V W : Type 0} → Floats W → Metric V → List ℕ → Result RewardError (List W)
time_rank num m prioritized =
    if is_empty m.detection_ranks
    then ok (zeros num prioritized)
    else raise_if (not (all_in_bounds (length m.scheduled_testcases) (places m))) index_error
      >> ok (scaled num m prioritized)
