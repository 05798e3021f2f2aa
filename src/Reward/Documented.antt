-- ===== src/Reward/Documented.antt =====
-- The time rank, and what the comment of `TimeRankReward` says of it.
use coleman.Base.{length-map}
use coleman.Base.{
  ℕ, zero, suc, ◌+◌, ◌-◌, ◌≡◌, refl, sym, ap, ◌∙◌, inl, inr, true, false, not, some, List, [], ◌∷◌,
  map, arith, ◌==◌, if◌then◌else◌, eq_self, Bool-cases, ok, raise_if, >>=-eq-ok, ok-injective,
  length, is_empty, sum, contains, all_distinct, Dict, lookup, insert, lookup-insert,
}
use coleman.Evaluation.Metric.{Metric, cumsum}
use coleman.Reward.Ranks.{
  Floats, normalized, index_error, marks, all_in_bounds, places, overwrite, by_testcase, reward_of,
  ranked, scaled, time_rank,
}

-- The full count for a failed test, and for a passed one the count less the failed tests that are
-- ranked after it: over the `n` ranks from `i` on.
abbrev pub documented : List ℕ → ℕ → ℕ → ℕ → List ℕ
documented failing count i zero = []
documented failing count i (suc n) =
    (if contains i failing then count else count - sum (marks failing (suc i) n))
    ∷ documented failing count (suc i) n

length-documented : (failing : List ℕ) (count i n : ℕ) → length (documented failing count i n) ≡ n
length-documented failing count i zero = refl
length-documented failing count i (suc n) = ap suc (length-documented failing count (suc i) n)

overwrite-documented :
    (failing : List ℕ) (count so_far i n : ℕ)
    → so_far + sum (marks failing i n) ≡ count
    → overwrite failing count i (cumsum so_far (marks failing i n)) ≡ documented failing count i n
overwrite-documented failing count so_far i zero h = refl
overwrite-documented failing count so_far i (suc n) h = elim (Bool-cases (contains i failing)) [
  | inl failed ↦
      let tail = overwrite-documented failing count (so_far + 1) (suc i) n (ground arith) in
      rw failed (ap (count ∷◌) tail)
  | inr passed ↦
      let tail = overwrite-documented failing count (so_far + 0) (suc i) n (ground arith) in
      let head : so_far + 0 ≡ count - sum (marks failing (suc i) n) = ground arith in
      rw passed
        (ap (λ rs. (so_far + 0) ∷ rs) tail ∙ ap (λ r. r ∷ documented failing count (suc i) n) head)
]

-- A name that is not among the tests keeps its value.
lookup-by_testcase_other :
    {W : Type 0} (t : ℕ) (tests : List ℕ) (rewards : List W) (d : Dict W)
    → contains t tests ≡ false
    → lookup t (by_testcase tests rewards d) ≡ lookup t d
lookup-by_testcase_other t [] rewards d h = refl
lookup-by_testcase_other t (u ∷ tests) [] d h = refl
lookup-by_testcase_other t (u ∷ tests) (r ∷ rewards) d h =
    let rest = lookup-by_testcase_other t tests rewards (insert u r d) (ground arith) in
    let inserted = lookup-insert u t r d in
    let other : (t == u) ≡ false = ground arith in rest ∙ inserted ∙ rw other refl

-- Tests of different names read their own rewards.
map-reward_of :
    {W : Type 0} (out : Floats W) (tests : List ℕ) (rewards : List W) (d : Dict W)
    → all_distinct tests ≡ true
    → length rewards ≡ length tests
    → map (reward_of out (by_testcase tests rewards d)) tests ≡ rewards
map-reward_of out [] [] d h same = refl
map-reward_of out [] (r ∷ rewards) d h same = absurd (omega arith)
map-reward_of out (t ∷ tests) [] d h same = absurd (omega arith)
map-reward_of out (t ∷ tests) (r ∷ rewards) d h same =
    let new : contains t tests ≡ false = ground arith in
    let tail = map-reward_of out tests rewards (insert t r d) (ground arith) (omega arith) in
    let found : lookup t (by_testcase tests rewards (insert t r d)) ≡ some r =
      lookup-by_testcase_other t tests rewards (insert t r d) new
      ∙ lookup-insert t t r d
      ∙ rw (eq_self t) refl in
    let head : reward_of out (by_testcase tests rewards (insert t r d)) t ≡ r =
      rw (found, reward_of) refl in
    ap (◌∷ map (reward_of out (by_testcase tests rewards (insert t r d))) tests) head
    ∙ ap (r ∷◌) tail

scaled-documented :
    {V W : Type 0} (out : Floats W) (m : Metric V)
    → all_distinct m.scheduled_testcases ≡ true
    → sum (marks (places m) 1 (length m.scheduled_testcases)) ≡ length m.detection_ranks
    → scaled out m m.scheduled_testcases
      ≡ map
          (λ r. out.over r (length m.detection_ranks))
          (documented (places m) (length m.detection_ranks) 1 (length m.scheduled_testcases))
scaled-documented out m distinct counted =
    let tests = m.scheduled_testcases in
    let count = length m.detection_ranks in
    let same : ranked (places m) count (length tests)
        ≡ documented (places m) count 1 (length tests) =
      overwrite-documented (places m) count 0 1 (length tests) (omega arith) in
    let long =
      length-map (λ r. out.over r count) (ranked (places m) count (length tests))
      ∙ ap length same
      ∙ length-documented (places m) count 1 (length tests) in
    map-reward_of out tests (normalized out m) [] distinct long
    ∙ ap (map (λ r. out.over r count)) same

-- Where the scheduled tests have different names, at least one detection rank is given, as many
-- places are marked as ranks are given, and the time rank returns on the scheduled tests: it gives
-- what its comment says, divided by the number of detection ranks: the full count for a failed
-- test, and for a passed one the count less the number of failed tests that are ranked after it.
pub time_rank-documented :
    {V W : Type 0} (out : Floats W) (m : Metric V) (rewards : List W)
    → all_distinct m.scheduled_testcases ≡ true
    → sum (marks (places m) 1 (length m.scheduled_testcases)) ≡ length m.detection_ranks
    → is_empty m.detection_ranks ≡ false
    → time_rank out m m.scheduled_testcases ≡ ok rewards
    → rewards
      ≡ map
          (λ r. out.over r (length m.detection_ranks))
          (documented (places m) (length m.detection_ranks) 1 (length m.scheduled_testcases))
unfolding time_rank
time_rank-documented out m rewards distinct counted detected h =
    let inside = all_in_bounds (length m.scheduled_testcases) (places m) in
    let (_, _, returned) = >>=-eq-ok (raise_if (not inside) index_error) _ (rw detected at h) in
    sym (ok-injective returned) ∙ scaled-documented out m distinct counted
