-- ===== src/Search/Limits.antt =====
-- coleman/selection/resources.py: preflight, and the accounting of search work. The clock, the
-- caller's cancellation and the keyboard are read once per poll: each is a function of the number
-- of polls made so far.
use coleman.Base.{
  ℕ, ◌+◌, ◌*◌, min, Bool, false, ◌||◌, Option, none, some, List, [], ◌∷◌, map, ltb, leb,
  if◌then◌else◌, Result, ok, ◌>>=◌, ◌>>◌, raise_if, length, sum, union,
}
use coleman.Search.Contracts.{scoped_candidates, CoverageCandidate, CoverageProblem}

pub data Method : Type 0 where
  greedy_density branch_bound : Method

pub record SearchLimits : Type 0 where
  pub max_work : ℕ
  pub deadline : Option ℕ
  pub max_working_bytes : ℕ
  pub max_candidates : ℕ
  pub max_outcomes : ℕ
  pub max_memberships : ℕ
  pub max_certificate_leaves : ℕ

pub record Preflight : Type 0 where
  pub candidates : ℕ
  pub outcomes : ℕ
  pub memberships : ℕ
  pub estimated_working_bytes : ℕ

abbrev pub count_memberships : List CoverageCandidate → ℕ
count_memberships cs = sum (map (λ c. length c.covers) cs)

unfoldable pub inspect_workload : CoverageProblem → Method → SearchLimits → Preflight
inspect_workload p method limits =
    let memberships = count_memberships p.candidates in
    let size = 512 * (length p.candidates + length p.outcomes) + 96 * memberships in
    let exact =
      size
      + 128 * length (scoped_candidates p) * min 256 (length p.outcomes)
      + 128 * limits.max_certificate_leaves in
    record {
      candidates = length p.candidates;
      outcomes = length p.outcomes;
      memberships = memberships;
      estimated_working_bytes = elim method [ greedy_density ↦ size | branch_bound ↦ exact ];
    }

pub data Rejection : Type 0 where
  candidate_limit outcome_limit membership_limit memory_limit exact_scope_limit : Rejection

abbrev pub union_all : List CoverageCandidate → List ℕ
union_all [] = []
union_all (c ∷ cs) = union c.covers (union_all cs)

-- The checks of `preflight_reason` for the exact method.
abbrev pub exact_reason : CoverageProblem → Option Rejection
exact_reason p =
    let scoped = scoped_candidates p in
    if ltb 20 (length scoped)
      || ltb 4096 (count_memberships scoped)
      || ltb 256 (length (union_all scoped))
    then some exact_scope_limit
    else none

unfoldable pub preflight_reason :
    CoverageProblem → Method → SearchLimits → Preflight → Option Rejection
preflight_reason p method limits facts =
    if ltb limits.max_candidates facts.candidates
    then some candidate_limit
    else if ltb limits.max_outcomes facts.outcomes
    then some outcome_limit
    else if ltb limits.max_memberships facts.memberships
    then some membership_limit
    else if ltb limits.max_working_bytes facts.estimated_working_bytes
    then some memory_limit
    else elim method [ greedy_density ↦ none | branch_bound ↦ exact_reason p ]

-- Why a search ends early. A missing key is the `KeyError` that nothing catches; `exhausted` is the
-- model's own, for a loop out of fuel.
pub data Stop : Type 0 where
  work_limit cancelled deadline certificate_limit interrupted key_error exhausted : Stop

-- What one invocation reads from outside, at each poll.
pub record Environment : Type 0 where
  pub limits : SearchLimits
  pub started : ℕ
  pub cancelled_at : Option (ℕ → Bool)
  pub clock : ℕ → ℕ
  pub interrupted_at : ℕ → Bool

pub record WorkCounter : Type 0 where
  pub used : ℕ
  pub polls : ℕ

abbrev pub is_cancelled : Environment → ℕ → Bool
is_cancelled env n = elim env.cancelled_at [ none ↦ false | some ask ↦ ask n ]

abbrev pub is_late : Environment → ℕ → Bool
is_late env n = elim env.limits.deadline [
  | none ↦ false
  | some seconds ↦ leb (env.started + seconds) (env.clock n)
]

-- `WorkCounter.poll`
unfoldable pub poll_counter : Environment → WorkCounter → Result Stop WorkCounter
poll_counter env c = do
  raise_if (env.interrupted_at c.polls) interrupted
  raise_if (is_cancelled env c.polls) cancelled
  raise_if (is_late env c.polls) deadline
  ok (record c { polls = c.polls + 1 })

-- `WorkCounter.step`
unfoldable pub step_counter : Environment → WorkCounter → Result Stop WorkCounter
step_counter env c = do
  polled ← poll_counter env c
  raise_if (leb env.limits.max_work polled.used) work_limit
  ok (record polled { used = polled.used + 1 })
