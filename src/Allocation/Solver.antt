-- ===== src/Allocation/Solver.antt =====
-- coleman/allocation/resources.py and solver.py: bounded enumeration of the actions.
use coleman.Base.{
  ℕ, ◌+◌, ◌*◌, Bool, true, false, List, [], ◌∷◌, ◌++◌, map, ◌==◌, if◌then◌else◌, Result, ok, err,
  ◌>>=◌, length, contains, sort_by,
}
use coleman.Search.Limits.{Stop, Environment, WorkCounter, poll_counter, step_counter}
use coleman.Allocation.Contracts.{
  AllocationError, JointScenario, DiscreteAllocation, AllocationProblem,
}
use coleman.Allocation.Forecasts.{ActionEvaluation, evaluate_action}
use coleman.Allocation.Choosing.{row_key}

pub record AllocationPreflight : Type 0 where
  pub actions : ℕ
  pub scenarios : ℕ
  pub estimated_working_bytes : ℕ

abbrev pub count_components : List DiscreteAllocation → ℕ
count_components [] = 0
count_components (a ∷ actions) =
    length a.resource_use + length a.holdings + count_components actions

unfoldable pub inspect_allocation : AllocationProblem → AllocationPreflight
inspect_allocation p = record {
  actions = length p.actions;
  scenarios = length p.scenarios;
  estimated_working_bytes =
      2048 * (length p.actions * length p.scenarios)
      + 1024 * count_components p.actions
      + 4096 * length p.actions;
}

pub data Termination : Type 0 where
  enumeration_complete memory_limit : Termination
  stopped : Stop → Termination

-- The polls between the scenarios of an evaluation.
unfoldable pub poll_scenarios :
    Environment → List JointScenario → WorkCounter → Result Stop WorkCounter
poll_scenarios env [] c = ok c
poll_scenarios env (s ∷ scenarios) c =
    poll_counter env c >>= λ polled. poll_scenarios env scenarios polled

-- The list of completed rows and the counter, and how the enumeration ended.
pub record Enumeration : Type 0 where
  pub completed : List ActionEvaluation
  pub counter : WorkCounter
  pub reason : Termination

abbrev pub has_row : ℕ → List ActionEvaluation → Bool
has_row action_id rows = contains action_id (map row_key rows)

-- No-action first, then ascending identities: a stable sort by both.
abbrev pub canonical : AllocationProblem → List DiscreteAllocation
canonical p =
    sort_by (λ a. if a.action_id == p.no_action_id then 0 else 1)
      (sort_by (λ a. a.action_id) p.actions)

module _ (env : Environment) (p : AllocationProblem) where
  -- The loop of `_enumerate`. A step that is paid for is kept when the evaluation is interrupted.
  unfoldable pub enumerate_actions :
      List ℕ
      → List DiscreteAllocation
      → List ActionEvaluation
      → WorkCounter
      → Result AllocationError Enumeration
  enumerate_actions cached [] completed c =
      ok record { completed = completed; counter = c; reason = Termination.enumeration_complete }
  enumerate_actions cached (a ∷ actions) completed c =
      let halt : WorkCounter → Stop → Result AllocationError Enumeration = λ counter why.
        ok record { completed = completed; counter = counter; reason = Termination.stopped why } in
      elim (contains a.action_id cached) [
        | true ↦ elim (poll_counter env c) [
          | err why ↦ halt c why
          | ok polled ↦ enumerate_actions cached actions completed polled
        ]
        | false ↦ elim (step_counter env c) [
          | err why ↦ halt c why
          | ok stepped ↦ elim (poll_scenarios env p.scenarios stepped) [
            | err why ↦ halt stepped why
            | ok polled ↦ evaluate_action p a >>= λ row.
                enumerate_actions cached actions (completed ++ row ∷ []) polled
          ]
        ]
      ]

  -- `_enumerate`
  unfoldable pub enumerate :
      List ActionEvaluation → WorkCounter → Result AllocationError Enumeration
  enumerate completed c = enumerate_actions (map row_key completed) (canonical p) completed c
