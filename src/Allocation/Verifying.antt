-- ===== src/Allocation/Verifying.antt =====
-- coleman/allocation/results.py: checkpoints, and what a result is checked for.
use coleman.Base.{to_set}
use coleman.Base.{
  eq_ℤ, ℕ, ◌+◌, ◌-◌, Bool, true, false, ◌&&◌, ◌||◌, not, Option, none, some, List, [], ◌∷◌, map,
  ltb, leb, ◌==◌, if◌then◌else◌, Result, ok, err, ◌>>=◌, ◌>>◌, raise_if, length, is_empty,
}
use coleman.Allocation.Contracts.{AllocationError, AllocationProblem, action_key, ordered}
use coleman.Allocation.Validating.{find_action, same_set}
use coleman.Allocation.Forecasts.{
  NetOutcome, Reason, ActionForecast, ActionEvaluation, evaluate_action,
}
use coleman.Allocation.Choosing.{
  row_key, AllocationChoice, DecisionStatus, DecisionReason, choose_completed, find_evaluation,
}
use coleman.Allocation.Solver.{AllocationPreflight, inspect_allocation, Termination, enumerate}
use coleman.Search.Limits.{work_limit, Environment}

abbrev same_outcomes : List NetOutcome → List NetOutcome → Bool
same_outcomes [] [] = true
same_outcomes [] (b ∷ bs) = false
same_outcomes (a ∷ rest) [] = false
same_outcomes (a ∷ rest) (b ∷ bs) =
    (a.scenario_id == b.scenario_id)
    && eq_ℤ a.net b.net
    && eq_ℤ a.terminal_balance b.terminal_balance
    && same_outcomes rest bs

-- A number for each reason.
abbrev reason_index : Reason → ℕ
reason_index Reason.capital_constraint = 0
reason_index Reason.resource_constraint = 1
reason_index Reason.variance_constraint = 2
reason_index Reason.target_shortfall_constraint = 3
reason_index Reason.terminal_balance_constraint = 4

abbrev same_reasons : List Reason → List Reason → Bool
same_reasons [] [] = true
same_reasons [] (b ∷ bs) = false
same_reasons (a ∷ rest) [] = false
same_reasons (a ∷ rest) (b ∷ bs) = (reason_index a == reason_index b) && same_reasons rest bs

abbrev same_forecast : ActionForecast → ActionForecast → Bool
same_forecast a b =
    (a.action_id == b.action_id)
    && same_outcomes a.outcomes b.outcomes
    && eq_ℤ a.expected_gross b.expected_gross
    && eq_ℤ a.expected_net b.expected_net
    && (a.variance == b.variance)
    && (a.expected_target_shortfall == b.expected_target_shortfall)
    && eq_ℤ a.utility b.utility

-- `row == expected`
abbrev pub same_evaluation : ActionEvaluation → ActionEvaluation → Bool
same_evaluation a b =
    same_forecast a.forecast b.forecast
    && (if a.feasible then b.feasible else not b.feasible)
    && same_reasons a.rejection_reasons b.rejection_reasons

-- `verify_completed`
unfoldable pub verify_completed :
    AllocationProblem → List ActionEvaluation → Result AllocationError (Unit {0})
verify_completed p [] = ok tt
verify_completed p (row ∷ completed) = do
  action ← find_action (row_key row) p.actions
  expected ← evaluate_action p action
  raise_if (not (same_evaluation row expected)) AllocationError.forged_row
  verify_completed p completed

pub record AllocationCheckpoint : Type 0 where
  pub problem_fingerprint : ℕ
  pub completed : List ActionEvaluation

pub record AllocationLimits : Type 0 where
  pub max_work : ℕ
  pub max_working_bytes : ℕ

pub record AllocationResult : Type 0 where
  pub preflight : AllocationPreflight
  pub checkpoint_input : Option AllocationCheckpoint
  pub completed : List ActionEvaluation
  pub choice : AllocationChoice
  pub termination_reason : Termination
  pub work_used : ℕ

module _ (fingerprint : AllocationProblem → ℕ) (p : AllocationProblem) where
  -- `bind_checkpoint`
  unfoldable pub bind_checkpoint :
      Option AllocationCheckpoint → Result AllocationError (Option AllocationCheckpoint)
  bind_checkpoint none = ok none
  bind_checkpoint (some checkpoint) = do
    rows ← ordered row_key checkpoint.completed
    raise_if (not (checkpoint.problem_fingerprint == fingerprint p))
        AllocationError.checkpoint_source
    verify_completed p rows
    ok (some (record checkpoint { completed = rows }))

-- The rows that an enumeration starts from.
abbrev pub cached_rows : Option AllocationCheckpoint → List ActionEvaluation
cached_rows none = []
cached_rows (some checkpoint) = checkpoint.completed

abbrev pub is_work_limit : Termination → Bool
is_work_limit t = elim t [
  | Termination.stopped why ↦ elim why [ work_limit ↦ true | _ ↦ false ]
  | _ ↦ false
]

abbrev pub is_enumeration_complete : Termination → Bool
is_enumeration_complete t = elim t [ Termination.enumeration_complete ↦ true | _ ↦ false ]

abbrev pub is_memory_limit : Termination → Bool
is_memory_limit t = elim t [ Termination.memory_limit ↦ true | _ ↦ false ]

-- `AllocationResult._counter_evidence`, from the number of new rows.
unfoldable pub counter_evidence :
    AllocationProblem → ℕ → ℕ → List ℕ → ℕ → Termination → Result AllocationError (Unit {0})
counter_evidence p max_work new completed_ids work_used reason = do
  raise_if (not (leb new work_used && leb work_used (new + 1))) AllocationError.bad_work
  raise_if (is_work_limit reason && (not (work_used == max_work) || not (work_used == new)))
      AllocationError.bad_limit_stop
  raise_if
      (is_enumeration_complete reason
        && (not (same_set completed_ids (map action_key p.actions)) || not (work_used == new)))
      AllocationError.false_completion

-- `any(current.get(name) != value for name, value in cached.items())`
abbrev pub discards : List ActionEvaluation → List ActionEvaluation → Bool
discards current [] = false
discards current (row ∷ cached) =
    elim (find_evaluation (row_key row) current) [
      | none ↦ true
      | some value ↦ not (same_evaluation value row)
    ]
    || discards current cached

-- The size of a dict of the rows by their identities.
abbrev pub dict_size : List ActionEvaluation → ℕ
dict_size rows = length (to_set (map row_key rows))

-- `AllocationResult._verify_work`
unfoldable pub verify_work :
    AllocationProblem → AllocationLimits → AllocationResult → Result AllocationError (Unit {0})
verify_work p limits r = do
  raise_if (ltb limits.max_work r.work_used) AllocationError.exceeded_work
  let cached = cached_rows r.checkpoint_input
  elim (is_memory_limit r.termination_reason) [
    | true ↦
        raise_if
          (not (is_empty r.completed)
            || not (r.work_used == 0)
            || leb r.preflight.estimated_working_bytes limits.max_working_bytes)
          AllocationError.bad_memory_stop
    | false ↦ do
      raise_if (ltb limits.max_working_bytes r.preflight.estimated_working_bytes)
          AllocationError.bypassed_memory
      raise_if (discards r.completed cached) AllocationError.discarded_rows
      counter_evidence p limits.max_work (dict_size r.completed - dict_size cached)
          (map row_key r.completed) r.work_used r.termination_reason
  ]

-- The result of a refused preflight.
abbrev pub refused : AllocationPreflight → Option AllocationCheckpoint → AllocationResult
refused facts checkpoint = record {
  preflight = facts;
  checkpoint_input = checkpoint;
  completed = [];
  choice = record {
    selected_action_id = none;
    status = DecisionStatus.limited;
    decision_reason = DecisionReason.preflight_refused_work;
    conservative_fallback = false;
  };
  termination_reason = Termination.memory_limit;
  work_used = 0;
}

-- `select_allocation`, up to the checks of the result; the environment carries the work limit and
-- the deadline.
unfoldable pub select_allocation :
    (AllocationProblem → ℕ)
    → Environment
    → AllocationLimits
    → AllocationProblem
    → Option AllocationCheckpoint
    → Result AllocationError AllocationResult
select_allocation fingerprint env limits p checkpoint = do
  bound ← bind_checkpoint fingerprint p checkpoint
  let facts = inspect_allocation p
  elim (ltb limits.max_working_bytes facts.estimated_working_bytes) [
    | true ↦ ok (refused facts bound)
    | false ↦ do
      e ← enumerate env p (cached_rows bound) (record { used = 0; polls = 0 })
      elim (choose_completed p e.completed) [
        | none ↦ err AllocationError.empty_maximum
        | some choice ↦ ok record {
          preflight = facts;
          checkpoint_input = bound;
          completed = e.completed;
          choice = choice;
          termination_reason = e.reason;
          work_used = e.counter.used;
        }
      ]
  ]
