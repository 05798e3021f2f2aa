-- ===== src/Allocation/Tests.antt =====
-- A problem with two scenarios, no action, and an action that gains or loses.
use coleman.Base.{length}
use coleman.Allocation.Verifying.{counter_evidence}
use coleman.Allocation.Counting.{start, enumerate-counter_evidence}
use coleman.Allocation.Forecasts.{
  add_scenario, add_scenarios, nonnegative, over_capacity, feasibility_reasons, evaluate_action,
}
use coleman.Allocation.Solver.{
  Termination, Enumeration, poll_scenarios, enumerate_actions, enumerate,
}
use coleman.Search.Limits.{work_limit, poll_counter, step_counter}
use coleman.Base.{◌≤◌, length, ◌+ℤ◌, ◌-ℤ◌, ◌*ℤ◌, insert_sorted, sort_by}
use coleman.Base.{
  ℕ, ◌*◌, ◌≡◌, refl, Bool, true, false, none, some, List, [], ◌∷◌, ok, All, sort_by, insert_sorted,
  ℤ, pos, negsuc,
}
use coleman.Resources.Contracts.{UnitSemantics}
use coleman.Search.Contracts.{Quantity}
use coleman.Search.Limits.{Environment, poll_counter, step_counter}
use coleman.Allocation.Contracts.{
  scale, Payoff, EvidenceKind, JointScenario, DiscreteAllocation, AllocationProblem, ordered,
  check_evidence, check_bounds, check_action, check_probabilities,
}
use coleman.Allocation.Validating.{
  check_vector, check_value_semantics, check_actions, check_accounting, find_action,
  check_no_action, check_whole, check_current, check_fields, check_problem,
}
use coleman.Allocation.Forecasts.{
  ActionForecast, ActionEvaluation, add_scenario, add_scenarios, nonnegative, forecast_action,
  over_capacity, feasibility_reasons, evaluate_action,
}
use coleman.Allocation.Choosing.{AllocationChoice, choose_completed}
use coleman.Allocation.Solver.{Enumeration, poll_scenarios, enumerate_actions, enumerate}
use coleman.Allocation.Verifying.{counter_evidence}
use coleman.Allocation.Forecastable.{check_problem-forecast_action}
use coleman.Allocation.Best.{IsChoice, choose_completed-IsChoice}
use coleman.Allocation.Counting.{start, enumerate-counter_evidence}

abbrev units : UnitSemantics
units = record { unit = 1; meaning = 2 }

abbrev amount : ℕ → Quantity
amount n = record { value = n * scale; semantics = units }

abbrev signed : ℤ → Payoff
signed z = record { value = z; semantics = units }

abbrev scenario : ℕ → JointScenario
scenario n = record { scenario_id = n; probability = 500000000000; lower = none; upper = none }

abbrev action : ℕ → ℤ → ℤ → DiscreteAllocation
action n good bad = record {
  action_id = n;
  holdings = [];
  resource_use = [];
  capital_required = amount 0;
  transaction_cost = amount 0;
  gross_payoffs =
      record { scenario_id = 1; gross = signed good }
      ∷ record { scenario_id = 2; gross = signed bad }
      ∷ [];
}

abbrev problem : AllocationProblem
problem = record {
  value_semantics = units;
  initial_balance = amount 5;
  current = record { holdings = []; resource_use = []; reserved_balance = amount 0 };
  resources = [];
  holding_definitions = [];
  scenarios = scenario 1 ∷ scenario 2 ∷ [];
  probability_evidence = record {
    kind = EvidenceKind.assumed;
    evidence_fingerprint = none;
    method_id = none;
    independent_unit = none;
    independent_units = none;
  };
  actions = action 3 (pos 0) (pos 0) ∷ action 4 (pos 3) (negsuc 0) ∷ [];
  no_action_id = 3;
  risk = record {
    downside_target = signed (pos 0);
    maximum_variance = none;
    maximum_expected_shortfall = none;
    minimum_terminal_balance = none;
  };
  utility = record { is_quadratic = false; coefficient = none };
}

abbrev same_units : UnitSemantics → UnitSemantics
same_units u = u

check_problem_run : check_problem same_units same_units problem ≡ ok problem
unfolding check_problem check_fields check_current check_whole check_evidence check_bounds
    check_action ordered check_probabilities check_accounting check_value_semantics check_actions
    check_vector check_no_action find_action sort_by insert_sorted
check_problem_run = refl

check_problem-forecast_action_example :
    All (λ a. (f : ActionForecast) × (forecast_action problem a ≡ ok f)) problem.actions
check_problem-forecast_action_example =
    check_problem-forecast_action same_units same_units problem problem check_problem_run

abbrev row : ℕ → ℤ → Bool → ActionEvaluation
row n utility fits = record {
  forecast = record {
    action_id = n;
    outcomes = [];
    expected_gross = pos 0;
    expected_net = pos 0;
    variance = 0;
    expected_target_shortfall = 0;
    utility = utility;
  };
  feasible = fits;
  rejection_reasons = [];
}

abbrev completed : List ActionEvaluation
completed = row 3 (pos 7) true ∷ row 4 (pos 9) false ∷ row 5 (pos 7) true ∷ []

choose_completed-IsChoice_example :
    (choice : AllocationChoice) × (choose_completed problem completed ≡ some choice)
    × IsChoice problem completed choice
choose_completed-IsChoice_example = choose_completed-IsChoice problem completed refl

abbrev env : Environment
env = record {
  limits = record {
    max_work = 1;
    deadline = none;
    max_working_bytes = 0;
    max_candidates = 0;
    max_outcomes = 0;
    max_memberships = 0;
    max_certificate_leaves = 0;
  };
  started = 0;
  cancelled_at = none;
  clock = λ _. 0;
  interrupted_at = λ _. false;
}

-- The row of no-action, and the end at the work limit.
abbrev first_row : ActionEvaluation
first_row = record {
  forecast = record {
    action_id = 3;
    outcomes =
        record { scenario_id = 1; net = pos 0; terminal_balance = pos (5 * scale) }
        ∷ record { scenario_id = 2; net = pos 0; terminal_balance = pos (5 * scale) }
        ∷ [];
    expected_gross = pos 0;
    expected_net = pos 0;
    variance = 0;
    expected_target_shortfall = 0;
    utility = pos 0;
  };
  feasible = true;
  rejection_reasons = [];
}

abbrev limited : Enumeration
limited = record {
  completed = first_row ∷ [];
  counter = record { used = 1; polls = 3 };
  reason = Termination.stopped work_limit;
}

enumerate_run : enumerate env problem [] start ≡ ok limited
unfolding enumerate enumerate_actions poll_scenarios poll_counter step_counter evaluate_action
    feasibility_reasons over_capacity forecast_action add_scenarios add_scenario nonnegative sort_by
    insert_sorted ◌+ℤ◌ ◌-ℤ◌ ◌*ℤ◌
enumerate_run = refl

enumerate-counter_evidence_example :
    (1 ≤ 1)
    × (new : List ActionEvaluation) × (limited.completed ≡ new)
    × All (λ r. (a : DiscreteAllocation) × (evaluate_action problem a ≡ ok r)) new
    × (counter_evidence problem 1 (length new) (3 ∷ []) 1 (Termination.stopped work_limit) ≡ ok tt)
enumerate-counter_evidence_example =
    enumerate-counter_evidence env problem [] limited tt enumerate_run
