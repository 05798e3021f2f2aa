-- ===== src/Allocation/Forecastable.antt =====
-- The actions of a validated problem have forecasts.
use coleman.Allocation.Contracts.{scale, total_probability}
use coleman.Allocation.Variance.{forecast_action_returns}
use coleman.Allocation.Forecasts.{ActionForecast, forecast_action}
use coleman.Allocation.Validating.{
  check_value_semantics, check_accounting, check_no_action, check_problem, check_fields,
  check_whole,
}
use coleman.Base.{
  subst, ok-injective, ℕ, ◌≡◌, true, not, List, [], ◌∷◌, map, arith, ok, raise_if, >>=-eq-ok, All,
  contains, subset, Dict, has_key,
}
use coleman.Resources.Contracts.{UnitSemantics}
use coleman.Allocation.Contracts.{
  AllocationError, scale, JointScenario, ScenarioPayoff, DiscreteAllocation, AllocationProblem,
  total_probability, check_probabilities, payoff_key, scenario_key,
}
use coleman.Allocation.Validating.{
  same_set, check_vector, check_value_semantics, check_actions, check_accounting, check_no_action,
  check_problem, payoffs_in,
}
use coleman.Allocation.Forecasts.{ActionForecast, forecast_action, inputs}
use coleman.Allocation.Variance.{Covers, forecast_action_returns}

check_probabilities-scale :
    (p : AllocationProblem) {u : Unit {0}}
    → check_probabilities p ≡ ok u
    → total_probability p.scenarios ≡ scale
unfolding check_probabilities
check_probabilities-scale p h = ground arith

contains-has_key :
    (k : ℕ) (payoffs : List ScenarioPayoff)
    → contains k (map payoff_key payoffs) ≡ true
    → has_key k (map (λ x. (x.scenario_id, x.gross.value)) payoffs) ≡ true
contains-has_key k [] h = cc
contains-has_key k (x ∷ payoffs) h = ground (arith, h, contains-has_key k payoffs)

subset-Covers :
    (p : AllocationProblem) (a : DiscreteAllocation) (scenarios : List JointScenario)
    → subset (map scenario_key scenarios) (map payoff_key a.gross_payoffs) ≡ true
    → Covers (inputs p a) scenarios
subset-Covers p a [] h = tt
subset-Covers p a (s ∷ scenarios) h =
    let both : (contains s.scenario_id (map payoff_key a.gross_payoffs) ≡ true)
        × (subset (map scenario_key scenarios) (map payoff_key a.gross_payoffs) ≡ true) =
      ground (arith, h) in
    (contains-has_key s.scenario_id a.gross_payoffs both.0, subset-Covers p a scenarios both.1)

module _ (variance_semantics penalty_semantics : UnitSemantics → UnitSemantics) where
  check_actions-Covers :
      (p : AllocationProblem) (resources holdings : Dict UnitSemantics)
      (actions : List DiscreteAllocation) {u : Unit {0}}
      → check_actions variance_semantics penalty_semantics p resources holdings actions ≡ ok u
      → All (λ a. Covers (inputs p a) p.scenarios) actions
  unfolding check_actions
  check_actions-Covers p resources holdings [] h = tt
  check_actions-Covers p resources holdings (a ∷ actions) h =
      let (_, _, k) = >>=-eq-ok (check_vector a.resource_use resources) _ h in
      let (_, _, k2) = >>=-eq-ok (check_vector a.holdings holdings) _ k in
      let (_, keys, k3) =
        >>=-eq-ok
          (raise_if (not (same_set (map payoff_key a.gross_payoffs) (map scenario_key p.scenarios)))
            AllocationError.missing_scenario)
          _ k2 in
      let (_, _, k4) =
        >>=-eq-ok
          (raise_if (not (payoffs_in p.value_semantics a.gross_payoffs))
            AllocationError.payoff_units)
          _ k3 in
      let found : subset (map scenario_key p.scenarios) (map payoff_key a.gross_payoffs) ≡ true =
        ground (arith, keys) in
      (subset-Covers p a p.scenarios found, check_actions-Covers p resources holdings actions k4)

  check_accounting-Covers :
      (p : AllocationProblem) {u : Unit {0}}
      → check_accounting variance_semantics penalty_semantics p ≡ ok u
      → All (λ a. Covers (inputs p a) p.scenarios) p.actions
  unfolding check_accounting
  check_accounting-Covers p h =
      let resources = map (λ r. (r.name, r.capacity.semantics)) p.resources in
      let holdings = map (λ d. (d.name, d.semantics)) p.holding_definitions in
      let (_, _, k) =
        >>=-eq-ok (check_value_semantics variance_semantics penalty_semantics p) _ h in
      let (_, _, k2) = >>=-eq-ok (check_vector p.current.resource_use resources) _ k in
      let (_, _, k3) = >>=-eq-ok (check_vector p.current.holdings holdings) _ k2 in
      check_actions-Covers p resources holdings p.actions k3

  forecast_actions :
      (p : AllocationProblem) (actions : List DiscreteAllocation)
      → total_probability p.scenarios ≡ scale
      → All (λ a. Covers (inputs p a) p.scenarios) actions
      → All (λ a. (f : ActionForecast) × (forecast_action p a ≡ ok f)) actions
  forecast_actions p [] simplex c = tt
  forecast_actions p (a ∷ actions) simplex c =
      (forecast_action_returns p a simplex c.0, forecast_actions p actions simplex c.1)

  -- Whatever the derived units are, every action of a problem that the validators accept has a
  -- forecast: no payoff is missing, and the variance, the scaled sum of squares less the square of
  -- the sum, is not negative.
  pub check_problem-forecast_action :
      (p q : AllocationProblem)
      → check_problem variance_semantics penalty_semantics p ≡ ok q
      → All (λ a. (f : ActionForecast) × (forecast_action q a ≡ ok f)) q.actions
  unfolding check_problem check_whole
  check_problem-forecast_action p q h =
      let (fields, _, k) = >>=-eq-ok (check_fields p) _ h in
      let (_, simplex, k2) = >>=-eq-ok (check_probabilities fields) _ k in
      let (_, accounting, k3) =
        >>=-eq-ok (check_accounting variance_semantics penalty_semantics fields) _ k2 in
      let (_, _, same) = >>=-eq-ok (check_no_action fields) _ k3 in
      subst (λ r. All (λ a. (f : ActionForecast) × (forecast_action r a ≡ ok f)) r.actions)
        (ok-injective same)
        (forecast_actions fields fields.actions (check_probabilities-scale fields simplex)
          (check_accounting-Covers fields accounting))
