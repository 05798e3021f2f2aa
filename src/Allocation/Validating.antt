-- ===== src/Allocation/Validating.antt =====
-- coleman/allocation/contracts.py: the validators of a whole problem. The derived units of a
-- variance and of a penalty are texts: two functions on units stand for them.
use coleman.Allocation.Contracts.{CurrentAllocation, is_some}
use coleman.Base.{
  ℕ, Bool, true, false, ◌&&◌, ◌||◌, not, Option, none, some, List, [], ◌∷◌, map, ◌==◌,
  if◌then◌else◌, Result, ok, err, ◌>>=◌, ◌>>◌, raise_if, map_result, subset, Dict, lookup,
}
use coleman.Resources.Contracts.{UnitSemantics, same_semantics}
use coleman.Search.Contracts.{Quantity}
use coleman.Allocation.Contracts.{
  is_some, AllocationError, ordered, NamedAmount, Definition, ResourceCapacity, ScenarioPayoff,
  DiscreteAllocation, AllocationProblem, scenario_key, payoff_key, action_key, amount_key,
  check_evidence, check_bounds, check_action, check_probabilities,
}

abbrev pub definition_key : Definition → ℕ
definition_key d = d.name

abbrev pub capacity_key : ResourceCapacity → ℕ
capacity_key r = r.name

-- `set(xs) == set(ys)`
abbrev pub same_set : List ℕ → List ℕ → Bool
same_set xs ys = subset xs ys && subset ys xs

abbrev pub component_units : Dict UnitSemantics → List NamedAmount → Bool
component_units definitions [] = true
component_units definitions (v ∷ values) =
    elim (lookup v.name definitions) [
      | none ↦ false
      | some semantics ↦ same_semantics v.amount.semantics semantics
    ]
    && component_units definitions values

-- `_check_vector`
unfoldable pub check_vector :
    List NamedAmount → Dict UnitSemantics → Result AllocationError (Unit {0})
check_vector values definitions = do
  raise_if (not (same_set (map amount_key values) (map (λ d. d.0) definitions)))
      AllocationError.missing_component
  raise_if (not (component_units definitions values)) AllocationError.component_units

abbrev pub payoffs_in : UnitSemantics → List ScenarioPayoff → Bool
payoffs_in semantics [] = true
payoffs_in semantics (p ∷ payoffs) =
    same_semantics p.gross.semantics semantics && payoffs_in semantics payoffs

module _ (variance_semantics penalty_semantics : UnitSemantics → UnitSemantics) where
  abbrev all_in : UnitSemantics → List Quantity → Bool
  all_in semantics [] = true
  all_in semantics (q ∷ values) = same_semantics q.semantics semantics && all_in semantics values

  abbrev given_in : UnitSemantics → Option Quantity → Bool
  given_in semantics value = elim value [
    | none ↦ true
    | some q ↦ same_semantics q.semantics semantics
  ]

  -- `_check_value_semantics`
  unfoldable pub check_value_semantics : AllocationProblem → Result AllocationError (Unit {0})
  check_value_semantics p = do
    raise_if
        (not (
          all_in p.value_semantics (p.initial_balance ∷ p.current.reserved_balance ∷ [])
          && same_semantics p.risk.downside_target.semantics p.value_semantics
          && all_in p.value_semantics (map (λ a. a.capital_required) p.actions)
          && all_in p.value_semantics (map (λ a. a.transaction_cost) p.actions)
          && given_in p.value_semantics p.risk.maximum_expected_shortfall
          && given_in p.value_semantics p.risk.minimum_terminal_balance))
        AllocationError.incompatible_units
    raise_if (not (given_in (variance_semantics p.value_semantics) p.risk.maximum_variance))
        AllocationError.incompatible_units
    raise_if (not (given_in (penalty_semantics p.value_semantics) p.utility.coefficient))
        AllocationError.incompatible_units

  -- The loop of `_accounting` over the actions.
  unfoldable pub check_actions :
      AllocationProblem
      → Dict UnitSemantics
      → Dict UnitSemantics
      → List DiscreteAllocation
      → Result AllocationError (Unit {0})
  check_actions p resources holdings [] = ok tt
  check_actions p resources holdings (a ∷ actions) = do
    check_vector a.resource_use resources
    check_vector a.holdings holdings
    raise_if (not (same_set (map payoff_key a.gross_payoffs) (map scenario_key p.scenarios)))
        AllocationError.missing_scenario
    raise_if (not (payoffs_in p.value_semantics a.gross_payoffs)) AllocationError.payoff_units
    check_actions p resources holdings actions

  -- `_accounting`
  unfoldable pub check_accounting : AllocationProblem → Result AllocationError (Unit {0})
  check_accounting p = do
    check_value_semantics p
    let resources = map (λ r. (r.name, r.capacity.semantics)) p.resources
    let holdings = map (λ d. (d.name, d.semantics)) p.holding_definitions
    check_vector p.current.resource_use resources
    check_vector p.current.holdings holdings
    check_actions p resources holdings p.actions

-- `AllocationProblem.action`
unfoldable pub find_action : ℕ → List DiscreteAllocation → Result AllocationError DiscreteAllocation
find_action action_id [] = err AllocationError.unknown_action
find_action action_id (a ∷ actions) =
    if a.action_id == action_id then ok a else find_action action_id actions

abbrev same_quantity : Quantity → Quantity → Bool
same_quantity a b = (a.value == b.value) && same_semantics a.semantics b.semantics

abbrev same_vector : List NamedAmount → List NamedAmount → Bool
same_vector [] [] = true
same_vector [] (b ∷ bs) = false
same_vector (a ∷ as') [] = false
same_vector (a ∷ as') (b ∷ bs) =
    (a.name == b.name) && same_quantity a.amount b.amount && same_vector as' bs

-- `_no_action`
unfoldable pub check_no_action : AllocationProblem → Result AllocationError (Unit {0})
check_no_action p = do
  a ← find_action p.no_action_id p.actions
  raise_if
      (not (same_vector a.holdings p.current.holdings)
        || not (same_vector a.resource_use p.current.resource_use)
        || not (same_quantity a.capital_required p.current.reserved_balance)
        || not (a.transaction_cost.value == 0))
      AllocationError.changed_no_action

-- `a != b`
abbrev differ : Bool → Bool → Bool
differ a b = if a then not b else b

-- The validators of `AllocationProblem` on the whole record, in their order.
unfoldable pub check_whole :
    (UnitSemantics → UnitSemantics)
    → (UnitSemantics → UnitSemantics)
    → AllocationProblem
    → Result AllocationError AllocationProblem
check_whole variance_semantics penalty_semantics p = do
  check_probabilities p
  check_accounting variance_semantics penalty_semantics p
  check_no_action p
  ok p

-- `CurrentAllocation._vectors`
unfoldable pub check_current : CurrentAllocation → Result AllocationError CurrentAllocation
check_current c = do
  holdings ← ordered amount_key c.holdings
  resource_use ← ordered amount_key c.resource_use
  ok (record c { holdings = holdings; resource_use = resource_use })

-- The parts of a problem with their own validators, `UtilitySpec._parameter` among them, and its
-- field validators.
unfoldable pub check_fields : AllocationProblem → Result AllocationError AllocationProblem
check_fields p = do
  current ← check_current p.current
  check_evidence p.probability_evidence
  actions ← map_result check_action p.actions
  scenarios ← map_result check_bounds p.scenarios
  raise_if (differ p.utility.is_quadratic (is_some p.utility.coefficient))
      AllocationError.unused_coefficient
  resources ← ordered capacity_key p.resources
  holding_definitions ← ordered definition_key p.holding_definitions
  ordered_scenarios ← ordered scenario_key scenarios
  ordered_actions ← ordered action_key actions
  ok (record p {
    current = current;
    resources = resources;
    holding_definitions = holding_definitions;
    scenarios = ordered_scenarios;
    actions = ordered_actions;
  })

-- `AllocationProblem.model_validate`
unfoldable pub check_problem :
    (UnitSemantics → UnitSemantics)
    → (UnitSemantics → UnitSemantics)
    → AllocationProblem
    → Result AllocationError AllocationProblem
check_problem variance_semantics penalty_semantics p =
    check_fields p >>= check_whole variance_semantics penalty_semantics
