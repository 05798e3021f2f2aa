-- ===== src/Allocation/Forecasts.antt =====
-- coleman/allocation/forecasts.py: exact moments of an action over the scenarios, and its checks.
use coleman.Base.{
  ◌*ℤ◌, ltb_ℤ, pos_part, ℕ, ◌+◌, ◌*◌, Bool, true, false, ◌&&◌, ◌||◌, Option, none, some, List, [],
  ◌∷◌, ◌++◌, map, ltb, if◌then◌else◌, Result, ok, err, ◌>>=◌, is_empty, contains, Dict, lookup, ℤ,
  pos, negsuc, ◌+ℤ◌, ◌-ℤ◌,
}
use coleman.Search.Contracts.{Quantity}
use coleman.Allocation.Contracts.{
  AllocationError, scale, JointScenario, DiscreteAllocation, AllocationProblem, NamedAmount,
}

pub record NetOutcome : Type 0 where
  pub scenario_id : ℕ
  pub net : ℤ
  pub terminal_balance : ℤ

-- Expectations have 24 decimal places, variance and utility 48.
pub record ActionForecast : Type 0 where
  pub action_id : ℕ
  pub outcomes : List NetOutcome
  pub expected_gross : ℤ
  pub expected_net : ℤ
  pub variance : ℕ
  pub expected_target_shortfall : ℕ
  pub utility : ℤ

pub data Reason : Type 0 where
  capital_constraint resource_constraint variance_constraint : Reason
  target_shortfall_constraint terminal_balance_constraint : Reason

pub record ActionEvaluation : Type 0 where
  pub forecast : ActionForecast
  pub feasible : Bool
  pub rejection_reasons : List Reason

pub record Inputs : Type 0 where
  pub gross : Dict ℤ
  pub fee : ℕ
  pub balance : ℕ
  pub target : ℤ

pub record Moments : Type 0 where
  pub gross : ℤ
  pub net : ℤ
  pub second : ℤ
  pub shortfall : ℕ
  pub shortfall_square : ℕ

abbrev pub no_moments : Moments
no_moments = record {
  gross = pos 0;
  net = pos 0;
  second = pos 0;
  shortfall = 0;
  shortfall_square = 0;
}

-- `max(target - net, 0)`
abbrev pub shortage : ℤ → ℤ → ℕ
shortage target net = pos_part (target -ℤ net)

-- `_Moments.add`; a scenario without a payoff is a `KeyError`.
unfoldable pub add_scenario :
    Inputs → JointScenario → Moments → Result AllocationError (Moments × NetOutcome)
add_scenario values scenario m = elim (lookup scenario.scenario_id values.gross) [
  | none ↦ err AllocationError.missing_key
  | some gross ↦
      let p = scenario.probability in
      let net = gross -ℤ pos values.fee in
      let short = shortage values.target net in
      ok (
        record {
          gross = m.gross +ℤ pos p *ℤ gross;
          net = m.net +ℤ pos p *ℤ net;
          second = m.second +ℤ pos p *ℤ (net *ℤ net);
          shortfall = m.shortfall + p * short;
          shortfall_square = m.shortfall_square + p * (short * short);
        },
        record {
          scenario_id = scenario.scenario_id;
          net = net;
          terminal_balance = pos values.balance +ℤ net;
        },
      )
]

-- The loop of `_forecast_action`.
unfoldable pub add_scenarios :
    Inputs → List JointScenario → Moments → Result AllocationError (Moments × List NetOutcome)
add_scenarios values [] m = ok (m, [])
add_scenarios values (s ∷ scenarios) m = do
  added ← add_scenario values s m
  rest ← add_scenarios values scenarios added.0
  ok (rest.0, added.1 ∷ rest.1)

-- `NonnegativeMoment`
unfoldable pub nonnegative : ℤ → Result AllocationError ℕ
nonnegative (pos n) = ok n
nonnegative (negsuc _) = err AllocationError.negative_moment

abbrev pub inputs : AllocationProblem → DiscreteAllocation → Inputs
inputs p a = record {
  gross = map (λ x. (x.scenario_id, x.gross.value)) a.gross_payoffs;
  fee = a.transaction_cost.value;
  balance = p.initial_balance.value;
  target = p.risk.downside_target.value;
}

abbrev pub penalized : Option Quantity → Moments → ℤ
penalized coefficient m = elim coefficient [
  | none ↦ m.net *ℤ pos scale *ℤ pos scale
  | some c ↦ m.net *ℤ pos scale *ℤ pos scale -ℤ pos (c.value * m.shortfall_square)
]

-- `_forecast_action`
unfoldable pub forecast_action :
    AllocationProblem → DiscreteAllocation → Result AllocationError ActionForecast
forecast_action p a = do
  sums ← add_scenarios (inputs p a) p.scenarios no_moments
  variance ← nonnegative (sums.0.second *ℤ pos scale -ℤ sums.0.net *ℤ sums.0.net)
  ok record {
    action_id = a.action_id;
    outcomes = sums.1;
    expected_gross = sums.0.gross;
    expected_net = sums.0.net;
    variance = variance;
    expected_target_shortfall = sums.0.shortfall;
    utility = penalized p.utility.coefficient sums.0;
  }

-- A ceiling against a moment with more decimal places.
abbrev pub exceeds : ℕ → ℕ → Option Quantity → Bool
exceeds places moment ceiling = elim ceiling [
  | none ↦ false
  | some q ↦ ltb (q.value * places) moment
]

-- `any(resource.amount.value > capacities[resource.name] ...)`
unfoldable pub over_capacity : Dict ℕ → List NamedAmount → Result AllocationError Bool
over_capacity capacities [] = ok false
over_capacity capacities (r ∷ rest) = elim (lookup r.name capacities) [
  | none ↦ err AllocationError.missing_key
  | some capacity ↦ if ltb capacity r.amount.value then ok true else over_capacity capacities rest
]

abbrev pub supported : List JointScenario → List ℕ
supported [] = []
supported (s ∷ scenarios) =
    if ltb 0 s.probability then s.scenario_id ∷ supported scenarios else supported scenarios

abbrev pub under_floor : List ℕ → Option Quantity → List NetOutcome → Bool
under_floor support minimum [] = false
under_floor support minimum (o ∷ outcomes) =
    elim minimum [
      | none ↦ false
      | some q ↦ contains o.scenario_id support && ltb_ℤ o.terminal_balance (pos q.value)
    ]
    || under_floor support minimum outcomes

abbrev pub reason_if : Bool → Reason → List Reason
reason_if true reason = reason ∷ []
reason_if false reason = []

-- `_feasibility_reasons`
unfoldable pub feasibility_reasons :
    AllocationProblem → DiscreteAllocation → ActionForecast → Result AllocationError (List Reason)
feasibility_reasons p a f = do
  over ← over_capacity (map (λ r. (r.name, r.capacity.value)) p.resources) a.resource_use
  ok (
      reason_if (ltb p.initial_balance.value a.capital_required.value) Reason.capital_constraint
      ++ reason_if over Reason.resource_constraint
      ++ reason_if (exceeds 1 f.variance p.risk.maximum_variance) Reason.variance_constraint
      ++ reason_if (exceeds scale f.expected_target_shortfall p.risk.maximum_expected_shortfall)
          Reason.target_shortfall_constraint
      ++ reason_if (under_floor (supported p.scenarios) p.risk.minimum_terminal_balance f.outcomes)
          Reason.terminal_balance_constraint)

-- `_evaluate_action`
unfoldable pub evaluate_action :
    AllocationProblem → DiscreteAllocation → Result AllocationError ActionEvaluation
evaluate_action p a = do
  forecast ← forecast_action p a
  reasons ← feasibility_reasons p a forecast
  ok record { forecast = forecast; feasible = is_empty reasons; rejection_reasons = reasons }
