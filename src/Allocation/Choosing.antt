-- ===== src/Allocation/Choosing.antt =====
-- coleman/allocation/results.py: the choice among the completed evaluations.
use coleman.Base.{
  eq_ℤ, ltb_ℤ, pos_part, leb_ℤ, ℕ, ◌*◌, min, max, Bool, true, false, ◌&&◌, ◌||◌, not, Option, none,
  some, List, [], ◌∷◌, map, ltb, ◌==◌, if◌then◌else◌, contains, ℤ, pos, ◌-ℤ◌,
}
use coleman.Allocation.Contracts.{scale}
use coleman.Search.Contracts.{Quantity}
use coleman.Allocation.Contracts.{
  JointScenario, RiskConstraints, AllocationProblem, is_estimated, action_key,
}
use coleman.Allocation.Validating.{same_set}
use coleman.Allocation.Forecasts.{NetOutcome, Reason, ActionEvaluation, shortage, exceeds}

pub data DecisionStatus : Type 0 where
  optimal feasible infeasible limited insufficient_evidence : DecisionStatus

pub data DecisionReason : Type 0 where
  preflight_refused_work estimated_weights_require_protected_evidence : DecisionReason
  no_feasible_action no_complete_feasible_incumbent : DecisionReason
  finite_model_optimum best_completed_incumbent : DecisionReason

pub record AllocationChoice : Type 0 where
  pub selected_action_id : Option ℕ
  pub status : DecisionStatus
  pub decision_reason : DecisionReason
  pub conservative_fallback : Bool

abbrev pub row_key : ActionEvaluation → ℕ
row_key r = r.forecast.action_id

abbrev pub is_resource : Reason → Bool
is_resource r = elim r [
  | Reason.capital_constraint ↦ true
  | Reason.resource_constraint ↦ true
  | _ ↦ false
]

-- `"capital_constraint" in reasons or "resource_constraint" in reasons`
abbrev pub short_of_resources : List Reason → Bool
short_of_resources [] = false
short_of_resources (r ∷ reasons) = is_resource r || short_of_resources reasons

-- The scenarios with a positive upper bound.
abbrev pub possible : List JointScenario → List ℕ
possible [] = []
possible (s ∷ scenarios) =
    if elim s.upper [ none ↦ false | some high ↦ ltb 0 high ]
    then s.scenario_id ∷ possible scenarios
    else possible scenarios

abbrev pub outcomes_in : List ℕ → List NetOutcome → List NetOutcome
outcomes_in support [] = []
outcomes_in support (o ∷ outcomes) =
    if contains o.scenario_id support
    then o ∷ outcomes_in support outcomes
    else outcomes_in support outcomes

abbrev pub max_ℤ : ℤ → ℤ → ℤ
max_ℤ a b = if ltb_ℤ a b then b else a

abbrev pub min_ℤ : ℤ → ℤ → ℤ
min_ℤ a b = if ltb_ℤ b a then b else a

abbrev pub highest : ℤ → List NetOutcome → ℤ
highest z [] = z
highest z (o ∷ outcomes) = highest (max_ℤ z o.net) outcomes

abbrev pub lowest : ℤ → List NetOutcome → ℤ
lowest z [] = z
lowest z (o ∷ outcomes) = lowest (min_ℤ z o.net) outcomes

abbrev pub worst_shortage : ℤ → List NetOutcome → ℕ
worst_shortage target [] = 0
worst_shortage target (o ∷ outcomes) = max (shortage target o.net) (worst_shortage target outcomes)

abbrev pub over_floor : Option Quantity → List NetOutcome → Bool
over_floor minimum [] = true
over_floor minimum (o ∷ outcomes) =
    elim minimum [ none ↦ true | some q ↦ leb_ℤ (pos q.value) o.terminal_balance ]
    && over_floor minimum outcomes

-- The bounds of `_certified_no_action` on the outcomes of the possible scenarios. Without one the
-- source raises, in `max`; `none` is that raise.
unfoldable pub certified_outcomes : RiskConstraints → List NetOutcome → Option Bool
certified_outcomes risk [] = none
certified_outcomes risk (o ∷ outcomes) =
    let spread = pos_part (highest o.net outcomes -ℤ lowest o.net outcomes) in
    let worst = worst_shortage risk.downside_target.value (o ∷ outcomes) in
    some (
      not (exceeds 1 (spread * spread * (scale * scale)) risk.maximum_variance)
      && not (exceeds 1 worst risk.maximum_expected_shortfall)
      && over_floor risk.minimum_terminal_balance (o ∷ outcomes))

-- `_certified_no_action`
unfoldable pub certified_no_action : AllocationProblem → ActionEvaluation → Option Bool
certified_no_action p e =
    if not (e.forecast.action_id == p.no_action_id)
    then some false
    else if not (is_estimated p.probability_evidence.kind)
    then some e.feasible
    else if short_of_resources e.rejection_reasons
    then some false
    else certified_outcomes p.risk (outcomes_in (possible p.scenarios) e.forecast.outcomes)

abbrev pub find_evaluation : ℕ → List ActionEvaluation → Option ActionEvaluation
find_evaluation action_id [] = none
find_evaluation action_id (e ∷ completed) =
    if row_key e == action_id then some e else find_evaluation action_id completed

abbrev pub feasible_rows : List ActionEvaluation → List ActionEvaluation
feasible_rows [] = []
feasible_rows (e ∷ completed) =
    if e.feasible then e ∷ feasible_rows completed else feasible_rows completed

-- `max` of the utilities, from the first.
abbrev pub maximum : ℤ → List ActionEvaluation → ℤ
maximum z [] = z
maximum z (e ∷ rows) = maximum (max_ℤ z e.forecast.utility) rows

abbrev pub ties : ℤ → List ActionEvaluation → List ℕ
ties top [] = []
ties top (e ∷ rows) =
    if eq_ℤ e.forecast.utility top then row_key e ∷ ties top rows else ties top rows

abbrev pub minimum : ℕ → List ℕ → ℕ
minimum n [] = n
minimum n (k ∷ ks) = minimum (min n k) ks

-- `min(ties)`; `none` is its raise on no ties.
abbrev pub least : List ℕ → Option ℕ
least [] = none
least (k ∷ ks) = some (minimum k ks)

-- The best of the feasible rows, with the tie rule.
unfoldable pub select_best : ℕ → ActionEvaluation → List ActionEvaluation → Option ℕ
select_best no_action_id e rows =
    let tied = ties (maximum e.forecast.utility rows) (e ∷ rows) in
    if contains no_action_id tied then some no_action_id else least tied

abbrev pub is_complete : AllocationProblem → List ActionEvaluation → Bool
is_complete p completed = same_set (map row_key completed) (map action_key p.actions)

-- The fallback under estimated weights.
unfoldable pub choose_estimated :
    AllocationProblem → List ActionEvaluation → Option AllocationChoice
choose_estimated p completed =
    let choice : Bool → AllocationChoice = λ safe. record {
      selected_action_id = if safe then some p.no_action_id else none;
      status = DecisionStatus.insufficient_evidence;
      decision_reason = DecisionReason.estimated_weights_require_protected_evidence;
      conservative_fallback = safe;
    } in
    elim (find_evaluation p.no_action_id completed) [
      | none ↦ some (choice false)
      | some unchanged ↦ elim (certified_no_action p unchanged) [
        | none ↦ none
        | some safe ↦ some (choice safe)
      ]
    ]

abbrev pub none_feasible : Bool → AllocationChoice
none_feasible complete = record {
  selected_action_id = none;
  status = if complete then DecisionStatus.infeasible else DecisionStatus.limited;
  decision_reason =
      if complete
      then DecisionReason.no_feasible_action
      else DecisionReason.no_complete_feasible_incumbent;
  conservative_fallback = false;
}

abbrev pub chosen : Bool → ℕ → AllocationChoice
chosen complete selected = record {
  selected_action_id = some selected;
  status = if complete then DecisionStatus.optimal else DecisionStatus.feasible;
  decision_reason =
      if complete
      then DecisionReason.finite_model_optimum
      else DecisionReason.best_completed_incumbent;
  conservative_fallback = false;
}

-- `choose_completed`; `none` is a raise of `max` or `min`.
unfoldable pub choose_completed :
    AllocationProblem → List ActionEvaluation → Option AllocationChoice
choose_completed p completed =
    if is_estimated p.probability_evidence.kind
    then choose_estimated p completed
    else elim (feasible_rows completed) [
      | [] ↦ some (none_feasible (is_complete p completed))
      | e ∷ rows ↦ elim (select_best p.no_action_id e rows) [
        | none ↦ none
        | some selected ↦ some (chosen (is_complete p completed) selected)
      ]
    ]
