-- ===== src/Allocation/Contracts.antt =====
-- coleman/allocation/contracts.py: the problem and its validators. An amount is its number of
-- 10^-12 ticks, and a probability too; a ceiling of the variance is its number of 10^-48.
use coleman.Base.{
  ℕ, ◌+◌, ◌^◌, Bool, true, false, ◌&&◌, ◌||◌, not, Option, none, some, List, [], ◌∷◌, map, ltb, leb,
  ◌==◌, Result, ok, err, ◌>>=◌, ◌>>◌, raise_if, all_distinct, sort_by, ℤ,
}
use coleman.Resources.Contracts.{UnitSemantics, same_semantics}
use coleman.Search.Contracts.{Quantity}

pub data AllocationError : Type 0 where
  duplicate_row unpaired_bounds outside_bounds : AllocationError
  incompatible_fee unfunded_fee missing_evidence undefined_unit unused_coefficient : AllocationError
  not_a_simplex missing_bounds ambiguous_bounds : AllocationError
  missing_component component_units incompatible_units missing_scenario payoff_units :
      AllocationError
  changed_no_action unknown_action missing_key negative_moment : AllocationError
  checkpoint_source forged_row empty_maximum nothing_completed : AllocationError
  source_differs exceeded_work bad_memory_stop bypassed_memory discarded_rows : AllocationError
  bad_work bad_limit_stop false_completion bad_choice : AllocationError

-- `SCALE`
abbrev pub scale : ℕ
scale = 10 ^ 12

-- `ordered`, for rows with an identity.
unfoldable pub ordered {ℓ} : {A : Type ℓ} → (A → ℕ) → List A → Result AllocationError (List A)
ordered key values = do
  raise_if (not (all_distinct (map key values))) AllocationError.duplicate_row
  ok (sort_by key values)

pub record Payoff : Type 0 where
  pub value : ℤ
  pub semantics : UnitSemantics

pub record NamedAmount : Type 0 where
  pub name : ℕ
  pub amount : Quantity

pub record Definition : Type 0 where
  pub name : ℕ
  pub semantics : UnitSemantics

pub record ResourceCapacity : Type 0 where
  pub name : ℕ
  pub capacity : Quantity

pub data EvidenceKind : Type 0 where
  assumed estimated : EvidenceKind

pub record ProbabilityEvidence : Type 0 where
  pub kind : EvidenceKind
  pub evidence_fingerprint : Option ℕ
  pub method_id : Option ℕ
  pub independent_unit : Option ℕ
  pub independent_units : Option ℕ

pub record JointScenario : Type 0 where
  pub scenario_id : ℕ
  pub probability : ℕ
  pub lower : Option ℕ
  pub upper : Option ℕ

pub record ScenarioPayoff : Type 0 where
  pub scenario_id : ℕ
  pub gross : Payoff

pub record CurrentAllocation : Type 0 where
  pub holdings : List NamedAmount
  pub resource_use : List NamedAmount
  pub reserved_balance : Quantity

pub record DiscreteAllocation : Type 0 where
  pub action_id : ℕ
  pub holdings : List NamedAmount
  pub resource_use : List NamedAmount
  pub capital_required : Quantity
  pub transaction_cost : Quantity
  pub gross_payoffs : List ScenarioPayoff

pub record RiskConstraints : Type 0 where
  pub downside_target : Payoff
  pub maximum_variance : Option Quantity
  pub maximum_expected_shortfall : Option Quantity
  pub minimum_terminal_balance : Option Quantity

-- The kind is quadratic exactly where there is a coefficient.
pub record UtilitySpec : Type 0 where
  pub is_quadratic : Bool
  pub coefficient : Option Quantity

pub record AllocationProblem : Type 0 where
  pub value_semantics : UnitSemantics
  pub initial_balance : Quantity
  pub current : CurrentAllocation
  pub resources : List ResourceCapacity
  pub holding_definitions : List Definition
  pub scenarios : List JointScenario
  pub probability_evidence : ProbabilityEvidence
  pub actions : List DiscreteAllocation
  pub no_action_id : ℕ
  pub risk : RiskConstraints
  pub utility : UtilitySpec

abbrev pub is_some {ℓ} : {A : Type ℓ} → Option A → Bool
is_some none = false
is_some (some _) = true

abbrev pub is_estimated : EvidenceKind → Bool
is_estimated k = elim k [ EvidenceKind.assumed ↦ false | EvidenceKind.estimated ↦ true ]

abbrev pub scenario_key : JointScenario → ℕ
scenario_key s = s.scenario_id

abbrev pub payoff_key : ScenarioPayoff → ℕ
payoff_key p = p.scenario_id

abbrev pub action_key : DiscreteAllocation → ℕ
action_key a = a.action_id

abbrev pub amount_key : NamedAmount → ℕ
amount_key a = a.name

-- `ProbabilityEvidence._evidence`
unfoldable pub check_evidence : ProbabilityEvidence → Result AllocationError (Unit {0})
check_evidence e = do
  raise_if
      (is_estimated e.kind && (not (is_some e.evidence_fingerprint) || not (is_some e.method_id)))
      AllocationError.missing_evidence
  raise_if (is_some e.independent_units && not (is_some e.independent_unit))
      AllocationError.undefined_unit

-- `JointScenario._bounds`
unfoldable pub check_bounds : JointScenario → Result AllocationError JointScenario
check_bounds s = elim s.lower [
  | none ↦ raise_if (is_some s.upper) AllocationError.unpaired_bounds >> ok s
  | some low ↦ elim s.upper [
    | none ↦ err AllocationError.unpaired_bounds
    | some high ↦
        raise_if (not (leb low s.probability && leb s.probability high))
          AllocationError.outside_bounds
        >> ok s
  ]
]

-- `DiscreteAllocation._vectors`, `_payoffs` and `_funded_fee`
unfoldable pub check_action : DiscreteAllocation → Result AllocationError DiscreteAllocation
check_action a = do
  holdings ← ordered amount_key a.holdings
  resource_use ← ordered amount_key a.resource_use
  gross_payoffs ← ordered payoff_key a.gross_payoffs
  raise_if (not (same_semantics a.capital_required.semantics a.transaction_cost.semantics))
      AllocationError.incompatible_fee
  raise_if (ltb a.capital_required.value a.transaction_cost.value) AllocationError.unfunded_fee
  ok (record a { holdings = holdings; resource_use = resource_use; gross_payoffs = gross_payoffs })

abbrev pub all_bounded : List JointScenario → Bool
all_bounded [] = true
all_bounded (s ∷ scenarios) = is_some s.lower && all_bounded scenarios

abbrev pub any_bounded : List JointScenario → Bool
any_bounded [] = false
any_bounded (s ∷ scenarios) = is_some s.lower || any_bounded scenarios

abbrev pub total_probability : List JointScenario → ℕ
total_probability [] = 0
total_probability (s ∷ scenarios) = s.probability + total_probability scenarios

-- `AllocationProblem._probabilities`
unfoldable pub check_probabilities : AllocationProblem → Result AllocationError (Unit {0})
check_probabilities p = do
  raise_if (not (total_probability p.scenarios == scale)) AllocationError.not_a_simplex
  raise_if (is_estimated p.probability_evidence.kind && not (all_bounded p.scenarios))
      AllocationError.missing_bounds
  raise_if (not (is_estimated p.probability_evidence.kind) && any_bounded p.scenarios)
      AllocationError.ambiguous_bounds
