-- ===== src/Search/Contracts.antt =====
-- coleman/selection/contracts.py: the coverage problem. A quantity is its number of 10^-12 ticks.
use coleman.Base.{
  not, none, [], ltb, ◌>>=◌, ◌>>◌, raise_if, map_result, all_distinct, subset, sort_by, sort, ◌&&◌,
  contains, true, some, ◌==◌, ok, map, Bool, length, ◌∷◌, Option, Result, List, ℕ, if◌then◌else◌,
  ◌^◌,
}
use coleman.Resources.Contracts.{UnitSemantics, same_semantics}

-- The refusals of the model validators.
pub data ProblemError : Type 0 where
  duplicate_identifier cost_too_large weight_too_large budget_too_large : ProblemError
  unknown_search unknown_mandatory unknown_outcome : ProblemError
  incompatible_costs incompatible_weights : ProblemError

pub record Quantity : Type 0 where
  pub value : ℕ
  pub semantics : UnitSemantics

pub record CoverageCandidate : Type 0 where
  pub candidate_id : ℕ
  pub cost : Quantity
  pub covers : List ℕ

pub record CoverageOutcome : Type 0 where
  pub outcome_id : ℕ
  pub weight : Quantity

pub record CoverageConstraints : Type 0 where
  pub budget : Quantity
  pub required_ids : List ℕ
  pub maximum_selected : Option ℕ

pub record CoverageProblem : Type 0 where
  pub objective_semantics : UnitSemantics
  pub candidates : List CoverageCandidate
  pub outcomes : List CoverageOutcome
  pub constraints : CoverageConstraints
  pub search_ids : Option (List ℕ)

-- `INPUT_MAXIMUM`, 10^12 units of 10^12 ticks.
abbrev pub input_maximum : ℕ
input_maximum = 10 ^ 24

unfoldable pub unique_ids : List ℕ → Result ProblemError (List ℕ)
unique_ids values = do raise_if (not (all_distinct values)) duplicate_identifier; ok (sort values)

-- `CoverageCandidate._covers` and `_cost`
unfoldable pub check_candidate : CoverageCandidate → Result ProblemError CoverageCandidate
check_candidate c = do
  covers ← unique_ids c.covers
  raise_if (ltb input_maximum c.cost.value) cost_too_large
  ok (record c { covers = covers })

unfoldable pub check_outcome : CoverageOutcome → Result ProblemError CoverageOutcome
check_outcome o = do raise_if (ltb input_maximum o.weight.value) weight_too_large; ok o

-- `CoverageConstraints._required` and `_budget`
unfoldable pub check_constraints : CoverageConstraints → Result ProblemError CoverageConstraints
check_constraints c = do
  required_ids ← unique_ids c.required_ids
  raise_if (ltb input_maximum c.budget.value) budget_too_large
  ok (record c { required_ids = required_ids })

abbrev pub candidate_key : CoverageCandidate → ℕ
candidate_key c = c.candidate_id

abbrev pub outcome_key : CoverageOutcome → ℕ
outcome_key o = o.outcome_id

-- `search_ids or ()`
abbrev pub search_names : CoverageProblem → List ℕ
search_names p = elim p.search_ids [ none ↦ [] | some ids ↦ ids ]

-- The loop of `_references` over the candidates.
unfoldable pub check_references :
    List ℕ → UnitSemantics → List CoverageCandidate → Result ProblemError (Unit {0})
check_references outcome_ids budget [] = ok tt
check_references outcome_ids budget (c ∷ cs) = do
  raise_if (not (subset c.covers outcome_ids)) unknown_outcome
  raise_if (not (same_semantics c.cost.semantics budget)) incompatible_costs
  check_references outcome_ids budget cs

abbrev pub same_weights : UnitSemantics → List CoverageOutcome → Bool
same_weights objective [] = true
same_weights objective (o ∷ os) =
    same_semantics o.weight.semantics objective && same_weights objective os

-- `CoverageProblem._references`
unfoldable pub resolve_references : CoverageProblem → Result ProblemError CoverageProblem
resolve_references p =
    let candidate_ids = map candidate_key p.candidates in
    let outcome_ids = map outcome_key p.outcomes in
    let names : List ℕ = elim p.search_ids [ none ↦ sort candidate_ids | some ids ↦ ids ] in
    do
      raise_if (not (subset names candidate_ids)) unknown_search
      raise_if (not (subset p.constraints.required_ids candidate_ids)) unknown_mandatory
      check_references outcome_ids p.constraints.budget.semantics p.candidates
      raise_if (not (same_weights p.objective_semantics p.outcomes)) incompatible_weights
      ok (record p { search_ids = some names })

-- `_search`: an explicit subset is sorted, an absent one is left for `_references`.
unfoldable pub check_search : Option (List ℕ) → Result ProblemError (Option (List ℕ))
check_search none = ok none
check_search (some ids) = do sorted ← unique_ids ids; ok (some sorted)

-- `CoverageProblem.model_validate`, the parts of the problem included.
unfoldable pub check_problem : CoverageProblem → Result ProblemError CoverageProblem
check_problem p = do
  candidates ← map_result check_candidate p.candidates
  _ ← unique_ids (map candidate_key candidates)
  outcomes ← map_result check_outcome p.outcomes
  _ ← unique_ids (map outcome_key outcomes)
  constraints ← check_constraints p.constraints
  search_ids ← check_search p.search_ids
  resolve_references (record p {
    candidates = sort_by candidate_key candidates;
    outcomes = sort_by outcome_key outcomes;
    constraints = constraints;
    search_ids = search_ids;
  })

abbrev pub keep_candidates : List ℕ → List CoverageCandidate → List CoverageCandidate
keep_candidates ids [] = []
keep_candidates ids (c ∷ cs) =
    if contains c.candidate_id ids then c ∷ keep_candidates ids cs else keep_candidates ids cs

pub data Scope : Type 0 where
  full restricted : Scope

-- `search_scope`
abbrev pub search_scope : CoverageProblem → Scope
search_scope p = if length (search_names p) == length p.candidates then full else restricted

abbrev pub scoped_candidates : CoverageProblem → List CoverageCandidate
scoped_candidates p = keep_candidates (search_names p) p.candidates
