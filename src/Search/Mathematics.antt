-- ===== src/Search/Mathematics.antt =====
-- coleman/selection/mathematics.py: exact arithmetic of a selection. Identities are numbers.
use coleman.Base.{
  ℕ, ◌+◌, Bool, true, ◌&&◌, ◌||◌, not, Option, none, some, List, [], ◌∷◌, map, ltb, leb,
  if◌then◌else◌, Result, ok, err, ◌>>=◌, ◌>>◌, raise_if, length, contains, all_distinct, subset,
  union, Dict, lookup, sort,
}
use coleman.Search.Contracts.{
  scoped_candidates, candidate_key, search_names, CoverageOutcome, CoverageCandidate,
  CoverageProblem,
}

pub record SelectionValue : Type 0 where
  pub selected_ids : List ℕ
  pub cost : ℕ
  pub objective : ℕ

pub data ValueError : Type 0 where
  unknown_or_duplicate missing_key : ValueError

-- `sum(table[name] for name in names)`; `none` is the `KeyError`.
abbrev pub total_of : Dict ℕ → List ℕ → Option ℕ
total_of table [] = some 0
total_of table (x ∷ xs) = elim (lookup x table) [
  | none ↦ none
  | some c ↦ elim (total_of table xs) [ none ↦ none | some n ↦ some (c + n) ]
]

-- `set().union(*(table[name] for name in names))`
abbrev pub union_of : Dict (List ℕ) → List ℕ → Option (List ℕ)
union_of table [] = some []
union_of table (x ∷ xs) = elim (lookup x table) [
  | none ↦ none
  | some c ↦ elim (union_of table xs) [ none ↦ none | some cs ↦ some (union c cs) ]
]

abbrev pub cost_table : List CoverageCandidate → Dict ℕ
cost_table = map (λ c. (c.candidate_id, c.cost.value))

abbrev pub cover_table : List CoverageCandidate → Dict (List ℕ)
cover_table = map (λ c. (c.candidate_id, c.covers))

abbrev pub weight_table : List CoverageOutcome → Dict ℕ
weight_table = map (λ o. (o.outcome_id, o.weight.value))

-- The weights of the outcomes of a set.
abbrev pub weight_in : List ℕ → List CoverageOutcome → ℕ
weight_in covered [] = 0
weight_in covered (o ∷ os) =
    (if contains o.outcome_id covered then o.weight.value else 0) + weight_in covered os

-- A lookup that validation has made safe: a missing key raises `KeyError`.
abbrev pub or_missing {ℓ} : {A : Type ℓ} → Option A → Result ValueError A
or_missing none = err missing_key
or_missing (some a) = ok a

unfoldable pub selection_value : CoverageProblem → List ℕ → Result ValueError SelectionValue
selection_value p selected_ids = do
  raise_if
      (not (all_distinct selected_ids)
        || not (subset selected_ids (map candidate_key p.candidates)))
      unknown_or_duplicate
  cost ← or_missing (total_of (cost_table p.candidates) selected_ids)
  covered ← or_missing (union_of (cover_table p.candidates) selected_ids)
  ok record {
    selected_ids = sort selected_ids;
    cost = cost;
    objective = weight_in covered p.outcomes;
  }

-- `ceiling is None or n <= ceiling`
abbrev pub within : Option ℕ → ℕ → Bool
within none n = true
within (some ceiling) n = leb n ceiling

unfoldable pub constraints_feasible : CoverageProblem → List ℕ → ℕ → Bool
constraints_feasible p selected_ids cost =
    all_distinct selected_ids
    && subset selected_ids (search_names p)
    && subset p.constraints.required_ids selected_ids
    && leb cost p.constraints.budget.value
    && within p.constraints.maximum_selected (length selected_ids)

abbrev pub feasible : CoverageProblem → SelectionValue → Bool
feasible p v = constraints_feasible p v.selected_ids v.cost

unfoldable pub union_upper_bound : CoverageProblem → Result ValueError ℕ
union_upper_bound p = do
  covered ←
      or_missing (union_of (cover_table p.candidates) (map candidate_key (scoped_candidates p)))
  ok (weight_in covered p.outcomes)

pub data Infeasible : Type 0 where
  mandatory_outside_scope mandatory_budget_exceeded mandatory_cardinality_exceeded : Infeasible

unfoldable pub infeasibility_reason : CoverageProblem → Result ValueError (Option Infeasible)
infeasibility_reason p =
    let required = p.constraints.required_ids in
    if not (subset required (search_names p))
    then ok (some mandatory_outside_scope)
    else or_missing (total_of (cost_table p.candidates) required) >>= λ cost. ok (
        if ltb p.constraints.budget.value cost
        then some mandatory_budget_exceeded
        else if not (within p.constraints.maximum_selected (length required))
        then some mandatory_cardinality_exceeded
        else none)

abbrev pub leave_out : List ℕ → List ℕ → List ℕ
leave_out required [] = []
leave_out required (x ∷ xs) =
    if contains x required then leave_out required xs else x ∷ leave_out required xs

abbrev pub optional_ids : CoverageProblem → List ℕ
optional_ids p = leave_out p.constraints.required_ids (search_names p)
