-- ===== src/Search/Solve.antt =====
-- `solve_coverage` of coleman/selection/solver.py and its helpers. The fingerprint of a problem is
-- a parameter; the status, the reason and the quantities of the result stand for `CoverageResult`.
use coleman.Base.{
  ◌&&◌, ◌||◌, ℕ, Bool, true, false, not, Option, none, some, List, [], ◌∷◌, map, ◌==◌,
  if◌then◌else◌, Result, ok, err, ◌>>=◌, ◌>>◌, raise_if, subset, ℤ, pos, ◌-ℤ◌,
}
use coleman.Search.Contracts.{
  scoped_candidates, check_problem, search_scope, candidate_key, ProblemError, CoverageProblem,
  Scope,
}
use coleman.Search.Limits.{
  preflight_reason, inspect_workload, Environment, Method, Rejection, Preflight, Stop,
}
use coleman.Search.Mathematics.{
  optional_ids, constraints_feasible, weight_table, infeasibility_reason, cover_table, total_of,
  selection_value, or_missing, cost_table, union_upper_bound, ValueError, SelectionValue,
  Infeasible,
}
use coleman.Search.Monad.{SearchState, Outcome, returned, stopped}
use coleman.Search.Solver.{Prepared}
use coleman.Search.Run.{Ending, search_body, greedy_complete, search_complete, ended}

pub record CoverageCheckpoint : Type 0 where
  pub problem_fingerprint : ℕ
  pub selected_ids : List ℕ

pub data SolveError : Type 0 where
  invalid_problem : ProblemError → SolveError
  bad_value : ValueError → SolveError
  other_problem unknown_checkpoint infeasible_checkpoint : SolveError
  unhandled : Stop → SolveError

pub data Termination : Type 0 where
  impossible : Infeasible → Termination
  rejected : Rejection → Termination
  searched : Ending → Termination

pub data Status : Type 0 where
  infeasible limited optimal feasible_only : Status

pub record CoverageResult : Type 0 where
  pub preflight : Preflight
  pub scope : Scope
  pub work_used : ℕ
  pub selection : Option SelectionValue
  pub status : Status
  pub termination_reason : Termination
  pub upper_bound : Option ℕ
  pub absolute_gap : Option ℤ
  pub proof_prefixes : List (List Bool)

-- The bits of a prefix compare as the characters "0" and "1".
abbrev pub prefix_less : List Bool → List Bool → Bool
prefix_less [] [] = false
prefix_less [] (q ∷ qs) = true
prefix_less (p ∷ ps) [] = false
prefix_less (p ∷ ps) (q ∷ qs) = (not p && q) || (not (p && not q) && prefix_less ps qs)

abbrev pub insert_prefix : List Bool → List (List Bool) → List (List Bool)
insert_prefix p [] = p ∷ []
insert_prefix p (q ∷ qs) = if prefix_less q p then q ∷ insert_prefix p qs else p ∷ q ∷ qs

abbrev pub sort_prefixes : List (List Bool) → List (List Bool)
sort_prefixes [] = []
sort_prefixes (p ∷ ps) = insert_prefix p (sort_prefixes ps)

unfoldable pub prepare : CoverageProblem → Prepared
prepare p = record {
  costs = cost_table (scoped_candidates p);
  covers = cover_table (scoped_candidates p);
  weights = weight_table p.outcomes;
  budget = p.constraints.budget.value;
  maximum_selected = p.constraints.maximum_selected;
  required = p.constraints.required_ids;
  optional = optional_ids p;
}

abbrev pub as_value {ℓ} : {A : Type ℓ} → Result ValueError A → Result SolveError A
as_value (ok a) = ok a
as_value (err why) = err (bad_value why)

-- `_validated_checkpoint`
unfoldable pub check_checkpoint :
    ℕ → CoverageProblem → Option CoverageCheckpoint → Result SolveError (Option CoverageCheckpoint)
check_checkpoint fingerprint p none = ok none
check_checkpoint fingerprint p (some c) = do
  raise_if (not (c.problem_fingerprint == fingerprint)) other_problem
  raise_if (not (subset c.selected_ids (map candidate_key p.candidates))) unknown_checkpoint
  cost ← as_value (or_missing (total_of (cost_table p.candidates) c.selected_ids))
  raise_if (not (constraints_feasible p c.selected_ids cost)) infeasible_checkpoint
  ok (some c)

-- `_initial_incumbent`
unfoldable pub initial_incumbent :
    CoverageProblem → Option CoverageCheckpoint → Result ValueError SelectionValue
initial_incumbent p none = selection_value p p.constraints.required_ids
initial_incumbent p (some c) = selection_value p c.selected_ids

-- What the `except` clauses of `_search` catch: every stop but a missing key.
unfoldable pub caught : Outcome Ending → Result SolveError Ending
caught (returned e) = ok e
caught (stopped Stop.key_error) = err (unhandled Stop.key_error)
caught (stopped Stop.exhausted) = err (unhandled Stop.exhausted)
caught (stopped why) = ok (ended why)

abbrev pub start_state : SelectionValue → SearchState
start_state v = record { counter = record { used = 0; polls = 0 }; best = v; proof = [] }

abbrev pub is_complete : Ending → Bool
is_complete search_complete = true
is_complete greedy_complete = false
is_complete (ended why) = false

-- The result that leaves out the search.
abbrev pub refused : CoverageProblem → Preflight → Status → Termination → CoverageResult
refused p facts status why = record {
  preflight = facts;
  scope = search_scope p;
  work_used = 0;
  selection = none;
  status = status;
  termination_reason = why;
  upper_bound = none;
  absolute_gap = none;
  proof_prefixes = [];
}

unfoldable pub searched_result :
    CoverageProblem → Preflight → SearchState → Ending → Result SolveError CoverageResult
searched_result p facts s ending = do
  let optimal_end = is_complete ending
  bound ← (if optimal_end then ok s.best.objective else as_value (union_upper_bound p))
  ok record {
    preflight = facts;
    scope = search_scope p;
    work_used = s.counter.used;
    selection = some s.best;
    status = if optimal_end then optimal else feasible_only;
    termination_reason = searched ending;
    upper_bound = some bound;
    absolute_gap = some (pos bound -ℤ pos s.best.objective);
    proof_prefixes = if optimal_end then sort_prefixes s.proof else [];
  }

-- The part of `solve_coverage` behind both refusals.
unfoldable pub solve_feasible :
    Environment
    → CoverageProblem
    → Method
    → Option CoverageCheckpoint
    → Preflight
    → Result SolveError CoverageResult
solve_feasible env p method checkpoint facts = do
  incumbent ← as_value (initial_incumbent p checkpoint)
  let (outcome, s) = search_body env (prepare p) method (start_state incumbent)
  ending ← caught outcome
  searched_result p facts s ending

unfoldable pub solve_coverage :
    (CoverageProblem → ℕ)
    → Environment
    → CoverageProblem
    → Method
    → Option CoverageCheckpoint
    → Result SolveError CoverageResult
solve_coverage fingerprint env given method hint = do
  p ← elim (check_problem given) [ ok p ↦ ok p | err why ↦ err (invalid_problem why) ]
  checkpoint ← check_checkpoint (fingerprint p) p hint
  let facts = inspect_workload p method env.limits
  reason ← as_value (infeasibility_reason p)
  elim reason [
    | some why ↦ ok (refused p facts infeasible (impossible why))
    | none ↦ elim (preflight_reason p method env.limits facts) [
      | some why ↦ ok (refused p facts limited (rejected why))
      | none ↦ solve_feasible env p method checkpoint facts
    ]
  ]
