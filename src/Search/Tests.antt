-- ===== src/Search/Tests.antt =====
-- Runs of the coverage search on a small problem, and the witnesses of its properties.
use coleman.Base.{ℕ, ◌≡◌, refl, false, none, some, List, [], ◌∷◌, arith, sort_by, insert_sorted}
use coleman.Search.Limits.{Environment, SearchLimits, Method, step_counter, poll_counter}
use coleman.Search.Mathematics.{SelectionValue}
use coleman.Search.Monad.{SearchState, Outcome}
use coleman.Search.Solver.{
  Prepared, greedy, greedy_from, greedy_choice, scan, examine, weigh, commit, gain,
  branch_and_bound, explore, visit, bound_node, expand, improve, proof_leaf, suffixes,
}
use coleman.Search.Run.{search_body, Ending}
use coleman.Search.Solve.{start_state}
use coleman.Search.Feasible.{search_body-IsSafeEnd, IsSafeEnd}

abbrev limits : SearchLimits
limits = record {
  max_work = 20;
  deadline = none;
  max_working_bytes = 100000;
  max_candidates = 10;
  max_outcomes = 10;
  max_memberships = 100;
  max_certificate_leaves = 16;
}

abbrev quiet : Environment
quiet = record {
  limits = limits;
  started = 0;
  cancelled_at = none;
  clock = λ n. n;
  interrupted_at = λ _. false;
}

-- Candidate 1 covers outcomes 1 and 2 at cost 3, candidate 2 covers 2 and 3 at cost 2, candidate 3
-- covers 1 at cost 2; the budget is 4.
abbrev three : Prepared
three = record {
  costs = (1, 3) ∷ (2, 2) ∷ (3, 2) ∷ [];
  covers = (1, 1 ∷ 2 ∷ []) ∷ (2, 2 ∷ 3 ∷ []) ∷ (3, 1 ∷ []) ∷ [];
  weights = (1, 5) ∷ (2, 4) ∷ (3, 1) ∷ [];
  budget = 4;
  maximum_selected = some 2;
  required = [];
  optional = 1 ∷ 2 ∷ 3 ∷ [];
}

abbrev nothing : SelectionValue
nothing = record { selected_ids = []; cost = 0; objective = 0 }

abbrev best_of : Outcome Ending × SearchState → List ℕ × ℕ
best_of (outcome, s) = (s.best.selected_ids, s.best.objective)

exact_run :
    best_of (search_body quiet three Method.branch_bound (start_state nothing)) ≡ (2 ∷ 3 ∷ [], 10)
unfolding search_body greedy greedy_from greedy_choice scan examine weigh commit gain
    branch_and_bound explore visit bound_node expand improve proof_leaf suffixes step_counter
    poll_counter sort_by insert_sorted
exact_run = refl

search_body-IsSafeEnd_example :
    IsSafeEnd quiet three nothing
      (search_body quiet three Method.branch_bound (start_state nothing))
search_body-IsSafeEnd_example =
    search_body-IsSafeEnd quiet three Method.branch_bound nothing ((refl, tt), omega arith, refl)
