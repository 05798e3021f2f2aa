-- ===== src/Search/Run.antt =====
-- `_search` of coleman/selection/solver.py: the warm start and the exact search share one counter.
use coleman.Search.Monad.{Search, ◌>>◌, give, poll}
use coleman.Search.Limits.{Environment, Method, Stop}
use coleman.Search.Solver.{Prepared, greedy, branch_and_bound}

pub data Ending : Type 0 where
  greedy_complete search_complete : Ending
  ended : Stop → Ending

-- The body of the `try`.
unfoldable pub search_body : Environment → Prepared → Method → Search Ending
search_body env prep method = do
  poll env
  greedy env prep
  elim method [
    | Method.greedy_density ↦ give greedy_complete
    | Method.branch_bound ↦ branch_and_bound env prep >> give search_complete
  ]
