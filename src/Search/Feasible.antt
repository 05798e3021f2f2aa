-- ===== src/Search/Feasible.antt =====
-- What the coverage search promises at every end of it.
use coleman.Base.{[], ◌∷◌, ℕ, suc, ◌≤◌, ◌≡◌, ◌≢◌, arith, length}
use coleman.Search.Limits.{Environment, Method, Stop}
use coleman.Search.Mathematics.{SelectionValue, total_of, union_of}
use coleman.Search.Monad.{returned, SearchState, Outcome, ◌>>◌, give, key, poll, stopped}
use coleman.Search.Solver.{Prepared, root, greedy, branch_and_bound, suffixes}
use coleman.Search.Run.{Ending, search_body, greedy_complete, search_complete}
use coleman.Search.Solve.{start_state}
use coleman.Search.Triple.{Triple, Triple-bind, Triple-give, Triple-pure, Post}
use coleman.Search.Selections.{IsFeasible, total_of-cost_of, Includes-refl}
use coleman.Search.Invariant.{Ended, IsBounded, poll-Holds}
use coleman.Search.GreedyFeasible.{key-Holds, greedy-Holds, Plain}
use coleman.Search.BranchFeasible.{explore-Plain}

module _ (env : Environment) (prep : Prepared) (base : ℕ) where
  branch_and_bound-Plain :
      Triple
        (Ended env prep base)
        (Plain env prep base 0)
        (branch_and_bound env prep)
        (λ _. Plain env prep base 0)
  unfolding branch_and_bound
  branch_and_bound-Plain =
      Triple-bind _ (key (union_of prep.covers prep.required)) _ (key-Holds env prep base _)
        (λ covered. Triple-pure _ (λ _.
          Triple-bind _ (key (total_of prep.costs prep.required)) _ (key-Holds env prep base _)
            (λ cost. Triple-pure _ (λ found.
              Triple-bind _ (key (total_of prep.weights covered)) _ (key-Holds env prep base _)
                (λ objective. Triple-pure _ (λ _.
                  Triple-bind _ (key (suffixes prep.covers prep.optional)) _
                    (key-Holds env prep base _)
                    (λ suffix. Triple-pure _ (λ _.
                      explore-Plain env prep base (suc env.limits.max_work) 0 suffix
                        (root env prep covered cost objective ∷ []) (omega arith)
                        (
                          (
                            total_of-cost_of prep.costs prep.required found,
                            Includes-refl prep.required,
                          ),
                          tt,
                        )))))))))

  search_body-Plain :
      (method : Method)
      → Triple
          (Ended env prep base)
          (Plain env prep base 0)
          (search_body env prep method)
          (λ _. Plain env prep base 0)
  unfolding search_body
  search_body-Plain method =
      Triple-bind _ (poll env) _ (poll-Holds env prep base)
        (λ _. Triple-bind _ (greedy env prep) _ (greedy-Holds env prep base) (λ _. last method))
    where
      last :
          (method : Method)
          → Triple
              (Ended env prep base)
              (Plain env prep base 0)
              (elim method [
                | Method.greedy_density ↦ give greedy_complete
                | Method.branch_bound ↦ branch_and_bound env prep >> give search_complete
              ])
              (λ _. Plain env prep base 0)
      last Method.greedy_density = Triple-give _ greedy_complete (λ s h. h)
      last Method.branch_bound =
          Triple-bind _ (branch_and_bound env prep) _ branch_and_bound-Plain
            (λ _. Triple-give _ search_complete (λ s h. h))

Post-IsBounded :
    (env : Environment) (prep : Prepared) (base : ℕ) (r : Outcome Ending × SearchState)
    → Post (Ended env prep base) (λ _. Plain env prep base 0) r
    → IsBounded env prep base r.1 × (r.0 ≢ stopped Stop.exhausted)
Post-IsBounded env prep base (returned e, s) h = (h.bounded, λ k. cc)
Post-IsBounded env prep base (stopped why, s) (bounded, real) = (bounded, λ k. real (same k))
  where
    same : ◌≡◌ {A = Outcome Ending} (stopped why) (stopped Stop.exhausted) → why ≡ Stop.exhausted
    same k = cc

-- An end of a search that started from `v`.
abbrev pub IsSafeEnd :
    Environment → Prepared → SelectionValue → Outcome Ending × SearchState → Type 0
IsSafeEnd env prep v (outcome, s) =
    IsFeasible prep s.best
    × (v.objective ≤ s.best.objective)
    × (s.counter.used ≤ env.limits.max_work)
    × (length s.proof ≤ env.limits.max_certificate_leaves)
    × (outcome ≢ stopped Stop.exhausted)

-- A search of either method that starts from a feasible incumbent ends, however it ends (complete,
-- out of work, late, cancelled, interrupted, at the certificate limit or on a missing key), with
-- an incumbent that includes every mandatory candidate, has its exact modelled cost within the
-- budget and its size within the ceiling, and has an objective no lower than at the start; the
-- work and the certificate are within their limits, and the loops always reach one of these ends.
pub search_body-IsSafeEnd :
    (env : Environment) (prep : Prepared) (method : Method) (v : SelectionValue)
    → IsFeasible prep v
    → IsSafeEnd env prep v (search_body env prep method (start_state v))
search_body-IsSafeEnd env prep method v feasible =
    let ((good, used, proof), real) =
      Post-IsBounded env prep v.objective (search_body env prep method (start_state v)) (
        (search_body-Plain env prep v.objective method).holds (start_state v) record {
          bounded = ((feasible, omega arith), omega arith, omega arith);
          least = omega arith;
          known = tt;
        }) in
    (good.0, good.1, used, proof, real)
