-- ===== src/Search/BranchFeasible.antt =====
-- The branch-and-bound part of the coverage search keeps the invariant, and ends within the work.
use coleman.Base.{
  zero, suc, ◌+◌, ◌<◌, refl, false, not, Option, none, some, [], ◌∷◌, ltb, if◌then◌else◌, length,
  union, ℕ, ◌≤◌, ◌≡◌, inl, inr, Bool, true, List, arith, leb, leb→le, Bool-cases, All, lookup,
}
use coleman.Search.Limits.{Environment}
use coleman.Search.Mathematics.{SelectionValue, total_of}
use coleman.Search.Monad.{Search, ◌>>=◌, ◌>>◌, give, key, get_best, poll, step}
use coleman.Search.Solver.{
  children, Prepared, Node, gain, proof_leaf, improve, better, expand, bound_node, visit, explore,
  within_bounds, get_elem?,
}
use coleman.Search.Triple.{Triple, Triple-bind, Triple-give, Triple-pure, Triple-weaken, Triple-if}
use coleman.Search.Selections.{IsExact, extend-IsExact, and-true}
use coleman.Search.Invariant.{IsGood, Ended, poll-Holds, step-Holds, proof_leaf-Holds}
use coleman.Search.GreedyFeasible.{key-Holds, gain-Holds, get_best-Holds, Plain}

module _ (env : Environment) (prep : Prepared) (base : ℕ) where
  -- Every node's selection has its exact cost and the mandatory candidates.
  abbrev pub AreExact : List Node → Type 0
  AreExact = All (λ node. IsExact prep node.value)

  improved-IsGood :
      (v best : SelectionValue)
      → IsExact prep v
      → within_bounds prep v ≡ true
      → base ≤ best.objective
      → better v best ≡ true
      → IsGood env prep base v
  improved-IsGood v best exact bounds above wins =
      let (budget, ceiling) = and-true (leb v.cost prep.budget) _ bounds in
      ((exact, leb→le v.cost prep.budget budget, ceiling), ground arith)

  improve-Plain :
      (n : ℕ) (v : SelectionValue)
      → IsExact prep v
      → within_bounds prep v ≡ true
      → Triple
          (Ended env prep base)
          (Plain env prep base n)
          (improve env prep v)
          (λ _. Plain env prep base n)
  unfolding improve
  improve-Plain n v exact bounds = record {
    holds = λ s h. elim (Bool-cases (better v s.best)) [
      | inl wins ↦ rw wins record {
        bounded =
            (improved-IsGood v s.best exact bounds h.bounded.0.1 wins, h.bounded.1, h.bounded.2);
        least = h.least;
        known = tt;
      }
      | inr loses ↦ rw loses h
    ];
  }

  expand-AreExact :
      (n : ℕ) (node : Node) (frontier : List Node) (name : ℕ)
      → IsExact prep node.value
      → AreExact frontier
      → Triple
          (Ended env prep base)
          (Plain env prep base n)
          (expand env prep node frontier name)
          (λ nodes s. Plain env prep base n s × AreExact nodes)
  unfolding expand
  expand-AreExact n node frontier name exact others =
      Triple-bind _ (key (lookup name prep.costs)) _ (key-Holds env prep base _) (λ cost.
        Triple-pure _ (λ found.
          Triple-bind _ (key (lookup name prep.covers)) _ (key-Holds env prep base _) (λ covers.
            Triple-pure _ (λ _.
              Triple-bind _ (gain env prep covers node.covered 0) _
                (gain-Holds env prep base covers node.covered 0)
                (λ gained. Triple-give _ (children node frontier name cost covers gained) (λ s h. (
                  h,
                  (extend-IsExact prep node.value name cost gained exact found, (exact, others)),
                )))))))

  -- A leaf goes to the proof; the frontier stays.
  leaf-AreExact :
      (n : ℕ) (prefix : List Bool) (frontier : List Node)
      → AreExact frontier
      → Triple
          (Ended env prep base)
          (Plain env prep base n)
          (proof_leaf env prep prefix >> give frontier)
          (λ nodes s. Plain env prep base n s × AreExact nodes)
  leaf-AreExact n prefix frontier others =
      Triple-bind _ (proof_leaf env prep prefix) (λ _. give frontier)
        (proof_leaf-Holds env prep base prefix) (λ _. Triple-give _ frontier (λ s h. (h, others)))

  bound_node-AreExact :
      (n : ℕ) (suffix : List (List ℕ)) (node : Node) (frontier : List Node)
      → IsExact prep node.value
      → AreExact frontier
      → Triple
          (Ended env prep base)
          (Plain env prep base n)
          (bound_node env prep suffix node frontier)
          (λ nodes s. Plain env prep base n s × AreExact nodes)
  unfolding bound_node
  bound_node-AreExact n suffix node frontier exact others =
      let decide : ℕ → SelectionValue → Option ℕ → Search (List Node) = λ bound best at. elim at [
        | none ↦ proof_leaf env prep node.prefix >> give frontier
        | some name ↦
            if ltb bound best.objective
            then proof_leaf env prep node.prefix >> give frontier
            else expand env prep node frontier name
      ] in
      let at = get_elem? prep.optional (length node.prefix) in
      let weigh : List ℕ → Option ℕ = λ reach. total_of prep.weights (union node.covered reach) in
      let rest : ℕ → Search (List Node) =
        λ bound. poll env >> (get_best >>= λ best. decide bound best at) in
      Triple-bind _ (key (get_elem? suffix (length node.prefix)))
        (λ reach. key (weigh reach) >>= rest) (key-Holds env prep base _)
        (λ reach. Triple-pure _ (λ _.
          Triple-bind _ (key (weigh reach)) rest (key-Holds env prep base _) (λ bound.
            Triple-pure _ (λ _.
              Triple-bind _ (poll env) (λ _. get_best >>= λ best. decide bound best at)
                (poll-Holds env prep base)
                (λ _.
                  Triple-bind _ get_best (λ best. decide bound best at)
                    (get_best-Holds env prep base)
                    (λ best.
                      Triple-weaken _
                        (λ s h. record { bounded = h.0.bounded; least = h.0.least; known = tt })
                        (decided bound best at)))))))
    where
      decided :
          (bound : ℕ) (best : SelectionValue) (at : Option ℕ)
          → Triple
              (Ended env prep base)
              (Plain env prep base n)
              (elim at [
                | none ↦ proof_leaf env prep node.prefix >> give frontier
                | some name ↦
                    if ltb bound best.objective
                    then proof_leaf env prep node.prefix >> give frontier
                    else expand env prep node frontier name
              ])
              (λ nodes s. Plain env prep base n s × AreExact nodes)
      decided bound best none = leaf-AreExact n node.prefix frontier others
      decided bound best (some name) =
          Triple-if _ (ltb bound best.objective) (λ _. leaf-AreExact n node.prefix frontier others)
            (λ _. expand-AreExact n node frontier name exact others)

  visit-AreExact :
      (n : ℕ) (suffix : List (List ℕ)) (node : Node) (frontier : List Node)
      → IsExact prep node.value
      → AreExact frontier
      → Triple
          (Ended env prep base)
          (Plain env prep base n)
          (visit env prep suffix node frontier)
          (λ nodes s. Plain env prep base n s × AreExact nodes)
  unfolding visit
  visit-AreExact n suffix node frontier exact others =
      Triple-if _ (not (within_bounds prep node.value))
        (λ _. leaf-AreExact n node.prefix frontier others)
        (λ inside.
          Triple-bind _ (improve env prep node.value)
            (λ _. bound_node env prep suffix node frontier)
            (improve-Plain n node.value exact (not_false (within_bounds prep node.value) inside))
            (λ _. bound_node-AreExact n suffix node frontier exact others))
    where
      not_false : (b : Bool) → not b ≡ false → b ≡ true
      not_false true h = refl
      not_false false h = cc

  -- With fuel for the work that is left, the loop of `_branch_bound` is never out of fuel.
  pub explore-Plain :
      (fuel n : ℕ) (suffix : List (List ℕ)) (frontier : List Node)
      → env.limits.max_work < n + fuel
      → AreExact frontier
      → Triple
          (Ended env prep base)
          (Plain env prep base n)
          (explore env prep fuel suffix frontier)
          (λ _. Plain env prep base 0)
  unfolding explore
  explore-Plain fuel n suffix [] enough exact =
      Triple-give _ tt (λ s h. record { bounded = h.bounded; least = omega arith; known = tt })
  explore-Plain zero n suffix (node ∷ frontier) enough exact = record {
    holds = λ s h. let least = h.least in let most = h.bounded.1 in absurd (omega arith);
  }
  explore-Plain (suc fuel) n suffix (node ∷ frontier) enough (exact, others) =
      Triple-bind _ (step env)
        (λ _. visit env prep suffix node frontier >>= explore env prep fuel suffix)
        (step-Holds env prep base)
        (λ _.
          Triple-bind _ (visit env prep suffix node frontier) (explore env prep fuel suffix)
            (visit-AreExact (n + 1) suffix node frontier exact others)
            (λ nodes.
              Triple-pure _
                (λ exact'. explore-Plain fuel (n + 1) suffix nodes (omega arith) exact')))
