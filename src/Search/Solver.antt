-- ===== src/Search/Solver.antt =====
-- coleman/selection/solver.py: density greedy and bounded branch and bound. The stack of nodes is a
-- list whose head is its top; a prefix is a list of bits.
use coleman.Base.{
  ℕ, zero, suc, ◌+◌, ◌*◌, Bool, true, false, ◌&&◌, ◌||◌, not, Option, none, some, List, [], ◌∷◌,
  ◌++◌, ltb, leb, ◌==◌, if◌then◌else◌, length, contains, union, Dict, lookup, sort,
}
use coleman.Search.Monad.{
  set_best, returned, stopped, get_best, Search, ◌>>=◌, ◌>>◌, give, stop, key, poll, step,
}
use coleman.Search.Mathematics.{SelectionValue, total_of, union_of, within}
use coleman.Search.Limits.{certificate_limit, exhausted, Environment}

pub record Prepared : Type 0 where
  pub costs : Dict ℕ
  pub covers : Dict (List ℕ)
  pub weights : Dict ℕ
  pub budget : ℕ
  pub maximum_selected : Option ℕ
  pub required : List ℕ
  pub optional : List ℕ

pub record Node : Type 0 where
  pub prefix : List Bool
  pub value : SelectionValue
  pub covered : List ℕ

-- A density: the priority of a free candidate, and a fraction.
pub record Density : Type 0 where
  pub free : ℕ
  pub gained : ℕ
  pub paid : ℕ

pub record Choice : Type 0 where
  pub name : ℕ
  pub density : Density
  pub gain : ℕ

abbrev pub denser : Density → Density → Bool
denser first second =
    ltb second.free first.free
    || ((first.free == second.free)
        && ltb (second.gained * first.paid) (first.gained * second.paid))

abbrev pub density_of : ℕ → ℕ → Density
density_of gain cost =
    if cost == 0
    then record { free = 1; gained = 0; paid = 1 }
    else record { free = 0; gained = gain; paid = cost }

-- `value.cost + cost <= budget` and room under the cardinality.
abbrev pub room : Prepared → SelectionValue → Bool
room prep v = elim prep.maximum_selected [ none ↦ true | some m ↦ ltb (length v.selected_ids) m ]

abbrev pub fits : Prepared → SelectionValue → ℕ → Bool
fits prep v cost = leb (v.cost + cost) prep.budget && room prep v

abbrev pub within_bounds : Prepared → SelectionValue → Bool
within_bounds prep v =
    leb v.cost prep.budget && within prep.maximum_selected (length v.selected_ids)

abbrev pub lex_less : List ℕ → List ℕ → Bool
lex_less [] [] = false
lex_less [] (y ∷ ys) = true
lex_less (x ∷ xs) [] = false
lex_less (x ∷ xs) (y ∷ ys) = ltb x y || ((x == y) && lex_less xs ys)

-- `(-value.objective, value.selected_ids) < (-best.objective, best.selected_ids)`
abbrev pub better : SelectionValue → SelectionValue → Bool
better v best =
    ltb best.objective v.objective
    || ((v.objective == best.objective) && lex_less v.selected_ids best.selected_ids)

-- A candidate joins a selection.
abbrev pub extend : SelectionValue → ℕ → ℕ → ℕ → SelectionValue
extend v name cost gain = record {
  selected_ids = sort (v.selected_ids ++ name ∷ []);
  cost = v.cost + cost;
  objective = v.objective + gain;
}

-- The unions that the subtrees of each depth can still reach.
unfoldable pub suffixes : Dict (List ℕ) → List ℕ → Option (List (List ℕ))
suffixes covers [] = some ([] ∷ [])
suffixes covers (x ∷ xs) = elim (suffixes covers xs) [
  | some (tail ∷ rest) ↦ elim (lookup x covers) [
    | some c ↦ some (union tail c ∷ tail ∷ rest)
    | none ↦ none
  ]
  | _ ↦ none
]

abbrev pub get_elem? {ℓ} : {A : Type ℓ} → List A → ℕ → Option A
get_elem? [] n = none
get_elem? (x ∷ xs) zero = some x
get_elem? (x ∷ xs) (suc n) = get_elem? xs n

-- Both children of a node, the including one on top.
abbrev pub children : Node → List Node → ℕ → ℕ → List ℕ → ℕ → List Node
children node frontier name cost covers gained =
    record {
      prefix = node.prefix ++ true ∷ [];
      value = extend node.value name cost gained;
      covered = union node.covered covers;
    }
    ∷ record node { prefix = node.prefix ++ false ∷ [] }
    ∷ frontier

module _ (env : Environment) (prep : Prepared) where
  -- `_gain`, from the outcomes that are left and the gain so far.
  unfoldable pub gain : List ℕ → List ℕ → ℕ → Search ℕ
  gain [] covered so_far = give so_far
  gain (o ∷ os) covered so_far = do
    poll env
    weight ← if contains o covered then give 0 else key (lookup o prep.weights)
    gain os covered (so_far + weight)

  -- The end of the loop body of `_greedy_choice`: a candidate that fits.
  unfoldable pub weigh : List ℕ → Option Choice → ℕ → ℕ → Search (Option Choice)
  weigh covered choice name cost = do
    covers ← key (lookup name prep.covers)
    gained ← gain covers covered 0
    let density = density_of gained cost
    let found : Option Choice = some record { name = name; density = density; gain = gained }
    give (
        if gained == 0 then choice else elim choice [
          | none ↦ found
          | some old ↦ if denser density old.density then found else some old
        ])

  unfoldable pub examine : SelectionValue → List ℕ → Option Choice → ℕ → Search (Option Choice)
  examine best covered choice name = if contains name best.selected_ids then give choice else (do
    step env
    cost ← key (lookup name prep.costs)
    if fits prep best cost then weigh covered choice name cost else give choice)

  unfoldable pub scan : SelectionValue → List ℕ → List ℕ → Option Choice → Search (Option Choice)
  scan best covered [] choice = give choice
  scan best covered (name ∷ names) choice = do
    choice' ← examine best covered choice name
    scan best covered names choice'

  unfoldable pub greedy_choice : List ℕ → Search (Option Choice)
  greedy_choice covered = do best ← get_best; scan best covered prep.optional none

  -- The new incumbent, and what it covers.
  unfoldable pub commit : List ℕ → Choice → Search (List ℕ)
  commit covered choice = do
    best ← get_best
    cost ← key (lookup choice.name prep.costs)
    set_best (extend best choice.name cost choice.gain)
    covers ← key (lookup choice.name prep.covers)
    give (union covered covers)

  -- The `while True` of `_greedy`.
  unfoldable pub greedy_from : ℕ → List ℕ → Search (Unit {0})
  greedy_from zero covered = stop exhausted
  greedy_from (suc fuel) covered = do
    choice ← greedy_choice covered
    elim choice [
      | none ↦ give tt
      | some c ↦ commit covered c >>= λ covered'. greedy_from fuel covered'
    ]

  -- The unused work bounds the rounds of both loops.
  abbrev pub enough_fuel : ℕ
  enough_fuel = suc env.limits.max_work

  unfoldable pub greedy : Search (Unit {0})
  greedy = do
    best ← get_best
    covered ← key (union_of prep.covers best.selected_ids)
    greedy_from enough_fuel covered

  -- `_proof_leaf`
  unfoldable pub proof_leaf : List Bool → Search (Unit {0})
  proof_leaf prefix s =
      if leb env.limits.max_certificate_leaves (length s.proof)
      then (stopped certificate_limit, s)
      else (returned tt, record s { proof = s.proof ++ prefix ∷ [] })

  unfoldable pub improve : SelectionValue → Search (Unit {0})
  improve v s = (returned tt, if better v s.best then record s { best = v } else s)

  unfoldable pub expand : Node → List Node → ℕ → Search (List Node)
  expand node frontier name = do
    cost ← key (lookup name prep.costs)
    covers ← key (lookup name prep.covers)
    gained ← gain covers node.covered 0
    give (children node frontier name cost covers gained)

  -- `_visit` from the union bound on.
  unfoldable pub bound_node : List (List ℕ) → Node → List Node → Search (List Node)
  bound_node suffix node frontier = do
    let index = length node.prefix
    reach ← key (get_elem? suffix index)
    bound ← key (total_of prep.weights (union node.covered reach))
    poll env
    best ← get_best
    elim (get_elem? prep.optional index) [
      | none ↦ proof_leaf node.prefix >> give frontier
      | some name ↦
          if ltb bound best.objective
          then proof_leaf node.prefix >> give frontier
          else expand node frontier name
    ]

  unfoldable pub visit : List (List ℕ) → Node → List Node → Search (List Node)
  visit suffix node frontier =
      if not (within_bounds prep node.value)
      then proof_leaf node.prefix >> give frontier
      else improve node.value >> bound_node suffix node frontier

  -- The `while frontier` of `_branch_bound`.
  unfoldable pub explore : ℕ → List (List ℕ) → List Node → Search (Unit {0})
  explore fuel suffix [] = give tt
  explore zero suffix (node ∷ frontier) = stop exhausted
  explore (suc fuel) suffix (node ∷ frontier) = do
    step env
    frontier' ← visit suffix node frontier
    explore fuel suffix frontier'

  -- The whole search: only the mandatory candidates are fixed.
  abbrev pub root : List ℕ → ℕ → ℕ → Node
  root covered cost objective = record {
    prefix = [];
    value = record { selected_ids = prep.required; cost = cost; objective = objective };
    covered = covered;
  }

  unfoldable pub branch_and_bound : Search (Unit {0})
  branch_and_bound = do
    covered ← key (union_of prep.covers prep.required)
    cost ← key (total_of prep.costs prep.required)
    objective ← key (total_of prep.weights covered)
    suffix ← key (suffixes prep.covers prep.optional)
    explore enough_fuel suffix (root covered cost objective ∷ [])
