-- ===== src/Allocation/Counting.antt =====
-- The count that a result is checked for is the one that the enumeration made.
use coleman.Allocation.Forecasts.{evaluate_action}
use coleman.Allocation.Validating.{same_set}
use coleman.Allocation.Contracts.{AllocationProblem}
use coleman.Allocation.Verifying.{is_work_limit, counter_evidence}
use coleman.Allocation.Enumerating.{Adds, enumerate_actions-Adds}
use coleman.Allocation.Solver.{Termination, Enumeration, has_row, canonical, enumerate}
use coleman.Search.Limits.{Stop, Environment, WorkCounter, work_limit}
use coleman.Base.{
  ◌+◌, ◌≤◌, sym, ap, subst, ◌⊎◌, inl, inr, false, ◌||◌, ◌==◌, if◌then◌else◌, ok, length,
  sort_by-All, All-sort_by, All-append, Bool-cases, sort_by,
}
use coleman.Base.{ℕ, ◌≡◌, refl, true, List, [], ◌∷◌, ◌++◌, map, arith, All, contains, subset}
use coleman.Search.Limits.{Stop, Environment, WorkCounter, work_limit}
use coleman.Allocation.Contracts.{DiscreteAllocation, AllocationProblem, action_key}
use coleman.Allocation.Validating.{same_set}
use coleman.Allocation.Forecasts.{ActionEvaluation}
use coleman.Allocation.Choosing.{row_key}
use coleman.Allocation.Solver.{Termination, Enumeration, has_row, canonical, enumerate}
use coleman.Allocation.Enumerating.{Adds, enumerate_actions-Adds}
use coleman.Allocation.Verifying.{is_work_limit, counter_evidence}

abbrev pub start : WorkCounter
start = record { used = 0; polls = 0 }

-- Every row is that of an action of the problem.
abbrev pub Known : AllocationProblem → List ActionEvaluation → Type 0
Known p = All (λ r. contains (row_key r) (map action_key p.actions) ≡ true)

All-contains_self :
    (actions : List DiscreteAllocation) (scope : List ℕ)
    → ((k : ℕ) → contains k (map action_key actions) ≡ true → contains k scope ≡ true)
    → All (λ a. contains a.action_id scope ≡ true) actions
All-contains_self [] scope h = tt
All-contains_self (a ∷ actions) scope h =
    (h a.action_id (ground arith), All-contains_self actions scope (λ k m. h k (ground (arith, m))))

Known-subset :
    (scope : List ℕ) (rows : List ActionEvaluation)
    → All (λ r. contains (row_key r) scope ≡ true) rows
    → subset (map row_key rows) scope ≡ true
Known-subset scope [] h = refl
Known-subset scope (r ∷ rows) h = ground (arith, h.0, Known-subset scope rows h.1)

has_row-append :
    (k : ℕ) (rows new : List ActionEvaluation)
    → contains k (map row_key rows) ≡ true
    → has_row k (rows ++ new) ≡ true
has_row-append k [] new h = cc
has_row-append k (r ∷ rows) new h = ground (arith, h, has_row-append k rows new)

rows-subset :
    (actions : List DiscreteAllocation) (ids : List ℕ)
    → All (λ a. contains a.action_id ids ≡ true) actions
    → subset (map action_key actions) ids ≡ true
rows-subset [] ids h = refl
rows-subset (a ∷ actions) ids h = ground (arith, h.0, rows-subset actions ids h.1)

All-mono :
    (P Q : DiscreteAllocation → Type 0) (actions : List DiscreteAllocation)
    → ((a : DiscreteAllocation) → P a → Q a)
    → All P actions
    → All Q actions
All-mono P Q [] m h = tt
All-mono P Q (a ∷ actions) m h = (m a h.0, All-mono P Q actions m h.1)

work_limit-cases :
    (why : Stop) → (why ≡ work_limit) ⊎ (is_work_limit (Termination.stopped why) ≡ false)
work_limit-cases why = ground arith

covered_row :
    (env : Environment) (p : AllocationProblem) (rows : List ActionEvaluation) (e : Enumeration)
    → Adds env p (map row_key rows) (canonical p) rows 0 e
    → (a : DiscreteAllocation)
    → (contains a.action_id (map row_key rows) || has_row a.action_id e.completed) ≡ true
    → has_row a.action_id e.completed ≡ true
covered_row env p rows e adds a h = elim (Bool-cases (contains a.action_id (map row_key rows))) [
  | inl old ↦
      subst (λ l. has_row a.action_id l ≡ true) (sym adds.extends)
        (has_row-append a.action_id rows adds.new old)
  | inr new ↦ ground (arith, h, new)
]

-- The checks, from what they check.
counter_evidence-ok :
    (p : AllocationProblem) (max_work new : ℕ) (ids : List ℕ) (used : ℕ) (reason : Termination)
    → new ≤ used
    → used ≤ new + 1
    → (reason ≡ Termination.stopped work_limit → (used ≡ new) × (used ≡ max_work))
    → (reason ≡ Termination.enumeration_complete
        → (used ≡ new) × (same_set ids (map action_key p.actions) ≡ true))
    → counter_evidence p max_work new ids used reason ≡ ok tt
unfolding counter_evidence
counter_evidence-ok p max_work new ids used Termination.enumeration_complete low high limit done =
    let k = done refl in ground (arith, k)
counter_evidence-ok p max_work new ids used Termination.memory_limit low high limit done =
    ground arith
counter_evidence-ok p max_work new ids used (Termination.stopped why) low high limit done =
    elim (work_limit-cases why) [
      | inl same ↦ let k = limit (ap Termination.stopped same) in rw same (ground (arith, k))
      | inr other ↦ ground (arith, other)
    ]

-- A complete enumeration has a row for every action, and no other.
complete-same_set :
    (env : Environment) (p : AllocationProblem) (rows : List ActionEvaluation) (e : Enumeration)
    → Known p rows
    → Adds env p (map row_key rows) (canonical p) rows 0 e
    → e.reason ≡ Termination.enumeration_complete
    → same_set (map row_key e.completed) (map action_key p.actions) ≡ true
complete-same_set env p rows e known adds done =
    let scope = map action_key p.actions in
    let here = All-contains_self p.actions scope (λ k m. m) in
    let sorted =
      sort_by-All (λ a. if a.action_id == p.no_action_id then 0 else 1)
        (λ a. contains a.action_id scope ≡ true) (sort_by (λ a. a.action_id) p.actions)
        (sort_by-All (λ a. a.action_id) (λ a. contains a.action_id scope ≡ true) p.actions here) in
    let all_known : Known p e.completed = subst (Known p) (sym adds.extends) (
      All-append (λ r. contains (row_key r) scope ≡ true) rows adds.new known
        (adds.known scope sorted)) in
    let covered : All (λ a. has_row a.action_id e.completed ≡ true) (canonical p) =
      All-mono _ _ (canonical p) (λ a h. covered_row env p rows e adds a h)
        (adds.complete_rows done) in
    let all_covered =
      All-sort_by (λ a. a.action_id) (λ a. has_row a.action_id e.completed ≡ true) p.actions
        (All-sort_by (λ a. if a.action_id == p.no_action_id then 0 else 1)
          (λ a. has_row a.action_id e.completed ≡ true) (sort_by (λ a. a.action_id) p.actions)
          covered) in
    let one = Known-subset scope e.completed all_known in
    let two = rows-subset p.actions (map row_key e.completed) all_covered in
    ground (arith, one, two)

-- An enumeration that does not raise, from rows of actions of the problem and an unused counter,
-- however its environment stops it, uses no more work than the limit, keeps the given rows as they
-- are and in front, and adds rows that are evaluations of an action; `_counter_evidence` accepts
-- the number of these new rows, the identities of all rows, the work used and the reason.
pub enumerate-counter_evidence :
    (env : Environment) (p : AllocationProblem) (rows : List ActionEvaluation) (e : Enumeration)
    → Known p rows
    → enumerate env p rows start ≡ ok e
    → (e.counter.used ≤ env.limits.max_work)
      × (new : List ActionEvaluation) × (e.completed ≡ rows ++ new)
      × All (λ r. (a : DiscreteAllocation) × (evaluate_action p a ≡ ok r)) new
      × (counter_evidence p env.limits.max_work
            (length new)
            (map row_key e.completed)
            e.counter.used
            e.reason
          ≡ ok tt)
unfolding enumerate
enumerate-counter_evidence env p rows e known h =
    let adds =
      enumerate_actions-Adds env p (map row_key rows) (canonical p) rows start e (omega arith) h in
    (
      adds.within_limit,
      adds.new,
      adds.extends,
      adds.evaluated,
      counter_evidence-ok p env.limits.max_work (length adds.new) (map row_key e.completed)
          e.counter.used e.reason (omega (arith, adds.at_least)) (omega (arith, adds.at_most))
          (λ halted. let k = adds.limit_count halted in (omega (arith, k.0), k.1))
          (λ done. (
            omega (arith, adds.complete_count done),
            complete-same_set env p rows e known adds done,
          )),
    )
