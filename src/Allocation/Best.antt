-- ===== src/Allocation/Best.antt =====
-- The choice under assumed weights is a feasible row of the greatest utility.
use coleman.Allocation.Choosing.{none_feasible, chosen}
use coleman.Allocation.Choosing.{DecisionStatus, is_complete}
use coleman.Base.{subst, none, some, if◌then◌else◌, ◌≤ℤ◌, sym, ◌≢◌}
use coleman.Allocation.Choosing.{
  feasible_rows, ties, minimum, least, select_best, choose_completed, AllocationChoice,
}
use coleman.Base.{
  ℕ, ◌≤◌, ◌≡◌, refl, sym, ◌⊎◌, inl, inr, true, false, is_empty, contains, Bool-cases,
}
use coleman.Base.{◌≤ℤ◌, List, [], ◌∷◌, arith, All}
use coleman.Allocation.Contracts.{AllocationProblem, is_estimated}
use coleman.Allocation.Forecasts.{ActionEvaluation}
use coleman.Allocation.Choosing.{
  AllocationChoice, row_key, feasible_rows, maximum, ties, minimum, least, select_best,
  choose_completed,
}
use coleman.Allocation.Ties.{
  Listed, maximum-All, maximum-ties, tied, tied_later, ties-Listed, ties-All, minimum-All,
  minimum-contains, feasible_rows-Listed, feasible_rows-All,
}

-- A feasible row of the greatest utility, with the tie rule.
pub record IsBest (no_action_id : ℕ) (completed : List ActionEvaluation) (id : ℕ) : Type 0 where
  pub row : ActionEvaluation
  pub listed : Listed row completed
  pub is_feasible : row.feasible ≡ true
  pub same : row_key row ≡ id
  pub greatest : All (λ e. e.feasible ≡ true → e.forecast.utility ≤ℤ row.forecast.utility) completed
  pub unchanged_first :
      All
        (λ e.
          e.feasible ≡ true
          → e.forecast.utility ≡ row.forecast.utility
          → row_key e ≡ no_action_id
          → id ≡ no_action_id)
        completed
  pub least_otherwise :
      (id ≡ no_action_id)
      ⊎ All
          (λ e. e.feasible ≡ true → e.forecast.utility ≡ row.forecast.utility → id ≤ row_key e)
          completed

-- Identities of ties that are absent are not there.
contains-All : (k : ℕ) (ks : List ℕ) → contains k ks ≡ false → All (λ j. j ≢ k) ks
contains-All k [] h = tt
contains-All k (j ∷ ks) h = (λ e. ground (arith, h, e), contains-All k ks (ground (arith, h)))

contains-least :
    (ks : List ℕ)
    → is_empty ks ≡ false
    → (k : ℕ) × (least ks ≡ some k) × (contains k ks ≡ true) × All (λ j. k ≤ j) ks
contains-least [] h = cc
contains-least (k ∷ ks) h =
    let (first, others) = minimum-All k ks in
    let there = minimum-contains k ks in
    (minimum k ks, refl, ground (arith, there), (first, others))

-- The ties have an element, and the tie rule picks one.
record Picked (no_action_id : ℕ) (ks : List ℕ) (k : ℕ) : Type 0 where
  picked : (if contains no_action_id ks then some no_action_id else least ks) ≡ some k
  tie : contains k ks ≡ true
  unchanged : All (λ j. j ≡ no_action_id → k ≡ no_action_id) ks
  smallest : (k ≡ no_action_id) ⊎ All (λ j. k ≤ j) ks

All-same : (k : ℕ) (ks : List ℕ) → All (λ j. j ≡ k → k ≡ k) ks
All-same k [] = tt
All-same k (j ∷ ks) = (λ _. refl, All-same k ks)

All-absent :
    (other k : ℕ) (ks : List ℕ) → All (λ j. j ≢ other) ks → All (λ j. j ≡ other → k ≡ other) ks
All-absent other k [] h = tt
All-absent other k (j ∷ ks) h = (λ e. absurd (h.0 e), All-absent other k ks h.1)

pick : (no_action_id : ℕ) (ks : List ℕ) → is_empty ks ≡ false → (k : ℕ) × Picked no_action_id ks k
pick no_action_id ks h = elim (Bool-cases (contains no_action_id ks)) [
  | inl there ↦ (
    no_action_id,
    record {
      picked = rw there refl;
      tie = there;
      unchanged = All-same no_action_id ks;
      smallest = inl refl;
    },
  )
  | inr absent ↦
      let (k, least_k, tie, smallest) = contains-least ks h in
      (
        k,
        record {
          picked = rw absent least_k;
          tie = tie;
          unchanged = All-absent no_action_id k ks (contains-All no_action_id ks absent);
          smallest = inr smallest;
        },
      )
]

select_best-IsBest :
    (no_action_id : ℕ) (completed rows : List ActionEvaluation) (e : ActionEvaluation)
    → feasible_rows completed ≡ e ∷ rows
    → (k : ℕ) × (select_best no_action_id e rows ≡ some k) × IsBest no_action_id completed k
unfolding select_best
select_best-IsBest no_action_id completed rows e h =
    let top = maximum e.forecast.utility rows in
    let some_tie : is_empty (ties top (e ∷ rows)) ≡ false =
      elim (maximum-ties e.forecast.utility rows) [
        | inl first ↦ tied e rows top (sym first)
        | inr later ↦ tied_later e rows top later
      ] in
    let (k, p) = pick no_action_id (ties top (e ∷ rows)) some_tie in
    let (row, listed, utility, key) = ties-Listed k top (e ∷ rows) p.tie in
    let (there, fits) = feasible_rows-Listed row completed (subst (Listed row) (sym h) listed) in
    let at_rows : (P : ActionEvaluation → Type 0)
        → All P (e ∷ rows)
        → All (λ x. x.feasible ≡ true → P x) completed =
      λ P all. feasible_rows-All P completed (subst (All P) (sym h) all) in
    let at_ties : (P : ℕ → Type 0)
        → All P (ties top (e ∷ rows))
        → All (λ x. x.feasible ≡ true → x.forecast.utility ≡ row.forecast.utility → P (row_key x))
            completed =
      λ P all.
        subst (λ t. All (λ x. x.feasible ≡ true → x.forecast.utility ≡ t → P (row_key x)) completed)
          (sym utility)
          (at_rows (λ x. x.forecast.utility ≡ top → P (row_key x))
            (ties-All P top (e ∷ rows) all)) in
    (
      k,
      p.picked,
      record {
        row = row;
        listed = there;
        is_feasible = fits;
        same = key;
        greatest =
            subst (λ t. All (λ x. x.feasible ≡ true → x.forecast.utility ≤ℤ t) completed)
              (sym utility)
              (at_rows (λ x. x.forecast.utility ≤ℤ top) (maximum-All e.forecast.utility rows));
        unchanged_first = at_ties (λ j. j ≡ no_action_id → k ≡ no_action_id) p.unchanged;
        least_otherwise = elim p.smallest [
          | inl same ↦ inl same
          | inr smallest ↦ inr (at_ties (λ j. k ≤ j) smallest)
        ];
      },
    )

-- What the choice promises.
pub record IsChoice (p : AllocationProblem) (completed : List ActionEvaluation)
    (choice : AllocationChoice) : Type 0 where
  pub nothing : choice.selected_action_id ≡ none → All (λ e. e.feasible ≡ true → ⊥) completed
  pub best : (id : ℕ) → choice.selected_action_id ≡ some id → IsBest p.no_action_id completed id
  pub optimal_complete : choice.status ≡ DecisionStatus.optimal → is_complete p completed ≡ true
  pub no_fallback : choice.conservative_fallback ≡ false

rows-cases :
    (rows : List ActionEvaluation)
    → (rows ≡ [])
      ⊎ ((e : ActionEvaluation) × (others : List ActionEvaluation) × (rows ≡ e ∷ others))
rows-cases [] = inl refl
rows-cases (e ∷ rows) = inr (e, rows, refl)

-- For every list of completed rows of a problem with assumed weights, the choice is made without a
-- raise. It selects nothing only if no row is feasible. What it selects is the identity of a
-- feasible row whose utility is the greatest of the feasible rows; it is the no-action if a
-- feasible row of that utility is the no-action, and the least identity of those rows otherwise.
-- It is called optimal only if the rows are those of all actions, and is never a fallback.
pub choose_completed-IsChoice :
    (p : AllocationProblem) (completed : List ActionEvaluation)
    → is_estimated p.probability_evidence.kind ≡ false
    → (choice : AllocationChoice) × (choose_completed p completed ≡ some choice)
      × IsChoice p completed choice
unfolding choose_completed
choose_completed-IsChoice p completed assumed = elim (rows-cases (feasible_rows completed)) [
  | inl empty ↦ (
    none_feasible (is_complete p completed),
    rw (assumed, empty) refl,
    record {
      nothing = λ _. feasible_rows-All (λ _. ⊥) completed (subst (All (λ _. ⊥)) (sym empty) tt);
      best = λ id e. absurd (ground (arith, e));
      optimal_complete = λ e. ground (arith, e);
      no_fallback = refl;
    },
  )
  | inr (e, rows, h) ↦
      let (k, picked, best) = select_best-IsBest p.no_action_id completed rows e h in
      (
        chosen (is_complete p completed) k,
        rw (assumed, h, picked) refl,
        record {
          nothing = λ e. absurd (ground (arith, e));
          best = λ id same. subst (IsBest p.no_action_id completed) (ground (arith, same)) best;
          optimal_complete = λ e. ground (arith, e);
          no_fallback = refl;
        },
      )
]
