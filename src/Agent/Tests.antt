-- ===== src/Agent/Tests.antt =====
-- Runs of the agents on whole numbers, and the witnesses of their properties.
use coleman.Base.{
  ℕ, zero, suc, ◌+◌, ◌-◌, ◌/◌, ◌≡◌, refl, ap, some, List, [], ◌∷◌, ◌++◌, map, arith, ltb, ok,
  length, take, sort_by, insert_sorted,
}
use coleman.Agent.State.{
  Arithmetic, ActionRow, Agent, HistoryRow, WindowAgent, update_actions, observe, observe_reward,
  update_history, update_action_attempts, credit_assignment, name_of, names_of, stamp, latest_time,
}
use mathlib.Core.List.Perm
use coleman.Agent.Frames.{Join, IsLeftJoin, joined_rows}
use coleman.Agent.Actions.{IsConsistent, row_of, updated_row, update_actions-row_of}
use coleman.Agent.Observing.{IsKept, observe-IsKept, observe_reward-credited}
use coleman.Agent.Window.{IsWithin, update_history-IsWithin, grown}

abbrev whole : Arithmetic ℕ
whole = record {
  nought = 0;
  plus = λ a b. a + b;
  minus = λ a b. a - b;
  over = λ a b. a / b;
  is_positive = λ a. ltb 0 a;
}

abbrev row : ℕ → ℕ → ActionRow ℕ
row n e = record { name = n; attempts = 1; estimate = e; q = some 0 }

abbrev two : Agent ℕ
two = record {
  last_prioritization = 2 ∷ 1 ∷ [];
  t = 1;
  actions = row 1 0 ∷ row 2 0 ∷ [];
  action_names = 1 ∷ 2 ∷ [];
}

abbrev ones : ℕ → List ℕ
ones zero = []
ones (suc n) = 1 ∷ ones n

abbrev each : List ℕ → List ℕ
each [] = []
each (n ∷ ns) = n ∷ each ns

-- A join that keeps the order of the frame.
abbrev rows_in_order : Join (ActionRow ℕ) ℕ
rows_in_order rows ps = joined_rows name_of rows ps

in_order : IsLeftJoin name_of rows_in_order
in_order rows ps = Perm.rfl

-- Test 1 leaves, tests 3 and 4 come in.
changed : names_of (update_actions whole (4 ∷ 2 ∷ 3 ∷ []) two).actions ≡ 2 ∷ 3 ∷ 4 ∷ []
unfolding update_actions sort_by insert_sorted
changed = refl

learned :
    map (λ r. r.estimate) (observe whole rows_in_order ones (8 ∷ 6 ∷ []) two).actions ≡ 3 ∷ 4 ∷ []
unfolding observe update_action_attempts
learned = refl

update_actions-row_of_example :
    IsConsistent (update_actions whole (4 ∷ 2 ∷ 3 ∷ []) two)
    × ((k : ℕ)
        → row_of k (update_actions whole (4 ∷ 2 ∷ 3 ∷ []) two).actions
          ≡ updated_row whole k (4 ∷ 2 ∷ 3 ∷ []) two.actions)
update_actions-row_of_example = update_actions-row_of whole (4 ∷ 2 ∷ 3 ∷ []) two (λ k. refl)

observe-IsKept_example :
    IsKept two (observe whole rows_in_order ones (8 ∷ 6 ∷ []) two)
    × ((observe whole rows_in_order ones (8 ∷ 6 ∷ []) two).t ≡ two.t + 1)
observe-IsKept_example = observe-IsKept whole rows_in_order in_order ones (8 ∷ 6 ∷ []) two refl

each-IsRewarding : (order : List ℕ) → length (take (length order) (each order)) ≡ length order
each-IsRewarding [] = refl
each-IsRewarding (n ∷ ns) = ap suc (each-IsRewarding ns)

observe_reward-credited_example :
    (b : Agent ℕ) × (observe_reward whole rows_in_order ones each (credit_assignment whole) two
      ≡ ok b)
    × IsKept two b
    × (b.t ≡ two.t + 1)
observe_reward-credited_example =
    observe_reward-credited whole rows_in_order in_order ones each two each-IsRewarding refl

abbrev windowed : WindowAgent ℕ
windowed = record {
  base = record two { t = 4 };
  window_size = 2;
  history = map (stamp whole 2) (row 1 5 ∷ []) ++ map (stamp whole 3) (row 1 6 ∷ []);
}

update_history-IsWithin_example :
    IsWithin whole
      (latest_time whole (grown whole windowed))
      2
      (update_history whole windowed).history
    × ((kept : List (HistoryRow ℕ)) × ((update_history whole windowed).history
          ≡ kept ++ map (stamp whole 4) windowed.base.actions))
update_history-IsWithin_example =
    update_history-IsWithin whole windowed (omega arith) (omega arith)
      ((omega arith, omega arith), ((omega arith, omega arith), tt))
