-- ===== src/Bandit/Tests.antt =====
-- A pull of a small bandit, and the witnesses of its properties.
use coleman.Base.{ℕ, ◌≡◌, refl, List, [], ◌∷◌, map, length}
use coleman.Bandit.Arms.{
  Arm, ArmRecord, LastResults, Bandit, arm_name, update_priority, add_arms, reset, update_arms,
  get_arms, absent, listed,
}
use coleman.Agent.Frames.{Join, IsLeftJoin, joined_rows}
use mathlib.Core.List.{Perm}
use mathlib.Core.List.Perm
use coleman.Bandit.Priority.{placed, update_priority-placed}

abbrev record_of : ℕ → LastResults → ArmRecord
record_of n results = record {
  name = n;
  duration = 5;
  calc_prio = 0;
  last_run = 0;
  num_ran = 1;
  num_errors = 0;
  verdict = 0;
  last_results = results;
}

abbrev arms : List ArmRecord
arms = record_of 4 absent ∷ record_of 5 (listed (1 ∷ [])) ∷ record_of 6 absent ∷ []

abbrev empty : Bandit
empty = record { arms = []; arm_names = [] }

abbrev bandit : Bandit
bandit = update_arms length 0 arms empty

abbrev action : List ℕ
action = 6 ∷ 4 ∷ []

abbrev prio : Arm → ℕ
prio arm = arm.calc_prio

abbrev rows_in_order : Join Arm ℕ
rows_in_order rows ps = joined_rows arm_name rows ps

in_order : IsLeftJoin arm_name rows_in_order
in_order rows ps = Perm.rfl

named : get_arms bandit ≡ 4 ∷ 5 ∷ 6 ∷ []
unfolding update_arms add_arms reset get_arms
named = refl

ranked : map prio (update_priority rows_in_order action bandit).arms ≡ 2 ∷ 0 ∷ 1 ∷ []
unfolding update_priority update_arms add_arms reset
ranked = refl

update_priority-placed_example :
    (after : List Arm) × (update_priority rows_in_order action bandit
      ≡ record bandit { arms = after })
    × Perm after (map (placed action) bandit.arms)
update_priority-placed_example = update_priority-placed rows_in_order in_order action bandit refl
