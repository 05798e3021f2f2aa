-- ===== src/Bandit/Priority.antt =====
-- What `update_priority` gives each arm, and what a pull evaluates.
use coleman.Bandit.Arms.{clear_prio}
use coleman.Base.{
  subst, IsSorted, ℕ, suc, ◌≡◌, refl, ap, ◌∙◌, inl, inr, Bool, true, false, ◌&&◌, not, List, [],
  ◌∷◌, ◌++◌, map, arith, ◌==◌, if◌then◌else◌, Bool-cases, length, contains, all_distinct,
}
use coleman.Agent.Frames.{Join, IsLeftJoin, matches, joined_rows, join_row, zip}
use mathlib.Core.List.{Perm}
use mathlib.Core.List.Perm
use mathlib.Core.Logic.Or
use coleman.Bandit.Arms.{Arm, Bandit, arm_name, range, fill_prio, update_priority}

-- The place of a name in an action, counted from `start`; zero when it has none.
abbrev pub place : ℕ → ℕ → List ℕ → ℕ
place start k [] = 0
place start k (n ∷ ns) = if k == n then start else place (suc start) k ns

abbrev pub placed : List ℕ → Arm → Arm
placed action arm = record arm { calc_prio = place 1 arm.name action }

matches-missing :
    (k start : ℕ) (ns : List ℕ)
    → contains k ns ≡ false
    → matches k (zip ns (range start (length ns))) ≡ []
matches-missing k start [] h = refl
matches-missing k start (n ∷ ns) h = elim (Bool-cases (k == n)) [
  | inl e ↦ absurd (true_ne_false (rw e at h))
  | inr e ↦ rw e (matches-missing k (suc start) ns (rw e at h))
]
  where
    true_ne_false : true ≡ false → ⊥
    true_ne_false q = cc

-- In an action without repetition a name has at most one place.
join_row-placed :
    (arm : Arm) (start : ℕ) (ns : List ℕ)
    → all_distinct ns ≡ true
    → map fill_prio (join_row arm (matches arm.name (zip ns (range start (length ns)))))
      ≡ record arm { calc_prio = place start arm.name ns } ∷ []
join_row-placed arm start [] h = refl
join_row-placed arm start (n ∷ ns) h = elim (Bool-cases (arm.name == n)) [
  | inl e ↦
      rw
        (
          e,
          matches-missing arm.name (suc start) ns (
              ap (λ k. contains k ns) (same_key arm.name n e)
              ∙ first_new (contains n ns) (all_distinct ns) h),
        )
        refl
  | inr e ↦
      rw e (join_row-placed arm (suc start) ns (rest_distinct (contains n ns) (all_distinct ns) h))
]
  where
    same_key : (a b : ℕ) → (a == b) ≡ true → a ≡ b
    same_key a b q = ground arith

    first_new : (a b : Bool) → (not a && b) ≡ true → a ≡ false
    first_new true b q = cc
    first_new false b q = refl

    rest_distinct : (a b : Bool) → (not a && b) ≡ true → b ≡ true
    rest_distinct true b q = cc
    rest_distinct false b q = q

map-append {ℓ κ} :
    {A : Type ℓ} {B : Type κ} (f : A → B) (xs ys : List A) → map f (xs ++ ys) ≡ map f xs ++ map f ys
map-append f [] ys = refl
map-append f (x ∷ xs) ys = ap (◌∷◌ (f x)) (map-append f xs ys)

joined_rows-placed :
    (action : List ℕ) (arms : List Arm)
    → all_distinct action ≡ true
    → map fill_prio (joined_rows arm_name arms (zip action (range 1 (length action))))
      ≡ map (placed action) arms
joined_rows-placed action [] h = refl
joined_rows-placed action (arm ∷ arms) h =
    map-append fill_prio (join_row arm (matches arm.name (zip action (range 1 (length action))))) _
    ∙ ap
        (λ first.
          first ++ map fill_prio (joined_rows arm_name arms (zip action (range 1 (length action)))))
        (join_row-placed arm 1 action h)
    ∙ ap (◌∷◌ (placed action arm)) (joined_rows-placed action arms h)

map-placed_none : (arms : List Arm) → map clear_prio arms ≡ map (placed []) arms
map-placed_none [] = refl
map-placed_none (arm ∷ arms) = ap (◌∷◌ (clear_prio arm)) (map-placed_none arms)

abbrev HasPlace : List ℕ → Arm → Type 0
HasPlace action arm = arm.calc_prio ≡ place 1 arm.name action

-- What is documented of the ascending sort by a column.
abbrev pub IsSort : ((Arm → ℕ) → List Arm → List Arm) → Type 0
IsSort sort_rows =
    (column : Arm → ℕ) (arms : List Arm)
    → Perm (sort_rows column arms) arms × IsSorted column (sort_rows column arms)

module _ (join : Join Arm ℕ) (joins : IsLeftJoin arm_name join) where
  -- For an action without repetition, `update_priority` changes nothing but the priorities, up to
  -- the order of the joined rows: each arm, once, gets the place of its name in the action counted
  -- from one, or zero when the action does not have it.
  pub update_priority-placed :
      (action : List ℕ) (b : Bandit)
      → all_distinct action ≡ true
      → (arms : List Arm) × (update_priority join action b ≡ record b { arms = arms })
        × Perm arms (map (placed action) b.arms)
  unfolding update_priority
  update_priority-placed [] b h = (
    map clear_prio b.arms,
    refl,
    subst (Perm (map clear_prio b.arms)) (map-placed_none b.arms) Perm.rfl,
  )
  update_priority-placed (n ∷ ns) b h =
      let joined = join b.arms (zip (n ∷ ns) (range 1 (length (n ∷ ns)))) in
      (
        map fill_prio joined,
        refl,
        subst (Perm (map fill_prio joined)) (joined_rows-placed (n ∷ ns) b.arms h)
            (Perm.map fill_prio (joins b.arms (zip (n ∷ ns) (range 1 (length (n ∷ ns)))))),
      )
