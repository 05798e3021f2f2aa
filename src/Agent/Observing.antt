-- ===== src/Agent/Observing.antt =====
-- The observations of the agents: a join on a prioritization without repetition keeps the frame.
use coleman.Base.{
  Result, is_empty, min, sym, subst, eq_self, ok, length, ℕ, zero, suc, ◌+◌, ◌≡◌, refl, ap, ◌∙◌,
  inl, inr, Bool, true, false, ◌&&◌, not, Option, none, some, List, [], ◌∷◌, ◌++◌, map, ◌==◌,
  Bool-cases, take, contains, all_distinct, Dict,
}
use coleman.Agent.Frames.{matches, joined_rows, join_row, zip, Join, IsLeftJoin}
use mathlib.Core.List.{Perm}
use mathlib.Core.List.Perm
use coleman.Agent.State.{
  rewarded, Arithmetic, ActionRow, Agent, name_of, names_of, add_attempt, learn, accumulate,
  apply_rewards, update_action_attempts, observe, observe_reward, credit_row, credit_assignment,
  AgentError,
}
use coleman.Agent.Sets.{same_key}

true_ne_false : true ≡ false → ⊥
true_ne_false e = cc

both : (a b : Bool) → (a && b) ≡ true → (a ≡ true) × (b ≡ true)
both true true h = (refl, refl)
both true false h = cc
both false b h = cc

flip : (b : Bool) → not b ≡ true → b ≡ false
flip false h = refl
flip true h = cc

contains-take : (k n : ℕ) (xs : List ℕ) → contains k xs ≡ false → contains k (take n xs) ≡ false
contains-take k zero xs h = refl
contains-take k (suc n) [] h = refl
contains-take k (suc n) (x ∷ xs) h = elim (Bool-cases (k == x)) [
  | inl e ↦ absurd (true_ne_false (rw e at h))
  | inr e ↦ rw e (contains-take k n xs (rw e at h))
]

module _ {V : Type 0} where
  -- The keys of a column pair repeat no name.
  abbrev IsKeyed : Dict V → Type 0
  IsKeyed [] = Unit
  IsKeyed ((n, v) ∷ ps) = (matches n ps ≡ []) × IsKeyed ps

  matches-zip :
      (k : ℕ) (ns : List ℕ) (vs : List V) → contains k ns ≡ false → matches k (zip ns vs) ≡ []
  matches-zip k [] vs h = refl
  matches-zip k (n ∷ ns) [] h = refl
  matches-zip k (n ∷ ns) (v ∷ vs) h = elim (Bool-cases (k == n)) [
    | inl e ↦ absurd (true_ne_false (rw e at h))
    | inr e ↦ rw e (matches-zip k ns vs (rw e at h))
  ]

  zip-IsKeyed : (ns : List ℕ) (vs : List V) → all_distinct ns ≡ true → IsKeyed (zip ns vs)
  zip-IsKeyed [] vs h = tt
  zip-IsKeyed (n ∷ ns) [] h = tt
  zip-IsKeyed (n ∷ ns) (v ∷ vs) h =
      let (new, rest) = both (not (contains n ns)) (all_distinct ns) h in
      (matches-zip n ns vs (flip (contains n ns) new), zip-IsKeyed ns vs rest)

  -- At most one row is found for a name.
  join_row-one :
      (row : ActionRow V) (ps : Dict V)
      → IsKeyed ps
      → (o : Option V) × (join_row row (matches row.name ps) ≡ (row, o) ∷ [])
  join_row-one row [] h = (none, refl)
  join_row-one row ((n, v) ∷ ps) h = elim (Bool-cases (row.name == n)) [
    | inl e ↦ (some v, rw (e, ap (λ k. matches k ps) (same_key row.name n e) ∙ h.0) refl)
    | inr e ↦ let (o, one) = join_row-one row ps h.1 in (o, rw e one)
  ]

  -- An update of each joined row that keeps its name keeps the names of the frame.
  names_of-joined_rows :
      (update : ActionRow V × Option V → ActionRow V) (rows : List (ActionRow V)) (ps : Dict V)
      → ((row : ActionRow V) (o : Option V) → (update (row, o)).name ≡ row.name)
      → IsKeyed ps
      → names_of (map update (joined_rows name_of rows ps)) ≡ names_of rows
  names_of-joined_rows update [] ps same keyed = refl
  names_of-joined_rows update (row ∷ rows) ps same keyed =
      let (o, one) = join_row-one row ps keyed in
      ap (λ joined. names_of (map update (joined ++ joined_rows name_of rows ps))) one
      ∙ ap (λ n. n ∷ names_of (map update (joined_rows name_of rows ps))) (same row o)
      ∙ ap (◌∷◌ row.name) (names_of-joined_rows update rows ps same keyed)

  -- So does a left join, in whatever order it gives its rows.
  names_of-join :
      (join : Join (ActionRow V) V) (update : ActionRow V × Option V → ActionRow V)
      (rows : List (ActionRow V)) (ps : Dict V)
      → IsLeftJoin name_of join
      → ((row : ActionRow V) (o : Option V) → (update (row, o)).name ≡ row.name)
      → IsKeyed ps
      → Perm (names_of (map update (join rows ps))) (names_of rows)
  names_of-join join update rows ps joins same keyed =
      subst (Perm (names_of (map update (join rows ps))))
        (names_of-joined_rows update rows ps same keyed)
        (Perm.map name_of (Perm.map update (joins rows ps)))

  -- What an observation keeps.
  abbrev pub IsKept : Agent V → Agent V → Type 0
  IsKept a b =
      Perm (names_of b.actions) (names_of a.actions)
      × (b.action_names ≡ a.action_names)
      × (b.last_prioritization ≡ a.last_prioritization)

take-all_distinct : (n : ℕ) (xs : List ℕ) → all_distinct xs ≡ true → all_distinct (take n xs) ≡ true
take-all_distinct zero xs h = refl
take-all_distinct (suc n) [] h = refl
take-all_distinct (suc n) (x ∷ xs) h =
    let (new, rest) = both (not (contains x xs)) (all_distinct xs) h in
    rw (contains-take x n xs (flip (contains x xs) new), take-all_distinct n xs rest) refl

module _ {V : Type 0} (num : Arithmetic V) (join : Join (ActionRow V) V)
    (joins : IsLeftJoin name_of join) where
  learn-name : (row : ActionRow V) (o : Option V) → (learn num (row, o)).name ≡ row.name
  learn-name row none = refl
  learn-name row (some r) = elim (Bool-cases (num.is_positive row.attempts)) [
    | inl e ↦ rw e refl
    | inr e ↦ rw e refl
  ]

  add_attempt-name : (row : ActionRow V) (o : Option V) → (add_attempt num (row, o)).name ≡ row.name
  add_attempt-name row none = refl
  add_attempt-name row (some w) = refl

  accumulate-name : (row : ActionRow V) (o : Option V) → (accumulate num (row, o)).name ≡ row.name
  accumulate-name row none = refl
  accumulate-name row (some r) = refl

  update_action_attempts-IsKept :
      (weights : ℕ → List V) (a : Agent V)
      → all_distinct a.last_prioritization ≡ true
      → IsKept a (update_action_attempts num join weights a)
        × ((update_action_attempts num join weights a).t ≡ a.t)
  unfolding update_action_attempts
  update_action_attempts-IsKept weights a distinct =
      elim (Bool-cases (length a.last_prioritization == 0)) [
        | inl e ↦ rw e ((Perm.rfl, refl, refl), refl)
        | inr e ↦ rw e (
          (
            names_of-join join (add_attempt num) a.actions _ joins add_attempt-name
                (zip-IsKeyed a.last_prioritization _ distinct),
            refl,
            refl,
          ),
          refl,
        )
      ]

  -- After a prioritization without repetition, `Agent.observe` keeps the names of the frame up to
  -- their order, the set of names and the prioritization, whatever the rewards and the order of
  -- the joined rows, and counts one step: the joins neither drop nor repeat a row.
  pub observe-IsKept :
      (weights : ℕ → List V) (rewards : List V) (a : Agent V)
      → all_distinct a.last_prioritization ≡ true
      → IsKept a (observe num join weights rewards a)
        × ((observe num join weights rewards a).t ≡ a.t + 1)
  unfolding observe
  observe-IsKept weights rewards a distinct =
      let a' = update_action_attempts num join weights a in
      let n = min (length a'.last_prioritization) (length rewards) in
      let ((names, set, last), time) = update_action_attempts-IsKept weights a distinct in
      let distinct' = subst (λ l. all_distinct l ≡ true) (sym last) distinct in
      elim (Bool-cases (n == 0)) [
        | inl e ↦ rw e ((names, set, last), ap (λ t. t + 1) time)
        | inr e ↦ rw e (
          (
            Perm.trans
                (names_of-join join (learn num) a'.actions _ joins learn-name (
                  zip-IsKeyed (take n a'.last_prioritization) _
                    (take-all_distinct n a'.last_prioritization distinct')))
                names,
            set,
            last,
          ),
          ap (λ t. t + 1) time,
        )
      ]

  -- A reward function gives a reward for every test of a prioritization.
  abbrev pub IsRewarding : (List ℕ → List V) → Type 0
  IsRewarding evaluate =
      (order : List ℕ) → length (take (length order) (evaluate order)) ≡ length order

  rewarded-IsKept :
      (update : ActionRow V × Option V → ActionRow V) (rewards : List V) (a : Agent V)
      → ((row : ActionRow V) (o : Option V) → (update (row, o)).name ≡ row.name)
      → all_distinct a.last_prioritization ≡ true
      → IsKept a (rewarded num join update rewards a)
  rewarded-IsKept update rewards a same distinct = (
    names_of-join join update a.actions _ joins same (zip-IsKeyed a.last_prioritization _ distinct),
    refl,
    refl,
  )

  IsKept-trans : (a b c : Agent V) → IsKept a b → IsKept b c → IsKept a c
  IsKept-trans a b c (n, s, l) (n', s', l') = (Perm.trans n' n, s' ∙ s, l' ∙ l)

  -- The agent that the policy is handed.
  observe_reward-IsKept :
      (weights : ℕ → List V) (evaluate : List ℕ → List V)
      (credit : Agent V → Result AgentError (Agent V)) (a : Agent V)
      → IsRewarding evaluate
      → all_distinct a.last_prioritization ≡ true
      → (b : Agent V) × (observe_reward num join weights evaluate credit a ≡ credit b)
        × IsKept a b
        × (b.t ≡ a.t + 1)
  unfolding observe_reward apply_rewards
  observe_reward-IsKept weights evaluate credit a enough distinct =
      let a' = update_action_attempts num join weights a in
      let rewards = evaluate a'.last_prioritization in
      let b = rewarded num join (accumulate num) rewards a' in
      let (kept, time) = update_action_attempts-IsKept weights a distinct in
      let distinct' = subst (λ l. all_distinct l ≡ true) (sym kept.2) distinct in
      elim (Bool-cases (is_empty a'.last_prioritization)) [
        | inl e ↦ (record a' { t = a'.t + 1 }, rw e refl, kept, ap (λ t. t + 1) time)
        | inr e ↦ (
          b,
          rw (e, enough a'.last_prioritization, eq_self (length a'.last_prioritization)) refl,
          IsKept-trans a a' b kept
              (rewarded-IsKept (accumulate num) rewards a' accumulate-name distinct'),
          ap (λ t. t + 1) time,
        )
      ]

  -- The rest of an observation with the base class's credit assignment, which keeps the names.
  names_of-credit_row :
      (rows : List (ActionRow V)) → names_of (map (credit_row num) rows) ≡ names_of rows
  names_of-credit_row [] = refl
  names_of-credit_row (row ∷ rows) = ap (◌∷◌ row.name) (names_of-credit_row rows)

  -- With a reward function that gives a reward for every test, after a prioritization without
  -- repetition, and with the credit assignment of the base class of the policies,
  -- `RewardAgent.observe` succeeds, keeps the names of the frame up to their order, the set of
  -- names and the prioritization, and counts one step.
  pub observe_reward-credited :
      (weights : ℕ → List V) (evaluate : List ℕ → List V) (a : Agent V)
      → IsRewarding evaluate
      → all_distinct a.last_prioritization ≡ true
      → (b : Agent V) × (observe_reward num join weights evaluate (credit_assignment num) a ≡ ok b)
        × IsKept a b
        × (b.t ≡ a.t + 1)
  unfolding credit_assignment
  observe_reward-credited weights evaluate a enough distinct =
      let (b, same, (names, set, last), time) =
        observe_reward-IsKept weights evaluate (credit_assignment num) a enough distinct in
      (
        record b { actions = map (credit_row num) b.actions },
        same,
        (
          subst (λ ns. Perm ns (names_of a.actions)) (sym (names_of-credit_row b.actions)) names,
          set,
          last,
        ),
        time,
      )
