-- ===== src/Allocation/Enumerating.antt =====
-- What the enumeration counts, and what it completes.
use mathlib.Core.List.{append-nil, append_assoc}
use coleman.Allocation.Forecasts.{forecast_action}
use coleman.Base.{
  refl, ap, false, subst, Bool-cases, ok-injective, ℕ, ◌+◌, ◌≤◌, ◌<◌, ◌≡◌, sym, ◌∙◌, inl, inr, true,
  ◌||◌, List, [], ◌∷◌, ◌++◌, arith, ok, err, Result-cases, >>=-eq-ok, length, All, contains,
}
use coleman.Search.Limits.{Stop, Environment, WorkCounter, poll_counter, step_counter, work_limit}
use coleman.Allocation.Contracts.{JointScenario, DiscreteAllocation, AllocationProblem}
use coleman.Allocation.Forecasts.{ActionEvaluation, evaluate_action}
use coleman.Allocation.Choosing.{row_key}
use coleman.Allocation.Solver.{Termination, Enumeration, has_row, poll_scenarios, enumerate_actions}

poll_counter-used :
    (env : Environment) (c d : WorkCounter) → poll_counter env c ≡ ok d → d.used ≡ c.used
unfolding poll_counter
poll_counter-used env c d h = ground arith

poll_scenarios-used :
    (env : Environment) (scenarios : List JointScenario) (c d : WorkCounter)
    → poll_scenarios env scenarios c ≡ ok d
    → d.used ≡ c.used
unfolding poll_scenarios
poll_scenarios-used env [] c d h = ground arith
poll_scenarios-used env (s ∷ scenarios) c d h =
    let (polled, e, k) = >>=-eq-ok (poll_counter env c) _ h in
    poll_scenarios-used env scenarios polled d k ∙ poll_counter-used env c polled e

step_counter-used :
    (env : Environment) (c d : WorkCounter)
    → step_counter env c ≡ ok d
    → (d.used ≡ c.used + 1) × (c.used < env.limits.max_work)
unfolding step_counter poll_counter
step_counter-used env c d h = ground arith

-- A poll never stops for work, a step only at the limit.
poll_counter-err : (env : Environment) (c : WorkCounter) → poll_counter env c ≡ err work_limit → ⊥
unfolding poll_counter
poll_counter-err env c h = ground arith

poll_scenarios-err :
    (env : Environment) (scenarios : List JointScenario) (c : WorkCounter)
    → poll_scenarios env scenarios c ≡ err work_limit
    → ⊥
unfolding poll_scenarios
poll_scenarios-err env [] c h = cc
poll_scenarios-err env (s ∷ scenarios) c h = elim (Result-cases (poll_counter env c)) [
  | inl (polled, e) ↦ poll_scenarios-err env scenarios polled (ground (arith, h, e))
  | inr (why, e) ↦ poll_counter-err env c (ground (arith, h, e))
]

step_counter-err :
    (env : Environment) (c : WorkCounter)
    → c.used ≤ env.limits.max_work
    → step_counter env c ≡ err work_limit
    → c.used ≡ env.limits.max_work
unfolding step_counter poll_counter
step_counter-err env c b h = ground arith

-- What an enumeration adds to the rows and to the counter it starts from.
pub record Adds (env : Environment) (p : AllocationProblem) (cached : List ℕ)
    (actions : List DiscreteAllocation) (completed : List ActionEvaluation) (used : ℕ)
    (e : Enumeration) : Type 0 where
  pub new : List ActionEvaluation
  pub extends : e.completed ≡ completed ++ new
  pub evaluated : All (λ r. (a : DiscreteAllocation) × (evaluate_action p a ≡ ok r)) new
  pub known :
      (scope : List ℕ)
      → All (λ a. contains a.action_id scope ≡ true) actions
      → All (λ r. contains (row_key r) scope ≡ true) new
  pub at_least : used + length new ≤ e.counter.used
  pub at_most : e.counter.used ≤ used + length new + 1
  pub within_limit : e.counter.used ≤ env.limits.max_work
  pub complete_count :
      e.reason ≡ Termination.enumeration_complete → e.counter.used ≡ used + length new
  pub limit_count :
      e.reason ≡ Termination.stopped work_limit
      → (e.counter.used ≡ used + length new) × (e.counter.used ≡ env.limits.max_work)
  pub complete_rows :
      e.reason ≡ Termination.enumeration_complete
      → All (λ a. (contains a.action_id cached || has_row a.action_id e.completed) ≡ true) actions

row-has_row :
    (k : ℕ) (row : ActionEvaluation) (completed new : List ActionEvaluation)
    → row_key row ≡ k
    → has_row k ((completed ++ row ∷ []) ++ new) ≡ true
row-has_row k row [] new h = ground (arith, h)
row-has_row k row (x ∷ completed) new h = ground (arith, row-has_row k row completed new h)

evaluate_action-row_key :
    (p : AllocationProblem) (a : DiscreteAllocation) (row : ActionEvaluation)
    → evaluate_action p a ≡ ok row
    → row_key row ≡ a.action_id
unfolding evaluate_action forecast_action
evaluate_action-row_key p a row h = ground (arith, h)

module _ (env : Environment) (p : AllocationProblem) (cached : List ℕ) where
  -- It stops at once, with at most a step more.
  stops-Adds :
      (actions : List DiscreteAllocation) (completed : List ActionEvaluation) (used : ℕ)
      (counter : WorkCounter) (why : Stop)
      → used ≤ counter.used
      → counter.used ≤ used + 1
      → counter.used ≤ env.limits.max_work
      → (why ≡ work_limit → (counter.used ≡ used) × (counter.used ≡ env.limits.max_work))
      → Adds env p cached actions completed used
          (record { completed = completed; counter = counter; reason = Termination.stopped why })
  stops-Adds actions completed used counter why low high limit at_limit = record {
    new = [];
    extends = sym (append-nil completed);
    evaluated = tt;
    known = λ scope h. tt;
    at_least = omega (arith, low);
    at_most = omega (arith, high);
    within_limit = limit;
    complete_count = λ e. absurd (ground (arith, e));
    limit_count = λ e. let k = at_limit (ground (arith, e)) in (omega (arith, k.0), k.1);
    complete_rows = λ e. absurd (ground (arith, e));
  }

  -- A cached row less to do.
  cached-Adds :
      (a : DiscreteAllocation) (actions : List DiscreteAllocation)
      (completed : List ActionEvaluation) (used : ℕ) (e : Enumeration)
      → contains a.action_id cached ≡ true
      → Adds env p cached actions completed used e
      → Adds env p cached (a ∷ actions) completed used e
  cached-Adds a actions completed used e there rest = record {
    new = rest.new;
    extends = rest.extends;
    evaluated = rest.evaluated;
    known = λ scope h. rest.known scope h.1;
    at_least = rest.at_least;
    at_most = rest.at_most;
    within_limit = rest.within_limit;
    complete_count = rest.complete_count;
    limit_count = rest.limit_count;
    complete_rows = λ done. (ground (arith, there), rest.complete_rows done);
  }

  -- A row more, and the rest from there.
  row-Adds :
      (a : DiscreteAllocation) (actions : List DiscreteAllocation)
      (completed : List ActionEvaluation) (row : ActionEvaluation) (used : ℕ) (e : Enumeration)
      → evaluate_action p a ≡ ok row
      → row_key row ≡ a.action_id
      → Adds env p cached actions (completed ++ row ∷ []) (used + 1) e
      → Adds env p cached (a ∷ actions) completed used e
  row-Adds a actions completed row used e evaluates same rest = record {
    new = row ∷ rest.new;
    extends = rest.extends ∙ append_assoc completed (row ∷ []) rest.new;
    evaluated = ((a, evaluates), rest.evaluated);
    known = λ scope h. (subst (λ k. contains k scope ≡ true) (sym same) h.0, rest.known scope h.1);
    at_least = omega (arith, rest.at_least);
    at_most = omega (arith, rest.at_most);
    within_limit = rest.within_limit;
    complete_count = λ done. omega (arith, rest.complete_count done);
    limit_count = λ halted. let k = rest.limit_count halted in (omega (arith, k.0), k.1);
    complete_rows = λ done.
        let there : has_row a.action_id e.completed ≡ true =
          subst (λ l. has_row a.action_id l ≡ true) (sym rest.extends)
            (row-has_row a.action_id row completed rest.new same) in
        (ground (arith, there), rest.complete_rows done);
  }

  -- The step is paid: the evaluation is interrupted, or its row is added.
  stepped-Adds :
      (a : DiscreteAllocation) (actions : List DiscreteAllocation)
      (completed : List ActionEvaluation) (c stepped : WorkCounter) (e : Enumeration)
      → contains a.action_id cached ≡ false
      → step_counter env c ≡ ok stepped
      → ((row : ActionEvaluation) (polled : WorkCounter)
          → polled.used ≤ env.limits.max_work
          → enumerate_actions env p cached actions (completed ++ row ∷ []) polled ≡ ok e
          → Adds env p cached actions (completed ++ row ∷ []) polled.used e)
      → enumerate_actions env p cached (a ∷ actions) completed c ≡ ok e
      → Adds env p cached (a ∷ actions) completed c.used e
  unfolding enumerate_actions
  stepped-Adds a actions completed c stepped e new f recurse h =
      let (used, room) = step_counter-used env c stepped f in
      elim (Result-cases (poll_scenarios env p.scenarios stepped)) [
        | inl (polled, g) ↦
            let polls = poll_scenarios-used env p.scenarios stepped polled g in
            let (row, evaluates, k) =
              >>=-eq-ok (evaluate_action p a) _ (rw (new, f, g, enumerate_actions) at h) in
            let rest = recurse row polled (omega (arith, used, room, polls)) k in
            row-Adds a actions completed row c.used e evaluates
              (evaluate_action-row_key p a row evaluates)
              (subst (λ n. Adds env p cached actions (completed ++ row ∷ []) n e) (polls ∙ used)
                rest)
        | inr (why, g) ↦
            subst (Adds env p cached (a ∷ actions) completed c.used)
              (ok-injective (rw (new, f, g, enumerate_actions) at h))
              (stops-Adds (a ∷ actions) completed c.used stepped why (omega (arith, used))
                (omega (arith, used)) (omega (arith, used, room))
                (λ limit. absurd (poll_scenarios-err env p.scenarios stepped (g ∙ ap err limit))))
      ]

  pub enumerate_actions-Adds :
      (actions : List DiscreteAllocation) (completed : List ActionEvaluation) (c : WorkCounter)
      (e : Enumeration)
      → c.used ≤ env.limits.max_work
      → enumerate_actions env p cached actions completed c ≡ ok e
      → Adds env p cached actions completed c.used e
  unfolding enumerate_actions
  enumerate_actions-Adds [] completed c e low h =
      subst (Adds env p cached [] completed c.used) (ok-injective h) record {
        new = [];
        extends = sym (append-nil completed);
        evaluated = tt;
        known = λ scope h. tt;
        at_least = omega arith;
        at_most = omega arith;
        within_limit = low;
        complete_count = λ _. omega arith;
        limit_count = λ halted. absurd (ground (arith, halted));
        complete_rows = λ _. tt;
      }
  enumerate_actions-Adds (a ∷ actions) completed c e low h =
      elim (Bool-cases (contains a.action_id cached)) [
        | inl old ↦ elim (Result-cases (poll_counter env c)) [
          | inl (polled, f) ↦
              let used = poll_counter-used env c polled f in
              let rest =
                enumerate_actions-Adds actions completed polled e (omega (arith, used, low))
                  (rw (old, f, enumerate_actions) at h) in
              cached-Adds a actions completed c.used e old
                (subst (λ n. Adds env p cached actions completed n e) used rest)
          | inr (why, f) ↦
              subst (Adds env p cached (a ∷ actions) completed c.used)
                (ok-injective (rw (old, f, enumerate_actions) at h))
                (stops-Adds (a ∷ actions) completed c.used c why (omega arith) (omega arith) low
                  (λ limit. absurd (poll_counter-err env c (f ∙ ap err limit))))
        ]
        | inr new ↦ elim (Result-cases (step_counter env c)) [
          | inl (stepped, f) ↦
              stepped-Adds a actions completed c stepped e new f
                (λ row polled. enumerate_actions-Adds actions (completed ++ row ∷ []) polled e) h
          | inr (why, f) ↦
              subst (Adds env p cached (a ∷ actions) completed c.used)
                (ok-injective (rw (new, f, enumerate_actions) at h))
                (stops-Adds (a ∷ actions) completed c.used c why (omega arith) (omega arith) low
                  (λ limit. (refl, step_counter-err env c low (f ∙ ap err limit))))
        ]
      ]
