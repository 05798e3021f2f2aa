-- ===== src/Search/Invariant.antt =====
-- The invariant of the coverage search, and what the counter, the incumbent and the proof keep of it.
use coleman.Base.{
  List, [], ◌∷◌, ◌>>◌, length-append, ◌+◌, refl, inl, inr, Bool, true, false, arith, leb,
  Bool-cases, Result, ok, err, ◌>>=◌, raise_if, ℕ, ◌≤◌, ◌≡◌, ◌≢◌, length,
}
use coleman.Search.Limits.{
  Environment, Stop, WorkCounter, poll_counter, step_counter, is_late, is_cancelled,
}
use coleman.Search.Mathematics.{SelectionValue}
use coleman.Search.Monad.{SearchState, count_with, poll, step, set_best}
use coleman.Search.Solver.{Prepared, proof_leaf}
use coleman.Search.Triple.{Post, Triple}
use coleman.Search.Selections.{IsFeasible}

-- `base` is an objective that the incumbent never falls below.
module _ (env : Environment) (prep : Prepared) (base : ℕ) where
  abbrev pub IsGood : SelectionValue → Type 0
  IsGood v = IsFeasible prep v × (base ≤ v.objective)

  -- The incumbent is good, and neither the work nor the proof is over its limit.
  abbrev pub IsBounded : SearchState → Type 0
  IsBounded s =
      IsGood s.best
      × (s.counter.used ≤ env.limits.max_work)
      × (length s.proof ≤ env.limits.max_certificate_leaves)

  -- No stop is the model's own.
  abbrev pub Ended : Stop → SearchState → Type 0
  Ended why s = IsBounded s × (why ≢ Stop.exhausted)

  -- `B` says more of the incumbent, and at least `n` units of work are used.
  pub record Holds (B : SelectionValue → Type 0) (n : ℕ) (s : SearchState) : Type 0 where
    pub bounded : IsBounded s
    pub least : n ≤ s.counter.used
    pub known : B s.best

  -- Of a count: what holds of the counter it returns, or no stop of the model's own.
  Counted : (WorkCounter → Type 0) → Result Stop WorkCounter → Type 0
  Counted P (ok c) = P c
  Counted P (err why) = why ≢ Stop.exhausted

  raise-Counted :
      (P : WorkCounter → Type 0) (b : Bool) (why : Stop) (next : Result Stop WorkCounter)
      → why ≢ Stop.exhausted
      → Counted P next
      → Counted P (raise_if b why >> next)
  unfolding Counted
  raise-Counted P true why next h k = h
  raise-Counted P false why next h k = k

  poll_counter-Counted : (c : WorkCounter) → Counted (λ c'. c'.used ≡ c.used) (poll_counter env c)
  unfolding poll_counter Counted
  poll_counter-Counted c =
      let P : WorkCounter → Type 0 = λ c'. c'.used ≡ c.used in
      let polled : Result Stop WorkCounter = ok (record c { polls = c.polls + 1 }) in
      let timed = raise_if (is_late env c.polls) Stop.deadline >> polled in
      let asked = raise_if (is_cancelled env c.polls) Stop.cancelled >> timed in
      raise-Counted P (env.interrupted_at c.polls) Stop.interrupted asked (λ e. cc)
        (raise-Counted P (is_cancelled env c.polls) Stop.cancelled timed (λ e. cc)
          (raise-Counted P (is_late env c.polls) Stop.deadline polled (λ e. cc) refl))

  bind-Counted :
      {P : WorkCounter → Type 0} (Q : WorkCounter → Type 0) (r : Result Stop WorkCounter)
      (f : WorkCounter → Result Stop WorkCounter)
      → Counted P r
      → ((c : WorkCounter) → P c → Counted Q (f c))
      → Counted Q (r >>= f)
  unfolding Counted
  bind-Counted Q (ok c) f h k = k c h
  bind-Counted Q (err why) f h k = h

  below_limit :
      (used : ℕ) (c : WorkCounter)
      → c.used ≡ used
      → Counted
          (λ c'. (c'.used ≡ used + 1) × (c'.used ≤ env.limits.max_work))
          (raise_if (leb env.limits.max_work c.used) Stop.work_limit
            >> ok (record c { used = c.used + 1 }))
  unfolding Counted
  below_limit used c same = elim (Bool-cases (leb env.limits.max_work c.used)) [
    | inl full ↦ rw full (λ e. cc)
    | inr room ↦ rw room (omega arith, ground arith)
  ]

  step_counter-Counted :
      (c : WorkCounter)
      → Counted
          (λ c'. (c'.used ≡ c.used + 1) × (c'.used ≤ env.limits.max_work))
          (step_counter env c)
  unfolding step_counter
  step_counter-Counted c =
      bind-Counted _ (poll_counter env c) _ (poll_counter-Counted c) (below_limit c.used)

  count-Post :
      (B : SelectionValue → Type 0) (n m : ℕ) (s : SearchState) (r : Result Stop WorkCounter)
      → Holds B n s
      → Counted (λ c. (m ≤ c.used) × (c.used ≤ env.limits.max_work)) r
      → Post Ended {A = Unit} (λ _. Holds B m) (count_with (λ _. r) s)
  unfolding Counted
  count-Post B n m s (ok c) h (least, most) = record {
    bounded = (h.bounded.0, most, h.bounded.2);
    least = least;
    known = h.known;
  }
  count-Post B n m s (err why) h k = (h.bounded, k)

  pub poll-Holds :
      {B : SelectionValue → Type 0} {n : ℕ} → Triple Ended (Holds B n) (poll env) (λ _. Holds B n)
  unfolding Counted
  poll-Holds {B = B} {n = n} = record {
    holds = λ s h.
        count-Post B n n s (poll_counter env s.counter) h
          (keep s h (poll_counter env s.counter) (poll_counter-Counted s.counter));
  }
    where
      keep :
          (s : SearchState)
          → Holds B n s
          → (r : Result Stop WorkCounter) → Counted (λ c. c.used ≡ s.counter.used) r
          → Counted (λ c. (n ≤ c.used) × (c.used ≤ env.limits.max_work)) r
      keep s h (ok c) same =
          let least = h.least in let bounded = h.bounded.1 in (omega arith, omega arith)
      keep s h (err why) k = k

  pub step-Holds :
      {B : SelectionValue → Type 0} {n : ℕ}
      → Triple Ended (Holds B n) (step env) (λ _. Holds B (n + 1))
  unfolding Counted
  step-Holds {B = B} {n = n} = record {
    holds = λ s h.
        count-Post B n (n + 1) s (step_counter env s.counter) h
          (more s h (step_counter env s.counter) (step_counter-Counted s.counter));
  }
    where
      more :
          (s : SearchState)
          → Holds B n s
          → (r : Result Stop WorkCounter)
          → Counted (λ c. (c.used ≡ s.counter.used + 1) × (c.used ≤ env.limits.max_work)) r
          → Counted (λ c. (n + 1 ≤ c.used) × (c.used ≤ env.limits.max_work)) r
      more s h (ok c) (same, most) = let least = h.least in (omega arith, most)
      more s h (err why) k = k

  pub proof_leaf-Holds :
      {B : SelectionValue → Type 0} {n : ℕ} (prefix : List Bool)
      → Triple Ended (Holds B n) (proof_leaf env prep prefix) (λ _. Holds B n)
  unfolding proof_leaf
  proof_leaf-Holds {B = B} {n = n} prefix = record {
    holds = λ s h. elim (Bool-cases (leb env.limits.max_certificate_leaves (length s.proof))) [
      | inl full ↦ rw full (h.bounded, λ e. cc)
      | inr room ↦ rw room record {
        bounded =
            (h.bounded.0, h.bounded.1, rw (length-append s.proof (prefix ∷ [])) (ground arith));
        least = h.least;
        known = h.known;
      }
    ];
  }

  -- The incumbent is replaced by a good selection.
  pub set_best-Holds :
      {B : SelectionValue → Type 0} {n : ℕ} (v : SelectionValue)
      → ((s : SearchState) → Holds B n s → IsGood v)
      → Triple Ended (Holds B n) (set_best v) (λ _. Holds (λ _. Unit) n)
  set_best-Holds v good = record {
    holds = λ s h. record {
      bounded = (good s h, h.bounded.1, h.bounded.2);
      least = h.least;
      known = tt;
    };
  }
