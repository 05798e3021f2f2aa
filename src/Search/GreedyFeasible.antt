-- ===== src/Search/GreedyFeasible.antt =====
-- The greedy part of the coverage search keeps the invariant, and each of its rounds uses work.
use coleman.Base.{
  union, zero, suc, ◌<◌, refl, sym, subst, ◌≤◌, inl, inr, Bool, false, arith, ◌==◌, if◌then◌else◌,
  Bool-cases, true, none, ℕ, ◌+◌, ◌≡◌, Option, some, List, [], ◌∷◌, contains, lookup,
}
use coleman.Search.Limits.{Environment}
use coleman.Search.Mathematics.{union_of, SelectionValue}
use coleman.Search.Monad.{
  set_best, ◌>>◌, ◌>>=◌, Search, give, get_best, step, SearchState, key, poll,
}
use coleman.Search.Solver.{
  extend, greedy_from, greedy_choice, commit, greedy, denser, density_of, scan, weigh, examine,
  Prepared, Choice, gain, fits,
}
use coleman.Search.Triple.{
  Triple-weaken, Triple-pure, Triple-post, Triple-if, Triple, Triple-bind, Triple-give, Triple-key,
}
use coleman.Search.Selections.{extend-IsFeasible}
use coleman.Search.Invariant.{IsGood, set_best-Holds, step-Holds, Ended, Holds, poll-Holds}

module _ (env : Environment) (prep : Prepared) (base : ℕ) where
  -- A lookup in a table: what it returns was there.
  pub key-Holds :
      {A : Type 0} {B : SelectionValue → Type 0} {n : ℕ} (o : Option A)
      → Triple
          (Ended env prep base)
          (Holds env prep base B n)
          (key o)
          (λ a s. Holds env prep base B n s × (o ≡ some a))
  key-Holds o = Triple-key (Ended env prep base) o (λ s h. (h.bounded, λ e. cc))

  pub gain-Holds :
      {B : SelectionValue → Type 0} {n : ℕ} (outcomes covered : List ℕ) (so_far : ℕ)
      → Triple
          (Ended env prep base)
          (Holds env prep base B n)
          (gain env prep outcomes covered so_far)
          (λ _. Holds env prep base B n)
  unfolding gain
  gain-Holds [] covered so_far = Triple-give _ so_far (λ s h. h)
  gain-Holds {B = B} {n = n} (o ∷ os) covered so_far =
      Triple-bind _ (poll env) _ (poll-Holds env prep base) (λ _.
        Triple-bind _ _ _
          (Triple-if _ (contains o covered) (λ _. Triple-give _ 0 (λ s h. h))
            (λ _. Triple-post _ (λ w s h. h.0) (key-Holds (lookup o prep.weights))))
          (λ w. gain-Holds os covered (so_far + w)))

  -- A candidate that may join `best`.
  abbrev pub IsChoice : SelectionValue → Choice → Type 0
  IsChoice best c =
      (cost : ℕ) × (lookup c.name prep.costs ≡ some cost) × (fits prep best cost ≡ true)

  -- What is known of the choice so far.
  abbrev pub MayChoose : SelectionValue → Option Choice → Type 0
  MayChoose best none = Unit
  MayChoose best (some c) = IsChoice best c

  -- The state of a scan of the candidates for `best`: a choice has used work.
  abbrev pub Scanned : SelectionValue → ℕ → Option Choice → SearchState → Type 0
  Scanned best n none s = Holds env prep base (λ v. v ≡ best) n s
  Scanned best n (some c) s = Holds env prep base (λ v. v ≡ best) (n + 1) s × IsChoice best c

  lower :
      {B : SelectionValue → Type 0} {n m : ℕ} {s : SearchState}
      → n ≤ m
      → Holds env prep base B m s
      → Holds env prep base B n s
  lower order h =
      let least = h.least in record { bounded = h.bounded; least = omega arith; known = h.known }

  worked :
      (best : SelectionValue) (n : ℕ) (choice : Option Choice) (s : SearchState)
      → Holds env prep base (λ v. v ≡ best) (n + 1) s
      → MayChoose best choice
      → Scanned best n choice s
  worked best n none s h k = lower (omega arith) h
  worked best n (some c) s h k = (h, k)

  step-Scanned :
      (best : SelectionValue) (n : ℕ) (choice : Option Choice)
      → Triple
          (Ended env prep base)
          (Scanned best n choice)
          (step env)
          (λ _ s. Holds env prep base (λ v. v ≡ best) (n + 1) s × MayChoose best choice)
  step-Scanned best n none = Triple-post _ (λ _ s h. (h, tt)) (step-Holds env prep base)
  step-Scanned best n (some c) =
      Triple-pure _
        (λ k. Triple-post _ (λ _ s h. (lower (omega arith) h, k)) (step-Holds env prep base))

  pick-MayChoose :
      (best : SelectionValue) (choice found : Option Choice) (b : Bool) (wins : Choice → Bool)
      → MayChoose best choice
      → MayChoose best found
      → MayChoose best (
          if b
          then choice
          else elim choice [ none ↦ found | some old ↦ if wins old then found else some old ])
  pick-MayChoose best choice found true wins h k = h
  pick-MayChoose best none found false wins h k = k
  pick-MayChoose best (some old) found false wins h k = elim (Bool-cases (wins old)) [
    | inl e ↦ rw e k
    | inr e ↦ rw e h
  ]

  weigh-Scanned :
      (best : SelectionValue) (n : ℕ) (covered : List ℕ) (choice : Option Choice) (name cost : ℕ)
      → MayChoose best choice
      → lookup name prep.costs ≡ some cost
      → fits prep best cost ≡ true
      → Triple
          (Ended env prep base)
          (Holds env prep base (λ v. v ≡ best) (n + 1))
          (weigh env prep covered choice name cost)
          (Scanned best n)
  unfolding weigh
  weigh-Scanned best n covered choice name cost may found fit =
      Triple-bind _ _ _ (key-Holds (lookup name prep.covers)) (λ covers. Triple-pure _ (λ _.
        Triple-bind _ _ _ (gain-Holds covers covered 0) (λ gained. Triple-give _ _ (λ s h.
          worked best n _ s h (
            pick-MayChoose best choice
              (some record { name = name; density = density_of gained cost; gain = gained })
              (gained == 0) (λ old. denser (density_of gained cost) old.density) may
              (cost, found, fit))))))

  examine-Scanned :
      (best : SelectionValue) (n : ℕ) (covered : List ℕ) (choice : Option Choice) (name : ℕ)
      → Triple
          (Ended env prep base)
          (Scanned best n choice)
          (examine env prep best covered choice name)
          (Scanned best n)
  unfolding examine
  examine-Scanned best n covered choice name =
      Triple-if _ (contains name best.selected_ids) (λ _. Triple-give _ choice (λ s h. h))
        (λ _. Triple-bind _ _ _ (step-Scanned best n choice) (λ _. Triple-pure _ (λ may.
          Triple-bind _ _ _ (key-Holds (lookup name prep.costs)) (λ cost. Triple-pure _ (λ found.
            Triple-if _ (fits prep best cost)
              (λ fit. weigh-Scanned best n covered choice name cost may found fit)
              (λ _. Triple-give _ choice (λ s h. worked best n choice s h may)))))))

  scan-Scanned :
      (best : SelectionValue) (n : ℕ) (covered names : List ℕ) (choice : Option Choice)
      → Triple
          (Ended env prep base)
          (Scanned best n choice)
          (scan env prep best covered names choice)
          (Scanned best n)
  unfolding scan
  scan-Scanned best n covered [] choice = Triple-give _ choice (λ s h. h)
  scan-Scanned best n covered (name ∷ names) choice =
      Triple-bind _ _ _ (examine-Scanned best n covered choice name)
        (λ next. scan-Scanned best n covered names next)

  -- A good incumbent, known.
  pub get_best-Holds :
      {B : SelectionValue → Type 0} {n : ℕ}
      → Triple
          (Ended env prep base)
          (Holds env prep base B n)
          get_best
          (λ b s. Holds env prep base (λ v. v ≡ b) n s × (B b × IsGood env prep base b))
  get_best-Holds = record {
    holds = λ s h.
        (record { bounded = h.bounded; least = h.least; known = refl }, (h.known, h.bounded.0));
  }

  -- The invariant with nothing more of the incumbent.
  abbrev pub Plain : ℕ → SearchState → Type 0
  Plain n = Holds env prep base (λ _. Unit) n

  abbrev pub Chosen : ℕ → Option Choice → SearchState → Type 0
  Chosen n none s = Plain n s
  Chosen n (some c) s = Holds env prep base (λ v. IsChoice v c) (n + 1) s

  chosen :
      (best : SelectionValue) (n : ℕ) (choice : Option Choice) (s : SearchState)
      → Scanned best n choice s
      → Chosen n choice s
  chosen best n none s h = record { bounded = h.bounded; least = h.least; known = tt }
  chosen best n (some c) s (h, k) = record {
    bounded = h.bounded;
    least = h.least;
    known = subst (λ v. IsChoice v c) (sym h.known) k;
  }

  greedy_choice-Chosen :
      (n : ℕ) (covered : List ℕ)
      → Triple (Ended env prep base) (Plain n) (greedy_choice env prep covered) (Chosen n)
  unfolding greedy_choice
  greedy_choice-Chosen n covered = Triple-bind _ _ _ get_best-Holds (λ best.
      Triple-weaken _ (λ s h. h.0)
        (Triple-post _ (chosen best n) (scan-Scanned best n covered prep.optional none)))

  commit-Holds :
      (n : ℕ) (covered : List ℕ) (c : Choice)
      → Triple
          (Ended env prep base)
          (Holds env prep base (λ v. IsChoice v c) n)
          (commit env prep covered c)
          (λ _. Plain n)
  unfolding commit
  commit-Holds n covered c =
      let last : Search (List ℕ) =
        key (lookup c.name prep.covers) >>= λ covers. give (union covered covers) in
      let store : SelectionValue → ℕ → Search (List ℕ) =
        λ best cost. set_best (extend best c.name cost c.gain) >> last in
      Triple-bind _ get_best (λ best. key (lookup c.name prep.costs) >>= store best) get_best-Holds
        (λ best. Triple-pure _ (λ ((cost, found, fit), (feasible, above)).
          Triple-bind _ (key (lookup c.name prep.costs)) (store best) (key-Holds _) (λ cost'.
            Triple-pure _ (λ found'.
              Triple-bind _ (set_best (extend best c.name cost' c.gain)) (λ _. last)
                (set_best-Holds env prep base (extend best c.name cost' c.gain) (λ _ _. (
                  extend-IsFeasible prep best c.name cost' c.gain feasible found'
                      (subst (λ k. fits prep best k ≡ true) (same cost cost' found found') fit),
                  omega arith,
                )))
                (λ _.
                  Triple-bind _ (key (lookup c.name prep.covers)) _ (key-Holds _)
                    (λ covers. Triple-give _ (union covered covers) (λ s h. h.0)))))))
    where
      same :
          (x y : ℕ) → lookup c.name prep.costs ≡ some x → lookup c.name prep.costs ≡ some y → x ≡ y
      same x y p q = cc

  -- A round of the loop, from what the rest of it keeps.
  round-Holds :
      (n : ℕ) (rest : List ℕ → Search (Unit {0})) (choice : Option Choice)
      → ((covered : List ℕ)
          → Triple (Ended env prep base) (Plain (n + 1)) (rest covered) (λ _. Plain 0))
      → (covered : List ℕ)
      → Triple
          (Ended env prep base)
          (Chosen n choice)
          (elim choice [ none ↦ give tt | some c ↦ commit env prep covered c >>= rest ])
          (λ _. Plain 0)
  round-Holds n rest none h covered = Triple-give _ tt (λ s k. lower (omega arith) k)
  round-Holds n rest (some c) h covered = Triple-bind _ _ _ (commit-Holds (n + 1) covered c) h

  -- With fuel for the work that is left, the loop of `_greedy` is never out of fuel.
  greedy_from-Holds :
      (fuel n : ℕ) (covered : List ℕ)
      → env.limits.max_work < n + fuel
      → Triple (Ended env prep base) (Plain n) (greedy_from env prep fuel covered) (λ _. Plain 0)
  unfolding greedy_from
  greedy_from-Holds zero n covered enough = record {
    holds = λ s h. let least = h.least in let most = h.bounded.1 in absurd (omega arith);
  }
  greedy_from-Holds (suc fuel) n covered enough =
      Triple-bind _ _ _ (greedy_choice-Chosen n covered) (λ choice.
        round-Holds n (greedy_from env prep fuel) choice
          (λ covered'. greedy_from-Holds fuel (n + 1) covered' (omega arith)) covered)

  pub greedy-Holds : Triple (Ended env prep base) (Plain 0) (greedy env prep) (λ _. Plain 0)
  unfolding greedy
  greedy-Holds = Triple-bind _ _ _ get_best-Holds (λ best.
      Triple-weaken _ (λ s h. record { bounded = h.0.bounded; least = h.0.least; known = tt })
        (Triple-bind _ _ _ (key-Holds (union_of prep.covers best.selected_ids)) (λ covered.
          Triple-pure _
            (λ _. greedy_from-Holds (suc env.limits.max_work) 0 covered (omega arith)))))
