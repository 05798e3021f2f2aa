-- ===== src/Allocation/Variance.antt =====
-- The moments of a problem whose probabilities sum to one: its variance is not negative.
use coleman.Allocation.Forecasts.{ActionForecast, forecast_action, inputs, penalized}
use coleman.Allocation.Contracts.{AllocationProblem, DiscreteAllocation}
use coleman.Base.{refl, true, [], ◌∷◌, has_key, negsuc, Result-cases, >>=-eq-ok}
use coleman.Base.{
  ◌*ℤ◌, ap, ◌∙◌, sum, ℤ, ◌+ℤ◌, +ℤ_parts, *ℤ_pos_parts, *ℤ_square, pos_part, neg_part, eq_of_parts,
  Option-cases, ok-injective,
}
use coleman.Base.{
  zero, suc, subst, Option-cases, ok, ok-injective, lookup, pos, ◌-ℤ◌, ℕ, ◌+◌, ◌-◌, ◌*◌, ◌≤◌, ◌≡◌,
  inl, inr, List, arith, leb, Bool-cases,
}
use coleman.Allocation.Contracts.{scale, JointScenario, total_probability}
use coleman.Allocation.Forecasts.{
  Inputs, Moments, NetOutcome, add_scenario, add_scenarios, nonnegative, no_moments,
}

-- (a - b)^2 is not negative.
double_above : (a d b : ℕ) → b ≡ a + d → 2 * (a * b) ≤ a * a + b * b
double_above a d b h = rw h (omega arith)

double_product : (a b : ℕ) → 2 * (a * b) ≤ a * a + b * b
double_product a b = elim (Bool-cases (leb a b)) [
  | inl le ↦ double_above a (b - a) b (ground arith)
  | inr gt ↦ let h = double_above b (a - b) a (ground arith) in omega (arith, h)
]

scale_le : (p a b : ℕ) → a ≤ b → p * a ≤ p * b
scale_le zero a b h = omega arith
scale_le (suc p) a b h = omega (arith, h, scale_le p a b h)

-- A sum of weights, one of weighted values, and one of weighted squares.
record Spread (weight value square : ℕ) : Type 0 where
  gap : (a : ℕ) → 2 * (a * value) ≤ square + a * a * weight
  cauchy_schwarz : value * value ≤ square * weight

Spread-add :
    (p x weight value square : ℕ)
    → Spread weight value square
    → Spread (weight + p) (value + p * x) (square + p * (x * x))
Spread-add p x weight value square s = record {
  gap = λ a. omega (arith, s.gap a, scale_le p (2 * (a * x)) (a * a + x * x) (double_product a x));
  cauchy_schwarz =
      omega
        (arith, s.cauchy_schwarz, scale_le p (2 * (x * value)) (square + x * x * weight) (s.gap x));
}

-- The signed sum of the nets by its two parts, and their squares, with the sum of probabilities.
record Bounded (weight : ℕ) (m : Moments) : Type 0 where
  above : ℕ
  below : ℕ
  above_squares : ℕ
  below_squares : ℕ
  above_spread : Spread weight above above_squares
  below_spread : Spread weight below below_squares
  net : pos_part m.net + below ≡ neg_part m.net + above
  second : m.second ≡ pos (above_squares + below_squares)

net_parts :
    (n x : ℤ) (p above below : ℕ)
    → pos_part n + below ≡ neg_part n + above
    → pos_part (n +ℤ pos p *ℤ x) + (below + p * neg_part x)
      ≡ neg_part (n +ℤ pos p *ℤ x) + (above + p * pos_part x)
net_parts n x p above below h =
    let parts = *ℤ_pos_parts p x in omega (arith, h, parts.0, parts.1, +ℤ_parts n (pos p *ℤ x))

second_sum :
    (q x : ℤ) (p sum : ℕ)
    → q ≡ pos sum
    → q +ℤ pos p *ℤ (x *ℤ x) ≡ pos (sum + p * (pos_part x * pos_part x + neg_part x * neg_part x))
second_sum q x p sum h =
    let squares = pos_part x * pos_part x + neg_part x * neg_part x in
    let parts = *ℤ_pos_parts p (pos squares) in
    let total = +ℤ_parts (pos sum) (pos p *ℤ pos squares) in
    rw (h, *ℤ_square x) (eq_of_parts _ _ (omega (arith, parts.0, parts.1, total)))

add_scenario-Bounded :
    (values : Inputs) (s : JointScenario) (m : Moments) (added : Moments × NetOutcome) (weight : ℕ)
    → Bounded weight m
    → add_scenario values s m ≡ ok added
    → Bounded (weight + s.probability) added.0
unfolding add_scenario
add_scenario-Bounded values s m added weight b h =
    elim (Option-cases (lookup s.scenario_id values.gross)) [
      | inl missing ↦ absurd (ground (arith, h, missing))
      | inr (gross, found) ↦
          let x = gross -ℤ pos values.fee in
          let p = s.probability in
          subst (λ r. Bounded (weight + p) r.0) (ok-injective (rw (found, add_scenario) at h))
            record {
              above = b.above + p * pos_part x;
              below = b.below + p * neg_part x;
              above_squares = b.above_squares + p * (pos_part x * pos_part x);
              below_squares = b.below_squares + p * (neg_part x * neg_part x);
              above_spread =
                  Spread-add p (pos_part x) weight b.above b.above_squares b.above_spread;
              below_spread =
                  Spread-add p (neg_part x) weight b.below b.below_squares b.below_spread;
              net = net_parts m.net x p b.above b.below b.net;
              second =
                  second_sum m.second x p (b.above_squares + b.below_squares) b.second
                  ∙ ap pos (omega arith);
            }
    ]

add_scenarios-Bounded :
    (values : Inputs) (scenarios : List JointScenario) (m : Moments)
    (added : Moments × List NetOutcome) (weight : ℕ)
    → Bounded weight m
    → add_scenarios values scenarios m ≡ ok added
    → Bounded (weight + total_probability scenarios) added.0
unfolding add_scenarios
add_scenarios-Bounded values [] m added weight b h =
    let same : weight + 0 ≡ weight = omega arith in
    subst (λ r. Bounded (weight + 0) r.0) (ok-injective h) (rw same b)
add_scenarios-Bounded values (s ∷ scenarios) m added weight b h =
    let (first, e, k) = >>=-eq-ok (add_scenario values s m) _ h in
    let (rest, f, q) = >>=-eq-ok (add_scenarios values scenarios first.0) _ k in
    let ih =
      add_scenarios-Bounded values scenarios first.0 rest (weight + s.probability)
        (add_scenario-Bounded values s m first weight b e) f in
    let same : weight + s.probability + total_probability scenarios
        ≡ weight + (s.probability + total_probability scenarios) =
      omega arith in
    subst (λ r. Bounded (weight + (s.probability + total_probability scenarios)) r.0)
      (ok-injective q) (subst (λ w. Bounded w rest.0) same ih)

square_le : (a b : ℕ) → a ≤ b → a * a ≤ b * b
square_le a b h = omega (arith, scale_le a a b h, scale_le b a b h)

-- The square of the net is at most the squares of its two sums.
net_square_le :
    (n : ℤ) (above below : ℕ)
    → pos_part n + below ≡ neg_part n + above
    → pos_part n * pos_part n + neg_part n * neg_part n ≤ above * above + below * below
net_square_le (pos n) above below h = omega (arith, square_le n above (omega (arith, h)))
net_square_le (negsuc n) above below h = omega (arith, square_le (suc n) below (omega (arith, h)))

nonnegative_difference : (a b : ℕ) → b ≤ a → (n : ℕ) × (nonnegative (pos a -ℤ pos b) ≡ ok n)
unfolding nonnegative ◌-ℤ◌
nonnegative_difference a b h = (a - b, ground (arith, h))

-- The variance of a problem whose probabilities sum to `weight` is a number.
Bounded-nonnegative :
    (weight : ℕ) (m : Moments)
    → Bounded weight m
    → (n : ℕ) × (nonnegative (m.second *ℤ pos weight -ℤ m.net *ℤ m.net) ≡ ok n)
Bounded-nonnegative weight m b =
    let q = b.above_squares + b.below_squares in
    let product : m.second *ℤ pos weight ≡ pos (q * weight) =
      ap (λ z. z *ℤ pos weight) b.second
      ∙ eq_of_parts _ _
          (omega (arith, (*ℤ_pos_parts q (pos weight)).0, (*ℤ_pos_parts q (pos weight)).1)) in
    let below = net_square_le m.net b.above b.below b.net in
    let small : pos_part m.net * pos_part m.net + neg_part m.net * neg_part m.net ≤ q * weight =
      omega (arith, below, b.above_spread.cauchy_schwarz, b.below_spread.cauchy_schwarz) in
    rw (product, *ℤ_square m.net) (nonnegative_difference (q * weight) _ small)

no_moments-Bounded : Bounded 0 no_moments
no_moments-Bounded = record {
  above = 0;
  below = 0;
  above_squares = 0;
  below_squares = 0;
  above_spread = record { gap = λ a. omega arith; cauchy_schwarz = omega arith };
  below_spread = record { gap = λ a. omega arith; cauchy_schwarz = omega arith };
  net = refl;
  second = refl;
}

-- Every scenario has a payoff.
abbrev pub Covers : Inputs → List JointScenario → Type 0
Covers values [] = Unit
Covers values (s ∷ scenarios) =
    (has_key s.scenario_id values.gross ≡ true) × Covers values scenarios

add_scenarios-ok :
    (values : Inputs) (scenarios : List JointScenario) (m : Moments)
    → Covers values scenarios
    → (added : Moments × List NetOutcome) × (add_scenarios values scenarios m ≡ ok added)
unfolding add_scenarios add_scenario
add_scenarios-ok values [] m c = (_, refl)
add_scenarios-ok values (s ∷ scenarios) m c = elim (Result-cases (add_scenario values s m)) [
  | inl (first, e) ↦
      let (rest, f) = add_scenarios-ok values scenarios first.0 c.1 in
      ((rest.0, first.1 ∷ rest.1), ground (arith, e, f))
  | inr (why, e) ↦ absurd (ground (arith, e, c.0))
]

pub forecast_action_returns :
    (p : AllocationProblem) (a : DiscreteAllocation)
    → total_probability p.scenarios ≡ scale
    → Covers (inputs p a) p.scenarios
    → (f : ActionForecast) × (forecast_action p a ≡ ok f)
unfolding forecast_action
forecast_action_returns p a simplex covers =
    let (sums, e) = add_scenarios-ok (inputs p a) p.scenarios no_moments covers in
    let bounded =
      add_scenarios-Bounded (inputs p a) p.scenarios no_moments sums 0 no_moments-Bounded e in
    let one : 0 + total_probability p.scenarios ≡ scale = omega (arith, simplex) in
    let (n, f) = Bounded-nonnegative scale sums.0 (subst (λ w. Bounded w sums.0) one bounded) in
    let out : ActionForecast = record {
      action_id = a.action_id;
      outcomes = sums.1;
      expected_gross = sums.0.gross;
      expected_net = sums.0.net;
      variance = n;
      expected_target_shortfall = sums.0.shortfall;
      utility = penalized p.utility.coefficient sums.0;
    } in
    (out, rw (e, f) refl)
