-- ===== src/Reward/Counts.antt =====
-- How many tests a top-k reward rewards.
use coleman.Base.{
  ℕ, zero, suc, ◌+◌, ◌-◌, ◌≤◌, ◌≡◌, refl, sym, ap, ◌∙◌, subst, inl, inr, Bool, true, false, ◌&&◌,
  List, [], ◌∷◌, ◌++◌, map, arith, ltb, leb, ◌==◌, if◌then◌else◌, Bool-cases, length, length-append,
  drop, contains, all_distinct,
}
use coleman.Evaluation.Metric.{Metric}
use coleman.Reward.Ranks.{Floats, zeros, hits, worth, effective, top_k_rn_fail}

abbrev pub trues : List Bool → ℕ
trues [] = 0
trues (b ∷ bs) = (if b then 1 else 0) + trues bs

-- How many of the ranks are among `n` ranks from `i` on.
abbrev pub among : ℕ → ℕ → List ℕ → ℕ
among i n [] = 0
among i n (r ∷ ranks) = (if leb i r && ltb r (i + n) then 1 else 0) + among i n ranks

trues-hits_none : (i n : ℕ) → trues (hits [] i n) ≡ 0
trues-hits_none i zero = refl
trues-hits_none i (suc n) = omega (arith, trues-hits_none (suc i) n)

trues-hits_one :
    (r : ℕ) (ranks : List ℕ) (i n : ℕ)
    → contains r ranks ≡ false
    → trues (hits (r ∷ ranks) i n)
      ≡ (if leb i r && ltb r (i + n) then 1 else 0) + trues (hits ranks i n)
trues-hits_one r ranks i zero new = ground arith
trues-hits_one r ranks i (suc n) new =
    let rest = trues-hits_one r ranks (suc i) n new in
    elim (Bool-cases (i == r)) [
      | inl here ↦
          let same : i ≡ r = ground arith in
          let free : contains i ranks ≡ false =
            subst (λ k. contains k ranks ≡ false) (sym same) new in
          ground (arith, here, free, rest)
      | inr other ↦ ground (arith, other, rest)
    ]

trues-hits :
    (ranks : List ℕ) (i n : ℕ)
    → all_distinct ranks ≡ true
    → trues (hits ranks i n) ≡ among i n ranks
trues-hits [] i n h = trues-hits_none i n
trues-hits (r ∷ ranks) i n h =
    let new : contains r ranks ≡ false = ground arith in
    let rest = trues-hits ranks i n (ground arith) in
    trues-hits_one r ranks i n new ∙ ap (λ k. (if leb i r && ltb r (i + n) then 1 else 0) + k) rest

length-hits : (ranks : List ℕ) (i n : ℕ) → length (hits ranks i n) ≡ n
length-hits ranks i zero = refl
length-hits ranks i (suc n) = ap suc (length-hits ranks (suc i) n)

length-drop {ℓ} : {A : Type ℓ} (n : ℕ) (xs : List A) → length (drop n xs) ≡ length xs - n
length-drop zero xs = omega arith
length-drop (suc n) [] = omega arith
length-drop (suc n) (x ∷ xs) = omega (arith, length-drop n xs)

-- No test of the list.
abbrev pub misses : List ℕ → List Bool
misses tests = map (λ t. false) tests

trues-misses : (tests : List ℕ) → trues (misses tests) ≡ 0
trues-misses [] = refl
trues-misses (t ∷ tests) = omega (arith, trues-misses tests)

length-misses : (tests : List ℕ) → length (misses tests) ≡ length tests
length-misses [] = refl
length-misses (t ∷ tests) = ap suc (length-misses tests)

trues-append : (xs ys : List Bool) → trues (xs ++ ys) ≡ trues xs + trues ys
trues-append [] ys = omega arith
trues-append (x ∷ xs) ys = omega (arith, trues-append xs ys)

among-zero : (ranks : List ℕ) → among 1 0 ranks ≡ 0
among-zero [] = refl
among-zero (r ∷ ranks) = ground (arith, among-zero ranks)

effective-le :
    {V : Type 0} (top_k : ℕ) (use_time_budget : Bool) (m : Metric V) (prioritized : List ℕ)
    → effective top_k use_time_budget m prioritized ≤ length prioritized
effective-le top_k true m prioritized = omega arith
effective-le top_k false m prioritized = omega arith

module _ {W : Type 0} (num : Floats W) where
  map-worth-misses :
      (value : W) (tests : List ℕ) → zeros num tests ≡ map (worth num value) (misses tests)
  map-worth-misses value [] = refl
  map-worth-misses value (t ∷ tests) = ap (num.nought ∷◌) (map-worth-misses value tests)

  map-append : (f : Bool → W) (xs ys : List Bool) → map f (xs ++ ys) ≡ map f xs ++ map f ys
  map-append f [] ys = refl
  map-append f (x ∷ xs) ys = ap (f x ∷◌) (map-append f xs ys)

  -- Each test gets one over `k` or nothing, and `n` of them get something.
  abbrev pub IsRewarded : ℕ → ℕ → List ℕ → List W → Type 0
  IsRewarded k n tests rewards =
      (rewarded : List Bool) × (rewards ≡ map (worth num (num.over 1 k)) rewarded)
      × (length rewarded ≡ length tests)
      × (trues rewarded ≡ n)

  top-IsRewarded :
      (k : ℕ) (ranks tests : List ℕ)
      → k ≤ length tests
      → all_distinct ranks ≡ true
      → IsRewarded k
          (among 1 k ranks)
          tests
          (map (worth num (num.over 1 k)) (hits ranks 1 k) ++ zeros num (drop k tests))
  top-IsRewarded k ranks tests few distinct =
      let rest = drop k tests in
      let value = num.over 1 k in
      let long = length-append (hits ranks 1 k) (misses rest) in
      let none_there = length-misses rest in
      let some_there = length-hits ranks 1 k in
      let left = length-drop k tests in
      (
        hits ranks 1 k ++ misses rest,
        ap (λ ws. map (worth num value) (hits ranks 1 k) ++ ws) (map-worth-misses value rest)
            ∙ sym (map-append (worth num value) (hits ranks 1 k) (misses rest)),
        omega arith,
        omega (
          arith,
          trues-append (hits ranks 1 k) (misses rest),
          trues-misses rest,
          trues-hits ranks 1 k distinct,
        ),
      )

  -- For detection ranks without repetition, a top-k reward, with or without the time budget, gives
  -- each prioritized test either one divided by the effective k or nothing, and gives something to
  -- exactly as many tests as there are detection ranks from one to the effective k.
  pub top_k_rn_fail-IsRewarded :
      {V : Type 0} (top_k : ℕ) (use_time_budget : Bool) (m : Metric V) (prioritized : List ℕ)
      → all_distinct m.detection_ranks ≡ true
      → let k = effective top_k use_time_budget m prioritized in
        IsRewarded k
          (among 1 k m.detection_ranks)
          prioritized
          (top_k_rn_fail num top_k use_time_budget m prioritized)
  unfolding top_k_rn_fail
  top_k_rn_fail-IsRewarded top_k use_time_budget m prioritized distinct =
      let k = effective top_k use_time_budget m prioritized in
      elim (Bool-cases (k == 0)) [
        | inl empty ↦
            let none_left : k ≡ 0 = ground arith in
            rw empty (
              misses prioritized,
              map-worth-misses (num.over 1 k) prioritized,
              length-misses prioritized,
              trues-misses prioritized
                  ∙ sym (
                      ap (λ n. among 1 n m.detection_ranks) none_left
                      ∙ among-zero m.detection_ranks),
            )
        | inr more ↦ rw more (
            top-IsRewarded k m.detection_ranks prioritized
              (effective-le top_k use_time_budget m prioritized) distinct)
      ]
