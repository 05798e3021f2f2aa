-- ===== src/Allocation/Ties.antt =====
-- Maxima of utilities, their ties, and the feasible rows.
use coleman.Base.{subst, ◌≤ℤ◌, sym}
use coleman.Allocation.Choosing.{feasible_rows, ties, minimum}
use coleman.Base.{
  ℕ, ◌≤◌, min, ◌≡◌, refl, sym, ap, ◌∙◌, ◌⊎◌, inl, inr, true, false, ◌==◌, ltb_ℤ, eq_ℤ, eq_of_eq_ℤ,
  eq_ℤ_of_eq, is_empty, contains, Bool-cases,
}
use coleman.Base.{◌≤ℤ◌, List, [], ◌∷◌, arith, All, ℤ}
use coleman.Allocation.Forecasts.{ActionEvaluation}
use coleman.Allocation.Choosing.{row_key, max_ℤ, feasible_rows, maximum, ties, minimum}

-- The maximum bounds every utility, and the first value.
pub maximum-All :
    (z : ℤ) (rows : List ActionEvaluation)
    → (z ≤ℤ maximum z rows) × All (λ e. e.forecast.utility ≤ℤ maximum z rows) rows
maximum-All z [] = (omega arith, tt)
maximum-All z (e ∷ rows) =
    let (first, others) = maximum-All (max_ℤ z e.forecast.utility) rows in
    (ground (arith, first), (ground (arith, first), others))

pub tied :
    (e : ActionEvaluation) (rows : List ActionEvaluation) (top : ℤ)
    → e.forecast.utility ≡ top
    → is_empty (ties top (e ∷ rows)) ≡ false
tied e rows top h = rw (eq_ℤ_of_eq e.forecast.utility top h) refl

pub tied_later :
    (e : ActionEvaluation) (rows : List ActionEvaluation) (top : ℤ)
    → is_empty (ties top rows) ≡ false
    → is_empty (ties top (e ∷ rows)) ≡ false
tied_later e rows top h = elim (Bool-cases (eq_ℤ e.forecast.utility top)) [
  | inl same ↦ rw same refl
  | inr other ↦ rw other h
]

differs : (a b : ℤ) → a ≡ b → eq_ℤ a b ≡ false → ⊥
differs a b same other = let equal = eq_ℤ_of_eq a b same in ground (arith, equal, other)

-- Some row has the maximum, or the first value is it.
pub maximum-ties :
    (z : ℤ) (rows : List ActionEvaluation)
    → (maximum z rows ≡ z) ⊎ (is_empty (ties (maximum z rows) rows) ≡ false)
maximum-ties z [] = inl refl
maximum-ties z (e ∷ rows) = elim (maximum-ties (max_ℤ z e.forecast.utility) rows) [
  | inl same ↦ elim (Bool-cases (ltb_ℤ z e.forecast.utility)) [
    | inl less ↦
        let mine : maximum (max_ℤ z e.forecast.utility) rows ≡ e.forecast.utility =
          same ∙ rw less refl in
        inr (tied e rows _ (sym mine))
    | inr more ↦ inl (same ∙ rw more refl)
  ]
  | inr later ↦ inr (tied_later e rows _ later)
]

-- A row of a list.
abbrev pub Listed : ActionEvaluation → List ActionEvaluation → Type 0
Listed e [] = ⊥
Listed e (x ∷ xs) = (e ≡ x) ⊎ Listed e xs

pub ties-Listed :
    (k : ℕ) (top : ℤ) (rows : List ActionEvaluation)
    → contains k (ties top rows) ≡ true
    → (e : ActionEvaluation) × Listed e rows × (e.forecast.utility ≡ top) × (row_key e ≡ k)
ties-Listed k top [] h = cc
ties-Listed k top (x ∷ rows) h = elim (Bool-cases (eq_ℤ x.forecast.utility top)) [
  | inl same ↦ elim (Bool-cases (k == row_key x)) [
    | inl hit ↦ (x, inl refl, eq_of_eq_ℤ x.forecast.utility top same, ground (arith, hit))
    | inr miss ↦
        let later : contains k (ties top rows) ≡ true = ground (arith, h, same, miss) in
        let (e, listed, u, key) = ties-Listed k top rows later in (e, inr listed, u, key)
  ]
  | inr other ↦
      let later : contains k (ties top rows) ≡ true = ground (arith, h, other) in
      let (e, listed, u, key) = ties-Listed k top rows later in (e, inr listed, u, key)
]

pub ties-All :
    (P : ℕ → Type 0) (top : ℤ) (rows : List ActionEvaluation)
    → All P (ties top rows)
    → All (λ e. e.forecast.utility ≡ top → P (row_key e)) rows
ties-All P top [] h = tt
ties-All P top (x ∷ rows) h = elim (Bool-cases (eq_ℤ x.forecast.utility top)) [
  | inl same ↦ let k = rw same at h in (λ _. k.0, ties-All P top rows k.1)
  | inr other ↦
      (λ u. absurd (differs x.forecast.utility top u other), ties-All P top rows (rw other at h))
]

pub minimum-All : (n : ℕ) (ks : List ℕ) → (minimum n ks ≤ n) × All (λ k. minimum n ks ≤ k) ks
minimum-All n [] = (omega arith, tt)
minimum-All n (k ∷ ks) =
    let (first, others) = minimum-All (min n k) ks in
    (omega (arith, first), (omega (arith, first), others))

pub minimum-contains :
    (n : ℕ) (ks : List ℕ) → (minimum n ks ≡ n) ⊎ (contains (minimum n ks) ks ≡ true)
minimum-contains n [] = inl refl
minimum-contains n (k ∷ ks) = let ih = minimum-contains (min n k) ks in ground (arith, ih)

feasible_rows-cases :
    (x : ActionEvaluation) (completed : List ActionEvaluation)
    → ((x.feasible ≡ true) × (feasible_rows (x ∷ completed) ≡ x ∷ feasible_rows completed))
      ⊎ ((x.feasible ≡ false) × (feasible_rows (x ∷ completed) ≡ feasible_rows completed))
feasible_rows-cases x completed = ground arith

pub feasible_rows-Listed :
    (e : ActionEvaluation) (completed : List ActionEvaluation)
    → Listed e (feasible_rows completed)
    → Listed e completed × (e.feasible ≡ true)
feasible_rows-Listed e [] h = elim h [ ]
feasible_rows-Listed e (x ∷ completed) h = elim (feasible_rows-cases x completed) [
  | inl (fits, list) ↦ elim (subst (Listed e) list h) [
    | inl same ↦ (inl same, ap (λ r. r.feasible) same ∙ fits)
    | inr later ↦ let (listed, f) = feasible_rows-Listed e completed later in (inr listed, f)
  ]
  | inr (fails, list) ↦
      let (listed, f) = feasible_rows-Listed e completed (subst (Listed e) list h) in
      (inr listed, f)
]

pub feasible_rows-All :
    (P : ActionEvaluation → Type 0) (completed : List ActionEvaluation)
    → All P (feasible_rows completed)
    → All (λ e. e.feasible ≡ true → P e) completed
feasible_rows-All P [] h = tt
feasible_rows-All P (x ∷ completed) h = elim (feasible_rows-cases x completed) [
  | inl (fits, list) ↦ let k = subst (All P) list h in (λ _. k.0, feasible_rows-All P completed k.1)
  | inr (fails, list) ↦
      (λ f. absurd (ground (arith, f, fails)), feasible_rows-All P completed (subst (All P) list h))
]
