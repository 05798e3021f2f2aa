-- ===== src/Search/Selections.antt =====
-- Selections of the coverage search: exact cost, and the mandatory candidates.
use coleman.Base.{
  eq_self, Option-cases, ℕ, ◌+◌, ◌≤◌, ◌≡◌, refl, sym, ap, ◌∙◌, subst, inl, inr, Bool, true, false,
  ◌&&◌, Option, none, some, List, [], ◌∷◌, ◌++◌, arith, ltb, leb, ◌==◌, leb→le, Bool-cases, length,
  length-append, All, contains, Dict, lookup, sort_by, sort, insert_sorted, contains-sort,
  length-sort_by, id_key,
}
use coleman.Search.Mathematics.{total_of, SelectionValue, within}
use coleman.Search.Solver.{Prepared, extend, fits}

-- The modelled cost of some candidates.
abbrev pub cost_of : Dict ℕ → List ℕ → ℕ
cost_of costs [] = 0
cost_of costs (x ∷ xs) = (elim (lookup x costs) [ none ↦ 0 | some c ↦ c ]) + cost_of costs xs

abbrev pub Includes : List ℕ → List ℕ → Type 0
Includes required ids = All (λ r. contains r ids ≡ true) required

cost_of-insert_sorted :
    (costs : Dict ℕ) (x : ℕ) (xs : List ℕ)
    → cost_of costs (insert_sorted id_key x xs) ≡ cost_of costs (x ∷ xs)
unfolding insert_sorted
cost_of-insert_sorted costs x [] = refl
cost_of-insert_sorted costs x (y ∷ ys) = elim (Bool-cases (leb x y)) [
  | inl low ↦ rw (insert_sorted, low) refl
  | inr high ↦ rw (insert_sorted, high, cost_of-insert_sorted costs x ys) (omega arith)
]

cost_of-sort : (costs : Dict ℕ) (xs : List ℕ) → cost_of costs (sort xs) ≡ cost_of costs xs
unfolding sort_by
cost_of-sort costs [] = refl
cost_of-sort costs (x ∷ xs) =
    cost_of-insert_sorted costs x (sort xs)
    ∙ ap (λ n. (elim (lookup x costs) [ none ↦ 0 | some c ↦ c ]) + n) (cost_of-sort costs xs)

cost_of-snoc :
    (costs : Dict ℕ) (xs : List ℕ) (x c : ℕ)
    → lookup x costs ≡ some c
    → cost_of costs (xs ++ x ∷ []) ≡ cost_of costs xs + c
cost_of-snoc costs [] x c found = rw found (omega arith)
cost_of-snoc costs (y ∷ ys) x c found = omega (arith, cost_of-snoc costs ys x c found)

contains-snoc : (k x : ℕ) (xs : List ℕ) → contains k xs ≡ true → contains k (xs ++ x ∷ []) ≡ true
contains-snoc k x [] h = cc
contains-snoc k x (y ∷ ys) h = elim (Bool-cases (k == y)) [
  | inl same ↦ rw same refl
  | inr other ↦ rw (other, contains-snoc k x ys (rw other at h)) refl
]

Includes-extend :
    (required ids : List ℕ) (x : ℕ)
    → Includes required ids
    → Includes required (sort (ids ++ x ∷ []))
Includes-extend [] ids x h = tt
Includes-extend (r ∷ rs) ids x h =
    (contains-sort r (ids ++ x ∷ []) ∙ contains-snoc r x ids h.0, Includes-extend rs ids x h.1)

-- The cost is exact, and every mandatory candidate is there.
abbrev pub IsExact : Prepared → SelectionValue → Type 0
IsExact prep v =
    (v.cost ≡ cost_of prep.costs v.selected_ids) × Includes prep.required v.selected_ids

-- The budget and the cardinality hold as well.
abbrev pub IsFeasible : Prepared → SelectionValue → Type 0
IsFeasible prep v =
    IsExact prep v
    × (v.cost ≤ prep.budget)
    × (within prep.maximum_selected (length v.selected_ids) ≡ true)

pub extend-IsExact :
    (prep : Prepared) (v : SelectionValue) (name cost gain : ℕ)
    → IsExact prep v
    → lookup name prep.costs ≡ some cost
    → IsExact prep (extend v name cost gain)
extend-IsExact prep v name cost gain (exact, mandatory) found = (
  sym (
      cost_of-sort prep.costs (v.selected_ids ++ name ∷ [])
      ∙ cost_of-snoc prep.costs v.selected_ids name cost found
      ∙ ap (λ n. n + cost) (sym exact)),
  Includes-extend prep.required v.selected_ids name mandatory,
)

within-suc :
    (m : Option ℕ) (n : ℕ)
    → (elim m [ none ↦ true | some k ↦ ltb n k ]) ≡ true
    → within m (n + 1) ≡ true
within-suc none n h = refl
within-suc (some k) n h = ground arith

length-extend : (xs : List ℕ) (x : ℕ) → length (sort (xs ++ x ∷ [])) ≡ length xs + 1
length-extend xs x = length-sort_by id_key (xs ++ x ∷ []) ∙ length-append xs (x ∷ [])

pub and-true : (a b : Bool) → (a && b) ≡ true → (a ≡ true) × (b ≡ true)
and-true true true h = (refl, refl)
and-true true false h = cc
and-true false b h = cc

-- A candidate that fits keeps the selection feasible.
pub extend-IsFeasible :
    (prep : Prepared) (v : SelectionValue) (name cost gain : ℕ)
    → IsFeasible prep v
    → lookup name prep.costs ≡ some cost
    → fits prep v cost ≡ true
    → IsFeasible prep (extend v name cost gain)
extend-IsFeasible prep v name cost gain (exact, _, _) found fit =
    let (budget, room) = and-true (leb (v.cost + cost) prep.budget) _ fit in
    (
      extend-IsExact prep v name cost gain exact found,
      leb→le (v.cost + cost) prep.budget budget,
      subst (λ n. within prep.maximum_selected n ≡ true) (sym (length-extend v.selected_ids name))
          (within-suc prep.maximum_selected (length v.selected_ids) room),
    )

-- A sum that raises nothing is the cost.
pub total_of-cost_of :
    (costs : Dict ℕ) (xs : List ℕ) {n : ℕ} → total_of costs xs ≡ some n → n ≡ cost_of costs xs
total_of-cost_of costs [] h = cc
total_of-cost_of costs (x ∷ xs) h = elim (Option-cases (lookup x costs)) [
  | inl e ↦ absurd (none_ne_some (rw (e, total_of) at h))
  | inr (c, e) ↦ elim (Option-cases (total_of costs xs)) [
    | inl f ↦ absurd (none_ne_some (rw (e, total_of, f) at h))
    | inr (m, f) ↦
        let rest = total_of-cost_of costs xs f in
        let same : ◌≡◌ {A = Option ℕ} (some (c + m)) (some _) = rw (e, total_of, f) at h in
        rw e (omega (arith, rest, some_injective same))
  ]
]
  where
    none_ne_some : {m : ℕ} → ◌≡◌ {A = Option ℕ} none (some m) → ⊥
    none_ne_some k = cc

    some_injective : {k m : ℕ} → ◌≡◌ {A = Option ℕ} (some k) (some m) → k ≡ m
    some_injective k = cc

contains-cons : (k x : ℕ) (xs : List ℕ) → contains k xs ≡ true → contains k (x ∷ xs) ≡ true
contains-cons k x xs h = elim (Bool-cases (k == x)) [ inl e ↦ rw e refl | inr e ↦ rw (e, h) refl ]

Includes-cons :
    (required ids : List ℕ) (x : ℕ) → Includes required ids → Includes required (x ∷ ids)
Includes-cons [] ids x h = tt
Includes-cons (r ∷ rs) ids x h = (contains-cons r x ids h.0, Includes-cons rs ids x h.1)

pub Includes-refl : (ids : List ℕ) → Includes ids ids
Includes-refl [] = tt
Includes-refl (x ∷ xs) = (rw (eq_self x) refl, Includes-cons xs xs x (Includes-refl xs))
