-- ===== src/Resources/Selecting/Complete.antt =====
-- Every valid request gets a selection, and what each selection promises.
use mathlib.Core.List.{append-nil}
use coleman.Base.{
  ltb, ◌+◌, ℕ, ◌≤◌, ◌==◌, ◌||◌, ◌&&◌, true, false, ◌≡◌, ◌≢◌, refl, sym, ap, ◌∙◌, ◌⊎◌, inl, inr,
  Option, none, some, List, [], ◌∷◌, ◌++◌, contains, Dict, lookup, lookup-insert, ok, arith,
  Option-cases, Bool-cases, sort, sort_by, insert_sorted, contains-sort, leb,
}
use coleman.Resources.Selecting.{
  priority_fallback, full_suite_fallback, fallback_infeasible, is_full, total_cost,
  ineligible_estimate, Reason, refusal, ResourceEstimate, ResourceRequest, ResourceSelection,
  TestEstimate, fill, add_costs, add_cost, any_ineligible, ineligible, has_priority, test_ids,
  universe, select_validated, select_resources, same_ids, prefix_selection,
}
use coleman.Resources.Selecting.Prefix.{cost_of, CannotExtend, fill_lem}

abbrev Known : Dict ℕ → List ℕ → Type 0
Known costs ts = (t : ℕ) → contains t ts ≡ true → lookup t costs ≢ none

fill-total :
    (capacity : ℕ) (costs : Dict ℕ) (ts selected : List ℕ) (occupied : ℕ)
    → Known costs ts
    → (s : List ℕ) × (o : ℕ) × (fill capacity costs ts selected occupied ≡ ok (s, o))
unfolding fill
fill-total capacity costs [] selected occupied k = (selected, occupied, refl)
fill-total capacity costs (t ∷ ts) selected occupied k = elim (Option-cases (lookup t costs)) [
  | inl missing ↦ absurd (k t (ground arith) missing)
  | inr (c, found) ↦ elim (Bool-cases (ltb capacity (occupied + c))) [
    | inl full ↦ (selected, occupied, ground arith)
    | inr room ↦
        let (s, o, e) =
          fill-total capacity costs ts (selected ++ t ∷ []) (occupied + c)
            (λ u h. k u (ground arith)) in
        (s, o, rw (found, fill, room) e)
  ]
]

add_cost-covers :
    (k : ℕ) (o : Option ResourceEstimate) (d : Dict ℕ) (j : ℕ)
    → lookup k d ≢ none
    → lookup k (add_cost j o d) ≢ none
add_cost-covers k none d j h = h
add_cost-covers k (some e) d j h = ground (arith, lookup-insert j k e.amount.value d)

add_costs-keeps :
    (k : ℕ) (ts : List TestEstimate) (d : Dict ℕ)
    → lookup k d ≢ none
    → lookup k (add_costs ts d) ≢ none
add_costs-keeps k [] d h = h
add_costs-keeps k (t ∷ ts) d h =
    add_costs-keeps k ts (add_cost t.test_id t.estimate d)
      (add_cost-covers k t.estimate d t.test_id h)

add_cost-found :
    (now k j : ℕ) (o : Option ResourceEstimate) (d : Dict ℕ)
    → ineligible now o ≡ false
    → (k == j) ≡ true
    → lookup k (add_cost j o d) ≢ none
add_cost-found now k j none d h e = cc
add_cost-found now k j (some x) d h e = ground (arith, lookup-insert j k x.amount.value d)

-- With every estimate eligible, every test has a cost.
add_costs-covers :
    (now k : ℕ) (ts : List TestEstimate) (d : Dict ℕ)
    → any_ineligible now ts ≡ false
    → contains k (test_ids ts) ≡ true
    → lookup k (add_costs ts d) ≢ none
add_costs-covers now k [] d h c = cc
add_costs-covers now k (t ∷ ts) d h c = elim (Bool-cases (k == t.test_id)) [
  | inl here ↦
      add_costs-keeps k ts (add_cost t.test_id t.estimate d)
        (add_cost-found now k t.test_id t.estimate d (ground arith) here)
  | inr there ↦
      add_costs-covers now k ts (add_cost t.test_id t.estimate d) (ground arith) (ground arith)
]

same_ids-eq : (xs ys : List ℕ) → same_ids xs ys ≡ true → xs ≡ ys
same_ids-eq [] [] h = refl
same_ids-eq [] (y ∷ ys) h = cc
same_ids-eq (x ∷ xs) [] h = cc
same_ids-eq (x ∷ xs) (y ∷ ys) h = ground (arith, same_ids-eq xs ys)

abbrev by_id : TestEstimate → ℕ
by_id t = t.test_id

contains-insert_test :
    (k : ℕ) (t : TestEstimate) (ts : List TestEstimate)
    → contains k (test_ids (insert_sorted by_id t ts))
      ≡ ((k == t.test_id) || contains k (test_ids ts))
unfolding insert_sorted
contains-insert_test k t [] = refl
contains-insert_test k t (x ∷ ts) = ground (arith, contains-insert_test k t ts)

contains-sort_tests :
    (k : ℕ) (ts : List TestEstimate)
    → contains k (test_ids (sort_by by_id ts)) ≡ contains k (test_ids ts)
unfolding sort_by
contains-sort_tests k [] = refl
contains-sort_tests k (t ∷ ts) =
    contains-insert_test k t (sort_by by_id ts)
    ∙ ap (◌||◌ (k == t.test_id)) (contains-sort_tests k ts)

universe-same :
    (r : ResourceRequest) {v : ResourceRequest}
    → universe r ≡ ok v
    → v ≡ record r { tests = sort_by by_id r.tests }
unfolding universe
universe-same r h = ground arith

universe-ranked :
    (r : ResourceRequest) {v : ResourceRequest}
    → universe r ≡ ok v
    → same_ids (sort (test_ids r.tests)) (sort r.ranking) ≡ true
unfolding universe
universe-ranked r h = ground arith

-- A request that validation has accepted ranks exactly its tests.
pub universe-inv :
    (r : ResourceRequest) {v : ResourceRequest}
    → universe r ≡ ok v
    → (v ≡ record r { tests = sort_by by_id r.tests })
      × ((k : ℕ) → contains k v.ranking ≡ contains k (test_ids v.tests))
universe-inv r h =
    let same : _ ≡ record r { tests = sort_by by_id r.tests } = universe-same r h in
    let ids = test_ids r.tests in
    let ranked = same_ids-eq (sort ids) (sort r.ranking) (universe-ranked r h) in
    (
      same,
      λ k.
          ap (λ (u : ResourceRequest). contains k u.ranking) same
          ∙ sym (contains-sort k r.ranking)
          ∙ sym (ap (contains k) ranked)
          ∙ contains-sort k ids
          ∙ sym (contains-sort_tests k r.tests)
          ∙ sym (ap (λ (u : ResourceRequest). contains k (test_ids u.tests)) same),
    )

-- What a selection promises for a validated request: the selected tests are a prefix of the
-- ranking, and their estimate fits the capacity; where every estimate is eligible and the priority
-- is available, the estimate is the sum of their costs and the next test does not fit; where some
-- estimate is ineligible, nothing is selected.
pub record IsSelection (r : ResourceRequest) (s : ResourceSelection) : Type 0 where
  pub left : List ℕ
  pub prefix : s.selected_ids ++ left ≡ r.ranking
  pub fits : s.estimated_units ≤ r.capacity.value
  pub maximal :
      any_ineligible r.decided_at r.tests ≡ false
      → has_priority r.priority_status ≡ true
      → (s.estimated_units ≡ cost_of (add_costs r.tests []) s.selected_ids)
        × CannotExtend r.capacity.value (add_costs r.tests []) s.estimated_units left
  pub refused : any_ineligible r.decided_at r.tests ≡ true → s.selected_ids ≡ []

refusal-IsSelection :
    (r : ResourceRequest) (why : Reason)
    → (any_ineligible r.decided_at r.tests ≡ true) ⊎ (has_priority r.priority_status ≡ false)
    → IsSelection r (refusal r why)
refusal-IsSelection r why c = record {
  left = r.ranking;
  prefix = refl;
  fits = omega arith;
  maximal = λ a b. absurd (ground arith);
  refused = λ _. refl;
}

filled-IsSelection :
    (v : ResourceRequest) (s : List ℕ) (o : ℕ)
    → fill v.capacity.value (add_costs v.tests []) v.ranking [] 0 ≡ ok (s, o)
    → any_ineligible v.decided_at v.tests ≡ false
    → IsSelection v (prefix_selection v (s, o))
filled-IsSelection v s o filled all_good =
    let costs = add_costs v.tests [] in
    let (taken, left, split, same, units, under, stop) =
      fill_lem v.capacity.value costs v.ranking [] 0 s o (omega arith) filled in
    record {
      left = left;
      prefix = ap (λ (x : List ℕ). x ++ left) same ∙ split;
      fits = under;
      maximal = λ _ _. (let n = ap (cost_of costs) same in omega arith, stop);
      refused = λ bad. absurd (ground arith);
    }

abbrev everything : ResourceRequest → ResourceSelection
everything v = record {
  selected_ids = v.ranking;
  estimated_units = total_cost (add_costs v.tests []);
  semantics = v.capacity.semantics;
  disposition = full_suite_fallback;
  reason = priority_fallback;
}

everything-IsSelection :
    (v : ResourceRequest)
    → any_ineligible v.decided_at v.tests ≡ false
    → has_priority v.priority_status ≡ false
    → total_cost (add_costs v.tests []) ≤ v.capacity.value
    → IsSelection v (everything v)
everything-IsSelection v all_good fallback fits = record {
  left = [];
  prefix = append-nil v.ranking;
  fits = fits;
  maximal = λ _ p. absurd (ground arith);
  refused = λ bad. absurd (ground arith);
}

select_validated-IsSelection :
    (v : ResourceRequest)
    → ((k : ℕ) → contains k v.ranking ≡ contains k (test_ids v.tests))
    → (s : ResourceSelection) × (select_validated v ≡ ok s) × IsSelection v s
unfolding select_validated
select_validated-IsSelection v ranked = elim (Bool-cases (any_ineligible v.decided_at v.tests)) [
  | inl some_bad ↦
      (refusal v ineligible_estimate, rw some_bad, refusal-IsSelection v _ (inl some_bad))
  | inr all_good ↦ elim (Bool-cases (has_priority v.priority_status)) [
    | inl priority ↦
        let costs = add_costs v.tests [] in
        let known = λ (t : ℕ) (h : contains t v.ranking ≡ true).
          add_costs-covers v.decided_at t v.tests [] all_good (sym (ranked t) ∙ h) in
        let (s, o, filled) = fill-total v.capacity.value costs v.ranking [] 0 known in
        (
          prefix_selection v (s, o),
          rw (all_good, priority, filled),
          filled-IsSelection v s o filled all_good,
        )
    | inr fallback ↦
        elim (Bool-cases
          (is_full v.fallback && leb (total_cost (add_costs v.tests [])) v.capacity.value)) [
            | inl fits ↦ (
              everything v,
              rw (all_good, fallback, fits),
              everything-IsSelection v all_good fallback (ground arith),
            )
            | inr short ↦ (
              refusal v fallback_infeasible,
              rw (all_good, fallback, short),
              refusal-IsSelection v _ (inr fallback),
            )
          ]
  ]
]

-- Every request that validation accepts gets a selection: its tests are a prefix of the ranking
-- and their estimate fits the capacity; where every estimate is eligible and the priority is
-- available, the estimate is the sum of their costs and the next test does not fit; where some
-- estimate is ineligible, nothing is selected.
pub select_resources-IsSelection :
    (r : ResourceRequest) {v : ResourceRequest}
    → universe r ≡ ok v
    → (s : ResourceSelection) × (select_resources r ≡ ok s) × IsSelection v s
unfolding select_resources
select_resources-IsSelection r {v} h =
    let (s, chosen, good) = select_validated-IsSelection v (universe-inv r h).1 in
    (s, rw (h, chosen), good)
