-- ===== src/Resources/Selecting.antt =====
-- coleman/resources/selection.py: the predispatch selection of a ranked prefix.
pub mod Prefix
pub mod Complete
use coleman.Base.{
  all_distinct, ℕ, ◌+◌, ◌==◌, leb, ltb, ◌&&◌, ◌||◌, not, Bool, true, false, Option, none, some,
  List, [], ◌∷◌, ◌++◌, map, contains, Dict, lookup, insert, total, sort, sort_by, Result, ok, err,
  ◌>>=◌, ◌>>◌, raise_if, if◌then◌else◌,
}
use coleman.Resources.Contracts.{UnitSemantics, ResourceAmount, ResourceEstimate, same_semantics}

pub data PriorityStatus : Type 0 where
  available stale unavailable : PriorityStatus

pub data Fallback : Type 0 where
  no_action full_suite : Fallback

pub data Disposition : Type 0 where
  ranked_prefix full_suite_fallback nothing : Disposition

pub data Reason : Type 0 where
  eligible ineligible_estimate priority_fallback fallback_infeasible : Reason

pub data SelectError : Type 0 where
  bad_ranking bad_units key_error : SelectError

pub record TestEstimate : Type 0 where
  pub test_id : ℕ
  pub estimate : Option ResourceEstimate

pub record ResourceRequest : Type 0 where
  pub decision_id : ℕ
  pub configuration_fingerprint : ℕ
  pub decided_at : ℕ
  pub capacity : ResourceAmount
  pub tests : List TestEstimate
  pub ranking : List ℕ
  pub priority_status : PriorityStatus
  pub fallback : Fallback

pub record ResourceSelection : Type 0 where
  pub selected_ids : List ℕ
  pub estimated_units : ℕ
  pub semantics : UnitSemantics
  pub disposition : Disposition
  pub reason : Reason

-- `==` on two lists of identities.
abbrev pub same_ids : List ℕ → List ℕ → Bool
same_ids [] [] = true
same_ids (x ∷ xs) (y ∷ ys) = (x == y) && same_ids xs ys
same_ids _ _ = false

abbrev pub test_ids : List TestEstimate → List ℕ
test_ids = map (λ t. t.test_id)

abbrev pub compatible : ResourceAmount → Option ResourceEstimate → Bool
compatible capacity none = true
compatible capacity (some e) = same_semantics e.amount.semantics capacity.semantics

abbrev pub all_compatible : ResourceAmount → List TestEstimate → Bool
all_compatible capacity [] = true
all_compatible capacity (t ∷ ts) = compatible capacity t.estimate && all_compatible capacity ts

-- `ResourceRequest._universe`
unfoldable pub universe : ResourceRequest → Result SelectError ResourceRequest
universe r = do
  let ids = test_ids r.tests
  raise_if (not (all_distinct ids) || not (same_ids (sort ids) (sort r.ranking))) bad_ranking
  raise_if (not (all_compatible r.capacity r.tests)) bad_units
  ok (record r { tests = sort_by (λ t. t.test_id) r.tests })

-- `estimate is None or not available_at <= decided_at <= valid_until`
abbrev pub ineligible : ℕ → Option ResourceEstimate → Bool
ineligible now none = true
ineligible now (some e) = not (leb e.available_at now && leb now e.valid_until)

abbrev pub any_ineligible : ℕ → List TestEstimate → Bool
any_ineligible now [] = false
any_ineligible now (t ∷ ts) = ineligible now t.estimate || any_ineligible now ts

-- The dict `costs`: of the tests with an estimate, in their order.
abbrev pub add_cost : ℕ → Option ResourceEstimate → Dict ℕ → Dict ℕ
add_cost id none d = d
add_cost id (some e) d = insert id e.amount.value d

abbrev pub add_costs : List TestEstimate → Dict ℕ → Dict ℕ
add_costs [] d = d
add_costs (t ∷ ts) d = add_costs ts (add_cost t.test_id t.estimate d)

abbrev pub id_cost : ℕ → ℕ
id_cost c = c

abbrev pub total_cost : Dict ℕ → ℕ
total_cost = total id_cost

-- The last loop of `select_resources`: `selected` and `occupied` are its variables.
unfoldable pub fill : ℕ → Dict ℕ → List ℕ → List ℕ → ℕ → Result SelectError (List ℕ × ℕ)
fill capacity costs [] selected occupied = ok (selected, occupied)
fill capacity costs (t ∷ ts) selected occupied = elim (lookup t costs) [
  | none ↦ err key_error
  | some c ↦
      if ltb capacity (occupied + c)
      then ok (selected, occupied)
      else fill capacity costs ts (selected ++ t ∷ []) (occupied + c)
]

abbrev pub refusal : ResourceRequest → Reason → ResourceSelection
refusal r why = record {
  selected_ids = [];
  estimated_units = 0;
  semantics = r.capacity.semantics;
  disposition = nothing;
  reason = why;
}

abbrev pub has_priority : PriorityStatus → Bool
has_priority available = true
has_priority stale = false
has_priority unavailable = false

abbrev pub is_full : Fallback → Bool
is_full no_action = false
is_full full_suite = true

abbrev pub fallback_selection : ResourceRequest → Dict ℕ → ResourceSelection
fallback_selection r costs =
    if is_full r.fallback && leb (total_cost costs) r.capacity.value
    then record {
      selected_ids = r.ranking;
      estimated_units = total_cost costs;
      semantics = r.capacity.semantics;
      disposition = full_suite_fallback;
      reason = priority_fallback;
    }
    else refusal r fallback_infeasible

abbrev pub prefix_selection : ResourceRequest → List ℕ × ℕ → ResourceSelection
prefix_selection r (selected, occupied) = record {
  selected_ids = selected;
  estimated_units = occupied;
  semantics = r.capacity.semantics;
  disposition = ranked_prefix;
  reason = eligible;
}

-- `select_resources`, after the validation of the request.
unfoldable pub select_validated : ResourceRequest → Result SelectError ResourceSelection
select_validated r =
    if any_ineligible r.decided_at r.tests
    then ok (refusal r ineligible_estimate)
    else (let costs = add_costs r.tests [] in
        if has_priority r.priority_status
        then (do
          chosen ← fill r.capacity.value costs r.ranking [] 0
          ok (prefix_selection r chosen))
        else ok (fallback_selection r costs))

unfoldable pub select_resources : ResourceRequest → Result SelectError ResourceSelection
select_resources r = do select_validated (← universe r)
