-- ===== src/Resources/Containment.antt =====
-- Containment in `_Replay`: it is sticky, it covers every overrun and every negative balance, and
-- it blocks new reservations.
use coleman.Base.{
  ltb_ℤ, is_empty, not, ◌||◌, ℤ, List, ok-ne-err, ◌∷◌, ℕ, Bool, true, false, ◌≡◌, ◌≢◌, ◌⊎◌, ◌↔◌,
  inl, inr, refl, ◌≤ℤ◌, pos, [], Result, ok, err, >>=-eq-ok, arith, Result-cases,
}
use coleman.Resources.Contracts.{
  ResourceAmount, ResourceEvent, IntentEvent, ReserveEvent, OccupancyEvent, OverheadEvent,
}
use coleman.Resources.State.{Error, Attempt, Replay, reconciliation_failed}
use coleman.Resources.Replay.{
  live_attempt, declare_intent, charge_overhead, hold, reserve, occupy, occupy_checked, execution,
  execute_reserve, execute_occupancy, dispatch, settle, apply,
}
use coleman.Resources.Balance.{
  IsBalanced, reserve-inv, occupy_checked-inv, execution-inv, dispatch-IsBalanced, settle-settled,
  settled,
}

abbrev Keeps : Replay → Replay → Type 0
Keeps r r' = (r'.contained ≡ r.contained) × (r'.capacity ≡ r.capacity)

declare_intent-contained :
    (r : Replay) (e : IntentEvent) {r' : Replay} → declare_intent r e ≡ ok r' → Keeps r r'
unfolding declare_intent
declare_intent-contained r e h = ground arith

charge_overhead-contained :
    (r : Replay) (e : OverheadEvent) {r' : Replay} → charge_overhead r e ≡ ok r' → Keeps r r'
unfolding charge_overhead
charge_overhead-contained r e h = ground arith

reserve-contained :
    (r : Replay) (e : ReserveEvent) (a : Attempt) {r' : Replay} → reserve r e a ≡ ok r' → Keeps r r'
reserve-contained r e a h =
    let (same, _, _, _, _) = reserve-inv r e a h in unfold hold in rw same (refl, refl)

occupy_checked-contained :
    (r : Replay) (e : OccupancyEvent) (a : Attempt) {r' : Replay}
    → occupy_checked r e a a.reservation ≡ ok r'
    → Keeps r r'
occupy_checked-contained r e a h =
    let (s, _, same) = occupy_checked-inv r e a a.reservation h in
    unfold occupy in rw same (refl, refl)

execution-contained :
    (r : Replay) (id now : ℕ) (amount : ResourceAmount) (branch : Attempt → Result Error Replay)
    → ((a : Attempt) (s : Replay) → branch a ≡ ok s → Keeps r s)
    → {r' : Replay} → execution r id now amount branch ≡ ok r'
    → Keeps r r'
execution-contained r id now amount branch keep h =
    let (a, _, _, _, done) = execution-inv r id now amount branch h in keep a _ done

-- Every branch of `apply` leaves the flag alone, up to the final update.
dispatch-contained :
    (r : Replay) (e : ResourceEvent) {r' : Replay}
    → dispatch r e ≡ ok r'
    → (r'.contained ≡ r.contained) × (r'.capacity ≡ r.capacity)
unfolding dispatch
dispatch-contained r (ResourceEvent.intent e) h = declare_intent-contained r e h
dispatch-contained r (ResourceEvent.reserve e) h =
    unfold execute_reserve in
    execution-contained r _ _ _ (reserve r e) (λ a s k. reserve-contained r e a k) h
dispatch-contained r (ResourceEvent.occupancy e) h =
    unfold execute_occupancy in
    execution-contained r _ _ _ (λ (a : Attempt). occupy_checked r e a a.reservation)
      (λ a s k. occupy_checked-contained r e a k) h
dispatch-contained r (ResourceEvent.overhead e) h = charge_overhead-contained r e h

pub settle-inv : (d : Replay) {r' : Replay} → settle d ≡ ok r' → r' ≡ settled d
unfolding settle
settle-inv d h = ground arith

latch_iff :
    (c : Bool) (l : List ℕ) (a : ℤ)
    → ((c || not (is_empty l) || ltb_ℤ a (pos 0)) ≡ true) ↔ ((c ≡ true) ⊎ (l ≢ []) ⊎ ¬ (pos 0 ≤ℤ a))
latch_iff true l a = (λ _. inl refl, λ _. refl)
latch_iff false (x ∷ l) a = (λ _. inr (inl (λ e. cc)), λ _. refl)
latch_iff false [] a = (λ h. inr (inr (ground arith)), from_cases)
  where
    from_cases :
        (false ≡ true) ⊎ (◌≢◌ {A = List ℕ} [] []) ⊎ ¬ (pos 0 ≤ℤ a)
        → (false || not (is_empty {A = ℕ} []) || ltb_ℤ a (pos 0)) ≡ true
    from_cases (inl e) = cc
    from_cases (inr (inl n)) = absurd (n refl)
    from_cases (inr (inr n)) = ground arith

-- After an accepted event the ledger is contained exactly when it was before, or its list of overruns
-- is not empty, or the available balance is negative.
pub apply-contained :
    (r : Replay) (e : ResourceEvent) {r' : Replay}
    → apply r e ≡ ok r'
    → (r'.contained ≡ true)
      ↔ ((r.contained ≡ true) ⊎ (r'.overruns ≢ []) ⊎ ¬ (pos 0 ≤ℤ r'.available))
unfolding apply settle
apply-contained r e h =
    let (d, done, end_) = >>=-eq-ok (dispatch r e) settle h in
    let (kept, _) = dispatch-contained r e done in
    let same = settle-inv d end_ in rw (same, ← kept) (latch_iff d.contained d.overruns d.available)

contained-reserve :
    (r : Replay) (s : ReserveEvent) {r' : Replay}
    → r.contained ≡ true
    → apply r (ResourceEvent.reserve s) ≢ ok r'
unfolding apply dispatch execute_reserve
contained-reserve r s c h =
    let (d, done, _) = >>=-eq-ok (dispatch r (ResourceEvent.reserve s)) settle h in
    let (a, _, _, _, taken) = execution-inv r _ _ _ (reserve r s) done in
    let (_, _, free, _, _) = reserve-inv r s a taken in ground arith

-- A contained replay stays contained under every accepted event, and no reservation is accepted.
pub contained-sticky :
    (r : Replay) (e : ResourceEvent) {r' : Replay}
    → r.contained ≡ true
    → apply r e ≡ ok r'
    → (r'.contained ≡ true) × ((s : ReserveEvent) → e ≢ ResourceEvent.reserve s)
contained-sticky r e c h =
    ((apply-contained r e h).1 (inl c), λ s same. contained-reserve r s c (rw same at h))

reserve-ne :
    (r : Replay) (e : ReserveEvent) (a : Attempt) → reserve r e a ≢ err reconciliation_failed
unfolding reserve
reserve-ne r e a h = ground arith

execution-ne :
    (r : Replay) (id now : ℕ) (amount : ResourceAmount) (branch : Attempt → Result Error Replay)
    → ((a : Attempt) → branch a ≢ err reconciliation_failed)
    → execution r id now amount branch ≢ err reconciliation_failed
unfolding execution
execution-ne r id now amount branch ne h = elim (Result-cases (live_attempt r id now)) [
  | inl (a, found) ↦ let n = ne a in ground arith
  | inr (x, missing) ↦ ground arith
]

dispatch-ne : (r : Replay) (e : ResourceEvent) → dispatch r e ≢ err reconciliation_failed
unfolding dispatch declare_intent execute_reserve execute_occupancy charge_overhead
dispatch-ne r (ResourceEvent.intent e) h = ground arith
dispatch-ne r (ResourceEvent.reserve e) h = execution-ne r _ _ _ (reserve r e) (reserve-ne r e) h
dispatch-ne r (ResourceEvent.occupancy e) h =
    execution-ne r _ _ _ (λ (a : Attempt). occupy_checked r e a a.reservation) (λ a k. ground arith)
      h
dispatch-ne r (ResourceEvent.overhead e) h = ground arith

-- On a balanced replay no event raises "Resource reconciliation failed".
pub apply-reconciles :
    (r : Replay) (e : ResourceEvent) → IsBalanced r → apply r e ≢ err reconciliation_failed
unfolding apply
apply-reconciles r e v h = elim (Result-cases (dispatch r e)) [
  | inl (d, done) ↦
      let s = settle-settled d (dispatch-IsBalanced r e v done) in ok-ne-err (rw (done, s) at h)
  | inr (x, raised) ↦ let n = dispatch-ne r e in ground arith
]
