-- ===== src/Resources/Balance.antt =====
-- The accounting identity of `_Replay`: every branch of `apply` keeps it, so that the
-- reconciliation check at the end of `apply` never raises.
use coleman.Base.{
  subst, ok-injective, ◌∙◌, sym, eq_ℤ_of_eq, ℕ, ◌+◌, ◌-◌, min, ap, ◌≡◌, ◌≤◌, refl, inl, inr, true,
  false, Option, none, some, ◌||◌, not, lookup, insert, arith, Result, ok, >>=-eq-ok, ◌>>=◌,
  is_empty, Option-cases, pos, ◌+ℤ◌, ◌≤ℤ◌, ltb_ℤ, int_laws, total-insert, total-insert_new,
  lookup-AllValues, insert-AllValues, pos_part, neg_part,
}
use coleman.Resources.Contracts.{
  ResourceAmount, ResourceEvent, OverheadEvent, IntentEvent, ReserveEvent, OccupancyEvent,
}
use coleman.Resources.State.{Error, Attempt, Replay, init}
use coleman.Resources.Replay.{
  declare_intent, hold, occupy_checked, reserve, occupy, has_reservation, execute_reserve,
  execute_occupancy, charge_overhead, dispatch, settle, apply, fresh_attempt, live_attempt, latest,
  execution, check_units,
}
use coleman.Resources.Attempts.{total_remaining, total_consumed, IsSound, AllSound}

-- Capacity is what is available, reserved and consumed; the reservations and the consumption are
-- those of the attempts and the overhead.
pub record IsBalanced (r : Replay) : Type 0 where
  pub reconciled : pos r.capacity.value ≡ r.available +ℤ r.reserved +ℤ pos r.consumed
  pub held : r.reserved ≡ pos (total_remaining r.attempts)
  pub used : r.work ≡ total_consumed r.attempts
  pub charged : r.consumed ≡ r.work + r.overhead
  pub sound : AllSound r.attempts

pub init-IsBalanced : (c : ResourceAmount) → IsBalanced (init c)
unfolding init ◌+ℤ◌
init-IsBalanced c = record {
  reconciled = ground arith;
  held = refl;
  used = refl;
  charged = omega arith;
  sound = tt;
}

declare_intent-IsBalanced :
    (r : Replay) (e : IntentEvent) {r' : Replay}
    → IsBalanced r
    → declare_intent r e ≡ ok r'
    → IsBalanced r'
unfolding declare_intent
declare_intent-IsBalanced r e v h =
    let id = e.execution_id in
    let a = fresh_attempt e in
    ground (
      arith,
      total-insert_new (λ (b : Attempt). b.remaining) id a r.attempts,
      total-insert_new (λ (b : Attempt). b.consumed) id a r.attempts,
      insert-AllValues IsSound id a r.attempts v.sound,
    )

charge_overhead-IsBalanced :
    (r : Replay) (e : OverheadEvent) {r' : Replay}
    → IsBalanced r
    → charge_overhead r e ≡ ok r'
    → IsBalanced r'
unfolding charge_overhead
charge_overhead-IsBalanced r e v h = grind int_laws

-- What an execution event that was accepted has found: a declared attempt that is not terminal,
-- and no later than the event.
pub execution-inv :
    (r : Replay) (id now : ℕ) (amount : ResourceAmount) (branch : Attempt → Result Error Replay)
    {r' : Replay}
    → execution r id now amount branch ≡ ok r'
    → (a : Attempt) × (lookup id r.attempts ≡ some a)
      × (a.terminal ≡ false)
      × (latest a ≤ now)
      × (branch a ≡ ok r')
unfolding execution
execution-inv r id now amount branch h =
    let (_, _, rest) = >>=-eq-ok (check_units r amount) (λ _. live_attempt r id now >>= branch) h in
    let (a, live, done) = >>=-eq-ok (live_attempt r id now) branch rest in
    (a, ground arith, ground arith, ground arith, done)

-- What a reservation that was accepted has checked.
pub reserve-inv :
    (r : Replay) (e : ReserveEvent) (a : Attempt) {r' : Replay}
    → reserve r e a ≡ ok r'
    → (r' ≡ hold r e a)
      × (has_reservation a ≡ false)
      × (r.contained ≡ false)
      × (e.amount.value ≡ a.intent.estimate.amount.value)
      × (pos e.amount.value ≤ℤ r.available)
unfolding reserve
reserve-inv r e a h = ground arith

pub occupy_checked-inv :
    (r : Replay) (e : OccupancyEvent) (a : Attempt) (o : Option ReserveEvent) {r' : Replay}
    → occupy_checked r e a o ≡ ok r'
    → (s : ReserveEvent) × (o ≡ some s) × (r' ≡ occupy r e a s)
occupy_checked-inv r e a none h = cc
occupy_checked-inv r e a (some s) h = (s, refl, ground arith)

module _ (r : Replay) (v : IsBalanced r) where
  reconciled_parts :
      (r.capacity.value + neg_part r.available + neg_part r.reserved
        ≡ pos_part r.available + pos_part r.reserved + r.consumed)
      × (pos_part r.reserved ≡ total_remaining r.attempts)
      × (neg_part r.reserved ≡ 0)
  reconciled_parts =
      let p = ap pos_part v.reconciled in
      let n = ap neg_part v.reconciled in
      let hp = ap pos_part v.held in let hn = ap neg_part v.held in (omega int_laws, hp, hn)

module _ (r : Replay) (v : IsBalanced r) (a : Attempt) where
  -- Writing `a'` in the place of `a` moves both sums by the difference.
  module _ (id : ℕ) (found : lookup id r.attempts ≡ some a) where
    replaced :
        (a' : Attempt)
        → (total_remaining (insert id a' r.attempts) + a.remaining
            ≡ total_remaining r.attempts + a'.remaining)
          × (total_consumed (insert id a' r.attempts) + a.consumed
              ≡ total_consumed r.attempts + a'.consumed)
    replaced a' = (
      total-insert (λ (b : Attempt). b.remaining) id a' a r.attempts found,
      total-insert (λ (b : Attempt). b.consumed) id a' a r.attempts found,
    )

    replaced-AllSound : (a' : Attempt) → IsSound a' → AllSound (insert id a' r.attempts)
    replaced-AllSound a' s = insert-AllValues IsSound id a' r.attempts v.sound s

    found-IsSound : IsSound a
    found-IsSound = lookup-AllValues IsSound id a r.attempts v.sound found

  hold-IsBalanced :
      (e : ReserveEvent)
      → lookup e.execution_id r.attempts ≡ some a
      → a.terminal ≡ false
      → has_reservation a ≡ false
      → IsBalanced (hold r e a)
  unfolding hold
  hold-IsBalanced e found live unheld =
      let sound = found-IsSound e.execution_id found in
      let a' : Attempt = record a {
        remaining = e.amount.value;
        reservation = some e;
        last_event_at = some e.info.event_at;
      } in
      let sums = replaced e.execution_id found a' in
      let parts = reconciled_parts r v in
      let used = v.used in
      let empty : a.remaining ≡ 0 = ground arith in
      record {
        reconciled = omega int_laws;
        held = omega int_laws;
        used = omega arith;
        charged = v.charged;
        sound = replaced-AllSound e.execution_id found a' (inl live, inl refl);
      }

  occupy-IsBalanced :
      (e : OccupancyEvent) (s : ReserveEvent)
      → lookup e.execution_id r.attempts ≡ some a
      → a.terminal ≡ false
      → has_reservation a ≡ true
      → IsBalanced (occupy r e a s)
  unfolding occupy
  occupy-IsBalanced e s found live reserved =
      let id = e.execution_id in
      let parts = reconciled_parts r v in
      let used = v.used in
      let charged = v.charged in
      let going : Attempt = record a {
        last_event_at = some e.info.event_at;
        remaining = a.remaining - min a.remaining e.amount.value;
        consumed = a.consumed + e.amount.value;
      } in
      let over : Attempt = record going { remaining = 0; terminal = true } in
      elim (Option-cases e.terminal) [
        | inl more ↦
            let sums = replaced id found going in
            rw more (record {
              reconciled = omega int_laws;
              held = omega int_laws;
              used = omega arith;
              charged = omega arith;
              sound = replaced-AllSound id found going (inl live, inl reserved);
            })
        | inr (o, last) ↦
            let sums = replaced id found over in
            rw last (record {
              reconciled = omega int_laws;
              held = omega int_laws;
              used = omega arith;
              charged = omega arith;
              sound = replaced-AllSound id found over (inr refl, inl reserved);
            })
      ]

execute_reserve-IsBalanced :
    (r : Replay) (e : ReserveEvent) {r' : Replay}
    → IsBalanced r
    → execute_reserve r e ≡ ok r'
    → IsBalanced r'
unfolding execute_reserve
execute_reserve-IsBalanced r e v h =
    let (a, found, live, _, done) = execution-inv r _ _ _ (reserve r e) h in
    let (same, unheld, _, _, _) = reserve-inv r e a done in
    rw same (hold-IsBalanced r v a e found live unheld)

execute_occupancy-IsBalanced :
    (r : Replay) (e : OccupancyEvent) {r' : Replay}
    → IsBalanced r
    → execute_occupancy r e ≡ ok r'
    → IsBalanced r'
unfolding execute_occupancy
execute_occupancy-IsBalanced r e v h =
    let branch = λ (a : Attempt). occupy_checked r e a a.reservation in
    let (a, found, live, _, done) = execution-inv r _ _ _ branch h in
    let (s, reserved, same) = occupy_checked-inv r e a a.reservation done in
    rw same (occupy-IsBalanced r v a e s found live (ground arith))

pub dispatch-IsBalanced :
    (r : Replay) (e : ResourceEvent) {r' : Replay}
    → IsBalanced r
    → dispatch r e ≡ ok r'
    → IsBalanced r'
unfolding dispatch
dispatch-IsBalanced r (ResourceEvent.intent e) v h = declare_intent-IsBalanced r e v h
dispatch-IsBalanced r (ResourceEvent.reserve e) v h = execute_reserve-IsBalanced r e v h
dispatch-IsBalanced r (ResourceEvent.occupancy e) v h = execute_occupancy-IsBalanced r e v h
dispatch-IsBalanced r (ResourceEvent.overhead e) v h = charge_overhead-IsBalanced r e v h

-- The end of `apply`: what it sets, and when it raises.
abbrev pub settled : Replay → Replay
settled r = record r {
  contained = r.contained || not (is_empty r.overruns) || ltb_ℤ r.available (pos 0);
}

settled-IsBalanced : (r : Replay) → IsBalanced r → IsBalanced (settled r)
settled-IsBalanced r v = record {
  reconciled = v.reconciled;
  held = v.held;
  used = v.used;
  charged = v.charged;
  sound = v.sound;
}

pub settle-settled : (r : Replay) → IsBalanced r → settle r ≡ ok (settled r)
unfolding settle
settle-settled r v = rw (eq_ℤ_of_eq _ _ v.reconciled)

-- From a balanced replay an accepted event leads to a balanced replay: capacity equals available
-- plus reserved plus consumed, what is reserved is what the attempts still hold, the work is what
-- the attempts have used, consumption is work plus overhead, and a terminal attempt holds nothing.
pub apply-IsBalanced :
    (r : Replay) (e : ResourceEvent) {r' : Replay}
    → IsBalanced r
    → apply r e ≡ ok r'
    → IsBalanced r'
unfolding apply
apply-IsBalanced r e v h =
    let (d, done, end_) = >>=-eq-ok (dispatch r e) settle h in
    let vd = dispatch-IsBalanced r e v done in
    let same : ok (settled d) ≡ ok _ = sym (settle-settled d vd) ∙ end_ in
    subst IsBalanced (ok-injective same) (settled-IsBalanced d vd)
