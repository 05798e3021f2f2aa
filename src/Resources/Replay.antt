-- ===== src/Resources/Replay.antt =====
-- `_Replay` of coleman/resources/ledger.py: the linear accumulator of a ledger's events. A call
-- that raises discards the object, so a raise carries no state.
use coleman.Base.{
  ℕ, ◌+◌, ◌-◌, min, leb, ltb, ◌&&◌, ◌||◌, not, Bool, true, false, Option, none, some, List, [], ◌∷◌,
  is_empty, add_to_set, lookup, insert, has_key, Result, ok, err, ◌>>=◌, ◌>>◌, raise_if,
  if◌then◌else◌, pos, ◌+ℤ◌, ◌-ℤ◌, ltb_ℤ, eq_ℤ,
}
use coleman.Resources.State.{
  Error, Attempt, Replay, incompatible_units, reconciliation_failed, already_declared,
  stale_at_decision, retry_not_terminal, bad_execution, no_reservation, already_reserved,
  contained_error, stale_before_reservation, unfit_reservation,
}
use coleman.Resources.Contracts.{
  ResourceAmount, ResourceEvent, OverheadEvent, IntentEvent, ReserveEvent, OccupancyEvent, Outcome,
  same_semantics, same_amount,
}

-- `_units`
abbrev pub check_units : Replay → ResourceAmount → Result Error (Unit {0})
check_units r amount =
    raise_if (not (same_semantics amount.semantics r.capacity.semantics)) incompatible_units

-- `attempt.last_event_at or attempt.intent.event_at`: a timestamp is always true.
abbrev pub latest : Attempt → ℕ
latest a = elim a.last_event_at [ none ↦ a.intent.info.event_at | some t ↦ t ]

abbrev pub fresh_attempt : IntentEvent → Attempt
fresh_attempt e = record {
  intent = e;
  reservation = none;
  consumed = 0;
  remaining = 0;
  terminal = false;
  last_event_at = none;
}

-- The three disjuncts on the parent of a retry.
abbrev pub retry_refused : IntentEvent → Option Attempt → Bool
retry_refused e none = true
retry_refused e (some parent) = not parent.terminal || ltb e.info.event_at (latest parent)

abbrev pub check_retry : Replay → IntentEvent → Option ℕ → Result Error (Unit {0})
check_retry r e none = ok tt
check_retry r e (some p) = raise_if (retry_refused e (lookup p r.attempts)) retry_not_terminal

unfoldable pub declare_intent : Replay → IntentEvent → Result Error Replay
declare_intent r e = do
  check_units r e.estimate.amount
  raise_if (has_key e.execution_id r.attempts) already_declared
  raise_if
      (not
        (leb e.estimate.available_at e.info.event_at && leb e.info.event_at e.estimate.valid_until))
      stale_at_decision
  check_retry r e e.retry_of
  ok (record r { attempts = insert e.execution_id (fresh_attempt e) r.attempts })

-- `_reserve`
abbrev pub has_reservation : Attempt → Bool
has_reservation a = elim a.reservation [ none ↦ false | some _ ↦ true ]

-- What `_reserve` writes, after its checks.
unfoldable pub hold : Replay → ReserveEvent → Attempt → Replay
hold r e a =
    let a' : Attempt = record a {
      remaining = e.amount.value;
      reservation = some e;
      last_event_at = some e.info.event_at;
    } in
    record r {
      available = r.available -ℤ pos e.amount.value;
      reserved = r.reserved +ℤ pos e.amount.value;
      attempts = insert e.execution_id a' r.attempts;
    }

unfoldable pub reserve : Replay → ReserveEvent → Attempt → Result Error Replay
reserve r e a = do
  raise_if (has_reservation a) already_reserved
  raise_if r.contained contained_error
  raise_if (ltb a.intent.estimate.valid_until e.info.event_at) stale_before_reservation
  raise_if
      (not (same_amount e.amount a.intent.estimate.amount)
        || ltb_ℤ r.available (pos e.amount.value))
      unfit_reservation
  ok (hold r e a)

abbrev pub ends : Option Outcome → Bool
ends o = elim o [ none ↦ false | some _ ↦ true ]

-- The occupancy branch of `_execution`, once the attempt and its reservation are known.
unfoldable pub occupy : Replay → OccupancyEvent → Attempt → ReserveEvent → Replay
occupy r e a reservation =
    let amount = e.amount.value in
    let used = min a.remaining amount in
    let left = a.remaining - used in
    let available = r.available -ℤ pos (amount - used) in
    let reserved = r.reserved -ℤ pos used in
    let consumed = a.consumed + amount in
    let done = ends e.terminal in
    let a' : Attempt = record a {
      last_event_at = some e.info.event_at;
      remaining = if done then 0 else left;
      consumed = consumed;
      terminal = if done then true else a.terminal;
    } in
    record r {
      available = if done then available +ℤ pos left else available;
      reserved = if done then reserved -ℤ pos left else reserved;
      consumed = r.consumed + amount;
      work = r.work + amount;
      attempts = insert e.execution_id a' r.attempts;
      overruns =
          if ltb reservation.amount.value consumed
          then add_to_set e.execution_id r.overruns
          else r.overruns;
    }

abbrev pub occupy_checked :
    Replay → OccupancyEvent → Attempt → Option ReserveEvent → Result Error Replay
occupy_checked r e a none = err no_reservation
occupy_checked r e a (some reservation) = do
  raise_if (ltb e.info.event_at reservation.info.event_at) no_reservation
  ok (occupy r e a reservation)

-- The attempt that `_execution` looks up and checks.
abbrev pub live_attempt : Replay → ℕ → ℕ → Result Error Attempt
live_attempt r id now = elim (lookup id r.attempts) [
  | none ↦ err bad_execution
  | some a ↦ if a.terminal || ltb now (latest a) then err bad_execution else ok a
]

-- The part of `_execution` that both kinds of event share, up to the branch on the kind.
unfoldable pub execution :
    Replay → ℕ → ℕ → ResourceAmount → (Attempt → Result Error Replay) → Result Error Replay
execution r id now amount branch = do check_units r amount; a ← live_attempt r id now; branch a

unfoldable pub execute_reserve : Replay → ReserveEvent → Result Error Replay
execute_reserve r e = execution r e.execution_id e.info.event_at e.amount (reserve r e)

unfoldable pub execute_occupancy : Replay → OccupancyEvent → Result Error Replay
execute_occupancy r e =
    execution r e.execution_id e.info.event_at e.amount (λ a. occupy_checked r e a a.reservation)

-- The `OverheadEvent` branch of `apply`.
unfoldable pub charge_overhead : Replay → OverheadEvent → Result Error Replay
charge_overhead r e = do
  check_units r e.amount
  ok (record r {
    available = r.available -ℤ pos e.amount.value;
    consumed = r.consumed + e.amount.value;
    overhead = r.overhead + e.amount.value;
  })

unfoldable pub dispatch : Replay → ResourceEvent → Result Error Replay
dispatch r (ResourceEvent.intent e) = declare_intent r e
dispatch r (ResourceEvent.reserve e) = execute_reserve r e
dispatch r (ResourceEvent.occupancy e) = execute_occupancy r e
dispatch r (ResourceEvent.overhead e) = charge_overhead r e

-- The end of `apply`: containment is latched, and the balance is reconciled.
unfoldable pub settle : Replay → Result Error Replay
settle r = do
  let r' : Replay = record r {
    contained = r.contained || not (is_empty r.overruns) || ltb_ℤ r.available (pos 0);
  }
  raise_if (not (eq_ℤ (pos r.capacity.value) (r.available +ℤ r.reserved +ℤ pos r.consumed)))
      reconciliation_failed
  ok r'

unfoldable pub apply : Replay → ResourceEvent → Result Error Replay
apply r e = do settle (← dispatch r e)

-- The loop of `ResourceLedger.balance` over the validated events.
unfoldable pub apply_all : Replay → List ResourceEvent → Result Error Replay
apply_all r [] = ok r
apply_all r (e ∷ es) = do apply_all (← apply r e) es
