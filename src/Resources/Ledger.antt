-- ===== src/Resources/Ledger.antt =====
-- `ResourceLedger` of coleman/resources/ledger.py: the validated audit log.
pub mod Canonical
pub mod Append
pub mod Log
pub mod Deliveries
use coleman.Base.{
  not, ℕ, ◌+◌, ◌==◌, ltb, Bool, true, false, Option, none, some, List, [], ◌∷◌, ◌++◌, length,
  Result, ok, err, ◌>>=◌, ◌>>◌, raise_if, if◌then◌else◌, ite,
}
use coleman.Resources.Contracts.{ResourceAmount, ResourceEvent, metadata, same_content}
use coleman.Resources.State.{Error, Replay, init}
use coleman.Resources.Replay.{apply, apply_all}

pub data LedgerError : Type 0 where
  too_many_deliveries conflicting_event sequence_gap receipt_order : LedgerError
  replay_error : Error → LedgerError

pub record ResourceLedger : Type 0 where
  pub ledger_id : ℕ
  pub source_fingerprint : ℕ
  pub configuration_fingerprint : ℕ
  pub capacity : ResourceAmount
  pub events : List ResourceEvent

-- The variables of the loop of `_verified`. The dict `seen` maps an id to the content of the
-- accepted event with that id; it is read off `unique`, which holds the same events.
pub record Scan : Type 0 where
  pub unique : List ResourceEvent
  pub previous : Option ResourceEvent
  pub replay : Replay

-- `seen.get(event_id)`
abbrev pub seen : ℕ → List ResourceEvent → Option ResourceEvent
seen id [] = none
seen id (e ∷ es) = if id == (metadata e).event_id then some e else seen id es

abbrev pub lift : Result Error Replay → Result LedgerError Replay
lift (ok r) = ok r
lift (err e) = err (replay_error e)

-- `previous is not None and event.recorded_at < previous.recorded_at`
abbrev pub out_of_order : ResourceEvent → Option ResourceEvent → Bool
out_of_order e none = false
out_of_order e (some p) = ltb (metadata e).recorded_at (metadata p).recorded_at

abbrev pub admit : Scan → ResourceEvent → Result LedgerError Scan
admit s e = do
  raise_if (not ((metadata e).sequence == length s.unique + 1)) sequence_gap
  raise_if (out_of_order e s.previous) receipt_order
  r ← lift (apply s.replay e)
  ok (record { unique = s.unique ++ e ∷ []; previous = some e; replay = r })

-- The body of the loop of `_verified`.
unfoldable pub scan_event : Scan → ResourceEvent → Result LedgerError Scan
scan_event s e = elim (seen (metadata e).event_id s.unique) [
  | none ↦ admit s e
  | some old ↦ if same_content old e then ok s else err conflicting_event
]

unfoldable pub scan_all : Scan → List ResourceEvent → Result LedgerError Scan
scan_all s [] = ok s
scan_all s (e ∷ es) = do scan_all (← scan_event s e) es

unfoldable pub start : ResourceAmount → Scan
start c = record { unique = []; previous = none; replay = init c }

abbrev pub max_deliveries : ℕ
max_deliveries = 4096

-- `_verified`, and the constructor's bound on the deliveries.
unfoldable pub verified : ResourceLedger → Result LedgerError ResourceLedger
verified l = do
  raise_if (ltb max_deliveries (length l.events)) too_many_deliveries
  s ← scan_all (start l.capacity) l.events
  ok (record l { events = s.unique })

-- The loop of `append`, and its last statement.
unfoldable pub append_validated : ResourceLedger → ResourceEvent → Result LedgerError ResourceLedger
append_validated l e = elim (seen (metadata e).event_id l.events) [
  | none ↦ verified (record l { events = l.events ++ e ∷ [] })
  | some old ↦ if same_content old e then ok l else err conflicting_event
]

unfoldable pub append : ResourceLedger → ResourceEvent → Result LedgerError ResourceLedger
append l e = do append_validated (← verified l) e

-- The replay behind `balance`.
unfoldable pub balance : ResourceLedger → Result LedgerError Replay
balance l = do v ← verified l; lift (apply_all (init v.capacity) v.events)
