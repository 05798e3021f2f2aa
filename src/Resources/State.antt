-- ===== src/Resources/State.antt =====
-- The state of `_Replay` in coleman/resources/ledger.py.
use coleman.Base.{ℕ, Bool, false, Option, List, [], Dict, ℤ, pos}
use coleman.Resources.Contracts.{ResourceAmount, IntentEvent, ReserveEvent}

pub data Error : Type 0 where
  incompatible_units reconciliation_failed already_declared stale_at_decision : Error
  retry_not_terminal bad_execution no_reservation already_reserved contained_error : Error
  stale_before_reservation unfit_reservation : Error

-- `_Attempt`. `remaining` and `consumed` never fall below zero: `used` is at most `remaining`.
pub record Attempt : Type 0 where
  pub intent : IntentEvent
  pub reservation : Option ReserveEvent
  pub consumed : ℕ
  pub remaining : ℕ
  pub terminal : Bool
  pub last_event_at : Option ℕ

pub record Replay : Type 0 where
  pub capacity : ResourceAmount
  pub available : ℤ
  pub reserved : ℤ
  pub consumed : ℕ
  pub work : ℕ
  pub overhead : ℕ
  pub attempts : Dict Attempt
  pub overruns : List ℕ
  pub contained : Bool

-- `_Replay.__init__`
unfoldable pub init : ResourceAmount → Replay
init capacity = record {
  capacity = capacity;
  available = pos capacity.value;
  reserved = pos 0;
  consumed = 0;
  work = 0;
  overhead = 0;
  attempts = [];
  overruns = [];
  contained = false;
}
