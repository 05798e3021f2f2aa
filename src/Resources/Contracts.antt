-- ===== src/Resources/Contracts.antt =====
-- The resource events and estimates of coleman/resources/contracts.py.
use coleman.Base.{
  not, ltb, leb, Result, ok, ◌>>◌, raise_if, refl, none, some, arith, eq_self, true, some, false,
  ◌≡◌, ℕ, ◌==◌, ◌&&◌, Bool, Option,
}

-- A unit symbol and its versioned meaning.
pub record UnitSemantics : Type 0 where
  pub unit : ℕ
  pub meaning : ℕ

pub record ResourceAmount : Type 0 where
  pub value : ℕ
  pub semantics : UnitSemantics

pub record ResourceEstimate : Type 0 where
  pub amount : ResourceAmount
  pub source_fingerprint : ℕ
  pub observed_at : ℕ
  pub available_at : ℕ
  pub valid_until : ℕ

pub data ResourceContractError : Type 0 where
  reversed_times receipt_before_source : ResourceContractError

-- `ResourceEstimate._time`
unfoldable pub check_times : ResourceEstimate → Result ResourceContractError ResourceEstimate
check_times e = do
  raise_if (not (leb e.observed_at e.available_at && leb e.available_at e.valid_until))
      reversed_times
  ok e

pub data Outcome : Type 0 where
  passed failed unknown timeout partial cancelled : Outcome

pub data Component : Type 0 where
  dispatch shared_setup retry_scheduling : Component

pub record EventMetadata : Type 0 where
  pub event_id : ℕ
  pub sequence : ℕ
  pub event_at : ℕ
  pub recorded_at : ℕ

-- `EventMetadata._receipt`
unfoldable pub check_receipt : EventMetadata → Result ResourceContractError EventMetadata
check_receipt e = do raise_if (ltb e.recorded_at e.event_at) receipt_before_source; ok e

pub record IntentEvent : Type 0 where
  pub info : EventMetadata
  pub execution_id : ℕ
  pub estimate : ResourceEstimate
  pub retry_of : Option ℕ

pub record ReserveEvent : Type 0 where
  pub info : EventMetadata
  pub execution_id : ℕ
  pub amount : ResourceAmount

pub record OccupancyEvent : Type 0 where
  pub info : EventMetadata
  pub execution_id : ℕ
  pub amount : ResourceAmount
  pub terminal : Option Outcome

pub record OverheadEvent : Type 0 where
  pub info : EventMetadata
  pub component : Component
  pub amount : ResourceAmount

pub data ResourceEvent : Type 0 where
  intent : IntentEvent → ResourceEvent
  reserve : ReserveEvent → ResourceEvent
  occupancy : OccupancyEvent → ResourceEvent
  overhead : OverheadEvent → ResourceEvent

abbrev pub metadata : ResourceEvent → EventMetadata
metadata (ResourceEvent.intent e) = e.info
metadata (ResourceEvent.reserve e) = e.info
metadata (ResourceEvent.occupancy e) = e.info
metadata (ResourceEvent.overhead e) = e.info

-- `==` on two units, and on two amounts.
abbrev pub same_semantics : UnitSemantics → UnitSemantics → Bool
same_semantics a b = a.unit == b.unit && a.meaning == b.meaning

abbrev pub same_amount : ResourceAmount → ResourceAmount → Bool
same_amount a b = a.value == b.value && same_semantics a.semantics b.semantics

-- Equality of the canonical JSON of two events: all fields are equal.
abbrev pub same_info : EventMetadata → EventMetadata → Bool
same_info a b =
    a.event_id == b.event_id
    && a.sequence == b.sequence
    && a.event_at == b.event_at
    && a.recorded_at == b.recorded_at

abbrev pub same_estimate : ResourceEstimate → ResourceEstimate → Bool
same_estimate a b =
    same_amount a.amount b.amount
    && a.source_fingerprint == b.source_fingerprint
    && a.observed_at == b.observed_at
    && a.available_at == b.available_at
    && a.valid_until == b.valid_until

abbrev pub same_id : Option ℕ → Option ℕ → Bool
same_id none none = true
same_id (some a) (some b) = a == b
same_id _ _ = false

abbrev pub outcome_code : Option Outcome → ℕ
outcome_code none = 0
outcome_code (some passed) = 1
outcome_code (some failed) = 2
outcome_code (some unknown) = 3
outcome_code (some timeout) = 4
outcome_code (some partial) = 5
outcome_code (some cancelled) = 6

abbrev pub component_code : Component → ℕ
component_code dispatch = 0
component_code shared_setup = 1
component_code retry_scheduling = 2

unfoldable pub same_content : ResourceEvent → ResourceEvent → Bool
same_content (ResourceEvent.intent a) (ResourceEvent.intent b) =
    same_info a.info b.info
    && a.execution_id == b.execution_id
    && same_estimate a.estimate b.estimate
    && same_id a.retry_of b.retry_of
same_content (ResourceEvent.reserve a) (ResourceEvent.reserve b) =
    same_info a.info b.info && a.execution_id == b.execution_id && same_amount a.amount b.amount
same_content (ResourceEvent.occupancy a) (ResourceEvent.occupancy b) =
    same_info a.info b.info
    && a.execution_id == b.execution_id
    && same_amount a.amount b.amount
    && outcome_code a.terminal == outcome_code b.terminal
same_content (ResourceEvent.overhead a) (ResourceEvent.overhead b) =
    same_info a.info b.info
    && component_code a.component == component_code b.component
    && same_amount a.amount b.amount
same_content _ _ = false

same_info_self : (a : EventMetadata) → same_info a a ≡ true
same_info_self a = ground arith

same_amount_self : (a : ResourceAmount) → same_amount a a ≡ true
same_amount_self a = ground arith

same_estimate_self : (a : ResourceEstimate) → same_estimate a a ≡ true
same_estimate_self a = ground arith

same_id_self : (o : Option ℕ) → same_id o o ≡ true
same_id_self none = refl
same_id_self (some a) = ground arith

pub same_content_self : (e : ResourceEvent) → same_content e e ≡ true
unfolding same_content
same_content_self (ResourceEvent.intent e) = rw (
  same_info_self e.info,
  eq_self e.execution_id,
  same_estimate_self e.estimate,
  same_id_self e.retry_of,
)
same_content_self (ResourceEvent.reserve e) =
    rw (same_info_self e.info, eq_self e.execution_id, same_amount_self e.amount)
same_content_self (ResourceEvent.occupancy e) = rw (
  same_info_self e.info,
  eq_self e.execution_id,
  same_amount_self e.amount,
  eq_self (outcome_code e.terminal),
)
same_content_self (ResourceEvent.overhead e) =
    rw (same_info_self e.info, eq_self (component_code e.component), same_amount_self e.amount)
