-- ===== src/Resources/Tests.antt =====
-- Runs of the resource ledger and of the selection, and each theorem at a concrete input.
use coleman.Base.{Bool, All}
use coleman.Base.{
  sort_by, ◌*◌, ◌+◌, ℕ, true, false, ◌≡◌, ◌≢◌, refl, ◌↔◌, ◌⊎◌, none, some, List, [], ◌∷◌, ok, err,
  pos, negsuc, ◌≤ℤ◌, ◌+ℤ◌, ◌-ℤ◌,
}
use coleman.Resources.Contracts.{
  UnitSemantics, ResourceAmount, EventMetadata, ReserveEvent, ResourceEvent, same_content, Outcome,
  Component,
}
use coleman.Resources.Selecting.{
  TestEstimate, ResourceRequest, ResourceSelection, PriorityStatus, Fallback, Disposition, Reason,
  universe, select_validated, select_resources, fill,
}
use coleman.Resources.Selecting.Complete.{IsSelection, select_resources-IsSelection}
use coleman.Resources.State.{Replay, init, reconciliation_failed}
use coleman.Resources.Replay.{
  apply, dispatch, declare_intent, execute_reserve, execute_occupancy, execution, reserve, hold,
  occupy, charge_overhead, settle,
}
use coleman.Resources.Balance.{IsBalanced, init-IsBalanced, apply-IsBalanced}
use coleman.Resources.Overruns.{IsFlagged, Overruns, apply-Overruns}
use coleman.Resources.State.{Attempt}
use coleman.Resources.Containment.{contained-sticky, apply-reconciles}
use coleman.Resources.Ledger.{
  ResourceLedger, verified, append, append_validated, balance, scan_all, scan_event, start,
}
use coleman.Resources.Ledger.Deliveries.{IsKept, verified-deliveries}
use coleman.Resources.Ledger.Log.{Distinct}
use coleman.Resources.Ledger.Append.{IsValidated, append-retry}
use coleman.Resources.Ledger.Log.{Numbered, Distinct, Received, verified-balance}

abbrev runner_ms : UnitSemantics
runner_ms = record { unit = 1; meaning = 2 }

abbrev ms : ℕ → ResourceAmount
ms n = record { value = n; semantics = runner_ms }

abbrev at : ℕ → EventMetadata
at n = record { event_id = 100 + n; sequence = n; event_at = 10 * n; recorded_at = 10 * n }

abbrev declared : ResourceEvent
declared = ResourceEvent.intent (record {
  info = at 1;
  execution_id = 7;
  estimate = record {
    amount = ms 40;
    source_fingerprint = 0;
    observed_at = 0;
    available_at = 0;
    valid_until = 90;
  };
  retry_of = none;
})

abbrev reserved : ResourceEvent
reserved = ResourceEvent.reserve (record { info = at 2; execution_id = 7; amount = ms 40 })

-- Ten units more than the reservation.
abbrev overrun : ResourceEvent
overrun =
    ResourceEvent.occupancy
      (record { info = at 3; execution_id = 7; amount = ms 50; terminal = some Outcome.passed })

abbrev setup : ResourceEvent
setup =
    ResourceEvent.overhead
      (record { info = at 4; component = Component.shared_setup; amount = ms 60 })

abbrev log : List ResourceEvent
log = declared ∷ reserved ∷ overrun ∷ []

abbrev ledger : ResourceLedger
ledger = record {
  ledger_id = 1;
  source_fingerprint = 2;
  configuration_fingerprint = 3;
  capacity = ms 100;
  events = log;
}

-- A delivery that is repeated is dropped.
abbrev noisy : ResourceLedger
noisy = record ledger { events = declared ∷ declared ∷ reserved ∷ overrun ∷ reserved ∷ [] }

abbrev before : Replay
before = init (ms 100)

verified-noisy : verified noisy ≡ ok ledger
unfolding verified scan_all scan_event start init apply dispatch declare_intent execute_reserve
    execute_occupancy execution reserve hold occupy settle same_content ◌+ℤ◌ ◌-ℤ◌
verified-noisy = refl

verified-balance_example :
    Numbered 1 ledger.events
    × Distinct ledger.events
    × Received ledger.events
    × (r : Replay) × (balance ledger ≡ ok r)
    × IsBalanced r
verified-balance_example = verified-balance noisy verified-noisy

verified-deliveries_example :
    Distinct ledger.events × All (IsKept ledger.events) noisy.events × (verified ledger ≡ ok ledger)
verified-deliveries_example = verified-deliveries noisy verified-noisy

append-retry_example : IsValidated ledger × (append ledger overrun ≡ ok ledger)
unfolding append append_validated verified scan_all scan_event start init apply dispatch
    declare_intent execute_reserve execute_occupancy execution reserve hold occupy settle
    same_content ◌+ℤ◌ ◌-ℤ◌
append-retry_example = append-retry noisy overrun refl

abbrev after_intent : Replay
after_intent = record before {
  attempts =
      (
        7,
        record {
          intent = record {
            info = at 1;
            execution_id = 7;
            estimate = record {
              amount = ms 40;
              source_fingerprint = 0;
              observed_at = 0;
              available_at = 0;
              valid_until = 90;
            };
            retry_of = none;
          };
          reservation = none;
          consumed = 0;
          remaining = 0;
          terminal = false;
          last_event_at = none;
        },
      )
      ∷ [];
}

apply-declared : apply (init (ms 100)) declared ≡ ok after_intent
unfolding apply dispatch declare_intent settle init ◌+ℤ◌
apply-declared = refl

apply-IsBalanced_example : IsBalanced after_intent
apply-IsBalanced_example =
    apply-IsBalanced (init (ms 100)) declared (init-IsBalanced (ms 100)) apply-declared

apply-reconciles_example : apply (init (ms 100)) setup ≢ err reconciliation_failed
apply-reconciles_example = apply-reconciles (init (ms 100)) setup (init-IsBalanced (ms 100))

-- A replay whose overhead exceeds the capacity.
abbrev spent : Replay
spent = record {
  capacity = ms 100;
  available = negsuc 19;
  reserved = pos 0;
  consumed = 120;
  work = 0;
  overhead = 120;
  attempts = [];
  overruns = [];
  contained = true;
}

abbrev overspent : Replay
overspent = record spent { available = negsuc 79; consumed = 180; overhead = 180 }

apply-setup : apply spent setup ≡ ok overspent
unfolding apply dispatch charge_overhead settle ◌+ℤ◌ ◌-ℤ◌
apply-setup = refl

-- The replay that holds the reservation, and the one after the overrun.
abbrev attempt : Bool → ℕ → ℕ → ℕ → Attempt
attempt done consumed left last = record {
  intent = record {
    info = at 1;
    execution_id = 7;
    estimate = record {
      amount = ms 40;
      source_fingerprint = 0;
      observed_at = 0;
      available_at = 0;
      valid_until = 90;
    };
    retry_of = none;
  };
  reservation = some (record { info = at 2; execution_id = 7; amount = ms 40 });
  consumed = consumed;
  remaining = left;
  terminal = done;
  last_event_at = some last;
}

abbrev held : Replay
held = record before {
  available = pos 60;
  reserved = pos 40;
  attempts = (7, attempt false 0 40 20) ∷ [];
}

abbrev overran : Replay
overran = record before {
  available = pos 50;
  reserved = pos 0;
  consumed = 50;
  work = 50;
  attempts = (7, attempt true 50 0 30) ∷ [];
  overruns = 7 ∷ [];
  contained = true;
}

apply-overrun : apply held overrun ≡ ok overran
unfolding apply dispatch execute_occupancy execution occupy settle ◌+ℤ◌ ◌-ℤ◌ init
apply-overrun = refl

apply-Overruns_example :
    IsFlagged overran
    × ((overran.contained ≡ true)
        ↔ ((held.contained ≡ true) ⊎ Overruns held overrun ⊎ ¬ (pos 0 ≤ℤ overran.available)))
unfolding init
apply-Overruns_example =
    apply-Overruns held overrun (λ some_over. absurd (some_over refl)) apply-overrun

contained-sticky_example :
    (overspent.contained ≡ true) × ((s : ReserveEvent) → setup ≢ ResourceEvent.reserve s)
contained-sticky_example = contained-sticky spent setup refl apply-setup

abbrev known_cost : ℕ → ℕ → TestEstimate
known_cost id n = record {
  test_id = id;
  estimate = some (record {
    amount = ms n;
    source_fingerprint = 0;
    observed_at = 0;
    available_at = 0;
    valid_until = 90;
  });
}

abbrev request : ResourceRequest
request = record {
  decision_id = 1;
  configuration_fingerprint = 2;
  decided_at = 5;
  capacity = ms 10;
  tests = known_cost 1 4 ∷ known_cost 2 5 ∷ known_cost 3 2 ∷ [];
  ranking = 2 ∷ 1 ∷ 3 ∷ [];
  priority_status = PriorityStatus.available;
  fallback = Fallback.no_action;
}

universe-request : universe request ≡ ok request
unfolding universe sort_by
universe-request = refl

-- The third test no longer fits.
select_resources-request :
    select_resources request
    ≡ ok (record {
      selected_ids = 2 ∷ 1 ∷ [];
      estimated_units = 9;
      semantics = runner_ms;
      disposition = Disposition.ranked_prefix;
      reason = Reason.eligible;
    })
unfolding select_resources select_validated universe sort_by fill
select_resources-request = refl

select_resources-IsSelection_example :
    (s : ResourceSelection) × (select_resources request ≡ ok s) × IsSelection request s
select_resources-IsSelection_example = select_resources-IsSelection request universe-request
