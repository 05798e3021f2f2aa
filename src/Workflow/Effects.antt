-- ===== src/Workflow/Effects.antt =====
-- What a step may do: save a plan, let a job in, or move the rows.
use coleman.Base.{◌≡◌, inl, inr, ok}
use coleman.Workflow.Records.{ExperimentPlan, JobRecord, Store}
use coleman.Workflow.Service.{save_plan}
use coleman.Workflow.Steps.{Step}
use coleman.Workflow.Validity.{IsValid, Moves}
use coleman.Workflow.Admission.{Admitted}
use coleman.Workflow.Requests.{admit-cases}
use coleman.Workflow.Transactions.{
  reconcile-Moves, cancel-Moves, requeue-Moves, evaluate-Moves, transition-Moves,
  reserve_attempt-Moves, publish_completion-Moves, cleanup-Moves, request_observation-Moves,
  schedule-Moves,
}

pub data Effect (s s' : Store) : Type 0 where
  saved : (plan : ExperimentPlan) → save_plan plan s ≡ ok s' → Effect s s'
  repeated : s' ≡ s → Effect s s'
  entered : (job : JobRecord) (plan : ExperimentPlan) → Admitted s s' job plan → Effect s s'
  moved : Moves s s' → Effect s s'

pub Step_effect : {s s' : Store} → Step s s' → IsValid s → Effect s s'
Step_effect (Step.saves plan h) v = Effect.saved plan h
Step_effect {s} {s'} (Step.admits owner host request job_id h) v =
    elim (admit-cases owner host request s s' job_id h) [
      | inl r ↦ Effect.repeated r.store
      | inr e ↦ Effect.entered _ e.plan e.admitted
    ]
Step_effect {s} {s'} (Step.reconciles owner host job_id h) v =
    Effect.moved (reconcile-Moves s v s' owner host job_id h)
Step_effect {s} {s'} (Step.cancels owner host job_id h) v =
    Effect.moved (cancel-Moves s v s' owner host job_id h)
Step_effect {s} {s'} (Step.requeues owner host job_id h) v =
    Effect.moved (requeue-Moves s v s' owner host job_id h)
Step_effect {s} {s'} (Step.evaluates owner host job_id h) v =
    Effect.moved (evaluate-Moves s v s' owner host job_id h)
Step_effect {s} {s'} (Step.cleans owner host ids h) v =
    Effect.moved (cleanup-Moves s v s' owner host ids h)
Step_effect {s} {s'} (Step.requests generation h) v =
    Effect.moved (request_observation-Moves s v s' generation h)
Step_effect {s} {s'} (Step.schedules host pending h) v =
    Effect.moved (schedule-Moves s v s' host pending h)
Step_effect {s} {s'} (Step.transitions host job_id changes h) v =
    Effect.moved (transition-Moves s v s' host job_id changes h)
Step_effect {s} {s'} (Step.reserves host snapshot plan trial count h) v =
    Effect.moved (reserve_attempt-Moves s v s' host snapshot plan trial count h)
Step_effect {s} {s'} (Step.completes host job_id digest bytes fits h) v =
    Effect.moved (publish_completion-Moves s v s' host job_id digest bytes fits h)
