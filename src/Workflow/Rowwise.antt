-- ===== src/Workflow/Rowwise.antt =====
-- Each transaction's body on one row: what it keeps, and when it makes a row live or running.
use coleman.Workflow.Records.{is_queued}
use coleman.Workflow.Worker.{Change, transition_row, reserve_row, complete_row}
use coleman.Base.{◌+◌, ◌<◌, ◌⊎◌, Bool, ℕ, ◌≡◌, true, arith, ok}
use coleman.Workflow.Records.{ExperimentPlan, Store, is_running, is_live, JobRecord, Host}
use coleman.Workflow.Rows.{count_live, validated}
use coleman.Workflow.Service.{evaluate_row, requeue_row, expire_row, reconcile_row, cancel_row}
use coleman.Workflow.Evolution.{IsSound, Evolves}

-- The row evolves, stays sound, and does not start to run.
pub record Quiet (job job' : JobRecord) : Type 0 where
  pub evolves : Evolves job job'
  pub sound : IsSound job → IsSound job'
  pub no_start : is_running job'.state ≡ true → is_running job.state ≡ true

-- It does not become live either.
pub record Calm (job job' : JobRecord) : Type 0 where
  pub quiet : Quiet job job'
  pub no_revival : is_live job'.state ≡ true → is_live job.state ≡ true
  pub no_requeue : is_queued job'.state ≡ true → is_queued job.state ≡ true

pub Calm-refl : (job : JobRecord) → Calm job job
Calm-refl job = ground arith

module _ (owner : ℕ) (host : Host) where
  pub expire_row-Calm :
      (retention : ℕ) (job job' : JobRecord)
      → expire_row owner host retention job ≡ ok job'
      → Calm job job'
  unfolding expire_row validated
  expire_row-Calm retention job job' h = ground arith

  -- A row that comes back to the queue does so below the capacity.
  pub requeue_row-Quiet :
      (s : Store) (job job' : JobRecord)
      → requeue_row owner host s job ≡ ok job'
      → Quiet job job'
        × (Calm job job' ⊎ (count_live s.jobs < s.policy.max_running + s.policy.max_queued))
  unfolding requeue_row validated
  requeue_row-Quiet s job job' h = ground arith

  pub evaluate_row-Quiet :
      (s : Store) (job job' : JobRecord)
      → evaluate_row owner host s job ≡ ok job'
      → Quiet job job'
        × (Calm job job' ⊎ (count_live s.jobs < s.policy.max_running + s.policy.max_queued))
  unfolding evaluate_row validated
  evaluate_row-Quiet s job job' h = ground arith

module _ (host : Host) where
  pub reconcile_row-Calm : (job job' : JobRecord) → reconcile_row host job ≡ ok job' → Calm job job'
  unfolding reconcile_row validated
  reconcile_row-Calm job job' h = ground arith

  pub cancel_row-Calm : (job job' : JobRecord) → cancel_row host job ≡ ok job' → Calm job job'
  unfolding cancel_row validated
  cancel_row-Calm job job' h = ground arith

  pub transition_row-Calm :
      (changes : Change) (job job' : JobRecord)
      → transition_row host changes job ≡ ok job'
      → Calm job job'
  unfolding transition_row validated
  transition_row-Calm changes job job' h = ground arith

  pub reserve_row-Calm :
      (snapshot : JobRecord) (plan : ExperimentPlan) (trial count : ℕ) (job job' : JobRecord)
      → reserve_row host snapshot plan trial count job ≡ ok job'
      → Calm job job'
  unfolding reserve_row validated
  reserve_row-Calm snapshot plan trial count job job' h = ground arith

  pub complete_row-Calm :
      (digest bytes : ℕ) (fits : Bool) (job job' : JobRecord)
      → complete_row host digest bytes fits job ≡ ok job'
      → Calm job job'
  unfolding complete_row validated
  complete_row-Calm digest bytes fits job job' h = ground arith
