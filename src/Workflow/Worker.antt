-- ===== src/Workflow/Worker.antt =====
-- The transactions of a worker, in coleman/application/workflow_worker.py. A worker names its job
-- by identity only.
use coleman.Workflow.Rows.{find_row, find_plan}
use coleman.Base.{
  ◌&&◌, Option, err, ℕ, ◌+◌, max, Bool, not, none, some, ltb, leb, ◌==◌, if◌then◌else◌, Result, ok,
  ◌>>=◌, ◌>>◌, raise_if,
}
use coleman.Workflow.Rows.{update_row, validated, load_jobs}
use coleman.Workflow.Records.{
  is_queued, is_live, is_running, State, JobError, JobRecord, ExperimentPlan, Store, Host,
  WorkflowError,
}

-- The changes that `_transition` is called with.
pub data Change : Type 0 where
  count_attempts commit_step finish_trial : ℕ → Change
  await_evaluation : Change
  stop_interrupted stop_failed : JobError → Change

abbrev pub change : Change → JobRecord → JobRecord
change (Change.count_attempts n) job = record job { attempts = n }
change (Change.commit_step n) job = record job { checkpoint_step = n }
change (Change.finish_trial n) job = record job {
  completed_trials = max job.completed_trials n;
  current_trial = none;
}
change Change.await_evaluation job = record job { state = State.awaiting_evaluation }
change (Change.stop_interrupted why) job = record job {
  state = State.interrupted;
  error = some why;
}
change (Change.stop_failed why) job = record job { state = State.failed; error = some why }

unfoldable pub update_job :
    ℕ → (JobRecord → Result WorkflowError JobRecord) → Store → Result WorkflowError Store
update_job job_id body s = do
  jobs ← load_jobs s
  rows ← update_row (λ job. job.job_id == job_id) body jobs
  ok record s { jobs = rows }

module _ (host : Host) where
  unfoldable pub transition_row : Change → JobRecord → Result WorkflowError JobRecord
  transition_row changes job =
      raise_if (not (is_running job.state)) WorkflowError.no_longer_running
      >> (let changed_job = change changes job in
          validated record changed_job { changed = host.now })

  -- `_transition`
  unfoldable pub transition : ℕ → Change → Store → Result WorkflowError Store
  transition job_id changes = update_job job_id (transition_row changes)

  -- `_reserve_attempt`, from the worker's snapshot of its job, the trial, the number of attempts of
  -- the trial on disk, and the plan.
  unfoldable pub reserve_row :
      JobRecord → ExperimentPlan → ℕ → ℕ → JobRecord → Result WorkflowError JobRecord
  reserve_row snapshot plan trial count job =
      raise_if (not (is_running job.state)) WorkflowError.no_longer_running
      >> (raise_if (leb plan.max_attempts count) WorkflowError.attempts_exhausted
          >> validated record job {
            attempts = job.attempts + 1;
            current_trial = some trial;
            checkpoint_step = elim snapshot.current_trial [
              | none ↦ 0
              | some t ↦ if t == trial then snapshot.checkpoint_step else 0
            ];
            changed = host.now;
          })

  unfoldable pub reserve_attempt :
      JobRecord → ExperimentPlan → ℕ → ℕ → Store → Result WorkflowError Store
  reserve_attempt snapshot plan trial count =
      update_job snapshot.job_id (reserve_row snapshot plan trial count)

  -- `_publish_completion`, from the report's fingerprint, its size, and whether the output passes
  -- `_check_output`.
  unfoldable pub complete_row : ℕ → ℕ → Bool → JobRecord → Result WorkflowError JobRecord
  complete_row digest bytes fits job =
      raise_if (not (is_running job.state)) WorkflowError.no_longer_running
      >> (raise_if (ltb 16777216 bytes) WorkflowError.report_too_large
          >> (raise_if (not fits) WorkflowError.output_exceeded
              >> validated record job {
                state = State.completed;
                result_digest = some digest;
                changed = host.now;
              }))

  unfoldable pub publish_completion : ℕ → ℕ → ℕ → Bool → Store → Result WorkflowError Store
  publish_completion job_id digest bytes fits = update_job job_id (complete_row digest bytes fits)

abbrev read_again : JobRecord → Store → Result WorkflowError JobRecord
read_again snapshot s = do
  jobs ← load_jobs s
  elim (find_row (λ job. job.job_id == snapshot.job_id) jobs) [
    | none ↦ err WorkflowError.no_job
    | some current ↦
        raise_if (not ((current.plan_id == snapshot.plan_id) && (current.owner == snapshot.owner)))
          WorkflowError.startup_claim_differs
        >> ok current
  ]

-- `_worker_context`, from the snapshot that a worker reads at its start: what it works on, if it
-- works at all. A queued snapshot is read again after the scheduler's transaction.
unfoldable pub worker_context :
    JobRecord → Store → Result WorkflowError (Option (JobRecord × ExperimentPlan))
worker_context snapshot s =
    if not (is_live snapshot.state)
    then ok none
    else find_plan s.plans snapshot.plan_id snapshot.owner >>= λ plan.
        (if is_queued snapshot.state then read_again snapshot s else ok snapshot) >>= λ job.
        ok (if is_running job.state then some (job, plan) else none)
